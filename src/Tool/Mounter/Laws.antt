-- ===== src/Tool/Mounter/Laws.antt =====
-- What the configuration that applyMountFlags writes says, read line by line.
use dingofs_csi.Common.{
  String, Bool, true, false, ◌||◌, List, [], ◌∷◌, Option, none, some, Dict, All, ◌≡◌, refl, ap, ◌∙◌,
  inl, inr, arith, ◌==◌, if◌then◌else◌, Bool-cases, Option-cases, if_cases, map, lookup,
  lookup-delete, lookup-insert, insert, delete, nat_eq, has_prefix, eq_of_==,
}
use Prim.Native.String.{◌∷◌ as cons_char, [] as no_text}
use Prim.Native.Char.{Char, code}
use text.Mathlib.TextLemmas.{nil-append, cons-append}
use dingofs_csi.Tool.Mounter.Config.{
  before, split_first, entry_of, insert_entry, read_config, apply_flags, assignment, new_value,
  written, new_lines,
}

abbrev pub value_at : (key : String) → Option (String × String) → Option String → Option String
value_at key none rest = rest
value_at key (some (k, v)) rest = if k == key then some v else rest

abbrev pub is_named : (key : String) → Option (String × String) → Bool
is_named key none = false
is_named key (some (k, v)) = k == key

-- The value that the first line with this name gives.
abbrev pub first_value : (key : String) → List String → Option String
first_value key [] = none
first_value key (line ∷ lines) = value_at key (entry_of line) (first_value key lines)

-- A line has this name.
abbrev pub has_line : (key : String) → List String → Bool
has_line key [] = false
has_line key (line ∷ lines) = is_named key (entry_of line) || has_line key lines

-- An assignment to the key is read back.
abbrev IsName : String → Type 0
IsName key = (value : String) → entry_of (assignment key value) ≡ some (key, value)

before_cons :
    (c : Char) (o : Option (String × String)) (key old : String)
    → before c o ≡ some (key, old)
    → (k : String) × (o ≡ some (k, old)) × (key ≡ cons_char c k)
before_cons c none key old e = cc
before_cons c (some (k, v)) key old e = (k, ground arith, ground arith)

first_pair :
    {k key v value : String}
    → ◌≡◌ {A = Option (String × String)} (some (k, v)) (some (key, value))
    → key ≡ k
first_pair e = ground arith

split_first-assignment :
    (s : String) (key old value : String)
    → split_first 61 s ≡ some (key, old)
    → split_first 61 (assignment key value) ≡ some (key, value)
unfolding split_first
split_first-assignment no_text key old value e = cc
split_first-assignment (cons_char c s) key old value e = elim (Bool-cases (nat_eq (code c) 61)) [
  | inl t ↦
      let k : key ≡ "" = first_pair (rw t at e) in rw k (rw (nil-append (cons_char "=" value)) refl)
  | inr t ↦
      let (k, f, g) = before_cons c (split_first 61 s) key old (rw t at e) in
      rw g (
        rw (cons-append c k (cons_char "=" value))
          (rw t (ap (before c) (split_first-assignment s k old value f))))
]

has_prefix-assignment :
    (line key old value : String)
    → has_prefix line "#" ≡ false
    → split_first 61 line ≡ some (key, old)
    → has_prefix (assignment key value) "#" ≡ false
unfolding split_first has_prefix
has_prefix-assignment no_text key old value h e = cc
has_prefix-assignment (cons_char c s) key old value h e = elim (Bool-cases (nat_eq (code c) 61)) [
  | inl t ↦
      let k : key ≡ "" = first_pair (rw t at e) in rw k (rw (nil-append (cons_char "=" value)) refl)
  | inr t ↦
      let (k, f, g) = before_cons c (split_first 61 s) key old (rw t at e) in
      rw g (rw (cons-append c k (cons_char "=" value)) h)
]

-- The name of a line is read back from an assignment to it; so is the name of a flag that is no
-- comment.
entry-IsName :
    (line key old : String)
    → has_prefix line "#" ≡ false
    → split_first 61 line ≡ some (key, old)
    → IsName key
unfolding entry_of
entry-IsName line key old h e value =
    rw (has_prefix-assignment line key old value h e) (split_first-assignment line key old value e)

entry_of-some :
    (line key old : String)
    → entry_of line ≡ some (key, old)
    → (has_prefix line "#" ≡ false) × (split_first 61 line ≡ some (key, old))
unfolding entry_of
entry_of-some line key old e = elim (Bool-cases (has_prefix line "#")) [
  | inl t ↦
      let f : ◌≡◌ {A = Option (String × String)} none (some (key, old)) = rw t at e in absurd (cc)
  | inr t ↦ (t, rw t at e)
]

line-IsName : (line key old : String) → entry_of line ≡ some (key, old) → IsName key
line-IsName line key old e =
    let (h, f) = entry_of-some line key old e in entry-IsName line key old h f

abbrev entry_value : (uuid k old : String) → Option String → String
entry_value uuid k old none = old
entry_value uuid k old (some value) = new_value uuid k value

-- What the line that is written for one says.
abbrev new_entry :
    (uuid : String) → Option (String × String) → (config : Dict) → Option (String × String)
new_entry uuid none config = none
new_entry uuid (some (k, old)) config = some (k, entry_value uuid k old (lookup k config))

abbrev AreNames : Dict → Type 0
AreNames = All (λ entry. IsName entry.0)

insert-AreNames :
    (key value : String) (config : Dict)
    → IsName key
    → AreNames config
    → AreNames (insert key value config)
unfolding insert
insert-AreNames key value [] n ns = (n, tt)
insert-AreNames key value ((k, v) ∷ config) n (m, ms) =
    if_cases AreNames (k == key) ((key, value) ∷ config) ((k, v) ∷ insert key value config)
      (λ _. (n, ms)) λ _. (m, insert-AreNames key value config n ms)

delete-AreNames : (key : String) (config : Dict) → AreNames config → AreNames (delete key config)
unfolding delete
delete-AreNames key [] ns = tt
delete-AreNames key ((k, v) ∷ config) (m, ms) =
    if_cases AreNames (k == key) (delete key config) ((k, v) ∷ delete key config)
      (λ _. delete-AreNames key config ms) λ _. (m, delete-AreNames key config ms)

insert_entry-AreNames :
    (o : Option (String × String)) (config : Dict)
    → ((key old : String) → o ≡ some (key, old) → IsName key)
    → AreNames config
    → AreNames (insert_entry o config)
insert_entry-AreNames none config f ns = ns
insert_entry-AreNames (some (key, value)) config f ns =
    insert-AreNames key value config (f key value refl) ns

read_config-AreNames :
    (lines : List String) (config : Dict) → AreNames config → AreNames (read_config lines config)
unfolding read_config
read_config-AreNames [] config ns = ns
read_config-AreNames (line ∷ lines) config ns =
    read_config-AreNames lines _
      (insert_entry-AreNames (entry_of line) config (line-IsName line) ns)

apply_flags-AreNames :
    (flags : List String) (config : Dict)
    → All (λ flag. has_prefix flag "#" ≡ false) flags
    → AreNames config
    → AreNames (apply_flags flags config)
unfolding apply_flags
apply_flags-AreNames [] config hs ns = ns
apply_flags-AreNames (flag ∷ flags) config (h, hs) ns = apply_flags-AreNames flags _ hs (
    insert_entry-AreNames (split_first 61 flag) config (λ key old e. entry-IsName flag key old h e)
      ns)

or_false : (a b : Bool) → (a || b) ≡ false → (a ≡ false) × (b ≡ false)
or_false true b e = absurd (cc)
or_false false b e = (refl, e)

first_value-map :
    (key : String) (config : Dict)
    → AreNames config
    → first_value key (map (λ (k, v). assignment k v) config) ≡ lookup key config
unfolding lookup
first_value-map key [] ns = refl
first_value-map key ((k, v) ∷ config) (n, ns) = rw (n v) (rw (first_value-map key config ns) refl)

module _ (uuid key : String) where
  -- The first value of a written line and those after it.
  first_value-written :
      (line : String) (o : Option (String × String)) (config : Dict) (rest : Option String)
      → entry_of line ≡ o
      → value_at key (entry_of (written uuid line o config).0) rest
        ≡ value_at key (new_entry uuid o config) rest
  first_value-written line none config rest e = rw e refl
  first_value-written line (some (k, old)) config rest e = elim (Option-cases (lookup k config)) [
    | inl g ↦ rw g (rw e refl)
    | inr (v, g) ↦ rw g (rw (line-IsName line k old e (new_value uuid k v)) refl)
  ]

  left-AreNames :
      (line : String) (o : Option (String × String)) (config : Dict)
      → AreNames config
      → AreNames (written uuid line o config).1
  left-AreNames line none config ns = ns
  left-AreNames line (some (k, old)) config ns = elim (Option-cases (lookup k config)) [
    | inl g ↦ rw g ns
    | inr (v, g) ↦ rw g (delete-AreNames k config ns)
  ]

  -- An entry of another name leaves what is left under the key.
  lookup-left :
      (line : String) (o : Option (String × String)) (config : Dict)
      → is_named key o ≡ false
      → lookup key (written uuid line o config).1 ≡ lookup key config
  lookup-left line none config d = refl
  lookup-left line (some (k, old)) config d = elim (Option-cases (lookup k config)) [
    | inl g ↦ rw g refl
    | inr (v, g) ↦ rw g (lookup-delete k key config ∙ rw d refl)
  ]

  value_at-other :
      (o : Option (String × String)) (config : Dict) (rest : Option String)
      → is_named key o ≡ false
      → value_at key (new_entry uuid o config) rest ≡ rest
  value_at-other none config rest d = refl
  value_at-other (some (k, old)) config rest d = rw d refl

  first_value-absent :
      (lines : List String) (config : Dict)
      → has_line key lines ≡ false
      → AreNames config
      → first_value key (new_lines uuid lines config) ≡ lookup key config
  unfolding new_lines
  first_value-absent [] config e ns = first_value-map key config ns
  first_value-absent (line ∷ lines) config e ns =
      let (differs, later) = or_false (is_named key (entry_of line)) (has_line key lines) e in
      first_value-written line (entry_of line) config _ refl
      ∙ (value_at-other (entry_of line) config _ differs
          ∙ (first_value-absent lines _ later (left-AreNames line (entry_of line) config ns)
              ∙ lookup-left line (entry_of line) config differs))

  value_at-same :
      (o : Option (String × String)) (config : Dict) (rest : Option String) (v : String)
      → is_named key o ≡ true
      → lookup key config ≡ some v
      → value_at key (new_entry uuid o config) rest ≡ some (new_value uuid key v)
  value_at-same none config rest v d g = cc
  value_at-same (some (k, old)) config rest v d g =
      let same : k ≡ key = eq_of_== k key d in rw d (rw same (rw g refl))

  first_value-present :
      (lines : List String) (config : Dict) (v : String)
      → has_line key lines ≡ true
      → lookup key config ≡ some v
      → AreNames config
      → first_value key (new_lines uuid lines config) ≡ some (new_value uuid key v)
  unfolding new_lines
  first_value-present [] config v e g ns = cc
  first_value-present (line ∷ lines) config v e g ns =
      elim (Bool-cases (is_named key (entry_of line))) [
        | inl same ↦
            first_value-written line (entry_of line) config _ refl
            ∙ value_at-same (entry_of line) config _ v same g
        | inr differs ↦
            first_value-written line (entry_of line) config _ refl
            ∙ (value_at-other (entry_of line) config _ differs
                ∙ first_value-present lines _ v (rw differs at e)
                    (lookup-left line (entry_of line) config differs ∙ g)
                    (left-AreNames line (entry_of line) config ns))
      ]

-- The value of a configuration item, for a mount with this UUID: of the cache directories, where the
-- file has them, each is made one of the mount.
abbrev pub value_for : (uuid key : String) → (in_file : Bool) → Option String → Option String
value_for uuid key in_file none = none
value_for uuid key false (some value) = some value
value_for uuid key true (some value) = some (new_value uuid key value)

abbrev pub or_first : Option String → Option String → Option String
or_first none later = later
or_first (some value) later = some value

-- The value of the last of these texts with this name.
abbrev pub last_value :
    (key : String) → (String → Option (String × String)) → List String → Option String
last_value key entry [] = none
last_value key entry (x ∷ xs) = or_first (last_value key entry xs) (value_at key (entry x) none)

or_first_assoc : (a b c : Option String) → or_first a (or_first b c) ≡ or_first (or_first a b) c
or_first_assoc none b c = refl
or_first_assoc (some a) b c = refl

or_first-none : (a : Option String) → or_first a none ≡ a
or_first-none none = refl
or_first-none (some a) = refl

lookup-insert_entry :
    (key : String) (o : Option (String × String)) (config : Dict)
    → lookup key (insert_entry o config) ≡ or_first (value_at key o none) (lookup key config)
lookup-insert_entry key none config = refl
lookup-insert_entry key (some (k, v)) config = elim (Bool-cases (k == key)) [
  | inl e ↦ lookup-insert k key v config ∙ rw e refl
  | inr e ↦ lookup-insert k key v config ∙ rw e refl
]

lookup-read_config :
    (key : String) (lines : List String) (config : Dict)
    → lookup key (read_config lines config)
      ≡ or_first (last_value key entry_of lines) (lookup key config)
unfolding read_config
lookup-read_config key [] config = refl
lookup-read_config key (line ∷ lines) config =
    lookup-read_config key lines _
    ∙ (rw (lookup-insert_entry key (entry_of line) config)
        (or_first_assoc (last_value key entry_of lines) _ _))

lookup-apply_flags :
    (key : String) (flags : List String) (config : Dict)
    → lookup key (apply_flags flags config)
      ≡ or_first (last_value key (split_first 61) flags) (lookup key config)
unfolding apply_flags
lookup-apply_flags key [] config = refl
lookup-apply_flags key (flag ∷ flags) config =
    lookup-apply_flags key flags _
    ∙ (rw (lookup-insert_entry key (split_first 61 flag) config)
        (or_first_assoc (last_value key (split_first 61) flags) _ _))

lookup-nil : (key : String) → lookup {V = String} key [] ≡ none
unfolding lookup
lookup-nil key = refl

-- The last flag with the name, or else the last line of the file with it.
abbrev pub setting_of : (key : String) → (flags lines : List String) → Option String
setting_of key flags lines =
    or_first (last_value key (split_first 61) flags) (last_value key entry_of lines)

value_or_later :
    (a b : Option String) (v : String) → b ≡ some v → (w : String) × (or_first a b ≡ some w)
value_or_later none b v e = (v, e)
value_or_later (some a) b v e = (a, refl)

last_value-named :
    (key : String) (lines : List String)
    → has_line key lines ≡ true
    → (v : String) × (last_value key entry_of lines ≡ some v)
last_value-named key [] e = cc
last_value-named key (line ∷ lines) e = elim (Bool-cases (is_named key (entry_of line))) [
  | inl same ↦
      let (v, f) = named_value (entry_of line) same in
      value_or_later (last_value key entry_of lines) _ v f
  | inr differs ↦ let (v, f) = last_value-named key lines (rw differs at e) in (v, rw f refl)
]
  where
    named_value :
        (o : Option (String × String))
        → is_named key o ≡ true
        → (v : String) × (value_at key o none ≡ some v)
    named_value none e = cc
    named_value (some (k, v)) e = (v, rw e refl)

value_for-absent : (uuid key : String) (o : Option String) → o ≡ value_for uuid key false o
value_for-absent uuid key none = refl
value_for-absent uuid key (some v) = refl

lookup-config :
    (key : String) (flags lines : List String)
    → lookup key (apply_flags flags (read_config lines [])) ≡ setting_of key flags lines
lookup-config key flags lines =
    lookup-apply_flags key flags (read_config lines [])
    ∙ rw (lookup-read_config key lines [])
        (rw (lookup-nil key) (rw (or_first-none (last_value key entry_of lines)) refl))

-- In the configuration that applyMountFlags writes, for flags that do not begin with a number
-- sign, the first line with a name gives the value of the last flag with that name, or else of
-- the last line of the old configuration with it, and no line has the name where neither has;
-- only for the cache directories, and only where the old configuration has a line for them, it is
-- that value with the directories of the mount.
pub first_value-new_lines :
    (uuid key : String) (flags lines : List String)
    → All (λ flag. has_prefix flag "#" ≡ false) flags
    → first_value key (new_lines uuid lines (apply_flags flags (read_config lines [])))
      ≡ value_for uuid key (has_line key lines) (setting_of key flags lines)
first_value-new_lines uuid key flags lines hs =
    let config = apply_flags flags (read_config lines []) in
    let ns = apply_flags-AreNames flags _ hs (read_config-AreNames lines [] tt) in
    let found : lookup key config ≡ setting_of key flags lines = lookup-config key flags lines in
    elim (Bool-cases (has_line key lines)) [
      | inl e ↦
          let (old, f) = last_value-named key lines e in
          let (v, g) =
            value_or_later (last_value key (split_first 61) flags) (last_value key entry_of lines)
              old f in
          rw e (rw g (first_value-present uuid key lines config v e (found ∙ g) ns))
      | inr e ↦ rw e (
          first_value-absent uuid key lines config e ns
          ∙ (found ∙ value_for-absent uuid key (setting_of key flags lines)))
    ]
