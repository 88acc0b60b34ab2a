-- ===== src/Settings/Options/Laws.antt =====
-- Statements about the options of pkg/config/dfs_setting.go.
use dingofs_csi.Common.{
  ℕ, ◌≤◌, String, true, false, List, [], ◌∷◌, ◌≡◌, ◌↔◌, ◌⊎◌, inl, inr, refl, arith, ◌==◌, any, All,
  ltb, split, Bool-cases,
}
use dingofs_csi.Common.Exec.{Result, ok, err}
use dingofs_csi.Settings.Options.{
  strip_option, strip_format_options, trim_space, Floats, parse_to_bytes, check_size, valid_parts,
  cons_result, valid_option, gen_and_valid_options, assigned,
}

-- The two lists have the same keys, and the same values but for keys that are to be stripped,
-- where both have some value.
abbrev pub AreAlike : List String → List (String × String) → List (String × String) → Type 0
AreAlike stripped_keys [] [] = Unit {0}
AreAlike stripped_keys ((name, value) ∷ ps) ((name', value') ∷ qs) =
    (name ≡ name')
    × ((value ≡ value')
        ⊎ ((any (λ key. key == name) stripped_keys ≡ true)
            × ((value == "") ≡ false)
            × ((value' == "") ≡ false)))
    × AreAlike stripped_keys ps qs
AreAlike stripped_keys _ _ = ⊥

strip_option-same :
    (stripped_keys : List String) (name value value' : String)
    → any (λ key. key == name) stripped_keys ≡ true
    → (value == "") ≡ false
    → (value' == "") ≡ false
    → strip_option stripped_keys (name, value) ≡ strip_option stripped_keys (name, value')
unfolding strip_option
strip_option-same stripped_keys name value value' hit e e' = rw (e, e', hit) refl

-- What StripFormatOptions prints does not depend on the values of the keys that are to be
-- stripped: two lists of format options with the same keys, whose values differ only under such
-- keys, where both have some value, are printed alike.
strip_format_options-AreAlike :
    (stripped_keys : List String) (ps qs : List (String × String))
    → AreAlike stripped_keys ps qs
    → strip_format_options ps stripped_keys ≡ strip_format_options qs stripped_keys
unfolding strip_format_options
strip_format_options-AreAlike stripped_keys [] [] a = refl
strip_format_options-AreAlike stripped_keys ((name, value) ∷ ps) ((name', value') ∷ qs)
      (n, inl v, a) =
    rw (n, v, strip_format_options-AreAlike stripped_keys ps qs a) refl
strip_format_options-AreAlike stripped_keys ((name, value) ∷ ps) ((name', value') ∷ qs)
      (n, inr (hit, e, e'), a) =
    rw
      (
        strip_option-same stripped_keys name value value' hit e e',
        n,
        strip_format_options-AreAlike stripped_keys ps qs a,
      )
      refl
strip_format_options-AreAlike stripped_keys _ _ a = absurd a

abbrev pub Succeeds : {A : Type 0} → Result A → Type 0
Succeeds {A} r = (a : A) × (r ≡ ok a)

module _ {F : Type 0} (fl : Floats F) (memory_limit : ℕ) where
  -- A mount option by its parts at "=": it has at most two, and a buffer size has a size in bytes
  -- that is at most the memory limit.
  abbrev pub FitsBy : List String → Type 0
  FitsBy (name ∷ value ∷ []) =
      ((name == "buffer-size") ≡ false)
      ⊎ ((size : ℕ) × (parse_to_bytes fl value ≡ ok size) × (size ≤ memory_limit))
  FitsBy (a ∷ b ∷ c ∷ rest) = ⊥
  FitsBy _ = Unit {0}

  abbrev pub Fits : String → Type 0
  Fits option = FitsBy (split (trim_space option) "=")

  check_size_iff :
      (option : String) (r : Result ℕ)
      → Succeeds (check_size fl memory_limit option r)
        ↔ ((size : ℕ) × (r ≡ ok size) × (size ≤ memory_limit))
  check_size_iff option (err e) = (λ (a, f). absurd cc, λ (size, f, l). absurd cc)
  check_size_iff option (ok size) = elim (Bool-cases (ltb memory_limit size)) [
    | inl big ↦ rw big (
      λ (a, f). absurd cc,
      λ (n, f, l). absurd (let e : size ≡ n = cc in ground (arith, big, l, e)),
    )
    | inr small ↦ rw small (λ (a, f). (size, refl, ground (arith, small)), λ _. (option, refl))
  ]

  valid_parts_iff :
      (option : String) (parts : List String)
      → Succeeds (valid_parts fl memory_limit option parts) ↔ FitsBy parts
  valid_parts_iff option [] = (λ _. tt, λ _. (option, refl))
  valid_parts_iff option (a ∷ []) = (λ _. tt, λ _. (option, refl))
  valid_parts_iff option (name ∷ value ∷ []) = elim (Bool-cases (name == "buffer-size")) [
    | inr free ↦ rw free (λ _. inl refl, λ _. (_, refl))
    | inl sized_name ↦
        let (to, from) =
          check_size_iff (assigned (trim_space name) (trim_space value))
            (parse_to_bytes fl value) in
        rw sized_name (λ k. inr (to k), sized from)
  ]
    where
      sized : {B C : Type 0} → (B → C) → (true ≡ false) ⊎ B → C
      sized f (inl e) = absurd cc
      sized f (inr b) = f b
  valid_parts_iff option (a ∷ b ∷ c ∷ rest) = (λ (k, f). absurd cc, λ i. absurd i)

  cons_result_iff :
      (r : Result String) (rest : Result (List String))
      → Succeeds (cons_result fl r rest) ↔ (Succeeds r × Succeeds rest)
  cons_result_iff (err e) rest = (λ (k, f). absurd cc, λ ((k, f), l). absurd cc)
  cons_result_iff (ok o) (err e) = (λ (k, f). absurd cc, λ (l, (k, f)). absurd cc)
  cons_result_iff (ok o) (ok os) = (λ _. ((o, refl), (os, refl)), λ _. (o ∷ os, refl))

  -- GenAndValidOptions accepts a list of mount options exactly if each of them, without the
  -- spaces around it, has at most two parts at the equals sign, and for the name buffer-size a
  -- value that ParseToBytes reads as a number of bytes that is at most the memory limit.
  pub gen_and_valid_options_iff :
      (options : List String)
      → Succeeds (gen_and_valid_options fl memory_limit options) ↔ All Fits options
  unfolding gen_and_valid_options valid_option
  gen_and_valid_options_iff [] = (λ _. tt, λ _. ([], refl))
  gen_and_valid_options_iff (option ∷ options) =
      let (to, from) =
        cons_result_iff (valid_option fl memory_limit option)
          (gen_and_valid_options fl memory_limit options) in
      let (to', from') = valid_parts_iff (trim_space option) (split (trim_space option) "=") in
      let (to'', from'') = gen_and_valid_options_iff options in
      (λ k. (to' (to k).0, to'' (to k).1), λ (f, fs). from (from' f, from'' fs))
