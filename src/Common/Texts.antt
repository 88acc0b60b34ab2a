-- ===== src/Common/Texts.antt =====
-- The functions of Go's package strings that the code calls, over the characters of a text.
pub mod Splitting
pub mod Words
use Prim.Native.Nat.{ℕ, zero, suc, ◌-◌}
use Prim.Native.Char.{Char, code}
use Prim.Native.String
use Prim.Native.String.{String, [], ◌∷◌}
use mathlib.Core.Bool.{Bool, true, false, ◌&&◌, ◌||◌}
use mathlib.Core.Option.{Option, none, some}
use mathlib.Core.List.{List}
use dingofs_csi.Common.Tests.{nat_eq, leb, ltb, if◌then◌else◌}

-- The characters of a text; its length in bytes where it is ASCII.
unfoldable pub text_length : String → ℕ
text_length [] = 0
text_length (c ∷ s) = suc (text_length s)

unfoldable pub has_prefix : String → String → Bool
has_prefix s [] = true
has_prefix [] (d ∷ p) = false
has_prefix (c ∷ s) (d ∷ p) = nat_eq (code c) (code d) && has_prefix s p

unfoldable pub contains : String → String → Bool
unfolding has_prefix
contains [] sub = has_prefix [] sub
contains (c ∷ s) sub = has_prefix (c ∷ s) sub || contains s sub

-- `s[n:]`
unfoldable pub drop_text : ℕ → String → String
drop_text zero s = s
drop_text (suc n) [] = []
drop_text (suc n) (c ∷ s) = drop_text n s

-- `s[:n]`
unfoldable pub take_text : ℕ → String → String
take_text zero s = []
take_text (suc n) [] = []
take_text (suc n) (c ∷ s) = c ∷ take_text n s

unfoldable pub trim_prefix : String → String → String
unfolding has_prefix text_length drop_text
trim_prefix s p = if has_prefix s p then drop_text (text_length p) s else s

unfoldable pub reverse_onto : String → String → String
reverse_onto [] out = out
reverse_onto (c ∷ s) out = reverse_onto s (c ∷ out)

unfoldable pub has_suffix : String → String → Bool
unfolding has_prefix reverse_onto
has_suffix s p = has_prefix (reverse_onto s []) (reverse_onto p [])

unfoldable pub trim_suffix : String → String → String
unfolding has_suffix text_length take_text
trim_suffix s p = if has_suffix s p then take_text (text_length s - text_length p) s else s

-- The position of the first occurrence.
unfoldable pub index : String → String → Option ℕ
unfolding has_prefix
index [] sub = if has_prefix [] sub then some 0 else none
index (c ∷ s) sub =
    let later : Option ℕ = elim (index s sub) [ none ↦ none | some n ↦ some (suc n) ] in
    if has_prefix (c ∷ s) sub then some 0 else later

-- The position of the last occurrence.
unfoldable pub last_index : String → String → Option ℕ
unfolding has_prefix
last_index [] sub = if has_prefix [] sub then some 0 else none
last_index (c ∷ s) sub = elim (last_index s sub) [
  | some n ↦ some (suc n)
  | none ↦ if has_prefix (c ∷ s) sub then some 0 else none
]

abbrev pub push : String → Char → String
push s c = String.◌++◌ s (c ∷ [])

-- The loop of `strings.Split`: `skip` characters of a separator are still to be passed.
unfoldable pub split_from : String → ℕ → String → String → List String
split_from sep skip cur [] = List.◌∷◌ cur List.[]
split_from sep (suc skip) cur (c ∷ s) = split_from sep skip cur s
split_from sep zero cur (c ∷ s) =
    let hit = List.◌∷◌ cur (split_from sep (text_length sep - 1) [] s) in
    let miss = split_from sep zero (push cur c) s in if has_prefix (c ∷ s) sep then hit else miss

-- `strings.Split` at a separator that is not empty.
unfoldable pub split : String → String → List String
unfolding split_from text_length has_prefix
split s sep = split_from sep 0 [] s

-- unicode.IsSpace on ASCII.
abbrev pub is_space : ℕ → Bool
is_space c = nat_eq c 32 || (leb 9 c && leb c 13)

abbrev pub flush : String → List String → List String
flush [] rest = rest
flush (c ∷ s) rest = List.◌∷◌ (c ∷ s) rest

unfoldable pub fields_from : String → String → List String
fields_from cur [] = flush cur List.[]
fields_from cur (c ∷ s) =
    let cut = flush cur (fields_from [] s) in
    let longer = fields_from (push cur c) s in if is_space (code c) then cut else longer

-- `strings.Fields`
unfoldable pub fields : String → List String
unfolding fields_from
fields s = fields_from [] s

-- The last element, which Go reads by `xs[len(xs)-1]`.
abbrev pub last_text : List String → Option String
last_text List.[] = none
last_text (List.◌∷◌ x List.[]) = some x
last_text (List.◌∷◌ x (List.◌∷◌ y xs)) = last_text (List.◌∷◌ y xs)

unfoldable pub drop_while_is : ℕ → String → String
drop_while_is d [] = []
drop_while_is d (c ∷ s) = let rest = drop_while_is d s in if nat_eq (code c) d then rest else c ∷ s

-- `strings.Trim` at a cutset of one character.
unfoldable pub trim : ℕ → String → String
unfolding drop_while_is reverse_onto
trim d s = reverse_onto (drop_while_is d (reverse_onto (drop_while_is d s) [])) []

-- `s[len(s)-n:]`, which panics on a shorter text.
unfoldable pub last_chars : ℕ → String → Option String
unfolding text_length drop_text
last_chars n s = if ltb (text_length s) n then none else some (drop_text (text_length s - n) s)
