-- ===== src/Common/Texts/Words.antt =====
-- strings.Fields and strings.Trim: the last word of a text, and a text with a character after it.
use Prim.Native.Char.{Char, code}
use Prim.Native.String.{String, [], ◌∷◌, ◌++◌}
use mathlib.Core.Path.{◌≡◌, refl, ap, ◌∙◌}
use mathlib.Core.Bool.{true, false}
use mathlib.Core.Option.{some}
use mathlib.Core.List.{List}
use text.Mathlib.TextLemmas.{append-nil, nil-append, cons-append}
use dingofs_csi.Common.Tests.{nat_eq, if_cases}
use dingofs_csi.Common.Texts.{
  fields, fields_from, flush, is_space, push, last_text, trim, drop_while_is, reverse_onto,
}
use dingofs_csi.Common.Texts.Splitting.{Lacks, push-append}

-- A text without spaces.
abbrev pub IsWord : String → Type 0
IsWord [] = Unit {0}
IsWord (c ∷ s) = (is_space (code c) ≡ false) × IsWord s

fields_from-IsWord : (cur w : String) → IsWord w → fields_from cur w ≡ flush (cur ++ w) List.[]
unfolding fields_from
fields_from-IsWord cur [] i = rw (append-nil cur) refl
fields_from-IsWord cur (c ∷ s) (e, i) =
    rw e (fields_from-IsWord (push cur c) s i ∙ ap (λ x. flush x List.[]) (push-append cur c s))

last-flush :
    (cur : String) (xs : List String) (w : String)
    → last_text xs ≡ some w
    → last_text (flush cur xs) ≡ some w
last-flush [] xs w e = e
last-flush (c ∷ cur) List.[] w e = cc
last-flush (c ∷ cur) (List.◌∷◌ x xs) w e = e

last-fields_from :
    (cur s : String) (d : Char) (w : String)
    → IsWord (d ∷ w)
    → last_text (fields_from cur (s ++ (" " ∷ (d ∷ w)))) ≡ some (d ∷ w)
unfolding fields_from
last-fields_from cur [] d w i = rw (nil-append (" " ∷ (d ∷ w))) (
    last-flush cur (fields_from [] (d ∷ w)) (d ∷ w)
      (rw (fields_from-IsWord [] (d ∷ w) i) (rw (nil-append (d ∷ w)) refl)))
last-fields_from cur (c ∷ s) d w i = rw (cons-append c s (" " ∷ (d ∷ w))) (
    if_cases (λ xs. last_text xs ≡ some (d ∷ w)) (is_space (code c))
      (flush cur (fields_from [] (s ++ (" " ∷ (d ∷ w)))))
      (fields_from (push cur c) (s ++ (" " ∷ (d ∷ w))))
      (λ e. last-flush cur _ _ (last-fields_from [] s d w i))
      λ e. last-fields_from (push cur c) s d w i)

-- The last word of a text that ends with a space and the word.
pub last-fields :
    (s : String) (d : Char) (w : String)
    → IsWord (d ∷ w)
    → last_text (fields (s ++ (" " ∷ (d ∷ w)))) ≡ some (d ∷ w)
unfolding fields
last-fields s d w i = last-fields_from [] s d w i

reverse_onto-append :
    (s t acc : String) → reverse_onto (s ++ t) acc ≡ reverse_onto t (reverse_onto s acc)
unfolding reverse_onto
reverse_onto-append [] t acc = rw (nil-append t) refl
reverse_onto-append (c ∷ s) t acc = rw (cons-append c s t) (reverse_onto-append s t (c ∷ acc))

reverse_twice : (s acc : String) → reverse_onto (reverse_onto s acc) [] ≡ reverse_onto acc s
unfolding reverse_onto
reverse_twice [] acc = refl
reverse_twice (c ∷ s) acc = reverse_twice s (c ∷ acc)

Lacks-reverse_onto :
    (d : Char) (s acc : String) → Lacks d s → Lacks d acc → Lacks d (reverse_onto s acc)
unfolding reverse_onto
Lacks-reverse_onto d [] acc l m = m
Lacks-reverse_onto d (c ∷ s) acc (n, l) m = Lacks-reverse_onto d s (c ∷ acc) l (n, m)

drop-Lacks : (d : Char) (s : String) → Lacks d s → drop_while_is (code d) s ≡ s
unfolding drop_while_is
drop-Lacks d [] l = refl
drop-Lacks d (c ∷ s) (n, l) = rw n refl

drop-first :
    (d c : Char) (s : String)
    → Lacks d (c ∷ s)
    → drop_while_is (code d) ((c ∷ s) ++ (d ∷ [])) ≡ (c ∷ s) ++ (d ∷ [])
unfolding drop_while_is
drop-first d c s (n, l) = rw (cons-append c s (d ∷ [])) (rw n refl)

drop-same :
    (d : Char) (s : String)
    → nat_eq (code d) (code d) ≡ true
    → drop_while_is (code d) (reverse_onto (d ∷ []) s) ≡ drop_while_is (code d) s
unfolding drop_while_is reverse_onto
drop-same d s e = rw e refl

pub trim-append :
    (d c : Char) (s : String)
    → nat_eq (code d) (code d) ≡ true
    → Lacks d (c ∷ s)
    → trim (code d) ((c ∷ s) ++ (d ∷ [])) ≡ c ∷ s
unfolding trim
trim-append d c s e l = rw (drop-first d c s l) (
    rw (reverse_onto-append (c ∷ s) (d ∷ []) []) (
      rw (drop-same d (reverse_onto (c ∷ s) []) e) (
        rw (drop-Lacks d (reverse_onto (c ∷ s) []) (Lacks-reverse_onto d (c ∷ s) [] l tt))
          (reverse_twice (c ∷ s) []))))
