-- ===== src/Common/Texts/Splitting.antt =====
-- strings.Split at a separator of one character.
use Prim.Native.Char.{Char, code}
use Prim.Native.String.{String, [], ◌∷◌, ◌++◌}
use mathlib.Core.Path.{◌≡◌, refl, sym, ap, ◌∙◌}
use mathlib.Core.Bool.{true, false}
use mathlib.Core.List.{List}
use text.Mathlib.TextLemmas.{append_assoc, append-nil, nil-append, cons-append}
use dingofs_csi.Common.Tests.{nat_eq}
use dingofs_csi.Common.Texts.{has_prefix, text_length, split_from, split, push}

-- The text has no such character.
abbrev pub Lacks : Char → String → Type 0
Lacks d [] = Unit {0}
Lacks d (c ∷ s) = (nat_eq (code c) (code d) ≡ false) × Lacks d s

pub Lacks-append : (d : Char) (s t : String) → Lacks d s → Lacks d t → Lacks d (s ++ t)
Lacks-append d [] t l m = rw (nil-append t) m
Lacks-append d (c ∷ s) t (n, l) m = rw (cons-append c s t) (n, Lacks-append d s t l m)

pub push-append : (cur : String) (c : Char) (s : String) → push cur c ++ s ≡ cur ++ (c ∷ s)
push-append cur c s =
    append_assoc cur (c ∷ []) s
    ∙ ap (λ x. cur ++ x) (cons-append c [] s ∙ ap (λ x. c ∷ x) (nil-append s))

pub split_from-Lacks :
    (d : Char) (cur s : String)
    → Lacks d s
    → split_from (d ∷ []) 0 cur s ≡ List.◌∷◌ (cur ++ s) List.[]
unfolding split_from has_prefix text_length
split_from-Lacks d cur [] l = ap (λ x. List.◌∷◌ x List.[]) (sym (append-nil cur))
split_from-Lacks d cur (c ∷ s) (n, l) =
    rw (has_prefix, n)
      (split_from-Lacks d (push cur c) s l ∙ ap (λ x. List.◌∷◌ x List.[]) (push-append cur c s))

pub split_from-append :
    (d : Char) (cur s t : String)
    → Lacks d s
    → nat_eq (code d) (code d) ≡ true
    → split_from (d ∷ []) 0 cur (s ++ (d ∷ t)) ≡ List.◌∷◌ (cur ++ s) (split_from (d ∷ []) 0 [] t)
unfolding split_from has_prefix text_length
split_from-append d cur [] t l e =
    rw (nil-append (d ∷ t), split_from, has_prefix, e)
      (ap (λ x. List.◌∷◌ x (split_from (d ∷ []) 0 [] t)) (sym (append-nil cur)))
split_from-append d cur (c ∷ s) t (n, l) e =
    rw (cons-append c s (d ∷ t), split_from, has_prefix, n)
      (split_from-append d (push cur c) s t l e
        ∙ ap (λ x. List.◌∷◌ x (split_from (d ∷ []) 0 [] t)) (push-append cur c s))

-- Two parts that do not have the separator.
pub split-two :
    (d : Char) (s t : String)
    → nat_eq (code d) (code d) ≡ true
    → Lacks d s
    → Lacks d t
    → split (s ++ (d ∷ t)) (d ∷ []) ≡ List.◌∷◌ s (List.◌∷◌ t List.[])
unfolding split
split-two d s t e l m =
    split_from-append d [] s t l e
    ∙ rw (nil-append s)
        (ap (λ x. List.◌∷◌ s x) (split_from-Lacks d [] t m ∙ rw (nil-append t) refl))
