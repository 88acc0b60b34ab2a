-- ===== src/Settings/Security/Laws.antt =====
-- What bash reads of a text that EscapeBashStr of pkg/util/security/escape.go has escaped.
use dingofs_csi.Common.{
  String, Bool, true, false, Option, none, some, ◌≡◌, refl, sym, ap, ◌∙◌, ◌⊎◌, inl, inr, nat_eq,
  arith, Bool-cases, if◌then◌else◌,
}
use Prim.Native.String.{◌++◌, ◌∷◌, []}
use Prim.Native.Char.{Char, code}
use text.Mathlib.TextEquality.{Char-path}
use text.Mathlib.TextLemmas.{nil-append, cons-append}
use dingofs_csi.Util.{replace_char}
use dingofs_csi.Settings.Security.{contains_one, escape_bash_str}

abbrev cons_read : Char → Option String → Option String
cons_read c none = none
cons_read c (some s) = some (c ∷ s)

-- The text inside `$'…'`, up to its closing quote, which is the last character: a backslash stands
-- before a backslash or a quote. `escaped` says that the character before was such a backslash.
read_quoted : (escaped : Bool) → String → Option String
read_quoted escaped [] = none
read_quoted true (c ∷ s) =
    let rest = read_quoted false s in
    if nat_eq (code c) 92
    then cons_read c rest
    else if nat_eq (code c) 39
    then cons_read c rest
    else none
read_quoted false (c ∷ s) =
    let rest = read_quoted false s in
    let next = read_quoted true s in
    if nat_eq (code c) 92 then next else if nat_eq (code c) 39 then closing s else cons_read c rest
  where
    closing : String → Option String
    closing [] = some []
    closing _ = none

-- What bash makes of a word `$'…'`.
unfoldable pub bash_ansi_c : String → Option String
unfolding read_quoted
bash_ansi_c (d ∷ (q ∷ s)) =
    if nat_eq (code d) 36 then (if nat_eq (code q) 39 then read_quoted false s else none) else none
bash_ansi_c _ = none

escaped_text : String → String
unfolding replace_char
escaped_text s = replace_char 39 "\\'" (replace_char 92 "\\\\" s)

two-append : (c d : Char) (t : String) → (c ∷ (d ∷ [])) ++ t ≡ c ∷ (d ∷ t)
two-append c d t =
    cons-append c (d ∷ []) t ∙ ap (λ x. c ∷ x) (cons-append d [] t ∙ ap (λ x. d ∷ x) (nil-append t))

escaped-backslash :
    (c : Char) (s : String)
    → nat_eq (code c) 92 ≡ true
    → escaped_text (c ∷ s) ≡ "\\" ∷ ("\\" ∷ escaped_text s)
unfolding escaped_text replace_char
escaped-backslash c s e = rw (e, two-append "\\" "\\" (replace_char 92 "\\\\" s)) refl

escaped-quote :
    (c : Char) (s : String)
    → nat_eq (code c) 92 ≡ false
    → nat_eq (code c) 39 ≡ true
    → escaped_text (c ∷ s) ≡ "\\" ∷ ("'" ∷ escaped_text s)
unfolding escaped_text replace_char
escaped-quote c s e f = rw (e, f, two-append "\\" "'" (escaped_text s)) refl

escaped-plain :
    (c : Char) (s : String)
    → nat_eq (code c) 92 ≡ false
    → nat_eq (code c) 39 ≡ false
    → escaped_text (c ∷ s) ≡ c ∷ escaped_text s
unfolding escaped_text replace_char
escaped-plain c s e f = rw (e, f) refl

char_is : (c d : Char) → nat_eq (code c) (code d) ≡ true → d ≡ c
char_is c d e = sym (Char-path c d (ground (arith, e)))

read-nothing : read_quoted false (escaped_text [] ++ ("'" ∷ [])) ≡ some []
unfolding read_quoted escaped_text replace_char
read-nothing = refl

escape-special :
    (s : String)
    → contains_one s ≡ true
    → escape_bash_str s ≡ "$" ∷ ("'" ∷ (escaped_text s ++ ("'" ∷ [])))
unfolding escape_bash_str escaped_text replace_char
escape-special s e = rw e (two-append "$" "'" (escaped_text s ++ ("'" ∷ [])))

read-escaped : (s : String) → read_quoted false (escaped_text s ++ ("'" ∷ [])) ≡ some s
unfolding read_quoted
read-escaped [] = read-nothing
read-escaped (c ∷ s) = elim (Bool-cases (nat_eq (code c) 92)) [
  | inl e ↦
      rw
        (
          escaped-backslash c s e,
          cons-append "\\" ("\\" ∷ escaped_text s) ("'" ∷ []),
          cons-append "\\" (escaped_text s) ("'" ∷ []),
          read_quoted,
          read-escaped s,
        )
        (ap (λ d. some (d ∷ s)) (char_is c "\\" e))
  | inr e ↦ elim (Bool-cases (nat_eq (code c) 39)) [
    | inl f ↦
        rw
          (
            escaped-quote c s e f,
            cons-append "\\" ("'" ∷ escaped_text s) ("'" ∷ []),
            cons-append "'" (escaped_text s) ("'" ∷ []),
            read_quoted,
            read-escaped s,
          )
          (ap (λ d. some (d ∷ s)) (char_is c "'" f))
    | inr f ↦
        rw
          (
            escaped-plain c s e f,
            cons-append c (escaped_text s) ("'" ∷ []),
            read_quoted,
            e,
            f,
            read-escaped s,
          )
          refl
  ]
]

-- Where a text has one of the characters dollar, backtick, ampersand, semicolon, greater-than,
-- bar and the round brackets, bash reads back exactly that text from what EscapeBashStr makes of
-- it; any other text is unchanged.
pub bash_ansi_c-escape_bash_str :
    (s : String)
    → ((contains_one s ≡ true) × (bash_ansi_c (escape_bash_str s) ≡ some s))
      ⊎ ((contains_one s ≡ false) × (escape_bash_str s ≡ s))
unfolding escape_bash_str bash_ansi_c
bash_ansi_c-escape_bash_str s = elim (Bool-cases (contains_one s)) [
  | inr e ↦ inr (e, rw e refl)
  | inl e ↦ inl (e, rw (escape-special s e) (read-escaped s))
]
