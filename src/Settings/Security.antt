-- ===== src/Settings/Security.antt =====
-- EscapeBashStr of pkg/util/security/escape.go.
pub mod Laws
use dingofs_csi.Common.{
  ℕ, String, Bool, true, false, not, ◌||◌, List, [], ◌∷◌, ◌==◌, if◌then◌else◌, any, nat_eq,
}
use Prim.Native.String
use Prim.Native.String.{◌∷◌ as cons_char, [] as no_text}
use Prim.Native.Char.{Char, code}
use dingofs_csi.Util.{replace_char}

-- One of the eight characters `$`, backtick, `&`, `;`, `>`, `|`, `(` and `)`.
abbrev pub is_special : ℕ → Bool
is_special c = any (λ d. nat_eq c d) (36 ∷ 96 ∷ 38 ∷ 59 ∷ 62 ∷ 124 ∷ 40 ∷ 41 ∷ [])

unfoldable pub contains_one : String → Bool
contains_one no_text = false
contains_one (cons_char c s) = is_special (code c) || contains_one s

unfoldable pub escape_bash_str : String → String
unfolding contains_one replace_char
escape_bash_str s =
    if not (contains_one s)
    then s
    else String.◌++◌ "$'" (String.◌++◌ (replace_char 39 "\\'" (replace_char 92 "\\\\" s)) "'")
