-- ===== src/Settings/Options.antt =====
-- The options of pkg/config/dfs_setting.go: format options, mount options and sizes.
pub mod Laws
use dingofs_csi.Common.{
  ℕ, suc, String, Bool, true, false, not, ◌&&◌, ◌||◌, List, [], ◌∷◌, ◌++◌, Option, none, some, Dict,
  ◌==◌, if◌then◌else◌, any, map, ltb, nat_eq, lookup, get_or_empty, split, drop_text, take_text,
  index, text_length, trim, length,
}
use Prim.Native.String
use Prim.Native.String.{◌∷◌ as cons_char, [] as no_text}
use Prim.Native.Char.{Char, code}
use dingofs_csi.Common.Texts.{is_space, reverse_onto}
use dingofs_csi.Common.Exec.{Result, ok, err, other}
use dingofs_csi.Util.{replace_char}
use dingofs_csi.Kube.{Resources}
use dingofs_csi.Settings.Limits.{Quantities}
use dingofs_csi.Settings.Security.{escape_bash_str}

-- `strings.SplitN(s, "=", 2)`
abbrev pub split_at : String → Option ℕ → List String
split_at s none = s ∷ []
split_at s (some n) = take_text n s ∷ drop_text (suc n) s ∷ []

unfoldable pub split_pair : String → List String
unfolding index take_text drop_text
split_pair s = split_at s (index s "=")

drop_spaces : String → String
drop_spaces no_text = no_text
drop_spaces (cons_char c s) =
    let rest = drop_spaces s in if is_space (code c) then rest else cons_char c s

-- `strings.TrimSpace`
unfoldable pub trim_space : String → String
unfolding drop_spaces reverse_onto
trim_space s = reverse_onto (drop_spaces (reverse_onto (drop_spaces s) no_text)) no_text

abbrev pub pair_of : List String → Result (Option (String × String))
pair_of (name ∷ value ∷ []) =
    if value == ""
    then err other
    else ok (if trim_space name == "" then none else some (trim_space name, trim_space value))
pair_of (name ∷ []) = ok (if trim_space name == "" then none else some (trim_space name, ""))
pair_of _ = ok none

abbrev pub add_pair :
    Result (Option (String × String))
    → Result (List (String × String))
    → Result (List (String × String))
add_pair (err e) rest = err e
add_pair (ok none) rest = rest
add_pair (ok (some pair)) (err e) = err e
add_pair (ok (some pair)) (ok pairs) = ok (pair ∷ pairs)

unfoldable pub format_pairs : List String → Result (List (String × String))
unfolding trim_space split_pair
format_pairs [] = ok []
format_pairs (option ∷ options) =
    add_pair (pair_of (split_pair (trim_space option))) (format_pairs options)

-- ParseFormatOptions
unfoldable pub parse_format_options : String → Result (List (String × String))
unfolding format_pairs split
parse_format_options options = format_pairs (split options ",")

abbrev pub dashed : String → String
dashed option = String.◌++◌ "--" option

abbrev pub assigned : (name value : String) → String
assigned name value = String.◌++◌ name (String.◌++◌ "=" value)

unfoldable pub represent_option : String × String → String
unfolding escape_bash_str
represent_option (name, value) =
    if value == ""
    then dashed (escape_bash_str name)
    else dashed (assigned (escape_bash_str name) (escape_bash_str value))

-- RepresentFormatOptions
unfoldable pub represent_format_options : List (String × String) → List String
unfolding represent_option
represent_format_options pairs = map represent_option pairs

-- The value of a key that is to be stripped is a shell variable of the key's name.
unfoldable pub strip_option : List String → String × String → String
unfolding escape_bash_str
strip_option stripped_keys (name, value) =
    if value == ""
    then dashed (escape_bash_str name)
    else if any (λ key. key == name) stripped_keys
    then dashed (assigned (escape_bash_str name) (String.◌++◌ "${" (String.◌++◌ name "}")))
    else dashed (assigned (escape_bash_str name) (escape_bash_str value))

-- StripFormatOptions
unfoldable pub strip_format_options : List (String × String) → List String → List String
unfolding strip_option
strip_format_options pairs stripped_keys = map (strip_option stripped_keys) pairs

-- The unit of ParseToBytes, as the number of bits that it shifts.
abbrev pub shift_of : ℕ → Option ℕ
shift_of c =
    if nat_eq c 107 || nat_eq c 75
    then some 10
    else if nat_eq c 109 || nat_eq c 77
    then some 20
    else if nat_eq c 103 || nat_eq c 71
    then some 30
    else if nat_eq c 116 || nat_eq c 84
    then some 40
    else if nat_eq c 112 || nat_eq c 80
    then some 50
    else if nat_eq c 101 || nat_eq c 69
    then some 60
    else none

abbrev pub is_digit : ℕ → Bool
is_digit c = not (ltb c 48) && not (ltb 57 c)

-- The number before the unit, and the unit; `M` where the last character is a digit.
abbrev pub unit_split : (reversed : String) → String × ℕ
unit_split no_text = (no_text, 77)
unit_split (cons_char c s) =
    if is_digit (code c)
    then (reverse_onto (cons_char c s) no_text, 77)
    else (reverse_onto s no_text, code c)

-- strconv.ParseFloat, and `uint64(val * float64(uint64(1) << shift))`.
pub record Floats (F : Type 0) : Type 0 where
  pub parse_float : String → Option F
  pub scaled : F → (shift : ℕ) → ℕ

module _ {F : Type 0} (fl : Floats F) where
  abbrev pub bytes_by : Option F → Option ℕ → Result ℕ
  bytes_by none shift = err other
  bytes_by (some val) none = err other
  bytes_by (some val) (some shift) = ok (fl.scaled val shift)

  abbrev pub bytes_of : String × ℕ → Result ℕ
  bytes_of (s, unit) = bytes_by (fl.parse_float s) (shift_of unit)

  -- ParseToBytes
  unfoldable pub parse_to_bytes : String → Result ℕ
  unfolding reverse_onto
  parse_to_bytes value =
      if value == "" then ok 0 else bytes_of (unit_split (reverse_onto value no_text))

  abbrev pub check_size : (memory_limit : ℕ) → (option : String) → Result ℕ → Result String
  check_size memory_limit option (err e) = err other
  check_size memory_limit option (ok size) = if ltb memory_limit size then err other else ok option

  -- The option as it is kept, from its parts at "=".
  abbrev pub valid_parts : (memory_limit : ℕ) → (option : String) → List String → Result String
  valid_parts memory_limit option (name ∷ value ∷ []) =
      let kept : String = assigned (trim_space name) (trim_space value) in
      if name == "buffer-size" then check_size memory_limit kept (parse_to_bytes value) else ok kept
  valid_parts memory_limit option (a ∷ b ∷ c ∷ rest) = err other
  valid_parts memory_limit option parts = ok option

  abbrev pub cons_result : Result String → Result (List String) → Result (List String)
  cons_result (err e) rest = err e
  cons_result (ok option) (err e) = err e
  cons_result (ok option) (ok options) = ok (option ∷ options)

  unfoldable pub valid_option : (memory_limit : ℕ) → String → Result String
  unfolding trim_space split parse_to_bytes
  valid_option memory_limit option =
      valid_parts memory_limit (trim_space option) (split (trim_space option) "=")

  -- GenAndValidOptions: the mount options, for the pod's memory limit in bytes.
  unfoldable pub gen_and_valid_options : (memory_limit : ℕ) → List String → Result (List String)
  unfolding valid_option
  gen_and_valid_options memory_limit [] = ok []
  gen_and_valid_options memory_limit (option ∷ options) =
      cons_result (valid_option memory_limit option) (gen_and_valid_options memory_limit options)

abbrev pub env_of : (option : String) → List String → String × String
env_of option (name ∷ value ∷ []) = (replace_char 46 "_" name, value)
env_of option _ = (replace_char 46 "_" option, "")

-- convertMountOptionsToEnvVars
unfoldable pub convert_mount_options_to_env_vars :
    (mds_addr : String) → List String → List (String × String)
unfolding split_pair replace_char
convert_mount_options_to_env_vars mds_addr options =
    map (λ option. env_of option (split_pair option)) options
    ++ ("mdsOpt_rpcRetryOpt_addrs", mds_addr) ∷ []
