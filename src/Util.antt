-- ===== src/Util.antt =====
-- The helpers of pkg/util/util.go on texts, lists and maps.
pub mod Laws
use dingofs_csi.Common.{
  ℕ, ◌+◌, ◌/◌, String, Bool, true, false, not, ◌&&◌, ◌||◌, List, [], ◌∷◌, ◌++◌, Option, none, some,
  Dict, ◌==◌, if◌then◌else◌, any, is_empty, nat_eq, lookup, has_prefix, contains, split, index,
  drop_text, take_text, text_length, ltb,
}
use Prim.Native.String
use Prim.Native.String.{◌∷◌ as cons_char, [] as no_text}
use Prim.Native.Char.{code}
use dingofs_csi.Common.Exec.{Result, ok, err, other, panicked}

-- ByteToGB, for a count that is not negative.
unfoldable pub byte_to_gb : ℕ → ℕ
byte_to_gb bytes = bytes / 1073741824

unfoldable pub parse_bool : String → Bool
parse_bool s = s == "true"

unfoldable pub contains_prefix : List String → String → Bool
unfolding has_prefix
contains_prefix slice s = any (λ item. has_prefix item s) slice

unfoldable pub contains_string : List String → String → Bool
contains_string slice s = any (λ item. item == s) slice

unfoldable pub strip_readonly_option : List String → List String
strip_readonly_option [] = []
strip_readonly_option (option ∷ options) =
    let rest = strip_readonly_option options in
    if not (option == "ro") && not (option == "read-only") then option ∷ rest else rest

unfoldable pub check_expect_value : Dict → (key target_value : String) → Bool
unfolding lookup
check_expect_value m key target_value =
    if is_empty m then false else elim (lookup key m) [ none ↦ false | some v ↦ v == target_value ]

-- `strings.ReplaceAll` of one character by two.
unfoldable pub replace_char : ℕ → String → String → String
replace_char c by no_text = no_text
replace_char c by (cons_char d s) =
    let rest = replace_char c by s in
    if nat_eq (code d) c then String.◌++◌ by rest else cons_char d rest

unfoldable pub quote_for_shell : String → String
unfolding contains replace_char
quote_for_shell cmd =
    let opened = if contains cmd "(" then replace_char 40 "\\(" cmd else cmd in
    if contains opened ")" then replace_char 41 "\\)" opened else opened

-- config.DfsVol
pub record DfsVol : Type 0 where
  pub fs_name : String
  pub mount_path : String

-- The parts at "=" of both halves.
abbrev pub dfs_vol_of : List String → List String → Result DfsVol
dfs_vol_of (x ∷ name ∷ xs) (y ∷ path ∷ ys) = ok (record { fs_name = name; mount_path = path })
dfs_vol_of _ _ = err other

abbrev pub dfs_vol_from : List String → Result DfsVol
dfs_vol_from (name_info ∷ path_info ∷ []) = dfs_vol_of (split name_info "=") (split path_info "=")
dfs_vol_from _ = err other

-- GetDfsInfo
unfoldable pub get_dfs_info : String → Result DfsVol
unfolding split
get_dfs_info volume_id = dfs_vol_from (split volume_id ";")

-- The mount path of a line of /proc/mounts, where it has six words and its type is of dingofs.
abbrev pub mounted_path : List String → List String
mounted_path (device ∷ path ∷ kind ∷ options ∷ dump ∷ pass ∷ []) =
    if not (path == "") && (kind == "fuse" || kind == "fuse.dingofs") then path ∷ [] else []
mounted_path _ = []

abbrev pub paths_of_lines : List String → List String
paths_of_lines [] = []
paths_of_lines (line ∷ lines) = mounted_path (split line " ") ++ paths_of_lines lines

-- getDfsPaths, from the answer of the command that prints the lines with "dingofs".
unfoldable pub get_dfs_paths : Result String → List String
unfolding split
get_dfs_paths (ok printed) = paths_of_lines (split printed "\n")
get_dfs_paths (err e) = []

-- The test of CheckDfsType.
unfoldable pub is_dfs_path : List String → String → Bool
unfolding has_prefix
is_dfs_path dfs_paths path = any (λ p. has_prefix path p) dfs_paths

-- The position of ":" after the scheme, and what StripPasswd makes of it.
abbrev pub strip_at : (uri : String) → (at after : ℕ) → Option ℕ → String
strip_at uri at after none = uri
strip_at uri at after (some colon) =
    if ltb at (after + colon)
    then uri
    else String.◌++◌ (take_text (after + colon) uri) (String.◌++◌ ":****" (drop_text at uri))

-- `strings.Index(uri, "://") + 3`, where a missing scheme counts as the position -1.
abbrev pub after_scheme : Option ℕ → ℕ
after_scheme none = 2
after_scheme (some n) = n + 3

abbrev pub strip_from : String → Option ℕ → Result String
strip_from uri none = ok uri
strip_from uri (some at) =
    let after = after_scheme (index uri "://") in
    if ltb (text_length uri) after
    then err panicked
    else ok (strip_at uri at after (index (drop_text after uri) ":"))

-- StripPasswd
unfoldable pub strip_passwd : String → Result String
unfolding index drop_text take_text
strip_passwd uri = strip_from uri (index uri "@")
