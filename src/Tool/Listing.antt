-- ===== src/Tool/Listing.antt =====
-- CheckFsExisted of pkg/util/fs_util.go: what it reads from the table that `dingo list fs` prints.
-- The ID of a row, which is only printed, is not modelled.
pub mod Laws
use dingofs_csi.Common.{
  String, Bool, true, false, ◌||◌, List, [], ◌∷◌, Option, none, some, ◌==◌, if◌then◌else◌, ltb, any,
  length, has_prefix, split, fields,
}
use dingofs_csi.Common.Exec.{Result, ok, err, panicked}

pub record FsInfo : Type 0 where
  pub name : String
  pub status : String

-- A row by its words: the column borders are words too. With three to five words `fields[3]` or
-- `fields[5]` is out of range.
abbrev pub row_of_words : List String → Result (Option FsInfo)
row_of_words [] = ok none
row_of_words (a ∷ []) = ok none
row_of_words (a ∷ b ∷ []) = ok none
row_of_words (a ∷ b ∷ c ∷ name ∷ d ∷ status ∷ rest) =
    ok (some (record { name = name; status = status }))
row_of_words words = err panicked

abbrev pub is_skipped : (line : String) → Bool
is_skipped line = has_prefix line "+" || has_prefix line "| ID" || line == ""

unfoldable pub row_of : (line : String) → Result (Option FsInfo)
unfolding has_prefix fields
row_of line = if is_skipped line then ok none else row_of_words (fields line)

abbrev pub add_row : Result (Option FsInfo) → Result (List FsInfo) → Result (List FsInfo)
add_row (err e) rest = err e
add_row (ok none) rest = rest
add_row (ok (some info)) (err e) = err e
add_row (ok (some info)) (ok infos) = ok (info ∷ infos)

unfoldable pub rows_of : (lines : List String) → Result (List FsInfo)
unfolding row_of
rows_of [] = ok []
rows_of (line ∷ lines) = add_row (row_of line) (rows_of lines)

abbrev pub find_fs : (fs_name : String) → Result (List FsInfo) → Result Bool
find_fs fs_name (err e) = err e
find_fs fs_name (ok infos) = ok (any (λ info. info.name == fs_name) infos)

unfoldable pub fs_existed_in_lines : (fs_name : String) → (lines : List String) → Result Bool
unfolding rows_of
fs_existed_in_lines fs_name lines =
    if ltb (length lines) 3 then ok false else find_fs fs_name (rows_of lines)

unfoldable pub fs_existed_in : (fs_name printed : String) → Result Bool
unfolding fs_existed_in_lines split
fs_existed_in fs_name printed = fs_existed_in_lines fs_name (split printed "\n")
