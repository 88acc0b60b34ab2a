-- ===== src/Tool/Listing/Laws.antt =====
-- What CheckFsExisted finds in a table, by the words of its lines.
use dingofs_csi.Common.{
  ℕ, ◌≤◌, String, Bool, true, false, not, ◌&&◌, ◌||◌, List, [], ◌∷◌, ◌≡◌, refl, ◌↔◌, ◌⊎◌, inl, inr,
  ◌<◌, arith, ◌==◌, if◌then◌else◌, Bool-cases, ltb, any, length, split, fields,
}
use dingofs_csi.Common.Exec.{Result, ok, err, panicked}
use dingofs_csi.Tool.Listing.{
  FsInfo, row_of_words, is_skipped, row_of, add_row, rows_of, find_fs, fs_existed_in_lines,
  fs_existed_in,
}

-- A line that is read and has three to five words.
abbrev pub is_short : (line : String) → Bool
is_short line =
    not (is_skipped line) && (ltb 2 (length (fields line)) && ltb (length (fields line)) 6)

abbrev fourth_is : (fs_name : String) → List String → Bool
fourth_is fs_name (a ∷ b ∷ c ∷ name ∷ d ∷ status ∷ rest) = name == fs_name
fourth_is fs_name words = false

-- A line that is read, has at least six words, and the name as its fourth.
abbrev pub names : (fs_name line : String) → Bool
names fs_name line = not (is_skipped line) && fourth_is fs_name (fields line)

-- The answer for a table, from whether a line is short and whether a line has the name.
abbrev answer : Bool → Bool → Result Bool
answer true named = err panicked
answer false named = ok named

find-add_row :
    (fs_name : String) (words : List String) (rest : Result (List FsInfo)) (short named : Bool)
    → find_fs fs_name rest ≡ answer short named
    → find_fs fs_name (add_row (row_of_words words) rest)
      ≡ answer
          ((ltb 2 (length words) && ltb (length words) 6) || short)
          (fourth_is fs_name words || named)
find-add_row fs_name [] rest short named e = e
find-add_row fs_name (a ∷ []) rest short named e = e
find-add_row fs_name (a ∷ b ∷ []) rest short named e = e
find-add_row fs_name (a ∷ b ∷ c ∷ []) rest short named e = refl
find-add_row fs_name (a ∷ b ∷ c ∷ d ∷ []) rest short named e = refl
find-add_row fs_name (a ∷ b ∷ c ∷ d ∷ f ∷ []) rest short named e = refl
find-add_row fs_name (a ∷ b ∷ c ∷ d ∷ f ∷ g ∷ ws) (ok infos) true named e = cc
find-add_row fs_name (a ∷ b ∷ c ∷ d ∷ f ∷ g ∷ ws) (ok infos) false named e = ground arith
find-add_row fs_name (a ∷ b ∷ c ∷ d ∷ f ∷ g ∷ ws) (err x) true named e = ground arith
find-add_row fs_name (a ∷ b ∷ c ∷ d ∷ f ∷ g ∷ ws) (err x) false named e = cc

find_fs-rows_of :
    (fs_name : String) (lines : List String)
    → find_fs fs_name (rows_of lines) ≡ answer (any is_short lines) (any (names fs_name) lines)
unfolding rows_of row_of
find_fs-rows_of fs_name [] = refl
find_fs-rows_of fs_name (line ∷ lines) = elim (Bool-cases (is_skipped line)) [
  | inl e ↦ rw e (find_fs-rows_of fs_name lines)
  | inr e ↦ rw e (find-add_row fs_name (fields line) _ _ _ (find_fs-rows_of fs_name lines))
]

answer_cases :
    (lines : ℕ) (short named : Bool)
    → (((if ltb lines 3 then ok false else answer short named) ≡ err panicked)
        ↔ ((3 ≤ lines) × (short ≡ true)))
      × (((if ltb lines 3 then ok false else answer short named) ≡ ok true)
          ↔ ((3 ≤ lines) × (short ≡ false) × (named ≡ true)))
      × (((if ltb lines 3 then ok false else answer short named) ≡ ok false)
          ↔ ((lines < 3) ⊎ ((short ≡ false) × (named ≡ false))))
answer_cases lines true named =
    ((ground arith, ground arith), (ground arith, ground arith), (ground arith, ground arith))
answer_cases lines false true =
    ((ground arith, ground arith), (ground arith, ground arith), (ground arith, ground arith))
answer_cases lines false false =
    ((ground arith, ground arith), (ground arith, ground arith), (ground arith, ground arith))

-- The three answers: a panic, that there is the file system, and that there is none.
abbrev pub Answers : (fs_name printed : String) → Type 0
Answers fs_name printed =
    ((fs_existed_in fs_name printed ≡ err panicked)
      ↔ ((3 ≤ length (split printed "\n")) × (any is_short (split printed "\n") ≡ true)))
    × ((fs_existed_in fs_name printed ≡ ok true) ↔ (
        (3 ≤ length (split printed "\n"))
        × (any is_short (split printed "\n") ≡ false)
        × (any (names fs_name) (split printed "\n") ≡ true)))
    × ((fs_existed_in fs_name printed ≡ ok false) ↔ (
        (length (split printed "\n") < 3)
        ⊎ ((any is_short (split printed "\n") ≡ false)
            × (any (names fs_name) (split printed "\n") ≡ false))))

-- CheckFsExisted on the printed table: it panics exactly if the table has at least three lines
-- and one that is read and has three to five words; it finds the file system exactly if there are
-- three lines, none of them is so short, and one that is read has six words and the name as its
-- fourth; and it answers that there is none exactly if there are fewer than three lines, or no
-- short line and none with the name.
pub fs_existed_in_iff : (fs_name printed : String) → Answers fs_name printed
unfolding fs_existed_in fs_existed_in_lines
fs_existed_in_iff fs_name printed =
    rw (find_fs-rows_of fs_name (split printed "\n"))
      (answer_cases (length (split printed "\n")) _ _)
