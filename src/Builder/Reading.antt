-- ===== src/Builder/Reading.antt =====
-- parseMntPath of pkg/util/resource/pod.go reads the mount path from the command of NewMountPod of
-- pkg/builder/pod.go.
use Prim.Native.Char.{Char, code}
use Prim.Native.String.{String, [], ◌∷◌, ◌++◌}
use mathlib.Core.Path.{◌≡◌, refl, sym, ◌∙◌}
use mathlib.Core.Bool.{Bool, true, false, not, ◌&&◌}
use mathlib.Core.List.{List}
use text.Mathlib.TextLemmas.{nil-append, cons-append}
use mathlib.Core.Option.{some, none}
use Prim.Native.Nat.{ℕ}
use mathlib.Core.Logic.{inl, inr, ◌≢◌}
use native.Mathlib.Omega.{arith}
use dingofs_csi.Common.Tests.{nat_eq, ◌==◌, Bool-cases, if_cases, eq_of_==}
use dingofs_csi.Common.Texts.{
  split, split_from, fields, last_text, has_prefix, text_length, is_space,
}
use dingofs_csi.Common.Texts.Splitting.{Lacks, Lacks-append, split_from-Lacks}
use dingofs_csi.Common.Texts.Words.{IsWord, last-fields, trim-append}
use dingofs_csi.Common.Exec.{ok}
use dingofs_csi.Resource.MountPath.{parse_mnt_path, command_line, skip_exec, from_last}
use dingofs_csi.Builder.Command.{FuseSetting, before_mount_path, mount_command}

-- A text without spaces, slashes and single quotes.
abbrev pub IsPart : String → Type 0
IsPart [] = Unit {0}
IsPart (c ∷ s) =
    (is_space (code c) ≡ false)
    × (nat_eq (code c) b'/' ≡ false)
    × (nat_eq (code c) b'\'' ≡ false)
    × IsPart s

-- Whether the text lacks a character.
abbrev lacks : Char → String → Bool
lacks d [] = true
lacks d (c ∷ s) = not (nat_eq (code c) (code d)) && lacks d s

lacks-Lacks : (d : Char) (s : String) → lacks d s ≡ true → Lacks d s
lacks-Lacks d [] e = tt
lacks-Lacks d (c ∷ s) e = elim (Bool-cases (nat_eq (code c) (code d))) [
  | inl f ↦ let g : ◌≡◌ {A = Bool} false true = rw f at e in absurd (cc)
  | inr f ↦ (f, lacks-Lacks d s (rw f at e))
]

-- Lacking the characters that would end the path.
part-IsWord : (s : String) → IsPart s → IsWord s
part-IsWord [] p = tt
part-IsWord (c ∷ s) (a, b, q, p) = (a, part-IsWord s p)

part-slash : (s : String) → IsPart s → Lacks "/" s
part-slash [] p = tt
part-slash (c ∷ s) (a, b, q, p) = (b, part-slash s p)

part-quote : (s : String) → IsPart s → Lacks "'" s
part-quote [] p = tt
part-quote (c ∷ s) (a, b, q, p) = (q, part-quote s p)

word-newline : (s : String) → IsWord s → Lacks "\n" s
word-newline [] p = tt
word-newline (c ∷ s) (a, p) = (not_newline (code c) a, word-newline s p)
  where
    not_newline : (n : ℕ) → is_space n ≡ false → nat_eq n 10 ≡ false
    not_newline n e = ground arith

IsWord-append : (s t : String) → IsWord s → IsWord t → IsWord (s ++ t)
IsWord-append [] t p q = rw (nil-append t) q
IsWord-append (c ∷ s) t (a, p) q = rw (cons-append c s t) (a, IsWord-append s t p q)

abbrev mounted_at : (id : String) → String
mounted_at id = "/" ∷ ("d" ∷ ("f" ∷ ("s" ∷ ("/" ∷ id))))

mounted_at_lem : (id : String) → "/dfs/" ++ id ≡ mounted_at id
mounted_at_lem id = rw (cons-append "/" "dfs/" id) (
    rw (cons-append "d" "fs/" id) (
      rw (cons-append "f" "s/" id)
        (rw (cons-append "s" "/" id) (rw (cons-append "/" "" id) (rw (nil-append id) refl)))))

split-mounted_at :
    (id : String)
    → IsPart id
    → split (mounted_at id) "/" ≡ List.◌∷◌ "" (List.◌∷◌ "dfs" (List.◌∷◌ id List.[]))
unfolding split split_from has_prefix text_length
split-mounted_at id p = rw (split_from-Lacks "/" [] id (part-slash id p)) (rw (nil-append id) refl)

from_last-mounted_at :
    (args : List String) (id : String)
    → IsPart id
    → from_last args (some (mounted_at id ++ "'")) ≡ ok (mounted_at id, id)
unfolding from_last has_prefix
from_last-mounted_at args id p =
    rw
      (trim-append "'" "/" ("d" ∷ ("f" ∷ ("s" ∷ ("/" ∷ id)))) refl
        (refl, (refl, (refl, (refl, (refl, part-quote id p))))))
      (rw (split-mounted_at id p) refl)

path_ne_exec : (id : String) → mounted_at id ++ "'" ≢ "exec"
unfolding has_prefix
path_ne_exec id e =
    let f : has_prefix (mounted_at id ++ "'") "/" ≡ true =
      rw (cons-append "/" ("d" ∷ ("f" ∷ ("s" ∷ ("/" ∷ id)))) "'") refl in
    let g : has_prefix "exec" "/" ≡ true = rw e at f in cc

skip_exec-mounted_at :
    (words : List String) (id : String)
    → IsPart id
    → last_text words ≡ some (mounted_at id ++ "'")
    → skip_exec words ≡ ok (mounted_at id, id)
unfolding skip_exec
skip_exec-mounted_at List.[] id p e = cc
skip_exec-mounted_at (List.◌∷◌ a List.[]) id p e =
    let same : a ≡ mounted_at id ++ "'" = ground arith in
    if_cases (λ r. r ≡ ok (mounted_at id, id)) (a == "exec") (from_last List.[] none)
      (from_last (List.◌∷◌ a List.[]) (some a))
      (λ f. absurd (path_ne_exec id (sym same ∙ eq_of_== a "exec" f)))
      λ f. rw same (from_last-mounted_at (List.◌∷◌ (mounted_at id ++ "'") List.[]) id p)
skip_exec-mounted_at (List.◌∷◌ a (List.◌∷◌ b words)) id p e =
    if_cases (λ r. r ≡ ok (mounted_at id, id)) (a == "exec")
      (from_last (List.◌∷◌ b words) (last_text (List.◌∷◌ b words)))
      (from_last (List.◌∷◌ a (List.◌∷◌ b words)) (last_text (List.◌∷◌ b words)))
      (λ f. rw e (from_last-mounted_at (List.◌∷◌ b words) id p))
      λ f. rw e (from_last-mounted_at (List.◌∷◌ a (List.◌∷◌ b words)) id p)

last-path :
    (before id : String)
    → IsWord (mounted_at id ++ "'")
    → last_text (fields (before ++ (" " ∷ (mounted_at id ++ "'")))) ≡ some (mounted_at id ++ "'")
last-path before id word =
    let rest = "d" ∷ ("f" ∷ ("s" ∷ ("/" ∷ id))) in
    let f : (mounted_at id ++ "'") ≡ ("/" ∷ (rest ++ "'")) = cons-append "/" rest "'" in
    rw f (last-fields before "/" (rest ++ "'") (rw f at word))

command_line-mounted_at :
    (before id : String)
    → Lacks "\n" before
    → IsPart id
    → parse_mnt_path (before ++ (" " ∷ (mounted_at id ++ "'"))) ≡ ok (mounted_at id, id)
unfolding parse_mnt_path command_line split
command_line-mounted_at before id l p =
    let word : IsWord (mounted_at id ++ "'") =
      IsWord-append (mounted_at id) "'" (refl, (refl, (refl, (refl, (refl, part-IsWord id p)))))
        (refl, tt) in
    let cmd = before ++ (" " ∷ (mounted_at id ++ "'")) in
    let lines : split_from "\n" 0 "" cmd ≡ List.◌∷◌ cmd List.[] =
      split_from-Lacks "\n" "" cmd
        (Lacks-append "\n" before _ l (refl, word-newline (mounted_at id ++ "'") word))
      ∙ rw (nil-append cmd) refl in
    rw lines (skip_exec-mounted_at (fields cmd) id p (last-path before id word))

before-Lacks :
    (st : FuseSetting)
    → Lacks "\n" st.name
    → Lacks "\n" st.client_conf_path
    → Lacks "\n" (before_mount_path st)
unfolding before_mount_path
before-Lacks st n c = Lacks-append "\n" _ _ (lacks-Lacks "\n" "/scripts/mountpoint.sh " refl) (
    Lacks-append "\n" _ _ n (
      Lacks-append "\n" _ _
        (lacks-Lacks "\n"
          " s3 --role=client --args='-f -o default_permissions -o allow_other -o fsname=" refl)
        (Lacks-append "\n" _ _ n (
          Lacks-append "\n" _ _ (lacks-Lacks "\n" " -o fstype=s3 -o user=dingofs -o conf=" refl)
            c))))

-- From the command that NewMountPod gives a pod, parseMntPath reads back the mount path and the
-- part of it after /dfs/, if that part has no space, slash or single quote and there is no line
-- break in the name of the file system and in the path of the configuration.
pub parse_mnt_path-mount_command :
    (st : FuseSetting) (id : String)
    → Lacks "\n" st.name
    → Lacks "\n" st.client_conf_path
    → IsPart id
    → st.mount_path ≡ "/dfs/" ++ id
    → parse_mnt_path (mount_command st) ≡ ok (st.mount_path, id)
unfolding mount_command
parse_mnt_path-mount_command st id n c p e =
    let path = mounted_at id ++ "'" in
    rw (e ∙ mounted_at_lem id) (
      rw (cons-append " " "" path) (
        rw (nil-append path)
          (command_line-mounted_at (before_mount_path st) id (before-Lacks st n c) p)))
