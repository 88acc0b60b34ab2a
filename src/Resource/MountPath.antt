-- ===== src/Resource/MountPath.antt =====
-- parseMntPath and GetMountPathOfPod of pkg/util/resource/pod.go: the mount path is the last word of
-- the last line of the container's command.
use dingofs_csi.Common.{
  String, List, [], ◌∷◌, Option, none, some, if◌then◌else◌, ◌==◌, has_prefix, split, trim, fields,
  last_text, not, ◌≡◌, refl,
}
use dingofs_csi.Common.Exec.{Result, ok, err, other, panicked}
use dingofs_csi.Kube.{Pod}

-- The error for a path with too few parts names args[2], which may not be there.
too_few_parts : List String → Result (String × String)
too_few_parts (a ∷ b ∷ c ∷ args) = err other
too_few_parts _ = err panicked

unfoldable pub path_parts : List String → String → List String → Result (String × String)
unfolding too_few_parts
path_parts args path (a ∷ b ∷ volume_id ∷ rest) = ok (path, volume_id)
path_parts args path _ = too_few_parts args

-- From the last argument on; `args[len(args)-1]` of no arguments is a panic.
unfoldable pub from_last : List String → Option String → Result (String × String)
unfolding path_parts
from_last args none = err panicked
from_last args (some last) =
    let path = trim b'\'' last in
    if not (has_prefix path "/dfs") then err other else path_parts args path (split path "/")

unfoldable pub skip_exec : List String → Result (String × String)
unfolding from_last
skip_exec [] = err other
skip_exec (a ∷ args) =
    if a == "exec"
    then from_last args (last_text args)
    else from_last (a ∷ args) (last_text (a ∷ args))

unfoldable pub command_line : Option String → Result (String × String)
unfolding skip_exec
command_line none = err panicked
command_line (some line) = skip_exec (fields line)

unfoldable pub parse_mnt_path : String → Result (String × String)
unfolding command_line split trim fields has_prefix
parse_mnt_path cmd = command_line (last_text (split cmd "\n"))

from_command : List String → Result (String × String)
unfolding parse_mnt_path
from_command (a ∷ b ∷ cmd ∷ rest) = parse_mnt_path cmd
from_command _ = err other

unfoldable pub get_mount_path_of_pod : Pod → Result (String × String)
unfolding from_command
get_mount_path_of_pod p = elim p.spec.containers [
  | [] ↦ err other
  | c ∷ cs ↦ from_command c.command
]

example :
    parse_mnt_path "/scripts/mountpoint.sh fs s3 --args='-f -o allow_other /dfs/pv-1-kafthg'"
    ≡ ok ("/dfs/pv-1-kafthg", "pv-1-kafthg")
unfolding parse_mnt_path
example = refl
