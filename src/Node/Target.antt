-- ===== src/Node/Target.antt =====
-- The target directory: CreateTarget and UnmountAndDelete of pkg/dingofs-driver/dingofs.go and
-- CheckDfsType of pkg/util/util.go.
use dingofs_csi.Common.{ℕ, zero, suc, String, Bool, true, false, if◌then◌else◌}
use dingofs_csi.Common.Exec.{
  Error, not_found, timeout, running, other, Exec, pure, raise, attempt, handle, ◌>>=◌, ◌>>◌,
}
use dingofs_csi.Kube.Host.{
  make_dir, unmount, remove_path, Stat, exists, missing, corrupted, expired, broken, Sys, Host,
}
use dingofs_csi.Kube.Host.Calls.{act, stat}
use dingofs_csi.Resource.Umount.{umount_path}
use dingofs_csi.Util.{get_dfs_paths, is_dfs_path}
use dingofs_csi.Node.{internal_code, NodeCalls, read}

module _ {W : Type 0} (h : Host W) where
  -- What PathExists answered: made, unmounted before the next round, or the error.
  abbrev pub on_target : String → Exec (Sys W) (Unit {0}) → Stat → Exec (Sys W) (Unit {0})
  on_target target again (exists inode) = act h (make_dir target)
  on_target target again missing = act h (make_dir target)
  on_target target again (corrupted not_connected) = umount_path h target >> again
  on_target target again expired = raise timeout
  on_target target again broken = raise other

  -- CreateTarget, with fuel.
  unfoldable pub create_target : ℕ → String → Exec (Sys W) (Unit {0})
  create_target zero target = raise running
  create_target (suc fuel) target = do
    st ← stat h target
    on_target target (create_target fuel target) st

  abbrev pub removed_before : Error → Exec (Sys W) Bool
  removed_before not_found = pure false
  removed_before e = raise internal_code

  unfoldable pub remove_target : String → Exec (Sys W) Bool
  remove_target target = do
    r ← attempt (act h (remove_path target))
    handle r (λ _. pure false) removed_before

  unfoldable pub unmount_then_remove : String → Bool → Exec (Sys W) Bool
  unmount_then_remove target false = remove_target target
  unmount_then_remove target true = do
    r ← attempt (act h (unmount target))
    handle r (λ _. remove_target target) (λ e. raise internal_code)

module _ {W Mounted : Type 0} (h : Host W) (c : NodeCalls W Mounted) where
  -- The check that is skipped when it is forceful; a missing path ends the call.
  abbrev pub on_missing : Error → Exec (Sys W) Bool
  on_missing not_found = pure true
  on_missing e = raise internal_code

  -- UnmountAndDelete: whether the caller returns at once, with success; an error is raised.
  unfoldable pub unmount_and_delete : String → (forceful : Bool) → Exec (Sys W) Bool
  unmount_and_delete target true = unmount_then_remove h target true
  unmount_and_delete target false = do
    r ← attempt (read (c.is_mount_point target))
    handle r (λ is_mp. unmount_then_remove h target is_mp) on_missing

module _ {W Mounted : Type 0} (c : NodeCalls W Mounted) where
  -- CheckDfsType
  unfoldable pub check_dfs_type : String → Exec (Sys W) (Unit {0})
  check_dfs_type path = do
    printed ← attempt (read c.dingofs_mounts)
    if is_dfs_path (get_dfs_paths printed) path then pure tt else raise other
