-- ===== src/Node/Release.antt =====
-- NodeUnpublishVolume of pkg/dingofs-driver/node.go.
pub mod Safety
use dingofs_csi.Common.{ℕ, String, Bool, true, false, ◌==◌, if◌then◌else◌, contains}
use dingofs_csi.Common.Exec.{
  Result, Error, not_found, output, Exec, pure, raise, attempt, handle, coded_as, ◌>>=◌, ◌>>◌,
}
use dingofs_csi.Kube.Host.{Sys, Host}
use dingofs_csi.Unpublish.{dfs_unmount}
use dingofs_csi.Util.{DfsVol, get_dfs_info}
use dingofs_csi.Node.{
  invalid_argument_code, internal_code, NodeState, NodeCalls, read, with_target_lock,
}
use dingofs_csi.Node.Target.{unmount_and_delete}

module _ {W Mounted : Type 0} (h : Host W) (c : NodeCalls W Mounted) where
  -- The target is unmounted and removed; both ways out of UnmountAndDelete without an error answer success.
  unfoldable pub release_target : String → (forceful : Bool) → Exec (Sys W) (Unit {0})
  release_target target forceful = unmount_and_delete h c target forceful >> pure tt

  abbrev pub on_lstat_error : String → Error → Exec (Sys W) (Unit {0})
  on_lstat_error target not_found = pure tt
  on_lstat_error target (output text) =
      if contains text "stale NFS file handle"
      then release_target target true
      else raise internal_code
  on_lstat_error target e = raise internal_code

  unfoldable pub unpublish_local : String → Exec (Sys W) (Unit {0})
  unpublish_local target = do
    r ← attempt (read (c.lstat target))
    handle r (λ _. release_target target false) (on_lstat_error target)

  -- With the target locked.
  unfoldable pub unpublish_locked :
      ℕ → (volume_id target : String) → Result DfsVol → Exec (Sys W) (Unit {0})
  unpublish_locked fuel volume_id target r =
      handle r (λ v. unpublish_local target)
        (λ e. coded_as 13 (dfs_unmount h fuel volume_id target))

  unfoldable pub node_unpublish_volume :
      ℕ → (volume_id target : String) → Exec (NodeState W) (Unit {0})
  node_unpublish_volume fuel volume_id target =
      if target == ""
      then raise invalid_argument_code
      else with_target_lock target (unpublish_locked fuel volume_id target (get_dfs_info volume_id))
