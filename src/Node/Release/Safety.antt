-- ===== src/Node/Release/Safety.antt =====
-- What NodeUnpublishVolume of pkg/dingofs-driver/node.go asks the API server to delete.
use dingofs_csi.Common.{ℕ, String, Bool, true, false, List, ◌==◌, if◌then◌else◌}
use dingofs_csi.Common.Exec.{Result, Error, not_found, output, Keeps-bind, Meets-coded_as, raise}
use dingofs_csi.Kube.Host.{unmount, remove_path, Event, Host, RetriesOnConflict}
use dingofs_csi.Kube.Host.Rules.{KeepsLog}
use dingofs_csi.PodDriver.Quiet.{pure-quiet, raise-quiet, if-quiet, attempt-quiet, handle-quiet}
use dingofs_csi.MountPod.Safety.{IsJustified, act-IsJustified}
use dingofs_csi.Unpublish.{dfs_unmount}
use dingofs_csi.Unpublish.Laws.{dfs_unmount-IsJustified}
use dingofs_csi.Util.{DfsVol, get_dfs_info}
use dingofs_csi.Node.{NodeState, NodeCalls, invalid_argument_code, with_target_lock}
use dingofs_csi.Node.Rules.{KeepsLog-read, with_target_lock-log}
use dingofs_csi.Node.Target.{
  removed_before, remove_target, unmount_then_remove, on_missing, unmount_and_delete,
}
use dingofs_csi.Node.Release.{
  release_target, on_lstat_error, unpublish_local, unpublish_locked, node_unpublish_volume,
}

module _ {W Mounted : Type 0} (h : Host W) (c : NodeCalls W Mounted)
    (retries : RetriesOnConflict h) where
  abbrev I : List Event → Type 0
  I = IsJustified h

  removed_before-I : (e : Error) → KeepsLog I (removed_before h e)
  removed_before-I not_found = pure-quiet I false
  removed_before-I _ = raise-quiet I _

  remove_target-I : (target : String) → KeepsLog I (remove_target h target)
  unfolding remove_target
  remove_target-I target =
      attempt-quiet I _ _ (act-IsJustified h (remove_path target) tt)
        λ r. handle-quiet I _ _ r (λ _. pure-quiet I false) removed_before-I

  unmount_then_remove-I :
      (target : String) (is_mp : Bool) → KeepsLog I (unmount_then_remove h target is_mp)
  unfolding unmount_then_remove
  unmount_then_remove-I target false = remove_target-I target
  unmount_then_remove-I target true =
      attempt-quiet I _ _ (act-IsJustified h (unmount target) tt)
        λ r. handle-quiet I _ _ r (λ _. remove_target-I target) (λ e. raise-quiet I _)

  on_missing-I : (e : Error) → KeepsLog I (on_missing h c e)
  on_missing-I not_found = pure-quiet I true
  on_missing-I _ = raise-quiet I _

  release_target-I :
      (target : String) (forceful : Bool) → KeepsLog I (release_target h c target forceful)
  unfolding release_target unmount_and_delete
  release_target-I target true =
      Keeps-bind _ _ (unmount_then_remove-I target true) λ _. pure-quiet I tt
  release_target-I target false =
      Keeps-bind _ _
        (attempt-quiet I _ _ (KeepsLog-read I _)
          λ r. handle-quiet I _ _ r (unmount_then_remove-I target) on_missing-I)
        λ _. pure-quiet I tt

  on_lstat_error-I : (target : String) (e : Error) → KeepsLog I (on_lstat_error h c target e)
  on_lstat_error-I target not_found = pure-quiet I tt
  on_lstat_error-I target (output text) =
      if-quiet I _ _ _ (release_target-I target true) (raise-quiet I _)
  on_lstat_error-I target _ = raise-quiet I _

  unpublish_local-I : (target : String) → KeepsLog I (unpublish_local h c target)
  unfolding unpublish_local
  unpublish_local-I target =
      attempt-quiet I _ _ (KeepsLog-read I _)
        λ r. handle-quiet I _ _ r (λ _. release_target-I target false) (on_lstat_error-I target)

  unmounted-I :
      (fuel : ℕ) (volume_id target : String) → KeepsLog I (dfs_unmount h fuel volume_id target)
  unmounted-I fuel volume_id target = record {
    at = λ s j. dfs_unmount-IsJustified h retries fuel volume_id target s j;
  }

  unpublish_locked-I :
      (fuel : ℕ) (volume_id target : String) (r : Result DfsVol)
      → KeepsLog I (unpublish_locked h c fuel volume_id target r)
  unfolding unpublish_locked
  unpublish_locked-I fuel volume_id target r =
      handle-quiet I _ _ r (λ v. unpublish_local-I target)
        (λ e. Meets-coded_as 13 _ (unmounted-I fuel volume_id target))

  -- If RetryOnConflict repeats its function only after a conflict, NodeUnpublishVolume keeps it
  -- true of the log that, before each request to delete a pod, the last pod that the API server
  -- answered was asked for under that name, or has it, and has no reference to a target, for
  -- local volumes and others, whatever the API server and the node answer.
  pub node_unpublish_volume-IsJustified :
      (fuel : ℕ) (volume_id target : String) (s : NodeState W)
      → IsJustified h s.sys.log
      → IsJustified h (node_unpublish_volume h c fuel volume_id target s).1.sys.log
  unfolding node_unpublish_volume raise
  node_unpublish_volume-IsJustified fuel volume_id target s j = by (target == "")
    where
      by :
          (b : Bool)
          → IsJustified h
              ((if b
                  then raise invalid_argument_code
                  else with_target_lock target
                      (unpublish_locked h c fuel volume_id target (get_dfs_info volume_id)))
                s).1.sys.log
      by true = j
      by false = with_target_lock-log I target _ (unpublish_locked-I fuel volume_id target _) s j
