-- ===== src/PodDriver.antt =====
-- pkg/controller/pod_driver.go: Run chooses a handler by the status of the mount pod.
pub mod Annotations
pub mod Recover
pub mod Handlers
pub mod Redeploy
pub mod Deletion
pub mod Laws
pub mod Creation
pub mod Renewal
pub mod Recovery
pub mod Waiting
pub mod Cleanup
pub mod Stuck
pub mod Quiet
pub mod Locking
use dingofs_csi.Common.{
  ℕ, String, Bool, true, false, List, [], ◌∷◌, Option, none, some, if◌then◌else◌,
}
use dingofs_csi.Common.Exec.{Error, Exec, pure, raise, ◌>>=◌, ◌>>◌}
use dingofs_csi.Kube.{Pod}
use dingofs_csi.Kube.Status.{PodStatus, ready, errored, deleted, pending, get_pod_status}
use dingofs_csi.Kube.Host.{Sys, Host}
use dingofs_csi.Kube.Host.Calls.{get_pod}
use dingofs_csi.MountInfo.{MountInfoTable, set_pod_status}
use Annotations.{check_annotations}
use Handlers.{Outcome, done, pod_ready_handler}
use Redeploy.{pod_error_handler, pod_pending_handler}
use Deletion.{PodPatch, pod_deleted_handler}

module _ {W : Type 0} (h : Host W) (patch : PodPatch W) where
  -- The table `handlers` of newPodDriver.
  unfoldable pub run_handler : ℕ → PodStatus → MountInfoTable → Pod → Exec (Sys W) Outcome
  run_handler fuel ready t p = pod_ready_handler h fuel t p
  run_handler fuel errored t p = pod_error_handler h fuel p
  run_handler fuel pending t p = pod_pending_handler h fuel p
  run_handler fuel deleted t p = pod_deleted_handler h patch fuel p

  -- `ps != podError && ps != podDeleted`
  abbrev pub is_served_at_once : PodStatus → Bool
  is_served_at_once errored = false
  is_served_at_once deleted = false
  is_served_at_once _ = true

  -- Run after checkAnnotations.
  unfoldable pub run_checked : ℕ → MountInfoTable → Pod → Exec (Sys W) Outcome
  unfolding set_pod_status
  run_checked fuel t current =
      if is_served_at_once (get_pod_status (some current))
      then run_handler fuel (get_pod_status (some current)) t current
      else do
        p ← get_pod h current.name current.namespace
        run_handler fuel (get_pod_status (some p)) (set_pod_status p t) p

  -- Run; `none` is the nil pod.
  unfoldable pub run : ℕ → MountInfoTable → Option Pod → Exec (Sys W) Outcome
  run fuel t none = pure done
  run fuel t (some current) = do check_annotations h t current; run_checked fuel t current
