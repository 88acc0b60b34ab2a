-- ===== src/PodDriver/Handlers.antt =====
-- podReadyHandler of pkg/controller/pod_driver.go: a mount that does not become ready is taken down,
-- otherwise its targets are recovered.
use dingofs_csi.Common.{ℕ, String, Bool, true, false, Dict, Option, none, some, get_or_empty}
use dingofs_csi.Common.Exec.{Result, ok, err, Exec, pure, raise, handle, attempt, ◌>>=◌, ◌>>◌}
use dingofs_csi.Kube.{Pod}
use dingofs_csi.Kube.Host.{close_fd, delete_pod, Sys, Host}
use dingofs_csi.Kube.Host.Calls.{act, with_pod_lock}
use dingofs_csi.Resource.{pod_hash_label_key}
use dingofs_csi.Resource.MountPath.{get_mount_path_of_pod}
use dingofs_csi.Resource.Umount.{umount_path}
use dingofs_csi.Resource.Ready.{wait_util_mount_ready}
use dingofs_csi.MountInfo.{MountInfoTable}
use dingofs_csi.PodDriver.Recover.{recover}

-- The source's type Result; no handler sets its field RequeueAfter.
pub record Outcome : Type 0 where
  pub requeue_immediately : Bool

abbrev pub done : Outcome
done = record { requeue_immediately = false }

abbrev pub requeue : Outcome
requeue = record { requeue_immediately = true }

module _ {W : Type 0} (h : Host W) where
  unfoldable pub take_down : Pod → String → Exec (Sys W) Outcome
  take_down p path = do
    _ ← attempt (act h (close_fd (get_or_empty pod_hash_label_key p.labels)))
    umount_path h path
    act h (delete_pod p.name p.namespace)
    pure requeue

  -- Under the lock of the pod's name.
  unfoldable pub serve_ready : ℕ → MountInfoTable → Pod → String → Exec (Sys W) Outcome
  serve_ready fuel t p path = do
    r ← attempt (wait_util_mount_ready h fuel path)
    handle r (λ _. recover h fuel t p path >> pure done) (λ _. take_down p path)

  unfoldable pub ready_at :
      ℕ → MountInfoTable → Pod → Result (String × String) → Exec (Sys W) Outcome
  ready_at fuel t p (err e) = raise e
  ready_at fuel t p (ok (path, volume_id)) = with_pod_lock h p.name (serve_ready fuel t p path)

  -- `none` is the nil map of annotations.
  unfoldable pub ready_by : ℕ → MountInfoTable → Pod → Option Dict → Exec (Sys W) Outcome
  ready_by fuel t p none = pure done
  ready_by fuel t p (some m) = ready_at fuel t p (get_mount_path_of_pod p)

  unfoldable pub pod_ready_handler : ℕ → MountInfoTable → Pod → Exec (Sys W) Outcome
  pod_ready_handler fuel t p = ready_by fuel t p p.annotations
