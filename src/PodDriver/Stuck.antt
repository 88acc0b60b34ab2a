-- ===== src/PodDriver/Stuck.antt =====
-- checkMountPodStuck and doAbortFuse of pkg/controller/pod_driver.go, which a goroutine of its own
-- runs, on Linux.
pub mod Laws
use dingofs_csi.Common.{
  ℕ, zero, suc, String, Bool, true, false, not, List, [], ◌∷◌, Option, none, some, ◌≡◌, refl,
  if◌then◌else◌, Bool-cases, ◌⊎◌, inl, inr, arith,
}
use Prim.Native.String.{◌++◌}
use dingofs_csi.Common.Exec.{
  Result, ok, err, Error, not_found, panicked, running, Exec, pure, raise, attempt, handle, ◌>>=◌,
  ◌>>◌, Meets-pure, Meets-raise, Meets-answer, Meets-handle, Meets-if, Meets-bind, Meets-weaken,
  Keeps-bind,
}
use dingofs_csi.Kube.{Pod, Job}
use dingofs_csi.Kube.Status.{PodStatus, deleted, get_pod_status}
use dingofs_csi.Kube.Host.{create_job, Event, saw, did, Sys, Host}
use dingofs_csi.Kube.Host.Calls.{act, get_pod, get_job, is_context_done}
use dingofs_csi.Kube.Host.Rules.{
  KeepsLog, MeetsLog, MeetsLog-get_pod, MeetsLog-act, KeepsLog-is_context_done,
}
use dingofs_csi.Reconcile.{is_job_completed}
use dingofs_csi.Resource.MountPath.{get_mount_path_of_pod}
use dingofs_csi.Mounting.{ask}
use dingofs_csi.Jobs.{gen_job_name_by_volume_id}

-- Load and Delete of sync.Map, on the table of the minor device numbers by mount path that
-- pkg/util/dev_monitor.go keeps.
pub record Minors (W : Type 0) : Type 0 where
  pub load : String → W → Option ℕ × W
  pub delete : String → W → Unit {0} × W

abbrev pub mount_point_of : Result (String × String) → String
mount_point_of (ok (path, volume_id)) = path
mount_point_of (err e) = ""

abbrev pub is_deleted_status : PodStatus → Bool
is_deleted_status deleted = true
is_deleted_status _ = false

-- The answer of GetPod shows the pod that is being deleted; with an error the pod is nil.
unfoldable pub shows_deleted : Result Pod → Bool
unfolding get_pod_status
shows_deleted (ok p) = is_deleted_status (get_pod_status (some p))
shows_deleted (err e) = is_deleted_status (get_pod_status none)

module _ {W : Type 0} (h : Host W) (minors : Minors W) where
  -- With an error GetJob returns nil, whose namespace the code logs.
  abbrev pub on_job_error : Error → Exec (Sys W) (Unit {0})
  on_job_error not_found = pure tt
  on_job_error e = raise panicked

  -- The loop of doAbortFuse that waits for the job, with fuel.
  unfoldable pub wait_abort : ℕ → (name namespace : String) → Exec (Sys W) (Unit {0})
  wait_abort zero name namespace = raise running
  wait_abort (suc fuel) name namespace =
      let again = wait_abort fuel name namespace in
      do
        over ← is_context_done h
        if over then pure tt else do
          r ← attempt (get_job h name namespace)
          handle r (λ j. if is_job_completed j then pure tt else again) on_job_error

  -- The number goes into the job's command, which is not modelled.
  unfoldable pub do_abort_fuse : ℕ → Pod → (minor : ℕ) → Exec (Sys W) (Unit {0})
  do_abort_fuse fuel p minor = do
    act h (create_job (gen_job_name_by_volume_id h p.name ++ "-abort-fuse"))
    wait_abort fuel (gen_job_name_by_volume_id h p.name ++ "-abort-fuse") p.namespace

  -- An error is only logged.
  abbrev pub on_abort_error : Error → Exec (Sys W) (Unit {0})
  on_abort_error panicked = raise panicked
  on_abort_error running = raise running
  on_abort_error e = pure tt

  unfoldable pub abort_known : ℕ → Pod → Option ℕ → Exec (Sys W) (Unit {0})
  abort_known fuel p none = pure tt
  abort_known fuel p (some minor) = do
    r ← attempt (do_abort_fuse fuel p minor)
    handle r pure on_abort_error

  -- The loop of checkMountPodStuck, up to its deferred call.
  unfoldable pub watch_deletion : ℕ → Pod → (mount_point : String) → Exec (Sys W) (Unit {0})
  watch_deletion zero p mount_point = raise running
  watch_deletion (suc fuel) p mount_point =
      let again = watch_deletion fuel p mount_point in
      do
        over ← is_context_done h
        if over then ask (minors.load mount_point) >>= abort_known fuel p else do
          r ← attempt (get_pod h p.name p.namespace)
          if not (shows_deleted r) then pure tt else again

  unfoldable pub watch_then_delete : ℕ → Pod → (mount_point : String) → Exec (Sys W) (Unit {0})
  watch_then_delete fuel p mount_point = do
    r ← attempt (watch_deletion fuel p mount_point)
    ask (minors.delete mount_point)
    handle r pure raise

  unfoldable pub check_mount_pod_stuck : ℕ → Pod → Exec (Sys W) (Unit {0})
  unfolding get_pod_status get_mount_path_of_pod
  check_mount_pod_stuck fuel p =
      if not (is_deleted_status (get_pod_status (some p)))
      then pure tt
      else watch_then_delete fuel p (mount_point_of (get_mount_path_of_pod p))
