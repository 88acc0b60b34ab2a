-- ===== src/Jobs.antt =====
-- The jobs of pkg/builder/mount.go: DeleteVolume, CleanCache, waitUtilJobCompleted and
-- getNotCompleteCnLog. The construction of a job
-- is not modelled: a job is known by its name.
pub mod Kept
use dingofs_csi.Common.{
  ℕ, zero, suc, String, Bool, true, false, not, List, [], ◌∷◌, Option, none, some, ◌==◌,
  if◌then◌else◌, take_text,
}
use Prim.Native.String.{◌++◌}
use dingofs_csi.Common.Exec.{
  Result, ok, err, Error, not_found, other, running, Exec, pure, raise, handle, attempt, ◌>>=◌,
  ◌>>◌,
}
use dingofs_csi.Kube.{Pod, ContainerStatus, Job}
use dingofs_csi.Kube.Host.{create_job, delete_job, label_is, Sys, Host}
use dingofs_csi.Kube.Host.Calls.{act, get_pod, get_job, list_pods, is_context_done}
use dingofs_csi.Reconcile.{is_job_completed, is_job_should_be_recycled}
use dingofs_csi.Mounting.{MountSetting, MountCalls, ask, first_of, create_or_update_secret}

abbrev pub is_completed_status : ContainerStatus → Bool
is_completed_status cn = elim cn.terminated [ none ↦ false | some t ↦ t.reason == "Completed" ]

abbrev pub first_not_complete : List ContainerStatus → Option ContainerStatus
first_not_complete [] = none
first_not_complete (cn ∷ cns) = if is_completed_status cn then first_not_complete cns else some cn

-- GenJobNameByVolumeId of pkg/builder/job.go
unfoldable pub gen_job_name_by_volume_id : {W : Type 0} → Host W → (volume_id : String) → String
unfolding take_text
gen_job_name_by_volume_id h volume_id = take_text 16 ("dingofs-" ++ h.sha256_hex volume_id)

module _ {W : Type 0} (h : Host W) (c : MountCalls W) where
  abbrev pub read_log : Pod → Option ContainerStatus → Exec (Sys W) (Unit {0})
  read_log p none = pure tt
  read_log p (some cn) =
      ask (c.read_pod_log p.name p.namespace cn.name) >>= λ r. handle r (λ _. pure tt) raise

  -- getNotCompleteCnLog, whose text only goes into an error's message.
  unfoldable pub get_not_complete_cn_log : (pod_name : String) → Exec (Sys W) (Unit {0})
  get_not_complete_cn_log pod_name = do
    p ← get_pod h pod_name h.namespace
    read_log p
        (first_of (first_not_complete p.init_statuses) (first_not_complete p.container_statuses))

  -- A completed job is deleted where it is due; a failure of that is only logged.
  unfoldable pub completed : (job_name : String) → Bool → Exec (Sys W) Bool
  completed job_name false = pure true
  completed job_name true = do _ ← attempt (act h (delete_job job_name h.namespace)); pure true

  unfoldable pub on_job :
      (job_name : String) → (again : Exec (Sys W) Bool) → Job → Exec (Sys W) Bool
  on_job job_name again j =
      if is_job_completed j then is_job_should_be_recycled h j >>= completed job_name else again

  -- An error is taken for the end of the 40 seconds where these are over.
  unfoldable pub on_job_error : Error → Exec (Sys W) Bool
  on_job_error not_found = pure true
  on_job_error e = do over ← is_context_done h; if over then pure false else raise other

  -- The loop of waitUtilJobCompleted, with fuel: whether the job is completed.
  unfoldable pub wait_job : ℕ → (job_name : String) → Exec (Sys W) Bool
  wait_job zero job_name = raise running
  wait_job (suc fuel) job_name = do
    r ← attempt (get_job h job_name h.namespace)
    handle r (on_job job_name (wait_job fuel job_name)) on_job_error

  abbrev pub explain : List Pod → Exec (Sys W) (Unit {0})
  explain [] = raise other
  explain (p ∷ ps) = attempt (get_not_complete_cn_log p.name) >> raise other

  abbrev pub explain_unless : (job_name : String) → Bool → Exec (Sys W) (Unit {0})
  explain_unless job_name true = pure tt
  explain_unless job_name false = do
    r ← attempt (list_pods h h.namespace (label_is "job-name" job_name ∷ []))
    handle r explain (λ e. raise other)

  -- waitUtilJobCompleted
  unfoldable pub wait_util_job_completed : ℕ → (job_name : String) → Exec (Sys W) (Unit {0})
  wait_util_job_completed fuel job_name = wait_job fuel job_name >>= explain_unless job_name

  abbrev pub create_if_missing : (job_name : String) → Error → Exec (Sys W) (Unit {0})
  create_if_missing job_name not_found = act h (create_job job_name)
  create_if_missing job_name e = raise e

  unfoldable pub ensure_job : (job_name namespace : String) → Exec (Sys W) (Unit {0})
  ensure_job job_name namespace = do
    r ← attempt (get_job h job_name namespace)
    handle r (λ j. pure tt) (create_if_missing job_name)

  -- The fall back where the wait fails: the job is deleted.
  unfoldable pub finish_job : ℕ → (job_name namespace : String) → Exec (Sys W) (Unit {0})
  finish_job fuel job_name namespace = do
    r ← attempt (wait_util_job_completed fuel job_name)
    handle r pure (λ e. attempt (act h (delete_job job_name namespace)) >> raise e)

  -- PodMount.DeleteVolume; `job_uid` is the UID of the job that was found or created.
  unfoldable pub delete_volume_by_job :
      (job_uid : W → String × W)
      → ℕ
      → (job_name namespace : String) → MountSetting
      → Exec (Sys W) (Unit {0})
  delete_volume_by_job job_uid fuel job_name namespace st = do
    ensure_job job_name namespace
    uid ← ask job_uid
    create_or_update_secret h c (record st { owner = some uid })
    finish_job fuel job_name namespace

  -- CleanCache from the job on: a failure of the wait is only logged.
  unfoldable pub clean_cache_by_job : ℕ → (job_name namespace : String) → Exec (Sys W) (Unit {0})
  clean_cache_by_job fuel job_name namespace = do
    ensure_job job_name namespace
    _ ← attempt (finish_job fuel job_name namespace)
    pure tt
