-- ===== src/Reconcile.antt =====
-- pkg/controller/mount_controller.go, job_controller.go and pod_controller.go: Reconcile of each
-- controller, and the tests by which they watch; IsJobCompleted to IsJobShouldBeRecycled of
-- pkg/util/resource/job.go.
pub mod Laws
pub mod Locking
use dingofs_csi.Common.{
  ℕ, ◌+◌, ◌-◌, ◌*◌, String, Bool, true, false, not, ◌&&◌, ◌||◌, List, [], ◌∷◌, Option, none, some,
  ◌==◌, if◌then◌else◌, any, is_empty, get_or_empty, ltb,
}
use dingofs_csi.Common.Exec.{
  Result, ok, err, Error, not_found, other, Exec, pure, raise, handle, attempt, ◌>>=◌, ◌>>◌,
}
use dingofs_csi.Kube.{
  Pod, Job, JobCondition, JobConditionKind, job_complete, job_failed, annotations_of,
}
use dingofs_csi.Kube.Status.{is_true}
use dingofs_csi.Kube.Host.{delete_job, label_is, has_label, on_node, Sys, Host}
use dingofs_csi.Kube.Host.Calls.{act, get_pod, get_job, list_pods, mounts, now}
use dingofs_csi.Resource.{finalizer, delete_delay_at_key, remove_finalizer}
use dingofs_csi.MountInfo.{MountInfoTable, set_pods_status}
use dingofs_csi.PodDriver.Handlers.{Outcome}
use dingofs_csi.PodDriver.Deletion.{PodPatch}
use dingofs_csi.PodDriver.{run}

-- reconcile.Result; the times are in nanoseconds.
pub record Requeue : Type 0 where
  pub is_requeued : Bool
  pub after : ℕ

abbrev pub no_requeue : Requeue
no_requeue = record { is_requeued = false; after = 0 }

-- `util.ContainsString(pod.GetFinalizers(), config.Finalizer)`
unfoldable pub has_finalizer : Pod → Bool
has_finalizer p = any (λ f. f == finalizer) p.finalizers

abbrev pub is_complete : JobCondition → Bool
is_complete c = is_true c.status && (elim c.kind [ job_complete ↦ true | _ ↦ false ])

abbrev pub is_failure : JobCondition → Bool
is_failure c = is_true c.status && (elim c.kind [ job_failed ↦ true | _ ↦ false ])

unfoldable pub is_job_completed : Job → Bool
is_job_completed j = any is_complete j.conditions

unfoldable pub is_job_failed : Job → Bool
is_job_failed j = any is_failure j.conditions

-- The filters of MountController's watch, on creation and deletion, and on an update.
unfoldable pub mount_watched : Pod → Bool
unfolding has_finalizer
mount_watched p = if not p.deletion_timestamp then false else has_finalizer p

unfoldable pub mount_update_watched : (new_version old_version : String) → Pod → Bool
unfolding mount_watched
mount_update_watched new_version old_version p =
    if new_version == old_version then false else mount_watched p

unfoldable pub job_watched : Job → Bool
job_watched j = not j.deletion_timestamp

unfoldable pub job_update_watched : (new_version old_version : String) → Job → Bool
unfolding job_watched
job_update_watched new_version old_version j =
    if new_version == old_version then false else job_watched j

module _ {W : Type 0} (h : Host W) where
  abbrev pub ignore_absent : Error → Exec (Sys W) Requeue
  ignore_absent not_found = pure no_requeue
  ignore_absent e = raise e

  -- The pods of the csi node on this node.
  unfoldable pub csi_pods : String → Exec (Sys W) (List Pod)
  csi_pods node = list_pods h h.namespace (label_is "app" "dingofs-csi-node" ∷ on_node node ∷ [])

  -- MountController.Reconcile once the pod has been read.
  unfoldable pub release : Pod → Exec (Sys W) Requeue
  release p = do
    pods ← csi_pods p.spec.node_name
    if is_empty pods then remove_finalizer h p finalizer >> pure no_requeue else pure no_requeue

  unfoldable pub mount_found : Pod → Exec (Sys W) Requeue
  mount_found p =
      if not p.deletion_timestamp
      then pure no_requeue
      else if not (has_finalizer p)
      then pure no_requeue
      else release p

  unfoldable pub mount_reconcile : (name namespace : String) → Exec (Sys W) Requeue
  mount_reconcile name namespace = do
    r ← attempt (get_pod h name namespace)
    handle r mount_found ignore_absent

  -- IsJobShouldBeRecycled; the clock is read last.
  unfoldable pub recycled_by : Option ℕ → Option ℕ → Exec (Sys W) Bool
  recycled_by none completion = pure true
  recycled_by (some ttl) none = pure false
  recycled_by (some ttl) (some completion) = do
    t ← now h
    pure (ltb (completion + ttl * 1000000000) t)

  unfoldable pub is_job_should_be_recycled : Job → Exec (Sys W) Bool
  is_job_should_be_recycled j =
      if not (is_job_completed j) && not (is_job_failed j)
      then pure false
      else recycled_by j.ttl j.completion_time

  unfoldable pub recycle : Job → Exec (Sys W) Requeue
  recycle j = act h (delete_job j.name j.namespace) >> pure no_requeue

  unfoldable pub recycle_if_due : Job → Exec (Sys W) Requeue
  recycle_if_due j = do
    due ← is_job_should_be_recycled j
    if due then recycle j else pure no_requeue

  unfoldable pub recycle_on_node : Job → Exec (Sys W) Requeue
  recycle_on_node j = do
    pods ← csi_pods j.node_name
    if is_empty pods then recycle j else recycle_if_due j

  unfoldable pub job_found : Job → Exec (Sys W) Requeue
  job_found j =
      if j.deletion_timestamp
      then pure no_requeue
      else if j.node_name == ""
      then recycle_if_due j
      else recycle_on_node j

  -- JobController.Reconcile; the result of a failing call is dropped by its caller.
  unfoldable pub job_reconcile : (name namespace : String) → Exec (Sys W) Requeue
  job_reconcile name namespace = do
    r ← attempt (get_job h name namespace)
    handle r job_found ignore_absent

  -- The test of PodController and of its watch.
  unfoldable pub is_on_node : Pod → Bool
  is_on_node p =
      p.spec.node_name == h.node_name
      || get_or_empty "kubernetes.io/hostname" p.spec.node_selector == h.node_name

  unfoldable pub pod_update_watched : (new_version old_version : String) → Pod → Bool
  unfolding is_on_node
  pod_update_watched new_version old_version p =
      if not (is_on_node p) then false else not (new_version == old_version)

  -- The time left until the deletion; `none` is a time that does not parse.
  unfoldable pub until_deletion : Option ℕ → Exec (Sys W) Requeue
  until_deletion none = raise other
  until_deletion (some at) = do
    t ← now h
    pure (record { is_requeued = true; after = if ltb at t then 0 else at - t })

  abbrev pub ten_minutes : ℕ
  ten_minutes = 600000000000

  -- An outcome that is to be requeued at once has no delay.
  unfoldable pub after_run : Pod → Outcome → Exec (Sys W) Requeue
  after_run p outcome =
      if not (get_or_empty delete_delay_at_key (annotations_of p) == "")
      then until_deletion (h.parse_time (get_or_empty delete_delay_at_key (annotations_of p)))
      else pure (record {
        is_requeued = true;
        after = if outcome.requeue_immediately then 0 else ten_minutes;
      })

  unfoldable pub drive : PodPatch W → ℕ → Pod → Exec (Sys W) Requeue
  drive patch fuel p = do
    mis ← mounts h
    pods ← list_pods h "" (has_label "dingofs-uniqueid" ∷ on_node h.node_name ∷ [])
    outcome ←
        run h patch fuel (set_pods_status (some pods) (record { mis = mis; deleted_pods = [] }))
          (some p)
    after_run p outcome

  unfoldable pub pod_found : PodPatch W → ℕ → Pod → Exec (Sys W) Requeue
  pod_found patch fuel p = if not (is_on_node p) then pure no_requeue else drive patch fuel p

  unfoldable pub pod_reconcile : PodPatch W → ℕ → (name namespace : String) → Exec (Sys W) Requeue
  pod_reconcile patch fuel name namespace = do
    r ← attempt (get_pod h name namespace)
    handle r (pod_found patch fuel) ignore_absent
