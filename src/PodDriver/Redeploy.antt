-- ===== src/PodDriver/Redeploy.antt =====
-- podErrorHandler and podPendingHandler of pkg/controller/pod_driver.go: a mount pod for which the node
-- has no resources is deployed again without resource requests.
use dingofs_csi.Common.{ℕ, zero, suc, Bool, true, false, [], ◌∷◌, ◌==◌, if◌then◌else◌, get_or_empty}
use dingofs_csi.Common.Exec.{
  Error, not_found, timeout, other, running, Exec, pure, raise, handle, attempt, ◌>>=◌,
}
use dingofs_csi.Kube.{Pod, pending}
use dingofs_csi.Kube.Status.{is_pod_resource_error, is_pod_has_resource, delete_resource_of_pod}
use dingofs_csi.Kube.Host.{delete_pod, Sys, Host}
use dingofs_csi.Kube.Host.Calls.{
  act, get_pod, is_context_done, with_pod_lock, create_pod_with_service,
}
use dingofs_csi.Resource.{finalizer, pod_hash_label_key, remove_finalizer}
use dingofs_csi.Resource.Ready.{mkr_mp}
use dingofs_csi.PodDriver.Handlers.{Outcome, done, requeue}

-- A new pod with the name, namespace, labels, annotations and spec of the old one, and with the
-- finalizer; what the API server fills in is empty.
abbrev pub new_pod : Pod → Pod
new_pod p = record {
  name = p.name;
  namespace = p.namespace;
  uid = "";
  labels = p.labels;
  annotations = p.annotations;
  finalizers = finalizer ∷ [];
  deletion_timestamp = false;
  spec = p.spec;
  phase = pending;
  reason = "";
  message = "";
  conditions = [];
  init_statuses = [];
  container_statuses = [];
}

module _ {W : Type 0} (h : Host W) where
  -- An error while waiting: `again` is the next round.
  unfoldable pub on_wait_error : Exec (Sys W) Bool → Error → Exec (Sys W) Bool
  on_wait_error again not_found = pure true
  on_wait_error again timeout = pure false
  on_wait_error again _ = do over ← is_context_done h; if over then pure false else again

  -- The loop that waits for the deletion: whether the pod is gone.
  unfoldable pub wait_deleted : ℕ → Pod → Exec (Sys W) Bool
  wait_deleted zero p = raise running
  wait_deleted (suc fuel) p = do
    r ← attempt (get_pod h p.name p.namespace)
    handle r (λ _. wait_deleted fuel p) (λ e. on_wait_error (wait_deleted fuel p) e)

  -- The pod is created without resources; failures are only logged.
  unfoldable pub create_again : Pod → Exec (Sys W) Outcome
  create_again p = do
    _ ← attempt (mkr_mp h (delete_resource_of_pod (new_pod p)))
    _ ← attempt (create_pod_with_service h (delete_resource_of_pod (new_pod p)))
    pure done

  unfoldable pub after_delete : Outcome → ℕ → Pod → Exec (Sys W) Outcome
  after_delete late fuel p = do
    gone ← wait_deleted fuel p
    if gone then create_again p else pure late

  -- `late` is the outcome where the old pod stays.
  unfoldable pub redeploy : Outcome → ℕ → Pod → Exec (Sys W) Outcome
  redeploy late fuel p = do
    _ ← attempt (remove_finalizer h p finalizer)
    r ← attempt (act h (delete_pod p.name p.namespace))
    handle r (λ _. after_delete late fuel p) (λ _. pure done)

  unfoldable pub resource_handler : Outcome → ℕ → Pod → Exec (Sys W) Outcome
  resource_handler late fuel p =
      if get_or_empty pod_hash_label_key p.labels == ""
      then raise other
      else with_pod_lock h (get_or_empty pod_hash_label_key p.labels) (
          if is_pod_resource_error p
          then (if is_pod_has_resource p then redeploy late fuel p else pure done)
          else pure done)

  unfoldable pub pod_error_handler : ℕ → Pod → Exec (Sys W) Outcome
  pod_error_handler fuel p = resource_handler requeue fuel p

  unfoldable pub pod_pending_handler : ℕ → Pod → Exec (Sys W) Outcome
  pod_pending_handler fuel p = resource_handler done fuel p
