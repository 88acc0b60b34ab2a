-- ===== src/PodDriver/Deletion.antt =====
-- podDeletedHandler and applyConfigPatch of pkg/controller/pod_driver.go: the finalizer of a mount pod
-- that is being deleted is removed, and the pod is created anew where targets still use it.
use dingofs_csi.Common.{
  ℕ, zero, suc, String, Bool, not, List, [], ◌∷◌, Option, none, some, Dict, ◌==◌, if◌then◌else◌,
  get_or_empty, is_empty, any, insert,
}
use dingofs_csi.Common.Exec.{
  Result, ok, err, Error, not_found, timeout, other, running, Exec, pure, raise, handle, attempt,
  ◌>>=◌, ◌>>◌,
}
use dingofs_csi.Kube.{Pod, PodSpec, Container, Resources, annotations_of}
use dingofs_csi.Kube.Status.{is_pod_resource_error}
use dingofs_csi.Kube.Host.{cleanup_mount_point, check_stuck, clean_cache, stop_fd, Sys, Host}
use dingofs_csi.Kube.Host.Calls.{act, get_pod, with_pod_lock, create_pod_with_service}
use dingofs_csi.Resource.{
  finalizer, pod_hash_label_key, get_all_ref_keys, remove_finalizer, replace_pod_annotation,
}
use dingofs_csi.Resource.MountPath.{get_mount_path_of_pod}
use dingofs_csi.Resource.Umount.{umount_path}
use dingofs_csi.Resource.Ready.{mkr_mp}
use dingofs_csi.PodDriver.Handlers.{Outcome, done, requeue}
use dingofs_csi.PodDriver.Redeploy.{new_pod}

-- config.PodAttr, the fields that applyConfigPatch copies.
pub record PodAttr : Type 0 where
  pub labels : Dict
  pub annotations : Option Dict
  pub host_aliases : String
  pub host_network : Bool
  pub host_pid : Bool
  pub host_ipc : Bool
  pub grace_period : Option ℕ
  pub image : String
  pub resources : Resources
  pub liveness_probe : String
  pub readiness_probe : String
  pub startup_probe : String
  pub lifecycle : String

-- config.GenPodAttrWithMountPod, which reads the driver's configuration.
abbrev pub PodPatch : Type 0 → Type 0
PodPatch W = Pod → Exec (Sys W) PodAttr

abbrev pub patch_container : PodAttr → Container → Container
patch_container a c = record c {
  image = a.image;
  resources = a.resources;
  liveness_probe = a.liveness_probe;
  readiness_probe = a.readiness_probe;
  startup_probe = a.startup_probe;
  lifecycle = a.lifecycle;
}

-- Only the first container is patched.
abbrev pub patch_first : PodAttr → List Container → List Container
patch_first a [] = []
patch_first a (c ∷ cs) = patch_container a c ∷ cs

abbrev pub patch_spec : PodAttr → PodSpec → PodSpec
patch_spec a s = record s {
  containers = patch_first a s.containers;
  host_aliases = a.host_aliases;
  host_network = a.host_network;
  host_pid = a.host_pid;
  host_ipc = a.host_ipc;
  grace_period = a.grace_period;
}

unfoldable pub patched : PodAttr → Pod → Pod
patched a p = record p {
  labels = a.labels;
  annotations = a.annotations;
  spec = patch_spec a p.spec;
}

-- On an error the pod stays as it is.
unfoldable pub patched_by : Result PodAttr → Pod → Pod
unfolding patched
patched_by (ok a) p = patched a p
patched_by (err e) p = p

-- The loop that adds the targets to the annotations of a pod that was created elsewhere.
unfoldable pub insert_all : Dict → Dict → Dict
unfolding insert
insert_all [] m = m
insert_all ((k, v) ∷ refs) m = insert_all refs (insert k v m)

module _ {W : Type 0} (h : Host W) (patch : PodPatch W) where
  -- applyConfigPatch; an error is only logged.
  unfoldable pub apply_config_patch : Pod → Exec (Sys W) Pod
  apply_config_patch p = do r ← attempt (patch p); pure (patched_by r p)

  unfoldable pub create_new : Pod → Exec (Sys W) Outcome
  create_new p = do
    q ← apply_config_patch (new_pod p)
    _ ← attempt (mkr_mp h q)
    create_pod_with_service h q
    pure requeue

  -- The pod was created elsewhere; a failure is only logged.
  unfoldable pub add_targets : Pod → Pod → Exec (Sys W) Outcome
  add_targets p po = do
    _ ← attempt (
        replace_pod_annotation h p
          (insert_all (get_all_ref_keys h (annotations_of p)) (annotations_of po)))
    pure done

  unfoldable pub on_check_error : Pod → Error → Exec (Sys W) Outcome
  on_check_error p timeout = raise other
  on_check_error p not_found = create_new p
  on_check_error p _ = pure done

  -- The loop that checks whether the pod is gone.
  unfoldable pub wait_and_create : ℕ → Pod → Exec (Sys W) Outcome
  wait_and_create zero p = raise running
  wait_and_create (suc fuel) p = do
    r ← attempt (get_pod h p.name p.namespace)
    handle r (λ po. if po.deletion_timestamp then wait_and_create fuel p else add_targets p po)
        (on_check_error p)

  -- No target is left: unmount and clean up. The last two calls start goroutines.
  unfoldable pub clean_up : Pod → (path hash : String) → Exec (Sys W) Outcome
  clean_up p path hash = do
    umount_path h path
    _ ← attempt (act h (cleanup_mount_point path))
    _ ← attempt (act h (clean_cache p))
    _ ← attempt (act h (stop_fd hash))
    pure done

  unfoldable pub settle : ℕ → Pod → (path hash : String) → Exec (Sys W) Outcome
  settle fuel p path hash =
      if hash == ""
      then raise other
      else if is_empty (get_all_ref_keys h (annotations_of p))
      then clean_up p path hash
      else with_pod_lock h hash (wait_and_create fuel p)

  unfoldable pub deleted_by : ℕ → Pod → String → Option Dict → Exec (Sys W) Outcome
  deleted_by fuel p path none = pure done
  deleted_by fuel p path (some m) = settle fuel p path (get_or_empty pod_hash_label_key p.labels)

  unfoldable pub deleted_at : ℕ → Pod → Result (String × String) → Exec (Sys W) Outcome
  deleted_at fuel p (err e) = raise e
  deleted_at fuel p (ok (path, volume_id)) = deleted_by fuel p path p.annotations

  unfoldable pub pod_deleted_handler : ℕ → Pod → Exec (Sys W) Outcome
  pod_deleted_handler fuel p =
      if not (any (λ f. f == finalizer) p.finalizers) then pure done else do
        remove_finalizer h p finalizer
        _ ← attempt (act h (check_stuck p))
        if is_pod_resource_error p then pure done else deleted_at fuel p (get_mount_path_of_pod p)
