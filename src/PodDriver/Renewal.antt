-- ===== src/PodDriver/Renewal.antt =====
-- podDeletedHandler of pkg/controller/pod_driver.go: what the log of calls holds before each creation
-- of a pod.
use dingofs_csi.Common.{
  ℕ, zero, suc, String, not, List, Option, none, some, ◌≡◌, refl, if◌then◌else◌, ◌==◌, Dict,
  is_empty, any,
}
use dingofs_csi.Common.Exec.{
  Result, ok, err, Error, not_found, timeout, Exec, Meets-pure, Meets-raise, Meets-if, Meets-bind,
  Keeps-bind, Meets-answer, Meets-weaken, pure, handle, ◌>>=◌,
}
use dingofs_csi.Kube.{Pod, annotations_of}
use dingofs_csi.Kube.Status.{is_pod_resource_error}
use dingofs_csi.Kube.Host.{
  patch_finalizers, replace_annotations, lazy_umount, cleanup_mount_point, clean_cache, stop_fd,
  check_stuck, Event, Sys, Host,
}
use dingofs_csi.Kube.Host.Calls.{get_pod, create_pod_with_service}
use dingofs_csi.Kube.Host.Rules.{MeetsLog, KeepsLog}
use dingofs_csi.Resource.{
  finalizer, remove_finalizer, without, replace_pod_annotation, get_all_ref_keys,
}
use dingofs_csi.Resource.Umount.{umount_path}
use dingofs_csi.PodDriver.Handlers.{done, requeue}
use dingofs_csi.PodDriver.Redeploy.{new_pod}
use dingofs_csi.PodDriver.Deletion.{
  PodPatch, PodAttr, patched_by, insert_all, apply_config_patch, create_new, add_targets,
  on_check_error, deleted_by, wait_and_create, clean_up, settle, deleted_at, pod_deleted_handler,
}
use dingofs_csi.PodDriver.Creation.{
  IsFresh, Gone, act-IsFresh, ignoring, mkr_mp-Gone, create-IsFresh, Asked, get_pod-Asked, locking,
}

module _ {W : Type 0} (h : Host W) where
  Keeps-after :
      {A : Type 0} (P : List Event → Type 0) (m : Exec (Sys W) (Unit {0})) (a : A)
      → MeetsLog P m (λ _. IsFresh)
      → MeetsLog P (m >>= λ _. pure a) (λ _. IsFresh)
  Keeps-after P m a k =
      Meets-bind (λ _ s. IsFresh s.log) m _ k (λ _. Meets-pure _ _ _ (λ s f. f)) (λ e s f. f)

  module _ (patch : PodPatch W) (reads : (q : Pod) (s : Sys W) → (patch q s).1.log ≡ s.log) where
    -- The pod after the patch still has its name, and that name is still gone.
    abbrev Patched : Pod → Result Pod → List Event → Type 0
    Patched p (ok q) l = Gone q.name q.namespace l
    Patched p (err e) l = IsFresh l

    apply_config_patch-Patched :
        (p : Pod) → MeetsLog (Gone p.name p.namespace) (apply_config_patch h patch p) (Patched p)
    unfolding apply_config_patch patched_by
    apply_config_patch-Patched p =
        Meets-answer (λ _ s. Gone p.name p.namespace s.log) (patch p) _
          (record { at = λ s g. rw (reads p s) g }) by
      where
        by :
            (r : Result PodAttr)
            → MeetsLog {W = W} (Gone p.name p.namespace) (pure (patched_by r p)) (Patched p)
        by (ok a) = Meets-pure _ _ _ (λ s g. g)
        by (err e) = Meets-pure _ _ _ (λ s g. g)

    create_new-IsFresh :
        (p : Pod) → MeetsLog (Gone p.name p.namespace) (create_new h patch p) (λ _. IsFresh)
    unfolding create_new
    create_new-IsFresh p =
        Meets-bind (λ r s. Patched (new_pod p) r s.log) _ _ (apply_config_patch-Patched (new_pod p))
          (λ q.
            Meets-answer (λ _ s. Gone q.name q.namespace s.log) _ _
              (mkr_mp-Gone h q.name q.namespace q)
              λ _. Keeps-after _ (create_pod_with_service h q) requeue (create-IsFresh h q))
          (λ e s f. f)

    on_check_error-IsFresh :
        (p : Pod) (e : Error)
        → MeetsLog (Asked h p (err e)) (on_check_error h patch p e) (λ _. IsFresh)
    unfolding on_check_error
    on_check_error-IsFresh p timeout = Meets-raise _ _ _ (λ s (f, gone). f)
    on_check_error-IsFresh p not_found =
        Meets-weaken (λ s (f, gone). (f, gone refl)) (λ r s f. f) (create_new-IsFresh p)
    on_check_error-IsFresh p _ = Meets-pure _ _ _ (λ s (f, gone). f)

    add_targets-IsFresh : (p po : Pod) → KeepsLog IsFresh (add_targets h patch p po)
    unfolding add_targets replace_pod_annotation
    add_targets-IsFresh p po =
        ignoring h
          (replace_annotations p.name p.namespace
            (insert_all (get_all_ref_keys h (annotations_of p)) (annotations_of po)))
          (pure done) tt (Meets-pure _ _ _ (λ s f. f))

    wait_and_create-IsFresh :
        (fuel : ℕ) (p : Pod) → KeepsLog IsFresh (wait_and_create h patch fuel p)
    unfolding wait_and_create handle
    wait_and_create-IsFresh zero p = Meets-raise _ _ _ (λ s f. f)
    wait_and_create-IsFresh (suc fuel) p =
        let k = wait_and_create-IsFresh fuel p in
        Meets-answer (λ r s. Asked h p r s.log) (get_pod h p.name p.namespace) _ (get_pod-Asked h p)
          (λ r. answered r k)
      where
        answered :
            (r : Result Pod)
            → KeepsLog IsFresh (wait_and_create h patch fuel p)
            → MeetsLog
                (Asked h p r)
                (handle r
                  (λ po.
                    if po.deletion_timestamp
                    then wait_and_create h patch fuel p
                    else add_targets h patch p po)
                  (on_check_error h patch p))
                (λ _. IsFresh)
        answered (ok po) k =
            Meets-if _ _ po.deletion_timestamp _ _
              (λ _. Meets-weaken (λ s (f, gone). f) (λ r s f. f) k)
              (λ _. Meets-weaken (λ s (f, gone). f) (λ r s f. f) (add_targets-IsFresh p po))
        answered (err e) k = on_check_error-IsFresh p e

    clean_up-IsFresh :
        (p : Pod) (path hash : String) → KeepsLog IsFresh (clean_up h patch p path hash)
    unfolding clean_up umount_path
    clean_up-IsFresh p path hash =
        Keeps-bind _ _ (ignoring h (lazy_umount path) (pure tt) tt (Meets-pure _ _ _ (λ s f. f)))
          λ _. ignoring h (cleanup_mount_point path) _ tt (
            ignoring h (clean_cache p) _ tt
              (ignoring h (stop_fd hash) _ tt (Meets-pure _ _ _ (λ s f. f))))

    settle-IsFresh :
        (fuel : ℕ) (p : Pod) (path hash : String)
        → KeepsLog IsFresh (settle h patch fuel p path hash)
    unfolding settle
    settle-IsFresh fuel p path hash =
        Meets-if _ _ (hash == "") _ _ (λ _. Meets-raise _ _ _ (λ s f. f))
          λ _.
            Meets-if _ _ (is_empty (get_all_ref_keys h (annotations_of p))) _ _
              (λ _. clean_up-IsFresh p path hash)
              (λ _. locking h hash _ (wait_and_create-IsFresh fuel p))

    deleted_at-IsFresh :
        (fuel : ℕ) (p : Pod) (r : Result (String × String))
        → KeepsLog IsFresh (deleted_at h patch fuel p r)
    unfolding deleted_at deleted_by
    deleted_at-IsFresh fuel p (err e) = Meets-raise _ _ _ (λ s f. f)
    deleted_at-IsFresh fuel p (ok (path, volume_id)) = by p.annotations
      where
        by : (o : Option Dict) → KeepsLog IsFresh (deleted_by h patch fuel p path o)
        by none = Meets-pure _ _ _ (λ s f. f)
        by (some m) = settle-IsFresh fuel p path _

    handler-KeepsLog : (fuel : ℕ) (p : Pod) → KeepsLog IsFresh (pod_deleted_handler h patch fuel p)
    unfolding pod_deleted_handler remove_finalizer
    handler-KeepsLog fuel p =
        Meets-if _ _ (not (any (λ f. f == finalizer) p.finalizers)) _ _
          (λ _. Meets-pure _ _ _ (λ s f. f))
          λ _.
            Keeps-bind _ _
              (act-IsFresh h (patch_finalizers p.name p.namespace (without finalizer p.finalizers))
                tt)
              λ _. ignoring h (check_stuck p) _ tt (
                Meets-if _ _ (is_pod_resource_error p) _ _ (λ _. Meets-pure _ _ _ (λ s f. f))
                  (λ _. deleted_at-IsFresh fuel p _))

    -- For a configuration patch that makes no call which the log shows, podDeletedHandler keeps
    -- it true of the log that, before each request to create a pod, the last answer about a pod
    -- was that there is none of that name.
    pub pod_deleted_handler-IsFresh :
        (fuel : ℕ) (p : Pod) (s : Sys W)
        → IsFresh s.log
        → IsFresh (pod_deleted_handler h patch fuel p s).1.log
    pod_deleted_handler-IsFresh fuel p s f = (handler-KeepsLog fuel p).at s f
