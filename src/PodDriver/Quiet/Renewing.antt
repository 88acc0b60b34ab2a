-- ===== src/PodDriver/Quiet/Renewing.antt =====
-- The steps of the other handlers that create a mount pod again or clean up after it.
use dingofs_csi.Common.{ℕ, zero, suc, String, Bool, true, false, List}
use dingofs_csi.Common.Exec.{Error, not_found, timeout, Exec, Keeps-bind}
use dingofs_csi.Kube.{Pod}
use dingofs_csi.Kube.Host.{Event, Sys, Host}
use dingofs_csi.Kube.Host.Rules.{KeepsLog, KeepsLog-is_context_done}
use dingofs_csi.Resource.{remove_finalizer, replace_pod_annotation}
use dingofs_csi.PodDriver.Handlers.{Outcome}
use dingofs_csi.PodDriver.Redeploy.{
  on_wait_error, wait_deleted, create_again, after_delete, redeploy,
}
use dingofs_csi.PodDriver.Deletion.{
  PodPatch, apply_config_patch, create_new, add_targets, on_check_error, wait_and_create, clean_up,
}
use dingofs_csi.PodDriver.Quiet.{
  IsQuiet, pure-quiet, raise-quiet, if-quiet, attempt-quiet, handle-quiet, act-quiet, get_pod-quiet,
  ignore-quiet, umount_path-quiet, mkr_mp-quiet, create_pod_with_service-quiet,
}

module _ {W : Type 0} (h : Host W) (P : List Event → Type 0) (quiet : IsQuiet P) where
  on_wait_error-quiet :
      (again : Exec (Sys W) Bool) (e : Error)
      → KeepsLog P again
      → KeepsLog P (on_wait_error h again e)
  unfolding on_wait_error
  on_wait_error-quiet again not_found k = pure-quiet P true
  on_wait_error-quiet again timeout k = pure-quiet P false
  on_wait_error-quiet again _ k =
      Keeps-bind _ _ (KeepsLog-is_context_done h P) λ over. if-quiet P _ _ _ (pure-quiet P false) k

  wait_deleted-quiet : (fuel : ℕ) (p : Pod) → KeepsLog P (wait_deleted h fuel p)
  unfolding wait_deleted
  wait_deleted-quiet zero p = raise-quiet P _
  wait_deleted-quiet (suc fuel) p =
      let k = wait_deleted-quiet fuel p in
      attempt-quiet P _ _ (get_pod-quiet h P quiet _ _)
        λ r. handle-quiet P _ _ r (λ _. k) (λ e. on_wait_error-quiet _ e k)

  create_again-quiet : (p : Pod) → KeepsLog P (create_again h p)
  unfolding create_again
  create_again-quiet p =
      attempt-quiet P _ _ (mkr_mp-quiet h P quiet _)
        λ _. attempt-quiet P _ _ (create_pod_with_service-quiet h P quiet _) λ _. pure-quiet P _

  pub redeploy-quiet : (late : Outcome) (fuel : ℕ) (p : Pod) → KeepsLog P (redeploy h late fuel p)
  unfolding redeploy remove_finalizer after_delete
  redeploy-quiet late fuel p = ignore-quiet h P quiet _ _ (
      attempt-quiet P _ _ (act-quiet h P quiet _) λ r.
        handle-quiet P _ _ r
          (λ _.
            Keeps-bind _ _ (wait_deleted-quiet fuel p)
              λ gone. if-quiet P _ _ _ (create_again-quiet p) (pure-quiet P late))
          (λ _. pure-quiet P _))

  module _ (patch : PodPatch W) (patches : (q : Pod) → KeepsLog P (patch q)) where
    create_new-quiet : (p : Pod) → KeepsLog P (create_new h patch p)
    unfolding create_new apply_config_patch
    create_new-quiet p = Keeps-bind _ _ (attempt-quiet P _ _ (patches _) λ r. pure-quiet P _) λ q.
        attempt-quiet P _ _ (mkr_mp-quiet h P quiet q)
          λ _. Keeps-bind _ _ (create_pod_with_service-quiet h P quiet q) λ _. pure-quiet P _

    on_check_error-quiet : (p : Pod) (e : Error) → KeepsLog P (on_check_error h patch p e)
    unfolding on_check_error
    on_check_error-quiet p timeout = raise-quiet P _
    on_check_error-quiet p not_found = create_new-quiet p
    on_check_error-quiet p _ = pure-quiet P _

    add_targets-quiet : (p po : Pod) → KeepsLog P (add_targets h patch p po)
    unfolding add_targets replace_pod_annotation
    add_targets-quiet p po = ignore-quiet h P quiet _ _ (pure-quiet P _)

    pub wait_and_create-quiet : (fuel : ℕ) (p : Pod) → KeepsLog P (wait_and_create h patch fuel p)
    unfolding wait_and_create
    wait_and_create-quiet zero p = raise-quiet P _
    wait_and_create-quiet (suc fuel) p =
        let k = wait_and_create-quiet fuel p in
        attempt-quiet P _ _ (get_pod-quiet h P quiet _ _) λ r.
          handle-quiet P _ _ r (λ po. if-quiet P _ _ _ k (add_targets-quiet p po))
            (on_check_error-quiet p)

    pub clean_up-quiet : (p : Pod) (path hash : String) → KeepsLog P (clean_up h patch p path hash)
    unfolding clean_up
    clean_up-quiet p path hash = Keeps-bind _ _ (umount_path-quiet h P quiet path) λ _.
        ignore-quiet h P quiet _ _
          (ignore-quiet h P quiet _ _ (ignore-quiet h P quiet _ _ (pure-quiet P _)))
