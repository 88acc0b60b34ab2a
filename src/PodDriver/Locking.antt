-- ===== src/PodDriver/Locking.antt =====
-- The locks of util.GetPodLock over a whole run of pkg/controller/pod_driver.go.
use dingofs_csi.Common.{ℕ, String, List, [], ◌∷◌, Option, none, some, Dict, ◌≡◌, refl}
use dingofs_csi.Common.Exec.{Result, ok, err, Exec, Meets-weaken, Keeps-bind}
use dingofs_csi.Kube.{Pod}
use dingofs_csi.Kube.Status.{PodStatus, ready, errored, deleted, pending}
use dingofs_csi.Kube.Host.{Event, saw, did, locked, unlocked, ran, Sys, Host}
use dingofs_csi.Kube.Host.Calls.{with_pod_lock, pod_lock}
use dingofs_csi.Kube.Host.Rules.{KeepsLog, MeetsLog-with_pod_lock}
use dingofs_csi.Resource.{remove_finalizer}
use dingofs_csi.Resource.MountPath.{get_mount_path_of_pod}
use dingofs_csi.MountInfo.{MountInfoTable}
use dingofs_csi.PodDriver.Annotations.{check_annotations}
use dingofs_csi.PodDriver.Handlers.{Outcome, ready_at, ready_by, pod_ready_handler}
use dingofs_csi.PodDriver.Redeploy.{resource_handler, pod_error_handler, pod_pending_handler}
use dingofs_csi.PodDriver.Deletion.{PodPatch, settle, deleted_by, deleted_at, pod_deleted_handler}
use dingofs_csi.PodDriver.{run_handler, run_checked, run}
use dingofs_csi.PodDriver.Quiet.{
  IsQuiet, pure-quiet, raise-quiet, if-quiet, act-quiet, get_pod-quiet, ignore-quiet,
  check_locked-quiet,
}
use dingofs_csi.PodDriver.Quiet.Recovering.{serve_ready-quiet}
use dingofs_csi.PodDriver.Quiet.Renewing.{redeploy-quiet, wait_and_create-quiet, clean_up-quiet}

-- The lock that is held at the end of the log, if it is `some`; every lock in the log was taken while
-- none was held, and released by its holder.
abbrev pub Locks : List Event → Option ℕ → Type 0
Locks [] none = Unit {0}
Locks [] (some i) = ⊥
Locks (saw name namespace r ∷ l) o = Locks l o
Locks (did a r ∷ l) o = Locks l o
Locks (locked j ∷ l) none = ⊥
Locks (locked j ∷ l) (some i) = (i ≡ j) × Locks l none
Locks (unlocked j ∷ l) none = Locks l (some j)
Locks (unlocked j ∷ l) (some i) = ⊥
Locks (ran program arguments r ∷ l) o = Locks l o

abbrev Idle : List Event → Type 0
Idle l = Locks l none

pub Locks-quiet : (o : Option ℕ) → IsQuiet (λ l. Locks l o)
Locks-quiet o = record { on_saw = λ name namespace r l k. k; on_did = λ a r l k. k }

module _ {W : Type 0} (h : Host W) where
  locking :
      {A : Type 0} (hash : String) (m : Exec (Sys W) A)
      → ((o : Option ℕ) → KeepsLog (λ l. Locks l o) m)
      → KeepsLog Idle (with_pod_lock h hash m)
  locking hash m k =
      MeetsLog-with_pod_lock h Idle (λ _. Idle) hash m
        (Meets-weaken (λ s (l, idle, e). rw e (refl, idle)) (λ r s held. held)
          (k (some (pod_lock h hash))))

  check_annotations-Idle : (t : MountInfoTable) (p : Pod) → KeepsLog Idle (check_annotations h t p)
  unfolding check_annotations
  check_annotations-Idle t p =
      if-quiet Idle _ _ _ (raise-quiet Idle _)
        (locking _ _ λ o. check_locked-quiet h (λ l. Locks l o) (Locks-quiet o) t p)

  ready-Idle :
      (fuel : ℕ) (t : MountInfoTable) (p : Pod) → KeepsLog Idle (pod_ready_handler h fuel t p)
  unfolding pod_ready_handler ready_by ready_at
  ready-Idle fuel t p = by p.annotations
    where
      at : (r : Result (String × String)) → KeepsLog Idle (ready_at h fuel t p r)
      at (err e) = raise-quiet Idle e
      at (ok (path, volume_id)) =
          locking _ _ λ o. serve_ready-quiet h (λ l. Locks l o) (Locks-quiet o) fuel t p path

      by : (o : Option Dict) → KeepsLog Idle (ready_by h fuel t p o)
      by none = pure-quiet Idle _
      by (some m) = at (get_mount_path_of_pod p)

  resource-Idle :
      (late : Outcome) (fuel : ℕ) (p : Pod) → KeepsLog Idle (resource_handler h late fuel p)
  unfolding resource_handler
  resource-Idle late fuel p = if-quiet Idle _ _ _ (raise-quiet Idle _) (
      locking _ _ λ o.
        if-quiet (λ l. Locks l o) _ _ _
          (if-quiet (λ l. Locks l o) _ _ _
            (redeploy-quiet h (λ l. Locks l o) (Locks-quiet o) late fuel p)
            (pure-quiet (λ l. Locks l o) _))
          (pure-quiet (λ l. Locks l o) _))

  module _ (patch : PodPatch W) (reads : (q : Pod) (s : Sys W) → (patch q s).1.log ≡ s.log) where
    patches : (o : Option ℕ) (q : Pod) → KeepsLog (λ l. Locks l o) (patch q)
    patches o q = record { at = λ s k. rw (reads q s) k }

    settle-Idle :
        (fuel : ℕ) (p : Pod) (path hash : String) → KeepsLog Idle (settle h patch fuel p path hash)
    unfolding settle
    settle-Idle fuel p path hash = if-quiet Idle _ _ _ (raise-quiet Idle _) (
        if-quiet Idle _ _ _
          (clean_up-quiet h Idle (Locks-quiet none) patch (patches none) p path hash)
          (locking hash _
            λ o. wait_and_create-quiet h (λ l. Locks l o) (Locks-quiet o) patch (patches o) fuel p))

    deleted_at-Idle :
        (fuel : ℕ) (p : Pod) (r : Result (String × String))
        → KeepsLog Idle (deleted_at h patch fuel p r)
    unfolding deleted_at deleted_by
    deleted_at-Idle fuel p (err e) = raise-quiet Idle e
    deleted_at-Idle fuel p (ok (path, volume_id)) = by p.annotations
      where
        by : (o : Option Dict) → KeepsLog Idle (deleted_by h patch fuel p path o)
        by none = pure-quiet Idle _
        by (some m) = settle-Idle fuel p path _

    deleted-Idle : (fuel : ℕ) (p : Pod) → KeepsLog Idle (pod_deleted_handler h patch fuel p)
    unfolding pod_deleted_handler remove_finalizer
    deleted-Idle fuel p = if-quiet Idle _ _ _ (pure-quiet Idle _) (
        Keeps-bind _ _ (act-quiet h Idle (Locks-quiet none) _) λ _.
          ignore-quiet h Idle (Locks-quiet none) _ _
            (if-quiet Idle _ _ _ (pure-quiet Idle _) (deleted_at-Idle fuel p _)))

    handler-Idle :
        (fuel : ℕ) (st : PodStatus) (t : MountInfoTable) (p : Pod)
        → KeepsLog Idle (run_handler h patch fuel st t p)
    unfolding run_handler pod_error_handler pod_pending_handler
    handler-Idle fuel ready t p = ready-Idle fuel t p
    handler-Idle fuel errored t p = resource-Idle _ fuel p
    handler-Idle fuel pending t p = resource-Idle _ fuel p
    handler-Idle fuel deleted t p = deleted-Idle fuel p

    run_checked-Idle :
        (fuel : ℕ) (t : MountInfoTable) (p : Pod) → KeepsLog Idle (run_checked h patch fuel t p)
    unfolding run_checked
    run_checked-Idle fuel t p =
        if-quiet Idle _ _ _ (handler-Idle fuel _ t p) (
          Keeps-bind _ _ (get_pod-quiet h Idle (Locks-quiet none) _ _) λ q. handler-Idle fuel _ _ q)

    run-KeepsLog :
        (fuel : ℕ) (t : MountInfoTable) (o : Option Pod) → KeepsLog Idle (run h patch fuel t o)
    unfolding run
    run-KeepsLog fuel t none = pure-quiet Idle _
    run-KeepsLog fuel t (some p) =
        Keeps-bind _ _ (check_annotations-Idle t p) λ _. run_checked-Idle fuel t p

    -- For a configuration patch that makes no call which the log shows, and a log in which no pod
    -- lock is held, a whole run of the pod driver takes a pod lock only while none is held, so it
    -- never waits for itself, and at its end, errors included, every lock that was taken has been
    -- released, whatever the API server and the node answer and whichever handler runs.
    pub run-Locks :
        (fuel : ℕ) (t : MountInfoTable) (o : Option Pod) (s : Sys W)
        → Locks s.log none
        → Locks (run h patch fuel t o s).1.log none
    run-Locks fuel t o s idle = (run-KeepsLog fuel t o).at s idle
