-- ===== src/Reconcile/Locking.antt =====
-- The locks of util.GetPodLock over a reconciliation by PodController of
-- pkg/controller/pod_controller.go.
use dingofs_csi.Common.{ℕ, String, List, Option, none, some, ◌≡◌}
use dingofs_csi.Common.Exec.{Error, not_found, Keeps-bind}
use dingofs_csi.Kube.{Pod}
use dingofs_csi.Kube.Host.{Event, Sys, Host}
use dingofs_csi.Kube.Host.Rules.{KeepsLog, KeepsLog-now, KeepsLog-list_pods, KeepsLog-mounts}
use dingofs_csi.PodDriver.Deletion.{PodPatch}
use dingofs_csi.PodDriver.Quiet.{
  pure-quiet, raise-quiet, if-quiet, attempt-quiet, handle-quiet, get_pod-quiet,
}
use dingofs_csi.PodDriver.Locking.{Locks, Locks-quiet, run-Locks}
use dingofs_csi.Reconcile.{
  ignore_absent, until_deletion, after_run, drive, pod_found, pod_reconcile,
}

module _ {W : Type 0} (h : Host W) (patch : PodPatch W)
    (reads : (q : Pod) (s : Sys W) → (patch q s).1.log ≡ s.log) where
  abbrev Idle : List Event → Type 0
  Idle l = Locks l none

  until_deletion-Idle : (o : Option ℕ) → KeepsLog Idle (until_deletion h o)
  unfolding until_deletion
  until_deletion-Idle none = raise-quiet Idle _
  until_deletion-Idle (some at) = Keeps-bind _ _ (KeepsLog-now h Idle) λ t. pure-quiet Idle _

  drive-Idle : (fuel : ℕ) (p : Pod) → KeepsLog Idle (drive h patch fuel p)
  unfolding drive after_run
  drive-Idle fuel p = Keeps-bind _ _ (KeepsLog-mounts h Idle) λ mis.
      Keeps-bind _ _ (KeepsLog-list_pods h Idle _ _) λ pods.
        Keeps-bind _ _ (record { at = λ s idle. run-Locks h patch reads fuel _ (some p) s idle })
          λ outcome. if-quiet Idle _ _ _ (until_deletion-Idle _) (pure-quiet Idle _)

  ignore_absent-Idle : (e : Error) → KeepsLog Idle (ignore_absent h e)
  ignore_absent-Idle not_found = pure-quiet Idle _
  ignore_absent-Idle _ = raise-quiet Idle _

  pod_found-Idle : (fuel : ℕ) (p : Pod) → KeepsLog Idle (pod_found h patch fuel p)
  unfolding pod_found
  pod_found-Idle fuel p = if-quiet Idle _ _ _ (pure-quiet Idle _) (drive-Idle fuel p)

  -- For a configuration patch that makes no call which the log shows, and a log in which no pod
  -- lock is held, PodController.Reconcile takes a pod lock only while none is held, and at its
  -- end, errors included, every lock that was taken has been released, whatever the API server
  -- and the node answer.
  pub pod_reconcile-Locks :
      (fuel : ℕ) (name namespace : String) (s : Sys W)
      → Locks s.log none
      → Locks (pod_reconcile h patch fuel name namespace s).1.log none
  unfolding pod_reconcile
  pod_reconcile-Locks fuel name namespace s idle =
      (attempt-quiet Idle _ _ (get_pod-quiet h Idle (Locks-quiet none) name namespace)
          λ r. handle-quiet Idle _ _ r (pod_found-Idle fuel) ignore_absent-Idle).at
        s idle
