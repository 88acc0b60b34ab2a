-- ===== src/Kube/Host/Calls.antt =====
-- pkg/k8sclient/client.go as the other packages call it, and pkg/util.GetPodLock: every call is
-- passed to the host and written to the log with its answer.
use dingofs_csi.Common.{
  ℕ, ◌%◌, String, Bool, Option, List, ◌∷◌, none, some, get_or_empty, last_chars,
}
use dingofs_csi.Common.Exec.{ok, Exec, attempt, pure, raise, panicked, ◌>>=◌, ◌>>◌}
use dingofs_csi.Kube.{Pod, Job}
use dingofs_csi.Kube.Host.{
  Action, create_pod, create_service, Selector, MountInfo, Stat, saw, did, locked, unlocked, ran,
  Sys, Host,
}

module _ {W : Type 0} (h : Host W) where
  -- GetPod
  unfoldable pub get_pod : String → String → Exec (Sys W) Pod
  get_pod name namespace s =
      let (r, w) = h.read_pod name namespace s.world in
      (r, record { world = w; log = saw name namespace r ∷ s.log })

  unfoldable pub act : Action → Exec (Sys W) (Unit {0})
  act a s = let (r, w) = h.perform a s.world in (r, record { world = w; log = did a r ∷ s.log })

  unfoldable pub list_pods : String → List Selector → Exec (Sys W) (List Pod)
  list_pods namespace selectors s =
      let (r, w) = h.read_pods namespace selectors s.world in (r, record s { world = w })

  unfoldable pub get_job : String → String → Exec (Sys W) Job
  get_job name namespace s =
      let (r, w) = h.read_job name namespace s.world in (r, record s { world = w })

  unfoldable pub now : Exec (Sys W) ℕ
  now s = let (t, w) = h.read_clock s.world in (ok t, record s { world = w })

  unfoldable pub mounts : Exec (Sys W) (List MountInfo)
  mounts s = let (r, w) = h.read_mounts s.world in (r, record s { world = w })

  unfoldable pub stat : String → Exec (Sys W) Stat
  stat path s = let (r, w) = h.read_stat path s.world in (ok r, record s { world = w })

  unfoldable pub path_exists : String → Exec (Sys W) Bool
  path_exists path s = let (b, w) = h.read_exists path s.world in (ok b, record s { world = w })

  unfoldable pub is_context_done : Exec (Sys W) Bool
  is_context_done s = let (b, w) = h.context_done s.world in (ok b, record s { world = w })

  unfoldable pub rand_string_runes : ℕ → Exec (Sys W) String
  rand_string_runes n s = let (t, w) = h.random_letters n s.world in (ok t, record s { world = w })

  unfoldable pub run : (program : String) (arguments : List String) → Exec (Sys W) String
  run program arguments s =
      let (r, w) = h.run_command program arguments s.world in
      (r, record { world = w; log = ran program arguments r ∷ s.log })

  unfoldable pub read_text : (path : String) → Exec (Sys W) String
  read_text path s = let (r, w) = h.read_file path s.world in (r, record s { world = w })

  -- The index of GetPodLock in the array of 1024 locks.
  unfoldable pub pod_lock : String → ℕ
  pod_lock hash = h.fnv32a hash % 1024

  -- `lock := util.GetPodLock(hash); lock.Lock(); defer lock.Unlock()` before the rest `m`.
  unfoldable pub with_pod_lock : {A : Type 0} → String → Exec (Sys W) A → Exec (Sys W) A
  unfolding pod_lock
  with_pod_lock hash m s =
      let (r, t) = m (record s { log = locked (pod_lock hash) ∷ s.log }) in
      (r, record t { log = unlocked (pod_lock hash) ∷ t.log })

  -- createSerivce by the last characters of the pod's name; a failure of it is only logged. The
  -- service's port number is not modelled.
  unfoldable pub create_service_of : Pod → Option String → Exec (Sys W) (Unit {0})
  create_service_of p none = raise panicked
  create_service_of p (some id) = do
    _ ← attempt (
        act (
          create_service (get_or_empty "kubernetes.io/hostname" p.spec.node_selector) p.namespace
            id))
    pure tt

  -- CreatePod: the service for the pod's metrics is created with it.
  unfoldable pub create_pod_with_service : Pod → Exec (Sys W) (Unit {0})
  create_pod_with_service p = do act (create_pod p); create_service_of p (last_chars 6 p.name)
