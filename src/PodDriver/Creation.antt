-- ===== src/PodDriver/Creation.antt =====
-- podErrorHandler and podPendingHandler of pkg/controller/pod_driver.go: what the log of calls holds
-- before each creation of a pod.
use dingofs_csi.Common.{
  ℕ, zero, suc, String, Bool, true, false, List, [], ◌∷◌, Option, none, some, ◌≡◌, refl, ap,
  if◌then◌else◌, ◌==◌, last_chars, get_or_empty,
}
use dingofs_csi.Common.Exec.{
  Result, ok, err, Error, not_found, timeout, conflict, already_exists, other, coded, output,
  panicked, running, Exec, Meets-pure, Meets-raise, Meets-if, Meets-bind, Keeps-bind, Meets-answer,
  Meets-weaken, Meets-handle, pure, attempt, handle, ◌>>=◌,
}
use dingofs_csi.Kube.{Pod}
use dingofs_csi.Kube.Status.{is_pod_resource_error, is_pod_has_resource, delete_resource_of_pod}
use dingofs_csi.Kube.Host.{
  Action, create_pod, create_service, delete_pod, patch_finalizers, make_dir, Event, saw, did,
  locked, unlocked, ran, Sys, Host,
}
use dingofs_csi.Kube.Host.Calls.{
  act, get_pod, with_pod_lock, create_pod_with_service, create_service_of, is_context_done,
}
use dingofs_csi.Kube.Host.Rules.{
  MeetsLog, KeepsLog, MeetsLog-get_pod, MeetsLog-act, MeetsLog-with_pod_lock, KeepsLog-path_exists,
  KeepsLog-is_context_done,
}
use dingofs_csi.Resource.{finalizer, pod_hash_label_key, remove_finalizer, without}
use dingofs_csi.Resource.MountPath.{get_mount_path_of_pod}
use dingofs_csi.Resource.Ready.{mkr_mp, mkr_mp_at, make_if_missing}
use dingofs_csi.PodDriver.Handlers.{Outcome, done, requeue}
use dingofs_csi.PodDriver.Redeploy.{
  new_pod, on_wait_error, wait_deleted, create_again, after_delete, redeploy, resource_handler,
  pod_error_handler, pod_pending_handler,
}

-- The last answer about a pod was that there is none of this name.
abbrev pub LastSeenGone : (name namespace : String) → List Event → Type 0
LastSeenGone name namespace [] = ⊥
LastSeenGone name namespace (saw n ns (err not_found) ∷ l) = (n ≡ name) × (ns ≡ namespace)
LastSeenGone name namespace (saw n ns r ∷ l) = ⊥
LastSeenGone name namespace (did a r ∷ l) = LastSeenGone name namespace l
LastSeenGone name namespace (locked i ∷ l) = LastSeenGone name namespace l
LastSeenGone name namespace (unlocked i ∷ l) = LastSeenGone name namespace l
LastSeenGone name namespace (ran program arguments r ∷ l) = LastSeenGone name namespace l

-- Before each creation of a pod, the old one was last seen to be gone.
abbrev pub IsFresh : List Event → Type 0
IsFresh [] = Unit {0}
IsFresh (did (create_pod p) r ∷ l) = LastSeenGone p.name p.namespace l × IsFresh l
IsFresh (e ∷ l) = IsFresh l

abbrev pub CreatesNothing : Action → Type 0
CreatesNothing (create_pod p) = ⊥
CreatesNothing a = Unit {0}

pub IsFresh-did :
    (a : Action) (r : Result (Unit {0})) (l : List Event)
    → CreatesNothing a
    → IsFresh l
    → IsFresh (did a r ∷ l)
IsFresh-did (create_pod p) r l i f = absurd i
IsFresh-did _ r l i f = f

abbrev pub Gone : (name namespace : String) → List Event → Type 0
Gone name namespace l = IsFresh l × LastSeenGone name namespace l

module _ {W : Type 0} (h : Host W) where
  pub act-IsFresh : (a : Action) → CreatesNothing a → KeepsLog IsFresh (act h a)
  act-IsFresh a i = MeetsLog-act h IsFresh (λ _. IsFresh) a (λ l r f. IsFresh-did a r l i f)

  pub act-Gone :
      (name namespace : String) (a : Action)
      → CreatesNothing a
      → KeepsLog (Gone name namespace) (act h a)
  act-Gone name namespace a i =
      MeetsLog-act h (Gone name namespace) (λ _. Gone name namespace) a
        (λ l r (f, gone). (IsFresh-did a r l i f, gone))

  pub ignoring :
      {A : Type 0} (a : Action) (m : Exec (Sys W) A)
      → CreatesNothing a
      → KeepsLog IsFresh m
      → KeepsLog IsFresh (attempt (act h a) >>= λ _. m)
  ignoring a m i k =
      Meets-answer (λ _ s. IsFresh s.log) (act h a) (λ _. m) (act-IsFresh a i) (λ _. k)

  pub mkr_mp-Gone :
      (name namespace : String) (p : Pod) → KeepsLog (Gone name namespace) (mkr_mp h p)
  unfolding mkr_mp mkr_mp_at make_if_missing
  mkr_mp-Gone name namespace p = at (get_mount_path_of_pod p)
    where
      at : (r : Result (String × String)) → KeepsLog (Gone name namespace) (mkr_mp_at h r)
      at (err e) = Meets-raise _ _ _ (λ s g. g)
      at (ok (path, volume_id)) =
          Keeps-bind _ _ (KeepsLog-path_exists h (Gone name namespace) path) λ found.
            Meets-if _ _ found _ _ (λ _. Meets-pure _ _ _ (λ s g. g))
              (λ _. act-Gone name namespace (make_dir path) tt)

  pub create-IsFresh :
      (p : Pod) → MeetsLog (Gone p.name p.namespace) (create_pod_with_service h p) (λ _. IsFresh)
  unfolding create_pod_with_service create_service_of
  create-IsFresh p =
      Meets-bind (λ _ s. IsFresh s.log) (act h (create_pod p)) _
        (MeetsLog-act h _ (λ _. IsFresh) (create_pod p) (λ l r (f, gone). (gone, f)))
        (λ _. service (last_chars 6 p.name)) (λ e s f. f)
    where
      service : (o : Option String) → KeepsLog IsFresh (create_service_of h p o)
      service none = Meets-raise _ _ _ (λ s f. f)
      service (some id) =
          ignoring
            (create_service (get_or_empty "kubernetes.io/hostname" p.spec.node_selector) p.namespace
              id)
            (pure tt) tt (Meets-pure _ _ _ (λ s f. f))

  -- What the loop that waits for the deletion leaves.
  abbrev Waited : Pod → Result Bool → List Event → Type 0
  Waited p r l = IsFresh l × (r ≡ ok true → LastSeenGone p.name p.namespace l)

  abbrev pub Asked : Pod → Result Pod → List Event → Type 0
  Asked p r l = IsFresh l × (r ≡ err not_found → LastSeenGone p.name p.namespace l)

  pub get_pod-Asked : (p : Pod) → MeetsLog IsFresh (get_pod h p.name p.namespace) (Asked p)
  get_pod-Asked p = MeetsLog-get_pod h IsFresh (Asked p) p.name p.namespace asked
    where
      asked :
          (l : List Event) (r : Result Pod) → IsFresh l → Asked p r (saw p.name p.namespace r ∷ l)
      asked l (ok q) f = (f, λ e. cc)
      asked l (err not_found) f = (f, λ e. (refl, refl))
      asked l (err timeout) f = (f, λ e. cc)
      asked l (err conflict) f = (f, λ e. cc)
      asked l (err already_exists) f = (f, λ e. cc)
      asked l (err other) f = (f, λ e. cc)
      asked l (err (output o)) f = (f, λ e. cc)
      asked l (err (coded c)) f = (f, λ e. cc)
      asked l (err panicked) f = (f, λ e. cc)
      asked l (err running) f = (f, λ e. cc)

  -- After an error that does not end the wait, the next round follows unless the context is over.
  again_unless_over :
      (p : Pod) (again : Exec (Sys W) Bool)
      → MeetsLog IsFresh again (Waited p)
      → MeetsLog IsFresh
          (is_context_done h >>= λ over. if over then pure false else again)
          (Waited p)
  again_unless_over p again k =
      Meets-bind (λ _ s. IsFresh s.log) (is_context_done h) _ (KeepsLog-is_context_done h IsFresh)
        (λ over. Meets-if _ _ over _ _ (λ _. Meets-pure _ _ _ (λ s f. (f, λ e. cc))) (λ _. k))
        (λ e s f. (f, λ e'. cc))

  on_wait_error-Waited :
      (p : Pod) (again : Exec (Sys W) Bool)
      → MeetsLog IsFresh again (Waited p)
      → (e : Error) → MeetsLog (Asked p (err e)) (on_wait_error h again e) (Waited p)
  unfolding on_wait_error
  on_wait_error-Waited p again k not_found = Meets-pure _ _ _ (λ s (f, gone). (f, λ e. gone refl))
  on_wait_error-Waited p again k timeout = Meets-pure _ _ _ (λ s (f, gone). (f, λ e. cc))
  on_wait_error-Waited p again k _ =
      Meets-weaken (λ s (f, gone). f) (λ r s w. w) (again_unless_over p again k)

  wait_deleted-Waited : (fuel : ℕ) (p : Pod) → MeetsLog IsFresh (wait_deleted h fuel p) (Waited p)
  unfolding wait_deleted handle
  wait_deleted-Waited zero p = Meets-raise _ _ _ (λ s f. (f, λ e. cc))
  wait_deleted-Waited (suc fuel) p =
      let k = wait_deleted-Waited fuel p in
      Meets-answer (λ r s. Asked p r s.log) (get_pod h p.name p.namespace) _ (get_pod-Asked p)
        (λ r. answered r k)
    where
      answered :
          (r : Result Pod)
          → MeetsLog IsFresh (wait_deleted h fuel p) (Waited p)
          → MeetsLog
              (Asked p r)
              (handle r
                (λ _. wait_deleted h fuel p)
                (λ e. on_wait_error h (wait_deleted h fuel p) e))
              (Waited p)
      answered (ok q) k = Meets-weaken (λ s (f, gone). f) (λ r s w. w) k
      answered (err e) k = on_wait_error-Waited p _ k e

  create_again-IsFresh :
      (p : Pod) → MeetsLog (Gone p.name p.namespace) (create_again h p) (λ _. IsFresh)
  unfolding create_again delete_resource_of_pod
  create_again-IsFresh p =
      Meets-answer (λ _ s. Gone p.name p.namespace s.log) _ _
        (mkr_mp-Gone p.name p.namespace (delete_resource_of_pod (new_pod p)))
        λ _.
          Meets-answer (λ _ s. IsFresh s.log) _ _
            (create-IsFresh (delete_resource_of_pod (new_pod p))) λ _. Meets-pure _ _ _ (λ s f. f)

  after_delete-IsFresh :
      (late : Outcome) (fuel : ℕ) (p : Pod) → KeepsLog IsFresh (after_delete h late fuel p)
  unfolding after_delete
  after_delete-IsFresh late fuel p =
      Meets-bind (λ r s. Waited p r s.log) _ _ (wait_deleted-Waited fuel p)
        (λ gone.
          Meets-if _ _ gone _ _
            (λ e.
              Meets-weaken (λ s (f, seen). (f, seen (ap ok e))) (λ r s f. f)
                (create_again-IsFresh p))
            (λ _. Meets-pure _ _ _ (λ s (f, seen). f)))
        (λ e s (f, seen). f)

  redeploy-IsFresh :
      (late : Outcome) (fuel : ℕ) (p : Pod) → KeepsLog IsFresh (redeploy h late fuel p)
  unfolding redeploy remove_finalizer
  redeploy-IsFresh late fuel p =
      ignoring (patch_finalizers p.name p.namespace (without finalizer p.finalizers)) _ tt (
        Meets-answer (λ _ s. IsFresh s.log) _ _ (act-IsFresh (delete_pod p.name p.namespace) tt)
          λ r.
            Meets-handle _ _ r _ _ (λ _ _. after_delete-IsFresh late fuel p)
              (λ _ _. Meets-pure _ _ _ (λ s f. f)))

  -- A block under a pod's lock.
  pub locking :
      {A : Type 0} (hash : String) (m : Exec (Sys W) A)
      → KeepsLog IsFresh m
      → KeepsLog IsFresh (with_pod_lock h hash m)
  locking hash m k =
      MeetsLog-with_pod_lock h IsFresh (λ _. IsFresh) hash m
        (Meets-weaken (λ s (l, f, e). rw e f) (λ r s f. f) k)

  resource_handler-IsFresh :
      (late : Outcome) (fuel : ℕ) (p : Pod) → KeepsLog IsFresh (resource_handler h late fuel p)
  unfolding resource_handler
  resource_handler-IsFresh late fuel p =
      Meets-if _ _ (get_or_empty pod_hash_label_key p.labels == "") _ _
        (λ _. Meets-raise _ _ _ (λ s f. f))
        λ _. locking _ _ (
          Meets-if _ _ (is_pod_resource_error p) _ _
            (λ _.
              Meets-if _ _ (is_pod_has_resource p) _ _ (λ _. redeploy-IsFresh late fuel p)
                (λ _. Meets-pure _ _ _ (λ s f. f)))
            (λ _. Meets-pure _ _ _ (λ s f. f)))

  -- podErrorHandler and podPendingHandler keep it true of the log that, before each request to
  -- create a pod, the last answer about a pod was that there is none of that name, whatever the
  -- API server answered before and however long the wait was.
  pub resource_handlers-IsFresh :
      (fuel : ℕ) (p : Pod) (s : Sys W)
      → IsFresh s.log
      → IsFresh (pod_error_handler h fuel p s).1.log
        × IsFresh (pod_pending_handler h fuel p s).1.log
  unfolding pod_error_handler pod_pending_handler
  resource_handlers-IsFresh fuel p s f = (
    (resource_handler-IsFresh requeue fuel p).at s f,
    (resource_handler-IsFresh done fuel p).at s f,
  )
