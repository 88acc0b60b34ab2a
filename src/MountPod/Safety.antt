-- ===== src/MountPod/Safety.antt =====
-- DUmount and JUmount of pkg/builder/mount.go: what the log of calls holds before each deletion of a pod.
use dingofs_csi.Common.{
  ℕ, String, not, List, [], ◌∷◌, Option, none, some, ◌≡◌, refl, ◌⊎◌, inr, arith, nat_eq, last_chars,
}
use Prim.Native.String.{◌++◌}
use dingofs_csi.Common.Exec.{
  Result, ok, err, Error, not_found, Exec, Meets-pure, Meets-raise, Meets-if, Meets-bind,
  Keeps-bind, Meets-answer, Meets-weaken, pure, attempt, handle, ◌>>=◌,
}
use dingofs_csi.Kube.{Pod, annotations_of}
use dingofs_csi.Kube.Host.{
  Action, delete_pod, delete_secret, delete_service, add_annotations, Event, saw, did, locked,
  unlocked, ran, Sys, Host, RetriesOnConflict,
}
use dingofs_csi.Kube.Host.Calls.{act, get_pod}
use dingofs_csi.Kube.Host.Rules.{
  MeetsLog, KeepsLog, MeetsLog-get_pod, MeetsLog-act, KeepsLog-now, Meets-retry_on_conflict,
}
use dingofs_csi.Resource.{
  get_ref, should_delay, set_delay, check_delay, should_delay_by, add_pod_annotation,
  delete_delay_at_key,
}
use dingofs_csi.MountPod.{
  umount_found, delete_related, delete_service_of, service_name, absent_is_fine, d_umount_once,
  d_umount, j_umount_found, j_umount_once, j_umount,
}

module _ {W : Type 0} (h : Host W) where
  -- The last pod that the API server answered was asked for under this name, or has it, and has no
  -- reference.
  abbrev pub LastSeenUnused : (name namespace : String) → List Event → Type 0
  LastSeenUnused name namespace [] = ⊥
  LastSeenUnused name namespace (saw n ns (ok p) ∷ l) =
      (((n ≡ name) × (ns ≡ namespace)) ⊎ ((p.name ≡ name) × (p.namespace ≡ namespace)))
      × (get_ref h (annotations_of p) ≡ 0)
  LastSeenUnused name namespace (saw n ns (err e) ∷ l) = ⊥
  LastSeenUnused name namespace (did a r ∷ l) = LastSeenUnused name namespace l
  LastSeenUnused name namespace (locked i ∷ l) = LastSeenUnused name namespace l
  LastSeenUnused name namespace (unlocked i ∷ l) = LastSeenUnused name namespace l
  LastSeenUnused name namespace (ran program arguments r ∷ l) = LastSeenUnused name namespace l

  -- Before each deletion of a pod that was asked for, the pod was last seen unused.
  abbrev pub IsJustified : List Event → Type 0
  IsJustified [] = Unit {0}
  IsJustified (did (delete_pod name namespace) r ∷ l) =
      LastSeenUnused name namespace l × IsJustified l
  IsJustified (e ∷ l) = IsJustified l

  -- The call asks for no deletion of a pod.
  abbrev pub IsHarmless : Action → Type 0
  IsHarmless (delete_pod name namespace) = ⊥
  IsHarmless a = Unit {0}

  IsJustified-did :
      (a : Action) (r : Result (Unit {0})) (l : List Event)
      → IsHarmless a
      → IsJustified l
      → IsJustified (did a r ∷ l)
  IsJustified-did (delete_pod name namespace) r l i j = absurd i
  IsJustified-did _ r l i j = j

  abbrev pub Unused : Pod → List Event → Type 0
  Unused p l = IsJustified l × LastSeenUnused p.name p.namespace l

  Unused-did :
      (q : Pod) (a : Action) (r : Result (Unit {0})) (l : List Event)
      → IsHarmless a
      → Unused q l
      → Unused q (did a r ∷ l)
  Unused-did q (delete_pod name namespace) r l i u = absurd i
  Unused-did q _ r l i u = u

  act-Unused : (q : Pod) (a : Action) → IsHarmless a → KeepsLog (Unused q) (act h a)
  act-Unused q a i = MeetsLog-act h (Unused q) (λ _. Unused q) a (λ l r u. Unused-did q a r l i u)

  pub act-IsJustified : (a : Action) → IsHarmless a → KeepsLog IsJustified (act h a)
  act-IsJustified a i =
      MeetsLog-act h IsJustified (λ _. IsJustified) a (λ l r j. IsJustified-did a r l i j)

  set_delay-Unused : (q p : Pod) (o : Option String) → KeepsLog (Unused q) (set_delay h p o)
  unfolding set_delay add_pod_annotation
  set_delay-Unused q p none = Meets-pure _ _ _ (λ s u. u)
  set_delay-Unused q p (some at) =
      Keeps-bind _ _
        (act-Unused q (add_annotations p.name p.namespace ((delete_delay_at_key, at) ∷ [])) tt)
        λ _. Meets-pure _ _ _ (λ s u. u)

  check_delay-Unused : (q : Pod) (o : Option ℕ) → KeepsLog (Unused q) (check_delay h o)
  unfolding check_delay
  check_delay-Unused q none = Meets-pure _ _ _ (λ s u. u)
  check_delay-Unused q (some at) =
      Keeps-bind _ _ (KeepsLog-now h (Unused q)) λ t. Meets-pure _ _ _ (λ s u. u)

  should_delay_by-Unused :
      (q p : Pod) (delay at : Option String) → KeepsLog (Unused q) (should_delay_by h p delay at)
  unfolding should_delay_by
  should_delay_by-Unused q p none at = Meets-pure _ _ _ (λ s u. u)
  should_delay_by-Unused q p (some delay) none =
      Keeps-bind _ _ (KeepsLog-now h (Unused q)) λ t. set_delay-Unused q p (h.time_after delay t)
  should_delay_by-Unused q p (some delay) (some at) = check_delay-Unused q (h.parse_time at)

  pub should_delay-Unused : (q p : Pod) → KeepsLog (Unused q) (should_delay h p)
  unfolding should_delay
  should_delay-Unused q p = should_delay_by-Unused q p _ _

  set_delay-IsJustified : (p : Pod) (o : Option String) → KeepsLog IsJustified (set_delay h p o)
  unfolding set_delay add_pod_annotation
  set_delay-IsJustified p none = Meets-pure _ _ _ (λ s j. j)
  set_delay-IsJustified p (some at) =
      Keeps-bind _ _
        (act-IsJustified (add_annotations p.name p.namespace ((delete_delay_at_key, at) ∷ [])) tt)
        λ _. Meets-pure _ _ _ (λ s j. j)

  pub should_delay-IsJustified : (p : Pod) → KeepsLog IsJustified (should_delay h p)
  unfolding should_delay should_delay_by check_delay
  should_delay-IsJustified p = by _ _
    where
      parsed : (o : Option ℕ) → KeepsLog IsJustified (check_delay h o)
      parsed none = Meets-pure _ _ _ (λ s j. j)
      parsed (some at) =
          Keeps-bind _ _ (KeepsLog-now h IsJustified) λ t. Meets-pure _ _ _ (λ s j. j)

      by : (delay at : Option String) → KeepsLog IsJustified (should_delay_by h p delay at)
      by none at = Meets-pure _ _ _ (λ s j. j)
      by (some delay) none =
          Keeps-bind _ _ (KeepsLog-now h IsJustified)
            λ t. set_delay-IsJustified p (h.time_after delay t)
      by (some delay) (some at) = parsed (h.parse_time at)

  -- A call whose failure is only logged, and then the rest.
  ignoring :
      (a : Action) (m : Exec (Sys W) (Unit {0}))
      → IsHarmless a
      → KeepsLog IsJustified m
      → KeepsLog IsJustified (attempt (act h a) >>= λ _. m)
  ignoring a m i k =
      Meets-answer (λ _ s. IsJustified s.log) (act h a) (λ _. m) (act-IsJustified a i) (λ _. k)

  delete_service-IsJustified :
      (p : Pod) (o : Option String) → KeepsLog IsJustified (delete_service_of h p o)
  unfolding delete_service_of
  delete_service-IsJustified p none = Meets-raise _ _ _ (λ s j. j)
  delete_service-IsJustified p (some id) =
      ignoring (delete_service (service_name h id) p.namespace) (pure tt) tt
        (Meets-pure _ _ _ (λ s j. j))

  delete_related-IsJustified :
      (pod_name : String) (p : Pod) → KeepsLog IsJustified (delete_related h pod_name p)
  unfolding delete_related
  delete_related-IsJustified pod_name p =
      ignoring (delete_secret (p.name ++ "-secret") p.namespace) _ tt
        (delete_service-IsJustified p (last_chars 6 pod_name))

  -- A pod that was last seen unused may be deleted.
  delete_pod-Unused :
      (p : Pod) → MeetsLog (Unused p) (act h (delete_pod p.name p.namespace)) (λ _. IsJustified)
  delete_pod-Unused p =
      MeetsLog-act h (Unused p) (λ _. IsJustified) (delete_pod p.name p.namespace)
        (λ l r (j, seen). (seen, j))

  -- The last answer was this pod.
  abbrev pub SeenNow : Pod → List Event → Type 0
  SeenNow p l =
      IsJustified l × (get_ref h (annotations_of p) ≡ 0 → LastSeenUnused p.name p.namespace l)

  umount_found-IsJustified :
      (pod_name : String) (p : Pod)
      → MeetsLog (SeenNow p) (umount_found h pod_name p) (λ _. IsJustified)
  unfolding umount_found
  umount_found-IsJustified pod_name p =
      Meets-if _ _ (not (nat_eq (get_ref h (annotations_of p)) 0)) _ _
        (λ used. Meets-pure _ _ _ (λ s j. j.0))
        λ unused.
          let zero : get_ref h (annotations_of p) ≡ 0 = ground arith in
          Meets-weaken (λ s (j, seen). (j, seen zero)) (λ r s j. j)
            (Meets-bind (λ _ s. Unused p s.log) (should_delay h p) _ (should_delay-Unused p p)
              (λ delay.
                Meets-if _ _ _ _ _ (λ _. Meets-pure _ _ _ (λ s u. u.0))
                  λ _.
                    Meets-bind (λ _ s. IsJustified s.log) _ _ (delete_pod-Unused p)
                      (λ _. delete_related-IsJustified pod_name p) (λ e s j. j))
              (λ e s u. u.0))

  j_umount_found-IsJustified :
      (p : Pod) → MeetsLog (SeenNow p) (j_umount_found h p) (λ _. IsJustified)
  unfolding j_umount_found
  j_umount_found-IsJustified p =
      Meets-if _ _ (not (nat_eq (get_ref h (annotations_of p)) 0)) _ _
        (λ used. Meets-pure _ _ _ (λ s j. j.0))
        λ unused.
          let zero : get_ref h (annotations_of p) ≡ 0 = ground arith in
          Meets-weaken (λ s (j, seen). (j, seen zero)) (λ r s j. j)
            (Meets-bind (λ _ s. Unused p s.log) (should_delay h p) _ (should_delay-Unused p p)
              (λ delay.
                Meets-if _ _ _ _ _ (λ _. Meets-pure _ _ _ (λ s u. u.0))
                  λ _.
                    Meets-bind (λ _ s. IsJustified s.log) _ _ (delete_pod-Unused p)
                      (λ _.
                        ignoring (delete_secret (p.name ++ "-secret") p.namespace) (pure tt) tt
                          (Meets-pure _ _ _ (λ s j. j)))
                      (λ e s j. j))
              (λ e s u. u.0))

  -- What is known after GetPod: of an answered pod, that it was seen.
  abbrev After : Result Pod → List Event → Type 0
  After (ok p) l = SeenNow p l
  After (err e) l = IsJustified l

  get_pod-After : (name namespace : String) → MeetsLog IsJustified (get_pod h name namespace) After
  get_pod-After name namespace = MeetsLog-get_pod h IsJustified After name namespace seen
    where
      seen : (l : List Event) (r : Result Pod) → IsJustified l → After r (saw name namespace r ∷ l)
      seen l (ok p) j = (j, λ e. (inr (refl, refl), e))
      seen l (err e) j = j

  absent_is_fine-IsJustified : (e : Error) → KeepsLog IsJustified (absent_is_fine h e)
  absent_is_fine-IsJustified not_found = Meets-pure _ _ _ (λ s j. j)
  absent_is_fine-IsJustified _ = Meets-raise _ _ _ (λ s j. j)

  handle-After :
      (f : Pod → Exec (Sys W) (Unit {0}))
      → ((p : Pod) → MeetsLog (SeenNow p) (f p) (λ _. IsJustified))
      → (r : Result Pod) → MeetsLog (After r) (handle r f (absent_is_fine h)) (λ _. IsJustified)
  unfolding handle
  handle-After f k (ok p) = k p
  handle-After f k (err e) = absent_is_fine-IsJustified e

  d_umount_once-IsJustified : (pod_name : String) → KeepsLog IsJustified (d_umount_once h pod_name)
  unfolding d_umount_once
  d_umount_once-IsJustified pod_name =
      Meets-answer (λ r s. After r s.log) _ _ (get_pod-After pod_name h.namespace)
        (handle-After (umount_found h pod_name) (umount_found-IsJustified pod_name))

  j_umount_once-IsJustified : (pod_name : String) → KeepsLog IsJustified (j_umount_once h pod_name)
  unfolding j_umount_once
  j_umount_once-IsJustified pod_name =
      Meets-answer (λ r s. After r s.log) _ _ (get_pod-After pod_name h.namespace)
        (handle-After (j_umount_found h) j_umount_found-IsJustified)

  -- If RetryOnConflict repeats its function only after a conflict, DUmount keeps it true of the
  -- log that, before each request to delete a pod, the last pod that the API server answered was
  -- asked for under that name, or has it, and has no reference to a target, whatever the API
  -- server answers and however often it starts again.
  pub d_umount-IsJustified :
      (pod_name : String) (s : Sys W)
      → RetriesOnConflict h
      → IsJustified s.log
      → IsJustified (d_umount h pod_name s).1.log
  unfolding d_umount
  d_umount-IsJustified pod_name s retries j =
      (Meets-retry_on_conflict h retries (λ s. IsJustified s.log) (λ _ s. IsJustified s.log)
          (d_umount_once h pod_name) (d_umount_once-IsJustified pod_name) (λ s j. j)).at
        s j

  -- If RetryOnConflict repeats its function only after a conflict, JUmount, the older copy of
  -- DUmount, keeps it true of the log that, before each request to delete a pod, the last pod
  -- that the API server answered was asked for under that name, or has it, and has no reference
  -- to a target, whatever the API server answers and however often it starts again.
  j_umount-IsJustified :
      (pod_name : String) (s : Sys W)
      → RetriesOnConflict h
      → IsJustified s.log
      → IsJustified (j_umount h pod_name s).1.log
  unfolding j_umount
  j_umount-IsJustified pod_name s retries j =
      (Meets-retry_on_conflict h retries (λ s. IsJustified s.log) (λ _ s. IsJustified s.log)
          (j_umount_once h pod_name) (j_umount_once-IsJustified pod_name) (λ s j. j)).at
        s j
