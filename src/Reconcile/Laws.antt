-- ===== src/Reconcile/Laws.antt =====
-- What MountController and JobController of pkg/controller ask of the API server.
use dingofs_csi.Common.{
  ℕ, ◌+◌, ◌*◌, ◌<◌, String, Bool, true, false, not, ◌&&◌, List, [], ◌∷◌, Option, none, some, ◌≡◌,
  refl, ◌⊎◌, inl, inr, arith, ap, ◌∙◌, if◌then◌else◌, ◌==◌, is_empty, Bool-cases, ltb,
}
use dingofs_csi.Common.Exec.{
  Result, ok, err, Error, not_found, pure, raise, handle, attempt, continue, ◌>>=◌,
}
use dingofs_csi.Kube.{Pod, Job}
use dingofs_csi.Kube.Host.{
  Action, patch_finalizers, delete_job, label_is, on_node, Event, saw, did, Sys, Host,
}
use dingofs_csi.Kube.Host.Calls.{act, get_pod, get_job, list_pods, now}
use dingofs_csi.Resource.{finalizer, without, remove_finalizer}
use dingofs_csi.Reconcile.{
  Requeue, no_requeue, has_finalizer, is_job_completed, is_job_failed, csi_pods, release,
  mount_found, mount_reconcile, recycled_by, is_job_should_be_recycled, recycle, recycle_if_due,
  recycle_on_node, job_found, job_reconcile, ignore_absent,
}

module _ {W : Type 0} (h : Host W) where
  -- The API server answers that the csi node does not run on this node.
  abbrev pub HasNoCsiNode : String → W → Type 0
  HasNoCsiNode node w =
      (h.read_pods h.namespace (label_is "app" "dingofs-csi-node" ∷ on_node node ∷ []) w).0 ≡ ok []

  -- A mount pod that is being deleted, has the finalizer, and has no csi node to serve it.
  abbrev pub IsOrphan : Pod → W → Type 0
  IsOrphan p w =
      (p.deletion_timestamp ≡ true) × (has_finalizer p ≡ true) × HasNoCsiNode p.spec.node_name w

  abbrev IsReleased : Pod → Sys W → List Event → Type 0
  IsReleased p s l =
      (IsOrphan p s.world
        × (r : Result (Unit {0})) × (l
            ≡ did (patch_finalizers p.name p.namespace (without finalizer p.finalizers)) r ∷ s.log))
      ⊎ ((IsOrphan p s.world → ⊥) × (l ≡ s.log))

  -- The log after a call whose answer does not change the result.
  call-log :
      (a : Action) (q : Requeue) (s : Sys W)
      → ((act h a >>= λ _. pure q) s).1.log ≡ did a (h.perform a s.world).0 ∷ s.log
  unfolding ◌>>=◌ act pure
  call-log a q s = by (h.perform a s.world).0 _
    where
      by : (r : Result (Unit {0})) (t : Sys W) → (continue r (λ _ s. (ok q, s)) t).1.log ≡ t.log
      by (ok x) t = refl
      by (err e) t = refl

  release_by :
      (p : Pod) (s t : Sys W) (r : Result (List Pod))
      → (h.read_pods h.namespace
          (label_is "app" "dingofs-csi-node" ∷ on_node p.spec.node_name ∷ [])
          s.world).0
        ≡ r
      → p.deletion_timestamp ≡ true
      → has_finalizer p ≡ true
      → t.log ≡ s.log
      → IsReleased p s
          (continue r
            (λ pods.
              if is_empty pods
              then remove_finalizer h p finalizer >>= (λ _. pure no_requeue)
              else pure no_requeue)
            t).1.log
  unfolding remove_finalizer pure
  release_by p s t (ok []) e d f l =
      let a = patch_finalizers p.name p.namespace (without finalizer p.finalizers) in
      let r = (h.perform a t.world).0 in
      inl ((d, f, e), r, call-log a no_requeue t ∙ ap (λ m. did a r ∷ m) l)
  release_by p s t (ok (q ∷ qs)) e d f l = inr (λ (d, f, n). cc, l)
  release_by p s t (err x) e d f l = inr (λ (d, f, n). cc, l)

  release_cases :
      (p : Pod) (s : Sys W)
      → p.deletion_timestamp ≡ true
      → has_finalizer p ≡ true
      → IsReleased p s (release h p s).1.log
  unfolding release csi_pods list_pods ◌>>=◌
  release_cases p s d f = release_by p s _ _ refl d f refl

  mount_found_by :
      (p : Pod) (s : Sys W) (is_deleted is_held : Bool)
      → p.deletion_timestamp ≡ is_deleted
      → has_finalizer p ≡ is_held
      → IsReleased p s
          ((if not is_deleted
              then pure no_requeue
              else if not is_held
              then pure no_requeue
              else release h p)
            s).1.log
  unfolding pure
  mount_found_by p s false is_held e f = inr (λ (d, g, n). cc, refl)
  mount_found_by p s true false e f = inr (λ (d, g, n). cc, refl)
  mount_found_by p s true true e f = release_cases p s e f

  mount_found_cases : (p : Pod) (s : Sys W) → IsReleased p s (mount_found h p s).1.log
  unfolding mount_found
  mount_found_cases p s = mount_found_by p s _ _ refl refl

  -- For a pod that the API server answers, MountController.Reconcile takes the finalizer away,
  -- once and leaving the other finalizers in their order, exactly when the pod is being deleted,
  -- has the finalizer, and the API server then lists no csi node on the pod's node; in every
  -- other case it asks nothing after the pod was read.
  pub mount_reconcile_cases :
      (name namespace : String) (p : Pod) (s : Sys W)
      → (h.read_pod name namespace s.world).0 ≡ ok p
      → (IsOrphan p (h.read_pod name namespace s.world).1
          × (r : Result (Unit {0})) × ((mount_reconcile h name namespace s).1.log
              ≡ did (patch_finalizers p.name p.namespace (without finalizer p.finalizers)) r
                ∷ saw name namespace (ok p)
                ∷ s.log))
        ⊎ ((IsOrphan p (h.read_pod name namespace s.world).1 → ⊥)
            × ((mount_reconcile h name namespace s).1.log ≡ saw name namespace (ok p) ∷ s.log))
  unfolding mount_reconcile ◌>>=◌ attempt get_pod handle
  mount_reconcile_cases name namespace p s e = rw e (
      mount_found_cases p (record {
        world = (h.read_pod name namespace s.world).1;
        log = saw name namespace (ok p) ∷ s.log;
      }))

  -- The job has ended, and its time to live is not set, or is over at a time that the clock shows.
  abbrev pub IsOver : Job → Type 0
  IsOver j =
      ((is_job_completed j ≡ true) ⊎ (is_job_failed j ≡ true))
      × ((j.ttl ≡ none)
          ⊎ ((ttl : ℕ) × (end : ℕ) × (w : W) × (j.ttl ≡ some ttl)
              × (j.completion_time ≡ some end)
              × (end + ttl * 1000000000 < (h.read_clock w).0)))

  recycled_by_cases :
      (ttl completion : Option ℕ) (s : Sys W)
      → ((recycled_by h ttl completion s).1.log ≡ s.log)
        × (((recycled_by h ttl completion s).0 ≡ ok false)
            ⊎ (((recycled_by h ttl completion s).0 ≡ ok true)
                × ((ttl ≡ none)
                    ⊎ ((t : ℕ) × (end : ℕ) × (w : W) × (ttl ≡ some t)
                        × (completion ≡ some end)
                        × (end + t * 1000000000 < (h.read_clock w).0)))))
  unfolding recycled_by ◌>>=◌ pure now
  recycled_by_cases none completion s = (refl, inr (refl, inl refl))
  recycled_by_cases (some t) none s = (refl, inl refl)
  recycled_by_cases (some t) (some end) s =
      let bound = end + t * 1000000000 in
      (
        refl,
        elim (Bool-cases (ltb bound (h.read_clock s.world).0)) [
          | inl e ↦ inr (ap ok e, inr (t, end, s.world, refl, refl, ground arith))
          | inr e ↦ inl (ap ok e)
        ],
      )

  -- A deletion of the job is asked for, for this reason, or nothing is.
  abbrev MayDelete : Type 0 → Job → List Event → List Event → Type 0
  MayDelete Reason j old new =
      (new ≡ old)
      ⊎ (Reason × (r : Result (Unit {0})) × (new ≡ did (delete_job j.name j.namespace) r ∷ old))

  abbrev IsDecided : Job → Sys W → Result Bool → Sys W → Type 0
  IsDecided j s r t = (t.log ≡ s.log) × ((r ≡ ok false) ⊎ ((r ≡ ok true) × IsOver j))

  recycled_if_ended :
      (j : Job) (s : Sys W) (is_done has_failed : Bool)
      → is_job_completed j ≡ is_done
      → is_job_failed j ≡ has_failed
      → let m =
          if not is_done && not has_failed
          then pure false
          else recycled_by h j.ttl j.completion_time in
        IsDecided j s (m s).0 (m s).1
  unfolding pure
  recycled_if_ended j s false false e f = (refl, inl refl)
  recycled_if_ended j s true has_failed e f =
      let (l, c) = recycled_by_cases j.ttl j.completion_time s in
      (l, elim c [ inl n ↦ inl n | inr (y, over) ↦ inr (y, (inl e, over)) ])
  recycled_if_ended j s false true e f =
      let (l, c) = recycled_by_cases j.ttl j.completion_time s in
      (l, elim c [ inl n ↦ inl n | inr (y, over) ↦ inr (y, (inr f, over)) ])

  recycle_log :
      (j : Job) (s : Sys W)
      → (recycle h j s).1.log
        ≡ did (delete_job j.name j.namespace) (h.perform (delete_job j.name j.namespace) s.world).0
          ∷ s.log
  unfolding recycle
  recycle_log j s = call-log (delete_job j.name j.namespace) no_requeue s

  recycled_by_answer :
      (j : Job) (s : Sys W) (r : Result Bool) (t : Sys W)
      → IsDecided j s r t
      → MayDelete
          (IsOver j)
          j
          s.log
          (continue r (λ due. if due then recycle h j else pure no_requeue) t).1.log
  unfolding pure
  recycled_by_answer j s (ok false) t (l, c) = inl l
  recycled_by_answer j s (ok true) t (l, inl n) = absurd cc
  recycled_by_answer j s (ok true) t (l, inr (y, over)) =
      let a = delete_job j.name j.namespace in
      let r = (h.perform a t.world).0 in inr (over, r, recycle_log j t ∙ ap (λ m. did a r ∷ m) l)
  recycled_by_answer j s (err e) t (l, c) = inl l

  recycle_if_due_cases :
      (j : Job) (s : Sys W) → MayDelete (IsOver j) j s.log (recycle_if_due h j s).1.log
  unfolding recycle_if_due ◌>>=◌ is_job_should_be_recycled
  recycle_if_due_cases j s = recycled_by_answer j s _ _ (recycled_if_ended j s _ _ refl refl)

  -- Why a job is deleted: it is bound to a node without a csi node, or it is over.
  abbrev pub IsDue : Job → W → Type 0
  IsDue j w = (((j.node_name == "") ≡ false) × HasNoCsiNode j.node_name w) ⊎ IsOver j

  on_node_by :
      (j : Job) (s t : Sys W) (r : Result (List Pod))
      → (h.read_pods h.namespace
          (label_is "app" "dingofs-csi-node" ∷ on_node j.node_name ∷ [])
          s.world).0
        ≡ r
      → (j.node_name == "") ≡ false
      → t.log ≡ s.log
      → MayDelete
          (IsDue j s.world)
          j
          s.log
          (continue r (λ pods. if is_empty pods then recycle h j else recycle_if_due h j) t).1.log
  on_node_by j s t (ok []) e n l =
      let a = delete_job j.name j.namespace in
      let r = (h.perform a t.world).0 in
      inr (inl (n, e), r, recycle_log j t ∙ ap (λ m. did a r ∷ m) l)
  on_node_by j s t (ok (p ∷ ps)) e n l = elim (recycle_if_due_cases j t) [
    | inl k ↦ inl (k ∙ l)
    | inr (over, r, k) ↦
        inr (inr over, r, k ∙ ap (λ m. did (delete_job j.name j.namespace) r ∷ m) l)
  ]
  on_node_by j s t (err x) e n l = inl l

  job_found_by :
      (j : Job) (s : Sys W) (is_deleted is_anywhere : Bool)
      → j.deletion_timestamp ≡ is_deleted
      → (j.node_name == "") ≡ is_anywhere
      → MayDelete
          ((j.deletion_timestamp ≡ false) × IsDue j s.world)
          j
          s.log
          ((if is_deleted
              then pure no_requeue
              else if is_anywhere
              then recycle_if_due h j
              else recycle_on_node h j)
            s).1.log
  unfolding recycle_on_node ◌>>=◌ pure csi_pods list_pods
  job_found_by j s true is_anywhere d n = inl refl
  job_found_by j s false true d n = elim (recycle_if_due_cases j s) [
    | inl k ↦ inl k
    | inr (over, r, k) ↦ inr ((d, inr over), r, k)
  ]
  job_found_by j s false false d n = elim (on_node_by j s _ _ refl n refl) [
    | inl k ↦ inl k
    | inr (due, r, k) ↦ inr ((d, due), r, k)
  ]

  absent_log : (e : Error) (s : Sys W) → (ignore_absent h e s).1.log ≡ s.log
  unfolding pure raise
  absent_log not_found s = refl
  absent_log _ s = refl

  -- JobController.Reconcile asks for at most one thing, the deletion of the job that it read, and
  -- only if the job is not being deleted and either is bound to a node on which the API server
  -- lists no csi node, or has ended and has no time to live or one that is over at a time which
  -- the clock shows.
  pub job_reconcile_cases :
      (name namespace : String) (s : Sys W)
      → ((job_reconcile h name namespace s).1.log ≡ s.log)
        ⊎ ((j : Job) × ((h.read_job name namespace s.world).0 ≡ ok j)
            × (j.deletion_timestamp ≡ false)
            × IsDue j (h.read_job name namespace s.world).1
            × (r : Result (Unit {0})) × ((job_reconcile h name namespace s).1.log
                ≡ did (delete_job j.name j.namespace) r ∷ s.log))
  unfolding job_reconcile ◌>>=◌ attempt get_job handle job_found
  job_reconcile_cases name namespace s = by (h.read_job name namespace s.world).0 refl
    where
      next : Sys W
      next = record s { world = (h.read_job name namespace s.world).1 }

      by :
          (r : Result Job)
          → (h.read_job name namespace s.world).0 ≡ r
          → ((handle r (job_found h) (ignore_absent h) next).1.log ≡ s.log)
            ⊎ ((j : Job) × ((h.read_job name namespace s.world).0 ≡ ok j)
                × (j.deletion_timestamp ≡ false)
                × IsDue j (h.read_job name namespace s.world).1
                × (a : Result (Unit {0})) × ((handle r (job_found h) (ignore_absent h) next).1.log
                    ≡ did (delete_job j.name j.namespace) a ∷ s.log))
      by (ok j) e = elim (job_found_by j next _ _ refl refl) [
        | inl k ↦ inl k
        | inr ((d, due), a, k) ↦ inr (j, e, d, due, a, k)
      ]
      by (err e) _ = inl (absent_log e next)
