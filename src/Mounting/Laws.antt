-- ===== src/Mounting/Laws.antt =====
-- Where the reference of a target stands after createPodOrAddRef of pkg/builder/mount.go.
use dingofs_csi.Common.{
  ℕ, zero, suc, String, Bool, true, false, List, ◌∷◌, Option, none, some, ◌≡◌, refl, ◌∙◌, ◌⊎◌, inl,
  inr, ==_refl, lookup, lookup-insert, last_chars, get_or_empty,
}
use dingofs_csi.Common.Exec.{
  Result, ok, err, Error, not_found, timeout, Exec, ◌>>=◌, Meets, Meets-pure, Meets-raise, Meets-if,
  Meets-bind, Meets-answer, Meets-handle,
}
use dingofs_csi.Kube.{Pod, annotations_of}
use dingofs_csi.Kube.Host.{create_pod, create_service, Event, did, Sys, Host, RetriesOnConflict}
use dingofs_csi.Kube.Host.Calls.{create_pod_with_service, create_service_of}
use dingofs_csi.Kube.Host.Rules.{MeetsLog, MeetsLog-act}
use dingofs_csi.Resource.{reference_key}
use dingofs_csi.MountPod.{add_ref_of_mount}
use dingofs_csi.MountPod.Refs.{Referenced, add_ref_of_mount-Referenced}
use dingofs_csi.Mounting.{
  MountSetting, AppInfo, MountCalls, labelled, placed_by, place, create_or_update_secret,
  create_mount_pod, on_old_error, create_or_refer, with_mount_path, create_pod_or_add_ref,
}

-- Whatever the call does.
Meets-any : {S A : Type 0} {P : S → Type 0} (m : Exec S A) → Meets P m (λ _ _. Unit {0})
Meets-any m = record { at = λ s p. tt }

module _ {W : Type 0} (h : Host W) where
  -- The pod holds the reference of the target.
  abbrev pub HasRef : String → Pod → Type 0
  HasRef target p = lookup (reference_key h target) (annotations_of p) ≡ some target

  -- The log ends with the accepted creation of a pod that holds the reference, and then the request
  -- for its service, under the last six letters of its name.
  abbrev pub Created : String → List Event → Type 0
  unfolding get_or_empty
  Created target l =
      (p : Pod) × (id : String) × (r : Result (Unit {0})) × (rest : List Event) × HasRef target p
      × (last_chars 6 p.name ≡ some id)
      × (l
          ≡ did
              (create_service (get_or_empty "kubernetes.io/hostname" p.spec.node_selector)
                p.namespace id)
              r
            ∷ did (create_pod p) (ok tt)
            ∷ rest)

  abbrev pub Placed : {A : Type 0} → (pod_name target : String) → Result A → List Event → Type 0
  Placed pod_name target (ok a) l = Referenced h pod_name target l ⊎ Created target l
  Placed pod_name target (err e) l = Unit {0}

  abbrev Accepted : Pod → Result (Unit {0}) → List Event → Type 0
  Accepted p (ok u) l = (rest : List Event) × (l ≡ did (create_pod p) (ok tt) ∷ rest)
  Accepted p (err e) l = Unit {0}

  service-Placed :
      (pod_name target : String) (p : Pod) (o : Option String)
      → HasRef target p
      → last_chars 6 p.name ≡ o
      → MeetsLog (Accepted p (ok tt)) (create_service_of h p o) (Placed pod_name target)
  unfolding create_service_of get_or_empty ◌>>=◌
  service-Placed pod_name target p none ref x = Meets-raise _ _ _ (λ s _. tt)
  service-Placed pod_name target p (some id) ref x =
      Meets-answer (λ _ s. Created target s.log) _ _
        (MeetsLog-act h (Accepted p (ok tt)) (λ _ l. Created target l) _ asked)
        (λ r. Meets-pure _ _ _ (λ s done. inr done))
    where
      asked :
          (l : List Event) (r : Result (Unit {0}))
          → Accepted p (ok tt) l
          → Created target (
              did
                (create_service
                  (get_or_empty "kubernetes.io/hostname" p.spec.node_selector)
                  p.namespace
                  id)
                r
              ∷ l)
      asked l r (rest, e) = (p, id, r, rest, ref, x, rw e refl)

  create-Placed :
      (pod_name target : String) (p : Pod)
      → HasRef target p
      → MeetsLog (λ _. Unit {0}) (create_pod_with_service h p) (Placed pod_name target)
  unfolding create_pod_with_service
  create-Placed pod_name target p ref =
      Meets-bind (λ r s. Accepted p r s.log) _ _
        (MeetsLog-act h (λ _. Unit {0}) (Accepted p) (create_pod p) accepted)
        (λ u. service-Placed pod_name target p (last_chars 6 p.name) ref refl) (λ e s _. tt)
    where
      accepted :
          (l : List Event) (r : Result (Unit {0}))
          → Unit {0}
          → Accepted p r (did (create_pod p) r ∷ l)
      accepted l (ok u) _ = (l, refl)
      accepted l (err e) _ = tt

  refer-Placed :
      RetriesOnConflict h
      → (pod_name target : String)
      → MeetsLog (λ _. Unit {0}) (add_ref_of_mount h target pod_name) (Placed pod_name target)
  refer-Placed retries pod_name target = record {
    at = λ s _. by s (add_ref_of_mount h target pod_name s).0 refl;
  }
    where
      by :
          (s : Sys W) (r : Result (Unit {0}))
          → (add_ref_of_mount h target pod_name s).0 ≡ r
          → Placed pod_name target r (add_ref_of_mount h target pod_name s).1.log
      by s (ok u) e = inl (add_ref_of_mount-Referenced h target pod_name s retries e)
      by s (err x) e = tt

module _ {W : Type 0} (h : Host W) (c : MountCalls W) (retries : RetriesOnConflict h) where
  -- The pod that a call returns has the reference.
  abbrev KeepsRef : String → Result Pod → List Event → Type 0
  KeepsRef target (ok p) l = HasRef h target p
  KeepsRef target (err e) l = Unit {0}

  placed_by-ref :
      (target : String) (app : Option AppInfo) (p : Pod) (b : Bool)
      → HasRef h target p
      → MeetsLog (λ _. Unit {0}) (placed_by h c app p b) (KeepsRef target)
  placed_by-ref target app p false ref = Meets-pure _ _ _ (λ s _. ref)
  placed_by-ref target app p true ref =
      Meets-bind (λ _ _. Unit {0}) _ _ (Meets-any _) (λ _. Meets-pure _ _ _ (λ s _. ref))
        (λ e s _. tt)

  place-ref :
      (target : String) (app : Option AppInfo) (p : Pod)
      → HasRef h target p
      → MeetsLog (λ _. Unit {0}) (place h c app p) (KeepsRef target)
  unfolding place
  place-ref target app p ref =
      Meets-bind (λ _ _. Unit {0}) _ _ (Meets-any _)
        (λ nodes.
          Meets-bind (λ _ _. Unit {0}) _ _ (Meets-any _) (λ b. placed_by-ref target app p b ref)
            (λ e s _. tt))
        (λ e s _. tt)

  labelled-HasRef :
      (st : MountSetting) (id : String) (p : Pod) → HasRef h st.target_path (labelled h c st id p)
  labelled-HasRef st id p =
      lookup-insert (reference_key h st.target_path) (reference_key h st.target_path) st.target_path
        (annotations_of p)
      ∙ rw (==_refl (reference_key h st.target_path)) refl

  create_mount_pod-Placed :
      (st : MountSetting) (app : Option AppInfo) (pod_name : String)
      → MeetsLog
          (λ _. Unit {0})
          (create_mount_pod h c st app pod_name)
          (Placed h pod_name st.target_path)
  unfolding create_mount_pod
  create_mount_pod-Placed st app pod_name =
      Meets-bind (λ _ _. Unit {0}) _ _ (Meets-any _)
        (λ p.
          Meets-bind (λ _ _. Unit {0}) _ _ (Meets-any _)
            (λ id.
              Meets-bind (λ r s. KeepsRef st.target_path r s.log) _ _
                (place-ref st.target_path app _ (labelled-HasRef st id p))
                (λ q. record { at = λ s ref. (stored q ref).at s tt }) (λ e s _. tt))
            (λ e s _. tt))
        (λ e s _. tt)
    where
      stored :
          (q : Pod)
          → HasRef h st.target_path q
          → MeetsLog
              (λ _. Unit {0})
              (create_or_update_secret h c st >>= λ _. create_pod_with_service h q)
              (Placed h pod_name st.target_path)
      stored q ref =
          Meets-bind (λ _ _. Unit {0}) _ _ (Meets-any _)
            (λ _. create-Placed h pod_name st.target_path q ref) (λ e s _. tt)

  on_old_error-Placed :
      (st : MountSetting) (app : Option AppInfo) (pod_name : String) (e : Error)
      → MeetsLog
          (λ _. Unit {0})
          (on_old_error h c st app pod_name e)
          (Placed h pod_name st.target_path)
  on_old_error-Placed st app pod_name not_found = create_mount_pod-Placed st app pod_name
  on_old_error-Placed st app pod_name timeout = Meets-raise _ _ _ (λ s _. tt)
  on_old_error-Placed st app pod_name _ = Meets-raise _ _ _ (λ s _. tt)

  create_or_refer-Placed :
      (fuel : ℕ) (st : MountSetting) (app : Option AppInfo) (pod_name : String)
      → MeetsLog
          (λ _. Unit {0})
          (create_or_refer h c fuel st app pod_name)
          (Placed h pod_name st.target_path)
  unfolding create_or_refer
  create_or_refer-Placed zero st app pod_name = Meets-raise _ _ _ (λ s _. tt)
  create_or_refer-Placed (suc fuel) st app pod_name =
      let again = create_or_refer-Placed fuel st app pod_name in
      Meets-answer (λ _ _. Unit {0}) _ _ (Meets-any _)
        λ r.
          Meets-handle _ _ r _ _
            (λ p _.
              Meets-if _ _ p.deletion_timestamp _ _ (λ _. again)
                (λ _.
                  Meets-bind (λ _ _. Unit {0}) _ _ (Meets-any _)
                    (λ _. refer-Placed h retries pod_name st.target_path) (λ e s _. tt)))
            (λ e _. on_old_error-Placed st app pod_name e)

  create_pod_or_add_ref-Meets :
      (fuel : ℕ) (st : MountSetting) (app : Option AppInfo) (pod_name : String)
      → MeetsLog
          (λ _. Unit {0})
          (create_pod_or_add_ref h c fuel st app pod_name)
          (Placed h pod_name st.target_path)
  unfolding create_pod_or_add_ref
  create_pod_or_add_ref-Meets fuel st app pod_name =
      Meets-bind (λ _ _. Unit {0}) _ _ (Meets-any _)
        (λ suffix.
          Meets-bind (λ _ _. Unit {0}) _ _ (Meets-any _)
            (λ _.
              Meets-bind (λ r s. Placed h pod_name st.target_path r s.log) _ _
                (create_or_refer-Placed fuel (with_mount_path h c st suffix) app pod_name)
                (λ _. Meets-pure _ _ _ (λ s p. p)) (λ e s _. tt))
            (λ e s _. tt))
        (λ e s _. tt)

  -- Whatever the fuel, if RetryOnConflict repeats its function only after a conflict, then, when
  -- createPodOrAddRef reports success, the reference of the target is there: either the last
  -- thing seen of the mount pod is a pod that is not being deleted and has the reference, or to
  -- which the API server then took annotations with it, or the API server accepted the creation
  -- of a pod that holds the reference, and the one call after that asked for its service, under
  -- the last six letters of its name.
  pub create_pod_or_add_ref-Placed :
      (fuel : ℕ) (st : MountSetting) (app : Option AppInfo) (pod_name : String) (s : Sys W)
      → Placed h pod_name st.target_path
          (create_pod_or_add_ref h c fuel st app pod_name s).0
          (create_pod_or_add_ref h c fuel st app pod_name s).1.log
  create_pod_or_add_ref-Placed fuel st app pod_name s =
      (create_pod_or_add_ref-Meets fuel st app pod_name).at s tt
