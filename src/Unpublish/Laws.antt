-- ===== src/Unpublish/Laws.antt =====
-- Statements about DfsUnmount of pkg/dingofs-driver/dingofs.go.
use dingofs_csi.Common.{
  ℕ, zero, suc, String, List, [], ◌∷◌, ◌++◌, Option, none, some, ◌≡◌, refl, ap, ◌⊎◌, inl, inr, All,
  Option-cases, lookup,
}
use dingofs_csi.Common.Exec.{Error, not_found, output, Meets-weaken, Keeps-bind}
use dingofs_csi.Kube.{Pod, annotations_of}
use dingofs_csi.Kube.Host.{
  Event, lazy_umount, cleanup_mount_point, remove_annotations, Sys, Host, RetriesOnConflict,
}
use dingofs_csi.Kube.Host.Calls.{get_pod}
use dingofs_csi.Kube.Host.Rules.{
  KeepsLog, MeetsLog-get_pod, KeepsLog-list_pods, MeetsLog-with_pod_lock, Meets-retry_on_conflict,
}
use dingofs_csi.Resource.{del_pod_annotation}
use dingofs_csi.Resource.Umount.{umount_all, after_failure}
use dingofs_csi.MountPod.{d_umount, get_mount_ref, zero_if_absent}
use dingofs_csi.MountPod.Unmount.{umount_target, del_ref_by, del_ref_once, absent_is_done}
use dingofs_csi.MountPod.Safety.{IsJustified, act-IsJustified, d_umount-IsJustified}
use dingofs_csi.PodDriver.Quiet.{pure-quiet, raise-quiet, if-quiet, attempt-quiet, handle-quiet}
use dingofs_csi.Unpublish.{
  find_mount_pod, none_if_absent, candidates, drop_target, unmount_from, dfs_unmount,
}

-- The pod that DfsUnmount takes for a target is the first of the candidates with an annotation
-- under the target's key, and it takes none exactly where no candidate has one.
find_mount_pod_cases :
    (key : String) (ps : List Pod)
    → ((find_mount_pod key ps ≡ none) × All (λ p. lookup key (annotations_of p) ≡ none) ps)
      ⊎ ((before : List Pod) × (p : Pod) × (later : List Pod) × (target : String) × (ps
            ≡ before ++ p ∷ later)
          × (find_mount_pod key ps ≡ some p)
          × All (λ q. lookup key (annotations_of q) ≡ none) before
          × (lookup key (annotations_of p) ≡ some target))
unfolding find_mount_pod
find_mount_pod_cases key [] = inl (refl, tt)
find_mount_pod_cases key (p ∷ ps) = elim (Option-cases (lookup key (annotations_of p))) [
  | inr (target, e) ↦ inr ([], p, ps, target, refl, rw (find_mount_pod, e) refl, tt, e)
  | inl e ↦ elim (find_mount_pod_cases key ps) [
    | inl (n, a) ↦ inl (rw (find_mount_pod, e) n, (e, a))
    | inr (before, q, later, target, split, found, a, l) ↦ inr (
      p ∷ before,
      q,
      later,
      target,
      ap (λ qs. p ∷ qs) split,
      rw (find_mount_pod, e) found,
      (e, a),
      l,
    )
  ]
]

module _ {W : Type 0} (h : Host W) (retries : RetriesOnConflict h) where
  abbrev J : List Event → Type 0
  J = IsJustified h

  seeing-IsJustified : (name namespace : String) → KeepsLog J (get_pod h name namespace)
  seeing-IsJustified name namespace = MeetsLog-get_pod h J (λ _. J) name namespace (λ l r j. j)

  after_failure-IsJustified : (e : Error) → KeepsLog J (after_failure h e)
  after_failure-IsJustified (output out) = if-quiet J _ _ _ (pure-quiet J tt) (raise-quiet J _)
  after_failure-IsJustified _ = raise-quiet J _

  umount_all-IsJustified : (fuel : ℕ) (target : String) → KeepsLog J (umount_all h fuel target)
  unfolding umount_all
  umount_all-IsJustified zero target = raise-quiet J _
  umount_all-IsJustified (suc fuel) target =
      let k = umount_all-IsJustified fuel target in
      attempt-quiet J _ _ (act-IsJustified h (lazy_umount target) tt)
        λ r. handle-quiet J _ _ r (λ _. k) after_failure-IsJustified

  del_ref_once-IsJustified : (key : String) (p : Pod) → KeepsLog J (del_ref_once h key p)
  unfolding del_ref_once del_ref_by del_pod_annotation
  del_ref_once-IsJustified key p =
      Keeps-bind _ _ (seeing-IsJustified _ _) λ po. by (lookup key (annotations_of po))
    where
      by : (o : Option String) → KeepsLog J (del_ref_by h key p o)
      by none = pure-quiet J tt
      by (some target) = act-IsJustified h (remove_annotations p.name p.namespace (key ∷ [])) tt

  absent-IsJustified : (e : Error) → KeepsLog J (absent_is_done h e)
  absent-IsJustified not_found = pure-quiet J tt
  absent-IsJustified _ = raise-quiet J _

  umount_target-IsJustified :
      (fuel : ℕ) (target pod_name : String) → KeepsLog J (umount_target h fuel target pod_name)
  unfolding umount_target
  umount_target-IsJustified fuel target pod_name =
      Keeps-bind _ _ (umount_all-IsJustified fuel target) λ _.
        Keeps-bind _ _ (act-IsJustified h (cleanup_mount_point target) tt) λ _.
          if-quiet J _ _ _ (pure-quiet J tt) (
            attempt-quiet J _ _ (seeing-IsJustified _ _) λ r.
              handle-quiet J _ _ r
                (λ p.
                  Meets-retry_on_conflict h retries (λ s. J s.log) (λ _ s. J s.log) _
                    (del_ref_once-IsJustified _ p) (λ s j. j))
                absent-IsJustified)

  absent_count-IsJustified : (e : Error) → KeepsLog J (zero_if_absent h e)
  absent_count-IsJustified not_found = pure-quiet J 0
  absent_count-IsJustified _ = raise-quiet J _

  get_mount_ref-IsJustified : (pod_name : String) → KeepsLog J (get_mount_ref h pod_name)
  unfolding get_mount_ref
  get_mount_ref-IsJustified pod_name =
      attempt-quiet J _ _ (seeing-IsJustified _ _)
        λ r. handle-quiet J _ _ r (λ p. pure-quiet J _) absent_count-IsJustified

  dropped-IsJustified : (pod_name : String) → KeepsLog J (d_umount h pod_name)
  dropped-IsJustified pod_name = record { at = λ s j. d_umount-IsJustified h pod_name s retries j }

  drop_target-IsJustified :
      (fuel : ℕ) (path pod_name : String) → KeepsLog J (drop_target h fuel path pod_name)
  unfolding drop_target
  drop_target-IsJustified fuel path pod_name =
      Keeps-bind _ _ (umount_target-IsJustified fuel path pod_name) λ _.
        if-quiet J _ _ _ (pure-quiet J tt) (
          Keeps-bind _ _ (get_mount_ref-IsJustified pod_name)
            λ refs. if-quiet J _ _ _ (dropped-IsJustified pod_name) (pure-quiet J tt))

  unmount_from-IsJustified :
      (fuel : ℕ) (path : String) (o : Option Pod) → KeepsLog J (unmount_from h fuel path o)
  unfolding unmount_from
  unmount_from-IsJustified fuel path none = drop_target-IsJustified fuel path ""
  unmount_from-IsJustified fuel path (some p) = if-quiet J _ _ _ (raise-quiet J _) (
      MeetsLog-with_pod_lock h J (λ _. J) _ _
        (Meets-weaken (λ s (l, j, e). rw e j) (λ r s j. j)
          (drop_target-IsJustified fuel path p.name)))

  absent_list-IsJustified : (e : Error) → KeepsLog J (none_if_absent h e)
  absent_list-IsJustified not_found = pure-quiet J []
  absent_list-IsJustified _ = raise-quiet J _

  candidates-IsJustified : (unique_id : String) → KeepsLog J (candidates h unique_id)
  unfolding candidates
  candidates-IsJustified unique_id = attempt-quiet J _ _ (seeing-IsJustified _ _) λ r.
      Keeps-bind _ _ (handle-quiet J _ _ r (λ p. pure-quiet J _) absent_list-IsJustified)
        λ named. Keeps-bind _ _ (KeepsLog-list_pods h J _ _) λ pods. pure-quiet J _

  -- If RetryOnConflict repeats its function only after a conflict, DfsUnmount keeps it true of
  -- the log that, before each request to delete a pod, the last pod that the API server answered
  -- was asked for under that name, or has it, and has no reference to a target, whatever the API
  -- server and the node answer, so although others change the pod between its steps.
  pub dfs_unmount-IsJustified :
      (fuel : ℕ) (volume_id path : String) (s : Sys W)
      → IsJustified h s.log
      → IsJustified h (dfs_unmount h fuel volume_id path s).1.log
  unfolding dfs_unmount
  dfs_unmount-IsJustified fuel volume_id path s j =
      (Keeps-bind _ _ (candidates-IsJustified volume_id)
          λ pods. unmount_from-IsJustified fuel path _).at
        s j
