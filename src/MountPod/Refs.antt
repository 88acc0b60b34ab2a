-- ===== src/MountPod/Refs.antt =====
-- The annotations that AddRefOfMount of pkg/builder/mount.go writes, and the log when it succeeds.
use dingofs_csi.Common.{
  ◌+◌, String, false, List, ◌∷◌, Option, none, some, Dict, ◌≡◌, refl, ◌∙◌, ◌⊎◌, inl, inr,
  if◌then◌else◌, ◌==◌, lookup, insert, lookup-insert, lookup-delete,
}
use mathlib.Core.Path.{subst}
use dingofs_csi.Common.Exec.{Result, ok, err, Meets-pure, Meets-raise, Meets-if, Meets-bind}
use dingofs_csi.Kube.{Pod, annotations_of}
use dingofs_csi.Kube.Host.{replace_annotations, Event, saw, did, Sys, Host, RetriesOnConflict}
use dingofs_csi.Kube.Host.Rules.{MeetsLog, MeetsLog-get_pod, MeetsLog-act, Meets-retry_on_conflict}
use dingofs_csi.Resource.{delete_delay_at_key, reference_key, get_ref, replace_pod_annotation}
use dingofs_csi.Resource.Counting.{get_ref-insert, get_ref-delete_plain, IsPlainKey}
use dingofs_csi.MountPod.{with_ref, add_ref_by, add_ref_to, add_ref_once, add_ref_of_mount}

module _ {W : Type 0} (h : Host W) where
  -- The reference that stands under the target's key.
  pub lookup-with_ref :
      (target k : String) (m : Dict)
      → lookup k (with_ref h target m) ≡ (
          if delete_delay_at_key == k
          then none
          else if reference_key h target == k
          then some target
          else lookup k m)
  lookup-with_ref target k m = rw (
    lookup-delete delete_delay_at_key k (insert (reference_key h target) target m),
    lookup-insert (reference_key h target) k target m,
  )

  -- For a target that had no reference, exactly one reference more is counted by GetRef after
  -- AddRefOfMount, and as a map the annotations are the old ones with the target under its key
  -- and without the deletion time, if the entries under the deletion time's key are not
  -- references themselves.
  with_ref_lem :
      (target k : String) (m : Dict)
      → IsPlainKey h delete_delay_at_key (insert (reference_key h target) target m)
      → lookup (reference_key h target) m ≡ none
      → (get_ref h (with_ref h target m) ≡ get_ref h m + 1)
        × (lookup k (with_ref h target m) ≡ (
            if delete_delay_at_key == k
            then none
            else if reference_key h target == k
            then some target
            else lookup k m))
  with_ref_lem target k m plain new = (
    get_ref-delete_plain h delete_delay_at_key (insert (reference_key h target) target m) plain
        ∙ get_ref-insert h target m new,
    lookup-with_ref target k m,
  )

  -- The end of a log after which the target has its reference in a pod that is not being deleted:
  -- the pod was seen with it, or it was seen without it and the API server took the new annotations.
  abbrev pub Referenced : (pod_name target : String) → List Event → Type 0
  Referenced pod_name target l =
      (p : Pod) × (rest : List Event) × (p.deletion_timestamp ≡ false)
      × (((v : String) × (lookup (reference_key h target) (annotations_of p) ≡ some v)
            × (l ≡ saw pod_name h.namespace (ok p) ∷ rest))
          ⊎ ((lookup (reference_key h target) (annotations_of p) ≡ none)
              × (l
                  ≡ did
                      (replace_annotations p.name p.namespace
                        (with_ref h target (annotations_of p)))
                      (ok tt)
                    ∷ saw pod_name h.namespace (ok p)
                    ∷ rest)))

  abbrev Done : (pod_name target : String) → Result (Unit {0}) → List Event → Type 0
  Done pod_name target (ok _) l = Referenced pod_name target l
  Done pod_name target (err e) l = Unit {0}

  abbrev Seen : (pod_name : String) → Result Pod → List Event → Type 0
  Seen pod_name (ok p) l = (rest : List Event) × (l ≡ saw pod_name h.namespace (ok p) ∷ rest)
  Seen pod_name (err e) l = Unit {0}

  write-Done :
      (pod_name target : String) (p : Pod)
      → p.deletion_timestamp ≡ false
      → lookup (reference_key h target) (annotations_of p) ≡ none
      → MeetsLog
          (Seen pod_name (ok p))
          (replace_pod_annotation h p (with_ref h target (annotations_of p)))
          (Done pod_name target)
  unfolding replace_pod_annotation
  write-Done pod_name target p alive new =
      MeetsLog-act h (Seen pod_name (ok p)) (Done pod_name target) _ written
    where
      written :
          (l : List Event) (r : Result (Unit {0}))
          → Seen pod_name (ok p) l
          → Done pod_name target r (
              did (replace_annotations p.name p.namespace (with_ref h target (annotations_of p))) r
              ∷ l)
      written l (ok u) (rest, e) = (p, rest, alive, inr (new, rw e))
      written l (err e) _ = tt

  add_ref_to-Done :
      (pod_name target : String) (p : Pod)
      → p.deletion_timestamp ≡ false
      → MeetsLog (Seen pod_name (ok p)) (add_ref_to h target p) (Done pod_name target)
  unfolding add_ref_to add_ref_by
  add_ref_to-Done pod_name target p alive =
      go (lookup (reference_key h target) (annotations_of p)) refl
    where
      go :
          (o : Option String)
          → lookup (reference_key h target) (annotations_of p) ≡ o
          → MeetsLog (Seen pod_name (ok p)) (add_ref_by h target p o) (Done pod_name target)
      go (some v) e = Meets-pure _ _ _ (λ s (rest, seen). (p, rest, alive, inl (v, e, seen)))
      go none e = write-Done pod_name target p alive e

  add_ref_once-Done :
      (pod_name target : String)
      → MeetsLog (λ _. Unit {0}) (add_ref_once h target pod_name) (Done pod_name target)
  unfolding add_ref_once
  add_ref_once-Done pod_name target =
      Meets-bind (λ r s. Seen pod_name r s.log) _ _
        (MeetsLog-get_pod h (λ _. Unit {0}) (Seen pod_name) pod_name h.namespace seen)
        (λ p.
          Meets-if _ _ p.deletion_timestamp _ _ (λ _. Meets-raise _ _ _ (λ s _. tt))
            (add_ref_to-Done pod_name target p))
        (λ e s _. tt)
    where
      seen :
          (l : List Event) (r : Result Pod)
          → Unit {0}
          → Seen pod_name r (saw pod_name h.namespace r ∷ l)
      seen l (ok p) _ = (l, refl)
      seen l (err e) _ = tt

  -- If RetryOnConflict repeats its function only after a conflict, then, when AddRefOfMount
  -- reports success, the last thing seen of the mount pod is a pod that is not being deleted,
  -- which either already had an annotation under the target's key, or had none and the API server
  -- then accepted its annotations with the reference added and the deletion time removed.
  pub add_ref_of_mount-Referenced :
      (target pod_name : String) (s : Sys W)
      → RetriesOnConflict h
      → (add_ref_of_mount h target pod_name s).0 ≡ ok tt
      → Referenced pod_name target (add_ref_of_mount h target pod_name s).1.log
  unfolding add_ref_of_mount
  add_ref_of_mount-Referenced target pod_name s retries e =
      let done =
        (Meets-retry_on_conflict h retries (λ _. Unit {0}) (λ r s. Done pod_name target r s.log)
            (add_ref_once h target pod_name) (add_ref_once-Done pod_name target) (λ s _. tt)).at
          s tt in
      subst (λ r. Done pod_name target r (add_ref_of_mount h target pod_name s).1.log) e done
