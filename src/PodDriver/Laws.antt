-- ===== src/PodDriver/Laws.antt =====
-- checkAnnotations of pkg/controller/pod_driver.go: its scan, and what the log holds before a deletion.
use dingofs_csi.Common.{
  ℕ, ◌+◌, String, true, false, not, ◌&&◌, List, [], ◌∷◌, Dict, ◌≡◌, refl, ◌↔◌, inl, arith, ◌==◌,
  nat_eq, is_empty, length, All, get_or_empty,
}
use Prim.Native.String
use dingofs_csi.Common.Exec.{
  Result, ok, err, Meets-pure, Meets-raise, Meets-if, Meets-bind, Keeps-bind, Meets-answer,
  Meets-weaken,
}
use dingofs_csi.Kube.{Pod, annotations_of}
use dingofs_csi.Kube.Host.{delete_pod, delete_secret, remove_annotations, Event, saw, Sys, Host}
use dingofs_csi.Kube.Host.Calls.{act, get_pod}
use dingofs_csi.Kube.Host.Rules.{
  MeetsLog, KeepsLog, MeetsLog-get_pod, MeetsLog-act, MeetsLog-with_pod_lock,
}
use dingofs_csi.Resource.{
  is_reference, get_ref, get_all_ref_keys, should_delay, del_pod_annotation, pod_hash_label_key,
}
use dingofs_csi.Resource.Counting.{length-get_all_ref_keys}
use dingofs_csi.MountInfo.{MountInfoTable}
use dingofs_csi.MountPod.Safety.{
  LastSeenUnused, IsJustified, act-IsJustified, should_delay-IsJustified,
}
use dingofs_csi.PodDriver.Annotations.{
  target_exists, scan, drop_annotations, delete_with_secret, delete_unused, delete_or_delay,
  delete_if_unused, check_locked, check_annotations,
}

module _ {W : Type 0} (h : Host W) where
  -- The scan of checkAnnotations splits the references: those to be deleted and those that are
  -- counted are together as many as GetRef counts, and none is counted exactly when no reference
  -- is to an app pod of the table.
  scan_lem :
      (t : MountInfoTable) (m : Dict)
      → (length (scan h t m).0 + (scan h t m).1 ≡ get_ref h m)
        × (((scan h t m).1 ≡ 0)
            ↔ All (λ (k, v). (is_reference h k v && target_exists t v) ≡ false) m)
  unfolding scan get_ref
  scan_lem t [] = (omega arith, ((λ _. tt), (λ _. refl)))
  scan_lem t ((k, v) ∷ m) = let (a, b) = scan_lem t m in ground (arith, a, b)

  drop_annotations-IsJustified :
      (p : Pod) (del : List String) → KeepsLog (IsJustified h) (drop_annotations h p del)
  unfolding drop_annotations del_pod_annotation
  drop_annotations-IsJustified p del =
      Meets-if _ _ (is_empty del) _ _ (λ _. Meets-pure _ _ _ (λ s j. j))
        λ _.
          Keeps-bind _ _
            (MeetsLog-get_pod h (IsJustified h) (λ _. IsJustified h) p.name p.namespace
              (λ l r j. j))
            λ q.
              Meets-if _ _
                (nat_eq (length (get_all_ref_keys h (annotations_of q)))
                  (length (get_all_ref_keys h (annotations_of p))))
                _ _ (λ _. act-IsJustified h (remove_annotations p.name p.namespace del) tt)
                (λ _. Meets-raise _ _ _ (λ s j. j))

  delete_with_secret-IsJustified :
      (p : Pod)
      → MeetsLog
          (λ l. LastSeenUnused h p.name p.namespace l × IsJustified h l)
          (delete_with_secret h p)
          (λ _. IsJustified h)
  unfolding delete_with_secret
  delete_with_secret-IsJustified p =
      Meets-bind (λ _ s. IsJustified h s.log) (act h (delete_pod p.name p.namespace)) _
        (MeetsLog-act h _ (λ _. IsJustified h) (delete_pod p.name p.namespace) (λ l r j. j))
        (λ _.
          Meets-answer (λ _ s. IsJustified h s.log) _ _
            (act-IsJustified h (delete_secret (String.◌++◌ p.name "-secret") p.namespace) tt)
            (λ _. Meets-pure _ _ _ (λ s j. j)))
        (λ e s j. j)

  -- What GetPod under this name leaves.
  abbrev Answered : Pod → Result Pod → List Event → Type 0
  Answered p (ok q) l =
      (get_ref h (annotations_of q) ≡ 0 → LastSeenUnused h p.name p.namespace l) × IsJustified h l
  Answered p (err e) l = IsJustified h l

  delete_unused-IsJustified : (p : Pod) → KeepsLog (IsJustified h) (delete_unused h p)
  unfolding delete_unused
  delete_unused-IsJustified p =
      Meets-bind (λ r s. Answered p r s.log) (get_pod h p.name p.namespace) _
        (MeetsLog-get_pod h (IsJustified h) (Answered p) p.name p.namespace seen)
        (λ q.
          Meets-if _ _ (nat_eq (length (get_all_ref_keys h (annotations_of q))) 0) _ _
            (λ e.
              Meets-weaken (λ s (unused, j). (unused (zero_refs q e), j)) (λ r s j. j)
                (delete_with_secret-IsJustified p))
            (λ _. Meets-raise _ _ _ (λ s j. j.1)))
        (λ e s j. j)
    where
      seen :
          (l : List Event) (r : Result Pod)
          → IsJustified h l
          → Answered p r (saw p.name p.namespace r ∷ l)
      seen l (ok q) j = (λ e. (inl (refl, refl), e), j)
      seen l (err e) j = j

      zero_refs :
          (q : Pod)
          → nat_eq (length (get_all_ref_keys h (annotations_of q))) 0 ≡ true
          → get_ref h (annotations_of q) ≡ 0
      zero_refs q e = ground (arith, length-get_all_ref_keys h (annotations_of q))

  delete_if_unused-IsJustified :
      (p : Pod) (exist : ℕ) → KeepsLog (IsJustified h) (delete_if_unused h p exist)
  unfolding delete_if_unused delete_or_delay
  delete_if_unused-IsJustified p exist =
      Meets-if _ _ (nat_eq exist 0 && not p.deletion_timestamp) _ _
        (λ _. Keeps-bind (should_delay h p) _ (should_delay-IsJustified h p) λ delay.
          Meets-if _ _ delay _ _ (λ _. Meets-pure _ _ _ (λ s j. j))
            (λ _. delete_unused-IsJustified p))
        (λ _. Meets-pure _ _ _ (λ s j. j))

  pub check_locked-IsJustified :
      (t : MountInfoTable) (p : Pod) → KeepsLog (IsJustified h) (check_locked h t p)
  unfolding check_locked
  check_locked-IsJustified t p =
      Keeps-bind _ _ (drop_annotations-IsJustified p _) λ _. delete_if_unused-IsJustified p _

  check_annotations-KeepsLog :
      (t : MountInfoTable) (p : Pod) → KeepsLog (IsJustified h) (check_annotations h t p)
  unfolding check_annotations
  check_annotations-KeepsLog t p =
      Meets-if _ _ (get_or_empty pod_hash_label_key p.labels == "") _ _
        (λ _. Meets-raise _ _ _ (λ s j. j))
        λ _.
          MeetsLog-with_pod_lock h (IsJustified h) (λ _. IsJustified h)
            (get_or_empty pod_hash_label_key p.labels) (check_locked h t p)
            (Meets-weaken (λ s (l, j, e). rw e j) (λ r s j. j) (check_locked-IsJustified t p))

  -- checkAnnotations keeps it true of the log that, before each request to delete a pod, the last
  -- pod that the API server answered was asked for under that name, or has it, and has no
  -- reference to a target, whatever the API server answers, and also where references were added
  -- or dropped by others since the caller read the pod.
  pub check_annotations-IsJustified :
      (t : MountInfoTable) (p : Pod) (s : Sys W)
      → IsJustified h s.log
      → IsJustified h (check_annotations h t p s).1.log
  check_annotations-IsJustified t p s j = (check_annotations-KeepsLog t p).at s j
