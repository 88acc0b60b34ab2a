-- ===== src/PodDriver/Annotations.antt =====
-- checkAnnotations of pkg/controller/pod_driver.go: references of app pods that are gone are dropped,
-- and a mount pod with no reference left is deleted, at once or after its delay.
use dingofs_csi.Common.{
  ℕ, suc, String, Bool, true, false, not, ◌&&◌, List, [], ◌∷◌, ◌++◌, Option, none, some, Dict,
  if◌then◌else◌, ◌==◌, nat_eq, is_empty, length, lookup, get_or_empty,
}
use Prim.Native.String
use dingofs_csi.Common.Exec.{conflict, other, Exec, pure, raise, attempt, ◌>>=◌, ◌>>◌}
use dingofs_csi.Kube.{Pod, annotations_of}
use dingofs_csi.Kube.Host.{delete_pod, delete_secret, Sys, Host}
use dingofs_csi.Kube.Host.Calls.{act, get_pod, with_pod_lock}
use dingofs_csi.Resource.{
  pod_hash_label_key, delete_delay_at_key, is_reference, get_all_ref_keys, del_pod_annotation,
  should_delay,
}
use dingofs_csi.MountInfo.{MountInfoTable}
use dingofs_csi.MountInfo.Paths.{get_pod_uid}

abbrev pub is_present : Option Bool → Bool
is_present none = false
is_present (some b) = true

-- The target's app pod is in the table.
unfoldable pub target_exists : MountInfoTable → String → Bool
unfolding lookup
target_exists t target = is_present (lookup (get_pod_uid target) t.deleted_pods)

module _ {W : Type 0} (h : Host W) where
  -- The loop over the annotations: the keys to delete, and the number of targets that exist.
  unfoldable pub scan : MountInfoTable → Dict → List String × ℕ
  unfolding target_exists
  scan t [] = ([], 0)
  scan t ((k, target) ∷ m) =
      let (del, exist) = scan t m in
      if is_reference h k target
      then (if target_exists t target then (del, suc exist) else (k ∷ del, exist))
      else (del, exist)

  unfoldable pub is_delay_set : Dict → Bool
  unfolding get_or_empty
  is_delay_set m = not (get_or_empty delete_delay_at_key m == "")

  -- The annotations to delete: with a target left, the deletion time too.
  unfoldable pub to_delete : Dict → List String × ℕ → List String
  unfolding is_delay_set
  to_delete m (del, exist) =
      if not (nat_eq exist 0) && is_delay_set m then del ++ delete_delay_at_key ∷ [] else del

  -- The references are compared with those of the latest pod before they are deleted.
  unfoldable pub drop_annotations : Pod → List String → Exec (Sys W) (Unit {0})
  drop_annotations p del = if is_empty del then pure tt else do
    new_pod ← get_pod h p.name p.namespace
    if nat_eq (length (get_all_ref_keys h (annotations_of new_pod)))
          (length (get_all_ref_keys h (annotations_of p)))
        then del_pod_annotation h p del
        else raise conflict

  unfoldable pub delete_with_secret : Pod → Exec (Sys W) (Unit {0})
  delete_with_secret p = do
    act h (delete_pod p.name p.namespace)
    _ ← attempt (act h (delete_secret (String.◌++◌ p.name "-secret") p.namespace))
    pure tt

  -- The deletion of a pod that the latest answer shows without references.
  unfoldable pub delete_unused : Pod → Exec (Sys W) (Unit {0})
  delete_unused p = do
    new_pod ← get_pod h p.name p.namespace
    if nat_eq (length (get_all_ref_keys h (annotations_of new_pod))) 0
        then delete_with_secret p
        else raise conflict

  unfoldable pub delete_or_delay : Pod → Exec (Sys W) (Unit {0})
  delete_or_delay p = do delay ← should_delay h p; if delay then pure tt else delete_unused p

  unfoldable pub delete_if_unused : Pod → ℕ → Exec (Sys W) (Unit {0})
  delete_if_unused p exist =
      if nat_eq exist 0 && not p.deletion_timestamp then delete_or_delay p else pure tt

  unfoldable pub check_locked : MountInfoTable → Pod → Exec (Sys W) (Unit {0})
  check_locked t p = do
    drop_annotations p (to_delete (annotations_of p) (scan t (annotations_of p)))
    delete_if_unused p (scan t (annotations_of p)).1

  unfoldable pub check_annotations : MountInfoTable → Pod → Exec (Sys W) (Unit {0})
  check_annotations t p =
      if get_or_empty pod_hash_label_key p.labels == ""
      then raise other
      else with_pod_lock h (get_or_empty pod_hash_label_key p.labels) (check_locked t p)
