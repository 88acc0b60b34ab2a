-- ===== src/Unpublish.antt =====
-- DfsUnmount of pkg/dingofs-driver/dingofs.go: the mount pod that holds a target's reference is found,
-- the target is unmounted and its reference dropped, and the pod is deleted when no reference is left.
-- GenPodNameByUniqueId and GenMountPodName of pkg/util/resource/pod.go.
pub mod Laws
use dingofs_csi.Common.{
  ℕ, String, Bool, true, false, List, [], ◌∷◌, ◌++◌, Option, none, some, Dict, if◌then◌else◌, ◌==◌,
  ◌||◌, nat_eq, lookup, get_or_empty,
}
use Prim.Native.String
use dingofs_csi.Common.Exec.{
  Result, Error, not_found, other, Exec, pure, raise, handle, attempt, ◌>>=◌, ◌>>◌,
}
use dingofs_csi.Kube.{Pod, annotations_of}
use dingofs_csi.Kube.Host.{label_is, on_node, Sys, Host}
use dingofs_csi.Kube.Host.Calls.{get_pod, list_pods, rand_string_runes, with_pod_lock}
use dingofs_csi.Resource.{pod_hash_label_key, reference_key}
use dingofs_csi.MountPod.{d_umount, get_mount_ref}
use dingofs_csi.MountPod.Unmount.{umount_target}

-- The loop that finds the pod by the target: whether the annotation under the key is there.
unfoldable pub find_mount_pod : String → List Pod → Option Pod
unfolding lookup
find_mount_pod key [] = none
find_mount_pod key (p ∷ ps) = elim (lookup key (annotations_of p)) [
  | none ↦ find_mount_pod key ps
  | some target ↦ some p
]

module _ {W : Type 0} (h : Host W) where
  -- GenPodNameByUniqueId without the random suffix.
  unfoldable pub pod_name_by_unique_id : String → String
  pod_name_by_unique_id unique_id =
      String.◌++◌ "dingofs-" (String.◌++◌ h.node_name (String.◌++◌ "-" unique_id))

  -- The loop of GenMountPodName: a pod of this node that is not being deleted.
  unfoldable pub serving_pod : List Pod → Option Pod
  serving_pod [] = none
  serving_pod (p ∷ ps) =
      if p.deletion_timestamp
      then serving_pod ps
      else if p.spec.node_name == h.node_name
          || get_or_empty "kubernetes.io/hostname" p.spec.node_selector == h.node_name
      then some p
      else serving_pod ps

  unfoldable pub name_of : String → Option Pod → Exec (Sys W) String
  name_of unique_id (some p) = pure p.name
  name_of unique_id none = do
    letters ← rand_string_runes h 6
    pure (String.◌++◌ (pod_name_by_unique_id unique_id) (String.◌++◌ "-" letters))

  unfoldable pub gen_mount_pod_name : (unique_id hash : String) → Exec (Sys W) String
  gen_mount_pod_name unique_id hash = do
    pods ← list_pods h h.namespace (
        label_is "app.kubernetes.io/name" "dingofs-mount"
        ∷ label_is "volume-id" unique_id
        ∷ label_is "dingofs-hash" hash
        ∷ [])
    name_of unique_id (serving_pod pods)

  abbrev pub none_if_absent : Error → Exec (Sys W) (List Pod)
  none_if_absent not_found = pure []
  none_if_absent e = raise e

  -- The pod with the old name, and the pods of the volume on this node.
  unfoldable pub candidates : String → Exec (Sys W) (List Pod)
  candidates unique_id = do
    r ← attempt (get_pod h (pod_name_by_unique_id unique_id) h.namespace)
    named ← handle r (λ p. pure (p ∷ [])) none_if_absent
    pods ← list_pods h h.namespace (
        label_is "app.kubernetes.io/name" "dingofs-mount"
        ∷ label_is "volume-id" unique_id
        ∷ on_node h.node_name
        ∷ [])
    pure (named ++ pods)

  -- From UmountTarget on, under the pod's lock.
  unfoldable pub drop_target : ℕ → (path pod_name : String) → Exec (Sys W) (Unit {0})
  drop_target fuel path pod_name = do
    umount_target h fuel path pod_name
    if pod_name == "" then pure tt else do
      refs ← get_mount_ref h pod_name
      if nat_eq refs 0 then d_umount h pod_name else pure tt

  unfoldable pub unmount_from : ℕ → String → Option Pod → Exec (Sys W) (Unit {0})
  unmount_from fuel path none = drop_target fuel path ""
  unmount_from fuel path (some p) =
      if get_or_empty pod_hash_label_key p.labels == ""
      then raise other
      else with_pod_lock h (get_or_empty pod_hash_label_key p.labels) (drop_target fuel path p.name)

  -- DfsUnmount; the unique ID of a volume is its volume ID.
  unfoldable pub dfs_unmount : ℕ → (volume_id path : String) → Exec (Sys W) (Unit {0})
  dfs_unmount fuel volume_id path = do
    pods ← candidates volume_id
    unmount_from fuel path (find_mount_pod (reference_key h path) pods)
