-- ===== src/MountPod.antt =====
-- pkg/builder/mount.go, PodMount: the references to a mount pod are taken and dropped, and the pod is
-- deleted when none is left.
pub mod Unmount
pub mod Safety
pub mod Refs
use dingofs_csi.Common.{
  ℕ, zero, suc, String, Bool, true, false, not, List, [], ◌∷◌, Option, none, some, Dict,
  if◌then◌else◌, ◌==◌, nat_eq, ◌||◌, contains, lookup, insert, delete, last_chars,
}
use Prim.Native.String.{◌++◌}
use dingofs_csi.Common.Exec.{
  Result, ok, err, Error, not_found, other, output, panicked, running, Exec, pure, raise, handle,
  attempt, ◌>>=◌, ◌>>◌,
}
use dingofs_csi.Kube.{Pod, annotations_of}
use dingofs_csi.Kube.Host.{
  delete_pod, delete_secret, delete_service, lazy_umount, cleanup_mount_point, Sys, Host,
}
use dingofs_csi.Kube.Host.Calls.{act, get_pod}
use dingofs_csi.Resource.{
  delete_delay_at_key, reference_key, get_ref, del_pod_annotation, replace_pod_annotation,
  should_delay,
}

module _ {W : Type 0} (h : Host W) where
  -- The annotations that AddRefOfMount writes.
  abbrev pub with_ref : String → Dict → Dict
  with_ref target m = delete delete_delay_at_key (insert (reference_key h target) target m)

  -- AddRefOfMount after the test for a deleted pod, by what stands under the target's key.
  unfoldable pub add_ref_by : String → Pod → Option String → Exec (Sys W) (Unit {0})
  add_ref_by target p (some _) = pure tt
  add_ref_by target p none = replace_pod_annotation h p (with_ref target (annotations_of p))

  unfoldable pub add_ref_to : String → Pod → Exec (Sys W) (Unit {0})
  add_ref_to target p = add_ref_by target p (lookup (reference_key h target) (annotations_of p))

  -- One attempt of AddRefOfMount.
  unfoldable pub add_ref_once : String → String → Exec (Sys W) (Unit {0})
  add_ref_once target pod_name = do
    p ← get_pod h pod_name h.namespace
    if p.deletion_timestamp then raise other else add_ref_to target p

  unfoldable pub add_ref_of_mount : String → String → Exec (Sys W) (Unit {0})
  add_ref_of_mount target pod_name = h.retry_on_conflict (add_ref_once target pod_name)

  abbrev pub service_name : String → String
  service_name id = h.node_name ++ "-" ++ id ++ "-metrics"

  -- `podName[len(podName)-6:]` names the service; a failure to delete it is only logged.
  unfoldable pub delete_service_of : Pod → Option String → Exec (Sys W) (Unit {0})
  delete_service_of p none = raise panicked
  delete_service_of p (some id) = do
    _ ← attempt (act h (delete_service (service_name id) p.namespace))
    pure tt

  -- What the deletion of a mount pod takes along; failures are only logged.
  unfoldable pub delete_related : String → Pod → Exec (Sys W) (Unit {0})
  delete_related pod_name p = do
    _ ← attempt (act h (delete_secret (p.name ++ "-secret") p.namespace))
    delete_service_of p (last_chars 6 pod_name)

  -- DUmount once the pod has been read.
  unfoldable pub umount_found : String → Pod → Exec (Sys W) (Unit {0})
  umount_found pod_name p = if not (nat_eq (get_ref h (annotations_of p)) 0) then pure tt else do
    delay ← should_delay h p
    if delay then pure tt else do act h (delete_pod p.name p.namespace); delete_related pod_name p

  -- `IsNotFound` ends the attempt with success.
  abbrev pub absent_is_fine : Error → Exec (Sys W) (Unit {0})
  absent_is_fine not_found = pure tt
  absent_is_fine e = raise e

  -- One attempt of DUmount.
  unfoldable pub d_umount_once : String → Exec (Sys W) (Unit {0})
  d_umount_once pod_name = do
    r ← attempt (get_pod h pod_name h.namespace)
    handle r (umount_found pod_name) absent_is_fine

  unfoldable pub d_umount : String → Exec (Sys W) (Unit {0})
  d_umount pod_name = h.retry_on_conflict (d_umount_once pod_name)

  -- DUmount's older copy JUmount, which leaves the service alone.
  unfoldable pub j_umount_found : Pod → Exec (Sys W) (Unit {0})
  j_umount_found p = if not (nat_eq (get_ref h (annotations_of p)) 0) then pure tt else do
    delay ← should_delay h p
    if delay then pure tt else do
      act h (delete_pod p.name p.namespace)
      _ ← attempt (act h (delete_secret (p.name ++ "-secret") p.namespace))
      pure tt

  unfoldable pub j_umount_once : String → Exec (Sys W) (Unit {0})
  j_umount_once pod_name = do
    r ← attempt (get_pod h pod_name h.namespace)
    handle r j_umount_found absent_is_fine

  unfoldable pub j_umount : String → Exec (Sys W) (Unit {0})
  j_umount pod_name = h.retry_on_conflict (j_umount_once pod_name)

  abbrev pub zero_if_absent : Error → Exec (Sys W) ℕ
  zero_if_absent not_found = pure 0
  zero_if_absent e = raise e

  unfoldable pub get_mount_ref : String → Exec (Sys W) ℕ
  get_mount_ref pod_name = do
    r ← attempt (get_pod h pod_name h.namespace)
    handle r (λ p. pure (get_ref h (annotations_of p))) zero_if_absent
