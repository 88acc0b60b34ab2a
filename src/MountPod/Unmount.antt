-- ===== src/MountPod/Unmount.antt =====
-- UmountTarget of pkg/builder/mount.go: the target is unmounted until it is no mount any more, and
-- its reference is taken from the mount pod.
use dingofs_csi.Common.{ℕ, String, [], ◌∷◌, Option, none, some, if◌then◌else◌, ◌==◌, lookup}
use dingofs_csi.Common.Exec.{Error, not_found, Exec, pure, raise, handle, attempt, ◌>>=◌, ◌>>◌}
use dingofs_csi.Kube.{Pod, annotations_of}
use dingofs_csi.Kube.Host.{cleanup_mount_point, Sys, Host}
use dingofs_csi.Kube.Host.Calls.{act, get_pod}
use dingofs_csi.Resource.Umount.{umount_all}
use dingofs_csi.Resource.{reference_key, del_pod_annotation}

module _ {W : Type 0} (h : Host W) where
  -- By what stands under the key; the patch goes to the pod that was read first.
  unfoldable pub del_ref_by : String → Pod → Option String → Exec (Sys W) (Unit {0})
  del_ref_by key pod none = pure tt
  del_ref_by key pod (some target) = del_pod_annotation h pod (key ∷ [])

  -- One attempt to take the reference away.
  unfoldable pub del_ref_once : String → Pod → Exec (Sys W) (Unit {0})
  del_ref_once key pod = do
    po ← get_pod h pod.name pod.namespace
    del_ref_by key pod (lookup key (annotations_of po))

  abbrev pub absent_is_done : Error → Exec (Sys W) (Unit {0})
  absent_is_done not_found = pure tt
  absent_is_done e = raise e

  unfoldable pub umount_target : ℕ → String → String → Exec (Sys W) (Unit {0})
  umount_target fuel target pod_name = do
    umount_all h fuel target
    act h (cleanup_mount_point target)
    if pod_name == "" then pure tt else do
      r ← attempt (get_pod h pod_name h.namespace)
      handle r (λ pod. h.retry_on_conflict (del_ref_once (reference_key h target) pod))
          absent_is_done
