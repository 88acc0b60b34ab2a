-- ===== src/Resource/Umount.antt =====
-- The loop `for { umount -l target }` that UmountTarget and createPodOrAddRef of pkg/builder/mount.go
-- and WaitUtilMountReady of pkg/util/resource/pod.go share, and UmountPath of pkg/util/util.go.
use dingofs_csi.Common.{ℕ, zero, suc, String, Bool, ◌||◌, if◌then◌else◌, contains}
use dingofs_csi.Common.Exec.{Error, output, running, Exec, pure, raise, handle, attempt, ◌>>=◌}
use dingofs_csi.Kube.Host.{lazy_umount, Sys, Host}
use dingofs_csi.Kube.Host.Calls.{act}

-- What `umount` prints where there is nothing to unmount.
unfoldable pub says_not_mounted : String → Bool
unfolding contains
says_not_mounted out =
    contains out "not mounted"
    || contains out "mountpoint not found"
    || contains out "no mount point specified"

module _ {W : Type 0} (h : Host W) where
  abbrev pub after_failure : Error → Exec (Sys W) (Unit {0})
  after_failure (output out) = if says_not_mounted out then pure tt else raise (output out)
  after_failure e = raise e

  -- `for { umount -l target }`, with fuel.
  unfoldable pub umount_all : ℕ → String → Exec (Sys W) (Unit {0})
  umount_all zero target = raise running
  umount_all (suc fuel) target = do
    r ← attempt (act h (lazy_umount target))
    handle r (λ _. umount_all fuel target) after_failure

  -- UmountPath: a failure is only logged.
  unfoldable pub umount_path : String → Exec (Sys W) (Unit {0})
  umount_path target = do _ ← attempt (act h (lazy_umount target)); pure tt
