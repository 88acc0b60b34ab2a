-- ===== src/Resource/Ready.antt =====
-- WaitUtilMountReady of pkg/util/resource/pod.go, and mkrMp of pkg/controller/pod_driver.go. The
-- table of device numbers that WaitUtilMountReady fills is not modelled.
use dingofs_csi.Common.{ℕ, zero, suc, String, true, false, nat_eq, if◌then◌else◌}
use dingofs_csi.Common.Exec.{Result, ok, err, other, running, Exec, pure, raise, ◌>>=◌, ◌>>◌}
use dingofs_csi.Kube.{Pod}
use dingofs_csi.Kube.Host.{Stat, exists, missing, corrupted, expired, broken, make_dir, Sys, Host}
use dingofs_csi.Kube.Host.Calls.{act, stat, path_exists}
use dingofs_csi.Resource.MountPath.{get_mount_path_of_pod}
use dingofs_csi.Resource.Umount.{umount_all}

module _ {W : Type 0} (h : Host W) where
  -- A round by the answer of os.Stat: `again` is the next round, `remount` the next round after
  -- the unmounts.
  unfoldable pub on_stat :
      (again remount : Exec (Sys W) (Unit {0})) → Stat → Exec (Sys W) (Unit {0})
  on_stat again remount (exists inode) = if nat_eq inode 1 then pure tt else again
  on_stat again remount (corrupted true) = remount
  on_stat again remount (corrupted false) = again
  on_stat again remount missing = again
  on_stat again remount broken = again
  on_stat again remount expired = raise other

  -- Each round, and the inner loop of unmounts, is bounded by the fuel that is left.
  unfoldable pub wait_util_mount_ready : ℕ → String → Exec (Sys W) (Unit {0})
  wait_util_mount_ready zero path = raise running
  wait_util_mount_ready (suc fuel) path = do
    answer ← stat h path
    on_stat (wait_util_mount_ready fuel path)
        (umount_all h fuel path >> wait_util_mount_ready fuel path) answer

  unfoldable pub make_if_missing : String → Exec (Sys W) (Unit {0})
  make_if_missing path = do
    found ← path_exists h path
    if found then pure tt else act h (make_dir path)

  unfoldable pub mkr_mp_at : Result (String × String) → Exec (Sys W) (Unit {0})
  mkr_mp_at (err e) = raise e
  mkr_mp_at (ok (path, volume_id)) = make_if_missing path

  unfoldable pub mkr_mp : Pod → Exec (Sys W) (Unit {0})
  mkr_mp p = mkr_mp_at (get_mount_path_of_pod p)
