-- ===== src/PodDriver/Recover.antt =====
-- recover, recoverTarget, umountTarget and umountTargetUntilRemain of pkg/controller/pod_driver.go:
-- targets whose mount is corrupt are bound again.
use dingofs_csi.Common.{
  ℕ, zero, suc, String, Bool, true, false, not, ◌&&◌, List, [], ◌∷◌, Option, none, some, Dict,
  if◌then◌else◌, ◌==◌, nat_eq, ltb,
}
use Prim.Native.String.{◌++◌}
use dingofs_csi.Common.Exec.{other, running, Exec, pure, raise, attempt, wrap, ◌>>=◌, ◌>>◌}
use dingofs_csi.Kube.{Pod, annotations_of}
use dingofs_csi.Kube.Host.{unmount, bind_mount, Stat, exists, Sys, Host}
use dingofs_csi.Kube.Host.Calls.{act, mounts, stat}
use dingofs_csi.Resource.{is_reference}
use dingofs_csi.Resource.Umount.{umount_path}
use dingofs_csi.MountInfo.{
  MountInfoTable, MountItem, TargetItem, TargetStatus, not_exist, mounted, not_mount, corrupt,
  unexpect, resolve_target,
}

-- defaultTargetMountCounts
abbrev pub default_target_mount_counts : ℕ
default_target_mount_counts = 5

abbrev pub stat_succeeds : Stat → Bool
stat_succeeds (exists inode) = true
stat_succeeds _ = false

-- The count of umountTargetUntilRemain: that of the base target, or of the last subpath target with
-- this path.
unfoldable pub count_in : String → ℕ → List TargetItem → ℕ
count_in target count [] = count
count_in target count (t ∷ ts) = count_in target (if t.target == target then t.count else count) ts

unfoldable pub count_of_target : MountItem → String → ℕ
unfolding count_in
count_of_target mi target =
    if mi.base_target.target == target
    then mi.base_target.count
    else count_in target mi.base_target.count mi.sub_path_target

module _ {W : Type 0} (h : Host W) where
  -- The loop of umountTarget; errors are ignored.
  unfoldable pub umount_target : ℕ → String → Exec (Sys W) (Unit {0})
  umount_target zero target = pure tt
  umount_target (suc n) target = do _ ← attempt (act h (unmount target)); umount_target n target

  -- One round of umountTargetUntilRemain: the item of the base target in the mounts of now.
  unfoldable pub find_item : String → Exec (Sys W) (Option MountItem)
  find_item base = do
    mis ← wrap (mounts h)
    resolve_target h (record { mis = mis; deleted_pods = [] }) base

  unfoldable pub on_item :
      Exec (Sys W) (Unit {0}) → String → ℕ → Option MountItem → Exec (Sys W) (Unit {0})
  on_item again target remain none = raise other
  on_item again target remain (some mi) =
      if ltb (count_of_target mi target) remain then pure tt else umount_path h target >> again

  unfoldable pub umount_until_remain : ℕ → (base target : String) → ℕ → Exec (Sys W) (Unit {0})
  umount_until_remain zero base target remain = raise running
  umount_until_remain (suc fuel) base target remain = do
    item ← find_item base
    on_item (umount_until_remain fuel base target remain) target remain item

  unfoldable pub bind_again : (source target : String) → Exec (Sys W) (Unit {0})
  bind_again source target = wrap (act h (bind_mount source target))

  -- The source path of a corrupt target, once its mounts are few: below the mount path for a
  -- subpath, where it must be there.
  unfoldable pub recover_corrupt : ℕ → String → TargetItem → MountItem → Exec (Sys W) (Unit {0})
  recover_corrupt fuel source ti mi = do
    umount_until_remain fuel mi.base_target.target ti.target default_target_mount_counts
    if ti.subpath == "" then bind_again source ti.target else do
      answer ← stat h (source ++ "/" ++ ti.subpath)
      if stat_succeeds answer then bind_again (source ++ "/" ++ ti.subpath) ti.target else pure tt

  unfoldable pub recover_by :
      TargetStatus → ℕ → String → TargetItem → MountItem → Exec (Sys W) (Unit {0})
  recover_by not_exist fuel source ti mi =
      if not (nat_eq ti.count 0) && mi.pod_deleted
      then umount_target ti.count ti.target
      else pure tt
  recover_by mounted fuel source ti mi = pure tt
  recover_by not_mount fuel source ti mi = pure tt
  recover_by corrupt fuel source ti mi =
      if ti.inconsistent
      then pure tt
      else if mi.pod_deleted
      then pure tt
      else recover_corrupt fuel source ti mi
  recover_by unexpect fuel source ti mi = raise other

  unfoldable pub recover_target : ℕ → String → TargetItem → MountItem → Exec (Sys W) (Unit {0})
  recover_target fuel source ti mi = recover_by ti.status fuel source ti mi

  unfoldable pub recover_all : ℕ → String → MountItem → List TargetItem → Exec (Sys W) (Unit {0})
  recover_all fuel source mi [] = pure tt
  recover_all fuel source mi (ti ∷ tis) = do
    recover_target fuel source ti mi
    recover_all fuel source mi tis

  unfoldable pub recover_item : ℕ → String → Option MountItem → Exec (Sys W) (Unit {0})
  recover_item fuel source none = pure tt
  recover_item fuel source (some mi) = do
    recover_target fuel source mi.base_target mi
    recover_all fuel source mi mi.sub_path_target

  unfoldable pub recover_one :
      ℕ → MountInfoTable → (source target : String) → Exec (Sys W) (Unit {0})
  recover_one fuel t source target = do
    item ← resolve_target h t target
    recover_item fuel source item

  -- The loop of recover over the annotations.
  unfoldable pub recover_annotations : ℕ → MountInfoTable → String → Dict → Exec (Sys W) (Unit {0})
  recover_annotations fuel t source [] = pure tt
  recover_annotations fuel t source ((k, target) ∷ m) =
      if is_reference h k target
      then recover_one fuel t source target >> recover_annotations fuel t source m
      else recover_annotations fuel t source m

  unfoldable pub recover : ℕ → MountInfoTable → Pod → String → Exec (Sys W) (Unit {0})
  recover fuel t p source = recover_annotations fuel t source (annotations_of p)
