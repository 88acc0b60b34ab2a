-- ===== src/PodDriver/Quiet/Recovering.antt =====
-- The steps of podReadyHandler under its lock: recovery of targets, and the take-down of a mount pod.
use dingofs_csi.Common.{
  ℕ, zero, suc, String, Bool, true, false, List, [], ◌∷◌, Option, none, some, Dict,
}
use dingofs_csi.Common.Exec.{Exec, Keeps-bind, wrap}
use dingofs_csi.Kube.{Pod}
use dingofs_csi.Kube.Host.{Event, Sys, Host}
use dingofs_csi.Kube.Host.Rules.{KeepsLog, KeepsLog-stat, KeepsLog-mounts}
use dingofs_csi.MountInfo.{
  MountInfoTable, TargetItem, MountItem, TargetStatus, not_exist, mounted, not_mount, corrupt,
  unexpect, check, check_all, resolve_target_item, base_target_of, resolve_valid, resolve_target,
}
use dingofs_csi.PodDriver.Recover.{
  umount_target, find_item, on_item, umount_until_remain, bind_again, recover_corrupt, recover_by,
  recover_target, recover_all, recover_item, recover_one, recover_annotations, recover,
}
use dingofs_csi.PodDriver.Handlers.{take_down, serve_ready}
use dingofs_csi.PodDriver.Quiet.{
  IsQuiet, pure-quiet, raise-quiet, if-quiet, attempt-quiet, handle-quiet, act-quiet, ignore-quiet,
  umount_path-quiet, wait_util_mount_ready-quiet,
}

module _ {W : Type 0} (h : Host W) (P : List Event → Type 0) (quiet : IsQuiet P) where
  wrap-quiet : {A : Type 0} (m : Exec (Sys W) A) → KeepsLog P m → KeepsLog P (wrap m)
  unfolding wrap
  wrap-quiet m k = record { at = λ s p. k.at s p }

  check-quiet : (is_mounted : Bool) (ti : TargetItem) → KeepsLog P (check h is_mounted ti)
  unfolding check
  check-quiet is_mounted ti = Keeps-bind _ _ (KeepsLog-stat h P _) λ answer. pure-quiet P _

  check_all-quiet : (rs : List (String × TargetItem)) → KeepsLog P (check_all h rs)
  unfolding check_all
  check_all-quiet [] = pure-quiet P []
  check_all-quiet ((mount_point, r) ∷ rs) =
      Keeps-bind _ _ (check-quiet true r)
        λ ti. Keeps-bind _ _ (check_all-quiet rs) λ tis. pure-quiet P _

  base_target_of-quiet :
      (target : String) (tis : List TargetItem) → KeepsLog P (base_target_of h target tis)
  unfolding base_target_of
  base_target_of-quiet target [] = check-quiet false _
  base_target_of-quiet target (ti ∷ []) = pure-quiet P ti
  base_target_of-quiet target (a ∷ b ∷ tis) = check-quiet false _

  resolve_target-quiet :
      (t : MountInfoTable) (target : String) → KeepsLog P (resolve_target h t target)
  unfolding resolve_target resolve_valid resolve_target_item
  resolve_target-quiet t target = if-quiet P _ _ _ (pure-quiet P none) (
      if-quiet P _ _ _ (pure-quiet P none) (
        Keeps-bind _ _
          (Keeps-bind _ _ (check_all-quiet _) λ items.
            Keeps-bind _ _ (base_target_of-quiet target items)
              λ base. Keeps-bind _ _ (check_all-quiet _) λ subs. pure-quiet P _)
          λ mi. pure-quiet P _))

  umount_target-quiet : (n : ℕ) (target : String) → KeepsLog P (umount_target h n target)
  unfolding umount_target
  umount_target-quiet zero target = pure-quiet P tt
  umount_target-quiet (suc n) target = ignore-quiet h P quiet _ _ (umount_target-quiet n target)

  on_item-quiet :
      (again : Exec (Sys W) (Unit {0})) (target : String) (remain : ℕ)
      → KeepsLog P again
      → (item : Option MountItem) → KeepsLog P (on_item h again target remain item)
  unfolding on_item
  on_item-quiet again target remain k none = raise-quiet P _
  on_item-quiet again target remain k (some mi) =
      if-quiet P _ _ _ (pure-quiet P tt)
        (Keeps-bind _ _ (umount_path-quiet h P quiet target) λ _. k)

  umount_until_remain-quiet :
      (fuel : ℕ) (base target : String) (remain : ℕ)
      → KeepsLog P (umount_until_remain h fuel base target remain)
  unfolding umount_until_remain find_item
  umount_until_remain-quiet zero base target remain = raise-quiet P _
  umount_until_remain-quiet (suc fuel) base target remain =
      let k = umount_until_remain-quiet fuel base target remain in
      Keeps-bind _ _
        (Keeps-bind _ _ (wrap-quiet _ (KeepsLog-mounts h P)) λ mis. resolve_target-quiet _ base)
        (on_item-quiet _ target remain k)

  bind_again-quiet : (source target : String) → KeepsLog P (bind_again h source target)
  unfolding bind_again
  bind_again-quiet source target = wrap-quiet _ (act-quiet h P quiet _)

  recover_corrupt-quiet :
      (fuel : ℕ) (source : String) (ti : TargetItem) (mi : MountItem)
      → KeepsLog P (recover_corrupt h fuel source ti mi)
  unfolding recover_corrupt
  recover_corrupt-quiet fuel source ti mi =
      Keeps-bind _ _ (umount_until_remain-quiet fuel _ _ _) λ _.
        if-quiet P _ _ _ (bind_again-quiet _ _) (
          Keeps-bind _ _ (KeepsLog-stat h P _)
            λ answer. if-quiet P _ _ _ (bind_again-quiet _ _) (pure-quiet P tt))

  recover_by-quiet :
      (st : TargetStatus) (fuel : ℕ) (source : String) (ti : TargetItem) (mi : MountItem)
      → KeepsLog P (recover_by h st fuel source ti mi)
  unfolding recover_by
  recover_by-quiet not_exist fuel source ti mi =
      if-quiet P _ _ _ (umount_target-quiet _ _) (pure-quiet P tt)
  recover_by-quiet mounted fuel source ti mi = pure-quiet P tt
  recover_by-quiet not_mount fuel source ti mi = pure-quiet P tt
  recover_by-quiet corrupt fuel source ti mi =
      if-quiet P _ _ _ (pure-quiet P tt)
        (if-quiet P _ _ _ (pure-quiet P tt) (recover_corrupt-quiet fuel source ti mi))
  recover_by-quiet unexpect fuel source ti mi = raise-quiet P _

  recover_all-quiet :
      (fuel : ℕ) (source : String) (mi : MountItem) (tis : List TargetItem)
      → KeepsLog P (recover_all h fuel source mi tis)
  unfolding recover_all recover_target
  recover_all-quiet fuel source mi [] = pure-quiet P tt
  recover_all-quiet fuel source mi (ti ∷ tis) =
      Keeps-bind _ _ (recover_by-quiet ti.status fuel source ti mi)
        λ _. recover_all-quiet fuel source mi tis

  recover_item-quiet :
      (fuel : ℕ) (source : String) (item : Option MountItem)
      → KeepsLog P (recover_item h fuel source item)
  unfolding recover_item recover_target
  recover_item-quiet fuel source none = pure-quiet P tt
  recover_item-quiet fuel source (some mi) =
      Keeps-bind _ _ (recover_by-quiet _ fuel source mi.base_target mi)
        λ _. recover_all-quiet fuel source mi mi.sub_path_target

  recover_annotations-quiet :
      (fuel : ℕ) (t : MountInfoTable) (source : String) (m : Dict)
      → KeepsLog P (recover_annotations h fuel t source m)
  unfolding recover_annotations recover_one
  recover_annotations-quiet fuel t source [] = pure-quiet P tt
  recover_annotations-quiet fuel t source ((k, target) ∷ m) =
      let rest = recover_annotations-quiet fuel t source m in
      if-quiet P _ _ _
        (Keeps-bind _ _
          (Keeps-bind _ _ (resolve_target-quiet t target) (recover_item-quiet fuel source))
          λ _. rest)
        rest

  pub serve_ready-quiet :
      (fuel : ℕ) (t : MountInfoTable) (p : Pod) (path : String)
      → KeepsLog P (serve_ready h fuel t p path)
  unfolding serve_ready recover take_down
  serve_ready-quiet fuel t p path =
      attempt-quiet P _ _ (wait_util_mount_ready-quiet h P quiet fuel path) λ r.
        handle-quiet P _ _ r
          (λ _. Keeps-bind _ _ (recover_annotations-quiet fuel t path _) λ _. pure-quiet P _)
          (λ _. ignore-quiet h P quiet _ _ (
            Keeps-bind _ _ (umount_path-quiet h P quiet path)
              λ _. Keeps-bind _ _ (act-quiet h P quiet _) λ _. pure-quiet P _))
