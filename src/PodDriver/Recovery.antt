-- ===== src/PodDriver/Recovery.antt =====
-- recoverTarget of pkg/controller/pod_driver.go, by the status of the target.
use dingofs_csi.Common.{
  ℕ, zero, suc, String, Bool, true, false, not, ◌&&◌, List, ◌∷◌, ◌≡◌, refl, ◌⊎◌, inl, inr, arith,
  if◌then◌else◌, nat_eq, Bool-cases,
}
use dingofs_csi.Common.Exec.{Result, ok, err, Error, pure, raise, ◌>>=◌}
use dingofs_csi.Kube.Host.{unmount, Event, did, Sys, Host}
use dingofs_csi.Kube.Host.Calls.{act}
use dingofs_csi.MountInfo.{
  MountItem, TargetItem, TargetStatus, not_exist, mounted, not_mount, corrupt, unexpect,
}
use dingofs_csi.PodDriver.Recover.{umount_target, recover_by, recover_target}

suc_is_some : (n : ℕ) → nat_eq (suc n) 0 ≡ false
suc_is_some n = ground arith

module _ {W : Type 0} (h : Host W) where
  -- So many unmounts of the target, whatever each answered, on top of the older log.
  abbrev pub Unmounts : String → ℕ → List Event → List Event → Type 0
  Unmounts target zero old new = new ≡ old
  Unmounts target (suc n) old new =
      (r : Result (Unit {0})) × Unmounts target n (did (unmount target) r ∷ old) new

  umount_target-Unmounts :
      (n : ℕ) (target : String) (s : Sys W)
      → ((umount_target h n target s).0 ≡ ok tt)
        × Unmounts target n s.log (umount_target h n target s).1.log
  unfolding umount_target ◌>>=◌ act
  umount_target-Unmounts zero target s = (refl, refl)
  umount_target-Unmounts (suc n) target s =
      let r = h.perform (unmount target) s.world in
      let (fine, rest) =
        umount_target-Unmounts n target
          (record { world = r.1; log = did (unmount target) r.0 ∷ s.log }) in
      (fine, (r.0, rest))

  unmounted_if_any :
      (n : ℕ) (target : String) (b : Bool) (s : Sys W)
      → b ≡ true
      → let m = if not (nat_eq n 0) && b then umount_target h n target else pure tt in
        ((m s).0 ≡ ok tt) × Unmounts target n s.log (m s).1.log
  unfolding pure
  unmounted_if_any zero target b s e = (refl, refl)
  unmounted_if_any (suc n) target b s e =
      rw (suc_is_some n, e) (umount_target-Unmounts (suc n) target s)

  kept_if_not :
      (n : ℕ) (target : String) (b : Bool) (s : Sys W)
      → b ≡ false
      → (if not (nat_eq n 0) && b then umount_target h n target else pure tt) s ≡ (ok tt, s)
  unfolding pure
  kept_if_not zero target b s e = refl
  kept_if_not (suc n) target b s e = rw (suc_is_some n, e) refl

  skipped :
      (fuel : ℕ) (source : String) (ti : TargetItem) (mi : MountItem) (s : Sys W)
      → (ti.inconsistent ≡ true) ⊎ (mi.pod_deleted ≡ true)
      → recover_by h corrupt fuel source ti mi s ≡ (ok tt, s)
  unfolding recover_by pure
  skipped fuel source ti mi s (inl e) = simp e refl
  skipped fuel source ti mi s (inr e) = elim (Bool-cases ti.inconsistent) [
    | inl t ↦ simp t refl
    | inr f ↦ simp (f, e) refl
  ]

  -- What becomes of a target, by its status. Where the status is `corrupt`, the target is left alone
  -- if it is inconsistent or its app pod is being deleted; otherwise nothing is said.
  abbrev pub Recovered :
      TargetStatus → TargetItem → MountItem → Sys W → Result (Unit {0}) × Sys W → Type 0
  Recovered not_exist ti mi s t =
      (t.0 ≡ ok tt) × Unmounts ti.target (if mi.pod_deleted then ti.count else 0) s.log t.1.log
  Recovered mounted ti mi s t = t ≡ (ok tt, s)
  Recovered not_mount ti mi s t = t ≡ (ok tt, s)
  Recovered corrupt ti mi s t =
      (t ≡ (ok tt, s)) ⊎ ((ti.inconsistent ≡ false) × (mi.pod_deleted ≡ false))
  Recovered unexpect ti mi s t = t ≡ (err Error.other, s)

  unmounted_if :
      (n : ℕ) (target : String) (b : Bool) (s : Sys W)
      → let m = if not (nat_eq n 0) && b then umount_target h n target else pure tt in
        ((m s).0 ≡ ok tt) × Unmounts target (if b then n else 0) s.log (m s).1.log
  unmounted_if n target true s = unmounted_if_any n target true s refl
  unmounted_if n target false s = rw (kept_if_not n target false s refl) (refl, refl)

  recover_by-Recovered :
      (st : TargetStatus) (fuel : ℕ) (source : String) (ti : TargetItem) (mi : MountItem)
      (s : Sys W)
      → Recovered st ti mi s (recover_by h st fuel source ti mi s)
  unfolding recover_by pure raise
  recover_by-Recovered not_exist fuel source ti mi s =
      unmounted_if ti.count ti.target mi.pod_deleted s
  recover_by-Recovered mounted fuel source ti mi s = refl
  recover_by-Recovered not_mount fuel source ti mi s = refl
  recover_by-Recovered unexpect fuel source ti mi s = refl
  recover_by-Recovered corrupt fuel source ti mi s = elim (Bool-cases ti.inconsistent) [
    | inl i ↦ inl (skipped fuel source ti mi s (inl i))
    | inr i ↦ elim (Bool-cases mi.pod_deleted) [
      | inl d ↦ inl (skipped fuel source ti mi s (inr d))
      | inr d ↦ inr (i, d)
    ]
  ]

  -- recoverTarget by the status of the target: one that is gone is unmounted as often as it
  -- stands in the mount table if its app pod is being deleted, and otherwise nothing is done; for
  -- a target that is mounted, that is an ordinary directory, that is corrupt and inconsistent, or
  -- that is corrupt while its app pod is being deleted, it succeeds and calls nothing; at an
  -- unexpected status it fails and calls nothing.
  pub recover_target_cases :
      (fuel : ℕ) (source : String) (ti : TargetItem) (mi : MountItem) (s : Sys W)
      → Recovered ti.status ti mi s (recover_target h fuel source ti mi s)
  unfolding recover_target
  recover_target_cases fuel source ti mi s = recover_by-Recovered ti.status fuel source ti mi s
