-- ===== src/PodDriver/Waiting.antt =====
-- The ends of two waiting loops: umountTarget's `for { umount -l target }` of pkg/builder/mount.go, and
-- the wait for a deletion in pkg/controller/pod_driver.go.
use dingofs_csi.Common.{ℕ, zero, suc, ◌<◌, String, true, List, ◌∷◌, ◌≡◌, refl, arith}
use dingofs_csi.Common.Exec.{ok, err, Error, not_found, output, pure, raise, attempt, handle, ◌>>=◌}
use dingofs_csi.Kube.{Pod}
use dingofs_csi.Kube.Host.{lazy_umount, Event, did, Sys, Host}
use dingofs_csi.Kube.Host.Calls.{act, get_pod}
use dingofs_csi.Resource.Umount.{says_not_mounted, umount_all}
use dingofs_csi.PodDriver.Redeploy.{wait_deleted, on_wait_error}

module _ {W : Type 0} (h : Host W) where
  -- The API server answers the pod n times, one call after another, and then that there is none.
  abbrev pub GoneAfter : ℕ → (name namespace : String) → W → Type 0
  GoneAfter zero name namespace w = (h.read_pod name namespace w).0 ≡ err not_found
  GoneAfter (suc n) name namespace w =
      ((p : Pod) × ((h.read_pod name namespace w).0 ≡ ok p))
      × GoneAfter n name namespace (h.read_pod name namespace w).1

  -- If the API server answers the pod n times and then that there is none, the loop that waits
  -- for the deletion ends with success, for any fuel above n.
  wait_deleted_ends :
      (n fuel : ℕ) (p : Pod) (s : Sys W)
      → n < fuel
      → GoneAfter n p.name p.namespace s.world
      → (wait_deleted h fuel p s).0 ≡ ok true
  unfolding wait_deleted ◌>>=◌ attempt handle get_pod on_wait_error pure
  wait_deleted_ends n zero p s lt g = elim lt [ ]
  wait_deleted_ends zero (suc fuel) p s lt g = rw (g, handle, on_wait_error) refl
  wait_deleted_ends (suc n) (suc fuel) p s lt ((q, e), g) =
      rw (e, handle) (wait_deleted_ends n fuel p _ (omega arith) g)

  -- The target is mounted n times: so many unmounts succeed, and the next one says that it is not
  -- mounted.
  abbrev pub MountedTimes : ℕ → String → W → Type 0
  MountedTimes zero target w =
      (out : String) × ((h.perform (lazy_umount target) w).0 ≡ err (output out))
      × (says_not_mounted out ≡ true)
  MountedTimes (suc n) target w =
      ((h.perform (lazy_umount target) w).0 ≡ ok tt)
      × MountedTimes n target (h.perform (lazy_umount target) w).1

  -- The n successful unmounts and the one that fails.
  abbrev pub Unmounted : ℕ → String → List Event → List Event → Type 0
  Unmounted zero target old new = (e : Error) × (new ≡ did (lazy_umount target) (err e) ∷ old)
  Unmounted (suc n) target old new = Unmounted n target (did (lazy_umount target) (ok tt) ∷ old) new

  -- The loop of lazy unmounts over a target that is mounted n times ends with success, for any
  -- fuel above n, after n unmounts that succeed and one that finds nothing mounted.
  pub umount_all_ends :
      (n fuel : ℕ) (target : String) (s : Sys W)
      → n < fuel
      → MountedTimes n target s.world
      → ((umount_all h fuel target s).0 ≡ ok tt)
        × Unmounted n target s.log (umount_all h fuel target s).1.log
  unfolding umount_all ◌>>=◌ attempt handle act pure raise
  umount_all_ends n zero target s lt m = elim lt [ ]
  umount_all_ends zero (suc fuel) target s lt (out, e, says) =
      rw (e, handle) (rw says (refl, (output out, refl)))
  umount_all_ends (suc n) (suc fuel) target s lt (e, m) =
      rw (e, handle) (umount_all_ends n fuel target _ (omega arith) m)
