-- ===== src/PodDriver/Quiet.antt =====
-- The steps of pkg/controller/pod_driver.go that take no lock, and statements about the log that no
-- call can break: the calls, patches, waits and checkAnnotations under its lock.
pub mod Recovering
pub mod Renewing
use dingofs_csi.Common.{
  ℕ, zero, suc, String, Bool, true, false, not, List, [], ◌∷◌, Option, none, some, Dict,
  if◌then◌else◌, ◌==◌, nat_eq, lookup, last_chars,
}
use dingofs_csi.Common.Exec.{
  Result, ok, err, Error, output, Exec, Meets-pure, Meets-raise, Meets-if, Keeps-bind, Meets-answer,
  Meets-handle, pure, raise, attempt, handle, ◌>>=◌,
}
use dingofs_csi.Kube.{Pod, annotations_of}
use dingofs_csi.Kube.Host.{
  Action, lazy_umount, Stat, exists, missing, corrupted, expired, broken, Event, saw, did, Sys,
  Host,
}
use dingofs_csi.Kube.Host.Calls.{
  act, get_pod, now, stat, create_pod_with_service, create_service_of,
}
use dingofs_csi.Kube.Host.Rules.{
  KeepsLog, MeetsLog-get_pod, MeetsLog-act, KeepsLog-now, KeepsLog-stat, KeepsLog-path_exists,
}
use dingofs_csi.Resource.{
  delete_delay_at_key, del_pod_annotation, add_pod_annotation, set_delay, check_delay,
  should_delay_by, should_delay,
}
use dingofs_csi.Resource.MountPath.{get_mount_path_of_pod}
use dingofs_csi.Resource.Umount.{umount_all, umount_path, after_failure}
use dingofs_csi.Resource.Ready.{on_stat, wait_util_mount_ready, make_if_missing, mkr_mp_at, mkr_mp}
use dingofs_csi.MountInfo.{MountInfoTable}
use dingofs_csi.PodDriver.Annotations.{
  drop_annotations, delete_with_secret, delete_unused, delete_or_delay, delete_if_unused,
  check_locked,
}

module _ {W : Type 0} (P : List Event → Type 0) where
  pub pure-quiet : {A : Type 0} (a : A) → KeepsLog {W = W} P (pure a)
  pure-quiet a = Meets-pure _ _ _ (λ s p. p)

  pub raise-quiet : {A : Type 0} (e : Error) → KeepsLog {W = W} P (raise {A = A} e)
  raise-quiet e = Meets-raise _ _ _ (λ s p. p)

  pub if-quiet :
      {A : Type 0} (b : Bool) (m n : Exec (Sys W) A)
      → KeepsLog P m
      → KeepsLog P n
      → KeepsLog P (if b then m else n)
  if-quiet b m n k l = Meets-if _ _ b m n (λ _. k) (λ _. l)

  pub attempt-quiet :
      {A B : Type 0} (m : Exec (Sys W) A) (f : Result A → Exec (Sys W) B)
      → KeepsLog P m
      → ((r : Result A) → KeepsLog P (f r))
      → KeepsLog P (attempt m >>= f)
  attempt-quiet m f k l = Meets-answer (λ _ s. P s.log) m f k l

  pub handle-quiet :
      {A B : Type 0} (f : A → Exec (Sys W) B) (g : Error → Exec (Sys W) B) (r : Result A)
      → ((a : A) → KeepsLog P (f a))
      → ((e : Error) → KeepsLog P (g e))
      → KeepsLog P (handle r f g)
  handle-quiet f g r k l = Meets-handle _ _ r f g (λ a _. k a) (λ e _. l e)

-- No call can break P.
pub record IsQuiet (P : List Event → Type 0) : Type 0 where
  pub on_saw :
      (name namespace : String) (r : Result Pod) (l : List Event)
      → P l
      → P (saw name namespace r ∷ l)
  pub on_did : (a : Action) (r : Result (Unit {0})) (l : List Event) → P l → P (did a r ∷ l)

module _ {W : Type 0} (h : Host W) (P : List Event → Type 0) (quiet : IsQuiet P) where
  pub act-quiet : (a : Action) → KeepsLog P (act h a)
  act-quiet a = MeetsLog-act h P (λ _. P) a (λ l r p. quiet.on_did a r l p)

  pub get_pod-quiet : (name namespace : String) → KeepsLog P (get_pod h name namespace)
  get_pod-quiet name namespace =
      MeetsLog-get_pod h P (λ _. P) name namespace (λ l r p. quiet.on_saw name namespace r l p)

  -- A call whose failure is only logged.
  pub ignore-quiet :
      {A : Type 0} (a : Action) (m : Exec (Sys W) A)
      → KeepsLog P m
      → KeepsLog P (attempt (act h a) >>= λ _. m)
  ignore-quiet a m k = attempt-quiet P (act h a) (λ _. m) (act-quiet a) (λ _. k)

  set_delay-quiet : (p : Pod) (o : Option String) → KeepsLog P (set_delay h p o)
  unfolding set_delay add_pod_annotation
  set_delay-quiet p none = pure-quiet P false
  set_delay-quiet p (some at) = Keeps-bind _ _ (act-quiet _) λ _. pure-quiet P true

  check_delay-quiet : (o : Option ℕ) → KeepsLog P (check_delay h o)
  unfolding check_delay
  check_delay-quiet none = pure-quiet P false
  check_delay-quiet (some at) = Keeps-bind _ _ (KeepsLog-now h P) λ t. pure-quiet P _

  should_delay_by-quiet :
      (p : Pod) (delay at : Option String) → KeepsLog P (should_delay_by h p delay at)
  unfolding should_delay_by
  should_delay_by-quiet p none at = pure-quiet P false
  should_delay_by-quiet p (some delay) none =
      Keeps-bind _ _ (KeepsLog-now h P) λ t. set_delay-quiet p (h.time_after delay t)
  should_delay_by-quiet p (some delay) (some at) = check_delay-quiet (h.parse_time at)

  should_delay-quiet : (p : Pod) → KeepsLog P (should_delay h p)
  unfolding should_delay
  should_delay-quiet p = should_delay_by-quiet p _ _

  drop_annotations-quiet : (p : Pod) (del : List String) → KeepsLog P (drop_annotations h p del)
  unfolding drop_annotations del_pod_annotation
  drop_annotations-quiet p del =
      if-quiet P _ _ _ (pure-quiet P tt)
        (Keeps-bind _ _ (get_pod-quiet _ _) λ q. if-quiet P _ _ _ (act-quiet _) (raise-quiet P _))

  delete_unused-quiet : (p : Pod) → KeepsLog P (delete_unused h p)
  unfolding delete_unused delete_with_secret
  delete_unused-quiet p = Keeps-bind _ _ (get_pod-quiet _ _) λ q.
      if-quiet P _ _ _
        (Keeps-bind _ _ (act-quiet _) λ _. ignore-quiet _ (pure tt) (pure-quiet P tt))
        (raise-quiet P _)

  pub check_locked-quiet : (t : MountInfoTable) (p : Pod) → KeepsLog P (check_locked h t p)
  unfolding check_locked delete_if_unused delete_or_delay
  check_locked-quiet t p = Keeps-bind _ _ (drop_annotations-quiet p _) λ _.
      if-quiet P _ _ _
        (Keeps-bind _ _ (should_delay-quiet p)
          λ delay. if-quiet P _ _ _ (pure-quiet P tt) (delete_unused-quiet p))
        (pure-quiet P tt)

  after_failure-quiet : (e : Error) → KeepsLog P (after_failure h e)
  after_failure-quiet (output out) = if-quiet P _ _ _ (pure-quiet P tt) (raise-quiet P _)
  after_failure-quiet _ = raise-quiet P _

  pub umount_all-quiet : (fuel : ℕ) (target : String) → KeepsLog P (umount_all h fuel target)
  unfolding umount_all
  umount_all-quiet zero target = raise-quiet P _
  umount_all-quiet (suc fuel) target =
      let k = umount_all-quiet fuel target in
      attempt-quiet P _ _ (act-quiet _) λ r. handle-quiet P _ _ r (λ _. k) after_failure-quiet

  pub umount_path-quiet : (target : String) → KeepsLog P (umount_path h target)
  unfolding umount_path
  umount_path-quiet target = ignore-quiet _ (pure tt) (pure-quiet P tt)

  on_stat-quiet :
      (again remount : Exec (Sys W) (Unit {0}))
      → KeepsLog P again
      → KeepsLog P remount
      → (answer : Stat) → KeepsLog P (on_stat h again remount answer)
  unfolding on_stat
  on_stat-quiet again remount k l (exists inode) = if-quiet P _ _ _ (pure-quiet P tt) k
  on_stat-quiet again remount k l (corrupted true) = l
  on_stat-quiet again remount k l (corrupted false) = k
  on_stat-quiet again remount k l missing = k
  on_stat-quiet again remount k l broken = k
  on_stat-quiet again remount k l expired = raise-quiet P _

  pub wait_util_mount_ready-quiet :
      (fuel : ℕ) (path : String) → KeepsLog P (wait_util_mount_ready h fuel path)
  unfolding wait_util_mount_ready
  wait_util_mount_ready-quiet zero path = raise-quiet P _
  wait_util_mount_ready-quiet (suc fuel) path =
      let k = wait_util_mount_ready-quiet fuel path in
      Keeps-bind _ _ (KeepsLog-stat h P path)
        (on_stat-quiet _ _ k (Keeps-bind _ _ (umount_all-quiet fuel path) λ _. k))

  pub mkr_mp-quiet : (p : Pod) → KeepsLog P (mkr_mp h p)
  unfolding mkr_mp mkr_mp_at make_if_missing
  mkr_mp-quiet p = by (get_mount_path_of_pod p)
    where
      by : (r : Result (String × String)) → KeepsLog P (mkr_mp_at h r)
      by (err e) = raise-quiet P e
      by (ok (path, volume_id)) =
          Keeps-bind _ _ (KeepsLog-path_exists h P path)
            λ found. if-quiet P _ _ _ (pure-quiet P tt) (act-quiet _)

  pub create_pod_with_service-quiet : (p : Pod) → KeepsLog P (create_pod_with_service h p)
  unfolding create_pod_with_service create_service_of
  create_pod_with_service-quiet p = Keeps-bind _ _ (act-quiet _) λ _. by (last_chars 6 p.name)
    where
      by : (o : Option String) → KeepsLog P (create_service_of h p o)
      by none = raise-quiet P _
      by (some id) = ignore-quiet _ (pure tt) (pure-quiet P tt)
