-- ===== src/PodDriver/Stuck/Laws.antt =====
-- What checkMountPodStuck of pkg/controller/pod_driver.go asks for.
use dingofs_csi.Common.{
  ℕ, zero, suc, String, true, false, not, List, ◌∷◌, Option, none, some, ◌≡◌, refl, arith,
}
use Prim.Native.String.{◌++◌}
use dingofs_csi.Common.Exec.{
  Result, Error, not_found, panicked, running, Meets-pure, Meets-raise, Meets-answer, Meets-handle,
  Meets-if, Meets-bind, Meets-weaken, Keeps-bind,
}
use dingofs_csi.Kube.{Pod}
use dingofs_csi.Kube.Status.{get_pod_status}
use dingofs_csi.Kube.Host.{create_job, Event, saw, did, Sys, Host}
use dingofs_csi.Kube.Host.Calls.{get_job}
use dingofs_csi.Kube.Host.Rules.{
  KeepsLog, MeetsLog, MeetsLog-get_pod, MeetsLog-act, KeepsLog-is_context_done,
}
use dingofs_csi.Reconcile.{is_job_completed}
use dingofs_csi.Resource.MountPath.{get_mount_path_of_pod}
use dingofs_csi.Mounting.{ask}
use dingofs_csi.Jobs.{gen_job_name_by_volume_id}
use dingofs_csi.PodDriver.Stuck.{
  Minors, mount_point_of, is_deleted_status, shows_deleted, on_job_error, wait_abort, do_abort_fuse,
  on_abort_error, abort_known, watch_deletion, watch_then_delete, check_mount_pod_stuck,
}

-- What the watch asks for after the log `old`: first only for the pod, which is being deleted.
pub data Watched (p : Pod) (old : List Event) : List Event → Type 0 where
  start : Watched p old old
  again :
      {l : List Event} {r : Result Pod}
      → Watched p old l
      → shows_deleted r ≡ true
      → Watched p old (saw p.name p.namespace r ∷ l)

-- In the end nothing more, an answer that does not show the pod being deleted, or one job.
pub data Ended (p : Pod) (job : String) (old : List Event) : List Event → Type 0 where
  quiet : {l : List Event} → Watched p old l → Ended p job old l
  left :
      {l : List Event} {r : Result Pod}
      → Watched p old l
      → shows_deleted r ≡ false
      → Ended p job old (saw p.name p.namespace r ∷ l)
  aborted :
      {l : List Event} {r : Result (Unit {0})}
      → Watched p old l
      → Ended p job old (did (create_job job) r ∷ l)

module _ {W : Type 0} (h : Host W) (minors : Minors W) (p : Pod) (old : List Event) where
  abbrev Over : List Event → Type 0
  Over = Ended p (gen_job_name_by_volume_id h p.name ++ "-abort-fuse") old

  KeepsLog-ask : {A : Type 0} (P : List Event → Type 0) (f : W → A × W) → KeepsLog P (ask f)
  unfolding ask
  KeepsLog-ask P f = record { at = λ s q. q }

  KeepsLog-get_job :
      (P : List Event → Type 0) (name namespace : String) → KeepsLog P (get_job h name namespace)
  unfolding get_job
  KeepsLog-get_job P name namespace = record { at = λ s q. q }

  wait_abort-Keeps :
      (P : List Event → Type 0) (fuel : ℕ) (name namespace : String)
      → KeepsLog P (wait_abort h minors fuel name namespace)
  unfolding wait_abort
  wait_abort-Keeps P zero name namespace = Meets-raise _ _ _ (λ s q. q)
  wait_abort-Keeps P (suc fuel) name namespace =
      let rest = wait_abort-Keeps P fuel name namespace in
      Keeps-bind _ _ (KeepsLog-is_context_done h P) λ over.
        Meets-if _ _ over _ _ (λ _. Meets-pure _ _ _ (λ s q. q))
          (λ _.
            Meets-answer (λ _ s. P s.log) _ _ (KeepsLog-get_job P name namespace)
              λ r.
                Meets-handle _ _ r _ _
                  (λ j _.
                    Meets-if _ _ (is_job_completed j) _ _ (λ _. Meets-pure _ _ _ (λ s q. q))
                      (λ _. rest))
                  (λ e _. failed e))
    where
      failed : (e : Error) → KeepsLog P (on_job_error h minors e)
      failed not_found = Meets-pure _ _ _ (λ s q. q)
      failed e = Meets-raise _ _ _ (λ s q. q)

  abort_known-Over :
      (fuel : ℕ) (o : Option ℕ)
      → MeetsLog (Watched p old) (abort_known h minors fuel p o) (λ _. Over)
  unfolding abort_known do_abort_fuse
  abort_known-Over fuel none = Meets-pure _ _ _ (λ s q. quiet q)
  abort_known-Over fuel (some minor) =
      Meets-answer (λ _ s. Over s.log) _ _
        (Meets-bind (λ _ s. Over s.log) _ _
          (MeetsLog-act h (Watched p old) (λ _. Over) _ (λ l r q. aborted q))
          (λ _. wait_abort-Keeps Over fuel _ p.namespace) (λ e s q. q))
        λ r. Meets-handle _ _ r _ _ (λ _ _. Meets-pure _ _ _ (λ s q. q)) (λ e _. logged e)
    where
      logged : (e : Error) → KeepsLog Over (on_abort_error h minors e)
      logged panicked = Meets-raise _ _ _ (λ s q. q)
      logged running = Meets-raise _ _ _ (λ s q. q)
      logged e = Meets-pure _ _ _ (λ s q. q)

  -- The answer that was seen last.
  Seen : Result Pod → List Event → Type 0
  Seen r l = (rest : List Event) × Watched p old rest × (l ≡ saw p.name p.namespace r ∷ rest)

  last_left : (r : Result Pod) → not (shows_deleted r) ≡ true → (l : List Event) → Seen r l → Over l
  unfolding Seen
  last_left r e l (rest, q, x) = rw x (left q (ground arith))

  last_again :
      (r : Result Pod)
      → not (shows_deleted r) ≡ false
      → (l : List Event) → Seen r l
      → Watched p old l
  unfolding Seen
  last_again r e l (rest, q, x) = rw x (again q (ground arith))

  watch_deletion-Over :
      (fuel : ℕ) (mount_point : String)
      → MeetsLog (Watched p old) (watch_deletion h minors fuel p mount_point) (λ _. Over)
  unfolding watch_deletion Seen
  watch_deletion-Over zero mount_point = Meets-raise _ _ _ (λ s q. quiet q)
  watch_deletion-Over (suc fuel) mount_point =
      let rest = watch_deletion-Over fuel mount_point in
      Meets-bind (λ _ s. Watched p old s.log) _ _ (KeepsLog-is_context_done h (Watched p old))
        (λ over.
          Meets-if _ _ over _ _
            (λ _.
              Meets-bind (λ _ s. Watched p old s.log) _ _ (KeepsLog-ask (Watched p old) _)
                (abort_known-Over fuel) (λ e s q. quiet q))
            (λ _.
              Meets-answer (λ r s. Seen r s.log) _ _
                (MeetsLog-get_pod h (Watched p old) Seen p.name p.namespace (λ l r q. (l, q, refl)))
                λ r.
                  Meets-if _ _ (not (shows_deleted r)) _ _
                    (λ e. Meets-pure _ _ _ (λ s seen. last_left r e s.log seen))
                    (λ e. Meets-weaken (λ s seen. last_again r e s.log seen) (λ r s q. q) rest)))
        (λ e s q. quiet q)

  watch_then_delete-Over :
      (fuel : ℕ) (mount_point : String)
      → MeetsLog (Watched p old) (watch_then_delete h minors fuel p mount_point) (λ _. Over)
  unfolding watch_then_delete
  watch_then_delete-Over fuel mount_point =
      Meets-answer (λ _ s. Over s.log) _ _ (watch_deletion-Over fuel mount_point)
        λ r. Keeps-bind _ _ (KeepsLog-ask Over _) (λ _.
          Meets-handle _ _ r _ _ (λ _ _. Meets-pure _ _ _ (λ s q. q))
            (λ e _. Meets-raise _ _ e (λ s q. q)))

-- Whatever the fuel and the answers, checkMountPodStuck asks for the pod as long as the answers
-- show that it is being deleted, and then for nothing more; or it ends with the first answer that
-- does not show this; or it asks for one job, which has the abort name of this pod, as the last
-- thing that the log shows
pub check_mount_pod_stuck-Ended :
    {W : Type 0} (h : Host W) (minors : Minors W) (fuel : ℕ) (p : Pod) (s : Sys W)
    → Ended p
        (gen_job_name_by_volume_id h p.name ++ "-abort-fuse")
        s.log
        (check_mount_pod_stuck h minors fuel p s).1.log
unfolding check_mount_pod_stuck
check_mount_pod_stuck-Ended h minors fuel p s =
    (Meets-if (λ t. Watched p s.log t.log) _ (not (is_deleted_status (get_pod_status (some p)))) _
        (watch_then_delete h minors fuel p (mount_point_of (get_mount_path_of_pod p)))
        (λ _. Meets-pure _ _ _ (λ t q. quiet q))
        (λ _. watch_then_delete-Over h minors p s.log fuel _)).at
      s start
