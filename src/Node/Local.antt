-- ===== src/Node/Local.antt =====
-- Statements about the local volumes of NodePublishVolume and NodeUnpublishVolume of
-- pkg/dingofs-driver/node.go.
use dingofs_csi.Common.{
  ℕ, suc, ◌-◌, String, Bool, true, false, List, [], ◌∷◌, arith, ◌≡◌, refl, ap, ◌⊎◌, inl, inr, ◌==◌,
  ==_refl, if◌then◌else◌,
}
use Prim.Native.String
use dingofs_csi.Common.Exec.{
  Result, ok, err, Error, Exec, Meets-pure, Meets-raise, Meets-bind, Keeps-bind, Meets-wrap,
  Meets-answer, Meets-handle, raise, wrap, forget, other, not_found, ◌>>◌,
}
use dingofs_csi.Kube.Host.{bind_mount, unmount, make_dir, Event, did, Sys, Host}
use dingofs_csi.Kube.Host.Calls.{act}
use dingofs_csi.Kube.Host.Rules.{MeetsLog, KeepsLog, MeetsLog-act}
use dingofs_csi.PodDriver.Quiet.{pure-quiet, raise-quiet, if-quiet, attempt-quiet, handle-quiet}
use dingofs_csi.Node.{NodeCalls}
use dingofs_csi.Node.Rules.{KeepsLog-read, KeepsLog-read_value}
use dingofs_csi.Node.Target.{check_dfs_type}
use dingofs_csi.Node.Publish.{publish_local, bind_local, check_bound, made_if_missing}

-- How many bind mounts at the target were accepted after which no unmount of it was asked for.
abbrev pub left_bound : (target : String) → List Event → ℕ
left_bound target [] = 0
left_bound target (did (bind_mount source t) (ok u) ∷ l) =
    let rest = left_bound target l in if t == target then suc rest else rest
left_bound target (did (unmount t) r ∷ l) =
    let rest = left_bound target l in if t == target then rest - 1 else rest
left_bound target (e ∷ l) = left_bound target l

-- So many are left.
abbrev pub Left : (target : String) → ℕ → List Event → Type 0
Left target n l = left_bound target l ≡ n

-- What a call that fails, and one that succeeds, leaves.
abbrev pub Undone : (target : String) → ℕ → Result (Unit {0}) → List Event → Type 0
Undone target n (ok u) l = (Left target n l) ⊎ (Left target (suc n) l)
Undone target n (err e) l = Left target n l

-- The same rule for an error that is told apart no more.
Meets-forget :
    {W : Type 0} (P : List Event → Type 0) (Q : Result (Unit {0}) → List Event → Type 0)
    (m : Exec (Sys W) (Unit {0}))
    → MeetsLog P m Q
    → ((e : Error) (l : List Event) → Q (err e) l → Q (err other) l)
    → MeetsLog P (wrap m) Q
unfolding wrap
Meets-forget P Q m k f = record { at = λ s p. by (m s).0 (k.at s p) }
  where
    by : (r : Result (Unit {0})) {l : List Event} → Q r l → Q (forget r) l
    by (ok u) q = q
    by (err e) q = f e _ q

module _ {W Mounted : Type 0} (h : Host W) (c : NodeCalls W Mounted) (target : String) (n : ℕ) where
  made : (path : String) → KeepsLog (Left target n) (act h (make_dir path))
  made path = MeetsLog-act h (Left target n) (λ _. Left target n) (make_dir path) (λ l r p. p)

  check_dfs_type-Left : (m : ℕ) (path : String) → KeepsLog (Left target m) (check_dfs_type c path)
  unfolding check_dfs_type
  check_dfs_type-Left m path =
      attempt-quiet (Left target m) _ _ (KeepsLog-read (Left target m) _) λ r.
        if-quiet (Left target m) _ _ _ (pure-quiet (Left target m) tt)
          (raise-quiet (Left target m) _)

  taken_back :
      (e : Error)
      → MeetsLog (Left target (suc n)) (wrap (act h (unmount target)) >> raise e) (Undone target n)
  taken_back e =
      Meets-bind (λ _ s. Left target n s.log) _ _
        (Meets-wrap _ (
          MeetsLog-act h (Left target (suc n)) (λ _. Left target n) (unmount target)
            (λ l r p. rw (==_refl target) (omega (arith, p)))))
        (λ _. Meets-raise _ _ e (λ s p. p)) (λ e s p. p)

  check_bound-Undone :
      (source : String)
      → MeetsLog (Left target (suc n)) (check_bound h c source target) (Undone target n)
  unfolding check_bound
  check_bound-Undone source =
      Meets-answer (λ _ s. Left target (suc n) s.log) _ _ (check_dfs_type-Left (suc n) source)
        λ r. Meets-handle _ _ r _ _ (λ a _. Meets-pure _ _ _ (λ s p. inr p)) (λ e _. taken_back e)

  -- What the bind mount leaves.
  abbrev Tried : Result (Unit {0}) → List Event → Type 0
  Tried (ok u) l = Left target (suc n) l
  Tried (err e) l = Left target n l

  bind_mount-Tried :
      (source : String) → MeetsLog (Left target n) (wrap (act h (bind_mount source target))) Tried
  bind_mount-Tried source =
      Meets-forget (Left target n) Tried _
        (MeetsLog-act h (Left target n) Tried (bind_mount source target) tried) (λ e l p. p)
    where
      tried :
          (l : List Event) (r : Result (Unit {0}))
          → Left target n l
          → Tried r (did (bind_mount source target) r ∷ l)
      tried l (ok u) p = rw (==_refl target) (ap suc p)
      tried l (err e) p = p

  bind_local-Undone :
      (source : String) (mounted : Bool)
      → MeetsLog (Left target n) (bind_local h c source target mounted) (Undone target n)
  unfolding bind_local
  bind_local-Undone source true = Meets-pure _ _ _ (λ s p. inl p)
  bind_local-Undone source false =
      Meets-bind (λ r s. Tried r s.log) _ _ (bind_mount-Tried source)
        (λ _. check_bound-Undone source) (λ e s p. p)

  made_if_missing-Left : (e : Error) → KeepsLog (Left target n) (made_if_missing h c target e)
  made_if_missing-Left not_found =
      Keeps-bind _ _ (Meets-wrap _ (made target)) λ _. pure-quiet (Left target n) false
  made_if_missing-Left _ = raise-quiet (Left target n) _

  publish_local-Meets :
      (host_path : String)
      → MeetsLog (Left target n) (publish_local h c host_path target) (Undone target n)
  unfolding publish_local
  publish_local-Meets host_path =
      let source : String = String.◌++◌ "/host" host_path in
      let failed : (e : Error) (s : Sys W) → Left target n s.log → Left target n s.log =
        λ e s p. p in
      Meets-bind (λ _ s. Left target n s.log) _ _ (KeepsLog-read_value (Left target n) _)
        (λ missing.
          Meets-bind (λ _ s. Left target n s.log) _ _
            (if-quiet (Left target n) missing _ _ (Meets-wrap _ (made source))
              (pure-quiet (Left target n) tt))
            (λ _.
              Meets-answer (λ _ s. Left target n s.log) _ _ (KeepsLog-read (Left target n) _)
                λ r.
                  Meets-bind (λ _ s. Left target n s.log) _ _
                    (handle-quiet (Left target n) _ _ r (pure-quiet (Left target n))
                      (made_if_missing-Left))
                    (bind_local-Undone source) failed)
            failed)
        failed

module _ {W Mounted : Type 0} (h : Host W) (c : NodeCalls W Mounted) where
  -- When NodePublishVolume fails in the branch of local volumes, no bind mount that it made at
  -- the target is left after which no unmount of the target was asked for, and when it succeeds,
  -- at most one.
  pub publish_local-Undone :
      (host_path target : String) (s : Sys W)
      → Undone target
          (left_bound target s.log)
          (publish_local h c host_path target s).0
          (publish_local h c host_path target s).1.log
  publish_local-Undone host_path target s =
      (publish_local-Meets h c target (left_bound target s.log) host_path).at s refl
