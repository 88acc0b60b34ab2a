-- ===== src/Kube/Host/Rules.antt =====
-- Rules for statements about the log of calls, one for each call.
use dingofs_csi.Common.{String, List, ◌∷◌, ◌≡◌, refl}
use dingofs_csi.Common.Exec.{Result, err, Error, Exec, Meets}
use dingofs_csi.Kube.{Pod}
use dingofs_csi.Kube.Host.{
  Action, Selector, Event, saw, did, locked, unlocked, Sys, Host, Retried, RetriesOnConflict,
}
use dingofs_csi.Kube.Host.Calls.{
  get_pod, act, list_pods, now, mounts, stat, path_exists, is_context_done, with_pod_lock, pod_lock,
}

-- A statement about the log alone.
abbrev pub OnLog : {W : Type 0} → (List Event → Type 0) → Sys W → Type 0
OnLog P s = P s.log

abbrev pub MeetsLog :
    {W A : Type 0}
    → (List Event → Type 0)
    → Exec (Sys W) A
    → (Result A → List Event → Type 0)
    → Type 0
MeetsLog P m Q = Meets (λ s. P s.log) m (λ r s. Q r s.log)

abbrev pub KeepsLog : {W A : Type 0} → (List Event → Type 0) → Exec (Sys W) A → Type 0
KeepsLog P m = MeetsLog P m (λ _ l. P l)

module _ {W : Type 0} (h : Host W) where
  pub MeetsLog-get_pod :
      (P : List Event → Type 0) (Q : Result Pod → List Event → Type 0) (name namespace : String)
      → ((l : List Event) (r : Result Pod) → P l → Q r (saw name namespace r ∷ l))
      → MeetsLog P (get_pod h name namespace) Q
  unfolding get_pod
  MeetsLog-get_pod P Q name namespace k = record { at = λ s p. k s.log _ p }

  pub MeetsLog-act :
      (P : List Event → Type 0) (Q : Result (Unit {0}) → List Event → Type 0) (a : Action)
      → ((l : List Event) (r : Result (Unit {0})) → P l → Q r (did a r ∷ l))
      → MeetsLog P (act h a) Q
  unfolding act
  MeetsLog-act P Q a k = record { at = λ s p. k s.log _ p }

  pub KeepsLog-now : (P : List Event → Type 0) → KeepsLog P (now h)
  unfolding now
  KeepsLog-now P = record { at = λ s p. p }

  pub KeepsLog-list_pods :
      (P : List Event → Type 0) (namespace : String) (selectors : List Selector)
      → KeepsLog P (list_pods h namespace selectors)
  unfolding list_pods
  KeepsLog-list_pods P namespace selectors = record { at = λ s p. p }

  pub KeepsLog-mounts : (P : List Event → Type 0) → KeepsLog P (mounts h)
  unfolding mounts
  KeepsLog-mounts P = record { at = λ s p. p }

  pub KeepsLog-stat : (P : List Event → Type 0) (path : String) → KeepsLog P (stat h path)
  unfolding stat
  KeepsLog-stat P path = record { at = λ s p. p }

  pub KeepsLog-path_exists :
      (P : List Event → Type 0) (path : String) → KeepsLog P (path_exists h path)
  unfolding path_exists
  KeepsLog-path_exists P path = record { at = λ s p. p }

  pub KeepsLog-is_context_done : (P : List Event → Type 0) → KeepsLog P (is_context_done h)
  unfolding is_context_done
  KeepsLog-is_context_done P = record { at = λ s p. p }

  pub MeetsLog-with_pod_lock :
      {A : Type 0} (P : List Event → Type 0) (Q : Result A → List Event → Type 0) (hash : String)
      (m : Exec (Sys W) A)
      → Meets
          (λ s. (l : List Event) × P l × (s.log ≡ locked (pod_lock h hash) ∷ l))
          m
          (λ r s. Q r (unlocked (pod_lock h hash) ∷ s.log))
      → MeetsLog P (with_pod_lock h hash m) Q
  unfolding with_pod_lock
  MeetsLog-with_pod_lock P Q hash m k = record { at = λ s p. k.at _ (s.log, p, refl) }

  Retried-Meets :
      (P : Sys W → Type 0) (Q : Result (Unit {0}) → Sys W → Type 0) (m : Exec (Sys W) (Unit {0}))
      → Meets P m Q
      → ((s : Sys W) → Q (err Error.conflict) s → P s)
      → {s : Sys W} {r : Result (Unit {0})} {t : Sys W} → Retried m s r t
      → P s
      → Q r t
  Retried-Meets P Q m k back (Retried.last s) p = k.at s p
  Retried-Meets P Q m k back (Retried.again s e rest) p =
      Retried-Meets P Q m k back rest (back (m s).1 (rw e at (k.at s p)))

  -- What one run ensures, the retried call ensures, if a run that ends in a conflict leaves a state
  -- from which the next may start.
  pub Meets-retry_on_conflict :
      RetriesOnConflict h
      → (P : Sys W → Type 0) (Q : Result (Unit {0}) → Sys W → Type 0) (m : Exec (Sys W) (Unit {0}))
      → Meets P m Q
      → ((s : Sys W) → Q (err Error.conflict) s → P s)
      → Meets P (h.retry_on_conflict m) Q
  Meets-retry_on_conflict retries P Q m k back = record {
    at = λ s p. Retried-Meets P Q m k back (retries m s) p;
  }
