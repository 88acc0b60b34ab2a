-- ===== src/Secrets/Laws.antt =====
-- When SecretController of pkg/controller/secret_controller.go deletes a secret.
use dingofs_csi.Common.{true, not, List, ◌∷◌, ◌≡◌, refl, ap, ◌⊎◌, inl, inr, arith}
use dingofs_csi.Common.Exec.{Result, err, not_found, Meets-pure, Meets-if, Meets-bind, Meets-answer}
use dingofs_csi.Kube.{Pod}
use dingofs_csi.Kube.Host.{delete_secret, Event, saw, did, Sys, Host}
use dingofs_csi.Kube.Host.Rules.{MeetsLog, MeetsLog-get_pod, MeetsLog-act, KeepsLog-now}
use dingofs_csi.Secrets.{
  Secret, is_old_kind, pod_name_of, on_pod, delete_orphan, check_and_clean_orphan_secret,
}

module _ {W : Type 0} (h : Host W) (s : Secret) (before : List Event) where
  -- The log after the answer about the pod.
  abbrev Asked : Result Pod → List Event → Type 0
  Asked r l = l ≡ saw (pod_name_of s) s.namespace r ∷ before

  -- What the check adds to the log: nothing, or the question for the pod, or, for a secret of the
  -- old kind whose pod the API server then says is absent, the deletion of the secret.
  abbrev pub Cleaned : Result (Unit {0}) → List Event → Type 0
  Cleaned r l =
      (l ≡ before)
      ⊎ ((is_old_kind h.namespace s ≡ true)
          × (((answer : Result Pod) × (l ≡ saw (pod_name_of s) s.namespace answer ∷ before))
              ⊎ (l
                  ≡ did (delete_secret s.name s.namespace) r
                    ∷ saw (pod_name_of s) s.namespace (err not_found)
                    ∷ before)))

  on_pod-Cleaned :
      is_old_kind h.namespace s ≡ true
      → (r : Result Pod) → MeetsLog (Asked r) (on_pod h s r) Cleaned
  on_pod-Cleaned old (err not_found) =
      MeetsLog-act h (Asked (err not_found)) Cleaned (delete_secret s.name s.namespace)
        (λ l r asked. inr (old, inr (ap (λ x. did (delete_secret s.name s.namespace) r ∷ x) asked)))
  on_pod-Cleaned old r = Meets-pure _ _ _ (λ t asked. inr (old, inl (_, asked)))

  delete_orphan-Cleaned :
      is_old_kind h.namespace s ≡ true → MeetsLog (λ l. l ≡ before) (delete_orphan h s) Cleaned
  unfolding delete_orphan
  delete_orphan-Cleaned old =
      Meets-answer (λ r t. Asked r t.log) _ _
        (MeetsLog-get_pod h (λ l. l ≡ before) Asked _ _
          (λ l r same. ap (λ x. saw (pod_name_of s) s.namespace r ∷ x) same))
        (on_pod-Cleaned old)

  clean-Meets : MeetsLog (λ l. l ≡ before) (check_and_clean_orphan_secret h s) Cleaned
  unfolding check_and_clean_orphan_secret
  clean-Meets =
      Meets-if _ _ (not (is_old_kind h.namespace s)) _ _
        (λ _. Meets-pure _ _ _ (λ t same. inl same))
        λ e.
          let old : is_old_kind h.namespace s ≡ true = ground (arith, e) in
          Meets-bind (λ _ t. t.log ≡ before) _ _ (KeepsLog-now h (λ l. l ≡ before))
            (λ time.
              Meets-if _ _ _ _ _ (λ _. delete_orphan-Cleaned old)
                (λ _. Meets-pure _ _ _ (λ t same. inl same)))
            (λ e t same. inl same)

module _ {W : Type 0} (h : Host W) where
  -- checkAndCleanOrphanSecret asks the API server for nothing, or for the pod only, or, for a
  -- secret of the old kind in the namespace of the driver, for the deletion of this secret after
  -- the API server has answered that there is no pod of the name without the ending.
  pub check_and_clean_orphan_secret-Cleaned :
      (s : Secret) (t : Sys W)
      → Cleaned h s t.log
          (check_and_clean_orphan_secret h s t).0
          (check_and_clean_orphan_secret h s t).1.log
  check_and_clean_orphan_secret-Cleaned s t = (clean-Meets h s t.log).at t refl
