-- ===== src/Jobs/Kept.antt =====
-- What is true of the log and stays true when jobs of pkg/builder/mount.go are asked for and awaited.
use dingofs_csi.Common.{
  ℕ, zero, suc, String, Bool, true, false, not, ◌&&◌, List, [], ◌∷◌, Option, none, some,
}
use dingofs_csi.Common.Exec.{
  Result, Error, not_found, Meets-pure, Meets-raise, Meets-answer, Meets-handle, Meets-if,
  Keeps-bind,
}
use dingofs_csi.Kube.{Pod, Job, ContainerStatus}
use dingofs_csi.Kube.Host.{create_job, delete_job, Event, saw, did, Host}
use dingofs_csi.Kube.Host.Calls.{act, get_pod, get_job}
use dingofs_csi.Kube.Host.Rules.{
  KeepsLog, MeetsLog-act, MeetsLog-get_pod, KeepsLog-is_context_done, KeepsLog-list_pods,
  KeepsLog-now,
}
use dingofs_csi.Reconcile.{is_job_completed, is_job_failed, recycled_by, is_job_should_be_recycled}
use dingofs_csi.Mounting.{MountCalls, ask, first_of}
use dingofs_csi.Jobs.{
  first_not_complete, read_log, get_not_complete_cn_log, completed, on_job, on_job_error, wait_job,
  explain, explain_unless, wait_util_job_completed, create_if_missing, ensure_job, finish_job,
  clean_cache_by_job,
}

-- The calls of the jobs keep it.
pub record KeptByJobs (P : List Event → Type 0) : Type 0 where
  pub seen :
      (name namespace : String) (r : Result Pod) (l : List Event)
      → P l
      → P (saw name namespace r ∷ l)
  pub created :
      (name : String) (r : Result (Unit {0})) (l : List Event)
      → P l
      → P (did (create_job name) r ∷ l)
  pub deleted :
      (name namespace : String) (r : Result (Unit {0})) (l : List Event)
      → P l
      → P (did (delete_job name namespace) r ∷ l)

module _ {W : Type 0} (h : Host W) (c : MountCalls W) (P : List Event → Type 0) where
  module _ (kept : KeptByJobs P) where
    Keeps-delete_job : (name namespace : String) → KeepsLog P (act h (delete_job name namespace))
    Keeps-delete_job name namespace =
        MeetsLog-act h P (λ _. P) _ (λ l r p. kept.deleted name namespace r l p)

    Keeps-get_pod : (name namespace : String) → KeepsLog P (get_pod h name namespace)
    Keeps-get_pod name namespace =
        MeetsLog-get_pod h P (λ _. P) name namespace (λ l r p. kept.seen name namespace r l p)

    Keeps-get_job : (name namespace : String) → KeepsLog P (get_job h name namespace)
    unfolding get_job
    Keeps-get_job name namespace = record { at = λ s p. p }

    Keeps-recycled : (j : Job) → KeepsLog P (is_job_should_be_recycled h j)
    unfolding is_job_should_be_recycled recycled_by
    Keeps-recycled j =
        Meets-if _ _ (not (is_job_completed j) && not (is_job_failed j)) _ _
          (λ _. Meets-pure _ _ _ (λ s p. p)) (λ _. by j.ttl j.completion_time)
      where
        by : (ttl completion : Option ℕ) → KeepsLog P (recycled_by h ttl completion)
        by none completion = Meets-pure _ _ _ (λ s p. p)
        by (some ttl) none = Meets-pure _ _ _ (λ s p. p)
        by (some ttl) (some completion) =
            Keeps-bind _ _ (KeepsLog-now h P) (λ t. Meets-pure _ _ _ (λ s p. p))

    Keeps-wait_job : (fuel : ℕ) (job_name : String) → KeepsLog P (wait_job h c fuel job_name)
    unfolding wait_job on_job on_job_error completed
    Keeps-wait_job zero job_name = Meets-raise _ _ _ (λ s p. p)
    Keeps-wait_job (suc fuel) job_name =
        Meets-answer (λ _ s. P s.log) _ _ (Keeps-get_job job_name h.namespace)
          λ r.
            Meets-handle _ _ r _ _ (λ j _. found j (Keeps-wait_job fuel job_name)) (λ e _. failed e)
      where
        all_done : (b : Bool) → KeepsLog P (completed h c job_name b)
        all_done false = Meets-pure _ _ _ (λ s p. p)
        all_done true =
            Meets-answer (λ _ s. P s.log) _ _ (Keeps-delete_job job_name h.namespace)
              (λ _. Meets-pure _ _ _ (λ s p. p))

        found :
            (j : Job)
            → KeepsLog P (wait_job h c fuel job_name)
            → KeepsLog P (on_job h c job_name (wait_job h c fuel job_name) j)
        found j again =
            Meets-if _ _ (is_job_completed j) _ _ (λ _. Keeps-bind _ _ (Keeps-recycled j) all_done)
              (λ _. again)

        failed : (e : Error) → KeepsLog P (on_job_error h c e)
        failed not_found = Meets-pure _ _ _ (λ s p. p)
        failed e = Keeps-bind _ _ (KeepsLog-is_context_done h P) (λ over.
            Meets-if _ _ over _ _ (λ _. Meets-pure _ _ _ (λ s p. p))
              (λ _. Meets-raise _ _ _ (λ s p. p)))

    Keeps-ask : {A : Type 0} (f : W → A × W) → KeepsLog P (ask f)
    unfolding ask
    Keeps-ask f = record { at = λ s p. p }

    Keeps-cn_log : (name : String) → KeepsLog P (get_not_complete_cn_log h c name)
    unfolding get_not_complete_cn_log
    Keeps-cn_log name = Keeps-bind _ _ (Keeps-get_pod name h.namespace) (λ p.
        by p
          (first_of (first_not_complete p.init_statuses) (first_not_complete p.container_statuses)))
      where
        by : (p : Pod) (o : Option ContainerStatus) → KeepsLog P (read_log h c p o)
        by p none = Meets-pure _ _ _ (λ s p. p)
        by p (some cn) =
            Keeps-bind _ _ (Keeps-ask (c.read_pod_log p.name p.namespace cn.name)) (λ r.
              Meets-handle _ _ r _ _ (λ _ _. Meets-pure _ _ _ (λ s p. p))
                (λ e _. Meets-raise _ _ e (λ s p. p)))

    Keeps-wait_util_job_completed :
        (fuel : ℕ) (job_name : String) → KeepsLog P (wait_util_job_completed h c fuel job_name)
    unfolding wait_util_job_completed
    Keeps-wait_util_job_completed fuel job_name =
        Keeps-bind _ _ (Keeps-wait_job fuel job_name) explained
      where
        pods : (ps : List Pod) → KeepsLog P (explain h c ps)
        pods [] = Meets-raise _ _ _ (λ s p. p)
        pods (p ∷ ps) =
            Meets-answer (λ _ s. P s.log) _ _ (Keeps-cn_log p.name)
              (λ _. Meets-raise _ _ _ (λ s p. p))

        explained : (b : Bool) → KeepsLog P (explain_unless h c job_name b)
        explained true = Meets-pure _ _ _ (λ s p. p)
        explained false =
            Meets-answer (λ _ s. P s.log) _ _ (KeepsLog-list_pods h P _ _)
              λ r. Meets-handle _ _ r _ _ (λ ps _. pods ps) (λ e _. Meets-raise _ _ _ (λ s p. p))

    Keeps-ensure_job :
        (job_name namespace : String) → KeepsLog P (ensure_job h c job_name namespace)
    unfolding ensure_job
    Keeps-ensure_job job_name namespace =
        Meets-answer (λ _ s. P s.log) _ _ (Keeps-get_job job_name namespace)
          λ r. Meets-handle _ _ r _ _ (λ j _. Meets-pure _ _ _ (λ s p. p)) (λ e _. ensured e)
      where
        ensured : (e : Error) → KeepsLog P (create_if_missing h c job_name e)
        ensured not_found = MeetsLog-act h P (λ _. P) _ (λ l r p. kept.created job_name r l p)
        ensured e = Meets-raise _ _ e (λ s p. p)

    Keeps-finish_job :
        (fuel : ℕ) (job_name namespace : String)
        → KeepsLog P (finish_job h c fuel job_name namespace)
    unfolding finish_job
    Keeps-finish_job fuel job_name namespace =
        Meets-answer (λ _ s. P s.log) _ _ (Keeps-wait_util_job_completed fuel job_name)
          λ r.
            Meets-handle _ _ r _ _ (λ u _. Meets-pure _ _ _ (λ s p. p))
              (λ e _.
                Meets-answer (λ _ s. P s.log) _ _ (Keeps-delete_job job_name namespace)
                  (λ _. Meets-raise _ _ e (λ s p. p)))

    pub Keeps-clean_cache_by_job :
        (fuel : ℕ) (job_name namespace : String)
        → KeepsLog P (clean_cache_by_job h c fuel job_name namespace)
    unfolding clean_cache_by_job
    Keeps-clean_cache_by_job fuel job_name namespace =
        Keeps-bind _ _ (Keeps-ensure_job job_name namespace) (λ _.
          Meets-answer (λ _ s. P s.log) _ _ (Keeps-finish_job fuel job_name namespace)
            (λ _. Meets-pure _ _ _ (λ s p. p)))
