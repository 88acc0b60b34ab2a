-- ===== src/PodDriver/Cleanup/Laws.antt =====
-- What CleanUpCache of pkg/controller/pod_driver.go asks for.
use dingofs_csi.Common.{
  ℕ, zero, suc, String, Bool, true, false, not, List, [], ◌∷◌, none, some, ◌==◌, ◌≡◌, refl,
  get_or_empty, Bool-cases, ◌⊎◌, inl, inr, ◌≢◌, ne_of_==, lookup, eq_iff, arith, ap, ◌∙◌,
}
use Prim.Native.String.{◌++◌}
use dingofs_csi.Common.Exec.{
  Result, ok, err, Error, not_found, timeout, coded, continue, ◌>>=◌, Meets-pure, Meets-raise,
  Meets-answer, Meets-handle, Meets-if, Meets-bind, Meets-weaken, Keeps-bind,
}
use dingofs_csi.Kube.{Pod, annotations_of}
use dingofs_csi.Kube.Host.{create_job, Event, saw, did, Sys, Host}
use dingofs_csi.Kube.Host.Calls.{rand_string_runes}
use dingofs_csi.Kube.Host.Rules.{KeepsLog, MeetsLog, MeetsLog-get_pod}
use dingofs_csi.Settings.{DfsSetting}
use dingofs_csi.Settings.Parse.{
  SettingsLib, parse_setting, read_setting, set_secrets, empty_setting, context_by, finish_setting,
  and_then,
}
use dingofs_csi.Mounting.{MountCalls, given}
use dingofs_csi.Jobs.{gen_job_name_by_volume_id, clean_cache_by_job}
use dingofs_csi.Jobs.Kept.{KeptByJobs, Keeps-clean_cache_by_job}
use dingofs_csi.PodDriver.Cleanup.{
  clean_cache_of, on_get_error, wait_gone, clean_if_gone, clean_up_cache,
}

-- The annotations of a pod ask for the cache to be cleaned, and name the file system.
unfoldable pub IsWanted : Pod → Type 0
unfolding get_or_empty
IsWanted p =
    (get_or_empty "dingofs-clean-cache" (annotations_of p) ≡ "true")
    × (get_or_empty "dingfs-fsid" (annotations_of p) ≢ "")

-- Each job in the log is for a pod whose cache is to be cleaned, and was created after the API
-- server had answered that this pod does not exist.
abbrev pub IsGone : Pod → List Event → Type 0
IsGone p [] = ⊥
IsGone p (e ∷ l) = (e ≡ saw p.name p.namespace (err not_found)) ⊎ IsGone p l

unfoldable pub CleansGone : Pod → List Event → Type 0
unfolding get_or_empty
CleansGone p [] = Unit {0}
CleansGone p (did (create_job name) r ∷ l) = (IsGone p l × IsWanted p) × CleansGone p l
CleansGone p (e ∷ l) = CleansGone p l

module _ {W F : Type 0} (h : Host W) (c : MountCalls W) (lib : SettingsLib F) (p : Pod) where
  -- The pod is gone and its cache is to be cleaned.
  Ready : List Event → Type 0
  Ready l = CleansGone p l × IsGone p l × IsWanted p

  Ready-KeptByJobs : KeptByJobs Ready
  unfolding CleansGone Ready
  Ready-KeptByJobs = record {
    seen = λ name namespace r l (g, gone, t). (g, inr gone, t);
    created = λ name r l (g, gone, t). (((gone, t), g), inr gone, t);
    deleted = λ name namespace r l (g, gone, t). (g, inr gone, t);
  }

  -- The answer of the wait, with the log.
  Waited : Result Bool → List Event → Type 0
  Waited (ok true) l = CleansGone p l × IsGone p l
  Waited r l = CleansGone p l

  Keeps-rand : (P : List Event → Type 0) (n : ℕ) → KeepsLog P (rand_string_runes h n)
  unfolding rand_string_runes
  Keeps-rand P n = record { at = λ s q. q }

  Told : Result Pod → List Event → Type 0
  Told r l = CleansGone p l × (r ≡ err not_found → IsGone p l)

  wait_gone-Waited : (fuel : ℕ) → MeetsLog (CleansGone p) (wait_gone h c lib fuel p) Waited
  unfolding wait_gone Waited Told CleansGone
  wait_gone-Waited zero = Meets-raise _ _ _ (λ s q. q)
  wait_gone-Waited (suc fuel) =
      Meets-answer (λ r s. Told r s.log) _ _
        (MeetsLog-get_pod h (CleansGone p) Told p.name p.namespace
          (λ l r q. (q, λ e. inl (ap (saw p.name p.namespace) e))))
        λ r.
          Meets-handle _ _ r _ _
            (λ _ _. Meets-weaken (λ s q. q.0) (λ r s q. q) (wait_gone-Waited fuel))
            (λ e f. Meets-weaken (λ s q. (q.0, λ g. q.1 (f ∙ ap err g))) (λ r s q. q) (failed e))
    where
      failed :
          (e : Error)
          → MeetsLog
              (λ l. CleansGone p l × (e ≡ not_found → IsGone p l))
              (on_get_error h c lib e)
              Waited
      failed not_found = Meets-pure _ _ true (λ s q. (q.0, q.1 refl))
      failed timeout = Meets-pure _ _ false (λ s q. q.0)
      failed e = Meets-raise _ _ e (λ s q. q.0)

  clean_cache_of-Ready :
      (fuel : ℕ) (id volume_id : String) → KeepsLog Ready (clean_cache_of h c lib fuel id volume_id)
  unfolding clean_cache_of given
  clean_cache_of-Ready fuel id volume_id =
      Keeps-bind _ _ (record { at = λ s q. q })
        (λ st.
          Keeps-bind _ _ (Keeps-rand Ready 6)
            (λ letters. Keeps-clean_cache_by_job h c Ready Ready-KeptByJobs fuel _ h.namespace))

  -- ParseSetting refuses an empty name.
  parse_setting-unnamed :
      (id : String)
      → (id == "") ≡ true
      → (e : Error) × (parse_setting lib (some (("name", id) ∷ [])) none [] none ≡ err e)
  unfolding parse_setting set_secrets and_then get_or_empty lookup
  parse_setting-unnamed id x =
      by (read_setting lib (empty_setting lib []) (lib.marshal (("name", id) ∷ [])))
    where
      by :
          (r : Result DfsSetting)
          → (e : Error) × (and_then r (λ read.
                and_then (set_secrets lib (("name", id) ∷ []) none read) λ named.
                  and_then (context_by lib none named) λ placed. finish_setting lib none [] placed)
              ≡ err e)
      by (ok read) = (coded 3, rw x refl)
      by (err e) = (e, refl)

  clean_cache_of-unnamed :
      (fuel : ℕ) (id volume_id : String)
      → (id == "") ≡ true
      → KeepsLog (CleansGone p) (clean_cache_of h c lib fuel id volume_id)
  unfolding clean_cache_of given ◌>>=◌
  clean_cache_of-unnamed fuel id volume_id x = record {
    at = λ s q.
        fails s q (parse_setting lib (some (("name", id) ∷ [])) none [] none)
          (parse_setting-unnamed id x);
  }
    where
      fails :
          (s : Sys W)
          → CleansGone p s.log
          → (r : Result DfsSetting) → (e : Error) × (r ≡ err e)
          → CleansGone p
              (continue r
                (λ st. rand_string_runes h 6 >>= λ letters.
                  clean_cache_by_job h c fuel
                    (gen_job_name_by_volume_id h volume_id ++ ("-cleancache-" ++ letters))
                    h.namespace)
                s).1.log
      fails s q (ok st) (e, y) = absurd cc
      fails s q (err e) y = q

  -- If each job in the log is for a pod whose annotations ask for the cache to be cleaned and
  -- name the file system, and comes after an answer of the API server that this pod does not
  -- exist, then so it is after CleanUpCache, whatever the fuel and the answers
  pub clean_up_cache-CleansGone :
      (fuel : ℕ) (s : Sys W)
      → CleansGone p s.log
      → CleansGone p (clean_up_cache h c lib fuel p s).1.log
  unfolding clean_up_cache clean_if_gone IsWanted Waited Ready given
  clean_up_cache-CleansGone fuel s q =
      (Meets-if (λ s. CleansGone p s.log) (λ _ s. CleansGone p s.log)
          (not (get_or_empty "dingofs-clean-cache" (annotations_of p) == "true")) _ _
          (λ _. Meets-pure _ _ _ (λ s q. q))
          (λ e. Meets-if _ _ _ _ _ (λ _. Meets-pure _ _ _ (λ s q. q)) (λ _. waited (asked _ e)))).at
        s q
    where
      asked : (x : String) → not (x == "true") ≡ false → x ≡ "true"
      asked x e = ground (arith, eq_iff x "true")

      waited :
          get_or_empty "dingofs-clean-cache" (annotations_of p) ≡ "true"
          → KeepsLog (CleansGone p) (
              wait_gone h c lib fuel p
              >>= clean_if_gone h c lib fuel p
                  (get_or_empty "dingfs-fsid" (annotations_of p))
                  (get_or_empty "dingofs-uniqueid" (annotations_of p)))
      waited e = Meets-bind (λ r s. Waited r s.log) _ _ (wait_gone-Waited fuel) cleaned stopped
        where
          stopped : (x : Error) (s : Sys W) → Waited (err x) s.log → CleansGone p s.log
          stopped x s q = q

          asks :
              let uuid = get_or_empty "dingfs-fsid" (annotations_of p) in
              let unique_id = get_or_empty "dingofs-uniqueid" (annotations_of p) in
              ((uuid == "") ≡ true) ⊎ ((uuid == "") ≡ false)
              → MeetsLog
                  (Waited (ok true))
                  (clean_cache_of h c lib fuel uuid unique_id)
                  (λ _. CleansGone p)
          asks (inl x) = Meets-weaken (λ s q. q.0) (λ r s q. q) (clean_cache_of-unnamed fuel _ _ x)
          asks (inr x) =
              Meets-weaken (λ s q. (q.0, q.1, (e, ne_of_== _ "" x))) (λ r s q. q.0)
                (clean_cache_of-Ready fuel _ _)

          cleaned :
              (gone : Bool)
              → MeetsLog
                  (Waited (ok gone))
                  (clean_if_gone h c lib fuel p
                    (get_or_empty "dingfs-fsid" (annotations_of p))
                    (get_or_empty "dingofs-uniqueid" (annotations_of p))
                    gone)
                  (λ _. CleansGone p)
          cleaned false = Meets-pure _ _ _ (λ s q. q)
          cleaned true =
              Meets-bind (λ _ s. Waited (ok true) s.log) _ _ (record { at = λ s q. q })
                (λ _.
                  Meets-answer (λ _ s. CleansGone p s.log) _ _ (asks (Bool-cases _))
                    (λ _. Meets-pure _ _ tt (λ s q. q)))
                (λ x s q. q.0)
