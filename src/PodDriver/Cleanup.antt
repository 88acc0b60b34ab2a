-- ===== src/PodDriver/Cleanup.antt =====
-- CleanUpCache of pkg/controller/pod_driver.go, which a goroutine of its own runs, with CleanCache of
-- pkg/builder/mount.go.
pub mod Laws
use dingofs_csi.Common.{
  ℕ, zero, suc, String, Bool, true, false, not, ◌&&◌, List, [], ◌∷◌, none, some, ◌==◌, ◌≡◌, refl,
  if◌then◌else◌, get_or_empty, take_text, Bool-cases, ◌⊎◌, inl, inr, ◌≢◌, ne_of_==, lookup, eq_iff,
  arith, ap, ◌∙◌,
}
use Prim.Native.String.{◌++◌}
use dingofs_csi.Common.Exec.{
  Result, ok, err, Error, not_found, timeout, coded, continue, panicked, running, Exec, pure, raise,
  attempt, handle, ◌>>=◌, Meets-pure, Meets-raise, Meets-answer, Meets-handle, Meets-if, Meets-bind,
  Meets-weaken, Keeps-bind,
}
use dingofs_csi.Kube.{Pod, Container, annotations_of}
use dingofs_csi.Kube.Host.{create_job, Event, saw, did, Sys, Host}
use dingofs_csi.Kube.Host.Calls.{get_pod, rand_string_runes}
use dingofs_csi.Kube.Host.Rules.{KeepsLog, MeetsLog, MeetsLog-get_pod}
use dingofs_csi.Settings.{DfsSetting}
use dingofs_csi.Settings.Parse.{
  SettingsLib, parse_setting, read_setting, set_secrets, empty_setting, context_by, finish_setting,
  and_then,
}
use dingofs_csi.Mounting.{MountCalls, given}
use dingofs_csi.Jobs.{gen_job_name_by_volume_id, clean_cache_by_job}
use dingofs_csi.Jobs.Kept.{KeptByJobs, Keeps-clean_cache_by_job}

abbrev pub first_image : List Container → Result String
first_image [] = err panicked
first_image (cn ∷ cns) = ok cn.image

module _ {W F : Type 0} (h : Host W) (c : MountCalls W) (lib : SettingsLib F) where
  -- CleanCache; the job's container, which has the image and the cache directories, is not modelled,
  -- and the namespace of the setting is config.Namespace.
  unfoldable pub clean_cache_of : ℕ → (id volume_id : String) → Exec (Sys W) (Unit {0})
  unfolding parse_setting
  clean_cache_of fuel id volume_id = do
    st ← given (parse_setting lib (some (("name", id) ∷ [])) none [] none)
    letters ← rand_string_runes h 6
    clean_cache_by_job h c fuel
        (gen_job_name_by_volume_id h volume_id ++ ("-cleancache-" ++ letters)) h.namespace

  abbrev pub on_get_error : Error → Exec (Sys W) Bool
  on_get_error not_found = pure true
  on_get_error timeout = pure false
  on_get_error e = raise e

  -- Whether the pod is gone.
  unfoldable pub wait_gone : ℕ → Pod → Exec (Sys W) Bool
  wait_gone zero p = raise running
  wait_gone (suc fuel) p = do
    r ← attempt (get_pod h p.name p.namespace)
    handle r (λ _. wait_gone fuel p) on_get_error

  unfoldable pub clean_if_gone :
      ℕ → Pod → (uuid unique_id : String) → Bool → Exec (Sys W) (Unit {0})
  clean_if_gone fuel p uuid unique_id false = pure tt
  clean_if_gone fuel p uuid unique_id true = do
    _ ← given (first_image p.spec.containers)
    _ ← attempt (clean_cache_of fuel uuid unique_id)
    pure tt

  unfoldable pub clean_up_cache : ℕ → Pod → Exec (Sys W) (Unit {0})
  unfolding get_or_empty
  clean_up_cache fuel p =
      let annotations = annotations_of p in
      let uuid = get_or_empty "dingfs-fsid" annotations in
      let unique_id = get_or_empty "dingofs-uniqueid" annotations in
      if not (get_or_empty "dingofs-clean-cache" annotations == "true")
      then pure tt
      else if (uuid == "") && (unique_id == "")
      then pure tt
      else do gone ← wait_gone fuel p; clean_if_gone fuel p uuid unique_id gone
