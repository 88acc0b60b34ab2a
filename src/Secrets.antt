-- ===== src/Secrets.antt =====
-- pkg/controller/secret_controller.go: secrets of mount pods that are gone are deleted, and the
-- configuration is written into the secrets of users.
pub mod Laws
use dingofs_csi.Common.{
  ℕ, ◌+◌, String, Bool, true, false, not, ◌&&◌, ◌||◌, List, [], ◌∷◌, Option, none, some, Dict, ◌==◌,
  if◌then◌else◌, ltb, lookup, insert, has_prefix, has_suffix, trim_suffix,
}
use dingofs_csi.Common.Exec.{
  Result, ok, err, Error, not_found, Exec, pure, raise, handle, attempt, ◌>>=◌, ◌>>◌,
}
use dingofs_csi.Kube.{Pod}
use dingofs_csi.Kube.Host.{Action, delete_secret, update_contents, Sys, Host}
use dingofs_csi.Kube.Host.Calls.{act, get_pod, now}
use dingofs_csi.Mounting.{ask}

-- The creation time is in nanoseconds.
pub record Secret : Type 0 where
  pub name : String
  pub namespace : String
  pub labels : Dict
  pub contents : Dict
  pub created : ℕ

pub record SecretCalls (W Setting : Type 0) : Type 0 where
  pub read_secret : (name namespace : String) → W → Result Secret × W
  -- InitDfs and AuthFs of the provider, the latter with the directory of the configuration
  pub init_dfs : Dict → Exec (Sys W) Setting
  pub auth_fs : Dict → Setting → (directory : String) → Exec (Sys W) String
  -- os.MkdirTemp, and os.ReadFile of the setting's configuration in the directory
  pub make_temp_dir : W → Result String × W
  pub read_conf : Setting → (directory : String) → W → Result String × W

abbrev pub is_set : Option String → Bool
is_set none = false
is_set (some v) = true

-- The tests on the secret itself.
unfoldable pub is_old_kind : (namespace : String) → Secret → Bool
unfolding lookup has_prefix has_suffix
is_old_kind namespace s =
    s.namespace == namespace
    && not (is_set (lookup "dingofs/secret" s.labels))
    && has_prefix s.name "dingofs-"
    && has_suffix s.name "-secret"
    && (is_set (lookup "token" s.contents) || is_set (lookup "metaurl" s.contents))
    && is_set (lookup "check_mount.sh" s.contents)

unfoldable pub pod_name_of : Secret → String
unfolding trim_suffix
pod_name_of s = trim_suffix s.name "-secret"

module _ {W : Type 0} (h : Host W) where
  -- By the answer about the pod: any error but its absence leaves the secret.
  abbrev pub on_pod : Secret → Result Pod → Exec (Sys W) (Unit {0})
  on_pod s (err not_found) = act h (delete_secret s.name s.namespace)
  on_pod s _ = pure tt

  unfoldable pub delete_orphan : Secret → Exec (Sys W) (Unit {0})
  unfolding pod_name_of
  delete_orphan s = do r ← attempt (get_pod h (pod_name_of s) s.namespace); on_pod s r

  -- checkAndCleanOrphanSecret
  unfoldable pub check_and_clean_orphan_secret : Secret → Exec (Sys W) (Unit {0})
  unfolding is_old_kind
  check_and_clean_orphan_secret s =
      if not (is_old_kind h.namespace s)
      then pure tt
      else do t ← now h; if ltb (s.created + 3600000000000) t then delete_orphan s else pure tt

module _ {W Setting : Type 0} (h : Host W) (c : SecretCalls W Setting) where
  unfoldable pub inject_config : Secret → Exec (Sys W) Bool
  unfolding insert
  inject_config s = do
    setting ← c.init_dfs s.contents
    made ← ask c.make_temp_dir
    directory ← handle made pure raise
    c.auth_fs s.contents setting directory
    read ← ask (c.read_conf setting directory)
    conf ← handle read pure raise
    act h (update_contents s.name s.namespace (insert "initconfig" conf s.contents))
    pure true

  abbrev pub inject_if : Secret → Bool → Exec (Sys W) Bool
  inject_if s true = inject_config s
  inject_if s false = pure false

  unfoldable pub secret_found : Secret → Exec (Sys W) Bool
  unfolding lookup
  secret_found s = do
    check_and_clean_orphan_secret h s
    inject_if s (is_set (lookup "token" s.contents) && is_set (lookup "name" s.contents))

  abbrev pub none_if_gone : Error → Exec (Sys W) Bool
  none_if_gone not_found = pure false
  none_if_gone e = raise e

  -- Reconcile: whether the secret is looked at again after an interval.
  unfoldable pub secret_reconcile : (name namespace : String) → Exec (Sys W) Bool
  secret_reconcile name namespace = do
    r ← ask (c.read_secret name namespace)
    handle r secret_found none_if_gone
