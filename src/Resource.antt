-- ===== src/Resource.antt =====
-- pkg/util/resource/pod.go: the references that a mount pod keeps in its annotations, patches of a
-- pod, delayed deletion, and the mount path in a pod's command; GetReferenceKey of
-- pkg/util/util.go.
pub mod Counting
pub mod MountPath
pub mod Umount
pub mod Ready
use dingofs_csi.Common.{
  ℕ, suc, String, Bool, true, false, not, List, [], ◌∷◌, Option, none, some, Dict, if◌then◌else◌,
  ◌==◌, ltb, keep, lookup, insert, delete, take_text,
}
use Prim.Native.String.{◌++◌}
use dingofs_csi.Common.Exec.{Result, ok, err, Exec, pure, raise, handle, attempt, ◌>>=◌, ◌>>◌}
use dingofs_csi.Kube.{Pod, annotations_of}
use dingofs_csi.Kube.Host.{
  Action, patch_finalizers, add_annotations, remove_annotations, replace_annotations, Sys, Host,
}
use dingofs_csi.Kube.Host.Calls.{act, now}

-- config.DeleteDelayTimeKey, config.DeleteDelayAtKey, config.Finalizer, config.PodHashLabelKey
abbrev pub delete_delay_time_key : String
delete_delay_time_key = "dingofs-delete-delay"

abbrev pub delete_delay_at_key : String
delete_delay_at_key = "dingofs-delete-at"

abbrev pub finalizer : String
finalizer = "dingofs.com/finalizer"

abbrev pub pod_hash_label_key : String
pod_hash_label_key = "dingofs-hash"

-- The loop of RemoveFinalizer.
unfoldable pub without : String → List String → List String
without f fs = keep (λ g. not (g == f)) fs

module _ {W : Type 0} (h : Host W) where
  unfoldable pub reference_key : String → String
  unfolding take_text
  reference_key target = take_text 63 ("dingofs-" ++ h.sha256_hex target)

  unfoldable pub is_reference : String → String → Bool
  unfolding reference_key
  is_reference k target = k == reference_key target

  -- The loop of GetRef.
  unfoldable pub get_ref : Dict → ℕ
  get_ref [] = 0
  get_ref ((k, target) ∷ m) =
      let rest = get_ref m in if is_reference k target then suc rest else rest

  unfoldable pub get_all_ref_keys : Dict → Dict
  get_all_ref_keys m = keep (λ (k, target). is_reference k target) m

  unfoldable pub remove_finalizer : Pod → String → Exec (Sys W) (Unit {0})
  remove_finalizer p f = act h (patch_finalizers p.name p.namespace (without f p.finalizers))

  unfoldable pub add_pod_annotation : Pod → Dict → Exec (Sys W) (Unit {0})
  add_pod_annotation p m = act h (add_annotations p.name p.namespace m)

  unfoldable pub del_pod_annotation : Pod → List String → Exec (Sys W) (Unit {0})
  del_pod_annotation p ks = act h (remove_annotations p.name p.namespace ks)

  unfoldable pub replace_pod_annotation : Pod → Dict → Exec (Sys W) (Unit {0})
  replace_pod_annotation p m = act h (replace_annotations p.name p.namespace m)

  -- ShouldDelay where the deletion time is not yet set: `none` is a delay that does not parse.
  unfoldable pub set_delay : Pod → Option String → Exec (Sys W) Bool
  set_delay p none = pure false
  set_delay p (some at) = add_pod_annotation p ((delete_delay_at_key, at) ∷ []) >> pure true

  -- ShouldDelay where the deletion time is set: `none` is a time that does not parse.
  unfoldable pub check_delay : Option ℕ → Exec (Sys W) Bool
  check_delay none = pure false
  check_delay (some at) = do t ← now h; pure (ltb t at)

  unfoldable pub should_delay_by : Pod → Option String → Option String → Exec (Sys W) Bool
  should_delay_by p none at = pure false
  should_delay_by p (some delay) none = do t ← now h; set_delay p (h.time_after delay t)
  should_delay_by p (some delay) (some at) = check_delay (h.parse_time at)

  unfoldable pub should_delay : Pod → Exec (Sys W) Bool
  should_delay p =
      should_delay_by p (lookup delete_delay_time_key (annotations_of p))
        (lookup delete_delay_at_key (annotations_of p))
