-- ===== src/Provisioner.antt =====
-- pkg/dingofs-driver/provisioner.go and pkg/util/resource/pvc.go: the provisioner makes a volume in the
-- file system for a claim, and deletes it where no other volume uses its sub path.
pub mod Laws
use dingofs_csi.Common.{
  ℕ, String, Bool, true, false, not, ◌&&◌, ◌||◌, List, [], ◌∷◌, ◌++◌, Option, none, some, Dict,
  ◌==◌, if◌then◌else◌, any, keep, lookup, insert, get_or_empty, has_prefix, split,
}
use Prim.Native.String
use dingofs_csi.Common.Exec.{
  Result, ok, err, Error, other, coded, Exec, pure, raise, handle, attempt, wrap, ◌>>=◌, ◌>>◌,
}
use dingofs_csi.Settings.Options.{trim_space}

pub data AccessMode : Type 0 where
  read_only_many other_mode : AccessMode

pub data ReclaimPolicy : Type 0 where
  delete_policy retain_policy : ReclaimPolicy

pub record StorageClass : Type 0 where
  pub name : String
  pub parameters : Dict
  pub mount_options : List String
  pub reclaim_policy : ReclaimPolicy

pub record Claim : Type 0 where
  pub name : String
  pub namespace : String
  pub annotations : Dict
  pub has_selector : Bool
  pub access_modes : List AccessMode
  pub storage : ℕ

pub record Volume : Type 0 where
  pub name : String
  pub deletion_timestamp : Bool
  pub storage : ℕ
  pub attributes : Dict
  pub publish_secret : String × String
  pub expand_secret : Option (String × String)
  pub access_modes : List AccessMode
  pub reclaim_policy : ReclaimPolicy
  pub storage_class_name : String
  pub mount_options : List String

pub record Secret : Type 0 where
  pub name : String
  pub namespace : String
  pub contents : Dict
  pub finalizers : List String

pub record ProvisionOptions : Type 0 where
  pub pv_name : String
  pub claim : Claim
  pub storage_class : StorageClass

-- The API server, DfsCreateVol and DfsDeleteVol of the provider, ResolveSecret's os.Expand and
-- StringParser's regexp over the claim and the node, and strconv.FormatInt.
pub record Backend (W : Type 0) : Type 0 where
  pub get_secret : (name namespace : String) → Exec W Secret
  pub list_volumes : Exec W (List Volume)
  pub patch_finalizers : Secret → List String → Exec W (Unit {0})
  pub dfs_create_vol : (volume_id sub_path : String) (secrets context : Dict) → Exec W (Unit {0})
  pub dfs_delete_vol :
      (volume_id sub_path : String) (secrets context : Dict) (options : List String)
      → Exec W (Unit {0})
  pub expand : (resolve : String → String) → String → String
  pub parse_string : Claim → String → String
  pub format_int : ℕ → String

-- The function that ResolveSecret expands with.
abbrev pub annotation_of : String → Dict → String
annotation_of key [] = ""
annotation_of key (entry ∷ entries) =
    let rest = annotation_of key entries in
    if key == String.◌++◌ "pvc.annotations['" (String.◌++◌ entry.0 "']") then entry.1 else rest

unfoldable pub resolve_key : Claim → (pv_name : String) → String → String
resolve_key claim pv_name key =
    if key == "pvc.name"
    then claim.name
    else if key == "pvc.namespace"
    then claim.namespace
    else if key == "pv.name"
    then pv_name
    else annotation_of key claim.annotations

abbrev pub finalizer_name : String
finalizer_name = "dingofs.com/finalizer"

-- Another volume of the class that is not being deleted.
abbrev pub is_other_of_class : Volume → Volume → Bool
is_other_of_class volume pv =
    not (pv.name == volume.name)
    && not pv.deletion_timestamp
    && pv.storage_class_name == volume.storage_class_name

abbrev pub attribute : String → Volume → String
attribute key pv = get_or_empty key pv.attributes

unfoldable pub uses_sub_path : Volume → Volume → Bool
unfolding get_or_empty
uses_sub_path volume pv =
    is_other_of_class volume pv && attribute "subPath" pv == attribute "subPath" volume

unfoldable pub uses_secret : Volume → Volume → Bool
unfolding get_or_empty
uses_secret volume pv =
    is_other_of_class volume pv
    && attribute "csi.storage.k8s.io/provisioner-secret-namespace" volume
      == attribute "csi.storage.k8s.io/provisioner-secret-namespace" pv
    && attribute "csi.storage.k8s.io/provisioner-secret-name" volume
      == attribute "csi.storage.k8s.io/provisioner-secret-name" pv

module _ {W : Type 0} (b : Backend W) where
  -- CheckForSubPath: whether the sub path may be deleted.
  unfoldable pub check_for_sub_path : Volume → (path_pattern : String) → Exec W Bool
  unfolding uses_sub_path
  check_for_sub_path volume path_pattern =
      if path_pattern == ""
      then pure true
      else if volume.storage_class_name == ""
      then pure false
      else (b.list_volumes >>= λ pvs. pure (not (any (uses_sub_path volume) pvs)))

  -- CheckForSecretFinalizer: whether the finalizer of the secret may be removed.
  unfoldable pub check_for_secret_finalizer : Volume → Exec W Bool
  unfolding uses_secret get_or_empty
  check_for_secret_finalizer volume =
      if volume.storage_class_name == ""
        || attribute "csi.storage.k8s.io/provisioner-secret-namespace" volume == ""
        || attribute "csi.storage.k8s.io/provisioner-secret-name" volume == ""
      then pure false
      else (b.list_volumes >>= λ pvs. pure (not (any (uses_secret volume) pvs)))

  unfoldable pub add_secret_finalizer : Secret → Exec W (Unit {0})
  add_secret_finalizer secret =
      if any (λ f. f == finalizer_name) secret.finalizers
      then pure tt
      else b.patch_finalizers secret (secret.finalizers ++ finalizer_name ∷ [])

  unfoldable pub remove_secret_finalizer : Secret → Exec W (Unit {0})
  remove_secret_finalizer secret =
      if any (λ f. f == finalizer_name) secret.finalizers
      then b.patch_finalizers secret (keep (λ f. not (f == finalizer_name)) secret.finalizers)
      else pure tt

  abbrev pub remove_if : Secret → Bool → Exec W (Unit {0})
  remove_if secret true = remove_secret_finalizer secret
  remove_if secret false = pure tt

  -- What Delete does with the secret after the volume is gone.
  unfoldable pub release_secret : Volume → Secret → Exec W (Unit {0})
  unfolding get_or_empty
  release_secret volume secret =
      if attribute "secretFinalizer" volume == "true"
      then check_for_secret_finalizer volume >>= remove_if secret
      else pure tt

  unfoldable pub delete_sub_path : Volume → Exec W (Unit {0})
  unfolding get_or_empty
  delete_sub_path volume = do
    secret ← b.get_secret volume.publish_secret.0 volume.publish_secret.1
    wrap (
        b.dfs_delete_vol volume.name (attribute "subPath" volume) secret.contents volume.attributes
          volume.mount_options)
    release_secret volume secret

  abbrev pub delete_if : Volume → Bool → Exec W (Unit {0})
  delete_if volume true = delete_sub_path volume
  delete_if volume false = pure tt

  abbrev pub delete_by : Volume → ReclaimPolicy → Exec W (Unit {0})
  delete_by volume retain_policy = pure tt
  delete_by volume delete_policy =
      check_for_sub_path volume (attribute "pathPattern" volume) >>= delete_if volume

  -- Delete
  unfoldable pub delete_provisioned : Volume → Exec W (Unit {0})
  delete_provisioned volume = delete_by volume volume.reclaim_policy

  -- The parameters of the class, resolved for the claim.
  unfoldable pub resolve_parameters : ProvisionOptions → Dict → Dict
  unfolding insert has_prefix resolve_key
  resolve_parameters o [] = []
  resolve_parameters o (entry ∷ entries) =
      let value : String =
        if has_prefix entry.0 "csi.storage.k8s.io/"
        then b.expand (resolve_key o.claim o.pv_name) entry.1
        else b.parse_string o.claim entry.1 in
      (entry.0, value) ∷ resolve_parameters o entries

  unfoldable pub resolve_options : Claim → List String → List String
  unfolding trim_space split
  resolve_options claim [] = []
  resolve_options claim (option ∷ options) =
      split (trim_space (b.parse_string claim option)) "," ++ resolve_options claim options

  abbrev pub sub_path_for : ProvisionOptions → Dict → String
  sub_path_for o parameters =
      if get_or_empty "pathPattern" parameters == ""
      then o.pv_name
      else get_or_empty "pathPattern" parameters

  abbrev pub is_read_only : AccessMode → Bool
  is_read_only read_only_many = true
  is_read_only other_mode = false

  abbrev pub insert_each : Dict → Dict → Dict
  insert_each [] m = m
  insert_each (entry ∷ entries) m = insert_each entries (insert entry.0 entry.1 m)

  unfoldable pub context_for : ProvisionOptions → Dict → Dict
  unfolding insert get_or_empty
  context_for o parameters =
      insert_each parameters
        (("subPath", sub_path_for o parameters) ∷ ("capacity", b.format_int o.claim.storage) ∷ [])

  abbrev pub expand_secret_for : Dict → Option (String × String)
  expand_secret_for parameters =
      let name : String =
        get_or_empty "csi.storage.k8s.io/controller-expand-secret-name" parameters in
      let namespace : String =
        get_or_empty "csi.storage.k8s.io/controller-expand-secret-namespace" parameters in
      if not (name == "") && not (namespace == "") then some (name, namespace) else none

  unfoldable pub volume_for : ProvisionOptions → Dict → Volume
  unfolding context_for resolve_options get_or_empty
  volume_for o parameters = record {
    name = o.pv_name;
    deletion_timestamp = false;
    storage = o.claim.storage;
    attributes = context_for o parameters;
    publish_secret = (
      get_or_empty "csi.storage.k8s.io/node-publish-secret-name" parameters,
      get_or_empty "csi.storage.k8s.io/node-publish-secret-namespace" parameters,
    );
    expand_secret = expand_secret_for parameters;
    access_modes = o.claim.access_modes;
    reclaim_policy = o.storage_class.reclaim_policy;
    storage_class_name = o.storage_class.name;
    mount_options = resolve_options o.claim o.storage_class.mount_options;
  }

  abbrev pub guard_secret_by : Secret → ReclaimPolicy → Bool → Exec W (Unit {0})
  guard_secret_by secret delete_policy true = attempt (add_secret_finalizer secret) >> pure tt
  guard_secret_by secret _ _ = pure tt

  unfoldable pub provision_with : ProvisionOptions → Dict → Exec W Volume
  unfolding context_for get_or_empty
  provision_with o parameters = do
    secret ← wrap (
        b.get_secret (get_or_empty "csi.storage.k8s.io/provisioner-secret-name" parameters)
          (get_or_empty "csi.storage.k8s.io/provisioner-secret-namespace" parameters))
    b.dfs_create_vol o.pv_name (sub_path_for o parameters) secret.contents
        (context_for o parameters)
    guard_secret_by secret o.storage_class.reclaim_policy
        (get_or_empty "secretFinalizer" o.storage_class.parameters == "true")
    pure (volume_for o parameters)

  -- Provision; it always answers ProvisioningFinished.
  unfoldable pub provision : ProvisionOptions → Exec W Volume
  unfolding get_or_empty
  provision o =
      if o.claim.has_selector
      then raise other
      else if any is_read_only o.claim.access_modes
          && get_or_empty "pathPattern" o.storage_class.parameters == ""
      then raise (coded 3)
      else provision_with o (resolve_parameters o o.storage_class.parameters)
