-- ===== src/Settings/Parse.antt =====
-- ParseSetting of pkg/config/dfs_setting.go with GenPodAttrWithCfg, ApplyConfigPatch and
-- GenMountPodPatch. The parsers and printers of YAML and JSON, of durations, quantities and floats are
-- an interface.
pub mod Laws
use dingofs_csi.Common.{
  ℕ, zero, suc, ◌+◌, ◌-◌, String, Bool, true, false, not, ◌&&◌, List, [], ◌∷◌, ◌++◌, Option, none,
  some, Dict, ◌==◌, if◌then◌else◌, ltb, lookup, insert, get_or_empty, split, length,
}
use dingofs_csi.Common.Exec.{Result, ok, err, other, coded, panicked}
use dingofs_csi.Kube.{Resources}
use dingofs_csi.Settings.{Claim, MountPodPatch, PodAttr, DfsSetting}
use dingofs_csi.Settings.Limits.{Quantities, get_default_resource, parse_pod_resources}
use dingofs_csi.Settings.Options.{
  Floats, trim_space, gen_and_valid_options, convert_mount_options_to_env_vars,
}
use dingofs_csi.Settings.Patch.{or_else, list_of}

pub record SettingsLib (F : Type 0) : Type 0 where
  pub quantities : Quantities
  pub floats : Floats F
  -- yaml.Unmarshal and json.Unmarshal into a map of texts, and into the setting; json.Marshal of a map
  pub yaml_dict : String → Option Dict
  pub json_dict : String → Option Dict
  pub yaml_setting : DfsSetting → String → Option DfsSetting
  pub json_setting : DfsSetting → String → Option DfsSetting
  pub marshal : Dict → Option String
  -- whether time.ParseDuration reads the text
  pub is_duration : String → Bool
  -- json.Marshal, strings.ReplaceAll for each pair, and json.Unmarshal into the same patch
  pub substituted : List (String × String) → MountPodPatch → MountPodPatch
  -- the attributes that are taken from CSIPod, and DefaultMountImage
  pub own_attr : PodAttr

-- A Go error or the value.
unfoldable pub and_then : {A B : Type 0} → Result A → (A → Result B) → Result B
and_then (ok a) f = f a
and_then (err e) f = err e

-- ParseYamlOrJson
abbrev pub parse_yaml_or_json : {A : Type 0} → Option A → Option A → Result A
parse_yaml_or_json (some a) json = ok a
parse_yaml_or_json none (some a) = ok a
parse_yaml_or_json none none = err (coded 3)

abbrev pub wrapped : {A : Type 0} → Result A → Result A
wrapped (ok a) = ok a
wrapped (err e) = err other

-- `for k, v := range from { m[k] = v }`
unfoldable pub insert_all : Dict → Dict → Dict
unfolding insert
insert_all [] m = m
insert_all (entry ∷ from) m = insert_all from (insert entry.0 entry.1 m)

abbrev pub nonempty_or : Option String → String → String
nonempty_or none own = own
nonempty_or (some v) own = if v == "" then own else v

abbrev pub value_or {ℓ} : {A : Type ℓ} → Option A → A → A
value_or none own = own
value_or (some a) own = a

abbrev pub take_list {ℓ} : {A : Type ℓ} → ℕ → List A → List A
take_list zero xs = []
take_list (suc n) [] = []
take_list (suc n) (x ∷ xs) = x ∷ take_list n xs

abbrev pub drop_list {ℓ} : {A : Type ℓ} → ℕ → List A → List A
drop_list zero xs = xs
drop_list (suc n) [] = []
drop_list (suc n) (x ∷ xs) = drop_list n xs

abbrev pub first_or_empty : List String → String
first_or_empty [] = ""
first_or_empty (x ∷ xs) = x

-- `strings.Split(o, "=")[0]` of the element at this position.
abbrev pub key_at : ℕ → List String → String
key_at i array = first_or_empty (split (first_or_empty (drop_list i array)) "=")

-- The array after `append(s[:i], s[i+1:]...)` for a slice `s` of this length.
abbrev pub shifted : (i len : ℕ) → List String → List String
shifted i len array =
    take_list i array
    ++ take_list (len - 1 - i) (drop_list (suc i) array)
    ++ drop_list (len - 1) array

-- The inner loop of ApplyConfigPatch, with the array behind the slice and the slice's length: it
-- ranges over the slice as it was, and `s[i+1:]` panics where i+1 is above the length of `s`.
unfoldable pub remove_option :
    (rounds i : ℕ) → (option : String) → (len : ℕ) → List String → Result (List String)
unfolding split
remove_option zero i option len array = ok (take_list len array)
remove_option (suc rounds) i option len array =
    let passed = remove_option rounds (suc i) option len array in
    let removed = remove_option rounds (suc i) option (len - 1) (shifted i len array) in
    if key_at i array == option then (if ltb len (suc i) then err panicked else removed) else passed

unfoldable pub merge_options : List String → List String → Result (List String)
unfolding remove_option
merge_options [] options = ok options
merge_options (option ∷ patch_options) options =
    and_then (remove_option (length options) 0 option (length options) options)
      λ kept. merge_options patch_options (kept ++ option ∷ [])

module _ {F : Type 0} (lib : SettingsLib F) where
  -- GenMountPodPatch: no patch of the configuration is merged.
  unfoldable pub gen_mount_pod_patch : DfsSetting → MountPodPatch
  gen_mount_pod_patch setting =
      lib.substituted
        (("${MOUNT_POINT}", setting.mount_path)
          ∷ ("${VOLUME_ID}", setting.volume_id)
          ∷ ("${VOLUME_NAME}", setting.name)
          ∷ ("${SUB_PATH}", setting.sub_path)
          ∷ [])
        (record {
          pvc_selector = none;
          mount_image = "";
          image = "";
          labels = some [];
          annotations = some [];
          host_network = none;
          host_pid = none;
          liveness_probe = none;
          readiness_probe = none;
          startup_probe = none;
          lifecycle = none;
          resources = none;
          grace_period = none;
          volumes = none;
          volume_devices = none;
          volume_mounts = none;
          env = some (convert_mount_options_to_env_vars setting.mds_addr setting.mount_options);
          mount_options = none;
        })

  abbrev pub patch_attr : MountPodPatch → PodAttr → PodAttr
  patch_attr patch attr = record attr {
    image = nonempty_or (some patch.image) attr.image;
    host_network = value_or patch.host_network attr.host_network;
    host_pid = value_or patch.host_pid attr.host_pid;
    labels = insert_all (list_of patch.labels) attr.labels;
    annotations = insert_all (list_of patch.annotations) attr.annotations;
    resources = value_or patch.resources attr.resources;
    lifecycle = patch.lifecycle;
    liveness_probe = patch.liveness_probe;
    readiness_probe = patch.readiness_probe;
    startup_probe = patch.startup_probe;
    grace_period = patch.grace_period;
    volume_devices = patch.volume_devices;
    volume_mounts = patch.volume_mounts;
    volumes = patch.volumes;
    env = patch.env;
  }

  -- ApplyConfigPatch, for the attributes of the setting.
  unfoldable pub apply_config_patch : DfsSetting → PodAttr → Result DfsSetting
  unfolding gen_mount_pod_patch merge_options insert_all
  apply_config_patch setting attr =
      let patch : MountPodPatch = gen_mount_pod_patch setting in
      and_then (merge_options (list_of patch.mount_options) setting.mount_options) λ options.
        ok (record setting { attr = some (patch_attr patch attr); mount_options = options })

  abbrev pub parse_dict : String → Result Dict
  parse_dict text = parse_yaml_or_json (lib.yaml_dict text) (lib.json_dict text)

  -- The labels, or annotations, with those of the volume context under `key`.
  unfoldable pub with_context : (key : String) → Dict → Dict → Result Dict
  unfolding insert_all get_or_empty
  with_context key context m =
      if get_or_empty key context == ""
      then ok m
      else and_then (parse_dict (get_or_empty key context)) λ more. ok (insert_all more m)

  unfoldable pub attr_with_context : Dict → PodAttr → Result PodAttr
  unfolding with_context parse_pod_resources lookup get_or_empty
  attr_with_context context attr =
      and_then
        (parse_pod_resources lib.quantities (get_or_empty "dingofs/mount-cpu-limit" context)
          (get_or_empty "dingofs/mount-memory-limit" context)
          (get_or_empty "dingofs/mount-cpu-request" context)
          (get_or_empty "dingofs/mount-memory-request" context))
        λ resources. and_then (with_context "dingofs/mount-labels" context attr.labels) λ labels.
          and_then (with_context "dingofs/mount-annotations" context attr.annotations)
            λ annotations. ok (record attr {
              image = nonempty_or (lookup "dingofs/mount-image" context) attr.image;
              service_account_name =
                  nonempty_or (lookup "dingofs/mount-service-account" context)
                    attr.service_account_name;
              resources = resources;
              labels = labels;
              annotations = annotations;
            })

  abbrev pub attr_by : Option Dict → PodAttr → Result PodAttr
  attr_by none attr = ok attr
  attr_by (some context) attr = attr_with_context context attr

  abbrev pub default_attr : PodAttr
  default_attr = record lib.own_attr {
    resources = record {
      requests = ("cpu", "2000m") ∷ ("memory", "6Gi") ∷ [];
      limits = ("cpu", "4000m") ∷ ("memory", "12Gi") ∷ [];
    };
    labels = [];
    annotations = [];
  }

  -- GenPodAttrWithCfg
  unfoldable pub gen_pod_attr_with_cfg : DfsSetting → Option Dict → Result DfsSetting
  unfolding apply_config_patch attr_with_context
  gen_pod_attr_with_cfg setting context =
      and_then (attr_by context (value_or setting.attr default_attr))
        λ attr. apply_config_patch setting attr

  -- The memory limit of the pod in bytes; a missing quantity is zero.
  abbrev pub limit_value : Option String → ℕ
  limit_value none = 0
  limit_value (some quantity) = lib.quantities.value quantity

  abbrev pub memory_limit_of : Option PodAttr → ℕ
  memory_limit_of none = 0
  memory_limit_of (some attr) = limit_value (lookup "memory" attr.resources.limits)

  -- A map of texts under a key of the secrets, or the empty one.
  unfoldable pub dict_under : (key : String) → Dict → Result Dict
  unfolding get_or_empty
  dict_under key secrets =
      if get_or_empty key secrets == "" then ok [] else parse_dict (get_or_empty key secrets)

  abbrev pub host_paths : List String → List String
  host_paths [] = []
  host_paths (v ∷ vs) =
      let rest = host_paths vs in if trim_space v == "" then rest else trim_space v ∷ rest

  -- The fields that come from the volume context.
  unfoldable pub set_context : Dict → DfsSetting → Result DfsSetting
  unfolding get_or_empty split trim_space
  set_context context setting =
      let delay : String = get_or_empty "dingofs/mount-delete-delay" context in
      let paths : String = get_or_empty "dingofs/host-path" context in
      if not (delay == "") && not (lib.is_duration delay)
      then err other
      else ok (record setting {
        sub_path = nonempty_or (some (get_or_empty "subPath" context)) setting.sub_path;
        clean_cache =
            if get_or_empty "dingofs/clean-cache" context == "true"
            then true
            else setting.clean_cache;
        deleted_delay = nonempty_or (some delay) setting.deleted_delay;
        host_path = if paths == "" then setting.host_path else host_paths (split paths ",");
      })

  abbrev pub context_by : Option Dict → DfsSetting → Result DfsSetting
  context_by none setting = ok setting
  context_by (some context) setting = set_context context setting

  abbrev pub empty_setting : List String → DfsSetting
  empty_setting options = record {
    name = "";
    mds_addr = "";
    storage = "";
    format_options = "";
    cache_dirs = [];
    client_conf_path = "";
    volume_id = "";
    mount_path = "";
    mount_options = options;
    sub_path = "";
    attr = none;
    secret_key = "";
    secret_key2 = "";
    envs = [];
    configs = [];
    deleted_delay = "";
    clean_cache = false;
    host_path = [];
    pvc = none;
  }

  abbrev pub read_setting : DfsSetting → Option String → Result DfsSetting
  read_setting setting none = err other
  read_setting setting (some text) =
      parse_yaml_or_json (lib.yaml_setting setting text) (lib.json_setting setting text)

  -- The fields that come from the secrets.
  unfoldable pub set_secrets : Dict → Option Claim → DfsSetting → Result DfsSetting
  unfolding dict_under get_or_empty
  set_secrets secrets pvc setting =
      if get_or_empty "name" secrets == ""
      then err (coded 3)
      else and_then (dict_under "configs" secrets) λ configs.
        and_then (dict_under "envs" secrets) λ envs. ok (record setting {
          name = get_or_empty "name" secrets;
          storage = get_or_empty "storage" secrets;
          mds_addr = get_or_empty "mdsAddr" secrets;
          client_conf_path = "/dingofs/conf/client.conf";
          cache_dirs = [];
          pvc = pvc;
          secret_key = nonempty_or (some (get_or_empty "secretkey" secrets)) setting.secret_key;
          secret_key2 = nonempty_or (some (get_or_empty "secretkey2" secrets)) setting.secret_key2;
          configs = configs;
          envs = envs;
        })

  -- From GenPodAttrWithCfg on.
  unfoldable pub finish_setting : Option Dict → List String → DfsSetting → Result DfsSetting
  unfolding gen_pod_attr_with_cfg gen_and_valid_options lookup
  finish_setting context options setting =
      and_then (wrapped (gen_pod_attr_with_cfg setting context)) λ filled.
        and_then (wrapped (gen_and_valid_options lib.floats (memory_limit_of filled.attr) options))
          λ valid. ok (record filled { mount_options = valid })

  -- ParseSetting
  unfoldable pub parse_setting :
      Option Dict → Option Dict → List String → Option Claim → Result DfsSetting
  unfolding set_secrets set_context finish_setting
  parse_setting none context options pvc = ok (empty_setting options)
  parse_setting (some secrets) context options pvc =
      and_then (read_setting (empty_setting options) (lib.marshal secrets)) λ read.
        and_then (set_secrets secrets pvc read) λ named.
          and_then (context_by context named) λ placed. finish_setting context options placed
