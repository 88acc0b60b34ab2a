-- ===== src/Dfs.antt =====
-- The provider of pkg/dingofs-driver/dingofs.go as far as it runs commands and makes directories:
-- validTarget, DfsCreateVol, GetSubPath, SetQuota, DfsCleanupMountPoint and AuthFs. The environment
-- of a command is not modelled; an error of a command carries what the command printed.
pub mod Laws
use dingofs_csi.Common.{
  ℕ, ◌/◌, String, Bool, true, false, not, ◌&&◌, ◌||◌, List, [], ◌∷◌, ◌++◌, Option, none, some, Dict,
  ◌==◌, if◌then◌else◌, nat_eq, lookup, insert, delete, get_or_empty, contains, split,
}
use Prim.Native.String
use dingofs_csi.Common.Exec.{
  Result, ok, err, Error, output, other, panicked, Exec, pure, raise, attempt, handle, ◌>>=◌, ◌>>◌,
}
use dingofs_csi.Kube.Host.{make_dir, cleanup_mount_point, Stat, missing, Sys, Host}
use dingofs_csi.Kube.Host.Calls.{act, run, stat, is_context_done}
use dingofs_csi.Mounting.{given, ask}
use dingofs_csi.Tool.{dfs_cmd_path, flag}
use dingofs_csi.Tool.Params.{invalid_params}
use dingofs_csi.Tool.Mounter.Config.{join}
use dingofs_csi.Settings.Options.{
  parse_format_options, represent_format_options, strip_format_options,
}
use dingofs_csi.Settings.Security.{escape_bash_str}
use dingofs_csi.Builder.Volumes.{PodVolume, VolumeSource, host_path}

-- `v.HostPath.Path`, a panic for a volume of another kind.
abbrev pub path_of_host : VolumeSource → Result String
path_of_host (host_path path) = ok path
path_of_host source = err panicked

abbrev pub kubelet_dir : List PodVolume → Result String
kubelet_dir [] = ok "/var/lib/kubelet"
kubelet_dir (v ∷ volumes) =
    if v.name == "kubelet-dir" then path_of_host v.source else kubelet_dir volumes

abbrev pub is_under : (dir : String) → (parts : List String) → Result (Unit {0})
is_under dir [] = err other
is_under dir (part ∷ parts) = if dir == part then ok tt else err other

abbrev pub under_dir : Result String → (parts : List String) → Result (Unit {0})
under_dir (err e) parts = err e
under_dir (ok dir) parts = is_under dir parts

-- validTarget, for the volumes of config.CSIPod.
unfoldable pub valid_target : List PodVolume → (target : String) → Result (Unit {0})
unfolding contains split
valid_target volumes target =
    if contains target "../" || contains target "/.." || contains target ".."
    then err other
    else if contains target "./" || contains target "/."
    then err other
    else under_dir (kubelet_dir volumes) (split target "/pods/")

-- wrapSetQuotaErr
unfoldable pub wrap_set_quota_err : Result String → Result (Unit {0})
unfolding contains
wrap_set_quota_err (ok printed) = ok tt
wrap_set_quota_err (err (output printed)) =
    if contains printed "invalid command: quota" || contains printed "No help topic for 'quota'"
    then ok tt
    else err other
wrap_set_quota_err (err e) = err other

abbrev pub move_key : (from to : String) → Dict → Option String → Dict
move_key from to secrets none = secrets
move_key from to secrets (some value) = delete from (insert to value secrets)

-- The loop over keysCompatible, whose keys and values do not meet.
unfoldable pub compatible : Dict → Dict
unfolding lookup insert delete
compatible secrets =
    let a = move_key "accesskey" "access-key" secrets (lookup "accesskey" secrets) in
    let b = move_key "accesskey2" "access-key2" a (lookup "accesskey2" a) in
    let c = move_key "secretkey" "secret-key" b (lookup "secretkey" b) in
    move_key "secretkey2" "secret-key2" c (lookup "secretkey2" c)

abbrev pub shown_keys : List String
shown_keys = "access-key" ∷ "access-key2" ∷ "bucket" ∷ "bucket2" ∷ "subdir" ∷ []

abbrev pub stripped_keys : List String
stripped_keys = "token" ∷ "secret-key" ∷ "secret-key2" ∷ "passphrase" ∷ []

abbrev pub arg_key : String → String
arg_key key =
    if key == "secret-key" then "secretkey" else if key == "secret-key2" then "secretkey2" else key

-- The loops over the keys: the options with their values, and with shell variables.
unfoldable pub value_flags : (secrets : Dict) → (keys : List String) → List String
unfolding get_or_empty escape_bash_str
value_flags secrets [] = []
value_flags secrets (key ∷ keys) =
    let rest = value_flags secrets keys in
    if get_or_empty key secrets == ""
    then rest
    else flag "--" (key, escape_bash_str (get_or_empty key secrets)) ∷ rest

unfoldable pub variable_flags : (secrets : Dict) → (keys : List String) → List String
unfolding get_or_empty
variable_flags secrets [] = []
variable_flags secrets (key ∷ keys) =
    let rest = variable_flags secrets keys in
    if get_or_empty key secrets == ""
    then rest
    else flag "--" (key, String.◌++◌ "${" (String.◌++◌ (arg_key key) "}")) ∷ rest

abbrev pub no_update_flag : (no_update : Bool) → List String
no_update_flag no_update = if no_update then "--no-update" ∷ [] else []

abbrev pub conf_flag : (conf_path : String) → List String
conf_flag conf_path = if conf_path == "" then [] else flag "--" ("conf-dir", conf_path) ∷ []

abbrev pub option_flags :
    (List (String × String) → List String) → (format_options : String) → Result (List String)
option_flags print format_options =
    if format_options == "" then ok [] else elim (parse_format_options format_options) [
      | err e ↦ err invalid_params
      | ok pairs ↦ ok (print pairs)
    ]

abbrev pub append_result : List String → Result (List String) → List String → Result (List String)
append_result front (err e) back = err e
append_result front (ok middle) back = ok (front ++ (middle ++ back))

-- The arguments of `dingo auth`, for compatible secrets.
unfoldable pub auth_args :
    (secrets : Dict)
    → (format_options conf_path : String) → (no_update : Bool) → Result (List String)
unfolding value_flags escape_bash_str get_or_empty parse_format_options represent_format_options
auth_args secrets format_options conf_path no_update =
    if no_update && get_or_empty "bucket" secrets == ""
    then err other
    else append_result
        (("auth" ∷ escape_bash_str (get_or_empty "name" secrets) ∷ [])
          ++ (value_flags secrets shown_keys
              ++ (value_flags secrets stripped_keys ++ no_update_flag no_update)))
        (option_flags represent_format_options format_options) (conf_flag conf_path)

-- The command as it is logged, and answered where it is not run.
unfoldable pub auth_cmd_args :
    (secrets : Dict)
    → (format_options conf_path : String) → (no_update : Bool) → Result (List String)
unfolding value_flags variable_flags escape_bash_str get_or_empty parse_format_options
    strip_format_options
auth_cmd_args secrets format_options conf_path no_update =
    if no_update && get_or_empty "bucket" secrets == ""
    then err other
    else append_result
        ((dfs_cmd_path ∷ "auth" ∷ escape_bash_str (get_or_empty "name" secrets) ∷ [])
          ++ (value_flags secrets shown_keys
              ++ (variable_flags secrets stripped_keys ++ no_update_flag no_update)))
        (option_flags (λ pairs. strip_format_options pairs ("session-token" ∷ [])) format_options)
        (conf_flag conf_path)

module _ {W : Type 0} (h : Host W) where
  abbrev pub make_dir_if_missing : (path : String) → Stat → Exec (Sys W) (Unit {0})
  make_dir_if_missing path missing = act h (make_dir path)
  make_dir_if_missing path st = pure tt

  -- DfsCreateVol; filepath.Join is an argument.
  unfoldable pub dfs_create_vol :
      (join_path : List String → String)
      → (sub_path : String) → (secrets : Dict) → Exec (Sys W) (Unit {0})
  unfolding get_or_empty
  dfs_create_vol join_path sub_path secrets = do
    let path = join_path ("/host/dingofs" ∷ get_or_empty "name" secrets ∷ sub_path ∷ [])
    st ← stat h path
    make_dir_if_missing path st

  -- GetSubPath, by config.Provisioner and the attributes of a persistent volume.
  unfoldable pub get_sub_path :
      (provisioner : Bool)
      → (attributes_of : String → W → Result Dict × W) → (volume_id : String) → Exec (Sys W) String
  unfolding get_or_empty
  get_sub_path false attributes_of volume_id = pure volume_id
  get_sub_path true attributes_of volume_id = do
    r ← ask (attributes_of volume_id)
    attributes ← given r
    pure (get_or_empty "subPath" attributes)

  -- SetQuota, for a capacity that is not negative; strconv.FormatInt is an argument. A command that
  -- has not ended when the time is over goes on.
  unfoldable pub set_quota_of :
      (decimal : ℕ → String)
      → (secrets : Dict) → (quota_path : String) → (capacity : ℕ) → Exec (Sys W) (Unit {0})
  unfolding get_or_empty wrap_set_quota_err
  set_quota_of decimal secrets quota_path capacity =
      if nat_eq (capacity / 1024 / 1024 / 1024) 0 then raise other else do
        r ← attempt (
            run h dfs_cmd_path (
              "fs"
              ∷ "quota"
              ∷ "set"
              ∷ "--fsname"
              ∷ get_or_empty "name" secrets
              ∷ "--path"
              ∷ quota_path
              ∷ "--capacity"
              ∷ decimal (capacity / 1024 / 1024 / 1024)
              ∷ "--mdsaddr"
              ∷ get_or_empty "mdsAddr" secrets
              ∷ []))
        over ← is_context_done h
        if over then pure tt else given (wrap_set_quota_err r)

  -- DfsCleanupMountPoint
  unfoldable pub dfs_cleanup_mount_point : (path : String) → Exec (Sys W) (Unit {0})
  dfs_cleanup_mount_point path = act h (cleanup_mount_point path)

  -- What is answered: the output of the command, or the command where it is not run.
  abbrev pub auth_by : (force : Bool) → (args cmd_args : List String) → Exec (Sys W) String
  auth_by true args cmd_args = do
    r ← attempt (run h dfs_cmd_path args)
    handle r pure (λ e. raise other)
  auth_by false args cmd_args = pure (join " " cmd_args)

  -- AuthFs, where `none` are nil secrets.
  unfoldable pub auth_fs :
      Option Dict
      → (format_options conf_path : String) → (no_update force : Bool) → Exec (Sys W) String
  unfolding compatible auth_args auth_cmd_args get_or_empty join
  auth_fs none format_options conf_path no_update force = raise invalid_params
  auth_fs (some secrets) format_options conf_path no_update force =
      if get_or_empty "name" secrets == "" then raise invalid_params else do
        args ← given (auth_args (compatible secrets) format_options conf_path no_update)
        cmd_args ← given (auth_cmd_args (compatible secrets) format_options conf_path no_update)
        auth_by force args cmd_args
