-- ===== src/Tool/Mounter.antt =====
-- dingofsMounter of pkg/util/fs_util.go, with CreatePath of pkg/util/util.go. The number of the
-- mounting process, which MountFs answers, is not modelled.
pub mod Config
pub mod Laws
use dingofs_csi.Common.{
  ℕ, String, Bool, true, false, ◌&&◌, ◌||◌, List, [], ◌∷◌, ◌++◌, Option, none, some, Dict, ◌==◌,
  if◌then◌else◌, map, lookup, insert, get_or_empty, split,
}
use Prim.Native.String
use dingofs_csi.Common.Exec.{
  Result, ok, err, Exec, pure, raise, other, attempt, coded_as, ◌>>=◌, ◌>>◌,
}
use dingofs_csi.Kube.Host.{make_dir, remove_path, write_file, Sys, Host}
use dingofs_csi.Kube.Host.Calls.{act, run, read_text}
use dingofs_csi.Mounting.{given, ask}
use dingofs_csi.Tool.Params.{invalid_params, internal_status}
use dingofs_csi.Tool.Mounter.Config.{
  read_config, apply_flags, cache_enabled, new_lines, cache_dir_of, in_directory,
}

-- What os.Lstat answers.
pub data Lstat : Type 0 where
  absent unreadable directory file : Lstat

abbrev pub default_client_conf_path : String
default_client_conf_path = "/dingofs/conf/client.conf"

abbrev pub client_path : String
client_path = "/dingofs/client/sbin/dingo-fuse"

abbrev pub conf_path_of : (uuid : String) → String
conf_path_of uuid = String.◌++◌ default_client_conf_path (String.◌++◌ "." uuid)

abbrev pub conf_or_default : Option String → String
conf_or_default none = default_client_conf_path
conf_or_default (some path) = path

abbrev pub valid_mount_params : (mds_addr conf fs_type : Option String) → Dict → Result Dict
valid_mount_params (some mds_addr) conf (some fs_type) params = ok (
    insert "fstype" fs_type
      (insert "conf" (conf_or_default conf) (insert "mdsaddr" mds_addr params)))
valid_mount_params mds_addr conf fs_type params = err invalid_params

-- validateMountFsParams; nothing reads the parameters after an error.
unfoldable pub validate_mount_fs_params : (secrets params : Dict) → Result Dict
unfolding lookup insert
validate_mount_fs_params secrets params =
    valid_mount_params (lookup "mdsAddr" secrets) (lookup "clientConfPath" secrets)
      (lookup "fsType" secrets) params

-- The options of the command, without the cache directory.
abbrev pub mount_flags : Dict → List String
mount_flags [] = []
mount_flags ((key, value) ∷ params) =
    if key == "cache_dir"
    then mount_flags params
    else if key == "mdsaddr"
    then String.◌++◌ "--" (String.◌++◌ key (String.◌++◌ "=" value)) ∷ mount_flags params
    else "-o" ∷ String.◌++◌ key (String.◌++◌ "=" value) ∷ mount_flags params

abbrev pub lines_text : List String → String
lines_text [] = ""
lines_text (line ∷ lines) = String.◌++◌ line (String.◌++◌ "\n" (lines_text lines))

abbrev pub set_cache_dir : Option String → Dict → Dict
set_cache_dir none params = params
set_cache_dir (some dirs) params = insert "cache_dir" dirs params

-- GetCacheDir
unfoldable pub get_cache_dir : Dict → String
unfolding get_or_empty
get_cache_dir params = get_or_empty "cache_dir" params

module _ {W : Type 0} (h : Host W) where
  abbrev pub make_dirs : List String → Exec (Sys W) (Unit {0})
  make_dirs [] = pure tt
  make_dirs (dir ∷ dirs) = act h (make_dir dir) >> make_dirs dirs

  -- The new text of the configuration, from the lines of the copy.
  abbrev pub updated : (flags : List String) → (uuid : String) → (lines : List String) → String
  updated flags uuid lines =
      lines_text (new_lines uuid lines (apply_flags flags (read_config lines [])))

  abbrev pub updated_params :
      (flags : List String) → (uuid : String) → (lines : List String) → Dict → Dict
  updated_params flags uuid lines params =
      set_cache_dir (cache_dir_of uuid lines (apply_flags flags (read_config lines []))) params

  -- applyMountFlags: the path of the new configuration, and the mounter's parameters after it.
  unfoldable pub apply_mount_flags :
      (params : Dict)
      → (conf_path : String) → (flags : List String) → (uuid : String)
      → Exec (Sys W) (String × Dict)
  apply_mount_flags params conf_path flags uuid = do
    original ← coded_as internal_status (read_text h conf_path)
    coded_as internal_status (act h (write_file (conf_path_of uuid) original))
    copy ← coded_as internal_status (read_text h (conf_path_of uuid))
    coded_as internal_status
        (act h (write_file (conf_path_of uuid) (updated flags uuid (split copy "\n"))))
    if cache_enabled flags
        then make_dirs
            (split (get_cache_dir (updated_params flags uuid (split copy "\n") params)) ";")
        else pure tt
    pure (conf_path_of uuid, updated_params flags uuid (split copy "\n") params)

  abbrev pub with_flags :
      (params : Dict) → Option (List String) → (uuid : String) → Exec (Sys W) Dict
  with_flags params none uuid = pure params
  with_flags params (some flags) uuid = do
    (path, changed) ← apply_mount_flags params (get_or_empty "conf" params) flags uuid
    pure (insert "conf" path changed)

  abbrev pub on_lstat : (path : String) → Lstat → Exec (Sys W) (Unit {0})
  on_lstat path absent = act h (make_dir path)
  on_lstat path unreadable = raise other
  on_lstat path directory = pure tt
  on_lstat path file = raise other

  -- CreatePath
  unfoldable pub create_path : (W → Lstat × W) → (path : String) → Exec (Sys W) (Unit {0})
  create_path lstat path = ask lstat >>= on_lstat path

  -- MountFs: the mounter's parameters after it.
  unfoldable pub mount_fs :
      (lstat : String → W → Lstat × W)
      → (mount_path : String) → (flags : Option (List String)) → (uuid : String)
      → (secrets params : Dict) → Exec (Sys W) Dict
  mount_fs lstat mount_path flags uuid secrets params = do
    valid ← given (validate_mount_fs_params secrets params)
    configured ← with_flags valid flags uuid
    let all = insert "fsname" (get_or_empty "name" secrets) configured
    coded_as internal_status (create_path (lstat mount_path) mount_path)
    coded_as internal_status (
        run h client_path (
          ("-o" ∷ "default_permissions" ∷ "-o" ∷ "allow_other" ∷ [])
          ++ mount_flags all
          ++ mount_path ∷ []))
    pure all

  -- Removals that run by themselves and whose errors nobody reads.
  abbrev pub remove_all : List String → Exec (Sys W) (Unit {0})
  remove_all [] = pure tt
  remove_all (path ∷ paths) = do _ ← attempt (act h (remove_path path)); remove_all paths

  -- UmountFs
  unfoldable pub umount_fs : (target uuid cache_dirs : String) → Exec (Sys W) (Unit {0})
  umount_fs target uuid cache_dirs = do
    coded_as internal_status (run h "umount" (target ∷ []))
    coded_as internal_status (run h "umount" (in_directory "/dfs" uuid ∷ []))
    if uuid == ""
        then pure tt
        else remove_all (conf_path_of uuid ∷ split cache_dirs ";" ++ in_directory "/dfs" uuid ∷ [])
