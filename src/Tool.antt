-- ===== src/Tool.antt =====
-- dingofsTool of pkg/util/fs_util.go and CreateFS of pkg/dingofs-driver/dingofs.go: the parameters
-- of a file system, and the commands that list, create and configure file systems.
pub mod Params
pub mod Listing
pub mod Creation
pub mod Mounter
use dingofs_csi.Common.{
  String, Bool, true, false, List, [], ◌∷◌, ◌++◌, Dict, ◌==◌, if◌then◌else◌, map, contains,
  get_or_empty, insert, is_empty,
}
use Prim.Native.String
use dingofs_csi.Common.Exec.{
  Exec, ok, err, pure, raise, attempt, handle, coded, coded_as, ◌>>=◌, ◌>>◌,
}
use dingofs_csi.Kube.Host.{Sys, Host}
use dingofs_csi.Kube.Host.Calls.{run}
use dingofs_csi.Mounting.{given}
use dingofs_csi.Settings.Options.{trim_space}
use dingofs_csi.Tool.Params.{
  DingofsTool, new_dingofs_tool, Numbers, validate_common_params, validate_create_fs_params,
  internal_status,
}
use dingofs_csi.Tool.Listing.{fs_existed_in}

-- config.DfsCMDPath, and toolPath of the package util
abbrev pub dfs_cmd_path : String
dfs_cmd_path = "/usr/bin/dingo"

abbrev pub tool_path : String
tool_path = "/dingofs/tools-v2/sbin/dingo"

abbrev pub flag : (dashes : String) → String × String → String
flag dashes (name, value) = String.◌++◌ dashes (String.◌++◌ name (String.◌++◌ "=" value))

-- The loops over ToolParams and QuotaParams.
abbrev pub flags : Dict → List String
flags params = map (flag "--") params

abbrev pub mds_addr_of : DingofsTool → String
mds_addr_of ct = get_or_empty "mdsaddr" ct.tool_params

abbrev pub list_arguments : (mds_addr : String) → List String
list_arguments mds_addr = "list" ∷ "fs" ∷ String.◌++◌ "--mdsaddr=" mds_addr ∷ []

abbrev pub create_arguments : DingofsTool → List String
create_arguments ct = "create" ∷ "fs" ∷ flags ct.tool_params

abbrev pub config_arguments : (fs_name : String) → DingofsTool → List String
config_arguments fs_name ct =
    "config"
    ∷ "fs"
    ∷ flag "--" ("fsname", fs_name)
    ∷ flag "--" ("mdsaddr", mds_addr_of ct)
    ∷ flags ct.quota_params

abbrev pub named : (fs_name : String) → DingofsTool → DingofsTool
named fs_name ct = record ct { tool_params = insert "fsname" fs_name ct.tool_params }

abbrev pub retrying : DingofsTool → DingofsTool
retrying ct = record ct { tool_params = insert "rpcretrytimes" "5" ct.tool_params }

module _ {W : Type 0} (h : Host W) where
  -- CheckFsExisted
  unfoldable pub check_fs_existed : (fs_name mds_addr : String) → Exec (Sys W) Bool
  check_fs_existed fs_name mds_addr = do
    printed ← run h tool_path (list_arguments mds_addr)
    given (fs_existed_in fs_name printed)

  -- The quota of a new file system, where one is given.
  abbrev pub config_quota : (program fs_name : String) → DingofsTool → Exec (Sys W) (Unit {0})
  config_quota program fs_name ct =
      if is_empty ct.quota_params
      then pure tt
      else coded_as internal_status (run h program (config_arguments fs_name ct)) >> pure tt

  -- The part of CreateFS after its checks; the tool has the parameters of the file system.
  unfoldable pub create_and_config : (fs_name : String) → DingofsTool → Exec (Sys W) (Unit {0})
  create_and_config fs_name ct = do
    coded_as internal_status (run h dfs_cmd_path (create_arguments ct))
    config_quota dfs_cmd_path fs_name ct

  -- The query of CreateFsV1 after the creation.
  abbrev pub no_error_in : (printed : String) → Exec (Sys W) (Unit {0})
  no_error_in printed = if contains printed "Error" then raise (coded internal_status) else pure tt

  unfoldable pub create_and_verify : (fs_name : String) → DingofsTool → Exec (Sys W) (Unit {0})
  create_and_verify fs_name ct = do
    coded_as internal_status (run h tool_path (create_arguments ct))
    printed ← coded_as internal_status (
        run h tool_path (
          "query"
          ∷ "fs"
          ∷ flag "--" ("fsname", fs_name)
          ∷ flag "--" ("mdsaddr", mds_addr_of ct)
          ∷ []))
    no_error_in printed
    config_quota tool_path fs_name ct

  -- DeleteFs
  unfoldable pub delete_fs :
      DingofsTool → (volume_id : String) → (params : Dict) → Exec (Sys W) (Unit {0})
  delete_fs ct volume_id params = do
    common ← given (validate_common_params params ct)
    coded_as internal_status (
        run h tool_path (
          "delete-fs"
          ∷ map (flag "-") (insert "noconfirm" "1" (named volume_id common).tool_params)))
    pure tt

  -- SetVolumeQuota
  unfoldable pub set_volume_quota :
      (mds_addr path fs_name capacity inodes : String) → Exec (Sys W) (Unit {0})
  set_volume_quota mds_addr path fs_name capacity inodes = do
    coded_as internal_status (
        run h tool_path (
          ("quota"
            ∷ "set"
            ∷ flag "--" ("mdsaddr", mds_addr)
            ∷ flag "--" ("path", path)
            ∷ flag "--" ("fsname", fs_name)
            ∷ flag "--" ("capacity", capacity)
            ∷ [])
          ++ (if trim_space inodes == "" then [] else flag "--" ("inodes", inodes) ∷ [])))
    pure tt

module _ {W : Type 0} (h : Host W) (numbers : Numbers) where
  abbrev pub create_missing : (secrets : Dict) → DingofsTool → Bool → Exec (Sys W) (Unit {0})
  create_missing secrets ct true = pure tt
  create_missing secrets ct false = do
    valid ← given (validate_create_fs_params numbers secrets ct)
    create_and_config h (get_or_empty "name" secrets)
        (retrying (named (get_or_empty "name" secrets) valid))

  -- CreateFS
  unfoldable pub create_fs : (secrets : Dict) → Exec (Sys W) (Unit {0})
  create_fs secrets = do
    ct ← given (validate_common_params secrets new_dingofs_tool)
    existed ← check_fs_existed h (get_or_empty "name" secrets) (mds_addr_of ct)
    create_missing secrets ct existed

  abbrev pub create_missing_v1 : (secrets : Dict) → DingofsTool → Bool → Exec (Sys W) (Unit {0})
  create_missing_v1 secrets ct true = pure tt
  create_missing_v1 secrets ct false = do
    valid ← given (validate_create_fs_params numbers secrets ct)
    create_and_verify h (get_or_empty "name" secrets) (named (get_or_empty "name" secrets) valid)

  -- CreateFsV1
  unfoldable pub create_fs_v1 : DingofsTool → (secrets : Dict) → Exec (Sys W) (Unit {0})
  create_fs_v1 ct secrets = do
    common ← given (validate_common_params secrets ct)
    existed ← check_fs_existed h (get_or_empty "name" secrets) (mds_addr_of common)
    create_missing_v1 secrets common existed
