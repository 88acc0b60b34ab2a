-- ===== src/Tool/Params.antt =====
-- The parameters of dingofsTool, and ValidateCommonParams and ValidateCreateFsParams of
-- pkg/util/fs_util.go.
pub mod Laws
use dingofs_csi.Common.{
  ℕ, String, Bool, true, false, ◌||◌, [], Option, none, some, Dict, ◌==◌, if◌then◌else◌, ltb,
  lookup, insert, get_or_empty,
}
use dingofs_csi.Common.Integers.{ℤ, pos, negsuc}
use dingofs_csi.Common.Exec.{Result, ok, err, Error, coded}

-- status.Error with codes.InvalidArgument, and codes.Internal
abbrev pub invalid_params : Error
invalid_params = coded 3

abbrev pub internal_status : ℕ
internal_status = 13

-- strconv.ParseInt at base 0 and 64 bits
pub record Numbers : Type 0 where
  pub parse_int64 : String → Option ℤ

pub record DingofsTool : Type 0 where
  pub tool_params : Dict
  pub quota_params : Dict

-- NewDingofsTool
abbrev pub new_dingofs_tool : DingofsTool
new_dingofs_tool = record { tool_params = []; quota_params = [] }

-- `ct.ToolParams[key] = value`
abbrev pub set_param : (key value : String) → DingofsTool → DingofsTool
set_param key value ct = record ct { tool_params = insert key value ct.tool_params }

abbrev pub set_given : (key : String) → Option String → DingofsTool → DingofsTool
set_given key none ct = ct
set_given key (some value) ct = set_param key value ct

abbrev pub set_quota : (key : String) → Option String → DingofsTool → DingofsTool
set_quota key none ct = ct
set_quota key (some value) ct = record ct { quota_params = insert key value ct.quota_params }

abbrev pub with_mds_addr : Option String → DingofsTool → Result DingofsTool
with_mds_addr none ct = err invalid_params
with_mds_addr (some mds_addr) ct = ok (set_param "mdsaddr" mds_addr ct)

-- ValidateCommonParams
unfoldable pub validate_common_params : Dict → DingofsTool → Result DingofsTool
unfolding lookup insert
validate_common_params params ct = with_mds_addr (lookup "mdsAddr" params) ct

abbrev pub with_s3 : (endpoint ak sk bucket : Option String) → DingofsTool → Result DingofsTool
with_s3 (some endpoint) (some ak) (some sk) (some bucket) ct = ok (
    set_param "s3.bucketname" bucket
      (set_param "s3.sk" sk (set_param "s3.ak" ak (set_param "s3.endpoint" endpoint ct))))
with_s3 endpoint ak sk bucket ct = err invalid_params

abbrev pub with_rados : (pool user key mon : Option String) → DingofsTool → Result DingofsTool
with_rados (some pool) (some user) (some key) (some mon) ct = ok (
    set_param "rados.mon" mon (
      set_param "rados.key" key
        (set_param "rados.username" user (set_param "rados.poolname" pool ct))))
with_rados pool user key mon ct = err invalid_params

abbrev pub is_below_ten : ℤ → Bool
is_below_ten (pos n) = ltb n 10
is_below_ten (negsuc n) = true

abbrev pub with_size : (size : String) → Option ℤ → DingofsTool → Result DingofsTool
with_size size none ct = err invalid_params
with_size size (some gigabytes) ct =
    if is_below_ten gigabytes then err invalid_params else ok (set_param "volumeSize" size ct)

abbrev pub with_volume : Numbers → (name size : Option String) → DingofsTool → Result DingofsTool
with_volume numbers (some name) (some size) ct =
    with_size size (numbers.parse_int64 size) (set_param "volumeName" name ct)
with_volume numbers name size ct = err invalid_params

-- Go's zero value of a text that was not given.
abbrev pub text_or_empty : Option String → String
text_or_empty none = ""
text_or_empty (some t) = t

abbrev pub is_kind : (kind : String) → (fs_type storage_type : Option String) → Bool
is_kind kind fs_type storage_type =
    text_or_empty fs_type == kind || text_or_empty storage_type == kind

-- By the type of the file system.
abbrev pub with_storage :
    Numbers → (fs_type storage_type : Option String) → Dict → DingofsTool → Result DingofsTool
with_storage numbers fs_type storage_type params ct =
    if is_kind "s3" fs_type storage_type
    then with_s3 (lookup "s3Endpoint" params) (lookup "s3AccessKey" params)
        (lookup "s3SecretKey" params) (lookup "s3Bucket" params) ct
    else if is_kind "rados" fs_type storage_type
    then with_rados (lookup "radosPoolname" params) (lookup "radosUsername" params)
        (lookup "radosKey" params) (lookup "radosMon" params)
        (set_given "rados.clustername" (lookup "radosClustername" params) ct)
    else if text_or_empty fs_type == "volume"
    then with_volume numbers (lookup "backendVolName" params) (lookup "backendVolSizeGB" params) ct
    else err invalid_params

abbrev pub with_quotas : Dict → Result DingofsTool → Result DingofsTool
with_quotas params (err e) = err e
with_quotas params (ok ct) = ok (
    set_quota "inodes" (lookup "quotaInodes" params)
      (set_quota "capacity" (lookup "quotaCapacity" params) ct))

-- ValidateCreateFsParams; nothing reads the tool after an error.
unfoldable pub validate_create_fs_params : Numbers → Dict → DingofsTool → Result DingofsTool
unfolding lookup insert
validate_create_fs_params numbers params ct = with_quotas params (
    with_storage numbers (lookup "fsType" params) (lookup "storagetype" params) params (
      set_given "storagetype" (lookup "storagetype" params)
        (set_given "fstype" (lookup "fsType" params) ct)))
