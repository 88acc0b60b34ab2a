-- ===== src/Node/Options.antt =====
-- The mount options of NodePublishVolume of pkg/dingofs-driver/node.go.
pub mod Laws
use dingofs_csi.Common.{
  String, Bool, false, not, ◌||◌, List, [], ◌∷◌, ◌++◌, Option, none, some, Dict, if◌then◌else◌,
  lookup, has_prefix, split,
}
use Prim.Native.String
use dingofs_csi.Controller.{Capability, is_reader_only, flags_of}

-- The fields of csi.NodePublishVolumeRequest; `none` is a nil map or pointer.
pub record PublishRequest : Type 0 where
  pub volume_id : String
  pub target_path : String
  pub capability : Option Capability
  pub readonly : Bool
  pub secrets : Option Dict
  pub volume_context : Dict

abbrev pub default_s3_log_prefix_key : String
default_s3_log_prefix_key = "s3.logPrefix"

abbrev pub default_client_common_log_dir_key : String
default_client_common_log_dir_key = "client.common.logDir"

-- The options of the request, and of its capability.
unfoldable pub request_options : PublishRequest → Capability → List String
request_options req capability =
    (if req.readonly || is_reader_only capability then "ro" ∷ [] else [])
    ++ flags_of capability.access

abbrev pub split_options : Option String → List String
split_options none = []
split_options (some options) = split options ","

unfoldable pub context_options : Dict → List String
unfolding lookup split
context_options context = split_options (lookup "mountOptions" context)

-- The variables foundLogPrefix and foundLogDir of the loop.
abbrev pub find_log_options : Bool × Bool → List String → Bool × Bool
find_log_options found [] = found
find_log_options (found_log_prefix, found_log_dir) (item ∷ items) =
    let on_prefix : Bool = has_prefix item "s3.logPrefix=" || found_log_prefix in
    let on_dir : Bool = has_prefix item "client.common.logDir=" || on_prefix in
    find_log_options (on_dir, found_log_dir) items

-- The value under /dingofs/client/logs that is set for a volume.
abbrev pub log_option : (key volume_id : String) → String
log_option key volume_id =
    String.◌++◌ key
      (String.◌++◌ "=" (String.◌++◌ "/dingofs/client/logs" (String.◌++◌ "/" volume_id)))

unfoldable pub with_log_options : (volume_id : String) → List String → List String
unfolding has_prefix
with_log_options volume_id options =
    let (found_log_prefix, found_log_dir) = find_log_options (false, false) options in
    let prefixed : List String =
      if not found_log_prefix
      then options ++ log_option default_s3_log_prefix_key volume_id ∷ []
      else options in
    if not found_log_dir
    then prefixed ++ log_option default_client_common_log_dir_key volume_id ∷ []
    else prefixed

-- The options that DfsMount is given.
unfoldable pub mount_options_of : PublishRequest → Capability → List String
unfolding context_options request_options with_log_options
mount_options_of req capability =
    with_log_options req.volume_id
      (context_options req.volume_context ++ request_options req capability)
