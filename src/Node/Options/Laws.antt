-- ===== src/Node/Options/Laws.antt =====
-- Statements about the mount options of NodePublishVolume of pkg/dingofs-driver/node.go.
use dingofs_csi.Common.{
  String, Bool, true, false, not, ◌||◌, List, [], ◌∷◌, ◌++◌, ◌≡◌, refl, ap, ◌∙◌, if◌then◌else◌, any,
  has_prefix,
}
use dingofs_csi.Controller.{Capability, is_reader_only, flags_of}
use dingofs_csi.Node.Options.{
  PublishRequest, default_s3_log_prefix_key, default_client_common_log_dir_key, find_log_options,
  log_option, with_log_options, mount_options_of, context_options, request_options,
}

-- The option sets the prefix or the directory of the logs.
abbrev pub is_log_option : String → Bool
is_log_option item = has_prefix item "s3.logPrefix=" || has_prefix item "client.common.logDir="

find_log_options_lem :
    (items : List String) (found dir : Bool)
    → find_log_options (found, dir) items ≡ (any is_log_option items || found, dir)
find_log_options_lem [] found dir = refl
find_log_options_lem (item ∷ items) found dir =
    let on_prefix : Bool = has_prefix item "s3.logPrefix=" in
    let on_dir : Bool = has_prefix item "client.common.logDir=" in
    find_log_options_lem items (on_dir || (on_prefix || found)) dir
    ∙ ap (λ b. (b, dir)) (move on_prefix on_dir (any is_log_option items))
  where
    move : (a b c : Bool) → (c || (b || (a || found))) ≡ (((a || b) || c) || found)
    move true true true = refl
    move true true false = refl
    move true false true = refl
    move true false false = refl
    move false true true = refl
    move false true false = refl
    move false false true = refl
    move false false false = refl

-- The mount options of NodePublishVolume are those of the volume context, then ro for a read-only
-- request or capability, then the mount flags; then the default log prefix, but only where no
-- option sets the log prefix or the log directory, and always last the default log directory.
mount_options_of_lem :
    (req : PublishRequest) (capability : Capability)
    → let given : List String =
        context_options req.volume_context
        ++ ((if req.readonly || is_reader_only capability then "ro" ∷ [] else [])
            ++ flags_of capability.access) in
      mount_options_of req capability
      ≡ (if any is_log_option given
          then given
          else given ++ log_option default_s3_log_prefix_key req.volume_id ∷ [])
        ++ log_option default_client_common_log_dir_key req.volume_id ∷ []
unfolding mount_options_of with_log_options request_options
mount_options_of_lem req capability =
    let given : List String =
      context_options req.volume_context ++ request_options req capability in
    rw (find_log_options_lem given false false) (by (any is_log_option given) given)
  where
    by :
        (b : Bool) (given : List String)
        → (if not (b || false)
              then given ++ log_option default_s3_log_prefix_key req.volume_id ∷ []
              else given)
            ++ log_option default_client_common_log_dir_key req.volume_id ∷ []
          ≡ (if b then given else given ++ log_option default_s3_log_prefix_key req.volume_id ∷ [])
            ++ log_option default_client_common_log_dir_key req.volume_id ∷ []
    by true given = refl
    by false given = refl
