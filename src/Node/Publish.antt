-- ===== src/Node/Publish.antt =====
-- NodePublishVolume of pkg/dingofs-driver/node.go.
use dingofs_csi.Common.{
  ℕ, String, Bool, true, false, not, [], ◌∷◌, Option, none, some, Dict, ◌==◌, if◌then◌else◌,
  get_or_empty,
}
use Prim.Native.String
use dingofs_csi.Common.Exec.{
  Result, Error, not_found, other, Exec, pure, raise, attempt, handle, coded_as, wrap, ◌>>=◌, ◌>>◌,
}
use dingofs_csi.Kube.Host.{make_dir, bind_mount, unmount, Sys, Host}
use dingofs_csi.Kube.Host.Calls.{act}
use dingofs_csi.Controller.{Capability, is_valid_volume_capabilities, sub_path_of}
use dingofs_csi.Util.{DfsVol, get_dfs_info}
use dingofs_csi.Node.{
  invalid_argument_code, NodeState, NodeCalls, read, read_value, with_target_lock,
}
use dingofs_csi.Node.Target.{create_target, check_dfs_type}
use dingofs_csi.Node.Options.{PublishRequest, mount_options_of}

module _ {W Mounted : Type 0} (h : Host W) (c : NodeCalls W Mounted) where
  -- The answer of IsMountPoint, where a missing target is made.
  abbrev pub made_if_missing : String → Error → Exec (Sys W) Bool
  made_if_missing target not_found = wrap (act h (make_dir target)) >> pure false
  made_if_missing target e = raise other

  -- The check after the bind mount, which is taken back where it fails.
  unfoldable pub check_bound : (source target : String) → Exec (Sys W) (Unit {0})
  check_bound source target = do
    r ← attempt (check_dfs_type c source)
    handle r pure (λ e. wrap (act h (unmount target)) >> raise e)

  unfoldable pub bind_local : (source target : String) → Bool → Exec (Sys W) (Unit {0})
  bind_local source target true = pure tt
  bind_local source target false = do
    wrap (act h (bind_mount source target))
    check_bound source target

  -- The branch of local volumes, from the path on the host on.
  unfoldable pub publish_local : (host_path target : String) → Exec (Sys W) (Unit {0})
  publish_local host_path target = do
    let source : String = String.◌++◌ "/host" host_path
    missing ← read_value (c.is_missing source)
    if missing then wrap (act h (make_dir source)) else pure tt
    r ← attempt (read (c.is_mount_point target))
    mounted ← handle r pure (made_if_missing target)
    bind_local source target mounted

  unfoldable pub publish_info : String → Result DfsVol → Exec (Sys W) (Unit {0})
  publish_info target r =
      handle r (λ v. publish_local v.mount_path target) (λ e. raise invalid_argument_code)

  unfoldable pub publish_mounted : PublishRequest → Capability → Dict → Exec (Sys W) (Unit {0})
  publish_mounted req capability secrets = do
    mounted ← coded_as 13 (
        c.dfs_mount req.volume_id req.target_path secrets req.volume_context
          (mount_options_of req capability))
    source ←
        coded_as 13 (c.create_vol mounted req.volume_id (get_or_empty "subPath" req.volume_context))
    coded_as 13 (c.bind_target mounted source req.target_path)

  abbrev pub publish_by : PublishRequest → Capability → Option Dict → Exec (Sys W) (Unit {0})
  publish_by req capability none = publish_info req.target_path (get_dfs_info req.volume_id)
  publish_by req capability (some secrets) =
      if c.local_pv
      then publish_local
          (c.join_path "/dingofs" (get_or_empty "name" secrets) (sub_path_of req.volume_id))
          req.target_path
      else publish_mounted req capability secrets

  -- With the target locked.
  unfoldable pub publish_locked : ℕ → PublishRequest → Option Capability → Exec (Sys W) (Unit {0})
  publish_locked fuel req none = raise invalid_argument_code
  publish_locked fuel req (some capability) =
      if not (is_valid_volume_capabilities (capability ∷ []))
      then raise invalid_argument_code
      else do
        coded_as 13 (create_target h fuel req.target_path)
        publish_by req capability req.secrets

  unfoldable pub node_publish_volume : ℕ → PublishRequest → Exec (NodeState W) (Unit {0})
  node_publish_volume fuel req =
      if req.volume_id == ""
      then raise invalid_argument_code
      else if req.target_path == ""
      then raise invalid_argument_code
      else with_target_lock req.target_path (publish_locked fuel req req.capability)
