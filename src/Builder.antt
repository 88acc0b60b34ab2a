-- ===== src/Builder.antt =====
-- The builders of mount pods, pkg/builder/pod.go, base.go and secret.go, with the fields that depend
-- on the setting. The fields that are only copied from it or that are constants (probes, resources,
-- environment, DNS, tolerations, service account) are not modelled.
pub mod Volumes
pub mod Command
pub mod Names
pub mod Reading
use dingofs_csi.Common.{
  String, Bool, true, false, List, [], ◌∷◌, ◌++◌, Option, none, some, Dict, ◌==◌, if◌then◌else◌,
  insert, any, map,
}
use Prim.Native.String
use dingofs_csi.Common.Exec.{Error, already_exists, Exec, pure, raise, attempt, handle, ◌>>=◌, ◌>>◌}
use dingofs_csi.Kube.Host.{create_config_map, Sys, Host}
use dingofs_csi.Kube.Host.Calls.{act}
use dingofs_csi.Resource.{finalizer, delete_delay_time_key}
use dingofs_csi.Builder.Volumes.{
  PodVolume, MountOf, VolumeSetting, config_map, dfs_volumes, dfs_mounts, pod_volumes, pod_mounts,
  cache_volumes, cache_mounts, host_volumes, host_mounts,
}
use dingofs_csi.Builder.Command.{FuseSetting, mount_command}

-- The setting, its attributes after GenPodAttrWithCfg, and config.NodeName.
pub record BuildSetting : Type 0 where
  pub volumes : VolumeSetting
  pub fuse : FuseSetting
  pub namespace : String
  pub node_name : String
  pub volume_id : String
  pub unique_id : String
  pub fs_id : String
  pub labels : Dict
  pub annotations : Dict
  pub deleted_delay : String
  pub clean_cache : Bool
  pub own_volumes : List PodVolume
  pub own_mounts : List MountOf
  pub own_devices : List MountOf
  pub mount_script : String

pub record MountPod : Type 0 where
  pub name : String
  pub namespace : String
  pub labels : Dict
  pub annotations : Dict
  pub finalizers : List String
  pub node_name : String
  pub host_name : String
  pub command : List String
  pub volumes : List PodVolume
  pub mounts : List MountOf
  pub devices : List MountOf

-- `for k, v := range from { m[k] = v }`
unfoldable pub insert_all : (from m : Dict) → Dict
insert_all [] m = m
insert_all ((k, v) ∷ from) m = insert_all from (insert k v m)

-- _genMetadata
unfoldable pub gen_labels : BuildSetting → Dict
unfolding insert_all
gen_labels st =
    insert_all st.labels
      (("app.kubernetes.io/name", "dingofs-mount") ∷ ("volume-id", st.unique_id) ∷ [])

abbrev pub insert_if : Bool → (key value : String) → Dict → Dict
insert_if b key value m = if b then insert key value m else m

abbrev pub delayed : (delay : String) → Dict → Dict
delayed delay m = if delay == "" then m else insert delete_delay_time_key delay m

unfoldable pub gen_annotations : BuildSetting → Dict
unfolding insert_all insert
gen_annotations st = insert_if st.clean_cache "dingofs-clean-cache" "true" (
    insert "dingofs-uniqueid" st.unique_id
      (insert "dingfs-fsid" st.fs_id (delayed st.deleted_delay (insert_all st.annotations []))))

-- genCommonPod with genPodTemplate: a pod without a name.
unfoldable pub gen_common_pod : BuildSetting → MountPod
unfolding gen_labels gen_annotations dfs_volumes dfs_mounts
gen_common_pod st = record {
  name = "";
  namespace = st.namespace;
  labels = gen_labels st;
  annotations = gen_annotations st;
  finalizers = finalizer ∷ [];
  node_name = st.node_name;
  host_name = st.volume_id;
  command = [];
  volumes = dfs_volumes st.volumes;
  mounts = dfs_mounts st.volumes;
  devices = [];
}

abbrev pub add_volumes : List PodVolume → List MountOf → MountPod → MountPod
add_volumes volumes mounts p = record p {
  volumes = p.volumes ++ volumes;
  mounts = p.mounts ++ mounts;
}

-- The volume that initFuseConfig adds.
abbrev pub config_volume : List PodVolume
config_volume = record { name = "config-volume"; source = config_map "dingo-fuse-config" } ∷ []

abbrev pub config_mount : List MountOf
config_mount = record { name = "config-volume"; path = "/scripts" } ∷ []

-- The rest of NewMountPod, for a pod that initFuseConfig has passed.
unfoldable pub finish_pod : BuildSetting → (pod_name : String) → MountPod → MountPod
unfolding mount_command pod_volumes pod_mounts cache_volumes cache_mounts host_volumes host_mounts
finish_pod st pod_name p =
    let named = record p { name = pod_name; command = "sh" ∷ "-c" ∷ mount_command st.fuse ∷ [] } in
    let served = add_volumes (pod_volumes st.volumes) (pod_mounts st.volumes) named in
    let cached = add_volumes (cache_volumes st.volumes) (cache_mounts st.volumes) served in
    let hosted = add_volumes (host_volumes st.volumes) (host_mounts st.volumes) cached in
    let own = add_volumes st.own_volumes st.own_mounts hosted in
    record own { devices = own.devices ++ st.own_devices }

abbrev pub fine_if_exists : {W : Type 0} → Error → Exec (Sys W) (Unit {0})
fine_if_exists already_exists = pure tt
fine_if_exists e = raise e

module _ {W : Type 0} (h : Host W) where
  -- initFuseConfig
  unfoldable pub init_fuse_config : BuildSetting → MountPod → Exec (Sys W) MountPod
  init_fuse_config st p = do
    r ← attempt (
        act h (
          create_config_map "dingo-fuse-config" st.namespace
            (("mountpoint.sh", st.mount_script) ∷ [])))
    handle r pure fine_if_exists
    pure (add_volumes config_volume config_mount p)

  -- NewMountPod
  unfoldable pub new_mount_pod : BuildSetting → (pod_name : String) → Exec (Sys W) MountPod
  unfolding gen_common_pod finish_pod
  new_mount_pod st pod_name = do
    p ← init_fuse_config st (gen_common_pod st)
    pure (finish_pod st pod_name p)
