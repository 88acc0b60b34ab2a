-- ===== src/Builder/Volumes.antt =====
-- The volumes of a mount pod: genCacheDirVolumes, genHostPathVolumes and genPodVolumes of
-- pkg/builder/pod.go, and _genDfsVolumes of pkg/builder/base.go. The flags of sources and mounts
-- (types of host paths, propagation, read-only) are constants and not modelled.
use dingofs_csi.Common.{
  ℕ, ◌+◌, String, Bool, true, false, List, [], ◌∷◌, ◌++◌, Option, none, some, Dict, if◌then◌else◌,
  keep, has_prefix,
}
use Prim.Native.String

pub data VolumeSource : Type 0 where
  host_path : (path : String) → VolumeSource
  claim : (name : String) → VolumeSource
  empty_dir : (medium size_limit : String) → VolumeSource
  csi : (attributes : String) → VolumeSource
  secret : (name : String) → VolumeSource
  secret_key : (name key path : String) → VolumeSource
  config_map : (name : String) → VolumeSource

pub record PodVolume : Type 0 where
  pub name : String
  pub source : VolumeSource

-- A mount or a device of a container.
pub record MountOf : Type 0 where
  pub name : String
  pub path : String

-- CacheEmptyDir
pub record EmptyDir : Type 0 where
  pub medium : String
  pub size_limit : String
  pub path : String

-- The fields of the setting, the volumes and mounts of config.CSIPod, config.Immutable and how
-- fmt prints a number.
pub record VolumeSetting : Type 0 where
  pub name : String
  pub hash_val : String
  pub secret_name : String
  pub has_rsa_key : Bool
  pub has_init_config : Bool
  pub configs : Dict
  pub cache_dirs : List String
  pub cache_claims : List (String × String)
  pub cache_empty_dir : Option EmptyDir
  pub cache_inline_volumes : List (String × String)
  pub host_paths : List String
  pub csi_volumes : List PodVolume
  pub csi_mounts : List MountOf
  pub immutable : Bool
  pub decimal : ℕ → String

-- A volume and its mount, from the place in a list.
abbrev pub numbered : (decimal : ℕ → String) → (stem : String) → ℕ → String
numbered decimal stem n = String.◌++◌ stem (decimal n)

module _ {A : Type 0} (decimal : ℕ → String) (stem : String) where
  unfoldable pub volumes_from : (A → VolumeSource) → ℕ → List A → List PodVolume
  volumes_from source n [] = []
  volumes_from source n (x ∷ xs) =
      record { name = numbered decimal stem n; source = source x } ∷ volumes_from source (n + 1) xs

  unfoldable pub mounts_from : (A → String) → ℕ → List A → List MountOf
  mounts_from path n [] = []
  mounts_from path n (x ∷ xs) =
      record { name = numbered decimal stem n; path = path x } ∷ mounts_from path (n + 1) xs

abbrev pub empty_volumes : Option EmptyDir → List PodVolume
empty_volumes none = []
empty_volumes (some d) =
    record { name = "cachedir-empty-dir"; source = empty_dir d.medium d.size_limit } ∷ []

abbrev pub empty_mounts : Option EmptyDir → List MountOf
empty_mounts none = []
empty_mounts (some d) = record { name = "cachedir-empty-dir"; path = d.path } ∷ []

-- genCacheDirVolumes
unfoldable pub cache_volumes : VolumeSetting → List PodVolume
unfolding volumes_from
cache_volumes st =
    volumes_from st.decimal "cachedir-" host_path 0 st.cache_dirs
    ++ (volumes_from st.decimal "cachedir-pvc-" (λ x. claim x.0) 0 st.cache_claims
        ++ (empty_volumes st.cache_empty_dir
            ++ volumes_from st.decimal "cachedir-inline-volume-" (λ x. csi x.0) 0
                st.cache_inline_volumes))

unfoldable pub cache_mounts : VolumeSetting → List MountOf
unfolding mounts_from
cache_mounts st =
    mounts_from st.decimal "cachedir-" (λ x. x) 0 st.cache_dirs
    ++ (mounts_from st.decimal "cachedir-pvc-" (λ x. x.1) 0 st.cache_claims
        ++ (empty_mounts st.cache_empty_dir
            ++ mounts_from st.decimal "cachedir-inline-volume-" (λ x. x.1) 0
                st.cache_inline_volumes))

-- genHostPathVolumes
unfoldable pub host_volumes : VolumeSetting → List PodVolume
unfolding volumes_from
host_volumes st = volumes_from st.decimal "hostpath-" host_path 0 st.host_paths

unfoldable pub host_mounts : VolumeSetting → List MountOf
unfolding mounts_from
host_mounts st = mounts_from st.decimal "hostpath-" (λ x. x) 0 st.host_paths

abbrev pub update_db_file : String
update_db_file = "/etc/updatedb.conf"

abbrev pub update_volumes : (immutable : Bool) → List PodVolume
update_volumes true = []
update_volumes false = record { name = "updatedb"; source = host_path update_db_file } ∷ []

abbrev pub update_mounts : (immutable : Bool) → List MountOf
update_mounts true = []
update_mounts false = record { name = "updatedb"; path = update_db_file } ∷ []

-- genPodVolumes
unfoldable pub pod_volumes : VolumeSetting → List PodVolume
pod_volumes st =
    record { name = "dfs-dir"; source = host_path "/var/lib/dingofs/volume" }
    ∷ record {
      name = "dfs-fuse-fd";
      source = host_path (String.◌++◌ "/var/run/dingofs-csi/" st.hash_val);
    }
    ∷ update_volumes st.immutable

unfoldable pub pod_mounts : VolumeSetting → List MountOf
pod_mounts st =
    record { name = "dfs-dir"; path = "/dfs" }
    ∷ record { name = "dfs-fuse-fd"; path = "/tmp" }
    ∷ update_mounts st.immutable

abbrev pub is_disk : (name : String) → Bool
is_disk name = has_prefix name "dingofs-disk"

abbrev pub volumes_if : Bool → PodVolume → List PodVolume
volumes_if b v = if b then v ∷ [] else []

abbrev pub mounts_if : Bool → MountOf → List MountOf
mounts_if b m = if b then m ∷ [] else []

-- _genDfsVolumes
unfoldable pub dfs_volumes : VolumeSetting → List PodVolume
unfolding volumes_from has_prefix
dfs_volumes st =
    keep (λ v. is_disk v.name) st.csi_volumes
    ++ (volumes_if st.has_rsa_key (record {
      name = "rsa-key";
      source = secret_key st.secret_name "encrypt_rsa_key" "rsa-key.pem";
    })
        ++ (volumes_if st.has_init_config (record {
          name = "init-config";
          source = secret_key st.secret_name "initconfig" (String.◌++◌ st.name ".conf");
        })
            ++ volumes_from st.decimal "config-" (λ x. secret x.0) 1 st.configs))

unfoldable pub dfs_mounts : VolumeSetting → List MountOf
unfolding mounts_from has_prefix
dfs_mounts st =
    keep (λ m. is_disk m.name) st.csi_mounts
    ++ (mounts_if st.has_rsa_key (record { name = "rsa-key"; path = "/root/.rsa" })
        ++ (mounts_if st.has_init_config (record { name = "init-config"; path = "/etc/dingofs" })
            ++ mounts_from st.decimal "config-" (λ x. x.1) 1 st.configs))
