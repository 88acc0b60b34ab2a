-- ===== src/Settings.antt =====
-- pkg/config/dfs_setting.go: the settings of a volume and of its mount pod. Values that the code only
-- copies (probes, lifecycle, affinity and the like) are texts.
pub mod Patch
pub mod Limits
pub mod Options
pub mod Security
pub mod Parse
use dingofs_csi.Common.{ℕ, String, Bool, List, Option, Dict}
use dingofs_csi.Kube.{Resources}

-- corev1.Volume; corev1.VolumeMount and corev1.VolumeDevice.
pub record Volume : Type 0 where
  pub name : String
  pub source : String

pub record VolumeUse : Type 0 where
  pub name : String
  pub path : String

-- PVCSelector, with the label selector as text.
pub record PvcSelector : Type 0 where
  pub label_selector : String
  pub match_storage_class_name : String
  pub match_name : String

-- The fields of a claim that are read.
pub record Claim : Type 0 where
  pub name : String
  pub labels : Dict
  pub annotations : Dict
  pub storage_class_name : Option String

pub record MountPodPatch : Type 0 where
  pub pvc_selector : Option PvcSelector
  pub mount_image : String
  pub image : String
  pub labels : Option Dict
  pub annotations : Option Dict
  pub host_network : Option Bool
  pub host_pid : Option Bool
  pub liveness_probe : Option String
  pub readiness_probe : Option String
  pub startup_probe : Option String
  pub lifecycle : Option String
  pub resources : Option Resources
  pub grace_period : Option ℕ
  pub volumes : Option (List Volume)
  pub volume_devices : Option (List VolumeUse)
  pub volume_mounts : Option (List VolumeUse)
  pub env : Option (List (String × String))
  pub mount_options : Option (List String)

-- PodAttr, without the fields that are only copied from the driver's own pod.
pub record PodAttr : Type 0 where
  pub image : String
  pub service_account_name : String
  pub resources : Resources
  pub labels : Dict
  pub annotations : Dict
  pub host_network : Bool
  pub host_pid : Bool
  pub liveness_probe : Option String
  pub readiness_probe : Option String
  pub startup_probe : Option String
  pub lifecycle : Option String
  pub grace_period : Option ℕ
  pub volumes : Option (List Volume)
  pub volume_devices : Option (List VolumeUse)
  pub volume_mounts : Option (List VolumeUse)
  pub env : Option (List (String × String))

-- DfsSetting, without the fields that nothing here reads or writes.
pub record DfsSetting : Type 0 where
  pub name : String
  pub mds_addr : String
  pub storage : String
  pub format_options : String
  pub cache_dirs : List String
  pub client_conf_path : String
  pub volume_id : String
  pub mount_path : String
  pub mount_options : List String
  pub sub_path : String
  pub attr : Option PodAttr
  pub secret_key : String
  pub secret_key2 : String
  pub envs : Dict
  pub configs : Dict
  pub deleted_delay : String
  pub clean_cache : Bool
  pub host_path : List String
  pub pvc : Option Claim
