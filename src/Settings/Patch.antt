-- ===== src/Settings/Patch.antt =====
-- MountPodPatch of pkg/config/dfs_setting.go: IsMatch and Merge.
pub mod Laws
use dingofs_csi.Common.{
  String, Bool, true, false, not, ◌&&◌, ◌||◌, List, [], ◌∷◌, ◌++◌, Option, none, some, Dict, ◌==◌,
  if◌then◌else◌, any, has_prefix,
}
use dingofs_csi.Settings.{Volume, VolumeUse, PvcSelector, Claim, MountPodPatch}

abbrev inter_volumes_prefix : List String
inter_volumes_prefix =
    "rsa-key" ∷ "init-config" ∷ "config-" ∷ "dfs-dir" ∷ "update-db" ∷ "cachedir-" ∷ []

unfoldable pub is_inter_volume : String → Bool
unfolding has_prefix
is_inter_volume name = any (λ prefix. has_prefix name prefix) inter_volumes_prefix

abbrev pub differs_from : Option String → String → Bool
differs_from none wanted = false
differs_from (some name) wanted = not (wanted == name)

-- `matches` is LabelSelectorAsSelector with Matches on the labels: `none` where the selector is wrong.
abbrev pub label_match : Option Bool → Bool
label_match none = false
label_match (some b) = b

abbrev pub matches_claim : (String → Dict → Option Bool) → PvcSelector → Claim → Bool
matches_claim matches selector pvc =
    if not (selector.match_name == "") && not (selector.match_name == pvc.name)
    then false
    else if not (selector.match_storage_class_name == "")
        && differs_from pvc.storage_class_name selector.match_storage_class_name
    then false
    else label_match (matches selector.label_selector pvc.labels)

abbrev pub matches_by : (String → Dict → Option Bool) → Option PvcSelector → Option Claim → Bool
matches_by matches none pvc = true
matches_by matches (some selector) none = false
matches_by matches (some selector) (some pvc) = matches_claim matches selector pvc

-- IsMatch
unfoldable pub is_match : (String → Dict → Option Bool) → MountPodPatch → Option Claim → Bool
is_match matches patch pvc = matches_by matches patch.pvc_selector pvc

-- `if mp.X != nil { mpp.X = mp.X }`
abbrev pub or_else {ℓ} : {A : Type ℓ} → Option A → Option A → Option A
or_else none own = own
or_else (some a) own = some a

abbrev pub list_of {ℓ} : {A : Type ℓ} → Option (List A) → List A
list_of none = []
list_of (some xs) = xs

abbrev pub is_named : String → List Volume → Bool
is_named name volumes = any (λ v. v.name == name) volumes

-- The loop over the other patch's volumes: the map `vok` as the names that it holds, and the volumes.
unfoldable pub merge_volumes : List String × List Volume → List Volume → List String × List Volume
unfolding is_inter_volume
merge_volumes (ok_names, own) [] = (ok_names, own)
merge_volumes (ok_names, own) (v ∷ vs) =
    let skipped = merge_volumes (ok_names, own) vs in
    let added = merge_volumes (v.name ∷ ok_names, own ++ v ∷ []) vs in
    if is_inter_volume v.name || is_named v.name own then skipped else added

-- The loops over the mounts and the devices.
unfoldable pub merge_uses : List String → List VolumeUse → List VolumeUse → List VolumeUse
merge_uses ok_names own [] = own
merge_uses ok_names own (u ∷ us) =
    let skipped = merge_uses ok_names own us in
    let added = merge_uses ok_names (own ++ u ∷ []) us in
    if any (λ name. name == u.name) ok_names then added else skipped

abbrev pub merge_volumes_by :
    Option (List Volume) → Option (List Volume) → List String × Option (List Volume)
merge_volumes_by own none = ([], own)
merge_volumes_by own (some vs) =
    let (ok_names, merged) = merge_volumes ([], list_of own) vs in (ok_names, some merged)

abbrev pub merge_uses_by :
    List String → Option (List VolumeUse) → Option (List VolumeUse) → Option (List VolumeUse)
merge_uses_by ok_names own none = own
merge_uses_by ok_names own (some us) = some (merge_uses ok_names (list_of own) us)

-- Merge: the test of the readiness probe is written twice, and the startup probe stays.
unfoldable pub merge : MountPodPatch → MountPodPatch → MountPodPatch
unfolding merge_volumes merge_uses
merge own other =
    let (ok_names, volumes) = merge_volumes_by own.volumes other.volumes in
    record own {
      mount_image = other.mount_image;
      host_network = or_else other.host_network own.host_network;
      host_pid = or_else other.host_pid own.host_pid;
      liveness_probe = or_else other.liveness_probe own.liveness_probe;
      readiness_probe = or_else other.readiness_probe own.readiness_probe;
      lifecycle = or_else other.lifecycle own.lifecycle;
      labels = or_else other.labels own.labels;
      annotations = or_else other.annotations own.annotations;
      resources = or_else other.resources own.resources;
      grace_period = or_else other.grace_period own.grace_period;
      volumes = volumes;
      volume_mounts = merge_uses_by ok_names own.volume_mounts other.volume_mounts;
      volume_devices = merge_uses_by ok_names own.volume_devices other.volume_devices;
      env = or_else other.env own.env;
      mount_options = or_else other.mount_options own.mount_options;
    }
