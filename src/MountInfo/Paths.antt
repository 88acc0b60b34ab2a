-- ===== src/MountInfo/Paths.antt =====
-- The pod's UID and the volume's name in a target path: getPodUid and getPVName of
-- pkg/controller/mountinfo.go.
use dingofs_csi.Common.{
  ℕ, zero, suc, ◌+◌, String, List, [], ◌∷◌, Option, none, some, ◌≡◌, refl, split, trim_suffix,
  trim_prefix, last_index, index, drop_text, take_text,
}

abbrev pub container_csi_directory : String
container_csi_directory = "volumes/kubernetes.io~csi"

-- `index <= 0` gives the empty text.
unfoldable pub after_slash : Option ℕ → String → String
unfolding drop_text
after_slash none dir = ""
after_slash (some zero) dir = ""
after_slash (some (suc i)) dir = drop_text (suc i + 1) dir

unfoldable pub before_slash : Option ℕ → String → String
unfolding take_text
before_slash none name = ""
before_slash (some zero) name = ""
before_slash (some (suc i)) name = take_text (suc i) name

unfoldable pub uid_of : List String → String
unfolding after_slash last_index trim_suffix
uid_of (dir ∷ rest ∷ []) =
    let pod_dir = trim_suffix dir "/" in after_slash (last_index pod_dir "/") pod_dir
uid_of _ = ""

unfoldable pub get_pod_uid : String → String
unfolding uid_of split
get_pod_uid target = uid_of (split target container_csi_directory)

unfoldable pub pv_of : List String → String
unfolding before_slash index trim_prefix
pv_of (dir ∷ rest ∷ []) = let name = trim_prefix rest "/" in before_slash (index name "/") name
pv_of _ = ""

unfoldable pub get_pv_name : String → String
unfolding pv_of split
get_pv_name target = pv_of (split target container_csi_directory)

-- `podDir` of resolveTarget.
unfoldable pub dir_of : List String → String
unfolding trim_suffix
dir_of (dir ∷ rest ∷ []) = trim_suffix dir "/"
dir_of _ = ""

unfoldable pub pod_dir : String → String
unfolding dir_of split
pod_dir target = dir_of (split target container_csi_directory)

abbrev sample : String
sample = "/var/lib/kubelet/pods/1234-ab/volumes/kubernetes.io~csi/pvc-9/mount"

sample_uid : get_pod_uid sample ≡ "1234-ab"
unfolding get_pod_uid
sample_uid = refl

sample_pv : get_pv_name sample ≡ "pvc-9"
unfolding get_pv_name
sample_pv = refl

sample_dir : pod_dir sample ≡ "/var/lib/kubelet/pods/1234-ab"
unfolding pod_dir
sample_dir = refl

foreign : get_pod_uid "/mnt/other" ≡ ""
unfolding get_pod_uid
foreign = refl
