-- ===== src/Builder/Names.antt =====
-- The mounts of a mount pod name its volumes.
use dingofs_csi.Common.{
  ℕ, ◌+◌, String, Bool, true, false, List, [], ◌∷◌, ◌++◌, Option, none, some, ◌≡◌, refl, if_cases,
  arith, keep, All, All-append, All-map,
}
use dingofs_csi.Common.Exec.{Result, ok, err, pure, raise, Meets, Meets-pure, Meets-bind}
use dingofs_csi.Kube.Host.{Host}
use dingofs_csi.Builder.{
  BuildSetting, MountPod, gen_common_pod, add_volumes, config_volume, config_mount, finish_pod,
  init_fuse_config, new_mount_pod,
}
use dingofs_csi.Builder.Volumes.{
  PodVolume, MountOf, EmptyDir, VolumeSource, VolumeSetting, volumes_from, mounts_from,
  empty_volumes, empty_mounts, cache_volumes, cache_mounts, host_volumes, host_mounts, pod_volumes,
  pod_mounts, is_disk, volumes_if, mounts_if, dfs_volumes, dfs_mounts, update_volumes,
  update_mounts,
}

-- A volume of the list has the name.
pub data Names (name : String) : List PodVolume → Type 0 where
  first : (v : PodVolume) (vs : List PodVolume) → v.name ≡ name → Names name (v ∷ vs)
  next : (v : PodVolume) (vs : List PodVolume) → Names name vs → Names name (v ∷ vs)

-- Every mount names a volume of the list.
abbrev pub AreNamed : List PodVolume → List MountOf → Type 0
AreNamed volumes = All (λ m. Names m.name volumes)

Names-left : (name : String) (vs ws : List PodVolume) → Names name vs → Names name (vs ++ ws)
Names-left name [] ws n = elim n [ ]
Names-left name (v ∷ vs) ws (first _ _ e) = first v (vs ++ ws) e
Names-left name (v ∷ vs) ws (next _ _ n) = next v (vs ++ ws) (Names-left name vs ws n)

Names-right : (name : String) (vs ws : List PodVolume) → Names name ws → Names name (vs ++ ws)
Names-right name [] ws n = n
Names-right name (v ∷ vs) ws n = next v (vs ++ ws) (Names-right name vs ws n)

-- Two lists of volumes, each with the mounts that name them.
AreNamed-append :
    (vs ws : List PodVolume) (ms ns : List MountOf)
    → AreNamed vs ms
    → AreNamed ws ns
    → AreNamed (vs ++ ws) (ms ++ ns)
AreNamed-append vs ws ms ns h k =
    All-append _ ms ns (All-map _ _ ms (λ m. Names-left m.name vs ws) h)
      (All-map _ _ ns (λ m. Names-right m.name vs ws) k)

from-AreNamed :
    {A : Type 0} (decimal : ℕ → String) (stem : String) (source : A → VolumeSource)
    (path : A → String) (n : ℕ) (xs : List A)
    → AreNamed (volumes_from decimal stem source n xs) (mounts_from decimal stem path n xs)
unfolding volumes_from mounts_from
from-AreNamed decimal stem source path n [] = tt
from-AreNamed decimal stem source path n (x ∷ xs) = (
  first _ _ refl,
  All-map _ _ (mounts_from decimal stem path (n + 1) xs) (λ m. next _ _)
      (from-AreNamed decimal stem source path (n + 1) xs),
)

empty-AreNamed : (d : Option EmptyDir) → AreNamed (empty_volumes d) (empty_mounts d)
empty-AreNamed none = tt
empty-AreNamed (some d) = (first _ _ refl, tt)

if-AreNamed :
    (b : Bool) (v : PodVolume) (m : MountOf)
    → v.name ≡ m.name
    → AreNamed (volumes_if b v) (mounts_if b m)
if-AreNamed true v m e = (first v [] e, tt)
if-AreNamed false v m e = tt

update-AreNamed : (b : Bool) → AreNamed (update_volumes b) (update_mounts b)
update-AreNamed true = tt
update-AreNamed false = (first _ _ refl, tt)

Names-keep :
    (name : String) (vs : List PodVolume)
    → is_disk name ≡ true
    → Names name vs
    → Names name (keep (λ v. is_disk v.name) vs)
Names-keep name [] d n = elim n [ ]
Names-keep name (v ∷ vs) d (first _ _ e) =
    let f : is_disk v.name ≡ true = rw e d in rw f (first v _ e)
Names-keep name (v ∷ vs) d (next _ _ n) =
    if_cases (Names name) (is_disk v.name) (v ∷ keep (λ w. is_disk w.name) vs)
      (keep (λ w. is_disk w.name) vs) (λ _. next v _ (Names-keep name vs d n))
      λ _. Names-keep name vs d n

keep-AreNamed :
    (vs : List PodVolume) (ms : List MountOf)
    → AreNamed vs ms
    → AreNamed (keep (λ v. is_disk v.name) vs) (keep (λ m. is_disk m.name) ms)
keep-AreNamed vs [] h = tt
keep-AreNamed vs (m ∷ ms) (n, ns) =
    if_cases (AreNamed (keep (λ v. is_disk v.name) vs)) (is_disk m.name)
      (m ∷ keep (λ x. is_disk x.name) ms) (keep (λ x. is_disk x.name) ms)
      (λ d. (Names-keep m.name vs d n, keep-AreNamed vs ms ns)) λ _. keep-AreNamed vs ms ns

module _ (st : VolumeSetting) where
  dfs-AreNamed : AreNamed st.csi_volumes st.csi_mounts → AreNamed (dfs_volumes st) (dfs_mounts st)
  unfolding dfs_volumes dfs_mounts
  dfs-AreNamed h = AreNamed-append _ _ _ _ (keep-AreNamed st.csi_volumes st.csi_mounts h) (
      AreNamed-append _ _ _ _ (if-AreNamed st.has_rsa_key _ _ refl) (
        AreNamed-append _ _ _ _ (if-AreNamed st.has_init_config _ _ refl)
          (from-AreNamed st.decimal "config-" _ _ 1 st.configs)))

  cache-AreNamed : AreNamed (cache_volumes st) (cache_mounts st)
  unfolding cache_volumes cache_mounts
  cache-AreNamed =
      AreNamed-append _ _ _ _ (from-AreNamed st.decimal "cachedir-" _ _ 0 st.cache_dirs) (
        AreNamed-append _ _ _ _ (from-AreNamed st.decimal "cachedir-pvc-" _ _ 0 st.cache_claims) (
          AreNamed-append _ _ _ _ (empty-AreNamed st.cache_empty_dir)
            (from-AreNamed st.decimal "cachedir-inline-volume-" _ _ 0 st.cache_inline_volumes)))

  host-AreNamed : AreNamed (host_volumes st) (host_mounts st)
  unfolding host_volumes host_mounts
  host-AreNamed = from-AreNamed st.decimal "hostpath-" _ _ 0 st.host_paths

  pod-AreNamed : AreNamed (pod_volumes st) (pod_mounts st)
  unfolding pod_volumes pod_mounts
  pod-AreNamed = (
    first _ _ refl,
    (
      next _ _ (first _ _ refl),
      All-map _ _ (update_mounts st.immutable) (λ m n. next _ _ (next _ _ n))
          (update-AreNamed st.immutable),
    ),
  )

-- A pod whose mounts and devices name its volumes.
abbrev pub IsWired : MountPod → Type 0
IsWired p = AreNamed p.volumes p.mounts × AreNamed p.volumes p.devices

module _ (st : BuildSetting) where
  finish-AreNamed :
      (pod_name : String) (p : MountPod)
      → AreNamed st.own_volumes st.own_mounts
      → AreNamed p.volumes p.mounts
      → AreNamed (finish_pod st pod_name p).volumes (finish_pod st pod_name p).mounts
  unfolding finish_pod
  finish-AreNamed pod_name p own h =
      AreNamed-append _ _ _ _
        (AreNamed-append _ _ _ _
          (AreNamed-append _ _ _ _ (AreNamed-append _ _ _ _ h (pod-AreNamed st.volumes))
            (cache-AreNamed st.volumes))
          (host-AreNamed st.volumes))
        own

  finish-devices :
      (pod_name : String) (p : MountPod)
      → AreNamed st.own_volumes st.own_devices
      → p.devices ≡ []
      → AreNamed (finish_pod st pod_name p).volumes (finish_pod st pod_name p).devices
  unfolding finish_pod
  finish-devices pod_name p own e = rw e (
      All-map _ _ st.own_devices
        (λ m.
          Names-right m.name
            ((((p.volumes ++ pod_volumes st.volumes) ++ cache_volumes st.volumes)
              ++ host_volumes st.volumes))
            st.own_volumes)
        own)

  configured-IsWired :
      (pod_name : String)
      → AreNamed st.volumes.csi_volumes st.volumes.csi_mounts
      → AreNamed st.own_volumes st.own_mounts
      → AreNamed st.own_volumes st.own_devices
      → IsWired
          (finish_pod st pod_name (add_volumes config_volume config_mount (gen_common_pod st)))
  unfolding gen_common_pod
  configured-IsWired pod_name csi own devices = (
    finish-AreNamed pod_name _ own
        (AreNamed-append _ _ _ _ (dfs-AreNamed st.volumes csi) (first _ _ refl, tt)),
    finish-devices pod_name _ devices refl,
  )

abbrev pub WiredIfMade : Result MountPod → Type 0
WiredIfMade (ok p) = IsWired p
WiredIfMade (err e) = Unit {0}

init-made :
    {W : Type 0} (h : Host W) (st : BuildSetting) (p : MountPod)
    → Meets
        (λ s. Unit {0})
        (init_fuse_config h st p)
        (λ r s. (q : MountPod) → r ≡ ok q → q ≡ add_volumes config_volume config_mount p)
unfolding init_fuse_config pure raise
init-made h st p =
    Meets-bind (λ r s. Unit {0}) _ _ (record { at = λ s u. tt })
      (λ r.
        Meets-bind (λ a s. Unit {0}) _ _ (record { at = λ s u. tt })
          (λ u. Meets-pure _ _ _ (λ s v q e. ground arith)) λ e s u q f. absurd (cc))
      λ e s u q f. absurd (cc)

-- If the mounts of the driver's own pod name its volumes, and the mounts and the devices of the
-- setting name volumes of the setting, then every mount and every device of a pod that
-- NewMountPod makes names a volume of that pod.
pub new_mount_pod-IsWired :
    {W : Type 0} (h : Host W) (st : BuildSetting) (pod_name : String)
    → AreNamed st.volumes.csi_volumes st.volumes.csi_mounts
    → AreNamed st.own_volumes st.own_mounts
    → AreNamed st.own_volumes st.own_devices
    → Meets (λ s. Unit {0}) (new_mount_pod h st pod_name) (λ r s. WiredIfMade r)
unfolding new_mount_pod
new_mount_pod-IsWired h st pod_name csi own devices =
    Meets-bind _ _ _ (init-made h st (gen_common_pod st))
      (λ p.
        Meets-pure _ _ _
          (λ s made. rw (made p refl) (configured-IsWired st pod_name csi own devices)))
      λ e s u. tt
