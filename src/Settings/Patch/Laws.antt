-- ===== src/Settings/Patch/Laws.antt =====
-- What Merge of pkg/config/dfs_setting.go keeps true of a patch's volumes and of what uses them.
use dingofs_csi.Common.{
  String, true, false, ◌||◌, List, [], ◌∷◌, ◌++◌, Option, none, some, ◌≡◌, refl, arith, ◌==◌,
  ==_refl, eq_iff, any, All, All-map, any-append, All-append, Bool-cases, inl, inr, if_cases,
}
use mathlib.Core.Path.{subst}
use dingofs_csi.Settings.{Volume, VolumeUse, MountPodPatch}
use dingofs_csi.Settings.Patch.{
  is_inter_volume, list_of, is_named, merge_volumes, merge_uses, merge_volumes_by, merge_uses_by,
  merge,
}

-- No two volumes have one name.
abbrev pub AreDistinct : List Volume → Type 0
AreDistinct [] = Unit {0}
AreDistinct (v ∷ vs) = (is_named v.name vs ≡ false) × AreDistinct vs

-- Every mount, or device, names a volume.
abbrev pub AreKnown : List Volume → List VolumeUse → Type 0
AreKnown volumes uses = All (λ u. is_named u.name volumes ≡ true) uses

abbrev pub IsCoherent : MountPodPatch → Type 0
IsCoherent patch =
    AreDistinct (list_of patch.volumes)
    × AreKnown (list_of patch.volumes) (list_of patch.volume_mounts)
    × AreKnown (list_of patch.volumes) (list_of patch.volume_devices)

-- All these names are volumes.
abbrev Named : List Volume → List String → Type 0
Named volumes names = All (λ name. is_named name volumes ≡ true) names

is_named-append :
    (name : String) (v : Volume) (own : List Volume)
    → is_named name own ≡ true
    → is_named name (own ++ v ∷ []) ≡ true
is_named-append name v own e = rw (any-append (λ w. w.name == name) own (v ∷ []), e) refl

is_named-last : (v : Volume) (own : List Volume) → is_named v.name (own ++ v ∷ []) ≡ true
is_named-last v own =
    ground (arith, any-append (λ w. w.name == v.name) own (v ∷ []), ==_refl v.name)

distinct-append :
    (v : Volume) (own : List Volume)
    → is_named v.name own ≡ false
    → AreDistinct own
    → AreDistinct (own ++ v ∷ [])
distinct-append v [] e d = (refl, tt)
distinct-append v (w ∷ ws) e (f, d) = (
  ground (
    arith,
    any-append (λ x. x.name == w.name) ws (v ∷ []),
    eq_iff w.name v.name,
    eq_iff v.name w.name,
  ),
  distinct-append v ws (ground (arith, eq_iff w.name v.name)) d,
)

-- What the loop over the volumes keeps.
abbrev Merged : List Volume → List String × List Volume → Type 0
Merged own (names, volumes) =
    Named volumes names
    × AreDistinct volumes
    × ((name : String) → is_named name own ≡ true → is_named name volumes ≡ true)

merge_volumes-Merged :
    (names : List String) (own vs : List Volume)
    → Named own names
    → AreDistinct own
    → Merged own (merge_volumes (names, own) vs)
unfolding merge_volumes
merge_volumes-Merged names own [] k d = (k, d, λ name e. e)
merge_volumes-Merged names own (v ∷ vs) k d =
    if_cases (Merged own) (is_inter_volume v.name || is_named v.name own) _ _
      (λ _. merge_volumes-Merged names own vs k d)
      (λ fresh.
        let e : is_named v.name own ≡ false = ground (arith, fresh) in
        let grown =
          All-map (λ name. is_named name own ≡ true) (λ name. is_named name (own ++ v ∷ []) ≡ true)
            names (λ name f. is_named-append name v own f) k in
        let (k', d', mono) =
          merge_volumes-Merged (v.name ∷ names) (own ++ v ∷ []) vs (is_named-last v own, grown)
            (distinct-append v own e d) in
        (k', d', λ name f. mono name (is_named-append name v own f)))

any-Named :
    (volumes : List Volume) (names : List String) (name : String)
    → Named volumes names
    → any (λ n. n == name) names ≡ true
    → is_named name volumes ≡ true
any-Named volumes [] name k e = absurd cc
any-Named volumes (n ∷ ns) name (f, k) e = elim (Bool-cases (n == name)) [
  | inl same ↦ subst (λ x. is_named x volumes ≡ true) ((eq_iff n name).0 same) f
  | inr other ↦ any-Named volumes ns name k (ground (arith, other))
]

merge_uses-AreKnown :
    (volumes : List Volume) (names : List String) (own us : List VolumeUse)
    → Named volumes names
    → AreKnown volumes own
    → AreKnown volumes (merge_uses names own us)
unfolding merge_uses
merge_uses-AreKnown volumes names own [] k a = a
merge_uses-AreKnown volumes names own (u ∷ us) k a =
    if_cases (AreKnown volumes) (any (λ n. n == u.name) names) _ _
      (λ e.
        merge_uses-AreKnown volumes names (own ++ u ∷ []) us k
          (All-append _ own (u ∷ []) a (any-Named volumes names u.name k e, tt)))
      (λ _. merge_uses-AreKnown volumes names own us k a)

by_uses-AreKnown :
    (volumes : List Volume) (names : List String) (own other : Option (List VolumeUse))
    → Named volumes names
    → AreKnown volumes (list_of own)
    → AreKnown volumes (list_of (merge_uses_by names own other))
by_uses-AreKnown volumes names own none k a = a
by_uses-AreKnown volumes names own (some us) k a = merge_uses-AreKnown volumes names _ us k a

by_volumes-Merged :
    (own other : Option (List Volume))
    → AreDistinct (list_of own)
    → Merged (list_of own) ((merge_volumes_by own other).0, list_of (merge_volumes_by own other).1)
by_volumes-Merged own none d = (tt, d, λ name e. e)
by_volumes-Merged own (some vs) d = merge_volumes-Merged [] (list_of own) vs tt d

-- If the volumes of a patch have distinct names and its mounts and devices name volumes of it,
-- then the same holds of it after Merge with any other patch.
merge-IsCoherent : (own other : MountPodPatch) → IsCoherent own → IsCoherent (merge own other)
unfolding merge
merge-IsCoherent own other (d, mounts, devices) =
    let (k, d', mono) = by_volumes-Merged own.volumes other.volumes d in
    let volumes = list_of (merge_volumes_by own.volumes other.volumes).1 in
    let still = λ (uses : List VolumeUse) (a : AreKnown (list_of own.volumes) uses).
      All-map (λ u. is_named u.name (list_of own.volumes) ≡ true)
        (λ u. is_named u.name volumes ≡ true) uses (λ u f. mono u.name f) a in
    (
      d',
      by_uses-AreKnown volumes _ own.volume_mounts other.volume_mounts k (still _ mounts),
      by_uses-AreKnown volumes _ own.volume_devices other.volume_devices k (still _ devices),
    )
