-- ===== src/MountInfo/Laws.antt =====
-- The records and the deletion states of pkg/controller/mountinfo.go against their descriptions.
use dingofs_csi.Common.{
  ℕ, zero, suc, ◌+◌, String, Bool, true, false, ◌&&◌, List, [], ◌∷◌, Option, none, some, ◌≡◌, refl,
  inl, inr, ◌∙◌, arith, if◌then◌else◌, ◌==◌, ==_refl, eq_of_==, sym, ap, eq_iff, lookup, insert,
  lookup-insert, Bool-cases, Option-cases,
}
use mathlib.Core.Path.{subst}
use dingofs_csi.Kube.{Pod}
use dingofs_csi.Kube.Host.{MountInfo}
use dingofs_csi.MountInfo.{
  MountInfoTable, TargetItem, set_pods_status, statuses_from, matches_path, first_record,
  next_record, add_record, records_from,
}

-- How many mounts on this mount point match the path.
pub mounts_on : String → Bool → String → List MountInfo → ℕ
mounts_on path is_prefix at [] = 0
mounts_on path is_prefix at (mi ∷ mis) =
    let rest = mounts_on path is_prefix at mis in
    if matches_path path is_prefix mi && mi.mount_point == at then suc rest else rest

-- The number that a record has, with the mount point that it names; none where there is no record.
pub counted : Option TargetItem → Option (String × ℕ)
counted none = none
counted (some r) = some (r.target, r.count)

-- What stands there after so many mounts more.
pub counted_more : (at : String) → ℕ → Option (String × ℕ) → Option (String × ℕ)
counted_more at zero o = o
counted_more at (suc n) none = some (at, suc n)
counted_more at (suc n) (some (target, m)) = some (target, m + suc n)

counted_more-one :
    (at : String) (n : ℕ) (o : Option (String × ℕ))
    → counted_more at n (counted_more at 1 o) ≡ counted_more at (suc n) o
unfolding counted_more
counted_more-one at zero none = refl
counted_more-one at zero (some (target, m)) = refl
counted_more-one at (suc n) none = ap (λ m. some (at, m)) (omega arith)
counted_more-one at (suc n) (some (target, m)) = ap (λ x. some (target, x)) (omega arith)

counted-add_record :
    (at : String) (mi : MountInfo) (rs : List (String × TargetItem))
    → counted (lookup at (add_record mi rs)) ≡ (
        if mi.mount_point == at
        then counted_more at 1 (counted (lookup at rs))
        else counted (lookup at rs))
unfolding add_record counted counted_more first_record next_record
counted-add_record at mi rs = elim (Option-cases (lookup mi.mount_point rs)) [
  | inl e ↦
      rw (e, add_record)
        (ground
          (arith, lookup-insert mi.mount_point at (first_record mi) rs, eq_iff mi.mount_point at))
  | inr (r, e) ↦
      rw (e, add_record)
        (ground
          (arith, lookup-insert mi.mount_point at (next_record mi r) rs, eq_iff mi.mount_point at))
]

counted-records_from :
    (path : String) (is_prefix : Bool) (at : String) (rs : List (String × TargetItem))
    (mis : List MountInfo)
    → counted (lookup at (records_from path is_prefix rs mis))
      ≡ counted_more at (mounts_on path is_prefix at mis) (counted (lookup at rs))
unfolding records_from mounts_on counted_more
counted-records_from path is_prefix at rs [] = refl
counted-records_from path is_prefix at rs (mi ∷ mis) =
    let n = mounts_on path is_prefix at mis in
    let added = counted-records_from path is_prefix at (add_record mi rs) mis in
    elim (Bool-cases (matches_path path is_prefix mi)) [
      | inr e ↦ rw e (counted-records_from path is_prefix at rs mis)
      | inl e ↦ elim (Bool-cases (mi.mount_point == at)) [
        | inl f ↦
            rw (e, f)
              (added
                ∙ ap (counted_more at n) (counted-add_record at mi rs ∙ rw f refl)
                ∙ counted_more-one at n (counted (lookup at rs)))
        | inr f ↦
            rw (e, f) (added ∙ ap (counted_more at n) (counted-add_record at mi rs ∙ rw f refl))
      ]
    ]

-- The records of resolveTargetItem count the mounts: under a mount point stands a record exactly
-- where a matching mount is on it, and this record names the mount point and has the number of
-- such mounts.
pub counted-records :
    (path : String) (is_prefix : Bool) (at : String) (mis : List MountInfo)
    → counted (lookup at (records_from path is_prefix [] mis))
      ≡ counted_more at (mounts_on path is_prefix at mis) none
unfolding lookup counted
counted-records path is_prefix at mis = counted-records_from path is_prefix at [] mis

-- All records are of this one mount point, and there is at most one.
abbrev pub IsOnly : String → List (String × TargetItem) → Type 0
IsOnly path [] = Unit {0}
IsOnly path ((k, r) ∷ []) = (k ≡ path) × (r.target ≡ path)
IsOnly path (a ∷ b ∷ rs) = ⊥

add_record-IsOnly :
    (mi : MountInfo) (rs : List (String × TargetItem))
    → IsOnly mi.mount_point rs
    → IsOnly mi.mount_point (add_record mi rs)
unfolding add_record lookup insert first_record next_record
add_record-IsOnly mi [] o = (refl, refl)
add_record-IsOnly mi ((k, r) ∷ []) (e, t) =
    let same : (k == mi.mount_point) ≡ true = rw e (==_refl mi.mount_point) in ground (arith, same)
add_record-IsOnly mi (a ∷ b ∷ rs) o = absurd o

records_from-IsOnly :
    (path : String) (rs : List (String × TargetItem)) (mis : List MountInfo)
    → IsOnly path rs
    → IsOnly path (records_from path false rs mis)
unfolding records_from matches_path
records_from-IsOnly path rs [] o = o
records_from-IsOnly path rs (mi ∷ mis) o = elim (Bool-cases (path == mi.mount_point)) [
  | inl e ↦
      let same = eq_of_== path mi.mount_point e in
      rw e (
        records_from-IsOnly path (add_record mi rs) mis (
          subst (λ q. IsOnly q (add_record mi rs)) (sym same)
            (add_record-IsOnly mi rs (subst (λ q. IsOnly q rs) same o))))
  | inr e ↦ rw e (records_from-IsOnly path rs mis o)
]

-- For a path that is not a prefix, resolveTargetItem makes at most one record, and that is the
-- record of the path itself.
records-IsOnly :
    (path : String) (mis : List MountInfo) → IsOnly path (records_from path false [] mis)
records-IsOnly path mis = records_from-IsOnly path [] mis tt

-- The deletion state of the last pod of the list with this UID.
pub last_status : String → List Pod → Option Bool
last_status uid [] = none
last_status uid (p ∷ ps) = elim (last_status uid ps) [
  | some b ↦ some b
  | none ↦ if p.uid == uid then some p.deletion_timestamp else none
]

or_else : Option Bool → Option Bool → Option Bool
or_else none o = o
or_else (some b) o = some b

lookup-statuses_from :
    (uid : String) (m : List (String × Bool)) (ps : List Pod)
    → lookup uid (statuses_from m ps) ≡ or_else (last_status uid ps) (lookup uid m)
unfolding statuses_from last_status or_else
lookup-statuses_from uid m [] = refl
lookup-statuses_from uid m (p ∷ ps) =
    rw (lookup-statuses_from uid (insert p.uid p.deletion_timestamp m) ps)
      (rw (lookup-insert p.uid uid p.deletion_timestamp m) (ground arith))

or_else-none : (o : Option Bool) → or_else o none ≡ o
unfolding or_else
or_else-none none = refl
or_else-none (some b) = refl

-- After setPodsStatus, whatever the table held, a UID is in it exactly when a listed pod has it,
-- with the deletion state of the last such pod; a nil list empties the table, and the mounts are
-- kept.
set_pods_status_lem :
    (t : MountInfoTable) (ps : List Pod) (uid : String)
    → (lookup uid (set_pods_status (some ps) t).deleted_pods ≡ last_status uid ps)
      × (lookup uid (set_pods_status none t).deleted_pods ≡ none)
      × ((set_pods_status (some ps) t).mis ≡ t.mis)
unfolding set_pods_status lookup
set_pods_status_lem t ps uid =
    (lookup-statuses_from uid [] ps ∙ or_else-none (last_status uid ps), refl, refl)
