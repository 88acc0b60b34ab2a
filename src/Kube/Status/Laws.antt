-- ===== src/Kube/Status/Laws.antt =====
-- The tests of pkg/util/resource/pod.go on a pod's state against what they stand for.
use dingofs_csi.Common.{
  ℕ, suc, ◌+◌, ◌≤◌, Bool, true, false, List, [], ◌∷◌, none, some, ◌≡◌, refl, ◌≢◌, ◌↔◌, inl, inr,
  arith, Bool-cases, All, any, ◌⊎◌, not, map, ◌&&◌, if◌then◌else◌, is_empty,
}
use dingofs_csi.Kube.{holds, ConditionKind, containers_ready, pod_ready, Condition, Pod, Container}
use dingofs_csi.Kube.Status.{
  conditions_true, is_pod_ready, is_pod_error, is_pod_has_resource, delete_resource_of_pod,
  get_pod_status, clear_resources, is_true, ready, errored, deleted, pending,
}

-- Conditions of a pod have distinct types.
abbrev pub Fresh : ConditionKind → List Condition → Type 0
Fresh k cs = All (λ c. c.kind ≢ k) cs

abbrev pub HasDistinctKinds : List Condition → Type 0
HasDistinctKinds [] = Unit
HasDistinctKinds (c ∷ cs) = Fresh c.kind cs × HasDistinctKinds cs

-- Some condition of this type holds.
abbrev pub Holds : ConditionKind → List Condition → Type 0
Holds k [] = ⊥
Holds k (c ∷ cs) = ((c.kind ≡ k) × (c.status ≡ holds)) ⊎ Holds k cs

abbrev same_kind : ConditionKind → ConditionKind → Bool
same_kind containers_ready containers_ready = true
same_kind pod_ready pod_ready = true
same_kind _ _ = false

count_true : ConditionKind → List Condition → ℕ
count_true k [] = 0
count_true k (c ∷ cs) =
    let rest = count_true k cs in if is_true c.status && same_kind k c.kind then suc rest else rest

-- The two types that IsPodReady counts.
data IsCounted : ConditionKind → Type 0 where
  counts_containers : IsCounted containers_ready
  counts_pod : IsCounted pod_ready

conditions_true-split :
    (cs : List Condition)
    → conditions_true cs ≡ count_true containers_ready cs + count_true pod_ready cs
unfolding conditions_true count_true
conditions_true-split [] = omega arith
conditions_true-split (c ∷ cs) = ground (arith, conditions_true-split cs)

same_kind-eq : (k j : ConditionKind) → same_kind k j ≡ true → j ≡ k
same_kind-eq containers_ready containers_ready h = refl
same_kind-eq pod_ready pod_ready h = refl
same_kind-eq _ _ h = cc

same_kind_self : {k : ConditionKind} → IsCounted k → same_kind k k ≡ true
same_kind_self counts_containers = refl
same_kind_self counts_pod = refl

count_true-Fresh : (k : ConditionKind) (cs : List Condition) → Fresh k cs → count_true k cs ≡ 0
unfolding count_true
count_true-Fresh k [] h = refl
count_true-Fresh k (c ∷ cs) h = ground (arith, same_kind-eq k c.kind, count_true-Fresh k cs h.1)

count_true-le :
    (k : ConditionKind) (cs : List Condition) → HasDistinctKinds cs → count_true k cs ≤ 1
unfolding count_true
count_true-le k [] h = omega arith
count_true-le k (c ∷ cs) (fresh, h) = elim (Bool-cases (same_kind k c.kind)) [
  | inl e ↦
      let f : Fresh k cs = rw (← same_kind-eq k c.kind e) fresh in
      ground (arith, count_true-Fresh k cs f)
  | inr e ↦ ground (arith, count_true-le k cs h)
]

Holds-count_true : (k : ConditionKind) (cs : List Condition) → 1 ≤ count_true k cs → Holds k cs
unfolding count_true
Holds-count_true k [] h = absurd (omega arith)
Holds-count_true k (c ∷ cs) h = ground (arith, same_kind-eq k c.kind, Holds-count_true k cs)

count_of_Holds :
    {k : ConditionKind} (cs : List Condition) → IsCounted k → Holds k cs → 1 ≤ count_true k cs
unfolding count_true
count_of_Holds [] i h = absurd h
count_of_Holds {k} (c ∷ cs) i (inl (e, t)) = rw (e, t, same_kind_self i) (omega arith)
count_of_Holds {k} (c ∷ cs) i (inr h) = ground (arith, count_of_Holds cs i h)

-- For a pod whose conditions have distinct types, IsPodReady holds exactly when both the
-- condition ContainersReady and the condition Ready are True.
is_pod_ready_iff :
    (cs : List Condition)
    → HasDistinctKinds cs
    → (is_pod_ready cs ≡ true) ↔ (Holds containers_ready cs × Holds pod_ready cs)
unfolding is_pod_ready
is_pod_ready_iff cs d =
    let split = conditions_true-split cs in
    let a = count_true-le containers_ready cs d in
    let b = count_true-le pod_ready cs d in
    (
      λ h.
          let two : conditions_true cs ≡ 2 = ground arith in
          (
            Holds-count_true containers_ready cs (omega arith),
            Holds-count_true pod_ready cs (omega arith),
          ),
      λ (p, q).
          let one = count_of_Holds cs counts_containers p in
          let other = count_of_Holds cs counts_pod q in
          let two : conditions_true cs ≡ 2 = omega arith in rw two refl,
    )

-- getPodStatus puts deletion before an error and an error before readiness, and a nil pod counts
-- as an error: the four cases are exclusive and cover every pod.
get_pod_status_iff :
    (p : Pod)
    → (get_pod_status none ≡ errored)
      × ((get_pod_status (some p) ≡ deleted) ↔ (p.deletion_timestamp ≡ true))
      × ((get_pod_status (some p) ≡ errored)
          ↔ ((p.deletion_timestamp ≡ false) × (is_pod_error p ≡ true)))
      × ((get_pod_status (some p) ≡ ready) ↔ (
          (p.deletion_timestamp ≡ false)
          × (is_pod_error p ≡ false)
          × (is_pod_ready p.conditions ≡ true)))
      × ((get_pod_status (some p) ≡ pending) ↔ (
          (p.deletion_timestamp ≡ false)
          × (is_pod_error p ≡ false)
          × (is_pod_ready p.conditions ≡ false)))
unfolding get_pod_status
get_pod_status_iff p = ground arith

no_requests :
    (cs : List Container)
    → any (λ c. not (is_empty c.resources.requests)) (map clear_resources cs) ≡ false
unfolding clear_resources
no_requests [] = refl
no_requests (c ∷ cs) = no_requests cs

-- After DeleteResourceOfPod no container requests resources, and getPodStatus gives what it gave
-- before.
is_pod_has_resource-delete_resource_of_pod :
    (p : Pod)
    → (is_pod_has_resource (delete_resource_of_pod p) ≡ false)
      × (get_pod_status (some (delete_resource_of_pod p)) ≡ get_pod_status (some p))
unfolding is_pod_has_resource delete_resource_of_pod get_pod_status is_pod_error
is_pod_has_resource-delete_resource_of_pod p = (no_requests p.spec.containers, refl)
