-- ===== src/Node/Race.antt =====
-- Requests of the node service of pkg/dingofs-driver/node.go that run at the same time: lock and unlock
-- are its atomic steps, since both hold the mutex.
use dingofs_csi.Common.{
  ℕ, suc, ◌≤◌, String, Bool, true, false, List, [], ◌∷◌, Option, none, some, ◌≡◌, refl, sym, ap,
  ◌∙◌, ◌↔◌, arith, eq_iff, ◌==◌, inl, inr, Bool-cases, eq_of_==, if◌then◌else◌, lookup,
  lookup-insert, lookup-delete,
}
use dingofs_csi.Node.{NodeState, lock, unlock, set_target}

-- How many requests for this target are between lock and unlock.
unfoldable pub running_on : String → List String → ℕ
running_on target [] = 0
running_on target (t ∷ ts) =
    if t == target then suc (running_on target ts) else running_on target ts

-- One request for this target less.
unfoldable pub without_one : String → List String → List String
without_one target [] = []
without_one target (t ∷ ts) = if t == target then ts else t ∷ without_one target ts

-- The requests in progress and the state, after requests that began, were refused, ended or worked.
pub data Reached {W : Type 0} : List String → NodeState W → Type 0 where
  start : (s : NodeState W) → s.targets ≡ [] → Reached [] s
  begin :
      {ts : List String} {s : NodeState W} (target : String)
      → Reached ts s
      → (lock target s).0 ≡ true
      → Reached (target ∷ ts) (lock target s).1
  refuse :
      {ts : List String} {s : NodeState W} (target : String)
      → Reached ts s
      → (lock target s).0 ≡ false
      → Reached ts (lock target s).1
  work :
      {ts : List String} {s t : NodeState W} → Reached ts s → t.targets ≡ s.targets → Reached ts t
  end :
      {ts : List String} {s : NodeState W} (target : String) (n : ℕ)
      → Reached ts s
      → running_on target ts ≡ suc n
      → Reached (without_one target ts) (unlock target s)

-- The number of requests that the table allows.
abbrev pub allowed : Option Bool → ℕ
allowed none = 0
allowed (some b) = 1

running_on-without_one :
    (target other : String) (ts : List String) (n : ℕ)
    → running_on target ts ≡ suc n
    → running_on other (without_one target ts)
      ≡ (if target == other then n else running_on other ts)
unfolding running_on without_one
running_on-without_one target other [] n e = ground arith
running_on-without_one target other (t ∷ ts) n e = ground (
  arith,
  eq_iff t target,
  eq_iff t other,
  eq_iff target other,
  running_on-without_one target other ts n,
)

set_target-free :
    {W : Type 0} (target other : String) (s : NodeState W) (o : Option Bool)
    → lookup target s.targets ≡ o
    → (set_target target o s).0 ≡ true
    → (o ≡ none)
      × (lookup other (set_target target o s).1.targets
          ≡ (if target == other then some true else lookup other s.targets))
set_target-free target other s none l e = (refl, lookup-insert target other true s.targets)
set_target-free target other s (some b) l e = absurd cc

set_target-busy :
    {W : Type 0} (target : String) (s : NodeState W) (o : Option Bool)
    → (set_target target o s).0 ≡ false
    → (set_target target o s).1 ≡ s
set_target-busy target s none e = absurd cc
set_target-busy target s (some b) e = refl

-- In every state that requests in any order reach, the requests in progress for a target are
-- those that the table allows.
Reached-allowed :
    {W : Type 0} {ts : List String} {s : NodeState W}
    → Reached ts s
    → (target : String) → running_on target ts ≡ allowed (lookup target s.targets)
unfolding lock unlock running_on lookup
Reached-allowed (start s e) target = rw (e, lookup) refl
Reached-allowed (begin {ts} {s} t r e) target =
    let (free, now) = set_target-free t target s (lookup t s.targets) refl e in
    let before = Reached-allowed r target in
    elim (Bool-cases (t == target)) [
      | inr c ↦ rw (now, c) before
      | inl c ↦
          let unused : lookup target s.targets ≡ none =
            ap (λ x. lookup x s.targets) (sym (eq_of_== t target c)) ∙ free in
          rw (now, c) (ap suc (before ∙ ap allowed unused))
    ]
Reached-allowed (refuse {ts} {s} t r e) target =
    rw (set_target-busy t s (lookup t s.targets) e) (Reached-allowed r target)
Reached-allowed (work {ts} {s} {t} r e) target = rw e (Reached-allowed r target)
Reached-allowed (end {ts} {s} t n r e) target =
    let gone = lookup-delete t target s.targets in
    let left = running_on-without_one t target ts n e in
    let before = Reached-allowed r target in
    elim (Bool-cases (t == target)) [
      | inr c ↦ rw (gone, left, c) before
      | inl c ↦ rw (gone, left, c) (last_one n (lookup t s.targets) (sym e ∙ Reached-allowed r t))
    ]
  where
    last_one : (n : ℕ) (o : Option Bool) → suc n ≡ allowed o → n ≡ 0
    last_one n none e = omega (arith, e)
    last_one n (some b) e = omega (arith, e)

-- Whatever requests run at the same time, and however their steps interleave, at most one is in
-- progress for a target, and a request for it is let in exactly when none is.
pub Reached-exclusive :
    {W : Type 0} {ts : List String} {s : NodeState W}
    → Reached ts s
    → (target : String)
    → (running_on target ts ≤ 1) × (((lock target s).0 ≡ true) ↔ (running_on target ts ≡ 0))
unfolding lock
Reached-exclusive {ts} {s} r target =
    by (lookup target s.targets) (running_on target ts) (Reached-allowed r target)
  where
    by :
        (o : Option Bool) (n : ℕ)
        → n ≡ allowed o
        → (n ≤ 1) × (((set_target target o s).0 ≡ true) ↔ (n ≡ 0))
    by none n e = (omega (arith, e), ((λ _. e), λ _. refl))
    by (some b) n e = (omega (arith, e), ((λ f. absurd cc), λ z. absurd (omega (arith, e, z))))
