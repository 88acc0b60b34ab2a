-- ===== src/Controller/Laws.antt =====
-- Statements about the CSI controller service of pkg/dingofs-driver/controller.go.
use dingofs_csi.Common.{
  ℕ, ◌<◌, String, Bool, true, false, List, [], ◌∷◌, Option, none, some, Dict, ◌≡◌, refl, ◌↔◌, ◌⊎◌,
  inl, inr, arith, ap, ◌∙◌, ◌==◌, ==_refl, eq_iff, if◌then◌else◌, any, ltb, lookup, insert, delete,
  lookup-insert, lookup-delete, All, Bool-cases,
}
use mathlib.Core.Path.{subst}
use dingofs_csi.Common.Exec.{Result, ok, err}
use dingofs_csi.Controller.{
  invalid_argument, already_exists, Answer, done, status, AccessMode, single_node_writer,
  multi_node_multi_writer, multi_node_reader_only, Access, mount, Capability, CreateRequest, Volume,
  Provider, ControllerState, has_support, is_valid_volume_capabilities, is_reader_only, is_smaller,
  is_locked, try_acquire, release, volume_of, after_create, quota_answer, create_recorded,
  create_with, create_volume, after_delete, delete_locked, delete_volume,
}

-- What the service supports: a mounted volume in one of three modes.
abbrev pub IsSupported : Capability → Type 0
IsSupported c =
    ((flags : List String) × (c.access ≡ mount flags))
    × ((c.mode ≡ single_node_writer)
        ⊎ (c.mode ≡ multi_node_multi_writer)
        ⊎ (c.mode ≡ multi_node_reader_only))

has_support_iff : (c : Capability) → (has_support c ≡ true) ↔ IsSupported c
unfolding has_support
has_support_iff c =
    (supported c.access c.mode, λ ((flags, e), m). counted c.access c.mode flags e m)
  where
    supported :
        (a : Access) (m : AccessMode)
        → has_support (record { access = a; mode = m }) ≡ true
        → IsSupported (record { access = a; mode = m })
    supported (mount flags) single_node_writer e = ((flags, refl), inl refl)
    supported (mount flags) multi_node_multi_writer e = ((flags, refl), inr (inl refl))
    supported (mount flags) multi_node_reader_only e = ((flags, refl), inr (inr refl))
    supported _ _ e = absurd cc

    counted :
        (a : Access) (m : AccessMode) (flags : List String)
        → a ≡ mount flags
        → (m ≡ single_node_writer) ⊎ (m ≡ multi_node_multi_writer) ⊎ (m ≡ multi_node_reader_only)
        → has_support (record { access = a; mode = m }) ≡ true
    counted a m flags e (inl k) = rw (e, k) refl
    counted a m flags e (inr (inl k)) = rw (e, k) refl
    counted a m flags e (inr (inr k)) = rw (e, k) refl

-- isValidVolumeCapabilities accepts exactly the lists in which every capability is a mounted
-- volume in one of the three supported modes.
is_valid_volume_capabilities_iff :
    (cs : List Capability) → (is_valid_volume_capabilities cs ≡ true) ↔ All IsSupported cs
unfolding is_valid_volume_capabilities
is_valid_volume_capabilities_iff [] = (λ e. tt, λ a. refl)
is_valid_volume_capabilities_iff (c ∷ cs) =
    ground (arith, has_support_iff c, is_valid_volume_capabilities_iff cs)

lookup-delete-insert :
    (id other : String) (m : List (String × Unit {0}))
    → lookup id m ≡ none
    → lookup other (delete id (insert id tt m)) ≡ lookup other m
lookup-delete-insert id other m e =
    ground
      (arith, lookup-delete id other (insert id tt m), lookup-insert id other tt m, eq_iff id other)

module _ {W : Type 0} where
  -- For a volume that is not locked, TryAcquire succeeds, a second TryAcquire then fails and
  -- changes nothing, and Release leaves the locks of all volumes as they were before.
  try_acquire_lem :
      (id other : String) (s : ControllerState W)
      → lookup id s.locks ≡ none
      → ((try_acquire id s).0 ≡ true)
        × (try_acquire id (try_acquire id s).1 ≡ (false, (try_acquire id s).1))
        × (lookup other (release id (try_acquire id s).1).locks ≡ lookup other s.locks)
  unfolding try_acquire release
  try_acquire_lem id other s e =
      let free : try_acquire id s ≡ (true, record s { locks = insert id tt s.locks }) = rw e refl in
      let held : lookup id (insert id tt s.locks) ≡ some tt =
        rw (lookup-insert id id tt s.locks, ==_refl id) refl in
      rw (free, held) (refl, refl, lookup-delete-insert id other s.locks e)

module _ {W Settings : Type 0} (p : Provider W Settings) where
  after_delete-locks :
      (id : String) (s : ControllerState W) (r : Result (Unit {0}))
      → (after_delete p id s r).1.locks ≡ delete id s.locks
  unfolding after_delete release
  after_delete-locks id s (ok x) = refl
  after_delete-locks id s (err e) = refl

  delete_locked-locks :
      (id other : String) (secrets : Dict) (s : ControllerState W) (o : Option (Unit {0}))
      → lookup id s.locks ≡ o
      → lookup other
          (delete_locked p id secrets (
            if is_locked o
            then (false, s)
            else (true, record s { locks = insert id tt s.locks }))).1.locks
        ≡ lookup other s.locks
  unfolding delete_locked
  delete_locked-locks id other secrets s (some u) e = refl
  delete_locked-locks id other secrets s none e =
      ap (lookup other) (after_delete-locks id _ _) ∙ lookup-delete-insert id other s.locks e

  -- DeleteVolume, whatever it answers, leaves the locks of all volumes as it found them.
  delete_volume-locks :
      (id other : String) (secrets : Dict) (s : ControllerState W)
      → lookup other (delete_volume p id secrets s).1.locks ≡ lookup other s.locks
  unfolding delete_volume try_acquire
  delete_volume-locks id other secrets s =
      ground (arith, delete_locked-locks id other secrets s (lookup id s.locks) refl)

  -- What a successful CreateVolume answers and leaves.
  abbrev Created : CreateRequest → ControllerState W → Answer Volume → ControllerState W → Type 0
  Created req s (status c) t = Unit {0}
  Created req s (done v) t =
      (v ≡ volume_of p req)
      × (t.vols ≡ insert req.name req.required_bytes s.vols)
      × ((req.name == "") ≡ false)

  quota-Created :
      (req : CreateRequest) (s t : ControllerState W) (r : Result (Unit {0}))
      → t.vols ≡ insert req.name req.required_bytes s.vols
      → (req.name == "") ≡ false
      → Created req s (quota_answer p req r) t
  unfolding quota_answer
  quota-Created req s t (ok x) e n = (refl, e, n)
  quota-Created req s t (err x) e n = tt

  after_create-Created :
      (req : CreateRequest) (s t : ControllerState W) (r : Result (Unit {0}))
      → t.vols ≡ insert req.name req.required_bytes s.vols
      → (req.name == "") ≡ false
      → Created req s (after_create p req t r).0 (after_create p req t r).1
  unfolding after_create
  after_create-Created req s t (err x) e n = tt
  after_create-Created req s t (ok x) e n = quota-Created req s _ _ e n

  recorded-Created :
      (req : CreateRequest) (cs : List Capability) (s t : ControllerState W)
      → t.vols ≡ insert req.name req.required_bytes s.vols
      → (req.name == "") ≡ false
      → Created req s (create_recorded p cs req t).0 (create_recorded p cs req t).1
  unfolding create_recorded
  recorded-Created req cs s t e n = elim (Bool-cases (any is_reader_only cs)) [
    | inl r ↦ rw r tt
    | inr r ↦ rw r (after_create-Created req s _ _ e n)
  ]

  with-Created :
      (req : CreateRequest) (cs : List Capability) (s : ControllerState W)
      → (req.name == "") ≡ false
      → Created req s (create_with p cs req s).0 (create_with p cs req s).1
  unfolding create_with
  with-Created req cs s n = elim (Bool-cases (is_valid_volume_capabilities cs)) [
    | inr v ↦ rw v tt
    | inl v ↦ elim (Bool-cases (is_smaller (lookup req.name s.vols) req.required_bytes)) [
      | inl c ↦ rw (v, c) tt
      | inr c ↦ rw (v, c) (recorded-Created req cs s _ refl n)
    ]
  ]

  create_volume-Created :
      (req : CreateRequest) (s : ControllerState W)
      → Created req s (create_volume p req s).0 (create_volume p req s).1
  unfolding create_volume
  create_volume-Created req s = by _ req.capabilities refl
    where
      by :
          (b : Bool) (o : Option (List Capability))
          → (req.name == "") ≡ b
          → let m : Answer Volume × ControllerState W =
              if b then (status invalid_argument, s) else elim o [
                | none ↦ (status invalid_argument, s)
                | some cs ↦ create_with p cs req s
              ] in
            Created req s m.0 m.1
      by true o e = tt
      by false none e = tt
      by false (some cs) e = with-Created req cs s e

  refused :
      (req : CreateRequest) (cs : List Capability) (capacity : ℕ) (t : ControllerState W)
      → (req.name == "") ≡ false
      → req.capabilities ≡ some cs
      → is_valid_volume_capabilities cs ≡ true
      → lookup req.name t.vols ≡ some capacity
      → capacity < req.required_bytes
      → create_volume p req t ≡ (status already_exists, t)
  unfolding create_volume create_with
  refused req cs capacity t n c valid l lt =
      let over : ltb capacity req.required_bytes ≡ true = ground arith in
      simp (n, c, create_with, valid, l, over) refl

  -- After a CreateVolume that succeeded, a CreateVolume of the same name with valid capabilities
  -- and a greater capacity is answered AlreadyExists and changes nothing; and the first one
  -- answered the volume of that name and capacity, and the table of volumes differs by its entry
  -- only.
  pub create_volume_again :
      (req again : CreateRequest) (cs : List Capability) (v : Volume) (s : ControllerState W)
      (other : String)
      → (create_volume p req s).0 ≡ done v
      → again.name ≡ req.name
      → again.capabilities ≡ some cs
      → is_valid_volume_capabilities cs ≡ true
      → req.required_bytes < again.required_bytes
      → (create_volume p again (create_volume p req s).1
          ≡ (status already_exists, (create_volume p req s).1))
        × (v ≡ volume_of p req)
        × (lookup other (create_volume p req s).1.vols
            ≡ (if req.name == other then some req.required_bytes else lookup other s.vols))
  create_volume_again req again cs v s other e n c valid lt =
      let made : Created req s (done v) (create_volume p req s).1 =
        subst (λ a. Created req s a (create_volume p req s).1) e (create_volume-Created req s) in
      let named : (again.name == "") ≡ false = ap (λ x. x == "") n ∙ made.2 in
      let known : lookup again.name (create_volume p req s).1.vols ≡ some req.required_bytes =
        rw (n, made.1, lookup-insert req.name req.name req.required_bytes s.vols, ==_refl req.name)
          refl in
      (
        refused again cs req.required_bytes _ named c valid known lt,
        made.0,
        ap (lookup other) made.1 ∙ lookup-insert req.name other req.required_bytes s.vols,
      )
