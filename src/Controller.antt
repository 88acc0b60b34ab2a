-- ===== src/Controller.antt =====
-- pkg/dingofs-driver/controller.go: the CSI controller service, with VolumeLocks of
-- pkg/util/resource/volume.go and CheckDynamicPV of pkg/util/util.go. The provider and the functions of
-- Go's library are an interface. Capacities are natural numbers: CSI allows no negative ones.
pub mod Laws
use dingofs_csi.Common.{
  ℕ, String, Bool, true, false, not, ◌&&◌, List, [], ◌∷◌, ◌++◌, Option, none, some, Dict, ◌==◌,
  if◌then◌else◌, any, all, is_empty, ltb, nat_eq, lookup, insert, delete, trim_prefix, split,
}
use dingofs_csi.Common.Exec.{Result, ok, err}

-- The gRPC codes that the service answers.
pub data Code : Type 0 where
  invalid_argument already_exists not_found internal aborted : Code

pub data Answer (A : Type 0) : Type 0 where
  done : A → Answer A
  status : Code → Answer A

-- VolumeCapability_AccessMode_Mode; a missing mode is an unknown one.
pub data AccessMode : Type 0 where
  single_node_writer multi_node_multi_writer multi_node_reader_only other_mode : AccessMode

-- The access type, with the mount flags.
pub data Access : Type 0 where
  block unset : Access
  mount : List String → Access

pub record Capability : Type 0 where
  pub access : Access
  pub mode : AccessMode

-- The fields of csi.CreateVolumeRequest; `none` is the nil slice.
pub record CreateRequest : Type 0 where
  pub name : String
  pub capabilities : Option (List Capability)
  pub required_bytes : ℕ
  pub parameters : Dict
  pub secrets : Dict

pub record Volume : Type 0 where
  pub volume_id : String
  pub capacity_bytes : ℕ
  pub volume_context : Dict

pub record ExpandRequest : Type 0 where
  pub volume_id : String
  pub capacity_range : Option (ℕ × ℕ)
  pub capability : Option Capability
  pub secrets : Dict

-- The interface Provider, over a hidden world, regexp.Match with the pattern of CheckDynamicPV,
-- path.Join of two elements and strconv.FormatInt in base 10.
pub record Provider (W Settings : Type 0) : Type 0 where
  pub dfs_create_vol :
      (volume_id sub_path : String) (secrets context : Dict) → W → Result (Unit {0}) × W
  pub dfs_delete_vol : (volume_id sub_path : String) (secrets : Dict) → W → Result (Unit {0}) × W
  pub set_quota :
      (secrets : Dict) (settings : Option Settings) (path : String) (capacity : ℕ)
      → W
      → Result (Unit {0}) × W
  pub get_sub_path : (volume_id : String) → W → Result String × W
  pub init_dfs :
      (volume_id : String) (secrets : Dict) (options : List String) → W → Result Settings × W
  pub mount_options : Settings → List String
  pub matches_dynamic_pv : String → Bool
  pub join_path : String → String → String
  pub format_int : ℕ → String

-- controllerService: `vols` and the keys of `volLocks`.
pub record ControllerState (W : Type 0) : Type 0 where
  pub vols : List (String × ℕ)
  pub locks : List (String × Unit {0})
  pub world : W

abbrev pub is_volume_mode : AccessMode → Bool
is_volume_mode other_mode = false
is_volume_mode _ = true

-- `hasSupport` of isValidVolumeCapabilities, with the modes of volumeCaps.
unfoldable pub has_support : Capability → Bool
has_support c = elim c.access [
  | block ↦ false
  | unset ↦ false
  | mount flags ↦ is_volume_mode c.mode
]

unfoldable pub is_valid_volume_capabilities : List Capability → Bool
unfolding has_support
is_valid_volume_capabilities cs = all has_support cs

abbrev pub is_reader_only : Capability → Bool
is_reader_only c = elim c.mode [ multi_node_reader_only ↦ true | _ ↦ false ]

-- The volume is known with a smaller capacity.
abbrev pub is_smaller : Option ℕ → ℕ → Bool
is_smaller none required = false
is_smaller (some capacity) required = ltb capacity required

abbrev pub is_locked : Option (Unit {0}) → Bool
is_locked none = false
is_locked (some u) = true

-- `GetMount().MountFlags`
abbrev pub flags_of : Access → List String
flags_of (mount flags) = flags
flags_of _ = []

unfoldable pub sub_path_of : String → String
unfolding trim_prefix
sub_path_of name = trim_prefix name "pvc-"

module _ {W : Type 0} where
  -- TryAcquire: whether the lock was free, and the state with the lock.
  unfoldable pub try_acquire : String → ControllerState W → Bool × ControllerState W
  unfolding lookup insert
  try_acquire id s =
      if is_locked (lookup id s.locks)
      then (false, s)
      else (true, record s { locks = insert id tt s.locks })

  unfoldable pub release : String → ControllerState W → ControllerState W
  unfolding delete
  release id s = record s { locks = delete id s.locks }

module _ {W Settings : Type 0} (p : Provider W Settings) where
  -- The volume of the answer, with the parameters as its context.
  unfoldable pub volume_of : CreateRequest → Volume
  unfolding insert
  volume_of req = record {
    volume_id = req.name;
    capacity_bytes = req.required_bytes;
    volume_context =
        insert "capacity" (p.format_int req.required_bytes)
          (insert "subPath" (sub_path_of req.name) req.parameters);
  }

  unfoldable pub quota_answer : CreateRequest → Result (Unit {0}) → Answer Volume
  unfolding volume_of
  quota_answer req (ok x) = done (volume_of req)
  quota_answer req (err e) = status internal

  -- From SetQuota on.
  unfoldable pub after_create :
      CreateRequest → ControllerState W → Result (Unit {0}) → Answer Volume × ControllerState W
  unfolding quota_answer
  after_create req s (err e) = (status internal, s)
  after_create req s (ok x) =
      let (r, w) =
        p.set_quota req.secrets none (p.join_path "/" (sub_path_of req.name)) req.required_bytes
          s.world in
      (quota_answer req r, record s { world = w })

  -- From the store into `vols` on.
  unfoldable pub create_recorded :
      List Capability → CreateRequest → ControllerState W → Answer Volume × ControllerState W
  unfolding after_create
  create_recorded cs req s =
      if any is_reader_only cs
      then (status invalid_argument, s)
      else let (r, w) =
          p.dfs_create_vol req.name (sub_path_of req.name) req.secrets req.parameters s.world in
        after_create req (record s { world = w }) r

  unfoldable pub create_with :
      List Capability → CreateRequest → ControllerState W → Answer Volume × ControllerState W
  unfolding create_recorded is_valid_volume_capabilities lookup insert
  create_with cs req s =
      if not (is_valid_volume_capabilities cs)
      then (status invalid_argument, s)
      else if is_smaller (lookup req.name s.vols) req.required_bytes
      then (status already_exists, s)
      else create_recorded cs req (record s { vols = insert req.name req.required_bytes s.vols })

  unfoldable pub create_volume :
      CreateRequest → ControllerState W → Answer Volume × ControllerState W
  unfolding create_with
  create_volume req s =
      if req.name == "" then (status invalid_argument, s) else elim req.capabilities [
        | none ↦ (status invalid_argument, s)
        | some cs ↦ create_with cs req s
      ]

  -- DeleteVolume with the lock held, and its release.
  unfoldable pub after_delete :
      String → ControllerState W → Result (Unit {0}) → Answer (Unit {0}) × ControllerState W
  unfolding release delete
  after_delete id s (err e) = (status internal, release id s)
  after_delete id s (ok x) = (done tt, release id (record s { vols = delete id s.vols }))

  unfoldable pub delete_locked :
      String → Dict → Bool × ControllerState W → Answer (Unit {0}) × ControllerState W
  unfolding after_delete
  delete_locked id secrets (false, s) = (status aborted, s)
  delete_locked id secrets (true, s) =
      let (r, w) = p.dfs_delete_vol id id secrets s.world in
      after_delete id (record s { world = w }) r

  unfoldable pub delete_volume :
      String → Dict → ControllerState W → Answer (Unit {0}) × ControllerState W
  unfolding delete_locked try_acquire
  delete_volume id secrets s =
      if id == ""
      then (status invalid_argument, s)
      else if not (p.matches_dynamic_pv id)
      then (done tt, s)
      else if is_empty secrets
      then (done tt, s)
      else delete_locked id secrets (try_acquire id s)

  -- ValidateVolumeCapabilities: the confirmed capabilities, if any.
  unfoldable pub validate_volume_capabilities :
      String → List Capability → ControllerState W → Answer (Option (List Capability))
  unfolding is_valid_volume_capabilities lookup
  validate_volume_capabilities id cs s =
      if id == ""
      then status invalid_argument
      else if is_empty cs
      then status invalid_argument
      else elim (lookup id s.vols) [
        | none ↦ status not_found
        | some capacity ↦ done (if is_valid_volume_capabilities cs then some cs else none)
      ]

  -- The loop over the mount options: the last `subdir=…`.
  unfoldable pub subdir_by : String → List String → String
  subdir_by subdir (k ∷ v ∷ []) = if k == "subdir" then p.join_path "/" v else subdir
  subdir_by subdir _ = subdir

  unfoldable pub subdir_from : String → List String → String
  unfolding subdir_by split
  subdir_from subdir [] = subdir
  subdir_from subdir (o ∷ os) = subdir_from (subdir_by subdir (split o "=")) os

  unfoldable pub expand_quota :
      ExpandRequest
      → ℕ
      → String
      → Result Settings
      → ControllerState W
      → Answer ℕ × ControllerState W
  unfolding subdir_from
  expand_quota req size path (err e) s = (status internal, s)
  expand_quota req size path (ok settings) s =
      let (r, w) =
        p.set_quota req.secrets (some settings)
          (p.join_path (subdir_from "" (p.mount_options settings)) path) size s.world in
      (elim r [ ok x ↦ done size | err e ↦ status internal ], record s { world = w })

  unfoldable pub expand_at :
      ExpandRequest
      → ℕ
      → List String
      → Result String
      → ControllerState W
      → Answer ℕ × ControllerState W
  unfolding expand_quota
  expand_at req size options (err e) s = (status internal, s)
  expand_at req size options (ok path) s =
      let (r, w) = p.init_dfs req.volume_id req.secrets options s.world in
      expand_quota req size path r (record s { world = w })

  unfoldable pub expand_with :
      ExpandRequest → ℕ → Option Capability → ControllerState W → Answer ℕ × ControllerState W
  unfolding expand_at
  expand_with req size none s = (status invalid_argument, s)
  expand_with req size (some c) s =
      let (r, w) = p.get_sub_path req.volume_id s.world in
      expand_at req size (flags_of c.access) r (record s { world = w })

  -- The limit 0 is no limit.
  unfoldable pub expand_in :
      ExpandRequest → Option (ℕ × ℕ) → ControllerState W → Answer ℕ × ControllerState W
  unfolding expand_with
  expand_in req none s = (status invalid_argument, s)
  expand_in req (some (size, limit)) s =
      if not (nat_eq limit 0) && ltb limit size
      then (status invalid_argument, s)
      else expand_with req size req.capability s

  unfoldable pub controller_expand_volume :
      ExpandRequest → ControllerState W → Answer ℕ × ControllerState W
  unfolding expand_in
  controller_expand_volume req s =
      if req.volume_id == ""
      then (status invalid_argument, s)
      else expand_in req req.capacity_range s
