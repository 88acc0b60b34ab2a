-- ===== src/Node.antt =====
-- pkg/dingofs-driver/node.go: the state of the CSI node service with the lock of each target path, and
-- the calls that it passes on, as an interface.
pub mod Target
pub mod Options
pub mod Publish
pub mod Release
pub mod Stats
pub mod Rules
pub mod Laws
pub mod Local
pub mod Race
use dingofs_csi.Common.{
  ℕ, String, Bool, true, false, List, Option, none, some, Dict, lookup, insert, delete,
}
use dingofs_csi.Common.Exec.{Result, ok, err, Error, coded, Exec}
use dingofs_csi.Kube.Host.{Sys}

-- The numbers of the gRPC codes.
abbrev pub invalid_argument_code : Error
invalid_argument_code = coded 3

abbrev pub not_found_code : Error
not_found_code = coded 5

abbrev pub internal_code : Error
internal_code = coded 13

-- nodePublishUnpublishLock with the world.
pub record NodeState (W : Type 0) : Type 0 where
  pub targets : List (String × Bool)
  pub sys : Sys W

-- What syscall.Statfs fills in.
pub record Statfs : Type 0 where
  pub block_size : ℕ
  pub blocks : ℕ
  pub free_blocks : ℕ
  pub files : ℕ
  pub free_files : ℕ

pub record NodeCalls (W Mounted : Type 0) : Type 0 where
  -- config.LocalPV, filepath.Join of three parts
  pub local_pv : Bool
  pub join_path : String → String → String → String
  -- DfsMount of the provider, CreateVol and BindTarget of what it answers
  pub dfs_mount :
      (volume_id target : String) (secrets context : Dict) (options : List String)
      → Exec (Sys W) Mounted
  pub create_vol : Mounted → (volume_id sub_path : String) → Exec (Sys W) String
  pub bind_target : Mounted → (source target : String) → Exec (Sys W) (Unit {0})
  -- mount.Mounter.IsMountPoint and mount.IsNotMountPoint, the latter within the time limit
  pub is_mount_point : String → W → Result Bool × W
  pub is_not_mount_point : String → W → Result Bool × W
  -- os.Stat, with IsNotExist told apart, and os.Lstat
  pub is_missing : String → W → Bool × W
  pub lstat : String → W → Result (Unit {0}) × W
  -- the command `cat /proc/mounts | grep "dingofs"`
  pub dingofs_mounts : W → Result String × W
  pub statfs : String → W → Option Statfs × W

module _ {W : Type 0} where
  -- A call that only reads the world.
  unfoldable pub read : {A : Type 0} → (W → Result A × W) → Exec (Sys W) A
  read f s = let (r, w) = f s.world in (r, record s { world = w })

  unfoldable pub read_value : {A : Type 0} → (W → A × W) → Exec (Sys W) A
  read_value f s = let (a, w) = f s.world in (ok a, record s { world = w })

  abbrev pub set_target : String → Option Bool → NodeState W → Bool × NodeState W
  set_target target (some b) s = (false, s)
  set_target target none s = (true, record s { targets = insert target true s.targets })

  -- Whether the target was free, and the state in which it is not.
  unfoldable pub lock : String → NodeState W → Bool × NodeState W
  unfolding lookup insert
  lock target s = set_target target (lookup target s.targets) s

  unfoldable pub unlock : String → NodeState W → NodeState W
  unfolding delete
  unlock target s = record s { targets = delete target s.targets }

  abbrev pub locked_run :
      {A : Type 0} → String → Exec (Sys W) A → Bool × NodeState W → Result A × NodeState W
  locked_run target m (false, s) = (err internal_code, s)
  locked_run target m (true, s) = let (r, t) = m s.sys in (r, unlock target (record s { sys = t }))

  -- `if !lock(target) { return Internal } else { defer unlock(target) }` before the rest `m`.
  unfoldable pub with_target_lock : {A : Type 0} → String → Exec (Sys W) A → Exec (NodeState W) A
  unfolding lock unlock
  with_target_lock target m s = locked_run target m (lock target s)
