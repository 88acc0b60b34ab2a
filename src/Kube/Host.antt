-- ===== src/Kube/Host.antt =====
-- What the code does not implement: the API server, the node's mounts and files, the clock, hashes
-- and parsers of Go's library, as an interface over a hidden world, and the calls of pkg/k8sclient
-- with a log of what was asked and answered.
pub mod Calls
pub mod Rules
use dingofs_csi.Common.{ℕ, String, Bool, Option, List, [], ◌∷◌, Dict, ◌≡◌}
use dingofs_csi.Common.Exec.{Error, conflict, Result, err, Exec}
use dingofs_csi.Kube.{Pod, Job}

-- Calls that change something outside the process.
pub data Action : Type 0 where
  create_pod : Pod → Action
  delete_pod : (name namespace : String) → Action
  patch_finalizers : (name namespace : String) → List String → Action
  add_labels : (name namespace : String) → Dict → Action
  add_annotations : (name namespace : String) → Dict → Action
  remove_annotations : (name namespace : String) → List String → Action
  replace_annotations : (name namespace : String) → Dict → Action
  create_secret : (name : String) → Action
  update_secret : (name : String) (owners : List String) → Action
  delete_secret : (name namespace : String) → Action
  update_contents : (name namespace : String) (contents : Dict) → Action
  create_service : (name namespace unique_id : String) → Action
  delete_service : (name namespace : String) → Action
  create_job : (name : String) → Action
  delete_job : (name namespace : String) → Action
  lazy_umount : (target : String) → Action
  unmount : (target : String) → Action
  bind_mount : (source target : String) → Action
  cleanup_mount_point : (target : String) → Action
  make_dir : (path : String) → Action
  remove_path : (path : String) → Action
  close_fd : (hash : String) → Action
  stop_fd : (hash : String) → Action
  check_stuck : Pod → Action
  clean_cache : Pod → Action
  write_file : (path contents : String) → Action
  create_config_map : (name namespace : String) (contents : Dict) → Action
  execute : (name namespace container : String) (command : List String) → Action

-- What a list call selects: a label that is there, a label's value, or the field spec.nodeName.
pub data Selector : Type 0 where
  has_label : String → Selector
  label_is : (key value : String) → Selector
  on_node : String → Selector

-- The answer of os.Stat under DoWithTimeout: the inode number, IsNotExist, IsCorruptedMnt (with
-- whether the text is that of a transport endpoint that is not connected), the context's own error,
-- and any other error.
pub data Stat : Type 0 where
  exists : (inode : ℕ) → Stat
  missing : Stat
  corrupted : (not_connected : Bool) → Stat
  expired broken : Stat

-- A line of /proc/self/mountinfo.
pub record MountInfo : Type 0 where
  pub mount_point : String
  pub root : String
  pub minor : ℕ

-- The log, newest first.
pub data Event : Type 0 where
  saw : (name namespace : String) → Result Pod → Event
  did : Action → Result (Unit {0}) → Event
  locked unlocked : (lock : ℕ) → Event
  -- a program that was run to its end, with what it printed where it did not fail
  ran : (program : String) (arguments : List String) → Result String → Event

pub record Sys (W : Type 0) : Type 0 where
  pub world : W
  pub log : List Event

pub record Host (W : Type 0) : Type 0 where
  -- crypto/sha256 and hash/fnv over a text; the digest as 64 hexadecimal digits
  pub sha256_hex : String → String
  pub fnv32a : String → ℕ
  -- times are in nanoseconds: time.Parse at the layout of GetTime; time.ParseDuration, and the time so much later as text
  pub parse_time : String → Option ℕ
  pub time_after : String → ℕ → Option String
  -- config.NodeName and config.Namespace
  pub node_name : String
  pub namespace : String
  pub read_pod : String → String → W → Result Pod × W
  pub read_pods : String → List Selector → W → Result (List Pod) × W
  pub read_job : String → String → W → Result Job × W
  pub read_clock : W → ℕ × W
  pub read_mounts : W → Result (List MountInfo) × W
  pub read_stat : String → W → Stat × W
  -- PathExists of k8s.io/mount-utils
  pub read_exists : String → W → Bool × W
  pub context_done : W → Bool × W
  -- rand.Intn over the alphabet, n times
  pub random_letters : ℕ → W → String × W
  -- CombinedOutput of exec.Command, and os.ReadFile
  pub run_command : (program : String) (arguments : List String) → W → Result String × W
  pub read_file : String → W → Result String × W
  pub perform : Action → W → Result (Unit {0}) × W
  -- retry.RetryOnConflict(retry.DefaultBackoff, …) of client-go
  pub retry_on_conflict : Exec (Sys W) (Unit {0}) → Exec (Sys W) (Unit {0})

-- Runs of `m` one after another, each but the last of which ended in a conflict.
pub data Retried {W : Type 0} (m : Exec (Sys W) (Unit {0}))
    : Sys W → Result (Unit {0}) → Sys W → Type 0 where
  last : (s : Sys W) → Retried m s (m s).0 (m s).1
  again :
      (s : Sys W) {r : Result (Unit {0})} {t : Sys W}
      → (m s).0 ≡ err conflict
      → Retried m (m s).1 r t
      → Retried m s r t

-- The documented behaviour of RetryOnConflict.
abbrev pub RetriesOnConflict : {W : Type 0} → Host W → Type 0
RetriesOnConflict {W} h =
    (m : Exec (Sys W) (Unit {0})) (s : Sys W)
    → Retried m s (h.retry_on_conflict m s).0 (h.retry_on_conflict m s).1
