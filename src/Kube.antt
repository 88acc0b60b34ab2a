-- ===== src/Kube.antt =====
-- The Kubernetes objects that the code reads and writes, with the fields that it uses. The types
-- are those of k8s.io/api; a pointer or a map that may be nil is an `Option`.
pub mod Status
pub mod Host
use dingofs_csi.Common.{ℕ, String, Bool, Option, List, Dict, none, some, [], ◌≡◌, refl}

-- PodPhase
pub data Phase : Type 0 where
  pending running succeeded failed unknown : Phase

-- ConditionStatus
pub data Truth : Type 0 where
  holds fails unclear : Truth

-- PodConditionType
pub data ConditionKind : Type 0 where
  containers_ready pod_ready pod_scheduled : ConditionKind
  other_kind : String → ConditionKind

pub record Condition : Type 0 where
  pub kind : ConditionKind
  pub status : Truth
  pub reason : String
  pub message : String

pub record Terminated : Type 0 where
  pub exit_code : ℕ
  pub reason : String
  pub finished_at : ℕ

-- `waiting` holds the reason of `State.Waiting`.
pub record ContainerStatus : Type 0 where
  pub name : String
  pub ready : Bool
  pub waiting : Option String
  pub running : Bool
  pub terminated : Option Terminated

pub record Resources : Type 0 where
  pub requests : Dict
  pub limits : Dict

-- Probes and the lifecycle are values that the code only copies.
pub record Container : Type 0 where
  pub name : String
  pub command : List String
  pub image : String
  pub resources : Resources
  pub liveness_probe : String
  pub readiness_probe : String
  pub startup_probe : String
  pub lifecycle : String

pub record PodSpec : Type 0 where
  pub node_name : String
  pub node_selector : Dict
  pub containers : List Container
  pub host_aliases : String
  pub host_network : Bool
  pub host_pid : Bool
  pub host_ipc : Bool
  pub grace_period : Option ℕ

-- `deletion_timestamp` tells whether `DeletionTimestamp` is set.
pub record Pod : Type 0 where
  pub name : String
  pub namespace : String
  pub uid : String
  pub labels : Dict
  pub annotations : Option Dict
  pub finalizers : List String
  pub deletion_timestamp : Bool
  pub spec : PodSpec
  pub phase : Phase
  pub reason : String
  pub message : String
  pub conditions : List Condition
  pub init_statuses : List ContainerStatus
  pub container_statuses : List ContainerStatus

-- JobCondition, with the types that the code tells apart.
pub data JobConditionKind : Type 0 where
  job_complete job_failed : JobConditionKind
  other_job_kind : String → JobConditionKind

pub record JobCondition : Type 0 where
  pub kind : JobConditionKind
  pub status : Truth

-- `ttl` is TTLSecondsAfterFinished, `completion_time` is in nanoseconds.
pub record Job : Type 0 where
  pub name : String
  pub namespace : String
  pub deletion_timestamp : Bool
  pub node_name : String
  pub ttl : Option ℕ
  pub conditions : List JobCondition
  pub completion_time : Option ℕ

-- Ranging over the annotations, or reading one; a nil map is empty.
abbrev pub annotations_of : Pod → Dict
annotations_of p = elim p.annotations [ none ↦ [] | some m ↦ m ]
