-- ===== src/Tests/World.antt =====
-- A host for the tests: the API server's pods, one job, and how often a path is mounted.
use dingofs_csi.Common.{
  ℕ, zero, suc, String, true, false, List, [], ◌∷◌, none, some, Dict, ◌==◌, if◌then◌else◌, keep,
  not,
}
use dingofs_csi.Common.Exec.{Result, ok, err, not_found, output}
use dingofs_csi.Kube.{
  Pod, Container, Condition, containers_ready, pod_ready, holds, fails, running, failed, Job,
  job_complete,
}
use dingofs_csi.Kube.Host.{
  Action, delete_pod, lazy_umount, replace_annotations, create_pod, missing, Sys, Host, last,
  RetriesOnConflict,
}

pub record TestWorld : Type 0 where
  pub pods : List Pod
  pub mount_count : ℕ

abbrev pub first_named : String → List Pod → Result Pod
first_named name [] = err not_found
first_named name (p ∷ ps) = if p.name == name then ok p else first_named name ps

abbrev pub annotated : String → Dict → List Pod → List Pod
annotated name m [] = []
annotated name m (p ∷ ps) =
    if p.name == name then record p { annotations = some m } ∷ ps else p ∷ annotated name m ps

abbrev pub unmount_once : ℕ → List Pod → Result (Unit {0}) × TestWorld
unmount_once zero ps =
    (err (output "umount: /t: not mounted."), record { pods = ps; mount_count = 0 })
unmount_once (suc n) ps = (ok tt, record { pods = ps; mount_count = n })

abbrev pub perform_test : Action → TestWorld → Result (Unit {0}) × TestWorld
perform_test (delete_pod name namespace) w =
    (ok tt, record w { pods = keep (λ p. not (p.name == name)) w.pods })
perform_test (replace_annotations name namespace m) w =
    (ok tt, record w { pods = annotated name m w.pods })
perform_test (create_pod p) w = (ok tt, record w { pods = p ∷ w.pods })
perform_test (lazy_umount target) w = unmount_once w.mount_count w.pods
perform_test _ w = (ok tt, w)

abbrev pub test_job : Job
test_job = record {
  name = "clean-cache";
  namespace = "kube-system";
  deletion_timestamp = false;
  node_name = "node-1";
  ttl = some 60;
  conditions = record { kind = job_complete; status = holds } ∷ [];
  completion_time = some 1000;
}

abbrev pub test_host : Host TestWorld
test_host = record {
  sha256_hex = λ t. t;
  fnv32a = λ t. 7;
  parse_time = λ t. none;
  time_after = λ delay t. some "later";
  node_name = "node-1";
  namespace = "kube-system";
  read_pod = λ name namespace w. (first_named name w.pods, w);
  read_pods = λ namespace selectors w. (ok [], w);
  read_job = λ name namespace w. (ok test_job, w);
  read_clock = λ w. (2000000000000, w);
  read_mounts = λ w. (ok [], w);
  read_stat = λ path w. (missing, w);
  read_exists = λ path w. (true, w);
  context_done = λ w. (false, w);
  run_command = λ program arguments w. (ok "", w);
  read_file = λ path w. (ok "", w);
  random_letters = λ n w. ("abcdef", w);
  perform = perform_test;
  retry_on_conflict = λ m. m;
}

pub test_host-RetriesOnConflict : RetriesOnConflict test_host
test_host-RetriesOnConflict m s = last s

abbrev pub test_container : Container
test_container = record {
  name = "dfs-mount";
  command = "sh" ∷ "-c" ∷ "exec /scripts/mountpoint.sh fs /dfs/pvc-1-abcdef" ∷ [];
  image = "dingofs";
  resources = record { requests = ("cpu", "2") ∷ []; limits = [] };
  liveness_probe = "";
  readiness_probe = "";
  startup_probe = "";
  lifecycle = "";
}

abbrev pub test_conditions : List Condition
test_conditions =
    record { kind = containers_ready; status = holds; reason = ""; message = "" }
    ∷ record { kind = pod_ready; status = fails; reason = ""; message = "" }
    ∷ []

-- A mount pod with one reference, to the target "t" of an app pod.
abbrev pub test_pod : Pod
test_pod = record {
  name = "dingofs-node-1-pvc-1-abcdef";
  namespace = "kube-system";
  uid = "uid-1";
  labels = ("dingofs-hash", "h1") ∷ [];
  annotations = some (("dingofs-t", "t") ∷ []);
  finalizers = "dingofs.com/finalizer" ∷ [];
  deletion_timestamp = false;
  spec = record {
    node_name = "node-1";
    node_selector = [];
    containers = test_container ∷ [];
    host_aliases = "";
    host_network = false;
    host_pid = false;
    host_ipc = false;
    grace_period = none;
  };
  phase = running;
  reason = "OutOfcpu";
  message = "";
  conditions = test_conditions;
  init_statuses = [];
  container_statuses = [];
}

abbrev pub unused_pod : Pod
unused_pod = record test_pod { annotations = some [] }

abbrev pub deleted_pod : Pod
deleted_pod = record test_pod { deletion_timestamp = true }

abbrev pub world_with : List Pod → ℕ → Sys TestWorld
world_with ps n = record { world = record { pods = ps; mount_count = n }; log = [] }

-- A pod for which the node has no resources.
abbrev pub failed_pod : Pod
failed_pod = record test_pod { phase = failed }
