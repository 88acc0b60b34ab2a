-- ===== src/App.antt =====
-- pkg/controller/app_controller.go: when the containers of an application have ended, the mount
-- containers beside them are made to unmount, and after some time their processes are killed.
pub mod Laws
use dingofs_csi.Common.{
  ℕ, ◌+◌, String, Bool, true, false, not, ◌&&◌, ◌||◌, List, [], ◌∷◌, Option, none, some, Dict, ◌==◌,
  if◌then◌else◌, any, all, length, ltb, nat_eq, contains,
}
use dingofs_csi.Common.Exec.{
  Result, ok, err, Error, not_found, output, other, Exec, pure, raise, handle, ◌>>=◌, ◌>>◌,
}
use dingofs_csi.Kube.{ContainerStatus, Terminated, Phase, running}
use dingofs_csi.Kube.Host.{did, execute, Sys, Host}
use dingofs_csi.Kube.Host.Calls.{now}
use dingofs_csi.Mounting.{ask}
use dingofs_csi.Util.{check_expect_value}

-- The command of Lifecycle.PreStop.Exec, where all of it is set.
pub record AppContainer : Type 0 where
  pub name : String
  pub pre_stop : Option (List String)

pub record AppPod : Type 0 where
  pub name : String
  pub namespace : String
  pub labels : Dict
  pub resource_version : String
  pub restarts_always : Bool
  pub containers : List AppContainer
  pub phase : Phase
  pub statuses : List ContainerStatus

-- ExecuteInContainer: what the command printed as errors, and the text of the error.
pub record ExecAnswer : Type 0 where
  pub stderr : String
  pub error : Option String

pub record AppCalls (W : Type 0) : Type 0 where
  pub read_app_pod : (name namespace : String) → W → Result AppPod × W
  pub exec_in : (name namespace container : String) → (command : List String) → W → ExecAnswer × W

-- config.MountContainerName
abbrev pub is_mount_container : (name : String) → Bool
is_mount_container name = contains name "dfs-mount"

abbrev pub is_running : Phase → Bool
is_running running = true
is_running phase = false

abbrev pub is_exited : Option Terminated → Bool
is_exited none = false
is_exited (some t) = true

-- The last loop of ShouldInQueue: the others have ended and the mount containers run.
unfoldable pub is_left_over : ContainerStatus → Bool
unfolding contains
is_left_over s = if is_mount_container s.name then s.running else is_exited s.terminated

-- ShouldInQueue
unfoldable pub should_in_queue : AppPod → Bool
unfolding check_expect_value is_left_over contains
should_in_queue p =
    not (check_expect_value p.labels "disable.sidecar.dingofs.com/inject" "true")
    && not p.restarts_always
    && any (λ cn. is_mount_container cn.name) p.containers
    && is_running p.phase
    && not (ltb (length p.statuses) 2)
    && all is_left_over p.statuses

abbrev pub later_end : (latest : ℕ) → Option Terminated → ℕ
later_end latest none = latest
later_end latest (some t) = if ltb latest t.finished_at then t.finished_at else latest

-- The last end of a container of the application; 0 is Go's zero time.
unfoldable pub last_exit : (latest : ℕ) → List ContainerStatus → ℕ
unfolding contains
last_exit latest [] = latest
last_exit latest (s ∷ statuses) =
    last_exit (if is_mount_container s.name then latest else later_end latest s.terminated) statuses

abbrev pub kill_command : List String
kill_command = "sh" ∷ "-c" ∷ "pkill dingo-fuse" ∷ []

-- The errors of the unmount that are as good as success.
abbrev pub is_harmless : (stderr error : String) → Bool
is_harmless stderr error =
    contains stderr "not mounted"
    || contains stderr "mountpoint not found"
    || contains stderr "no mount point specified"
    || contains error "exit code 137"

abbrev pub result_of : ExecAnswer → Result (Unit {0})
result_of a = elim a.error [ none ↦ ok tt | some t ↦ err (output t) ]

module _ {W : Type 0} (h : Host W) (c : AppCalls W) where
  unfoldable pub execute_in_container :
      (p : AppPod) → (container : String) → (command : List String) → Exec (Sys W) ExecAnswer
  execute_in_container p container command s =
      let (a, w) = c.exec_in p.name p.namespace container command s.world in
      (
        ok a,
        record {
          world = w;
          log = did (execute p.name p.namespace container command) (result_of a) ∷ s.log;
        },
      )

  abbrev pub after_umount : ExecAnswer → Option String → Exec (Sys W) (Unit {0})
  after_umount a none = pure tt
  after_umount a (some t) = if is_harmless a.stderr t then pure tt else raise (output t)

  abbrev pub run_pre_stop :
      (p : AppPod) → (container : String) → Option (List String) → Exec (Sys W) (Unit {0})
  run_pre_stop p container none = pure tt
  run_pre_stop p container (some command) = do
    a ← execute_in_container p container command
    after_umount a a.error

  -- umountFuseSidecar
  unfoldable pub umount_fuse_sidecar : AppPod → AppContainer → Exec (Sys W) (Unit {0})
  umount_fuse_sidecar p cn = if cn.name == "" then pure tt else run_pre_stop p cn.name cn.pre_stop

  -- killFuseProcess
  unfoldable pub kill_fuse_process : AppPod → AppContainer → Exec (Sys W) (Unit {0})
  kill_fuse_process p cn =
      if cn.name == ""
      then pure tt
      else do a ← execute_in_container p cn.name kill_command; λ s. (result_of a, s)

  -- The loops of umountFuseSidecars and killFuseProcesss.
  unfoldable pub for_mount_containers :
      (AppContainer → Exec (Sys W) (Unit {0})) → List AppContainer → Exec (Sys W) (Unit {0})
  unfolding contains
  for_mount_containers f [] = pure tt
  for_mount_containers f (cn ∷ cns) =
      let rest = for_mount_containers f cns in
      if is_mount_container cn.name then f cn >> rest else rest

  -- Five minutes in nanoseconds; whether the pod is looked at again after that time.
  unfoldable pub by_time : AppPod → (exited now : ℕ) → Exec (Sys W) Bool
  by_time p exited t =
      if not (nat_eq exited 0) && ltb (exited + 300000000000) t
      then for_mount_containers (kill_fuse_process p) p.containers >> pure false
      else for_mount_containers (umount_fuse_sidecar p) p.containers >> pure true

  -- Reconcile for a pod that is there.
  unfoldable pub app_found : AppPod → Exec (Sys W) Bool
  unfolding should_in_queue last_exit
  app_found p =
      if not (should_in_queue p)
      then pure false
      else do t ← now h; by_time p (last_exit 0 p.statuses) t

  abbrev pub on_app_error : Error → Exec (Sys W) Bool
  on_app_error not_found = pure false
  on_app_error e = raise e

  -- Reconcile
  unfoldable pub app_reconcile : (name namespace : String) → Exec (Sys W) Bool
  app_reconcile name namespace = do
    r ← ask (c.read_app_pod name namespace)
    handle r app_found on_app_error

-- CreateFunc and UpdateFunc of the watch.
unfoldable pub app_watched : AppPod → Bool
unfolding should_in_queue
app_watched p = should_in_queue p

unfoldable pub app_update_watched : (new old : AppPod) → Bool
unfolding should_in_queue
app_update_watched new old =
    if new.resource_version == old.resource_version then false else should_in_queue new
