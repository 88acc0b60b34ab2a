-- ===== src/App/Laws.antt =====
-- What pkg/controller/app_controller.go runs in the containers of an application's pod.
use dingofs_csi.Common.{ℕ, ◌+◌, ◌<◌, String, true, List, ◌∷◌, ◌++◌, some, ◌≡◌, ◌≢◌, ◌⊎◌, All}
use dingofs_csi.Common.Exec.{Result, Exec}
use dingofs_csi.Kube.{ContainerStatus, Terminated}
use dingofs_csi.Kube.Host.{Event, did, execute, Host}
use dingofs_csi.App.{AppPod, AppContainer, is_mount_container, last_exit, kill_command}

-- The container stands in the list.
pub data In (cn : AppContainer) : List AppContainer → Type 0 where
  head : (cns : List AppContainer) → In cn (cn ∷ cns)
  later : (other : AppContainer) (cns : List AppContainer) → In cn cns → In cn (other ∷ cns)

-- Every container of the application has ended.
abbrev pub IsLeft : List ContainerStatus → Type 0
IsLeft =
    All (λ s. (is_mount_container s.name ≡ true) ⊎ ((t : Terminated) × (s.terminated ≡ some t)))

-- At this time the last container of the application has ended more than five minutes ago.
abbrev pub IsLate : AppPod → (clock : ℕ) → Type 0
IsLate p clock = (last_exit 0 p.statuses ≢ 0) × (last_exit 0 p.statuses + 300000000000 < clock)

-- An event that may follow for the pod at the time that the clock shows: a command in one of its mount containers after all containers
-- of the application have ended, which is, until five minutes after the last of them, the
-- container's own command before it stops, and then the one that kills.
pub data IsStop (p : AppPod) (clock : ℕ) : Event → Type 0 where
  umounts :
      (cn : AppContainer) (command : List String) (r : Result (Unit {0}))
      → IsLeft p.statuses
      → In cn p.containers
      → is_mount_container cn.name ≡ true
      → cn.pre_stop ≡ some command
      → (IsLate p clock → ⊥)
      → IsStop p clock (did (execute p.name p.namespace cn.name command) r)
  kills :
      (cn : AppContainer) (r : Result (Unit {0}))
      → IsLeft p.statuses
      → In cn p.containers
      → is_mount_container cn.name ≡ true
      → IsLate p clock
      → IsStop p clock (did (execute p.name p.namespace cn.name kill_command) r)

-- The log, after such events.
abbrev pub Stopping : (p : AppPod) → (clock : ℕ) → (l log : List Event) → Type 0
Stopping p clock l log = (done : List Event) × (log ≡ done ++ l) × All (IsStop p clock) done
