-- ===== src/Tests/Services.antt =====
-- The controllers and the CSI controller service at concrete inputs.
use dingofs_csi.Common.{
  ℕ, String, true, false, [], ◌∷◌, some, ◌≡◌, refl, ◌⊎◌, ◌==◌, if◌then◌else◌, arith, lookup,
}
use dingofs_csi.Common.Exec.{Result, ok}
use dingofs_csi.Kube.{Job}
use dingofs_csi.Kube.Host.{did, saw, patch_finalizers, delete_job}
use dingofs_csi.Resource.{finalizer, without}
use dingofs_csi.Reconcile.{mount_reconcile, job_reconcile}
use dingofs_csi.Reconcile.Laws.{IsOrphan, IsDue, mount_reconcile_cases, job_reconcile_cases}
use dingofs_csi.Controller.{
  already_exists, done, status, single_node_writer, mount, Capability, CreateRequest, Provider,
  ControllerState, has_support, is_valid_volume_capabilities, volume_of, after_create, quota_answer,
  create_recorded, create_with, create_volume,
}
use dingofs_csi.Controller.Laws.{create_volume_again}
use dingofs_csi.Tests.World.{test_host, deleted_pod, world_with}

mount_reconcile_cases_example :
    (IsOrphan test_host deleted_pod (world_with (deleted_pod ∷ []) 0).world
      × (r : Result (Unit {0})) × ((mount_reconcile test_host deleted_pod.name "kube-system"
            (world_with (deleted_pod ∷ []) 0)).1.log
          ≡ did
              (patch_finalizers deleted_pod.name deleted_pod.namespace
                (without finalizer deleted_pod.finalizers))
              r
            ∷ saw deleted_pod.name "kube-system" (ok deleted_pod)
            ∷ []))
    ⊎ ((IsOrphan test_host deleted_pod (world_with (deleted_pod ∷ []) 0).world → ⊥)
        × ((mount_reconcile test_host deleted_pod.name "kube-system"
              (world_with (deleted_pod ∷ []) 0)).1.log
            ≡ saw deleted_pod.name "kube-system" (ok deleted_pod) ∷ []))
mount_reconcile_cases_example =
    mount_reconcile_cases test_host deleted_pod.name "kube-system" deleted_pod
      (world_with (deleted_pod ∷ []) 0) refl

job_reconcile_cases_example :
    ((job_reconcile test_host "clean-cache" "kube-system" (world_with [] 0)).1.log ≡ [])
    ⊎ ((j : Job) × ((test_host.read_job "clean-cache" "kube-system" (world_with [] 0).world).0
          ≡ ok j)
        × (j.deletion_timestamp ≡ false)
        × IsDue test_host j (world_with [] 0).world
        × (r : Result (Unit {0})) × ((job_reconcile test_host "clean-cache" "kube-system"
              (world_with [] 0)).1.log
            ≡ did (delete_job j.name j.namespace) r ∷ []))
job_reconcile_cases_example =
    job_reconcile_cases test_host "clean-cache" "kube-system" (world_with [] 0)

abbrev mounted_writer : Capability
mounted_writer = record { access = mount ("ro" ∷ []); mode = single_node_writer }

abbrev test_provider : Provider ℕ String
test_provider = record {
  dfs_create_vol = λ id path secrets context w. (ok tt, w);
  dfs_delete_vol = λ id path secrets w. (ok tt, w);
  set_quota = λ secrets settings path capacity w. (ok tt, w);
  get_sub_path = λ id w. (ok "1", w);
  init_dfs = λ id secrets options w. (ok "fs", w);
  mount_options = λ settings. [];
  matches_dynamic_pv = λ id. true;
  join_path = λ a b. b;
  format_int = λ n. "1024";
}

abbrev test_state : ControllerState ℕ
test_state = record { vols = ("pvc-3", 512) ∷ []; locks = ("pvc-2", tt) ∷ []; world = 0 }

abbrev request : ℕ → CreateRequest
request n = record {
  name = "pvc-1";
  capabilities = some (mounted_writer ∷ []);
  required_bytes = n;
  parameters = [];
  secrets = [];
}

created :
    (create_volume test_provider (request 1024) test_state).0
    ≡ done (volume_of test_provider (request 1024))
unfolding create_volume create_with create_recorded after_create quota_answer
    is_valid_volume_capabilities has_support lookup
created = refl

valid : is_valid_volume_capabilities (mounted_writer ∷ []) ≡ true
unfolding is_valid_volume_capabilities has_support
valid = refl

create_volume_again_example :
    (create_volume test_provider
        (request 2048)
        (create_volume test_provider (request 1024) test_state).1
      ≡ (status already_exists, (create_volume test_provider (request 1024) test_state).1))
    × (volume_of test_provider (request 1024) ≡ volume_of test_provider (request 1024))
    × (lookup "pvc-1" (create_volume test_provider (request 1024) test_state).1.vols
        ≡ (if (request 1024).name == "pvc-1" then some 1024 else lookup "pvc-1" test_state.vols))
create_volume_again_example =
    create_volume_again test_provider (request 1024) (request 2048) (mounted_writer ∷ [])
      (volume_of test_provider (request 1024)) test_state "pvc-1" created refl refl valid
      (omega arith)
