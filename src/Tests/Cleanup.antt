-- ===== src/Tests/Cleanup.antt =====
-- The goroutines of the pod driver at concrete inputs.
use dingofs_csi.Common.{[], ◌∷◌, some}
use Prim.Native.String.{◌++◌ as append}
use dingofs_csi.Jobs.{gen_job_name_by_volume_id}
use dingofs_csi.Common.Exec.{ok, err, other}
use dingofs_csi.Kube.{Pod}
use dingofs_csi.Mounting.{MountCalls}
use dingofs_csi.PodDriver.Cleanup.{clean_up_cache}
use dingofs_csi.PodDriver.Cleanup.Laws.{CleansGone, clean_up_cache-CleansGone}
use dingofs_csi.PodDriver.Stuck.{Minors, check_mount_pod_stuck}
use dingofs_csi.PodDriver.Stuck.Laws.{Ended, check_mount_pod_stuck-Ended}
use dingofs_csi.Tests.World.{TestWorld, test_host, test_pod, deleted_pod, world_with}
use dingofs_csi.Tests.Settings.{test_lib}

abbrev test_mount_calls : MountCalls TestWorld
test_mount_calls = record {
  read_secret = λ name namespace w. (ok [], w);
  read_nodes = λ host_name w. (ok [], w);
  read_pod_log = λ name namespace container w. (ok "", w);
  new_mount_pod = λ st pod_name. err other;
}

abbrev cached_pod : Pod
cached_pod = record test_pod {
  annotations = some (("dingofs-clean-cache", "true") ∷ ("dingfs-fsid", "fs") ∷ []);
}

clean_up_cache-CleansGone_example :
    CleansGone cached_pod
      (clean_up_cache test_host test_mount_calls test_lib 2 cached_pod (world_with [] 0)).1.log
unfolding CleansGone
clean_up_cache-CleansGone_example =
    clean_up_cache-CleansGone test_host test_mount_calls test_lib cached_pod 2 (world_with [] 0) tt

abbrev test_minors : Minors TestWorld
test_minors = record { load = λ path w. (some 7, w); delete = λ path w. (tt, w) }

check_mount_pod_stuck-Ended_example :
    Ended deleted_pod
      (append (gen_job_name_by_volume_id test_host deleted_pod.name) "-abort-fuse")
      []
      (check_mount_pod_stuck test_host test_minors 2 deleted_pod
        (world_with (deleted_pod ∷ []) 0)).1.log
check_mount_pod_stuck-Ended_example =
    check_mount_pod_stuck-Ended test_host test_minors 2 deleted_pod
      (world_with (deleted_pod ∷ []) 0)
