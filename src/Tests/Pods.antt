-- ===== src/Tests/Pods.antt =====
-- Mount pods over the test host.
use dingofs_csi.Common.{true, false, [], ◌∷◌, none, some, ◌≡◌, refl, arith, lookup, insert}
use dingofs_csi.Common.Exec.{ok, pure, raise, ◌>>=◌}
use dingofs_csi.Kube.{annotations_of}
use dingofs_csi.MountInfo.{MountInfoTable, TargetItem, MountItem, not_exist}
use dingofs_csi.Resource.{is_reference, reference_key, replace_pod_annotation, delete_delay_at_key}
use dingofs_csi.Resource.Umount.{umount_all, says_not_mounted}
use dingofs_csi.Resource.Counting.{IsPlainKey}
use dingofs_csi.Kube.Host.Calls.{act, get_pod}
use dingofs_csi.MountPod.{add_ref_by, add_ref_to, add_ref_once, add_ref_of_mount, d_umount}
use dingofs_csi.MountPod.Safety.{IsJustified, d_umount-IsJustified}
use dingofs_csi.MountPod.Refs.{Referenced, add_ref_of_mount-Referenced}
use dingofs_csi.PodDriver.Annotations.{check_annotations}
use dingofs_csi.PodDriver.Laws.{check_annotations-IsJustified}
use dingofs_csi.PodDriver.Redeploy.{pod_error_handler, pod_pending_handler}
use dingofs_csi.PodDriver.Deletion.{PodAttr, PodPatch, pod_deleted_handler}
use dingofs_csi.PodDriver.Creation.{IsFresh, resource_handlers-IsFresh}
use dingofs_csi.PodDriver.Renewal.{pod_deleted_handler-IsFresh}
use dingofs_csi.PodDriver.Recover.{recover_target}
use dingofs_csi.PodDriver.Recovery.{Recovered, recover_target_cases}
use dingofs_csi.PodDriver.Waiting.{Unmounted, umount_all_ends}
use dingofs_csi.Unpublish.{dfs_unmount}
use dingofs_csi.Unpublish.Laws.{dfs_unmount-IsJustified}
use dingofs_csi.Reconcile.{pod_reconcile}
use dingofs_csi.Reconcile.Locking.{pod_reconcile-Locks}
use dingofs_csi.PodDriver.{run}
use dingofs_csi.PodDriver.Locking.{Locks, run-Locks}
use dingofs_csi.Tests.World.{
  TestWorld, test_host, test_host-RetriesOnConflict, test_pod, unused_pod, deleted_pod, failed_pod,
  world_with,
}

abbrev test_table : MountInfoTable
test_table = record { mis = []; deleted_pods = [] }

-- The app pod is gone: its reference is dropped, and the pod is then deleted.
check_annotations-IsJustified_example :
    IsJustified test_host
      (check_annotations test_host test_table test_pod (world_with (unused_pod ∷ []) 0)).1.log
check_annotations-IsJustified_example =
    check_annotations-IsJustified test_host test_table test_pod (world_with (unused_pod ∷ []) 0) tt

d_umount-IsJustified_example :
    IsJustified test_host
      (d_umount test_host "dingofs-node-1-pvc-1-abcdef" (world_with (unused_pod ∷ []) 0)).1.log
d_umount-IsJustified_example =
    d_umount-IsJustified test_host "dingofs-node-1-pvc-1-abcdef" (world_with (unused_pod ∷ []) 0)
      test_host-RetriesOnConflict tt

abbrev test_attr : PodAttr
test_attr = record {
  labels = test_pod.labels;
  annotations = test_pod.annotations;
  host_aliases = "";
  host_network = true;
  host_pid = true;
  host_ipc = false;
  grace_period = none;
  image = "dingofs:new";
  resources = record { requests = []; limits = [] };
  liveness_probe = "";
  readiness_probe = "";
  startup_probe = "";
  lifecycle = "";
}

abbrev test_patch : PodPatch TestWorld
test_patch p s = (ok test_attr, s)

pod_deleted_handler-IsFresh_example :
    IsFresh (pod_deleted_handler test_host test_patch 3 deleted_pod (world_with [] 0)).1.log
pod_deleted_handler-IsFresh_example =
    pod_deleted_handler-IsFresh test_host test_patch (λ q s. refl) 3 deleted_pod (world_with [] 0)
      tt

resource_handlers-IsFresh_example :
    IsFresh (pod_error_handler test_host 3 failed_pod (world_with (failed_pod ∷ []) 0)).1.log
    × IsFresh (pod_pending_handler test_host 3 failed_pod (world_with (failed_pod ∷ []) 0)).1.log
resource_handlers-IsFresh_example =
    resource_handlers-IsFresh test_host 3 failed_pod (world_with (failed_pod ∷ []) 0) tt

added :
    (add_ref_of_mount test_host "u" "dingofs-node-1-pvc-1-abcdef" (world_with (test_pod ∷ []) 0)).0
    ≡ ok tt
unfolding add_ref_of_mount add_ref_once add_ref_to add_ref_by get_pod replace_pod_annotation act
    lookup reference_key ◌>>=◌ pure raise
added = refl

add_ref_of_mount-Referenced_example :
    Referenced test_host "dingofs-node-1-pvc-1-abcdef" "u"
      (add_ref_of_mount test_host "u" "dingofs-node-1-pvc-1-abcdef"
        (world_with (test_pod ∷ []) 0)).1.log
add_ref_of_mount-Referenced_example =
    add_ref_of_mount-Referenced test_host "u" "dingofs-node-1-pvc-1-abcdef"
      (world_with (test_pod ∷ []) 0) test_host-RetriesOnConflict added

plain :
    IsPlainKey test_host delete_delay_at_key
      (insert (reference_key test_host "u") "u" (annotations_of test_pod))
unfolding insert reference_key is_reference
plain = (refl, (refl, tt))

new : lookup (reference_key test_host "u") (annotations_of test_pod) ≡ none
unfolding lookup reference_key
new = refl

abbrev test_item : TargetItem
test_item = record {
  target = "t";
  subpath = "";
  count = 2;
  inconsistent = false;
  status = not_exist;
  failed = false;
}

abbrev test_mount_item : MountItem
test_mount_item = record {
  pod_exist = true;
  pod_deleted = true;
  base_target = test_item;
  sub_path_target = [];
}

recover_target_cases_example :
    Recovered test_host not_exist test_item test_mount_item
      (world_with [] 2)
      (recover_target test_host 1 "/dfs/pvc-1" test_item test_mount_item (world_with [] 2))
recover_target_cases_example =
    recover_target_cases test_host 1 "/dfs/pvc-1" test_item test_mount_item (world_with [] 2)

says : says_not_mounted "umount: /t: not mounted." ≡ true
unfolding says_not_mounted
says = refl

umount_all_ends_example :
    ((umount_all test_host 5 "t" (world_with [] 2)).0 ≡ ok tt)
    × Unmounted test_host 2 "t" [] (umount_all test_host 5 "t" (world_with [] 2)).1.log
umount_all_ends_example =
    umount_all_ends test_host 2 5 "t" (world_with [] 2) (omega arith)
      (refl, (refl, ("umount: /t: not mounted.", refl, says)))

-- A failed pod that is deployed again, under its lock.
run-Locks_example :
    Locks
      (run test_host test_patch 3 test_table
        (some failed_pod)
        (world_with (failed_pod ∷ []) 0)).1.log
      none
run-Locks_example =
    run-Locks test_host test_patch (λ q s. refl) 3 test_table (some failed_pod)
      (world_with (failed_pod ∷ []) 0) tt

dfs_unmount-IsJustified_example :
    IsJustified test_host
      (dfs_unmount test_host 5 "pvc-1-abcdef" "t" (world_with (test_pod ∷ []) 2)).1.log
dfs_unmount-IsJustified_example =
    dfs_unmount-IsJustified test_host test_host-RetriesOnConflict 5 "pvc-1-abcdef" "t"
      (world_with (test_pod ∷ []) 2) tt

pod_reconcile-Locks_example :
    Locks
      (pod_reconcile test_host test_patch 3 "dingofs-node-1-pvc-1-abcdef" "kube-system"
        (world_with (failed_pod ∷ []) 0)).1.log
      none
pod_reconcile-Locks_example =
    pod_reconcile-Locks test_host test_patch (λ q s. refl) 3 "dingofs-node-1-pvc-1-abcdef"
      "kube-system" (world_with (failed_pod ∷ []) 0) tt
