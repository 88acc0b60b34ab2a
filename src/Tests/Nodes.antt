-- ===== src/Tests/Nodes.antt =====
-- The node service at concrete inputs.
use dingofs_csi.Common.{String, true, false, [], ◌∷◌, some, ◌≡◌, refl, ◌↔◌, ◌≤◌, arith, lookup}
use dingofs_csi.Common.Exec.{ok, pure}
use dingofs_csi.Controller.{Capability, mount, single_node_writer}
use dingofs_csi.MountPod.Safety.{IsJustified}
use dingofs_csi.Node.{NodeState, NodeCalls, Statfs, lock}
use dingofs_csi.Node.Options.{PublishRequest}
use dingofs_csi.Node.Publish.{publish_local, node_publish_volume}
use dingofs_csi.Node.Release.{node_unpublish_volume}
use dingofs_csi.Node.Release.Safety.{node_unpublish_volume-IsJustified}
use dingofs_csi.Node.Stats.{disk_usage_of, usages_of}
use dingofs_csi.Node.Stats.Bounds.{IsBalanced, usages_of-IsBalanced}
use dingofs_csi.Node.Laws.{node_requests-SameTargets}
use dingofs_csi.Node.Local.{Undone, publish_local-Undone}
use dingofs_csi.Node.Race.{running_on, Reached, start, begin, Reached-exclusive}
use dingofs_csi.Tests.World.{
  TestWorld, test_host, test_host-RetriesOnConflict, test_pod, world_with,
}

abbrev test_statfs : Statfs
test_statfs = record {
  block_size = 4096;
  blocks = 1000;
  free_blocks = 400;
  files = 500;
  free_files = 100;
}

abbrev test_calls : NodeCalls TestWorld String
test_calls = record {
  local_pv = true;
  join_path = λ a b c. c;
  dfs_mount = λ id target secrets context options. pure "fs";
  create_vol = λ fs id path. pure path;
  bind_target = λ fs source target. pure tt;
  is_mount_point = λ target w. (ok false, w);
  is_not_mount_point = λ target w. (ok false, w);
  is_missing = λ path w. (true, w);
  lstat = λ path w. (ok tt, w);
  dingofs_mounts = λ w. (ok "", w);
  statfs = λ path w. (some test_statfs, w);
}

abbrev free_node : NodeState TestWorld
free_node = record { targets = []; sys = world_with (test_pod ∷ []) 1 }

abbrev test_capability : Capability
test_capability = record { access = mount ("allow_other" ∷ []); mode = single_node_writer }

abbrev test_request : PublishRequest
test_request = record {
  volume_id = "pvc-1";
  target_path = "/t";
  capability = some test_capability;
  readonly = true;
  secrets = some (("name", "fs") ∷ []);
  volume_context = ("mountOptions", "client.common.logDir=/logs") ∷ [];
}

node_requests-SameTargets_example :
    (lookup "/u" (node_publish_volume test_host test_calls 2 test_request free_node).1.targets
      ≡ lookup "/u" free_node.targets)
    × (lookup "/u" (node_unpublish_volume test_host test_calls 2 "pvc-1" "/t" free_node).1.targets
        ≡ lookup "/u" free_node.targets)
node_requests-SameTargets_example =
    node_requests-SameTargets test_host test_calls 2 test_request "pvc-1" "/t" "/u" free_node

node_unpublish_volume-IsJustified_example :
    IsJustified test_host
      (node_unpublish_volume test_host test_calls 3 "pvc-1" "/t" free_node).1.sys.log
node_unpublish_volume-IsJustified_example =
    node_unpublish_volume-IsJustified test_host test_calls test_host-RetriesOnConflict 3 "pvc-1"
      "/t" free_node tt

publish_local-Undone_example :
    Undone "/t" 0
      (publish_local test_host test_calls "/dfs/a" "/t" free_node.sys).0
      (publish_local test_host test_calls "/dfs/a" "/t" free_node.sys).1.log
publish_local-Undone_example = publish_local-Undone test_host test_calls "/dfs/a" "/t" free_node.sys

usages_of-IsBalanced_example :
    IsBalanced (usages_of (disk_usage_of (some test_statfs))).0
    × IsBalanced (usages_of (disk_usage_of (some test_statfs))).1
usages_of-IsBalanced_example =
    usages_of-IsBalanced test_statfs (omega arith) (omega arith) (omega arith) (omega arith)

let_in : (lock "/t" free_node).0 ≡ true
unfolding lock lookup
let_in = refl

one_running : Reached ("/t" ∷ []) (lock "/t" free_node).1
one_running = begin "/t" (start free_node refl) let_in

Reached-exclusive_example :
    (running_on "/t" ("/t" ∷ []) ≤ 1)
    × (((lock "/t" (lock "/t" free_node).1).0 ≡ true) ↔ (running_on "/t" ("/t" ∷ []) ≡ 0))
Reached-exclusive_example = Reached-exclusive one_running "/t"
