-- ===== src/Tests/Builders.antt =====
-- Mount pods, jobs and provisioned volumes at concrete inputs.
use dingofs_csi.Common.{
  ℕ, true, false, [], ◌∷◌, none, some, ◌≡◌, refl, ==_refl, ◌==◌, lookup, get_or_empty,
}
use dingofs_csi.Common.Exec.{ok, err, pure, not_found}
use dingofs_csi.Mounting.{MountSetting, MountCalls, create_pod_or_add_ref}
use dingofs_csi.Mounting.Laws.{Placed, create_pod_or_add_ref-Placed}
use dingofs_csi.Provisioner.{Volume, Backend, delete_policy, attribute, delete_provisioned}
use dingofs_csi.Provisioner.Laws.{delete_provisioned-shared}
use dingofs_csi.Secrets.{Secret, check_and_clean_orphan_secret}
use dingofs_csi.Secrets.Laws.{Cleaned, check_and_clean_orphan_secret-Cleaned}
use dingofs_csi.Tests.World.{
  TestWorld, test_host, test_host-RetriesOnConflict, test_pod, world_with,
}

abbrev test_mount_calls : MountCalls TestWorld
test_mount_calls = record {
  read_secret = λ name namespace w. (err not_found, w);
  read_nodes = λ name w. (ok ("node-1" ∷ []), w);
  read_pod_log = λ name namespace container w. (ok "", w);
  new_mount_pod = λ st name. ok (record test_pod { name = name; annotations = some [] });
}

abbrev test_setting : MountSetting
test_setting = record {
  hash_val = "h1";
  unique_id = "pvc-1";
  mount_path = "/dfs/pvc-1";
  target_path = "t";
  owner = none;
}

create_pod_or_add_ref-Placed_example :
    Placed test_host "dingofs-node-1-pvc-1-abcdef" "t"
      (create_pod_or_add_ref test_host test_mount_calls 2 test_setting none
        "dingofs-node-1-pvc-1-abcdef"
        (world_with [] 0)).0
      (create_pod_or_add_ref test_host test_mount_calls 2 test_setting none
        "dingofs-node-1-pvc-1-abcdef"
        (world_with [] 0)).1.log
create_pod_or_add_ref-Placed_example =
    create_pod_or_add_ref-Placed test_host test_mount_calls test_host-RetriesOnConflict 2
      test_setting none "dingofs-node-1-pvc-1-abcdef" (world_with [] 0)

abbrev test_volume : Volume
test_volume = record {
  name = "pv-1";
  deletion_timestamp = false;
  storage = 1;
  attributes = ("pathPattern", "shared") ∷ ("subPath", "shared") ∷ [];
  publish_secret = ("s", "ns");
  expand_secret = none;
  access_modes = [];
  reclaim_policy = delete_policy;
  storage_class_name = "sc";
  mount_options = [];
}

abbrev sharing_volume : Volume
sharing_volume = record test_volume { name = "pv-2" }

abbrev test_backend : Backend ℕ
test_backend = record {
  get_secret = λ name namespace.
      pure (record { name = name; namespace = namespace; contents = []; finalizers = [] });
  list_volumes = λ n. (ok (test_volume ∷ sharing_volume ∷ []), n);
  patch_finalizers = λ secret fs. pure tt;
  dfs_create_vol = λ id path secrets context. pure tt;
  dfs_delete_vol = λ id path secrets context options. pure tt;
  expand = λ resolve t. t;
  parse_string = λ claim t. t;
  format_int = λ n. "1";
}

pattern_is_set : (attribute "pathPattern" test_volume == "") ≡ false
unfolding get_or_empty lookup
pattern_is_set = refl

same_path : (attribute "subPath" sharing_volume == attribute "subPath" test_volume) ≡ true
same_path = ==_refl (attribute "subPath" test_volume)

delete_provisioned-shared_example : delete_provisioned test_backend test_volume 7 ≡ (ok tt, 7)
delete_provisioned-shared_example =
    delete_provisioned-shared test_backend test_volume sharing_volume (test_volume ∷ []) [] 7 refl
      pattern_is_set refl refl (refl, refl, refl, same_path)

-- A secret of the old kind whose pod is gone.
abbrev orphan : Secret
orphan = record {
  name = "dingofs-old-secret";
  namespace = "kube-system";
  labels = [];
  contents = ("token", "x") ∷ ("check_mount.sh", "") ∷ [];
  created = 0;
}

check_and_clean_orphan_secret-Cleaned_example :
    Cleaned test_host orphan []
      (check_and_clean_orphan_secret test_host orphan (world_with [] 0)).0
      (check_and_clean_orphan_secret test_host orphan (world_with [] 0)).1.log
check_and_clean_orphan_secret-Cleaned_example =
    check_and_clean_orphan_secret-Cleaned test_host orphan (world_with [] 0)
