-- ===== src/Tests/Tools.antt =====
-- File system tools, application pods and built mount pods at concrete inputs.
use dingofs_csi.Common.{true, false, [], ◌∷◌, none, some, ◌≡◌, refl, has_prefix}
use dingofs_csi.Common.Exec.{ok, err, not_found, Meets}
use dingofs_csi.Kube.{running}
use dingofs_csi.Common.Integers.{pos}
use dingofs_csi.Tool.Params.{Numbers}
use dingofs_csi.Tool.Listing.{fs_existed_in}
use dingofs_csi.Tool.Listing.Laws.{Answers, fs_existed_in_iff}
use dingofs_csi.Tool.Mounter.Config.{read_config, apply_flags, new_lines}
use dingofs_csi.Tool.Mounter.Laws.{
  first_value, value_for, has_line, setting_of, first_value-new_lines,
}
use dingofs_csi.App.{AppPod, AppCalls}
use dingofs_csi.Builder.{BuildSetting, new_mount_pod}
use dingofs_csi.Builder.Volumes.{host_path}
use dingofs_csi.Builder.Names.{WiredIfMade, first, new_mount_pod-IsWired}
use dingofs_csi.Builder.Command.{FuseSetting, mount_command}
use dingofs_csi.Builder.Reading.{parse_mnt_path-mount_command}
use dingofs_csi.Resource.MountPath.{parse_mnt_path}
use dingofs_csi.Tests.World.{TestWorld, test_host}

fs_existed_in_iff_example : Answers "fs1" "+-+\n| ID | NAME |\n| 1 | fs1 | INITED |\n+-+\n"
fs_existed_in_iff_example =
    fs_existed_in_iff "fs1" "+-+\n| ID | NAME |\n| 1 | fs1 | INITED |\n+-+\n"

-- The listing shows the file system, and one word less ends the program.
listed : fs_existed_in "fs1" "+-+\n| ID | NAME |\n| 1 | fs1 | INITED |\n+-+\n" ≡ ok true
unfolding fs_existed_in
listed = refl

abbrev test_numbers : Numbers
test_numbers = record { parse_int64 = λ t. some (pos 20) }

first_value-new_lines_example :
    first_value "a" (
      new_lines "id"
        ("a=1" ∷ "# b" ∷ [])
        (apply_flags ("a=2" ∷ []) (read_config ("a=1" ∷ "# b" ∷ []) [])))
    ≡ value_for "id" "a"
        (has_line "a" ("a=1" ∷ "# b" ∷ []))
        (setting_of "a" ("a=2" ∷ []) ("a=1" ∷ "# b" ∷ []))
unfolding has_prefix
first_value-new_lines_example =
    first_value-new_lines "id" "a" ("a=2" ∷ []) ("a=1" ∷ "# b" ∷ []) (refl, tt)

abbrev test_app : AppPod
test_app = record {
  name = "app";
  namespace = "default";
  labels = [];
  resource_version = "1";
  restarts_always = false;
  containers = record { name = "dfs-mount"; pre_stop = some ("umount" ∷ "/d" ∷ []) } ∷ [];
  phase = running;
  statuses =
      record {
        name = "app";
        ready = false;
        waiting = none;
        running = false;
        terminated = some (record { exit_code = 0; reason = ""; finished_at = 1999999999999 });
      }
      ∷ record {
        name = "dfs-mount";
        ready = true;
        waiting = none;
        running = true;
        terminated = none;
      }
      ∷ [];
}

abbrev test_app_calls : AppCalls TestWorld
test_app_calls = record {
  read_app_pod = λ name namespace w. (err not_found, w);
  exec_in = λ name namespace container command w. (record { stderr = ""; error = none }, w);
}

abbrev test_setting : BuildSetting
test_setting = record {
  volumes = record {
    name = "fs1";
    hash_val = "h";
    secret_name = "s";
    has_rsa_key = true;
    has_init_config = false;
    configs = ("c", "/c") ∷ [];
    cache_dirs = "/cache" ∷ [];
    cache_claims = [];
    cache_empty_dir = none;
    cache_inline_volumes = [];
    host_paths = [];
    csi_volumes = record { name = "dingofs-disk1"; source = host_path "/d" } ∷ [];
    csi_mounts = record { name = "dingofs-disk1"; path = "/d" } ∷ [];
    immutable = false;
    decimal = λ n. "1";
  };
  fuse = record { name = "fs1"; client_conf_path = "/c"; mount_path = "/dfs/v" };
  namespace = "kube-system";
  node_name = "node-1";
  volume_id = "v";
  unique_id = "v";
  fs_id = "";
  labels = [];
  annotations = [];
  deleted_delay = "";
  clean_cache = false;
  own_volumes = [];
  own_mounts = [];
  own_devices = [];
  mount_script = "";
}

new_mount_pod-IsWired_example :
    Meets
      (λ s. Unit {0})
      (new_mount_pod test_host test_setting "dingofs-node-1-v-abcdef")
      (λ r s. WiredIfMade r)
new_mount_pod-IsWired_example =
    new_mount_pod-IsWired test_host test_setting "dingofs-node-1-v-abcdef" (first _ _ refl, tt) tt
      tt

abbrev test_fuse : FuseSetting
test_fuse = record { name = "fs"; client_conf_path = "/c"; mount_path = "/dfs/v-a" }

parse_mnt_path-mount_command_example :
    parse_mnt_path (mount_command test_fuse) ≡ ok ("/dfs/v-a", "v-a")
parse_mnt_path-mount_command_example =
    parse_mnt_path-mount_command test_fuse "v-a" (refl, (refl, tt)) (refl, (refl, tt))
      (refl, refl, refl, (refl, refl, refl, (refl, refl, refl, tt))) refl
