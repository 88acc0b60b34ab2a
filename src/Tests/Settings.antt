-- ===== src/Tests/Settings.antt =====
-- The settings at concrete inputs.
use dingofs_csi.Common.{ℕ, true, false, [], ◌∷◌, none, some, ◌≡◌, ◌↔◌, ◌⊎◌, All}
use dingofs_csi.Settings.{MountPodPatch, PodAttr}
use dingofs_csi.Settings.Limits.{Quantities}
use dingofs_csi.Settings.Options.{Floats, gen_and_valid_options}
use dingofs_csi.Settings.Options.Laws.{Fits, Succeeds, gen_and_valid_options_iff}
use mathlib.Core.Path.{refl}
use dingofs_csi.Util.{replace_char}
use dingofs_csi.Settings.Security.{contains_one, escape_bash_str}
use dingofs_csi.Settings.Security.Laws.{bash_ansi_c, bash_ansi_c-escape_bash_str}
use dingofs_csi.Settings.Parse.{SettingsLib, parse_setting}
use dingofs_csi.Settings.Parse.Laws.{Holds, IsChecked, parse_setting-IsChecked}

abbrev test_quantities : Quantities
test_quantities = record {
  parse_quantity = λ t. some t;
  is_positive = λ t. true;
  value = λ t. 4096;
}

abbrev test_floats : Floats ℕ
test_floats = record { parse_float = λ t. some 2; scaled = λ n shift. 2048 }

abbrev empty_patch : MountPodPatch
empty_patch = record {
  pvc_selector = none;
  mount_image = "";
  image = "";
  labels = none;
  annotations = none;
  host_network = none;
  host_pid = none;
  liveness_probe = none;
  readiness_probe = none;
  startup_probe = none;
  lifecycle = none;
  resources = none;
  grace_period = none;
  volumes = some (record { name = "own"; source = "" } ∷ []);
  volume_devices = none;
  volume_mounts = some (record { name = "own"; path = "/own" } ∷ []);
  env = none;
  mount_options = none;
}

abbrev other_patch : MountPodPatch
other_patch = record empty_patch {
  volumes =
      some (record { name = "own"; source = "b" } ∷ record { name = "new"; source = "c" } ∷ []);
  volume_mounts =
      some (record { name = "new"; path = "/new" } ∷ record { name = "gone"; path = "/gone" } ∷ []);
}

gen_and_valid_options_iff_example :
    Succeeds (gen_and_valid_options test_floats 4096 ("buffer-size=2K" ∷ "ro" ∷ []))
    ↔ All (Fits test_floats 4096) ("buffer-size=2K" ∷ "ro" ∷ [])
gen_and_valid_options_iff_example =
    gen_and_valid_options_iff test_floats 4096 ("buffer-size=2K" ∷ "ro" ∷ [])

-- The second example of EscapeBashStr's comment, and how bash reads it.
escaped : (escape_bash_str "$'a'" ≡ "$'$\\'a\\''") × (bash_ansi_c "$'$\\'a\\''" ≡ some "$'a'")
unfolding escape_bash_str contains_one replace_char bash_ansi_c
escaped = (refl, refl)

bash_ansi_c-escape_bash_str_example :
    ((contains_one "a'$b" ≡ true) × (bash_ansi_c (escape_bash_str "a'$b") ≡ some "a'$b"))
    ⊎ ((contains_one "a'$b" ≡ false) × (escape_bash_str "a'$b" ≡ "a'$b"))
bash_ansi_c-escape_bash_str_example = bash_ansi_c-escape_bash_str "a'$b"

abbrev test_attr : PodAttr
test_attr = record {
  image = "dingofs";
  service_account_name = "csi";
  resources = record { requests = []; limits = [] };
  labels = [];
  annotations = [];
  host_network = false;
  host_pid = false;
  liveness_probe = none;
  readiness_probe = none;
  startup_probe = none;
  lifecycle = none;
  grace_period = none;
  volumes = none;
  volume_devices = none;
  volume_mounts = none;
  env = none;
}

abbrev pub test_lib : SettingsLib ℕ
test_lib = record {
  quantities = test_quantities;
  floats = test_floats;
  yaml_dict = λ t. some [];
  json_dict = λ t. none;
  yaml_setting = λ setting t. some setting;
  json_setting = λ setting t. none;
  marshal = λ m. some "{}";
  is_duration = λ t. true;
  substituted = λ pairs patch. patch;
  own_attr = test_attr;
}

parse_setting-IsChecked_example :
    Holds
      (IsChecked test_lib (("name", "fs") ∷ []) none ("buffer-size=2K" ∷ []))
      (parse_setting test_lib (some (("name", "fs") ∷ [])) none ("buffer-size=2K" ∷ []) none)
parse_setting-IsChecked_example =
    parse_setting-IsChecked test_lib (("name", "fs") ∷ []) none none ("buffer-size=2K" ∷ [])
