-- ===== src/Settings/Parse/Laws.antt =====
-- What ParseSetting of pkg/config/dfs_setting.go has checked when it succeeds.
use dingofs_csi.Common.{
  ℕ, String, false, not, ◌&&◌, List, Option, none, some, Dict, ◌≡◌, refl, ◌==◌, All, if_cases,
  get_or_empty,
}
use dingofs_csi.Common.Exec.{Result, ok, err}
use dingofs_csi.Settings.{Claim, DfsSetting}
use dingofs_csi.Settings.Options.{gen_and_valid_options}
use dingofs_csi.Settings.Options.Laws.{Fits, gen_and_valid_options_iff}
use dingofs_csi.Settings.Parse.{
  SettingsLib, and_then, wrapped, apply_config_patch, gen_pod_attr_with_cfg, memory_limit_of,
  set_context, context_by, set_secrets, finish_setting, parse_setting,
}

-- What holds of the value, if there is one.
abbrev pub Holds : {A : Type 0} → (A → Type 0) → Result A → Type 0
Holds P (ok a) = P a
Holds P (err e) = Unit {0}

Holds-and_then :
    {A B : Type 0} (P : A → Type 0) (Q : B → Type 0) (r : Result A) (f : A → Result B)
    → Holds P r
    → ((a : A) → r ≡ ok a → P a → Holds Q (f a))
    → Holds Q (and_then r f)
unfolding and_then
Holds-and_then P Q (ok a) f p k = k a refl p
Holds-and_then P Q (err e) f p k = tt

Holds-wrapped : {A : Type 0} (P : A → Type 0) (r : Result A) → Holds P r → Holds P (wrapped r)
Holds-wrapped P (ok a) p = p
Holds-wrapped P (err e) p = tt

any_value : {A : Type 0} (r : Result A) → Holds (λ _. Unit {0}) r
any_value (ok a) = tt
any_value (err e) = tt

module _ {F : Type 0} (lib : SettingsLib F) (secrets : Dict) (pvc : Option Claim) where
  -- The setting has the name of the secrets, which is not empty, and the claim.
  abbrev pub IsNamed : DfsSetting → Type 0
  IsNamed st =
      (st.name ≡ get_or_empty "name" secrets)
      × ((get_or_empty "name" secrets == "") ≡ false)
      × (st.pvc ≡ pvc)

  set_secrets-IsNamed : (st : DfsSetting) → Holds IsNamed (set_secrets lib secrets pvc st)
  unfolding set_secrets
  set_secrets-IsNamed st =
      if_cases (Holds IsNamed) (get_or_empty "name" secrets == "") _ _ (λ _. tt)
        λ e.
          Holds-and_then (λ _. Unit {0}) IsNamed _ _ (any_value _)
            λ configs _ _.
              Holds-and_then (λ _. Unit {0}) IsNamed _ _ (any_value _) λ envs _ _. (refl, e, refl)

  context_by-IsNamed :
      (context : Option Dict) (st : DfsSetting)
      → IsNamed st
      → Holds IsNamed (context_by lib context st)
  unfolding set_context
  context_by-IsNamed none st n = n
  context_by-IsNamed (some context) st n =
      if_cases (Holds IsNamed)
        (not (get_or_empty "dingofs/mount-delete-delay" context == "")
          && not (lib.is_duration (get_or_empty "dingofs/mount-delete-delay" context)))
        _ _ (λ _. tt) (λ _. n)

  attr-IsNamed :
      (context : Option Dict) (st : DfsSetting)
      → IsNamed st
      → Holds IsNamed (gen_pod_attr_with_cfg lib st context)
  unfolding gen_pod_attr_with_cfg apply_config_patch
  attr-IsNamed context st n =
      Holds-and_then (λ _. Unit {0}) IsNamed _ _ (any_value _)
        λ attr _ _. Holds-and_then (λ _. Unit {0}) IsNamed _ _ (any_value _) λ options _ _. n

  -- What ParseSetting has checked.
  abbrev pub IsChecked : List String → DfsSetting → Type 0
  IsChecked options st = IsNamed st × All (Fits lib.floats (memory_limit_of lib st.attr)) options

  valid-Fits :
      (limit : ℕ) (options : List String)
      → Holds
          (λ _. All (Fits lib.floats limit) options)
          (wrapped (gen_and_valid_options lib.floats limit options))
  valid-Fits limit options = by (gen_and_valid_options lib.floats limit options) refl
    where
      by :
          (r : Result (List String))
          → gen_and_valid_options lib.floats limit options ≡ r
          → Holds (λ _. All (Fits lib.floats limit) options) (wrapped r)
      by (ok valid) e = (gen_and_valid_options_iff lib.floats limit options).0 (valid, e)
      by (err e) f = tt

  finish-IsChecked :
      (context : Option Dict) (options : List String) (st : DfsSetting)
      → IsNamed st
      → Holds (IsChecked options) (finish_setting lib context options st)
  unfolding finish_setting
  finish-IsChecked context options st n =
      Holds-and_then IsNamed (IsChecked options) _ _
        (Holds-wrapped IsNamed _ (attr-IsNamed context st n))
        λ filled _ n'.
          Holds-and_then (λ _. All (Fits lib.floats (memory_limit_of lib filled.attr)) options)
            (IsChecked options) _ _ (valid-Fits (memory_limit_of lib filled.attr) options)
            λ valid _ fits. (n', fits)

  -- When ParseSetting succeeds for given secrets, they have a name, the setting has that name and
  -- the claim, and each of the given mount options has at most one equals sign and, for the name
  -- buffer-size, a size that is at most the memory limit that the same setting gives the mount
  -- pod.
  pub parse_setting-IsChecked :
      (context : Option Dict) (options : List String)
      → Holds (IsChecked options) (parse_setting lib (some secrets) context options pvc)
  unfolding parse_setting
  parse_setting-IsChecked context options =
      Holds-and_then (λ _. Unit {0}) (IsChecked options) _ _ (any_value _)
        λ read _ _.
          Holds-and_then IsNamed (IsChecked options) _ _ (set_secrets-IsNamed read) λ named _ n.
            Holds-and_then IsNamed (IsChecked options) _ _ (context_by-IsNamed context named n)
              λ placed _ n'. finish-IsChecked context options placed n'
