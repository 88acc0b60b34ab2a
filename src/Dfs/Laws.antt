-- ===== src/Dfs/Laws.antt =====
-- What AuthFs of pkg/dingofs-driver/dingofs.go shows of the secrets.
use dingofs_csi.Common.{String, Bool, List, [], ◌∷◌, Dict, All, ◌≡◌, refl, ◌==◌, get_or_empty}
use dingofs_csi.Dfs.{shown_keys, stripped_keys, value_flags, variable_flags, auth_cmd_args}

-- The same values under the keys; a value under the same keys.
abbrev pub HaveSameValues : (s t : Dict) → List String → Type 0
HaveSameValues s t = All (λ key. get_or_empty key s ≡ get_or_empty key t)

abbrev pub HaveSameKeys : (s t : Dict) → List String → Type 0
HaveSameKeys s t = All (λ key. (get_or_empty key s == "") ≡ (get_or_empty key t == ""))

value_flags-same :
    (s t : Dict) (keys : List String)
    → HaveSameValues s t keys
    → value_flags s keys ≡ value_flags t keys
unfolding value_flags
value_flags-same s t [] e = refl
value_flags-same s t (key ∷ keys) (e, es) = rw e (rw (value_flags-same s t keys es) refl)

variable_flags-same :
    (s t : Dict) (keys : List String)
    → HaveSameKeys s t keys
    → variable_flags s keys ≡ variable_flags t keys
unfolding variable_flags
variable_flags-same s t [] e = refl
variable_flags-same s t (key ∷ keys) (e, es) = rw e (rw (variable_flags-same s t keys es) refl)

-- The command that AuthFs logs, and answers where it does not run it, does not depend on the
-- values of the keys token, secret-key, secret-key2 and passphrase: for the same format options,
-- configuration path and no-update setting it is the same for two compatible secrets that have
-- the same name, access keys, buckets and sub directory, and have or lack a value under the same
-- ones of these keys.
auth_cmd_args-AreAlike :
    (s t : Dict) (format_options conf_path : String) (no_update : Bool)
    → HaveSameValues s t ("name" ∷ shown_keys)
    → HaveSameKeys s t stripped_keys
    → auth_cmd_args s format_options conf_path no_update
      ≡ auth_cmd_args t format_options conf_path no_update
unfolding auth_cmd_args
auth_cmd_args-AreAlike s t format_options conf_path no_update (n, (a, (b, (c, es)))) k = cc (
  n,
  c,
  value_flags-same s t shown_keys (a, (b, (c, es))),
  variable_flags-same s t stripped_keys k,
)
