-- ===== src/Provisioner/Laws.antt =====
-- When the provisioner of pkg/dingofs-driver/provisioner.go deletes, and at which sub path.
use dingofs_csi.Common.{
  String, Bool, true, false, ◌||◌, List, [], ◌∷◌, ◌++◌, none, some, Dict, ◌≡◌, refl, ◌∙◌, ◌==◌,
  if◌then◌else◌, any, any-append, lookup, insert, lookup-insert, get_or_empty,
}
use dingofs_csi.Common.Exec.{ok, pure, ◌>>=◌}
use dingofs_csi.Provisioner.{
  Volume, ProvisionOptions, Backend, delete_policy, attribute, uses_sub_path, check_for_sub_path,
  delete_provisioned, sub_path_for, insert_each, context_for, volume_for,
}

-- The volume is another one of the same class, is not being deleted, and has the same sub path.
abbrev pub SharesSubPath : Volume → Volume → Type 0
SharesSubPath volume pv =
    ((pv.name == volume.name) ≡ false)
    × (pv.deletion_timestamp ≡ false)
    × ((pv.storage_class_name == volume.storage_class_name) ≡ true)
    × ((attribute "subPath" pv == attribute "subPath" volume) ≡ true)

uses_sub_path_of : (volume pv : Volume) → SharesSubPath volume pv → uses_sub_path volume pv ≡ true
unfolding uses_sub_path
uses_sub_path_of volume pv (n, d, c, p) = rw (n, d, c, p) refl

any_of_middle :
    {A : Type 0} (p : A → Bool) (before later : List A) (a : A)
    → p a ≡ true
    → any p (before ++ a ∷ later) ≡ true
any_of_middle p before later a e = rw (any-append p before (a ∷ later), e) (by (any p before))
  where
    by : (b : Bool) → (b || true) ≡ true
    by true = refl
    by false = refl

get_or_empty-some :
    (key : String) (m : Dict) (value : String)
    → lookup key m ≡ some value
    → get_or_empty key m ≡ value
unfolding get_or_empty
get_or_empty-some key m value e = rw (get_or_empty, e) refl

module _ {W : Type 0} (b : Backend W) where
  listed :
      (volume : Volume) (pvs : List Volume) (s : W)
      → (attribute "pathPattern" volume == "") ≡ false
      → (volume.storage_class_name == "") ≡ false
      → (b.list_volumes s).0 ≡ ok pvs
      → any (uses_sub_path volume) pvs ≡ true
      → check_for_sub_path b volume (attribute "pathPattern" volume) s
        ≡ (ok false, (b.list_volumes s).1)
  unfolding check_for_sub_path ◌>>=◌ pure
  listed volume pvs s pattern class e shared = rw (pattern, class, e, shared) refl

  -- If the API server lists another volume of the same storage class that is not being deleted
  -- and has the same sub path, then Delete of a volume with a storage class, a path pattern and
  -- the policy Delete ends with success and has done nothing but ask for the list.
  pub delete_provisioned-shared :
      (volume pv : Volume) (before later : List Volume) (s : W)
      → volume.reclaim_policy ≡ delete_policy
      → (attribute "pathPattern" volume == "") ≡ false
      → (volume.storage_class_name == "") ≡ false
      → (b.list_volumes s).0 ≡ ok (before ++ pv ∷ later)
      → SharesSubPath volume pv
      → delete_provisioned b volume s ≡ (ok tt, (b.list_volumes s).1)
  unfolding delete_provisioned ◌>>=◌ pure check_for_sub_path
  delete_provisioned-shared volume pv before later s policy pattern class e shared =
      let found =
        any_of_middle (uses_sub_path volume) before later pv (uses_sub_path_of volume pv shared) in
      rw (policy, listed volume (before ++ pv ∷ later) s pattern class e found) refl

  lookup-insert_each :
      (entries m : Dict) (key : String)
      → lookup key entries ≡ none
      → lookup key (insert_each b entries m) ≡ lookup key m
  unfolding lookup
  lookup-insert_each [] m key e = refl
  lookup-insert_each (entry ∷ entries) m key e =
      let (fresh, rest) = missing (entry.0 == key) e in
      lookup-insert_each entries (insert entry.0 entry.1 m) key rest
      ∙ lookup-insert entry.0 key entry.1 m
      ∙ rw fresh refl
    where
      missing :
          (c : Bool)
          → (if c then some entry.1 else lookup key entries) ≡ none
          → (c ≡ false) × (lookup key entries ≡ none)
      missing true e = absurd cc
      missing false e = (refl, e)

  volume_for-sub_path :
      (o : ProvisionOptions) (parameters : Dict)
      → lookup "subPath" parameters ≡ none
      → attribute "subPath" (volume_for b o parameters) ≡ sub_path_for b o parameters
  unfolding volume_for context_for lookup
  volume_for-sub_path o parameters e =
      let own : Dict =
        ("subPath", sub_path_for b o parameters)
        ∷ ("capacity", b.format_int o.claim.storage)
        ∷ [] in
      get_or_empty-some "subPath" (insert_each b parameters own) (sub_path_for b o parameters)
        (lookup-insert_each parameters own "subPath" e)
