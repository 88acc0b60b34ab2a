-- ===== src/Tool/Params/Laws.antt =====
-- ValidateCreateFsParams of pkg/util/fs_util.go keeps the address of the metadata server.
use dingofs_csi.Common.{
  String, false, Option, none, some, Dict, ◌≡◌, refl, ◌∙◌, ◌==◌, Bool-cases, inl, inr, lookup,
  lookup-insert, insert, [], ◌∷◌, ◌++◌,
}
use dingofs_csi.Common.Integers.{ℤ}
use dingofs_csi.Common.Exec.{Result, ok, err}
use dingofs_csi.Tool.Params.{
  DingofsTool, Numbers, validate_create_fs_params, set_given, set_quota, with_s3, with_rados,
  with_size, with_volume, with_storage, with_quotas, is_kind, is_below_ten, text_or_empty,
}

-- A result that, if it is a tool, has the address of the metadata server and this quota.
abbrev pub Gives : (mds : String) → (quota : Dict) → Result DingofsTool → Type 0
Gives mds quota (ok ct) = (lookup "mdsaddr" ct.tool_params ≡ some mds) × (ct.quota_params ≡ quota)
Gives mds quota (err e) = Unit {0}

abbrev quota_entry : (key : String) → Option String → Dict
quota_entry key none = []
quota_entry key (some value) = (key, value) ∷ []

-- The quota that the secrets ask for.
unfoldable pub quota_of : (secrets : Dict) → Dict
unfolding lookup
quota_of secrets =
    quota_entry "capacity" (lookup "quotaCapacity" secrets)
    ++ quota_entry "inodes" (lookup "quotaInodes" secrets)

module _ (mds : String) where
  abbrev pub HasMds : Dict → Type 0
  HasMds params = lookup "mdsaddr" params ≡ some mds

  pub insert-HasMds :
      (key value : String) (params : Dict)
      → (key == "mdsaddr") ≡ false
      → HasMds params
      → HasMds (insert key value params)
  insert-HasMds key value params e h = lookup-insert key "mdsaddr" value params ∙ rw e h

  -- The tool has the address, and no quota yet.
  abbrev Fresh : DingofsTool → Type 0
  Fresh ct = HasMds ct.tool_params × (ct.quota_params ≡ [])

  set_given-Fresh :
      (key : String) (o : Option String) (ct : DingofsTool)
      → (key == "mdsaddr") ≡ false
      → Fresh ct
      → Fresh (set_given key o ct)
  set_given-Fresh key none ct e h = h
  set_given-Fresh key (some value) ct e (h, q) = (insert-HasMds key value ct.tool_params e h, q)

  with_s3-Gives :
      (a b c d : Option String) (ct : DingofsTool) → Fresh ct → Gives mds [] (with_s3 a b c d ct)
  with_s3-Gives (some a) (some b) (some c) (some d) ct (h, q) = (
    insert-HasMds _ _ _ refl
        (insert-HasMds _ _ _ refl (insert-HasMds _ _ _ refl (insert-HasMds _ _ _ refl h))),
    q,
  )
  with_s3-Gives none b c d ct h = tt
  with_s3-Gives (some a) none c d ct h = tt
  with_s3-Gives (some a) (some b) none d ct h = tt
  with_s3-Gives (some a) (some b) (some c) none ct h = tt

  with_rados-Gives :
      (a b c d : Option String) (ct : DingofsTool) → Fresh ct → Gives mds [] (with_rados a b c d ct)
  with_rados-Gives (some a) (some b) (some c) (some d) ct (h, q) = (
    insert-HasMds _ _ _ refl
        (insert-HasMds _ _ _ refl (insert-HasMds _ _ _ refl (insert-HasMds _ _ _ refl h))),
    q,
  )
  with_rados-Gives none b c d ct h = tt
  with_rados-Gives (some a) none c d ct h = tt
  with_rados-Gives (some a) (some b) none d ct h = tt
  with_rados-Gives (some a) (some b) (some c) none ct h = tt

  with_size-Gives :
      (size : String) (o : Option ℤ) (ct : DingofsTool)
      → Fresh ct
      → Gives mds [] (with_size size o ct)
  with_size-Gives size none ct h = tt
  with_size-Gives size (some n) ct h = elim (Bool-cases (is_below_ten n)) [
    | inl e ↦ rw e tt
    | inr e ↦ rw e (insert-HasMds "volumeSize" size _ refl h.0, h.1)
  ]

  with_volume-Gives :
      (numbers : Numbers) (a b : Option String) (ct : DingofsTool)
      → Fresh ct
      → Gives mds [] (with_volume numbers a b ct)
  with_volume-Gives numbers (some a) (some b) ct h =
      with_size-Gives b (numbers.parse_int64 b) _ (insert-HasMds "volumeName" a _ refl h.0, h.1)
  with_volume-Gives numbers none b ct h = tt
  with_volume-Gives numbers (some a) none ct h = tt

  with_storage-Gives :
      (numbers : Numbers) (a b : Option String) (params : Dict) (ct : DingofsTool)
      → Fresh ct
      → Gives mds [] (with_storage numbers a b params ct)
  with_storage-Gives numbers a b params ct h = elim (Bool-cases (is_kind "s3" a b)) [
    | inl e ↦ rw e (with_s3-Gives _ _ _ _ ct h)
    | inr e ↦ rw e (elim (Bool-cases (is_kind "rados" a b)) [
      | inl f ↦ rw f (
          with_rados-Gives _ _ _ _ _
            (set_given-Fresh "rados.clustername" (lookup "radosClustername" params) ct refl h))
      | inr f ↦ rw f (elim (Bool-cases (text_or_empty a == "volume")) [
        | inl g ↦ rw g (with_volume-Gives numbers _ _ ct h)
        | inr g ↦ rw g tt
      ])
    ])
  ]

  set_quota-params :
      (key : String) (o : Option String) (ct : DingofsTool)
      → (set_quota key o ct).tool_params ≡ ct.tool_params
  set_quota-params key none ct = refl
  set_quota-params key (some value) ct = refl

  quota_params-set_quota :
      (ct : DingofsTool) (capacity inodes : Option String)
      → ct.quota_params ≡ []
      → (set_quota "inodes" inodes (set_quota "capacity" capacity ct)).quota_params
        ≡ quota_entry "capacity" capacity ++ quota_entry "inodes" inodes
  unfolding insert
  quota_params-set_quota ct none none e = e
  quota_params-set_quota ct none (some i) e = rw e refl
  quota_params-set_quota ct (some c) none e = rw e refl
  quota_params-set_quota ct (some c) (some i) e = rw e refl

  with_quotas-Gives :
      (params : Dict) (r : Result DingofsTool)
      → Gives mds [] r
      → Gives mds (quota_of params) (with_quotas params r)
  unfolding quota_of
  with_quotas-Gives params (err e) h = tt
  with_quotas-Gives params (ok ct) (h, q) = (
    rw (set_quota-params "inodes" (lookup "quotaInodes" params) _)
        (rw (set_quota-params "capacity" (lookup "quotaCapacity" params) ct) h),
    quota_params-set_quota ct (lookup "quotaCapacity" params) (lookup "quotaInodes" params) q,
  )

  pub validate-Gives :
      (numbers : Numbers) (params : Dict) (ct : DingofsTool)
      → HasMds ct.tool_params
      → ct.quota_params ≡ []
      → Gives mds (quota_of params) (validate_create_fs_params numbers params ct)
  unfolding validate_create_fs_params
  validate-Gives numbers params ct h q =
      let typed = set_given "fstype" (lookup "fsType" params) ct in
      with_quotas-Gives params _ (
        with_storage-Gives numbers (lookup "fsType" params) (lookup "storagetype" params) params
          (set_given "storagetype" (lookup "storagetype" params) typed)
          (set_given-Fresh "storagetype" (lookup "storagetype" params) typed refl
            (set_given-Fresh "fstype" (lookup "fsType" params) ct refl (h, q))))
