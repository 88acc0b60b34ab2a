-- ===== src/MountInfo.antt =====
-- pkg/controller/mountinfo.go: the table of mounts and of the pods' deletion states, and the items
-- of it that belong to a target path.
pub mod Paths
pub mod Laws
use dingofs_csi.Common.{
  ℕ, suc, String, Bool, true, false, not, ◌||◌, List, [], ◌∷◌, Option, none, some, Dict,
  if◌then◌else◌, ◌==◌, lookup, insert, has_prefix, trim_suffix, trim,
}
use Prim.Native.String.{◌++◌}
use dingofs_csi.Common.Exec.{Exec, pure, ◌>>=◌, ◌>>◌}
use dingofs_csi.Kube.{Pod}
use dingofs_csi.Kube.Host.{MountInfo, Stat, exists, missing, corrupted, expired, broken, Sys, Host}
use dingofs_csi.Kube.Host.Calls.{stat}
use Paths.{get_pod_uid, get_pv_name, pod_dir}

pub record MountInfoTable : Type 0 where
  pub mis : List MountInfo
  pub deleted_pods : List (String × Bool)

pub data TargetStatus : Type 0 where
  not_exist mounted not_mount corrupt unexpect : TargetStatus

-- `failed` tells whether `err` is set.
pub record TargetItem : Type 0 where
  pub target : String
  pub subpath : String
  pub count : ℕ
  pub inconsistent : Bool
  pub status : TargetStatus
  pub failed : Bool

pub record MountItem : Type 0 where
  pub pod_exist : Bool
  pub pod_deleted : Bool
  pub base_target : TargetItem
  pub sub_path_target : List TargetItem

unfoldable pub set_pod_status : Pod → MountInfoTable → MountInfoTable
unfolding insert
set_pod_status p t = record t { deleted_pods = insert p.uid p.deletion_timestamp t.deleted_pods }

-- The loop of setPodsStatus.
unfoldable pub statuses_from : List (String × Bool) → List Pod → List (String × Bool)
unfolding insert
statuses_from m [] = m
statuses_from m (p ∷ ps) = statuses_from (insert p.uid p.deletion_timestamp m) ps

-- `none` is the nil list.
unfoldable pub set_pods_status : Option (List Pod) → MountInfoTable → MountInfoTable
unfolding statuses_from
set_pods_status none t = record t { deleted_pods = [] }
set_pods_status (some ps) t = record t { deleted_pods = statuses_from [] ps }

unfoldable pub matches_path : String → Bool → MountInfo → Bool
unfolding has_prefix
matches_path path is_prefix mi =
    if is_prefix then has_prefix mi.mount_point path else path == mi.mount_point

unfoldable pub subpath_of : MountInfo → String
unfolding trim trim_suffix
subpath_of mi = trim b'/' (trim_suffix mi.root "//deleted")

unfoldable pub first_record : MountInfo → TargetItem
unfolding subpath_of
first_record mi = record {
  target = mi.mount_point;
  subpath = subpath_of mi;
  count = 1;
  inconsistent = false;
  status = not_exist;
  failed = false;
}

unfoldable pub next_record : MountInfo → TargetItem → TargetItem
unfolding subpath_of
next_record mi r = record r {
  inconsistent = r.inconsistent || not (r.subpath == subpath_of mi);
  count = suc r.count;
}

unfoldable pub add_record : MountInfo → List (String × TargetItem) → List (String × TargetItem)
unfolding lookup insert first_record next_record
add_record mi records = elim (lookup mi.mount_point records) [
  | none ↦ insert mi.mount_point (first_record mi) records
  | some r ↦ insert mi.mount_point (next_record mi r) records
]

-- The first loop of resolveTargetItem.
unfoldable pub records_from :
    String → Bool → List (String × TargetItem) → List MountInfo → List (String × TargetItem)
unfolding matches_path add_record
records_from path is_prefix records [] = records
records_from path is_prefix records (mi ∷ mis) =
    records_from path is_prefix
      (if matches_path path is_prefix mi then add_record mi records else records) mis

-- targetItem.check: the status by the answer of os.Stat.
unfoldable pub status_of : Bool → Stat → TargetItem → TargetItem
status_of is_mounted (exists inode) ti = record ti {
  status = if is_mounted then mounted else not_mount;
}
status_of is_mounted missing ti = record ti { status = not_exist }
status_of is_mounted (corrupted not_connected) ti = record ti {
  status = corrupt;
  failed = ti.failed || not is_mounted;
}
status_of is_mounted expired ti = record ti { status = unexpect; failed = true }
status_of is_mounted broken ti = record ti { status = unexpect; failed = true }

module _ {W : Type 0} (h : Host W) where
  unfoldable pub check : Bool → TargetItem → Exec (Sys W) TargetItem
  check is_mounted ti = do answer ← stat h ti.target; pure (status_of is_mounted answer ti)

  -- The second loop of resolveTargetItem.
  unfoldable pub check_all : List (String × TargetItem) → Exec (Sys W) (List TargetItem)
  check_all [] = pure []
  check_all ((mount_point, r) ∷ rs) = do ti ← check true r; tis ← check_all rs; pure (ti ∷ tis)

  unfoldable pub resolve_target_item :
      MountInfoTable → String → Bool → Exec (Sys W) (List TargetItem)
  resolve_target_item t path is_prefix = check_all (records_from path is_prefix [] t.mis)

  unfoldable pub base_target_of : String → List TargetItem → Exec (Sys W) TargetItem
  base_target_of target (ti ∷ []) = pure ti
  base_target_of target _ = check false (record {
    target = target;
    subpath = "";
    count = 0;
    inconsistent = false;
    status = not_exist;
    failed = false;
  })

  abbrev pub is_deleted : Option Bool → Bool
  is_deleted none = false
  is_deleted (some b) = b

  abbrev pub is_known : Option Bool → Bool
  is_known none = false
  is_known (some b) = true

  unfoldable pub resolve_valid :
      MountInfoTable → (target pod_uid pv_name dir : String) → Exec (Sys W) MountItem
  resolve_valid t target pod_uid pv_name dir = do
    items ← resolve_target_item t target false
    base ← base_target_of target items
    subs ← resolve_target_item t (dir ++ "/volume-subpaths/" ++ pv_name) true
    pure (record {
      pod_exist = is_known (lookup pod_uid t.deleted_pods);
      pod_deleted = is_deleted (lookup pod_uid t.deleted_pods);
      base_target = base;
      sub_path_target = subs;
    })

  -- resolveTarget; `none` is nil. A target that is not under a csi directory has no pod UID, so the
  -- length test of the source is the test of the UID.
  unfoldable pub resolve_target : MountInfoTable → String → Exec (Sys W) (Option MountItem)
  resolve_target t target =
      if get_pod_uid target == ""
      then pure none
      else if get_pv_name target == ""
      then pure none
      else resolve_valid t target (get_pod_uid target) (get_pv_name target) (pod_dir target)
        >>= λ mi. pure (some mi)
