-- ===== src/Tool/Creation.antt =====
-- CreateFS of pkg/dingofs-driver/dingofs.go by the log of the commands that it runs.
use dingofs_csi.Common.{
  ◌++◌, String, Bool, true, false, List, [], ◌∷◌, some, Dict, ◌≡◌, ◌≢◌, lookup, get_or_empty,
}
use dingofs_csi.Common.Exec.{Result, ok, err, Error}
use dingofs_csi.Kube.Host.{Event, ran, Host}
use dingofs_csi.Tool.{dfs_cmd_path, tool_path, flag, flags, mds_addr_of, list_arguments}
use dingofs_csi.Tool.Params.{DingofsTool, Numbers}
use dingofs_csi.Tool.Params.Laws.{quota_of}
use dingofs_csi.Tool.Listing.{fs_existed_in}

-- The command that configures the quota of a file system.
abbrev quota_arguments : (mds fs_name : String) → (quota : Dict) → List String
quota_arguments mds fs_name quota =
    "config" ∷ "fs" ∷ flag "--" ("fsname", fs_name) ∷ flag "--" ("mdsaddr", mds) ∷ flags quota

-- The result of CreateFS by that of its command that creates, and the commands after that one: none
-- where it failed or no quota is asked for, or else the one that configures this quota.
pub data Configured (mds fs_name : String) (quota : Dict)
    : Result String → Result (Unit {0}) → List Event → Type 0 where
  failed : (e d : Error) → Configured mds fs_name quota (err e) (err d) []
  plain : (printed : String) → quota ≡ [] → Configured mds fs_name quota (ok printed) (ok tt) []
  limited :
      (printed output : String)
      → quota ≢ []
      → Configured mds fs_name quota
          (ok printed)
          (ok tt)
          (ran dfs_cmd_path (quota_arguments mds fs_name quota) (ok output) ∷ [])
  unlimited :
      (printed : String) (e d : Error)
      → quota ≢ []
      → Configured mds fs_name quota
          (ok printed)
          (err d)
          (ran dfs_cmd_path (quota_arguments mds fs_name quota) (err e) ∷ [])

-- What CreateFS has run after the commands of the log, by its result: nothing; the listing alone,
-- which failed or could not be read, or after which the parameters were refused; the listing alone,
-- which shows the file system; or the listing, which does not show it, the creation of this file
-- system on the same metadata server, and, where the secrets ask for a quota, the configuration of just this
-- quota for this file system there.
pub data Created (secrets : Dict) (l : List Event) : Result (Unit {0}) → List Event → Type 0 where
  refused : (e : Error) → Created secrets l (err e) l
  stopped :
      (mds : String) (a : Result String) (e : Error)
      → Created secrets l (err e) (ran tool_path (list_arguments mds) a ∷ l)
  present :
      (mds printed : String)
      → lookup "mdsAddr" secrets ≡ some mds
      → fs_existed_in (get_or_empty "name" secrets) printed ≡ ok true
      → Created secrets l (ok tt) (ran tool_path (list_arguments mds) (ok printed) ∷ l)
  made :
      (mds printed : String) (params : Dict) (a : Result String) (later : List Event)
      (r : Result (Unit {0}))
      → lookup "mdsAddr" secrets ≡ some mds
      → fs_existed_in (get_or_empty "name" secrets) printed ≡ ok false
      → lookup "mdsaddr" params ≡ some mds
      → lookup "fsname" params ≡ some (get_or_empty "name" secrets)
      → Configured mds (get_or_empty "name" secrets) (quota_of secrets) a r later
      → Created secrets l r (
          later
          ++ ran dfs_cmd_path ("create" ∷ "fs" ∷ flags params) a
            ∷ ran tool_path (list_arguments mds) (ok printed)
            ∷ l)

-- The log is the given one, after the commands.
abbrev After : (l : List Event) → (List Event → Type 0) → List Event → Type 0
After l P log = (later : List Event) × (log ≡ later ++ l) × P later

-- From the log after the listing.
abbrev Made :
    (fs_name : String)
    → DingofsTool
    → (l : List Event) → List String
    → Result (Unit {0})
    → List Event
    → Type 0
Made fs_name ct l arguments r log =
    (a : Result String) × (later : List Event) × (log ≡ later ++ ran dfs_cmd_path arguments a ∷ l)
    × Configured (mds_addr_of ct) fs_name ct.quota_params a r later

module _ {W : Type 0} (h : Host W) where
  module _ (fs_name : String) (ct : DingofsTool) where
    abbrev Set : (printed : String) → Result (Unit {0}) → List Event → Type 0
    Set printed = Configured (mds_addr_of ct) fs_name ct.quota_params (ok printed)

module _ {W : Type 0} (h : Host W) (numbers : Numbers) (secrets : Dict) (l : List Event) where
  abbrev ListedAs : (mds : String) (existed : Bool) → List Event → Type 0
  ListedAs mds existed log =
      (printed : String) × (fs_existed_in (get_or_empty "name" secrets) printed ≡ ok existed)
      × (log ≡ ran tool_path (list_arguments mds) (ok printed) ∷ l)
