-- ===== src/Mounting.antt =====
-- DMount of pkg/builder/mount.go with createPodOrAddRef and waitUtilMountReady, and SetMountLabel,
-- GetErrContainerLog and CreateOrUpdateSecret of pkg/util/resource/pod.go. NewMountPod is an argument;
-- affinity, scheduler and tolerations, which are copied from the application's pod, are not modelled.
pub mod Laws
use dingofs_csi.Common.{
  ℕ, zero, suc, String, Bool, true, false, not, ◌||◌, List, [], ◌∷◌, ◌++◌, Option, none, some, Dict,
  ◌==◌, if◌then◌else◌, any, insert, last_chars,
}
use Prim.Native.String
use dingofs_csi.Common.Exec.{
  Result, ok, err, Error, not_found, timeout, other, running, panicked, Exec, pure, raise, handle,
  attempt, ◌>>=◌, ◌>>◌,
}
use dingofs_csi.Kube.{Pod, ContainerStatus, annotations_of}
use dingofs_csi.Kube.Host.{
  add_labels, create_secret, update_secret, make_dir, Stat, corrupted, Sys, Host,
}
use dingofs_csi.Kube.Host.Calls.{
  act, get_pod, stat, path_exists, with_pod_lock, create_pod_with_service,
}
use dingofs_csi.Resource.{pod_hash_label_key, reference_key}
use dingofs_csi.Resource.Ready.{wait_util_mount_ready}
use dingofs_csi.Resource.Umount.{umount_all}
use dingofs_csi.MountPod.{add_ref_of_mount}
use dingofs_csi.Unpublish.{gen_mount_pod_name}

-- The fields of the setting that are read; the owner is the UID of the persistent volume.
pub record MountSetting : Type 0 where
  pub hash_val : String
  pub unique_id : String
  pub mount_path : String
  pub target_path : String
  pub owner : Option String

pub record AppInfo : Type 0 where
  pub name : String
  pub namespace : String

pub record MountCalls (W : Type 0) : Type 0 where
  -- the UIDs of the owners of a secret, the names of the nodes with this label of the host name, a
  -- container's log
  pub read_secret : (name namespace : String) → W → Result (List String) × W
  pub read_nodes : (host_name : String) → W → Result (List String) × W
  pub read_pod_log : (name namespace container : String) → W → Result String × W
  -- NewMountPod of the builder
  pub new_mount_pod : MountSetting → (pod_name : String) → Result Pod

module _ {W : Type 0} where
  unfoldable pub ask : {A : Type 0} → (W → A × W) → Exec (Sys W) A
  ask f s = let (a, w) = f s.world in (ok a, record s { world = w })

  unfoldable pub given : {A : Type 0} → Result A → Exec (Sys W) A
  given r s = (r, s)

-- The owners after the merge: only the first owner of the new secret counts.
abbrev pub merged_owners : List String → Option String → List String
merged_owners old none = old
merged_owners old (some owner) = if any (λ uid. uid == owner) old then old else old ++ owner ∷ []

-- `podName[len(podName)-n:]`
abbrev pub end_of : {W : Type 0} → Option String → Exec (Sys W) String
end_of none = raise panicked
end_of (some t) = pure t

abbrev pub secret_name_of : MountSetting → String
secret_name_of st = String.◌++◌ "dingofs-" (String.◌++◌ st.unique_id "-secret")

-- The first container that is not ready.
abbrev pub first_not_ready : List ContainerStatus → Option ContainerStatus
first_not_ready [] = none
first_not_ready (c ∷ cs) = if c.ready then first_not_ready cs else some c

abbrev pub first_of {ℓ} : {A : Type ℓ} → Option A → Option A → Option A
first_of none later = later
first_of (some a) later = some a

abbrev pub is_only_node : String → List String → Bool
is_only_node name (node ∷ []) = node == name
is_only_node name _ = false

module _ {W : Type 0} (h : Host W) (c : MountCalls W) where
  -- SetMountLabel
  unfoldable pub set_mount_label : AppInfo → Exec (Sys W) (Unit {0})
  set_mount_label app = do
    p ← get_pod h app.name app.namespace
    act h (add_labels p.name p.namespace (("dingofs-uniqueid", "") ∷ []))

  abbrev pub create_if_absent : (name : String) → Error → Exec (Sys W) (Unit {0})
  create_if_absent name not_found = act h (create_secret name)
  create_if_absent name e = raise e

  unfoldable pub write_secret_once : MountSetting → Exec (Sys W) (Unit {0})
  write_secret_once st = do
    r ← ask (c.read_secret (secret_name_of st) h.namespace)
    handle r (λ owners. act h (update_secret (secret_name_of st) (merged_owners owners st.owner)))
        (create_if_absent (secret_name_of st))

  -- CreateOrUpdateSecret
  unfoldable pub create_or_update_secret : MountSetting → Exec (Sys W) (Unit {0})
  create_or_update_secret st = h.retry_on_conflict (write_secret_once st)

  -- The directory at the mount path.
  unfoldable pub unmount_if_corrupted : ℕ → String → Stat → Exec (Sys W) (Unit {0})
  unmount_if_corrupted fuel path (corrupted true) = umount_all h fuel path
  unmount_if_corrupted fuel path _ = pure tt

  unfoldable pub make_mount_path : ℕ → String → Exec (Sys W) (Unit {0})
  make_mount_path fuel path = do
    found ← path_exists h path
    if found
        then pure tt
        else do st ← stat h path; unmount_if_corrupted fuel path st; act h (make_dir path)

  -- The pod with the reference, the hash and the unique ID; the two maps are never nil.
  abbrev pub labelled : MountSetting → (id : String) → Pod → Pod
  labelled st id p = record p {
    annotations = some (insert (reference_key h st.target_path) st.target_path (annotations_of p));
    labels = insert "pod-uniqueid" id (insert pod_hash_label_key st.hash_val p.labels);
  }

  abbrev pub moved_to_selector : Pod → Pod
  moved_to_selector p = record p {
    spec = record p.spec {
      node_name = "";
      node_selector = ("kubernetes.io/hostname", p.spec.node_name) ∷ [];
    };
  }

  -- The application's pod is read, for fields that are not modelled; its absence is only logged.
  abbrev pub read_app : Option AppInfo → Exec (Sys W) (Unit {0})
  read_app none = pure tt
  read_app (some app) =
      if app.name == "" then pure tt else do _ ← attempt (get_pod h app.name app.namespace); pure tt

  abbrev pub placed_by : Option AppInfo → Pod → Bool → Exec (Sys W) Pod
  placed_by app p false = pure p
  placed_by app p true = read_app app >> pure (moved_to_selector p)

  -- The pod is left to the scheduler where the host name label selects just its node.
  unfoldable pub place : Option AppInfo → Pod → Exec (Sys W) Pod
  place app p = do
    nodes ← ask (c.read_nodes p.spec.node_name)
    by_nodes ← handle nodes (λ names. pure (is_only_node p.spec.node_name names)) (λ e. pure false)
    placed_by app p by_nodes

  unfoldable pub create_mount_pod : MountSetting → Option AppInfo → String → Exec (Sys W) (Unit {0})
  create_mount_pod st app pod_name = do
    p ← given (c.new_mount_pod st pod_name)
    id ← end_of (last_chars 6 pod_name)
    placed ← place app (labelled st id p)
    create_or_update_secret st
    create_pod_with_service h placed

  abbrev pub on_old_error : MountSetting → Option AppInfo → String → Error → Exec (Sys W) (Unit {0})
  on_old_error st app pod_name not_found = create_mount_pod st app pod_name
  on_old_error st app pod_name timeout = raise other
  on_old_error st app pod_name e = raise e

  -- The loop that waits for an old pod to be gone, with fuel.
  unfoldable pub create_or_refer :
      ℕ → MountSetting → Option AppInfo → String → Exec (Sys W) (Unit {0})
  create_or_refer zero st app pod_name = raise running
  create_or_refer (suc fuel) st app pod_name = do
    r ← attempt (get_pod h pod_name h.namespace)
    handle r
        (λ p.
          if p.deletion_timestamp
          then create_or_refer fuel st app pod_name
          else create_or_update_secret st >> add_ref_of_mount h st.target_path pod_name)
        (on_old_error st app pod_name)

  abbrev pub with_mount_path : MountSetting → (suffix : String) → MountSetting
  with_mount_path st suffix = record st { mount_path = String.◌++◌ st.mount_path suffix }

  -- createPodOrAddRef, with the setting's mount path after it.
  unfoldable pub create_pod_or_add_ref :
      ℕ → MountSetting → Option AppInfo → String → Exec (Sys W) String
  create_pod_or_add_ref fuel st app pod_name = do
    suffix ← end_of (last_chars 7 pod_name)
    make_mount_path fuel (with_mount_path st suffix).mount_path
    create_or_refer fuel (with_mount_path st suffix) app pod_name
    pure (with_mount_path st suffix).mount_path

  abbrev pub log_of : Pod → Option ContainerStatus → Exec (Sys W) (Unit {0})
  log_of p none = pure tt
  log_of p (some status) = do _ ← ask (c.read_pod_log p.name p.namespace status.name); pure tt

  -- GetErrContainerLog, whose text only goes into the error's message.
  unfoldable pub get_err_container_log : String → Exec (Sys W) (Unit {0})
  get_err_container_log pod_name = do
    p ← get_pod h pod_name h.namespace
    log_of p (first_of (first_not_ready p.init_statuses) (first_not_ready p.container_statuses))

  -- waitUtilMountReady
  unfoldable pub wait_mount_ready : ℕ → (path pod_name : String) → Exec (Sys W) (Unit {0})
  wait_mount_ready fuel path pod_name = do
    r ← attempt (wait_util_mount_ready h fuel path)
    handle r pure (λ e. attempt (get_err_container_log pod_name) >> raise other)

  abbrev pub label_app : Option AppInfo → Exec (Sys W) (Unit {0})
  label_app none = pure tt
  label_app (some app) =
      if app.name == "" || app.namespace == "" then pure tt else set_mount_label app

  -- What DMount does with the lock of the hash held: the pod's name and the mount path.
  unfoldable pub bootstrap : ℕ → MountSetting → Option AppInfo → Exec (Sys W) (String × String)
  bootstrap fuel st app = do
    pod_name ← gen_mount_pod_name h st.unique_id st.hash_val
    label_app app
    path ← create_pod_or_add_ref fuel st app pod_name
    pure (pod_name, path)

  -- DMount, for a setting with its hash.
  unfoldable pub d_mount : ℕ → MountSetting → Option AppInfo → Exec (Sys W) (Unit {0})
  d_mount fuel st app = do
    made ← with_pod_lock h st.hash_val (bootstrap fuel st app)
    wait_mount_ready fuel made.1 made.0
