-- ===== src/Lib.antt =====
-- Models of dingofs-csi, the CSI driver of DingoFS, and theorems about them.
--
-- The driver serves each volume of a node by a mount pod that runs the file system client. The
-- targets that use a volume are recorded as references in the annotations of its mount pod, one
-- annotation per target. The node service adds a reference when it publishes a volume and drops it
-- when it unpublishes it (pkg/builder/mount.go). Controllers watch the mount pods
-- (pkg/controller): they drop references of app pods that are gone, delete a mount pod that nothing
-- uses, create one again that was deleted while targets use it, and bind broken targets again. The
-- parts meet only in the API server, the node's mounts and a table of locks, and others change
-- pods at any time; so the models are functions over a hidden world, and what they ask and are
-- answered stands in a log about which the theorems speak.
--
--   Common: lists, texts, Go maps as association lists, and Exec, the monad of Go functions that
--     return a value or an error and act on the world, with rules for pre- and postconditions.
--   Kube: the Kubernetes objects with the fields that are read. Kube/Status: the tests of
--     pkg/util/resource/pod.go and getPodStatus of pkg/controller/pod_driver.go. Kube/Host: the
--     world as an interface (API server, mounts, clock, hashes, parsers of Go's library) with the
--     log. Kube/Host/Calls: pkg/k8sclient/client.go as it is called, and util.GetPodLock.
--     Kube/Host/Rules: the rules of the calls.
--   Resource: references, patches and ShouldDelay of pkg/util/resource/pod.go. Resource/MountPath:
--     GetMountPathOfPod and parseMntPath. Resource/Ready: WaitUtilMountReady and mkrMp.
--     Resource/Umount: the loop of lazy unmounts, and UmountPath. Resource/Counting: GetRef.
--   Util: the helpers of pkg/util/util.go on texts, lists and maps.
--   MountPod: AddRefOfMount, DUmount, JUmount and GetMountRef of pkg/builder/mount.go, each one
--     attempt under retry.RetryOnConflict. MountPod/Unmount: UmountTarget.
--   Mounting: DMount of pkg/builder/mount.go with createPodOrAddRef, SetMountLabel,
--     CreateOrUpdateSecret and GetErrContainerLog of pkg/util/resource/pod.go.
--   Jobs: DeleteVolume, CleanCache and waitUtilJobCompleted of pkg/builder/mount.go, and the
--     jobs' names of pkg/builder/job.go.
--   Unpublish: DfsUnmount of pkg/dingofs-driver/dingofs.go, which composes them, and GenMountPodName
--     of pkg/util/resource/pod.go.
--   MountInfo: pkg/controller/mountinfo.go. MountInfo/Paths: getPodUid and getPVName.
--   PodDriver: Run of pkg/controller/pod_driver.go. PodDriver/Annotations: checkAnnotations.
--     PodDriver/Handlers: podReadyHandler. PodDriver/Redeploy: podErrorHandler and
--     podPendingHandler. PodDriver/Deletion: podDeletedHandler and applyConfigPatch.
--     PodDriver/Recover: recover and recoverTarget. PodDriver/Quiet: what takes no lock.
--     PodDriver/Cleanup: CleanUpCache, with
--     CleanCache of pkg/builder/mount.go. PodDriver/Stuck: checkMountPodStuck and doAbortFuse.
--   Reconcile: Reconcile and the watch filters of pkg/controller/mount_controller.go,
--     job_controller.go and pod_controller.go, and pkg/util/resource/job.go.
--   Controller: pkg/dingofs-driver/controller.go with VolumeLocks of pkg/util/resource/volume.go,
--     over the interface Provider of pkg/dingofs-driver/dingofs.go.
--   Node: pkg/dingofs-driver/node.go. Node/Target: CreateTarget and UnmountAndDelete of
--     pkg/dingofs-driver/dingofs.go. Node/Options, Node/Publish, Node/Release, Node/Stats:
--     NodePublishVolume, NodeUnpublishVolume and NodeGetVolumeStats. Node/Race: requests at the same
--     time, as a relation whose steps are lock, unlock and what happens between them.
--   Settings: pkg/config/dfs_setting.go. Settings/Patch: IsMatch and Merge. Settings/Limits:
--     ParsePodResources. Settings/Options: format options, mount options and sizes.
--     Settings/Security: pkg/util/security/escape.go. Settings/Parse: ParseSetting.
--   Secrets: pkg/controller/secret_controller.go.
--   Provisioner: pkg/dingofs-driver/provisioner.go and pkg/util/resource/pvc.go.
--   Tool: dingofsTool of pkg/util/fs_util.go and CreateFS of pkg/dingofs-driver/dingofs.go.
--     Tool/Params, Tool/Listing: its parameters and the table of file systems. Tool/Creation: the
--     commands of CreateFS. Tool/Mounter: dingofsMounter of the same file.
--   Dfs: AuthFs, SetQuota, validTarget, DfsCreateVol, GetSubPath and DfsCleanupMountPoint of
--     pkg/dingofs-driver/dingofs.go.
--   Fds: pkg/fuse/passfd.go, over the system calls; a pointer is the place of an object in a list.
--     Fds/Descriptors: getFd, putFd and getFuseFd. Fds/Requests: handleFDRequest, in parts between
--     which other calls may run. Fds/Count, Fds/Balance: how often a descriptor is held, closed and
--     taken over. Fds/Unchanged, Fds/Open, Fds/Calls, Fds/Stopping, Fds/Interrupted: the channels
--     that StopFd closes.
--   App: pkg/controller/app_controller.go.
--   Builder: NewMountPod of pkg/builder/pod.go with genCommonPod of pkg/builder/base.go.
--     Builder/Volumes, Builder/Command: its volumes and its command. Builder/Names: mounts and volumes. Builder/Reading:
--     the command as pkg/util/resource/pod.go reads it.
--   Tests: the theorems at concrete inputs, over a small host.
--
-- A Go loop without a bound runs on fuel, an argument of its model, and ends with the error
-- `running` when the fuel is used up; a loop that ends after n rounds needs one unit more than n,
-- which PodDriver/Waiting states of two loops. A panic is the error `panicked`; a
-- caller that looks at an error itself goes on after a panic too, which allows more than Go does.
-- Spaces are those of ASCII where the code trims them. A Go
-- map is an association list whose order stands for the arbitrary order of a range loop. Numbers
-- are natural numbers; CSI allows no negative capacity. Sleeping, logging and timeouts of
-- util.DoWithTimeout are not modelled, but the error that a timeout gives is an answer of the
-- host; in Fds the action has ended by then.
--
-- Not modelled: the construction of jobs and secrets, so a job is known by its name; ParseAppInfo,
-- GenPodAttrWithMountPod (an argument of the pod driver), the start of the servers, the reconciler of
-- the kubelet and the lookup of the namespace; and of the provider DfsMount, InitDfs and
-- GetDfsVolUUID: DfsMount, CreateVol and BindTarget are arguments of Node. The goroutines of the pod
-- driver run apart from it: in its own model only their start is seen.
-- NewMountPod is an argument of Mounting, whose pods have other fields than those of Builder.
-- The variable config.MountPointPath stands at its default.
pub mod Common
pub mod Jobs
pub mod Kube
pub mod Resource
pub mod MountPod
pub mod Mounting
pub mod Node
pub mod MountInfo
pub mod PodDriver
pub mod Provisioner
pub mod Reconcile
pub mod Controller
pub mod Secrets
pub mod Settings
pub mod Unpublish
pub mod Util
pub mod Tool
pub mod App
pub mod Builder
pub mod Dfs
pub mod Fds
pub mod Tests
