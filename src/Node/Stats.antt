-- ===== src/Node/Stats.antt =====
-- NodeGetVolumeStats of pkg/dingofs-driver/node.go and GetDiskUsage of pkg/util/util.go. An int64 is
-- its 64 bits as a number below 2 ^ 64.
pub mod Bounds
use dingofs_csi.Common.{ℕ, ◌+◌, ◌-◌, ◌*◌, ◌%◌, ◌^◌, String, Option, none, some, ◌==◌, if◌then◌else◌}
use dingofs_csi.Common.Exec.{Exec, pure, raise, coded_as, ◌>>=◌}
use dingofs_csi.Kube.Host.{Stat, exists, missing, Sys, Host}
use dingofs_csi.Kube.Host.Calls.{stat}
use dingofs_csi.Node.{
  invalid_argument_code, not_found_code, internal_code, Statfs, NodeCalls, read, read_value,
}

pub record VolumeUsage : Type 0 where
  pub available : ℕ
  pub total : ℕ
  pub used : ℕ

abbrev pub word : ℕ → ℕ
word n = n % 2 ^ 64

-- The difference of two int64.
abbrev pub word_sub : ℕ → ℕ → ℕ
word_sub a b = word (word a + (2 ^ 64 - word b))

pub record DiskUsage : Type 0 where
  pub total_size : ℕ
  pub free_size : ℕ
  pub total_files : ℕ
  pub free_files : ℕ

unfoldable pub disk_usage_of : Option Statfs → DiskUsage
disk_usage_of none = record { total_size = 1; free_size = 1; total_files = 1; free_files = 1 }
disk_usage_of (some st) = record {
  total_size = word (st.block_size * st.blocks);
  free_size = word (st.block_size * st.free_blocks);
  total_files = st.files;
  free_files = st.free_files;
}

-- The usage in bytes and in inodes.
unfoldable pub usages_of : DiskUsage → VolumeUsage × VolumeUsage
usages_of d = (
  record {
    available = word d.free_size;
    total = word d.total_size;
    used = word_sub d.total_size d.free_size;
  },
  record {
    available = word d.free_files;
    total = word d.total_files;
    used = word_sub d.total_files d.free_files;
  },
)

module _ {W Mounted : Type 0} (h : Host W) (c : NodeCalls W Mounted) where
  unfoldable pub usage_at : String → Exec (Sys W) (VolumeUsage × VolumeUsage)
  usage_at path = do
    not_mnt ← coded_as 13 (read (c.is_not_mount_point path))
    if not_mnt
        then raise internal_code
        else do st ← read_value (c.statfs path); pure (usages_of (disk_usage_of st))

  abbrev pub stats_by : String → Stat → Exec (Sys W) (VolumeUsage × VolumeUsage)
  stats_by path (exists inode) = usage_at path
  stats_by path missing = raise not_found_code
  stats_by path _ = raise internal_code

  -- The mounter of the service is never nil.
  unfoldable pub node_get_volume_stats :
      (volume_id volume_path : String) → Exec (Sys W) (VolumeUsage × VolumeUsage)
  node_get_volume_stats volume_id volume_path =
      if volume_id == ""
      then raise invalid_argument_code
      else if volume_path == ""
      then raise invalid_argument_code
      else stat h volume_path >>= stats_by volume_path
