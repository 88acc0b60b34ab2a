-- ===== src/Builder/Command.antt =====
-- The command of a mount pod, in NewMountPod of pkg/builder/pod.go.
use dingofs_csi.Common.{String}
use Prim.Native.String.{String, ◌++◌}

pub record FuseSetting : Type 0 where
  pub name : String
  pub client_conf_path : String
  pub mount_path : String

-- The text before the mount path, from config.FORMAT_FUSE_ARGS and the bootstrap script.
unfoldable pub before_mount_path : FuseSetting → String
before_mount_path st =
    "/scripts/mountpoint.sh "
    ++ (st.name
        ++ (" s3 --role=client --args='-f -o default_permissions -o allow_other -o fsname="
            ++ (st.name ++ (" -o fstype=s3 -o user=dingofs -o conf=" ++ st.client_conf_path))))

unfoldable pub mount_command : FuseSetting → String
unfolding before_mount_path
mount_command st = before_mount_path st ++ (" " ++ (st.mount_path ++ "'"))
