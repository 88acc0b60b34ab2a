-- ===== src/Util/Laws.antt =====
-- Statements about the helpers of pkg/util/util.go.
use dingofs_csi.Common.{String, ◌≡◌, refl}
use Prim.Native.String.{◌++◌, ◌∷◌}
use dingofs_csi.Common.Exec.{ok}
use dingofs_csi.Common.Texts.Splitting.{Lacks, Lacks-append, split-two}
use dingofs_csi.Util.{DfsVol, get_dfs_info}

-- The text `key=value`.
abbrev pub entry : String → String → String
entry key value = key ++ ("=" ∷ value)

-- The volume ID that names a file system and the path where a host has mounted it.
abbrev pub volume_id_of : DfsVol → String
volume_id_of v = entry "fsname" v.fs_name ++ (";" ∷ entry "path" v.mount_path)

Lacks-entry : (key value : String) → Lacks ";" key → Lacks ";" value → Lacks ";" (entry key value)
Lacks-entry key value l m = Lacks-append ";" key ("=" ∷ value) l (refl, m)

-- GetDfsInfo reads back the file system name and the mount path of a volume ID of the form
-- fsname=<name>;path=<path>, if neither has a semicolon or an equals sign.
get_dfs_info-volume_id_of :
    (v : DfsVol)
    → Lacks ";" v.fs_name
    → Lacks "=" v.fs_name
    → Lacks ";" v.mount_path
    → Lacks "=" v.mount_path
    → get_dfs_info (volume_id_of v) ≡ ok v
unfolding get_dfs_info
get_dfs_info-volume_id_of v name name' path path' =
    let fsname_lacks : Lacks ";" "fsname" × Lacks "=" "fsname" = (
      (refl, (refl, (refl, (refl, (refl, (refl, tt)))))),
      (refl, (refl, (refl, (refl, (refl, (refl, tt)))))),
    ) in
    let path_lacks : Lacks ";" "path" × Lacks "=" "path" =
      ((refl, (refl, (refl, (refl, tt)))), (refl, (refl, (refl, (refl, tt))))) in
    rw
      (
        split-two ";" (entry "fsname" v.fs_name) (entry "path" v.mount_path) refl
            (Lacks-entry "fsname" v.fs_name fsname_lacks.0 name)
            (Lacks-entry "path" v.mount_path path_lacks.0 path),
        split-two "=" "fsname" v.fs_name refl fsname_lacks.1 name',
        split-two "=" "path" v.mount_path refl path_lacks.1 path',
      )
      refl
