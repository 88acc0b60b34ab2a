-- ===== src/Tests/Tables.antt =====
-- The mount table and the tests on a pod's state, at concrete inputs.
use dingofs_csi.Common.{none, true, List, [], ◌∷◌, ◌≡◌, lookup}
use dingofs_csi.Kube.Host.{MountInfo}
use dingofs_csi.MountInfo.{MountInfoTable, records_from}
use dingofs_csi.MountInfo.Laws.{mounts_on, counted, counted_more, counted-records}

-- A target that is mounted twice, from two directories.
abbrev test_mounts : List MountInfo
test_mounts =
    record { mount_point = "/pods/u/mount"; root = "/a"; minor = 1 }
    ∷ record { mount_point = "/pods/u/other"; root = "/"; minor = 1 }
    ∷ record { mount_point = "/pods/u/mount"; root = "/b"; minor = 1 }
    ∷ []

counted-records_example :
    counted (lookup "/pods/u/mount" (records_from "/pods/u" true [] test_mounts))
    ≡ counted_more "/pods/u/mount" (mounts_on "/pods/u" true "/pods/u/mount" test_mounts) none
counted-records_example = counted-records "/pods/u" true "/pods/u/mount" test_mounts

abbrev test_table : MountInfoTable
test_table = record { mis = test_mounts; deleted_pods = ("uid-9", true) ∷ [] }
