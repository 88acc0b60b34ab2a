-- ===== src/Node/Stats/Bounds.antt =====
-- The numbers of NodeGetVolumeStats of pkg/dingofs-driver/node.go stay in the range of an int64.
use dingofs_csi.Common.{ℕ, ◌+◌, ◌-◌, ◌*◌, ◌^◌, ◌<◌, ◌≤◌, some, ◌≡◌, arith}
use native.Mathlib.Nat.{mul-le-mul_left}
use dingofs_csi.Node.{Statfs}
use dingofs_csi.Node.Stats.{VolumeUsage, word, word_sub, disk_usage_of, usages_of}

-- The amounts are not negative as int64, and what is used and what is available is the total.
abbrev pub IsBalanced : VolumeUsage → Type 0
IsBalanced u = (u.total < 2 ^ 63) × (u.used + u.available ≡ u.total)

word_sub_lem : (a b : ℕ) → a < 2 ^ 63 → b ≤ a → (word a ≡ a) × (word b ≡ b) × (word_sub a b ≡ a - b)
word_sub_lem a b small le =
    (omega (arith, small, le), omega (arith, small, le), omega (arith, small, le))

balanced :
    (total free : ℕ)
    → total < 2 ^ 63
    → free ≤ total
    → IsBalanced (record { available = word free; total = word total; used = word_sub total free })
balanced total free small le =
    let (t, f, u) = word_sub_lem total free small le in rw (u, t, f) (small, omega (arith, le))

-- If the size of the file system in bytes and its number of inodes are below 2^63, and it has no
-- more free blocks or inodes than it has, then for both kinds of usage that NodeGetVolumeStats
-- answers the total is below 2^63, and the used and the available amount add up to the total.
pub usages_of-IsBalanced :
    (st : Statfs)
    → st.block_size * st.blocks < 2 ^ 63
    → st.files < 2 ^ 63
    → st.free_blocks ≤ st.blocks
    → st.free_files ≤ st.files
    → IsBalanced (usages_of (disk_usage_of (some st))).0
      × IsBalanced (usages_of (disk_usage_of (some st))).1
unfolding usages_of disk_usage_of
usages_of-IsBalanced st small files blocks inodes =
    let free_small = mul-le-mul_left st.block_size blocks in
    let (t, f, u) =
      word_sub_lem (st.block_size * st.blocks) (st.block_size * st.free_blocks) small free_small in
    (rw (t, f) (balanced _ _ small free_small), balanced st.files st.free_files files inodes)
