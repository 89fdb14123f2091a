-- ===== src/Memfs/Fs/Checked.antt =====
-- checkInvariants of the file system, the function behind the InvariantMutex.
use fusego.Base.{
  ◌≡◌, refl, ap, Option, none, some, List, [], ◌∷◌, arith, get_elem?, length, ◌≢◌, panics,
}
use fusego.Fuseops.{root_inode_id}
use fusego.Memfs.Inode.{Inode}
use fusego.Memfs.Fs.{MemFs, check_inodes, check_fs_invariants}
use fusego.Memfs.Fs.Table.{inode_at, slot_of, inode_at-lt}
use fusego.Memfs.Fs.Invariant.{IsFs}

-- The last loop reaches the reserved slot 0, which is nil.
check_inodes-panics :
    (slots : List (Option Inode))
    → slot_of (get_elem? slots 0) ≡ none
    → slots ≢ []
    → check_inodes slots ≡ panics
unfolding check_inodes
check_inodes-panics [] e ne = absurd (ne refl)
check_inodes-panics (none ∷ slots) e ne = refl
check_inodes-panics (some n ∷ slots) e ne = cc

-- On a file system that meets every invariant that its comments state, checkInvariants panics: its
-- last loop calls CheckInvariants on the nil pointers of the reserved and the free IDs too.
pub check_fs_invariants-panics : (fs : MemFs) → IsFs fs → check_fs_invariants fs ≡ panics
unfolding check_fs_invariants
check_fs_invariants-panics fs v =
    let below = inode_at-lt fs root_inode_id (ground (arith, v.rooted.1)) in
    let nonempty : fs.inodes ≢ [] = λ e. omega (arith, ap length e, below) in
    let first : slot_of (get_elem? fs.inodes 0) ≡ none = unfold inode_at in v.reserved in
    ground (arith, check_inodes-panics fs.inodes first nonempty)
