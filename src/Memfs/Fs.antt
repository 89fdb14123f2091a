-- ===== src/Memfs/Fs.antt =====
-- samples/memfs/memfs.go, the state: the table of inodes and the list of free IDs.
-- A pointer to an inode is its ID: an inode is allocated once for a slot of the table, and no handler
-- frees a slot, so what a handler holds is what the table holds.
-- The list of free IDs has the end of the slice at its head.
pub mod Invariant
pub mod Table
pub mod Allocation
pub mod Start
pub mod Checked
use fusego.Base.{
  ℕ, ◌+◌, ◌-◌, ◌%◌, Bool, true, false, not, Option, none, some, List, [], ◌∷◌, ◌++◌, ltb, ◌==◌,
  if◌then◌else◌, Outcome, done, panics, ◌>>=◌, ◌>>◌, require, or_panic, index, length, set, drop,
  replicate,
}
use fusego.Fuseops.{Time, InodeId, InodeAttributes, root_inode_id}
use fusego.Fuseops.FileMode.{mode_dir}
use fusego.Memfs.Inode.{Inode, new_inode, is_dir, check_invariants}

pub record MemFs : Type 0 where
  pub uid : ℕ
  pub gid : ℕ
  pub inodes : List (Option Inode)
  pub free_inodes : List InodeId

-- A reading of the clock for each call of time.Now in a handler, in the order of its text.
abbrev pub Clock : Type 0
Clock = ℕ → Time

abbrev pub root_attrs : ℕ → ℕ → InodeAttributes
root_attrs uid gid = record {
  size = 0;
  nlink = 0;
  mode = 0o700 + mode_dir;
  atime = 0;
  mtime = 0;
  ctime = 0;
  crtime = 0;
  uid = uid;
  gid = gid;
}

-- `NewMemFS`
unfoldable pub new_mem_fs : Time → ℕ → ℕ → MemFs
new_mem_fs now uid gid = record {
  uid = uid;
  gid = gid;
  inodes =
      set (replicate (root_inode_id + 1) none) root_inode_id
        (some (new_inode now (root_attrs uid gid)));
  free_inodes = [];
}

unfoldable pub get_inode_or_die : MemFs → InodeId → Outcome Inode
get_inode_or_die fs id = index fs.inodes id >>= λ slot. or_panic slot

-- A write through the pointer to inode `id`.
unfoldable pub put_inode : InodeId → Inode → MemFs → MemFs
put_inode id n fs = record fs { inodes = set fs.inodes id (some n) }

unfoldable pub allocate_inode : Time → InodeAttributes → MemFs → Outcome (InodeId × MemFs)
allocate_inode now attrs fs = elim fs.free_inodes [
  | [] ↦
      done (length fs.inodes, record fs { inodes = fs.inodes ++ (some (new_inode now attrs) ∷ []) })
  | id ∷ rest ↦
      require (ltb id (length fs.inodes))
      >> done (
        id,
        record fs { inodes = set fs.inodes id (some (new_inode now attrs)); free_inodes = rest },
      )
]

unfoldable pub deallocate_inode : InodeId → MemFs → Outcome MemFs
deallocate_inode id fs =
    require (ltb id (length fs.inodes))
    >> done (record fs { inodes = set fs.inodes id none; free_inodes = id ∷ fs.free_inodes })

-- The loop over the reserved IDs.
check_reserved : List (Option Inode) → ℕ → Outcome (Unit {0})
check_reserved slots i = index slots i >>= λ slot. elim slot [ none ↦ done tt | some _ ↦ panics ]

-- The set freeIDsEncountered: the IDs of the empty slots, the first of which has the ID `i`.
pub free_ids : ℕ → List (Option Inode) → List InodeId
free_ids i [] = []
free_ids i (none ∷ slots) = i ∷ free_ids (i + 1) slots
free_ids i (some n ∷ slots) = free_ids (i + 1) slots

unfoldable pub has_id : InodeId → List InodeId → Bool
has_id id [] = false
has_id id (j ∷ js) = let rest = has_id id js in if j == id then true else rest

check_free : List InodeId → List InodeId → Outcome (Unit {0})
check_free encountered [] = done tt
check_free encountered (id ∷ ids) = require (has_id id encountered) >> check_free encountered ids

-- The last loop calls a method on each slot; on a nil pointer the method faults at its first field.
check_inodes : List (Option Inode) → Outcome (Unit {0})
check_inodes [] = done tt
check_inodes (slot ∷ slots) = (or_panic slot >>= λ n. check_invariants n) >> check_inodes slots

-- `memFS.checkInvariants`
pub check_fs_invariants : MemFs → Outcome (Unit {0})
check_fs_invariants fs = do
  check_reserved fs.inodes 0
  root ← get_inode_or_die fs root_inode_id
  require (is_dir root)
  let encountered = free_ids (root_inode_id + 1) (drop (root_inode_id + 1) fs.inodes)
  require (length fs.free_inodes == length encountered)
  check_free encountered fs.free_inodes
  check_inodes fs.inodes
