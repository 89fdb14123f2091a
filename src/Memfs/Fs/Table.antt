-- ===== src/Memfs/Fs/Table.antt =====
-- The table of inodes as a map from IDs to live inodes, under writes and allocation.
use fusego.Base.{
  ℕ, zero, suc, ◌<◌, ◌≡◌, ◌≢◌, inl, inr, Option, none, some, List, [], ◌∷◌, ◌++◌, arith, ◌==◌,
  if◌then◌else◌, or_panic, length, get_elem?, set, get_elem?-set_self, get_elem?-set_ne,
  get_elem?-lt, get_elem?-ge, Option-cases,
}
use fusego.Fuseops.{InodeId}
use fusego.Memfs.Inode.{Inode}
use fusego.Memfs.Fs.{MemFs, get_inode_or_die, put_inode}

-- The contents of a slot, and nothing beyond the table.
abbrev pub slot_of : Option (Option Inode) → Option Inode
slot_of none = none
slot_of (some slot) = slot

unfoldable pub inode_at : MemFs → InodeId → Option Inode
inode_at fs id = slot_of (get_elem? fs.inodes id)

pub get_inode_or_die-eq :
    (fs : MemFs) (id : InodeId) → get_inode_or_die fs id ≡ or_panic (inode_at fs id)
unfolding get_inode_or_die inode_at
get_inode_or_die-eq fs id = ground arith

pub inode_at-lt : (fs : MemFs) (id : InodeId) → inode_at fs id ≢ none → id < length fs.inodes
unfolding inode_at
inode_at-lt fs id live = elim (Option-cases (get_elem? fs.inodes id)) [
  | inl e ↦ absurd (live (rw e))
  | inr (slot, e) ↦ get_elem?-lt fs.inodes id e
]

-- A write to a slot of the table, whatever happens to the list of free IDs.
pub inode_at-set :
    (fs : MemFs) (free : List InodeId) (id j : InodeId) (slot : Option Inode)
    → id < length fs.inodes
    → inode_at (record fs { inodes = set fs.inodes id slot; free_inodes = free }) j
      ≡ (if id == j then slot else inode_at fs j)
unfolding inode_at
inode_at-set fs free id j slot h =
    ground (arith, get_elem?-set_self fs.inodes id slot h, get_elem?-set_ne fs.inodes id j slot)

pub inode_at-put :
    (fs : MemFs) (id j : InodeId) (n : Inode)
    → inode_at fs id ≢ none
    → inode_at (put_inode id n fs) j ≡ (if id == j then some n else inode_at fs j)
unfolding put_inode
inode_at-put fs id j n live = inode_at-set fs fs.free_inodes id j (some n) (inode_at-lt fs id live)

slot_of-append :
    (xs : List (Option Inode)) (j : ℕ) (slot : Option Inode)
    → slot_of (get_elem? (xs ++ (slot ∷ [])) j)
      ≡ (if length xs == j then slot else slot_of (get_elem? xs j))
slot_of-append [] zero slot = ground arith
slot_of-append [] (suc j) slot = ground arith
slot_of-append (x ∷ xs) zero slot = ground arith
slot_of-append (x ∷ xs) (suc j) slot = ground (arith, slot_of-append xs j slot)

-- A slot that is appended.
pub inode_at-append :
    (fs : MemFs) (j : InodeId) (slot : Option Inode)
    → inode_at (record fs { inodes = fs.inodes ++ (slot ∷ []) }) j
      ≡ (if length fs.inodes == j then slot else inode_at fs j)
unfolding inode_at
inode_at-append fs j slot = slot_of-append fs.inodes j slot

pub inode_at-length : (fs : MemFs) → inode_at fs (length fs.inodes) ≡ none
unfolding inode_at
inode_at-length fs = rw (get_elem?-ge fs.inodes (length fs.inodes) (omega arith))
