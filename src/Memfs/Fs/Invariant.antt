-- ===== src/Memfs/Fs/Invariant.antt =====
-- samples/memfs/memfs.go: the invariant of the file system. It is what the comments at the fields of
-- memFS ask for, and that no entry of a directory dangles.
use fusego.Base.{
  ℕ, ◌<◌, ◌≡◌, ◌≢◌, subst, ◌↔◌, inl, inr, true, false, none, some, List, [], ◌∷◌, arith, ◌==◌,
  length, length-set, Bool-cases,
}
use fusego.Bytes.{Bytes}
use fusego.Fuseops.{InodeId, root_inode_id}
use fusego.Memfs.Inode.{Inode, is_dir}
use fusego.Memfs.Inode.Entries.{child_of}
use fusego.Memfs.Inode.Invariant.{IsInode}
use fusego.Memfs.Fs.{MemFs, put_inode, has_id}
use fusego.Memfs.Fs.Table.{inode_at, inode_at-put}

abbrev pub Distinct : List InodeId → Type 0
Distinct [] = Unit
Distinct (id ∷ ids) = (has_id id ids ≡ false) × Distinct ids

-- An ID above the root's with an empty slot of the table.
abbrev pub IsFree : MemFs → InodeId → Type 0
IsFree fs id = (root_inode_id < id) × (id < length fs.inodes) × (inode_at fs id ≡ none)

pub record IsFs (fs : MemFs) : Type 0 where
  pub reserved : inode_at fs 0 ≡ none
  pub rooted : (n : Inode) × (inode_at fs root_inode_id ≡ some n) × (is_dir n ≡ true)
  pub valid : (id : InodeId) (n : Inode) → inode_at fs id ≡ some n → IsInode n
  pub closed :
      (id : InodeId) (n : Inode) (name : Bytes) (child : InodeId) (dt : ℕ)
      → inode_at fs id ≡ some n
      → name ≢ []
      → child_of name n.entries ≡ some (child, dt)
      → inode_at fs child ≢ none
  pub free : (id : InodeId) → (has_id id fs.free_inodes ≡ true) ↔ IsFree fs id
  pub distinct : Distinct fs.free_inodes

-- A live inode is in range, and its ID is not free.
pub live_not_free :
    (fs : MemFs)
    → IsFs fs
    → (id : InodeId) → inode_at fs id ≢ none
    → has_id id fs.free_inodes ≡ false
live_not_free fs v id live = elim (Bool-cases (has_id id fs.free_inodes)) [
  | inl listed ↦ absurd (live ((v.free id).0 listed).2)
  | inr absent ↦ absent
]

-- Writes keep live inodes live.
pub put_inode-live :
    (fs : MemFs) (id j : InodeId) (new : Inode)
    → inode_at fs id ≢ none
    → inode_at fs j ≢ none
    → inode_at (put_inode id new fs) j ≢ none
put_inode-live fs id j new live there = rw (inode_at-put fs id j new live) (ground arith)

put_inode-IsFree :
    (fs : MemFs) (id : InodeId) (new : Inode)
    → inode_at fs id ≢ none
    → (j : InodeId) → IsFree (put_inode id new fs) j ↔ IsFree fs j
unfolding put_inode
put_inode-IsFree fs id new live j =
    let size = length-set fs.inodes id (some new) in
    let write = inode_at-put fs id j new live in
    (λ h. (h.0, omega arith, ground arith), λ h. (h.0, omega arith, ground arith))

module _ (fs : MemFs) (id : InodeId) (old new : Inode) (v : IsFs fs)
    (at : inode_at fs id ≡ some old) where
  live : inode_at fs id ≢ none
  live e = cc

  put_inode-rooted :
      is_dir new ≡ is_dir old
      → (n : Inode) × (inode_at (put_inode id new fs) root_inode_id ≡ some n) × (is_dir n ≡ true)
  put_inode-rooted dir = elim (Bool-cases (id == root_inode_id)) [
    | inl root ↦ (
      new,
      ground (arith, inode_at-put fs id root_inode_id new live),
      ground (arith, v.rooted.1, v.rooted.2),
    )
    | inr other ↦ (
      v.rooted.0,
      ground (arith, inode_at-put fs id root_inode_id new live, v.rooted.1),
      v.rooted.2,
    )
  ]

  put_inode-valid :
      IsInode new
      → (j : InodeId) (n : Inode) → inode_at (put_inode id new fs) j ≡ some n
      → IsInode n
  put_inode-valid valid j n e = elim (Bool-cases (id == j)) [
    | inl same ↦ subst IsInode (ground (arith, inode_at-put fs id j new live)) valid
    | inr other ↦ v.valid j n (ground (arith, inode_at-put fs id j new live))
  ]

  -- A live inode is written: the new one is valid, a directory if the old one was, and its entries do
  -- not dangle.
  pub put_inode-IsFs :
      IsInode new
      → is_dir new ≡ is_dir old
      → ((name : Bytes) (child : InodeId) (dt : ℕ)
          → name ≢ []
          → child_of name new.entries ≡ some (child, dt)
          → inode_at fs child ≢ none)
      → IsFs (put_inode id new fs)
  unfolding put_inode
  put_inode-IsFs valid dir reach = record {
    reserved = ground (arith, inode_at-put fs id 0 new live, v.reserved);
    rooted = put_inode-rooted dir;
    valid = put_inode-valid valid;
    closed = λ j n name child dt e ne c.
        put_inode-live fs id child new live (elim (Bool-cases (id == j)) [
          | inl same ↦
              let written : n ≡ new = ground (arith, inode_at-put fs id j new live) in
              reach name child dt ne
                (subst (λ (m : Inode). child_of name m.entries ≡ some (child, dt)) written c)
          | inr other ↦
              v.closed j n name child dt (ground (arith, inode_at-put fs id j new live)) ne c
        ]);
    free = λ j. (
      λ listed. (put_inode-IsFree fs id new live j).1 ((v.free j).0 listed),
      λ h. (v.free j).1 ((put_inode-IsFree fs id new live j).0 h),
    );
    distinct = v.distinct;
  }
