-- ===== src/Memfs/Fs/Allocation.antt =====
-- samples/memfs/memfs.go: allocateInode and deallocateInode under the invariant of the file system.
use fusego.Base.{
  ℕ, ◌<◌, ◌≡◌, ◌≢◌, refl, subst, ◌↔◌, inl, inr, true, Option, none, some, List, [], ◌∷◌, ◌++◌,
  arith, ltb, ◌==◌, if◌then◌else◌, Outcome, done, length, set, length-set, length-append,
  Bool-cases,
}
use fusego.Bytes.{Bytes}
use fusego.Fuseops.{Time, InodeId, InodeAttributes, root_inode_id}
use fusego.Memfs.Inode.{Inode, new_inode}
use fusego.Memfs.Inode.Entries.{child_of}
use fusego.Memfs.Inode.Invariant.{IsInode, IsMode, new_inode-IsInode}
use fusego.Memfs.Fs.{MemFs, allocate_inode, deallocate_inode, has_id}
use fusego.Memfs.Fs.Table.{inode_at, inode_at-set, inode_at-lt, inode_at-append, inode_at-length}
use fusego.Memfs.Fs.Invariant.{Distinct, IsFree, IsFs, live_not_free}

-- One more inode without entries is live, and nothing else has changed but the list of free IDs.
module _ (fs fs' : MemFs) (id : InodeId) (new : Inode) (v : IsFs fs)
    (extended : (j : InodeId)
      → inode_at fs' j ≡ (if id == j then some new else inode_at fs j)) where
  extended-live : (j : InodeId) → inode_at fs j ≢ none → inode_at fs' j ≢ none
  extended-live j live = rw (extended j) (ground arith)

  extended-IsFs :
      root_inode_id < id
      → inode_at fs id ≡ none
      → IsInode new
      → new.entries ≡ []
      → ((j : InodeId) → (has_id j fs'.free_inodes ≡ true) ↔ IsFree fs' j)
      → Distinct fs'.free_inodes
      → IsFs fs'
  unfolding child_of
  extended-IsFs above fresh valid empty free distinct = record {
    reserved = ground (arith, extended 0, v.reserved);
    rooted = (v.rooted.0, ground (arith, extended root_inode_id, v.rooted.1), v.rooted.2);
    valid = λ j n e. elim (Bool-cases (id == j)) [
      | inl same ↦ let written : new ≡ n = ground (arith, extended j) in subst IsInode written valid
      | inr other ↦ v.valid j n (ground (arith, extended j))
    ];
    closed = λ j n name child dt e ne c. extended-live child (elim (Bool-cases (id == j)) [
      | inl same ↦
          let written : n ≡ new = ground (arith, extended j) in
          let nothing : n.entries ≡ [] = ground arith in absurd (cc (rw nothing at c))
      | inr other ↦ v.closed j n name child dt (ground (arith, extended j)) ne c
    ]);
    free = free;
    distinct = distinct;
  }

-- What allocateInode does to a file system.
abbrev pub Allocates : MemFs → Inode → Outcome (InodeId × MemFs) → Type 0
Allocates fs new r =
    (id : InodeId) × (fs' : MemFs) × (r ≡ done (id, fs'))
    × IsFs fs'
    × (root_inode_id < id)
    × (inode_at fs id ≡ none)
    × ((j : InodeId) → inode_at fs' j ≡ (if id == j then some new else inode_at fs j))

module _ (now : Time) (attrs : InodeAttributes) (fs : MemFs) (v : IsFs fs)
    (mode : IsMode attrs.mode) (empty : attrs.size ≡ 0) where
  new_valid : IsInode (new_inode now attrs)
  new_valid = new_inode-IsInode now attrs mode empty

  allocate_cases :
      (free : List InodeId)
      → fs.free_inodes ≡ free
      → Allocates fs (new_inode now attrs) (allocate_inode now attrs fs)
  unfolding allocate_inode new_inode has_id
  allocate_cases [] e =
      let fs' : MemFs = record fs { inodes = fs.inodes ++ (some (new_inode now attrs) ∷ []) } in
      let write = λ (j : InodeId). inode_at-append fs j (some (new_inode now attrs)) in
      let size = length-append fs.inodes (some (new_inode now attrs) ∷ []) in
      let above : root_inode_id < length fs.inodes =
        inode_at-lt fs root_inode_id (ground (arith, v.rooted.1)) in
      (
        length fs.inodes,
        fs',
        simp (e, allocate_inode),
        extended-IsFs fs fs' (length fs.inodes) (new_inode now attrs) v write above
            (inode_at-length fs) new_valid refl
            (λ j. (
              λ listed. ground (arith, write j, size, (v.free j).0 listed),
              λ h. (v.free j).1 (ground (arith, write j, size)),
            ))
            v.distinct,
        above,
        inode_at-length fs,
        write,
      )
  allocate_cases (id ∷ rest) e =
      let fs' : MemFs = record fs {
        inodes = set fs.inodes id (some (new_inode now attrs));
        free_inodes = rest;
      } in
      let listed : has_id id fs.free_inodes ≡ true = rw (e, has_id) (ground arith) in
      let (above, below, vacant) = (v.free id).0 listed in
      let in_range : ltb id (length fs.inodes) ≡ true = ground arith in
      let write = λ (j : InodeId). inode_at-set fs rest id j (some (new_inode now attrs)) below in
      let size = length-set fs.inodes id (some (new_inode now attrs)) in
      let once : Distinct (id ∷ rest) = subst Distinct e v.distinct in
      (
        id,
        fs',
        simp (e, allocate_inode, in_range),
        extended-IsFs fs fs' id (new_inode now attrs) v write above vacant new_valid refl
            (λ j.
              let old : (has_id j (id ∷ rest) ≡ true) ↔ IsFree fs j =
                subst (λ ids. (has_id j ids ≡ true) ↔ IsFree fs j) e (v.free j) in
              (
                λ h. ground (arith, write j, size, old.0),
                λ h. ground (arith, write j, size, old.1),
              ))
            once.1,
        above,
        vacant,
        write,
      )

-- On a valid file system, and for attributes of an empty file with an allowed mode, allocateInode
-- succeeds: the ID it gives lies above the root's and had no live inode, the new inode is live there,
-- every other inode is left alone, and the file system stays valid.
pub allocate_inode-Allocates :
    (now : Time) (attrs : InodeAttributes) (fs : MemFs)
    → IsFs fs
    → IsMode attrs.mode
    → attrs.size ≡ 0
    → Allocates fs (new_inode now attrs) (allocate_inode now attrs fs)
allocate_inode-Allocates now attrs fs v mode empty =
    allocate_cases now attrs fs v mode empty fs.free_inodes refl

-- deallocateInode of a live inode other than the root, which no directory names, succeeds, empties its
-- slot, and keeps the file system valid; its ID is the next that allocateInode gives.
pub deallocate_inode_lem :
    (id : InodeId) (fs : MemFs)
    → IsFs fs
    → root_inode_id < id
    → inode_at fs id ≢ none
    → ((j : InodeId) (n : Inode) (name : Bytes) (dt : ℕ)
        → inode_at fs j ≡ some n
        → name ≢ []
        → child_of name n.entries ≢ some (id, dt))
    → (fs' : MemFs) × (deallocate_inode id fs ≡ done fs')
      × IsFs fs'
      × ((j : InodeId) → inode_at fs' j ≡ (if id == j then none else inode_at fs j))
      × (fs'.free_inodes ≡ id ∷ fs.free_inodes)
unfolding deallocate_inode has_id
deallocate_inode_lem id fs v above live unnamed =
    let below = inode_at-lt fs id live in
    let in_range : ltb id (length fs.inodes) ≡ true = ground arith in
    let write = λ (j : InodeId). inode_at-set fs (id ∷ fs.free_inodes) id j none below in
    let vacated : Option Inode = none in
    let size = length-set fs.inodes id vacated in
    (
      record fs { inodes = set fs.inodes id none; free_inodes = id ∷ fs.free_inodes },
      rw in_range,
      record {
        reserved = ground (arith, write 0, v.reserved);
        rooted = (v.rooted.0, ground (arith, write root_inode_id, v.rooted.1), v.rooted.2);
        valid = λ j n e. v.valid j n (ground (arith, write j));
        closed = λ j n name child dt e ne c.
            let before : inode_at fs j ≡ some n = ground (arith, write j) in
            let there = v.closed j n name child dt before ne c in
            let kept = unnamed j n name dt before ne in
            rw (write child) (elim (Bool-cases (id == child)) [
              | inl same ↦ absurd (kept (ground arith))
              | inr other ↦ rw other there
            ]);
        free = λ j. (
          λ h. ground (arith, write j, size, (v.free j).0),
          λ h. ground (arith, write j, size, (v.free j).1),
        );
        distinct = (live_not_free fs v id live, v.distinct);
      },
      write,
      refl,
    )
