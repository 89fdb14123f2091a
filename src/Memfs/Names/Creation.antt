-- ===== src/Memfs/Names/Creation.antt =====
-- samples/memfs/memfs.go: what MkDir, createFile and CreateSymlink share, on the map of names.
use fusego.Base.{
  ℕ, ◌+◌, ◌≡◌, ◌≢◌, refl, ◌⊎◌, inl, inr, true, false, ◌&&◌, none, some, [], arith, ◌==◌,
  if◌then◌else◌, Outcome, done, Bool-cases,
}
use fusego.Bytes.{Bytes, bytes_eq}
use fusego.Dirent.DirentType
use fusego.Fuseops.{Time, InodeId, InodeAttributes, ChildInodeEntry, Reply, ok, fail, one_year}
use fusego.Fuseops.Errno.{eexist}
use fusego.Fuseops.FileMode.{has_bit, symlink_bit}
use fusego.Memfs.Inode.{Inode, new_inode, is_dir, is_symlink, is_file, add_child}
use fusego.Memfs.Inode.Entries.{child_of, look_up_child-eq}
use fusego.Memfs.Inode.Invariant.{
  IsInode, IsMode, new_inode-IsInode, add_child-IsInode, child_of-add_child,
}
use fusego.Memfs.Fs.{MemFs, Clock, put_inode, allocate_inode}
use fusego.Memfs.Fs.Table.{inode_at, inode_at-put}
use fusego.Memfs.Fs.Invariant.{IsFs, put_inode-IsFs}
use fusego.Memfs.Fs.Allocation.{Allocates, allocate_inode-Allocates}
use fusego.Memfs.Names.{entry_for, add_to, add_new_child, if_free}
use fusego.Memfs.Names.Kept.{Keeps, modified, modified-other}
use fusego.Memfs.Names.View.{child, child-put, get-done}

-- What AddChild needs of a directory `n` to which a live `id` is added.
module _ (fs : MemFs) (parent id : InodeId) (name : Bytes) (dt now : ℕ) (n : Inode) (v : IsFs fs)
    (at : inode_at fs parent ≡ some n) (dir : is_dir n ≡ true) (ne : name ≢ [])
    (used : dt ≢ DirentType.unknown) (fresh : child_of name n.entries ≡ none)
    (live : inode_at fs id ≢ none) where
  abbrev added : Inode
  added = add_child now id name dt n

  parent_live : inode_at fs parent ≢ none
  parent_live e = cc

  -- An entry is added to the map of names, and the file system stays valid.
  pub add_to_lem :
      (add_to now parent id name dt fs ≡ done (put_inode parent added fs))
      × IsFs (put_inode parent added fs)
      × ((q : InodeId) (other : Bytes)
          → other ≢ []
          → child (put_inode parent added fs) q other
            ≡ (if parent == q && bytes_eq name other then some (id, dt) else child fs q other))
  unfolding add_to child
  add_to_lem =
      let valid = v.valid parent n at in
      let same_kind : is_dir added ≡ is_dir n = unfold add_child is_dir in refl in
      (
        rw (get-done fs parent at),
        put_inode-IsFs fs parent n added v at
            (add_child-IsInode now id name dt n valid dir ne used fresh) same_kind
            (λ other c dt' ne' e.
              let result = child_of-add_child now id name dt n other valid ne' fresh in
              elim (Bool-cases (bytes_eq name other)) [
                | inl same ↦ let new : c ≡ id = ground arith in rw new live
                | inr different ↦ v.closed parent n other c dt' at ne' (ground arith)
              ]),
        λ q other ne'. ground (
          arith,
          child-put fs parent q added other parent_live,
          child_of-add_child now id name dt n other valid ne' fresh,
        ),
      )

-- A call that created a child: its answer, and the file system after it. That is valid; the child's ID
-- had no live inode, and now has a fresh one with the attributes and the target that were asked for,
-- and its attributes are answered; the map of names has the new name and is otherwise unchanged; and
-- of all inodes that were there only the parent has changed, in its entries and its time of
-- modification.
pub record Created (now : Time) (fs : MemFs) (parent : InodeId) (name : Bytes) (dt : ℕ)
    (fresh : Inode) (entry : ChildInodeEntry) (fs' : MemFs) : Type 0 where
  pub valid : IsFs fs'
  pub unused : inode_at fs entry.child ≡ none
  pub stored : inode_at fs' entry.child ≡ some fresh
  pub answered : entry.attributes ≡ fresh.attrs
  pub named :
      (q : InodeId) (other : Bytes)
      → other ≢ []
      → child fs' q other
        ≡ (if parent == q && bytes_eq name other then some (entry.child, dt) else child fs q other)
  pub kept : Keeps (modified parent now) fs fs'
  pub others : (j : InodeId) → j ≢ parent → j ≢ entry.child → inode_at fs' j ≡ inode_at fs j

-- A target goes with a symbolic link only.
abbrev pub IsTarget : ℕ → Bytes → Type 0
IsTarget mode target = (has_bit mode symlink_bit ≡ true) ⊎ (target ≡ [])

abbrev pub fresh_inode : ℕ → InodeAttributes → Bytes → Inode
fresh_inode now attrs target = record (new_inode now attrs) { target = target }

fresh_inode-IsInode :
    (now : ℕ) (attrs : InodeAttributes) (target : Bytes)
    → IsMode attrs.mode
    → attrs.size ≡ 0
    → IsTarget attrs.mode target
    → IsInode (fresh_inode now attrs target)
unfolding new_inode is_symlink is_dir is_file
fresh_inode-IsInode now attrs target mode empty link =
    let v = new_inode-IsInode now attrs mode empty in
    record {
      plain = v.plain;
      one_kind = v.one_kind;
      sized = v.sized;
      leaf = v.leaf;
      slots = v.slots;
      stored = v.stored;
      linked = link;
    }

-- The entry for a child that has just been allocated.
module _ (fs fs₁ : MemFs) (parent id : InodeId) (name : Bytes) (dt now expiration : ℕ) (n c : Inode)
    (at : inode_at fs parent ≡ some n) (dir : is_dir n ≡ true) (ne : name ≢ [])
    (used : dt ≢ DirentType.unknown) (fresh : child_of name n.entries ≡ none) (v₁ : IsFs fs₁)
    (vacant : inode_at fs id ≡ none) (empty : c.entries ≡ [])
    (shape : (j : InodeId) → inode_at fs₁ j ≡ (if id == j then some c else inode_at fs j)) where
  apart : (id == parent) ≡ false
  apart = ground arith

  parent_at : inode_at fs₁ parent ≡ some n
  parent_at = rw (shape parent, apart) at

  child_at : inode_at fs₁ id ≡ some c
  child_at = ground (arith, shape id)

  child_live : inode_at fs₁ id ≢ none
  child_live e = ground (arith, child_at)

  same_names : (q : InodeId) (other : Bytes) → child fs₁ q other ≡ child fs q other
  unfolding child child_of
  same_names q other = elim (Bool-cases (id == q)) [
    | inl same ↦ let old : inode_at fs q ≡ none = ground arith in rw (shape q, same, old, empty)
    | inr different ↦ rw (shape q, different)
  ]

  abbrev fs₂ : MemFs
  fs₂ = put_inode parent (add_child now id name dt n) fs₁

  parent_put :
      (j : InodeId)
      → inode_at fs₂ j ≡ (if parent == j then some (add_child now id name dt n) else inode_at fs₁ j)
  parent_put j =
      inode_at-put fs₁ parent j (add_child now id name dt n) (λ e. ground (arith, parent_at))

  kept_at : Keeps (modified parent now) fs fs₂
  unfolding add_child
  kept_at j old e = elim (Bool-cases (parent == j)) [
    | inl same ↦
        let one : old ≡ n = ground arith in
        (
          add_child now id name dt n,
          ground (arith, parent_put j),
          rw one (ground arith, refl, refl, refl),
        )
    | inr different ↦ (
      old,
      ground (arith, parent_put j, shape j),
      rw (modified-other parent now j old.attrs different) (refl, refl, refl, refl),
    )
  ]

  abbrev ParentStep : Type 0
  ParentStep = add_to now parent id name dt fs₁ ≡ done fs₂

  entry_added :
      ParentStep
      × (inode_at fs₂ id ≡ some c)
      × Created now fs parent name dt c (entry_for id c.attrs expiration) fs₂
  entry_added =
      let (added, v₂, names) =
        add_to_lem fs₁ parent id name dt now n v₁ parent_at dir ne used fresh child_live in
      let stored : inode_at fs₂ id ≡ some c = ground (arith, parent_put id, child_at, apart) in
      (
        added,
        stored,
        record {
          valid = v₂;
          unused = vacant;
          stored = stored;
          answered = refl;
          named = λ q other ne'. rw (← same_names q other) (names q other ne');
          kept = kept_at;
          others = λ j np nc. ground (arith, parent_put j, shape j);
        },
      )

module _ (t : Clock) (k : ℕ) (attrs : InodeAttributes) (target : Bytes) (dt : ℕ) (parent : InodeId)
    (name : Bytes) (fs : MemFs) (n : Inode) (v : IsFs fs) (at : inode_at fs parent ≡ some n)
    (dir : is_dir n ≡ true) (ne : name ≢ []) (used : dt ≢ DirentType.unknown)
    (fresh : child_of name n.entries ≡ none) (mode : IsMode attrs.mode) (empty : attrs.size ≡ 0)
    (link : IsTarget attrs.mode target) where
  abbrev new_child : Inode
  new_child = fresh_inode (t k) attrs target

  no_entries : new_child.entries ≡ []
  unfolding new_inode
  no_entries = refl

  no_children :
      (other : Bytes) (c : InodeId) (dt' : ℕ) → ¬ (child_of other new_child.entries ≡ some (c, dt'))
  unfolding child_of
  no_children other c dt' e = cc (rw no_entries at e)

  same_kind : is_dir new_child ≡ is_dir (new_inode (t k) attrs)
  unfolding is_dir
  same_kind = refl

  retargeted :
      (id : InodeId) (fs₁ : MemFs)
      → IsFs fs₁
      → inode_at fs₁ id ≡ some (new_inode (t k) attrs)
      → IsFs (put_inode id new_child fs₁)
  retargeted id fs₁ v₁ at₁ =
      put_inode-IsFs fs₁ id (new_inode (t k) attrs) new_child v₁ at₁
        (fresh_inode-IsInode (t k) attrs target mode empty link) same_kind
        (λ other c dt' ne' e. absurd (no_children other c dt' e))

  reshaped :
      (id : InodeId) (fs₁ : MemFs)
      → inode_at fs₁ id ≡ some (new_inode (t k) attrs)
      → ((j : InodeId)
          → inode_at fs₁ j ≡ (if id == j then some (new_inode (t k) attrs) else inode_at fs j))
      → (j : InodeId)
      → inode_at (put_inode id new_child fs₁) j
        ≡ (if id == j then some new_child else inode_at fs j)
  reshaped id fs₁ at₁ write j = ground (arith, inode_at-put fs₁ id j new_child (λ e. cc), write j)

  after_allocation :
      Allocates fs (new_inode (t k) attrs) (allocate_inode (t k) attrs fs)
      → (entry : ChildInodeEntry) × (fs' : MemFs) × (add_new_child t k attrs target dt parent name
            fs
          ≡ done (ok entry, fs'))
        × Created (t (k + 1)) fs parent name dt new_child entry fs'
  unfolding add_new_child
  after_allocation (id, fs₁, allocated, v₁, above, vacant, write) =
      let at₁ : inode_at fs₁ id ≡ some (new_inode (t k) attrs) = ground (arith, write id) in
      let shape = reshaped id fs₁ at₁ write in
      let (added, stored, created) =
        entry_added fs (put_inode id new_child fs₁) parent id name dt (t (k + 1))
          (t (k + 2) + one_year) n new_child at dir ne used fresh (retargeted id fs₁ v₁ at₁) vacant
          no_entries shape in
      (_, _, rw (allocated, get-done fs₁ id at₁, added) (rw (get-done _ id stored)), created)

  -- The tail of MkDir, createFile and CreateSymlink.
  pub add_new_child-Created :
      (entry : ChildInodeEntry) × (fs' : MemFs) × (add_new_child t k attrs target dt parent name fs
        ≡ done (ok entry, fs'))
      × Created (t (k + 1)) fs parent name dt new_child entry fs'
  add_new_child-Created = after_allocation (allocate_inode-Allocates (t k) attrs fs v mode empty)

-- The guard that the handlers share: EEXIST, with nothing changed, or the rest of the handler.
pub if_free-eq :
    (parent : InodeId) (name : Bytes) (fs : MemFs) (n : Inode)
    (create : Outcome (Reply ChildInodeEntry × MemFs))
    → inode_at fs parent ≡ some n
    → is_dir n ≡ true
    → if_free parent name fs create
      ≡ (elim (child_of name n.entries) [ none ↦ create | some _ ↦ done (fail eexist, fs) ])
unfolding if_free
if_free-eq parent name fs n create at dir =
    rw (get-done fs parent at, look_up_child-eq n name dir) (ground arith)
