-- ===== src/Memfs/Names.antt =====
-- samples/memfs/memfs.go, the handlers that work on names: each takes the readings of the clock, the
-- fields of its op, and the file system, and returns its reply and the file system it leaves.
pub mod View
pub mod Kept
pub mod Creation
pub mod Handlers
pub mod Removal
pub mod Moving
pub mod Renaming
pub mod Linking
use fusego.Base.{
  ℕ, ◌+◌, ◌-◌, ◌%◌, Bool, true, false, not, ◌&&◌, Option, none, some, List, [], ◌∷◌, ltb, ◌==◌,
  if◌then◌else◌, Outcome, done, panics, ◌>>=◌, length,
}
use fusego.Bytes.{Bytes}
use fusego.Dirent.DirentType
use fusego.Fuseops.{
  Time, InodeId, InodeAttributes, ChildInodeEntry, Errno, Reply, ok, fail, one_year, u32_mod,
}
use fusego.Fuseops.Errno.{eexist, einval, enoent, enotempty}
use fusego.Fuseops.FileMode.{mode_symlink}
use fusego.Memfs.Inode.{Inode, is_dir, len, look_up_child, add_child, remove_child, read_dir}
use fusego.Memfs.Fs.{MemFs, Clock, get_inode_or_die, put_inode, allocate_inode}

-- The response about a child that the kernel may cache for a year.
abbrev pub entry_for : InodeId → InodeAttributes → Time → ChildInodeEntry
entry_for id attrs expiration = record {
  child = id;
  generation = 0;
  attributes = attrs;
  attributes_expiration = expiration;
  entry_expiration = expiration;
}

unfoldable pub look_up_inode : Clock → InodeId → Bytes → MemFs → Outcome (Reply ChildInodeEntry)
look_up_inode t parent name fs = do
  n ← get_inode_or_die fs parent
  found ← look_up_child n name
  elim found [
    | none ↦ done (fail enoent)
    | some (id, _) ↦
        get_inode_or_die fs id >>= λ child. done (ok (entry_for id child.attrs (t 0 + one_year)))
  ]

-- A call of AddChild on the inode behind `parent`.
unfoldable pub add_to : Time → InodeId → InodeId → Bytes → ℕ → MemFs → Outcome MemFs
add_to now parent id name dt fs = do
  n ← get_inode_or_die fs parent
  done (put_inode parent (add_child now id name dt n) fs)

-- A call of RemoveChild on the inode behind `parent`.
unfoldable pub remove_from : Time → InodeId → Bytes → MemFs → Outcome MemFs
remove_from now parent name fs = do
  n ← get_inode_or_die fs parent
  n' ← remove_child now name n
  done (put_inode parent n' fs)

-- What MkDir, createFile and CreateSymlink do once the name is known to be free: allocate the child,
-- set its target, add it to the parent, and answer with its attributes. `t k` to `t (k + 2)` are the
-- clock readings of newInode, AddChild and the expiration.
unfoldable pub add_new_child :
    Clock
    → ℕ
    → InodeAttributes
    → Bytes
    → ℕ
    → InodeId
    → Bytes
    → MemFs
    → Outcome (Reply ChildInodeEntry × MemFs)
unfolding add_to
add_new_child t k attrs target dt parent name fs = do
  (id, fs₁) ← allocate_inode (t k) attrs fs
  child ← get_inode_or_die fs₁ id
  fs₂ ← add_to (t (k + 1)) parent id name dt (put_inode id (record child { target = target }) fs₁)
  child' ← get_inode_or_die fs₂ id
  done (ok (entry_for id child'.attrs (t (k + 2) + one_year)), fs₂)

-- The guard that these and CreateLink share: the parent exists and has no such name yet.
unfoldable pub if_free :
    InodeId
    → Bytes
    → MemFs
    → Outcome (Reply ChildInodeEntry × MemFs)
    → Outcome (Reply ChildInodeEntry × MemFs)
if_free parent name fs create = do
  n ← get_inode_or_die fs parent
  found ← look_up_child n name
  elim found [ some _ ↦ done (fail eexist, fs) | none ↦ create ]

abbrev pub dir_attrs : ℕ → MemFs → InodeAttributes
dir_attrs mode fs = record {
  size = 0;
  nlink = 1;
  mode = mode;
  atime = 0;
  mtime = 0;
  ctime = 0;
  crtime = 0;
  uid = fs.uid;
  gid = fs.gid;
}

abbrev pub file_attrs : Time → ℕ → MemFs → InodeAttributes
file_attrs now mode fs = record {
  size = 0;
  nlink = 1;
  mode = mode;
  atime = now;
  mtime = now;
  ctime = now;
  crtime = now;
  uid = fs.uid;
  gid = fs.gid;
}

unfoldable pub mk_dir :
    Clock → InodeId → Bytes → ℕ → MemFs → Outcome (Reply ChildInodeEntry × MemFs)
mk_dir t parent name mode fs =
    if_free parent name fs
      (add_new_child t 0 (dir_attrs mode fs) [] DirentType.directory parent name fs)

-- `createFile`, which is also MkNode.
unfoldable pub create_file_at :
    Clock → InodeId → Bytes → ℕ → MemFs → Outcome (Reply ChildInodeEntry × MemFs)
create_file_at t parent name mode fs =
    if_free parent name fs
      (add_new_child t 1 (file_attrs (t 0) mode fs) [] DirentType.file parent name fs)

unfoldable pub mk_node :
    Clock → InodeId → Bytes → ℕ → MemFs → Outcome (Reply ChildInodeEntry × MemFs)
mk_node = create_file_at

unfoldable pub create_file :
    Clock → ℕ → InodeId → Bytes → ℕ → MemFs → Outcome (Reply ChildInodeEntry × MemFs)
create_file t pid parent name mode fs =
    if pid == 0 then done (fail einval, fs) else create_file_at t parent name mode fs

abbrev pub symlink_mode : ℕ
symlink_mode = 0o444 + mode_symlink

unfoldable pub create_symlink :
    Clock → InodeId → Bytes → Bytes → MemFs → Outcome (Reply ChildInodeEntry × MemFs)
create_symlink t parent name target fs =
    if_free parent name fs
      (add_new_child t 1 (file_attrs (t 0) symlink_mode fs) target DirentType.link parent name fs)

-- Link counts are uint32.
abbrev pub with_nlink : ℕ → Inode → Inode
with_nlink k n = record n { attrs = record (n.attrs) { nlink = k % u32_mod } }

unfoldable pub create_link :
    Clock → InodeId → Bytes → InodeId → MemFs → Outcome (Reply ChildInodeEntry × MemFs)
unfolding add_to
create_link t parent name target fs = if_free parent name fs (do
  n ← get_inode_or_die fs target
  let linked = with_nlink (n.attrs.nlink + 1) n
  let fs₁ = put_inode target (record linked { attrs = record (linked.attrs) { ctime = t 0 } }) fs
  fs₂ ← add_to (t 1) parent target name DirentType.file fs₁
  n' ← get_inode_or_die fs₂ target
  done (ok (entry_for target n'.attrs (t 2 + one_year)), fs₂))

-- `var buf [4096]byte`
abbrev pub rename_room : ℕ
rename_room = 4096

-- `existing.isDir() && existing.ReadDir(buf[:], 0) > 0`
unfoldable pub has_entries : Inode → Outcome Bool
has_entries n =
    if is_dir n then (read_dir rename_room 0 n >>= λ b. done (ltb 0 (length b))) else done false

-- The end of Rename: link the new name, then remove the old one.
unfoldable pub move_entry :
    Clock
    → InodeId
    → Bytes
    → InodeId
    → Bytes
    → InodeId
    → ℕ
    → MemFs
    → Outcome (Reply (Unit {0}) × MemFs)
unfolding add_to remove_from
move_entry t old_parent old_name new_parent new_name id dt fs = do
  fs₁ ← add_to (t 1) new_parent id new_name dt fs
  fs₂ ← remove_from (t 2) old_parent old_name fs₁
  done (ok tt, fs₂)

unfoldable pub rename :
    Clock → InodeId → Bytes → InodeId → Bytes → MemFs → Outcome (Reply (Unit {0}) × MemFs)
unfolding has_entries move_entry remove_from
rename t old_parent old_name new_parent new_name fs = do
  from ← get_inode_or_die fs old_parent
  child ← look_up_child from old_name
  elim child [
    | none ↦ done (fail enoent, fs)
    | some (id, dt) ↦ do
      to ← get_inode_or_die fs new_parent
      existing ← look_up_child to new_name
      elim existing [
        | none ↦ move_entry t old_parent old_name new_parent new_name id dt fs
        | some (existing_id, _) ↦ do
          n ← get_inode_or_die fs existing_id
          full ← has_entries n
          let move =
              remove_from (t 0) new_parent new_name fs
              >>= move_entry t old_parent old_name new_parent new_name id dt
          if full then done (fail enotempty, fs) else move
      ]
  ]

-- The end of RmDir and Unlink: remove the entry, then count the link down.
unfoldable pub unlink_child :
    Clock → InodeId → Bytes → InodeId → MemFs → Outcome (Reply (Unit {0}) × MemFs)
unfolding remove_from
unlink_child t parent name id fs = do
  fs₁ ← remove_from (t 0) parent name fs
  child ← get_inode_or_die fs₁ id
  done (ok tt, put_inode id (with_nlink (child.attrs.nlink + u32_mod - 1) child) fs₁)

unfoldable pub rm_dir : Clock → InodeId → Bytes → MemFs → Outcome (Reply (Unit {0}) × MemFs)
unfolding unlink_child
rm_dir t parent name fs = do
  n ← get_inode_or_die fs parent
  found ← look_up_child n name
  elim found [
    | none ↦ done (fail enoent, fs)
    | some (id, _) ↦ do
      child ← get_inode_or_die fs id
      if not (len child == 0) then done (fail enotempty, fs) else unlink_child t parent name id fs
  ]

unfoldable pub unlink : Clock → InodeId → Bytes → MemFs → Outcome (Reply (Unit {0}) × MemFs)
unfolding unlink_child
unlink t parent name fs = do
  n ← get_inode_or_die fs parent
  found ← look_up_child n name
  elim found [
    | none ↦ done (fail enoent, fs)
    | some (id, _) ↦ get_inode_or_die fs id >>= λ _. unlink_child t parent name id fs
  ]
