-- ===== src/Memfs/Calls.antt =====
-- samples/memfs as the kernel drives it: a sequence of calls, one at a time under the mutex.
pub mod Served
use fusego.Base.{
  ℕ, ◌+◌, ◌<◌, ◌≡◌, ◌≢◌, Bool, true, Option, none, some, [], Outcome, done, panics, ◌>>=◌, length,
}
use fusego.Base.Int.{ℤ, pos}
use fusego.Bytes.{Bytes}
use fusego.Fuseops.Ops.{StatFsOp}
use fusego.Fuseops.{Time, InodeId, int_bound, alloc_bound}
use fusego.Memfs.Inode.{Inode, is_dir, is_file}
use fusego.Memfs.Inode.Invariant.{IsMode}
use fusego.Memfs.Inode.Methods.{IsResize, IsChmod}
use fusego.Memfs.Fs.{MemFs, Clock, new_mem_fs}
use fusego.Memfs.Fs.Table.{inode_at}
use fusego.Memfs.Names.{
  look_up_inode, mk_dir, mk_node, create_file, create_symlink, create_link, rename, rm_dir, unlink,
}
use fusego.Memfs.Names.Moving.{IsShort}
use fusego.Memfs.Files.{
  stat_fs, flush_file, get_inode_attributes, set_inode_attributes, open_dir, read_dir_op, open_file,
  read_file, write_file, read_symlink, fallocate_op, get_xattr, list_xattr, remove_xattr, set_xattr,
}

-- The calls, with the fields of their ops that the handlers read.
pub data Call : Type 0 where
  statting : StatFsOp → Call
  looking_up : InodeId → Bytes → Call
  getting_attributes : InodeId → Call
  setting_attributes : InodeId → Option ℕ → Option ℕ → Option Time → Option ℕ → Call
  making_dir : InodeId → Bytes → ℕ → Call
  making_node : InodeId → Bytes → ℕ → Call
  creating_file : ℕ → InodeId → Bytes → ℕ → Call
  creating_symlink : InodeId → Bytes → Bytes → Call
  creating_link : InodeId → Bytes → InodeId → Call
  renaming : InodeId → Bytes → InodeId → Bytes → Call
  removing_dir : InodeId → Bytes → Call
  unlinking : InodeId → Bytes → Call
  opening_dir : InodeId → Call
  reading_dir : InodeId → ℕ → ℕ → Call
  opening_file : ℕ → InodeId → Call
  reading_file : InodeId → ℕ → ℕ → Call
  writing_file : InodeId → Bytes → ℕ → Call
  flushing : ℕ → Call
  reading_symlink : InodeId → Call
  allocating : InodeId → ℕ → ℕ → ℕ → Call
  getting_xattr : InodeId → Bytes → ℕ → Call
  listing_xattr : InodeId → Bytes → Call
  removing_xattr : InodeId → Bytes → Call
  setting_xattr : InodeId → Bytes → Bytes → ℕ → Call

-- The file system after a call that answers with an `A` beside it, and after one that changes nothing.
abbrev pub state_of {ℓ} : {A : Type ℓ} → Outcome (A × MemFs) → Outcome MemFs
state_of r = r >>= λ (_, fs'). done fs'

abbrev pub unchanged {ℓ} : {A : Type ℓ} → MemFs → Outcome A → Outcome MemFs
unchanged fs r = r >>= λ _. done fs

-- Which handler serves a call.
abbrev pub serve : Clock → Call → MemFs → Outcome MemFs
serve t (statting op) fs = unchanged fs (done (stat_fs op))
serve t (looking_up parent name) fs = unchanged fs (look_up_inode t parent name fs)
serve t (getting_attributes id) fs = unchanged fs (get_inode_attributes t id fs)
serve t (setting_attributes id size mode mtime handle) fs =
    set_inode_attributes t id size mode mtime handle fs >>= λ (_, _, fs'). done fs'
serve t (making_dir parent name mode) fs = state_of (mk_dir t parent name mode fs)
serve t (making_node parent name mode) fs = state_of (mk_node t parent name mode fs)
serve t (creating_file pid parent name mode) fs = state_of (create_file t pid parent name mode fs)
serve t (creating_symlink parent name target) fs = state_of (create_symlink t parent name target fs)
serve t (creating_link parent name target) fs = state_of (create_link t parent name target fs)
serve t (renaming old_parent old_name new_parent new_name) fs =
    state_of (rename t old_parent old_name new_parent new_name fs)
serve t (removing_dir parent name) fs = state_of (rm_dir t parent name fs)
serve t (unlinking parent name) fs = state_of (unlink t parent name fs)
serve t (opening_dir id) fs = unchanged fs (open_dir id fs)
serve t (reading_dir id room offset) fs = unchanged fs (read_dir_op id room offset fs)
serve t (opening_file pid id) fs = unchanged fs (open_file pid id fs)
serve t (reading_file id room offset) fs = unchanged fs (read_file id room (pos offset) fs)
serve t (writing_file id p offset) fs = write_file t id p (pos offset) fs
serve t (flushing pid) fs = unchanged fs (done (flush_file pid))
serve t (reading_symlink id) fs = unchanged fs (read_symlink id fs)
serve t (allocating id mode offset len) fs = fallocate_op id mode offset len fs
serve t (getting_xattr id name room) fs = unchanged fs (get_xattr id name room fs)
serve t (listing_xattr id dst) fs = unchanged fs (list_xattr id dst fs)
serve t (removing_xattr id name) fs = state_of (remove_xattr id name fs)
serve t (setting_xattr id name value flags) fs = state_of (set_xattr id name value flags fs)

abbrev pub IsLive : MemFs → InodeId → Type 0
IsLive fs id = (n : Inode) × (inode_at fs id ≡ some n)

abbrev pub IsLiveDir : MemFs → InodeId → Type 0
IsLiveDir fs id = (n : Inode) × (inode_at fs id ≡ some n) × (is_dir n ≡ true)

abbrev pub IsLiveFile : MemFs → InodeId → Type 0
IsLiveFile fs id = (n : Inode) × (inode_at fs id ≡ some n) × (is_file n ≡ true)

-- A live directory, and a name to look for in it.
abbrev pub IsPlace : MemFs → InodeId → Bytes → Type 0
IsPlace fs parent name = IsLiveDir fs parent × (name ≢ [])

-- What the file system needs of a call. The kernel sees to it that inodes are live and of the kind that the
-- call is for, and that names are not empty. It does not see to the rest: a mode has no bits but those of a
-- directory, of a symbolic link and the permissions, and a new one keeps the kind of the file; sizes are such
-- that the memory can be allocated, and offsets in the range of int; and for a rename no name is overlong.
abbrev pub IsAllowed : MemFs → Call → Type 0
IsAllowed fs (statting op) = Unit {0}
IsAllowed fs (looking_up parent name) = IsPlace fs parent name
IsAllowed fs (getting_attributes id) = IsLive fs id
IsAllowed fs (setting_attributes id size mode mtime handle) =
    (n : Inode) × (inode_at fs id ≡ some n) × IsResize size n × IsChmod mode n.attrs.mode
IsAllowed fs (making_dir parent name mode) = IsPlace fs parent name × IsMode mode
IsAllowed fs (making_node parent name mode) = IsPlace fs parent name × IsMode mode
IsAllowed fs (creating_file pid parent name mode) = IsPlace fs parent name × IsMode mode
IsAllowed fs (creating_symlink parent name target) = IsPlace fs parent name
IsAllowed fs (creating_link parent name target) = IsPlace fs parent name × IsLive fs target
IsAllowed fs (renaming old_parent old_name new_parent new_name) =
    IsPlace fs old_parent old_name
    × IsPlace fs new_parent new_name
    × ((j : InodeId) (c : Inode) → inode_at fs j ≡ some c → IsShort c)
IsAllowed fs (removing_dir parent name) = IsPlace fs parent name
IsAllowed fs (unlinking parent name) = IsPlace fs parent name
IsAllowed fs (opening_dir id) = IsLiveDir fs id
IsAllowed fs (reading_dir id room offset) = IsLiveDir fs id × (offset < int_bound)
IsAllowed fs (opening_file pid id) = IsLiveFile fs id
IsAllowed fs (reading_file id room offset) = IsLiveFile fs id
IsAllowed fs (writing_file id p offset) = IsLiveFile fs id × (offset + length p < alloc_bound)
IsAllowed fs (flushing pid) = Unit {0}
IsAllowed fs (reading_symlink id) = IsLive fs id
IsAllowed fs (allocating id mode offset len) = IsLiveFile fs id × (len + len < alloc_bound)
IsAllowed fs (getting_xattr id name room) = IsLive fs id
IsAllowed fs (listing_xattr id dst) = IsLive fs id
IsAllowed fs (removing_xattr id name) = IsLive fs id
IsAllowed fs (setting_xattr id name value flags) = IsLive fs id

-- The file systems that come about from a new one by calls that are allowed.
pub data Reached : MemFs → Type 0 where
  mounted : (now : Time) (uid gid : ℕ) → Reached (new_mem_fs now uid gid)
  called :
      {fs fs' : MemFs} (t : Clock) (call : Call)
      → Reached fs
      → IsAllowed fs call
      → serve t call fs ≡ done fs'
      → Reached fs'
