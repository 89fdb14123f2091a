-- ===== src/Cachingfs.antt =====
-- samples/cachingfs/caching_fs.go. Each method holds the mutex while it works on the state, so that a call is
-- one step. The reading of the clock is an argument, as is what crypto/rand returns for a length.
pub mod Inodes
mod Tests
use fusego.Base.{
  ℕ, ◌+◌, ◌-◌, ◌*◌, ◌/◌, ◌%◌, ◌^◌, Bool, true, false, not, ◌||◌, Option, none, some, [], ◌∷◌, ltb,
  leb, ◌==◌, if◌then◌else◌, Outcome, done, require, ◌>>◌, length,
}
use fusego.Bytes.{Bytes, bytes_eq}
use fusego.Fuseops.{Time, InodeId, InodeAttributes, ChildInodeEntry, root_inode_id, u64_mod}
use fusego.Fuseops.FileMode.{mode_dir}
use fusego.Fuseops.Ops.{
  StatFsOp, LookUpInodeOp, GetInodeAttributesOp, OpenDirOp, OpenFileOp, ReadFileOp,
}
use fusego.Conversions.Outgoing.{OpError, errno}
use fusego.Server.{FileSystem, Returned}
use fusego.Server.NotImplemented.{not_implemented_file_system}

pub record CachingFs : Type 0 where
  pub lookup_entry_timeout : ℕ
  pub getattr_timeout : ℕ
  pub keep_page_cache : Bool
  pub base_id : InodeId
  pub mtime : Time

abbrev pub foo_offset : ℕ
foo_offset = 0

abbrev pub dir_offset : ℕ
dir_offset = 1

abbrev pub bar_offset : ℕ
bar_offset = 2

abbrev pub num_inodes : ℕ
num_inodes = 3

abbrev pub round_up : InodeId → InodeId
round_up n = num_inodes * ((n + num_inodes - 1) / num_inodes)

-- `NewCachingFS`
abbrev pub new_caching_fs : ℕ → ℕ → Time → CachingFs
new_caching_fs lookup_entry_timeout getattr_timeout now = record {
  lookup_entry_timeout = lookup_entry_timeout;
  getattr_timeout = getattr_timeout;
  keep_page_cache = false;
  base_id = round_up (root_inode_id + 1);
  mtime = now;
}

-- `checkInvariants`
unfoldable pub check_invariants : CachingFs → Outcome (Unit {0})
check_invariants fs =
    require (not (leb fs.base_id root_inode_id || not (fs.base_id % num_inodes == 0)))

-- An addition of numbers of 64 bits.
abbrev pub add64 : ℕ → ℕ → ℕ
add64 a b = (a + b) % u64_mod

abbrev pub foo_id : CachingFs → InodeId
foo_id fs = add64 fs.base_id foo_offset

abbrev pub dir_id : CachingFs → InodeId
dir_id fs = add64 fs.base_id dir_offset

abbrev pub bar_id : CachingFs → InodeId
bar_id fs = add64 fs.base_id bar_offset

-- Attributes with the fields that the four functions below set.
abbrev pub attributes : ℕ → ℕ → ℕ → CachingFs → InodeAttributes
attributes nlink size mode fs = record {
  size = size;
  nlink = nlink;
  mode = mode;
  atime = 0;
  mtime = fs.mtime;
  ctime = 0;
  crtime = 0;
  uid = 0;
  gid = 0;
}

abbrev pub root_attrs : CachingFs → InodeAttributes
root_attrs fs = attributes 0 0 (mode_dir + 511) fs

abbrev pub foo_size : ℕ
foo_size = 123

abbrev pub bar_size : ℕ
bar_size = 456

abbrev pub foo_attrs : CachingFs → InodeAttributes
foo_attrs fs = attributes 1 foo_size 511 fs

abbrev pub dir_attrs : CachingFs → InodeAttributes
dir_attrs fs = attributes 1 0 (mode_dir + 511) fs

abbrev pub bar_attrs : CachingFs → InodeAttributes
bar_attrs fs = attributes 1 bar_size 511 fs

unfoldable pub renumber_inodes : CachingFs → CachingFs
renumber_inodes fs = record fs { base_id = add64 fs.base_id num_inodes }

abbrev pub set_mtime : Time → CachingFs → CachingFs
set_mtime mtime fs = record fs { mtime = mtime }

abbrev pub set_keep_cache : Bool → CachingFs → CachingFs
set_keep_cache keep fs = record fs { keep_page_cache = keep }

-- The names "foo", "dir" and "bar".
abbrev pub foo : Bytes
foo = 102 ∷ 111 ∷ 111 ∷ []

abbrev pub dir : Bytes
dir = 100 ∷ 105 ∷ 114 ∷ []

abbrev pub bar : Bytes
bar = 98 ∷ 97 ∷ 114 ∷ []

-- The switch of LookUpInode: the ID and the attributes, or ENOENT.
unfoldable pub find : CachingFs → InodeId → Bytes → Option (InodeId × InodeAttributes)
unfolding bytes_eq
find fs parent name =
    if bytes_eq name foo
    then (if not (parent == root_inode_id) then none else some (foo_id fs, foo_attrs fs))
    else if bytes_eq name dir
    then (if not (parent == root_inode_id) then none else some (dir_id fs, dir_attrs fs))
    else if bytes_eq name bar
    then (if parent == root_inode_id || not (parent % num_inodes == dir_offset)
        then none
        else some (bar_id fs, bar_attrs fs))
    else none

-- `fuse.ENOENT`
abbrev pub enoent : OpError
enoent = errno 2

-- `LookUpInode`
unfoldable pub look_up_inode : Time → LookUpInodeOp → CachingFs → Returned CachingFs LookUpInodeOp
unfolding find
look_up_inode now op fs = elim (find fs op.parent op.name) [
  | none ↦ record { op = op; filled = []; err = some enoent; state = fs }
  | some (id, attrs) ↦ record {
    op = record op {
      entry = record {
        child = id;
        generation = op.entry.generation;
        attributes = attrs;
        attributes_expiration = op.entry.attributes_expiration;
        entry_expiration = now + fs.lookup_entry_timeout;
      };
    };
    filled = [];
    err = none;
    state = fs;
  }
]

-- The switch of GetInodeAttributes; one of its cases always holds.
unfoldable pub attributes_of : CachingFs → InodeId → InodeAttributes
attributes_of fs inode =
    if inode == root_inode_id
    then root_attrs fs
    else if inode % num_inodes == foo_offset
    then foo_attrs fs
    else if inode % num_inodes == dir_offset
    then dir_attrs fs
    else bar_attrs fs

-- `GetInodeAttributes`
unfoldable pub get_inode_attributes :
    Time → GetInodeAttributesOp → CachingFs → Returned CachingFs GetInodeAttributesOp
unfolding attributes_of
get_inode_attributes now op fs = record {
  op = record op {
    attributes = attributes_of fs op.inode;
    attributes_expiration = now + fs.getattr_timeout;
  };
  filled = [];
  err = none;
  state = fs;
}

abbrev pub succeeds : {A : Type 0} → A → CachingFs → Returned CachingFs A
succeeds op fs = record { op = op; filled = []; err = none; state = fs }

abbrev pub open_file : OpenFileOp → CachingFs → Returned CachingFs OpenFileOp
open_file op fs = succeeds (record op { keep_page_cache = fs.keep_page_cache }) fs

-- `ReadFile`, where io.ReadFull on rand.Reader returns these bytes and this error.
abbrev pub read_file :
    (ℕ → Bytes × Option OpError) → ReadFileOp → CachingFs → Returned CachingFs ReadFileOp
read_file random op fs = record {
  op = record op { bytes_read = length (random op.dst).0 };
  filled = (random op.dst).0;
  err = (random op.dst).1;
  state = fs;
}

-- The type cachingFS, which has the methods of NotImplementedFileSystem beside its own.
abbrev pub caching_file_system : Time → (ℕ → Bytes × Option OpError) → FileSystem CachingFs
caching_file_system now random = record not_implemented_file_system {
  stat_fs = succeeds;
  look_up_inode = look_up_inode now;
  get_inode_attributes = get_inode_attributes now;
  open_dir = succeeds;
  open_file = open_file;
  read_file = read_file random;
}
