-- ===== src/Memfs/Files.antt =====
-- samples/memfs/memfs.go, the handlers that work on one inode.
pub mod Data
pub mod Xattr
pub mod Listed
use fusego.Base.{
  ℕ, suc, ◌+◌, ◌-◌, Bool, true, false, not, ◌&&◌, Option, none, some, List, [], ◌∷◌, ◌++◌, ltb, leb,
  ◌==◌, if◌then◌else◌, Outcome, done, panics, ◌>>=◌, ◌>>◌, require, length, take, drop,
}
use fusego.Base.Int.{ℤ}
use fusego.Bytes.{Bytes, bytes_eq}
use fusego.Fuseops.{Time, InodeId, InodeAttributes, Errno, Reply, ok, fail, one_year}
use fusego.Fuseops.Errno.{eexist, einval, enoattr, erange, ebadf}
use fusego.Fuseops.Ops.{StatFsOp}
use fusego.Memfs.Inode.{
  Inode, Xattrs, is_dir, is_file, read_dir, read_at, write_at, set_attributes, fallocate,
}
use fusego.Memfs.Fs.{MemFs, Clock, get_inode_or_die, put_inode}

pub record AttributesReply : Type 0 where
  pub attributes : InodeAttributes
  pub attributes_expiration : Time

unfoldable pub get_inode_attributes : Clock → InodeId → MemFs → Outcome AttributesReply
get_inode_attributes t id fs = do
  n ← get_inode_or_die fs id
  done (record { attributes = n.attrs; attributes_expiration = t 0 + one_year })

abbrev pub is_given : Option ℕ → Bool
is_given none = false
is_given (some _) = true

-- `op.Size != nil && op.Handle == nil && *op.Size != 0`
abbrev pub truncates_blindly : Option ℕ → Option ℕ → Bool
truncates_blindly none handle = false
truncates_blindly (some size) handle = not (is_given handle) && not (size == 0)

-- The attributes are set whatever the error is that is returned with them.
unfoldable pub set_inode_attributes :
    Clock
    → InodeId
    → Option ℕ
    → Option ℕ
    → Option Time
    → Option ℕ
    → MemFs
    → Outcome (Option Errno × AttributesReply × MemFs)
set_inode_attributes t id size mode mtime handle fs = do
  n ← get_inode_or_die fs id
  n' ← set_attributes (t 0) size mode mtime n
  done (
    (if truncates_blindly size handle then some ebadf else none),
    record { attributes = n'.attrs; attributes_expiration = t 1 + one_year },
    put_inode id n' fs,
  )

unfoldable pub open_dir : InodeId → MemFs → Outcome (Unit {0})
open_dir id fs = get_inode_or_die fs id >>= λ n. require (is_dir n)

-- `ReadDir` with a buffer of `room` bytes.
unfoldable pub read_dir_op : InodeId → ℕ → ℕ → MemFs → Outcome Bytes
read_dir_op id room offset fs = get_inode_or_die fs id >>= λ n. read_dir room offset n

unfoldable pub open_file : ℕ → InodeId → MemFs → Outcome (Reply (Unit {0}))
open_file pid id fs =
    if pid == 0
    then done (fail einval)
    else get_inode_or_die fs id >>= λ n. require (is_file n) >> done (ok tt)

-- `ReadFile` with a buffer of `room` bytes; io.EOF is dropped, and no other error comes from ReadAt.
unfoldable pub read_file : InodeId → ℕ → ℤ → MemFs → Outcome Bytes
read_file id room offset fs = do
  n ← get_inode_or_die fs id
  (got, _) ← read_at room offset n
  done got

unfoldable pub write_file : Clock → InodeId → Bytes → ℤ → MemFs → Outcome MemFs
write_file t id p offset fs = do
  n ← get_inode_or_die fs id
  (n', _) ← write_at (t 0) p offset n
  done (put_inode id n' fs)

unfoldable pub flush_file : ℕ → Reply (Unit {0})
flush_file pid = if pid == 0 then fail einval else ok tt

unfoldable pub read_symlink : InodeId → MemFs → Outcome Bytes
read_symlink id fs = get_inode_or_die fs id >>= λ n. done n.target

-- `StatFS`, which leaves the op as it is.
unfoldable pub stat_fs : StatFsOp → StatFsOp
stat_fs op = op

-- The handler passes the length for the offset too, and drops the error.
unfoldable pub fallocate_op : InodeId → ℕ → ℕ → ℕ → MemFs → Outcome MemFs
fallocate_op id mode offset length' fs = do
  n ← get_inode_or_die fs id
  (n', _) ← fallocate mode length' length' n
  done (put_inode id n' fs)

-- What a read of extended attributes leaves: the bytes at the front of the buffer, the number that is
-- reported, and the error.
pub record XattrRead : Type 0 where
  pub written : Bytes
  pub bytes_read : ℕ
  pub error : Option Errno

unfoldable pub get_value : Bytes → Xattrs → Option Bytes
get_value name [] = none
get_value name ((k, v) ∷ m) =
    let rest = get_value name m in if bytes_eq k name then some v else rest

unfoldable pub set_value : Bytes → Bytes → Xattrs → Xattrs
set_value name v [] = (name, v) ∷ []
set_value name v ((k, w) ∷ m) =
    let rest = set_value name v m in if bytes_eq k name then (k, v) ∷ m else (k, w) ∷ rest

unfoldable pub delete_value : Bytes → Xattrs → Xattrs
delete_value name [] = []
delete_value name ((k, v) ∷ m) =
    let rest = delete_value name m in if bytes_eq k name then rest else (k, v) ∷ rest

unfoldable pub get_xattr : InodeId → Bytes → ℕ → MemFs → Outcome XattrRead
get_xattr id name room fs = do
  n ← get_inode_or_die fs id
  done (elim (get_value name n.xattrs) [
    | none ↦ record { written = []; bytes_read = 0; error = some enoattr }
    | some value ↦
        if leb (length value) room
        then record { written = value; bytes_read = length value; error = none }
        else record {
          written = [];
          bytes_read = length value;
          error = if room == 0 then none else some erange;
        }
  ])

-- The loop over the keys; `dst` is what the rest of the buffer held before. A key is copied without
-- an end, and the byte after it is skipped.
unfoldable pub list_keys : Bool → Bytes → Xattrs → XattrRead
list_keys sized dst [] = record { written = []; bytes_read = 0; error = none }
list_keys sized dst ((k, _) ∷ m) =
    let key_len = length k + 1 in
    let more = list_keys sized (drop key_len dst) m in
    let counted = list_keys sized dst m in
    if leb key_len (length dst)
    then record more {
      written = k ++ (take 1 (drop (length k) dst) ++ more.written);
      bytes_read = key_len + more.bytes_read;
    }
    else if sized
    then record { written = []; bytes_read = 0; error = some erange }
    else record counted { bytes_read = key_len + counted.bytes_read }

unfoldable pub list_xattr : InodeId → Bytes → MemFs → Outcome XattrRead
list_xattr id dst fs = do
  n ← get_inode_or_die fs id
  done (list_keys (not (length dst == 0)) dst n.xattrs)

unfoldable pub remove_xattr : InodeId → Bytes → MemFs → Outcome (Reply (Unit {0}) × MemFs)
remove_xattr id name fs = do
  n ← get_inode_or_die fs id
  done (elim (get_value name n.xattrs) [
    | none ↦ (fail enoattr, fs)
    | some _ ↦ (ok tt, put_inode id (record n { xattrs = delete_value name n.xattrs }) fs)
  ])

-- `unix.XATTR_CREATE` and `unix.XATTR_REPLACE`
abbrev pub xattr_create : ℕ
xattr_create = 1

abbrev pub xattr_replace : ℕ
xattr_replace = 2

unfoldable pub set_xattr : InodeId → Bytes → Bytes → ℕ → MemFs → Outcome (Reply (Unit {0}) × MemFs)
set_xattr id name value flags fs = do
  n ← get_inode_or_die fs id
  let present : Bool = elim (get_value name n.xattrs) [ none ↦ false | some _ ↦ true ]
  done (
      if flags == xattr_create && present
      then (fail eexist, fs)
      else if flags == xattr_replace && not present
      then (fail enoattr, fs)
      else (ok tt, put_inode id (record n { xattrs = set_value name value n.xattrs }) fs))
