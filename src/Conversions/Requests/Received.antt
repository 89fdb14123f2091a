-- ===== src/Conversions/Requests/Received.antt =====
-- What convertInMessage makes of a request, as the kernel writes it.
pub mod Cases
pub mod Structs
pub mod Named
pub mod Filled
pub mod Agreement
pub mod Delivered
pub mod Refused
use fusego.Base.{
  ℕ, ◌+◌, ◌-◌, ◌≤◌, ◌<◌, ◌≡◌, Bool, false, Option, none, some, [], ◌∷◌, ◌++◌, ltb, if◌then◌else◌,
  Outcome, done, length,
}
use fusego.Base.Int.{ℤ}
use fusego.Bytes.{Bytes}
use fusego.Fuseops.{Time, InodeId}
use fusego.Fuseops.FileMode.{has_bit, dir_bit}
use fusego.Fuseops.Ops
use fusego.Fuseops.Ops.{Op}
use fusego.Fusekernel.{version}
use fusego.Buffer.Outgoing.{OutMessage}
use fusego.Conversions.{Converted, converted, cannot_grow, no_entry, no_attributes}
use fusego.Conversions.Fields.{InHeader, signed}
use fusego.Conversions.Mode.{convert_file_mode, with_bit}
use fusego.Conversions.Requests.{
  Request, lookup, getattr, setattr, forget, mkdir, mknod, create, symlink, rename, unlink, rmdir,
  open_file, opendir, read, readdir, release, releasedir, write, fsync, flush, readlink, statfs,
  interrupt, init, link, removexattr, getxattr, listxattr, setxattr, fallocate, opcode_of,
}

-- A field that the kernel marks as valid.
abbrev pub given {ℓ} : {A : Type ℓ} → Bool → A → Option A
given valid a = if valid then some a else none

module _ (unix : ℤ → ℕ → Time) (node pid : ℕ) where
  -- The op that a file system is to be called with, for a request on this node and from this process.
  abbrev pub op_of : Request → Op
  op_of (lookup name) = Ops.look_up_inode (record { parent = node; name = name; entry = no_entry })
  op_of getattr =
      Ops.get_inode_attributes
        (record { inode = node; attributes = no_attributes; attributes_expiration = 0 })
  op_of (setattr valid fh size atime mtime atime_nsec mtime_nsec mode) =
      Ops.set_inode_attributes (record {
        inode = node;
        handle = given (has_bit valid 6) fh;
        size = given (has_bit valid 3) size;
        mode = given (has_bit valid 0) (convert_file_mode mode);
        atime = given (has_bit valid 4) (unix (signed atime) atime_nsec);
        mtime = given (has_bit valid 5) (unix (signed mtime) mtime_nsec);
        attributes = no_attributes;
        attributes_expiration = 0;
      })
  op_of (forget n) = Ops.forget_inode (record { inode = node; n = n })
  op_of (mkdir mode umask name) = Ops.mk_dir (record {
    parent = node;
    name = name;
    mode = with_bit (convert_file_mode mode) dir_bit;
    entry = no_entry;
  })
  op_of (mknod mode rdev umask name) =
      Ops.mk_node
        (record { parent = node; name = name; mode = convert_file_mode mode; entry = no_entry })
  op_of (create flags mode umask name) = Ops.create_file (record {
    pid = pid;
    parent = node;
    name = name;
    mode = convert_file_mode mode;
    entry = no_entry;
    handle = 0;
  })
  op_of (symlink name target) =
      Ops.create_symlink (record { parent = node; name = name; target = target; entry = no_entry })
  op_of (rename newdir old_name new_name) =
      Ops.rename (record {
        old_parent = node;
        old_name = old_name;
        new_parent = newdir;
        new_name = new_name;
      })
  op_of (unlink name) = Ops.unlink (record { parent = node; name = name })
  op_of (rmdir name) = Ops.rm_dir (record { parent = node; name = name })
  op_of open_file = Ops.open_file (record {
    pid = pid;
    inode = node;
    handle = 0;
    keep_page_cache = false;
    use_direct_io = false;
  })
  op_of opendir = Ops.open_dir (record { inode = node; handle = 0 })
  op_of (read fh offset size) =
      Ops.read_file
        (record { inode = node; handle = fh; offset = signed offset; dst = size; bytes_read = 0 })
  op_of (readdir fh offset size) =
      Ops.read_dir
        (record { inode = node; handle = fh; offset = offset; dst = size; bytes_read = 0 })
  op_of (release fh) = Ops.release_file_handle (record { handle = fh })
  op_of (releasedir fh) = Ops.release_dir_handle (record { handle = fh })
  op_of (write fh offset contents) =
      Ops.write_file
        (record { inode = node; handle = fh; offset = signed offset; contents = contents })
  op_of (fsync fh) = Ops.sync_file (record { inode = node; handle = fh })
  op_of (flush fh) = Ops.flush_file (record { pid = pid; inode = node; handle = fh })
  op_of readlink = Ops.read_symlink (record { inode = node; target = [] })
  op_of statfs = Ops.stat_fs (record {
    block_size = 0;
    blocks = 0;
    blocks_free = 0;
    blocks_available = 0;
    io_size = 0;
    inodes = 0;
    inodes_free = 0;
  })
  op_of (interrupt unique) = Ops.interrupt (record { fuse_id = unique })
  op_of (init major minor readahead flags) = Ops.init (record {
    kernel = version major minor;
    flags = flags;
    library = version 0 0;
    max_readahead = readahead;
    max_write = 0;
  })
  op_of (link oldnodeid name) =
      Ops.create_link (record { parent = node; name = name; target = oldnodeid; entry = no_entry })
  op_of (removexattr name) = Ops.remove_xattr (record { inode = node; name = name })
  op_of (getxattr size name) =
      Ops.get_xattr (record { inode = node; name = name; dst = size; bytes_read = 0 })
  op_of (listxattr size) = Ops.list_xattr (record { inode = node; dst = size; bytes_read = 0 })
  op_of (setxattr flags name value) =
      Ops.set_xattr (record { inode = node; name = name; value = value; flags = flags })
  op_of (fallocate fh offset len mode) =
      Ops.fallocate
        (record { inode = node; handle = fh; offset = offset; length = len; mode = mode })

-- The room for an answer that the kernel asks for.
abbrev pub room_of : Request → ℕ
room_of (read fh offset size) = size
room_of (readdir fh offset size) = size
room_of (getxattr size name) = size
room_of (listxattr size) = size
room_of _ = 0

-- The op, with the room reserved at the end of the message for the reply; or an error, where the message
-- cannot hold as much.
abbrev pub reserved : ℕ → Op → OutMessage → Converted
reserved room op out =
    if ltb (length out.payload - out.payload_offset) room
    then cannot_grow room
    else converted op (record out { payload_offset = out.payload_offset + room })

abbrev pub header_of : ℕ → ℕ → ℕ → Request → InHeader
header_of unique node pid r = record {
  opcode = opcode_of r;
  unique = unique;
  nodeid = node;
  pid = pid;
}
