-- ===== src/Fuseops/Ops.antt =====
-- fuseops/ops.go and ops.go: one record for each kind of request, with the fields that the kernel fills
-- in and those that the file system fills in, which start at zero. A buffer `dst` lies at the end of the
-- reply's message, and is given by its length.
use fusego.Base.{ℕ, Bool, Option}
use fusego.Base.Int.{ℤ}
use fusego.Bytes.{Bytes}
use fusego.Fuseops.{Time, InodeId, InodeAttributes, ChildInodeEntry}
use fusego.Fusekernel.{Protocol}

pub record StatFsOp : Type 0 where
  pub block_size : ℕ
  pub blocks : ℕ
  pub blocks_free : ℕ
  pub blocks_available : ℕ
  pub io_size : ℕ
  pub inodes : ℕ
  pub inodes_free : ℕ

pub record LookUpInodeOp : Type 0 where
  pub parent : InodeId
  pub name : Bytes
  pub entry : ChildInodeEntry

pub record GetInodeAttributesOp : Type 0 where
  pub inode : InodeId
  pub attributes : InodeAttributes
  pub attributes_expiration : Time

pub record SetInodeAttributesOp : Type 0 where
  pub inode : InodeId
  pub handle : Option ℕ
  pub size : Option ℕ
  pub mode : Option ℕ
  pub atime : Option Time
  pub mtime : Option Time
  pub attributes : InodeAttributes
  pub attributes_expiration : Time

pub record ForgetInodeOp : Type 0 where
  pub inode : InodeId
  pub n : ℕ

pub record MkDirOp : Type 0 where
  pub parent : InodeId
  pub name : Bytes
  pub mode : ℕ
  pub entry : ChildInodeEntry

pub record MkNodeOp : Type 0 where
  pub parent : InodeId
  pub name : Bytes
  pub mode : ℕ
  pub entry : ChildInodeEntry

pub record CreateFileOp : Type 0 where
  pub pid : ℕ
  pub parent : InodeId
  pub name : Bytes
  pub mode : ℕ
  pub entry : ChildInodeEntry
  pub handle : ℕ

pub record CreateSymlinkOp : Type 0 where
  pub parent : InodeId
  pub name : Bytes
  pub target : Bytes
  pub entry : ChildInodeEntry

pub record CreateLinkOp : Type 0 where
  pub parent : InodeId
  pub name : Bytes
  pub target : InodeId
  pub entry : ChildInodeEntry

pub record RenameOp : Type 0 where
  pub old_parent : InodeId
  pub old_name : Bytes
  pub new_parent : InodeId
  pub new_name : Bytes

pub record RmDirOp : Type 0 where
  pub parent : InodeId
  pub name : Bytes

pub record UnlinkOp : Type 0 where
  pub parent : InodeId
  pub name : Bytes

pub record OpenDirOp : Type 0 where
  pub inode : InodeId
  pub handle : ℕ

pub record ReadDirOp : Type 0 where
  pub inode : InodeId
  pub handle : ℕ
  pub offset : ℕ
  pub dst : ℕ
  pub bytes_read : ℕ

pub record ReleaseDirHandleOp : Type 0 where
  pub handle : ℕ

pub record OpenFileOp : Type 0 where
  pub pid : ℕ
  pub inode : InodeId
  pub handle : ℕ
  pub keep_page_cache : Bool
  pub use_direct_io : Bool

pub record ReadFileOp : Type 0 where
  pub inode : InodeId
  pub handle : ℕ
  pub offset : ℤ
  pub dst : ℕ
  pub bytes_read : ℕ

pub record WriteFileOp : Type 0 where
  pub inode : InodeId
  pub handle : ℕ
  pub offset : ℤ
  pub contents : Bytes

pub record SyncFileOp : Type 0 where
  pub inode : InodeId
  pub handle : ℕ

pub record FlushFileOp : Type 0 where
  pub pid : ℕ
  pub inode : InodeId
  pub handle : ℕ

pub record ReleaseFileHandleOp : Type 0 where
  pub handle : ℕ

pub record ReadSymlinkOp : Type 0 where
  pub inode : InodeId
  pub target : Bytes

pub record RemoveXattrOp : Type 0 where
  pub inode : InodeId
  pub name : Bytes

pub record GetXattrOp : Type 0 where
  pub inode : InodeId
  pub name : Bytes
  pub dst : ℕ
  pub bytes_read : ℕ

pub record ListXattrOp : Type 0 where
  pub inode : InodeId
  pub dst : ℕ
  pub bytes_read : ℕ

pub record SetXattrOp : Type 0 where
  pub inode : InodeId
  pub name : Bytes
  pub value : Bytes
  pub flags : ℕ

pub record FallocateOp : Type 0 where
  pub inode : InodeId
  pub handle : ℕ
  pub offset : ℕ
  pub length : ℕ
  pub mode : ℕ

pub record UnknownOp : Type 0 where
  pub op_code : ℕ
  pub inode : InodeId

pub record InterruptOp : Type 0 where
  pub fuse_id : ℕ

pub record InitOp : Type 0 where
  pub kernel : Protocol
  pub flags : ℕ
  pub library : Protocol
  pub max_readahead : ℕ
  pub max_write : ℕ

-- What a value of type interface{} that holds an op can be.
pub data Op : Type 0 where
  stat_fs : StatFsOp → Op
  look_up_inode : LookUpInodeOp → Op
  get_inode_attributes : GetInodeAttributesOp → Op
  set_inode_attributes : SetInodeAttributesOp → Op
  forget_inode : ForgetInodeOp → Op
  mk_dir : MkDirOp → Op
  mk_node : MkNodeOp → Op
  create_file : CreateFileOp → Op
  create_symlink : CreateSymlinkOp → Op
  create_link : CreateLinkOp → Op
  rename : RenameOp → Op
  rm_dir : RmDirOp → Op
  unlink : UnlinkOp → Op
  open_dir : OpenDirOp → Op
  read_dir : ReadDirOp → Op
  release_dir_handle : ReleaseDirHandleOp → Op
  open_file : OpenFileOp → Op
  read_file : ReadFileOp → Op
  write_file : WriteFileOp → Op
  sync_file : SyncFileOp → Op
  flush_file : FlushFileOp → Op
  release_file_handle : ReleaseFileHandleOp → Op
  read_symlink : ReadSymlinkOp → Op
  remove_xattr : RemoveXattrOp → Op
  get_xattr : GetXattrOp → Op
  list_xattr : ListXattrOp → Op
  set_xattr : SetXattrOp → Op
  fallocate : FallocateOp → Op
  unknown : UnknownOp → Op
  interrupt : InterruptOp → Op
  init : InitOp → Op
