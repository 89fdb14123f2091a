-- ===== src/Fuseops.antt =====
-- fuseops/simple_types.go and errors.go: the types that every file system shares. A time is a number of
-- nanoseconds since Go's zero time, and the reading of the clock is an argument of what reads it.
pub mod FileMode
pub mod Ops
use fusego.Base.{ℕ, ◌*◌, Option, none, some}

abbrev pub Time : Type 0
Time = ℕ

abbrev pub InodeId : Type 0
InodeId = ℕ

abbrev pub root_inode_id : InodeId
root_inode_id = 1

-- The range of the uint32 and the uint64 fields, and the bound of an int.
abbrev pub u32_mod : ℕ
u32_mod = 4_294_967_296

abbrev pub u64_mod : ℕ
u64_mod = 18_446_744_073_709_551_616

abbrev pub int_bound : ℕ
int_bound = 9_223_372_036_854_775_808

-- `make` and `append` panic for a slice of 2^48 bytes or more, on a platform with addresses of 48 bits.
-- Below that the memory is taken to be there.
abbrev pub alloc_bound : ℕ
alloc_bound = 281_474_976_710_656

pub record InodeAttributes : Type 0 where
  pub size : ℕ
  pub nlink : ℕ
  pub mode : ℕ
  pub atime : Time
  pub mtime : Time
  pub ctime : Time
  pub crtime : Time
  pub uid : ℕ
  pub gid : ℕ

pub record ChildInodeEntry : Type 0 where
  pub child : InodeId
  pub generation : ℕ
  pub attributes : InodeAttributes
  pub attributes_expiration : Time
  pub entry_expiration : Time

-- The error numbers that the repository's code names.
pub data Errno : Type 0 where
  eexist einval eio enoattr enoent enosys enotdir enotempty erange ebadf eproto : Errno

-- What a handler tells the kernel.
pub data Reply {ℓ} (A : Type ℓ) : Type ℓ where
  ok : A → Reply A
  fail : Errno → Reply A

-- `365 * 24 * time.Hour`
abbrev pub one_year : ℕ
one_year = 31_536_000_000_000_000
