-- ===== src/Conversions/Requests.antt =====
-- Requests as the kernel writes them: a header, a struct, and what follows it. This is the format that
-- fuse.h documents, for the version of the protocol that was agreed on, and not taken from the code that
-- reads it.
pub mod Reading
pub mod Received
use fusego.Base.{
  ℕ, ◌+◌, ◌≤◌, ◌<◌, ◌^◌, ◌≡◌, ◌≢◌, Option, none, some, [], ◌∷◌, ◌++◌, if◌then◌else◌, length,
}
use fusego.Bytes.{Bytes, le_bytes}
use fusego.Fusekernel.{Protocol, lt, version}
use fusego.Fusekernel.Opcode
use fusego.Conversions.Fields.{InHeader, nul_index}

pub data Request : Type 0 where
  lookup : Bytes → Request
  getattr : Request
  setattr : ℕ → ℕ → ℕ → ℕ → ℕ → ℕ → ℕ → ℕ → Request
  forget : ℕ → Request
  mkdir : ℕ → ℕ → Bytes → Request
  mknod : ℕ → ℕ → ℕ → Bytes → Request
  create : ℕ → ℕ → ℕ → Bytes → Request
  symlink : Bytes → Bytes → Request
  rename : ℕ → Bytes → Bytes → Request
  unlink : Bytes → Request
  rmdir : Bytes → Request
  open_file : Request
  opendir : Request
  read : ℕ → ℕ → ℕ → Request
  readdir : ℕ → ℕ → ℕ → Request
  release : ℕ → Request
  releasedir : ℕ → Request
  write : ℕ → ℕ → Bytes → Request
  fsync : ℕ → Request
  flush : ℕ → Request
  readlink : Request
  statfs : Request
  interrupt : ℕ → Request
  init : ℕ → ℕ → ℕ → ℕ → Request
  link : ℕ → Bytes → Request
  removexattr : Bytes → Request
  getxattr : ℕ → Bytes → Request
  listxattr : ℕ → Request
  setxattr : ℕ → Bytes → Bytes → Request
  fallocate : ℕ → ℕ → ℕ → ℕ → Request

abbrev pub opcode_of : Request → ℕ
opcode_of (lookup name) = Opcode.lookup
opcode_of getattr = Opcode.getattr
opcode_of (setattr valid fh size atime mtime atime_nsec mtime_nsec mode) = Opcode.setattr
opcode_of (forget n) = Opcode.forget
opcode_of (mkdir mode umask name) = Opcode.mkdir
opcode_of (mknod mode rdev umask name) = Opcode.mknod
opcode_of (create flags mode umask name) = Opcode.create
opcode_of (symlink name target) = Opcode.symlink
opcode_of (rename newdir old_name new_name) = Opcode.rename
opcode_of (unlink name) = Opcode.unlink
opcode_of (rmdir name) = Opcode.rmdir
opcode_of open_file = Opcode.open_file
opcode_of opendir = Opcode.opendir
opcode_of (read fh offset size) = Opcode.read
opcode_of (readdir fh offset size) = Opcode.readdir
opcode_of (release fh) = Opcode.release
opcode_of (releasedir fh) = Opcode.releasedir
opcode_of (write fh offset contents) = Opcode.write
opcode_of (fsync fh) = Opcode.fsync
opcode_of (flush fh) = Opcode.flush
opcode_of readlink = Opcode.readlink
opcode_of statfs = Opcode.statfs
opcode_of (interrupt unique) = Opcode.interrupt
opcode_of (init major minor readahead flags) = Opcode.init
opcode_of (link oldnodeid name) = Opcode.link
opcode_of (removexattr name) = Opcode.removexattr
opcode_of (getxattr size name) = Opcode.getxattr
opcode_of (listxattr size) = Opcode.listxattr
opcode_of (setxattr flags name value) = Opcode.setxattr
opcode_of (fallocate fh offset len mode) = Opcode.fallocate

abbrev pub u32 : ℕ → Bytes
u32 n = le_bytes 4 n

abbrev pub u64 : ℕ → Bytes
u64 n = le_bytes 8 n

abbrev pub nul : Bytes
nul = 0 ∷ []

-- The end of a struct that only a newer kernel sends.
abbrev pub since : ℕ → Protocol → Bytes → Bytes
since minor p b = if lt p (version 7 minor) then [] else b

-- The fields of the structs and of the header that the program does not look at.
pub record Unread : Type 0 where
  pub caller_uid : ℕ
  pub caller_gid : ℕ
  pub uid : ℕ
  pub gid : ℕ
  pub ctime : ℕ
  pub ctimensec : ℕ
  pub lock_owner : ℕ
  pub fh : ℕ
  pub flags : ℕ
  pub more_flags : ℕ

-- struct fuse_setattr_in
abbrev pub setattr_in : Unread → ℕ → ℕ → ℕ → ℕ → ℕ → ℕ → ℕ → ℕ → Bytes
setattr_in x valid fh size atime mtime atime_nsec mtime_nsec mode =
    u32 valid
    ++ (u32 0
        ++ (u64 fh
            ++ (u64 size
                ++ (u64 x.lock_owner
                    ++ (u64 atime
                        ++ (u64 mtime
                            ++ (u64 x.ctime
                                ++ (u32 atime_nsec
                                    ++ (u32 mtime_nsec
                                        ++ (u32 x.ctimensec
                                            ++ (u32 mode
                                                ++ (u32 0
                                                    ++ (u32 x.uid
                                                        ++ (u32 x.gid ++ u32 0))))))))))))))

-- struct fuse_read_in, which is that of readdir too, and struct fuse_write_in
abbrev pub read_in : Protocol → Unread → ℕ → ℕ → ℕ → Bytes
read_in p x fh offset size =
    u64 fh
    ++ (u64 offset
        ++ (u32 size
            ++ (u32 x.flags ++ since 9 p (u64 x.lock_owner ++ (u32 x.more_flags ++ u32 0)))))

-- The struct of a request, if it has one.
abbrev pub struct_of : Protocol → Unread → Request → Bytes
struct_of p x getattr = since 9 p (u32 x.flags ++ (u32 0 ++ u64 x.fh))
struct_of p x (setattr valid fh size atime mtime atime_nsec mtime_nsec mode) =
    setattr_in x valid fh size atime mtime atime_nsec mtime_nsec mode
struct_of p x (forget n) = u64 n
struct_of p x (mkdir mode umask name) = u32 mode ++ u32 umask
struct_of p x (mknod mode rdev umask name) =
    u32 mode ++ (u32 rdev ++ since 12 p (u32 umask ++ u32 0))
struct_of p x (create flags mode umask name) =
    u32 flags ++ (u32 mode ++ since 12 p (u32 umask ++ u32 0))
struct_of p x (rename newdir old_name new_name) = u64 newdir
struct_of p x open_file = u32 x.flags ++ u32 0
struct_of p x opendir = u32 x.flags ++ u32 0
struct_of p x (read fh offset size) = read_in p x fh offset size
struct_of p x (readdir fh offset size) = read_in p x fh offset size
struct_of p x (release fh) = u64 fh ++ (u32 x.flags ++ (u32 x.more_flags ++ u64 x.lock_owner))
struct_of p x (releasedir fh) = u64 fh ++ (u32 x.flags ++ (u32 x.more_flags ++ u64 x.lock_owner))
struct_of p x (write fh offset contents) = read_in p x fh offset (length contents)
struct_of p x (fsync fh) = u64 fh ++ (u32 x.flags ++ u32 0)
struct_of p x (flush fh) = u64 fh ++ (u32 0 ++ (u32 0 ++ u64 x.lock_owner))
struct_of p x (interrupt unique) = u64 unique
struct_of p x (init major minor readahead flags) =
    u32 major ++ (u32 minor ++ (u32 readahead ++ u32 flags))
struct_of p x (link oldnodeid name) = u64 oldnodeid
struct_of p x (getxattr size name) = u32 size ++ u32 0
struct_of p x (listxattr size) = u32 size ++ u32 0
struct_of p x (setxattr flags name value) = u32 (length value) ++ u32 flags
struct_of p x (fallocate fh offset len mode) =
    u64 fh ++ (u64 offset ++ (u64 len ++ (u32 mode ++ u32 0)))
struct_of p x _ = []

-- What follows the struct.
abbrev pub tail_of : Request → Bytes
tail_of (lookup name) = name ++ nul
tail_of (mkdir mode umask name) = name ++ nul
tail_of (mknod mode rdev umask name) = name ++ nul
tail_of (create flags mode umask name) = name ++ nul
tail_of (symlink name target) = name ++ (0 ∷ (target ++ nul))
tail_of (rename newdir old_name new_name) = old_name ++ (0 ∷ (new_name ++ nul))
tail_of (unlink name) = name ++ nul
tail_of (rmdir name) = name ++ nul
tail_of (write fh offset contents) = contents
tail_of (link oldnodeid name) = name ++ nul
tail_of (removexattr name) = name ++ nul
tail_of (getxattr size name) = name ++ nul
tail_of (setxattr flags name value) = name ++ (0 ∷ value)
tail_of _ = []

abbrev pub body : Protocol → Unread → Request → Bytes
body p x r = struct_of p x r ++ tail_of r

abbrev pub header_bytes : ℕ → Unread → InHeader → Bytes
header_bytes len x h =
    u32 len
    ++ (u32 h.opcode
        ++ (u64 h.unique
            ++ (u64 h.nodeid ++ (u32 x.caller_uid ++ (u32 x.caller_gid ++ (u32 h.pid ++ u32 0))))))

-- The whole request, with the length that the header states.
abbrev pub packet : Protocol → Unread → InHeader → Request → Bytes
packet p x h r = header_bytes (40 + length (body p x r)) x h ++ body p x r

-- A name has no NUL inside.
abbrev pub IsName : Bytes → Type 0
IsName name = (nul_index name ≡ none) × (name ≢ [])

abbrev pub IsU32 : ℕ → Type 0
IsU32 n = n < 256 ^ 4

abbrev pub IsU64 : ℕ → Type 0
IsU64 n = n < 256 ^ 8

-- The fields are in the range of their types, names are names, and the path of a symbolic link has any
-- bytes. For a new extended attribute the name and the value have two bytes in all.
abbrev pub IsRequest : Request → Type 0
IsRequest (lookup name) = IsName name
IsRequest (setattr valid fh size atime mtime atime_nsec mtime_nsec mode) =
    IsU32 valid
    × IsU64 fh
    × IsU64 size
    × IsU64 atime
    × IsU64 mtime
    × IsU32 atime_nsec
    × IsU32 mtime_nsec
    × IsU32 mode
IsRequest (forget n) = IsU64 n
IsRequest (mkdir mode umask name) = IsU32 mode × IsName name
IsRequest (mknod mode rdev umask name) = IsU32 mode × IsName name
IsRequest (create flags mode umask name) = IsU32 mode × IsName name
IsRequest (symlink name target) = IsName name
IsRequest (rename newdir old_name new_name) = IsU64 newdir × IsName old_name × IsName new_name
IsRequest (unlink name) = IsName name
IsRequest (rmdir name) = IsName name
IsRequest (read fh offset size) = IsU64 fh × IsU64 offset × IsU32 size
IsRequest (readdir fh offset size) = IsU64 fh × IsU64 offset × IsU32 size
IsRequest (release fh) = IsU64 fh
IsRequest (releasedir fh) = IsU64 fh
IsRequest (write fh offset contents) = IsU64 fh × IsU64 offset × IsU32 (length contents)
IsRequest (fsync fh) = IsU64 fh
IsRequest (flush fh) = IsU64 fh
IsRequest (interrupt unique) = IsU64 unique
IsRequest (init major minor readahead flags) =
    IsU32 major × IsU32 minor × IsU32 readahead × IsU32 flags
IsRequest (link oldnodeid name) = IsU64 oldnodeid × IsName name
IsRequest (removexattr name) = IsName name
IsRequest (getxattr size name) = IsU32 size × IsName name
IsRequest (listxattr size) = IsU32 size
IsRequest (setxattr flags name value) = IsU32 flags × IsName name × (2 ≤ length name + length value)
IsRequest (fallocate fh offset len mode) = IsU64 fh × IsU64 offset × IsU64 len × IsU32 mode
IsRequest _ = Unit {0}

abbrev pub IsHeader : InHeader → Type 0
IsHeader h = IsU32 h.opcode × IsU64 h.unique × IsU64 h.nodeid × IsU32 h.pid
