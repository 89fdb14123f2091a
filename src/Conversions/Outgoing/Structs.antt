-- ===== src/Conversions/Outgoing/Structs.antt =====
-- conversions.go, General conversions, and the structs of replies (internal/fusekernel/fuse_kernel.go and
-- fuse_kernel_linux.go) as bytes, field after field. A field that the code leaves alone is zero, since
-- OutMessage.Grow zeroes what it returns.
use fusego.Base.{ℕ, ◌+◌, ◌-◌, ◌/◌, ◌%◌, Bool, ◌++◌, if◌then◌else◌}
use fusego.Base.Int.{ℤ, pos, negsuc}
use fusego.Bytes.{Bytes, le_bytes}
use fusego.Fuseops.{Time, InodeId, InodeAttributes, ChildInodeEntry, u64_mod, u32_mod}
use fusego.Fuseops.Ops.{StatFsOp, InitOp}
use fusego.Conversions.Mode.{unix_mode_of}

-- What the code asks package time: Time.UnixNano, and Time.Sub of the time that time.Now gives. The number
-- tells the calls of time.Now within one reply apart, since the clock goes on.
pub record Clock : Type 0 where
  pub unix_nano : Time → ℤ
  pub from_now : ℕ → Time → ℤ

pub record Timestamp : Type 0 where
  pub secs : ℕ
  pub nsec : ℕ

abbrev pub nano : ℕ
nano = 1_000_000_000

-- `uint64(n)` and `uint32(n)` of -n, for a small enough n.
abbrev pub minus : ℕ → ℕ → ℕ
minus modulus n = (modulus - n % modulus) % modulus

-- `convertTime` on UnixNano. Go's division rounds towards zero, and its remainder has the sign of the
-- dividend.
unfoldable pub convert_time : ℤ → Timestamp
convert_time (pos n) = record { secs = n / nano; nsec = n % nano }
convert_time (negsuc n) = record {
  secs = minus u64_mod ((n + 1) / nano);
  nsec = minus u32_mod ((n + 1) % nano);
}

-- `convertExpirationTime` on the duration from now.
unfoldable pub convert_expiration_time : ℤ → Timestamp
convert_expiration_time (pos n) = record { secs = n / nano; nsec = n % nano }
convert_expiration_time (negsuc n) = record { secs = 0; nsec = 0 }

module _ (clock : Clock) where
  -- `convertAttributes`, as the bytes of an Attr. SetCrtime does nothing on Linux.
  unfoldable pub attr_bytes : InodeId → InodeAttributes → Bytes
  unfolding convert_time unix_mode_of
  attr_bytes inode a =
      let atime = convert_time (clock.unix_nano a.atime) in
      let mtime = convert_time (clock.unix_nano a.mtime) in
      let ctime = convert_time (clock.unix_nano a.ctime) in
      le_bytes 8 inode
      ++ (le_bytes 8 a.size
          ++ (le_bytes 8 ((a.size + 512 - 1) % u64_mod / 512)
              ++ (le_bytes 8 atime.secs
                  ++ (le_bytes 8 mtime.secs
                      ++ (le_bytes 8 ctime.secs
                          ++ (le_bytes 4 atime.nsec
                              ++ (le_bytes 4 mtime.nsec
                                  ++ (le_bytes 4 ctime.nsec
                                      ++ (le_bytes 4 (unix_mode_of a.mode)
                                          ++ (le_bytes 4 a.nlink
                                              ++ (le_bytes 4 a.uid
                                                  ++ (le_bytes 4 a.gid
                                                      ++ (le_bytes 4 0
                                                          ++ (le_bytes 4 0
                                                            ++ le_bytes 4 0))))))))))))))

  -- `convertChildInodeEntry`, as the bytes of an EntryOut. The clock is read for the entry first.
  unfoldable pub entry_bytes : ChildInodeEntry → Bytes
  unfolding attr_bytes convert_expiration_time
  entry_bytes e =
      let entry_valid = convert_expiration_time (clock.from_now 0 e.entry_expiration) in
      let attr_valid = convert_expiration_time (clock.from_now 1 e.attributes_expiration) in
      le_bytes 8 e.child
      ++ (le_bytes 8 e.generation
          ++ (le_bytes 8 entry_valid.secs
              ++ (le_bytes 8 attr_valid.secs
                  ++ (le_bytes 4 entry_valid.nsec
                      ++ (le_bytes 4 attr_valid.nsec ++ attr_bytes e.child e.attributes)))))

  -- The cases GetInodeAttributesOp and SetInodeAttributesOp of kernelResponseForOp: an AttrOut.
  unfoldable pub attributes_bytes : InodeId → Time → InodeAttributes → Bytes
  unfolding attr_bytes convert_expiration_time
  attributes_bytes inode expiration a =
      let valid = convert_expiration_time (clock.from_now 0 expiration) in
      le_bytes 8 valid.secs ++ (le_bytes 4 valid.nsec ++ (le_bytes 4 0 ++ attr_bytes inode a))

-- An OpenOut, with the flags OpenKeepCache (bit 1) and OpenDirectIO (bit 0).
unfoldable pub open_bytes : ℕ → Bool → Bool → Bytes
open_bytes handle keep_page_cache use_direct_io =
    le_bytes 8 handle
    ++ (le_bytes 4 ((if keep_page_cache then 2 else 0) + (if use_direct_io then 1 else 0))
        ++ le_bytes 4 0)

-- A WriteOut, and a GetxattrOut, of which the first field is a size.
unfoldable pub size_bytes : ℕ → Bytes
size_bytes size = le_bytes 4 size ++ le_bytes 4 0

-- A StatfsOut.
unfoldable pub statfs_bytes : StatFsOp → Bytes
statfs_bytes o =
    le_bytes 8 o.blocks
    ++ (le_bytes 8 o.blocks_free
        ++ (le_bytes 8 o.blocks_available
            ++ (le_bytes 8 o.inodes
                ++ (le_bytes 8 o.inodes_free
                    ++ (le_bytes 4 o.io_size
                        ++ (le_bytes 4 0
                            ++ (le_bytes 4 o.block_size ++ (le_bytes 4 0 ++ le_bytes 24 0))))))))

-- An InitOut.
unfoldable pub init_bytes : InitOp → Bytes
init_bytes o =
    le_bytes 4 o.library.major
    ++ (le_bytes 4 o.library.minor
        ++ (le_bytes 4 o.max_readahead
            ++ (le_bytes 4 o.flags ++ (le_bytes 4 0 ++ le_bytes 4 o.max_write))))
