-- ===== src/Conversions/Requests/Received/Structs.antt =====
-- The requests that are one struct: convertInMessage makes the op that the request asks for.
use fusego.Base.{ℕ, refl, [], ◌++◌, arith}
use fusego.Base.Int.{ℤ}
use fusego.Bytes.{Bytes, le_bytes, le_value-le_bytes}
use fusego.Fuseops.{Time}
use fusego.Fusekernel.{Protocol}
use fusego.Buffer.Outgoing.{OutMessage}
use fusego.Conversions.Incoming.{convert_request}
use fusego.Conversions.Requests.{
  Unread, setattr, forget, release, releasedir, fsync, flush, interrupt, init, fallocate, struct_of,
  IsRequest, IsU32, IsU64, u32, u64, setattr_in,
}
use fusego.Conversions.Requests.Received.Cases.{
  reserved-zero, Agrees, u64_at-u64, convert_struct_lem,
}

module _ (unix : ℤ → ℕ → Time) (p : Protocol) (x : Unread) (unique node pid : ℕ) (st : Bytes)
    (out : OutMessage) where
  pub forget_case : (n : ℕ) → IsU64 n → Agrees unix p x unique node pid st out (forget n)
  unfolding convert_request le_bytes
  forget_case n h = rw (
    convert_struct_lem _ st out _ _ (struct_of p x (forget n)) [] refl (omega arith),
    u64_at-u64 n [] h,
    reserved-zero,
  )

  pub interrupt_case :
      (fuse_id : ℕ) → IsU64 fuse_id → Agrees unix p x unique node pid st out (interrupt fuse_id)
  unfolding convert_request le_bytes
  interrupt_case fuse_id h = rw (
    convert_struct_lem _ st out _ _ (struct_of p x (interrupt fuse_id)) [] refl (omega arith),
    u64_at-u64 fuse_id [] h,
    reserved-zero,
  )

  pub release_case : (fh : ℕ) → IsU64 fh → Agrees unix p x unique node pid st out (release fh)
  unfolding convert_request le_bytes
  release_case fh h = rw (
    convert_struct_lem _ st out _ _ (struct_of p x (release fh)) [] refl (omega arith),
    u64_at-u64 fh (u32 x.flags ++ (u32 x.more_flags ++ u64 x.lock_owner)) h,
    reserved-zero,
  )

  pub releasedir_case : (fh : ℕ) → IsU64 fh → Agrees unix p x unique node pid st out (releasedir fh)
  unfolding convert_request le_bytes
  releasedir_case fh h = rw (
    convert_struct_lem _ st out _ _ (struct_of p x (releasedir fh)) [] refl (omega arith),
    u64_at-u64 fh (u32 x.flags ++ (u32 x.more_flags ++ u64 x.lock_owner)) h,
    reserved-zero,
  )

  pub flush_case : (fh : ℕ) → IsU64 fh → Agrees unix p x unique node pid st out (flush fh)
  unfolding convert_request le_bytes
  flush_case fh h = rw (
    convert_struct_lem _ st out _ _ (struct_of p x (flush fh)) [] refl (omega arith),
    u64_at-u64 fh (u32 0 ++ (u32 0 ++ u64 x.lock_owner)) h,
    reserved-zero,
  )

  pub fsync_case : (fh : ℕ) → IsU64 fh → Agrees unix p x unique node pid st out (fsync fh)
  unfolding convert_request le_bytes
  fsync_case fh h = rw (
    convert_struct_lem _ st out _ _ (struct_of p x (fsync fh)) [] refl (omega arith),
    u64_at-u64 fh (u32 x.flags ++ u32 0) h,
    reserved-zero,
  )

  pub init_case :
      (major minor readahead flags : ℕ)
      → IsU32 major
      → IsU32 minor
      → IsU32 readahead
      → IsU32 flags
      → Agrees unix p x unique node pid st out (init major minor readahead flags)
  unfolding convert_request le_bytes
  init_case major minor readahead flags h1 h2 h3 h4 = rw (
    convert_struct_lem _ st out _ _ (struct_of p x (init major minor readahead flags)) [] refl
        (omega arith),
    le_value-le_bytes 4 major h1,
    le_value-le_bytes 4 minor h2,
    le_value-le_bytes 4 readahead h3,
    le_value-le_bytes 4 flags h4,
    reserved-zero,
  )

  pub fallocate_case :
      (fh offset len mode : ℕ)
      → IsU64 fh
      → IsU64 offset
      → IsU64 len
      → IsU32 mode
      → Agrees unix p x unique node pid st out (fallocate fh offset len mode)
  unfolding convert_request le_bytes
  fallocate_case fh offset len mode h1 h2 h3 h4 = rw (
    convert_struct_lem _ st out _ _ (struct_of p x (fallocate fh offset len mode)) [] refl
        (omega arith),
    le_value-le_bytes 8 fh h1,
    le_value-le_bytes 8 offset h2,
    le_value-le_bytes 8 len h3,
    le_value-le_bytes 4 mode h4,
    reserved-zero,
  )

  pub setattr_case :
      (valid fh size atime mtime atime_nsec mtime_nsec mode : ℕ)
      → IsRequest (setattr valid fh size atime mtime atime_nsec mtime_nsec mode)
      → Agrees unix p x unique node pid st out
          (setattr valid fh size atime mtime atime_nsec mtime_nsec mode)
  unfolding convert_request le_bytes
  setattr_case valid fh size atime mtime atime_nsec mtime_nsec mode
        (h1, h2, h3, h4, h5, h6, h7, h8) =
      rw (
        convert_struct_lem _ st out _ _
            (setattr_in x valid fh size atime mtime atime_nsec mtime_nsec mode) [] refl
            (omega arith),
        le_value-le_bytes 4 valid h1,
        le_value-le_bytes 8 fh h2,
        le_value-le_bytes 8 size h3,
        le_value-le_bytes 8 atime h4,
        le_value-le_bytes 8 mtime h5,
        le_value-le_bytes 4 atime_nsec h6,
        le_value-le_bytes 4 mtime_nsec h7,
        le_value-le_bytes 4 mode h8,
        reserved-zero,
      )
