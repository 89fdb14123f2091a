-- ===== src/Conversions/Requests/Received/Filled.antt =====
-- The requests for contents and for extended attributes: convertInMessage makes the op that the request
-- asks for.
use fusego.Base.{
  ℕ, ◌<◌, ◌≡◌, refl, inl, inr, false, [], ◌∷◌, ◌++◌, arith, ltb, ◌==◌, length, length-append,
  take-append, Bool-cases,
}
use fusego.Base.Int.{ℤ}
use fusego.Bytes.{Bytes, le_bytes, le_value-le_bytes}
use fusego.Fuseops.{Time}
use fusego.Fusekernel.{Protocol, lt, version}
use fusego.Fusekernel.Sizes.{read_in_size, write_in_size}
use fusego.Buffer.Outgoing.{OutMessage}
use fusego.Conversions.Fields.{u32_at, u64_at}
use fusego.Conversions.Incoming.{convert_request}
use fusego.Conversions.Incoming.Files.{
  convert_write, convert_getxattr, convert_listxattr, convert_setxattr,
}
use fusego.Conversions.Requests.{
  Unread, read, readdir, write, getxattr, listxattr, setxattr, IsRequest, IsName, IsU32, IsU64, nul,
  u32, read_in,
}
use fusego.Conversions.Requests.Reading.{
  holding, struct_in-append, rest_of-eq, nul_index-append, drop_name,
}
use fusego.Conversions.Requests.Received.Cases.{
  reserved-zero, Agrees, u32_at-u32, convert_reading_lem, with_dst_lem,
}

-- The fields that a read or a write has in its struct.
module _ (p : Protocol) (x : Unread) (fh offset size : ℕ) (fh_range : IsU64 fh)
    (offset_range : IsU64 offset) (size_range : IsU32 size) where
  length-read_in :
      (length (read_in p x fh offset size) ≡ read_in_size p)
      × (length (read_in p x fh offset size) ≡ write_in_size p)
  unfolding le_bytes read_in_size write_in_size
  length-read_in = elim (Bool-cases (lt p (version 7 9))) [
    | inl old ↦ (rw old, rw old)
    | inr new ↦ (rw new, rw new)
  ]

  read_in_fields :
      (u64_at 0 (read_in p x fh offset size) ≡ fh)
      × (u64_at 8 (read_in p x fh offset size) ≡ offset)
      × (u32_at 16 (read_in p x fh offset size) ≡ size)
  unfolding le_bytes
  read_in_fields = (
    le_value-le_bytes 8 fh fh_range,
    le_value-le_bytes 8 offset offset_range,
    le_value-le_bytes 4 size size_range,
  )

write_in_size-positive : (p : Protocol) → 0 < write_in_size p
unfolding write_in_size
write_in_size-positive p = ground arith

module _ (unix : ℤ → ℕ → Time) (p : Protocol) (x : Unread) (unique node pid : ℕ) (st : Bytes)
    (out : OutMessage) where
  pub read_case :
      (fh offset size : ℕ)
      → IsU64 fh
      → IsU64 offset
      → IsU32 size
      → Agrees unix p x unique node pid st out (read fh offset size)
  unfolding convert_request
  read_case fh offset size h1 h2 h3 = rw (
    convert_reading_lem _ st out _ p (read_in p x fh offset size) []
        (length-read_in p x fh offset size h1 h2 h3).0,
    (read_in_fields p x fh offset size h1 h2 h3).0,
    (read_in_fields p x fh offset size h1 h2 h3).1,
    (read_in_fields p x fh offset size h1 h2 h3).2,
    with_dst_lem size,
  )

  pub readdir_case :
      (fh offset size : ℕ)
      → IsU64 fh
      → IsU64 offset
      → IsU32 size
      → Agrees unix p x unique node pid st out (readdir fh offset size)
  unfolding convert_request
  readdir_case fh offset size h1 h2 h3 = rw (
    convert_reading_lem _ st out _ p (read_in p x fh offset size) []
        (length-read_in p x fh offset size h1 h2 h3).0,
    (read_in_fields p x fh offset size h1 h2 h3).0,
    (read_in_fields p x fh offset size h1 h2 h3).1,
    (read_in_fields p x fh offset size h1 h2 h3).2,
    with_dst_lem size,
  )

  pub write_case :
      (fh offset : ℕ) (contents : Bytes)
      → IsU64 fh
      → IsU64 offset
      → IsU32 (length contents)
      → Agrees unix p x unique node pid st out (write fh offset contents)
  unfolding convert_request convert_write
  write_case fh offset contents h1 h2 h3 =
      let s = read_in p x fh offset (length contents) in
      let fields = read_in_fields p x fh offset (length contents) h1 h2 h3 in
      let whole : ltb (length contents) (length contents) ≡ false = ground arith in
      rw (
        convert_write,
        struct_in-append s st contents (write_in_size p)
            (length-read_in p x fh offset (length contents) h1 h2 h3).1 (write_in_size-positive p),
        rest_of-eq (holding st contents),
        fields.2,
        whole,
        fields.0,
        fields.1,
        reserved-zero,
      )

  pub getxattr_case :
      (size : ℕ) (name : Bytes)
      → IsU32 size
      → IsName name
      → Agrees unix p x unique node pid st out (getxattr size name)
  unfolding convert_request convert_getxattr le_bytes
  getxattr_case size name h clean = rw (
    convert_getxattr,
    struct_in-append (u32 size ++ u32 0) st (name ++ nul) 8 refl (omega arith),
    rest_of-eq (holding st (name ++ nul)),
    nul_index-append name [] clean.0,
    rest_of-eq (holding st (name ++ nul)),
    take-append name nul,
    u32_at-u32 size (u32 0) h,
    with_dst_lem size,
  )

  pub listxattr_case :
      (size : ℕ) → IsU32 size → Agrees unix p x unique node pid st out (listxattr size)
  unfolding convert_request convert_listxattr le_bytes
  listxattr_case size h =
      rw
        (
          convert_listxattr,
          struct_in-append (u32 size ++ u32 0) st [] 8 refl (omega arith),
          u32_at-u32 size (u32 0) h,
        )
        (elim (Bool-cases (size == 0)) [
          | inl none_asked ↦
              let nothing : size ≡ 0 = ground arith in rw (none_asked, nothing, reserved-zero)
          | inr some_asked ↦ rw (some_asked, with_dst_lem size)
        ])

  pub setxattr_case :
      (flags : ℕ) (name value : Bytes)
      → IsRequest (setxattr flags name value)
      → Agrees unix p x unique node pid st out (setxattr flags name value)
  unfolding convert_request convert_setxattr le_bytes
  setxattr_case flags name value (h, clean, two) =
      let payload = name ++ (0 ∷ value) in
      let long : ltb (length payload) 3 ≡ false = ground (arith, length-append name (0 ∷ value)) in
      rw (
        convert_setxattr,
        struct_in-append (u32 (length value) ++ u32 flags) st payload 8 refl (omega arith),
        rest_of-eq (holding st payload),
        long,
        nul_index-append name value clean.0,
        rest_of-eq (holding st payload),
        take-append name (0 ∷ value),
        drop_name name value,
        le_value-le_bytes 4 flags h,
        reserved-zero,
      )
