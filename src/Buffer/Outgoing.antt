-- ===== src/Buffer/Outgoing.antt =====
-- internal/buffer/out_message.go. The header and the payload are one block of memory, in this order. The
-- payload has MaxReadSize bytes, which depends on the platform: here it is as long as its list. The sizes
-- that callers pass are those of structs and slices, so they are not negative.
pub mod Segments
use fusego.Base.{
  ℕ, ◌+◌, ◌-◌, Bool, not, ◌||◌, Option, none, some, List, [], ◌++◌, ltb, if◌then◌else◌, Outcome,
  done, panics, ◌>>=◌, ◌>>◌, require, length, take, drop, replicate,
}
use fusego.Bytes.{Bytes}

pub record OutMessage : Type 0 where
  pub payload_offset : ℕ
  pub header : Bytes
  pub payload : Bytes

-- `int(unsafe.Sizeof(fusekernel.OutHeader{}))`: two uint32 and a uint64.
abbrev pub out_message_header_size : ℕ
out_message_header_size = 16

-- `new(buffer.OutMessage)`, with a payload of `size` bytes.
unfoldable pub new_out_message : ℕ → OutMessage
new_out_message size = record {
  payload_offset = 0;
  header = replicate out_message_header_size 0;
  payload = replicate size 0;
}

-- The three words that are zeroed are the offset and the header.
unfoldable pub reset : OutMessage → OutMessage
reset m = record m { payload_offset = 0; header = replicate out_message_header_size 0 }

-- What a copy of `src` to offset `off` leaves of `xs`.
abbrev pub overwrite : ℕ → Bytes → Bytes → Bytes
overwrite off src xs = take off xs ++ (src ++ drop (off + length src) xs)

-- The pointer that is returned is an offset into the payload; nil is `none`.
unfoldable pub grow_no_zero : ℕ → OutMessage → Option (ℕ × OutMessage)
grow_no_zero n m =
    let o = m.payload_offset in
    if ltb (length m.payload - o) n then none else some (o, record m { payload_offset = o + n })

unfoldable pub grow : ℕ → OutMessage → Option (ℕ × OutMessage)
grow n m = elim (grow_no_zero n m) [
  | none ↦ none
  | some (p, m') ↦ some (p, record m' { payload = overwrite p (replicate n 0) m'.payload })
]

-- `Len`
unfoldable pub message_len : OutMessage → ℕ
message_len m = out_message_header_size + m.payload_offset

unfoldable pub shrink_to : ℕ → OutMessage → Outcome OutMessage
shrink_to n m =
    require (not (ltb n out_message_header_size || ltb (message_len m) n))
    >> done (record m { payload_offset = n - out_message_header_size })

-- Append, and AppendString.
unfoldable pub append : Bytes → OutMessage → Outcome OutMessage
append src m = elim (grow_no_zero (length src) m) [
  | none ↦ panics
  | some (p, m') ↦ done (record m' { payload = overwrite p src m'.payload })
]

-- `Bytes`: the block of memory up to the length of the message.
unfoldable pub message_bytes : OutMessage → Bytes
message_bytes m = take (message_len m) (m.header ++ m.payload)
