-- ===== src/Conversions/Requests/Received/Cases.antt =====
-- The functions that the cases of convertInMessage share, on the parts of a request.
use fusego.Base.{ℕ, ◌-◌, ◌<◌, ◌≡◌, none, [], ◌++◌, arith, done, length, length-append, take-append}
use fusego.Base.Int.{ℤ}
use fusego.Bytes.{Bytes, le_bytes, le_value-le_bytes}
use fusego.Fuseops.{Time}
use fusego.Fuseops.Ops.{Op}
use fusego.Fusekernel.{Protocol}
use fusego.Fusekernel.Sizes.{read_in_size}
use fusego.Buffer.Outgoing.{OutMessage}
use fusego.Conversions.{Converted, converted}
use fusego.Conversions.Fields.{u32_at, u64_at, nul_index}
use fusego.Conversions.Incoming.{convert_request}
use fusego.Conversions.Requests.{Unread, Request, body, IsU32, IsU64, nul, u32, u64}
use fusego.Conversions.Requests.Reading.{
  holding, struct_in-append, rest_of-eq, ends_in_nul-append, nul_index-append,
}
use fusego.Conversions.Requests.Received.{op_of, room_of, reserved, header_of}
use fusego.Buffer.Outgoing.{grow_no_zero}
use fusego.Conversions.Incoming.Names.{convert_name, convert_struct_name}
use fusego.Conversions.Incoming.Files.{convert_struct, with_dst, convert_reading}

-- The fields of a struct, at the offsets of the requests.
pub u32_at-u32 : (n : ℕ) (t : Bytes) → IsU32 n → u32_at 0 (u32 n ++ t) ≡ n
unfolding le_bytes
u32_at-u32 n t h = le_value-le_bytes 4 n h

pub u64_at-u64 : (n : ℕ) (t : Bytes) → IsU64 n → u64_at 0 (u64 n ++ t) ≡ n
unfolding le_bytes
u64_at-u64 n t h = le_value-le_bytes 8 n h

module _ (op : Bytes → Op) (st : Bytes) (out : OutMessage) where
  pub convert_name_lem :
      (opcode : ℕ) (name : Bytes)
      → convert_name opcode op (holding st (name ++ nul)) out ≡ converted (op name) out
  unfolding convert_name
  convert_name_lem opcode name =
      let size : length (name ++ nul) - 1 ≡ length name = omega (arith, length-append name nul) in
      rw
        (rest_of-eq (holding st (name ++ nul)), ends_in_nul-append name, size, take-append name nul)

  pub convert_struct_lem :
      (opcode size : ℕ) (s tail : Bytes)
      → length s ≡ size
      → 0 < size
      → convert_struct opcode size op (holding st (s ++ tail)) out ≡ converted (op s) out
  unfolding convert_struct
  convert_struct_lem opcode size s tail e h =
      rw (convert_struct, struct_in-append s st tail size e h)

pub convert_struct_name_lem :
    (op : Bytes → Bytes → Op) (st : Bytes) (out : OutMessage) (opcode size : ℕ) (s name : Bytes)
    → length s ≡ size
    → 0 < size
    → nul_index name ≡ none
    → convert_struct_name opcode size op (holding st (s ++ (name ++ nul))) out
      ≡ converted (op s name) out
unfolding convert_struct_name
convert_struct_name_lem op st out opcode size s name e h clean = rw (
  convert_struct_name,
  struct_in-append s st (name ++ nul) size e h,
  rest_of-eq (holding st (name ++ nul)),
  nul_index-append name [] clean,
  rest_of-eq (holding st (name ++ nul)),
  take-append name nul,
)

pub convert_reading_lem :
    (op : Bytes → Op) (st : Bytes) (out : OutMessage) (opcode : ℕ) (p : Protocol) (s tail : Bytes)
    → length s ≡ read_in_size p
    → convert_reading opcode p op (holding st (s ++ tail)) out ≡ with_dst (u32_at 16 s) (op s) out
unfolding convert_reading read_in_size
convert_reading_lem op st out opcode p s tail e =
    rw (convert_reading, struct_in-append s st tail (read_in_size p) e (ground arith))

pub with_dst_lem :
    (room : ℕ) (op : Op) (out : OutMessage) → with_dst room op out ≡ reserved room op out
unfolding with_dst grow_no_zero
with_dst_lem room op out = ground arith

pub reserved-zero : (op : Op) (out : OutMessage) → reserved 0 op out ≡ converted op out
reserved-zero op out = ground arith

-- A case whose op is made from the whole of its struct.
pub done_reserved :
    (op : Op) (out : OutMessage) {c : Converted}
    → c ≡ converted op out
    → done c ≡ done (reserved 0 op out)
done_reserved op out e = rw (e, reserved-zero op out)

module _ (unix : ℤ → ℕ → Time) (p : Protocol) (x : Unread) (unique node pid : ℕ) (st : Bytes)
    (out : OutMessage) where
  -- What convertInMessage makes of this request, and what it is to make of it.
  abbrev pub Agrees : Request → Type 0
  Agrees r =
      convert_request unix p (header_of unique node pid r) (holding st (body p x r)) out
      ≡ done (reserved (room_of r) (op_of unix node pid r) out)
