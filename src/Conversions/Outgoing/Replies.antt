-- ===== src/Conversions/Outgoing/Replies.antt =====
-- The message that kernelResponse makes of an op that has been served.
use fusego.Base.{◌^◌}
use fusego.Bytes.{le_value-le_bytes}
use fusego.Conversions.Fields.{u32_at, u64_at}
use fusego.Conversions.Mode.{unix_mode_of}
use fusego.Conversions.Outgoing.Answers.{
  asked, IsAnswerable, answer, kernel_response_for_op-Becomes,
}
use fusego.Base.{
  ℕ, ◌+◌, ◌-◌, ◌%◌, ◌/◌, ◌≤◌, ◌<◌, ◌≡◌, refl, false, none, some, [], ◌++◌, arith, ltb, done, length,
  replicate,
}
use fusego.Bytes.{Bytes, le_bytes}
use fusego.Fuseops.{ChildInodeEntry}
use fusego.Fuseops.Ops.{Op, forget_inode, interrupt}
use fusego.Fusekernel.{Protocol}
use fusego.Buffer.Outgoing.{
  OutMessage, out_message_header_size, shrink_to, message_len, message_bytes,
}
use fusego.Buffer.Outgoing.Segments.{IsMessage, message_bytes-eq}
use fusego.Conversions.Outgoing.{
  OpError, errno, other, kernel_response, no_response, error_field, set_len, set_unique, set_error,
}
use fusego.Conversions.Outgoing.Structs.{
  Clock, entry_bytes, attr_bytes, convert_time, convert_expiration_time,
}
use fusego.Base.Int.{pos}
use fusego.Conversions.Outgoing.Written.{Holds}

-- The header of a reply.
abbrev pub reply_header : ℕ → ℕ → ℕ → Bytes
reply_header len error unique = le_bytes 4 len ++ (le_bytes 4 error ++ le_bytes 8 unique)

-- The error field of a failed reply: -n as a 32-bit number for the error number n, and -5, for EIO, where there is none.
abbrev pub negated : OpError → ℕ
negated (errno n) = (2 ^ 32 - n % 2 ^ 32) % 2 ^ 32
negated other = 2 ^ 32 - 5

error_field-negated : (e : OpError) → error_field e ≡ negated e
error_field-negated (errno n) = refl
error_field-negated other = refl

answerable_response : (op : Op) (n : ℕ) → IsAnswerable op n → no_response op ≡ false
answerable_response (forget_inode o) n h = absurd h
answerable_response (interrupt o) n h = absurd h
answerable_response _ n h = refl

module _ (m : OutMessage) (fresh : m.header ≡ replicate out_message_header_size 0)
    (fuse_id : ℕ) where
  -- The message with its length set, where the error field has been set to `error`.
  finished :
      (m' : OutMessage) (error : ℕ) (b : Bytes)
      → m'.header ≡ le_bytes 4 0 ++ (le_bytes 4 error ++ le_bytes 8 fuse_id)
      → Holds m' b
      → message_bytes (set_len m') ≡ reply_header (16 + length b) error fuse_id ++ b
  unfolding le_bytes message_len
  finished m' error b h holds =
      let v : IsMessage (set_len m') = record {
        header_size = rw h;
        within = omega (arith, holds.ends, holds.within);
      } in
      rw (message_bytes-eq (set_len m') v, h, holds.ends, holds.content)

  -- An op that the file system has served, in a message as convertInMessage leaves it, with room for 200
  -- bytes: kernelResponse does not panic and asks for a response, and the bytes of the message are a
  -- header with their number, no error and the identifier of the request, and then the answer to the op.
  pub kernel_response-served :
      (clock : Clock) (p : Protocol) (op : Op)
      → 200 ≤ length m.payload
      → m.payload_offset ≡ asked op
      → IsAnswerable op (length m.payload)
      → (m' : OutMessage) × (kernel_response clock p fuse_id op none m ≡ done (false, m'))
        × (message_bytes m'
            ≡ reply_header (16 + length (answer clock p op m.payload)) 0 fuse_id
              ++ answer clock p op m.payload)
  unfolding kernel_response le_bytes
  kernel_response-served clock p op room at_start h =
      let (m', eq, same_header, same_room, holds) =
        kernel_response_for_op-Becomes clock p (set_unique fuse_id m) room op at_start h in
      (
        set_len m',
        rw (answerable_response op (length m.payload) h, eq),
        finished m' 0 (answer clock p op m.payload) (rw (same_header, fresh)) holds,
      )

  -- An op that has failed, in any message with a zeroed header: the room that was reserved for the answer is given
  -- back, and the bytes of the message are a header alone, with its length, the negated number of the error (that of
  -- EIO, for an error without one) and the identifier of the request.
  pub kernel_response-failed :
      (clock : Clock) (p : Protocol) (op : Op) (e : OpError)
      → no_response op ≡ false
      → (m' : OutMessage) × (kernel_response clock p fuse_id op (some e) m ≡ done (false, m'))
        × (message_bytes m' ≡ reply_header 16 (negated e) fuse_id)
  unfolding kernel_response shrink_to message_len le_bytes
  kernel_response-failed clock p op e h =
      let m' : OutMessage = record (set_error e (set_unique fuse_id m)) { payload_offset = 0 } in
      let kept : ltb (out_message_header_size + m.payload_offset) out_message_header_size ≡ false =
        ground arith in
      (
        set_len m',
        rw (h, kept),
        finished m' (negated e) [] (rw (fresh, error_field-negated e))
            (record { ends = refl; content = refl; within = omega arith }),
      )

-- The fields of the entry are in the range of the fields of an EntryOut, the file's times are `ta`, `tm` and `tc`
-- nanoseconds after 1970, and the entry and the attributes are valid for `te` and `tv` nanoseconds to come.
pub record IsWritable (clock : Clock) (e : ChildInodeEntry) (ta tm tc te tv : ℕ) : Type 0 where
  pub inode : e.child < 256 ^ 8
  pub generation : e.generation < 256 ^ 8
  pub size : e.attributes.size < 256 ^ 8
  pub mode : unix_mode_of e.attributes.mode < 256 ^ 4
  pub nlink : e.attributes.nlink < 256 ^ 4
  pub uid : e.attributes.uid < 256 ^ 4
  pub gid : e.attributes.gid < 256 ^ 4
  pub accessed : (clock.unix_nano e.attributes.atime ≡ pos ta) × (ta < 256 ^ 8)
  pub modified : (clock.unix_nano e.attributes.mtime ≡ pos tm) × (tm < 256 ^ 8)
  pub changed : (clock.unix_nano e.attributes.ctime ≡ pos tc) × (tc < 256 ^ 8)
  pub entry_valid : (clock.from_now 0 e.entry_expiration ≡ pos te) × (te < 256 ^ 8)
  pub attr_valid : (clock.from_now 1 e.attributes_expiration ≡ pos tv) × (tv < 256 ^ 8)

abbrev pub second : ℕ
second = 1_000_000_000

-- The seconds and the nanoseconds that fuse.h keeps apart, at these two offsets.
abbrev pub TimeAt : Bytes → ℕ → ℕ → ℕ → Type 0
TimeAt b at_secs at_nsec t = (u64_at at_secs b ≡ t / second) × (u32_at at_nsec b ≡ t % second)

-- The fields of an EntryOut are where fuse.h has them, and the kernel reads back what the file system
-- gave: the inode, twice, its generation, its size, the Unix mode of its mode, its number of links and its owner; the
-- times of access, modification and change, in seconds and nanoseconds, and likewise how long the entry and the
-- attributes are valid. It holds for values in the range of the fields, and for times that are not before 1970 and
-- durations that are not negative.
pub entry_bytes-fields :
    (clock : Clock) (e : ChildInodeEntry) (ta tm tc te tv : ℕ)
    → IsWritable clock e ta tm tc te tv
    → (u64_at 0 (entry_bytes clock e) ≡ e.child)
      × (u64_at 8 (entry_bytes clock e) ≡ e.generation)
      × TimeAt (entry_bytes clock e) 16 32 te
      × TimeAt (entry_bytes clock e) 24 36 tv
      × (u64_at 40 (entry_bytes clock e) ≡ e.child)
      × (u64_at 48 (entry_bytes clock e) ≡ e.attributes.size)
      × TimeAt (entry_bytes clock e) 64 88 ta
      × TimeAt (entry_bytes clock e) 72 92 tm
      × TimeAt (entry_bytes clock e) 80 96 tc
      × (u32_at 100 (entry_bytes clock e) ≡ unix_mode_of e.attributes.mode)
      × (u32_at 104 (entry_bytes clock e) ≡ e.attributes.nlink)
      × (u32_at 108 (entry_bytes clock e) ≡ e.attributes.uid)
      × (u32_at 112 (entry_bytes clock e) ≡ e.attributes.gid)
unfolding entry_bytes attr_bytes convert_time convert_expiration_time le_bytes
entry_bytes-fields clock e ta tm tc te tv v =
    let seconds =
      λ (t : ℕ) (h : t < 256 ^ 8). le_value-le_bytes 8 (t / second) (omega (arith, h)) in
    let rest = λ (t : ℕ). le_value-le_bytes 4 (t % second) (omega arith) in
    (
      le_value-le_bytes 8 e.child v.inode,
      le_value-le_bytes 8 e.generation v.generation,
      (rw (v.entry_valid.0) (seconds te v.entry_valid.1), rw (v.entry_valid.0) (rest te)),
      (rw (v.attr_valid.0) (seconds tv v.attr_valid.1), rw (v.attr_valid.0) (rest tv)),
      le_value-le_bytes 8 e.child v.inode,
      le_value-le_bytes 8 e.attributes.size v.size,
      (rw (v.accessed.0) (seconds ta v.accessed.1), rw (v.accessed.0) (rest ta)),
      (rw (v.modified.0) (seconds tm v.modified.1), rw (v.modified.0) (rest tm)),
      (rw (v.changed.0) (seconds tc v.changed.1), rw (v.changed.0) (rest tc)),
      le_value-le_bytes 4 (unix_mode_of e.attributes.mode) v.mode,
      le_value-le_bytes 4 e.attributes.nlink v.nlink,
      le_value-le_bytes 4 e.attributes.uid v.uid,
      le_value-le_bytes 4 e.attributes.gid v.gid,
    )
