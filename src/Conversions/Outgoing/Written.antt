-- ===== src/Conversions/Outgoing/Written.antt =====
-- What a reply's message holds behind its header.
use fusego.Base.{
  ℕ, ◌+◌, ◌-◌, ◌≤◌, ◌≡◌, refl, sym, false, ◌++◌, arith, ltb, Outcome, done, length, take, drop,
  replicate, length-append, length-take, length-replicate, take-append_eq,
}
use fusego.Bytes.{Bytes}
use fusego.Buffer.Outgoing.{
  OutMessage, out_message_header_size, overwrite, grow, grow_no_zero, shrink_to, append,
  message_len,
}
use fusego.Buffer.Outgoing.Segments.{take-overwrite, length-overwrite}
use fusego.Conversions.Outgoing.{put}

-- The payload of the message, up to its end, is `b`.
pub record Holds (m : OutMessage) (b : Bytes) : Type 0 where
  pub ends : m.payload_offset ≡ length b
  pub content : take (length b) m.payload ≡ b
  pub within : length b ≤ length m.payload

-- The outcome is a message with the same header, and with `b`.
abbrev pub Becomes : OutMessage → Outcome OutMessage → Bytes → Type 0
Becomes m r b =
    (m' : OutMessage) × (r ≡ done m')
    × (m'.header ≡ m.header)
    × (length m'.payload ≡ length m.payload)
    × Holds m' b

take-overwritten :
    (off : ℕ) (src xs : Bytes) → off ≤ length xs → take off (overwrite off src xs) ≡ take off xs
take-overwritten off src xs h =
    take-append_eq off (take off xs) (src ++ drop (off + length src) xs)
      (omega (arith, length-take off xs))

module _ (m : OutMessage) (a : Bytes) (v : Holds m a) where
  pub append-Becomes :
      (b : Bytes) → length a + length b ≤ length m.payload → Becomes m (append b m) (a ++ b)
  unfolding append grow_no_zero
  append-Becomes b h =
      let fits : ltb (length m.payload - length a) (length b) ≡ false = ground arith in
      let size = length-append a b in
      let room = length-overwrite (length a) b m.payload h in
      (
        record {
          payload_offset = length a + length b;
          header = m.header;
          payload = overwrite (length a) b m.payload;
        },
        rw (append, v.ends, fits),
        refl,
        room,
        record {
          ends = sym size;
          content = rw (size, take-overwrite (length a) b m.payload h, v.content);
          within = omega (arith, size, room);
        },
      )

  pub put-Becomes :
      (size : ℕ) (b : Bytes)
      → size ≤ length b
      → length a + size ≤ length m.payload
      → Becomes m (put size b m) (a ++ take size b)
  unfolding put grow grow_no_zero
  put-Becomes size b whole h =
      let fits : ltb (length m.payload - length a) size ≡ false = ground arith in
      let zeroes = replicate {A = ℕ} size 0 in
      let count : length zeroes ≡ size = length-replicate {A = ℕ} size 0 in
      let size' : length (take size b) ≡ size = omega (arith, length-take size b) in
      let cleared = overwrite (length a) zeroes m.payload in
      let room : length cleared ≡ length m.payload =
        length-overwrite (length a) zeroes m.payload (omega (arith, count)) in
      let room' : length (overwrite (length a) (take size b) cleared) ≡ length m.payload = omega (
        arith,
        length-overwrite (length a) (take size b) cleared (omega (arith, size', room)),
        room,
      ) in
      let total : length (a ++ take size b) ≡ length a + length (take size b) =
        length-append a (take size b) in
      (
        record {
          payload_offset = length a + size;
          header = m.header;
          payload = overwrite (length a) (take size b) cleared;
        },
        rw (put, v.ends, fits),
        refl,
        room',
        record {
          ends = omega (arith, total, size');
          content = rw (
            total,
            take-overwrite (length a) (take size b) cleared (omega (arith, size', room)),
            take-overwritten (length a) zeroes m.payload v.within,
            v.content,
          );
          within = omega (arith, total, size', room');
        },
      )

pub shrink_to-Becomes :
    (m : OutMessage) (n : ℕ)
    → n ≤ m.payload_offset
    → m.payload_offset ≤ length m.payload
    → Becomes m (shrink_to (out_message_header_size + n) m) (take n m.payload)
unfolding shrink_to message_len
shrink_to-Becomes m n h v =
    let back : out_message_header_size + n - out_message_header_size ≡ n = omega arith in
    let size : length (take n m.payload) ≡ n = omega (arith, length-take n m.payload) in
    let low : ltb (out_message_header_size + n) out_message_header_size ≡ false = ground arith in
    let high : ltb (out_message_header_size + m.payload_offset) (out_message_header_size + n)
        ≡ false =
      ground arith in
    (
      record m { payload_offset = n },
      rw (low, high, back),
      refl,
      refl,
      record { ends = sym size; content = rw size; within = omega (arith, size) },
    )
