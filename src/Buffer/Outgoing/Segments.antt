-- ===== src/Buffer/Outgoing/Segments.antt =====
-- An outgoing message as the bytes that it holds.
use mathlib.Core.List.{append_assoc}
use fusego.Base.{
  ℕ, zero, suc, ◌+◌, ◌-◌, ◌≤◌, ◌<◌, ◌≡◌, refl, sym, ap, ◌⊎◌, inl, inr, none, some, [], ◌∷◌, ◌++◌,
  arith, ltb, done, panics, length, take, drop, replicate, length-append, length-take, length-drop,
  length-replicate, take-append_eq, Bool-cases,
}
use fusego.Bytes.{Bytes}
use fusego.Buffer.Outgoing.{
  OutMessage, out_message_header_size, reset, overwrite, grow_no_zero, grow, message_len, shrink_to,
  append, message_bytes,
}

-- The header has its size, and the message ends within its buffer.
pub record IsMessage (m : OutMessage) : Type 0 where
  pub header_size : length m.header ≡ out_message_header_size
  pub within : m.payload_offset ≤ length m.payload

take_beyond : (xs ys : Bytes) (k : ℕ) → take (length xs + k) (xs ++ ys) ≡ xs ++ take k ys
take_beyond [] ys k = ground arith
take_beyond (x ∷ xs) ys k =
    let step : suc (length xs) + k ≡ suc (length xs + k) = omega arith in
    rw (step, take_beyond xs ys k)

take-take : (j k : ℕ) (xs : Bytes) → j ≤ k → take j (take k xs) ≡ take j xs
take-take zero k xs h = refl
take-take (suc j) zero xs h = absurd (omega arith)
take-take (suc j) (suc k) [] h = refl
take-take (suc j) (suc k) (x ∷ xs) h = ap (λ zs. x ∷ zs) (take-take j k xs (omega arith))

-- The bytes are the header and the payload up to the offset.
pub message_bytes-eq :
    (m : OutMessage) → IsMessage m → message_bytes m ≡ m.header ++ take m.payload_offset m.payload
unfolding message_bytes message_len
message_bytes-eq m v = rw (← v.header_size) (take_beyond m.header m.payload m.payload_offset)

-- After a segment is written at the end, the payload up to the new end is the old one and the segment.
pub take-overwrite :
    (off : ℕ) (src xs : Bytes)
    → off + length src ≤ length xs
    → take (off + length src) (overwrite off src xs) ≡ take off xs ++ src
take-overwrite off src xs h =
    let front : length (take off xs) ≡ off = omega (arith, length-take off xs) in
    let flat : overwrite off src xs ≡ (take off xs ++ src) ++ drop (off + length src) xs =
      simp append_assoc in
    rw flat (
      take-append_eq (off + length src) (take off xs ++ src) (drop (off + length src) xs)
        (omega (arith, front, length-append (take off xs) src)))

pub length-overwrite :
    (off : ℕ) (src xs : Bytes)
    → off + length src ≤ length xs
    → length (overwrite off src xs) ≡ length xs
length-overwrite off src xs h = omega (
  arith,
  length-append (take off xs) (src ++ drop (off + length src) xs),
  length-append src (drop (off + length src) xs),
  length-take off xs,
  length-drop (off + length src) xs,
)

-- A message that has grown by the segment `src`.
abbrev pub Extends : OutMessage → Bytes → OutMessage → Type 0
Extends m src m' =
    IsMessage m'
    × (message_bytes m' ≡ message_bytes m ++ src)
    × (length m'.payload ≡ length m.payload)

module _ (m : OutMessage) (v : IsMessage m) where
  abbrev extended : Bytes → OutMessage
  extended src = record {
    payload_offset = m.payload_offset + length src;
    header = m.header;
    payload = overwrite m.payload_offset src m.payload;
  }

  extended-Extends :
      (src : Bytes)
      → m.payload_offset + length src ≤ length m.payload
      → Extends m src (extended src)
  extended-Extends src h =
      let size = length-overwrite m.payload_offset src m.payload h in
      let v' : IsMessage (extended src) = record {
        header_size = v.header_size;
        within = omega (arith, size);
      } in
      (
        v',
        rw
            (
              message_bytes-eq (extended src) v',
              message_bytes-eq m v,
              take-overwrite m.payload_offset src m.payload h,
            )
            (simp append_assoc),
        size,
      )

  -- Append to a message panics when there is no room for the data; else the bytes of the message are
  -- what they were, and the data after them.
  pub append_lem :
      (src : Bytes)
      → ((length m.payload < m.payload_offset + length src) × (append src m ≡ panics))
        ⊎ ((m' : OutMessage) × (append src m ≡ done m') × Extends m src m')
  unfolding append grow_no_zero
  append_lem src = elim (Bool-cases (ltb (length m.payload - m.payload_offset) (length src))) [
    | inl full ↦ inl (ground (arith, v.within), rw (append, full))
    | inr fits ↦
        inr (extended src, rw (append, fits), extended-Extends src (ground (arith, v.within)))
  ]

  -- Grow returns nil when there is no room; else it returns the old end of the payload, and the bytes of
  -- the message are what they were, with as many zeroes after them as were asked for, whatever the buffer
  -- held there before.
  pub grow_lem :
      (n : ℕ)
      → ((length m.payload < m.payload_offset + n) × (grow n m ≡ none))
        ⊎ ((m' : OutMessage) × (grow n m ≡ some (m.payload_offset, m'))
            × Extends m (replicate n 0) m')
  unfolding grow grow_no_zero
  grow_lem n =
      let size = length-replicate {A = ℕ} n 0 in
      elim (Bool-cases (ltb (length m.payload - m.payload_offset) n)) [
        | inl full ↦ inl (ground (arith, v.within), rw (grow, full))
        | inr fits ↦ inr (
          extended (replicate n 0),
          rw (grow, fits, size),
          extended-Extends (replicate n 0) (ground (arith, v.within, size)),
        )
      ]

  -- ShrinkTo keeps that many of the first bytes of the message, for any size from the header's to the
  -- message's; for another size it panics.
  pub shrink_to_lem :
      (n : ℕ)
      → (((n < out_message_header_size) ⊎ (message_len m < n)) × (shrink_to n m ≡ panics))
        ⊎ ((m' : OutMessage) × (shrink_to n m ≡ done m')
            × IsMessage m'
            × (message_bytes m' ≡ take n (message_bytes m))
            × (message_len m' ≡ n))
  unfolding shrink_to message_len message_bytes
  shrink_to_lem n = elim (Bool-cases (ltb n out_message_header_size)) [
    | inl short ↦ inl (inl (ground arith), rw short)
    | inr long ↦ elim (Bool-cases (ltb (out_message_header_size + m.payload_offset) n)) [
      | inl over ↦ inl (inr (ground arith), rw (long, over))
      | inr fits ↦
          let back : out_message_header_size + (n - out_message_header_size) ≡ n = ground arith in
          inr (
            record m { payload_offset = n - out_message_header_size },
            rw (long, fits),
            record { header_size = v.header_size; within = ground (arith, v.within) },
            rw back (
                sym (
                  take-take n (out_message_header_size + m.payload_offset) (m.header ++ m.payload)
                    (ground arith))),
            back,
          )
    ]
  ]

  -- Reset leaves a zeroed header and nothing else.
  pub reset_lem :
      IsMessage (reset m) × (message_bytes (reset m) ≡ replicate out_message_header_size 0)
  unfolding reset
  reset_lem =
      let fresh = record m { payload_offset = 0; header = replicate out_message_header_size 0 } in
      let v' : IsMessage fresh = record { header_size = refl; within = omega arith } in
      (v', rw (message_bytes-eq fresh v'))
