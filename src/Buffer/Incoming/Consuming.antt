-- ===== src/Buffer/Incoming/Consuming.antt =====
-- What a message holds after Init, and how it is taken apart.
use mathlib.Core.List.{append_assoc}
use fusego.Base.{
  ℕ, zero, suc, ◌-◌, ◌≤◌, ◌<◌, ◌≡◌, ◌≢◌, refl, ap, ◌⊎◌, inl, inr, false, none, some, List, [], ◌∷◌,
  ◌++◌, arith, ltb, ◌==◌, length, take, drop, length-append, length-drop, take-append, drop-append,
  take-append_eq, Bool-cases,
}
use fusego.Bytes.{Bytes, le_value}
use fusego.Buffer.Incoming.{
  InMessage, short_read, wrong_length, in_header_size, header_len, init_message, consume_bytes,
}

take-within : (n : ℕ) (xs ys : Bytes) → n ≤ length xs → take n (xs ++ ys) ≡ take n xs
take-within zero xs ys h = refl
take-within (suc n) [] ys h = absurd (omega arith)
take-within (suc n) (x ∷ xs) ys h = ap (λ zs. x ∷ zs) (take-within n xs ys (omega arith))

drop-within : (n : ℕ) (xs ys : Bytes) → n ≤ length xs → drop n (xs ++ ys) ≡ drop n xs ++ ys
drop-within zero xs ys h = refl
drop-within (suc n) [] ys h = absurd (omega arith)
drop-within (suc n) (x ∷ xs) ys h = drop-within n xs ys (omega arith)

-- Init with a read that succeeds refuses a read shorter than a header, and one whose length is not that
-- which its header states. Else what remains to be consumed is the data behind the header, and the
-- header is the gots; nothing of an earlier message is seen.
pub init_message_lem :
    (got : Bytes) (m : InMessage)
    → ((length got < in_header_size)
        × (m' : InMessage) × (init_message (some got) m ≡ (some (short_read (length got)), m')))
      ⊎ ((in_header_size ≤ length got)
          × (header_len got ≢ length got)
          × (m' : InMessage) × (init_message (some got) m
              ≡ (some (wrong_length (header_len got) (length got)), m')))
      ⊎ ((m' : InMessage) × (header_len got ≡ length got)
          × (init_message (some got) m ≡ (none, m'))
          × (m'.remaining ≡ drop in_header_size got)
          × (take in_header_size m'.storage ≡ take in_header_size got))
unfolding init_message
init_message_lem got m =
    let stale = drop (length got) m.storage in
    elim (Bool-cases (ltb (length got) in_header_size)) [
      | inl short ↦ inl (ground arith, record m { storage = got ++ stale }, rw short)
      | inr long ↦
          let enough : in_header_size ≤ length got = ground arith in
          let front : header_len (got ++ stale) ≡ header_len got =
            ap le_value (take-within 4 got stale (omega arith)) in
          let body : take (length got - in_header_size) (drop in_header_size (got ++ stale))
              ≡ drop in_header_size got =
            rw (drop-within in_header_size got stale enough) (
              take-append_eq (length got - in_header_size) (drop in_header_size got) stale
                (omega (arith, length-drop in_header_size got))) in
          let after : InMessage = record {
            remaining = drop in_header_size got;
            storage = got ++ stale;
          } in
          elim (Bool-cases (header_len got == length got)) [
            | inl same ↦ inr (
                inr (
                  after,
                  ground arith,
                  rw (long, front, same, body),
                  refl,
                  take-within in_header_size got stale enough,
                ))
            | inr other ↦ inr (inl (enough, ground arith, after, rw (long, front, other, body)))
          ]
    ]

-- Calls of ConsumeBytes in a row, each of which gives a segment.
pub data Consumes : InMessage → List Bytes → InMessage → Type 0 where
  at_end : {m : InMessage} → Consumes m [] m
  segment :
      {m m' m'' : InMessage} {s : Bytes} {ss : List Bytes}
      → consume_bytes (length s) m ≡ (some s, m')
      → Consumes m' ss m''
      → Consumes m (s ∷ ss) m''

abbrev pub concat : List Bytes → Bytes
concat [] = []
concat (s ∷ ss) = s ++ concat ss

-- A message that was put together from segments is taken apart into the same segments by calls of
-- ConsumeBytes for their lengths, and what follows them is left.
pub Consumes-concat :
    (ss : List Bytes) (rest storage : Bytes)
    → Consumes
        (record { remaining = concat ss ++ rest; storage = storage })
        ss
        (record { remaining = rest; storage = storage })
unfolding consume_bytes
Consumes-concat [] rest storage = at_end
Consumes-concat (s ∷ ss) rest storage =
    let flat : (s ++ concat ss) ++ rest ≡ s ++ (concat ss ++ rest) = simp append_assoc in
    let fits : ltb (length (s ++ (concat ss ++ rest))) (length s) ≡ false =
      ground (arith, length-append s (concat ss ++ rest)) in
    segment (rw (flat, fits, take-append s (concat ss ++ rest), drop-append s (concat ss ++ rest)))
      (Consumes-concat ss rest storage)
