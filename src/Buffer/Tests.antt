-- ===== src/Buffer/Tests.antt =====
-- internal/buffer on small messages.
use fusego.Base.{
  ◌≤◌, ◌<◌, ◌≡◌, ◌≢◌, refl, ◌⊎◌, none, some, [], ◌∷◌, ◌++◌, arith, done, panics, length, take, drop,
  replicate,
}
use fusego.Bytes.{Bytes}
use fusego.Buffer.Outgoing.{OutMessage, new_out_message, grow_no_zero, append}
use fusego.Buffer.Outgoing.Segments.{IsMessage}
use fusego.Buffer.Incoming.{
  InMessage, new_in_message, init_message, in_header_size, header_len, short_read, wrong_length,
}
use fusego.Buffer.Incoming.Consuming.{Consumes, concat, init_message_lem, Consumes-concat}

abbrev taco : Bytes
taco = 116 ∷ 97 ∷ 99 ∷ 111 ∷ []

abbrev blank : OutMessage
blank = new_out_message 8

blank-IsMessage : IsMessage blank
unfolding new_out_message
blank-IsMessage = record { header_size = refl; within = omega arith }

abbrev with_taco : OutMessage
with_taco = elim (append taco blank) [ done m ↦ m | panics ↦ blank ]

with_taco-IsMessage : IsMessage with_taco
unfolding new_out_message append grow_no_zero
with_taco-IsMessage = record { header_size = refl; within = omega arith }

-- A header that states 42 bytes, and two more.
abbrev request : Bytes
request = 42 ∷ replicate 39 0 ++ (7 ∷ 8 ∷ [])

init_message_lem_example :
    ((length request < in_header_size)
      × (m' : InMessage) × (init_message (some request) (new_in_message 64)
          ≡ (some (short_read (length request)), m')))
    ⊎ ((in_header_size ≤ length request)
        × (header_len request ≢ length request)
        × (m' : InMessage) × (init_message (some request) (new_in_message 64)
            ≡ (some (wrong_length (header_len request) (length request)), m')))
    ⊎ ((m' : InMessage) × (header_len request ≡ length request)
        × (init_message (some request) (new_in_message 64) ≡ (none, m'))
        × (m'.remaining ≡ drop in_header_size request)
        × (take in_header_size m'.storage ≡ take in_header_size request))
init_message_lem_example = init_message_lem request (new_in_message 64)

Consumes-concat_example :
    Consumes
      (record { remaining = concat (taco ∷ taco ∷ []) ++ request; storage = request })
      (taco ∷ taco ∷ [])
      (record { remaining = request; storage = request })
Consumes-concat_example = Consumes-concat (taco ∷ taco ∷ []) request request
