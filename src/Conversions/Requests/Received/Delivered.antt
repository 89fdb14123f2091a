-- ===== src/Conversions/Requests/Received/Delivered.antt =====
-- A request on its way from the device: InMessage.Init reads it, convertInMessage makes the op.
use fusego.Conversions.Requests.{Unread, packet, header_bytes, IsHeader}
use fusego.Conversions.Fields.{in_header, InHeader}
use fusego.Conversions.Incoming.{convert_in_message}
use fusego.Buffer.Incoming.{init_message, in_header_size}
use fusego.Conversions.Requests.Received.Agreement.{convert_request-Agrees}
use mathlib.Core.List.{append_assoc}
use fusego.Base.{
  ◌^◌, ℕ, ◌+◌, ◌-◌, ◌<◌, ◌≡◌, refl, true, false, none, some, ◌++◌, arith, ltb, ◌==◌, done, length,
  take, drop, length-append, take-append, drop-append_eq,
}
use fusego.Base.Int.{ℤ}
use fusego.Bytes.{Bytes, le_bytes, le_value, le_value-le_bytes}
use fusego.Fuseops.{Time}
use fusego.Fusekernel.{Protocol}
use fusego.Buffer.Incoming.{InMessage}
use fusego.Buffer.Outgoing.{OutMessage}
use fusego.Conversions.Requests.{Request, body, IsRequest}
use fusego.Conversions.Requests.Reading.{holding}
use fusego.Conversions.Requests.Received.{op_of, room_of, reserved, header_of}

in_header-header_bytes :
    (len : ℕ) (x : Unread) (h : InHeader) (rest remaining : Bytes)
    → IsHeader h
    → in_header (holding (header_bytes len x h ++ rest) remaining) ≡ h
unfolding in_header le_bytes
in_header-header_bytes len x h rest remaining (h1, h2, h3, h4) = rw (
  le_value-le_bytes 4 h.opcode h1,
  le_value-le_bytes 8 h.unique h2,
  le_value-le_bytes 8 h.nodeid h3,
  le_value-le_bytes 4 h.pid h4,
)

-- Init takes a packet as it is, and leaves its body to be read.
init_message-packet :
    (header b : Bytes) (m : InMessage)
    → length header ≡ 40
    → le_value (take 4 (header ++ (b ++ drop (length (header ++ b)) m.storage))) ≡ 40 + length b
    → init_message (some (header ++ b)) m
      ≡ (none, holding (header ++ (b ++ drop (length (header ++ b)) m.storage)) b)
unfolding init_message
init_message-packet header b m size stated =
    let n : length (header ++ b) ≡ 40 + length b = omega (arith, length-append header b, size) in
    let stale = drop (40 + length b) m.storage in
    let stated' : le_value (take 4 (header ++ (b ++ stale))) ≡ 40 + length b = rw n at stated in
    let long : ltb (40 + length b) in_header_size ≡ false = ground arith in
    let same : (40 + length b == 40 + length b) ≡ true = ground arith in
    let rest : 40 + length b - in_header_size ≡ length b = omega arith in
    let flat : (header ++ b) ++ stale ≡ header ++ (b ++ stale) = append_assoc header b stale in
    rw (
      init_message,
      n,
      flat,
      long,
      stated',
      same,
      drop-append_eq 40 header (b ++ stale) size,
      rest,
      take-append b stale,
    )

module _ (unix : ℤ → ℕ → Time) (p : Protocol) (x : Unread) (unique node pid : ℕ) (m : InMessage)
    (out : OutMessage) where
  pub convert_in_message-packet :
      (r : Request)
      → IsRequest r
      → IsHeader (header_of unique node pid r)
      → 40 + length (body p x r) < 256 ^ 4
      → (m' : InMessage) × (init_message (some (packet p x (header_of unique node pid r) r)) m
          ≡ (none, m'))
        × (in_header m' ≡ header_of unique node pid r)
        × (convert_in_message unix p m' out
            ≡ done (reserved (room_of r) (op_of unix node pid r) out))
  unfolding convert_in_message le_bytes
  convert_in_message-packet r h in_range fits =
      let header = header_bytes (40 + length (body p x r)) x (header_of unique node pid r) in
      let rest = body p x r ++ drop (length (header ++ body p x r)) m.storage in
      let fields =
        in_header-header_bytes (40 + length (body p x r)) x (header_of unique node pid r) rest
          (body p x r) in_range in
      (
        holding (header ++ rest) (body p x r),
        init_message-packet header (body p x r) m refl
            (le_value-le_bytes 4 (40 + length (body p x r)) fits),
        fields,
        rw fields (convert_request-Agrees unix p x unique node pid (header ++ rest) out r h),
      )
