-- ===== src/Connection/Answered.antt =====
-- Reply, on an op that is in flight: what the kernel is sent.
use fusego.Base.{
  ℕ, ◌+◌, ◌≤◌, ◌≡◌, inl, inr, false, none, some, List, ◌∷◌, ◌++◌, done, length, replicate,
}
use fusego.Fuseops.Ops.{Op}
use fusego.Buffer.Incoming.{InMessage}
use fusego.Buffer.Outgoing.{OutMessage, out_message_header_size}
use fusego.Conversions.Fields.{in_header}
use fusego.Conversions.Outgoing.{OpError, no_response}
use fusego.Conversions.Outgoing.Structs.{Clock}
use fusego.Conversions.Outgoing.Answers.{answer, asked, IsAnswerable}
use fusego.Conversions.Outgoing.Replies.{
  negated, reply_header, kernel_response-served, kernel_response-failed,
}
use fusego.Connection.{Connection, OpState, Allocated, finish_op, put_in_message, put_out_message}
use fusego.Connection.Ops.{reply, send_response}
use fusego.Connection.Steps.{world, served, IsSound}
use fusego.Connection.Tracking.{finish_op-cases, finish_op-tracked}
use fusego.Connection.Sound.{key_within}

-- finishOp leaves the version of the protocol and what has been written.
pub finish_op-same :
    (op_code id : ℕ) (c c' : Connection)
    → finish_op op_code id c ≡ done c'
    → (c'.protocol ≡ c.protocol) × (c'.written ≡ c.written)
finish_op-same op_code id c c' h = elim (finish_op-cases op_code id c c' h) [
  | inl (is_forget, e) ↦ (rw e, rw e)
  | inr (other, e) ↦ (rw e, rw e)
]

module _ (clock : Clock) (c : Connection) (reading : List (Allocated InMessage))
    (xs ys : List OpState) (s : OpState) (v : IsSound (world c reading (xs ++ (s ∷ ys)))) (op : Op)
    (out : OutMessage) (zeroed : out.header ≡ replicate out_message_header_size 0) where
  abbrev id : ℕ
  id = (in_header s.in_msg.message).unique

  -- An op in flight that the file system has served, with a message as convertInMessage leaves it: Reply does not panic,
  -- and writes one message, which is a header with the identifier of the request and no error, and the
  -- answer to the op.
  pub reply-served :
      200 ≤ length out.payload
      → out.payload_offset ≡ asked op
      → IsAnswerable op (length out.payload)
      → (c' : Connection) × (reply clock (served s op out) none c ≡ done c')
        × (c'.protocol ≡ c.protocol)
        × (c'.written
            ≡ (reply_header (16 + length (answer clock c.protocol op out.payload)) 0 id
                ++ answer clock c.protocol op out.payload)
              ∷ c.written)
  unfolding reply put_in_message put_out_message
  reply-served room at_start h =
      let (c1, finished) = finish_op-tracked s c (key_within clock c c reading xs ys s v id) in
      let same = finish_op-same (in_header s.in_msg.message).opcode id c c1 finished in
      let (m', answered, bytes) =
        kernel_response-served out zeroed id clock c.protocol op room at_start h in
      (
        send_response (served s op out) (false, m') c1,
        rw (finished, same.0, answered),
        same.0,
        rw (bytes, same.1),
      )

  -- An op in flight that has failed, and that the kernel expects a response to: Reply writes one message, which is a header
  -- alone, with the number of the error and the identifier of the request.
  pub reply-failed :
      (e : OpError)
      → no_response op ≡ false
      → (c' : Connection) × (reply clock (served s op out) (some e) c ≡ done c')
        × (c'.written ≡ reply_header 16 (negated e) id ∷ c.written)
  unfolding reply put_in_message put_out_message
  reply-failed e h =
      let (c1, finished) = finish_op-tracked s c (key_within clock c c reading xs ys s v id) in
      let same = finish_op-same (in_header s.in_msg.message).opcode id c c1 finished in
      let (m', answered, bytes) = kernel_response-failed out zeroed id clock c.protocol op e h in
      (
        send_response (served s op out) (false, m') c1,
        rw (finished, same.0, answered),
        rw (bytes, same.1),
      )
