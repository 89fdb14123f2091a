-- ===== src/Connection/Ops.antt =====
-- connection.go: what becomes of a request, from the read of its message to the write of its reply. Debug
-- and error logs are left out.
use fusego.Base.{
  ℕ, zero, suc, Bool, Option, none, some, List, [], ◌∷◌, if◌then◌else◌, Outcome, done, ◌>>=◌,
}
use fusego.Base.Int.{ℤ}
use fusego.Bytes.{Bytes}
use fusego.Fuseops.{Time}
use fusego.Fuseops.Ops.{interrupt}
use fusego.Buffer.Incoming.{InMessage, InitError, init_message}
use fusego.Buffer.Outgoing.{OutMessage, message_bytes}
use fusego.Conversions.{Converted, converted, corrupt, name_not_read, cannot_grow}
use fusego.Conversions.Fields.{in_header}
use fusego.Conversions.Incoming.{convert_in_message}
use fusego.Conversions.Outgoing.{OpError, kernel_response}
use fusego.Conversions.Outgoing.Structs.{Clock}
use fusego.Connection.{
  Connection, OpState, Allocated, get_in_message, put_in_message, get_out_message, put_out_message,
  begin_op, finish_op, handle_interrupt,
}

-- What a read from the device comes to: bytes, EINTR, ENODEV, or another error.
pub data Read : Type 0 where
  delivered : Bytes → Read
  interrupted : Read
  no_device : Read
  failed : Read

-- The errors of ReadOp: io.EOF, that of the device, that of InMessage.Init, and that of convertInMessage,
-- which is `converted` never.
pub data ReadError : Type 0 where
  eof : ReadError
  device : ReadError
  bad_message : InitError → ReadError
  not_converted : Converted → ReadError

-- A result with what is left of the reads; `blocked`, where there is none left and the call waits; and
-- `no_fuel`, where the number of turns that were allowed is used up.
pub data Reading {ℓ} (A : Type ℓ) : Type ℓ where
  no_fuel : Reading A
  blocked : Reading A
  error : ReadError → Connection → List Read → Reading A
  got : A → Connection → List Read → Reading A

-- The body of the loop of `readMessage`, for the message `x`.
unfoldable pub read_into :
    Allocated InMessage → List Read → Connection → Reading (Allocated InMessage)
unfolding put_in_message
read_into x [] c = blocked
read_into x (interrupted ∷ reads) c = read_into x reads c
read_into x (no_device ∷ reads) c = error eof (put_in_message x c) reads
read_into x (failed ∷ reads) c = error device (put_in_message x c) reads
read_into x (delivered b ∷ reads) c =
    let inited = init_message (some b) x.message in
    let x' : Allocated InMessage = record { pointer = x.pointer; message = inited.1 } in
    elim inited.0 [
      | none ↦ got x' c reads
      | some e ↦ error (bad_message e) (put_in_message x' c) reads
    ]

unfoldable pub read_message : List Read → Connection → Reading (Allocated InMessage)
unfolding get_in_message read_into
read_message reads c = let got_one = get_in_message c in read_into got_one.0 reads got_one.1

-- What ReadOp does with a message: `handled`, where the op was an interrupt, and it goes on with the next
-- one; `refused`, where it returns an error; `ready`, where it returns the op.
pub data Turn : Type 0 where
  handled : Connection → Turn
  refused : ReadError → Connection → Turn
  ready : OpState → Connection → Turn

-- The loop of ReadOp from the conversion on, with the message for the reply. After an error of the
-- conversion the incoming message is not put back, and after an interrupt neither message is.
unfoldable pub turn_of :
    Allocated InMessage → Allocated OutMessage → Converted → Connection → Outcome Turn
unfolding put_out_message handle_interrupt begin_op
turn_of in_msg out_msg (corrupt opcode) c =
    done (refused (not_converted (corrupt opcode)) (put_out_message out_msg c))
turn_of in_msg out_msg name_not_read c =
    done (refused (not_converted name_not_read) (put_out_message out_msg c))
turn_of in_msg out_msg (cannot_grow n) c =
    done (refused (not_converted (cannot_grow n)) (put_out_message out_msg c))
turn_of in_msg out_msg (converted (interrupt o) out) c =
    done (handled (handle_interrupt o.fuse_id c))
turn_of in_msg out_msg (converted op out) c =
    let state : OpState = record {
      in_msg = in_msg;
      out_msg = record { pointer = out_msg.pointer; message = out };
      op = op;
    } in
    begin_op (in_header in_msg.message).opcode (in_header in_msg.message).unique c >>= λ c'.
    done (ready state c')

module _ (unix : ℤ → ℕ → Time) where
  unfoldable pub convert_turn : Allocated InMessage → Connection → Outcome Turn
  unfolding get_out_message turn_of
  convert_turn in_msg c =
      let fresh = get_out_message c in
      convert_in_message unix c.protocol in_msg.message fresh.0.message >>= λ r.
      turn_of in_msg fresh.0 r fresh.1

  -- The end of a turn: the next turn, `again`, after an interrupt.
  abbrev pub end_turn :
      (List Read → Connection → Outcome (Reading OpState))
      → List Read
      → Turn
      → Outcome (Reading OpState)
  end_turn again reads (handled c) = again reads c
  end_turn again reads (refused e c) = done (error e c reads)
  end_turn again reads (ready state c) = done (got state c reads)

  -- A turn of ReadOp's loop, after readMessage.
  abbrev pub turn :
      (List Read → Connection → Outcome (Reading OpState))
      → Reading (Allocated InMessage)
      → Outcome (Reading OpState)
  turn again no_fuel = done no_fuel
  turn again blocked = done blocked
  turn again (error e c reads) = done (error e c reads)
  turn again (got in_msg c reads) = convert_turn in_msg c >>= end_turn again reads

  -- `ReadOp`, with at most so many turns of its loop.
  unfoldable pub read_op : ℕ → List Read → Connection → Outcome (Reading OpState)
  unfolding read_message convert_turn
  read_op zero reads c = done no_fuel
  read_op (suc fuel) reads c = turn (read_op fuel) (read_message reads c)

-- The end of Reply: the write, unless there is no response, and then the messages are put back.
abbrev pub send_response : OpState → Bool × OutMessage → Connection → Connection
send_response state r c = put_in_message state.in_msg (
    put_out_message (record { pointer = state.out_msg.pointer; message = r.1 })
      (record c { written = if r.0 then c.written else message_bytes r.1 ∷ c.written }))

-- `Reply`, for the op as the file system has left it. A write that fails is only logged.
unfoldable pub reply : Clock → OpState → Option OpError → Connection → Outcome Connection
unfolding finish_op
reply clock state op_err c =
    let h = in_header state.in_msg.message in
    finish_op h.opcode h.unique c >>= λ c'.
    kernel_response clock c'.protocol h.unique state.op op_err state.out_msg.message >>= λ r.
    done (send_response state r c')
