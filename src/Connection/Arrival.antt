-- ===== src/Connection/Arrival.antt =====
-- A request on its way from the device to the file system.
use fusego.Base.{
  ◌^◌, ℕ, suc, ◌+◌, ◌-◌, ◌≤◌, ◌<◌, ◌≡◌, refl, sym, subst, inl, inr, false, none, some, List, [],
  ◌∷◌, arith, ltb, ◌==◌, done, ◌>>=◌, length, replicate, length-replicate, List-cases, ◌∙◌,
  Bool-cases,
}
use fusego.Base.Int.{ℤ}
use fusego.Bytes.{Bytes}
use fusego.Fuseops.{Time}
use fusego.Fuseops.Ops.{Op, interrupt}
use fusego.Fusekernel.Opcode
use fusego.Buffer.Incoming.{InMessage, init_message}
use fusego.Buffer.Outgoing.{OutMessage, reset, new_out_message, out_message_header_size}
use fusego.Conversions.{converted}
use fusego.Conversions.Fields.{in_header}
use fusego.Conversions.Incoming.{convert_in_message}
use fusego.Conversions.Requests.{Unread, Request, body, packet, IsRequest, IsHeader}
use fusego.Conversions.Requests.Received.{header_of, op_of, room_of, reserved}
use fusego.Conversions.Requests.Received.Delivered.{convert_in_message-packet}
use fusego.Connection.{
  Connection, OpState, Allocated, get_in_message, get_out_message, max_read_size, has_key, begin_op,
  record_cancel_func,
}
use fusego.Connection.Ops.{
  Read, delivered, got, read_into, read_message, ready, turn_of, convert_turn, read_op,
}

-- The ops that a file system sees.
abbrev pub IsForUser : Op → Type 0
IsForUser (interrupt o) = ⊥
IsForUser _ = Unit {0}

turn_of-user :
    (x : Allocated InMessage) (y : Allocated OutMessage) (op : Op) (out : OutMessage)
    (c : Connection)
    → IsForUser op
    → turn_of x y (converted op out) c ≡ (
        begin_op (in_header x.message).opcode (in_header x.message).unique c >>= λ c'. done (
          ready
            (record {
              in_msg = x;
              out_msg = record { pointer = y.pointer; message = out };
              op = op;
            })
            c'))
unfolding turn_of
turn_of-user x y (interrupt o) out c h = absurd h
turn_of-user x y _ out c h = refl

-- beginOp takes a request whose identifier is not in use.
begin_op-new :
    (op_code id : ℕ) (c : Connection)
    → has_key id c.cancel_funcs ≡ false
    → (c' : Connection) × (begin_op op_code id c ≡ done c')
      × (c'.protocol ≡ c.protocol)
      × (c'.written ≡ c.written)
unfolding begin_op record_cancel_func
begin_op-new op_code id c h = elim (Bool-cases (op_code == Opcode.forget)) [
  | inl is_forget ↦ (c, rw is_forget, refl, refl)
  | inr other ↦ (record c { cancel_funcs = id ∷ c.cancel_funcs }, rw (other, h), refl, refl)
]

-- The messages of a list have the payload that new ones have.
abbrev pub IsRoomy : List (Allocated OutMessage) → Type 0
IsRoomy [] = Unit {0}
IsRoomy (x ∷ xs) = (length x.message.payload ≡ max_read_size) × IsRoomy xs

length-new_out_message : (n : ℕ) → length (new_out_message n).payload ≡ n
unfolding new_out_message
length-new_out_message n = length-replicate n 0

reset_message :
    (m : OutMessage)
    → ((reset m).header ≡ replicate out_message_header_size 0)
      × ((reset m).payload_offset ≡ 0)
      × (length (reset m).payload ≡ length m.payload)
unfolding reset
reset_message m = (refl, refl, refl)

-- The message that getOutMessage gives, and the connection that it leaves.
get_out_message-fresh :
    (c : Connection)
    → IsRoomy c.out_messages
    → let r = get_out_message c in
      (r.0.message.header ≡ replicate out_message_header_size 0)
      × (r.0.message.payload_offset ≡ 0)
      × (length r.0.message.payload ≡ max_read_size)
      × (r.1.cancel_funcs ≡ c.cancel_funcs)
      × (r.1.protocol ≡ c.protocol)
      × (r.1.written ≡ c.written)
unfolding get_out_message
get_out_message-fresh c roomy = elim (List-cases c.out_messages) [
  | inl none_free ↦
      let m = reset_message (new_out_message max_read_size) in
      rw (get_out_message, none_free)
        (m.0, m.1, m.2 ∙ length-new_out_message max_read_size, refl, refl, refl)
  | inr (x, rest, one_free) ↦
      let m = reset_message x.message in
      let roomy' : IsRoomy (x ∷ rest) = rw one_free at roomy in
      rw (get_out_message, one_free) (m.0, m.1, m.2 ∙ roomy'.0, refl, refl, refl)
]

get_in_message-same :
    (c : Connection)
    → let r = get_in_message c in
      (r.1.cancel_funcs ≡ c.cancel_funcs)
      × (r.1.protocol ≡ c.protocol)
      × (r.1.written ≡ c.written)
      × (r.1.out_messages ≡ c.out_messages)
unfolding get_in_message
get_in_message-same c = elim (List-cases c.in_messages) [
  | inl none_free ↦ rw (get_in_message, none_free) (refl, refl, refl, refl)
  | inr (x, rest, one_free) ↦ rw (get_in_message, one_free) (refl, refl, refl, refl)
]

read_message-delivered :
    (b : Bytes) (reads : List Read) (c : Connection) (m : InMessage)
    → init_message (some b) (get_in_message c).0.message ≡ (none, m)
    → read_message (delivered b ∷ reads) c
      ≡ got
          (record { pointer = (get_in_message c).0.pointer; message = m })
          (get_in_message c).1
          reads
unfolding read_message read_into
read_message-delivered b reads c m e = rw (read_message, read_into, e, e)

convert_turn-user :
    (unix : ℤ → ℕ → Time) (x : Allocated InMessage) (c : Connection) (op : Op) (out : OutMessage)
    → convert_in_message unix c.protocol x.message (get_out_message c).0.message
      ≡ done (converted op out)
    → IsForUser op
    → has_key (in_header x.message).unique (get_out_message c).1.cancel_funcs ≡ false
    → (s : OpState) × (c' : Connection) × (convert_turn unix x c ≡ done (ready s c'))
      × (s.op ≡ op)
      × (s.in_msg ≡ x)
      × (s.out_msg.message ≡ out)
      × (c'.written ≡ (get_out_message c).1.written)
unfolding convert_turn
convert_turn-user unix x c op out e user new =
    let (c', begun, same_protocol, same_written) =
      begin_op-new (in_header x.message).opcode (in_header x.message).unique (get_out_message c).1
        new in
    (
      record {
        in_msg = x;
        out_msg = record { pointer = (get_out_message c).0.pointer; message = out };
        op = op;
      },
      c',
      rw (
        convert_turn,
        e,
        turn_of-user x (get_out_message c).0 op out (get_out_message c).1 user,
        begun,
      ),
      refl,
      refl,
      refl,
      same_written,
    )

reserved-fits :
    (room : ℕ) (op : Op) (out : OutMessage)
    → out.payload_offset ≡ 0
    → room ≤ length out.payload
    → reserved room op out
      ≡ converted op (record out { payload_offset = out.payload_offset + room })
reserved-fits room op out at_start h =
    let fits : ltb (length out.payload - out.payload_offset) room ≡ false =
      ground (arith, at_start) in
    rw fits

module _ (unix : ℤ → ℕ → Time) (c : Connection) (x : Unread) (unique node pid : ℕ)
    (reads : List Read) where
  pub read_op-packet :
      (r : Request) (fuel : ℕ)
      → IsRequest r
      → IsHeader (header_of unique node pid r)
      → 40 + length (body c.protocol x r) < 256 ^ 4
      → IsForUser (op_of unix node pid r)
      → room_of r ≤ max_read_size
      → IsRoomy c.out_messages
      → has_key unique c.cancel_funcs ≡ false
      → (s : OpState) × (c' : Connection) × (read_op unix
            (suc fuel)
            (delivered (packet c.protocol x (header_of unique node pid r) r) ∷ reads)
            c
          ≡ done (got s c' reads))
        × (s.op ≡ op_of unix node pid r)
        × (in_header s.in_msg.message ≡ header_of unique node pid r)
        × (s.out_msg.message.payload_offset ≡ room_of r)
        × (s.out_msg.message.header ≡ replicate out_message_header_size 0)
        × (length s.out_msg.message.payload ≡ max_read_size)
        × (c'.written ≡ c.written)
  unfolding read_op
  read_op-packet r fuel h in_range fits user room roomy new =
      let same = get_in_message-same c in
      let c1 = (get_in_message c).1 in
      let out = (get_out_message c1).0.message in
      let (m, inited, header, made) =
        convert_in_message-packet unix c.protocol x unique node pid (get_in_message c).0.message out
          r h in_range fits in
      let in_msg : Allocated InMessage = record {
        pointer = (get_in_message c).0.pointer;
        message = m;
      } in
      let (zeroed, at_start, size, same_keys, same_protocol, same_written) =
        get_out_message-fresh c1 (subst IsRoomy (sym same.3) roomy) in
      let out' : OutMessage = record out { payload_offset = out.payload_offset + room_of r } in
      let made' : convert_in_message unix c1.protocol m out
          ≡ done (converted (op_of unix node pid r) out') =
        rw (
          same.1,
          made,
          reserved-fits (room_of r) (op_of unix node pid r) out at_start
              (omega (arith, size, room)),
        ) in
      let new' : has_key (in_header m).unique (get_out_message c1).1.cancel_funcs ≡ false =
        rw (header, same_keys, same.0) new in
      let (s, c', turned, same_op, same_in, same_out, written) =
        convert_turn-user unix in_msg c1 (op_of unix node pid r) out' made' user new' in
      (
        s,
        c',
        rw (
          read_op,
          read_message-delivered (packet c.protocol x (header_of unique node pid r) r) reads c m
              inited,
          turned,
        ),
        same_op,
        rw (same_in, header),
        rw (same_out, at_start) (omega arith),
        rw (same_out, zeroed),
        rw (same_out, size),
        written ∙ (same_written ∙ same.2),
      )
