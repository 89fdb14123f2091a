-- ===== src/Connection/Turns.antt =====
-- What each turn of ReadOp's loop makes of a connection.
use fusego.Base.{
  ℕ, ◌+◌, ◌≤◌, ◌≡◌, refl, subst, inl, inr, Bool, Option, arith, done, ◌>>=◌, >>=-eq-done,
  done_injective,
}
use fusego.Base.Int.{ℤ}
use fusego.Fuseops.{Time}
use fusego.Fuseops.Ops.{interrupt}
use fusego.Buffer.Incoming.{InMessage}
use fusego.Buffer.Outgoing.{OutMessage}
use fusego.Conversions.{Converted, converted, corrupt, name_not_read, cannot_grow}
use fusego.Conversions.Fields.{in_header}
use fusego.Conversions.Incoming.{convert_in_message}
use fusego.Conversions.Outgoing.{OpError, kernel_response}
use fusego.Conversions.Outgoing.Structs.{Clock}
use fusego.Connection.{
  Connection, OpState, Allocated, get_out_message, put_out_message, begin_op, finish_op,
  handle_interrupt,
}
use fusego.Connection.Ops.{
  ReadError, Turn, handled, refused, ready, turn_of, convert_turn, reply, send_response,
}
use fusego.Connection.Tracking.{
  count, key_of, count-new_key, count-deleted_key, begin_op-cases, finish_op-cases,
}

-- The connection is the same but for the requests that have been cancelled and written.
pub record SameBooks (c c' : Connection) : Type 0 where
  pub cancel_funcs : c'.cancel_funcs ≡ c.cancel_funcs
  pub in_messages : c'.in_messages ≡ c.in_messages
  pub out_messages : c'.out_messages ≡ c.out_messages
  pub next_pointer : c'.next_pointer ≡ c.next_pointer

handle_interrupt-SameBooks : (id : ℕ) (c : Connection) → SameBooks c (handle_interrupt id c)
unfolding handle_interrupt
handle_interrupt-SameBooks id c = record {
  cancel_funcs = ground arith;
  in_messages = ground arith;
  out_messages = ground arith;
  next_pointer = ground arith;
}

module _ (x : Allocated InMessage) (out : Allocated OutMessage) (c : Connection) where
  -- The three ends of a turn.
  abbrev pub Ends : Turn → Type 0
  Ends (handled c') = SameBooks c c'
  Ends (refused e c') = c' ≡ put_out_message out c
  Ends (ready s c') =
      (s.in_msg ≡ x)
      × (s.out_msg.pointer ≡ out.pointer)
      × (begin_op (in_header x.message).opcode (in_header x.message).unique c ≡ done c')

  turn_of-refused :
      (e : ReadError) (t : Turn) → done (refused e (put_out_message out c)) ≡ done t → Ends t
  turn_of-refused e t h = subst Ends (done_injective h) refl

  turn_of-begun :
      (s : OpState) (t : Turn)
      → s.in_msg ≡ x
      → s.out_msg.pointer ≡ out.pointer
      → (begin_op (in_header x.message).opcode (in_header x.message).unique c >>= λ c'.
          done (ready s c'))
        ≡ done t
      → Ends t
  turn_of-begun s t same_in same_out h =
      let (c', begun, e) =
        >>=-eq-done (begin_op (in_header x.message).opcode (in_header x.message).unique c)
          (λ c'. done (ready s c')) h in
      subst Ends (done_injective e) (same_in, same_out, begun)

  pub turn_of-Ends : (r : Converted) (t : Turn) → turn_of x out r c ≡ done t → Ends t
  unfolding turn_of
  turn_of-Ends (corrupt opcode) t h = turn_of-refused _ t h
  turn_of-Ends name_not_read t h = turn_of-refused _ t h
  turn_of-Ends (cannot_grow n) t h = turn_of-refused _ t h
  turn_of-Ends (converted (interrupt o) out') t h =
      subst Ends (done_injective h) (handle_interrupt-SameBooks o.fuse_id c)
  turn_of-Ends (converted op out') t h = turn_of-begun _ t refl refl h

pub convert_turn-Ends :
    (unix : ℤ → ℕ → Time) (x : Allocated InMessage) (c : Connection) (t : Turn)
    → convert_turn unix x c ≡ done t
    → Ends x (get_out_message c).0 (get_out_message c).1 t
unfolding convert_turn
convert_turn-Ends unix x c t h =
    let (r, e, e') =
      >>=-eq-done (convert_in_message unix c.protocol x.message (get_out_message c).0.message)
        (λ r. turn_of x (get_out_message c).0 r (get_out_message c).1) h in
    turn_of-Ends x (get_out_message c).0 (get_out_message c).1 r t e'

-- What beginOp does for the request of a message.
pub record Begun (m : InMessage) (c c' : Connection) : Type 0 where
  pub keys : (id : ℕ) → count id c'.cancel_funcs ≡ key_of id m + count id c.cancel_funcs
  pub once : (id : ℕ) → count id c.cancel_funcs ≤ 1 → count id c'.cancel_funcs ≤ 1
  pub in_messages : c'.in_messages ≡ c.in_messages
  pub out_messages : c'.out_messages ≡ c.out_messages
  pub next_pointer : c'.next_pointer ≡ c.next_pointer

pub begin_op-Begun :
    (m : InMessage) (c c' : Connection)
    → begin_op (in_header m).opcode (in_header m).unique c ≡ done c'
    → Begun m c c'
begin_op-Begun m c c' h = elim (begin_op-cases (in_header m).opcode (in_header m).unique c c' h) [
  | inl (is_forget, e) ↦ record {
    keys = λ id. rw (e, is_forget) (omega arith);
    once = λ id at_most. rw e at_most;
    in_messages = rw e;
    out_messages = rw e;
    next_pointer = rw e;
  }
  | inr (other, new, e) ↦ record {
    keys = λ id. rw (e, other);
    once = λ id at_most. rw e (count-new_key (in_header m).unique id c.cancel_funcs new at_most);
    in_messages = rw e;
    out_messages = rw e;
    next_pointer = rw e;
  }
]

-- What finishOp does for it, where its identifier is there once at most.
pub record Finished (m : InMessage) (c c' : Connection) : Type 0 where
  pub keys :
      (id : ℕ)
      → count id c.cancel_funcs ≤ 1
      → key_of id m ≤ count id c.cancel_funcs
      → count id c.cancel_funcs ≡ key_of id m + count id c'.cancel_funcs
  pub in_messages : c'.in_messages ≡ c.in_messages
  pub out_messages : c'.out_messages ≡ c.out_messages
  pub next_pointer : c'.next_pointer ≡ c.next_pointer

pub finish_op-Finished :
    (m : InMessage) (c c' : Connection)
    → finish_op (in_header m).opcode (in_header m).unique c ≡ done c'
    → Finished m c c'
finish_op-Finished m c c' h =
    elim (finish_op-cases (in_header m).opcode (in_header m).unique c c' h) [
      | inl (is_forget, e) ↦ record {
        keys = λ id h1 h2. rw (e, is_forget) (omega arith);
        in_messages = rw e;
        out_messages = rw e;
        next_pointer = rw e;
      }
      | inr (other, e) ↦ record {
        keys = λ id h1 h2.
            rw (e, other)
              (count-deleted_key (in_header m).unique id c.cancel_funcs h1 (rw other at h2));
        in_messages = rw e;
        out_messages = rw e;
        next_pointer = rw e;
      }
    ]

pub reply-ends :
    (clock : Clock) (s : OpState) (e : Option OpError) (c c' : Connection)
    → reply clock s e c ≡ done c'
    → (c1 : Connection) × (r : Bool × OutMessage) × (finish_op
          (in_header s.in_msg.message).opcode
          (in_header s.in_msg.message).unique
          c
        ≡ done c1)
      × (send_response s r c1 ≡ c')
unfolding reply
reply-ends clock s e c c' h =
    let (c1, finished, h1) =
      >>=-eq-done
        (finish_op (in_header s.in_msg.message).opcode (in_header s.in_msg.message).unique c) _ h in
    let (r, answered, h2) =
      >>=-eq-done
        (kernel_response clock c1.protocol (in_header s.in_msg.message).unique s.op e
          s.out_msg.message)
        _ h1 in
    (c1, r, finished, done_injective h2)
