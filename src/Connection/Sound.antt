-- ===== src/Connection/Sound.antt =====
-- The books of a connection stay in order, whatever the order of the steps.
use fusego.Connection.Steps.{
  Steps, here, after, World, world, served, Step, take_message, fill_message, read_failed,
  op_handled, op_refused, op_ready, settled, replied, IsSound,
}
use fusego.Connection.Turns.{reply-ends, convert_turn-Ends, begin_op-Begun, finish_op-Finished}
use fusego.Connection.Tracking.{key_of}
use fusego.Base.{
  ℕ, ◌+◌, ◌≤◌, ◌≡◌, refl, ◌⊎◌, inl, inr, Bool, Option, List, [], ◌∷◌, ◌++◌, arith, done, Bool-cases,
}
use fusego.Base.Int.{ℤ}
use fusego.Fuseops.{Time}
use fusego.Fuseops.Ops.{Op}
use fusego.Fusekernel.{Protocol}
use fusego.Buffer.Incoming.{InMessage}
use fusego.Buffer.Outgoing.{OutMessage}
use fusego.Conversions.Fields.{in_header}
use fusego.Conversions.Outgoing.{OpError, kernel_response}
use fusego.Conversions.Outgoing.Structs.{Clock}
use fusego.Connection.{
  Connection, OpState, Allocated, get_in_message, put_in_message, get_out_message, put_out_message,
  new_connection, has_key, handle_interrupt,
}
use fusego.Connection.Ops.{ReadError, handled, refused, ready, convert_turn, reply, send_response}
use fusego.Connection.Tracking.{
  same, count, tracks, tracked, in_places, out_places, tracked-append, in_places-append,
  out_places-append, has_key-count, has_key-positive, finish_op-tracked, get_in_message-places,
  get_out_message-places,
}

take_message-IsSound :
    (c : Connection) (reading : List (Allocated InMessage)) (fl : List OpState)
    → IsSound (world c reading fl)
    → IsSound (world (get_in_message c).1 ((get_in_message c).0 ∷ reading) fl)
take_message-IsSound c reading fl v = record {
  keys = λ id. rw ((get_in_message-places c id).2) (v.keys id);
  once = v.once;
  ins = λ p. ground (arith, v.ins p, get_in_message-places c p);
  outs = λ p. ground (arith, v.outs p, get_in_message-places c p);
}

read_failed-IsSound :
    (c : Connection) (x : Allocated InMessage) (reading : List (Allocated InMessage))
    (fl : List OpState)
    → IsSound (world c (x ∷ reading) fl)
    → IsSound (world (put_in_message x c) reading fl)
unfolding put_in_message
read_failed-IsSound c x reading fl v = record {
  keys = v.keys;
  once = v.once;
  ins = λ p. ground (arith, v.ins p);
  outs = v.outs;
}

module _ (unix : ℤ → ℕ → Time) (c c' : Connection) (x : Allocated InMessage)
    (reading : List (Allocated InMessage)) (fl : List OpState)
    (v : IsSound (world c (x ∷ reading) fl)) where
  op_handled-IsSound : convert_turn unix x c ≡ done (handled c') → IsSound (world c' reading fl)
  op_handled-IsSound h =
      let books = convert_turn-Ends unix x c (handled c') h in
      record {
        keys = λ id. rw (books.cancel_funcs, (get_out_message-places c id).2) (v.keys id);
        once = v.once;
        ins = λ p.
            rw (books.in_messages, books.next_pointer)
              (ground (arith, v.ins p, get_out_message-places c p));
        outs = λ p.
            rw (books.out_messages, books.next_pointer)
              (ground (arith, v.outs p, get_out_message-places c p));
      }

  op_refused-IsSound :
      (e : ReadError) → convert_turn unix x c ≡ done (refused e c') → IsSound (world c' reading fl)
  unfolding put_out_message
  op_refused-IsSound e h = rw (convert_turn-Ends unix x c (refused e c') h) (record {
    keys = λ id. rw ((get_out_message-places c id).2) (v.keys id);
    once = v.once;
    ins = λ p. ground (arith, v.ins p, get_out_message-places c p);
    outs = λ p. ground (arith, v.outs p, get_out_message-places c p);
  })

  op_ready-IsSound :
      (s : OpState)
      → convert_turn unix x c ≡ done (ready s c')
      → IsSound (world c' reading (s ∷ fl))
  op_ready-IsSound s h =
      let (same_in, same_out, begun) = convert_turn-Ends unix x c (ready s c') h in
      let b = begin_op-Begun x.message (get_out_message c).1 c' begun in
      let before : (id : ℕ) → count id (get_out_message c).1.cancel_funcs ≡ tracked id fl =
        λ id. rw ((get_out_message-places c id).2) (v.keys id) in
      record {
        keys = λ id. rw same_in (omega (arith, b.keys id, before id));
        once = λ id.
            rw same_in (
              omega (arith, b.keys id, before id, b.once id (omega (arith, before id, v.once id))));
        ins = λ p.
            rw (b.in_messages, b.next_pointer, same_in)
              (ground (arith, v.ins p, get_out_message-places c p));
        outs = λ p.
            rw (b.out_messages, b.next_pointer, same_out)
              (ground (arith, v.outs p, get_out_message-places c p));
      }

module _ (clock : Clock) (c c' : Connection) (reading : List (Allocated InMessage))
    (xs ys : List OpState) (s : OpState) (v : IsSound (world c reading (xs ++ (s ∷ ys)))) where
  -- The numbers of an op in flight, taken out of those of all.
  tracked_apart : (id : ℕ) → tracked id (xs ++ (s ∷ ys)) ≡ tracks id s + tracked id (xs ++ ys)
  tracked_apart id = omega (arith, tracked-append id xs (s ∷ ys), tracked-append id xs ys)

  in_places_apart :
      (p : ℕ) → in_places p (xs ++ (s ∷ ys)) ≡ same s.in_msg.pointer p + in_places p (xs ++ ys)
  in_places_apart p = omega (arith, in_places-append p xs (s ∷ ys), in_places-append p xs ys)

  out_places_apart :
      (p : ℕ) → out_places p (xs ++ (s ∷ ys)) ≡ same s.out_msg.pointer p + out_places p (xs ++ ys)
  out_places_apart p = omega (arith, out_places-append p xs (s ∷ ys), out_places-append p xs ys)

  pub key_within : (id : ℕ) → key_of id s.in_msg.message ≤ count id c.cancel_funcs
  key_within id = omega (arith, v.keys id, tracked_apart id)

  replied-IsSound :
      (op : Op) (out : OutMessage) (e : Option OpError)
      → reply clock (served s op out) e c ≡ done c'
      → IsSound (world c' reading (xs ++ ys))
  unfolding put_in_message put_out_message
  replied-IsSound op out e h =
      let (c1, r, finished, e) = reply-ends clock (served s op out) e c c' h in
      let f = finish_op-Finished s.in_msg.message c c1 finished in
      rw (← e) (record {
        keys = λ id. omega (
          arith,
          f.keys id (omega (arith, v.keys id, v.once id)) (key_within id),
          v.keys id,
          tracked_apart id,
        );
        once = λ id. omega (arith, v.once id, tracked_apart id);
        ins = λ p. rw (f.in_messages, f.next_pointer) (ground (arith, v.ins p, in_places_apart p));
        outs =
            λ p. rw (f.out_messages, f.next_pointer) (ground (arith, v.outs p, out_places_apart p));
      })

  -- Where an op is in flight, Reply panics only if kernelResponse does: finishOp finds the request, and
  -- it is always there to be finished.
  pub reply-answered :
      (op : Op) (out : OutMessage) (e : Option OpError)
      → ((p : Protocol)
          → (r : Bool × OutMessage) × (kernel_response clock p
                (in_header s.in_msg.message).unique
                op
                e
                out
              ≡ done r))
      → (c2 : Connection) × (reply clock (served s op out) e c ≡ done c2)
  unfolding reply
  reply-answered op out e answers =
      let (c1, finished) = finish_op-tracked s c (key_within (in_header s.in_msg.message).unique) in
      let (r, answered) = answers c1.protocol in
      (send_response (served s op out) r c1, rw (finished, answered))

Step-IsSound :
    (unix : ℤ → ℕ → Time) (clock : Clock) (w w' : World)
    → Step unix clock w w'
    → IsSound w
    → IsSound w'
Step-IsSound unix clock w w' (take_message {c} {reading} {fl}) v =
    take_message-IsSound c reading fl v
Step-IsSound unix clock w w' (fill_message got) v = record {
  keys = v.keys;
  once = v.once;
  ins = v.ins;
  outs = v.outs;
}
Step-IsSound unix clock w w' (read_failed {c} {x} {reading} {fl}) v =
    read_failed-IsSound c x reading fl v
Step-IsSound unix clock w w' (op_handled {c} {c'} {x} {reading} {fl} h) v =
    op_handled-IsSound unix c c' x reading fl v h
Step-IsSound unix clock w w' (op_refused {c} {c'} {x} {reading} {fl} {e} h) v =
    op_refused-IsSound unix c c' x reading fl v e h
Step-IsSound unix clock w w' (op_ready {c} {c'} {x} {reading} {fl} {s} h) v =
    op_ready-IsSound unix c c' x reading fl v s h
Step-IsSound unix clock w w' (settled kernel h) v = record {
  keys = v.keys;
  once = v.once;
  ins = v.ins;
  outs = v.outs;
}
Step-IsSound unix clock w w' (replied {c} {c'} {reading} xs ys s op out e h) v =
    replied-IsSound clock c c' reading xs ys s v op out e h

pub Steps-IsSound :
    (unix : ℤ → ℕ → Time) (clock : Clock) (w w' : World)
    → Steps unix clock w w'
    → IsSound w
    → IsSound w'
Steps-IsSound unix clock w w' here v = v
Steps-IsSound unix clock w w'' (after {w' = w'} ss s) v =
    Step-IsSound unix clock w' w'' s (Steps-IsSound unix clock w w' ss v)

pub start-IsSound : IsSound (world new_connection [] [])
start-IsSound = record {
  keys = λ id. refl;
  once = λ id. omega arith;
  ins = λ p. (omega arith, λ h. refl);
  outs = λ p. (omega arith, λ h. refl);
}

-- Whatever the order in which requests are read, refused, interrupted and answered, from a new connection on, and
-- whenever Init settles the version of the protocol: the
-- requests that can be cancelled are those in flight, forgets apart; no two of these have the same
-- identifier; and no two of the messages in the free lists, in the hands of readMessage and with the ops in flight are
-- the same memory.
pub reached_world-IsSound :
    (unix : ℤ → ℕ → Time) (clock : Clock) (w : World)
    → Steps unix clock (world new_connection [] []) w
    → IsSound w
reached_world-IsSound unix clock w ss =
    Steps-IsSound unix clock (world new_connection [] []) w ss start-IsSound

-- In such a state an interrupt cancels its request if that is in flight and not a forget, and only then; it
-- changes nothing else.
pub handle_interrupt-IsSound :
    (w : World) (id : ℕ)
    → IsSound w
    → ((tracked id w.in_flight ≡ 1)
        × (handle_interrupt id w.connection
            ≡ record w.connection { cancelled = id ∷ w.connection.cancelled }))
      ⊎ ((tracked id w.in_flight ≡ 0) × (handle_interrupt id w.connection ≡ w.connection))
unfolding handle_interrupt
handle_interrupt-IsSound w id v = elim (Bool-cases (has_key id w.connection.cancel_funcs)) [
  | inl known ↦ inl (
    omega (arith, v.keys id, v.once id, has_key-positive id w.connection.cancel_funcs known),
    rw known,
  )
  | inr unknown ↦
      inr (omega (arith, v.keys id, has_key-count id w.connection.cancel_funcs unknown), rw unknown)
]
