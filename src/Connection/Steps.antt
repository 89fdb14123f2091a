-- ===== src/Connection/Steps.antt =====
-- The requests of a connection side by side: each step is a function of connection.go that takes the
-- lock, or that only the holder of a message can take. Any order of such steps can happen, with any
-- number of requests in flight.
use fusego.Base.{ℕ, ◌+◌, ◌≤◌, ◌≡◌, Option, List, false, ◌∷◌, ◌++◌, done}
use fusego.Base.Int.{ℤ}
use fusego.Bytes.{Bytes}
use fusego.Fuseops.{Time}
use fusego.Fuseops.Ops.{Op}
use fusego.Buffer.Incoming.{InMessage, init_message}
use fusego.Buffer.Outgoing.{OutMessage}
use fusego.Conversions.Outgoing.{OpError}
use fusego.Conversions.Outgoing.Structs.{Clock}
use fusego.Fusekernel.{Protocol, lt, proto_version_min}
use fusego.Connection.Init.{negotiated}
use fusego.Connection.{Connection, OpState, Allocated, get_in_message, put_in_message}
use fusego.Connection.Ops.{ReadError, handled, refused, ready, convert_turn, reply}
use fusego.Connection.Tracking.{count, places, tracked, in_places, out_places}

-- The connection, the messages that are being read, and the ops in flight.
pub record World : Type 0 where
  pub connection : Connection
  pub reading : List (Allocated InMessage)
  pub in_flight : List OpState

abbrev pub world : Connection → List (Allocated InMessage) → List OpState → World
world c reading in_flight = record { connection = c; reading = reading; in_flight = in_flight }

-- The op in flight as the file system has left it: the fields of the op, and what it wrote to the buffer for the
-- reply, may be others.
abbrev pub served : OpState → Op → OutMessage → OpState
served s op out = record {
  in_msg = s.in_msg;
  out_msg = record { pointer = s.out_msg.pointer; message = out };
  op = op;
}

pub data Step (unix : ℤ → ℕ → Time) (clock : Clock) : World → World → Type 0 where
  -- readMessage takes a message, reads into it, and puts it back after an error.
  take_message :
      {c : Connection} {reading : List (Allocated InMessage)} {fl : List OpState}
      → Step unix clock
          (world c reading fl)
          (world (get_in_message c).1 ((get_in_message c).0 ∷ reading) fl)
  fill_message :
      {c : Connection} {x : Allocated InMessage} {reading : List (Allocated InMessage)}
      {fl : List OpState} (got : Option Bytes)
      → Step unix clock (world c (x ∷ reading) fl) (
          world c
            (record { pointer = x.pointer; message = (init_message got x.message).1 } ∷ reading)
            fl)
  read_failed :
      {c : Connection} {x : Allocated InMessage} {reading : List (Allocated InMessage)}
      {fl : List OpState}
      → Step unix clock (world c (x ∷ reading) fl) (world (put_in_message x c) reading fl)
  -- ReadOp makes an op of the message.
  op_handled :
      {c c' : Connection} {x : Allocated InMessage} {reading : List (Allocated InMessage)}
      {fl : List OpState}
      → convert_turn unix x c ≡ done (handled c')
      → Step unix clock (world c (x ∷ reading) fl) (world c' reading fl)
  op_refused :
      {c c' : Connection} {x : Allocated InMessage} {reading : List (Allocated InMessage)}
      {fl : List OpState} {e : ReadError}
      → convert_turn unix x c ≡ done (refused e c')
      → Step unix clock (world c (x ∷ reading) fl) (world c' reading fl)
  op_ready :
      {c c' : Connection} {x : Allocated InMessage} {reading : List (Allocated InMessage)}
      {fl : List OpState} {s : OpState}
      → convert_turn unix x c ≡ done (ready s c')
      → Step unix clock (world c (x ∷ reading) fl) (world c' reading (s ∷ fl))
  -- Init settles the version of the protocol, for a kernel that is not too old.
  settled :
      {c : Connection} {reading : List (Allocated InMessage)} {fl : List OpState}
      (kernel : Protocol)
      → lt kernel proto_version_min ≡ false
      → Step unix clock
          (world c reading fl)
          (world (record c { protocol = negotiated kernel }) reading fl)
  -- Reply.
  replied :
      {c c' : Connection} {reading : List (Allocated InMessage)} (xs ys : List OpState)
      (s : OpState) (op : Op) (out : OutMessage) (e : Option OpError)
      → reply clock (served s op out) e c ≡ done c'
      → Step unix clock (world c reading (xs ++ (s ∷ ys))) (world c' reading (xs ++ ys))

-- Any number of steps.
pub data Steps (unix : ℤ → ℕ → Time) (clock : Clock) : World → World → Type 0 where
  here : {w : World} → Steps unix clock w w
  after :
      {w w' w'' : World} → Steps unix clock w w' → Step unix clock w' w'' → Steps unix clock w w''

-- No place is in use twice, and a place that has not been given out is not in use.
abbrev pub InPlace : ℕ → (ℕ → ℕ) → Type 0
InPlace next n = (p : ℕ) → (n p ≤ 1) × (next ≤ p → n p ≡ 0)

-- The requests that can be cancelled are those in flight, forgets apart, and no two of them have the same
-- identifier; and each message is in one place: a free list, in the hands of ReadOp, or with an op in flight.
pub record IsSound (w : World) : Type 0 where
  pub keys : (id : ℕ) → count id w.connection.cancel_funcs ≡ tracked id w.in_flight
  pub once : (id : ℕ) → tracked id w.in_flight ≤ 1
  pub ins :
      InPlace w.connection.next_pointer
        (λ p. places p w.connection.in_messages + (places p w.reading + in_places p w.in_flight))
  pub outs :
      InPlace w.connection.next_pointer
        (λ p. places p w.connection.out_messages + out_places p w.in_flight)
