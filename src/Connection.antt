-- ===== src/Connection.antt =====
-- connection.go, freelists.go and internal/freelist/freelist.go: the state of a connection, with the free
-- lists of its messages and the requests that can be cancelled. A function that takes the lock c.mu is
-- one step here.
pub mod Ops
pub mod Tracking
pub mod Steps
pub mod Turns
pub mod Sound
pub mod Reads
pub mod Arrival
pub mod Init
pub mod Answered
mod Tests
use fusego.Base.{
  ℕ, zero, suc, ◌+◌, Bool, true, false, not, Option, none, some, List, [], ◌∷◌, ◌++◌, ◌==◌,
  if◌then◌else◌, Outcome, done, panics, ◌>>=◌,
}
use fusego.Base.Int.{ℤ}
use fusego.Bytes.{Bytes}
use fusego.Fuseops.{Time}
use fusego.Fuseops.Ops.{Op, interrupt}
use fusego.Fusekernel.{Protocol, version}
use fusego.Fusekernel.Opcode
use fusego.Buffer.Incoming.{InMessage, InitError, new_in_message, init_message}
use fusego.Buffer.Outgoing.{OutMessage, new_out_message, reset, message_bytes}
use fusego.Conversions.{Converted, converted, corrupt, name_not_read, cannot_grow}
use fusego.Conversions.Fields.{InHeader, in_header}
use fusego.Conversions.Incoming.{convert_in_message}
use fusego.Conversions.Outgoing.{OpError, kernel_response}
use fusego.Conversions.Outgoing.Structs.{Clock}

-- A freelist; the last element is the head of the list.
abbrev pub Freelist {ℓ} : Type ℓ → Type ℓ
Freelist A = List A

-- `Get`: nil, or an element, with the list that is left.
abbrev pub get {ℓ} : {A : Type ℓ} → Freelist A → Option (A × Freelist A)
get [] = none
get (x ∷ xs) = some (x, xs)

-- `Put`
abbrev pub put_back {ℓ} : {A : Type ℓ} → A → Freelist A → Freelist A
put_back x xs = x ∷ xs

-- A message in memory: where it is, and what it holds. Nothing else refers to a message in a free list.
pub record Allocated {ℓ} (A : Type ℓ) : Type ℓ where
  pub pointer : ℕ
  pub message : A

-- The state that is kept for an op in flight, in the context that goes with it.
pub record OpState : Type 0 where
  pub in_msg : Allocated InMessage
  pub out_msg : Allocated OutMessage
  pub op : Op

-- `cancel_funcs` has the keys of the map of that name; `cancelled` has the identifiers of the requests
-- whose cancellation functions have been called, the last one first; `written` has the messages that have
-- been passed to write, the last one first; `next_pointer` is a place that no message has had so far.
pub record Connection : Type 0 where
  pub protocol : Protocol
  pub cancel_funcs : List ℕ
  pub in_messages : Freelist (Allocated InMessage)
  pub out_messages : Freelist (Allocated OutMessage)
  pub cancelled : List ℕ
  pub written : List Bytes
  pub next_pointer : ℕ

-- A connection before its Init.
abbrev pub new_connection : Connection
new_connection = record {
  protocol = version 0 0;
  cancel_funcs = [];
  in_messages = [];
  out_messages = [];
  cancelled = [];
  written = [];
  next_pointer = 0;
}

-- The storage of an InMessage, one page and the largest write; and the payload of an OutMessage. Both are
-- those of Linux, for pages of 4096 bytes.
abbrev pub in_size : ℕ
in_size = 135_168

abbrev pub max_read_size : ℕ
max_read_size = 131_072

unfoldable pub get_in_message : Connection → Allocated InMessage × Connection
get_in_message c = elim (get c.in_messages) [
  | none ↦ (
    record { pointer = c.next_pointer; message = new_in_message in_size },
    record c { next_pointer = suc c.next_pointer },
  )
  | some (x, rest) ↦ (x, record c { in_messages = rest })
]

unfoldable pub put_in_message : Allocated InMessage → Connection → Connection
put_in_message x c = record c { in_messages = put_back x c.in_messages }

-- The message that is returned has been reset.
unfoldable pub get_out_message : Connection → Allocated OutMessage × Connection
get_out_message c = elim (get c.out_messages) [
  | none ↦ (
    record { pointer = c.next_pointer; message = reset (new_out_message max_read_size) },
    record c { next_pointer = suc c.next_pointer },
  )
  | some (x, rest) ↦
      (record { pointer = x.pointer; message = reset x.message }, record c { out_messages = rest })
]

unfoldable pub put_out_message : Allocated OutMessage → Connection → Connection
put_out_message x c = record c { out_messages = put_back x c.out_messages }

-- `_, ok := m[id]` and `delete(m, id)`, on the keys.
unfoldable pub has_key : ℕ → List ℕ → Bool
has_key id [] = false
has_key id (k ∷ ks) = let later = has_key id ks in if k == id then true else later

unfoldable pub delete_key : ℕ → List ℕ → List ℕ
delete_key id [] = []
delete_key id (k ∷ ks) = let rest = delete_key id ks in if k == id then rest else k ∷ rest

-- `recordCancelFunc`
unfoldable pub record_cancel_func : ℕ → Connection → Outcome Connection
unfolding has_key
record_cancel_func fuse_id c =
    if has_key fuse_id c.cancel_funcs
    then panics
    else done (record c { cancel_funcs = fuse_id ∷ c.cancel_funcs })

-- `beginOp`
unfoldable pub begin_op : ℕ → ℕ → Connection → Outcome Connection
unfolding record_cancel_func
begin_op op_code fuse_id c =
    if op_code == Opcode.forget then done c else record_cancel_func fuse_id c

-- `finishOp`
unfoldable pub finish_op : ℕ → ℕ → Connection → Outcome Connection
unfolding has_key delete_key
finish_op op_code fuse_id c =
    if op_code == Opcode.forget
    then done c
    else if has_key fuse_id c.cancel_funcs
    then done (record c {
      cancel_funcs = delete_key fuse_id c.cancel_funcs;
      cancelled = fuse_id ∷ c.cancelled;
    })
    else panics

-- `handleInterrupt`
unfoldable pub handle_interrupt : ℕ → Connection → Connection
unfolding has_key
handle_interrupt fuse_id c =
    if has_key fuse_id c.cancel_funcs then record c { cancelled = fuse_id ∷ c.cancelled } else c
