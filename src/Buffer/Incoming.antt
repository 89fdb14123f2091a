-- ===== src/Buffer/Incoming.antt =====
-- internal/buffer/in_message.go. What a read from the device delivers is an argument; `remaining` is the
-- slice of the storage that has not been consumed, as its bytes. Nothing writes through a slice that has
-- been handed out, until the next Init.
pub mod Consuming
use fusego.Base.{
  ℕ, ◌+◌, ◌-◌, Bool, true, false, not, ◌||◌, Option, none, some, List, [], ◌++◌, ltb, ◌==◌,
  if◌then◌else◌, length, take, drop, replicate,
}
use fusego.Bytes.{Bytes, le_value}

pub record InMessage : Type 0 where
  pub remaining : Bytes
  pub storage : Bytes

-- `unsafe.Sizeof(fusekernel.InHeader{})`: two uint32, two uint64 and four uint32.
abbrev pub in_header_size : ℕ
in_header_size = 40

-- `new(buffer.InMessage)`, with a storage of `size` bytes.
unfoldable pub new_in_message : ℕ → InMessage
new_in_message size = record { remaining = []; storage = replicate size 0 }

-- The errors of Init: that of the reader, the number of bytes of a read that is too short, and the two
-- lengths that do not agree.
pub data InitError : Type 0 where
  read_failed : InitError
  short_read : ℕ → InitError
  wrong_length : ℕ → ℕ → InitError

-- The field Len of the header, a uint32 at the front of the storage.
abbrev pub header_len : Bytes → ℕ
header_len storage = le_value (take 4 storage)

-- `Init`, where the reader delivers `got`, or an error.
unfoldable pub init_message : Option Bytes → InMessage → Option InitError × InMessage
init_message none m = (some read_failed, m)
init_message (some got) m =
    let n = length got in
    let storage' = got ++ drop n m.storage in
    let sliced : InMessage = record {
      remaining = take (n - in_header_size) (drop in_header_size storage');
      storage = storage';
    } in
    if ltb n in_header_size
    then (some (short_read n), record m { storage = storage' })
    else if not (header_len storage' == n)
    then (some (wrong_length (header_len storage') n), sliced)
    else (none, sliced)

-- The pointer that Consume returns stands for the `n` bytes behind it; nil is `none`.
unfoldable pub consume : ℕ → InMessage → Option Bytes × InMessage
consume n m =
    if length m.remaining == 0 || ltb (length m.remaining) n
    then (none, m)
    else (some (take n m.remaining), record m { remaining = drop n m.remaining })

unfoldable pub consume_bytes : ℕ → InMessage → Option Bytes × InMessage
consume_bytes n m =
    if ltb (length m.remaining) n
    then (none, m)
    else (some (take n m.remaining), record m { remaining = drop n m.remaining })
