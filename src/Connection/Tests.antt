-- ===== src/Connection/Tests.antt =====
-- A connection with one request in flight, and one that is set up.
use fusego.Base.{
  ℕ, ◌+◌, ◌-◌, ◌^◌, ◌≡◌, refl, true, false, none, some, [], ◌∷◌, ◌++◌, arith, List, panics, done,
  ◌⊎◌, length,
}
use fusego.Bytes.{le_bytes, le_value}
use fusego.Fusekernel.{version, lt, proto_version_min, proto_version_max}
use fusego.Buffer.Incoming.{InMessage, init_message}
use fusego.Buffer.Outgoing.{new_out_message}
use fusego.Conversions.Fields.{InHeader, in_header}
use fusego.Conversions.Requests
use fusego.Conversions.Requests.{Request, packet, header_bytes}
use fusego.Conversions.Requests.Received.{header_of}
use fusego.Conversions.Outgoing.{errno}
use fusego.Conversions.Outgoing.Answers.{answer}
use fusego.Conversions.Outgoing.Replies.{reply_header}
use fusego.Conversions.Tests.{unix_time, clock, opened, unread}
use fusego.Connection.{
  Connection, OpState, Allocated, new_connection, get_in_message, put_in_message, handle_interrupt,
}
use fusego.Connection.Ops.{
  Read, Reading, delivered, interrupted, no_device, error, eof, read_op, read_message, read_into,
  reply,
}
use fusego.Connection.Tracking.{tracked}
use fusego.Connection.Steps.{
  world, served, here, after, settled, take_message, fill_message, read_failed, IsSound,
}
use fusego.Connection.Sound.{reached_world-IsSound, handle_interrupt-IsSound}
use fusego.Connection.Reads.{OpArrives, Ended, read_op-Steps, read_op-Ended}
use fusego.Connection.Answered.{reply-served, reply-failed}
use fusego.Connection.Init.{MountConfig, initialised, negotiated, init_connection}
use fusego.Connection.Init.Handshake.{greeting, init_connection-packet, negotiated-bounds}
use fusego.Server.{serve_op}
use fusego.Server.NotImplemented.{not_implemented_file_system, serve_op-not_implemented}

-- The request to open inode 5 has the identifier 7.
abbrev header : InHeader
header = record { opcode = 14; unique = 7; nodeid = 5; pid = 42 }

abbrev in_flight : OpState
in_flight = record {
  in_msg = record {
    pointer = 0;
    message = record { remaining = []; storage = header_bytes 40 unread header };
  };
  out_msg = record { pointer = 1; message = new_out_message 300 };
  op = opened;
}

abbrev busy : Connection
busy = record {
  protocol = version 7 12;
  cancel_funcs = 7 ∷ [];
  in_messages = [];
  out_messages = [];
  cancelled = [];
  written = [];
  next_pointer = 2;
}

busy-IsSound : IsSound (world busy [] (in_flight ∷ []))
unfolding in_header le_bytes le_value
busy-IsSound = record {
  keys = λ id. refl;
  once = λ id. ground arith;
  ins = λ p. ground arith;
  outs = λ p. ground arith;
}

handle_interrupt-IsSound_example :
    ((tracked 7 (in_flight ∷ []) ≡ 1)
      × (handle_interrupt 7 busy ≡ record busy { cancelled = 7 ∷ [] }))
    ⊎ ((tracked 7 (in_flight ∷ []) ≡ 0) × (handle_interrupt 7 busy ≡ busy))
handle_interrupt-IsSound_example =
    handle_interrupt-IsSound (world busy [] (in_flight ∷ [])) 7 busy-IsSound

reply-served_example :
    (c' : Connection) × (reply clock (served in_flight opened (new_out_message 300)) none busy
      ≡ done c')
    × (c'.protocol ≡ version 7 12)
    × (c'.written
        ≡ (reply_header
              (16 + length (answer clock (version 7 12) opened (new_out_message 300).payload))
              0
              7
            ++ answer clock (version 7 12) opened (new_out_message 300).payload)
          ∷ [])
unfolding new_out_message in_header le_bytes le_value
reply-served_example =
    reply-served clock busy [] [] [] in_flight busy-IsSound opened (new_out_message 300) refl
      (omega arith) refl tt

reply-failed_example :
    (c' : Connection) × (reply clock
        (served in_flight opened (new_out_message 300))
        (some (errno 2))
        busy
      ≡ done c')
    × (c'.written ≡ reply_header 16 (2 ^ 32 - 2) 7 ∷ [])
unfolding new_out_message in_header le_bytes le_value
reply-failed_example =
    reply-failed clock busy [] [] [] in_flight busy-IsSound opened (new_out_message 300) refl
      (errno 2) refl

serve_op-not_implemented_example :
    (c' : Connection) × (serve_op {S = ℕ} not_implemented_file_system clock in_flight 3 busy
      ≡ done (3, c'))
    × (c'.written ≡ reply_header 16 (2 ^ 32 - 38) 7 ∷ [])
unfolding new_out_message in_header le_bytes le_value
serve_op-not_implemented_example =
    serve_op-not_implemented {S = ℕ} clock busy [] [] [] in_flight busy-IsSound 3 refl refl

-- A message is taken, gets a read that is too short, is put back, and is taken again; and the version of the protocol is settled.
abbrev first : Allocated InMessage
first = (get_in_message new_connection).0

abbrev put_aside : Connection
put_aside =
    put_in_message
      (record {
        pointer = first.pointer;
        message = (init_message (some (1 ∷ 2 ∷ [])) first.message).1;
      })
      (get_in_message new_connection).1

reached_world-IsSound_example : IsSound (
    world
      (record ((get_in_message put_aside).1) { protocol = version 7 10 })
      ((get_in_message put_aside).0 ∷ [])
      [])
unfolding lt
reached_world-IsSound_example =
    reached_world-IsSound unix_time clock
      (world (record ((get_in_message put_aside).1) { protocol = version 7 10 })
        ((get_in_message put_aside).0 ∷ []) [])
      (after
        (after
          (after (after (after here take_message) (fill_message (some (1 ∷ 2 ∷ [])))) read_failed)
          take_message)
        (settled (version 7 10) refl))

-- A read that is interrupted, and the end of the connection.
abbrev ended : Reading OpState
ended = error eof (put_in_message first (get_in_message new_connection).1) []

read_op-Steps_example : OpArrives unix_time clock [] [] (world new_connection [] []) ended
unfolding read_op read_message read_into
read_op-Steps_example =
    read_op-Steps unix_time clock [] [] 3 (interrupted ∷ no_device ∷ []) new_connection ended refl

abbrev last_reads : List Read
last_reads = interrupted ∷ no_device ∷ []

read_op-Ended_example :
    (read_op unix_time 5 last_reads new_connection ≡ read_op unix_time 3 last_reads new_connection)
    × ((read_op unix_time 5 last_reads new_connection ≡ panics)
        ⊎ ((r : Reading OpState) × (read_op unix_time 5 last_reads new_connection ≡ done r)
            × Ended r))
read_op-Ended_example = read_op-Ended unix_time 5 last_reads new_connection (omega arith)

abbrev reading : Request
reading = Requests.read 9 4096 512

abbrev config : MountConfig
config = record {
  disable_writeback_caching = false;
  enable_symlink_caching = true;
  enable_no_open_support = false;
  enable_no_opendir_support = false;
}

init_connection-packet_example :
    (c' : Connection) × (init_connection unix_time clock config 1
        (delivered (
            packet
              (version 0 0)
              unread
              (header_of 7 0 0 (Requests.init 7 31 65536 8388608))
              (Requests.init 7 31 65536 8388608))
          ∷ [])
        new_connection
      ≡ done (initialised c'))
    × (c'.protocol ≡ version 7 12)
    × (c'.written ≡ greeting config 7 7 31 8388608 ∷ [])
unfolding lt
init_connection-packet_example =
    init_connection-packet unix_time clock config unread 7 0 0 [] 7 31 65536 8388608 0
      (omega arith, omega arith, omega arith, omega arith)
      (omega arith, omega arith, omega arith, omega arith) refl

negotiated-bounds_example :
    (lt (negotiated (version 7 10)) proto_version_min ≡ false)
    × (lt proto_version_max (negotiated (version 7 10)) ≡ false)
    × (lt (version 7 10) (negotiated (version 7 10)) ≡ false)
unfolding lt
negotiated-bounds_example = negotiated-bounds (version 7 10) refl
