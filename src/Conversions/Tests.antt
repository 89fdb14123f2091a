-- ===== src/Conversions/Tests.antt =====
-- Requests and replies on small inputs.
use fusego.Base.{
  ℕ, ◌+◌, ◌*◌, ◌-◌, ◌^◌, ◌≡◌, refl, true, false, none, some, [], ◌∷◌, ◌++◌, arith, done, panics,
  length,
}
use fusego.Base.Int.{ℤ, pos, negsuc}
use fusego.Fuseops.{Time, ChildInodeEntry}
use fusego.Fuseops.Ops
use fusego.Fuseops.Ops.{Op}
use fusego.Fusekernel.{Protocol, version}
use fusego.Fusekernel.Opcode
use fusego.Buffer.Outgoing.{OutMessage, new_out_message, message_bytes}
use fusego.Conversions.Fields.{nul_index, u32_at, u64_at}
use fusego.Conversions.Mode.{unix_mode_of}
use fusego.Conversions.Incoming.Names.{convert_symlink}
use fusego.Conversions.Requests
use fusego.Conversions.Requests.{Unread, Request, opcode_of, IsName, nul}
use fusego.Conversions.Requests.Reading.{holding}
use fusego.Conversions.Requests.Received.{header_of}
use fusego.Conversions.Requests.Received.Refused.{convert_symlink-one_nul}
use fusego.Conversions.Outgoing.{errno, kernel_response}
use fusego.Conversions.Outgoing.Structs.{Clock, entry_bytes}
use fusego.Conversions.Outgoing.Answers.{answer}
use fusego.Conversions.Outgoing.Replies.{
  reply_header, kernel_response-served, kernel_response-failed, entry_bytes-fields, TimeAt,
}

-- time.Unix, for a time that is not before 1970, and the clock.
abbrev pub unix_time : ℤ → ℕ → Time
unix_time (pos s) n = s * 1_000_000_000 + n
unix_time (negsuc s) n = n

abbrev pub clock : Clock
clock = record { unix_nano = pos; from_now = λ k t. pos t }

abbrev protocol : Protocol
protocol = version 7 12

-- What the program does not look at has arbitrary values.
abbrev pub unread : Unread
unread = record {
  caller_uid = 501;
  caller_gid = 20;
  uid = 502;
  gid = 21;
  ctime = 77;
  ctimensec = 78;
  lock_owner = 79;
  fh = 80;
  flags = 32_769;
  more_flags = 3;
}

abbrev renaming : Request
renaming = Requests.rename 5 (97 ∷ []) (98 ∷ 99 ∷ [])

convert_symlink-one_nul_example :
    convert_symlink
      (header_of 7 1 42 renaming)
      (holding [] ((97 ∷ 98 ∷ []) ++ nul))
      (new_out_message 4)
    ≡ panics
unfolding nul_index
convert_symlink-one_nul_example =
    convert_symlink-one_nul (header_of 7 1 42 renaming) (97 ∷ 98 ∷ []) [] (new_out_message 4) refl

abbrev pub opened : Op
opened =
    Ops.open_file
      (record { pid = 42; inode = 5; handle = 9; keep_page_cache = true; use_direct_io = false })

kernel_response-served_example :
    (m' : OutMessage) × (kernel_response clock protocol 7 opened none (new_out_message 300)
      ≡ done (false, m'))
    × (message_bytes m'
        ≡ reply_header
            (16 + length (answer clock protocol opened (new_out_message 300).payload))
            0
            7
          ++ answer clock protocol opened (new_out_message 300).payload)
unfolding new_out_message
kernel_response-served_example =
    kernel_response-served (new_out_message 300) refl 7 clock protocol opened (omega arith) refl tt

kernel_response-failed_example :
    (m' : OutMessage) × (kernel_response clock protocol 7 opened
        (some (errno 2))
        (new_out_message 300)
      ≡ done (false, m'))
    × (message_bytes m' ≡ reply_header 16 (2 ^ 32 - 2) 7)
unfolding new_out_message
kernel_response-failed_example =
    kernel_response-failed (new_out_message 300) refl 7 clock protocol opened (errno 2) refl

abbrev entry : ChildInodeEntry
entry = record {
  child = 5;
  generation = 1;
  attributes = record {
    size = 10;
    nlink = 1;
    mode = 420;
    atime = 6_000_000_007;
    mtime = 8;
    ctime = 9;
    crtime = 0;
    uid = 501;
    gid = 20;
  };
  attributes_expiration = 3;
  entry_expiration = 4;
}

entry_bytes-fields_example :
    (u64_at 0 (entry_bytes clock entry) ≡ 5)
    × (u64_at 8 (entry_bytes clock entry) ≡ 1)
    × TimeAt (entry_bytes clock entry) 16 32 4
    × TimeAt (entry_bytes clock entry) 24 36 3
    × (u64_at 40 (entry_bytes clock entry) ≡ 5)
    × (u64_at 48 (entry_bytes clock entry) ≡ 10)
    × TimeAt (entry_bytes clock entry) 64 88 6_000_000_007
    × TimeAt (entry_bytes clock entry) 72 92 8
    × TimeAt (entry_bytes clock entry) 80 96 9
    × (u32_at 100 (entry_bytes clock entry) ≡ unix_mode_of 420)
    × (u32_at 104 (entry_bytes clock entry) ≡ 1)
    × (u32_at 108 (entry_bytes clock entry) ≡ 501)
    × (u32_at 112 (entry_bytes clock entry) ≡ 20)
unfolding unix_mode_of
entry_bytes-fields_example = entry_bytes-fields clock entry 6_000_000_007 8 9 4 3 (record {
  inode = omega arith;
  generation = omega arith;
  size = omega arith;
  mode = omega arith;
  nlink = omega arith;
  uid = omega arith;
  gid = omega arith;
  accessed = (refl, omega arith);
  modified = (refl, omega arith);
  changed = (refl, omega arith);
  entry_valid = (refl, omega arith);
  attr_valid = (refl, omega arith);
})
