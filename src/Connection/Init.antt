-- ===== src/Connection/Init.antt =====
-- connection.go, Init, with the fields of MountConfig (mount_config.go) that it reads; and
-- shouldLogError.
pub mod Handshake
use fusego.Base.{
  ℕ, ◌+◌, ◌^◌, Bool, true, false, not, ◌&&◌, ◌||◌, Option, none, some, List, if◌then◌else◌, ◌==◌,
  Outcome, done, ◌>>=◌,
}
use fusego.Base.Int.{ℤ}
use fusego.Fuseops.{Time}
use fusego.Fuseops.FileMode.{has_bit}
use fusego.Fuseops.Ops
use fusego.Fuseops.Ops.{Op, InitOp}
use fusego.Fusekernel.{Protocol, lt, proto_version_min, proto_version_max}
use fusego.Conversions.Outgoing.{OpError, errno, other}
use fusego.Conversions.Outgoing.Structs.{Clock}
use fusego.Connection.{Connection, OpState}
use fusego.Connection.Ops.{Read, ReadError, Reading, got, error, blocked, no_fuel, read_op, reply}

pub record MountConfig : Type 0 where
  pub disable_writeback_caching : Bool
  pub enable_symlink_caching : Bool
  pub enable_no_open_support : Bool
  pub enable_no_opendir_support : Bool

-- How Init ends: with the connection set up, or with an error, which is that of ReadOp, or says that the first op is no
-- init, or that the kernel is too old.
pub data InitResult : Type 0 where
  initialised : Connection → InitResult
  init_read_failed : ReadError → InitResult
  init_waits : InitResult
  not_init : Op → Connection → InitResult
  too_old : Protocol → Connection → InitResult

-- The version that is agreed on.
abbrev pub negotiated : Protocol → Protocol
negotiated kernel = if lt kernel proto_version_max then kernel else proto_version_max

-- The flags of the reply, each of them one bit: InitBigWrites, InitWritebackCache, InitCacheSymlinks,
-- InitNoOpenSupport and InitNoOpendirSupport. `offered` has those of the kernel.
unfoldable pub init_flags : MountConfig → ℕ → ℕ
init_flags cfg offered =
    2 ^ 5
    + (if not cfg.disable_writeback_caching then 2 ^ 16 else 0)
    + (if cfg.enable_symlink_caching && has_bit offered 23 then 2 ^ 23 else 0)
    + (if cfg.enable_no_open_support && has_bit offered 17 then 2 ^ 17 else 0)
    + (if cfg.enable_no_opendir_support && has_bit offered 24 then 2 ^ 24 else 0)

-- maxReadahead, and MaxWriteSize on Linux.
abbrev pub max_readahead : ℕ
max_readahead = 2 ^ 20

abbrev pub max_write_size : ℕ
max_write_size = 2 ^ 17

-- The op with the fields that Init fills in.
abbrev pub init_answer : MountConfig → InitOp → InitOp
init_answer cfg o = record {
  kernel = o.kernel;
  flags = init_flags cfg o.flags;
  library = negotiated o.kernel;
  max_readahead = max_readahead;
  max_write = max_write_size;
}

-- EPROTO has the number 71.
abbrev pub eproto : OpError
eproto = errno 71

-- The end of Init, for the first op.
unfoldable pub init_with : Clock → MountConfig → OpState → Op → Connection → Outcome InitResult
unfolding reply init_flags
init_with clock cfg s (Ops.init o) c =
    if lt o.kernel proto_version_min
    then (reply clock s (some eproto) c >>= λ c'. done (too_old o.kernel c'))
    else (reply clock (record s { op = Ops.init (init_answer cfg o) }) none
          (record c { protocol = negotiated o.kernel })
        >>= λ c'. done (initialised c'))
init_with clock cfg s op c = reply clock s (some eproto) c >>= λ c'. done (not_init op c')

abbrev pub init_after : Clock → MountConfig → Reading OpState → Outcome InitResult
init_after clock cfg no_fuel = done init_waits
init_after clock cfg blocked = done init_waits
init_after clock cfg (error e c reads) = done (init_read_failed e)
init_after clock cfg (got s c reads) = init_with clock cfg s s.op c

-- `Init`
unfoldable pub init_connection :
    (ℤ → ℕ → Time) → Clock → MountConfig → ℕ → List Read → Connection → Outcome InitResult
unfolding read_op init_with
init_connection unix clock cfg fuel reads c = read_op unix fuel reads c >>= init_after clock cfg

-- `shouldLogError`, where `logs` says that there is an error logger. The numbers are those of ENOENT,
-- ENODATA, ERANGE and ENOSYS.
abbrev pub is_errno : ℕ → OpError → Bool
is_errno n (errno k) = k == n
is_errno n other = false

unfoldable pub expected_error : Op → OpError → Bool
expected_error (Ops.look_up_inode o) e = is_errno 2 e
expected_error (Ops.get_xattr o) e = is_errno 61 e || is_errno 34 e
expected_error (Ops.unknown o) e = is_errno 38 e
expected_error _ e = false

unfoldable pub should_log_error : Bool → Op → Option OpError → Bool
unfolding expected_error
should_log_error logs op none = false
should_log_error logs op (some e) = if not logs then false else not (expected_error op e)
