-- ===== src/Connection/Init/Handshake.antt =====
-- Init, on the first message of a kernel.
use fusego.Base.{
  ℕ, suc, ◌≡◌, refl, ap, inl, inr, true, false, List, [], ◌∷◌, ◌++◌, arith, done, Bool-cases, ◌∙◌,
  ◌+◌, Bool, not, ◌&&◌, ◌||◌, ◌==◌, ltb, if◌then◌else◌,
}
use fusego.Base.Int.{ℤ}
use fusego.Bytes.{Bytes, le_bytes}
use fusego.Fuseops.{Time}
use fusego.Fuseops.Ops
use fusego.Fuseops.Ops.{Op}
use fusego.Fuseops.FileMode.{has_bit}
use fusego.Fusekernel.{Protocol, lt, version, proto_version_min, proto_version_max}
use fusego.Conversions.Fields.{in_header}
use fusego.Conversions.Requests.{Unread, IsHeader, IsRequest, packet}
use fusego.Conversions.Requests
use fusego.Conversions.Requests.Received.{header_of}
use fusego.Conversions.Outgoing.Structs.{Clock, init_bytes}
use fusego.Conversions.Outgoing.Replies.{reply_header}
use fusego.Connection.{Connection, new_connection}
use fusego.Connection.Ops.{Read, delivered, got}
use fusego.Connection.Steps.{world, IsSound}
use fusego.Connection.Sound.{Steps-IsSound, start-IsSound}
use fusego.Connection.Reads.{read_op-Steps}
use fusego.Connection.Arrival.{read_op-packet}
use fusego.Connection.Answered.{reply-served}
use fusego.Connection.Init.{
  MountConfig, initialised, negotiated, init_flags, init_with, init_connection, max_readahead,
  max_write_size,
}

lt_asym : (a b : Protocol) → lt a b ≡ true → lt b a ≡ false
unfolding lt
lt_asym a b h = ground arith

lt_irrefl : (a : Protocol) → lt a a ≡ false
unfolding lt
lt_irrefl a = ground arith

-- The version that is agreed on lies within those of this library, and is not newer than the kernel's, for a kernel that
-- is not too old.
pub negotiated-bounds :
    (kernel : Protocol)
    → lt kernel proto_version_min ≡ false
    → (lt (negotiated kernel) proto_version_min ≡ false)
      × (lt proto_version_max (negotiated kernel) ≡ false)
      × (lt kernel (negotiated kernel) ≡ false)
unfolding lt
negotiated-bounds kernel h = elim (Bool-cases (lt kernel proto_version_max)) [
  | inl older ↦ rw older (h, lt_asym kernel proto_version_max older, lt_irrefl kernel)
  | inr newer ↦ rw newer (refl, refl, newer)
]

-- The version of the kernel, or 7.12 for a newer one.
abbrev pub agreed : ℕ → ℕ → Protocol
agreed major minor =
    if ltb major 7 || (major == 7 && ltb minor 12) then version major minor else version 7 12

abbrev pub flag_if : Bool → ℕ → ℕ
flag_if wanted flag = if wanted then flag else 0

-- The flags of fuse.h that are asked for: FUSE_BIG_WRITES always, FUSE_WRITEBACK_CACHE unless it has been
-- disabled, and FUSE_NO_OPEN_SUPPORT, FUSE_CACHE_SYMLINKS and FUSE_NO_OPENDIR_SUPPORT where they have been enabled
-- and the kernel offers them.
abbrev pub wanted_flags : MountConfig → ℕ → ℕ
wanted_flags cfg offered =
    0x20
    + flag_if (not cfg.disable_writeback_caching) 0x10000
    + flag_if (cfg.enable_symlink_caching && has_bit offered 23) 0x800000
    + flag_if (cfg.enable_no_open_support && has_bit offered 17) 0x20000
    + flag_if (cfg.enable_no_opendir_support && has_bit offered 24) 0x1000000

-- The reply to an init as fuse.h has it, for a kernel that is not too old: a header, the version that is agreed on, a
-- readahead of one MiB, the flags, and writes of up to 128 KiB.
abbrev pub greeting : MountConfig → ℕ → ℕ → ℕ → ℕ → Bytes
greeting cfg unique major minor flags =
    reply_header 40 0 unique
    ++ (le_bytes 4 (agreed major minor).major
        ++ (le_bytes 4 (agreed major minor).minor
            ++ (le_bytes 4 1_048_576
                ++ (le_bytes 4 (wanted_flags cfg flags) ++ (le_bytes 4 0 ++ le_bytes 4 131_072)))))

negotiated-agreed : (major minor : ℕ) → negotiated (version major minor) ≡ agreed major minor
unfolding lt
negotiated-agreed major minor = ground arith

init_flags-wanted :
    (cfg : MountConfig) (offered : ℕ) → init_flags cfg offered ≡ wanted_flags cfg offered
unfolding init_flags
init_flags-wanted cfg offered = refl

module _ (unix : ℤ → ℕ → Time) (clock : Clock) (cfg : MountConfig) (x : Unread)
    (unique node pid : ℕ) (reads : List Read) where
  -- A new connection to which the kernel's first message is an init, as fuse.h writes it, of a version that is not too old:
  -- Init sets the connection up for the version that is agreed on, and writes one message, the reply with that version, with the flags that
  -- the configuration and the kernel allow and with the limits of this library.
  pub init_connection-packet :
      (major minor readahead flags fuel : ℕ)
      → IsRequest (Requests.init major minor readahead flags)
      → IsHeader (header_of unique node pid (Requests.init major minor readahead flags))
      → lt (version major minor) proto_version_min ≡ false
      → (c' : Connection) × (init_connection unix clock cfg
            (suc fuel)
            (delivered (
                packet
                  (version 0 0)
                  x
                  (header_of unique node pid (Requests.init major minor readahead flags))
                  (Requests.init major minor readahead flags))
              ∷ reads)
            new_connection
          ≡ done (initialised c'))
        × (c'.protocol ≡ agreed major minor)
        × (c'.written ≡ greeting cfg unique major minor flags ∷ [])
  unfolding init_connection init_with le_bytes init_bytes
  init_connection-packet major minor readahead flags fuel h in_range new_enough =
      let r = Requests.init major minor readahead flags in
      let (s, c, arrived, same_op, header, at_start, zeroed, size, written) =
        read_op-packet unix new_connection x unique node pid reads r fuel h in_range (omega arith)
          tt (omega arith) tt refl in
      let same_id : (in_header s.in_msg.message).unique ≡ unique = ap (λ x. x.unique) header in
      let v : IsSound (world c [] (s ∷ [])) =
        Steps-IsSound unix clock (world new_connection [] []) (world c [] (s ∷ []))
          (read_op-Steps unix clock [] [] (suc fuel)
            (delivered (packet (version 0 0) x (header_of unique node pid r) r) ∷ reads)
            new_connection (got s c reads) arrived)
          start-IsSound in
      let c1 : Connection = record c { protocol = negotiated (version major minor) } in
      let v1 : IsSound (world c1 [] (s ∷ [])) = record {
        keys = v.keys;
        once = v.once;
        ins = v.ins;
        outs = v.outs;
      } in
      let answer : Op = Ops.init (record {
        kernel = version major minor;
        flags = init_flags cfg flags;
        library = negotiated (version major minor);
        max_readahead = max_readahead;
        max_write = max_write_size;
      }) in
      let (c', replied, settled, sent) =
        reply-served clock c1 [] [] [] s v1 answer s.out_msg.message zeroed (omega (arith, size))
          at_start tt in
      (
        c',
        rw (init_connection, arrived, init_with, same_op, new_enough, replied),
        settled ∙ negotiated-agreed major minor,
        rw (sent, same_id, written, negotiated-agreed major minor, init_flags-wanted cfg flags),
      )
