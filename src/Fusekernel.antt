-- ===== src/Fusekernel.antt =====
-- internal/fusekernel: versions of the protocol, the numbers of its requests, and the sizes of its
-- structs, which are laid out as C does on a 64-bit Linux machine.
pub mod Opcode
pub mod Sizes
use fusego.Base.{ℕ, Bool, ◌&&◌, ◌||◌, ltb, leb, ◌==◌}

pub record Protocol : Type 0 where
  pub major : ℕ
  pub minor : ℕ

-- `LT`
unfoldable pub lt : Protocol → Protocol → Bool
lt a b = ltb a.major b.major || (a.major == b.major && ltb a.minor b.minor)

-- `GE`
unfoldable pub ge : Protocol → Protocol → Bool
ge a b = ltb b.major a.major || (a.major == b.major && leb b.minor a.minor)

abbrev pub version : ℕ → ℕ → Protocol
version major minor = record { major = major; minor = minor }

-- `ProtoVersionMinMajor`, `ProtoVersionMinMinor` and the two for the newest version.
abbrev pub proto_version_min : Protocol
proto_version_min = version 7 8

abbrev pub proto_version_max : Protocol
proto_version_max = version 7 12

-- `is79`, which is also HasAttrBlockSize, HasReadWriteFlags and HasGetattrFlags.
unfoldable pub is_79 : Protocol → Bool
is_79 a = ge a (version 7 9)

-- `is710`, which is also HasOpenNonSeekable.
unfoldable pub is_710 : Protocol → Bool
is_710 a = ge a (version 7 10)

-- `is712`, which is also HasUmask and HasInvalidate.
unfoldable pub is_712 : Protocol → Bool
is_712 a = ge a (version 7 12)
