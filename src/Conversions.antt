-- ===== src/Conversions.antt =====
-- conversions.go: requests of the kernel as ops, and ops that have been served as replies.
pub mod Fields
pub mod Mode
pub mod Incoming
pub mod Requests
pub mod Outgoing
pub mod Tests
use fusego.Base.{ℕ}
use fusego.Fuseops.{InodeAttributes, ChildInodeEntry}
use fusego.Fuseops.Ops.{Op}
use fusego.Buffer.Outgoing.{OutMessage}

-- What convertInMessage returns: the op, with the message for the reply as it leaves it, or an error. An
-- error names the request that is corrupt, by its number, or the size that the reply has no room for.
pub data Converted : Type 0 where
  converted : Op → OutMessage → Converted
  corrupt : ℕ → Converted
  name_not_read : Converted
  cannot_grow : ℕ → Converted

-- The zero values of the fields that a file system fills in.
abbrev pub no_attributes : InodeAttributes
no_attributes = record {
  size = 0;
  nlink = 0;
  mode = 0;
  atime = 0;
  mtime = 0;
  ctime = 0;
  crtime = 0;
  uid = 0;
  gid = 0;
}

abbrev pub no_entry : ChildInodeEntry
no_entry = record {
  child = 0;
  generation = 0;
  attributes = no_attributes;
  attributes_expiration = 0;
  entry_expiration = 0;
}
