-- ===== src/Conversions/Fields.antt =====
-- The structs of messages as bytes, read field by field at its offset.
use fusego.Base.{
  ℕ, suc, ◌-◌, Option, none, some, ◌==◌, if◌then◌else◌, ltb, Bool, false, [], ◌∷◌, length, take,
  drop, Outcome, done, ◌>>◌, require, leb,
}
use fusego.Base.Int.{ℤ, pos, negsuc}
use fusego.Bytes.{Bytes, le_value}
use fusego.Fuseops.{int_bound, u64_mod}
use fusego.Buffer.Incoming.{InMessage, consume, consume_bytes}

abbrev pub u32_at : ℕ → Bytes → ℕ
u32_at i s = le_value (take 4 (drop i s))

abbrev pub u64_at : ℕ → Bytes → ℕ
u64_at i s = le_value (take 8 (drop i s))

-- `int64(n)` of a uint64.
unfoldable pub signed : ℕ → ℤ
signed n = if ltb n int_bound then pos n else negsuc (u64_mod - 1 - n)

-- The fields of fusekernel.InHeader that are read.
pub record InHeader : Type 0 where
  pub opcode : ℕ
  pub unique : ℕ
  pub nodeid : ℕ
  pub pid : ℕ

-- `Header`
unfoldable pub in_header : InMessage → InHeader
in_header m = record {
  opcode = u32_at 4 m.storage;
  unique = u64_at 8 m.storage;
  nodeid = u64_at 16 m.storage;
  pid = u32_at 32 m.storage;
}

abbrev pub if_not_nil : Option Bytes × InMessage → Option (Bytes × InMessage)
if_not_nil (none, m) = none
if_not_nil (some s, m) = some (s, m)

-- `(*input)(inMsg.Consume(size))`: the bytes behind the pointer, and the message that is left.
unfoldable pub struct_in : ℕ → InMessage → Option (Bytes × InMessage)
struct_in size m = if_not_nil (consume size m)

-- `inMsg.ConsumeBytes(inMsg.Len())`
unfoldable pub rest_of : InMessage → Bytes
rest_of m = elim (consume_bytes (length m.remaining) m).0 [ none ↦ [] | some b ↦ b ]

-- `n > 0 && buf[n-1] == 0`
unfoldable pub ends_in_nul : Bytes → Bool
ends_in_nul [] = false
ends_in_nul (c ∷ cs) = elim cs [ [] ↦ c == 0 | _ ∷ _ ↦ ends_in_nul cs ]

-- `bytes.IndexByte(buf, 0)`
unfoldable pub nul_index : Bytes → Option ℕ
nul_index [] = none
nul_index (c ∷ cs) =
    let later = nul_index cs in
    if c == 0 then some 0 else elim later [ none ↦ none | some i ↦ some (suc i) ]

-- `buf[from:to]`, for an end within the slice.
abbrev pub slice : ℕ → ℕ → Bytes → Outcome Bytes
slice from to b = require (leb from to) >> done (take (to - from) (drop from b))
