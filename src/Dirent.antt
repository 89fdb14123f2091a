-- ===== src/Dirent.antt =====
-- fuseutil/dirent.go: a directory entry, and its encoding for the kernel.
pub mod DirentType
pub mod RoundTrip
pub mod Tests
use fusego.Base.{
  ℕ, ◌+◌, ◌-◌, ◌%◌, ◌≡◌, Bool, List, [], ◌++◌, ◌==◌, ltb, if◌then◌else◌, length, replicate,
}
use fusego.Bytes.{Bytes, le_bytes}

pub record Dirent : Type 0 where
  pub offset : ℕ
  pub inode : ℕ
  pub name : Bytes
  pub type : ℕ

abbrev pub dirent_alignment : ℕ
dirent_alignment = 8

abbrev pub dirent_size : ℕ
dirent_size = 8 + 8 + 4 + 4

-- The padding that keeps the next entry aligned.
unfoldable pub pad_len : ℕ → ℕ
pad_len n = if n % dirent_alignment == 0 then 0 else dirent_alignment - n % dirent_alignment

-- The fields of the local type fuse_dirent.
pub header : Dirent → Bytes
header d =
    le_bytes 8 d.inode ++ le_bytes 8 d.offset ++ le_bytes 4 (length d.name) ++ le_bytes 4 d.type

-- The bytes that WriteDirent puts at the front of a buffer of `room` bytes; their number is its
-- result. What does not fit is not written at all.
unfoldable pub write_dirent : ℕ → Dirent → Bytes
write_dirent room d =
    let padding = pad_len (length d.name) in
    let total_len = dirent_size + length d.name + padding in
    if ltb room total_len then [] else header d ++ (d.name ++ replicate padding 0)
