-- ===== src/Conversions/Mode/RoundTrip.antt =====
-- A Unix mode that convertFileMode turns into an os.FileMode, and convertAttributes back.
use fusego.Base.{ℕ}

-- The formats that S_IFMT can hold: S_IFIFO, S_IFCHR, S_IFDIR, S_IFBLK, S_IFREG, S_IFLNK and S_IFSOCK.
pub data IsFormat : ℕ → Type 0 where
  fifo : IsFormat 1
  char_device : IsFormat 2
  dir : IsFormat 4
  block_device : IsFormat 6
  regular : IsFormat 8
  symlink : IsFormat 10
  socket : IsFormat 12
