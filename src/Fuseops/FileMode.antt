-- ===== src/Fuseops/FileMode.antt =====
-- Go's os.FileMode: a number whose bits say what a file is; the low nine are its permissions.
use fusego.Base.{ℕ, ◌/◌, ◌%◌, ◌^◌, Bool, ◌&&◌, ◌==◌}

-- `m & (1 << k) != 0`
abbrev pub has_bit : ℕ → ℕ → Bool
has_bit m k = (m / 2 ^ k) % 2 == 1

abbrev pub dir_bit : ℕ
dir_bit = 31

abbrev pub symlink_bit : ℕ
symlink_bit = 27

-- `os.ModeDir` and `os.ModeSymlink`, as masks.
abbrev pub mode_dir : ℕ
mode_dir = 2 ^ 31

abbrev pub mode_symlink : ℕ
mode_symlink = 2 ^ 27

-- `m &^ (os.ModePerm|os.ModeDir|os.ModeSymlink) == 0` on a uint32: bits 9 to 26 and 28 to 30 are clear.
abbrev pub is_plain : ℕ → Bool
is_plain m = (m / 2 ^ 9) % 2 ^ 18 == 0 && (m / 2 ^ 28) % 2 ^ 3 == 0
