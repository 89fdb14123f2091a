-- ===== src/Conversions/Mode.antt =====
-- conversions.go: Unix modes and os.FileMode.
pub mod RoundTrip
use fusego.Base.{ℕ, ◌*◌, ◌+◌, ◌/◌, ◌%◌, ◌^◌, ◌==◌, if◌then◌else◌}
use fusego.Fuseops.FileMode.{has_bit, dir_bit, symlink_bit}

abbrev pub device_bit : ℕ
device_bit = 26

abbrev pub named_pipe_bit : ℕ
named_pipe_bit = 25

abbrev pub socket_bit : ℕ
socket_bit = 24

abbrev pub setuid_bit : ℕ
setuid_bit = 23

abbrev pub setgid_bit : ℕ
setgid_bit = 22

abbrev pub char_device_bit : ℕ
char_device_bit = 21

-- `m | 1 << k`
unfoldable pub with_bit : ℕ → ℕ → ℕ
with_bit m k = if has_bit m k then m else m + 2 ^ k

-- The part of a Unix mode under S_IFMT, as a number of four bits.
abbrev pub format : ℕ → ℕ
format unix_mode = (unix_mode / 2 ^ 12) % 16

-- The bits of os.FileMode for each format: S_IFREG, S_IFDIR, S_IFCHR, S_IFBLK, S_IFIFO, S_IFLNK, S_IFSOCK.
unfoldable pub kind_bits : ℕ → ℕ
kind_bits f =
    if f == 8
    then 0
    else if f == 4
    then 2 ^ dir_bit
    else if f == 2
    then 2 ^ char_device_bit + 2 ^ device_bit
    else if f == 6
    then 2 ^ device_bit
    else if f == 1
    then 2 ^ named_pipe_bit
    else if f == 10
    then 2 ^ symlink_bit
    else if f == 12
    then 2 ^ socket_bit
    else 2 ^ device_bit

-- The bits are disjoint, so that each `|` is a sum. S_ISUID is bit 11 and S_ISGID bit 10.
unfoldable pub convert_file_mode : ℕ → ℕ
unfolding kind_bits
convert_file_mode unix_mode =
    unix_mode % 2 ^ 9
    + kind_bits (format unix_mode)
    + (if has_bit unix_mode 11 then 2 ^ setuid_bit else 0)
    + (if has_bit unix_mode 10 then 2 ^ setgid_bit else 0)

-- The switch of convertAttributes: the format of a Unix mode.
unfoldable pub format_of : ℕ → ℕ
format_of mode =
    if has_bit mode dir_bit
    then 4
    else if has_bit mode device_bit
    then (if has_bit mode char_device_bit then 2 else 6)
    else if has_bit mode named_pipe_bit
    then 1
    else if has_bit mode symlink_bit
    then 10
    else if has_bit mode socket_bit
    then 12
    else 8

-- The field Mode that convertAttributes sets.
unfoldable pub unix_mode_of : ℕ → ℕ
unfolding format_of
unix_mode_of mode =
    mode % 2 ^ 9 + format_of mode * 2 ^ 12 + (if has_bit mode setuid_bit then 2 ^ 11 else 0)
