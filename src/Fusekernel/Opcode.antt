-- ===== src/Fusekernel/Opcode.antt =====
-- internal/fusekernel/fuse_kernel.go, the numbers of the requests that are converted.
use fusego.Base.{ℕ}

abbrev pub lookup : ℕ
lookup = 1

abbrev pub forget : ℕ
forget = 2

abbrev pub getattr : ℕ
getattr = 3

abbrev pub setattr : ℕ
setattr = 4

abbrev pub readlink : ℕ
readlink = 5

abbrev pub symlink : ℕ
symlink = 6

abbrev pub mknod : ℕ
mknod = 8

abbrev pub mkdir : ℕ
mkdir = 9

abbrev pub unlink : ℕ
unlink = 10

abbrev pub rmdir : ℕ
rmdir = 11

abbrev pub rename : ℕ
rename = 12

abbrev pub link : ℕ
link = 13

abbrev pub open_file : ℕ
open_file = 14

abbrev pub read : ℕ
read = 15

abbrev pub write : ℕ
write = 16

abbrev pub statfs : ℕ
statfs = 17

abbrev pub release : ℕ
release = 18

abbrev pub fsync : ℕ
fsync = 20

abbrev pub setxattr : ℕ
setxattr = 21

abbrev pub getxattr : ℕ
getxattr = 22

abbrev pub listxattr : ℕ
listxattr = 23

abbrev pub removexattr : ℕ
removexattr = 24

abbrev pub flush : ℕ
flush = 25

abbrev pub init : ℕ
init = 26

abbrev pub opendir : ℕ
opendir = 27

abbrev pub readdir : ℕ
readdir = 28

abbrev pub releasedir : ℕ
releasedir = 29

abbrev pub create : ℕ
create = 35

abbrev pub interrupt : ℕ
interrupt = 36

abbrev pub fallocate : ℕ
fallocate = 43
