-- ===== src/Fusekernel/Sizes.antt =====
-- internal/fusekernel/fuse_kernel.go, the sizes of the structs of requests and replies, and of the parts
-- of them that an older kernel sends or expects.
use fusego.Base.{ℕ, ◌+◌, if◌then◌else◌}
use fusego.Fusekernel.{Protocol, lt, version}

-- `unsafe.Sizeof(Attr{})`, and the offset of its field Blksize.
abbrev pub attr_size : ℕ
attr_size = 88

abbrev pub blksize_offset : ℕ
blksize_offset = 80

unfoldable pub entry_out_size : Protocol → ℕ
unfolding lt
entry_out_size p = if lt p (version 7 9) then 40 + blksize_offset else 40 + attr_size

unfoldable pub attr_out_size : Protocol → ℕ
unfolding lt
attr_out_size p = if lt p (version 7 9) then 16 + blksize_offset else 16 + attr_size

unfoldable pub mknod_in_size : Protocol → ℕ
unfolding lt
mknod_in_size p = if lt p (version 7 12) then 8 else 16

unfoldable pub mkdir_in_size : Protocol → ℕ
unfolding lt
mkdir_in_size p = if lt p (version 7 12) then 4 + 4 else 8

unfoldable pub create_in_size : Protocol → ℕ
unfolding lt
create_in_size p = if lt p (version 7 12) then 8 else 16

unfoldable pub read_in_size : Protocol → ℕ
unfolding lt
read_in_size p = if lt p (version 7 9) then 20 + 4 else 40

unfoldable pub write_in_size : Protocol → ℕ
unfolding lt
write_in_size p = if lt p (version 7 9) then 24 else 40

abbrev pub setattr_in_size : ℕ
setattr_in_size = 88

abbrev pub forget_in_size : ℕ
forget_in_size = 8

abbrev pub rename_in_size : ℕ
rename_in_size = 8

abbrev pub link_in_size : ℕ
link_in_size = 8

-- A uint64 and three uint32, rounded up to the alignment of the first.
abbrev pub release_in_size : ℕ
release_in_size = 24

abbrev pub flush_in_size : ℕ
flush_in_size = 24

abbrev pub fsync_in_size : ℕ
fsync_in_size = 16

abbrev pub setxattr_in_size : ℕ
setxattr_in_size = 8

abbrev pub getxattr_in_size : ℕ
getxattr_in_size = 8

abbrev pub listxattr_in_size : ℕ
listxattr_in_size = 8

abbrev pub fallocate_in_size : ℕ
fallocate_in_size = 32

abbrev pub init_in_size : ℕ
init_in_size = 16

abbrev pub interrupt_in_size : ℕ
interrupt_in_size = 8

abbrev pub open_out_size : ℕ
open_out_size = 16

abbrev pub write_out_size : ℕ
write_out_size = 8

abbrev pub statfs_out_size : ℕ
statfs_out_size = 80

abbrev pub getxattr_out_size : ℕ
getxattr_out_size = 8

abbrev pub init_out_size : ℕ
init_out_size = 24
