-- ===== src/Conversions/Incoming/Files.antt =====
-- conversions.go, convertInMessage: the requests about attributes, contents, handles and extended
-- attributes, and those that are not for the file system.
use fusego.Base.{ℕ, ◌+◌, none, some, ltb, ◌==◌, if◌then◌else◌, length, take, drop}
use fusego.Base.Int.{ℤ}
use fusego.Bytes.{Bytes}
use fusego.Fuseops.{Time}
use fusego.Fuseops.FileMode.{has_bit}
use fusego.Fuseops.Ops.{
  Op, set_inode_attributes, forget_inode, read_dir, read_file, release_dir_handle,
  release_file_handle, write_file, sync_file, flush_file, get_xattr, list_xattr, set_xattr,
  fallocate, interrupt, init,
}
use fusego.Fusekernel.{Protocol, version}
use fusego.Fusekernel.Opcode
use fusego.Fusekernel.Sizes.{
  setattr_in_size, forget_in_size, read_in_size, write_in_size, release_in_size, fsync_in_size,
  flush_in_size, getxattr_in_size, listxattr_in_size, setxattr_in_size, fallocate_in_size,
  init_in_size, interrupt_in_size,
}
use fusego.Buffer.Incoming.{InMessage}
use fusego.Buffer.Outgoing.{OutMessage, grow_no_zero}
use fusego.Conversions.{Converted, converted, corrupt, cannot_grow, no_attributes}
use fusego.Conversions.Fields.{InHeader, u32_at, u64_at, signed, struct_in, rest_of, nul_index}
use fusego.Conversions.Mode.{convert_file_mode}

-- A body that is one struct.
unfoldable pub convert_struct : ℕ → ℕ → (Bytes → Op) → InMessage → OutMessage → Converted
unfolding struct_in
convert_struct opcode size op m out = elim (struct_in size m) [
  | none ↦ corrupt opcode
  | some (s, _) ↦ converted (op s) out
]

-- `time.Unix(int64(secs), int64(nsec))`, which belongs to package time, is the argument `unix`.
abbrev pub convert_setattr : (ℤ → ℕ → Time) → InHeader → InMessage → OutMessage → Converted
convert_setattr unix h m out =
    convert_struct Opcode.setattr setattr_in_size
      (λ s. set_inode_attributes (record {
        inode = h.nodeid;
        handle = if has_bit (u32_at 0 s) 6 then some (u64_at 8 s) else none;
        size = if has_bit (u32_at 0 s) 3 then some (u64_at 16 s) else none;
        mode = if has_bit (u32_at 0 s) 0 then some (convert_file_mode (u32_at 68 s)) else none;
        atime =
            if has_bit (u32_at 0 s) 4
            then some (unix (signed (u64_at 32 s)) (u32_at 56 s))
            else none;
        mtime =
            if has_bit (u32_at 0 s) 5
            then some (unix (signed (u64_at 40 s)) (u32_at 60 s))
            else none;
        attributes = no_attributes;
        attributes_expiration = 0;
      }))
      m out

abbrev pub convert_forget : InHeader → InMessage → OutMessage → Converted
convert_forget h m out =
    convert_struct Opcode.forget forget_in_size
      (λ s. forget_inode (record { inode = h.nodeid; n = u64_at 0 s })) m out

abbrev pub convert_release : InMessage → OutMessage → Converted
convert_release m out =
    convert_struct Opcode.release release_in_size
      (λ s. release_file_handle (record { handle = u64_at 0 s })) m out

abbrev pub convert_releasedir : InMessage → OutMessage → Converted
convert_releasedir m out =
    convert_struct Opcode.releasedir release_in_size
      (λ s. release_dir_handle (record { handle = u64_at 0 s })) m out

abbrev pub convert_fsync : InHeader → InMessage → OutMessage → Converted
convert_fsync h m out =
    convert_struct Opcode.fsync fsync_in_size
      (λ s. sync_file (record { inode = h.nodeid; handle = u64_at 0 s })) m out

abbrev pub convert_flush : InHeader → InMessage → OutMessage → Converted
convert_flush h m out =
    convert_struct Opcode.flush flush_in_size
      (λ s. flush_file (record { pid = h.pid; inode = h.nodeid; handle = u64_at 0 s })) m out

abbrev pub convert_fallocate : InHeader → InMessage → OutMessage → Converted
convert_fallocate h m out =
    convert_struct Opcode.fallocate fallocate_in_size
      (λ s. fallocate (record {
        inode = h.nodeid;
        handle = u64_at 0 s;
        offset = u64_at 8 s;
        length = u64_at 16 s;
        mode = u32_at 24 s;
      }))
      m out

abbrev pub convert_interrupt : InMessage → OutMessage → Converted
convert_interrupt m out =
    convert_struct Opcode.interrupt interrupt_in_size
      (λ s. interrupt (record { fuse_id = u64_at 0 s })) m out

abbrev pub convert_init : InMessage → OutMessage → Converted
convert_init m out =
    convert_struct Opcode.init init_in_size
      (λ s. init (record {
        kernel = version (u32_at 0 s) (u32_at 4 s);
        flags = u32_at 12 s;
        library = version 0 0;
        max_readahead = u32_at 8 s;
        max_write = 0;
      }))
      m out

-- The destination buffer of this size that several requests ask for, at the end of the reply's message.
unfoldable pub with_dst : ℕ → Op → OutMessage → Converted
unfolding grow_no_zero
with_dst size op out = elim (grow_no_zero size out) [
  | none ↦ cannot_grow size
  | some (_, out') ↦ converted op out'
]

-- The cases OpRead and OpReaddir, which differ in the op.
unfoldable pub convert_reading : ℕ → Protocol → (Bytes → Op) → InMessage → OutMessage → Converted
unfolding struct_in with_dst
convert_reading opcode p op m out = elim (struct_in (read_in_size p) m) [
  | none ↦ corrupt opcode
  | some (s, _) ↦ with_dst (u32_at 16 s) (op s) out
]

abbrev pub convert_read : Protocol → InHeader → InMessage → OutMessage → Converted
convert_read p h m out =
    convert_reading Opcode.read p
      (λ s. read_file (record {
        inode = h.nodeid;
        handle = u64_at 0 s;
        offset = signed (u64_at 8 s);
        dst = u32_at 16 s;
        bytes_read = 0;
      }))
      m out

abbrev pub convert_readdir : Protocol → InHeader → InMessage → OutMessage → Converted
convert_readdir p h m out =
    convert_reading Opcode.readdir p
      (λ s. read_dir (record {
        inode = h.nodeid;
        handle = u64_at 0 s;
        offset = u64_at 8 s;
        dst = u32_at 16 s;
        bytes_read = 0;
      }))
      m out

-- All that follows the struct is the data, also where it is more than the size that the struct states.
unfoldable pub convert_write : Protocol → InHeader → InMessage → OutMessage → Converted
unfolding struct_in rest_of signed
convert_write p h m out = elim (struct_in (write_in_size p) m) [
  | none ↦ corrupt Opcode.write
  | some (s, m') ↦
      let buf = rest_of m' in
      if ltb (length buf) (u32_at 16 s)
      then corrupt Opcode.write
      else converted
          (write_file (record {
            inode = h.nodeid;
            handle = u64_at 0 s;
            offset = signed (u64_at 8 s);
            contents = buf;
          }))
          out
]

unfoldable pub convert_getxattr : InHeader → InMessage → OutMessage → Converted
unfolding struct_in rest_of nul_index with_dst
convert_getxattr h m out = elim (struct_in getxattr_in_size m) [
  | none ↦ corrupt Opcode.getxattr
  | some (s, m') ↦
      let name = rest_of m' in
      elim (nul_index name) [
        | none ↦ corrupt Opcode.getxattr
        | some i ↦
            with_dst (u32_at 0 s)
              (get_xattr
                (record { inode = h.nodeid; name = take i name; dst = u32_at 0 s; bytes_read = 0 }))
              out
      ]
]

unfoldable pub convert_listxattr : InHeader → InMessage → OutMessage → Converted
unfolding struct_in with_dst
convert_listxattr h m out = elim (struct_in listxattr_in_size m) [
  | none ↦ corrupt Opcode.listxattr
  | some (s, _) ↦
      let op = list_xattr (record { inode = h.nodeid; dst = u32_at 0 s; bytes_read = 0 }) in
      if u32_at 0 s == 0 then converted op out else with_dst (u32_at 0 s) op out
]

unfoldable pub convert_setxattr : InHeader → InMessage → OutMessage → Converted
unfolding struct_in rest_of nul_index
convert_setxattr h m out = elim (struct_in setxattr_in_size m) [
  | none ↦ corrupt Opcode.setxattr
  | some (s, m') ↦
      let payload = rest_of m' in
      if ltb (length payload) 3 then corrupt Opcode.setxattr else elim (nul_index payload) [
        | none ↦ corrupt Opcode.setxattr
        | some i ↦
            converted
              (set_xattr (record {
                inode = h.nodeid;
                name = take i payload;
                value = drop (i + 1) payload;
                flags = u32_at 4 s;
              }))
              out
      ]
]
