-- ===== src/Conversions/Incoming/Names.antt =====
-- conversions.go, convertInMessage: the requests that carry names.
use fusego.Base.{
  ℕ, ◌+◌, ◌-◌, not, ◌||◌, none, some, ltb, ◌==◌, if◌then◌else◌, Outcome, done, ◌>>=◌, length, take,
}
use fusego.Bytes.{Bytes}
use fusego.Fuseops.FileMode.{dir_bit}
use fusego.Fuseops.Ops.{
  Op, look_up_inode, mk_dir, mk_node, create_file, create_symlink, create_link, rename, rm_dir,
  unlink, remove_xattr,
}
use fusego.Fusekernel.{Protocol}
use fusego.Fusekernel.Opcode
use fusego.Fusekernel.Sizes.{
  mkdir_in_size, mknod_in_size, create_in_size, rename_in_size, link_in_size,
}
use fusego.Buffer.Incoming.{InMessage}
use fusego.Buffer.Outgoing.{OutMessage}
use fusego.Conversions.{Converted, converted, corrupt, name_not_read, no_entry}
use fusego.Conversions.Fields.{
  InHeader, u32_at, u64_at, struct_in, rest_of, ends_in_nul, nul_index, slice,
}
use fusego.Conversions.Mode.{convert_file_mode, with_bit}

-- A body that is one name and its NUL, as OpLookup, OpUnlink, OpRmdir and OpRemovexattr have it.
unfoldable pub convert_name : ℕ → (Bytes → Op) → InMessage → OutMessage → Converted
unfolding rest_of ends_in_nul
convert_name opcode op m out =
    let buf = rest_of m in
    if not (ends_in_nul buf) then corrupt opcode else converted (op (take (length buf - 1) buf)) out

abbrev pub convert_lookup : InHeader → InMessage → OutMessage → Converted
convert_lookup h m out =
    convert_name Opcode.lookup
      (λ name. look_up_inode (record { parent = h.nodeid; name = name; entry = no_entry })) m out

abbrev pub convert_unlink : InHeader → InMessage → OutMessage → Converted
convert_unlink h m out =
    convert_name Opcode.unlink (λ name. unlink (record { parent = h.nodeid; name = name })) m out

abbrev pub convert_rmdir : InHeader → InMessage → OutMessage → Converted
convert_rmdir h m out =
    convert_name Opcode.rmdir (λ name. rm_dir (record { parent = h.nodeid; name = name })) m out

abbrev pub convert_removexattr : InHeader → InMessage → OutMessage → Converted
convert_removexattr h m out =
    convert_name Opcode.removexattr
      (λ name. remove_xattr (record { inode = h.nodeid; name = name })) m out

-- A body that is a struct of this size and a name up to its first NUL. The op is made from the struct
-- and the name.
unfoldable pub convert_struct_name :
    ℕ → ℕ → (Bytes → Bytes → Op) → InMessage → OutMessage → Converted
unfolding struct_in rest_of nul_index
convert_struct_name opcode size op m out = elim (struct_in size m) [
  | none ↦ corrupt opcode
  | some (s, m') ↦
      let name = rest_of m' in
      elim (nul_index name) [ none ↦ corrupt opcode | some i ↦ converted (op s (take i name)) out ]
]

abbrev pub convert_mkdir : Protocol → InHeader → InMessage → OutMessage → Converted
convert_mkdir p h m out =
    convert_struct_name Opcode.mkdir (mkdir_in_size p)
      (λ s name. mk_dir (record {
        parent = h.nodeid;
        name = name;
        mode = with_bit (convert_file_mode (u32_at 0 s)) dir_bit;
        entry = no_entry;
      }))
      m out

abbrev pub convert_mknod : Protocol → InHeader → InMessage → OutMessage → Converted
convert_mknod p h m out =
    convert_struct_name Opcode.mknod (mknod_in_size p)
      (λ s name. mk_node (record {
        parent = h.nodeid;
        name = name;
        mode = convert_file_mode (u32_at 0 s);
        entry = no_entry;
      }))
      m out

abbrev pub convert_create : Protocol → InHeader → InMessage → OutMessage → Converted
convert_create p h m out =
    convert_struct_name Opcode.create (create_in_size p)
      (λ s name. create_file (record {
        pid = h.pid;
        parent = h.nodeid;
        name = name;
        mode = convert_file_mode (u32_at 4 s);
        entry = no_entry;
        handle = 0;
      }))
      m out

unfoldable pub convert_link : InHeader → InMessage → OutMessage → Converted
unfolding struct_in rest_of nul_index
convert_link h m out = elim (struct_in link_in_size m) [
  | none ↦ corrupt Opcode.link
  | some (s, m') ↦
      let name = rest_of m' in
      elim (nul_index name) [
        | none ↦ corrupt Opcode.link
        | some i ↦
            if length (take i name) == 0
            then name_not_read
            else converted
                (create_link (record {
                  parent = h.nodeid;
                  name = take i name;
                  target = u64_at 0 s;
                  entry = no_entry;
                }))
                out
      ]
]

-- The slice behind the first NUL is out of range when that NUL is the last byte.
unfoldable pub convert_symlink : InHeader → InMessage → OutMessage → Outcome Converted
unfolding rest_of ends_in_nul nul_index
convert_symlink h m out =
    let names = rest_of m in
    if not (ends_in_nul names) then done (corrupt Opcode.symlink) else elim (nul_index names) [
      | none ↦ done (corrupt Opcode.symlink)
      | some i ↦ slice (i + 1) (length names - 1) names >>= λ target. done (
          converted
            (create_symlink (record {
              parent = h.nodeid;
              name = take i names;
              target = target;
              entry = no_entry;
            }))
            out)
    ]

unfoldable pub convert_rename : InHeader → InMessage → OutMessage → Outcome Converted
unfolding struct_in rest_of ends_in_nul nul_index
convert_rename h m out = elim (struct_in rename_in_size m) [
  | none ↦ done (corrupt Opcode.rename)
  | some (s, m') ↦
      let names = rest_of m' in
      if ltb (length names) 4 || not (ends_in_nul names)
      then done (corrupt Opcode.rename)
      else elim (nul_index names) [
        | none ↦ done (corrupt Opcode.rename)
        | some i ↦ slice (i + 1) (length names - 1) names >>= λ new_name. done (
            converted
              (rename (record {
                old_parent = h.nodeid;
                old_name = take i names;
                new_parent = u64_at 0 s;
                new_name = new_name;
              }))
              out)
      ]
]
