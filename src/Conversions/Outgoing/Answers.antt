-- ===== src/Conversions/Outgoing/Answers.antt =====
-- The answer to each op.
use fusego.Base.{
  ℕ, ◌+◌, ◌≤◌, ◌≡◌, refl, ◌∙◌, ◌⊎◌, inl, inr, false, [], ◌++◌, arith, ◌==◌, if◌then◌else◌, done,
  ◌>>=◌, length, take, length-take, take_of_length, Bool-cases,
}
use fusego.Bytes.{Bytes, le_bytes}
use fusego.Fuseops.{Time, InodeId, InodeAttributes, ChildInodeEntry}
use fusego.Fuseops.Ops.{
  Op, stat_fs, look_up_inode, get_inode_attributes, set_inode_attributes, forget_inode, mk_dir,
  mk_node, create_file, create_symlink, create_link, rename, rm_dir, unlink, open_dir, read_dir,
  release_dir_handle, open_file, read_file, write_file, sync_file, flush_file, release_file_handle,
  read_symlink, remove_xattr, get_xattr, list_xattr, set_xattr, fallocate, unknown, interrupt, init,
}
use fusego.Fusekernel.{Protocol}
use fusego.Fusekernel.Sizes.{
  entry_out_size, attr_out_size, open_out_size, write_out_size, statfs_out_size, getxattr_out_size,
  init_out_size,
}
use fusego.Buffer.Outgoing.{OutMessage, out_message_header_size, shrink_to}
use fusego.Conversions.Outgoing.{put, xattr_reply, kernel_response_for_op}
use fusego.Conversions.Outgoing.Structs.{
  Clock, entry_bytes, attributes_bytes, attr_bytes, open_bytes, size_bytes, statfs_bytes,
  init_bytes,
}
use fusego.Conversions.Outgoing.Written.{
  Holds, Becomes, append-Becomes, put-Becomes, shrink_to-Becomes,
}

-- The room that convertInMessage has reserved for the op.
abbrev pub asked : Op → ℕ
asked (read_dir o) = o.dst
asked (read_file o) = o.dst
asked (get_xattr o) = o.dst
asked (list_xattr o) = o.dst
asked _ = 0

-- An op that can be answered, in a payload of n bytes: what the file system says it has written to the
-- buffer is no more than the buffer, or the buffer is empty and the size of an extended attribute is
-- asked for.
abbrev pub IsAnswerable : Op → ℕ → Type 0
IsAnswerable (read_dir o) n = (o.bytes_read ≤ o.dst) × (o.dst ≤ n)
IsAnswerable (read_file o) n = (o.bytes_read ≤ o.dst) × (o.dst ≤ n)
IsAnswerable (get_xattr o) n = ((o.dst ≡ 0) ⊎ (o.bytes_read ≤ o.dst)) × (o.dst ≤ n)
IsAnswerable (list_xattr o) n = ((o.dst ≡ 0) ⊎ (o.bytes_read ≤ o.dst)) × (o.dst ≤ n)
IsAnswerable (read_symlink o) n = length o.target ≤ n
IsAnswerable (forget_inode o) n = ⊥
IsAnswerable (interrupt o) n = ⊥
IsAnswerable (unknown o) n = ⊥
IsAnswerable _ n = Unit {0}

length-entry_bytes :
    (clock : Clock) (p : Protocol) (e : ChildInodeEntry)
    → entry_out_size p ≤ length (entry_bytes clock e)
unfolding entry_bytes attr_bytes le_bytes entry_out_size
length-entry_bytes clock p e = ground arith

length-attributes_bytes :
    (clock : Clock) (p : Protocol) (inode : InodeId) (expiration : Time) (a : InodeAttributes)
    → attr_out_size p ≤ length (attributes_bytes clock inode expiration a)
unfolding attributes_bytes attr_bytes le_bytes attr_out_size
length-attributes_bytes clock p inode expiration a = ground arith

entry_out_size-le : (p : Protocol) → entry_out_size p ≤ 128
unfolding entry_out_size
entry_out_size-le p = ground arith

attr_out_size-le : (p : Protocol) → attr_out_size p ≤ 128
unfolding attr_out_size
attr_out_size-le p = ground arith

module _ (clock : Clock) (p : Protocol) where
  -- The bytes behind the header of the reply, where the payload of the message was `b`.
  abbrev pub answer : Op → Bytes → Bytes
  answer (look_up_inode o) b = take (entry_out_size p) (entry_bytes clock o.entry)
  answer (get_inode_attributes o) b =
      take (attr_out_size p) (attributes_bytes clock o.inode o.attributes_expiration o.attributes)
  answer (set_inode_attributes o) b =
      take (attr_out_size p) (attributes_bytes clock o.inode o.attributes_expiration o.attributes)
  answer (mk_dir o) b = take (entry_out_size p) (entry_bytes clock o.entry)
  answer (mk_node o) b = take (entry_out_size p) (entry_bytes clock o.entry)
  answer (create_file o) b =
      take (entry_out_size p) (entry_bytes clock o.entry) ++ open_bytes o.handle false false
  answer (create_symlink o) b = take (entry_out_size p) (entry_bytes clock o.entry)
  answer (create_link o) b = take (entry_out_size p) (entry_bytes clock o.entry)
  answer (open_dir o) b = open_bytes o.handle false false
  answer (open_file o) b = open_bytes o.handle o.keep_page_cache o.use_direct_io
  answer (read_dir o) b = take o.bytes_read b
  answer (read_file o) b = take o.bytes_read b
  answer (write_file o) b = size_bytes (length o.contents)
  answer (read_symlink o) b = o.target
  answer (stat_fs o) b = statfs_bytes o
  answer (get_xattr o) b = if o.dst == 0 then size_bytes o.bytes_read else take o.bytes_read b
  answer (list_xattr o) b = if o.dst == 0 then size_bytes o.bytes_read else take o.bytes_read b
  answer (init o) b = init_bytes o
  answer _ b = []

  module _ (m : OutMessage) (room : 200 ≤ length m.payload) where
    empty : m.payload_offset ≡ 0 → Holds m []
    empty e = record { ends = e; content = refl; within = omega arith }

    unchanged : m.payload_offset ≡ 0 → Becomes m (done m) []
    unchanged e = (m, refl, refl, refl, empty e)

    entry_Becomes :
        (e : ChildInodeEntry)
        → m.payload_offset ≡ 0
        → Becomes m
            (put (entry_out_size p) (entry_bytes clock e) m)
            (take (entry_out_size p) (entry_bytes clock e))
    entry_Becomes e h =
        put-Becomes m [] (empty h) (entry_out_size p) (entry_bytes clock e)
          (length-entry_bytes clock p e) (omega (arith, entry_out_size-le p))

    attributes_Becomes :
        (inode : InodeId) (expiration : Time) (a : InodeAttributes)
        → m.payload_offset ≡ 0
        → Becomes m
            (put (attr_out_size p) (attributes_bytes clock inode expiration a) m)
            (take (attr_out_size p) (attributes_bytes clock inode expiration a))
    attributes_Becomes inode expiration a h =
        put-Becomes m [] (empty h) (attr_out_size p) (attributes_bytes clock inode expiration a)
          (length-attributes_bytes clock p inode expiration a) (omega (arith, attr_out_size-le p))

    -- A struct that has its size.
    struct_Becomes :
        (size : ℕ) (b : Bytes)
        → length b ≡ size
        → size ≤ 200
        → m.payload_offset ≡ 0
        → Becomes m (put size b m) b
    struct_Becomes size b e small h =
        let taken : Becomes m (put size b m) (take size b) =
          put-Becomes m [] (empty h) size b (omega (arith, e)) (omega arith) in
        rw (take_of_length size b (omega (arith, e))) at taken

    xattr_Becomes :
        (dst bytes_read : ℕ)
        → m.payload_offset ≡ dst
        → ((dst ≡ 0) ⊎ (bytes_read ≤ dst))
        → dst ≤ length m.payload
        → Becomes m
            (xattr_reply dst bytes_read m)
            (if dst == 0 then size_bytes bytes_read else take bytes_read m.payload)
    unfolding size_bytes le_bytes
    xattr_Becomes dst bytes_read e h fits = elim (Bool-cases (dst == 0)) [
      | inl size_only ↦ rw size_only (
          struct_Becomes getxattr_out_size (size_bytes bytes_read) refl (omega arith)
            (ground (arith, e)))
      | inr filled ↦
          let read : bytes_read ≤ m.payload_offset = ground (arith, e, h) in
          rw filled (shrink_to-Becomes m bytes_read read (omega (arith, e)))
    ]

    read_Becomes :
        (dst bytes_read : ℕ)
        → m.payload_offset ≡ dst
        → bytes_read ≤ dst
        → dst ≤ length m.payload
        → Becomes m (shrink_to (out_message_header_size + bytes_read) m) (take bytes_read m.payload)
    read_Becomes dst bytes_read e h fits =
        shrink_to-Becomes m bytes_read (omega (arith, e)) (omega (arith, e))

    create_Becomes :
        (e : ChildInodeEntry) (handle : ℕ)
        → m.payload_offset ≡ 0
        → Becomes m
            (put (entry_out_size p) (entry_bytes clock e) m >>= λ m'.
              put open_out_size (open_bytes handle false false) m')
            (take (entry_out_size p) (entry_bytes clock e) ++ open_bytes handle false false)
    unfolding open_bytes le_bytes
    create_Becomes e handle h =
        let (m', eq, same_header, same_room, holds) = entry_Becomes e h in
        let small : length (take (entry_out_size p) (entry_bytes clock e)) ≤ 128 =
          omega
            (arith, length-take (entry_out_size p) (entry_bytes clock e), entry_out_size-le p) in
        let (m'', eq', same_header', same_room', holds') =
          put-Becomes m' (take (entry_out_size p) (entry_bytes clock e)) holds open_out_size
            (open_bytes handle false false) (omega arith) (omega (arith, same_room)) in
        (m'', rw (eq, eq'), same_header' ∙ same_header, same_room' ∙ same_room, holds')

    -- Each op as kernelResponseForOp answers it: the header is left as it is.
    pub kernel_response_for_op-Becomes :
        (op : Op)
        → m.payload_offset ≡ asked op
        → IsAnswerable op (length m.payload)
        → Becomes m (kernel_response_for_op clock p op m) (answer op m.payload)
    unfolding kernel_response_for_op open_bytes size_bytes statfs_bytes init_bytes le_bytes
    kernel_response_for_op-Becomes (look_up_inode o) e h = entry_Becomes o.entry e
    kernel_response_for_op-Becomes (mk_dir o) e h = entry_Becomes o.entry e
    kernel_response_for_op-Becomes (mk_node o) e h = entry_Becomes o.entry e
    kernel_response_for_op-Becomes (create_symlink o) e h = entry_Becomes o.entry e
    kernel_response_for_op-Becomes (create_link o) e h = entry_Becomes o.entry e
    kernel_response_for_op-Becomes (get_inode_attributes o) e h =
        attributes_Becomes o.inode o.attributes_expiration o.attributes e
    kernel_response_for_op-Becomes (set_inode_attributes o) e h =
        attributes_Becomes o.inode o.attributes_expiration o.attributes e
    kernel_response_for_op-Becomes (create_file o) e h = create_Becomes o.entry o.handle e
    kernel_response_for_op-Becomes (open_dir o) e h =
        struct_Becomes open_out_size (open_bytes o.handle false false) refl (omega arith) e
    kernel_response_for_op-Becomes (open_file o) e h =
        struct_Becomes open_out_size (open_bytes o.handle o.keep_page_cache o.use_direct_io) refl
          (omega arith) e
    kernel_response_for_op-Becomes (read_dir o) e h = read_Becomes o.dst o.bytes_read e h.0 h.1
    kernel_response_for_op-Becomes (read_file o) e h = read_Becomes o.dst o.bytes_read e h.0 h.1
    kernel_response_for_op-Becomes (write_file o) e h =
        struct_Becomes write_out_size (size_bytes (length o.contents)) refl (omega arith) e
    kernel_response_for_op-Becomes (read_symlink o) e h =
        append-Becomes m [] (empty e) o.target (omega (arith, h))
    kernel_response_for_op-Becomes (stat_fs o) e h =
        struct_Becomes statfs_out_size (statfs_bytes o) refl (omega arith) e
    kernel_response_for_op-Becomes (get_xattr o) e h = xattr_Becomes o.dst o.bytes_read e h.0 h.1
    kernel_response_for_op-Becomes (list_xattr o) e h = xattr_Becomes o.dst o.bytes_read e h.0 h.1
    kernel_response_for_op-Becomes (init o) e h =
        struct_Becomes init_out_size (init_bytes o) refl (omega arith) e
    kernel_response_for_op-Becomes (rename o) e h = unchanged e
    kernel_response_for_op-Becomes (rm_dir o) e h = unchanged e
    kernel_response_for_op-Becomes (unlink o) e h = unchanged e
    kernel_response_for_op-Becomes (release_dir_handle o) e h = unchanged e
    kernel_response_for_op-Becomes (sync_file o) e h = unchanged e
    kernel_response_for_op-Becomes (flush_file o) e h = unchanged e
    kernel_response_for_op-Becomes (release_file_handle o) e h = unchanged e
    kernel_response_for_op-Becomes (remove_xattr o) e h = unchanged e
    kernel_response_for_op-Becomes (set_xattr o) e h = unchanged e
    kernel_response_for_op-Becomes (fallocate o) e h = unchanged e
    kernel_response_for_op-Becomes (forget_inode o) e h = absurd h
    kernel_response_for_op-Becomes (interrupt o) e h = absurd h
    kernel_response_for_op-Becomes (unknown o) e h = absurd h
