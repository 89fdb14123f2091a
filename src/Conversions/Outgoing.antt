-- ===== src/Conversions/Outgoing.antt =====
-- conversions.go, Outgoing messages: the reply to an op.
pub mod Structs
pub mod Written
pub mod Answers
pub mod Replies
use fusego.Base.{
  ℕ, ◌+◌, Bool, true, false, Option, none, some, if◌then◌else◌, ◌==◌, Outcome, done, panics, ◌>>=◌,
  length, take,
}
use fusego.Bytes.{Bytes, le_bytes}
use fusego.Fuseops.{u32_mod}
use fusego.Fuseops.Ops.{
  Op, stat_fs, look_up_inode, get_inode_attributes, set_inode_attributes, forget_inode, mk_dir,
  mk_node, create_file, create_symlink, create_link, rename, rm_dir, unlink, open_dir, read_dir,
  release_dir_handle, open_file, read_file, write_file, sync_file, flush_file, release_file_handle,
  read_symlink, remove_xattr, get_xattr, list_xattr, set_xattr, fallocate, unknown, interrupt, init,
}
use fusego.Fusekernel.{Protocol}
use fusego.Fusekernel.Sizes.{
  entry_out_size, attr_out_size, open_out_size, write_out_size, statfs_out_size, getxattr_out_size,
  init_out_size,
}
use fusego.Buffer.Outgoing.{
  OutMessage, out_message_header_size, overwrite, grow, shrink_to, append, message_len,
}
use fusego.Conversions.Outgoing.Structs.{
  Clock, minus, entry_bytes, attributes_bytes, open_bytes, size_bytes, statfs_bytes, init_bytes,
}

-- An error as the code sees it: a syscall.Errno, or any other.
pub data OpError : Type 0 where
  errno : ℕ → OpError
  other : OpError

-- `out := (*T)(m.Grow(size))`, and writes to the fields of `out` that are within `size`. Grow returns nil
-- where there is no room, and then the first write panics.
unfoldable pub put : ℕ → Bytes → OutMessage → Outcome OutMessage
unfolding grow
put size b m = elim (grow size m) [
  | none ↦ panics
  | some (at_end, m') ↦ done (record m' { payload = overwrite at_end (take size b) m'.payload })
]

-- `writeXattrSize`
abbrev pub write_xattr_size : ℕ → OutMessage → Outcome OutMessage
write_xattr_size size m = put getxattr_out_size (size_bytes size) m

-- GetXattrOp and ListXattrOp, by the length of Dst and by BytesRead.
abbrev pub xattr_reply : ℕ → ℕ → OutMessage → Outcome OutMessage
xattr_reply dst bytes_read m =
    if dst == 0
    then write_xattr_size bytes_read m
    else shrink_to (out_message_header_size + bytes_read) m

-- The first switch of kernelResponse.
abbrev pub no_response : Op → Bool
no_response (forget_inode o) = true
no_response (interrupt o) = true
no_response _ = false

-- The fields of the OutHeader: Len, Error and Unique.
abbrev pub set_len : OutMessage → OutMessage
set_len m = record m { header = overwrite 0 (le_bytes 4 (message_len m)) m.header }

-- `-int32(errno)`; the number of EIO is 5.
abbrev pub error_field : OpError → ℕ
error_field (errno n) = minus u32_mod n
error_field other = minus u32_mod 5

abbrev pub set_error : OpError → OutMessage → OutMessage
set_error e m = record m { header = overwrite 4 (le_bytes 4 (error_field e)) m.header }

abbrev pub set_unique : ℕ → OutMessage → OutMessage
set_unique fuse_id m = record m { header = overwrite 8 (le_bytes 8 fuse_id) m.header }

module _ (clock : Clock) (p : Protocol) where
  abbrev pub entry_reply : OutMessage → Bytes → Outcome OutMessage
  entry_reply m b = put (entry_out_size p) b m

  -- `kernelResponseForOp`
  unfoldable pub kernel_response_for_op : Op → OutMessage → Outcome OutMessage
  unfolding put
  kernel_response_for_op (look_up_inode o) m = entry_reply m (entry_bytes clock o.entry)
  kernel_response_for_op (get_inode_attributes o) m =
      put (attr_out_size p) (attributes_bytes clock o.inode o.attributes_expiration o.attributes) m
  kernel_response_for_op (set_inode_attributes o) m =
      put (attr_out_size p) (attributes_bytes clock o.inode o.attributes_expiration o.attributes) m
  kernel_response_for_op (mk_dir o) m = entry_reply m (entry_bytes clock o.entry)
  kernel_response_for_op (mk_node o) m = entry_reply m (entry_bytes clock o.entry)
  kernel_response_for_op (create_file o) m = entry_reply m (entry_bytes clock o.entry) >>= λ m'.
      put open_out_size (open_bytes o.handle false false) m'
  kernel_response_for_op (create_symlink o) m = entry_reply m (entry_bytes clock o.entry)
  kernel_response_for_op (create_link o) m = entry_reply m (entry_bytes clock o.entry)
  kernel_response_for_op (rename o) m = done m
  kernel_response_for_op (rm_dir o) m = done m
  kernel_response_for_op (unlink o) m = done m
  kernel_response_for_op (open_dir o) m = put open_out_size (open_bytes o.handle false false) m
  kernel_response_for_op (read_dir o) m = shrink_to (out_message_header_size + o.bytes_read) m
  kernel_response_for_op (release_dir_handle o) m = done m
  kernel_response_for_op (open_file o) m =
      put open_out_size (open_bytes o.handle o.keep_page_cache o.use_direct_io) m
  kernel_response_for_op (read_file o) m = shrink_to (out_message_header_size + o.bytes_read) m
  kernel_response_for_op (write_file o) m = put write_out_size (size_bytes (length o.contents)) m
  kernel_response_for_op (sync_file o) m = done m
  kernel_response_for_op (flush_file o) m = done m
  kernel_response_for_op (release_file_handle o) m = done m
  kernel_response_for_op (read_symlink o) m = append o.target m
  kernel_response_for_op (stat_fs o) m = put statfs_out_size (statfs_bytes o) m
  kernel_response_for_op (remove_xattr o) m = done m
  kernel_response_for_op (get_xattr o) m = xattr_reply o.dst o.bytes_read m
  kernel_response_for_op (list_xattr o) m = xattr_reply o.dst o.bytes_read m
  kernel_response_for_op (set_xattr o) m = done m
  kernel_response_for_op (fallocate o) m = done m
  kernel_response_for_op (init o) m = put init_out_size (init_bytes o) m
  kernel_response_for_op (forget_inode o) m = panics
  kernel_response_for_op (unknown o) m = panics
  kernel_response_for_op (interrupt o) m = panics

  -- `kernelResponse`: noResponse, and the message.
  unfoldable pub kernel_response :
      ℕ → Op → Option OpError → OutMessage → Outcome (Bool × OutMessage)
  unfolding kernel_response_for_op
  kernel_response fuse_id op op_err m =
      if no_response op then done (true, set_unique fuse_id m) else elim op_err [
        | some e ↦ shrink_to out_message_header_size (set_error e (set_unique fuse_id m)) >>= λ m'.
            done (false, set_len m')
        | none ↦ kernel_response_for_op op (set_unique fuse_id m) >>= λ m'. done (false, set_len m')
      ]
