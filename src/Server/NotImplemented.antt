-- ===== src/Server/NotImplemented.antt =====
-- fuseutil/not_implemented_file_system.go: each method returns ENOSYS. And what the kernel is sent for a
-- method like that.
use fusego.Base.{◌-◌, ◌^◌, ◌≡◌, refl, false, some, List, [], ◌∷◌, ◌++◌, done, replicate}
use fusego.Fuseops.Ops
use fusego.Fuseops.Ops.{
  Op, StatFsOp, LookUpInodeOp, GetInodeAttributesOp, SetInodeAttributesOp, ForgetInodeOp, MkDirOp,
  MkNodeOp, CreateFileOp, CreateLinkOp, CreateSymlinkOp, RenameOp, RmDirOp, UnlinkOp, OpenDirOp,
  ReadDirOp, ReleaseDirHandleOp, OpenFileOp, ReadFileOp, WriteFileOp, SyncFileOp, FlushFileOp,
  ReleaseFileHandleOp, ReadSymlinkOp, RemoveXattrOp, GetXattrOp, ListXattrOp, SetXattrOp,
  FallocateOp,
}
use fusego.Buffer.Incoming.{InMessage}
use fusego.Buffer.Outgoing.{OutMessage, out_message_header_size}
use fusego.Conversions.Fields.{in_header}
use fusego.Conversions.Outgoing.{no_response}
use fusego.Conversions.Outgoing.Structs.{Clock}
use fusego.Conversions.Outgoing.Replies.{reply_header}
use fusego.Connection.{Connection, OpState, Allocated}
use fusego.Connection.Steps.{world, IsSound}
use fusego.Connection.Answered.{reply-failed}
use fusego.Server.{Returned, FileSystem, Handled, enosys, handle_op, serve_op}

abbrev pub not_implemented {ℓ} : {S : Type ℓ} {A : Type 0} → A → S → Returned S A
not_implemented o state = record { op = o; filled = []; err = some enosys; state = state }

-- `NotImplementedFileSystem`
abbrev pub not_implemented_file_system {ℓ} : {S : Type ℓ} → FileSystem S
not_implemented_file_system = record {
  stat_fs = not_implemented;
  look_up_inode = not_implemented;
  get_inode_attributes = not_implemented;
  set_inode_attributes = not_implemented;
  forget_inode = not_implemented;
  mk_dir = not_implemented;
  mk_node = not_implemented;
  create_file = not_implemented;
  create_link = not_implemented;
  create_symlink = not_implemented;
  rename = not_implemented;
  rm_dir = not_implemented;
  unlink = not_implemented;
  open_dir = not_implemented;
  read_dir = not_implemented;
  release_dir_handle = not_implemented;
  open_file = not_implemented;
  read_file = not_implemented;
  write_file = not_implemented;
  sync_file = not_implemented;
  flush_file = not_implemented;
  release_file_handle = not_implemented;
  read_symlink = not_implemented;
  remove_xattr = not_implemented;
  get_xattr = not_implemented;
  list_xattr = not_implemented;
  set_xattr = not_implemented;
  fallocate = not_implemented;
}

-- What the dispatch leaves of an op that no method serves.
abbrev Unserved {ℓ} : {S : Type ℓ} → Op → OutMessage → S → Handled S → Type ℓ
Unserved op out state r =
    (r.op ≡ op) × (r.out.header ≡ out.header) × (r.err ≡ some enosys) × (r.state ≡ state)

handle_op-Unserved {ℓ} :
    {S : Type ℓ} (op : Op) (out : OutMessage) (state : S)
    → Unserved op out state (handle_op not_implemented_file_system op out state)
unfolding handle_op
handle_op-Unserved (Ops.stat_fs o) out state = (refl, refl, refl, refl)
handle_op-Unserved (Ops.look_up_inode o) out state = (refl, refl, refl, refl)
handle_op-Unserved (Ops.get_inode_attributes o) out state = (refl, refl, refl, refl)
handle_op-Unserved (Ops.set_inode_attributes o) out state = (refl, refl, refl, refl)
handle_op-Unserved (Ops.forget_inode o) out state = (refl, refl, refl, refl)
handle_op-Unserved (Ops.mk_dir o) out state = (refl, refl, refl, refl)
handle_op-Unserved (Ops.mk_node o) out state = (refl, refl, refl, refl)
handle_op-Unserved (Ops.create_file o) out state = (refl, refl, refl, refl)
handle_op-Unserved (Ops.create_link o) out state = (refl, refl, refl, refl)
handle_op-Unserved (Ops.create_symlink o) out state = (refl, refl, refl, refl)
handle_op-Unserved (Ops.rename o) out state = (refl, refl, refl, refl)
handle_op-Unserved (Ops.rm_dir o) out state = (refl, refl, refl, refl)
handle_op-Unserved (Ops.unlink o) out state = (refl, refl, refl, refl)
handle_op-Unserved (Ops.open_dir o) out state = (refl, refl, refl, refl)
handle_op-Unserved (Ops.read_dir o) out state = (refl, refl, refl, refl)
handle_op-Unserved (Ops.release_dir_handle o) out state = (refl, refl, refl, refl)
handle_op-Unserved (Ops.open_file o) out state = (refl, refl, refl, refl)
handle_op-Unserved (Ops.read_file o) out state = (refl, refl, refl, refl)
handle_op-Unserved (Ops.write_file o) out state = (refl, refl, refl, refl)
handle_op-Unserved (Ops.sync_file o) out state = (refl, refl, refl, refl)
handle_op-Unserved (Ops.flush_file o) out state = (refl, refl, refl, refl)
handle_op-Unserved (Ops.release_file_handle o) out state = (refl, refl, refl, refl)
handle_op-Unserved (Ops.read_symlink o) out state = (refl, refl, refl, refl)
handle_op-Unserved (Ops.remove_xattr o) out state = (refl, refl, refl, refl)
handle_op-Unserved (Ops.get_xattr o) out state = (refl, refl, refl, refl)
handle_op-Unserved (Ops.list_xattr o) out state = (refl, refl, refl, refl)
handle_op-Unserved (Ops.set_xattr o) out state = (refl, refl, refl, refl)
handle_op-Unserved (Ops.fallocate o) out state = (refl, refl, refl, refl)
handle_op-Unserved (Ops.unknown o) out state = (refl, refl, refl, refl)
handle_op-Unserved (Ops.interrupt o) out state = (refl, refl, refl, refl)
handle_op-Unserved (Ops.init o) out state = (refl, refl, refl, refl)

module _ {ℓ} {S : Type ℓ} (clock : Clock) (c : Connection) (reading : List (Allocated InMessage))
    (xs ys : List OpState) (s : OpState) (v : IsSound (world c reading (xs ++ (s ∷ ys))))
    (state : S) where
  -- A file system without any methods of its own: each op in flight that the kernel expects a response to, those of unknown
  -- requests included, is answered with a header alone that has the number of ENOSYS; the file system's state stays as it is.
  pub serve_op-not_implemented :
      s.out_msg.message.header ≡ replicate out_message_header_size 0
      → no_response s.op ≡ false
      → (c' : Connection) × (serve_op not_implemented_file_system clock s state c
          ≡ done (state, c'))
        × (c'.written
            ≡ reply_header 16 (2 ^ 32 - 38) (in_header s.in_msg.message).unique ∷ c.written)
  unfolding serve_op
  serve_op-not_implemented zeroed responds =
      let u = handle_op-Unserved s.op s.out_msg.message state in
      let r = handle_op not_implemented_file_system s.op s.out_msg.message state in
      let (c', replied, sent) =
        reply-failed clock c reading xs ys s v r.op r.out (rw (u.1, zeroed)) enosys
          (rw (u.0, responds)) in
      (c', rw (serve_op, u.2, replied, u.3), sent)
