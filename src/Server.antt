-- ===== src/Server.antt =====
-- fuseutil/file_system.go: the dispatch of an op to the method of a file system, and the reply.
pub mod NotImplemented
use fusego.Base.{
  ℕ, Bool, true, false, Option, none, some, List, [], Outcome, done, ◌>>=◌, length, take,
}
use fusego.Bytes.{Bytes}
use fusego.Fuseops.Ops
use fusego.Fuseops.Ops.{
  Op, StatFsOp, LookUpInodeOp, GetInodeAttributesOp, SetInodeAttributesOp, ForgetInodeOp, MkDirOp,
  MkNodeOp, CreateFileOp, CreateLinkOp, CreateSymlinkOp, RenameOp, RmDirOp, UnlinkOp, OpenDirOp,
  ReadDirOp, ReleaseDirHandleOp, OpenFileOp, ReadFileOp, WriteFileOp, SyncFileOp, FlushFileOp,
  ReleaseFileHandleOp, ReadSymlinkOp, RemoveXattrOp, GetXattrOp, ListXattrOp, SetXattrOp,
  FallocateOp,
}
use fusego.Buffer.Outgoing.{OutMessage, overwrite}
use fusego.Conversions.Outgoing.{OpError, errno}
use fusego.Conversions.Outgoing.Structs.{Clock}
use fusego.Connection.{Connection, OpState, Allocated}
use fusego.Connection.Ops.{reply}

-- What a method leaves: the op with its fields filled in, the bytes that it wrote to the front of the op's buffer, the
-- error that it returns, and the state of the file system.
pub record Returned {ℓ} (S : Type ℓ) (A : Type 0) : Type ℓ where
  pub op : A
  pub filled : Bytes
  pub err : Option OpError
  pub state : S

-- The interface FileSystem, on a state S. Destroy is not called for an op.
pub record FileSystem {ℓ} (S : Type ℓ) : Type ℓ where
  pub stat_fs : StatFsOp → S → Returned S StatFsOp
  pub look_up_inode : LookUpInodeOp → S → Returned S LookUpInodeOp
  pub get_inode_attributes : GetInodeAttributesOp → S → Returned S GetInodeAttributesOp
  pub set_inode_attributes : SetInodeAttributesOp → S → Returned S SetInodeAttributesOp
  pub forget_inode : ForgetInodeOp → S → Returned S ForgetInodeOp
  pub mk_dir : MkDirOp → S → Returned S MkDirOp
  pub mk_node : MkNodeOp → S → Returned S MkNodeOp
  pub create_file : CreateFileOp → S → Returned S CreateFileOp
  pub create_link : CreateLinkOp → S → Returned S CreateLinkOp
  pub create_symlink : CreateSymlinkOp → S → Returned S CreateSymlinkOp
  pub rename : RenameOp → S → Returned S RenameOp
  pub rm_dir : RmDirOp → S → Returned S RmDirOp
  pub unlink : UnlinkOp → S → Returned S UnlinkOp
  pub open_dir : OpenDirOp → S → Returned S OpenDirOp
  pub read_dir : ReadDirOp → S → Returned S ReadDirOp
  pub release_dir_handle : ReleaseDirHandleOp → S → Returned S ReleaseDirHandleOp
  pub open_file : OpenFileOp → S → Returned S OpenFileOp
  pub read_file : ReadFileOp → S → Returned S ReadFileOp
  pub write_file : WriteFileOp → S → Returned S WriteFileOp
  pub sync_file : SyncFileOp → S → Returned S SyncFileOp
  pub flush_file : FlushFileOp → S → Returned S FlushFileOp
  pub release_file_handle : ReleaseFileHandleOp → S → Returned S ReleaseFileHandleOp
  pub read_symlink : ReadSymlinkOp → S → Returned S ReadSymlinkOp
  pub remove_xattr : RemoveXattrOp → S → Returned S RemoveXattrOp
  pub get_xattr : GetXattrOp → S → Returned S GetXattrOp
  pub list_xattr : ListXattrOp → S → Returned S ListXattrOp
  pub set_xattr : SetXattrOp → S → Returned S SetXattrOp
  pub fallocate : FallocateOp → S → Returned S FallocateOp

-- An op as a method has left it, with the message for the reply, in which the buffer lies at the front of the payload.
pub record Handled {ℓ} (S : Type ℓ) : Type ℓ where
  pub op : Op
  pub out : OutMessage
  pub err : Option OpError
  pub state : S

-- The buffer of an op, of `dst` bytes.
abbrev pub returned {ℓ} :
    {S : Type ℓ} {A : Type 0} → (A → Op) → ℕ → OutMessage → Returned S A → Handled S
returned make dst out r = record {
  op = make r.op;
  out = record out { payload = overwrite 0 (take dst r.filled) out.payload };
  err = r.err;
  state = r.state;
}

-- `fuse.ENOSYS`
abbrev pub enosys : OpError
enosys = errno 38

abbrev pub not_dispatched {ℓ} : {S : Type ℓ} → Op → OutMessage → S → Handled S
not_dispatched op out state = record { op = op; out = out; err = some enosys; state = state }

-- The switch of `handleOp`.
unfoldable pub handle_op {ℓ} : {S : Type ℓ} → FileSystem S → Op → OutMessage → S → Handled S
handle_op fs (Ops.stat_fs o) out state = returned Ops.stat_fs 0 out (fs.stat_fs o state)
handle_op fs (Ops.look_up_inode o) out state =
    returned Ops.look_up_inode 0 out (fs.look_up_inode o state)
handle_op fs (Ops.get_inode_attributes o) out state =
    returned Ops.get_inode_attributes 0 out (fs.get_inode_attributes o state)
handle_op fs (Ops.set_inode_attributes o) out state =
    returned Ops.set_inode_attributes 0 out (fs.set_inode_attributes o state)
handle_op fs (Ops.forget_inode o) out state =
    returned Ops.forget_inode 0 out (fs.forget_inode o state)
handle_op fs (Ops.mk_dir o) out state = returned Ops.mk_dir 0 out (fs.mk_dir o state)
handle_op fs (Ops.mk_node o) out state = returned Ops.mk_node 0 out (fs.mk_node o state)
handle_op fs (Ops.create_file o) out state = returned Ops.create_file 0 out (fs.create_file o state)
handle_op fs (Ops.create_link o) out state = returned Ops.create_link 0 out (fs.create_link o state)
handle_op fs (Ops.create_symlink o) out state =
    returned Ops.create_symlink 0 out (fs.create_symlink o state)
handle_op fs (Ops.rename o) out state = returned Ops.rename 0 out (fs.rename o state)
handle_op fs (Ops.rm_dir o) out state = returned Ops.rm_dir 0 out (fs.rm_dir o state)
handle_op fs (Ops.unlink o) out state = returned Ops.unlink 0 out (fs.unlink o state)
handle_op fs (Ops.open_dir o) out state = returned Ops.open_dir 0 out (fs.open_dir o state)
handle_op fs (Ops.read_dir o) out state = returned Ops.read_dir o.dst out (fs.read_dir o state)
handle_op fs (Ops.release_dir_handle o) out state =
    returned Ops.release_dir_handle 0 out (fs.release_dir_handle o state)
handle_op fs (Ops.open_file o) out state = returned Ops.open_file 0 out (fs.open_file o state)
handle_op fs (Ops.read_file o) out state = returned Ops.read_file o.dst out (fs.read_file o state)
handle_op fs (Ops.write_file o) out state = returned Ops.write_file 0 out (fs.write_file o state)
handle_op fs (Ops.sync_file o) out state = returned Ops.sync_file 0 out (fs.sync_file o state)
handle_op fs (Ops.flush_file o) out state = returned Ops.flush_file 0 out (fs.flush_file o state)
handle_op fs (Ops.release_file_handle o) out state =
    returned Ops.release_file_handle 0 out (fs.release_file_handle o state)
handle_op fs (Ops.read_symlink o) out state =
    returned Ops.read_symlink 0 out (fs.read_symlink o state)
handle_op fs (Ops.remove_xattr o) out state =
    returned Ops.remove_xattr 0 out (fs.remove_xattr o state)
handle_op fs (Ops.get_xattr o) out state = returned Ops.get_xattr o.dst out (fs.get_xattr o state)
handle_op fs (Ops.list_xattr o) out state =
    returned Ops.list_xattr o.dst out (fs.list_xattr o state)
handle_op fs (Ops.set_xattr o) out state = returned Ops.set_xattr 0 out (fs.set_xattr o state)
handle_op fs (Ops.fallocate o) out state = returned Ops.fallocate 0 out (fs.fallocate o state)
handle_op fs (Ops.unknown o) out state = not_dispatched (Ops.unknown o) out state
handle_op fs (Ops.interrupt o) out state = not_dispatched (Ops.interrupt o) out state
handle_op fs (Ops.init o) out state = not_dispatched (Ops.init o) out state

-- `handleOp`, with the reply.
unfoldable pub serve_op {ℓ} :
    {S : Type ℓ} → FileSystem S → Clock → OpState → S → Connection → Outcome (S × Connection)
unfolding handle_op reply
serve_op fs clock s state c =
    let r = handle_op fs s.op s.out_msg.message state in
    reply clock
      (record {
        in_msg = s.in_msg;
        out_msg = record { pointer = s.out_msg.pointer; message = r.out };
        op = r.op;
      })
      r.err c
    >>= λ c'. done (r.state, c')
