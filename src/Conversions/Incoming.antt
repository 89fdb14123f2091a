-- ===== src/Conversions/Incoming.antt =====
-- conversions.go, convertInMessage: the switch over the numbers of the requests.
pub mod Names
pub mod Files
use fusego.Base.{ℕ, false, ◌==◌, if◌then◌else◌, Outcome, done, []}
use fusego.Base.Int.{ℤ}
use fusego.Fuseops.{Time}
use fusego.Fuseops.Ops.{get_inode_attributes, open_file, open_dir, read_symlink, stat_fs, unknown}
use fusego.Fusekernel.{Protocol}
use fusego.Fusekernel.Opcode
use fusego.Buffer.Incoming.{InMessage}
use fusego.Buffer.Outgoing.{OutMessage}
use fusego.Conversions.{Converted, converted, no_attributes}
use fusego.Conversions.Fields.{InHeader, in_header}
use fusego.Conversions.Incoming.Names.{
  convert_lookup, convert_mkdir, convert_mknod, convert_create, convert_symlink, convert_rename,
  convert_unlink, convert_rmdir, convert_link, convert_removexattr,
}
use fusego.Conversions.Incoming.Files.{
  convert_setattr, convert_forget, convert_release, convert_releasedir, convert_fsync,
  convert_flush, convert_fallocate, convert_interrupt, convert_init, convert_read, convert_readdir,
  convert_write, convert_getxattr, convert_listxattr, convert_setxattr,
}

-- The cases, for a header and the rest of its message.
unfoldable pub convert_request :
    (ℤ → ℕ → Time) → Protocol → InHeader → InMessage → OutMessage → Outcome Converted
convert_request unix p h m out =
    if h.opcode == Opcode.lookup
    then done (convert_lookup h m out)
    else if h.opcode == Opcode.getattr
    then done (
        converted
          (get_inode_attributes
            (record { inode = h.nodeid; attributes = no_attributes; attributes_expiration = 0 }))
          out)
    else if h.opcode == Opcode.setattr
    then done (convert_setattr unix h m out)
    else if h.opcode == Opcode.forget
    then done (convert_forget h m out)
    else if h.opcode == Opcode.mkdir
    then done (convert_mkdir p h m out)
    else if h.opcode == Opcode.mknod
    then done (convert_mknod p h m out)
    else if h.opcode == Opcode.create
    then done (convert_create p h m out)
    else if h.opcode == Opcode.symlink
    then convert_symlink h m out
    else if h.opcode == Opcode.rename
    then convert_rename h m out
    else if h.opcode == Opcode.unlink
    then done (convert_unlink h m out)
    else if h.opcode == Opcode.rmdir
    then done (convert_rmdir h m out)
    else if h.opcode == Opcode.open_file
    then done (
        converted
          (open_file (record {
            pid = h.pid;
            inode = h.nodeid;
            handle = 0;
            keep_page_cache = false;
            use_direct_io = false;
          }))
          out)
    else if h.opcode == Opcode.opendir
    then done (converted (open_dir (record { inode = h.nodeid; handle = 0 })) out)
    else if h.opcode == Opcode.read
    then done (convert_read p h m out)
    else if h.opcode == Opcode.readdir
    then done (convert_readdir p h m out)
    else if h.opcode == Opcode.release
    then done (convert_release m out)
    else if h.opcode == Opcode.releasedir
    then done (convert_releasedir m out)
    else if h.opcode == Opcode.write
    then done (convert_write p h m out)
    else if h.opcode == Opcode.fsync
    then done (convert_fsync h m out)
    else if h.opcode == Opcode.flush
    then done (convert_flush h m out)
    else if h.opcode == Opcode.readlink
    then done (converted (read_symlink (record { inode = h.nodeid; target = [] })) out)
    else if h.opcode == Opcode.statfs
    then done (
        converted
          (stat_fs (record {
            block_size = 0;
            blocks = 0;
            blocks_free = 0;
            blocks_available = 0;
            io_size = 0;
            inodes = 0;
            inodes_free = 0;
          }))
          out)
    else if h.opcode == Opcode.interrupt
    then done (convert_interrupt m out)
    else if h.opcode == Opcode.init
    then done (convert_init m out)
    else if h.opcode == Opcode.link
    then done (convert_link h m out)
    else if h.opcode == Opcode.removexattr
    then done (convert_removexattr h m out)
    else if h.opcode == Opcode.getxattr
    then done (convert_getxattr h m out)
    else if h.opcode == Opcode.listxattr
    then done (convert_listxattr h m out)
    else if h.opcode == Opcode.setxattr
    then done (convert_setxattr h m out)
    else if h.opcode == Opcode.fallocate
    then done (convert_fallocate h m out)
    else done (converted (unknown (record { op_code = h.opcode; inode = h.nodeid })) out)

-- `convertInMessage`; `unix` is time.Unix on a number of seconds and of nanoseconds.
unfoldable pub convert_in_message :
    (ℤ → ℕ → Time) → Protocol → InMessage → OutMessage → Outcome Converted
unfolding convert_request
convert_in_message unix p m out = convert_request unix p (in_header m) m out
