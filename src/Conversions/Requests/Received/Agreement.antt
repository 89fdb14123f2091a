-- ===== src/Conversions/Requests/Received/Agreement.antt =====
-- Every request, as the kernel writes it, under convertInMessage.
use fusego.Base.{ℕ, refl}
use fusego.Base.Int.{ℤ}
use fusego.Bytes.{Bytes}
use fusego.Fuseops.{Time}
use fusego.Fusekernel.{Protocol}
use fusego.Buffer.Outgoing.{OutMessage}
use fusego.Conversions.Incoming.{convert_request}
use fusego.Conversions.Requests.{
  Unread, Request, lookup, getattr, setattr, forget, mkdir, mknod, create, symlink, rename, unlink,
  rmdir, open_file, opendir, read, readdir, release, releasedir, write, fsync, flush, readlink,
  statfs, interrupt, init, link, removexattr, getxattr, listxattr, setxattr, fallocate, IsRequest,
}
use fusego.Conversions.Requests.Received.Cases.{reserved-zero, Agrees}
use fusego.Conversions.Requests.Received.Structs
use fusego.Conversions.Requests.Received.Named
use fusego.Conversions.Requests.Received.Filled

module _ (unix : ℤ → ℕ → Time) (p : Protocol) (x : Unread) (unique node pid : ℕ) (st : Bytes)
    (out : OutMessage) where
  pub convert_request-Agrees :
      (r : Request) → IsRequest r → Agrees unix p x unique node pid st out r
  unfolding convert_request
  convert_request-Agrees (lookup name) h = Named.lookup_case unix p x unique node pid st out name
  convert_request-Agrees getattr h = rw (reserved-zero) refl
  convert_request-Agrees (setattr valid fh size atime mtime atime_nsec mtime_nsec mode) h =
      Structs.setattr_case unix p x unique node pid st out valid fh size atime mtime atime_nsec
        mtime_nsec mode h
  convert_request-Agrees (forget n) h = Structs.forget_case unix p x unique node pid st out n h
  convert_request-Agrees (mkdir mode umask name) h =
      Named.mkdir_case unix p x unique node pid st out mode umask name h.0 h.1
  convert_request-Agrees (mknod mode rdev umask name) h =
      Named.mknod_case unix p x unique node pid st out mode rdev umask name h.0 h.1
  convert_request-Agrees (create flags mode umask name) h =
      Named.create_case unix p x unique node pid st out flags mode umask name h.0 h.1
  convert_request-Agrees (symlink name target) h =
      Named.symlink_case unix p x unique node pid st out name target h
  convert_request-Agrees (rename newdir old_name new_name) h =
      Named.rename_case unix p x unique node pid st out newdir old_name new_name h.0 h.1 h.2
  convert_request-Agrees (unlink name) h = Named.unlink_case unix p x unique node pid st out name
  convert_request-Agrees (rmdir name) h = Named.rmdir_case unix p x unique node pid st out name
  convert_request-Agrees open_file h = rw (reserved-zero) refl
  convert_request-Agrees opendir h = rw (reserved-zero) refl
  convert_request-Agrees (read fh offset size) h =
      Filled.read_case unix p x unique node pid st out fh offset size h.0 h.1 h.2
  convert_request-Agrees (readdir fh offset size) h =
      Filled.readdir_case unix p x unique node pid st out fh offset size h.0 h.1 h.2
  convert_request-Agrees (release fh) h = Structs.release_case unix p x unique node pid st out fh h
  convert_request-Agrees (releasedir fh) h =
      Structs.releasedir_case unix p x unique node pid st out fh h
  convert_request-Agrees (write fh offset contents) h =
      Filled.write_case unix p x unique node pid st out fh offset contents h.0 h.1 h.2
  convert_request-Agrees (fsync fh) h = Structs.fsync_case unix p x unique node pid st out fh h
  convert_request-Agrees (flush fh) h = Structs.flush_case unix p x unique node pid st out fh h
  convert_request-Agrees readlink h = rw (reserved-zero) refl
  convert_request-Agrees statfs h = rw (reserved-zero) refl
  convert_request-Agrees (interrupt fuse_id) h =
      Structs.interrupt_case unix p x unique node pid st out fuse_id h
  convert_request-Agrees (init major minor readahead flags) h =
      Structs.init_case unix p x unique node pid st out major minor readahead flags h.0 h.1 h.2 h.3
  convert_request-Agrees (link oldnodeid name) h =
      Named.link_case unix p x unique node pid st out oldnodeid name h.0 h.1
  convert_request-Agrees (removexattr name) h =
      Named.removexattr_case unix p x unique node pid st out name
  convert_request-Agrees (getxattr size name) h =
      Filled.getxattr_case unix p x unique node pid st out size name h.0 h.1
  convert_request-Agrees (listxattr size) h =
      Filled.listxattr_case unix p x unique node pid st out size h
  convert_request-Agrees (setxattr flags name value) h =
      Filled.setxattr_case unix p x unique node pid st out flags name value h
  convert_request-Agrees (fallocate fh offset len mode) h =
      Structs.fallocate_case unix p x unique node pid st out fh offset len mode h.0 h.1 h.2 h.3
