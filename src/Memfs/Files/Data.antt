-- ===== src/Memfs/Files/Data.antt =====
-- samples/memfs/memfs.go: WriteFile, ReadFile, SetInodeAttributes and Fallocate.
use fusego.Base.{
  zero, suc, refl, Bool, false, ℕ, ◌+◌, ◌<◌, ◌≡◌, ◌≢◌, true, false, ◌&&◌, Option, none, some, arith,
  ltb, ◌==◌, if◌then◌else◌, done, length, get_elem?,
}
use fusego.Base.Int.{pos}
use fusego.Bytes.{Bytes}
use fusego.Fuseops.{Time, InodeId, one_year, alloc_bound}
use fusego.Fuseops.Errno.{ebadf}
use fusego.Memfs.Inode.{Inode, is_dir, is_file, read_at}
use fusego.Memfs.Inode.Contents.{byte_at, read_at-write_at}
use fusego.Memfs.Inode.Resize.{fallocated, fallocate_lem, fallocate_bytes}
use fusego.Memfs.Inode.Invariant.{IsInode}
use fusego.Memfs.Inode.Methods.{
  IsResize, IsChmod, or_else, write_at-IsInode, set_attributes-IsInode, fallocate-IsInode,
}
use fusego.Memfs.Fs.{MemFs, Clock, put_inode}
use fusego.Memfs.Fs.Table.{inode_at, inode_at-put}
use fusego.Memfs.Fs.Invariant.{IsFs, put_inode-IsFs}
use fusego.Memfs.Names.View.{child, child-put, get-done}
use fusego.Memfs.Files.{
  truncates_blindly, set_inode_attributes, read_file, write_file, fallocate_op,
}

-- A call that changed one inode, and none of its entries: the file system stays valid, and so do all
-- names; that inode is now `m`, and the others are what they were.
pub record Changed (fs : MemFs) (id : InodeId) (m : Inode) (fs' : MemFs) : Type 0 where
  pub valid : IsFs fs'
  pub now_at : inode_at fs' id ≡ some m
  pub others : (j : InodeId) → j ≢ id → inode_at fs' j ≡ inode_at fs j
  pub names : (q : InodeId) (other : Bytes) → child fs' q other ≡ child fs q other

pub put_inode-Changed :
    (fs : MemFs) (id : InodeId) (n m : Inode)
    → IsFs fs
    → inode_at fs id ≡ some n
    → IsInode m
    → is_dir m ≡ is_dir n
    → m.entries ≡ n.entries
    → Changed fs id m (put_inode id m fs)
unfolding child
put_inode-Changed fs id n m v at valid kind same =
    let put = λ (j : InodeId). inode_at-put fs id j m (λ e. cc) in
    record {
      valid =
          put_inode-IsFs fs id n m v at valid kind
            (λ other c dt ne e. v.closed id n other c dt at ne (rw (← same) e));
      now_at = ground (arith, put id);
      others = λ j nj. ground (arith, put j);
      names = λ q other. ground (arith, child-put fs id q m other (λ e. cc), same);
    }

-- A write to a live regular file, that ends below 2^48 bytes, succeeds and changes that file alone. Then
-- reading the same range gives the bytes that were written.
pub read_file-write_file :
    (t : Clock) (id : InodeId) (p : Bytes) (off : ℕ) (fs : MemFs) (n : Inode)
    → IsFs fs
    → inode_at fs id ≡ some n
    → is_file n ≡ true
    → off + length p < alloc_bound
    → (m : Inode) × (fs' : MemFs) × (write_file t id p (pos off) fs ≡ done fs')
      × Changed fs id m fs'
      × (read_file id (length p) (pos off) fs' ≡ done p)
unfolding write_file read_file
read_file-write_file t id p off fs n v at file h =
    let (m, wrote, valid, kind, same) = write_at-IsInode (t 0) p off n (v.valid id n at) file h in
    let c = put_inode-Changed fs id n m v at valid kind same in
    let back : read_at (length p) (pos off) m ≡ done (p, false) =
      rw wrote at (read_at-write_at (t 0) p off n file h) in
    (
      m,
      put_inode id m fs,
      rw (get-done fs id at, wrote),
      c,
      rw (get-done (put_inode id m fs) id c.now_at, back),
    )

-- A size other than 0 is asked for without a handle.
abbrev pub is_blind : Option ℕ → Option ℕ → Bool
is_blind (some (suc size)) none = true
is_blind _ _ = false

truncates_blindly-eq :
    (size handle : Option ℕ) → truncates_blindly size handle ≡ is_blind size handle
truncates_blindly-eq none handle = refl
truncates_blindly-eq (some zero) none = refl
truncates_blindly-eq (some zero) (some h) = refl
truncates_blindly-eq (some (suc size)) none = ground arith
truncates_blindly-eq (some (suc size)) (some h) = ground arith

-- SetInodeAttributes (with a size for regular files only, and below 2^48, and with a mode that keeps the
-- kind and has no bits but those of the kind and the permissions) never panics and changes that inode alone, and answers
-- with its new attributes: the size, the mode and the time of modification are the given ones, if given, and that time
-- is the clock's else; the contents are cut or filled up with zeroes to a given size, and all else is kept. A size other
-- than 0 without a handle is answered with EBADF, and yet the size is set in that case too.
pub set_inode_attributes_lem :
    (t : Clock) (id : InodeId) (size mode : Option ℕ) (mtime : Option Time) (handle : Option ℕ)
    (fs : MemFs) (n : Inode)
    → IsFs fs
    → inode_at fs id ≡ some n
    → IsResize size n
    → IsChmod mode n.attrs.mode
    → (m : Inode) × (fs' : MemFs) × (set_inode_attributes t id size mode mtime handle fs
        ≡ done (
          (if is_blind size handle then some ebadf else none),
          record { attributes = m.attrs; attributes_expiration = t 1 + one_year },
          fs',
        ))
      × Changed fs id m fs'
      × (m.attrs ≡ record (n.attrs) {
        size = or_else n.attrs.size size;
        mode = or_else n.attrs.mode mode;
        mtime = or_else (t 0) mtime;
      })
      × (m.target ≡ n.target)
      × (m.xattrs ≡ n.xattrs)
      × ((i : ℕ)
          → get_elem? m.contents i
            ≡ (if ltb i (or_else n.attrs.size size) then byte_at n.contents i else none))
unfolding set_inode_attributes
set_inode_attributes_lem t id size mode mtime handle fs n v at r c =
    let (m, changed, valid, kind, same, attrs, target, xattrs, bytes) =
      set_attributes-IsInode (t 0) size mode mtime n (v.valid id n at) r c in
    (
      m,
      put_inode id m fs,
      rw (get-done fs id at, changed, truncates_blindly-eq size handle),
      put_inode-Changed fs id n m v at valid kind same,
      attrs,
      target,
      xattrs,
      bytes,
    )

-- For a length below 2^47, Fallocate with mode 0 on a live regular file makes it reach to twice that length,
-- whatever the offset: its first bytes stay, the others are zeroes, and its size is that of its contents. With any other
-- mode it changes nothing and reports no error either.
pub fallocate_op_lem :
    (id : InodeId) (mode offset len : ℕ) (fs : MemFs) (n : Inode)
    → IsFs fs
    → inode_at fs id ≡ some n
    → is_file n ≡ true
    → len + len < alloc_bound
    → (m : Inode) × (fs' : MemFs) × (fallocate_op id mode offset len fs ≡ done fs')
      × Changed fs id m fs'
      × (m.attrs ≡ record (n.attrs) { size = length m.contents })
      × (m.target ≡ n.target)
      × (m.xattrs ≡ n.xattrs)
      × (length m.contents ≡ (
          if mode == 0 && ltb (length n.contents) (len + len)
          then len + len
          else length n.contents))
      × ((i : ℕ) → i < length m.contents → get_elem? m.contents i ≡ byte_at n.contents i)
unfolding fallocate_op
fallocate_op_lem id mode offset len fs n v at file h =
    let vn = v.valid id n at in
    let m = fallocated mode len len n in
    let (valid, kind, same) = fallocate-IsInode mode len len n vn file in
    let (attrs, target, xattrs, size, bytes) = fallocate_bytes mode len len n vn.sized in
    (
      m,
      put_inode id m fs,
      rw (get-done fs id at, fallocate_lem mode len len n h),
      put_inode-Changed fs id n m v at valid kind same,
      attrs,
      target,
      xattrs,
      size,
      bytes,
    )
