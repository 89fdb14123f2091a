-- ===== src/Memfs/Names/Handlers.antt =====
-- The handlers that create a child, as a whole.
use fusego.Base.{
  ℕ, ◌+◌, ◌^◌, ◌≡◌, ◌≢◌, refl, ◌⊎◌, inl, inr, true, none, some, [], arith, ◌==◌, Outcome, done,
  Bool-cases, Option-cases,
}
use fusego.Bytes.{Bytes}
use fusego.Dirent.DirentType
use fusego.Fuseops.{Time, InodeId, InodeAttributes, ChildInodeEntry, Reply, ok, fail}
use fusego.Fuseops.Errno.{eexist, einval}
use fusego.Memfs.Inode.{new_inode, Inode, is_dir}
use fusego.Memfs.Inode.Entries.{child_of}
use fusego.Memfs.Inode.Invariant.{IsMode}
use fusego.Memfs.Fs.{MemFs, Clock}
use fusego.Memfs.Fs.Table.{inode_at}
use fusego.Memfs.Fs.Invariant.{IsFs}
use fusego.Memfs.Names.{
  mk_dir, mk_node, if_free, add_new_child, create_file_at, create_file, create_symlink, dir_attrs,
  file_attrs, symlink_mode,
}
use fusego.Memfs.Names.View.{child}
use fusego.Memfs.Names.Creation.{Created, IsTarget, fresh_inode, add_new_child-Created, if_free-eq}

-- An inode without entries, contents and extended attributes, with one link, of the user and the group of
-- the file system.
abbrev pub fresh_at : Time → Time → ℕ → MemFs → Bytes → Inode
fresh_at before now mode fs target = record {
  attrs = record {
    size = 0;
    nlink = 1;
    mode = mode;
    atime = before;
    mtime = now;
    ctime = before;
    crtime = now;
    uid = fs.uid;
    gid = fs.gid;
  };
  entries = [];
  contents = [];
  target = target;
  xattrs = [];
}

-- A creation that answers EEXIST and changes nothing if the name is taken, and creates the child else.
abbrev pub CreatesOrExists :
    Time → MemFs → InodeId → Bytes → ℕ → Inode → Outcome (Reply ChildInodeEntry × MemFs) → Type 0
CreatesOrExists now fs parent name dt fresh r =
    ((child fs parent name ≢ none) × (r ≡ done (fail eexist, fs)))
    ⊎ ((entry : ChildInodeEntry) × (fs' : MemFs) × (child fs parent name ≡ none)
        × (r ≡ done (ok entry, fs'))
        × Created now fs parent name dt fresh entry fs')

module _ (t : Clock) (parent : InodeId) (name : Bytes) (fs : MemFs) (n : Inode) (v : IsFs fs)
    (at : inode_at fs parent ≡ some n) (dir : is_dir n ≡ true) (ne : name ≢ []) where
  creation :
      (k : ℕ) (attrs : InodeAttributes) (target : Bytes) (dt : ℕ)
      → dt ≢ DirentType.unknown
      → IsMode attrs.mode
      → attrs.size ≡ 0
      → IsTarget attrs.mode target
      → CreatesOrExists
          (t (k + 1))
          fs
          parent
          name
          dt
          (fresh_inode (t k) attrs target)
          (if_free parent name fs (add_new_child t k attrs target dt parent name fs))
  unfolding child
  creation k attrs target dt used mode empty link =
      let create = add_new_child t k attrs target dt parent name fs in
      elim (Option-cases (child_of name n.entries)) [
        | inl free ↦
            let (entry, fs', e, created) =
              add_new_child-Created t k attrs target dt parent name fs n v at dir ne used free mode
                empty link in
            inr (
              entry,
              fs',
              rw at free,
              rw (if_free-eq parent name fs n create at dir, free) e,
              created,
            )
        | inr (old, taken) ↦ inl (
          λ nothing. cc (rw at at nothing),
          rw (if_free-eq parent name fs n create at dir, taken),
        )
      ]

  pub mk_dir-CreatesOrExists :
      (mode : ℕ)
      → IsMode mode
      → CreatesOrExists
          (t 1)
          fs
          parent
          name
          DirentType.directory
          (fresh_at 0 (t 0) mode fs [])
          (mk_dir t parent name mode fs)
  unfolding mk_dir new_inode
  mk_dir-CreatesOrExists mode allowed =
      creation 0 (dir_attrs mode fs) [] DirentType.directory (omega arith) allowed refl (inr refl)

  -- MkNode likewise, with an empty inode under a file entry.
  pub mk_node-CreatesOrExists :
      (mode : ℕ)
      → IsMode mode
      → CreatesOrExists
          (t 2)
          fs
          parent
          name
          DirentType.file
          (fresh_at (t 0) (t 1) mode fs [])
          (mk_node t parent name mode fs)
  unfolding mk_node create_file_at new_inode
  mk_node-CreatesOrExists mode allowed =
      creation 1 (file_attrs (t 0) mode fs) [] DirentType.file (omega arith) allowed refl (inr refl)

  pub create_file-CreatesOrExists :
      (pid mode : ℕ)
      → IsMode mode
      → ((pid ≡ 0) × (create_file t pid parent name mode fs ≡ done (fail einval, fs)))
        ⊎ ((pid ≢ 0)
            × (create_file t pid parent name mode fs ≡ mk_node t parent name mode fs)
            × CreatesOrExists
                (t 2)
                fs
                parent
                name
                DirentType.file
                (fresh_at (t 0) (t 1) mode fs [])
                (mk_node t parent name mode fs))
  unfolding create_file mk_node create_file_at
  create_file-CreatesOrExists pid mode allowed = elim (Bool-cases (pid == 0)) [
    | inl zero_pid ↦ inl (ground arith, rw zero_pid)
    | inr some_pid ↦ inr (ground arith, rw some_pid, mk_node-CreatesOrExists mode allowed)
  ]

  pub create_symlink-CreatesOrExists :
      (target : Bytes)
      → CreatesOrExists
          (t 2)
          fs
          parent
          name
          DirentType.link
          (fresh_at (t 0) (t 1) (0o444 + 2 ^ 27) fs target)
          (create_symlink t parent name target fs)
  unfolding create_symlink new_inode
  create_symlink-CreatesOrExists target =
      creation 1 (file_attrs (t 0) symlink_mode fs) target DirentType.link (omega arith)
        (refl, refl) refl (inl refl)
