-- ===== src/Memfs/Inode/Methods.antt =====
-- samples/memfs/inode.go: WriteAt, SetAttributes and Fallocate under the invariant of an inode.
use fusego.Base.{
  ℕ, ◌+◌, ◌<◌, ◌≡◌, refl, sym, ltb, if◌then◌else◌, Bool-cases, inl, inr, true, Option, none, some,
  arith, done, get_elem?, get_elem?-ge, length,
}
use fusego.Base.Int.{pos}
use fusego.Bytes.{Bytes}
use fusego.Fuseops.{Time, alloc_bound}
use fusego.Fuseops.FileMode.{has_bit, dir_bit, symlink_bit}
use fusego.Memfs.Inode.{
  Inode, is_dir, is_symlink, is_file, resize, write_at, set_attributes, or_keep,
}
use fusego.Memfs.Inode.Contents.{byte_at, length-grow, written, write_at-done, written-size}
use fusego.Memfs.Inode.Resize.{extends, resized, length-resized, fallocated, get_elem?-resized}
use fusego.Memfs.Inode.Invariant.{IsInode, IsMode}

pub write_at-IsInode :
    (now : Time) (p : Bytes) (off : ℕ) (n : Inode)
    → IsInode n
    → is_file n ≡ true
    → off + length p < alloc_bound
    → (n' : Inode) × (write_at now p (pos off) n ≡ done (n', length p))
      × IsInode n'
      × (is_dir n' ≡ is_dir n)
      × (n'.entries ≡ n.entries)
unfolding is_file is_dir is_symlink
write_at-IsInode now p off n v file h = (
  written now p off n,
  write_at-done now p off n file h,
  record {
    plain = v.plain;
    one_kind = v.one_kind;
    sized = written-size now p off n v.sized;
    leaf = v.leaf;
    slots = v.slots;
    stored = inl file;
    linked = v.linked;
  },
  refl,
  refl,
)

-- The new size, or the old one: the kernel sets a size on regular files only.
abbrev pub IsResize : Option ℕ → Inode → Type 0
IsResize none n = Unit
IsResize (some size) n = (is_file n ≡ true) × (size < alloc_bound)

-- A new mode keeps the kind of the file.
abbrev pub IsChmod : Option ℕ → ℕ → Type 0
IsChmod none old = Unit
IsChmod (some m) old =
    IsMode m
    × (has_bit m dir_bit ≡ has_bit old dir_bit)
    × (has_bit m symlink_bit ≡ has_bit old symlink_bit)

chmod-IsInode :
    (mode : Option ℕ) (mtime : Time) (n : Inode)
    → IsInode n
    → IsChmod mode n.attrs.mode
    → let n' : Inode = record n {
      attrs = record (n.attrs) { mode = or_keep mode n.attrs.mode; mtime = mtime };
    } in
      IsInode n' × (is_dir n' ≡ is_dir n) × (is_file n' ≡ is_file n)
unfolding is_file is_dir is_symlink
chmod-IsInode none mtime n v c = (ground arith, refl, refl)
chmod-IsInode (some m) mtime n v c = (ground arith, ground arith, ground arith)

-- The value that is given, or another.
abbrev pub or_else : ℕ → Option ℕ → ℕ
or_else old none = old
or_else old (some new) = new

or_keep-or_else : (new : Option ℕ) (old : ℕ) → or_keep new old ≡ or_else old new
or_keep-or_else none old = refl
or_keep-or_else (some new) old = refl

within : (xs : Bytes) (i : ℕ) → get_elem? xs i ≡ (if ltb i (length xs) then byte_at xs i else none)
within xs i = elim (Bool-cases (ltb i (length xs))) [
  | inl inside ↦ rw inside
  | inr beyond ↦ rw beyond (get_elem?-ge xs i (ground arith))
]

pub set_attributes-IsInode :
    (now : Time) (size mode : Option ℕ) (mtime : Option Time) (n : Inode)
    → IsInode n
    → IsResize size n
    → IsChmod mode n.attrs.mode
    → (n' : Inode) × (set_attributes now size mode mtime n ≡ done n')
      × IsInode n'
      × (is_dir n' ≡ is_dir n)
      × (n'.entries ≡ n.entries)
      × (n'.attrs ≡ record (n.attrs) {
        size = or_else n.attrs.size size;
        mode = or_else n.attrs.mode mode;
        mtime = or_else now mtime;
      })
      × (n'.target ≡ n.target)
      × (n'.xattrs ≡ n.xattrs)
      × ((i : ℕ)
          → get_elem? n'.contents i
            ≡ (if ltb i (or_else n.attrs.size size) then byte_at n.contents i else none))
unfolding set_attributes resize is_file is_dir is_symlink
set_attributes-IsInode now none mode mtime n v r c =
    let (valid, dir, _) = chmod-IsInode mode (or_keep mtime now) n v c in
    (
      _,
      refl,
      valid,
      dir,
      refl,
      rw (or_keep-or_else mode n.attrs.mode, or_keep-or_else mtime now),
      refl,
      refl,
      λ i. rw (v.sized) (within n.contents i),
    )
set_attributes-IsInode now (some size) mode mtime n v (file, h) c =
    let fits : ltb size alloc_bound ≡ true = ground arith in
    let n' : Inode = record n {
      attrs = record (n.attrs) { size = size };
      contents = resized size n.contents;
    } in
    let sized : IsInode n' = record {
      plain = v.plain;
      one_kind = v.one_kind;
      sized = sym (length-resized size n.contents);
      leaf = v.leaf;
      slots = v.slots;
      stored = inl file;
      linked = v.linked;
    } in
    let (valid, dir, _) = chmod-IsInode mode (or_keep mtime now) n' sized c in
    (
      _,
      rw fits,
      valid,
      dir,
      refl,
      rw (or_keep-or_else mode n.attrs.mode, or_keep-or_else mtime now),
      refl,
      refl,
      get_elem?-resized size n.contents,
    )

pub fallocate-IsInode :
    (mode offset len : ℕ) (n : Inode)
    → IsInode n
    → is_file n ≡ true
    → let n' = fallocated mode offset len n in
      IsInode n' × (is_dir n' ≡ is_dir n) × (n'.entries ≡ n.entries)
unfolding is_file is_dir is_symlink
fallocate-IsInode mode offset len n v file = (elim (Bool-cases (extends mode offset len n)) [
  | inl longer ↦ rw longer (
    record {
      plain = v.plain;
      one_kind = v.one_kind;
      sized = ground (arith, length-grow (offset + len) n.contents);
      leaf = v.leaf;
      slots = v.slots;
      stored = inl file;
      linked = v.linked;
    },
    refl,
    refl,
  )
  | inr same ↦ rw same (v, refl, refl)
])
