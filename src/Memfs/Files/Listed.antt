-- ===== src/Memfs/Files/Listed.antt =====
-- Extended attributes as a list of names: ListXattr.
use fusego.Base.{
  ℕ, ◌+◌, ◌≤◌, ◌<◌, ◌≡◌, ◌≢◌, refl, ◌⊎◌, inl, inr, Bool, true, false, not, none, some, [], ◌∷◌,
  ◌++◌, arith, leb, ◌==◌, done, length, take, drop, length-drop, Bool-cases,
}
use fusego.Bytes.{Bytes}
use fusego.Fuseops.{InodeId}
use fusego.Fuseops.Errno.{erange}
use fusego.Memfs.Inode.{Inode, Xattrs}
use fusego.Memfs.Fs.{MemFs}
use fusego.Memfs.Fs.Table.{inode_at}
use fusego.Memfs.Names.View.{get-done}
use fusego.Memfs.Files.{XattrRead, list_keys, list_xattr}

-- The room that the names take, with one byte after each.
abbrev pub names_size : Xattrs → ℕ
names_size [] = 0
names_size ((k, _) ∷ m) = length k + 1 + names_size m

-- The names, with the byte after each as the buffer `dst` has it.
abbrev pub names_over : Bytes → Xattrs → Bytes
names_over dst [] = []
names_over dst ((k, _) ∷ m) =
    k ++ (take 1 (drop (length k) dst) ++ names_over (drop (length k + 1) dst) m)

list_keys-fitting :
    (sized : Bool) (dst : Bytes) (m : Xattrs)
    → names_size m ≤ length dst
    → list_keys sized dst m
      ≡ record { written = names_over dst m; bytes_read = names_size m; error = none }
unfolding list_keys
list_keys-fitting sized dst [] h = refl
list_keys-fitting sized dst ((k, v) ∷ m) h =
    let fits : leb (length k + 1) (length dst) ≡ true = ground arith in
    rw (
      fits,
      list_keys-fitting sized (drop (length k + 1) dst) m
          (omega (arith, length-drop (length k + 1) dst)),
    )

list_keys-full :
    (dst : Bytes) (m : Xattrs)
    → length dst < names_size m
    → (list_keys true dst m).error ≡ some erange
unfolding list_keys
list_keys-full dst [] h = absurd (omega arith)
list_keys-full dst ((k, v) ∷ m) h = elim (Bool-cases (leb (length k + 1) (length dst))) [
  | inl fits ↦
      rw fits (
        list_keys-full (drop (length k + 1) dst) m (ground (arith, length-drop (length k + 1) dst)))
  | inr over ↦ rw over
]

list_keys-query :
    (m : Xattrs)
    → list_keys false [] m ≡ record { written = []; bytes_read = names_size m; error = none }
unfolding list_keys
list_keys-query [] = refl
list_keys-query ((k, v) ∷ m) =
    let over : leb (length k + 1) 0 ≡ false = ground arith in rw (over, list_keys-query m)

-- ListXattr on a live inode never panics. With no buffer it reports the room that the names take, one
-- byte after each name included; with a buffer that has this room it reports the same and writes the
-- names, but leaves the byte after each as it was; with a shorter one it answers ERANGE.
pub list_xattr_lem :
    (id : InodeId) (dst : Bytes) (fs : MemFs) (n : Inode)
    → inode_at fs id ≡ some n
    → ((dst ≡ [])
        × (list_xattr id dst fs
            ≡ done (record { written = []; bytes_read = names_size n.xattrs; error = none })))
      ⊎ ((dst ≢ [])
          × (names_size n.xattrs ≤ length dst)
          × (list_xattr id dst fs
              ≡ done (record {
                written = names_over dst n.xattrs;
                bytes_read = names_size n.xattrs;
                error = none;
              })))
      ⊎ ((dst ≢ [])
          × (length dst < names_size n.xattrs)
          × (r : XattrRead) × (list_xattr id dst fs ≡ done r)
          × (r.error ≡ some erange))
unfolding list_xattr
list_xattr_lem id [] fs n at = inl (refl, rw (get-done fs id at, list_keys-query n.xattrs))
list_xattr_lem id (b ∷ dst) fs n at =
    let sized : not (length (b ∷ dst) == 0) ≡ true = ground arith in
    elim (Bool-cases (leb (names_size n.xattrs) (length (b ∷ dst)))) [
      | inl fits ↦
          let room : names_size n.xattrs ≤ length (b ∷ dst) = ground arith in
          inr (
            inl (
              λ e. cc,
              room,
              rw (get-done fs id at, sized, list_keys-fitting true (b ∷ dst) n.xattrs room),
            ))
      | inr over ↦
          let short : length (b ∷ dst) < names_size n.xattrs = ground arith in
          inr (
            inr (
              λ e. cc,
              short,
              list_keys true (b ∷ dst) n.xattrs,
              rw (get-done fs id at, sized),
              list_keys-full (b ∷ dst) n.xattrs short,
            ))
    ]
