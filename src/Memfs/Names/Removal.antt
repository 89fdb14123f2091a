-- ===== src/Memfs/Names/Removal.antt =====
-- samples/memfs/memfs.go: Unlink and RmDir, on the map of names and on link counts.
use fusego.Base.{
  List-cases, length, ap, ℕ, ◌+◌, ◌-◌, ◌%◌, ◌≡◌, ◌≢◌, refl, ◌⊎◌, inl, inr, true, ◌&&◌, none, some,
  [], arith, ◌==◌, if◌then◌else◌, done, Bool-cases, Option-cases,
}
use fusego.Bytes.{Bytes, bytes_eq}
use fusego.Fuseops.{Time, InodeAttributes, InodeId, ok, fail, u32_mod}
use fusego.Fuseops.Errno.{enoent, enotempty}
use fusego.Memfs.Inode.{Inode, is_dir, is_symlink, is_file, len}
use fusego.Memfs.Inode.Listing.{used, count_used-used}
use fusego.Memfs.Inode.Entries.{child_of, look_up_child-eq}
use fusego.Memfs.Inode.Invariant.{IsInode, remove_child_lem}
use fusego.Memfs.Fs.{MemFs, Clock, put_inode}
use fusego.Memfs.Fs.Table.{inode_at, inode_at-put}
use fusego.Memfs.Fs.Invariant.{IsFs, put_inode-IsFs}
use fusego.Memfs.Names.{remove_from, unlink_child, unlink, rm_dir, with_nlink}
use fusego.Memfs.Names.Kept.{Keeps, Keeps-put, Keeps-then, modified, modified-other}
use fusego.Memfs.Names.View.{child, child-put, get-done}

-- The file system after RemoveChild on a live directory that has the name.
pub record Removed (now : Time) (fs : MemFs) (parent : InodeId) (name : Bytes) (fs' : MemFs)
    : Type 0 where
  pub valid : IsFs fs'
  pub named :
      (q : InodeId) (other : Bytes)
      → other ≢ []
      → child fs' q other ≡ (if parent == q && bytes_eq name other then none else child fs q other)
  pub others : (j : InodeId) → j ≢ parent → inode_at fs' j ≡ inode_at fs j
  -- The parent's time of modification is set, and all else but its entries is kept.
  pub kept : Keeps (modified parent now) fs fs'

module _ (now : ℕ) (parent : InodeId) (name : Bytes) (fs : MemFs) (n : Inode) (v : IsFs fs)
    (at : inode_at fs parent ≡ some n) (dir : is_dir n ≡ true) (ne : name ≢ [])
    (present : child_of name n.entries ≢ none) where
  pub remove_from-Removed :
      (fs' : MemFs) × (remove_from now parent name fs ≡ done fs') × Removed now fs parent name fs'
  unfolding remove_from child is_dir
  remove_from-Removed =
      let (n', removed, valid, attrs, contents, target, xattrs, names) =
        remove_child_lem now name n (v.valid parent n at) dir ne present in
      let live : inode_at fs parent ≢ none = λ e. cc in
      let put = λ (j : InodeId). inode_at-put fs parent j n' live in
      let same_kind : is_dir n' ≡ is_dir n = rw attrs in
      (
        put_inode parent n' fs,
        rw (get-done fs parent at, removed),
        record {
          valid = put_inode-IsFs fs parent n n' v at valid same_kind (λ other c dt ne' e.
              v.closed parent n other c dt at ne' (ground (arith, names other ne')));
          named =
              λ q other ne'. ground (arith, child-put fs parent q n' other live, names other ne');
          others = λ j np. ground (arith, put j);
          kept =
              Keeps-put (modified parent now) fs parent n n' at
                (ground (arith, attrs), contents, target, xattrs) (modified-other parent now);
        },
      )

with_nlink-IsInode : (k : ℕ) (c : Inode) → IsInode c → IsInode (with_nlink k c)
unfolding is_file is_dir is_symlink
with_nlink-IsInode k c v = ground arith

-- A change of the link count of a live inode changes no name.
module _ (fs : MemFs) (id : InodeId) (c : Inode) (k : ℕ) (v : IsFs fs)
    (at : inode_at fs id ≡ some c) where
  abbrev relinked : MemFs
  relinked = put_inode id (with_nlink k c) fs

  pub relinked-IsFs : IsFs relinked
  unfolding is_dir
  relinked-IsFs =
      put_inode-IsFs fs id c (with_nlink k c) v at (with_nlink-IsInode k c (v.valid id c at)) refl
        (λ other child' dt ne e. v.closed id c other child' dt at ne e)

  pub relinked-child : (q : InodeId) (other : Bytes) → child relinked q other ≡ child fs q other
  unfolding child
  relinked-child q other = ground (arith, child-put fs id q (with_nlink k c) other (λ e. cc))

  pub relinked-at :
      (j : InodeId)
      → inode_at relinked j ≡ (if id == j then some (with_nlink k c) else inode_at fs j)
  relinked-at j = inode_at-put fs id j (with_nlink k c) (λ e. cc)

len-used-empty : (c : Inode) → len c ≡ 0 → used c.entries ≡ []
unfolding len
len-used-empty c e = elim (List-cases (used c.entries)) [
  | inl none_used ↦ none_used
  | inr (d, ds, some_used) ↦
      absurd (omega (arith, e, count_used-used c.entries, ap length some_used))
]

len-used-full : (c : Inode) → len c ≢ 0 → used c.entries ≢ []
unfolding len
len-used-full c e none_used = absurd (e (rw (count_used-used c.entries, none_used)))

-- A call that took a name out, and a link from the inode `c` behind it: the file system after it is
-- valid; the map of names has lost the name and is otherwise unchanged; the inode behind the name is
-- still live, with one link less; the parent's time of modification is the clock's; and nothing else
-- has changed.
pub record Unlinked (now : Time) (fs : MemFs) (parent : InodeId) (name : Bytes) (id : InodeId)
    (fs' : MemFs) : Type 0 where
  pub valid : IsFs fs'
  pub named :
      (q : InodeId) (other : Bytes)
      → other ≢ []
      → child fs' q other ≡ (if parent == q && bytes_eq name other then none else child fs q other)
  pub kept :
      Keeps
        (λ j a. record a {
          nlink = if id == j then (a.nlink + u32_mod - 1) % u32_mod else a.nlink;
          mtime = if parent == j then now else a.mtime;
        })
        fs
        fs'
  pub others : (j : InodeId) → j ≢ parent → j ≢ id → inode_at fs' j ≡ inode_at fs j

abbrev unlinked_attrs : InodeId → InodeId → InodeAttributes → InodeAttributes
unlinked_attrs id j a = record a {
  nlink = if id == j then (a.nlink + u32_mod - 1) % u32_mod else a.nlink;
}

module _ (t : Clock) (parent : InodeId) (name : Bytes) (fs : MemFs) (n : Inode) (v : IsFs fs)
    (at : inode_at fs parent ≡ some n) (dir : is_dir n ≡ true) (ne : name ≢ []) where
  unlink_child-Unlinked :
      (id : InodeId) (dt : ℕ) (c : Inode)
      → child_of name n.entries ≡ some (id, dt)
      → inode_at fs id ≡ some c
      → (fs' : MemFs) × (unlink_child t parent name id fs ≡ done (ok tt, fs'))
        × Unlinked (t 0) fs parent name id fs'
  unfolding unlink_child
  unlink_child-Unlinked id dt c found live =
      let (fs₁, removed, r) = remove_from-Removed (t 0) parent name fs n v at dir ne (λ e. cc) in
      let (c₁, at₁, _) = r.kept id c live in
      let k = c₁.attrs.nlink + u32_mod - 1 in
      (
        put_inode id (with_nlink k c₁) fs₁,
        rw (removed, get-done fs₁ id at₁),
        record {
          valid = relinked-IsFs fs₁ id c₁ k r.valid at₁;
          named = λ q other ne'.
              rw (relinked-child fs₁ id c₁ k r.valid at₁ q other) (r.named q other ne');
          kept =
              Keeps-then (modified parent (t 0)) (unlinked_attrs id) _ fs fs₁ _ r.kept
                (Keeps-put (unlinked_attrs id) fs₁ id c₁ (with_nlink k c₁) at₁
                  (ground arith, refl, refl, refl) (λ j a e. rw e))
                (λ j a. refl);
          others = λ j np ni. ground (arith, relinked-at fs₁ id c₁ k r.valid at₁ j, r.others j np);
        },
      )

  pub unlink-Unlinked :
      ((child fs parent name ≡ none) × (unlink t parent name fs ≡ done (fail enoent, fs)))
      ⊎ ((id : InodeId) × (dt : ℕ) × (c : Inode) × (fs' : MemFs) × (child fs parent name
            ≡ some (id, dt))
          × (inode_at fs id ≡ some c)
          × (unlink t parent name fs ≡ done (ok tt, fs'))
          × Unlinked (t 0) fs parent name id fs')
  unfolding unlink child
  unlink-Unlinked = elim (Option-cases (child_of name n.entries)) [
    | inl absent ↦
        inl (rw at absent, rw (get-done fs parent at, look_up_child-eq n name dir, absent))
    | inr ((id, dt), found) ↦ elim (Option-cases (inode_at fs id)) [
      | inl dead ↦ absurd (v.closed parent n name id dt at ne found dead)
      | inr (c, live) ↦
          let (fs', unlinked, u) = unlink_child-Unlinked id dt c found live in
          inr (
            id,
            dt,
            c,
            fs',
            rw at found,
            live,
            rw (get-done fs parent at, look_up_child-eq n name dir, found, get-done fs id live)
                unlinked,
            u,
          )
    ]
  ]

  pub rm_dir-Unlinked :
      ((child fs parent name ≡ none) × (rm_dir t parent name fs ≡ done (fail enoent, fs)))
      ⊎ ((id : InodeId) × (dt : ℕ) × (c : Inode) × (child fs parent name ≡ some (id, dt))
          × (inode_at fs id ≡ some c)
          × (((used c.entries ≢ []) × (rm_dir t parent name fs ≡ done (fail enotempty, fs)))
              ⊎ ((used c.entries ≡ [])
                  × (fs' : MemFs) × (rm_dir t parent name fs ≡ done (ok tt, fs'))
                  × Unlinked (t 0) fs parent name id fs')))
  unfolding rm_dir child
  rm_dir-Unlinked = elim (Option-cases (child_of name n.entries)) [
    | inl absent ↦
        inl (rw at absent, rw (get-done fs parent at, look_up_child-eq n name dir, absent))
    | inr ((id, dt), found) ↦ elim (Option-cases (inode_at fs id)) [
      | inl dead ↦ absurd (v.closed parent n name id dt at ne found dead)
      | inr (c, live) ↦ inr (
        id,
        dt,
        c,
        rw at found,
        live,
        rw (get-done fs parent at, look_up_child-eq n name dir, found, get-done fs id live)
            (elim (Bool-cases (len c == 0)) [
              | inl empty ↦
                  let (fs', unlinked, u) = unlink_child-Unlinked id dt c found live in
                  inr (len-used-empty c (ground arith), fs', rw empty unlinked, u)
              | inr full ↦ inl (len-used-full c (ground arith), rw full)
            ]),
      )
    ]
  ]
