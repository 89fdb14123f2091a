-- ===== src/Memfs/Names/Linking.antt =====
-- samples/memfs/memfs.go: CreateLink, on the map of names and on link counts.
use fusego.Base.{
  ℕ, ◌+◌, ◌%◌, ◌≡◌, ◌≢◌, refl, ◌⊎◌, inl, inr, true, ◌&&◌, none, some, [], arith, ◌==◌,
  if◌then◌else◌, done, Bool-cases, Option-cases,
}
use fusego.Bytes.{Bytes, bytes_eq}
use fusego.Dirent.DirentType
use fusego.Fuseops.{Time, InodeAttributes, InodeId, ChildInodeEntry, ok, fail, one_year, u32_mod}
use fusego.Fuseops.Errno.{eexist}
use fusego.Memfs.Inode.{Inode, is_dir, is_symlink, is_file, add_child}
use fusego.Memfs.Inode.Entries.{child_of}
use fusego.Memfs.Inode.Invariant.{IsInode}
use fusego.Memfs.Fs.{MemFs, Clock, put_inode}
use fusego.Memfs.Fs.Table.{inode_at, inode_at-put}
use fusego.Memfs.Fs.Invariant.{IsFs, put_inode-IsFs}
use fusego.Memfs.Names.{entry_for, create_link, with_nlink}
use fusego.Memfs.Names.Kept.{Keeps, Keeps-put, Keeps-then, modified, modified-other}
use fusego.Memfs.Names.View.{child, child-put, get-done}
use fusego.Memfs.Names.Creation.{add_to_lem, if_free-eq}

-- The inode `c` after CreateLink has counted the link.
abbrev pub counted : ℕ → Inode → Inode
counted now c =
    let linked = with_nlink (c.attrs.nlink + 1) c in
    record linked { attrs = record (linked.attrs) { ctime = now } }

counted-IsInode : (now : ℕ) (c : Inode) → IsInode c → IsInode (counted now c)
unfolding is_file is_dir is_symlink
counted-IsInode now c v = ground arith

abbrev linked_attrs : Time → InodeId → InodeId → InodeAttributes → InodeAttributes
linked_attrs now target j a = record a {
  nlink = if target == j then (a.nlink + 1) % u32_mod else a.nlink;
  ctime = if target == j then now else a.ctime;
}

-- A call that gave the inode `c` behind `target` one more name: the file system after it is valid; the
-- new name leads to `target`, as a file entry, and no other name has changed; the target has one link
-- more, which the answer shows, and a new time of change, and the parent a new time of modification;
-- and nothing else has changed.
pub record Linked (t : Clock) (fs : MemFs) (parent : InodeId) (name : Bytes) (target : InodeId)
    (entry : ChildInodeEntry) (fs' : MemFs) : Type 0 where
  pub valid : IsFs fs'
  pub named :
      (q : InodeId) (other : Bytes)
      → other ≢ []
      → child fs' q other ≡ (
          if parent == q && bytes_eq name other
          then some (target, DirentType.file)
          else child fs q other)
  pub answered : entry.child ≡ target
  pub more : (c' : Inode) × (inode_at fs' target ≡ some c') × (entry.attributes ≡ c'.attrs)
  pub kept :
      Keeps
        (λ j a. record a {
          nlink = if target == j then (a.nlink + 1) % u32_mod else a.nlink;
          mtime = if parent == j then t 1 else a.mtime;
          ctime = if target == j then t 0 else a.ctime;
        })
        fs
        fs'
  pub others : (j : InodeId) → j ≢ parent → j ≢ target → inode_at fs' j ≡ inode_at fs j

module _ (t : Clock) (parent : InodeId) (name : Bytes) (target : InodeId) (fs : MemFs) (n c : Inode)
    (v : IsFs fs) (at : inode_at fs parent ≡ some n) (dir : is_dir n ≡ true) (ne : name ≢ [])
    (live : inode_at fs target ≡ some c) where
  abbrev fs₁ : MemFs
  fs₁ = put_inode target (counted (t 0) c) fs

  target_put :
      (j : InodeId)
      → inode_at fs₁ j ≡ (if target == j then some (counted (t 0) c) else inode_at fs j)
  target_put j = inode_at-put fs target j (counted (t 0) c) (λ e. cc)

  counted_valid : IsFs fs₁
  unfolding is_dir
  counted_valid =
      put_inode-IsFs fs target c (counted (t 0) c) v live
        (counted-IsInode (t 0) c (v.valid target c live)) refl
        (λ other id dt ne' e. v.closed target c other id dt live ne' e)

  same_names : (q : InodeId) (other : Bytes) → child fs₁ q other ≡ child fs q other
  unfolding child
  same_names q other = ground (arith, child-put fs target q (counted (t 0) c) other (λ e. cc))

  -- The parent may be the target itself.
  parent_after :
      (m : Inode) × (inode_at fs₁ parent ≡ some m) × (is_dir m ≡ true) × (m.entries ≡ n.entries)
  unfolding is_dir
  parent_after = elim (Bool-cases (target == parent)) [
    | inl same ↦
        let one : c ≡ n = ground arith in
        (counted (t 0) c, ground (arith, target_put parent), rw one dir, rw one)
    | inr different ↦ (n, ground (arith, target_put parent), dir, refl)
  ]

  -- What the parent holds at the end.
  final_target :
      (m : Inode)
      → inode_at fs₁ parent ≡ some m
      → (c' : Inode) × (inode_at
            (put_inode parent (add_child (t 1) target name DirentType.file m) fs₁)
            target
          ≡ some c')
  unfolding add_child
  final_target m at₁ =
      let put =
        inode_at-put fs₁ parent target (add_child (t 1) target name DirentType.file m) (λ e. cc) in
      elim (Bool-cases (parent == target)) [
        | inl same ↦ (add_child (t 1) target name DirentType.file m, ground (arith, put))
        | inr different ↦ (counted (t 0) c, ground (arith, put, target_put target))
      ]

  kept_at :
      (m : Inode)
      → inode_at fs₁ parent ≡ some m
      → Keeps
          (λ j a. record a {
            nlink = if target == j then (a.nlink + 1) % u32_mod else a.nlink;
            mtime = if parent == j then t 1 else a.mtime;
            ctime = if target == j then t 0 else a.ctime;
          })
          fs
          (put_inode parent (add_child (t 1) target name DirentType.file m) fs₁)
  unfolding add_child
  kept_at m at₁ =
      Keeps-then (linked_attrs (t 0) target) (modified parent (t 1)) _ fs fs₁ _
        (Keeps-put (linked_attrs (t 0) target) fs target c (counted (t 0) c) live
          (ground arith, refl, refl, refl) (λ j a e. rw e))
        (Keeps-put (modified parent (t 1)) fs₁ parent m _ at₁ (ground arith, refl, refl, refl)
          (modified-other parent (t 1)))
        (λ j a. refl)

  pub create_link-Linked :
      ((child fs parent name ≢ none)
        × (create_link t parent name target fs ≡ done (fail eexist, fs)))
      ⊎ ((entry : ChildInodeEntry) × (fs' : MemFs) × (child fs parent name ≡ none)
          × (create_link t parent name target fs ≡ done (ok entry, fs'))
          × Linked t fs parent name target entry fs')
  unfolding create_link child
  create_link-Linked = elim (Option-cases (child_of name n.entries)) [
    | inl free ↦
        let (m, at₁, dir₁, same) = parent_after in
        let (added, v₂, names) =
          add_to_lem fs₁ parent target name DirentType.file (t 1) m counted_valid at₁ dir₁ ne
            (omega arith) (rw same free) (λ e. ground (arith, target_put target)) in
        let (c', at₂) = final_target m at₁ in
        inr (
          entry_for target c'.attrs (t 2 + one_year),
          put_inode parent (add_child (t 1) target name DirentType.file m) fs₁,
          rw at free,
          rw (if_free-eq parent name fs n _ at dir, free, get-done fs target live)
              (rw added (rw (get-done _ target at₂))),
          record {
            valid = v₂;
            named = λ q other ne'. rw (← same_names q other) (names q other ne');
            answered = refl;
            more = (c', at₂, refl);
            kept = kept_at m at₁;
            others = λ j np nt. ground (
              arith,
              inode_at-put fs₁ parent j (add_child (t 1) target name DirentType.file m) (λ e. cc),
              target_put j,
            );
          },
        )
    | inr (old, taken) ↦
        inl (λ nothing. cc (rw at at nothing), rw (if_free-eq parent name fs n _ at dir, taken))
  ]
