-- ===== src/Cachingfs/Inodes.antt =====
-- The numbers of the inodes of cachingfs, and what is said about them.
use fusego.Base.{
  ℕ, zero, suc, ◌+◌, ◌*◌, ◌%◌, ◌≤◌, ◌<◌, ◌≡◌, ◌≢◌, refl, ◌⊎◌, inl, inr, true, false, not, ◌||◌,
  none, some, arith, leb, ◌==◌, done, Bool-cases,
}
use fusego.Bytes.{Bytes, bytes_eq}
use fusego.Fuseops.{Time, InodeId, root_inode_id, u64_mod}
use fusego.Fuseops.Ops.{LookUpInodeOp, GetInodeAttributesOp}
use fusego.Cachingfs.{
  dir_offset, CachingFs, new_caching_fs, check_invariants, renumber_inodes, foo_id, dir_id, bar_id,
  num_inodes, find, look_up_inode, attributes_of, get_inode_attributes, foo, dir, bar, foo_attrs,
  dir_attrs, bar_attrs,
}

-- The file system after so many calls of RenumberInodes.
abbrev pub renumbered : ℕ → CachingFs → CachingFs
renumbered zero fs = fs
renumbered (suc k) fs = renumber_inodes (renumbered k fs)

-- The IDs of foo, of dir and of bar.
abbrev pub inode_at : ℕ → CachingFs → InodeId
inode_at zero fs = foo_id fs
inode_at (suc zero) fs = dir_id fs
inode_at _ fs = bar_id fs

inode_at-eq : (i : ℕ) (fs : CachingFs) → i < 3 → inode_at i fs ≡ (fs.base_id + i) % u64_mod
inode_at-eq zero fs h = refl
inode_at-eq (suc zero) fs h = refl
inode_at-eq (suc (suc zero)) fs h = refl
inode_at-eq (suc (suc (suc i))) fs h = absurd (omega arith)

renumbered-base :
    (k : ℕ) (a b : ℕ) (now : Time)
    → 3 * (k + 2) < u64_mod
    → (renumbered k (new_caching_fs a b now)).base_id ≡ 3 * (k + 1)
unfolding renumber_inodes
renumbered-base zero a b now h = refl
renumbered-base (suc k) a b now h =
    let before = renumbered-base k a b now (omega (arith, h)) in rw before (omega (arith, h))

-- Two IDs of foo, dir or bar that a new file system gives, after any two numbers of renumberings with which the numbers of 64
-- bits are not used up, and that are the same, belong to the same file after the same number of renumberings, so that no ID is
-- given a second time; they are not the root's, and the invariant holds.
pub renumbered-distinct :
    (a b : ℕ) (now : Time) (k l i j : ℕ)
    → i < 3
    → j < 3
    → 3 * (k + 2) < u64_mod
    → 3 * (l + 2) < u64_mod
    → inode_at i (renumbered k (new_caching_fs a b now))
      ≡ inode_at j (renumbered l (new_caching_fs a b now))
    → (k ≡ l)
      × (i ≡ j)
      × (inode_at i (renumbered k (new_caching_fs a b now)) ≢ root_inode_id)
      × (check_invariants (renumbered k (new_caching_fs a b now)) ≡ done tt)
unfolding check_invariants
renumbered-distinct a b now k l i j hi hj hk hl e =
    let bk = renumbered-base k a b now hk in
    let bl = renumbered-base l a b now hl in
    let big : leb (3 * (k + 1)) root_inode_id ≡ false = ground arith in
    let third : 3 * (k + 1) % num_inodes == 0 ≡ true = ground arith in
    let fs = renumbered k (new_caching_fs a b now) in
    let same =
      rw (inode_at-eq i fs hi, inode_at-eq j (renumbered l (new_caching_fs a b now)) hj, bk, bl) at
        e in
    (
      omega (arith, same),
      omega (arith, same),
      λ r. (omega (arith, bk, rw (inode_at-eq i fs hi, bk) at r)),
      rw (check_invariants, bk, big, third),
    )

-- The base is that of a valid file system with room for three IDs.
abbrev pub IsNumbered : CachingFs → Type 0
IsNumbered fs =
    (1 < fs.base_id) × (fs.base_id % num_inodes ≡ 0) × (fs.base_id + num_inodes ≤ u64_mod)

-- What LookUpInode can find.
find-cases :
    (fs : CachingFs) (parent : InodeId) (name : Bytes)
    → (find fs parent name ≡ none)
      ⊎ (find fs parent name ≡ some (foo_id fs, foo_attrs fs))
      ⊎ (find fs parent name ≡ some (dir_id fs, dir_attrs fs))
      ⊎ (find fs parent name ≡ some (bar_id fs, bar_attrs fs))
unfolding find
find-cases fs parent name = elim (Bool-cases (bytes_eq name foo)) [
  | inl is_foo ↦ elim (Bool-cases (parent == root_inode_id)) [
    | inl in_root ↦ inr (inl (rw (is_foo, in_root)))
    | inr elsewhere ↦ inl (rw (is_foo, elsewhere))
  ]
  | inr not_foo ↦ elim (Bool-cases (bytes_eq name dir)) [
    | inl is_dir ↦ elim (Bool-cases (parent == root_inode_id)) [
      | inl in_root ↦ inr (inr (inl (rw (not_foo, is_dir, in_root))))
      | inr elsewhere ↦ inl (rw (not_foo, is_dir, elsewhere))
    ]
    | inr not_dir ↦ elim (Bool-cases (bytes_eq name bar)) [
      | inl is_bar ↦
          elim (Bool-cases (parent == root_inode_id || not (parent % num_inodes == dir_offset))) [
            | inl elsewhere ↦ inl (rw (not_foo, not_dir, is_bar, elsewhere))
            | inr in_dir ↦ inr (inr (inr (rw (not_foo, not_dir, is_bar, in_dir))))
          ]
      | inr other ↦ inl (rw (not_foo, not_dir, other))
    ]
  ]
]

module _ (fs fs' : CachingFs) (v : IsNumbered fs) (same : fs'.mtime ≡ fs.mtime) where
  attributes_of-foo : attributes_of fs' (foo_id fs) ≡ foo_attrs fs
  unfolding attributes_of
  attributes_of-foo =
      let id : foo_id fs ≡ fs.base_id = omega (arith, v.2) in
      let not_root : (fs.base_id == root_inode_id) ≡ false = ground (arith, v.0) in
      let third : (fs.base_id % num_inodes == 0) ≡ true = ground (arith, v.1) in
      rw (attributes_of, id, not_root, third, same)

  attributes_of-dir : attributes_of fs' (dir_id fs) ≡ dir_attrs fs
  unfolding attributes_of
  attributes_of-dir =
      let id : dir_id fs ≡ fs.base_id + 1 = omega (arith, v.2) in
      let not_root : (fs.base_id + 1 == root_inode_id) ≡ false = ground (arith, v.0) in
      let not_third : ((fs.base_id + 1) % num_inodes == 0) ≡ false = ground (arith, v.1) in
      let one_more : ((fs.base_id + 1) % num_inodes == dir_offset) ≡ true = ground (arith, v.1) in
      rw (attributes_of, id, not_root, not_third, one_more, same)

  attributes_of-bar : attributes_of fs' (bar_id fs) ≡ bar_attrs fs
  unfolding attributes_of
  attributes_of-bar =
      let id : bar_id fs ≡ fs.base_id + 2 = omega (arith, v.2) in
      let not_root : (fs.base_id + 2 == root_inode_id) ≡ false = ground (arith, v.0) in
      let not_third : ((fs.base_id + 2) % num_inodes == 0) ≡ false = ground (arith, v.1) in
      let not_one_more : ((fs.base_id + 2) % num_inodes == dir_offset) ≡ false =
        ground (arith, v.1) in
      rw (attributes_of, id, not_root, not_third, not_one_more, same)

  -- What LookUpInode says of the attributes of a child, GetInodeAttributes says of the inode that LookUpInode gave, at any
  -- time and in any state with the same mtime, as after a renumbering; the first state is a valid one with room for three IDs.
  pub get_inode_attributes-look_up_inode :
      (now now' : Time) (op : LookUpInodeOp) (query : GetInodeAttributesOp)
      → (look_up_inode now op fs).err ≡ none
      → query.inode ≡ (look_up_inode now op fs).op.entry.child
      → (get_inode_attributes now' query fs').op.attributes
        ≡ (look_up_inode now op fs).op.entry.attributes
  unfolding get_inode_attributes look_up_inode
  get_inode_attributes-look_up_inode now now' op query h asked =
      elim (find-cases fs op.parent op.name) [
        | inl unknown ↦ cc (rw (look_up_inode, unknown) at h)
        | inr (inl found) ↦ rw (asked, look_up_inode, found) attributes_of-foo
        | inr (inr (inl found)) ↦ rw (asked, look_up_inode, found) attributes_of-dir
        | inr (inr (inr found)) ↦ rw (asked, look_up_inode, found) attributes_of-bar
      ]
