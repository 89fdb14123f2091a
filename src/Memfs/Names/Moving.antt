-- ===== src/Memfs/Names/Moving.antt =====
-- samples/memfs/memfs.go: Rename, once its guards have passed: what its end does to the map of names.
use fusego.Base.{
  length, ℕ, ◌≤◌, ◌≡◌, ◌≢◌, refl, ◌∙◌, ◌⊎◌, inl, inr, Bool, true, false, not, ◌&&◌, none, some, [],
  arith, ◌==◌, if◌then◌else◌, done, ◌>>=◌, Bool-cases, Option-cases,
}
use fusego.Bytes.{Bytes, bytes_eq, bytes_eq_iff}
use fusego.Dirent.RoundTrip.{encoded_length}
use fusego.Fuseops.{InodeAttributes, InodeId, ok}
use fusego.Memfs.Inode.{Inode, is_dir, len, add_child, read_dir}
use fusego.Memfs.Inode.Entries.{child_of, child_of-used}
use fusego.Memfs.Inode.Listing.{count_used-used, All, used, write_entries-empty}
use fusego.Memfs.Fs.{MemFs, Clock, put_inode}
use fusego.Memfs.Fs.Table.{inode_at, inode_at-put}
use fusego.Memfs.Fs.Invariant.{IsFs}
use fusego.Memfs.Names.{rename_room, has_entries, remove_from, move_entry}
use fusego.Memfs.Names.Kept.{IsKept, Keeps, Keeps-put, Keeps-then, modified, modified-other}
use fusego.Memfs.Names.View.{child}
use fusego.Memfs.Names.Creation.{add_to_lem}
use fusego.Memfs.Names.Removal.{Removed, remove_from-Removed}

-- A directory with at least one entry in use.
abbrev pub is_occupied : Inode → Bool
is_occupied c = is_dir c && not (length (used c.entries) == 0)

-- No name is longer than 4064 bytes, so that the buffer of Rename takes any single entry.
abbrev pub IsShort : Inode → Type 0
IsShort c = All (λ e. encoded_length e ≤ rename_room) (used c.entries)

-- The name is free, or does not lead to an occupied directory.
abbrev pub IsReplaceable : MemFs → InodeId → Bytes → Type 0
IsReplaceable fs parent name =
    (child fs parent name ≡ none)
    ⊎ ((id : InodeId) × (dt : ℕ) × (c : Inode) × (child fs parent name ≡ some (id, dt))
        × (inode_at fs id ≡ some c)
        × (is_occupied c ≡ false))

pub has_entries-eq : (c : Inode) → IsShort c → has_entries c ≡ done (is_occupied c)
unfolding has_entries read_dir len
has_entries-eq c short =
    ground (arith, write_entries-empty rename_room c.entries short, count_used-used c.entries)

-- The entry is added to the new parent before it is taken from the old one.
abbrev pub moved_attrs : Clock → InodeId → InodeId → InodeId → InodeAttributes → InodeAttributes
moved_attrs t old_parent new_parent j a = record a {
  mtime = if old_parent == j then t 2 else if new_parent == j then t 1 else a.mtime;
}

-- The file system after a rename: it is valid; the old name is gone, and then the new name leads to
-- the child; all other names are unchanged, and so are all inodes but the two parents, of which only
-- the times of modification and the entries change.
pub record Renamed (t : Clock) (fs : MemFs) (old_parent : InodeId) (old_name : Bytes)
    (new_parent : InodeId) (new_name : Bytes) (id : InodeId) (dt : ℕ) (fs' : MemFs) : Type 0 where
  pub valid : IsFs fs'
  pub named :
      (q : InodeId) (other : Bytes)
      → other ≢ []
      → child fs' q other ≡ (
          if old_parent == q && bytes_eq old_name other
          then none
          else if new_parent == q && bytes_eq new_name other
          then some (id, dt)
          else child fs q other)
  pub others : (j : InodeId) → j ≢ old_parent → j ≢ new_parent → inode_at fs' j ≡ inode_at fs j
  pub kept : Keeps (moved_attrs t old_parent new_parent) fs fs'

module _ (t : Clock) (old_parent : InodeId) (old_name : Bytes) (new_parent : InodeId)
    (new_name : Bytes) (id : InodeId) (dt : ℕ) (fs : MemFs) (from to : Inode) (v : IsFs fs)
    (old_at : inode_at fs old_parent ≡ some from) (old_dir : is_dir from ≡ true)
    (new_at : inode_at fs new_parent ≡ some to) (new_dir : is_dir to ≡ true)
    (old_ne : old_name ≢ []) (new_ne : new_name ≢ []) (in_use : dt ≢ 0)
    (fresh : child_of new_name to.entries ≡ none) (live : inode_at fs id ≢ none)
    (there : ((new_parent == old_parent && bytes_eq new_name old_name) ≡ true)
      ⊎ (child fs old_parent old_name ≢ none)) where
  abbrev to' : Inode
  to' = add_child (t 1) id new_name dt to

  abbrev fs₁ : MemFs
  fs₁ = put_inode new_parent to' fs

  added-IsKept : IsKept (modified new_parent (t 1) new_parent to.attrs) to to'
  unfolding add_child
  added-IsKept = (ground arith, refl, refl, refl)

  old_parent_after : (m : Inode) × (inode_at fs₁ old_parent ≡ some m) × (is_dir m ≡ true)
  unfolding add_child is_dir
  old_parent_after =
      let put = inode_at-put fs new_parent old_parent to' (λ e. cc) in
      elim (Bool-cases (new_parent == old_parent)) [
        | inl same ↦ (to', ground (arith, put), new_dir)
        | inr different ↦ (from, ground (arith, put), old_dir)
      ]

  pub move_entry-Renamed :
      (fs' : MemFs) × (move_entry t old_parent old_name new_parent new_name id dt fs
        ≡ done (ok tt, fs'))
      × Renamed t fs old_parent old_name new_parent new_name id dt fs'
  unfolding move_entry child
  move_entry-Renamed =
      let (added, v₁, names) =
        add_to_lem fs new_parent id new_name dt (t 1) to v new_at new_dir new_ne in_use fresh
          live in
      let (m, at₁, dir₁) = old_parent_after in
      let (fs', removed, r) =
        remove_from-Removed (t 2) old_parent old_name fs₁ m v₁ at₁ dir₁ old_ne
          (λ e. ground (arith, names old_parent old_name old_ne)) in
      (
        fs',
        rw (added, removed),
        record {
          valid = r.valid;
          named = λ q other ne. ground (arith, r.named q other ne, names q other ne);
          kept =
              Keeps-then (modified new_parent (t 1)) (modified old_parent (t 2)) _ fs fs₁ fs'
                (Keeps-put (modified new_parent (t 1)) fs new_parent to to' new_at added-IsKept
                  (modified-other new_parent (t 1)))
                r.kept (λ j a. refl);
          others =
              λ j no nn. ground (arith, r.others j no, inode_at-put fs new_parent j to' (λ e. cc));
        },
      )

module _ (t : Clock) (old_parent : InodeId) (old_name : Bytes) (new_parent : InodeId)
    (new_name : Bytes) (id : InodeId) (dt : ℕ) (fs : MemFs) (from to : Inode) (v : IsFs fs)
    (old_at : inode_at fs old_parent ≡ some from) (old_dir : is_dir from ≡ true)
    (new_at : inode_at fs new_parent ≡ some to) (new_dir : is_dir to ≡ true)
    (old_ne : old_name ≢ []) (new_ne : new_name ≢ []) where
  -- The name that is replaced goes first.
  pub replace-Renamed :
      child_of old_name from.entries ≡ some (id, dt)
      → child_of new_name to.entries ≢ none
      → (fs' : MemFs) × ((remove_from (t 0) new_parent new_name fs
            >>= move_entry t old_parent old_name new_parent new_name id dt)
          ≡ done (ok tt, fs'))
        × Renamed t fs old_parent old_name new_parent new_name id dt fs'
  unfolding child
  replace-Renamed found taken =
      let (fs₀, removed, r) =
        remove_from-Removed (t 0) new_parent new_name fs to v new_at new_dir new_ne taken in
      let (from₀, old_at₀, old_kept) = r.kept old_parent from old_at in
      let (to₀, new_at₀, new_kept) = r.kept new_parent to new_at in
      let old_dir₀ : is_dir from₀ ≡ true = unfold is_dir in rw (old_kept.0) old_dir in
      let new_dir₀ : is_dir to₀ ≡ true = unfold is_dir in rw (new_kept.0) new_dir in
      let in_use =
        child_of-used 0 old_name from.entries id dt (v.valid old_parent from old_at).slots old_ne
          found in
      let there = v.closed old_parent from old_name id dt old_at old_ne found in
      let alive : inode_at fs₀ id ≢ none = elim (Option-cases (inode_at fs id)) [
        | inl dead ↦ absurd (there dead)
        | inr (c, live) ↦ let (c', at', _) = still c live r in λ e. cc
      ] in
      let fresh : child_of new_name to₀.entries ≡ none =
        ground (arith, r.named new_parent new_name new_ne, bytes_eq_iff new_name new_name) in
      let (fs', moved, m) =
        move_entry-Renamed t old_parent old_name new_parent new_name id dt fs₀ from₀ to₀ r.valid
          old_at₀ old_dir₀ new_at₀ new_dir₀ old_ne new_ne in_use fresh alive (still_named r) in
      (
        fs',
        rw removed moved,
        record {
          valid = m.valid;
          named = λ q other ne. ground (arith, m.named q other ne, r.named q other ne);
          kept =
              Keeps-then (modified new_parent (t 0)) (moved_attrs t old_parent new_parent) _ fs fs₀
                fs' r.kept m.kept (λ j a. ground arith);
          others = λ j no nn. m.others j no nn ∙ r.others j nn;
        },
      )
    where
      still :
          {fs₀ : MemFs} (c : Inode)
          → inode_at fs id ≡ some c
          → Removed (t 0) fs new_parent new_name fs₀
          → (c' : Inode) × (inode_at fs₀ id ≡ some c') × Unit {0}
      still c live r = let (c', at', _) = r.kept id c live in (c', at', tt)

      still_named :
          {fs₀ : MemFs}
          → Removed (t 0) fs new_parent new_name fs₀
          → ((new_parent == old_parent && bytes_eq new_name old_name) ≡ true)
            ⊎ (child fs₀ old_parent old_name ≢ none)
      still_named r = elim (Bool-cases (new_parent == old_parent && bytes_eq new_name old_name)) [
        | inl same ↦ inl same
        | inr different ↦ inr (λ e. ground (arith, r.named old_parent old_name old_ne))
      ]
