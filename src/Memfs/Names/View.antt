-- ===== src/Memfs/Names/View.antt =====
-- The tree of names as a map: from a directory and a name to the child's ID and type.
use fusego.Base.{
  ℕ, ◌≡◌, ◌≢◌, ◌+◌, ◌⊎◌, inl, inr, true, Option, none, some, [], arith, ◌==◌, if◌then◌else◌, done,
  Option-cases,
}
use fusego.Bytes.{Bytes}
use fusego.Fuseops.{InodeId, ok, fail, one_year}
use fusego.Fuseops.Errno.{enoent}
use fusego.Memfs.Inode.{Inode, is_dir}
use fusego.Memfs.Inode.Entries.{child_of, look_up_child-eq}
use fusego.Memfs.Fs.{MemFs, Clock, get_inode_or_die, put_inode}
use fusego.Memfs.Fs.Table.{inode_at, get_inode_or_die-eq, inode_at-put}
use fusego.Memfs.Fs.Invariant.{IsFs}
use fusego.Memfs.Names.{look_up_inode, entry_for}

abbrev pub child_in : Option Inode → Bytes → Option (InodeId × ℕ)
child_in none name = none
child_in (some n) name = child_of name n.entries

unfoldable pub child : MemFs → InodeId → Bytes → Option (InodeId × ℕ)
child fs parent name = child_in (inode_at fs parent) name

pub get-done :
    (fs : MemFs) (id : InodeId) {n : Inode}
    → inode_at fs id ≡ some n
    → get_inode_or_die fs id ≡ done n
get-done fs id at = rw (get_inode_or_die-eq fs id, at)

-- A write to a directory changes the map at that directory only.
pub child-put :
    (fs : MemFs) (id parent : InodeId) (n : Inode) (name : Bytes)
    → inode_at fs id ≢ none
    → child (put_inode id n fs) parent name
      ≡ (if id == parent then child_of name n.entries else child fs parent name)
unfolding child
child-put fs id parent n name live = rw (inode_at-put fs id parent n live) (ground arith)

-- LookUpInode in a live directory of a valid file system does not panic: it answers with the child
-- that the map has for the name, with the child's own attributes, and else with ENOENT.
pub look_up_inode_lem :
    (t : Clock) (parent : InodeId) (name : Bytes) (fs : MemFs) (n : Inode)
    → IsFs fs
    → inode_at fs parent ≡ some n
    → is_dir n ≡ true
    → name ≢ []
    → ((child fs parent name ≡ none) × (look_up_inode t parent name fs ≡ done (fail enoent)))
      ⊎ ((id : InodeId) × (dt : ℕ) × (c : Inode) × (child fs parent name ≡ some (id, dt))
          × (inode_at fs id ≡ some c)
          × (look_up_inode t parent name fs ≡ done (ok (entry_for id c.attrs (t 0 + one_year)))))
unfolding look_up_inode child
look_up_inode_lem t parent name fs n v at dir ne = elim (Option-cases (child_of name n.entries)) [
  | inl absent ↦ inl (rw at absent, rw (get-done fs parent at, look_up_child-eq n name dir, absent))
  | inr ((id, dt), found) ↦ elim (Option-cases (inode_at fs id)) [
    | inl dead ↦ absurd (v.closed parent n name id dt at ne found dead)
    | inr (c, live) ↦ inr (
      id,
      dt,
      c,
      rw at found,
      live,
      rw (get-done fs parent at, look_up_child-eq n name dir, found, get-done fs id live),
    )
  ]
]
