-- ===== src/Memfs/Inode/Invariant.antt =====
-- samples/memfs/inode.go: the invariant of an inode, beside CheckInvariants, and the methods that work
-- on entries.
use fusego.Base.{
  ℕ, ◌+◌, ◌≡◌, ◌≢◌, refl, ◌⊎◌, inl, inr, true, false, ◌&&◌, none, some, List, [], ◌∷◌, arith,
  if◌then◌else◌, done, length, set,
}
use fusego.Bytes.{Bytes, bytes_eq, bytes_eq_iff}
use fusego.Dirent.{Dirent}
use fusego.Dirent.DirentType
use fusego.Fuseops.{Time, InodeId, InodeAttributes}
use fusego.Fuseops.FileMode.{is_plain, has_bit, dir_bit, symlink_bit}
use fusego.Memfs.Inode.{
  Inode, new_inode, is_dir, is_symlink, is_file, find_child, add_child, unused_entry, remove_child,
  check_offsets, has_name, check_names, check_invariants,
}
use fusego.Memfs.Inode.Entries.{
  child_of, IsEntries, find_entry-child_of, child_of-place, place-IsEntries, child_of-set_unused,
  set_unused-IsEntries,
}

-- The comments at the fields of `inode`, with names of unused entries empty.
pub record IsInode (n : Inode) : Type 0 where
  pub plain : is_plain n.attrs.mode ≡ true
  pub one_kind : (is_dir n && is_symlink n) ≡ false
  pub sized : n.attrs.size ≡ length n.contents
  pub leaf : (is_dir n ≡ true) ⊎ (n.entries ≡ [])
  pub slots : IsEntries 0 n.entries
  pub stored : (is_file n ≡ true) ⊎ (n.contents ≡ [])
  pub linked : (is_symlink n ≡ true) ⊎ (n.target ≡ [])

check_offsets-done : (i : ℕ) (es : List Dirent) → IsEntries i es → check_offsets i es ≡ done tt
unfolding check_offsets
check_offsets-done i [] v = refl
check_offsets-done i (e ∷ es) v = ground (arith, check_offsets-done (i + 1) es v.2)

-- No name of a used entry has been seen.
abbrev Unseen : List Bytes → List Dirent → Type 0
Unseen [] es = Unit
Unseen (x ∷ xs) es = (child_of x es ≡ none) × Unseen xs es

Unseen-tail :
    (seen : List Bytes) (e : Dirent) (es : List Dirent) → Unseen seen (e ∷ es) → Unseen seen es
unfolding child_of
Unseen-tail [] e es u = tt
Unseen-tail (x ∷ xs) e es u = (ground arith, Unseen-tail xs e es u.1)

has_name-Unseen :
    (seen : List Bytes) (e : Dirent) (es : List Dirent)
    → Unseen seen (e ∷ es)
    → has_name e.name seen ≡ false
unfolding child_of has_name
has_name-Unseen [] e es u = refl
has_name-Unseen (x ∷ xs) e es u =
    ground (arith, bytes_eq_iff x e.name, bytes_eq_iff e.name x, has_name-Unseen xs e es u.1)

check_names-done :
    (i : ℕ) (seen : List Bytes) (es : List Dirent)
    → IsEntries i es
    → Unseen seen es
    → check_names seen es ≡ done tt
unfolding check_names
check_names-done i seen [] v u = refl
check_names-done i seen (e ∷ es) v u = ground (
  arith,
  has_name-Unseen seen e es u,
  Unseen-tail seen e es u,
  check_names-done (i + 1) seen es v.2,
  check_names-done (i + 1) (e.name ∷ seen) es v.2,
)

-- CheckInvariants does not panic on an inode with the invariant.
pub check_invariants-done : (n : Inode) → IsInode n → check_invariants n ≡ done tt
unfolding check_invariants
check_invariants-done n v =
    ground
      (arith, check_offsets-done 0 n.entries v.slots, check_names-done 0 [] n.entries v.slots tt)

-- A mode that the invariant allows.
abbrev pub IsMode : ℕ → Type 0
IsMode m = (is_plain m ≡ true) × ((has_bit m dir_bit && has_bit m symlink_bit) ≡ false)

-- A fresh inode has no entries and no contents, and is valid if its attributes ask for an empty file
-- with an allowed mode.
pub new_inode-IsInode :
    (now : Time) (attrs : InodeAttributes)
    → IsMode attrs.mode
    → attrs.size ≡ 0
    → IsInode (new_inode now attrs)
unfolding new_inode is_dir is_symlink
new_inode-IsInode now attrs (plain, one_kind) empty = record {
  plain = plain;
  one_kind = one_kind;
  sized = empty;
  leaf = inr refl;
  slots = tt;
  stored = inr refl;
  linked = inr refl;
}

pub add_child-IsInode :
    (now : Time) (id : InodeId) (name : Bytes) (dt : ℕ) (n : Inode)
    → IsInode n
    → is_dir n ≡ true
    → name ≢ []
    → dt ≢ DirentType.unknown
    → child_of name n.entries ≡ none
    → IsInode (add_child now id name dt n)
unfolding add_child is_file is_dir is_symlink
add_child-IsInode now id name dt n v dir ne used fresh = record {
  plain = v.plain;
  one_kind = v.one_kind;
  sized = v.sized;
  leaf = inl dir;
  slots = place-IsEntries 0 _ n.entries v.slots ne used fresh;
  stored = v.stored;
  linked = v.linked;
}

-- The map from names to children after AddChild.
pub child_of-add_child :
    (now : Time) (id : InodeId) (name : Bytes) (dt : ℕ) (n : Inode) (other : Bytes)
    → IsInode n
    → other ≢ []
    → child_of name n.entries ≡ none
    → child_of other (add_child now id name dt n).entries
      ≡ (if bytes_eq name other then some (id, dt) else child_of other n.entries)
unfolding add_child
child_of-add_child now id name dt n other v ne fresh =
    child_of-place 0 _ n.entries other v.slots ne fresh

-- On a directory that has the name, RemoveChild succeeds, keeps the invariant, and takes exactly that
-- name out of the map from names to children.
pub remove_child_lem :
    (now : Time) (name : Bytes) (n : Inode)
    → IsInode n
    → is_dir n ≡ true
    → name ≢ []
    → child_of name n.entries ≢ none
    → (n' : Inode) × (remove_child now name n ≡ done n')
      × IsInode n'
      × (n'.attrs ≡ record (n.attrs) { mtime = now })
      × (n'.contents ≡ n.contents)
      × (n'.target ≡ n.target)
      × (n'.xattrs ≡ n.xattrs)
      × ((other : Bytes)
          → other ≢ []
          → child_of other n'.entries
            ≡ (if bytes_eq name other then none else child_of other n.entries))
unfolding remove_child find_child is_file is_dir is_symlink
remove_child_lem now name n v dir ne present = elim (find_entry-child_of name n.entries) [
  | inl (_, empty) ↦ absurd (present empty)
  | inr (i, e, found, _, _, _) ↦
      let offset : unused_entry i ≡ unused_entry (0 + i) = ground arith in
      (
        record n {
          attrs = record (n.attrs) { mtime = now };
          entries = set n.entries i (unused_entry i);
        },
        rw (dir, found) refl,
        record {
          plain = v.plain;
          one_kind = v.one_kind;
          sized = v.sized;
          leaf = inl dir;
          slots = rw offset (set_unused-IsEntries 0 i name n.entries v.slots ne found);
          stored = v.stored;
          linked = v.linked;
        },
        refl,
        refl,
        refl,
        refl,
        λ other ne'. child_of-set_unused 0 i i name other n.entries v.slots ne' ne found,
      )
]
