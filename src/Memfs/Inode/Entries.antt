-- ===== src/Memfs/Inode/Entries.antt =====
-- The entries of a directory: what LookUpChild finds after AddChild and RemoveChild, and the part of
-- the invariant that speaks of entries.
use fusego.Base.{
  ℕ, zero, suc, ◌+◌, ◌≡◌, ◌≢◌, refl, ◌⊎◌, inl, inr, true, Option, none, some, List, [], ◌∷◌, arith,
  if◌then◌else◌, done, set, get_elem?, Bool-cases,
}
use fusego.Bytes.{Bytes, bytes_eq, bytes_eq_iff}
use fusego.Dirent.{Dirent}
use fusego.Dirent.DirentType
use fusego.Fuseops.{InodeId}
use fusego.Memfs.Inode.{Inode, is_dir, find_entry, find_child, look_up_child, place, unused_entry}

-- A directory as a map from names: the first entry of that name.
unfoldable pub child_of : Bytes → List Dirent → Option (InodeId × ℕ)
child_of name [] = none
child_of name (e ∷ es) = if bytes_eq e.name name then some (e.inode, e.type) else child_of name es

-- An entry that is unused has lost its name, and one that is used has a name that no later entry has.
abbrev pub IsSlot : Dirent → List Dirent → Type 0
IsSlot e es =
    ((e.type ≡ DirentType.unknown) × (e.name ≡ []))
    ⊎ ((e.type ≢ DirentType.unknown) × (e.name ≢ []) × (child_of e.name es ≡ none))

-- The entries from index `i` on: each has the offset of the next, and no two used ones share a name.
abbrev pub IsEntries : ℕ → List Dirent → Type 0
IsEntries i [] = Unit
IsEntries i (e ∷ es) = (e.offset ≡ i + 1) × IsSlot e es × IsEntries (i + 1) es

-- LookUpChild, as a lookup in that map.
pub find_entry-child_of :
    (name : Bytes) (es : List Dirent)
    → (find_entry name es ≡ none × (child_of name es ≡ none))
      ⊎ ((i : ℕ) × (e : Dirent) × (find_entry name es ≡ some i)
          × (get_elem? es i ≡ some e)
          × (e.name ≡ name)
          × (child_of name es ≡ some (e.inode, e.type)))
unfolding find_entry child_of
find_entry-child_of name [] = inl (refl, refl)
find_entry-child_of name (e ∷ es) = elim (Bool-cases (bytes_eq e.name name)) [
  | inl hit ↦ rw hit (inr (0, e, refl, refl, (bytes_eq_iff e.name name).0 hit, refl))
  | inr miss ↦ rw miss (elim (find_entry-child_of name es) [
    | inl (absent, empty) ↦ inl (rw absent, empty)
    | inr (i, d, found, at, same, value) ↦ inr (suc i, d, rw found, at, same, value)
  ])
]

pub look_up_child-eq :
    (n : Inode) (name : Bytes)
    → is_dir n ≡ true
    → look_up_child n name ≡ done (child_of name n.entries)
unfolding look_up_child find_child
look_up_child-eq n name h = elim (find_entry-child_of name n.entries) [
  | inl (absent, empty) ↦ rw (h, absent, empty)
  | inr (i, e, found, at, _, value) ↦ rw (h, found) (rw (at, value))
]

-- After AddChild under a fresh name.
pub child_of-place :
    (i : ℕ) (new : Dirent) (es : List Dirent) (name : Bytes)
    → IsEntries i es
    → name ≢ []
    → child_of new.name es ≡ none
    → child_of name (place i new es)
      ≡ (if bytes_eq new.name name then some (new.inode, new.type) else child_of name es)
unfolding child_of place
child_of-place i new [] name v ne fresh = ground arith
child_of-place i new (e ∷ es) name v ne fresh = ground (
  arith,
  bytes_eq_iff e.name name,
  bytes_eq_iff new.name name,
  bytes_eq_iff e.name new.name,
  child_of-place (i + 1) new es name v.2 ne,
)

pub place-IsEntries :
    (i : ℕ) (new : Dirent) (es : List Dirent)
    → IsEntries i es
    → new.name ≢ []
    → new.type ≢ DirentType.unknown
    → child_of new.name es ≡ none
    → IsEntries i (place i new es)
unfolding child_of place
place-IsEntries i new [] v ne used fresh = ground arith
place-IsEntries i new (e ∷ es) v ne used fresh = ground (
  arith,
  bytes_eq_iff e.name new.name,
  bytes_eq_iff new.name e.name,
  child_of-place (i + 1) new es e.name v.2,
  place-IsEntries (i + 1) new es v.2 ne used,
)

-- After RemoveChild.
pub child_of-set_unused :
    (i j k : ℕ) (name other : Bytes) (es : List Dirent)
    → IsEntries i es
    → other ≢ []
    → name ≢ []
    → find_entry name es ≡ some j
    → child_of other (set es j (unused_entry k))
      ≡ (if bytes_eq name other then none else child_of other es)
unfolding child_of find_entry
child_of-set_unused i j k name other [] v ne ne' found = cc
child_of-set_unused i zero k name other (e ∷ es) v ne ne' found = ground (
  arith,
  bytes_eq_iff e.name name,
  bytes_eq_iff name other,
  bytes_eq_iff e.name other,
  bytes_eq_iff [] other,
)
child_of-set_unused i (suc j) k name other (e ∷ es) v ne ne' found = ground (
  arith,
  bytes_eq_iff e.name name,
  bytes_eq_iff name other,
  bytes_eq_iff e.name other,
  bytes_eq_iff [] other,
  child_of-set_unused (i + 1) j k name other es v.2 ne ne',
)

pub set_unused-IsEntries :
    (i j : ℕ) (name : Bytes) (es : List Dirent)
    → IsEntries i es
    → name ≢ []
    → find_entry name es ≡ some j
    → IsEntries i (set es j (unused_entry (i + j)))
unfolding child_of find_entry
set_unused-IsEntries i j name [] v ne found = cc
set_unused-IsEntries i zero name (e ∷ es) v ne found = ground arith
set_unused-IsEntries i (suc j) name (e ∷ es) v ne found =
    let offset : i + suc j ≡ i + 1 + j = omega arith in
    rw offset (
      ground (
        arith,
        bytes_eq_iff name e.name,
        child_of-set_unused (i + 1) j (i + 1 + j) name e.name es v.2,
        set_unused-IsEntries (i + 1) j name es v.2 ne,
      ))

-- A name leads to an entry that is in use.
pub child_of-used :
    (i : ℕ) (name : Bytes) (es : List Dirent) (id : InodeId) (dt : ℕ)
    → IsEntries i es
    → name ≢ []
    → child_of name es ≡ some (id, dt)
    → dt ≢ DirentType.unknown
unfolding child_of
child_of-used i name [] id dt v ne e = cc
child_of-used i name (d ∷ es) id dt v ne e =
    ground (arith, bytes_eq_iff d.name name, child_of-used (i + 1) name es id dt v.2 ne)
