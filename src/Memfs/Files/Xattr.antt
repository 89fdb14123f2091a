-- ===== src/Memfs/Files/Xattr.antt =====
-- Extended attributes as a map: SetXattr, GetXattr and RemoveXattr.
use fusego.Base.{
  ℕ, suc, ◌≤◌, ◌≡◌, refl, ◌⊎◌, inl, inr, Bool, true, false, not, ◌&&◌, Option, none, some, [], ◌∷◌,
  arith, leb, ◌==◌, if◌then◌else◌, done, length, Bool-cases, Option-cases,
}
use fusego.Bytes.{Bytes, bytes_eq, bytes_eq_iff}
use fusego.Fuseops.{InodeId, ok, fail}
use fusego.Fuseops.Errno.{eexist, enoattr, erange}
use fusego.Memfs.Inode.{Inode, Xattrs, is_dir, is_symlink, is_file}
use fusego.Memfs.Inode.Invariant.{IsInode}
use fusego.Memfs.Fs.{MemFs, put_inode}
use fusego.Memfs.Fs.Table.{inode_at}
use fusego.Memfs.Fs.Invariant.{IsFs}
use fusego.Memfs.Names.View.{get-done}
use fusego.Memfs.Files.{
  get_value, set_value, delete_value, get_xattr, remove_xattr, set_xattr, xattr_create,
  xattr_replace,
}
use fusego.Memfs.Files.Data.{Changed, put_inode-Changed}

get_value-set_value :
    (k name v : Bytes) (m : Xattrs)
    → get_value k (set_value name v m) ≡ (if bytes_eq name k then some v else get_value k m)
unfolding get_value set_value
get_value-set_value k name v [] = refl
get_value-set_value k name v ((j, w) ∷ m) = ground (
  arith,
  bytes_eq_iff j name,
  bytes_eq_iff j k,
  bytes_eq_iff name k,
  get_value-set_value k name v m,
)

get_value-delete_value :
    (k name : Bytes) (m : Xattrs)
    → get_value k (delete_value name m) ≡ (if bytes_eq name k then none else get_value k m)
unfolding get_value delete_value
get_value-delete_value k name [] = ground arith
get_value-delete_value k name ((j, w) ∷ m) = ground (
  arith,
  bytes_eq_iff j name,
  bytes_eq_iff j k,
  bytes_eq_iff name k,
  get_value-delete_value k name m,
)

with_xattrs-IsInode : (m : Xattrs) (n : Inode) → IsInode n → IsInode (record n { xattrs = m })
unfolding is_file is_dir is_symlink
with_xattrs-IsInode m n v = record {
  plain = v.plain;
  one_kind = v.one_kind;
  sized = v.sized;
  leaf = v.leaf;
  slots = v.slots;
  stored = v.stored;
  linked = v.linked;
}

-- How SetXattr and RemoveXattr change the attributes: `change k` is what is found for `k` afterwards.
abbrev pub Rewrites : MemFs → InodeId → Inode → (Bytes → Option Bytes) → MemFs → Type 0
Rewrites fs id n change fs' =
    (m : Inode) × Changed fs id m fs'
    × (m.attrs ≡ n.attrs)
    × (m.contents ≡ n.contents)
    × ((k : Bytes) → get_value k m.xattrs ≡ change k)

module _ (id : InodeId) (name : Bytes) (fs : MemFs) (n : Inode) (v : IsFs fs)
    (at : inode_at fs id ≡ some n) where
  abbrev pub taken : Bool
  taken = elim (get_value name n.xattrs) [ none ↦ false | some _ ↦ true ]

  put_xattrs :
      (m : Xattrs)
      → Changed fs id (record n { xattrs = m }) (put_inode id (record n { xattrs = m }) fs)
  unfolding is_dir
  put_xattrs m =
      put_inode-Changed fs id n (record n { xattrs = m }) v at
        (with_xattrs-IsInode m n (v.valid id n at)) refl refl

  -- SetXattr on a live inode never panics. With XATTR_CREATE on a name that is set it answers EEXIST,
  -- with XATTR_REPLACE on a name that is not it answers ENOATTR, and changes nothing in either case.
  -- Else the name has the value, every other name and all else is unchanged.
  pub set_xattr_lem :
      (value : Bytes) (flags : ℕ)
      → ((flags ≡ xattr_create)
          × (taken ≡ true)
          × (set_xattr id name value flags fs ≡ done (fail eexist, fs)))
        ⊎ ((flags ≡ xattr_replace)
            × (taken ≡ false)
            × (set_xattr id name value flags fs ≡ done (fail enoattr, fs)))
        ⊎ ((fs' : MemFs) × (set_xattr id name value flags fs ≡ done (ok tt, fs'))
            × Rewrites fs id n
                (λ k. if bytes_eq name k then some value else get_value k n.xattrs)
                fs')
  unfolding set_xattr
  set_xattr_lem value flags =
      rw (get-done fs id at) (elim (Bool-cases (flags == xattr_create && taken)) [
        | inl exists ↦ inl (ground arith, ground arith, rw exists)
        | inr may_set ↦ elim (Bool-cases (flags == xattr_replace && not taken)) [
          | inl missing ↦ inr (inl (ground arith, ground arith, rw (may_set, missing)))
          | inr sets ↦ inr (
              inr (
                put_inode id (record n { xattrs = set_value name value n.xattrs }) fs,
                rw (may_set, sets),
                (
                  record n { xattrs = set_value name value n.xattrs },
                  put_xattrs (set_value name value n.xattrs),
                  refl,
                  refl,
                  λ k. get_value-set_value k name value n.xattrs,
                ),
              ))
        ]
      ])

  -- RemoveXattr on a live inode never panics: on a name that is not set it answers ENOATTR and changes
  -- nothing, else that name is not found afterwards, and every other name and all else is unchanged.
  pub remove_xattr_lem :
      ((get_value name n.xattrs ≡ none) × (remove_xattr id name fs ≡ done (fail enoattr, fs)))
      ⊎ ((fs' : MemFs) × (remove_xattr id name fs ≡ done (ok tt, fs'))
          × Rewrites fs id n (λ k. if bytes_eq name k then none else get_value k n.xattrs) fs')
  unfolding remove_xattr
  remove_xattr_lem = rw (get-done fs id at) (elim (Option-cases (get_value name n.xattrs)) [
    | inl missing ↦ inl (missing, rw missing)
    | inr (_, found) ↦ inr (
      put_inode id (record n { xattrs = delete_value name n.xattrs }) fs,
      rw found,
      (
        record n { xattrs = delete_value name n.xattrs },
        put_xattrs (delete_value name n.xattrs),
        refl,
        refl,
        λ k. get_value-delete_value k name n.xattrs,
      ),
    )
  ])

  -- GetXattr on a live inode never panics: it answers ENOATTR for a name that is not set. Else it reports
  -- the length of the value and, when the buffer has room for it, the value; with less room it answers
  -- ERANGE, but with no room at all no error.
  pub get_xattr_lem :
      (room : ℕ)
      → ((get_value name n.xattrs ≡ none)
          × (get_xattr id name room fs
              ≡ done (record { written = []; bytes_read = 0; error = some enoattr })))
        ⊎ ((value : Bytes) × (get_value name n.xattrs ≡ some value)
            × (((length value ≤ room)
                  × (get_xattr id name room fs
                      ≡ done (record { written = value; bytes_read = length value; error = none })))
                ⊎ ((suc room ≤ length value)
                    × (get_xattr id name room fs
                        ≡ done (record {
                          written = [];
                          bytes_read = length value;
                          error = if room == 0 then none else some erange;
                        })))))
  unfolding get_xattr
  get_xattr_lem room = rw (get-done fs id at) (elim (Option-cases (get_value name n.xattrs)) [
    | inl missing ↦ inl (missing, rw missing)
    | inr (value, found) ↦ inr (
      value,
      found,
      elim (Bool-cases (leb (length value) room)) [
        | inl fits ↦ inl (ground arith, rw (found, fits))
        | inr small ↦ inr (ground arith, rw (found, small))
      ],
    )
  ])
