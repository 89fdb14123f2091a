-- ===== src/Memfs/Names/Renaming.antt =====
-- samples/memfs/memfs.go: Rename, on the map of names.
use fusego.Base.{ℕ, ◌≡◌, ◌≢◌, ◌⊎◌, inl, inr, true, none, some, [], done, Bool-cases, Option-cases}
use fusego.Bytes.{Bytes}
use fusego.Fuseops.{InodeId, ok, fail}
use fusego.Fuseops.Errno.{enoent, enotempty}
use fusego.Memfs.Inode.{Inode, is_dir, look_up_child}
use fusego.Memfs.Inode.Entries.{child_of, look_up_child-eq, child_of-used}
use fusego.Memfs.Fs.{MemFs, Clock, get_inode_or_die}
use fusego.Memfs.Fs.Table.{inode_at}
use fusego.Memfs.Fs.Invariant.{IsFs}
use fusego.Memfs.Names.{rename}
use fusego.Memfs.Names.View.{child, get-done}
use fusego.Memfs.Names.Moving.{
  is_occupied, IsShort, IsReplaceable, Renamed, has_entries-eq, move_entry-Renamed, replace-Renamed,
}

module _ (t : Clock) (old_parent : InodeId) (old_name : Bytes) (new_parent : InodeId)
    (new_name : Bytes) (fs : MemFs) (from to : Inode) (v : IsFs fs)
    (old_at : inode_at fs old_parent ≡ some from) (old_dir : is_dir from ≡ true)
    (new_at : inode_at fs new_parent ≡ some to) (new_dir : is_dir to ≡ true)
    (old_ne : old_name ≢ []) (new_ne : new_name ≢ []) where
  get_old : get_inode_or_die fs old_parent ≡ done from
  get_old = get-done fs old_parent old_at

  look_old : look_up_child from old_name ≡ done (child_of old_name from.entries)
  look_old = look_up_child-eq from old_name old_dir

  get_new : get_inode_or_die fs new_parent ≡ done to
  get_new = get-done fs new_parent new_at

  look_new : look_up_child to new_name ≡ done (child_of new_name to.entries)
  look_new = look_up_child-eq to new_name new_dir

  pub rename-Renamed :
      ((j : InodeId) (c : Inode) → inode_at fs j ≡ some c → IsShort c)
      → ((child fs old_parent old_name ≡ none)
          × (rename t old_parent old_name new_parent new_name fs ≡ done (fail enoent, fs)))
        ⊎ ((id : InodeId) × (dt : ℕ) × (c : Inode) × (child fs new_parent new_name ≡ some (id, dt))
            × (inode_at fs id ≡ some c)
            × (is_occupied c ≡ true)
            × (rename t old_parent old_name new_parent new_name fs ≡ done (fail enotempty, fs)))
        ⊎ ((id : InodeId) × (dt : ℕ) × (fs' : MemFs) × (child fs old_parent old_name
              ≡ some (id, dt))
            × IsReplaceable fs new_parent new_name
            × (rename t old_parent old_name new_parent new_name fs ≡ done (ok tt, fs'))
            × Renamed t fs old_parent old_name new_parent new_name id dt fs')
  unfolding rename child
  rename-Renamed short = elim (Option-cases (child_of old_name from.entries)) [
    | inl absent ↦ inl (rw old_at absent, rw (get_old, look_old, absent))
    | inr ((id, dt), found) ↦ elim (Option-cases (child_of new_name to.entries)) [
      | inl free ↦
          let in_use =
            child_of-used 0 old_name from.entries id dt (v.valid old_parent from old_at).slots
              old_ne found in
          let (fs', moved, m) =
            move_entry-Renamed t old_parent old_name new_parent new_name id dt fs from to v old_at
              old_dir new_at new_dir old_ne new_ne in_use free
              (v.closed old_parent from old_name id dt old_at old_ne found)
              (inr (λ e. cc (rw old_at at e))) in
          inr (
            inr (
              id,
              dt,
              fs',
              rw old_at found,
              inl (rw new_at free),
              rw (get_old, look_old, found, get_new, look_new, free) moved,
              m,
            ))
      | inr ((other, other_dt), taken) ↦ elim (Option-cases (inode_at fs other)) [
        | inl dead ↦
            absurd (v.closed new_parent to new_name other other_dt new_at new_ne taken dead)
        | inr (c, live) ↦
            let checked = has_entries-eq c (short other c live) in
            let get = get-done fs other live in
            elim (Bool-cases (is_occupied c)) [
              | inl full ↦ inr (
                  inl (
                    other,
                    other_dt,
                    c,
                    rw new_at taken,
                    live,
                    full,
                    rw (get_old, look_old, found, get_new, look_new, taken, get, checked, full),
                  ))
              | inr empty ↦
                  let (fs', moved, m) =
                    replace-Renamed t old_parent old_name new_parent new_name id dt fs from to v
                      old_at old_dir new_at new_dir old_ne new_ne found (λ e. cc) in
                  inr (
                    inr (
                      id,
                      dt,
                      fs',
                      rw old_at found,
                      inr (other, other_dt, c, rw new_at taken, live, empty),
                      rw (get_old, look_old, found, get_new, look_new, taken, get, checked, empty)
                          moved,
                      m,
                    ))
            ]
      ]
    ]
  ]
