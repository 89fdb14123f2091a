-- ===== src/Memfs/Calls/Served.antt =====
-- samples/memfs: how the calls that the kernel may make are served.
use fusego.Base.{ℕ, ◌≡◌, refl, inl, inr, true, arith, ltb, ◌==◌, Outcome, done, Bool-cases}
use fusego.Bytes.{Bytes}
use fusego.Fuseops.{Time, InodeId, ChildInodeEntry, Reply, int_bound}
use fusego.Memfs.Inode.{Inode, read_dir, read_at}
use fusego.Memfs.Fs.{MemFs, Clock}
use fusego.Memfs.Fs.Invariant.{IsFs}
use fusego.Memfs.Names.{mk_node}
use fusego.Memfs.Names.View.{look_up_inode_lem, get-done}
use fusego.Memfs.Names.Handlers.{
  CreatesOrExists, mk_dir-CreatesOrExists, mk_node-CreatesOrExists, create_file-CreatesOrExists,
  create_symlink-CreatesOrExists,
}
use fusego.Memfs.Names.Linking.{create_link-Linked}
use fusego.Memfs.Names.Removal.{unlink-Unlinked, rm_dir-Unlinked}
use fusego.Memfs.Names.Renaming.{rename-Renamed}
use fusego.Memfs.Files.{
  get_inode_attributes, open_dir, read_dir_op, open_file, read_file, read_symlink, get_xattr,
  list_xattr,
}
use fusego.Memfs.Files.Data.{read_file-write_file, set_inode_attributes_lem, fallocate_op_lem}
use fusego.Memfs.Files.Xattr.{set_xattr_lem, remove_xattr_lem}
use fusego.Memfs.Calls.{
  Call, statting, making_node, flushing, looking_up, getting_attributes, setting_attributes,
  making_dir, creating_file, creating_symlink, creating_link, renaming, removing_dir, unlinking,
  opening_dir, reading_dir, opening_file, reading_file, writing_file, reading_symlink, allocating,
  getting_xattr, listing_xattr, removing_xattr, setting_xattr, serve, state_of, IsAllowed,
}

-- A call that ends in a valid file system.
abbrev pub IsServed : Outcome MemFs → Type 0
IsServed r = (fs' : MemFs) × (r ≡ done fs') × IsFs fs'

created-IsServed :
    {now : Time} {parent : InodeId} {name : Bytes} {dt : ℕ} {fresh : Inode} (fs : MemFs)
    (r : Outcome (Reply ChildInodeEntry × MemFs))
    → IsFs fs
    → CreatesOrExists now fs parent name dt fresh r
    → IsServed (state_of r)
created-IsServed fs r v (inl (_, e)) = (fs, rw e, v)
created-IsServed fs r v (inr (entry, fs', _, e, c)) = (fs', rw e, c.valid)

module _ (t : Clock) (fs : MemFs) (v : IsFs fs) where
  renaming-IsServed :
      (old_parent : InodeId) (old_name : Bytes) (new_parent : InodeId) (new_name : Bytes)
      → IsAllowed fs (renaming old_parent old_name new_parent new_name)
      → IsServed (serve t (renaming old_parent old_name new_parent new_name) fs)
  renaming-IsServed old_parent old_name new_parent new_name
        (((n, at, dir), ne), ((m, at', dir'), ne'), short) =
      elim (rename-Renamed t old_parent old_name new_parent new_name fs n m v at dir at' dir' ne ne'
        short) [
          | inl (_, e) ↦ (fs, rw e, v)
          | inr (inl (_, _, _, _, _, _, e)) ↦ (fs, rw e, v)
          | inr (inr (_, _, fs', _, _, e, r)) ↦ (fs', rw e, r.valid)
        ]

  -- Serving a call that is allowed on a valid file system ends, without a panic, in a valid file
  -- system.
  pub allowed-IsServed : (call : Call) → IsAllowed fs call → IsServed (serve t call fs)
  unfolding get_inode_attributes open_dir read_dir_op open_file read_file read_symlink get_xattr
      list_xattr read_dir read_at
  allowed-IsServed (statting op) h = (fs, refl, v)
  allowed-IsServed (looking_up parent name) ((n, at, dir), ne) =
      elim (look_up_inode_lem t parent name fs n v at dir ne) [
        | inl (_, e) ↦ (fs, rw e, v)
        | inr (_, _, _, _, _, e) ↦ (fs, rw e, v)
      ]
  allowed-IsServed (getting_attributes id) (n, at) = (fs, rw (get-done fs id at), v)
  allowed-IsServed (setting_attributes id size mode mtime handle) (n, at, r, c) =
      let (m, fs', e, ch, _, _, _, _) =
        set_inode_attributes_lem t id size mode mtime handle fs n v at r c in
      (fs', rw e, ch.valid)
  allowed-IsServed (making_dir parent name mode) (((n, at, dir), ne), allowed) =
      created-IsServed fs _ v (mk_dir-CreatesOrExists t parent name fs n v at dir ne mode allowed)
  allowed-IsServed (making_node parent name mode) (((n, at, dir), ne), allowed) =
      created-IsServed fs _ v (mk_node-CreatesOrExists t parent name fs n v at dir ne mode allowed)
  allowed-IsServed (creating_file pid parent name mode) (((n, at, dir), ne), allowed) =
      elim (create_file-CreatesOrExists t parent name fs n v at dir ne pid mode allowed) [
        | inl (_, e) ↦ (fs, rw e, v)
        | inr (_, e, c) ↦ rw e (created-IsServed fs (mk_node t parent name mode fs) v c)
      ]
  allowed-IsServed (creating_symlink parent name target) ((n, at, dir), ne) =
      created-IsServed fs _ v (create_symlink-CreatesOrExists t parent name fs n v at dir ne target)
  allowed-IsServed (creating_link parent name target) (((n, at, dir), ne), (c, live)) =
      elim (create_link-Linked t parent name target fs n c v at dir ne live) [
        | inl (_, e) ↦ (fs, rw e, v)
        | inr (_, fs', _, e, l) ↦ (fs', rw e, l.valid)
      ]
  allowed-IsServed (renaming old_parent old_name new_parent new_name) h =
      renaming-IsServed old_parent old_name new_parent new_name h
  allowed-IsServed (removing_dir parent name) ((n, at, dir), ne) =
      elim (rm_dir-Unlinked t parent name fs n v at dir ne) [
        | inl (_, e) ↦ (fs, rw e, v)
        | inr (_, _, _, _, _, inl (_, e)) ↦ (fs, rw e, v)
        | inr (_, _, _, _, _, inr (_, fs', e, u)) ↦ (fs', rw e, u.valid)
      ]
  allowed-IsServed (unlinking parent name) ((n, at, dir), ne) =
      elim (unlink-Unlinked t parent name fs n v at dir ne) [
        | inl (_, e) ↦ (fs, rw e, v)
        | inr (_, _, _, fs', _, _, e, u) ↦ (fs', rw e, u.valid)
      ]
  allowed-IsServed (opening_dir id) (n, at, dir) = (fs, rw (get-done fs id at, dir), v)
  allowed-IsServed (reading_dir id room offset) ((n, at, dir), h) =
      let small : ltb offset int_bound ≡ true = ground arith in
      (fs, rw (get-done fs id at, dir, small), v)
  allowed-IsServed (opening_file pid id) (n, at, file) = elim (Bool-cases (pid == 0)) [
    | inl zero_pid ↦ (fs, rw zero_pid, v)
    | inr some_pid ↦ (fs, rw (some_pid, get-done fs id at, file), v)
  ]
  allowed-IsServed (reading_file id room offset) (n, at, file) =
      (fs, rw (get-done fs id at, file), v)
  allowed-IsServed (writing_file id p offset) ((n, at, file), h) =
      let (m, fs', e, ch, _) = read_file-write_file t id p offset fs n v at file h in
      (fs', e, ch.valid)
  allowed-IsServed (flushing pid) h = (fs, refl, v)
  allowed-IsServed (reading_symlink id) (n, at) = (fs, rw (get-done fs id at), v)
  allowed-IsServed (allocating id mode offset len) ((n, at, file), h) =
      let (m, fs', e, ch, _, _, _, _, _) = fallocate_op_lem id mode offset len fs n v at file h in
      (fs', e, ch.valid)
  allowed-IsServed (getting_xattr id name room) (n, at) = (fs, rw (get-done fs id at), v)
  allowed-IsServed (listing_xattr id dst) (n, at) = (fs, rw (get-done fs id at), v)
  allowed-IsServed (removing_xattr id name) (n, at) = elim (remove_xattr_lem id name fs n v at) [
    | inl (_, e) ↦ (fs, rw e, v)
    | inr (fs', e, (_, ch, _, _, _)) ↦ (fs', rw e, ch.valid)
  ]
  allowed-IsServed (setting_xattr id name value flags) (n, at) =
      elim (set_xattr_lem id name fs n v at value flags) [
        | inl (_, _, e) ↦ (fs, rw e, v)
        | inr (inl (_, _, e)) ↦ (fs, rw e, v)
        | inr (inr (fs', e, (_, ch, _, _, _))) ↦ (fs', rw e, ch.valid)
      ]
