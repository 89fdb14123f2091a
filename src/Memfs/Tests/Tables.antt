-- ===== src/Memfs/Tests/Tables.antt =====
-- samples/memfs: the table of inodes and the invariants, on the file systems of the tests.
use fusego.Base.{ℕ, suc, zero, ◌≡◌, ◌≢◌, refl, none, some, [], Outcome, panics}
use fusego.Bytes.{Bytes, bytes_eq}
use fusego.Fuseops.{InodeId}
use fusego.Memfs.Inode.{
  Inode, new_inode, is_dir, is_file, is_symlink, find_child, find_entry, look_up_child, add_child,
  place,
}
use fusego.Memfs.Inode.Entries.{child_of}
use fusego.Memfs.Fs.{
  MemFs, new_mem_fs, allocate_inode, get_inode_or_die, put_inode, check_fs_invariants,
}
use fusego.Memfs.Fs.Table.{inode_at}
use fusego.Memfs.Fs.Invariant.{IsFs}
use fusego.Memfs.Fs.Allocation.{Allocates, allocate_inode-Allocates}
use fusego.Memfs.Fs.Checked.{check_fs_invariants-panics}
use fusego.Memfs.Names.{file_attrs, mk_dir, mk_node, create_file_at, if_free, add_new_child, add_to}
use fusego.Memfs.Tests.{tree, tree-IsFs, held, empty_fs, empty_fs-IsFs, after, name_a}

allocate_inode-Allocates_example :
    Allocates tree
      (new_inode 9 (file_attrs 8 0o644 tree))
      (allocate_inode 9 (file_attrs 8 0o644 tree) tree)
allocate_inode-Allocates_example =
    allocate_inode-Allocates 9 (file_attrs 8 0o644 tree) tree tree-IsFs (refl, refl) refl

check_fs_invariants-panics_example : check_fs_invariants tree ≡ panics
check_fs_invariants-panics_example = check_fs_invariants-panics tree tree-IsFs

-- An inode that no directory names.
abbrev spare : MemFs
spare = after empty_fs (allocate_inode 9 (file_attrs 8 0o644 empty_fs) empty_fs)

after-IsFs :
    (fs : MemFs) (new : Inode) (r : Outcome (InodeId × MemFs))
    → Allocates fs new r
    → IsFs (after fs r)
after-IsFs fs new r (id, fs', e, v, _, _, _) = rw e v

spare-IsFs : IsFs spare
spare-IsFs = after-IsFs empty_fs (new_inode 9 (file_attrs 8 0o644 empty_fs)) _ (
    allocate_inode-Allocates 9 (file_attrs 8 0o644 empty_fs) empty_fs empty_fs-IsFs (refl, refl)
      refl)

spare-at : inode_at spare 2 ≢ none
unfolding inode_at new_mem_fs allocate_inode
spare-at e = cc

held-no_children : (j : InodeId) (name : Bytes) → child_of name (held spare j).entries ≡ none
unfolding inode_at new_mem_fs allocate_inode child_of new_inode
held-no_children zero name = refl
held-no_children (suc zero) name = refl
held-no_children (suc (suc zero)) name = refl
held-no_children (suc (suc (suc j))) name = refl

unnamed :
    (j : InodeId) (n : Inode) (name : Bytes) (dt : ℕ)
    → inode_at spare j ≡ some n
    → name ≢ []
    → child_of name n.entries ≢ some (2, dt)
unnamed j n name dt e ne c =
    let one : held spare j ≡ n = rw (held, e) in
    let nothing : child_of name n.entries ≡ none = rw one at (held-no_children j name) in cc

name_a-child : child_of name_a (held tree 1).entries ≢ none
unfolding child_of bytes_eq new_mem_fs inode_at new_inode is_dir is_file is_symlink mk_node mk_dir
    create_file_at if_free add_new_child add_to get_inode_or_die put_inode allocate_inode find_child
    find_entry look_up_child add_child place
name_a-child e = cc
