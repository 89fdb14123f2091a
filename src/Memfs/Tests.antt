-- ===== src/Memfs/Tests.antt =====
-- samples/memfs: a small tree on which the calls are tried out. The root has the file "a" with the
-- inode 2, and the directory "b" with the inode 3.
pub mod Paths
pub mod Contents
pub mod Tables
pub mod Reaching
use fusego.Base.{
  ℕ, ◌≡◌, ◌≢◌, refl, ◌⊎◌, inl, inr, Bool, true, arith, Option, none, some, List, [], ◌∷◌, ◌++◌,
  ◌&&◌, ◌+◌, not, ◌==◌, if◌then◌else◌, ltb, Outcome, done, panics, ◌>>=◌, ◌>>◌, require, or_panic,
  index, length, set, get_elem?,
}
use fusego.Bytes.{Bytes, bytes_eq}
use fusego.Dirent.DirentType
use fusego.Fuseops.{Time, InodeId, ChildInodeEntry, Reply, ok, fail}
use fusego.Fuseops.FileMode.{mode_dir}
use fusego.Memfs.Inode.{
  Inode, new_inode, is_dir, is_file, is_symlink, find_child, find_entry, look_up_child, add_child,
  place,
}
use fusego.Memfs.Fs.{
  MemFs, Clock, new_mem_fs, root_attrs, get_inode_or_die, put_inode, allocate_inode,
}
use fusego.Memfs.Fs.Table.{inode_at, slot_of}
use fusego.Memfs.Fs.Invariant.{IsFs}
use fusego.Memfs.Fs.Start.{new_mem_fs-IsFs}
use fusego.Memfs.Names.{
  mk_dir, mk_node, create_file_at, if_free, add_new_child, add_to, dir_attrs, file_attrs,
}
use fusego.Memfs.Names.View.{child}
use fusego.Memfs.Names.Creation.{fresh_inode}
use fusego.Memfs.Names.Handlers.{CreatesOrExists, mk_dir-CreatesOrExists, mk_node-CreatesOrExists}

abbrev pub ticks : Clock
ticks k = 100 + k

abbrev pub empty_fs : MemFs
empty_fs = new_mem_fs 7 501 20

abbrev pub after {ℓ} : {A : Type ℓ} → MemFs → Outcome (A × MemFs) → MemFs
after fs (done (_, fs')) = fs'
after fs panics = fs

abbrev pub held : MemFs → InodeId → Inode
held fs id = elim (inode_at fs id) [ none ↦ new_inode 7 (root_attrs 501 20) | some n ↦ n ]

after-IsFs :
    {now : Time} (fs : MemFs) (parent : InodeId) (name : Bytes) (dt : ℕ) (fresh : Inode)
    (r : Outcome (Reply ChildInodeEntry × MemFs))
    → IsFs fs
    → CreatesOrExists now fs parent name dt fresh r
    → IsFs (after fs r)
after-IsFs fs parent name dt fresh r v (inl (_, e)) = rw e v
after-IsFs fs parent name dt fresh r v (inr (entry, fs', _, e, c)) = rw e c.valid

abbrev pub name_a : Bytes
name_a = 97 ∷ []

abbrev pub name_b : Bytes
name_b = 98 ∷ []

pub empty_fs-at : inode_at empty_fs 1 ≡ some (held empty_fs 1)
unfolding new_mem_fs inode_at
empty_fs-at = refl

pub empty_fs-dir : is_dir (held empty_fs 1) ≡ true
unfolding new_mem_fs inode_at new_inode is_dir
empty_fs-dir = refl

abbrev pub with_file : MemFs
with_file = after empty_fs (mk_node ticks 1 name_a 0o644 empty_fs)

pub empty_fs-IsFs : IsFs empty_fs
empty_fs-IsFs = new_mem_fs-IsFs 7 501 20

pub with_file-IsFs : IsFs with_file
with_file-IsFs = after-IsFs empty_fs 1 name_a DirentType.file _ _ empty_fs-IsFs (
    mk_node-CreatesOrExists ticks 1 name_a empty_fs (held empty_fs 1) empty_fs-IsFs empty_fs-at
      empty_fs-dir (λ e. cc) 0o644 (refl, refl))

pub with_file-at : inode_at with_file 1 ≡ some (held with_file 1)
unfolding new_mem_fs inode_at new_inode is_dir mk_node create_file_at if_free add_new_child add_to
    get_inode_or_die put_inode allocate_inode find_child find_entry look_up_child add_child place
with_file-at = refl

pub with_file-dir : is_dir (held with_file 1) ≡ true
unfolding new_mem_fs inode_at new_inode is_dir mk_node create_file_at if_free add_new_child add_to
    get_inode_or_die put_inode allocate_inode find_child find_entry look_up_child add_child place
with_file-dir = refl

abbrev pub tree : MemFs
tree = after with_file (mk_dir ticks 1 name_b (0o755 + mode_dir) with_file)

pub tree-IsFs : IsFs tree
tree-IsFs = after-IsFs with_file 1 name_b DirentType.directory _ _ with_file-IsFs (
    mk_dir-CreatesOrExists ticks 1 name_b with_file (held with_file 1) with_file-IsFs with_file-at
      with_file-dir (λ e. cc) (0o755 + mode_dir) (refl, refl))

-- What the tree holds.
pub tree-at :
    (inode_at tree 1 ≡ some (held tree 1))
    × (inode_at tree 2 ≡ some (held tree 2))
    × (inode_at tree 3 ≡ some (held tree 3))
    × (is_dir (held tree 1) ≡ true)
    × (is_file (held tree 2) ≡ true)
    × (is_dir (held tree 3) ≡ true)
unfolding new_mem_fs inode_at new_inode is_dir is_file is_symlink mk_node mk_dir create_file_at
    if_free add_new_child add_to get_inode_or_die put_inode allocate_inode find_child find_entry
    look_up_child add_child place bytes_eq
tree-at = (refl, refl, refl, refl, refl, refl)
