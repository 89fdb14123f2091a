-- ===== src/Memfs/Tests/Paths.antt =====
-- samples/memfs: the calls that work on names, on the tree of the tests.
use fusego.Base.{ℕ, ◌≡◌, ◌≢◌, ◌⊎◌, true, none, some, [], ◌∷◌, ◌+◌, done}
use fusego.Bytes.{Bytes}
use fusego.Dirent.DirentType
use fusego.Fuseops.{InodeId, ok, fail, one_year}
use fusego.Fuseops.Errno.{enoent}
use fusego.Memfs.Inode.{Inode, is_dir}
use fusego.Memfs.Fs.Table.{inode_at}
use fusego.Memfs.Names.{look_up_inode, entry_for}
use fusego.Memfs.Names.View.{child, look_up_inode_lem}
use fusego.Memfs.Tests.{tree, tree-IsFs, tree-at, name_a, held, ticks}

abbrev name_c : Bytes
name_c = 99 ∷ []

abbrev some_pid : ℕ
some_pid = 8

abbrev root : Inode
root = held tree 1

root-at : inode_at tree 1 ≡ some root
root-at = tree-at.0

root-dir : is_dir root ≡ true
root-dir = tree-at.3

name_a-filled : name_a ≢ []
name_a-filled e = cc

look_up_inode_lem_example :
    ((child tree 1 name_a ≡ none) × (look_up_inode ticks 1 name_a tree ≡ done (fail enoent)))
    ⊎ ((id : InodeId) × (dt : ℕ) × (c : Inode) × (child tree 1 name_a ≡ some (id, dt))
        × (inode_at tree id ≡ some c)
        × (look_up_inode ticks 1 name_a tree ≡ done (ok (entry_for id c.attrs (100 + one_year)))))
look_up_inode_lem_example =
    look_up_inode_lem ticks 1 name_a tree root tree-IsFs root-at root-dir name_a-filled
