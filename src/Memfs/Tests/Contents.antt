-- ===== src/Memfs/Tests/Contents.antt =====
-- samples/memfs: the calls that work on one inode, on the file and the directories of the tests.
use fusego.Base.{
  ℕ, ◌≡◌, ◌≢◌, refl, ◌⊎◌, ◌≤◌, ◌<◌, true, none, some, List, [], ◌∷◌, ◌++◌, ◌+◌, ◌-◌, arith, ltb,
  if◌then◌else◌, done, length, get_elem?, drop,
}
use fusego.Base.Int.{pos}
use fusego.Bytes.{Bytes, bytes_eq}
use fusego.Dirent.{Dirent}
use fusego.Dirent.RoundTrip.{IsDirent}
use fusego.Fuseops.{one_year}
use fusego.Fuseops.Errno.{ebadf, erange}
use fusego.Memfs.Inode.{
  Inode, new_inode, is_dir, is_file, is_symlink, find_child, find_entry, look_up_child, add_child,
  place, read_dir,
}
use fusego.Memfs.Inode.Contents.{byte_at}
use fusego.Memfs.Inode.Listing.{All, used, Parses, IsFull, last_offset, read_dir_resumes}
use fusego.Memfs.Fs.{MemFs, new_mem_fs, get_inode_or_die, put_inode, allocate_inode}
use fusego.Memfs.Fs.Table.{inode_at}
use fusego.Memfs.Names.{mk_dir, mk_node, create_file_at, if_free, add_new_child, add_to}
use fusego.Memfs.Files.{XattrRead, set_inode_attributes, read_file, write_file, fallocate_op}
use fusego.Memfs.Files.Data.{
  Changed, read_file-write_file, set_inode_attributes_lem, fallocate_op_lem,
}
use fusego.Memfs.Files.Listed.{list_xattr_lem}
use fusego.Memfs.Files.{list_xattr}
use fusego.Memfs.Tests.{tree, tree-IsFs, tree-at, held, ticks}

abbrev hi : Bytes
hi = 104 ∷ 105 ∷ []

abbrev file_a : Inode
file_a = held tree 2

file_a-at : inode_at tree 2 ≡ some file_a
file_a-at = tree-at.1

file_a-is_file : is_file file_a ≡ true
file_a-is_file = tree-at.4

file_a-sized : file_a.attrs.size ≡ length file_a.contents
file_a-sized = (tree-IsFs.valid 2 file_a file_a-at).sized

abbrev ShownEntries : Type 0
ShownEntries =
    (b : Bytes) × (shown : List Dirent) × (read_dir 40 0 (held tree 1) ≡ done b)
    × Parses b shown
    × (length b ≤ 40)
    × (used (held tree 1).entries
        ≡ shown ++ used (drop (last_offset 0 shown) (held tree 1).entries))
    × IsFull (40 - length b) (used (drop (last_offset 0 shown) (held tree 1).entries))

root-All-IsDirent : All IsDirent (used (held tree 1).entries)
unfolding used bytes_eq new_mem_fs inode_at new_inode is_dir is_file is_symlink mk_node mk_dir
    create_file_at if_free add_new_child add_to get_inode_or_die put_inode allocate_inode find_child
    find_entry look_up_child add_child place
root-All-IsDirent = (
  record {
    inode_range = omega arith;
    offset_range = omega arith;
    name_range = omega arith;
    type_range = omega arith;
  },
  (
    record {
      inode_range = omega arith;
      offset_range = omega arith;
      name_range = omega arith;
      type_range = omega arith;
    },
    tt,
  ),
)

read_dir_resumes_example : ShownEntries
read_dir_resumes_example =
    read_dir_resumes 40 0 (held tree 1) (tree-IsFs.valid 1 (held tree 1) tree-at.0) tree-at.3
      (omega arith) root-All-IsDirent

read_file-write_file_example :
    (m : Inode) × (fs' : MemFs) × (write_file ticks 2 hi (pos 3) tree ≡ done fs')
    × Changed tree 2 m fs'
    × (read_file 2 2 (pos 3) fs' ≡ done hi)
read_file-write_file_example =
    read_file-write_file ticks 2 hi 3 tree file_a tree-IsFs file_a-at file_a-is_file (omega arith)

set_inode_attributes_lem_example :
    (m : Inode) × (fs' : MemFs) × (set_inode_attributes ticks 2 (some 5) none none none tree
      ≡ done (
        some ebadf,
        record { attributes = m.attrs; attributes_expiration = 101 + one_year },
        fs',
      ))
    × Changed tree 2 m fs'
    × (m.attrs ≡ record (file_a.attrs) { size = 5; mode = file_a.attrs.mode; mtime = 100 })
    × (m.target ≡ file_a.target)
    × (m.xattrs ≡ file_a.xattrs)
    × ((i : ℕ) → get_elem? m.contents i ≡ (if ltb i 5 then byte_at file_a.contents i else none))
set_inode_attributes_lem_example =
    set_inode_attributes_lem ticks 2 (some 5) none none none tree file_a tree-IsFs file_a-at
      (file_a-is_file, omega arith) tt

fallocate_op_lem_example :
    (m : Inode) × (fs' : MemFs) × (fallocate_op 2 0 1 4 tree ≡ done fs')
    × Changed tree 2 m fs'
    × (m.attrs ≡ record (file_a.attrs) { size = length m.contents })
    × (m.target ≡ file_a.target)
    × (m.xattrs ≡ file_a.xattrs)
    × (length m.contents ≡ (if ltb (length file_a.contents) 8 then 8 else length file_a.contents))
    × ((i : ℕ) → i < length m.contents → get_elem? m.contents i ≡ byte_at file_a.contents i)
fallocate_op_lem_example =
    fallocate_op_lem 2 0 1 4 tree file_a tree-IsFs file_a-at file_a-is_file (omega arith)

abbrev labelled : MemFs
labelled = put_inode 2 (record file_a { xattrs = (hi, hi) ∷ [] }) tree

labelled-at : inode_at labelled 2 ≡ some (record file_a { xattrs = (hi, hi) ∷ [] })
unfolding bytes_eq new_mem_fs inode_at new_inode is_dir is_file is_symlink mk_node mk_dir
    create_file_at if_free add_new_child add_to get_inode_or_die put_inode allocate_inode find_child
    find_entry look_up_child add_child place
labelled-at = refl

abbrev buffer : Bytes
buffer = 1 ∷ 2 ∷ 3 ∷ 4 ∷ []

list_xattr_lem_example :
    ((buffer ≡ [])
      × (list_xattr 2 buffer labelled
          ≡ done (record { written = []; bytes_read = 3; error = none })))
    ⊎ ((buffer ≢ [])
        × (3 ≤ length buffer)
        × (list_xattr 2 buffer labelled
            ≡ done (record { written = 104 ∷ 105 ∷ 3 ∷ []; bytes_read = 3; error = none })))
    ⊎ ((buffer ≢ [])
        × (length buffer < 3)
        × (r : XattrRead) × (list_xattr 2 buffer labelled ≡ done r)
        × (r.error ≡ some erange))
list_xattr_lem_example =
    list_xattr_lem 2 buffer labelled (record file_a { xattrs = (hi, hi) ∷ [] }) labelled-at
