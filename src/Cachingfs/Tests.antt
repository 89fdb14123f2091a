-- ===== src/Cachingfs/Tests.antt =====
-- A new cachingfs, and one whose inodes have been renumbered.
use fusego.Base.{ℕ, ◌≡◌, ◌≢◌, refl, arith, done}
use fusego.Fuseops.{root_inode_id}
use fusego.Fuseops.Ops.{LookUpInodeOp, GetInodeAttributesOp}
use fusego.Conversions.{no_attributes, no_entry}
use fusego.Bytes.{bytes_eq}
use fusego.Cachingfs.{
  CachingFs, new_caching_fs, check_invariants, renumber_inodes, look_up_inode, get_inode_attributes,
  find, bar,
}
use fusego.Cachingfs.Inodes.{
  renumbered, inode_at, renumbered-distinct, get_inode_attributes-look_up_inode,
}

abbrev start : CachingFs
start = new_caching_fs 10 20 5

abbrev times : ℕ
times = 4

abbrev offset : ℕ
offset = 2

renumbered-distinct_example :
    (times ≡ 4)
    × (offset ≡ 2)
    × (inode_at 2 (renumbered 4 start) ≢ root_inode_id)
    × (check_invariants (renumbered 4 start) ≡ done tt)
renumbered-distinct_example =
    renumbered-distinct 10 20 5 times 4 offset 2 (omega arith) (omega arith) (omega arith)
      (omega arith) refl

abbrev looking : LookUpInodeOp
looking = record { parent = 4; name = bar; entry = no_entry }

abbrev asking : GetInodeAttributesOp
asking = record { inode = 5; attributes = no_attributes; attributes_expiration = 0 }

get_inode_attributes-look_up_inode_example :
    (get_inode_attributes 9 asking (renumber_inodes start)).op.attributes
    ≡ (look_up_inode 7 looking start).op.entry.attributes
unfolding look_up_inode find bytes_eq renumber_inodes
get_inode_attributes-look_up_inode_example =
    get_inode_attributes-look_up_inode start (renumber_inodes start)
      (omega arith, refl, omega arith) refl 7 9 looking asking refl refl
