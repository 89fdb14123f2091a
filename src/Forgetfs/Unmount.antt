-- ===== src/Forgetfs/Unmount.antt =====
-- What Destroy leaves for Check.
use fusego.Base.{◌-◌, ◌≡◌, refl, List, [], ◌∷◌, arith, ltb, false, done}
use fusego.Fuseops.{InodeId}
use fusego.Forgetfs.{
  Node, ForgetFs, destroy_node, decrement_lookup_count, destroy_nodes, destroy, check_counts, check,
}

destroy_nodes_lem :
    (xs : List (InodeId × Node))
    → (ys : List (InodeId × Node)) × (destroy_nodes xs ≡ done ys) × (check_counts ys ≡ done tt)
unfolding destroy_nodes destroy_node decrement_lookup_count check_counts
destroy_nodes_lem [] = ([], refl, refl)
destroy_nodes_lem ((id, n) ∷ xs) =
    let (ys, e, c) = destroy_nodes_lem xs in
    let enough : ltb n.lookup_count n.lookup_count ≡ false = ground arith in
    (
      (id, record n { lookup_count = n.lookup_count - n.lookup_count }) ∷ ys,
      rw (enough, e),
      ground arith,
    )

-- Destroy never panics, whatever the kernel has forgotten or not, and Check finds no inode with a
-- lookup count after it.
pub destroy_lem :
    (fs : ForgetFs) → (fs' : ForgetFs) × (destroy fs ≡ done fs') × (check fs' ≡ done tt)
unfolding destroy check
destroy_lem fs = let (ys, e, c) = destroy_nodes_lem fs.nodes in (record fs { nodes = ys }, rw e, c)
