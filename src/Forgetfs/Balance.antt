-- ===== src/Forgetfs/Balance.antt =====
-- The lookup counts as the kernel keeps them: what it holds of each inode.
use fusego.Base.{
  ℕ, ◌+◌, ◌-◌, ◌≤◌, ◌<◌, ◌≡◌, ◌≢◌, refl, inl, inr, true, false, ◌||◌, Option, none, some, List, [],
  ◌∷◌, arith, ltb, ◌==◌, if◌then◌else◌, done, Bool-cases, Option-cases,
}
use fusego.Fuseops.{InodeId}
use fusego.Forgetfs.{
  Node, ForgetFs, find_node, put_node, find_inode_by_id, foo_id, bar_id, root_id, check_ids,
  check_forget_invariants,
}

pub find_node-put_node :
    (id j : InodeId) (n : Node) (xs : List (InodeId × Node))
    → find_node j (put_node id n xs) ≡ (if id == j then some n else find_node j xs)
unfolding find_node put_node
find_node-put_node id j n [] = ground arith
find_node-put_node id j n ((i, m) ∷ xs) = ground (arith, find_node-put_node id j n xs)

-- The references that the kernel holds of each inode.
abbrev pub Held : Type 0
Held = InodeId → ℕ

-- The count that NewFileSystem gives "foo" and "bar" so that they are never forgotten.
abbrev pub reserve : InodeId → ℕ
reserve id = if id == foo_id || id == bar_id then 1 else 0

-- What the file system knows of an inode: nothing, where the kernel has never held it, else its count.
abbrev pub IsCounted : Option Node → ℕ → Type 0
IsCounted none k = k ≡ 0
IsCounted (some n) k = (n.looked_up ≡ true) × (n.lookup_count ≡ k)

-- The counts are those that the kernel holds and the reserve, and no ID from the next on is in use.
pub record IsBalanced (held : Held) (fs : ForgetFs) : Type 0 where
  pub counted : (id : InodeId) → IsCounted (find_node id fs.nodes) (held id + reserve id)
  pub unissued : (id : InodeId) → fs.next_inode_id ≤ id → find_node id fs.nodes ≡ none

abbrev pub plus : InodeId → ℕ → Held → Held
plus id k held j = if id == j then held j + k else held j

abbrev pub minus : InodeId → ℕ → Held → Held
minus id k held j = if id == j then held j - k else held j

-- What the kernel holds once it has the root.
abbrev pub at_mount : Held
at_mount = plus root_id 1 (λ _. 0)

pub find_inode_by_id-done :
    (held : Held) (fs : ForgetFs) (id : InodeId)
    → IsBalanced held fs
    → 0 < held id + reserve id
    → (n : Node) × (find_inode_by_id fs id ≡ done n)
      × (find_node id fs.nodes ≡ some n)
      × (n.lookup_count ≡ held id + reserve id)
unfolding find_inode_by_id
find_inode_by_id-done held fs id b h = elim (Option-cases (find_node id fs.nodes)) [
  | inl unknown ↦ absurd (omega (arith, rw unknown at (b.counted id)))
  | inr (n, found) ↦
      let (seen, count) : IsCounted (some n) (held id + reserve id) = rw found at (b.counted id) in
      let known : (n.lookup_count == 0) ≡ false = ground arith in
      (n, rw (found, seen, known), found, count)
]

-- A write of the count that the kernel's new record asks for.
pub put_node-IsBalanced :
    (held held' : Held) (fs : ForgetFs) (id : InodeId) (n : Node)
    → IsBalanced held fs
    → find_node id fs.nodes ≢ none
    → IsCounted (some n) (held' id + reserve id)
    → ((j : InodeId) → j ≢ id → held' j ≡ held j)
    → IsBalanced held' (record fs { nodes = put_node id n fs.nodes })
put_node-IsBalanced held held' fs id n b known c same = record {
  counted = λ j. rw (find_node-put_node id j n fs.nodes) (elim (Bool-cases (id == j)) [
    | inl here ↦ let one : id ≡ j = ground arith in rw here (rw one at c)
    | inr other ↦ rw other (rw (← same j (ground arith)) at (b.counted j))
  ]);
  unissued = λ j h. ground (arith, find_node-put_node id j n fs.nodes, b.unissued j h);
}

check_ids-done :
    (next : InodeId) (xs : List (InodeId × Node))
    → ((id : InodeId) → next ≤ id → find_node id xs ≡ none)
    → check_ids next xs ≡ done tt
unfolding check_ids find_node
check_ids-done next [] h = refl
check_ids-done next ((id, n) ∷ xs) h =
    let below : ltb id next ≡ true = ground (arith, h id) in
    rw below (check_ids-done next xs (λ j above. ground (arith, h j above)))

-- The invariant that is checked at run time follows.
pub check_forget_invariants-done :
    (held : Held) (fs : ForgetFs) → IsBalanced held fs → check_forget_invariants fs ≡ done tt
unfolding check_forget_invariants
check_forget_invariants-done held fs b = check_ids-done fs.next_inode_id fs.nodes b.unissued
