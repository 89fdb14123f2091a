-- ===== src/Forgetfs.antt =====
-- samples/forgetfs/forget_fs.go: a file system that counts how often the kernel has looked an inode up,
-- and panics when the kernel forgets more or uses an inode that it has forgotten.
pub mod Balance
pub mod Sessions
pub mod Unmount
pub mod Tests
use fusego.Base.{
  ℕ, ◌+◌, ◌-◌, ◌%◌, Bool, true, false, not, ◌&&◌, Option, none, some, List, [], ◌∷◌, ltb, ◌==◌,
  if◌then◌else◌, Outcome, done, panics, ◌>>=◌, ◌>>◌, require, or_panic,
}
use fusego.Bytes.{Bytes, bytes_eq}
use fusego.Fuseops.{
  InodeId, InodeAttributes, ChildInodeEntry, Reply, ok, fail, root_inode_id, u64_mod,
}
use fusego.Fuseops.Errno.{enoent}
use fusego.Fuseops.FileMode.{mode_dir}

-- The type `inode`.
pub record Node : Type 0 where
  pub attributes : InodeAttributes
  pub lookup_count : ℕ
  pub looked_up : Bool

-- `fsImpl`; the map from IDs is a list of pairs.
pub record ForgetFs : Type 0 where
  pub nodes : List (InodeId × Node)
  pub next_inode_id : InodeId

-- `fs.inodes[id]`
unfoldable pub find_node : InodeId → List (InodeId × Node) → Option Node
find_node id [] = none
find_node id ((j, n) ∷ rest) = let found = find_node id rest in if j == id then some n else found

-- `fs.inodes[id] = n`, and also a write through the pointer that the map has for `id`.
unfoldable pub put_node : InodeId → Node → List (InodeId × Node) → List (InodeId × Node)
put_node id n [] = (id, n) ∷ []
put_node id n ((j, m) ∷ rest) =
    let more = put_node id n rest in if j == id then (id, n) ∷ rest else (j, m) ∷ more

abbrev pub root_id : InodeId
root_id = root_inode_id

abbrev pub foo_id : InodeId
foo_id = root_inode_id + 1

abbrev pub bar_id : InodeId
bar_id = root_inode_id + 2

abbrev pub next_id : InodeId
next_id = root_inode_id + 3

-- `&inode{attributes: ...}` with this link count and mode.
abbrev pub new_node : ℕ → ℕ → Node
new_node nlink mode = record {
  attributes = record {
    size = 0;
    nlink = nlink;
    mode = mode;
    atime = 0;
    mtime = 0;
    ctime = 0;
    crtime = 0;
    uid = 0;
    gid = 0;
  };
  lookup_count = 0;
  looked_up = false;
}

-- `Forgotten`
abbrev pub is_forgotten : Node → Bool
is_forgotten n = n.looked_up && n.lookup_count == 0

-- The count is a uint64.
abbrev pub increment_lookup_count : Node → Node
increment_lookup_count n = record n {
  lookup_count = (n.lookup_count + 1) % u64_mod;
  looked_up = true;
}

unfoldable pub decrement_lookup_count : ℕ → Node → Outcome Node
decrement_lookup_count k n =
    require (not (ltb n.lookup_count k)) >> done (record n { lookup_count = n.lookup_count - k })

-- `inode.Destroy`
unfoldable pub destroy_node : Node → Outcome Node
destroy_node n = decrement_lookup_count n.lookup_count n

-- `NewFileSystem`
unfoldable pub new_forget_fs : ForgetFs
new_forget_fs = record {
  nodes =
      (root_id, increment_lookup_count (new_node 1 (0o777 + mode_dir)))
      ∷ (foo_id, increment_lookup_count (new_node 1 0o777))
      ∷ (bar_id, increment_lookup_count (new_node 1 (0o777 + mode_dir)))
      ∷ [];
  next_inode_id = next_id;
}

unfoldable pub check_ids : InodeId → List (InodeId × Node) → Outcome (Unit {0})
check_ids next [] = done tt
check_ids next ((id, _) ∷ rest) = require (ltb id next) >> check_ids next rest

-- `fsImpl.checkInvariants`
unfoldable pub check_forget_invariants : ForgetFs → Outcome (Unit {0})
check_forget_invariants fs = check_ids fs.next_inode_id fs.nodes

unfoldable pub check_counts : List (InodeId × Node) → Outcome (Unit {0})
check_counts [] = done tt
check_counts ((_, n) ∷ rest) = require (n.lookup_count == 0) >> check_counts rest

-- `fsImpl.Check`
unfoldable pub check : ForgetFs → Outcome (Unit {0})
check fs = check_counts fs.nodes

unfoldable pub find_inode_by_id : ForgetFs → InodeId → Outcome Node
find_inode_by_id fs id =
    or_panic (find_node id fs.nodes) >>= λ n. require (not (is_forgotten n)) >> done n

abbrev pub foo_name : Bytes
foo_name = 102 ∷ 111 ∷ 111 ∷ []

abbrev pub bar_name : Bytes
bar_name = 98 ∷ 97 ∷ 114 ∷ []

-- The switch of LookUpInode.
abbrev pub canned_child : InodeId → Bytes → Option InodeId
canned_child parent name =
    if parent == root_id && bytes_eq name foo_name
    then some foo_id
    else if parent == root_id && bytes_eq name bar_name
    then some bar_id
    else none

-- An entry that says nothing of generations and expirations.
abbrev pub plain_entry : InodeId → InodeAttributes → ChildInodeEntry
plain_entry id attrs = record {
  child = id;
  generation = 0;
  attributes = attrs;
  attributes_expiration = 0;
  entry_expiration = 0;
}

unfoldable pub look_up_inode :
    InodeId → Bytes → ForgetFs → Outcome (Reply ChildInodeEntry × ForgetFs)
look_up_inode parent name fs = do
  _ ← find_inode_by_id fs parent
  elim (canned_child parent name) [
    | none ↦ done (fail enoent, fs)
    | some id ↦ find_inode_by_id fs id >>= λ n. done (
      ok (plain_entry id n.attributes),
      record fs { nodes = put_node id (increment_lookup_count n) fs.nodes },
    )
  ]

unfoldable pub get_inode_attributes : InodeId → ForgetFs → Outcome InodeAttributes
get_inode_attributes id fs = find_inode_by_id fs id >>= λ n. done n.attributes

unfoldable pub forget_inode : InodeId → ℕ → ForgetFs → Outcome ForgetFs
forget_inode id k fs = do
  n ← find_inode_by_id fs id
  n' ← decrement_lookup_count k n
  done (record fs { nodes = put_node id n' fs.nodes })

-- The end of MkDir and CreateFile: mint a child inode of this mode.
unfoldable pub mint : InodeId → ℕ → ForgetFs → Outcome (ChildInodeEntry × ForgetFs)
mint parent mode fs = do
  _ ← find_inode_by_id fs parent
  let n = increment_lookup_count (new_node 0 mode)
  done (
    plain_entry fs.next_inode_id n.attributes,
    record {
      nodes = put_node fs.next_inode_id n fs.nodes;
      next_inode_id = (fs.next_inode_id + 1) % u64_mod;
    },
  )

unfoldable pub mk_dir : InodeId → ForgetFs → Outcome (ChildInodeEntry × ForgetFs)
mk_dir parent fs = mint parent (0o777 + mode_dir) fs

unfoldable pub create_file : InodeId → ForgetFs → Outcome (ChildInodeEntry × ForgetFs)
create_file parent fs = mint parent 0o777 fs

unfoldable pub open_file : InodeId → ForgetFs → Outcome (Unit {0})
open_file id fs = find_inode_by_id fs id >>= λ _. done tt

unfoldable pub open_dir : InodeId → ForgetFs → Outcome (Unit {0})
open_dir id fs = find_inode_by_id fs id >>= λ _. done tt

unfoldable pub destroy_nodes : List (InodeId × Node) → Outcome (List (InodeId × Node))
destroy_nodes [] = done []
destroy_nodes ((id, n) ∷ rest) = do
  n' ← destroy_node n
  rest' ← destroy_nodes rest
  done ((id, n') ∷ rest')

-- `fsImpl.Destroy`
unfoldable pub destroy : ForgetFs → Outcome ForgetFs
destroy fs = do nodes' ← destroy_nodes fs.nodes; done (record fs { nodes = nodes' })
