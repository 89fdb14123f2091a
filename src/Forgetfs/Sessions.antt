-- ===== src/Forgetfs/Sessions.antt =====
-- A mount as the kernel sees it: a sequence of calls, each on inodes that the kernel holds.
use fusego.Base.{
  ℕ, ◌+◌, ◌-◌, ◌%◌, ◌≤◌, ◌<◌, ◌≡◌, refl, subst, inl, inr, false, ◌&&◌, Option, none, some, arith,
  ltb, ◌==◌, Outcome, done, ◌>>=◌, Bool-cases,
}
use fusego.Bytes.{Bytes, bytes_eq}
use fusego.Fuseops.{InodeId, ChildInodeEntry, Reply, ok, fail, u64_mod}
use fusego.Fuseops.FileMode.{mode_dir}
use fusego.Forgetfs.{
  Node, ForgetFs, find_node, put_node, find_inode_by_id, new_forget_fs, foo_id, bar_id, root_id,
  increment_lookup_count, decrement_lookup_count, look_up_inode, forget_inode, mint, mk_dir,
  create_file, open_file, open_dir, get_inode_attributes, plain_entry, new_node,
  check_forget_invariants, foo_name, bar_name,
}
use fusego.Forgetfs.Balance.{
  Held, reserve, IsCounted, IsBalanced, plus, minus, at_mount, find_inode_by_id-done,
  put_node-IsBalanced, find_node-put_node, check_forget_invariants-done,
}

-- The calls, with the fields of their ops that the handlers read.
pub data Call : Type 0 where
  looking_up : InodeId → Bytes → Call
  getting_attributes : InodeId → Call
  forgetting : InodeId → ℕ → Call
  making_dir : InodeId → Call
  creating_file : InodeId → Call
  opening_file : InodeId → Call
  opening_dir : InodeId → Call

-- The entry that a reply carries, if any.
abbrev pub entry_of : Reply ChildInodeEntry → Option ChildInodeEntry
entry_of (ok entry) = some entry
entry_of (fail e) = none

abbrev pub serve : Call → ForgetFs → Outcome (Option ChildInodeEntry × ForgetFs)
serve (looking_up parent name) fs =
    look_up_inode parent name fs >>= λ (r, fs'). done (entry_of r, fs')
serve (getting_attributes id) fs = get_inode_attributes id fs >>= λ _. done (none, fs)
serve (forgetting id k) fs = forget_inode id k fs >>= λ fs'. done (none, fs')
serve (making_dir parent) fs = mk_dir parent fs >>= λ (entry, fs'). done (some entry, fs')
serve (creating_file parent) fs = create_file parent fs >>= λ (entry, fs'). done (some entry, fs')
serve (opening_file id) fs = open_file id fs >>= λ _. done (none, fs)
serve (opening_dir id) fs = open_dir id fs >>= λ _. done (none, fs)

-- The kernel calls on inodes that it holds, forgets no more than it holds, and stops before a counter
-- of 64 bits is full.
abbrev pub IsAllowed : Held → ForgetFs → Call → Type 0
IsAllowed held fs (looking_up parent name) =
    (0 < held parent) × (held foo_id + 2 < u64_mod) × (held bar_id + 2 < u64_mod)
IsAllowed held fs (getting_attributes id) = 0 < held id
IsAllowed held fs (forgetting id k) = (0 < held id) × (k ≤ held id)
IsAllowed held fs (making_dir parent) = (0 < held parent) × (fs.next_inode_id + 1 < u64_mod)
IsAllowed held fs (creating_file parent) = (0 < held parent) × (fs.next_inode_id + 1 < u64_mod)
IsAllowed held fs (opening_file id) = 0 < held id
IsAllowed held fs (opening_dir id) = 0 < held id

-- What the kernel holds after the call: each entry in a reply is one reference more.
abbrev pub granted : Held → Option ChildInodeEntry → Held
granted held none = held
granted held (some entry) = plus entry.child 1 held

abbrev pub held_after : Held → Call → Option ChildInodeEntry → Held
held_after held (forgetting id k) answer = minus id k held
held_after held call answer = granted held answer

abbrev pub IsServed : Held → ForgetFs → Call → Type 0
IsServed held fs call =
    (answer : Option ChildInodeEntry) × (fs' : ForgetFs) × (serve call fs ≡ done (answer, fs'))
    × IsBalanced (held_after held call answer) fs'

module _ (held : Held) (fs : ForgetFs) (b : IsBalanced held fs) where
  look_up_found :
      (id : InodeId)
      → 0 < held id + reserve id
      → held id + reserve id + 1 < u64_mod
      → (n : Node) × (find_inode_by_id fs id ≡ done n)
        × IsBalanced
            (plus id 1 held)
            (record fs { nodes = put_node id (increment_lookup_count n) fs.nodes })
  look_up_found id some_held room =
      let (n, found, known, count) = find_inode_by_id-done held fs id b some_held in
      (
        n,
        found,
        put_node-IsBalanced held (plus id 1 held) fs id (increment_lookup_count n) b (λ e. cc)
            (refl, ground arith) (λ j nj. ground arith),
      )

  minted-IsServed :
      (parent : InodeId) (mode : ℕ)
      → 0 < held parent
      → fs.next_inode_id + 1 < u64_mod
      → (entry : ChildInodeEntry) × (fs' : ForgetFs) × (mint parent mode fs ≡ done (entry, fs'))
        × IsBalanced (plus entry.child 1 held) fs'
  unfolding mint
  minted-IsServed parent mode some_held room =
      let (_, found, _, _) = find_inode_by_id-done held fs parent b (omega (arith, some_held)) in
      let id = fs.next_inode_id in
      let n = increment_lookup_count (new_node 0 mode) in
      let free = b.unissued id (omega arith) in
      let unheld : held id + reserve id ≡ 0 = rw free at (b.counted id) in
      let step : (id + 1) % u64_mod ≡ id + 1 = omega arith in
      (
        plain_entry id n.attributes,
        record { nodes = put_node id n fs.nodes; next_inode_id = (id + 1) % u64_mod },
        rw found,
        record {
          counted = λ j. rw (find_node-put_node id j n fs.nodes) (elim (Bool-cases (id == j)) [
            | inl here ↦ let one : id ≡ j = ground arith in rw here (refl, ground (arith, unheld))
            | inr other ↦ rw other (b.counted j)
          ]);
          unissued = λ j h. ground (arith, step, find_node-put_node id j n fs.nodes, b.unissued j);
        },
      )

  looking_up-IsServed :
      (parent : InodeId) (name : Bytes)
      → IsAllowed held fs (looking_up parent name)
      → IsServed held fs (looking_up parent name)
  unfolding look_up_inode
  looking_up-IsServed parent name (some_held, foo_room, bar_room) =
      let (_, found, _, _) = find_inode_by_id-done held fs parent b (omega (arith, some_held)) in
      elim (Bool-cases (parent == root_id && bytes_eq name foo_name)) [
        | inl foo ↦
            let (n, got, after) = look_up_found foo_id (ground arith) (ground arith) in
            (some (plain_entry foo_id n.attributes), _, rw (found, foo, got), after)
        | inr not_foo ↦ elim (Bool-cases (parent == root_id && bytes_eq name bar_name)) [
          | inl bar ↦
              let (n, got, after) = look_up_found bar_id (ground arith) (ground arith) in
              (some (plain_entry bar_id n.attributes), _, rw (found, not_foo, bar, got), after)
          | inr not_bar ↦ (none, fs, rw (found, not_foo, not_bar), b)
        ]
      ]

  forgetting-IsServed :
      (id : InodeId) (k : ℕ)
      → IsAllowed held fs (forgetting id k)
      → IsServed held fs (forgetting id k)
  unfolding forget_inode decrement_lookup_count
  forgetting-IsServed id k (some_held, enough) =
      let (n, found, known, count) =
        find_inode_by_id-done held fs id b (omega (arith, some_held)) in
      let seen : IsCounted (some n) (held id + reserve id) = rw known at (b.counted id) in
      let fits : ltb n.lookup_count k ≡ false = ground arith in
      (
        none,
        record fs { nodes = put_node id (record n { lookup_count = n.lookup_count - k }) fs.nodes },
        rw (found, fits),
        put_node-IsBalanced held (minus id k held) fs id
            (record n { lookup_count = n.lookup_count - k }) b (λ e. cc) (seen.0, ground arith)
            (λ j nj. ground arith),
      )

  -- A call that the kernel may make never panics, and the counts after it are again those that the
  -- kernel holds.
  pub allowed-IsServed : (call : Call) → IsAllowed held fs call → IsServed held fs call
  unfolding get_inode_attributes mk_dir create_file open_file open_dir
  allowed-IsServed (looking_up parent name) h = looking_up-IsServed parent name h
  allowed-IsServed (getting_attributes id) h =
      let (n, found, _, _) = find_inode_by_id-done held fs id b (omega (arith, h)) in
      (none, fs, rw found, b)
  allowed-IsServed (forgetting id k) h = forgetting-IsServed id k h
  allowed-IsServed (making_dir parent) (h, room) =
      let (entry, fs', e, after) = minted-IsServed parent (0o777 + mode_dir) h room in
      (some entry, fs', rw e, after)
  allowed-IsServed (creating_file parent) (h, room) =
      let (entry, fs', e, after) = minted-IsServed parent 0o777 h room in
      (some entry, fs', rw e, after)
  allowed-IsServed (opening_file id) h =
      let (n, found, _, _) = find_inode_by_id-done held fs id b (omega (arith, h)) in
      (none, fs, rw found, b)
  allowed-IsServed (opening_dir id) h =
      let (n, found, _, _) = find_inode_by_id-done held fs id b (omega (arith, h)) in
      (none, fs, rw found, b)

-- A mount: the calls from the new file system on, each of them answered.
pub data Session : Held → ForgetFs → Type 0 where
  mounted : Session at_mount new_forget_fs
  called :
      {held : Held} {fs fs' : ForgetFs} {answer : Option ChildInodeEntry} (call : Call)
      → Session held fs
      → IsAllowed held fs call
      → serve call fs ≡ done (answer, fs')
      → Session (held_after held call answer) fs'

new_forget_fs-IsBalanced : IsBalanced at_mount new_forget_fs
unfolding new_forget_fs find_node
new_forget_fs-IsBalanced = record { counted = λ id. ground arith; unissued = λ id h. ground arith }

same_answer :
    {o : Outcome (Option ChildInodeEntry × ForgetFs)} {p q : Option ChildInodeEntry × ForgetFs}
    → o ≡ done p
    → o ≡ done q
    → p ≡ q
same_answer e e' = cc

-- At each point of a mount the lookup counts are what the kernel holds of the inodes, and one more for
-- "foo" and "bar"; checkInvariants does not panic; and the kernel's next call, if it is allowed, does
-- not panic and leaves the counts so.
pub Session-IsBalanced :
    {held : Held} {fs : ForgetFs}
    → Session held fs
    → IsBalanced held fs
      × (check_forget_invariants fs ≡ done tt)
      × ((call : Call) → IsAllowed held fs call → IsServed held fs call)
Session-IsBalanced s =
    let b = balanced s in (b, check_forget_invariants-done _ _ b, allowed-IsServed _ _ b)
  where
    balanced : {held : Held} {fs : ForgetFs} → Session held fs → IsBalanced held fs
    balanced mounted = new_forget_fs-IsBalanced
    balanced (called {held} {fs} call s h e) =
        let (answer', fs'', e', b) = allowed-IsServed held fs (balanced s) call h in
        subst (λ (p : Option ChildInodeEntry × ForgetFs). IsBalanced (held_after held call p.0) p.1)
          (same_answer e' e) b
