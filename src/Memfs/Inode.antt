-- ===== src/Memfs/Inode.antt =====
-- samples/memfs/inode.go: one inode and its methods. Each method that reads the clock takes the
-- reading as its argument `now`. An offset is a signed number; sizes and lengths stay below 2^63
-- where the source converts them to int, and what happens beyond is written out; so is what `make` does
-- with a length that cannot be allocated.
pub mod Contents
pub mod Resize
pub mod Entries
pub mod Invariant
pub mod Listing
pub mod Methods
use fusego.Base.{
  ℕ, suc, ◌+◌, ◌-◌, ◌%◌, Bool, true, false, not, ◌&&◌, ◌||◌, Option, none, some, List, [], ◌∷◌,
  ◌++◌, ltb, leb, ◌==◌, if◌then◌else◌, Outcome, done, panics, ◌>>=◌, ◌>>◌, require, index, length,
  set, take, drop, replicate,
}
use fusego.Base.Int.{ℤ, pos, negsuc}
use fusego.Bytes.{Bytes, bytes_eq}
use fusego.Dirent.{Dirent, write_dirent}
use fusego.Dirent.DirentType
use fusego.Fuseops.{
  Time, InodeId, InodeAttributes, Reply, ok, fail, u64_mod, int_bound, alloc_bound,
}
use fusego.Fuseops.Errno.{enosys}
use fusego.Fuseops.FileMode.{is_plain, has_bit, dir_bit, symlink_bit}

-- A map from names of extended attributes to values, in the order in which it is traversed. Go leaves
-- that order open, and so do the theorems: they hold for each.
abbrev pub Xattrs : Type 0
Xattrs = List (Bytes × Bytes)

pub record Inode : Type 0 where
  pub attrs : InodeAttributes
  pub entries : List Dirent
  pub contents : Bytes
  pub target : Bytes
  pub xattrs : Xattrs

unfoldable pub new_inode : Time → InodeAttributes → Inode
new_inode now attrs = record {
  attrs = record attrs { mtime = now; crtime = now };
  entries = [];
  contents = [];
  target = [];
  xattrs = [];
}

unfoldable pub is_dir : Inode → Bool
is_dir n = has_bit n.attrs.mode dir_bit

unfoldable pub is_symlink : Inode → Bool
is_symlink n = has_bit n.attrs.mode symlink_bit

unfoldable pub is_file : Inode → Bool
is_file n = not (is_dir n || is_symlink n)

-- The loop of findChild: the first entry of that name, used or not.
unfoldable pub find_entry : Bytes → List Dirent → Option ℕ
find_entry name [] = none
find_entry name (e ∷ es) =
    if bytes_eq e.name name
    then some 0
    else elim (find_entry name es) [ none ↦ none | some i ↦ some (suc i) ]

unfoldable pub find_child : Inode → Bytes → Outcome (Option ℕ)
find_child n name = do require (is_dir n); done (find_entry name n.entries)

unfoldable pub count_used : List Dirent → ℕ
count_used [] = 0
count_used (e ∷ es) =
    let rest = count_used es in if e.type == DirentType.unknown then rest else suc rest

-- `Len`
unfoldable pub len : Inode → ℕ
len n = count_used n.entries

unfoldable pub look_up_child : Inode → Bytes → Outcome (Option (InodeId × ℕ))
look_up_child n name = do
  found ← find_child n name
  elim found [
    | none ↦ done none
    | some i ↦ index n.entries i >>= λ e. done (some (e.inode, e.type))
  ]

-- The loop of AddChild from index `i` on: the first unused entry is replaced, or the new one is
-- appended, and its offset is the index after its own.
unfoldable pub place : ℕ → Dirent → List Dirent → List Dirent
place i e [] = record e { offset = i + 1 } ∷ []
place i e (d ∷ ds) =
    let rest = place (i + 1) e ds in
    if d.type == DirentType.unknown then record e { offset = i + 1 } ∷ ds else d ∷ rest

unfoldable pub add_child : Time → InodeId → Bytes → ℕ → Inode → Inode
add_child now id name dt n = record n {
  attrs = record (n.attrs) { mtime = now };
  entries = place 0 (record { offset = 0; inode = id; name = name; type = dt }) n.entries;
}

-- The entry that RemoveChild leaves behind at index `i`.
abbrev pub unused_entry : ℕ → Dirent
unused_entry i = record { offset = i + 1; inode = 0; name = []; type = DirentType.unknown }

unfoldable pub remove_child : Time → Bytes → Inode → Outcome Inode
remove_child now name n = do
  found ← find_child n name
  elim found [
    | none ↦ panics
    | some i ↦ done (record n {
      attrs = record (n.attrs) { mtime = now };
      entries = set n.entries i (unused_entry i);
    })
  ]

-- The loop of ReadDir into a buffer with `room` bytes left: the bytes that it writes.
unfoldable pub write_entries : ℕ → List Dirent → Bytes
write_entries room [] = []
write_entries room (e ∷ es) =
    let skip = write_entries room es in
    let tmp = write_dirent room e in
    let more = tmp ++ write_entries (room - length tmp) es in
    if e.type == DirentType.unknown then skip else if length tmp == 0 then [] else more

-- `ReadDir` with a buffer of `room` bytes. An offset from 2^63 on is negative as an int, and the first
-- entry is then read out of range.
unfoldable pub read_dir : ℕ → ℕ → Inode → Outcome Bytes
read_dir room offset n = do
  require (is_dir n)
  require (ltb offset int_bound)
  done (write_entries room (drop offset n.entries))

-- The number of bytes read is that of the result; the flag says whether io.EOF comes with it.
unfoldable pub read_at : ℕ → ℤ → Inode → Outcome (Bytes × Bool)
read_at room (pos off) n = do
  require (is_file n)
  let got = take room (drop off n.contents)
  done (if ltb (length n.contents) off then ([], true) else (got, ltb (length got) room))
read_at room (negsuc off) n = panics

-- `xs` made at least `k` bytes long by zeroes.
unfoldable pub grow : ℕ → Bytes → Bytes
grow k xs = xs ++ replicate (k - length xs) 0

-- `copy(xs[off:], p)`, and how many bytes it moves; out of range it panics.
unfoldable pub copy_at : ℕ → Bytes → Bytes → Outcome (Bytes × ℕ)
copy_at off p xs = do
  require (leb off (length xs))
  let room = length xs - off
  let q = take room p
  done (take off xs ++ (q ++ drop (off + length q) xs), length q)

-- A sum from 2^63 on wraps to a negative length: nothing is padded, and the slice is out of range. From
-- `alloc_bound` on the padding cannot be made, since no contents are as long.
unfoldable pub write_at : Time → Bytes → ℤ → Inode → Outcome (Inode × ℕ)
write_at now p (pos off) n = do
  require (is_file n)
  let new_len = off + length p
  require (ltb new_len alloc_bound)
  (contents, copied) ← copy_at off p (grow new_len n.contents)
  require (copied == length p)
  done (
    record n {
      attrs = record (n.attrs) {
        mtime = now;
        size = if ltb (length n.contents) new_len then new_len else n.attrs.size;
      };
      contents = contents;
    },
    copied,
  )
write_at now p (negsuc off) n = panics

-- The truncation in SetAttributes; a size from 2^63 on is negative as an int, and from `alloc_bound` on
-- the padding cannot be made.
unfoldable pub resize : ℕ → Inode → Outcome Inode
resize size n = do
  require (ltb size alloc_bound)
  done (record n {
    attrs = record (n.attrs) { size = size };
    contents = if leb size (length n.contents) then take size n.contents else grow size n.contents;
  })

unfoldable pub resize_to : Option ℕ → Inode → Outcome Inode
resize_to none n = done n
resize_to (some size) n = resize size n

abbrev pub or_keep : Option ℕ → ℕ → ℕ
or_keep none old = old
or_keep (some new) old = new

unfoldable pub set_attributes : Time → Option ℕ → Option ℕ → Option Time → Inode → Outcome Inode
unfolding resize_to
set_attributes now size mode mtime n = do
  n' ← resize_to size (record n { attrs = record (n.attrs) { mtime = now } })
  done (record n' {
    attrs = record (n'.attrs) {
      mode = or_keep mode n'.attrs.mode;
      mtime = or_keep mtime n'.attrs.mtime;
    };
  })

-- `offset + length` wraps as a uint64, and is negative as an int from 2^63 on, so that nothing is padded.
unfoldable pub fallocate : ℕ → ℕ → ℕ → Inode → Outcome (Inode × Reply (Unit {0}))
fallocate mode offset length' n =
    let total = (offset + length') % u64_mod in
    if not (mode == 0)
    then done (n, fail enosys)
    else if ltb total int_bound && ltb (length n.contents) total
    then require (ltb total alloc_bound)
      >> done (
        record n { attrs = record (n.attrs) { size = total }; contents = grow total n.contents },
        ok tt,
      )
    else done (n, ok tt)

-- The loop over `entries` in CheckInvariants that compares each offset with its index.
unfoldable pub check_offsets : ℕ → List Dirent → Outcome (Unit {0})
check_offsets i [] = done tt
check_offsets i (e ∷ es) = require (e.offset == i + 1) >> check_offsets (i + 1) es

unfoldable pub has_name : Bytes → List Bytes → Bool
has_name name [] = false
has_name name (x ∷ xs) = bytes_eq x name || has_name name xs

-- The loop that collects the names of the used entries; `seen` is the set childNames.
unfoldable pub check_names : List Bytes → List Dirent → Outcome (Unit {0})
check_names seen [] = done tt
check_names seen (e ∷ es) =
    let skip = check_names seen es in
    let more = require (not (has_name e.name seen)) >> check_names (e.name ∷ seen) es in
    if e.type == DirentType.unknown then skip else more

-- `CheckInvariants`
unfoldable pub check_invariants : Inode → Outcome (Unit {0})
unfolding is_dir is_symlink is_file
check_invariants n = do
  require (is_plain n.attrs.mode)
  require (not (is_dir n && is_symlink n))
  require (n.attrs.size == length n.contents)
  require (is_dir n || length n.entries == 0)
  check_offsets 0 n.entries
  check_names [] n.entries
  require (is_file n || length n.contents == 0)
  require (is_symlink n || length n.target == 0)
