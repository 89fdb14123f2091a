-- ===== src/Memfs/Inode/Contents.antt =====
-- The contents of a file under WriteAt and ReadAt, byte by byte.
use fusego.Base.{
  ℕ, ◌+◌, ◌-◌, ◌≤◌, ◌<◌, ◌≡◌, refl, true, false, Option, none, some, ◌++◌, arith, ltb, leb, ◌==◌,
  if◌then◌else◌, done, ◌>>=◌, length, get_elem?, take, drop, replicate, length-append, length-take,
  length-drop, length-replicate, get_elem?-append, get_elem?-ge, get_elem?-take, get_elem?-drop,
  get_elem?-replicate, take_of_length, take-append_eq, drop-append_eq,
}
use fusego.Base.Int.{pos}
use fusego.Bytes.{Bytes}
use fusego.Fuseops.{Time, alloc_bound}
use fusego.Memfs.Inode.{Inode, is_file, is_dir, is_symlink, grow, copy_at, read_at, write_at}

-- A byte of a file as a reader sees it, were it long enough: what lies beyond the end is zero.
abbrev pub byte_at : Bytes → ℕ → Option ℕ
byte_at xs i = if ltb i (length xs) then get_elem? xs i else some 0

pub length-grow :
    (k : ℕ) (xs : Bytes) → length (grow k xs) ≡ (if ltb (length xs) k then k else length xs)
unfolding grow
length-grow k xs = ground (
  arith,
  length-append xs (replicate (k - length xs) 0),
  length-replicate {A = ℕ} (k - length xs) 0,
)

pub get_elem?-grow :
    (k : ℕ) (xs : Bytes) (i : ℕ)
    → get_elem? (grow k xs) i
      ≡ (if ltb i (length xs) then get_elem? xs i else if ltb i k then some 0 else none)
unfolding grow
get_elem?-grow k xs i = ground (
  arith,
  get_elem?-append xs (replicate (k - length xs) 0) i,
  get_elem?-replicate {A = ℕ} (k - length xs) 0 (i - length xs),
)

-- What the copy leaves, when it fits.
abbrev pub patched : ℕ → Bytes → Bytes → Bytes
patched off p xs = take off xs ++ (p ++ drop (off + length p) xs)

copy_at_fits :
    (off : ℕ) (p xs : Bytes)
    → off + length p ≤ length xs
    → copy_at off p xs ≡ done (patched off p xs, length p)
unfolding copy_at
copy_at_fits off p xs h =
    let in_range : leb off (length xs) ≡ true = ground arith in
    rw (in_range, take_of_length (length xs - off) p (omega arith))

length-patched :
    (off : ℕ) (p xs : Bytes) → off + length p ≤ length xs → length (patched off p xs) ≡ length xs
length-patched off p xs h = omega (
  arith,
  length-append (take off xs) (p ++ drop (off + length p) xs),
  length-append p (drop (off + length p) xs),
  length-take off xs,
  length-drop (off + length p) xs,
)

get_elem?-patched :
    (off : ℕ) (p xs : Bytes) (i : ℕ)
    → off + length p ≤ length xs
    → get_elem? (patched off p xs) i ≡ (
        if ltb i off
        then get_elem? xs i
        else if ltb i (off + length p)
        then get_elem? p (i - off)
        else get_elem? xs i)
get_elem?-patched off p xs i h =
    let tail = drop (off + length p) xs in
    let front : length (take off xs) ≡ off = omega (arith, length-take off xs) in
    ground (
      arith,
      front,
      get_elem?-append (take off xs) (p ++ tail) i,
      get_elem?-append p tail (i - length (take off xs)),
      get_elem?-take off xs i,
      get_elem?-drop (off + length p) xs (i - length (take off xs) - length p),
    )

-- What WriteAt makes of a file.
abbrev pub written : Time → Bytes → ℕ → Inode → Inode
written now p off n = record n {
  attrs = record (n.attrs) {
    mtime = now;
    size = if ltb (length n.contents) (off + length p) then off + length p else n.attrs.size;
  };
  contents = patched off p (grow (off + length p) n.contents);
}

-- On a regular file, and up to the largest int, WriteAt neither panics nor writes short.
pub write_at-done :
    (now : Time) (p : Bytes) (off : ℕ) (n : Inode)
    → is_file n ≡ true
    → off + length p < alloc_bound
    → write_at now p (pos off) n ≡ done (written now p off n, length p)
unfolding write_at
write_at-done now p off n file h =
    let fits : ltb (off + length p) alloc_bound ≡ true = ground arith in
    let same : (length p == length p) ≡ true = ground arith in
    rw (
      file,
      fits,
      copy_at_fits off p (grow (off + length p) n.contents)
          (ground (arith, length-grow (off + length p) n.contents)),
      same,
    )

-- Every byte of the file after a write: the data where it was written, what was there before
-- elsewhere, and zeroes between the old end and the data.
pub get_elem?-written :
    (now : Time) (p : Bytes) (off : ℕ) (n : Inode) (i : ℕ)
    → get_elem? (written now p off n).contents i ≡ (
        if ltb i (off + length p)
        then (if ltb i off then byte_at n.contents i else get_elem? p (i - off))
        else get_elem? n.contents i)
get_elem?-written now p off n i = ground (
  arith,
  length-grow (off + length p) n.contents,
  get_elem?-grow (off + length p) n.contents i,
  get_elem?-patched off p (grow (off + length p) n.contents) i,
  get_elem?-ge n.contents i,
)

pub length-written :
    (now : Time) (p : Bytes) (off : ℕ) (n : Inode)
    → length (written now p off n).contents
      ≡ (if ltb (length n.contents) (off + length p) then off + length p else length n.contents)
length-written now p off n = ground (
  arith,
  length-grow (off + length p) n.contents,
  length-patched off p (grow (off + length p) n.contents),
)

-- The size attribute keeps in step with the contents.
pub written-size :
    (now : Time) (p : Bytes) (off : ℕ) (n : Inode)
    → n.attrs.size ≡ length n.contents
    → (written now p off n).attrs.size ≡ length (written now p off n).contents
written-size now p off n h = ground (arith, length-written now p off n)

drop-patched :
    (off : ℕ) (p xs : Bytes)
    → off + length p ≤ length xs
    → take (length p) (drop off (patched off p xs)) ≡ p
drop-patched off p xs h =
    let front : length (take off xs) ≡ off = omega (arith, length-take off xs) in
    rw (
      drop-append_eq off (take off xs) (p ++ drop (off + length p) xs) front,
      take-append_eq (length p) p (drop (off + length p) xs) refl,
    )

-- On a regular file a write that ends below 2^48 bytes succeeds in full, and reading the same range
-- back gives the same bytes with no end of file.
pub read_at-write_at :
    (now : Time) (p : Bytes) (off : ℕ) (n : Inode)
    → is_file n ≡ true
    → off + length p < alloc_bound
    → (write_at now p (pos off) n >>= λ (n', _). read_at (length p) (pos off) n') ≡ done (p, false)
unfolding read_at is_file is_dir is_symlink
read_at-write_at now p off n file h =
    let back =
      drop-patched off p (grow (off + length p) n.contents)
        (ground (arith, length-grow (off + length p) n.contents)) in
    let reach : ltb (length (written now p off n).contents) off ≡ false =
      ground (arith, length-written now p off n) in
    let full : ltb (length p) (length p) ≡ false = ground arith in
    rw (write_at-done now p off n file h) (rw (file, reach, back, full))

-- WriteAt on a regular file, up to less than 2^48 bytes: all of the data is written, the size attribute
-- is the length of the contents, the kind of the file is kept, and each byte is the data where it was
-- written, what was there before elsewhere, and zero between the old end and the data.
pub write_at_bytes :
    (now : Time) (p : Bytes) (off : ℕ) (n : Inode)
    → is_file n ≡ true
    → n.attrs.size ≡ length n.contents
    → off + length p < alloc_bound
    → (n' : Inode) × (write_at now p (pos off) n ≡ done (n', length p))
      × (n'.attrs.size ≡ length n'.contents)
      × (is_file n' ≡ true)
      × ((i : ℕ)
          → get_elem? n'.contents i ≡ (
              if ltb i (off + length p)
              then (if ltb i off then byte_at n.contents i else get_elem? p (i - off))
              else get_elem? n.contents i))
unfolding is_file is_dir is_symlink
write_at_bytes now p off n file size h = (
  written now p off n,
  write_at-done now p off n file h,
  written-size now p off n size,
  file,
  get_elem?-written now p off n,
)
