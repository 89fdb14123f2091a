-- ===== src/Memfs/Inode/Resize.antt =====
-- The contents of a file under SetAttributes and Fallocate, byte by byte.
use fusego.Base.{
  ℕ, ◌+◌, ◌%◌, ◌&&◌, ◌<◌, ◌≡◌, refl, inl, inr, Bool-cases, Bool, true, Option, none, some, arith,
  ltb, leb, ◌==◌, if◌then◌else◌, done, length, get_elem?, take, length-take, get_elem?-take,
}
use fusego.Bytes.{Bytes}
use fusego.Fuseops.{Time, ok, fail, int_bound, alloc_bound, u64_mod}
use fusego.Fuseops.Errno.{enosys}
use fusego.Memfs.Inode.{Inode, grow, resize, or_keep, set_attributes, fallocate}
use fusego.Memfs.Inode.Contents.{byte_at, length-grow, get_elem?-grow}

-- The contents after a truncation, or after being filled up.
abbrev pub resized : ℕ → Bytes → Bytes
resized size xs = if leb size (length xs) then take size xs else grow size xs

pub length-resized : (size : ℕ) (xs : Bytes) → length (resized size xs) ≡ size
length-resized size xs = ground (arith, length-grow size xs, length-take size xs)

pub get_elem?-resized :
    (size : ℕ) (xs : Bytes) (i : ℕ)
    → get_elem? (resized size xs) i ≡ (if ltb i size then byte_at xs i else none)
get_elem?-resized size xs i = ground (arith, get_elem?-grow size xs i, get_elem?-take size xs i)

-- SetAttributes with a size below 2^48: the size and the length are the new one, the first bytes stay,
-- a longer file is filled up with zeroes, and the mode and the time of modification are set if given.
pub set_attributes_size :
    (now : Time) (size : ℕ) (mode : Option ℕ) (mtime : Option Time) (n : Inode)
    → size < alloc_bound
    → (n' : Inode) × (set_attributes now (some size) mode mtime n ≡ done n')
      × (n'.attrs.size ≡ size)
      × (length n'.contents ≡ size)
      × ((i : ℕ) → get_elem? n'.contents i ≡ (if ltb i size then byte_at n.contents i else none))
      × (n'.attrs.mode ≡ or_keep mode n.attrs.mode)
      × (n'.attrs.mtime ≡ or_keep mtime now)
unfolding set_attributes resize
set_attributes_size now size mode mtime n h =
    let fits : ltb size alloc_bound ≡ true = ground arith in
    (
      record n {
        attrs = record (n.attrs) {
          size = size;
          mode = or_keep mode n.attrs.mode;
          mtime = or_keep mtime now;
        };
        contents = resized size n.contents;
      },
      rw fits,
      refl,
      length-resized size n.contents,
      get_elem?-resized size n.contents,
      refl,
      refl,
    )

-- Without a size, SetAttributes never panics and touches no byte.
pub set_attributes_no_size :
    (now : Time) (mode : Option ℕ) (mtime : Option Time) (n : Inode)
    → set_attributes now none mode mtime n
      ≡ done (record n {
        attrs = record (n.attrs) { mode = or_keep mode n.attrs.mode; mtime = or_keep mtime now };
      })
unfolding set_attributes
set_attributes_no_size now mode mtime n = refl

-- Whether a call of Fallocate makes the file longer.
abbrev pub extends : ℕ → ℕ → ℕ → Inode → Bool
extends mode offset len n = mode == 0 && ltb (length n.contents) (offset + len)

-- The inode after a call of Fallocate.
abbrev pub fallocated : ℕ → ℕ → ℕ → Inode → Inode
fallocated mode offset len n =
    if extends mode offset len n
    then record n {
      attrs = record (n.attrs) { size = offset + len };
      contents = grow (offset + len) n.contents;
    }
    else n

-- Fallocate refuses every mode but 0, and makes nothing longer then.
pub fallocate_lem :
    (mode offset len : ℕ) (n : Inode)
    → offset + len < alloc_bound
    → fallocate mode offset len n
      ≡ done (fallocated mode offset len n, (if mode == 0 then ok tt else fail enosys))
unfolding fallocate
fallocate_lem mode offset len n h =
    let exact : (offset + len) % u64_mod ≡ offset + len = omega arith in
    let fits : ltb (offset + len) int_bound ≡ true = ground arith in
    let made : ltb (offset + len) alloc_bound ≡ true = ground arith in
    rw (exact, fits, made) (ground arith)

-- The file grows to the end of the range, if that lies beyond its end, by zeroes. It never shrinks, its
-- size stays that of its contents, and with any mode but 0 it stays as it is.
pub fallocate_bytes :
    (mode offset len : ℕ) (n : Inode)
    → n.attrs.size ≡ length n.contents
    → let n' = fallocated mode offset len n in
      (n'.attrs ≡ record (n.attrs) { size = length n'.contents })
      × (n'.target ≡ n.target)
      × (n'.xattrs ≡ n.xattrs)
      × (length n'.contents
          ≡ (if extends mode offset len n then offset + len else length n.contents))
      × ((i : ℕ) → i < length n'.contents → get_elem? n'.contents i ≡ byte_at n.contents i)
fallocate_bytes mode offset len n size = elim (Bool-cases (extends mode offset len n)) [
  | inl longer ↦ rw longer (
    rw (length-whole longer),
    refl,
    refl,
    length-whole longer,
    λ i below. ground (arith, length-whole longer, get_elem?-grow (offset + len) n.contents i),
  )
  | inr same ↦ rw same (rw (← size), refl, refl, refl, λ i below. ground arith)
]
  where
    length-whole :
        extends mode offset len n ≡ true → length (grow (offset + len) n.contents) ≡ offset + len
    length-whole longer = ground (arith, length-grow (offset + len) n.contents)
