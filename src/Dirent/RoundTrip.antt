-- ===== src/Dirent/RoundTrip.antt =====
-- What the kernel reads back from the bytes of WriteDirent.
use mathlib.Core.List.{append_assoc}
use fusego.Base.{
  ℕ, ◌+◌, ◌%◌, ◌≤◌, ◌<◌, ◌^◌, ◌≡◌, refl, inl, inr, false, Option, none, some, [], ◌++◌, arith, ltb,
  if◌then◌else◌, length, take, drop, replicate, length-append, length-replicate, take-append,
  drop-append, drop-append_eq, Bool-cases,
}
use fusego.Bytes.{Bytes, le_bytes, le_value, le_value-le_bytes}
use fusego.Dirent.{Dirent, dirent_size, dirent_alignment, pad_len, header, write_dirent}

abbrev pub encoded_length : Dirent → ℕ
encoded_length d = dirent_size + length d.name + pad_len (length d.name)

-- The entry at the front of a kernel buffer, and what follows it: the fixed header gives the length
-- of the name, and the next entry starts at the next multiple of eight.
pub parse_dirent : Bytes → Option (Dirent × Bytes)
parse_dirent b =
    let n = le_value (take 4 (drop 16 b)) in
    if ltb (length b) (dirent_size + n + pad_len n)
    then none
    else some (
      record {
        inode = le_value (take 8 b);
        offset = le_value (take 8 (drop 8 b));
        type = le_value (take 4 (drop 20 b));
        name = take n (drop dirent_size b);
      },
      drop (pad_len n) (drop n (drop dirent_size b)),
    )

-- The header has its fixed size, and each field stands where the kernel looks for it.
header_fields :
    (d : Dirent) (t : Bytes)
    → (length (header d) ≡ dirent_size)
      × (take 8 (header d ++ t) ≡ le_bytes 8 d.inode)
      × (take 8 (drop 8 (header d ++ t)) ≡ le_bytes 8 d.offset)
      × (take 4 (drop 16 (header d ++ t)) ≡ le_bytes 4 (length d.name))
      × (take 4 (drop 20 (header d ++ t)) ≡ le_bytes 4 d.type)
      × (drop dirent_size (header d ++ t) ≡ t)
unfolding header le_bytes
header_fields d t = (refl, refl, refl, refl, refl, refl)

-- WriteDirent writes the whole entry, padded, or nothing when the buffer is too short for it.
pub length-write_dirent :
    (room : ℕ) (d : Dirent)
    → length (write_dirent room d) ≡ (if ltb room (encoded_length d) then 0 else encoded_length d)
unfolding write_dirent
length-write_dirent room d = elim (Bool-cases (ltb room (encoded_length d))) [
  | inl short ↦ rw short
  | inr fits ↦ rw fits (
      omega (
        arith,
        (header_fields d []).0,
        length-append (header d) (d.name ++ replicate (pad_len (length d.name)) 0),
        length-append d.name (replicate (pad_len (length d.name)) 0),
        length-replicate {A = ℕ} (pad_len (length d.name)) 0,
      ))
]

pub encoded_length_aligned : (d : Dirent) → encoded_length d % dirent_alignment ≡ 0
unfolding pad_len
encoded_length_aligned d = ground arith

-- The fields are in the range of their types.
pub record IsDirent (d : Dirent) : Type 0 where
  pub inode_range : d.inode < 256 ^ 8
  pub offset_range : d.offset < 256 ^ 8
  pub name_range : length d.name < 256 ^ 4
  pub type_range : d.type < 256 ^ 4

-- The parser in terms of the four fields that it has read.
parse_of_fields :
    (b : Bytes) (inode offset n type : ℕ)
    → le_value (take 8 b) ≡ inode
    → le_value (take 8 (drop 8 b)) ≡ offset
    → le_value (take 4 (drop 16 b)) ≡ n
    → le_value (take 4 (drop 20 b)) ≡ type
    → dirent_size + n + pad_len n ≤ length b
    → parse_dirent b
      ≡ some (
        record { offset = offset; inode = inode; name = take n (drop dirent_size b); type = type },
        drop (pad_len n) (drop n (drop dirent_size b)),
      )
unfolding parse_dirent
parse_of_fields b inode offset n type ei eo en et h =
    let long : ltb (length b) (dirent_size + n + pad_len n) ≡ false = ground arith in
    rw (en, ei, eo, et, long)

parse-header :
    (d : Dirent) (t : Bytes)
    → IsDirent d
    → pad_len (length d.name) ≤ length t
    → parse_dirent (header d ++ (d.name ++ t)) ≡ some (d, drop (pad_len (length d.name)) t)
parse-header d t v h =
    let (size, ino, off, len, typ, tail) = header_fields d (d.name ++ t) in
    rw
      (parse_of_fields (header d ++ (d.name ++ t)) d.inode d.offset (length d.name) d.type
        (rw (ino, le_value-le_bytes 8 d.inode v.inode_range))
        (rw (off, le_value-le_bytes 8 d.offset v.offset_range))
        (rw (len, le_value-le_bytes 4 (length d.name) v.name_range))
        (rw (typ, le_value-le_bytes 4 d.type v.type_range))
        (omega (arith, length-append (header d) (d.name ++ t), length-append d.name t)))
      (rw (tail, take-append d.name t, drop-append d.name t))

pub parse-write_dirent :
    (room : ℕ) (d : Dirent) (rest : Bytes)
    → IsDirent d
    → encoded_length d ≤ room
    → parse_dirent (write_dirent room d ++ rest) ≡ some (d, rest)
unfolding write_dirent
parse-write_dirent room d rest v h =
    let fits : ltb room (encoded_length d) ≡ false = ground arith in
    let pad = replicate {A = ℕ} (pad_len (length d.name)) 0 in
    let flat : (header d ++ (d.name ++ pad)) ++ rest ≡ header d ++ (d.name ++ (pad ++ rest)) =
      simp append_assoc in
    rw (fits, flat)
      (rw
        (parse-header d (pad ++ rest) v (
          omega
            (arith, length-append pad rest, length-replicate {A = ℕ} (pad_len (length d.name)) 0)))
        (rw (
          drop-append_eq (pad_len (length d.name)) pad rest
            (length-replicate (pad_len (length d.name)) 0))))
