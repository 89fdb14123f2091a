-- ===== src/Memfs/Inode/Listing.antt =====
-- ReadDir: what the kernel reads from the buffer, and where it goes on.
use fusego.Base.{
  ℕ, zero, suc, ◌+◌, ◌-◌, ◌≤◌, ◌<◌, ◌≡◌, refl, ap, ◌∙◌, inl, inr, true, false, some, List, [], ◌∷◌,
  ◌++◌, arith, ltb, ◌==◌, if◌then◌else◌, done, length, drop, drop-drop, length-append, Bool-cases,
}
use fusego.Bytes.{Bytes}
use fusego.Dirent.{Dirent, write_dirent}
use fusego.Dirent.DirentType
use fusego.Dirent.RoundTrip.{
  IsDirent, encoded_length, parse_dirent, length-write_dirent, parse-write_dirent,
}
use fusego.Fuseops.{int_bound}
use fusego.Memfs.Inode.{Inode, is_dir, write_entries, read_dir, count_used}
use fusego.Memfs.Inode.Entries.{IsEntries}
use fusego.Memfs.Inode.Invariant.{IsInode}

-- The entries of a directory that are in use, in order.
unfoldable pub used : List Dirent → List Dirent
used [] = []
used (e ∷ es) = let rest = used es in if e.type == DirentType.unknown then rest else e ∷ rest

pub count_used-used : (es : List Dirent) → count_used es ≡ length (used es)
unfolding used count_used
count_used-used [] = refl
count_used-used (e ∷ es) = ground (arith, count_used-used es)

-- The kernel takes a buffer apart, entry by entry, to its end.
pub data Parses : Bytes → List Dirent → Type 0 where
  stop : Parses [] []
  next :
      {b rest : Bytes} {d : Dirent} {ds : List Dirent}
      → parse_dirent b ≡ some (d, rest)
      → Parses rest ds
      → Parses b (d ∷ ds)

abbrev pub total_length : List Dirent → ℕ
total_length [] = 0
total_length (e ∷ es) = encoded_length e + total_length es

-- The offset that the kernel passes to read on: that of the last entry it has seen.
abbrev pub last_offset : ℕ → List Dirent → ℕ
last_offset i [] = i
last_offset i (e ∷ es) = last_offset e.offset es

abbrev pub All {ℓ κ} : {A : Type ℓ} → (A → Type κ) → List A → Type κ
All P [] = Unit
All P (x ∷ xs) = P x × All P xs

-- The first of the entries that are left does not fit.
abbrev pub IsFull : ℕ → List Dirent → Type 0
IsFull room [] = Unit
IsFull room (e ∷ es) = room < encoded_length e

-- The entries that go into a buffer, and those that do not.
fitting : ℕ → List Dirent → List Dirent
fitting room [] = []
fitting room (e ∷ es) =
    let skip = fitting room es in
    let more = e ∷ fitting (room - encoded_length e) es in
    if e.type == DirentType.unknown then skip else if ltb room (encoded_length e) then [] else more

write_entries-fitting :
    (room : ℕ) (es : List Dirent)
    → All IsDirent (used es)
    → Parses (write_entries room es) (fitting room es)
      × (length (write_entries room es) ≡ total_length (fitting room es))
      × (total_length (fitting room es) ≤ room)
unfolding used fitting write_entries
write_entries-fitting room [] v = (stop, refl, omega arith)
write_entries-fitting room (e ∷ es) v = elim (Bool-cases (e.type == DirentType.unknown)) [
  | inl unused ↦ rw unused (write_entries-fitting room es (rw unused at v))
  | inr in_use ↦ rw in_use (elim (Bool-cases (ltb room (encoded_length e))) [
    | inl short ↦
        let nothing : length (write_dirent room e) ≡ 0 = rw (length-write_dirent room e, short) in
        let empty : (length (write_dirent room e) == 0) ≡ true = ground arith in
        rw (short, empty) (stop, refl, omega arith)
    | inr fits ↦
        let valid : IsDirent e × All IsDirent (used es) = rw in_use at v in
        let size : length (write_dirent room e) ≡ encoded_length e =
          rw (length-write_dirent room e, fits) in
        let some_bytes : (length (write_dirent room e) == 0) ≡ false = ground arith in
        let left = room - encoded_length e in
        let (parsed, long, bounded) = write_entries-fitting left es valid.1 in
        let joined = length-append (write_dirent room e) (write_entries left es) in
        rw (some_bytes, fits, size)
          (
            next (parse-write_dirent room e (write_entries left es) valid.0 (ground arith)) parsed,
            omega (arith, joined, size, long),
            ground arith,
          )
  ])
]

-- What has been shown, and what is found from the next offset on, are all the entries in use; and the
-- first of those that are left does not fit any more.
abbrev pub Resumes : ℕ → ℕ → List Dirent → List Dirent → Type 0
Resumes i room es shown =
    let left = used (drop (last_offset i shown - i) es) in
    (i ≤ last_offset i shown) × (used es ≡ shown ++ left) × IsFull (room - total_length shown) left

Resumes-skip :
    (i room : ℕ) (e : Dirent) (es shown : List Dirent)
    → (e.type == DirentType.unknown) ≡ true
    → Resumes (i + 1) room es shown
    → Resumes i room (e ∷ es) shown
unfolding used
Resumes-skip i room e es [] unused (_, split, full) =
    let here : i - i ≡ 0 = omega arith in
    let there : i + 1 - (i + 1) ≡ 0 = omega arith in
    (omega arith, rw (here, unused) (rw there at split), rw (here, unused) (rw there at full))
Resumes-skip i room e es (d ∷ ds) unused (above, split, full) =
    let step : last_offset d.offset ds - i ≡ suc (last_offset d.offset ds - (i + 1)) =
      omega arith in
    (omega arith, rw (step, unused) split, rw step full)

Resumes-take :
    (i room : ℕ) (e : Dirent) (es shown : List Dirent)
    → (e.type == DirentType.unknown) ≡ false
    → e.offset ≡ i + 1
    → Resumes e.offset (room - encoded_length e) es shown
    → Resumes i room (e ∷ es) (e ∷ shown)
unfolding used
Resumes-take i room e es shown in_use offset (above, split, full) =
    let last = last_offset e.offset shown in
    let step : last - i ≡ suc (last - e.offset) = omega arith in
    let left : room - (encoded_length e + total_length shown)
        ≡ room - encoded_length e - total_length shown =
      omega arith in
    (omega arith, rw (step, in_use) (ap (λ ds. e ∷ ds) split), rw (step, left) full)

Resumes-stop :
    (i room : ℕ) (e : Dirent) (es : List Dirent)
    → (e.type == DirentType.unknown) ≡ false
    → ltb room (encoded_length e) ≡ true
    → Resumes i room (e ∷ es) []
unfolding used
Resumes-stop i room e es in_use short =
    let here : i - i ≡ 0 = omega arith in (omega arith, rw here, rw (here, in_use) (ground arith))

fitting-cons :
    (room : ℕ) (e : Dirent) (es : List Dirent)
    → fitting room (e ∷ es) ≡ (
        if e.type == DirentType.unknown
        then fitting room es
        else if ltb room (encoded_length e)
        then []
        else e ∷ fitting (room - encoded_length e) es)
unfolding fitting
fitting-cons room e es = refl

fitting-Resumes :
    (i room : ℕ) (es : List Dirent) → IsEntries i es → Resumes i room es (fitting room es)
fitting-Resumes i room [] v =
    let here : i - i ≡ 0 = omega arith in unfold fitting used in (omega arith, rw here, rw here tt)
fitting-Resumes i room (e ∷ es) v = elim (Bool-cases (e.type == DirentType.unknown)) [
  | inl unused ↦
      rw (fitting-cons room e es, unused)
        (Resumes-skip i room e es (fitting room es) unused (fitting-Resumes (i + 1) room es v.2))
  | inr in_use ↦ elim (Bool-cases (ltb room (encoded_length e))) [
    | inl short ↦ rw (fitting-cons room e es, in_use, short) (Resumes-stop i room e es in_use short)
    | inr fits ↦
        let left = room - encoded_length e in
        rw (fitting-cons room e es, in_use, fits)
          (Resumes-take i room e es (fitting left es) in_use v.0
            (fitting-Resumes e.offset left es (rw (← v.0) at v.2)))
  ]
]

IsEntries-drop : (i k : ℕ) (es : List Dirent) → IsEntries i es → IsEntries (i + k) (drop k es)
IsEntries-drop i zero es v = let here : i + 0 ≡ i = omega arith in rw here v
IsEntries-drop i (suc k) [] v = tt
IsEntries-drop i (suc k) (e ∷ es) v =
    let step : i + suc k ≡ i + 1 + k = omega arith in rw step (IsEntries-drop (i + 1) k es v.2)

-- ReadDir on a directory, from an offset in the range of int: the kernel reads back entries in use,
-- whole and in order; they fill at most the buffer; together with what a call at the offset of the
-- last of them would still find they are all the entries in use from the offset on, none skipped and
-- none repeated; and if one is left, the first one left does not fit into the rest of the buffer.
pub read_dir_resumes :
    (room offset : ℕ) (n : Inode)
    → IsInode n
    → is_dir n ≡ true
    → offset < int_bound
    → All IsDirent (used (drop offset n.entries))
    → (b : Bytes) × (shown : List Dirent) × (read_dir room offset n ≡ done b)
      × Parses b shown
      × (length b ≤ room)
      × (used (drop offset n.entries) ≡ shown ++ used (drop (last_offset offset shown) n.entries))
      × IsFull (room - length b) (used (drop (last_offset offset shown) n.entries))
unfolding read_dir
read_dir_resumes room offset n v dir h names =
    let es = drop offset n.entries in
    let shown = fitting room es in
    let in_range : ltb offset int_bound ≡ true = ground arith in
    let start : 0 + offset ≡ offset = omega arith in
    let (parsed, long, bounded) = write_entries-fitting room es names in
    let (above, split, full) =
      fitting-Resumes offset room es (rw start at (IsEntries-drop 0 offset n.entries v.slots)) in
    let onward : drop (last_offset offset shown - offset) es
        ≡ drop (last_offset offset shown) n.entries =
      drop-drop offset (last_offset offset shown - offset) n.entries
      ∙ ap (λ k. drop k n.entries) (omega arith) in
    (
      write_entries room es,
      shown,
      rw (dir, in_range),
      parsed,
      omega arith,
      rw (← onward) split,
      rw (← onward, long) full,
    )

-- If every entry in use fits a buffer on its own, ReadDir into it tells whether there is one.
pub write_entries-empty :
    (room : ℕ) (es : List Dirent)
    → All (λ e. encoded_length e ≤ room) (used es)
    → (length (write_entries room es) == 0) ≡ (count_used es == 0)
unfolding used write_entries count_used
write_entries-empty room [] short = refl
write_entries-empty room (e ∷ es) short = elim (Bool-cases (e.type == DirentType.unknown)) [
  | inl unused ↦ rw unused (write_entries-empty room es (rw unused at short))
  | inr in_use ↦
      let fits : encoded_length e ≤ room = (rw in_use at short).0 in
      let roomy : ltb room (encoded_length e) ≡ false = ground arith in
      let size : length (write_dirent room e) ≡ encoded_length e =
        rw (length-write_dirent room e, roomy) in
      let some_bytes : (length (write_dirent room e) == 0) ≡ false = ground arith in
      let joined =
        length-append (write_dirent room e)
          (write_entries (room - length (write_dirent room e)) es) in
      rw (in_use, some_bytes) (ground (arith, joined, size))
]
