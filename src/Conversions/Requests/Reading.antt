-- ===== src/Conversions/Requests/Reading.antt =====
-- The parts of a message under the functions that read them.
use mathlib.Core.List.{append_assoc}
use fusego.Base.{
  sym, ℕ, suc, ◌+◌, ◌-◌, ◌<◌, ◌≡◌, refl, inl, inr, true, false, none, some, [], ◌∷◌, ◌++◌, arith,
  ltb, leb, ◌==◌, done, length, drop, length-append, take-append, take-append_eq, drop-append_eq,
  Bool-cases, Option-cases, take_of_length,
}
use fusego.Bytes.{Bytes}
use fusego.Buffer.Incoming.{InMessage, consume, consume_bytes}
use fusego.Conversions.Fields.{struct_in, rest_of, ends_in_nul, nul_index, slice}

abbrev pub holding : Bytes → Bytes → InMessage
holding storage remaining = record { remaining = remaining; storage = storage }

consume-append :
    (s storage tail : Bytes) (n : ℕ)
    → length s ≡ n
    → 0 < n
    → consume n (holding storage (s ++ tail)) ≡ (some s, holding storage tail)
unfolding consume
consume-append s storage tail n e h =
    let size = length-append s tail in
    let some_left : (length (s ++ tail) == 0) ≡ false = ground arith in
    let enough : ltb (length (s ++ tail)) n ≡ false = ground arith in
    rw (some_left, enough, take-append_eq n s tail e, drop-append_eq n s tail e)

consume-short : (n : ℕ) (m : InMessage) → length m.remaining < n → consume n m ≡ (none, m)
unfolding consume
consume-short n m h = ground arith

-- A struct at the front is taken off whole.
pub struct_in-append :
    (s storage tail : Bytes) (n : ℕ)
    → length s ≡ n
    → 0 < n
    → struct_in n (holding storage (s ++ tail)) ≡ some (s, holding storage tail)
unfolding struct_in
struct_in-append s storage tail n e h = rw (struct_in, consume-append s storage tail n e h)

-- A message that ends within the struct.
pub struct_in-short : (n : ℕ) (m : InMessage) → length m.remaining < n → struct_in n m ≡ none
unfolding struct_in
struct_in-short n m h = rw (struct_in, consume-short n m h)

pub rest_of-eq : (m : InMessage) → rest_of m ≡ m.remaining
unfolding rest_of consume_bytes
rest_of-eq m =
    let whole : ltb (length m.remaining) (length m.remaining) ≡ false = ground arith in
    rw (rest_of, whole, take_of_length (length m.remaining) m.remaining (omega arith))

pub ends_in_nul-append : (xs : Bytes) → ends_in_nul (xs ++ (0 ∷ [])) ≡ true
unfolding ends_in_nul
ends_in_nul-append [] = refl
ends_in_nul-append (x ∷ []) = refl
ends_in_nul-append (x ∷ y ∷ xs) = ends_in_nul-append (y ∷ xs)

pub nul_index-append :
    (name rest : Bytes)
    → nul_index name ≡ none
    → nul_index (name ++ (0 ∷ rest)) ≡ some (length name)
unfolding nul_index
nul_index-append [] rest h = refl
nul_index-append (c ∷ cs) rest h = elim (Bool-cases (c == 0)) [
  | inl stop ↦ cc (rw stop at h)
  | inr go ↦ elim (Option-cases (nul_index cs)) [
    | inl clean ↦ rw (go, nul_index-append cs rest clean)
    | inr (i, found) ↦ cc (rw (go, found) at h)
  ]
]

-- Two names, each with its NUL.
pub ends_in_nul-two : (a b : Bytes) → ends_in_nul (a ++ (0 ∷ (b ++ (0 ∷ [])))) ≡ true
ends_in_nul-two a b = rw (sym (append_assoc a (0 ∷ b) (0 ∷ [])), ends_in_nul-append (a ++ (0 ∷ b)))

pub length-two : (a b : Bytes) → length (a ++ (0 ∷ (b ++ (0 ∷ [])))) ≡ length a + length b + 2
length-two a b = omega (arith, length-append a (0 ∷ (b ++ (0 ∷ []))), length-append b (0 ∷ []))

pub drop_name : (a rest : Bytes) → drop (length a + 1) (a ++ (0 ∷ rest)) ≡ rest
drop_name [] rest = refl
drop_name (c ∷ a) rest =
    let next : length (c ∷ a) + 1 ≡ suc (length a + 1) = omega arith in rw (next, drop_name a rest)

pub slice-two :
    (a b : Bytes)
    → slice (length a + 1) (length (a ++ (0 ∷ (b ++ (0 ∷ [])))) - 1) (a ++ (0 ∷ (b ++ (0 ∷ []))))
      ≡ done b
slice-two a b =
    let room : leb (length a + 1) (length a + length b + 2 - 1) ≡ true = ground arith in
    let rest : length a + length b + 2 - 1 - (length a + 1) ≡ length b = omega arith in
    rw (length-two a b, room, rest, drop_name a (b ++ (0 ∷ [])), take-append b (0 ∷ []))
