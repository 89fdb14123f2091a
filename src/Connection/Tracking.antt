-- ===== src/Connection/Tracking.antt =====
-- Which requests can be cancelled, and where each message of a connection is.
use fusego.Base.{
  ℕ, suc, ◌+◌, ◌≤◌, ◌<◌, ◌≡◌, refl, sym, ◌⊎◌, inl, inr, true, false, List, [], ◌∷◌, ◌++◌, arith,
  ◌==◌, if◌then◌else◌, done, done_injective, Bool-cases, List-cases,
}
use fusego.Fusekernel.Opcode
use fusego.Buffer.Incoming.{InMessage}
use fusego.Conversions.Fields.{in_header}
use fusego.Connection.{
  Connection, OpState, Allocated, get_in_message, get_out_message, has_key, delete_key,
  record_cancel_func, begin_op, finish_op,
}

-- 1 where the two numbers are the same.
abbrev pub same : ℕ → ℕ → ℕ
same a b = if a == b then 1 else 0

abbrev pub count : ℕ → List ℕ → ℕ
count k [] = 0
count k (x ∷ xs) = same x k + count k xs

-- How often a message with this pointer is in a list.
abbrev pub places {ℓ} : {A : Type ℓ} → ℕ → List (Allocated A) → ℕ
places p [] = 0
places p (x ∷ xs) = same x.pointer p + places p xs

-- Whether the request of this message has this identifier, and is not a forget: those can be cancelled.
abbrev pub key_of : ℕ → InMessage → ℕ
key_of id m = if (in_header m).opcode == Opcode.forget then 0 else same (in_header m).unique id

abbrev pub tracks : ℕ → OpState → ℕ
tracks id s = key_of id s.in_msg.message

abbrev pub tracked : ℕ → List OpState → ℕ
tracked id [] = 0
tracked id (s ∷ ss) = tracks id s + tracked id ss

abbrev pub in_places : ℕ → List OpState → ℕ
in_places p [] = 0
in_places p (s ∷ ss) = same s.in_msg.pointer p + in_places p ss

abbrev pub out_places : ℕ → List OpState → ℕ
out_places p [] = 0
out_places p (s ∷ ss) = same s.out_msg.pointer p + out_places p ss

pub tracked-append :
    (id : ℕ) (xs ys : List OpState) → tracked id (xs ++ ys) ≡ tracked id xs + tracked id ys
tracked-append id [] ys = omega arith
tracked-append id (x ∷ xs) ys = omega (arith, tracked-append id xs ys)

pub in_places-append :
    (p : ℕ) (xs ys : List OpState) → in_places p (xs ++ ys) ≡ in_places p xs + in_places p ys
in_places-append p [] ys = omega arith
in_places-append p (x ∷ xs) ys = omega (arith, in_places-append p xs ys)

pub out_places-append :
    (p : ℕ) (xs ys : List OpState) → out_places p (xs ++ ys) ≡ out_places p xs + out_places p ys
out_places-append p [] ys = omega arith
out_places-append p (x ∷ xs) ys = omega (arith, out_places-append p xs ys)

pub has_key-count : (id : ℕ) (ks : List ℕ) → has_key id ks ≡ false → count id ks ≡ 0
unfolding has_key
has_key-count id [] h = refl
has_key-count id (k ∷ ks) h = ground (arith, has_key-count id ks)

pub has_key-positive : (id : ℕ) (ks : List ℕ) → has_key id ks ≡ true → 0 < count id ks
unfolding has_key
has_key-positive id [] h = cc
has_key-positive id (k ∷ ks) h = ground (arith, has_key-positive id ks)

pub count-has_key : (id : ℕ) (ks : List ℕ) → 0 < count id ks → has_key id ks ≡ true
unfolding has_key
count-has_key id [] h = absurd (omega arith)
count-has_key id (k ∷ ks) h = ground (arith, count-has_key id ks)

pub count-delete_key :
    (id k : ℕ) (ks : List ℕ)
    → count id (delete_key k ks) + (if id == k then count id ks else 0) ≡ count id ks
unfolding delete_key
count-delete_key id k [] = ground arith
count-delete_key id k (x ∷ xs) = ground (arith, count-delete_key id k xs)

pub count-new_key :
    (k id : ℕ) (ks : List ℕ) → has_key k ks ≡ false → count id ks ≤ 1 → same k id + count id ks ≤ 1
count-new_key k id ks new h = elim (Bool-cases (k == id)) [
  | inl is_id ↦
      let e : k ≡ id = ground arith in
      let absent : count id ks ≡ 0 = has_key-count id ks (rw e at new) in
      rw is_id (omega (arith, absent))
  | inr other ↦ rw other (omega arith)
]

pub count-deleted_key :
    (k id : ℕ) (ks : List ℕ)
    → count id ks ≤ 1
    → same k id ≤ count id ks
    → count id ks ≡ same k id + count id (delete_key k ks)
count-deleted_key k id ks h h' = ground (arith, count-delete_key id k ks)

-- The two ways in which beginOp ends, and the two in which finishOp does.
pub begin_op-cases :
    (op_code id : ℕ) (c c' : Connection)
    → begin_op op_code id c ≡ done c'
    → (((op_code == Opcode.forget) ≡ true) × (c' ≡ c))
      ⊎ (((op_code == Opcode.forget) ≡ false)
          × (has_key id c.cancel_funcs ≡ false)
          × (c' ≡ record c { cancel_funcs = id ∷ c.cancel_funcs }))
unfolding begin_op record_cancel_func
begin_op-cases op_code id c c' h = elim (Bool-cases (op_code == Opcode.forget)) [
  | inl is_forget ↦ inl (is_forget, sym (done_injective (rw is_forget at h)))
  | inr other ↦ elim (Bool-cases (has_key id c.cancel_funcs)) [
    | inl known ↦ cc (rw (other, known) at h)
    | inr new ↦ inr (other, new, sym (done_injective (rw (other, new) at h)))
  ]
]

pub finish_op-cases :
    (op_code id : ℕ) (c c' : Connection)
    → finish_op op_code id c ≡ done c'
    → (((op_code == Opcode.forget) ≡ true) × (c' ≡ c))
      ⊎ (((op_code == Opcode.forget) ≡ false)
          × (c' ≡ record c {
            cancel_funcs = delete_key id c.cancel_funcs;
            cancelled = id ∷ c.cancelled;
          }))
unfolding finish_op
finish_op-cases op_code id c c' h = elim (Bool-cases (op_code == Opcode.forget)) [
  | inl is_forget ↦ inl (is_forget, sym (done_injective (rw is_forget at h)))
  | inr other ↦ elim (Bool-cases (has_key id c.cancel_funcs)) [
    | inl known ↦ inr (other, sym (done_injective (rw (other, known) at h)))
    | inr unknown ↦ cc (rw (other, unknown) at h)
  ]
]

-- A request that is tracked once is finished without a panic.
pub finish_op-tracked :
    (s : OpState) (c : Connection)
    → tracks (in_header s.in_msg.message).unique s
      ≤ count (in_header s.in_msg.message).unique c.cancel_funcs
    → (c' : Connection) × (finish_op
          (in_header s.in_msg.message).opcode
          (in_header s.in_msg.message).unique
          c
        ≡ done c')
unfolding finish_op
finish_op-tracked s c h = elim (Bool-cases ((in_header s.in_msg.message).opcode == Opcode.forget)) [
  | inl is_forget ↦ (c, rw is_forget)
  | inr other ↦
      let h' : same (in_header s.in_msg.message).unique (in_header s.in_msg.message).unique
          ≤ count (in_header s.in_msg.message).unique c.cancel_funcs =
        rw other at h in
      let known = count-has_key (in_header s.in_msg.message).unique c.cancel_funcs (ground arith) in
      (
        record c {
          cancel_funcs = delete_key (in_header s.in_msg.message).unique c.cancel_funcs;
          cancelled = (in_header s.in_msg.message).unique ∷ c.cancelled;
        },
        rw (other, known),
      )
]

-- A message that a free list or new memory gives, for incoming and for outgoing messages.
pub get_in_message-places :
    (c : Connection) (p : ℕ)
    → let r = get_in_message c in
      (((r.1.next_pointer ≡ c.next_pointer)
          × (places p c.in_messages ≡ same r.0.pointer p + places p r.1.in_messages))
        ⊎ ((r.1.next_pointer ≡ suc c.next_pointer)
            × (r.0.pointer ≡ c.next_pointer)
            × (places p r.1.in_messages ≡ places p c.in_messages)))
      × (r.1.out_messages ≡ c.out_messages)
      × (r.1.cancel_funcs ≡ c.cancel_funcs)
unfolding get_in_message
get_in_message-places c p = elim (List-cases c.in_messages) [
  | inl none_free ↦ rw (get_in_message, none_free) (inr (refl, refl, rw none_free), refl, refl)
  | inr (x, rest, one_free) ↦ rw (get_in_message, one_free) (inl (refl, refl), refl, refl)
]

pub get_out_message-places :
    (c : Connection) (p : ℕ)
    → let r = get_out_message c in
      (((r.1.next_pointer ≡ c.next_pointer)
          × (places p c.out_messages ≡ same r.0.pointer p + places p r.1.out_messages))
        ⊎ ((r.1.next_pointer ≡ suc c.next_pointer)
            × (r.0.pointer ≡ c.next_pointer)
            × (places p r.1.out_messages ≡ places p c.out_messages)))
      × (r.1.in_messages ≡ c.in_messages)
      × (r.1.cancel_funcs ≡ c.cancel_funcs)
unfolding get_out_message
get_out_message-places c p = elim (List-cases c.out_messages) [
  | inl none_free ↦ rw (get_out_message, none_free) (inr (refl, refl, rw none_free), refl, refl)
  | inr (x, rest, one_free) ↦ rw (get_out_message, one_free) (inl (refl, refl), refl, refl)
]
