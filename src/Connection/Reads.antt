-- ===== src/Connection/Reads.antt =====
-- ReadOp as a sequence of the steps of a connection, and how many turns its loop needs.
use fusego.Base.{
  ℕ, zero, suc, ◌≤◌, ◌<◌, ◌≡◌, subst, Option-cases, length, inl, inr, some, List, [], ◌∷◌, arith,
  Outcome, done, panics, ◌>>=◌, ◌⊎◌, refl, >>=-eq-done, done_injective,
}
use fusego.Base.Int.{ℤ}
use fusego.Fuseops.{Time}
use fusego.Buffer.Incoming.{InMessage, init_message}
use fusego.Conversions.Outgoing.Structs.{Clock}
use fusego.Connection.{Connection, OpState, Allocated, get_in_message}
use fusego.Connection.Ops.{Turn, handled, refused, ready, convert_turn}
use fusego.Connection.Steps.{
  Steps, here, after, World, world, take_message, fill_message, read_failed, op_handled, op_refused,
  op_ready,
}
use fusego.Connection.Ops.{
  Read, Reading, delivered, interrupted, no_device, failed, no_fuel, blocked, error, got, read_into,
  read_message, read_op, turn, end_turn,
}

module _ (unix : ℤ → ℕ → Time) (clock : Clock) (reading : List (Allocated InMessage))
    (fl : List OpState) where
  abbrev From : World → World → Type 0
  From = Steps unix clock

  -- What readMessage and ReadOp are to have been, where they have ended: steps to a world with one more message,
  -- or one more op in flight, or to a world with neither.
  abbrev MessageArrives : World → Reading (Allocated InMessage) → Type 0
  MessageArrives w (got x c reads) = From w (world c (x ∷ reading) fl)
  MessageArrives w (error e c reads) = From w (world c reading fl)
  MessageArrives w _ = Unit {0}

  abbrev pub OpArrives : World → Reading OpState → Type 0
  OpArrives w (got s c reads) = From w (world c reading (s ∷ fl))
  OpArrives w (error e c reads) = From w (world c reading fl)
  OpArrives w _ = Unit {0}

  module _ (w : World) where
    read_into-MessageArrives :
        (x : Allocated InMessage) (reads : List Read) (c : Connection)
        → From w (world c (x ∷ reading) fl)
        → MessageArrives w (read_into x reads c)
    unfolding read_into
    read_into-MessageArrives x [] c ss = tt
    read_into-MessageArrives x (interrupted ∷ reads) c ss = read_into-MessageArrives x reads c ss
    read_into-MessageArrives x (no_device ∷ reads) c ss = after ss read_failed
    read_into-MessageArrives x (failed ∷ reads) c ss = after ss read_failed
    read_into-MessageArrives x (delivered b ∷ reads) c ss =
        elim (Option-cases (init_message (some b) x.message).0) [
          | inl fine ↦ rw (MessageArrives, fine) (after ss (fill_message (some b)))
          | inr (e, wrong) ↦
              rw (MessageArrives, wrong) (after (after ss (fill_message (some b))) read_failed)
        ]

    read_message-MessageArrives :
        (reads : List Read) (c : Connection)
        → From w (world c reading fl)
        → MessageArrives w (read_message reads c)
    unfolding read_message
    read_message-MessageArrives reads c ss =
        read_into-MessageArrives (get_in_message c).0 reads (get_in_message c).1
          (after ss take_message)

    abbrev Again : (List Read → Connection → Outcome (Reading OpState)) → Type 0
    Again again =
        (reads : List Read) (c : Connection) (r : Reading OpState)
        → From w (world c reading fl)
        → again reads c ≡ done r
        → OpArrives w r

    end_turn-OpArrives :
        (again : List Read → Connection → Outcome (Reading OpState))
        → Again again
        → (x : Allocated InMessage) (c : Connection) (reads : List Read) (t : Turn)
          (r : Reading OpState)
        → From w (world c (x ∷ reading) fl)
        → convert_turn unix x c ≡ done t
        → end_turn unix again reads t ≡ done r
        → OpArrives w r
    end_turn-OpArrives again h x c reads (handled c') r ss e e' =
        h reads c' r (after ss (op_handled e)) e'
    end_turn-OpArrives again h x c reads (refused err c') r ss e e' =
        subst (OpArrives w) (done_injective e') (after ss (op_refused e))
    end_turn-OpArrives again h x c reads (ready s c') r ss e e' =
        subst (OpArrives w) (done_injective e') (after ss (op_ready e))

    turn-OpArrives :
        (again : List Read → Connection → Outcome (Reading OpState))
        → Again again
        → (m : Reading (Allocated InMessage)) (r : Reading OpState) → MessageArrives w m
        → turn unix again m ≡ done r
        → OpArrives w r
    turn-OpArrives again h no_fuel r ss e = subst (OpArrives w) (done_injective e) tt
    turn-OpArrives again h blocked r ss e = subst (OpArrives w) (done_injective e) tt
    turn-OpArrives again h (error err c reads) r ss e = subst (OpArrives w) (done_injective e) ss
    turn-OpArrives again h (got x c reads) r ss e =
        let (t, e1, e2) = >>=-eq-done (convert_turn unix x c) (end_turn unix again reads) e in
        end_turn-OpArrives again h x c reads t r ss e1 e2

    read_op-OpArrives : (fuel : ℕ) → Again (read_op unix fuel)
    unfolding read_op
    read_op-OpArrives zero reads c r ss e = subst (OpArrives w) (done_injective e) tt
    read_op-OpArrives (suc fuel) reads c r ss e =
        turn-OpArrives (read_op unix fuel) (read_op-OpArrives fuel) (read_message reads c) r
          (read_message-MessageArrives reads c ss) e

  -- A call of ReadOp that ends is steps of the connection: after it there is one more op in flight, if it
  -- returns an op, and no more than before, if it returns an error; in both cases it holds no message of its own any more.
  pub read_op-Steps :
      (fuel : ℕ) (reads : List Read) (c : Connection) (r : Reading OpState)
      → read_op unix fuel reads c ≡ done r
      → OpArrives (world c reading fl) r
  read_op-Steps fuel reads c r e = read_op-OpArrives (world c reading fl) fuel reads c r here e

-- The reads that are left after a message are fewer than n.
abbrev Leaves {ℓ} : {A : Type ℓ} → ℕ → Reading A → Type 0
Leaves n (got a c reads) = length reads < n
Leaves n no_fuel = ⊥
Leaves n _ = Unit {0}

abbrev pub Ended {ℓ} : {A : Type ℓ} → Reading A → Type 0
Ended no_fuel = ⊥
Ended _ = Unit {0}

read_into-Leaves :
    (n : ℕ) (x : Allocated InMessage) (reads : List Read) (c : Connection)
    → length reads ≤ n
    → Leaves n (read_into x reads c)
unfolding read_into
read_into-Leaves n x [] c h = tt
read_into-Leaves n x (interrupted ∷ reads) c h = read_into-Leaves n x reads c (omega (arith, h))
read_into-Leaves n x (no_device ∷ reads) c h = tt
read_into-Leaves n x (failed ∷ reads) c h = tt
read_into-Leaves n x (delivered b ∷ reads) c h =
    elim (Option-cases (init_message (some b) x.message).0) [
      | inl fine ↦ rw (Leaves, fine) (omega (arith, h))
      | inr (e, wrong) ↦ rw (Leaves, wrong) tt
    ]

read_message-Leaves :
    (reads : List Read) (c : Connection) → Leaves (length reads) (read_message reads c)
unfolding read_message
read_message-Leaves [] c = unfold read_into in tt
read_message-Leaves reads c =
    read_into-Leaves (length reads) (get_in_message c).0 reads (get_in_message c).1 (omega arith)

Outcome-cases {ℓ} : {A : Type ℓ} (o : Outcome A) → (o ≡ panics) ⊎ ((a : A) × (o ≡ done a))
Outcome-cases panics = inl refl
Outcome-cases (done a) = inr (a, refl)

>>=-same {ℓ κ} :
    {A : Type ℓ} {B : Type κ} (o : Outcome A) (f g : A → Outcome B)
    → ((a : A) → f a ≡ g a)
    → (o >>= f) ≡ (o >>= g)
>>=-same panics f g h = refl
>>=-same (done a) f g h = h a

module _ (unix : ℤ → ℕ → Time) where
  module _ (n : ℕ) (again : List Read → Connection → Outcome (Reading OpState))
      (h : (reads : List Read) (c : Connection) (r : Reading OpState)
        → length reads < n
        → again reads c ≡ done r
        → Ended r) where
    end_turn-Ended :
        (reads : List Read) (t : Turn) (r : Reading OpState)
        → length reads < n
        → end_turn unix again reads t ≡ done r
        → Ended r
    end_turn-Ended reads (handled c) r short e = h reads c r short e
    end_turn-Ended reads (refused err c) r short e = subst Ended (done_injective e) tt
    end_turn-Ended reads (ready s c) r short e = subst Ended (done_injective e) tt

    turn-Ended :
        (m : Reading (Allocated InMessage)) (r : Reading OpState)
        → Leaves n m
        → turn unix again m ≡ done r
        → Ended r
    turn-Ended no_fuel r left e = absurd left
    turn-Ended blocked r left e = subst Ended (done_injective e) tt
    turn-Ended (error err c reads) r left e = subst Ended (done_injective e) tt
    turn-Ended (got x c reads) r left e =
        let (t, e1, e2) = >>=-eq-done (convert_turn unix x c) (end_turn unix again reads) e in
        end_turn-Ended reads t r left e2

  read_op-ended_lem :
      (fuel : ℕ) (reads : List Read) (c : Connection) (r : Reading OpState)
      → length reads < fuel
      → read_op unix fuel reads c ≡ done r
      → Ended r
  unfolding read_op read_message
  read_op-ended_lem zero reads c r enough e = absurd (omega arith)
  read_op-ended_lem (suc fuel) reads c r enough e =
      turn-Ended fuel (read_op unix fuel) (read_op-ended_lem fuel) (read_message reads c) r
        (read_into-Leaves fuel (get_in_message c).0 reads (get_in_message c).1
          (omega (arith, enough)))
        e

  -- Two ways to go on that agree on fewer than n reads.
  turn-agrees :
      (n : ℕ) (again again' : List Read → Connection → Outcome (Reading OpState))
      → ((reads : List Read) (c : Connection) → length reads < n → again reads c ≡ again' reads c)
      → (m : Reading (Allocated InMessage)) → Leaves n m
      → turn unix again m ≡ turn unix again' m
  turn-agrees n again again' h no_fuel left = refl
  turn-agrees n again again' h blocked left = refl
  turn-agrees n again again' h (error err c reads) left = refl
  turn-agrees n again again' h (got x c reads) left =
      >>=-same (convert_turn unix x c) (end_turn unix again reads) (end_turn unix again' reads) ends
    where
      ends : (t : Turn) → end_turn unix again reads t ≡ end_turn unix again' reads t
      ends (handled c') = h reads c' left
      ends (refused err c') = refl
      ends (ready s c') = refl

  read_op-enough :
      (fuel more : ℕ) (reads : List Read) (c : Connection)
      → length reads < fuel
      → length reads < more
      → read_op unix fuel reads c ≡ read_op unix more reads c
  unfolding read_op read_message
  read_op-enough zero more reads c h h' = absurd (omega arith)
  read_op-enough (suc fuel) zero reads c h h' = absurd (omega arith)
  read_op-enough (suc fuel) (suc more) reads c h h' =
      turn-agrees (length reads) (read_op unix fuel) (read_op unix more)
        (λ rest c' short.
          read_op-enough fuel more rest c' (omega (arith, short, h)) (omega (arith, short, h')))
        (read_message reads c) (read_message-Leaves reads c)

  -- The loop of ReadOp ends, on any reads, however many interrupts it handles on the way: it needs no more turns
  -- than there are reads to come, and one, and with more the outcome is the same. It has then returned an op or
  -- an error, or waits for another read, or convertInMessage or beginOp has panicked.
  pub read_op-Ended :
      (fuel : ℕ) (reads : List Read) (c : Connection)
      → length reads < fuel
      → (read_op unix fuel reads c ≡ read_op unix (suc (length reads)) reads c)
        × ((read_op unix fuel reads c ≡ panics)
            ⊎ ((r : Reading OpState) × (read_op unix fuel reads c ≡ done r) × Ended r))
  read_op-Ended fuel reads c enough = (
    read_op-enough fuel (suc (length reads)) reads c enough (omega arith),
    elim (Outcome-cases (read_op unix fuel reads c)) [
      | inl panicked ↦ inl panicked
      | inr (r, e) ↦ inr (r, e, read_op-ended_lem fuel reads c r enough e)
    ],
  )
