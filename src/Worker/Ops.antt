-- ===== src/Worker/Ops.antt =====
-- The operations of a batch, counted by kind, and the numbers that the worker processes take.
use perfrunner.Prelude.{
  ℕ, zero, suc, ◌+◌, ◌*◌, ◌/◌, ◌≡◌, refl, ap, Bool, true, false, List, [], ◌∷◌, ◌++◌, ok, err,
  arith, Result, length, length-append, length-replicate, replicate, if◌then◌else◌, >>=-eq-ok,
  Bool-cases, ◌==◌, inl, inr, sym, ◌∙◌,
}
use perfrunner.Prelude.Int.{pos}
use perfrunner.Prelude.Range.{stepped, stepped-suc, stepped_zero}
use perfrunner.Worker.{
  WorkloadSettings, Op, create, read, update, delete, modify, Shared, extend, take_creates,
  take_deletes, all_ops,
}

abbrev pub is_op : Op → Op → Bool
is_op create create = true
is_op read read = true
is_op update update = true
is_op delete delete = true
is_op modify modify = true
is_op _ _ = false

abbrev pub count_op : Op → List Op → ℕ
count_op o [] = 0
count_op o (p ∷ ps) = (if is_op o p then 1 else 0) + count_op o ps

pub extend-eq-ok {ℓ} :
    {C S : Type ℓ} (turn : Result (List C) × S) (rest : S → Result (List C) × S) {cs : List C}
    → (extend turn rest).0 ≡ ok cs
    → (first : List C) × (last : List C) × (turn.0 ≡ ok first)
      × ((rest turn.1).0 ≡ ok last)
      × (cs ≡ first ++ last)
      × ((extend turn rest).1 ≡ (rest turn.1).1)
extend-eq-ok (ok first, s) rest h =
    let (last, came, e) = >>=-eq-ok (rest s).0 _ h in (first, last, refl, came, cc, refl)
extend-eq-ok (err e, s) rest h = cc

pub count_two :
    (op : Op) → (if is_op modify op then 2 else 1) ≡ 1 + (if is_op modify op then 1 else 0)
count_two op = ground arith

-- The next numbers, after the one that this round may have used.
pub next_numbers :
    (b : Bool) (n s : ℕ)
    → (if b then pos s ∷ [] else []) ++ stepped n (pos (s + (if b then 1 else 0))) 1
      ≡ stepped ((if b then 1 else 0) + n) (pos s) 1
next_numbers true n s = let e : 1 + n ≡ suc n = omega arith in rw (e, stepped-suc)
next_numbers false n s =
    let e : 0 + n ≡ n = omega arith in let e' : s + 0 ≡ s = omega arith in rw (e, e')

-- A shuffle keeps the number of operations of each kind.
abbrev pub IsShuffle : (List Op → List Op) → Type 0
IsShuffle shuffle = (o : Op) (xs : List Op) → count_op o (shuffle xs) ≡ count_op o xs

count_op-append : (o : Op) (xs ys : List Op) → count_op o (xs ++ ys) ≡ count_op o xs + count_op o ys
count_op-append o [] ys = omega arith
count_op-append o (x ∷ xs) ys = omega (arith, count_op-append o xs ys)

count_op-replicate : (o p : Op) (n : ℕ) → count_op o (replicate n p) ≡ (if is_op o p then n else 0)
count_op-replicate o p zero = ground arith
count_op-replicate o p (suc n) = ground (arith, count_op-replicate o p n)

pub length-all_ops :
    (ws : WorkloadSettings)
    → length (all_ops ws)
      ≡ ws.creates + ws.reads + ws.updates + ws.deletes + ws.reads_and_updates / 2
unfolding all_ops
length-all_ops ws = simp (length-append, length-replicate) (omega arith)

pub count_op-all_ops :
    (ws : WorkloadSettings)
    → (count_op create (all_ops ws) ≡ ws.creates)
      × (count_op update (all_ops ws) ≡ ws.updates)
      × (count_op delete (all_ops ws) ≡ ws.deletes)
      × (count_op modify (all_ops ws) ≡ ws.reads_and_updates / 2)
unfolding all_ops
count_op-all_ops ws = (
  simp (count_op-append, count_op-replicate) (omega arith),
  simp (count_op-append, count_op-replicate) (omega arith),
  simp (count_op-append, count_op-replicate) (omega arith),
  simp (count_op-append, count_op-replicate) (omega arith),
)

pub count_reads : (ws : WorkloadSettings) → count_op read (all_ops ws) ≡ ws.reads
unfolding all_ops
count_reads ws = simp (count_op-append, count_op-replicate) (omega arith)

-- All operations: the sum of their counts.
length-count_op :
    (xs : List Op)
    → length xs
      ≡ count_op create xs
        + count_op read xs
        + count_op update xs
        + count_op delete xs
        + count_op modify xs
length-count_op [] = omega arith
length-count_op (create ∷ xs) = omega (arith, length-count_op xs)
length-count_op (read ∷ xs) = omega (arith, length-count_op xs)
length-count_op (update ∷ xs) = omega (arith, length-count_op xs)
length-count_op (delete ∷ xs) = omega (arith, length-count_op xs)
length-count_op (modify ∷ xs) = omega (arith, length-count_op xs)

pub length-shuffle :
    (shuffle : List Op → List Op) (xs : List Op)
    → IsShuffle shuffle
    → length (shuffle xs) ≡ length xs
length-shuffle shuffle xs fair =
    length-count_op (shuffle xs)
    ∙ (rw (fair create xs, fair read xs, fair update xs, fair delete xs, fair modify xs)
        (sym (length-count_op xs)))

pub taken :
    (ws : WorkloadSettings) (s : Shared)
    → ((take_creates ws s).1.curr_items ≡ s.curr_items + ws.creates)
      × ((take_creates ws s).1.deleted_items ≡ s.deleted_items)
      × ((take_deletes ws s).1.deleted_items ≡ s.deleted_items + ws.deletes)
      × ((take_deletes ws s).1.curr_items ≡ s.curr_items)
unfolding take_creates take_deletes
taken ws s = ground arith

pub first_deletes :
    (ws : WorkloadSettings) (s : Shared)
    → stepped ws.deletes (pos (take_deletes ws s).0) 1
      ≡ stepped ws.deletes (pos (s.deleted_items + ws.deletes * ws.workers)) 1
unfolding take_deletes
first_deletes ws s = elim (Bool-cases (ws.deletes == 0)) [
  | inl nothing ↦
      let e : ws.deletes ≡ 0 = ground arith in
      ap (λ n. stepped n (pos (take_deletes ws s).0) 1) e
      ∙ stepped_zero _ 1
      ∙ sym (
          ap (λ n. stepped n (pos (s.deleted_items + ws.deletes * ws.workers)) 1) e
          ∙ stepped_zero _ 1)
  | inr something ↦ rw something
]

pub first_creates :
    (ws : WorkloadSettings) (s : Shared)
    → stepped ws.creates (pos (take_creates ws s).0) 1 ≡ stepped ws.creates (pos s.curr_items) 1
unfolding take_creates
first_creates ws s = elim (Bool-cases (ws.creates == 0)) [
  | inl nothing ↦
      let e : ws.creates ≡ 0 = ground arith in
      ap (λ n. stepped n (pos (take_creates ws s).0) 1) e
      ∙ stepped_zero _ 1
      ∙ sym (ap (λ n. stepped n (pos s.curr_items) 1) e ∙ stepped_zero _ 1)
  | inr something ↦ rw something
]
