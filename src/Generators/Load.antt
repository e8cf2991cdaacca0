-- ===== src/Generators/Load.antt =====
-- About loading and warming up (`SequentialKey`, `HotKey` of spring/docgen.py) by all workers.
use perfrunner.Prelude.{
  ℕ, zero, suc, ◌+◌, ◌-◌, ◌*◌, ◌/◌, ◌%◌, ◌≤◌, ◌<◌, ◌≡◌, refl, ok, List, [], ◌++◌, arith, Returns,
  Result, Bool-cases, ◌==◌, ltb, leb, ◌&&◌, if◌then◌else◌, inl, inr, Bool, false, sym, ◌∙◌, ◌>>=◌,
  returns_bind, returns_mono, ap,
}
use mathlib.Core.Path.{fun_ext}
use native.Mathlib.Nat.{
  zero-add, mod-add-mod, mod-eq_of_lt, mod-eq-sub-mod, mod-lt, le-div_iff_mul-le, div-add-mod',
}
use perfrunner.Prelude.Int.{ℤ, pos, pos--ℤ, pos-+ℤ, to_ℕ--ℤ, trunc_mul}
use perfrunner.Prelude.Range.{
  range, stepped, range_count, count, count-stepped, count-append, count_nil,
}
use perfrunner.Generators.{KeySettings, sequential_numbers, hot_numbers}

-- The numbers of workers 0 to n - 1, one after the other.
unfoldable pub gather : ℕ → (ℕ → Result (List ℤ)) → Result (List ℤ)
gather zero numbers = ok []
gather (suc n) numbers = gather n numbers >>= λ xs. numbers n >>= λ ys. ok (xs ++ ys)

-- A whole number of steps stays below the end exactly if it is below the count of steps.
steps_below : (m d y : ℕ) → 0 < d → y % d ≡ 0 → ltb (y / d) ((m + d - 1) / d) ≡ ltb y m
steps_below m d y p h =
    let whole : y / d * d ≡ y = omega (arith, div-add-mod' y d) in
    let (to, from) = le-div_iff_mul-le {x = suc (y / d)} {y = m + d - 1} p in
    ground (arith, to, from, suc_times (y / d) d)
  where
    suc_times : (q k : ℕ) → suc q * k ≡ q * k + k
    suc_times q k = omega arith

-- How often `x` stands in range(s, stop, step).
count-range :
    (s stop step x : ℕ)
    → 0 < step
    → count (pos x) (stepped (range_count (pos s) (pos stop) step) (pos s) step)
      ≡ (if leb s x && ltb x stop && ((x - s) % step == 0) then 1 else 0)
count-range s stop step x p =
    rw (count-stepped, to_ℕ--ℤ)
      (elim (Bool-cases ((x - s) % step == 0)) [
        | inr off ↦ ground arith
        | inl whole ↦ ground (arith, steps_below (stop - s) step (x - s) p (ground arith))
      ])

-- A shift by less than the step shifts the remainder.
shifted_rem : (z sid w : ℕ) → sid < w → ((z + sid) % w == sid) ≡ (z % w == 0)
shifted_rem z sid w h = elim (Bool-cases (ltb (z % w + sid) w)) [
  | inl small ↦
      let e : (z + sid) % w ≡ z % w + sid =
        sym (mod-add-mod z w sid) ∙ mod-eq_of_lt (ground arith) in
      ground arith
  | inr large ↦
      let e : (z + sid) % w ≡ z % w + sid - w =
        sym (mod-add-mod z w sid)
        ∙ mod-eq-sub-mod (ground arith)
        ∙ mod-eq_of_lt (omega (arith, mod-lt z {m = w} (omega arith))) in
      ground (arith, mod-lt z {m = w} (omega arith))
]

-- The rest of a number within one turn of the workers.
same_worker :
    (base items workers sid x : ℕ)
    → sid < workers
    → (leb (base + sid) x && ltb x items && ((x - (base + sid)) % workers == 0))
      ≡ (leb base x && ltb x items && ((x - base) % workers == sid))
same_worker base items workers sid x h = elim (Bool-cases (leb (base + sid) x)) [
  | inl le ↦
      let e : x - base ≡ x - (base + sid) + sid = ground arith in
      rw e (ground (arith, shifted_rem (x - (base + sid)) sid workers h))
  | inr lt ↦ elim (Bool-cases (leb base x)) [
    | inl le ↦ let e : (x - base) % workers ≡ x - base = mod-eq_of_lt (ground arith) in ground arith
    | inr below ↦ ground arith
  ]
]

abbrev pub once_if : Bool → ℕ
once_if b = if b then 1 else 0

-- The numbers that worker `sid` takes from the part of the key space between `base` and `items`.
module _ (base items workers : ℕ) (some_worker : 0 < workers) where
  pub worker_range : ℕ → Result (List ℤ)
  worker_range sid = range (pos (base + sid)) (pos items) workers

  count-worker_range :
      (sid x : ℕ)
      → sid < workers
      → Returns (worker_range sid) (λ xs.
        count (pos x) xs ≡ once_if (leb base x && ltb x items && ((x - base) % workers == sid)))
  unfolding worker_range range
  count-worker_range sid x h =
      let positive : (workers == 0) ≡ false = ground arith in
      rw
        (
          positive,
          count-range (base + sid) items workers x some_worker,
          same_worker base items workers sid x h,
        )
        refl

  pub count-gather :
      (n x : ℕ)
      → n ≤ workers
      → Returns (gather n worker_range) (λ xs.
        count (pos x) xs ≡ once_if (leb base x && ltb x items && ltb ((x - base) % workers) n))
  unfolding gather
  count-gather zero x h = ground (arith, count_nil (pos x))
  count-gather (suc n) x h =
      returns_bind
        (λ xs.
          count (pos x) xs ≡ once_if (leb base x && ltb x items && ltb ((x - base) % workers) n))
        _ (gather n worker_range) _ (count-gather n x (omega arith))
        λ xs hx.
          returns_bind
            (λ ys.
              count (pos x) ys ≡ once_if (leb base x && ltb x items && ((x - base) % workers == n)))
            _ (worker_range n) _ (count-worker_range n x h)
            λ ys hy. ground (arith, count-append (pos x) xs ys)

  -- All workers together take each document of their part exactly once, and no other.
  pub gather_all :
      (x : ℕ)
      → Returns
          (gather workers worker_range)
          (λ xs. count (pos x) xs ≡ once_if (leb base x && ltb x items))
  gather_all x =
      returns_mono _ _ (gather workers worker_range) (count-gather workers x (omega arith))
        λ xs hx. ground (arith, mod-lt (x - base) some_worker)

sequential_numbers_lem :
    (ws : KeySettings) (p : 0 < ws.workers)
    → sequential_numbers ws ≡ worker_range 0 ws.items ws.workers p
unfolding sequential_numbers worker_range
sequential_numbers_lem ws p =
    fun_ext λ sid. ap (λ n. range (pos n) (pos ws.items) ws.workers) (sym (zero-add sid))

hot_numbers_lem :
    (ws : KeySettings) (p : 0 < ws.workers) (hot : ℕ)
    → trunc_mul (pos ws.items) ws.working_set 100 ≡ pos hot
    → hot ≤ ws.items
    → hot_numbers ws ≡ worker_range (ws.items - hot) ws.items ws.workers p
unfolding hot_numbers worker_range
hot_numbers_lem ws p hot share le =
    fun_ext λ sid. rw (share, pos--ℤ ws.items hot le, pos-+ℤ (ws.items - hot) sid)

-- The initial load: over all workers together, if there is any, every document is generated exactly
-- once, and no other number.
pub sequential_load :
    (ws : KeySettings)
    → 0 < ws.workers
    → (x : ℕ)
    → Returns
        (gather ws.workers (sequential_numbers ws))
        (λ xs. count (pos x) xs ≡ once_if (ltb x ws.items))
sequential_load ws p x = rw (sequential_numbers_lem ws p) (
    returns_mono _ _ (gather ws.workers (worker_range 0 ws.items ws.workers p))
      (gather_all 0 ws.items ws.workers p x) λ xs h. ground arith)

-- Warming up: over all workers together, if there is any, every hot item is read exactly once, and
-- no cold item, if the hot items are at most all of the documents.
pub hot_load :
    (ws : KeySettings)
    → 0 < ws.workers
    → (hot : ℕ) → trunc_mul (pos ws.items) ws.working_set 100 ≡ pos hot
    → hot ≤ ws.items
    → (x : ℕ)
    → Returns
        (gather ws.workers (hot_numbers ws))
        (λ xs. count (pos x) xs ≡ once_if (leb (ws.items - hot) x && ltb x ws.items))
hot_load ws p hot share le x =
    rw (hot_numbers_lem ws p hot share le) (gather_all (ws.items - hot) ws.items ws.workers p x)
