-- ===== src/Prelude/Range.antt =====
-- Python's `range` with a positive step, and how often a number occurs in it.
use Prim.Native.Nat.{ℕ, zero, suc, ◌+◌, ◌-◌, ◌*◌, ◌/◌, ◌%◌, ◌≤◌, ◌<◌}
use mathlib.Core.Path.{◌≡◌, refl, sym, ◌∙◌}
use mathlib.Core.Logic.{◌≢◌, inl, inr}
use mathlib.Core.Bool.{◌&&◌}
use mathlib.Core.List.{List, [], ◌∷◌, ◌++◌}
use native.Mathlib.Nat.{mul-le-mul_right, add-mod_right}
use native.Mathlib.Omega.{arith}
use perfrunner.Prelude.Tests.{Bool-cases, leb, ltb, ◌==◌, if◌then◌else◌}
use perfrunner.Prelude.Outcome.{Result, ok, err, value_error}
use perfrunner.Prelude.Int.{ℤ, pos, to_ℕ, eq_ℤ, ◌+ℤ◌, ◌-ℤ◌, pos-+ℤ}

-- start, start + step, …: n numbers
unfoldable pub stepped : ℕ → ℤ → ℕ → List ℤ
stepped zero start step = []
stepped (suc n) start step = start ∷ stepped n (start +ℤ pos step) step

-- How many numbers `range(start, stop, step)` has.
abbrev pub range_count : ℤ → ℤ → ℕ → ℕ
range_count start stop step = (to_ℕ (stop -ℤ start) + step - 1) / step

-- list(range(start, stop, step))
unfoldable pub range : ℤ → ℤ → ℕ → Result (List ℤ)
unfolding stepped
range start stop step =
    if step == 0 then err value_error else ok (stepped (range_count start stop step) start step)

-- How often a number stands in a list.
pub count : ℤ → List ℤ → ℕ
count x [] = 0
count x (y ∷ ys) = (if eq_ℤ x y then 1 else 0) + count x ys

count_below : (n s d x : ℕ) → x < s → count (pos x) (stepped n (pos s) d) ≡ 0
unfolding count stepped
count_below zero s d x h = refl
count_below (suc n) s d x h = rw pos-+ℤ (ground (arith, count_below n (s + d) d x))

count_above : (n s d x : ℕ) → s + n * d ≤ x → 0 < d → count (pos x) (stepped n (pos s) d) ≡ 0
unfolding count stepped
count_above zero s d x h p = refl
count_above (suc n) s d x h p = rw pos-+ℤ (grind (arith, count_above n (s + d) d x))

pub count_at :
    (n s d i x : ℕ) → x ≡ s + i * d → i < n → 0 < d → count (pos x) (stepped n (pos s) d) ≡ 1
unfolding count stepped
count_at zero s d i x e h p = absurd (omega arith)
count_at (suc n) s d zero x e h p = rw pos-+ℤ (ground (arith, count_below n (s + d) d x))
count_at (suc n) s d (suc i) x e h p = rw pos-+ℤ (grind (arith, count_at n (s + d) d i x))

count_off :
    (n s d x : ℕ) → s ≤ x → 0 < d → (x - s) % d ≢ 0 → count (pos x) (stepped n (pos s) d) ≡ 0
unfolding count stepped
count_off zero s d x le p h = refl
count_off (suc n) s d x le p h = elim (Bool-cases (ltb x (s + d))) [
  | inl near ↦ rw pos-+ℤ (ground (arith, count_below n (s + d) d x))
  | inr far ↦
      let same : (x - (s + d)) % d ≡ (x - s) % d =
        let e : x - s ≡ x - (s + d) + d = ground arith in
        rw e (sym (add-mod_right (x - (s + d)) d)) in
      rw pos-+ℤ (ground (arith, count_off n (s + d) d x (ground arith) p (rw same h)))
]

past_steps : (n s d x : ℕ) → x ≡ s + (x - s) / d * d → n ≤ (x - s) / d → s + n * d ≤ x
past_steps n s d x e h = let k : n * d ≤ (x - s) / d * d = mul-le-mul_right d h in omega arith

-- A number stands in a range at most once, and exactly if it is reached by whole steps.
pub count-stepped :
    (n s d x : ℕ)
    → 0 < d
    → count (pos x) (stepped n (pos s) d)
      ≡ (if leb s x && ((x - s) % d == 0) && ltb ((x - s) / d) n then 1 else 0)
count-stepped n s d x p = elim (Bool-cases (leb s x)) [
  | inr low ↦ ground (arith, count_below n s d x)
  | inl le ↦ elim (Bool-cases ((x - s) % d == 0)) [
    | inr off ↦ ground (arith, count_off n s d x)
    | inl whole ↦
        let e : x ≡ s + (x - s) / d * d = grind arith in
        ground (
          arith,
          count_at n s d ((x - s) / d) x e,
          λ (h : n ≤ (x - s) / d). count_above n s d x (past_steps n s d x e h) p,
        )
  ]
]

pub count_nil : (x : ℤ) → count x [] ≡ 0
unfolding count
count_nil x = refl

-- Steps of one unit, one at a time.
pub stepped-suc : (n s : ℕ) → stepped (suc n) (pos s) 1 ≡ pos s ∷ stepped n (pos (s + 1)) 1
unfolding stepped
stepped-suc n s = rw pos-+ℤ

pub stepped_zero : (s : ℤ) (step : ℕ) → stepped 0 s step ≡ []
unfolding stepped
stepped_zero s step = refl

-- A sum of one count for each of the lists.
pub count-append : (x : ℤ) (xs ys : List ℤ) → count x (xs ++ ys) ≡ count x xs + count x ys
unfolding count
count-append x [] ys = omega arith
count-append x (y ∷ xs) ys = omega (arith, count-append x xs ys)

-- Consecutive numbers: each number of an interval once.
pub count_interval :
    (n s x : ℕ) → count (pos x) (stepped n (pos s) 1) ≡ (if leb s x && ltb x (s + n) then 1 else 0)
count_interval n s x = count-stepped n s 1 x (omega arith) ∙ ground arith
