-- ===== src/Retry/Attempts.antt =====
-- Which of its attempts the decorator `retry` of perfrunner/helpers/misc.py ends with.
use perfrunner.Prelude.{
  ℕ, zero, suc, ◌+◌, ◌-◌, ◌<◌, ◌≡◌, refl, ◌∙◌, ◌⊎◌, inl, inr, Bool, true, false, Bool-cases, Option,
  some, Exn, Result, ok, err, arith, ◌==◌,
}
use perfrunner.Retry.{attempt, retry_from, retry}

module _ {A : Type 0} (catch : Exn → Bool) (calls : ℕ → Result A) where
  -- Whether an outcome is an exception that is caught.
  abbrev pub is_caught : Result A → Bool
  is_caught (ok a) = false
  is_caught (err e) = catch e

  -- The outcome as that of the decorated function.
  abbrev pub passed_on : Result A → Result (Option A)
  passed_on (ok a) = ok (some a)
  passed_on (err e) = err e

  attempt-ends :
      (r : Result A) (last : Bool) (rest : Result (Option A))
      → is_caught r ≡ false
      → attempt catch r last rest ≡ passed_on r
  unfolding attempt
  attempt-ends (ok a) last rest h = refl
  attempt-ends (err e) last rest h = rw h refl

  attempt-last :
      (r : Result A) (rest : Result (Option A))
      → is_caught r ≡ true
      → attempt catch r true rest ≡ passed_on r
  unfolding attempt
  attempt-last (ok a) rest h = cc
  attempt-last (err e) rest h = rw h refl

  attempt-goes_on :
      (r : Result A) (rest : Result (Option A))
      → is_caught r ≡ true
      → attempt catch r false rest ≡ rest
  unfolding attempt
  attempt-goes_on (ok a) rest h = cc
  attempt-goes_on (err e) rest h = rw h refl

  -- The outcome of the attempts from i on, n of them: the first that is not caught, or the last.
  Settles : ℕ → ℕ → Result (Option A) → Type 0
  Settles i n r =
      ((k : ℕ) × (k < n)
        × ((j : ℕ) → j < k → is_caught (calls (i + j)) ≡ true)
        × (is_caught (calls (i + k)) ≡ false)
        × (r ≡ passed_on (calls (i + k))))
      ⊎ (((j : ℕ) → j < n → is_caught (calls (i + j)) ≡ true) × (r ≡ passed_on (calls (i + n - 1))))

  caught_next :
      (i n : ℕ)
      → is_caught (calls i) ≡ true
      → ((j : ℕ) → j < n → is_caught (calls (i + 1 + j)) ≡ true)
      → (j : ℕ) → j < suc n
      → is_caught (calls (i + j)) ≡ true
  caught_next i n now later zero l = let e : i + 0 ≡ i = omega arith in rw e now
  caught_next i n now later (suc j) l =
      let e : i + suc j ≡ i + 1 + j = omega arith in rw e (later j (omega arith))

  retry_from-Settles :
      (n i iterations : ℕ)
      → i + suc n ≡ iterations
      → Settles i (suc n) (retry_from catch calls iterations (suc n) i)
  unfolding Settles retry_from
  retry_from-Settles zero i iterations h = elim (Bool-cases (is_caught (calls i))) [
    | inr ends ↦
        let e : i + 0 ≡ i = omega arith in
        inl (
          0,
          omega arith,
          (λ j l. absurd (omega arith)),
          (rw e ends),
          (rw e (attempt-ends (calls i) _ _ ends)),
        )
    | inl caught ↦
        let e : i + 1 - 1 ≡ i = omega arith in
        let is_last : (i == iterations - 1) ≡ true = ground arith in
        inr (
          caught_next i 0 caught (λ j l. absurd (omega arith)),
          (rw (e, is_last) (attempt-last (calls i) _ caught)),
        )
  ]
  retry_from-Settles (suc n) i iterations h = elim (Bool-cases (is_caught (calls i))) [
    | inr ends ↦
        let e : i + 0 ≡ i = omega arith in
        inl (
          0,
          omega arith,
          (λ j l. absurd (omega arith)),
          (rw e ends),
          (rw e (attempt-ends (calls i) _ _ ends)),
        )
    | inl caught ↦
        let not_last : (i == iterations - 1) ≡ false = ground arith in
        elim (retry_from-Settles n (i + 1) iterations (omega arith)) [
          | inl (k, l, before, ends, r) ↦
              let e : i + suc k ≡ i + 1 + k = omega arith in
              inl (
                suc k,
                omega arith,
                caught_next i k caught before,
                (rw e ends),
                (rw (e, not_last) (attempt-goes_on (calls i) _ caught ∙ r)),
              )
          | inr (all, r) ↦
              let e : i + suc (suc n) - 1 ≡ i + 1 + suc n - 1 = omega arith in
              inr (
                caught_next i (suc n) caught all,
                (rw (e, not_last) (attempt-goes_on (calls i) _ caught ∙ r)),
              )
        ]
  ]

  -- With at least one attempt, the decorated function ends with the first outcome that is not a
  -- caught exception, or, if every attempt ends with a caught exception, with the last of these.
  pub retry-Settles :
      (iterations : ℕ)
      → 0 < iterations
      → ((k : ℕ) × (k < iterations)
          × ((j : ℕ) → j < k → is_caught (calls (0 + j)) ≡ true)
          × (is_caught (calls (0 + k)) ≡ false)
          × (retry catch calls iterations ≡ passed_on (calls (0 + k))))
        ⊎ (((j : ℕ) → j < iterations → is_caught (calls (0 + j)) ≡ true)
            × (retry catch calls iterations ≡ passed_on (calls (0 + iterations - 1))))
  unfolding retry Settles
  retry-Settles zero p = absurd (omega arith)
  retry-Settles (suc n) p = retry_from-Settles n 0 (suc n) (omega arith)
