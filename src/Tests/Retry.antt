-- ===== src/Tests/Retry.antt =====
-- A function that fails once, and is then called again.
use perfrunner.Prelude.{
  ℕ, zero, suc, ◌+◌, ◌-◌, ◌<◌, ◌≡◌, ◌⊎◌, refl, Bool, true, false, some, Exn, Result, ok, err,
  key_error, arith,
}
use perfrunner.Retry.{retry}
use perfrunner.Retry.Attempts.{is_caught, passed_on, retry-Settles}

abbrev catch : Exn → Bool
catch key_error = true
catch _ = false

abbrev calls : ℕ → Result ℕ
calls zero = err key_error
calls (suc i) = ok 7

retry_runs : retry catch calls 5 ≡ ok (some 7)
unfolding retry
retry_runs = refl

retry-Settles_example :
    ((k : ℕ) × (k < 5)
      × ((j : ℕ) → j < k → is_caught catch calls (calls (0 + j)) ≡ true)
      × (is_caught catch calls (calls (0 + k)) ≡ false)
      × (retry catch calls 5 ≡ passed_on catch calls (calls (0 + k))))
    ⊎ (((j : ℕ) → j < 5 → is_caught catch calls (calls (0 + j)) ≡ true)
        × (retry catch calls 5 ≡ passed_on catch calls (calls (0 + 5 - 1))))
retry-Settles_example = retry-Settles catch calls 5 (omega arith)
