-- ===== src/Retry.antt =====
-- The decorator `retry` of perfrunner/helpers/misc.py. The outcomes of the calls of the function are
-- an argument, one for each call; `catch` tells which exceptions are caught.
pub mod Attempts
use perfrunner.Prelude.{
  ℕ, zero, suc, ◌+◌, ◌-◌, Bool, true, false, Option, none, some, Exn, Result, ok, err, ◌==◌,
  if◌then◌else◌,
}

-- What follows one call: `rest` is the next round of the loop.
unfoldable pub attempt {ℓ} :
    {A : Type ℓ} → (Exn → Bool) → Result A → Bool → Result (Option A) → Result (Option A)
attempt catch (ok result) is_last rest = ok (some result)
attempt catch (err e) is_last rest = if catch e then (if is_last then err e else rest) else err e

module _ {ℓ} {A : Type ℓ} (catch : Exn → Bool) (calls : ℕ → Result A) where
  -- The loop of `retry_wrapper` from the round i on, with `left` rounds to go; behind the loop the
  -- function returns None.
  unfoldable pub retry_from : ℕ → ℕ → ℕ → Result (Option A)
  unfolding attempt
  retry_from iterations zero i = ok none
  retry_from iterations (suc left) i =
      let rest = retry_from iterations left (i + 1) in
      attempt catch (calls i) (i == iterations - 1) rest

  -- `retry_wrapper`
  unfoldable pub retry : ℕ → Result (Option A)
  unfolding retry_from
  retry iterations = retry_from iterations iterations 0
