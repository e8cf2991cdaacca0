-- ===== src/Tests/Reservoir.antt =====
-- The reservoir on a few measurements.
use perfrunner.Prelude.{ℕ, ◌≡◌, refl, Bool, not, ◌==◌, List, [], ◌∷◌, length}
use perfrunner.Text.{codes}
use perfrunner.Reservoir.{Reservoir, Measured, update_all}
use perfrunner.Reservoir.Laws.{update_all-IsFull}

abbrev truthy : ℕ → Bool
truthy n = not (n == 0)

abbrev measured : ℕ → ℕ → Measured ℕ
measured v r = record {
  operation = codes "get";
  timestamp = 1;
  value = v;
  random = record { num = r; den = 4 };
}

abbrev values : List (Measured ℕ)
values = measured 7 0 ∷ measured 0 0 ∷ measured 8 0 ∷ measured 9 1 ∷ []

abbrev start : Reservoir ℕ
start = record { capacity = 2; values = []; count = 0 }

update_all-IsFull_example :
    let t = update_all truthy values start in
    (t.count ≡ 3) × (length t.values ≡ 2) × (t.capacity ≡ 2)
update_all-IsFull_example = update_all-IsFull truthy values start refl
