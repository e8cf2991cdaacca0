-- ===== src/Reservoir.antt =====
-- The sample of latencies that a worker keeps (spring/reservoir.py, Algorithm R).
pub mod Laws
use perfrunner.Prelude.{
  ℕ, ◌+◌, ◌*◌, ◌/◌, Bool, List, [], ◌∷◌, ◌++◌, Result, ok, err, zero_division, ltb, ◌==◌,
  if◌then◌else◌, length, set,
}
use perfrunner.Prelude.Int.{Ratio}
use perfrunner.Text.{Text}

abbrev pub max_capacity : ℕ
max_capacity = 100000

-- One measurement: the operation, the timestamp and the value, a float in the program.
abbrev pub Sample : Type 0 → Type 0
Sample V = Text × ℕ × V

pub record Reservoir (V : Type 0) : Type 0 where
  pub capacity : ℕ
  pub values : List (Sample V)
  pub count : ℕ

-- `Reservoir(num_workers)`
unfoldable pub new : {V : Type 0} → ℕ → Result (Reservoir V)
new num_workers =
    if num_workers == 0
    then err zero_division
    else ok (record { capacity = max_capacity / num_workers; values = []; count = 0 })

-- What one call of `update` is given: the measurement, and its draw of `random()` in [0, 1).
pub record Measured (V : Type 0) : Type 0 where
  pub operation : Text
  pub timestamp : ℕ
  pub value : V
  pub random : Ratio

-- int(self.count * random.random())
abbrev pub slot : ℕ → Ratio → ℕ
slot count r = count * r.num / r.den

-- `truthy` is Python's test of a float or None.
module _ {V : Type 0} (truthy : V → Bool) where
  -- `Reservoir.update`
  unfoldable pub update : Measured V → Reservoir V → Reservoir V
  update m s =
      if truthy m.value
      then (let entry : Sample V = (m.operation, m.timestamp, m.value) in
          let n = s.count + 1 in
          let r = slot n m.random in
          if ltb (length s.values) s.capacity
          then record s { values = s.values ++ entry ∷ []; count = n }
          else if ltb r s.capacity
          then record s { values = set s.values r entry; count = n }
          else record s { count = n })
      else s

  unfoldable pub update_all : List (Measured V) → Reservoir V → Reservoir V
  unfolding update
  update_all [] s = s
  update_all (m ∷ ms) s = update_all ms (update m s)
