-- ===== src/Generators.antt =====
-- The key generators of spring/docgen.py: which document a worker touches next.
-- A draw of Python's `random` is an argument: any number, from which `randrange` makes its value.
pub mod Space
pub mod Moving
pub mod Load
use perfrunner.Prelude.{
  ℕ, zero, suc, ◌+◌, ◌-◌, ◌*◌, ◌/◌, ◌%◌, ◌≤◌, ◌<◌, Bool, true, false, Option, none, some, List, [],
  ◌∷◌, map, Result, ok, err, value_error, zero_division, type_error, ◌>>=◌, ltb, leb, ◌==◌,
  if◌then◌else◌,
}
use perfrunner.Prelude.Int.{
  ℤ, pos, negsuc, ◌+ℤ◌, ◌-ℤ◌, ltb_ℤ, leb_ℤ, to_ℕ, times, div_floor, Ratio, trunc_mul, as_ulong,
  mod_ℤ,
}
use perfrunner.Prelude.Range.{range}
use perfrunner.Text.{Text}
use perfrunner.Keys.{Key}

-- The value between two bounds that a raw draw selects.
unfoldable pub pick : ℕ → ℤ → ℤ → ℤ
pick draw lo hi = lo +ℤ pos (draw % to_ℕ (hi -ℤ lo))

-- `random.randrange(lo, hi)` on a raw draw
unfoldable pub randrange : ℕ → ℤ → ℤ → Result ℤ
unfolding pick
randrange draw lo hi = if ltb_ℤ lo hi then ok (pick draw lo hi) else err value_error

-- `random.randint(a, b)`, both ends included
abbrev pub randint : ℕ → ℤ → ℤ → Result ℤ
randint draw a b = randrange draw a (b +ℤ pos 1)

-- The settings that the generators read.
pub record KeySettings : Type 0 where
  pub items : ℕ
  pub workers : ℕ
  pub working_set : Ratio
  pub working_set_access : ℕ
  pub working_set_moving_docs : ℕ
  pub key_fmtr : Text

abbrev pub key_of : Text → Text → ℤ → Key
key_of prefix fmtr number = record { number = number; prefix = prefix; fmtr = fmtr; hit = false }

-- `NewOrderedKey.next`
unfoldable pub new_ordered_key : Text → Text → ℕ → Key
new_ordered_key prefix fmtr curr_items = key_of prefix fmtr (pos curr_items)

-- `KeyForRemoval.next`
unfoldable pub key_for_removal : Text → Text → ℕ → Key
key_for_removal prefix fmtr curr_deletes = key_of prefix fmtr (pos curr_deletes)

-- `UniformKey.next`
unfoldable pub uniform_key : Text → Text → ℕ → ℤ → ℤ → Result Key
unfolding randrange
uniform_key prefix fmtr draw curr_items curr_deletes =
    randrange draw curr_deletes curr_items >>= λ n. ok (key_of prefix fmtr n)

-- `WorkingSetKey`
pub record WorkingSetKey : Type 0 where
  pub num_hot_items : ℤ
  pub working_set_access : ℕ
  pub prefix : Text
  pub fmtr : Text

unfoldable pub working_set_key : KeySettings → Text → WorkingSetKey
unfolding trunc_mul
working_set_key ws prefix = record {
  num_hot_items = trunc_mul (pos ws.items) ws.working_set 100;
  working_set_access = ws.working_set_access;
  prefix = prefix;
  fmtr = ws.key_fmtr;
}

unfoldable pub working_set_next : WorkingSetKey → ℕ → ℕ → ℤ → ℤ → Result Key
unfolding randrange
working_set_next g access_draw draw curr_items curr_deletes =
    let num_cold_items = curr_items -ℤ g.num_hot_items in
    randint access_draw (pos 0) (pos 100) >>= λ roll.
    if leb_ℤ roll (pos g.working_set_access)
    then (randrange draw num_cold_items curr_items >>= λ n.
        ok (record { number = n; prefix = g.prefix; fmtr = g.fmtr; hit = true }))
    else (randrange draw curr_deletes num_cold_items >>= λ n.
        ok (record { number = n; prefix = g.prefix; fmtr = g.fmtr; hit = false }))

-- The values that the workers and the timer share (`current_hot_load_start`, `timer_elapse`).
pub record HotLoad : Type 0 where
  pub hot_load_start : ℕ
  pub timer_elapse : ℕ

-- The move of the hot range when the timer has elapsed; the timer is reset before the division.
unfoldable pub move_hot_load : KeySettings → ℤ → ℤ → HotLoad → Result ℕ
move_hot_load ws num_existing_items num_hot_items s =
    mod_ℤ (pos (s.hot_load_start + ws.working_set_moving_docs))
      (num_existing_items -ℤ num_hot_items)
    >>= λ r. ok (as_ulong r)

unfoldable pub moved : KeySettings → ℤ → ℤ → HotLoad → Result ℕ × HotLoad
unfolding move_hot_load
moved ws existing hot s =
    if s.timer_elapse == 0
    then (ok s.hot_load_start, s)
    else elim (move_hot_load ws existing hot s) [
      | ok start ↦ (ok start, record { hot_load_start = start; timer_elapse = 0 })
      | err e ↦ (err e, record s { timer_elapse = 0 })
    ]

-- `MovingWorkingSetKey.next`
unfoldable pub moving_next : KeySettings → Text → ℕ → ℤ → ℤ → HotLoad → Result Key × HotLoad
unfolding moved trunc_mul randrange
moving_next ws prefix draw curr_items curr_deletes s =
    let num_existing_items = curr_items -ℤ curr_deletes in
    let num_hot_items = trunc_mul num_existing_items ws.working_set 100 in
    let (r, s') = moved ws num_existing_items num_hot_items s in
    (
      r >>= (λ start.
          let left_boundary = curr_deletes +ℤ pos start in
          randrange draw left_boundary (left_boundary +ℤ num_hot_items) >>= λ n.
          ok (key_of prefix ws.key_fmtr n)),
      s',
    )

-- `ZipfKey.next`; numpy's sample is an argument
unfoldable pub zipf_key : Text → Text → ℕ → ℤ → ℤ → Key
zipf_key prefix fmtr sample curr_items curr_deletes =
    let number = curr_items -ℤ pos sample in
    key_of prefix fmtr (if leb_ℤ number curr_deletes then curr_items -ℤ pos 1 else number)

-- `PowerKey.next`; numpy's sample is an argument, a ratio
unfoldable pub power_key : Text → Text → Ratio → ℤ → ℤ → Key
unfolding trunc_mul
power_key prefix fmtr r curr_items curr_deletes =
    key_of prefix fmtr (curr_deletes +ℤ trunc_mul (curr_items -ℤ curr_deletes -ℤ pos 1) r 1)

-- `SequentialKey.__iter__`
unfoldable pub sequential_numbers : KeySettings → ℕ → Result (List ℤ)
unfolding range
sequential_numbers ws sid = range (pos sid) (pos ws.items) ws.workers

unfoldable pub sequential_key : KeySettings → Text → ℕ → Result (List Key)
unfolding sequential_numbers
sequential_key ws prefix sid =
    sequential_numbers ws sid >>= λ numbers. ok (map (key_of prefix ws.key_fmtr) numbers)

-- `HotKey.__iter__`
unfoldable pub hot_numbers : KeySettings → ℕ → Result (List ℤ)
unfolding range trunc_mul
hot_numbers ws sid =
    let num_hot_keys = trunc_mul (pos ws.items) ws.working_set 100 in
    let num_cold_items = pos ws.items -ℤ num_hot_keys in
    range (num_cold_items +ℤ pos sid) (pos ws.items) ws.workers

unfoldable pub hot_key : KeySettings → Text → ℕ → Result (List Key)
unfolding hot_numbers
hot_key ws prefix sid =
    hot_numbers ws sid >>= λ numbers. ok (map (key_of prefix ws.key_fmtr) numbers)

-- `KeyForCASUpdate.next`; numpy's `random_integers` is an argument
unfoldable pub key_for_cas_update : (ℤ → ℤ → Result ℤ) → ℕ → Text → Text → ℕ → ℕ → Result Key
key_for_cas_update random_integers n1ql_workers prefix fmtr sid curr_items =
    if n1ql_workers == 0
    then err zero_division
    else (let per_worker_items = curr_items / n1ql_workers in
        let left_boundary = sid * per_worker_items in
        let right_boundary = left_boundary + per_worker_items in
        random_integers (pos left_boundary) (pos right_boundary -ℤ pos 1) >>= λ n.
        ok (key_of prefix fmtr n))
