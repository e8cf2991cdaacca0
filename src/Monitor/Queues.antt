-- ===== src/Monitor/Queues.antt =====
-- The loops of perfrunner/helpers/monitor.py that a clock ends: the waits for empty queues and for a
-- rebalance. Rounds are counted from 0, and the fuel bounds their number.
pub mod Drained
use perfrunner.Prelude.{
  ℕ, zero, suc, ◌+◌, ◌-◌, ◌*◌, Bool, true, false, not, ◌&&◌, List, [], ◌∷◌, Option, none, some,
  Result, ok, err, runtime_error, ltb, leb, ◌==◌, if◌then◌else◌,
}
use perfrunner.Text.{Text, codes, eq_text}
use perfrunner.Monitor.{timeout, rebalance_timeout}

-- The last element of a list, `samples[-1]`.
unfoldable pub last : ℕ → List ℕ → ℕ
last n [] = n
last n (m ∷ ms) = last m ms

-- Whether the samples of a metric are there, and the last of them is 0.
unfoldable pub is_drained : Option (List ℕ) → Bool
unfolding last
is_drained none = false
is_drained (some []) = false
is_drained (some (n ∷ ns)) = last n ns == 0

-- `metrics.remove(metric)`: the first occurrence
unfoldable pub remove : Text → List Text → List Text
remove m [] = []
remove m (n ∷ ns) = let rest = remove m ns in if eq_text m n then ns else n ∷ rest

-- One round over a copy of the metrics, as `copy`.
unfoldable pub drain : (Text → Option (List ℕ)) → List Text → List Text → List Text
unfolding is_drained remove
drain stats [] metrics = metrics
drain stats (m ∷ copy) metrics =
    drain stats copy (if is_drained (stats m) then remove m metrics else metrics)

-- `_wait_for_empty_queues`, from the round on; none: the fuel has run out. `elapsed` is the time since
-- the start at the end of a round.
unfoldable pub wait_for_empty_queues :
    (ℕ → Text → Option (List ℕ)) → (ℕ → ℕ) → ℕ → ℕ → List Text → Option (Result (Unit {0}))
unfolding drain
wait_for_empty_queues stats elapsed fuel round [] = some (ok tt)
wait_for_empty_queues stats elapsed zero round (m ∷ ms) = none
wait_for_empty_queues stats elapsed (suc fuel) round (m ∷ ms) =
    let metrics = drain (stats round) (m ∷ ms) (m ∷ ms) in
    let rest = wait_for_empty_queues stats elapsed fuel (round + 1) metrics in
    if ltb timeout (elapsed round) then some (err (runtime_error "Monitoring got stuck")) else rest

-- What `get_task_status` answers: whether the rebalance runs, and its progress.
pub record Status : Type 0 where
  pub is_running : Bool
  pub progress : Option ℕ

unfoldable pub same_progress : Option ℕ → Option ℕ → Bool
same_progress none none = true
same_progress (some a) (some b) = a == b
same_progress _ _ = false

-- How `monitor_rebalance` ends.
pub data Ending : Type 0 where
  completed hung : Ending

-- `monitor_rebalance`, from the round on; none: the fuel has run out. `now` is the clock of a round.
-- The program begins with the progress 0 at the time of the call.
unfoldable pub monitor_rebalance : (ℕ → Status) → (ℕ → ℕ) → ℕ → ℕ → Option ℕ → ℕ → Option Ending
unfolding same_progress
monitor_rebalance status now zero round last_progress last_time = none
monitor_rebalance status now (suc fuel) round last_progress last_time =
    let s = status round in
    let same = monitor_rebalance status now fuel (round + 1) last_progress last_time in
    let moved = monitor_rebalance status now fuel (round + 1) s.progress (now round) in
    if same_progress s.progress last_progress
    then (if ltb rebalance_timeout (now round - last_time)
        then some hung
        else if s.is_running
        then same
        else some completed)
    else if s.is_running
    then moved
    else some completed
