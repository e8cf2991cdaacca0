-- ===== src/Tests/Monitor.antt =====
-- The polling loops and the rebalance plans at concrete answers.
use perfrunner.Prelude.{
  ℕ, ◌-◌, ◌*◌, ◌≤◌, ◌≡◌, refl, inl, true, false, List, [], ◌∷◌, Option, some, ok, arith,
}
use perfrunner.Prelude.Int.{◌-ℤ◌}
use perfrunner.Text.{Text, codes}
use perfrunner.Monitor.{wait_for_num_connections}
use perfrunner.Monitor.Retries.{wait_for_num_connections-misses}
use perfrunner.Monitor.Queues.{
  is_drained, last, Status, wait_for_empty_queues, drain, remove, monitor_rebalance,
}
use perfrunner.Monitor.Queues.Drained.{
  Ended, wait_for_empty_queues-Ended, wait_for_empty_queues-drains, monitor_rebalance-Ended,
}
use perfrunner.Rebalance.{Plan, rebalance_plan, py_slice}
use perfrunner.Rebalance.Nodes.{Splits, rebalance_plan-Splits}

abbrev never : ℕ → List Text
never retry = []

abbrev growing : ℕ → ℕ
growing retry = retry

-- The last poll, the one numbered 149, answers 149.
wait_for_num_connections-misses_example : wait_for_num_connections growing 149 ≡ false
wait_for_num_connections-misses_example = wait_for_num_connections-misses growing 149 λ k h. h

abbrev queue : Text
queue = codes "ep_queue_size"

-- Empty from the third round on.
abbrev samples : ℕ → Text → Option (List ℕ)
samples round metric = some (5 ∷ (2 - round) ∷ [])

abbrev seconds : ℕ → ℕ
seconds round = 2 * round

wait_for_empty_queues-Ended_example :
    Ended (wait_for_empty_queues samples seconds 21602 0 (queue ∷ []))
wait_for_empty_queues-Ended_example =
    wait_for_empty_queues-Ended samples seconds (queue ∷ []) λ r. omega arith

queue_runs : wait_for_empty_queues samples seconds 5 0 (queue ∷ []) ≡ some (ok tt)
unfolding wait_for_empty_queues drain remove is_drained last
queue_runs = refl

wait_for_empty_queues-drains_example : (r : ℕ) × (0 ≤ r) × (is_drained (samples r queue) ≡ true)
wait_for_empty_queues-drains_example =
    wait_for_empty_queues-drains samples seconds 5 0 (queue ∷ []) queue queue_runs (inl refl)

abbrev stuck : ℕ → Status
stuck round = record { is_running = true; progress = some 40 }

monitor_rebalance-Ended_example : Ended (monitor_rebalance stuck seconds 10802 0 (some 0) 0)
monitor_rebalance-Ended_example =
    monitor_rebalance-Ended stuck seconds 0 0 (some 40) (λ r. omega arith) (omega arith) λ r h. refl

abbrev servers : List Text
servers = codes "a" ∷ codes "b" ∷ codes "c" ∷ codes "d" ∷ []

abbrev swapped : Plan
swapped = record {
  new_nodes = codes "d" ∷ [];
  known_nodes = servers;
  ejected_nodes = codes "c" ∷ [];
}

swapped_runs : rebalance_plan servers 3 3 1 ≡ some swapped
unfolding rebalance_plan py_slice ◌-ℤ◌
swapped_runs = refl

rebalance_plan-Splits_example : Splits servers 3 3 1 swapped
rebalance_plan-Splits_example =
    rebalance_plan-Splits servers 3 3 1 swapped swapped_runs (omega arith) (omega arith)
      (omega arith)
