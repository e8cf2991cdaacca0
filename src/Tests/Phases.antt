-- ===== src/Tests/Phases.antt =====
-- Runs and instances for the phases of a test: the tasks of the workers (perfrunner/helpers/worker.py),
-- the nodes that fail and the checks behind a test (perfrunner/tests), and the keys of
-- perfrunner/workloads/keyFragger.py.
use perfrunner.Prelude.{
  ℕ, ◌+◌, ◌*◌, ◌≤◌, ◌<◌, ◌≡◌, ◌≢◌, refl, false, true, List, [], ◌∷◌, none, some, ok, arith, ◌⊎◌,
  inl, inr, Returns,
}
use perfrunner.Prelude.Int.{pos}
use perfrunner.Text.{Text, codes, render, to_base}
use perfrunner.Config.{Options, lookup}
use perfrunner.Text.Words.{split}
use perfrunner.Config.Options.{RebalanceSettings, rebalance_settings, ints, get_int}
use perfrunner.Config.Targets.{TargetSettings}
use perfrunner.WorkerManager.{cycle, remote_manager, run_tasks}
use perfrunner.WorkerManager.Turns.{IsInTurn, run_tasks-IsInTurn}
use perfrunner.KeyFragger.{Store, work_through, padded_key}
use perfrunner.KeyFragger.Keys.{IsIn, IsWideForAll, Keeps, work_through-Keeps}
use perfrunner.KeyFragger.Padding.{IsWide}
use perfrunner.PerfTest.{
  TearDown, tear_down, failovers, not_balanced, debug, exit, suppressed, keyboard_interrupt,
  propagates, check_failover, check_core_dumps, check_rebalance, finished,
}
use perfrunner.PerfTest.Exits.{check_failover-misses}
use perfrunner.PerfTest.Endings.{HasNoDumps, IsExpected, exit-finished}
use perfrunner.Rebalance.Failover.{hard_failover, failover_calls, disk_exit}
use perfrunner.Rebalance.Failover.Spared.{hits, all_failing, Fits, failover_calls-hits}

abbrev two_workers : List Text
two_workers = codes "a" ∷ codes "b" ∷ []

abbrev bucket_target : TargetSettings
bucket_target = record {
  password = codes "p";
  node = codes "n";
  bucket = codes "bucket-1";
  prefix = [];
}

run_tasks-IsInTurn_example :
    Returns
      (run_tasks true two_workers
        (some 60)
        3
        (bucket_target ∷ [])
        (remote_manager (cycle two_workers)))
      (λ r. IsInTurn two_workers (some 60) 3 (bucket_target ∷ []) r.0)
run_tasks-IsInTurn_example =
    run_tasks-IsInTurn two_workers (some 60) 3 (bucket_target ∷ []) (cycle two_workers)
      (omega arith)

long_key : padded_key 12 6 ≡ codes "12AAAA"
unfolding padded_key render to_base
long_key = refl

abbrev no_keys : Store
no_keys t = false

two_or_three : (k : ℕ) → 1 * 2 ≤ k → k < 1 * 2 + 2 → (k ≡ 2) ⊎ (k ≡ 3)
two_or_three k low high = ground arith

two_wide : (w : ℕ) → 1 < w → IsWideForAll 2 1 w
unfolding IsWideForAll IsWide IsIn render to_base
two_wide w long k inside = elim (two_or_three k inside.0 inside.1) [
  | inl two ↦ rw two long
  | inr three ↦ rw three long
]

work_through-Keeps_example :
    Returns (work_through 2 1 none (6 ∷ 22 ∷ []) no_keys) (Keeps 2 1 6 (22 ∷ []) no_keys)
work_through-Keeps_example =
    work_through-Keeps 2 1 6 (22 ∷ []) no_keys
      (two_wide 6 (omega arith), (two_wide 22 (omega arith), tt))

abbrev three_servers : List Text
three_servers = codes "x" ∷ codes "y" ∷ codes "z" ∷ []

one_fails : Fits 1 (three_servers ∷ []) (3 ∷ [])
unfolding Fits
one_fails = (omega arith, omega arith, tt)

failover_calls-hits_example :
    Returns
      (failover_calls hard_failover 1 (three_servers ∷ []) (3 ∷ []))
      (λ calls. hits calls ≡ all_failing 1 (three_servers ∷ []) (3 ∷ []))
failover_calls-hits_example =
    failover_calls-hits hard_failover 1 (three_servers ∷ []) (3 ∷ []) one_fails

abbrev default_settings : RebalanceSettings
default_settings = record {
  nodes_after = [];
  swap = pos 0;
  failed_nodes = pos 1;
  failover = codes "hard";
  delay_before_failover = pos 600;
  delta_recovery = pos 0;
  start_after = pos 1200;
  stop_after = pos 1200;
}

abbrev no_options : Options
no_options = []

default_read : rebalance_settings no_options ≡ ok default_settings
unfolding rebalance_settings ints split lookup get_int
default_read = refl

no_failover : lookup (codes "failover") no_options ≢ some []
unfolding lookup
no_failover e = cc

default_kind_hides : check_failover (some default_settings) (3 ∷ []) ≡ ok none
default_kind_hides = check_failover-misses no_options (3 ∷ []) no_failover default_read

abbrev bare : TearDown
bare = record {
  use_workers = false;
  online_cores = false;
  kernel_mem_limit = false;
  limited_servers = [];
}

abbrev no_dumps : List (Text × List Text)
no_dumps = (codes "a", []) ∷ []

exit-finished_example :
    exit bare
      (debug
        (check_core_dumps no_dumps)
        (check_rebalance (false ∷ []))
        (check_failover (some default_settings) (3 ∷ [])))
      none
    ≡ (tear_down bare, finished)
unfolding HasNoDumps IsExpected
exit-finished_example =
    (exit-finished bare no_dumps (false ∷ []) (some default_settings) (3 ∷ [])).1
      ((refl, tt), (refl, tt), refl)

later_check_wins :
    debug none (some not_balanced) (ok (some (failovers 2))) ≡ ok (some (failovers 2))
unfolding debug
later_check_wins = refl

interrupt_ends : exit bare (ok none) (some keyboard_interrupt) ≡ ([], suppressed)
unfolding exit tear_down
interrupt_ends = refl

disk_interrupt_goes_on :
    disk_exit [] bare (ok none) (some keyboard_interrupt) ≡ ([], propagates keyboard_interrupt)
unfolding disk_exit exit tear_down
disk_interrupt_goes_on = refl
