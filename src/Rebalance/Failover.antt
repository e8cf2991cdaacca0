-- ===== src/Rebalance/Failover.antt =====
-- The tests of perfrunner/tests/rebalance.py: which nodes fail in them, and their phases. The time of the
-- background phase, the targets and what the servers answer are arguments.
pub mod Spared
use perfrunner.Prelude.{
  ℕ, zero, suc, ◌+◌, ◌-◌, Bool, true, false, not, ◌&&◌, List, [], ◌∷◌, ◌++◌, map, Option, none,
  some, Result, ok, err, ◌>>=◌, if◌then◌else◌,
}
use perfrunner.Text.{Text, codes}
use perfrunner.Config.Targets.{TargetSettings}
use perfrunner.Rebalance.{
  Call, fail_over, graceful_fail_over, monitor_progress, shutdown, set_write_permissions, master_of,
  failed_of, rebalance_calls, recovery_calls, recovery_rebalance_calls,
}
use perfrunner.PerfTest.{
  Action, sleep, on_nodes, abort, restore_without_index, define_ddocs, build_index, post,
  wait_for_persistence, compact_bucket, load, hot_load, access_bg, reset_kv_stats, report_kpi,
  TearDown, Failure, Raised, keyboard_interrupt, Ending, suppressed, propagates, exit,
}

-- The classes that override `_failover` of `FailoverTest`. `FailureDetectionTest` does to the nodes what
-- `AutoFailoverTest` does, and takes down the time.
pub data FailoverKind : Type 0 where
  hard_failover graceful_failover auto_failover failure_detection : FailoverKind
  disk_failure_detection : (data_path : Text) → FailoverKind

-- What `_failover` of the classes does to one node.
abbrev pub fail_hard : Text → Text → List Call
fail_hard master node = fail_over master node ∷ []

abbrev pub fail_gracefully : Text → Text → List Call
fail_gracefully master node = graceful_fail_over master node ∷ monitor_progress master ∷ []

abbrev pub shut_down : Text → List Call
shut_down node = shutdown node ∷ []

abbrev pub write_protect : Text → Text → List Call
write_protect path node = set_write_permissions (codes "0444") node path ∷ []

unfoldable pub fail_one : FailoverKind → Text → Text → List Call
fail_one hard_failover master node = fail_hard master node
fail_one graceful_failover master node = fail_gracefully master node
fail_one auto_failover master node = shut_down node
fail_one failure_detection master node = shut_down node
fail_one (disk_failure_detection path) master node = write_protect path node

-- Whether the class looks up the first server of a cluster.
abbrev pub names_master : FailoverKind → Bool
names_master hard_failover = true
names_master graceful_failover = true
names_master _ = false

abbrev pub fail_each : FailoverKind → Text → List Text → List Call
fail_each kind master [] = []
fail_each kind master (n ∷ ns) = fail_one kind master n ++ fail_each kind master ns

abbrev pub master_if : Bool → List Text → Result Text
master_if true servers = master_of servers
master_if false servers = ok []

-- `_failover` of these classes
unfoldable pub failover_calls : FailoverKind → ℕ → List (List Text) → List ℕ → Result (List Call)
unfolding fail_one failed_of
failover_calls kind failed_nodes (servers ∷ clusters) (i ∷ initial_nodes) =
    master_if (names_master kind) servers >>= λ master.
    failover_calls kind failed_nodes clusters initial_nodes >>= λ calls.
    ok (fail_each kind master (failed_of servers i failed_nodes) ++ calls)
failover_calls kind failed_nodes [] initial_nodes = ok []
failover_calls kind failed_nodes (servers ∷ clusters) [] = ok []

-- `DiskFailureDetectionTest.restore`
unfoldable pub restore_calls : Text → List (List Text) → List ℕ → List Call
restore_calls path (servers ∷ clusters) (i ∷ initial_nodes) =
    map (λ node. set_write_permissions (codes "0755") node path) servers
    ++ restore_calls path clusters initial_nodes
restore_calls path [] initial_nodes = []
restore_calls path (servers ∷ clusters) [] = []

abbrev not_suppressed : Ending → Ending
not_suppressed suppressed = propagates keyboard_interrupt
not_suppressed e = e

-- `DiskFailureDetectionTest.__exit__`, which does not pass on what the `__exit__` above it returns
unfoldable pub disk_exit :
    List Action → TearDown → Result (Option Failure) → Option Raised → List Action × Ending
unfolding exit
disk_exit restored s debugged raised =
    let (actions, ending) = exit s debugged raised in (restored ++ actions, not_suppressed ending)

-- `is_balanced`, of what `is_not_balanced` answers for the masters
unfoldable pub is_balanced : List Bool → Bool
is_balanced [] = true
is_balanced (b ∷ bs) = if b then false else is_balanced bs

-- What the tests depend on: the specification, the settings, and what the servers answer behind the
-- last phase. `kpis` are what `_report_kpi` posts.
pub record Setting : Type 0 where
  pub clusters : List (List Text)
  pub initial_nodes : List ℕ
  pub nodes_after : List ℕ
  pub swap : ℕ
  pub failed_nodes : ℕ
  pub delta_recovery : Bool
  pub is_hard : Bool
  pub start_after : ℕ
  pub stop_after : ℕ
  pub delay_before_failover : ℕ
  pub targets : List TargetSettings
  pub buckets : List Text
  pub server_list : Text → List Text
  pub access_time : Option ℕ
  pub not_balanced : List Bool
  pub stats_enabled : Bool
  pub kpis : List Text

-- The classes of tests.
pub data RebalanceKind : Type 0 where
  kv durability fts_baseline recovery with_queries : RebalanceKind
  failover : (kind : FailoverKind) → RebalanceKind

module _ (s : Setting) where
  abbrev calls_of : Result (List Call) → Result (List Action)
  calls_of r = r >>= λ calls. ok (map on_nodes calls)

  -- `_rebalance` of `RebalanceTest` and of `RecoveryTest`
  unfoldable pub nodes_rebalance : RebalanceKind → Result (List Action)
  unfolding rebalance_calls recovery_rebalance_calls
  nodes_rebalance recovery = calls_of (recovery_rebalance_calls s.clusters s.initial_nodes)
  nodes_rebalance _ = calls_of (rebalance_calls s.swap s.clusters s.initial_nodes s.nodes_after)

  -- `post_rebalance`
  unfoldable pub post_rebalance : RebalanceKind → List Action
  post_rebalance kv = sleep s.stop_after ∷ abort ∷ []
  post_rebalance _ = sleep s.stop_after ∷ []

  -- `rebalance`, with the stages around `_rebalance`
  unfoldable pub rebalance_phase : RebalanceKind → Result (List Action)
  unfolding nodes_rebalance post_rebalance access_bg
  rebalance_phase durability = nodes_rebalance durability >>= λ moved.
      ok (access_bg s.access_time ++ (moved ++ (abort ∷ [])))
  rebalance_phase kind =
      nodes_rebalance kind >>= λ moved. ok (sleep s.start_after ∷ (moved ++ post_rebalance kind))

  -- `failover` of `RecoveryTest` and of `FailoverTest`
  unfoldable pub failover_phase : RebalanceKind → Result (List Action)
  unfolding recovery_calls failover_calls post_rebalance
  failover_phase (failover kind) =
      calls_of (failover_calls kind s.failed_nodes s.clusters s.initial_nodes) >>= λ failed.
      ok (sleep s.start_after ∷ (failed ++ post_rebalance (failover kind)))
  failover_phase _ =
      calls_of (recovery_calls s.is_hard s.delta_recovery s.failed_nodes s.clusters s.initial_nodes)
      >>= λ failed. ok (sleep s.delay_before_failover ∷ failed)

  -- `if self.is_balanced(): self.report_kpi()`
  unfoldable pub report_if_balanced : List Action
  unfolding is_balanced report_kpi
  report_if_balanced = if is_balanced s.not_balanced then report_kpi s.stats_enabled s.kpis else []

  abbrev loaded : List Action
  loaded = load ++ wait_for_persistence s.targets

  abbrev reset_stats_phase : List Action
  reset_stats_phase = reset_kv_stats s.server_list s.buckets

  -- `RebalanceKVTest.run`
  unfoldable pub run_kv : Result (List Action)
  unfolding load wait_for_persistence hot_load reset_kv_stats access_bg rebalance_phase
      report_if_balanced
  run_kv = rebalance_phase kv >>= λ moved. ok (
      loaded
      ++ (hot_load
          ++ (reset_stats_phase ++ (access_bg s.access_time ++ (moved ++ report_if_balanced)))))

  -- `RebalanceDurabilityTest.run`
  unfoldable pub run_durability : Result (List Action)
  unfolding load wait_for_persistence hot_load reset_kv_stats compact_bucket rebalance_phase
      report_if_balanced
  run_durability = rebalance_phase durability >>= λ moved. ok (
      loaded
      ++ (compact_bucket true s.targets
          ++ (hot_load ++ (reset_stats_phase ++ (moved ++ report_if_balanced)))))

  -- `RebalanceBaselineForFTS.run`, with its `load`
  unfoldable pub run_fts_baseline : Result (List Action)
  unfolding wait_for_persistence rebalance_phase report_if_balanced
  run_fts_baseline = rebalance_phase fts_baseline >>= λ moved.
      ok (restore_without_index ∷ (wait_for_persistence s.targets ++ (moved ++ report_if_balanced)))

  -- `RecoveryTest.run`
  unfoldable pub run_recovery : Result (List Action)
  unfolding load wait_for_persistence hot_load access_bg rebalance_phase failover_phase
      report_if_balanced
  run_recovery = failover_phase recovery >>= λ failed. rebalance_phase recovery >>= λ moved. ok (
      loaded
      ++ (hot_load ++ (access_bg s.access_time ++ (failed ++ (moved ++ report_if_balanced)))))

  -- `RebalanceWithQueriesTest.run`
  unfoldable pub run_with_queries : Result (List Action)
  unfolding load wait_for_persistence hot_load access_bg rebalance_phase report_if_balanced
  run_with_queries = rebalance_phase with_queries >>= λ moved. ok (
      loaded
      ++ (hot_load
          ++ (define_ddocs
              ∷ build_index
              ∷ (access_bg s.access_time ++ (moved ++ report_if_balanced)))))

  -- `FailoverTest.run`
  unfoldable pub run_failover : FailoverKind → Result (List Action)
  unfolding load wait_for_persistence hot_load access_bg failover_phase report_if_balanced
  run_failover kind = failover_phase (failover kind) >>= λ failed.
      ok (loaded ++ (hot_load ++ (access_bg s.access_time ++ (failed ++ report_if_balanced))))
