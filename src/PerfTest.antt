-- ===== src/PerfTest.antt =====
-- The phases that the performance tests share, `PerfTest` of perfrunner/tests/__init__.py, as the lists
-- of what they do. What the servers answer, the buckets and the targets are arguments; messages to the
-- log are left out. A phase is known by its name; its settings are those that the name stands for,
-- where a test does not pass its own.
pub mod Exits
pub mod Endings
use perfrunner.Prelude.{
  ℕ, zero, suc, ◌+◌, ◌*◌, Bool, true, false, List, [], ◌∷◌, ◌++◌, map, Option, none, some, Result,
  ok, err, index_error, attribute_error, Exn, ◌>>=◌, if◌then◌else◌,
}
use perfrunner.Prelude.Int.{ℤ, pos, ◌+ℤ◌}
use perfrunner.Text.{Text, codes}
use perfrunner.Config.Targets.{TargetSettings}
use perfrunner.Config.Options.{RebalanceSettings}
use perfrunner.Rebalance.{Call}

pub data Action : Type 0 where
  monitor_disk_queues monitor_dcp_queues monitor_replica_count : (node bucket : Text) → Action
  trigger_bucket_compaction : (node bucket : Text) → Action
  monitor_task : (node task_type : Text) → Action
  monitor_indexing : (node : Text) → Action
  monitor_num_items : (node bucket : Text) (num_items : ℤ) → Action
  reset_stats : (server bucket : Text) → Action
  exec_n1ql_statement : (node statement : Text) → Action
  import_data : (import_file bucket : Text) → Action
  restore_data restore_without_index : Action
  run_tasks : (phase : Text) (timer : Option ℕ) → Action
  wait_for_workers abort : Action
  sleep : (seconds : ℕ) → Action
  on_nodes : (call : Call) → Action
  define_ddocs build_index : Action
  post : (kpi : Text) → Action
  download_celery_logs terminate enable_cpu collect_info : Action
  reset_memory_settings : (host : Text) → Action
  wait_for_servers : Action

-- Something for each target of the iterator
abbrev pub each_target : (TargetSettings → List Action) → List TargetSettings → List Action
each_target act [] = []
each_target act (t ∷ ts) = act t ++ each_target act ts

-- `compact_bucket`
unfoldable pub compact_bucket : Bool → List TargetSettings → List Action
compact_bucket wait targets =
    each_target (λ t. trigger_bucket_compaction t.node t.bucket ∷ []) targets
    ++ (if wait
        then each_target (λ t. monitor_task t.node (codes "bucket_compaction") ∷ []) targets
        else [])

-- `wait_for_persistence`
unfoldable pub wait_for_persistence : List TargetSettings → List Action
wait_for_persistence = each_target λ t.
    monitor_disk_queues t.node t.bucket
    ∷ monitor_dcp_queues t.node t.bucket
    ∷ monitor_replica_count t.node t.bucket
    ∷ []

abbrev has_any : List Text → Bool
has_any [] = false
has_any (s ∷ ss) = true

-- `wait_for_indexing`
unfoldable pub wait_for_indexing : List Text → List Text → List Action
wait_for_indexing statements index_nodes =
    if has_any statements then map monitor_indexing index_nodes else []

abbrev times_ℤ : ℕ → ℕ → ℤ
times_ℤ a b = pos (a * b)

-- `check_num_items`; the number of replicas is not negative.
unfoldable pub check_num_items : ℕ → ℕ → List TargetSettings → List Action
check_num_items items replica_number =
    each_target λ t. monitor_num_items t.node t.bucket (times_ℤ items (1 + replica_number)) ∷ []

-- `reset_kv_stats`; `server_list` is what the master tells of a bucket.
unfoldable pub reset_kv_stats : (Text → List Text) → List Text → List Action
reset_kv_stats server_list [] = []
reset_kv_stats server_list (b ∷ bs) =
    map (λ server. reset_stats server b) (server_list b) ++ reset_kv_stats server_list bs

-- The statements of `create_indexes` and `create_functions` on the first query node, which is looked up
-- for each of them
unfoldable pub exec_statements : List Text → List Text → Result (List Action)
exec_statements query_nodes [] = ok []
exec_statements [] (s ∷ ss) = err index_error
exec_statements (node ∷ nodes) (s ∷ ss) =
    exec_statements (node ∷ nodes) ss >>= λ rest. ok (exec_n1ql_statement node s ∷ rest)

-- `import_data`
unfoldable pub import_buckets : Text → List Text → List Action
import_buckets import_file buckets = map (import_data import_file) buckets

-- `run_phase`
unfoldable pub run_phase : Text → Option ℕ → Bool → List Action
run_phase phase timer wait = run_tasks phase timer ∷ (if wait then wait_for_workers ∷ [] else [])

unfoldable pub load : List Action
unfolding run_phase
load = run_phase (codes "load phase") none true

unfoldable pub hot_load : List Action
unfolding run_phase
hot_load = run_phase (codes "hot load phase") none true

unfoldable pub xattr_load : List Action
unfolding run_phase
xattr_load = run_phase (codes "xattr phase") none true

-- `access`, with the time of its settings
unfoldable pub access : Option ℕ → List Action
unfolding run_phase
access time = run_phase (codes "access phase") time true

unfoldable pub access_bg : Option ℕ → List Action
unfolding run_phase
access_bg time = run_phase (codes "background access phase") time false

-- `report_kpi`; `kpis` are what `_report_kpi` posts.
unfoldable pub report_kpi : Bool → List Text → List Action
report_kpi enabled kpis = if enabled then map post kpis else []

-- The settings that `tear_down` reads
pub record TearDown : Type 0 where
  pub use_workers : Bool
  pub online_cores : Bool
  pub kernel_mem_limit : Bool
  -- the servers of the services whose memory is limited, service by service
  pub limited_servers : List Text

-- `tear_down`, with the `reset_memory_settings` of the cluster manager
unfoldable pub tear_down : TearDown → List Action
tear_down s =
    (if s.use_workers then download_celery_logs ∷ terminate ∷ [] else [])
    ++ ((if s.online_cores then enable_cpu ∷ [] else [])
        ++ (if s.kernel_mem_limit
            then collect_info
              ∷ (map reset_memory_settings s.limited_servers ++ (wait_for_servers ∷ []))
            else []))

-- What `debug` finds.
pub data Failure : Type 0 where
  core_dumps : (dumps : List (Text × List Text)) → Failure
  not_balanced : Failure
  failovers : (number : ℕ) → Failure

-- `check_rebalance`, of what `is_not_balanced` answers for the masters
unfoldable pub check_rebalance : List Bool → Option Failure
check_rebalance [] = none
check_rebalance (b ∷ bs) = let rest = check_rebalance bs in if b then some not_balanced else rest

abbrev pub has_chars : Text → Bool
has_chars [] = false
has_chars (c ∷ t) = true

abbrev pub first_failover : List ℕ → Option Failure
first_failover [] = none
first_failover (zero ∷ ns) = first_failover ns
first_failover (suc n ∷ ns) = some (failovers (suc n))

-- `check_failover`, of the counters of the masters and of the test's settings for a rebalance, if it has
-- them: with an empty `failover` they are asked for `graceful_failover`, which no settings have.
unfoldable pub check_failover : Option RebalanceSettings → List ℕ → Result (Option Failure)
check_failover none counters = ok (first_failover counters)
check_failover (some s) counters = if has_chars s.failover then ok none else err attribute_error

abbrev hosts_with_dumps : List (Text × List Text) → List (Text × List Text)
hosts_with_dumps [] = []
hosts_with_dumps ((host, []) ∷ hs) = hosts_with_dumps hs
hosts_with_dumps ((host, d ∷ ds) ∷ hs) = (host, d ∷ ds) ∷ hosts_with_dumps hs

abbrev dumps_failure : List (Text × List Text) → Option Failure
dumps_failure [] = none
dumps_failure (h ∷ hs) = some (core_dumps (h ∷ hs))

-- `check_core_dumps`
unfoldable pub check_core_dumps : List (Text × List Text) → Option Failure
check_core_dumps dumps_per_host = dumps_failure (hosts_with_dumps dumps_per_host)

-- `a or b`
abbrev pub or_else : Option Failure → Option Failure → Option Failure
or_else (some f) g = some f
or_else none g = g

-- `debug`, of what `check_core_dumps`, `check_rebalance` and `check_failover` find
unfoldable pub debug :
    Option Failure → Option Failure → Result (Option Failure) → Result (Option Failure)
debug dumps rebalance failover = failover >>= λ f. ok (or_else f (or_else rebalance dumps))

-- How a `with` block ends. `raised` is the exception behind it, if there is one.
pub data Raised : Type 0 where
  keyboard_interrupt : Raised
  other_exception : (e : Exn) → Raised

pub data Ending : Type 0 where
  finished suppressed : Ending
  propagates : (e : Raised) → Ending
  interrupted_by : (f : Failure) → Ending

abbrev pub ending_of : Option Failure → Option Raised → Ending
ending_of failure (some keyboard_interrupt) = suppressed
ending_of (some f) (some (other_exception e)) = interrupted_by f
ending_of none (some (other_exception e)) = propagates (other_exception e)
ending_of (some f) none = interrupted_by f
ending_of none none = finished

-- `__exit__`, with what `debug` gives: what is done, and how the block ends.
unfoldable pub exit : TearDown → Result (Option Failure) → Option Raised → List Action × Ending
unfolding tear_down
exit s (err e) raised = ([], propagates (other_exception e))
exit s (ok failure) raised = (tear_down s, ending_of failure raised)
