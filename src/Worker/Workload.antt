-- ===== src/Worker/Workload.antt =====
-- The processes of a workload: `WorkloadGen` of spring/wgen.py, as the list of what it does. A value
-- that the processes share is known by its name, and the counter of operations also by its group;
-- the lock of a group is made together with that counter.
pub mod Joins
use perfrunner.Prelude.{
  ℕ, zero, suc, ◌+◌, Bool, true, false, List, [], ◌∷◌, ◌++◌, map, Option, none, some, if◌then◌else◌,
  ◌==◌,
}
use perfrunner.Prelude.Int.{pos, trunc_mul, as_ulong}
use perfrunner.Worker.{WorkloadSettings}
use perfrunner.Worker.Variants.{WorkerKind, FactorySettings, worker_factory}

-- The groups of workers.
pub data WorkerType : Type 0 where
  kv : (kind : WorkerKind) → WorkerType
  view_worker n1ql_worker : WorkerType

pub data SharedValue : Type 0 where
  curr_ops : (group : ℕ) → SharedValue
  curr_items deleted_items current_hot_load_start timer_elapse : SharedValue

-- A worker process with what it is given; none where the argument is left at None.
pub record Process : Type 0 where
  pub sid : ℕ
  pub worker_type : WorkerType
  pub ops : SharedValue
  pub items : SharedValue
  pub deleted : SharedValue
  pub hot_load_start : Option SharedValue
  pub elapse : Option SharedValue

pub data Action : Type 0 where
  new_value : (v : SharedValue) (n : ℕ) → Action
  set_value : (v : SharedValue) (n : ℕ) → Action
  start : (p : Process) → Action
  pause : Action
  start_timer start_hot_timer store_pid set_signal_handler : Action
  join : (p : Process) → Action
  cancel_timer stop_hot_timer : Action

-- The settings; `has_timer` says whether a time limit was given.
pub record GenSettings : Type 0 where
  pub workload : WorkloadSettings
  pub factory : FactorySettings
  pub query_workers : ℕ
  pub n1ql_workers : ℕ
  pub has_timer : Bool

abbrev pub is_moving : GenSettings → Bool
is_moving gs = if gs.workload.working_set_move_time == 0 then false else true

-- `n` processes, from the number `sid` on
unfoldable pub processes : (ℕ → Process) → ℕ → ℕ → List Process
processes make zero sid = []
processes make (suc n) sid = make sid ∷ processes make n (sid + 1)

abbrev pub launch : Bool → List Process → List Action
launch async [] = []
launch async (p ∷ ps) = start p ∷ (if async then pause ∷ launch async ps else launch async ps)

-- `start_workers`: the processes, and what is done.
unfoldable pub start_workers : GenSettings → ℕ → List Process → List Action
start_workers gs group ps = new_value (curr_ops group) 0 ∷ launch gs.factory.async ps

unfoldable pub kv_processes : GenSettings → List Process
unfolding processes worker_factory
kv_processes gs =
    processes
      (λ sid. record {
        sid = sid;
        worker_type = kv (worker_factory gs.factory).0;
        ops = curr_ops 0;
        items = curr_items;
        deleted = deleted_items;
        hot_load_start = some current_hot_load_start;
        elapse = some timer_elapse;
      })
      (worker_factory gs.factory).1 0

abbrev pub query_process : WorkerType → ℕ → ℕ → Process
query_process worker_type group sid = record {
  sid = sid;
  worker_type = worker_type;
  ops = curr_ops group;
  items = curr_items;
  deleted = deleted_items;
  hot_load_start = none;
  elapse = none;
}

unfoldable pub view_processes : GenSettings → List Process
unfolding processes
view_processes gs = processes (query_process view_worker 1) gs.query_workers 0

unfoldable pub n1ql_processes : GenSettings → List Process
unfolding processes
n1ql_processes gs = processes (query_process n1ql_worker 2) gs.n1ql_workers 0

-- `self.worker_processes` behind `start_all_workers`
unfoldable pub worker_processes : GenSettings → List Process
unfolding kv_processes view_processes n1ql_processes
worker_processes gs = kv_processes gs ++ (view_processes gs ++ n1ql_processes gs)

abbrev pub hot_start : GenSettings → List Action
hot_start gs =
    if is_moving gs
    then set_value current_hot_load_start
        (as_ulong (trunc_mul (pos gs.workload.items) gs.workload.working_set 100))
      ∷ []
    else []

-- `start_all_workers`
unfoldable pub start_all_workers : GenSettings → List Action
unfolding start_workers kv_processes view_processes n1ql_processes
start_all_workers gs =
    new_value curr_items (as_ulong (pos gs.workload.items))
    ∷ new_value deleted_items 0
    ∷ new_value current_hot_load_start 0
    ∷ new_value timer_elapse 0
    ∷ (hot_start gs
        ++ (start_workers gs 0 (kv_processes gs)
            ++ (start_workers gs 1 (view_processes gs) ++ start_workers gs 2 (n1ql_processes gs))))

abbrev pub no_limit : Option ℕ → Bool
no_limit none = true
no_limit (some n) = false

abbrev pub action_if : Bool → Action → List Action
action_if true a = a ∷ []
action_if false a = []

-- `start_timers`
unfoldable pub start_timers : GenSettings → List Action
start_timers gs =
    action_if (if gs.has_timer then no_limit gs.workload.ops else false) start_timer
    ++ action_if (is_moving gs) start_hot_timer

-- `stop_timers`
unfoldable pub stop_timers : GenSettings → List Action
stop_timers gs = action_if gs.has_timer cancel_timer ++ action_if (is_moving gs) stop_hot_timer

-- `wait_for_completion`
unfoldable pub wait_for_completion : List Process → List Action
wait_for_completion ps = map join ps

-- `WorkloadGen.run`
unfoldable pub run_workload : GenSettings → List Action
unfolding start_all_workers start_timers worker_processes wait_for_completion stop_timers
run_workload gs =
    start_all_workers gs
    ++ (start_timers gs
        ++ (store_pid
            ∷ set_signal_handler
            ∷ (wait_for_completion (worker_processes gs) ++ stop_timers gs)))
