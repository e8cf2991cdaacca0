-- ===== src/WorkerManager.antt =====
-- The managers of perfrunner/helpers/worker.py, which hand the tasks of a phase to Celery workers. The
-- answers of Celery and of the broker's database are functions of the poll; a task is known by what it
-- is applied to. Pauses and messages to the log are left out.
pub mod Turns
use perfrunner.Prelude.{
  ℕ, zero, suc, ◌+◌, Bool, true, false, List, [], ◌∷◌, ◌++◌, Option, none, some, Result, ok, err,
  stop_iteration, ◌>>=◌, ◌==◌, ltb, if◌then◌else◌, get_elem?, length,
}
use perfrunner.Text.{Text, codes}
use perfrunner.Config.Targets.{TargetSettings}
use perfrunner.Monitor.Indexing.{poll_until}

-- `itertools.cycle` over the workers: the next one is that at `position`, or the first one.
pub record Cycle : Type 0 where
  pub workers : List Text
  pub position : ℕ

abbrev pub cycle : List Text → Cycle
cycle workers = record { workers = workers; position = 0 }

abbrev from_first : Cycle → Option Text → Result (Text × Cycle)
from_first c none = err stop_iteration
from_first c (some w) = ok (w, record c { position = 1 })

abbrev pub next_of : Cycle → Option Text → Result (Text × Cycle)
next_of c (some w) = ok (w, record c { position = c.position + 1 })
next_of c none = from_first c (get_elem? c.workers 0)

-- `next(self.workers)`
unfoldable pub next_in_cycle : Cycle → Result (Text × Cycle)
next_in_cycle c = next_of c (get_elem? c.workers c.position)

-- `WorkerManager`: which of the two classes there is, and its cycle. A local manager has none before
-- `reset_workers` makes one, which it does not use.
pub data Manager : Type 0 where
  remote_manager : Cycle → Manager
  local_manager : Manager

abbrev pub with_cycle : Result (Text × Cycle) → Result (Text × Manager)
with_cycle r = r >>= λ next. ok (next.0, remote_manager next.1)

-- `next_worker`
unfoldable pub next_worker : Manager → Result (Text × Manager)
unfolding next_in_cycle
next_worker (remote_manager c) = with_cycle (next_in_cycle c)
next_worker local_manager = ok (codes "localhost", local_manager)

-- `reset_workers`, with the workers of the cluster's specification
unfoldable pub reset_workers : List Text → Manager → Manager
reset_workers workers (remote_manager c) = remote_manager (cycle workers)
reset_workers workers local_manager = local_manager

-- A task as it is applied: its queue, its target, the time limit of the phase, which is also that of
-- the task in the queue, and the number of the instance.
pub record Task : Type 0 where
  pub queue : Text
  pub target : TargetSettings
  pub timer : Option ℕ
  pub instance_number : ℕ

-- The inner loop of `run_tasks`: `n` instances of a target, from the number `i` on
unfoldable pub run_instances :
    Option ℕ → TargetSettings → ℕ → ℕ → Manager → Result (List Task × Manager)
unfolding next_worker
run_instances timer target zero i m = ok ([], m)
run_instances timer target (suc n) i m = next_worker m >>= λ next.
    run_instances timer target n (i + 1) next.1 >>= λ rest. ok (
      record { queue = next.0; target = target; timer = timer; instance_number = i } ∷ rest.0,
      rest.1,
    )

-- The outer loop of `run_tasks`
unfoldable pub run_targets :
    Option ℕ → ℕ → List TargetSettings → Manager → Result (List Task × Manager)
unfolding run_instances
run_targets timer workload_instances [] m = ok ([], m)
run_targets timer workload_instances (t ∷ ts) m =
    run_instances timer t workload_instances 0 m >>= λ now.
    run_targets timer workload_instances ts now.1 >>= λ rest. ok (now.0 ++ rest.0, rest.1)

-- `run_tasks`: the tasks, in the order of `self.async_results`
unfoldable pub run_tasks :
    Bool → List Text → Option ℕ → ℕ → List TargetSettings → Manager → Result (List Task × Manager)
unfolding reset_workers run_targets
run_tasks is_reset workers timer workload_instances targets m =
    run_targets timer workload_instances targets (if is_reset then reset_workers workers m else m)

-- The calls of `__init__`, but for the wait.
pub data Start : Type 0 where
  terminate_client_processes init_repo install_clients : Start
  start_celery_worker : (worker : Text) → Start
  kill_celery start_local_worker : Start
  tune_sqlite : (db : Text) → Start

abbrev start_each : List Text → List Start
start_each [] = []
start_each (w ∷ ws) = start_celery_worker w ∷ start_each ws

-- `__init__` of either class: `terminate`, `tune_sqlite` of the local one, and `start`
unfoldable pub start_manager : Bool → List Text → List Start × Manager
start_manager true workers = (
  terminate_client_processes ∷ init_repo ∷ install_clients ∷ start_each workers,
  remote_manager (cycle workers),
)
start_manager false workers = (
  kill_celery
      ∷ tune_sqlite (codes "perfrunner.db")
      ∷ tune_sqlite (codes "results.db")
      ∷ start_local_worker
      ∷ [],
  local_manager,
)

-- `wait_until_workers_are_ready` of the remote manager: the poll that ends it; `responses` says how many
-- workers answer to a ping.
unfoldable pub wait_until_remote : (ℕ → ℕ) → List Text → ℕ → Option ℕ
unfolding poll_until
wait_until_remote responses workers fuel =
    poll_until (λ poll. responses poll == length workers) fuel 0

-- That of the local manager; none where the table of queues is not there yet, else the count.
unfoldable pub wait_until_local : (ℕ → Option ℕ) → ℕ → Option ℕ
unfolding poll_until
wait_until_local count fuel =
    poll_until (λ poll. elim (count poll) [ none ↦ false | some n ↦ ltb 0 n ]) fuel 0
