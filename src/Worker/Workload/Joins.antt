-- ===== src/Worker/Workload/Joins.antt =====
-- About the order in which a workload makes shared values, starts processes and joins them
-- (spring/wgen.py).
use perfrunner.Prelude.{
  ℕ, zero, suc, ◌+◌, ◌≡◌, refl, sym, Bool, true, false, List, [], ◌∷◌, ◌++◌, Option, none, some,
  ◌⊎◌, inl, inr, All, All-append, Bool-cases, if◌then◌else◌,
}
use mathlib.Core.Path.{subst}
use mathlib.Core.List.{append_assoc, append-nil}
use perfrunner.Worker.Workload.{
  SharedValue, curr_ops, curr_items, deleted_items, current_hot_load_start, timer_elapse, Process,
  view_worker, n1ql_worker, Action, new_value, set_value, start, start_timer, start_hot_timer,
  store_pid, set_signal_handler, join, cancel_timer, stop_hot_timer, GenSettings, is_moving,
  processes, launch, start_workers, kv_processes, query_process, WorkerType, view_processes,
  n1ql_processes, worker_processes, hot_start, start_all_workers, no_limit, action_if, start_timers,
  stop_timers, wait_for_completion, run_workload,
}

IsMade : List SharedValue → SharedValue → Type 0
IsMade [] v = ⊥
IsMade (w ∷ made) v = (v ≡ w) ⊎ IsMade made v

IsMadeIfAny : List SharedValue → Option SharedValue → Type 0
IsMadeIfAny made none = Unit {0}
IsMadeIfAny made (some v) = IsMade made v

-- All values that a process is given have been made.
record HasValues (made : List SharedValue) (p : Process) : Type 0 where
  ops_made : IsMade made p.ops
  items_made : IsMade made p.items
  deleted_made : IsMade made p.deleted
  hot_made : IsMadeIfAny made p.hot_load_start
  elapse_made : IsMadeIfAny made p.elapse

-- The process is the first of those that run, and the others go on.
abbrev IsFirst : Process → List Process → (List Process → Type 0) → Type 0
IsFirst p [] go_on = ⊥
IsFirst p (q ∷ running) go_on = (p ≡ q) × go_on running

-- `running` are the processes that are started and not joined. Processes are joined in the order of
-- their start, none is left at the end, and a value is made before it is set or given to a process.
pub IsOrderly : List SharedValue → List Process → List Action → Type 0
IsOrderly made running [] = running ≡ []
IsOrderly made running (new_value v n ∷ more) = IsOrderly (v ∷ made) running more
IsOrderly made running (set_value v n ∷ more) = IsMade made v × IsOrderly made running more
IsOrderly made running (start p ∷ more) =
    HasValues made p × IsOrderly made (running ++ (p ∷ [])) more
IsOrderly made running (join p ∷ more) = IsFirst p running λ others. IsOrderly made others more
IsOrderly made running (_ ∷ more) = IsOrderly made running more

processes-All :
    (P : Process → Type 0) (make : ℕ → Process)
    → ((sid : ℕ) → P (make sid))
    → (n sid : ℕ) → All P (processes make n sid)
unfolding processes
processes-All P make fine zero sid = tt
processes-All P make fine (suc n) sid = (fine sid, processes-All P make fine n (sid + 1))

launch-IsOrderly :
    (async : Bool) (made : List SharedValue) (running ps : List Process) (more : List Action)
    → All (HasValues made) ps
    → IsOrderly made (running ++ ps) more
    → IsOrderly made running (launch async ps ++ more)
unfolding IsOrderly
launch-IsOrderly async made running [] more given left = rw (append-nil running) at left
launch-IsOrderly true made running (p ∷ ps) more given left =
    let left' : IsOrderly made ((running ++ (p ∷ [])) ++ ps) more =
      rw (append_assoc running (p ∷ []) ps) left in
    (given.0, launch-IsOrderly true made (running ++ (p ∷ [])) ps more given.1 left')
launch-IsOrderly false made running (p ∷ ps) more given left =
    let left' : IsOrderly made ((running ++ (p ∷ [])) ++ ps) more =
      rw (append_assoc running (p ∷ []) ps) left in
    (given.0, launch-IsOrderly false made (running ++ (p ∷ [])) ps more given.1 left')

start_workers-IsOrderly :
    (gs : GenSettings) (group : ℕ) (made : List SharedValue) (running ps : List Process)
    (more : List Action)
    → All (HasValues (curr_ops group ∷ made)) ps
    → IsOrderly (curr_ops group ∷ made) (running ++ ps) more
    → IsOrderly made running (start_workers gs group ps ++ more)
unfolding start_workers IsOrderly
start_workers-IsOrderly gs group made running ps more given left =
    launch-IsOrderly gs.factory.async (curr_ops group ∷ made) running ps more given left

-- Behind the last start every process is joined.
wait-IsOrderly :
    (made : List SharedValue) (ps : List Process) (more : List Action)
    → IsOrderly made [] more
    → IsOrderly made ps (wait_for_completion ps ++ more)
unfolding wait_for_completion IsOrderly
wait-IsOrderly made [] more left = left
wait-IsOrderly made (p ∷ ps) more left = (refl, wait-IsOrderly made ps more left)

-- Values that are neither made nor given, and no process.
abbrev IsQuiet : Action → Type 0
IsQuiet (new_value v n) = ⊥
IsQuiet (set_value v n) = ⊥
IsQuiet (start p) = ⊥
IsQuiet (join p) = ⊥
IsQuiet _ = Unit {0}

quiet-IsOrderly :
    (made : List SharedValue) (running : List Process) (quiet more : List Action)
    → All IsQuiet quiet
    → IsOrderly made running more
    → IsOrderly made running (quiet ++ more)
unfolding IsOrderly
quiet-IsOrderly made running [] more all left = left
quiet-IsOrderly made running (new_value v n ∷ quiet) more all left = absurd all.0
quiet-IsOrderly made running (set_value v n ∷ quiet) more all left = absurd all.0
quiet-IsOrderly made running (start p ∷ quiet) more all left = absurd all.0
quiet-IsOrderly made running (join p ∷ quiet) more all left = absurd all.0
quiet-IsOrderly made running (_ ∷ quiet) more all left =
    quiet-IsOrderly made running quiet more all.1 left

action_if-IsQuiet : (b : Bool) (a : Action) → IsQuiet a → All IsQuiet (action_if b a)
action_if-IsQuiet true a quiet = (quiet, tt)
action_if-IsQuiet false a quiet = tt

hot_start-IsOrderly :
    (gs : GenSettings) (made : List SharedValue) (running : List Process) (more : List Action)
    → IsMade made current_hot_load_start
    → IsOrderly made running more
    → IsOrderly made running (hot_start gs ++ more)
unfolding IsOrderly
hot_start-IsOrderly gs made running more is_made left = elim (Bool-cases (is_moving gs)) [
  | inl moving ↦ rw moving (is_made, left)
  | inr still ↦ rw still left
]

abbrev shared_values : List SharedValue
shared_values = timer_elapse ∷ current_hot_load_start ∷ deleted_items ∷ curr_items ∷ []

IsMade-behind :
    (v : SharedValue) (before made : List SharedValue) → IsMade made v → IsMade (before ++ made) v
unfolding IsMade
IsMade-behind v [] made known = known
IsMade-behind v (w ∷ before) made known = inr (IsMade-behind v before made known)

query-HasValues :
    (worker_type : WorkerType) (group : ℕ) (before : List SharedValue) (sid : ℕ)
    → HasValues (curr_ops group ∷ (before ++ shared_values)) (query_process worker_type group sid)
unfolding IsMade IsMadeIfAny
query-HasValues worker_type group before sid = record {
  ops_made = inl refl;
  items_made = inr (IsMade-behind _ before shared_values (inr (inr (inr (inl refl)))));
  deleted_made = inr (IsMade-behind _ before shared_values (inr (inr (inl refl))));
  hot_made = tt;
  elapse_made = tt;
}

kv_processes-HasValues :
    (gs : GenSettings) → All (HasValues (curr_ops 0 ∷ shared_values)) (kv_processes gs)
unfolding kv_processes IsMade IsMadeIfAny
kv_processes-HasValues gs =
    processes-All (HasValues (curr_ops 0 ∷ shared_values)) _
      (λ sid. record {
        ops_made = inl refl;
        items_made = inr (inr (inr (inr (inl refl))));
        deleted_made = inr (inr (inr (inl refl)));
        hot_made = inr (inr (inl refl));
        elapse_made = inr (inl refl);
      })
      _ 0

-- The end of a run, with the processes of all groups running.
ending-IsOrderly :
    (gs : GenSettings) (made : List SharedValue) (ps : List Process)
    → IsOrderly made ps (
        start_timers gs
        ++ (store_pid ∷ set_signal_handler ∷ (wait_for_completion ps ++ stop_timers gs)))
unfolding IsOrderly start_timers stop_timers
ending-IsOrderly gs made ps =
    let starting =
      All-append IsQuiet
        (action_if (if gs.has_timer then no_limit gs.workload.ops else false) start_timer) _
        (action_if-IsQuiet _ start_timer tt)
        (action_if-IsQuiet (is_moving gs) start_hot_timer tt) in
    let stopping =
      All-append IsQuiet (action_if gs.has_timer cancel_timer) _
        (action_if-IsQuiet _ cancel_timer tt)
        (action_if-IsQuiet (is_moving gs) stop_hot_timer tt) in
    let over : IsOrderly made [] (stop_timers gs ++ []) =
      quiet-IsOrderly made [] (stop_timers gs) [] stopping refl in
    let stopped : IsOrderly made [] (stop_timers gs) = rw (append-nil (stop_timers gs)) at over in
    quiet-IsOrderly made ps (start_timers gs) _ starting
      (wait-IsOrderly made ps (stop_timers gs) stopped)

groups-IsOrderly :
    (gs : GenSettings) (kvs views n1qls : List Process) (more : List Action)
    → All (HasValues (curr_ops 0 ∷ shared_values)) kvs
    → All (HasValues (curr_ops 1 ∷ curr_ops 0 ∷ shared_values)) views
    → All (HasValues (curr_ops 2 ∷ curr_ops 1 ∷ curr_ops 0 ∷ shared_values)) n1qls
    → IsOrderly
        (curr_ops 2 ∷ curr_ops 1 ∷ curr_ops 0 ∷ shared_values)
        (kvs ++ (views ++ n1qls))
        more
    → IsOrderly shared_values [] (
        (hot_start gs
          ++ (start_workers gs 0 kvs ++ (start_workers gs 1 views ++ start_workers gs 2 n1qls)))
        ++ more)
unfolding IsMade
groups-IsOrderly gs kvs views n1qls more given0 given1 given2 left =
    let left' : IsOrderly (curr_ops 2 ∷ curr_ops 1 ∷ curr_ops 0 ∷ shared_values)
        ((kvs ++ views) ++ n1qls) more =
      rw (append_assoc kvs views n1qls) left in
    let n1ql = start_workers-IsOrderly gs 2 _ (kvs ++ views) n1qls more given2 left' in
    let view = start_workers-IsOrderly gs 1 _ kvs views _ given1 n1ql in
    let all = start_workers-IsOrderly gs 0 _ [] kvs _ given0 view in
    let hot = hot_start-IsOrderly gs shared_values [] _ (inr (inl refl)) all in
    let a : List Action = hot_start gs in
    let b = start_workers gs 0 kvs in
    let c = start_workers gs 1 views in
    let d = start_workers gs 2 n1qls in
    let flat : (a ++ (b ++ (c ++ d))) ++ more ≡ a ++ (b ++ (c ++ (d ++ more))) =
      simp append_assoc in
    subst (λ todo. IsOrderly shared_values [] todo) (sym flat) hot

-- In every run of a workload each process is joined, in the order of the starts, and none is left; a
-- value that is given to a process, or set, has been made before.
pub run_workload-IsOrderly : (gs : GenSettings) → IsOrderly [] [] (run_workload gs)
unfolding IsOrderly run_workload start_all_workers worker_processes view_processes n1ql_processes
run_workload-IsOrderly gs =
    groups-IsOrderly gs (kv_processes gs) (view_processes gs) (n1ql_processes gs) _
      (kv_processes-HasValues gs)
      (processes-All _ _ (query-HasValues view_worker 1 (curr_ops 0 ∷ [])) _ 0)
      (processes-All _ _ (query-HasValues n1ql_worker 2 (curr_ops 1 ∷ curr_ops 0 ∷ [])) _ 0)
      (ending-IsOrderly gs _ (worker_processes gs))
