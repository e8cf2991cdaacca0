-- ===== src/Monitor.antt =====
-- The polling loops of perfrunner/helpers/monitor.py. The answers of the cluster are arguments, one
-- for each poll; so is the clock, in seconds, where a loop reads it. Sleeping and logging are left
-- out, but for the messages that tell a failure.
pub mod Retries
pub mod Queues
pub mod Indexing
pub mod Replication
pub mod Xdcr
use perfrunner.Prelude.{
  ℕ, zero, suc, ◌+◌, ◌-◌, ◌*◌, Bool, true, false, not, ◌&&◌, List, [], ◌∷◌, Option, none, some,
  Result, ok, err, runtime_error, interrupted, ltb, leb, ◌==◌, if◌then◌else◌,
}
use perfrunner.Prelude.Int.{ℤ, pos, negsuc}
use perfrunner.Text.{Text, codes, eq_text}

abbrev pub max_retry : ℕ
max_retry = 150

abbrev pub max_retry_recovery : ℕ
max_retry_recovery = 1200

abbrev pub max_retry_timer_event : ℕ
max_retry_timer_event = 18000

abbrev pub max_retry_bootstrap : ℕ
max_retry_bootstrap = 1200

abbrev pub polling_interval : ℕ
polling_interval = 2

abbrev pub rebalance_timeout : ℕ
rebalance_timeout = 3600 * 6

abbrev pub timeout : ℕ
timeout = 3600 * 12

-- `while retry < MAX: if done: break; retry += 1`: the last value of `retry`, which is MAX if no poll
-- is done. `tries` is what is left, MAX - retry.
unfoldable pub poll_retries : (ℕ → Bool) → ℕ → ℕ → ℕ
poll_retries done zero retry = retry
poll_retries done (suc tries) retry =
    let rest = poll_retries done tries (retry + 1) in if done retry then retry else rest

-- Whether the loop that begins at 1 ends with `retry == MAX`.
unfoldable pub gives_up : (ℕ → Bool) → ℕ → Bool
unfolding poll_retries
gives_up done max = poll_retries done (max - 1) 1 == max

-- `function in apps`
unfoldable pub contains : Text → List Text → Bool
contains t [] = false
contains t (u ∷ us) = let rest = contains t us in if eq_text t u then true else rest

-- `wait_for_function_status`: whether the failure is logged
unfoldable pub wait_for_function_status : Text → (ℕ → List Text) → Bool
unfolding gives_up contains
wait_for_function_status function apps =
    gives_up (λ retry. contains function (apps retry)) max_retry_timer_event

-- `wait_for_timer_event`: whether the failure is logged
unfoldable pub wait_for_timer_event : (ℕ → ℕ) → Bool
unfolding gives_up
wait_for_timer_event processed = gives_up (λ retry. ltb 0 (processed retry)) max_retry_timer_event

-- `wait_for_all_mutations_processed`: whether the failure is logged
unfoldable pub wait_for_all_mutations_processed : (ℕ → ℕ) → (ℕ → ℕ) → Bool
unfolding gives_up
wait_for_all_mutations_processed items1 items2 =
    gives_up (λ retry. items1 retry == items2 retry) max_retry_bootstrap

-- `wait_for_all_timer_creation`: whether the failure is logged
unfoldable pub wait_for_all_timer_creation : (ℕ → ℕ) → (ℕ → ℕ) → Bool
unfolding gives_up
wait_for_all_timer_creation mutations responses =
    gives_up (λ retry. mutations retry == responses retry) max_retry_timer_event

-- `wait_for_bootstrap`: the nodes whose failure is logged
unfoldable pub wait_for_bootstrap : List Text → Text → (Text → ℕ → List Text) → List Text
unfolding gives_up contains
wait_for_bootstrap [] function apps = []
wait_for_bootstrap (node ∷ nodes) function apps =
    let rest = wait_for_bootstrap nodes function apps in
    if gives_up (λ retry. contains function (apps node retry)) max_retry_bootstrap
    then node ∷ rest
    else rest

-- The loop of `wait_for_num_connections`, which reads before it counts; `connections i` is the answer
-- to the i-th poll, `curr` the last answer.
unfoldable pub poll_connections : (ℕ → ℕ) → ℕ → ℕ → ℕ → ℕ → ℕ
poll_connections connections expected zero curr retry = retry
poll_connections connections expected (suc tries) curr retry =
    let rest = poll_connections connections expected tries (connections retry) (retry + 1) in
    if ltb curr expected then rest else retry

-- `wait_for_num_connections`
unfoldable pub wait_for_num_connections : (ℕ → ℕ) → ℕ → Bool
unfolding poll_connections
wait_for_num_connections connections expected =
    not (poll_connections connections expected (max_retry - 1) (connections 0) 1 == max_retry)

-- `for retry in range(MAX): if done: break`, with `else` behind it: whether the `else` runs.
unfoldable pub exhausts : (ℕ → Bool) → ℕ → ℕ → Bool
exhausts done zero retry = true
exhausts done (suc tries) retry =
    let rest = exhausts done tries (retry + 1) in if done retry then false else rest

-- `monitor_num_items`
unfoldable pub monitor_num_items : (ℕ → ℕ) → ℕ → Result (Unit {0})
unfolding exhausts
monitor_num_items curr_items num_items =
    if exhausts (λ retry. curr_items retry == num_items) max_retry 0
    then err (runtime_error "Mismatch in the number of items")
    else ok tt

-- Whether a node is not healthy in one of the two answers.
unfoldable pub any_unhealthy : List (Text × Text) → Bool
any_unhealthy [] = false
any_unhealthy (n ∷ ns) =
    let rest = any_unhealthy ns in if eq_text n.1 (codes "healthy") then rest else true

-- `monitor_node_health`
unfoldable pub monitor_node_health :
    (ℕ → List (Text × Text)) → (ℕ → List (Text × Text)) → Result (Unit {0})
unfolding exhausts any_unhealthy
monitor_node_health statuses statuses_v2 =
    if exhausts
      (λ retry. not (any_unhealthy (statuses retry)) && not (any_unhealthy (statuses_v2 retry)))
      max_retry 0
    then err (interrupted "Some nodes are not healthy")
    else ok tt

-- `monitor_analytics_node_active`
unfoldable pub monitor_analytics_node_active : (ℕ → Bool) → Result (Unit {0})
unfolding exhausts
monitor_analytics_node_active active =
    if exhausts active max_retry 0
    then err (interrupted "Analytics node still not healthy")
    else ok tt

-- All servers of the specification are up.
unfoldable pub all_up : (Text → Bool) → List Text → Bool
all_up is_up [] = true
all_up is_up (s ∷ ss) = let rest = all_up is_up ss in if is_up s then rest else false

-- `wait_for_servers`
unfoldable pub wait_for_servers : List Text → (ℕ → Text → Bool) → Result (Unit {0})
unfolding exhausts all_up
wait_for_servers servers is_up =
    if exhausts (λ retry. all_up (is_up retry) servers) max_retry 0
    then err (interrupted "Some nodes are still down")
    else ok tt

-- The loop of `wait_for_recovery`: the first answer that has the item, or -1.
unfoldable pub poll_recovery : (ℕ → Option ℕ) → ℕ → ℕ → ℤ
poll_recovery load_duration zero retry = negsuc 0
poll_recovery load_duration (suc tries) retry =
    let rest = poll_recovery load_duration tries (retry + 1) in
    elim (load_duration retry) [ none ↦ rest | some duration ↦ pos duration ]

-- `wait_for_recovery`
unfoldable pub wait_for_recovery : (ℕ → Option ℕ) → ℤ
unfolding poll_recovery
wait_for_recovery load_duration = poll_recovery load_duration max_retry_recovery 0
