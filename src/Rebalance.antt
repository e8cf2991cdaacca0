-- ===== src/Rebalance.antt =====
-- Which nodes join, leave and fail in the tests of perfrunner/tests/rebalance.py, as the list of the
-- calls on the REST client and on the monitor.
pub mod Nodes
pub mod Failover
use perfrunner.Prelude.{
  ℕ, zero, suc, ◌+◌, ◌-◌, Bool, true, false, List, [], ◌∷◌, ◌++◌, map, Option, none, some, Result,
  ok, err, index_error, ◌>>=◌, ltb, ◌==◌, if◌then◌else◌, length, take, slice,
}
use perfrunner.Prelude.Int.{ℤ, pos, negsuc, ◌-ℤ◌}
use perfrunner.Text.{Text}

-- A bound of a slice: a negative one counts from the end, and stops at the beginning.
abbrev pub bound : ℕ → ℤ → ℕ
bound len (pos n) = n
bound len (negsuc n) = len - suc n

-- xs[lo:hi]
unfoldable pub py_slice {ℓ} : {A : Type ℓ} → ℤ → ℤ → List A → List A
py_slice lo hi xs = slice (bound (length xs) lo) (bound (length xs) hi) xs

-- The nodes of one step, as `RebalanceTest._rebalance` names them.
pub record Plan : Type 0 where
  pub new_nodes : List Text
  pub known_nodes : List Text
  pub ejected_nodes : List Text

-- The branches of `_rebalance`; none stands for `continue`.
unfoldable pub rebalance_plan : List Text → ℕ → ℕ → ℕ → Option Plan
unfolding py_slice
rebalance_plan servers initial_nodes nodes_after swap =
    if ltb initial_nodes nodes_after
    then some (record {
      new_nodes = slice initial_nodes nodes_after servers;
      known_nodes = take nodes_after servers;
      ejected_nodes = [];
    })
    else if ltb nodes_after initial_nodes
    then some (record {
      new_nodes = [];
      known_nodes = take initial_nodes servers;
      ejected_nodes = slice nodes_after initial_nodes servers;
    })
    else if swap == 0
    then none
    else some (record {
      new_nodes = slice initial_nodes (initial_nodes + swap) servers;
      known_nodes = take (initial_nodes + swap) servers;
      ejected_nodes = py_slice (pos initial_nodes -ℤ pos swap) (pos initial_nodes) servers;
    })

pub data Call : Type 0 where
  add_node : (master node : Text) → Call
  rebalance : (master : Text) (known_nodes ejected_nodes : List Text) → Call
  monitor_progress : (master : Text) → Call
  fail_over graceful_fail_over add_back set_delta_recovery_type : (master node : Text) → Call
  shutdown : (node : Text) → Call
  set_write_permissions : (perm node path : Text) → Call

abbrev pub master_of : List Text → Result Text
master_of [] = err index_error
master_of (s ∷ ss) = ok s

-- The calls for one step.
unfoldable pub plan_calls : Text → Option Plan → List Call
plan_calls master none = []
plan_calls master (some p) =
    map (add_node master) p.new_nodes
    ++ (rebalance master p.known_nodes p.ejected_nodes ∷ monitor_progress master ∷ [])

-- `RebalanceTest._rebalance`: the clusters are zipped with their numbers of nodes. The services of a
-- new node, which are passed on, are left out. A cluster without
-- servers raises an exception; the calls made before it are not kept.
unfoldable pub rebalance_calls : ℕ → List (List Text) → List ℕ → List ℕ → Result (List Call)
unfolding rebalance_plan plan_calls
rebalance_calls swap (servers ∷ clusters) (i ∷ initial_nodes) (a ∷ nodes_after) =
    master_of servers >>= λ master.
    rebalance_calls swap clusters initial_nodes nodes_after >>= λ calls.
    ok (plan_calls master (rebalance_plan servers i a swap) ++ calls)
rebalance_calls swap [] initial_nodes nodes_after = ok []
rebalance_calls swap (servers ∷ clusters) [] nodes_after = ok []
rebalance_calls swap (servers ∷ clusters) (i ∷ initial_nodes) [] = ok []

-- The nodes that fail: servers[initial_nodes - failed_nodes:initial_nodes]
unfoldable pub failed_of : List Text → ℕ → ℕ → List Text
unfolding py_slice
failed_of servers initial_nodes failed_nodes =
    py_slice (pos initial_nodes -ℤ pos failed_nodes) (pos initial_nodes) servers

-- One node of `RecoveryTest._failover`; `hard` is `failover == 'hard'`
unfoldable pub fail_node : Bool → Text → Text → List Call
fail_node true master node = fail_over master node ∷ add_back master node ∷ []
fail_node false master node =
    graceful_fail_over master node ∷ monitor_progress master ∷ add_back master node ∷ []

abbrev fail_nodes : Bool → Text → List Text → List Call
fail_nodes hard master [] = []
fail_nodes hard master (n ∷ ns) = fail_node hard master n ++ fail_nodes hard master ns

-- `RecoveryTest._failover`
unfoldable pub recovery_calls : Bool → Bool → ℕ → List (List Text) → List ℕ → Result (List Call)
unfolding failed_of fail_node
recovery_calls hard delta failed_nodes (servers ∷ clusters) (i ∷ initial_nodes) =
    master_of servers >>= λ master.
    recovery_calls hard delta failed_nodes clusters initial_nodes >>= λ calls.
    let failed = failed_of servers i failed_nodes in
    ok (
      fail_nodes hard master failed
      ++ ((if delta then map (set_delta_recovery_type master) failed else []) ++ calls))
recovery_calls hard delta failed_nodes [] initial_nodes = ok []
recovery_calls hard delta failed_nodes (servers ∷ clusters) [] = ok []

-- `RecoveryTest._rebalance`
unfoldable pub recovery_rebalance_calls : List (List Text) → List ℕ → Result (List Call)
recovery_rebalance_calls (servers ∷ clusters) (i ∷ initial_nodes) = master_of servers >>= λ master.
    recovery_rebalance_calls clusters initial_nodes >>= λ calls.
    ok (rebalance master (take i servers) [] ∷ monitor_progress master ∷ calls)
recovery_rebalance_calls [] initial_nodes = ok []
recovery_rebalance_calls (servers ∷ clusters) [] = ok []
