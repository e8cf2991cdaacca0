-- ===== src/Cluster/Formation/Forming.antt =====
-- About `add_nodes` and `rebalance` together (perfrunner/helpers/cluster.py).
use perfrunner.Prelude.{
  zero, suc, ◌+◌, ◌-◌, ◌≤◌, sym, Bool, true, false, ◌++◌, Option, none, some, Result, err, arith,
  if◌then◌else◌, Bool-cases, Option-cases, inl, inr, length, take, drop, slice, All-append,
  All-take, All-drop, All-mono,
}
use perfrunner.Prelude
use perfrunner.Text.{Text}
use perfrunner.Cluster.{Run, ◌>>◌, Answers, ClusterManager}
use perfrunner.Cluster.Nodes.{add_nodes, rebalance_clusters}

-- `add_nodes` and then `rebalance`
abbrev pub form_clusters : Answers → ClusterManager → Run (Unit {0})
form_clusters answers m = add_nodes m >> rebalance_clusters answers m
