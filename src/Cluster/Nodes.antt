-- ===== src/Cluster/Nodes.antt =====
-- The nodes of perfrunner/helpers/cluster.py: paths, names, services, and how the nodes are joined.
use perfrunner.Prelude.{ℕ, zero, suc, List, [], ◌∷◌, ◌++◌, if◌then◌else◌}
use perfrunner.Prelude.Int.{ℤ, pos, ltb_ℤ, to_ℕ}
use perfrunner.Text.{Text, codes, render}
use perfrunner.Config.{
  Options, servers, servers_by_role, roles_of, data_path, index_path, analytics_paths, first_server,
}
use perfrunner.Rebalance.{py_slice}
use perfrunner.Cluster.{
  Call, change_owner, set_data_path, set_index_path, set_analytics_paths, rename, set_auth,
  set_services, add_node, rebalance, monitor_rebalance, monitor_node_health,
  monitor_analytics_node_active, Run, lift, return, say, ◌>>=◌, ◌>>◌, for_each, for_masters,
  ClusterManager, Answers, cluster_hosts, is_compatible,
}

abbrev pub set_path : (Text → Text → Call) → Text → Text → Run (Unit {0})
set_path set path server = say (change_owner server path) >> say (set server path)

-- `ClusterManager.set_data_path`; the path is read for each server anew, so that without servers
-- its absence is not noticed.
unfoldable pub set_data_paths : ClusterManager → Run (Unit {0})
set_data_paths m =
    for_each (λ server. lift (data_path m.spec) >>= λ path. set_path set_data_path path server)
      (servers m.items)

-- `ClusterManager.set_index_path`
unfoldable pub set_index_paths : ClusterManager → Run (Unit {0})
set_index_paths m =
    for_each (λ server. lift (index_path m.spec) >>= λ path. set_path set_index_path path server)
      (servers m.items)

-- '{}/dev{}'.format(path, i) for the devices i from `i` on
unfoldable pub devices : Text → ℕ → ℕ → List Text
devices path zero i = []
devices path (suc n) i = (path ++ (codes "/dev" ++ render 10 i)) ∷ devices path n (suc i)

unfoldable pub io_devices : ℕ → List Text → List Text
unfolding devices
io_devices n [] = []
io_devices n (path ∷ paths) = devices path n 0 ++ io_devices n paths

-- `ClusterManager.set_analytics_path`, with `AnalyticsSettings.num_io_devices`
unfoldable pub set_analytics_path : ℤ → ClusterManager → Run (Unit {0})
unfolding io_devices
set_analytics_path num_io_devices m =
    let paths = analytics_paths m.spec in
    lift (servers_by_role (codes "cbas") m.items) >>= λ nodes.
    for_each
      (λ server.
        for_each (λ path. say (change_owner server path)) paths
        >> say (set_analytics_paths server (io_devices (to_ℕ num_io_devices) paths)))
      nodes

-- `ClusterManager.rename` and `ClusterManager.set_auth`
unfoldable pub rename_nodes : ClusterManager → Run (Unit {0})
rename_nodes m = for_each (λ server. say (rename server)) (servers m.items)

unfoldable pub set_auth_of_nodes : ClusterManager → Run (Unit {0})
set_auth_of_nodes m = for_each (λ server. say (set_auth server)) (servers m.items)

-- `ClusterManager.set_services`
unfoldable pub set_master_services : Answers → ClusterManager → Run (Unit {0})
set_master_services answers m = is_compatible answers m (codes "4.0.0") >>= λ compatible.
    if compatible
    then for_masters
        (λ master.
          lift (roles_of master m.items) >>= λ services. say (set_services master services))
        (cluster_hosts m)
    else return tt

-- The inner loop of `ClusterManager.add_nodes`
unfoldable pub add_each : Options → Text → List Text → Run (Unit {0})
add_each items master nodes =
    for_each (λ node. lift (roles_of node items) >>= λ roles. say (add_node master node roles))
      nodes

-- `ClusterManager.add_nodes`: the clusters are zipped with their numbers of nodes.
unfoldable pub add_nodes_to : Options → List (List Text) → List ℤ → Run (Unit {0})
unfolding add_each py_slice
add_nodes_to items [] initial_nodes = return tt
add_nodes_to items (ss ∷ clusters) [] = return tt
add_nodes_to items (ss ∷ clusters) (n ∷ initial_nodes) =
    (if ltb_ℤ n (pos 2)
      then return tt
      else (lift (first_server ss) >>= λ master. add_each items master (py_slice (pos 1) n ss)))
    >> add_nodes_to items clusters initial_nodes

unfoldable pub add_nodes : ClusterManager → Run (Unit {0})
unfolding add_nodes_to
add_nodes m = add_nodes_to m.items (cluster_hosts m) m.cluster.initial_nodes

-- `ClusterManager.wait_until_healthy`
unfoldable pub wait_until_healthy : Answers → ClusterManager → Run (Unit {0})
wait_until_healthy answers m =
    for_masters
      (λ master.
        say (monitor_node_health master)
        >> for_each (λ node. say (monitor_analytics_node_active node))
            (answers.active_analytics_nodes master))
      (cluster_hosts m)

-- The loop of `ClusterManager.rebalance`
unfoldable pub rebalance_each : List (List Text) → List ℤ → Run (Unit {0})
unfolding py_slice
rebalance_each [] initial_nodes = return tt
rebalance_each (ss ∷ clusters) [] = return tt
rebalance_each (ss ∷ clusters) (n ∷ initial_nodes) = lift (first_server ss) >>= λ master.
    say (rebalance master (py_slice (pos 0) n ss) [])
    >> say (monitor_rebalance master)
    >> rebalance_each clusters initial_nodes

-- `ClusterManager.rebalance`
unfoldable pub rebalance_clusters : Answers → ClusterManager → Run (Unit {0})
unfolding rebalance_each wait_until_healthy
rebalance_clusters answers m =
    rebalance_each (cluster_hosts m) m.cluster.initial_nodes >> wait_until_healthy answers m
