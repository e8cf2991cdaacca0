-- ===== src/Cluster/Reach/Nodes.antt =====
-- About the servers that are named when nodes are prepared and joined (perfrunner/helpers/cluster.py).
use perfrunner.Prelude.{
  List, [], ◌∷◌, All, All-append, All-take, All-drop, Bool-cases, inl, inr, drop,
}
use perfrunner.Prelude.Int.{ℤ, pos, ltb_ℤ, to_ℕ}
use perfrunner.Text.{Text, codes}
use perfrunner.Config.{roles_of, first_server, data_path, index_path, analytics_paths}
use perfrunner.Config.Listed.{Listed, clusters-Listed}
use perfrunner.Rebalance.{py_slice}
use perfrunner.Cluster
use perfrunner.Cluster.{
  Call, Run, lift, return, say, ◌>>=◌, ◌>>◌, for_each, for_masters, hosts, ClusterManager, Answers,
  cluster_hosts, is_compatible, version_reached,
}
use perfrunner.Cluster.Nodes.{
  set_path, io_devices, set_data_paths, set_index_paths, set_analytics_path, rename_nodes,
  set_auth_of_nodes, set_master_services, add_each, add_nodes_to, add_nodes, rebalance_each,
  rebalance_clusters, wait_until_healthy,
}
use perfrunner.Cluster.Reach.{
  Reaches, bind-Reaches, seq-Reaches, lift-Reaches, Listed-loop-Reaches, any_loop-Reaches,
  for_masters-Reaches, for_servers-Reaches, role_loop-Reaches, when-Reaches,
}

module _ (m : ClusterManager) where
  pub set_data_paths-Reaches : Reaches m.items (set_data_paths m)
  unfolding set_data_paths
  set_data_paths-Reaches =
      for_servers-Reaches m.items
        (λ h. lift (data_path m.spec) >>= λ path. set_path Cluster.set_data_path path h)
        λ h k.
          lift-Reaches m.items (data_path m.spec) (λ path. set_path Cluster.set_data_path path h)
            λ path _. ((k, tt), ((k, tt), tt))

  pub set_index_paths-Reaches : Reaches m.items (set_index_paths m)
  unfolding set_index_paths
  set_index_paths-Reaches =
      for_servers-Reaches m.items
        (λ h. lift (index_path m.spec) >>= λ path. set_path Cluster.set_index_path path h)
        λ h k.
          lift-Reaches m.items (index_path m.spec) (λ path. set_path Cluster.set_index_path path h)
            λ path _. ((k, tt), ((k, tt), tt))

  pub set_analytics_path-Reaches : (n : ℤ) → Reaches m.items (set_analytics_path n m)
  unfolding set_analytics_path
  set_analytics_path-Reaches n = role_loop-Reaches m.items (codes "cbas") _ λ h k.
      seq-Reaches m.items
        (for_each (λ path. say (Cluster.change_owner h path)) (analytics_paths m.spec))
        (say (Cluster.set_analytics_paths h (io_devices (to_ℕ n) (analytics_paths m.spec))))
        (any_loop-Reaches m.items (λ path. say (Cluster.change_owner h path))
          (analytics_paths m.spec) (λ path. ((k, tt), tt)))
        ((k, tt), tt)

  pub rename_nodes-Reaches : Reaches m.items (rename_nodes m)
  unfolding rename_nodes
  rename_nodes-Reaches = for_servers-Reaches m.items _ λ h k. ((k, tt), tt)

  pub set_auth_of_nodes-Reaches : Reaches m.items (set_auth_of_nodes m)
  unfolding set_auth_of_nodes
  set_auth_of_nodes-Reaches = for_servers-Reaches m.items _ λ h k. ((k, tt), tt)

  compatible-Reaches :
      (answers : Answers) (release : Text) (cs : List (List Text))
      → Reaches m.items (version_reached answers release cs)
  compatible-Reaches answers release [] = tt
  compatible-Reaches answers release ([] ∷ cs) = tt
  compatible-Reaches answers release ((h ∷ ss) ∷ cs) = tt

  pub is_compatible-Reaches :
      (answers : Answers) (release : Text) → Reaches m.items (is_compatible answers m release)
  unfolding is_compatible
  is_compatible-Reaches answers release = compatible-Reaches answers release (cluster_hosts m)

  pub set_master_services-Reaches :
      (answers : Answers) → Reaches m.items (set_master_services answers m)
  unfolding set_master_services
  set_master_services-Reaches answers =
      bind-Reaches m.items (is_compatible answers m (codes "4.0.0")) _
        (is_compatible-Reaches answers (codes "4.0.0"))
        λ compatible. when-Reaches m.items compatible _ (
          for_masters-Reaches m.items _ λ h k.
            lift-Reaches m.items (roles_of h m.items)
              (λ services. say (Cluster.set_services h services)) λ services _. ((k, tt), tt))

  add_each-Reaches :
      (h : Text) (xs : List Text)
      → Listed m.items h
      → All (Listed m.items) xs
      → Reaches m.items (add_each m.items h xs)
  unfolding add_each
  add_each-Reaches h xs k known = Listed-loop-Reaches m.items _ xs known λ node l.
      lift-Reaches m.items (roles_of node m.items)
        (λ services. say (Cluster.add_node h node services)) λ services _. ((k, (l, tt)), tt)

  py_slice-All :
      (lo hi : ℤ) (xs : List Text)
      → All (Listed m.items) xs
      → All (Listed m.items) (py_slice lo hi xs)
  unfolding py_slice
  py_slice-All lo hi xs h =
      All-take (Listed m.items) _ (drop _ xs) (All-drop (Listed m.items) _ xs h)

  first_cluster-Reaches :
      (n : ℤ) (ss : List Text)
      → All (Listed m.items) ss
      → Reaches m.items (lift (first_server ss) >>= λ h. add_each m.items h (py_slice (pos 1) n ss))
  first_cluster-Reaches n [] known = tt
  first_cluster-Reaches n (h ∷ ss) known =
      add_each-Reaches h (py_slice (pos 1) n (h ∷ ss)) known.0
        (py_slice-All (pos 1) n (h ∷ ss) known)

  add_nodes_to-Reaches :
      (cs : List (List Text)) (ns : List ℤ)
      → All (All (Listed m.items)) cs
      → Reaches m.items (add_nodes_to m.items cs ns)
  unfolding add_nodes_to
  add_nodes_to-Reaches [] ns known = tt
  add_nodes_to-Reaches (ss ∷ cs) [] known = tt
  add_nodes_to-Reaches (ss ∷ cs) (n ∷ ns) known =
      let rest = add_nodes_to-Reaches cs ns known.1 in
      elim (Bool-cases (ltb_ℤ n (pos 2))) [
        | inl small ↦ rw small rest
        | inr large ↦ rw large (
            seq-Reaches m.items
              (lift (first_server ss) >>= λ h. add_each m.items h (py_slice (pos 1) n ss))
              (add_nodes_to m.items cs ns) (first_cluster-Reaches n ss known.0) rest)
      ]

  pub add_nodes-Reaches : Reaches m.items (add_nodes m)
  unfolding add_nodes
  add_nodes-Reaches =
      add_nodes_to-Reaches (cluster_hosts m) m.cluster.initial_nodes (clusters-Listed m.items)

  rebalance_each-Reaches :
      (cs : List (List Text)) (ns : List ℤ)
      → All (All (Listed m.items)) cs
      → Reaches m.items (rebalance_each cs ns)
  unfolding rebalance_each
  rebalance_each-Reaches [] ns known = tt
  rebalance_each-Reaches (ss ∷ cs) [] known = tt
  rebalance_each-Reaches ([] ∷ cs) (n ∷ ns) known = tt
  rebalance_each-Reaches ((h ∷ ss) ∷ cs) (n ∷ ns) known = (
    (
      known.0.0,
      All-append (Listed m.items) (py_slice (pos 0) n (h ∷ ss)) []
          (py_slice-All (pos 0) n (h ∷ ss) known.0) tt,
    ),
    ((known.0.0, tt), rebalance_each-Reaches cs ns known.1),
  )

  pub wait_until_healthy-Reaches :
      (answers : Answers) → Reaches m.items (wait_until_healthy answers m)
  unfolding wait_until_healthy
  wait_until_healthy-Reaches answers = for_masters-Reaches m.items _ λ h k. (
    (k, tt),
    any_loop-Reaches m.items (λ node. say (Cluster.monitor_analytics_node_active node))
        (answers.active_analytics_nodes h) (λ node. (tt, tt)),
  )

  pub rebalance_clusters-Reaches :
      (answers : Answers) → Reaches m.items (rebalance_clusters answers m)
  unfolding rebalance_clusters
  rebalance_clusters-Reaches answers =
      seq-Reaches m.items (rebalance_each (cluster_hosts m) m.cluster.initial_nodes)
        (wait_until_healthy answers m)
        (rebalance_each-Reaches (cluster_hosts m) m.cluster.initial_nodes (clusters-Listed m.items))
        (wait_until_healthy-Reaches answers)
