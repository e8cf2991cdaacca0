-- ===== src/Cluster/Reach/Setup.antt =====
-- About the servers that are named while a cluster is set up (perfrunner/utils/cluster.py).
use perfrunner.Prelude.{◌≡◌, refl, List, [], ◌∷◌, Result, ok, err, All}
use mathlib.Core.Path.{subst}
use perfrunner.Text.{Text}
use perfrunner.Config.{Options, Parser, clusters}
use perfrunner.Config.Options.{ClusterSettings, BucketSettings}
use perfrunner.Config.Listed.{Listed, clusters-Listed}
use perfrunner.Cluster.{ClusterManager, Answers, hosts, cluster_manager, first_master, manager_with}
use perfrunner.Cluster.Buckets.{
  is_set, create_buckets, create_eventing_buckets, create_eventing_metadata_bucket,
  wait_until_warmed_up,
}
use perfrunner.Cluster.Nodes.{
  set_data_paths, set_index_paths, set_analytics_path, rename_nodes, set_auth_of_nodes,
  set_master_services, add_nodes, rebalance_clusters, wait_until_healthy,
}
use perfrunner.Cluster.Settings.{
  set_mem_quotas, set_cbq_settings, set_gsi_settings, configure_compaction,
  configure_internal_settings, configure_xdcr_settings, tweak_memory, tune_logging,
  enable_n2n_encryption, restart_with_alternative_num_vbuckets,
  restart_with_alternative_bucket_options, enable_auto_failover, throttle_cpu, tune_memory_settings,
  enable_ipv6, set_x509_certificates, set_cipher_suite, set_min_tls_version, flush_iptables,
  clear_login_history, disable_wan,
}
use perfrunner.Cluster.Users.{enable_audit, add_rbac_users}
use perfrunner.Cluster.Setup.{OtherSettings, set_up_nodes, set_up_buckets, set_up_cluster, set_up}
use perfrunner.Cluster.Reach.{Reaches, seq-Reaches, when-Reaches, in_order-Reaches}
use perfrunner.Cluster.Reach.Nodes.{
  set_data_paths-Reaches, set_index_paths-Reaches, set_analytics_path-Reaches, rename_nodes-Reaches,
  set_auth_of_nodes-Reaches, set_master_services-Reaches, add_nodes-Reaches,
  wait_until_healthy-Reaches, rebalance_clusters-Reaches,
}
use perfrunner.Cluster.Reach.Buckets.{
  create_buckets-Reaches, create_eventing_buckets-Reaches, create_eventing_metadata_bucket-Reaches,
  wait_until_warmed_up-Reaches, enable_audit-Reaches, add_rbac_users-Reaches,
}
use perfrunner.Cluster.Reach.Settings.{
  set_mem_quotas-Reaches, set_cbq_settings-Reaches, set_gsi_settings-Reaches,
  configure_compaction-Reaches, configure_internal_settings-Reaches,
  configure_xdcr_settings-Reaches, enable_n2n_encryption-Reaches, num_vbuckets-Reaches,
  bucket_options-Reaches, enable_auto_failover-Reaches, throttle_cpu-Reaches,
  tune_memory_settings-Reaches, enable_ipv6-Reaches, set_x509_certificates-Reaches,
  set_cipher_suite-Reaches, set_min_tls_version-Reaches,
}

module _ (answers : Answers) (o : OtherSettings) (m : ClusterManager) where
  -- The part for individual nodes.
  set_up_nodes-Reaches : Reaches m.items (set_up_nodes answers o m)
  unfolding set_up_nodes disable_wan clear_login_history flush_iptables tune_logging
  set_up_nodes-Reaches =
      in_order-Reaches m.items
        (disable_wan
          ∷ clear_login_history
          ∷ (tune_memory_settings m)
          ∷ (throttle_cpu answers m)
          ∷ (enable_ipv6 m)
          ∷ tune_logging
          ∷ (restart_with_alternative_num_vbuckets m)
          ∷ flush_iptables
          ∷ (configure_internal_settings m)
          ∷ (set_data_paths m)
          ∷ (set_index_paths m)
          ∷ (set_analytics_path o.num_io_devices m)
          ∷ (set_mem_quotas m)
          ∷ (set_master_services answers m)
          ∷ (rename_nodes m)
          ∷ (set_auth_of_nodes m)
          ∷ (configure_xdcr_settings m)
          ∷ [])
        (
          (tt, tt),
          (
            (tt, tt),
            (
              tune_memory_settings-Reaches m,
              (
                throttle_cpu-Reaches m answers,
                (
                  enable_ipv6-Reaches m,
                  (
                    (tt, (tt, tt)),
                    (
                      num_vbuckets-Reaches m,
                      (
                        (tt, tt),
                        (
                          configure_internal_settings-Reaches m,
                          (
                            set_data_paths-Reaches m,
                            (
                              set_index_paths-Reaches m,
                              (
                                set_analytics_path-Reaches m o.num_io_devices,
                                (
                                  set_mem_quotas-Reaches m,
                                  (
                                    set_master_services-Reaches m answers,
                                    (
                                      rename_nodes-Reaches m,
                                      (
                                        set_auth_of_nodes-Reaches m,
                                        (configure_xdcr_settings-Reaches m, tt),
                                      ),
                                    ),
                                  ),
                                ),
                              ),
                            ),
                          ),
                        ),
                      ),
                    ),
                  ),
                ),
              ),
            ),
          ),
        )

  set_up_buckets-Reaches : Reaches m.items (set_up_buckets answers o m)
  unfolding set_up_buckets
  set_up_buckets-Reaches = when-Reaches m.items (is_set m.cluster.num_buckets) _ (
      in_order-Reaches m.items
        (create_buckets m
          ∷ create_eventing_buckets m
          ∷ create_eventing_metadata_bucket m
          ∷ add_rbac_users answers o.admin_user o.admin_password m
          ∷ [])
        (
          create_buckets-Reaches m,
          (
            create_eventing_buckets-Reaches m,
            (
              create_eventing_metadata_bucket-Reaches m,
              (add_rbac_users-Reaches m answers o.admin_user o.admin_password, tt),
            ),
          ),
        ))

  set_up_cluster-Reaches :
      Listed m.items m.master_node → Reaches m.items (set_up_cluster answers o m)
  unfolding set_up_cluster tweak_memory
  set_up_cluster-Reaches k =
      in_order-Reaches m.items
        ((add_nodes m)
          ∷ (rebalance_clusters answers m)
          ∷ (enable_auto_failover m)
          ∷ (configure_compaction m)
          ∷ (enable_audit answers o.audit_enabled o.extra_events m)
          ∷ (set_up_buckets answers o m)
          ∷ (restart_with_alternative_bucket_options answers m)
          ∷ (set_gsi_settings o.gsi_settings m)
          ∷ (set_cbq_settings m)
          ∷ (set_x509_certificates o.ssl_mode m)
          ∷ (set_cipher_suite o.cipher_list m)
          ∷ (set_min_tls_version o.min_tls_version m)
          ∷ (wait_until_healthy answers m)
          ∷ (wait_until_warmed_up m)
          ∷ tweak_memory
          ∷ (enable_n2n_encryption m)
          ∷ [])
        (
          add_nodes-Reaches m,
          (
            rebalance_clusters-Reaches m answers,
            (
              enable_auto_failover-Reaches m,
              (
                configure_compaction-Reaches m,
                (
                  enable_audit-Reaches m answers o.audit_enabled o.extra_events,
                  (
                    set_up_buckets-Reaches,
                    (
                      bucket_options-Reaches m answers k,
                      (
                        set_gsi_settings-Reaches m o.gsi_settings,
                        (
                          set_cbq_settings-Reaches m,
                          (
                            set_x509_certificates-Reaches m o.ssl_mode,
                            (
                              set_cipher_suite-Reaches m o.cipher_list k,
                              (
                                set_min_tls_version-Reaches m o.min_tls_version k,
                                (
                                  wait_until_healthy-Reaches m answers,
                                  (
                                    wait_until_warmed_up-Reaches m,
                                    (
                                      (tt, (tt, (tt, (tt, tt)))),
                                      (enable_n2n_encryption-Reaches m, tt),
                                    ),
                                  ),
                                ),
                              ),
                            ),
                          ),
                        ),
                      ),
                    ),
                  ),
                ),
              ),
            ),
          ),
        )

  set_up-parts : Listed m.items m.master_node → Reaches m.items (set_up answers o m)
  unfolding set_up
  set_up-parts k =
      seq-Reaches m.items (set_up_nodes answers o m) (set_up_cluster answers o m)
        set_up_nodes-Reaches (set_up_cluster-Reaches k)

-- The manager's own node is the first master.
first_master-Listed :
    (items : Options) (cs : List (List Text)) {h : Text}
    → All (All (Listed items)) cs
    → first_master cs ≡ ok h
    → Listed items h
first_master-Listed items [] {h} known e = cc
first_master-Listed items ([] ∷ cs) {h} known e = cc
first_master-Listed items ((g ∷ ss) ∷ cs) {h} known e =
    let same : g ≡ h = cc in rw (← same) known.0.0

made-Listed :
    (spec : Parser) (items : Options) (config : Parser) (c : ClusterSettings) (b : BucketSettings)
    (first : Result Text) {m : ClusterManager}
    → ((h : Text) → first ≡ ok h → Listed items h)
    → manager_with spec items config c b first ≡ ok m
    → Listed m.items m.master_node
made-Listed spec items config c b (err e) {m} known made = cc
made-Listed spec items config c b (ok h) {m} known made =
    let same : record {
      items = items;
      spec = spec;
      cluster = c;
      bucket = b;
      config = config;
      master_node = h;
    }
        ≡ m =
      cc in
    subst (λ (n : ClusterManager). Listed n.items n.master_node) same (known h refl)

-- Whatever the settings say and the servers answer, and also where an exception ends it: every
-- server that is named by a call while a cluster is set up stands in the specification of the
-- cluster. The analytics nodes that are watched, which the servers tell, do not count.
pub set_up-Reaches :
    (answers : Answers) (o : OtherSettings) (spec : Parser) (items : Options) (config : Parser)
    (c : ClusterSettings) (b : BucketSettings) {m : ClusterManager}
    → cluster_manager spec items config c b ≡ ok m
    → Reaches m.items (set_up answers o m)
unfolding cluster_manager
set_up-Reaches answers o spec items config c b {m} made = set_up-parts answers o m (
    made-Listed spec items config c b (first_master (hosts (clusters items)))
      (λ h e. first_master-Listed items (hosts (clusters items)) (clusters-Listed items) e) made)
