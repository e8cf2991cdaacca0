-- ===== src/Cluster/Setup.antt =====
-- How a cluster is set up from its specification and the configuration of a test: `main` of
-- perfrunner/utils/cluster.py.
use perfrunner.Prelude.{Bool, List, [], ◌∷◌, Option}
use perfrunner.Prelude.Int.{ℤ}
use perfrunner.Text.{Text}
use perfrunner.Config.Scalars.{Scalar}
use perfrunner.Cluster.{Run, ◌>>◌, when, in_order, ClusterManager, Answers}
use perfrunner.Cluster.Nodes.{
  set_data_paths, set_index_paths, set_analytics_path, rename_nodes, set_auth_of_nodes,
  set_master_services, add_nodes, rebalance_clusters, wait_until_healthy,
}
use perfrunner.Cluster.Buckets.{
  is_set, create_buckets, create_eventing_buckets, create_eventing_metadata_bucket,
  wait_until_warmed_up,
}
use perfrunner.Cluster.Settings.{
  set_mem_quotas, set_cbq_settings, set_gsi_settings, configure_compaction,
  configure_internal_settings, configure_xdcr_settings, tweak_memory, tune_logging,
  enable_n2n_encryption, restart_with_alternative_num_vbuckets,
  restart_with_alternative_bucket_options, enable_auto_failover, throttle_cpu, tune_memory_settings,
  enable_ipv6, set_x509_certificates, set_cipher_suite, set_min_tls_version, flush_iptables,
  clear_login_history, disable_wan,
}
use perfrunner.Cluster.Users.{enable_audit, add_rbac_users}

-- What the settings that are not modelled say.
pub record OtherSettings : Type 0 where
  pub num_io_devices : ℤ
  pub gsi_settings : List (Text × Scalar)
  pub audit_enabled : Bool
  pub extra_events : List Text
  pub ssl_mode : Text
  pub cipher_list : List Text
  pub min_tls_version : Option Text
  pub admin_user : Text
  pub admin_password : Text

-- The part of `main` for individual nodes.
unfoldable pub set_up_nodes : Answers → OtherSettings → ClusterManager → Run (Unit {0})
set_up_nodes answers o m = in_order (
    disable_wan
    ∷ clear_login_history
    ∷ tune_memory_settings m
    ∷ throttle_cpu answers m
    ∷ enable_ipv6 m
    ∷ tune_logging
    ∷ restart_with_alternative_num_vbuckets m
    ∷ flush_iptables
    ∷ configure_internal_settings m
    ∷ set_data_paths m
    ∷ set_index_paths m
    ∷ set_analytics_path o.num_io_devices m
    ∷ set_mem_quotas m
    ∷ set_master_services answers m
    ∷ rename_nodes m
    ∷ set_auth_of_nodes m
    ∷ configure_xdcr_settings m
    ∷ [])

-- The part for buckets and users, which is skipped without buckets.
unfoldable pub set_up_buckets : Answers → OtherSettings → ClusterManager → Run (Unit {0})
set_up_buckets answers o m = when (is_set m.cluster.num_buckets) (
    in_order (
      create_buckets m
      ∷ create_eventing_buckets m
      ∷ create_eventing_metadata_bucket m
      ∷ add_rbac_users answers o.admin_user o.admin_password m
      ∷ []))

-- The part for the cluster.
unfoldable pub set_up_cluster : Answers → OtherSettings → ClusterManager → Run (Unit {0})
unfolding set_up_buckets
set_up_cluster answers o m = in_order (
    add_nodes m
    ∷ rebalance_clusters answers m
    ∷ enable_auto_failover m
    ∷ configure_compaction m
    ∷ enable_audit answers o.audit_enabled o.extra_events m
    ∷ set_up_buckets answers o m
    ∷ restart_with_alternative_bucket_options answers m
    ∷ set_gsi_settings o.gsi_settings m
    ∷ set_cbq_settings m
    ∷ set_x509_certificates o.ssl_mode m
    ∷ set_cipher_suite o.cipher_list m
    ∷ set_min_tls_version o.min_tls_version m
    ∷ wait_until_healthy answers m
    ∷ wait_until_warmed_up m
    ∷ tweak_memory
    ∷ enable_n2n_encryption m
    ∷ [])

-- `main`, behind the construction of the manager.
unfoldable pub set_up : Answers → OtherSettings → ClusterManager → Run (Unit {0})
unfolding set_up_nodes set_up_cluster
set_up answers o m = set_up_nodes answers o m >> set_up_cluster answers o m
