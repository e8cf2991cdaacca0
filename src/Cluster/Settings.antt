-- ===== src/Cluster/Settings.antt =====
-- The settings of the servers and of their machines, in perfrunner/helpers/cluster.py. Of the
-- settings that are not modelled, the values that a method reads are arguments.
use perfrunner.Prelude.{List, [], ◌∷◌, ◌++◌, Option, none, some, if◌then◌else◌}
use perfrunner.Text.{Text, codes, eq_text}
use perfrunner.Text.Words.{parse_int}
use perfrunner.Config.{Options, get_options_as_dict, servers, servers_by_role}
use perfrunner.Config.Options.{buckets, compaction_settings}
use perfrunner.Config.Scalars.{Scalar, maybe_atoi}
use perfrunner.Cluster
use perfrunner.Cluster.{
  Call, set_mem_quota, set_index_mem_quota, set_fts_index_mem_quota, set_analytics_mem_quota,
  set_eventing_mem_quota, set_query_settings, get_query_settings, set_index_settings,
  get_index_settings, configure_auto_compaction, get_auto_compaction_settings,
  set_internal_settings, set_xdcr_cluster_settings, enable_nonlocal_diag_eval,
  set_num_writer_threads, set_num_reader_threads, run_diag_eval, restart, set_auto_failover,
  reset_swap, drop_caches, set_swappiness, disable_thp, tune_log_rotation, enable_cpu, disable_cpu,
  wait_for_servers, setup_x509, upload_cluster_certificate, reload_cluster_certificate,
  enable_certificate_auth, set_minimum_tls_version, Run, lift, return, say, ◌>>=◌, ◌>>◌, for_each,
  when, for_masters, ClusterManager, Answers, cluster_hosts,
}
use perfrunner.Cluster.Nodes.{wait_until_healthy}
use perfrunner.Cluster.Buckets.{is_set}

-- `ClusterManager.set_mem_quotas`
unfoldable pub set_mem_quotas : ClusterManager → Run (Unit {0})
set_mem_quotas m =
    let c = m.cluster in
    for_masters
      (λ master.
        say (set_mem_quota master c.mem_quota)
        >> say (set_index_mem_quota master c.index_mem_quota)
        >> when (is_set c.fts_index_mem_quota)
            (say (set_fts_index_mem_quota master c.fts_index_mem_quota))
        >> when (is_set c.analytics_mem_quota)
            (say (set_analytics_mem_quota master c.analytics_mem_quota))
        >> when (is_set c.eventing_mem_quota)
            (say (set_eventing_mem_quota master c.eventing_mem_quota)))
      (cluster_hosts m)

-- Settings for the first of the nodes with a role, if there is one.
abbrev pub first_node_settings :
    (Text → List (Text × Scalar) → Call)
    → (Text → Call)
    → List (Text × Scalar)
    → List Text
    → Run (Unit {0})
first_node_settings set get settings [] = return tt
first_node_settings set get [] (node ∷ nodes) = say (get node)
first_node_settings set get (s ∷ settings) (node ∷ nodes) =
    say (set node (s ∷ settings)) >> say (get node)

-- `N1QLSettings.cbq_settings`
unfoldable pub scalars : Options → List (Text × Scalar)
scalars [] = []
scalars ((option, value) ∷ options) = (option, maybe_atoi value) ∷ scalars options

-- `ClusterManager.set_query_settings`
unfoldable pub set_cbq_settings : ClusterManager → Run (Unit {0})
unfolding scalars
set_cbq_settings m = lift (servers_by_role (codes "n1ql") m.items) >>= λ query_nodes.
    first_node_settings set_query_settings get_query_settings
      (scalars (get_options_as_dict (codes "n1ql") m.config)) query_nodes

-- `ClusterManager.set_index_settings`, with `GSISettings.settings`
unfoldable pub set_gsi_settings : List (Text × Scalar) → ClusterManager → Run (Unit {0})
set_gsi_settings settings m = lift (servers_by_role (codes "index") m.items) >>= λ index_nodes.
    first_node_settings set_index_settings get_index_settings settings index_nodes

abbrev pub each_option : (Text → Text → Scalar → Call) → ClusterManager → Options → Run (Unit {0})
each_option set m options =
    for_masters (λ master. for_each (λ o. say (set master o.0 (maybe_atoi o.1))) options)
      (cluster_hosts m)

-- `ClusterManager.configure_auto_compaction`
unfoldable pub configure_compaction : ClusterManager → Run (Unit {0})
configure_compaction m =
    let settings = compaction_settings (get_options_as_dict (codes "compaction") m.config) in
    for_masters
      (λ master.
        say (configure_auto_compaction master settings)
        >> say (get_auto_compaction_settings master))
      (cluster_hosts m)

-- `ClusterManager.configure_internal_settings`
unfoldable pub configure_internal_settings : ClusterManager → Run (Unit {0})
configure_internal_settings m =
    each_option set_internal_settings m (get_options_as_dict (codes "internal") m.config)

-- `ClusterManager.configure_xdcr_settings`
unfoldable pub configure_xdcr_settings : ClusterManager → Run (Unit {0})
configure_xdcr_settings m =
    each_option set_xdcr_cluster_settings m (get_options_as_dict (codes "xdcr_cluster") m.config)

-- `ClusterManager.tweak_memory` and `ClusterManager.tune_logging`
unfoldable pub tweak_memory : Run (Unit {0})
tweak_memory = say reset_swap >> say drop_caches >> say set_swappiness >> say disable_thp

unfoldable pub tune_logging : Run (Unit {0})
tune_logging = say tune_log_rotation >> say restart

abbrev pub with_text : (Text → Run (Unit {0})) → Option Text → Run (Unit {0})
with_text f none = return tt
with_text f (some t) = f t

-- The same, where the empty text does not count either.
abbrev pub with_nonempty : (Text → Run (Unit {0})) → Option Text → Run (Unit {0})
with_nonempty f none = return tt
with_nonempty f (some []) = return tt
with_nonempty f (some (c ∷ t)) = f (c ∷ t)

-- `ClusterManager.enable_n2n_encryption`
unfoldable pub enable_n2n_encryption : ClusterManager → Run (Unit {0})
enable_n2n_encryption m =
    with_nonempty
      (λ level.
        for_masters (λ master. say (Cluster.enable_n2n_encryption master level)) (cluster_hosts m))
      m.cluster.enable_n2n_encryption

-- `ClusterManager.restart_with_alternative_num_vbuckets`
unfoldable pub restart_with_alternative_num_vbuckets : ClusterManager → Run (Unit {0})
restart_with_alternative_num_vbuckets m =
    with_text (λ n. say (Cluster.restart_with_alternative_num_vbuckets n)) m.cluster.num_vbuckets

-- The Erlang expression that sets an option of a bucket.
unfoldable pub diag_eval : Text → Text → Text → Text
diag_eval bucket option value =
    codes "ns_bucket:update_bucket_props(\""
    ++ (bucket
        ++ (codes "\", [{extra_config_string, \""
            ++ (option ++ (codes "=" ++ (value ++ codes "\"}]).")))))

unfoldable pub set_bucket_option : ClusterManager → Text × Text → Run (Unit {0})
unfolding diag_eval
set_bucket_option m (option, value) =
    if eq_text option (codes "num_writer_threads")
    then (lift (parse_int value) >>= λ n. say (set_num_writer_threads m.master_node n))
    else if eq_text option (codes "num_reader_threads")
    then (lift (parse_int value) >>= λ n. say (set_num_reader_threads m.master_node n))
    else for_masters
        (λ master.
          for_each (λ bucket. say (run_diag_eval master (diag_eval bucket option value)))
            (buckets m.cluster))
        (cluster_hosts m)

abbrev pub restart_with : Answers → ClusterManager → Options → Run (Unit {0})
restart_with answers m [] = return tt
restart_with answers m (o ∷ options) =
    say enable_nonlocal_diag_eval
    >> for_each (set_bucket_option m) (o ∷ options)
    >> say restart
    >> wait_until_healthy answers m

-- `ClusterManager.restart_with_alternative_bucket_options`
unfoldable pub restart_with_alternative_bucket_options : Answers → ClusterManager → Run (Unit {0})
unfolding set_bucket_option
restart_with_alternative_bucket_options answers m =
    restart_with answers m (get_options_as_dict (codes "bucket_extras") m.config)

-- `ClusterManager.enable_auto_failover`
unfoldable pub enable_auto_failover : ClusterManager → Run (Unit {0})
enable_auto_failover m =
    let b = m.bucket in
    for_masters
      (λ master.
        say (set_auto_failover master b.autofailover_enabled b.failover_min b.failover_max))
      (cluster_hosts m)

-- `ClusterManager.throttle_cpu`
unfoldable pub throttle_cpu : Answers → ClusterManager → Run (Unit {0})
throttle_cpu answers m =
    if eq_text answers.os (codes "Cygwin")
    then return tt
    else (say enable_cpu
        >> when (is_set m.cluster.online_cores) (say (disable_cpu m.cluster.online_cores)))

abbrev pub for_services : ClusterManager → (Text → Run (Unit {0})) → Run (Unit {0})
for_services m f =
    for_each (λ service. lift (servers_by_role service m.items) >>= λ nodes. for_each f nodes)
      m.cluster.kernel_mem_limit_services

-- `ClusterManager.tune_memory_settings`
unfoldable pub tune_memory_settings : ClusterManager → Run (Unit {0})
tune_memory_settings m =
    with_nonempty
      (λ size.
        for_services m (λ server. say (Cluster.tune_memory_settings server size))
        >> say wait_for_servers)
      m.cluster.kernel_mem_limit

-- `ClusterManager.reset_memory_settings`
unfoldable pub reset_memory_settings : ClusterManager → Run (Unit {0})
reset_memory_settings m =
    for_services m (λ server. say (Cluster.reset_memory_settings server)) >> say wait_for_servers

-- `ClusterManager.enable_ipv6`
unfoldable pub enable_ipv6 : ClusterManager → Run (Unit {0})
enable_ipv6 m = when (is_set m.cluster.ipv6) (say Cluster.enable_ipv6)

-- `ClusterManager.set_x509_certificates`, with `access_settings.ssl_mode`
unfoldable pub set_x509_certificates : Text → ClusterManager → Run (Unit {0})
set_x509_certificates ssl_mode m = when (eq_text ssl_mode (codes "auth")) (
    say setup_x509
    >> for_each (λ host. say (upload_cluster_certificate host)) (servers m.items)
    >> for_each
        (λ host. say (reload_cluster_certificate host) >> say (enable_certificate_auth host))
        (servers m.items))

-- `ClusterManager.set_cipher_suite` and `ClusterManager.set_min_tls_version`, with the settings of
-- the same names (the empty list stands for None); the values that are read back are only logged.
unfoldable pub set_cipher_suite : List Text → ClusterManager → Run (Unit {0})
set_cipher_suite [] m = return tt
set_cipher_suite (c ∷ cipher_list) m =
    say (Cluster.set_cipher_suite m.master_node (c ∷ cipher_list))

unfoldable pub set_min_tls_version : Option Text → ClusterManager → Run (Unit {0})
set_min_tls_version version m =
    with_nonempty (λ v. say (set_minimum_tls_version m.master_node v)) version

-- `ClusterManager.flush_iptables`, `ClusterManager.clear_login_history` and
-- `ClusterManager.disable_wan`
unfoldable pub flush_iptables : Run (Unit {0})
flush_iptables = say Cluster.flush_iptables

unfoldable pub clear_login_history : Run (Unit {0})
clear_login_history = say Cluster.clear_wtmp

unfoldable pub disable_wan : Run (Unit {0})
disable_wan = say Cluster.disable_wan
