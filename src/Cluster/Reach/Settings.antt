-- ===== src/Cluster/Reach/Settings.antt =====
-- About the servers that are named when settings are made (perfrunner/helpers/cluster.py).
use perfrunner.Prelude.{List, [], ◌∷◌, Option, none, some, All, Bool-cases, inl, inr}
use perfrunner.Text.{Text, codes, eq_text}
use perfrunner.Text.Words.{parse_int}
use perfrunner.Config.{Options, get_options_as_dict, servers_by_role, servers}
use perfrunner.Config.Options.{buckets}
use perfrunner.Config.Scalars.{Scalar}
use perfrunner.Config.Listed.{Listed, servers_by_role-Listed}
use perfrunner.Cluster
use perfrunner.Cluster.{
  Call, Run, lift, return, say, ◌>>=◌, ◌>>◌, for_each, for_masters, when, ClusterManager, Answers,
  cluster_hosts,
}
use perfrunner.Cluster.Nodes.{wait_until_healthy}
use perfrunner.Cluster.Buckets.{is_set}
use perfrunner.Cluster.Settings.{
  set_mem_quotas, first_node_settings, scalars, set_cbq_settings, set_gsi_settings,
  configure_compaction, configure_internal_settings, configure_xdcr_settings, with_text,
  with_nonempty, enable_n2n_encryption, diag_eval, restart_with_alternative_num_vbuckets,
  set_bucket_option, restart_with, restart_with_alternative_bucket_options, enable_auto_failover,
  throttle_cpu, for_services, tune_memory_settings, enable_ipv6, set_x509_certificates,
  set_cipher_suite, set_min_tls_version,
}
use perfrunner.Cluster.Reach.{
  named, Reaches, seq-Reaches, lift-Reaches, when-Reaches, any_loop-Reaches, for_masters-Reaches,
  for_servers-Reaches, role_loop-Reaches,
}
use perfrunner.Cluster.Reach.Nodes.{wait_until_healthy-Reaches}

module _ (m : ClusterManager) where
  pub set_mem_quotas-Reaches : Reaches m.items (set_mem_quotas m)
  unfolding set_mem_quotas
  set_mem_quotas-Reaches =
      let c = m.cluster in
      for_masters-Reaches m.items _ λ h k.
        let fts =
          when (is_set c.fts_index_mem_quota)
            (say (Cluster.set_fts_index_mem_quota h c.fts_index_mem_quota)) in
        let analytics =
          when (is_set c.analytics_mem_quota)
            (say (Cluster.set_analytics_mem_quota h c.analytics_mem_quota)) in
        let eventing =
          when (is_set c.eventing_mem_quota)
            (say (Cluster.set_eventing_mem_quota h c.eventing_mem_quota)) in
        let both =
          say (Cluster.set_mem_quota h c.mem_quota)
          >> say (Cluster.set_index_mem_quota h c.index_mem_quota) in
        seq-Reaches m.items (both >> fts >> analytics) eventing
          (seq-Reaches m.items (both >> fts) analytics
            (seq-Reaches m.items both fts ((k, tt), ((k, tt), tt))
              (when-Reaches m.items (is_set c.fts_index_mem_quota) _ ((k, tt), tt)))
            (when-Reaches m.items (is_set c.analytics_mem_quota) _ ((k, tt), tt)))
          (when-Reaches m.items (is_set c.eventing_mem_quota) _ ((k, tt), tt))

  first_node-Reaches :
      (set : Text → List (Text × Scalar) → Call) (get : Text → Call)
      (settings : List (Text × Scalar)) (nodes : List Text)
      → All (Listed m.items) nodes
      → ((h : Text) (s : List (Text × Scalar))
          → Listed m.items h
          → All (Listed m.items) (named (set h s)))
      → ((h : Text) → Listed m.items h → All (Listed m.items) (named (get h)))
      → Reaches m.items (first_node_settings set get settings nodes)
  first_node-Reaches set get settings [] known k l = tt
  first_node-Reaches set get [] (h ∷ hs) known k l = (l h known.0, tt)
  first_node-Reaches set get (s ∷ ss) (h ∷ hs) known k l = (k h (s ∷ ss) known.0, (l h known.0, tt))

  pub set_cbq_settings-Reaches : Reaches m.items (set_cbq_settings m)
  unfolding set_cbq_settings
  set_cbq_settings-Reaches =
      lift-Reaches m.items (servers_by_role (codes "n1ql") m.items) _ λ nodes read.
        first_node-Reaches Cluster.set_query_settings Cluster.get_query_settings
          (scalars (get_options_as_dict (codes "n1ql") m.config)) nodes
          (servers_by_role-Listed (codes "n1ql") m.items read) (λ h s k. (k, tt)) (λ h k. (k, tt))

  pub set_gsi_settings-Reaches :
      (settings : List (Text × Scalar)) → Reaches m.items (set_gsi_settings settings m)
  unfolding set_gsi_settings
  set_gsi_settings-Reaches settings =
      lift-Reaches m.items (servers_by_role (codes "index") m.items) _ λ nodes read.
        first_node-Reaches Cluster.set_index_settings Cluster.get_index_settings settings nodes
          (servers_by_role-Listed (codes "index") m.items read) (λ h s k. (k, tt)) (λ h k. (k, tt))

  pub configure_compaction-Reaches : Reaches m.items (configure_compaction m)
  unfolding configure_compaction
  configure_compaction-Reaches = for_masters-Reaches m.items _ λ h k. ((k, tt), ((k, tt), tt))

  pub configure_internal_settings-Reaches : Reaches m.items (configure_internal_settings m)
  unfolding configure_internal_settings
  configure_internal_settings-Reaches = for_masters-Reaches m.items _ λ h k.
      any_loop-Reaches m.items _ (get_options_as_dict (codes "internal") m.config)
        λ o. ((k, tt), tt)

  pub configure_xdcr_settings-Reaches : Reaches m.items (configure_xdcr_settings m)
  unfolding configure_xdcr_settings
  configure_xdcr_settings-Reaches = for_masters-Reaches m.items _ λ h k.
      any_loop-Reaches m.items _ (get_options_as_dict (codes "xdcr_cluster") m.config)
        λ o. ((k, tt), tt)

  with_text-Reaches :
      (f : Text → Run (Unit {0})) (o : Option Text)
      → ((t : Text) → Reaches m.items (f t))
      → Reaches m.items (with_text f o)
  with_text-Reaches f none k = tt
  with_text-Reaches f (some t) k = k t

  with_nonempty-Reaches :
      (f : Text → Run (Unit {0})) (o : Option Text)
      → ((t : Text) → Reaches m.items (f t))
      → Reaches m.items (with_nonempty f o)
  with_nonempty-Reaches f none k = tt
  with_nonempty-Reaches f (some []) k = tt
  with_nonempty-Reaches f (some (c ∷ t)) k = k (c ∷ t)

  pub enable_n2n_encryption-Reaches : Reaches m.items (enable_n2n_encryption m)
  unfolding enable_n2n_encryption
  enable_n2n_encryption-Reaches =
      with_nonempty-Reaches
        (λ level. for_masters (λ h. say (Cluster.enable_n2n_encryption h level)) (cluster_hosts m))
        m.cluster.enable_n2n_encryption
        λ level.
          for_masters-Reaches m.items (λ h. say (Cluster.enable_n2n_encryption h level))
            λ h k. ((k, tt), tt)

  pub num_vbuckets-Reaches : Reaches m.items (restart_with_alternative_num_vbuckets m)
  unfolding restart_with_alternative_num_vbuckets
  num_vbuckets-Reaches = with_text-Reaches _ m.cluster.num_vbuckets λ n. (tt, tt)

  set_bucket_option-Reaches :
      (o : Text × Text) → Listed m.items m.master_node → Reaches m.items (set_bucket_option m o)
  unfolding set_bucket_option
  set_bucket_option-Reaches (option, value) k =
      elim (Bool-cases (eq_text option (codes "num_writer_threads"))) [
        | inl e ↦ rw e (
            lift-Reaches m.items (parse_int value)
              (λ n. say (Cluster.set_num_writer_threads m.master_node n)) λ n _. ((k, tt), tt))
        | inr e ↦ rw e (elim (Bool-cases (eq_text option (codes "num_reader_threads"))) [
          | inl f ↦ rw f (
              lift-Reaches m.items (parse_int value)
                (λ n. say (Cluster.set_num_reader_threads m.master_node n)) λ n _. ((k, tt), tt))
          | inr f ↦ rw f (
              for_masters-Reaches m.items _ λ h l.
                any_loop-Reaches m.items
                  (λ b. say (Cluster.run_diag_eval h (diag_eval b option value)))
                  (buckets m.cluster) λ b. ((l, tt), tt))
        ])
      ]

  restart_with-Reaches :
      (answers : Answers) (options : Options)
      → Listed m.items m.master_node
      → Reaches m.items (restart_with answers m options)
  restart_with-Reaches answers [] k = tt
  restart_with-Reaches answers (o ∷ options) k =
      let changes =
        say Cluster.enable_nonlocal_diag_eval >> for_each (set_bucket_option m) (o ∷ options) in
      seq-Reaches m.items (changes >> say Cluster.restart) (wait_until_healthy answers m)
        (seq-Reaches m.items changes (say Cluster.restart)
          (seq-Reaches m.items (say Cluster.enable_nonlocal_diag_eval)
            (for_each (set_bucket_option m) (o ∷ options)) (tt, tt)
            (any_loop-Reaches m.items (set_bucket_option m) (o ∷ options)
              λ p. set_bucket_option-Reaches p k))
          (tt, tt))
        (wait_until_healthy-Reaches m answers)

  pub bucket_options-Reaches :
      (answers : Answers)
      → Listed m.items m.master_node
      → Reaches m.items (restart_with_alternative_bucket_options answers m)
  unfolding restart_with_alternative_bucket_options
  bucket_options-Reaches answers k =
      restart_with-Reaches answers (get_options_as_dict (codes "bucket_extras") m.config) k

  pub enable_auto_failover-Reaches : Reaches m.items (enable_auto_failover m)
  unfolding enable_auto_failover
  enable_auto_failover-Reaches = for_masters-Reaches m.items _ λ h k. ((k, tt), tt)

  pub throttle_cpu-Reaches : (answers : Answers) → Reaches m.items (throttle_cpu answers m)
  unfolding throttle_cpu
  throttle_cpu-Reaches answers = elim (Bool-cases (eq_text answers.os (codes "Cygwin"))) [
    | inl e ↦ rw e tt
    | inr e ↦ rw e (
      tt,
      when-Reaches m.items (is_set m.cluster.online_cores)
          (say (Cluster.disable_cpu m.cluster.online_cores)) (tt, tt),
    )
  ]

  for_services-Reaches :
      (f : Text → Run (Unit {0}))
      → ((h : Text) → Listed m.items h → Reaches m.items (f h))
      → Reaches m.items (for_services m f)
  for_services-Reaches f k =
      any_loop-Reaches m.items _ m.cluster.kernel_mem_limit_services
        λ service. role_loop-Reaches m.items service f k

  pub tune_memory_settings-Reaches : Reaches m.items (tune_memory_settings m)
  unfolding tune_memory_settings
  tune_memory_settings-Reaches =
      with_nonempty-Reaches
        (λ size.
          for_services m (λ h. say (Cluster.tune_memory_settings h size))
          >> say Cluster.wait_for_servers)
        m.cluster.kernel_mem_limit
        λ size.
          seq-Reaches m.items (for_services m (λ h. say (Cluster.tune_memory_settings h size)))
            (say Cluster.wait_for_servers)
            (for_services-Reaches (λ h. say (Cluster.tune_memory_settings h size))
              λ h k. ((k, tt), tt))
            (tt, tt)

  pub enable_ipv6-Reaches : Reaches m.items (enable_ipv6 m)
  unfolding enable_ipv6
  enable_ipv6-Reaches = when-Reaches m.items (is_set m.cluster.ipv6) _ (tt, tt)

  pub set_x509_certificates-Reaches :
      (ssl_mode : Text) → Reaches m.items (set_x509_certificates ssl_mode m)
  unfolding set_x509_certificates
  set_x509_certificates-Reaches ssl_mode =
      let upload = for_each (λ h. say (Cluster.upload_cluster_certificate h)) (servers m.items) in
      let reload =
        for_each
          (λ h.
            say (Cluster.reload_cluster_certificate h) >> say (Cluster.enable_certificate_auth h))
          (servers m.items) in
      when-Reaches m.items (eq_text ssl_mode (codes "auth")) _ (
        seq-Reaches m.items (say Cluster.setup_x509 >> upload) reload
          (seq-Reaches m.items (say Cluster.setup_x509) upload (tt, tt)
            (for_servers-Reaches m.items _ λ h k. ((k, tt), tt)))
          (for_servers-Reaches m.items _ λ h k. ((k, tt), ((k, tt), tt))))

  pub set_cipher_suite-Reaches :
      (cipher_list : List Text)
      → Listed m.items m.master_node
      → Reaches m.items (set_cipher_suite cipher_list m)
  unfolding set_cipher_suite
  set_cipher_suite-Reaches [] k = tt
  set_cipher_suite-Reaches (c ∷ cs) k = ((k, tt), tt)

  pub set_min_tls_version-Reaches :
      (version : Option Text)
      → Listed m.items m.master_node
      → Reaches m.items (set_min_tls_version version m)
  unfolding set_min_tls_version
  set_min_tls_version-Reaches version k =
      with_nonempty-Reaches (λ v. say (Cluster.set_minimum_tls_version m.master_node v)) version
        λ v. ((k, tt), tt)
