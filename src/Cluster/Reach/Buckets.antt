-- ===== src/Cluster/Reach/Buckets.antt =====
-- About the servers that are named when buckets and users are made (perfrunner/helpers/cluster.py).
use perfrunner.Prelude.{Bool, not, ◌||◌, List, All, Bool-cases, inl, inr}
use perfrunner.Prelude.Int.{ℤ, pos, ltb_ℤ, ◌+ℤ◌}
use perfrunner.Text.{Text, codes, eq_text}
use perfrunner.Config.Options.{buckets, eventing_buckets}
use perfrunner.Config.Listed.{Listed}
use perfrunner.Cluster
use perfrunner.Cluster.{
  Call, Run, lift, return, say, ◌>>=◌, ◌>>◌, for_each, for_masters, when, ClusterManager, Answers,
  is_compatible, cluster_hosts,
}
use perfrunner.Cluster.Buckets.{
  floor_div, is_set, for_buckets, increase_bucket_limits, buckets_quota, bucket_options,
  eventing_options, create_buckets, create_eventing_buckets, create_eventing_metadata_bucket,
  wait_until_warmed_up,
}
use perfrunner.Cluster.Users.{enable_audit, add_bucket_users, add_rbac_users}
use perfrunner.Cluster.Reach.{
  named, Reaches, bind-Reaches, seq-Reaches, lift-Reaches, when-Reaches, any_loop-Reaches,
  for_masters-Reaches,
}
use perfrunner.Cluster.Reach.Nodes.{is_compatible-Reaches}

module _ (m : ClusterManager) where
  for_buckets-Reaches :
      (call : Text → Text → Call) (names : List Text)
      → ((h name : Text) → Listed m.items h → All (Listed m.items) (named (call h name)))
      → Reaches m.items (for_buckets call m names)
  unfolding for_buckets
  for_buckets-Reaches call names k =
      for_masters-Reaches m.items _
        λ h l. any_loop-Reaches m.items (λ name. say (call h name)) names λ name. (k h name l, tt)

  limits-Reaches : (n : ℤ) → Reaches m.items (increase_bucket_limits m n)
  unfolding increase_bucket_limits
  limits-Reaches n = for_masters-Reaches m.items _ λ h k. ((k, tt), tt)

  pub create_buckets-Reaches : Reaches m.items (create_buckets m)
  unfolding create_buckets
  create_buckets-Reaches =
      seq-Reaches m.items
        (when (ltb_ℤ (pos 7) m.cluster.num_buckets)
          (increase_bucket_limits m (m.cluster.num_buckets +ℤ pos 3)))
        (lift (floor_div (buckets_quota m.cluster) m.cluster.num_buckets) >>= λ q.
          for_buckets (λ h name. Cluster.create_bucket h name (bucket_options m.bucket q)) m
            (buckets m.cluster))
        (when-Reaches m.items (ltb_ℤ (pos 7) m.cluster.num_buckets) _
          (limits-Reaches (m.cluster.num_buckets +ℤ pos 3)))
        (lift-Reaches m.items (floor_div (buckets_quota m.cluster) m.cluster.num_buckets)
          (λ q.
            for_buckets (λ h name. Cluster.create_bucket h name (bucket_options m.bucket q)) m
              (buckets m.cluster))
          λ q _.
            for_buckets-Reaches (λ h name. Cluster.create_bucket h name (bucket_options m.bucket q))
              (buckets m.cluster) λ h name k. (k, tt))

  pub create_eventing_buckets-Reaches : Reaches m.items (create_eventing_buckets m)
  unfolding create_eventing_buckets
  create_eventing_buckets-Reaches =
      when-Reaches m.items (is_set m.cluster.eventing_bucket_mem_quota) _ (
        lift-Reaches m.items
          (floor_div m.cluster.eventing_bucket_mem_quota m.cluster.eventing_buckets)
          (λ q.
            for_buckets (λ h name. Cluster.create_bucket h name (eventing_options m.bucket q)) m
              (eventing_buckets m.cluster))
          λ q _.
            for_buckets-Reaches
              (λ h name. Cluster.create_bucket h name (eventing_options m.bucket q))
              (eventing_buckets m.cluster) λ h name k. (k, tt))

  pub create_eventing_metadata_bucket-Reaches : Reaches m.items (create_eventing_metadata_bucket m)
  unfolding create_eventing_metadata_bucket
  create_eventing_metadata_bucket-Reaches =
      when-Reaches m.items (is_set m.cluster.eventing_metadata_bucket_mem_quota) _
        (for_masters-Reaches m.items _ λ h k. ((k, tt), tt))

  pub wait_until_warmed_up-Reaches : Reaches m.items (wait_until_warmed_up m)
  unfolding wait_until_warmed_up
  wait_until_warmed_up-Reaches =
      elim (Bool-cases (
        eq_text m.bucket.bucket_type (codes "ephemeral")
        || eq_text m.bucket.bucket_type (codes "memcached"))) [
          | inl e ↦ rw e tt
          | inr e ↦
              rw e (for_buckets-Reaches Cluster.monitor_warmup (buckets m.cluster) λ h b k. (k, tt))
        ]

  pub enable_audit-Reaches :
      (answers : Answers) (enabled : Bool) (extra_events : List Text)
      → Reaches m.items (enable_audit answers enabled extra_events m)
  unfolding enable_audit
  enable_audit-Reaches answers enabled extra_events =
      bind-Reaches m.items (is_compatible answers m (codes "4.0.0")) _
        (is_compatible-Reaches m answers (codes "4.0.0"))
        λ compatible. elim (Bool-cases (not compatible || answers.is_community || not enabled)) [
          | inl e ↦ rw e tt
          | inr e ↦ rw e (for_masters-Reaches m.items _ λ h k. ((k, tt), tt))
        ]

  pub add_rbac_users-Reaches :
      (answers : Answers) (user password : Text)
      → Reaches m.items (add_rbac_users answers user password m)
  unfolding add_rbac_users add_bucket_users
  add_rbac_users-Reaches answers user password = when-Reaches m.items answers.supports_rbac _ (
      for_masters-Reaches m.items _
        λ h k. ((k, tt), any_loop-Reaches m.items _ (buckets m.cluster) (λ b. ((k, tt), tt))))
