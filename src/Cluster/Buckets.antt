-- ===== src/Cluster/Buckets.antt =====
-- The buckets of perfrunner/helpers/cluster.py.
use perfrunner.Prelude.{
  zero, suc, Bool, true, false, ◌||◌, List, none, Result, ok, err, zero_division, if◌then◌else◌,
}
use perfrunner.Prelude.Int.{ℤ, pos, negsuc, ltb_ℤ, ◌-ℤ◌, ◌+ℤ◌, div_floor}
use perfrunner.Text.{Text, codes, eq_text}
use perfrunner.Config.Options.{ClusterSettings, BucketSettings, buckets, eventing_buckets}
use perfrunner.Cluster.{
  Call, BucketOptions, increase_bucket_limit, flush_bucket, delete_bucket, create_bucket,
  monitor_warmup, Run, lift, return, say, ◌>>=◌, ◌>>◌, for_each, when, for_masters, ClusterManager,
  cluster_hosts,
}

-- a // b; the quotient is rounded down, also for a negative divisor.
unfoldable pub floor_div : ℤ → ℤ → Result ℤ
floor_div a (pos zero) = err zero_division
floor_div a (pos (suc d)) = ok (div_floor a (suc d))
floor_div a (negsuc d) = ok (div_floor (pos 0 -ℤ a) (suc d))

-- The truth value of an integer.
abbrev pub is_set : ℤ → Bool
is_set (pos zero) = false
is_set (pos (suc n)) = true
is_set (negsuc n) = true

-- `for master in masters: for bucket_name in names:`
unfoldable pub for_buckets : (Text → Text → Call) → ClusterManager → List Text → Run (Unit {0})
for_buckets call m names =
    for_masters (λ master. for_each (λ name. say (call master name)) names) (cluster_hosts m)

-- `ClusterManager.increase_bucket_limit`
unfoldable pub increase_bucket_limits : ClusterManager → ℤ → Run (Unit {0})
increase_bucket_limits m num_buckets =
    for_masters (λ master. say (increase_bucket_limit master num_buckets)) (cluster_hosts m)

-- `ClusterManager.flush_buckets`
unfoldable pub flush_buckets : ClusterManager → Run (Unit {0})
unfolding for_buckets
flush_buckets m = for_buckets flush_bucket m (buckets m.cluster)

-- `ClusterManager.delete_buckets`
unfoldable pub delete_buckets : ClusterManager → Run (Unit {0})
unfolding for_buckets
delete_buckets m = for_buckets delete_bucket m (buckets m.cluster)

-- The quota that is left for the buckets.
unfoldable pub buckets_quota : ClusterSettings → ℤ
buckets_quota c =
    if is_set c.eventing_metadata_bucket_mem_quota
    then c.mem_quota -ℤ (c.eventing_metadata_bucket_mem_quota +ℤ c.eventing_bucket_mem_quota)
    else c.mem_quota

abbrev pub bucket_options : BucketSettings → ℤ → BucketOptions
bucket_options b ram_quota = record {
  ram_quota = ram_quota;
  password = b.password;
  replica_number = b.replica_number;
  replica_index = b.replica_index;
  eviction_policy = b.eviction_policy;
  bucket_type = b.bucket_type;
  conflict_resolution_type = b.conflict_resolution_type;
  compression_mode = b.compression_mode;
}

-- `ClusterManager.create_buckets`
unfoldable pub create_buckets : ClusterManager → Run (Unit {0})
unfolding increase_bucket_limits buckets_quota floor_div for_buckets
create_buckets m =
    when (ltb_ℤ (pos 7) m.cluster.num_buckets)
      (increase_bucket_limits m (m.cluster.num_buckets +ℤ pos 3))
    >> (lift (floor_div (buckets_quota m.cluster) m.cluster.num_buckets) >>= λ per_bucket_quota.
        for_buckets
          (λ master name. create_bucket master name (bucket_options m.bucket per_bucket_quota)) m
          (buckets m.cluster))

-- Without a compression mode, `RestHelper.create_bucket` takes its default.
abbrev pub eventing_options : BucketSettings → ℤ → BucketOptions
eventing_options b ram_quota = record (bucket_options b ram_quota) { compression_mode = none }

-- `ClusterManager.create_eventing_buckets`
unfoldable pub create_eventing_buckets : ClusterManager → Run (Unit {0})
unfolding floor_div for_buckets
create_eventing_buckets m = when (is_set m.cluster.eventing_bucket_mem_quota) (
    lift (floor_div m.cluster.eventing_bucket_mem_quota m.cluster.eventing_buckets)
    >>= λ per_bucket_quota.
        for_buckets
          (λ master name. create_bucket master name (eventing_options m.bucket per_bucket_quota)) m
          (eventing_buckets m.cluster))

-- The options of the bucket for the metadata: the class's defaults of the policy and the type.
abbrev pub metadata_options : BucketSettings → ℤ → BucketOptions
metadata_options b ram_quota = record (bucket_options b ram_quota) {
  eviction_policy = codes "valueOnly";
  bucket_type = codes "membase";
  conflict_resolution_type = none;
  compression_mode = none;
}

-- `ClusterManager.create_eventing_metadata_bucket`
unfoldable pub create_eventing_metadata_bucket : ClusterManager → Run (Unit {0})
create_eventing_metadata_bucket m = when (is_set m.cluster.eventing_metadata_bucket_mem_quota) (
    for_masters
      (λ master. say (
        create_bucket master (codes "eventing")
          (metadata_options m.bucket m.cluster.eventing_metadata_bucket_mem_quota)))
      (cluster_hosts m))

-- `ClusterManager.wait_until_warmed_up`
unfoldable pub wait_until_warmed_up : ClusterManager → Run (Unit {0})
unfolding for_buckets
wait_until_warmed_up m =
    if eq_text m.bucket.bucket_type (codes "ephemeral")
      || eq_text m.bucket.bucket_type (codes "memcached")
    then return tt
    else for_buckets monitor_warmup m (buckets m.cluster)
