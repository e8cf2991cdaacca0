-- ===== src/Config/Options.antt =====
-- The settings of perfrunner/settings.py that the cluster manager and the rebalance tests read.
-- The constructors of the source are functions from the options of a section.
pub mod Reading
pub mod Overriding
use perfrunner.Prelude.{
  ℕ, zero, suc, ◌+◌, Bool, true, false, List, [], ◌∷◌, ◌++◌, Option, none, some, Result, ok,
  attribute_error, type_error, err, ◌>>=◌, if◌then◌else◌,
}
use perfrunner.Prelude.Int.{ℤ, pos, negsuc, to_ℕ}
use perfrunner.Text.{Text, codes, eq_text, render}
use perfrunner.Text.Words.{split, split_on, lower, parse_int}
use perfrunner.Config.{Options, Parser, lookup, get_options_as_dict}

-- options.get(key, default)
abbrev pub or_default {ℓ} : {A : Type ℓ} → A → Option A → A
or_default default (some v) = v
or_default default none = default

abbrev int_or : ℤ → Option Text → Result ℤ
int_or default (some t) = parse_int t
int_or default none = ok default

-- int(options.get(key, default))
unfoldable pub get_int : Text → ℤ → Options → Result ℤ
get_int key default options = int_or default (lookup key options)

-- A missing option without a default is None: `int` refuses it, and it has no methods.
abbrev pub require_with : Result Text → Option Text → Result Text
require_with r (some t) = ok t
require_with r none = r

unfoldable pub ints : List Text → Result (List ℤ)
ints [] = ok []
ints (w ∷ ws) = parse_int w >>= λ n. ints ws >>= λ ns. ok (n ∷ ns)

-- '.'.join(pieces[:-1]) and pieces[-1]
unfoldable pub join_but_last : List Text → Text
join_but_last [] = []
join_but_last (p ∷ []) = []
join_but_last (p ∷ q ∷ []) = p
join_but_last (p ∷ q ∷ r ∷ ps) = p ++ b'.' ∷ join_but_last (q ∷ r ∷ ps)

unfoldable pub last_piece : List Text → Text
last_piece [] = []
last_piece (p ∷ []) = p
last_piece (p ∷ q ∷ ps) = last_piece (q ∷ ps)

pub record TestCaseSettings : Type 0 where
  pub test_module : Text
  pub test_class : Text
  pub use_workers : ℤ
  pub reset_workers : ℤ

unfoldable pub test_case_settings : Options → Result TestCaseSettings
unfolding join_but_last last_piece
test_case_settings options = do
  test ← require_with (err attribute_error) (lookup (codes "test") options)
  use_workers ← get_int (codes "use_workers") (pos 1) options
  reset_workers ← get_int (codes "reset_workers") (pos 0) options
  ok (record {
    test_module = join_but_last (split_on b'.' test);
    test_class = last_piece (split_on b'.' test);
    use_workers = use_workers;
    reset_workers = reset_workers;
  })

pub record ShowFastSettings : Type 0 where
  pub title : Option Text
  pub component : Text
  pub category : Text
  pub sub_category : Text
  pub order_by : Text
  pub build_label : Text
  pub threshold : ℤ

unfoldable pub show_fast_settings : Options → Result ShowFastSettings
show_fast_settings options = do
  threshold ← get_int (codes "threshold") (negsuc 9) options
  ok (record {
    title = lookup (codes "title") options;
    component = or_default [] (lookup (codes "component") options);
    category = or_default [] (lookup (codes "category") options);
    sub_category = or_default [] (lookup (codes "sub_category") options);
    order_by = or_default [] (lookup (codes "orderby") options);
    build_label = or_default [] (lookup (codes "build_label") options);
    threshold = threshold;
  })

pub record ClusterSettings : Type 0 where
  pub mem_quota : ℤ
  pub index_mem_quota : ℤ
  pub fts_index_mem_quota : ℤ
  pub analytics_mem_quota : ℤ
  pub eventing_mem_quota : ℤ
  pub initial_nodes : List ℤ
  pub num_buckets : ℤ
  pub eventing_bucket_mem_quota : ℤ
  pub eventing_metadata_bucket_mem_quota : ℤ
  pub eventing_buckets : ℤ
  pub num_vbuckets : Option Text
  pub online_cores : ℤ
  pub ipv6 : ℤ
  -- none stands for the default 0
  pub kernel_mem_limit : Option Text
  pub enable_n2n_encryption : Option Text
  pub kernel_mem_limit_services : List Text

abbrev services_or_default : Option Text → List Text
services_or_default none = codes "fts" ∷ codes "index" ∷ []
services_or_default (some []) = codes "fts" ∷ codes "index" ∷ []
services_or_default (some (c ∷ t)) = split (c ∷ t)

-- `ClusterSettings.__init__` behind its first statement.
unfoldable pub cluster_settings_with : ℤ → Options → Result ClusterSettings
cluster_settings_with mem_quota options = do
  index_mem_quota ← get_int (codes "index_mem_quota") (pos 256) options
  fts_index_mem_quota ← get_int (codes "fts_index_mem_quota") (pos 0) options
  analytics_mem_quota ← get_int (codes "analytics_mem_quota") (pos 0) options
  eventing_mem_quota ← get_int (codes "eventing_mem_quota") (pos 0) options
  nodes ← require_with (err attribute_error) (lookup (codes "initial_nodes") options)
  initial_nodes ← ints (split nodes)
  num_buckets ← get_int (codes "num_buckets") (pos 1) options
  eventing_bucket_mem_quota ← get_int (codes "eventing_bucket_mem_quota") (pos 0) options
  metadata_quota ← get_int (codes "eventing_metadata_bucket_mem_quota") (pos 0) options
  eventing_buckets ← get_int (codes "eventing_buckets") (pos 0) options
  online_cores ← get_int (codes "online_cores") (pos 0) options
  ipv6 ← get_int (codes "ipv6") (pos 0) options
  ok (record {
    mem_quota = mem_quota;
    index_mem_quota = index_mem_quota;
    fts_index_mem_quota = fts_index_mem_quota;
    analytics_mem_quota = analytics_mem_quota;
    eventing_mem_quota = eventing_mem_quota;
    initial_nodes = initial_nodes;
    num_buckets = num_buckets;
    eventing_bucket_mem_quota = eventing_bucket_mem_quota;
    eventing_metadata_bucket_mem_quota = metadata_quota;
    eventing_buckets = eventing_buckets;
    num_vbuckets = lookup (codes "num_vbuckets") options;
    online_cores = online_cores;
    ipv6 = ipv6;
    kernel_mem_limit = lookup (codes "kernel_mem_limit") options;
    enable_n2n_encryption = lookup (codes "enable_n2n_encryption") options;
    kernel_mem_limit_services =
        services_or_default (lookup (codes "kernel_mem_limit_services") options);
  })

unfoldable pub cluster_settings : Options → Result ClusterSettings
unfolding cluster_settings_with
cluster_settings options =
    require_with (err type_error) (lookup (codes "mem_quota") options)
    >>= parse_int
    >>= λ mem_quota. cluster_settings_with mem_quota options

pub record BucketSettings : Type 0 where
  pub password : Text
  pub replica_number : ℤ
  pub replica_index : ℤ
  pub eviction_policy : Text
  pub bucket_type : Text
  pub conflict_resolution_type : Option Text
  pub compression_mode : Option Text
  pub autofailover_enabled : Text
  pub failover_min : ℤ
  pub failover_max : ℤ

unfoldable pub bucket_settings : Options → Result BucketSettings
bucket_settings options = do
  replica_number ← get_int (codes "replica_number") (pos 1) options
  replica_index ← get_int (codes "replica_index") (pos 0) options
  failover_min ← get_int (codes "failover_min") (pos 5) options
  failover_max ← get_int (codes "failover_max") (pos 30) options
  ok (record {
    password = or_default (codes "password") (lookup (codes "password") options);
    replica_number = replica_number;
    replica_index = replica_index;
    eviction_policy = or_default (codes "valueOnly") (lookup (codes "eviction_policy") options);
    bucket_type = or_default (codes "membase") (lookup (codes "bucket_type") options);
    conflict_resolution_type = lookup (codes "conflict_resolution_type") options;
    compression_mode = lookup (codes "compression_mode") options;
    autofailover_enabled =
        if eq_text
          (lower (or_default (codes "true") (lookup (codes "autofailover_enabled") options)))
          (codes "false")
        then codes "false"
        else codes "true";
    failover_min = failover_min;
    failover_max = failover_max;
  })

-- none stands for the class's default.
pub record CompactionSettings : Type 0 where
  pub db_percentage : Option Text
  pub view_percentage : Option Text
  pub parallel : Option Text

unfoldable pub compaction_settings : Options → CompactionSettings
compaction_settings options = record {
  db_percentage = lookup (codes "db_percentage") options;
  view_percentage = lookup (codes "view_percentage") options;
  parallel = lookup (codes "parallel") options;
}

pub record RebalanceSettings : Type 0 where
  pub nodes_after : List ℤ
  pub swap : ℤ
  pub failed_nodes : ℤ
  pub failover : Text
  pub delay_before_failover : ℤ
  pub delta_recovery : ℤ
  pub start_after : ℤ
  pub stop_after : ℤ

unfoldable pub rebalance_settings : Options → Result RebalanceSettings
rebalance_settings options = do
  nodes_after ← ints (split (or_default [] (lookup (codes "nodes_after") options)))
  swap ← get_int (codes "swap") (pos 0) options
  failed_nodes ← get_int (codes "failed_nodes") (pos 1) options
  delay ← get_int (codes "delay_before_failover") (pos 600) options
  delta_recovery ← get_int (codes "delta_recovery") (pos 0) options
  start_after ← get_int (codes "start_after") (pos 1200) options
  stop_after ← get_int (codes "stop_after") (pos 1200) options
  ok (record {
    nodes_after = nodes_after;
    swap = swap;
    failed_nodes = failed_nodes;
    failover = or_default (codes "hard") (lookup (codes "failover") options);
    delay_before_failover = delay;
    delta_recovery = delta_recovery;
    start_after = start_after;
    stop_after = stop_after;
  })

pub record ProfilingSettings : Type 0 where
  pub services : List Text
  pub interval : ℤ
  pub num_profiles : ℤ
  pub profiles : List Text

unfoldable pub profiling_settings : Options → Result ProfilingSettings
profiling_settings options = do
  interval ← get_int (codes "interval") (pos 300) options
  num_profiles ← get_int (codes "num_profiles") (pos 1) options
  ok (record {
    services = split (or_default [] (lookup (codes "services") options));
    interval = interval;
    num_profiles = num_profiles;
    profiles = split_on b',' (or_default (codes "cpu") (lookup (codes "profiles") options));
  })

-- The properties of `TestConfig` of the same names.
unfoldable pub test_config_cluster : Parser → Result ClusterSettings
test_config_cluster p = cluster_settings (get_options_as_dict (codes "cluster") p)

unfoldable pub test_config_bucket : Parser → Result BucketSettings
test_config_bucket p = bucket_settings (get_options_as_dict (codes "bucket") p)

-- 'bucket-{}'.format(i + 1) for the numbers i from `i` on
unfoldable pub numbered : Text → ℕ → ℕ → List Text
numbered prefix zero i = []
numbered prefix (suc n) i = (prefix ++ render 10 (i + 1)) ∷ numbered prefix n (i + 1)

-- `TestConfig.buckets` and `TestConfig.eventing_buckets`; a negative number gives none.
unfoldable pub buckets : ClusterSettings → List Text
unfolding numbered
buckets c = numbered (codes "bucket-") (to_ℕ c.num_buckets) 0

unfoldable pub eventing_buckets : ClusterSettings → List Text
unfolding numbered
eventing_buckets c = numbered (codes "eventing-bucket-") (to_ℕ c.eventing_buckets) 0
