-- ===== src/Cluster.antt =====
-- The cluster manager of perfrunner/helpers/cluster.py. A method is the list of the calls that it
-- makes on the REST client, on the remote machines and on the monitor, and the exception that ends
-- it, if one does; messages to the log are left out. What the servers answer is an argument.
pub mod Steps
pub mod Nodes
pub mod Buckets
pub mod Settings
pub mod Users
pub mod Formation
pub mod Quotas
pub mod Access
pub mod Setup
pub mod Reach
use perfrunner.Prelude.{
  ℕ, Bool, true, false, not, List, [], ◌∷◌, ◌++◌, map, Option, none, some, Exn, Result, ok, err,
  index_error, stop_iteration, if◌then◌else◌,
}
use perfrunner.Prelude.Int.{ℤ}
use perfrunner.Text.{Text}
use perfrunner.Documents.Order.{lt_text}
use perfrunner.Config.{Options, Parser, clusters, masters, first_server}
use perfrunner.Config.Options.{ClusterSettings, BucketSettings, CompactionSettings}
use perfrunner.Config.Scalars.{Scalar}

-- The arguments of `create_bucket` besides the host and the name; none is None.
pub record BucketOptions : Type 0 where
  pub ram_quota : ℤ
  pub password : Text
  pub replica_number : ℤ
  pub replica_index : ℤ
  pub eviction_policy : Text
  pub bucket_type : Text
  pub conflict_resolution_type : Option Text
  pub compression_mode : Option Text

-- The calls, named for the methods of RestHelper, RemoteHelper and Monitor.
pub data Call : Type 0 where
  change_owner : (host path : Text) → Call
  set_data_path : (host path : Text) → Call
  set_index_path : (host path : Text) → Call
  set_analytics_paths : (host : Text) (paths : List Text) → Call
  rename : (host : Text) → Call
  set_auth : (host : Text) → Call
  set_mem_quota : (host : Text) (quota : ℤ) → Call
  set_index_mem_quota : (host : Text) (quota : ℤ) → Call
  set_fts_index_mem_quota : (host : Text) (quota : ℤ) → Call
  set_analytics_mem_quota : (host : Text) (quota : ℤ) → Call
  set_eventing_mem_quota : (host : Text) (quota : ℤ) → Call
  set_query_settings : (host : Text) (settings : List (Text × Scalar)) → Call
  get_query_settings : (host : Text) → Call
  set_index_settings : (host : Text) (settings : List (Text × Scalar)) → Call
  get_index_settings : (host : Text) → Call
  set_services : (host services : Text) → Call
  add_node : (host new_host roles : Text) → Call
  rebalance : (host : Text) (known_nodes ejected_nodes : List Text) → Call
  monitor_rebalance : (host : Text) → Call
  monitor_node_health : (host : Text) → Call
  monitor_analytics_node_active : (host : Text) → Call
  increase_bucket_limit : (host : Text) (num_buckets : ℤ) → Call
  flush_bucket : (host bucket : Text) → Call
  delete_bucket : (host name : Text) → Call
  create_bucket : (host name : Text) (options : BucketOptions) → Call
  configure_auto_compaction : (host : Text) (settings : CompactionSettings) → Call
  get_auto_compaction_settings : (host : Text) → Call
  set_internal_settings : (host parameter : Text) (value : Scalar) → Call
  set_xdcr_cluster_settings : (host parameter : Text) (value : Scalar) → Call
  enable_nonlocal_diag_eval : Call
  set_num_writer_threads : (host : Text) (num_writer_threads : ℤ) → Call
  set_num_reader_threads : (host : Text) (num_reader_threads : ℤ) → Call
  run_diag_eval : (host cmd : Text) → Call
  restart : Call
  restart_with_alternative_num_vbuckets : (num_vbuckets : Text) → Call
  set_auto_failover : (host enabled : Text) (failover_min failover_max : ℤ) → Call
  monitor_warmup : (host bucket : Text) → Call
  reset_swap : Call
  drop_caches : Call
  set_swappiness : Call
  disable_thp : Call
  tune_log_rotation : Call
  enable_n2n_encryption : (host level : Text) → Call
  enable_audit : (host : Text) (disabled : List Text) → Call
  delete_rbac_user : (host bucket : Text) → Call
  add_rbac_user : (host user password : Text) (roles : List Text) → Call
  enable_cpu : Call
  disable_cpu : (online_cores : ℤ) → Call
  tune_memory_settings : (host size : Text) → Call
  reset_memory_settings : (host : Text) → Call
  wait_for_servers : Call
  flush_iptables : Call
  clear_wtmp : Call
  disable_wan : Call
  enable_ipv6 : Call
  setup_x509 : Call
  upload_cluster_certificate : (host : Text) → Call
  reload_cluster_certificate : (host : Text) → Call
  enable_certificate_auth : (host : Text) → Call
  set_cipher_suite : (host : Text) (cipher_list : List Text) → Call
  set_minimum_tls_version : (host version : Text) → Call

-- The calls up to the end of a method, and its value or the exception that ended it.
pub record Run (A : Type 0) : Type 0 where
  pub calls : List Call
  pub outcome : Result A

abbrev pub lift : {A : Type 0} → Result A → Run A
lift r = record { calls = []; outcome = r }

abbrev pub return : {A : Type 0} → A → Run A
return a = lift (ok a)

abbrev pub say : Call → Run (Unit {0})
say c = record { calls = c ∷ []; outcome = ok tt }

abbrev pub prepend : {A : Type 0} → List Call → Run A → Run A
prepend cs r = record { calls = cs ++ r.calls; outcome = r.outcome }

abbrev pub resume : {A B : Type 0} → List Call → Result A → (A → Run B) → Run B
resume cs (ok a) f = prepend cs (f a)
resume cs (err e) f = record { calls = cs; outcome = err e }

infixl 5 ◌>>=◌ ◌>>◌
abbrev pub ◌>>=◌ : {A B : Type 0} → Run A → (A → Run B) → Run B
r >>= f = resume r.calls r.outcome f

abbrev pub ◌>>◌ : {A B : Type 0} → Run A → Run B → Run B
r >> s = r >>= λ _. s

-- `for x in xs:` with the body `f`
unfoldable pub for_each : {A : Type 0} → (A → Run (Unit {0})) → List A → Run (Unit {0})
for_each f [] = return tt
for_each f (x ∷ xs) = f x >> for_each f xs

-- One statement after the other.
unfoldable pub in_order : List (Run (Unit {0})) → Run (Unit {0})
in_order [] = return tt
in_order (r ∷ rs) = r >> in_order rs

abbrev pub when : Bool → Run (Unit {0}) → Run (Unit {0})
when b r = if b then r else return tt

-- `for master in masters:`; the generator raises an exception at a cluster without servers, behind
-- the calls for those in front of it.
unfoldable pub for_masters : (Text → Run (Unit {0})) → List (List Text) → Run (Unit {0})
for_masters f [] = return tt
for_masters f (servers ∷ rest) =
    lift (first_server servers) >>= λ master. f master >> for_masters f rest

-- What the manager is made of. The settings are read once here; the source reads them again from
-- the configuration, which nobody changes, at every use.
pub record ClusterManager : Type 0 where
  -- the items of the section [clusters] of the cluster's specification, and the file itself
  pub items : Options
  pub spec : Parser
  pub cluster : ClusterSettings
  pub bucket : BucketSettings
  pub config : Parser
  pub master_node : Text

-- What the REST client is told by the servers, and by the remote machines.
pub record Answers : Type 0 where
  pub version : Text → Text
  pub is_community : Bool
  pub supports_rbac : Bool
  pub rbac_roles : List Text
  pub audit_disabled : Text → List ℕ
  pub active_analytics_nodes : Text → List Text
  pub os : Text

abbrev pub hosts : List (Text × List Text) → List (List Text)
hosts cs = map (λ (p : Text × List Text). p.1) cs

-- The servers of each cluster.
abbrev pub cluster_hosts : ClusterManager → List (List Text)
cluster_hosts m = hosts (clusters m.items)

abbrev pub first_master : List (List Text) → Result Text
first_master [] = err stop_iteration
first_master (ss ∷ rest) = first_server ss

abbrev pub manager_with :
    Parser
    → Options
    → Parser
    → ClusterSettings
    → BucketSettings
    → Result Text
    → Result ClusterManager
manager_with spec items config cluster bucket (err e) = err e
manager_with spec items config cluster bucket (ok master) = ok (record {
  items = items;
  spec = spec;
  cluster = cluster;
  bucket = bucket;
  config = config;
  master_node = master;
})

-- `ClusterManager.__init__`, as far as it can fail: `next(self.cluster_spec.masters)`
unfoldable pub cluster_manager :
    Parser → Options → Parser → ClusterSettings → BucketSettings → Result ClusterManager
cluster_manager spec items config cluster bucket =
    manager_with spec items config cluster bucket (first_master (hosts (clusters items)))

abbrev pub version_reached : Answers → Text → List (List Text) → Run Bool
version_reached answers min_release [] = return false
version_reached answers min_release (ss ∷ rest) =
    lift (first_server ss) >>= λ master. return (not (lt_text (answers.version master) min_release))

-- `is_compatible`: the loop returns in its first round; without masters it returns None.
unfoldable pub is_compatible : Answers → ClusterManager → Text → Run Bool
is_compatible answers m min_release = version_reached answers min_release (cluster_hosts m)
