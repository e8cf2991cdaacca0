-- ===== src/Tests/Cluster.antt =====
-- Runs and instances for perfrunner/helpers/cluster.py.
use perfrunner.Prelude.{
  ℕ, ◌≤◌, ◌≡◌, refl, ◌&&◌, not, Bool, true, false, List, [], ◌∷◌, ◌++◌, Option, none, some, ok,
  arith, if◌then◌else◌,
}
use perfrunner.Prelude.Int.{pos}
use perfrunner.Text.{Text, codes, eq_text, render}
use perfrunner.Text.Equality.{eq_text_refl}
use perfrunner.Text.Words.{is_member, split, split_on}
use perfrunner.Config.{Options, masters, roles, host_roles, host_of, insert, clusters}
use perfrunner.Config.Hosts.{Absent, Distinct}
use perfrunner.Config.Options.{ClusterSettings, BucketSettings, buckets}
use perfrunner.Config.Targets.Names.{buckets-Distinct}
use perfrunner.Cluster.{Call, add_node, rebalance, ClusterManager, Answers, cluster_manager}
use perfrunner.Cluster.Users.{gen_disabled_audit_events, disabled_events, is_empty}
use perfrunner.Cluster.Access.{has_id, disabled_events-Exact}
use perfrunner.Cluster.Setup.{OtherSettings, set_up}
use perfrunner.Cluster.Reach.{Reaches}
use perfrunner.Cluster.Reach.Setup.{set_up-Reaches}
use perfrunner.Cluster.Quotas.{all_buckets, ram_of, all_buckets_fit}
use perfrunner.Cluster.Formation.{ClusterService}

abbrev three_servers : Options
three_servers = (codes "one", codes "a:kv b:kv,n1ql") ∷ (codes "two", codes "c:kv") ∷ []

abbrev settings : ClusterSettings
settings = record {
  mem_quota = pos 1024;
  index_mem_quota = pos 256;
  fts_index_mem_quota = pos 0;
  analytics_mem_quota = pos 0;
  eventing_mem_quota = pos 0;
  initial_nodes = pos 2 ∷ pos 1 ∷ [];
  num_buckets = pos 9;
  eventing_bucket_mem_quota = pos 100;
  eventing_metadata_bucket_mem_quota = pos 50;
  eventing_buckets = pos 3;
  num_vbuckets = none;
  online_cores = pos 0;
  ipv6 = pos 0;
  kernel_mem_limit = none;
  enable_n2n_encryption = none;
  kernel_mem_limit_services = [];
}

abbrev bucket : BucketSettings
bucket = record {
  password = codes "password";
  replica_number = pos 1;
  replica_index = pos 0;
  eviction_policy = codes "valueOnly";
  bucket_type = codes "membase";
  conflict_resolution_type = none;
  compression_mode = none;
  autofailover_enabled = codes "true";
  failover_min = pos 5;
  failover_max = pos 30;
}

abbrev manager : ClusterManager
manager = record {
  items = three_servers;
  spec = [];
  cluster = settings;
  bucket = bucket;
  config = [];
  master_node = codes "a";
}

masters_read : masters three_servers ≡ ok (codes "a" ∷ codes "c" ∷ [])
unfolding masters host_of split split_on
masters_read = refl

roles_read :
    roles three_servers
    ≡ ok ((codes "a", codes "kv") ∷ (codes "b", codes "kv,n1ql") ∷ (codes "c", codes "kv") ∷ [])
unfolding roles host_roles insert split split_on
roles_read = refl

all_buckets_fit_example :
    ((all_buckets manager).outcome ≡ ok tt)
    × (ram_of (codes "a") (all_buckets manager).calls ≤ 1024)
all_buckets_fit_example =
    all_buckets_fit (codes "a") manager masters_read ((refl, tt), (tt, tt)) refl refl refl refl refl
      (omega arith)

-- A service that keeps the members of each cluster, as each of its nodes tells them.
abbrev join : (Text → List Text) → Text → Text → Text → List Text
join s host node k = if is_member k (s host ++ node ∷ []) then s host ++ node ∷ [] else s k

abbrev eq_texts : List Text → List Text → Bool
eq_texts [] [] = true
eq_texts [] (y ∷ ys) = false
eq_texts (x ∷ xs) [] = false
eq_texts (x ∷ xs) (y ∷ ys) = eq_text x y && eq_texts xs ys

abbrev known_services : List Text
known_services = codes "kv" ∷ codes "n1ql" ∷ codes "index" ∷ []

abbrev all_known : List Text → Bool
all_known [] = true
all_known (t ∷ ts) = is_member t known_services && all_known ts

are_offered : Text → Bool
unfolding split_on
are_offered services = all_known (split_on b',' services)

abbrev answer : Call → (Text → List Text) → Option (Text → List Text)
answer (add_node host node services) s =
    if is_member node (s host)
    then none
    else if eq_texts (s node) (node ∷ []) && are_offered services
    then some (join s host node)
    else none
answer (rebalance host known []) s = if eq_texts known (s host) then some s else none
answer c s = some s

eq_texts_refl : (xs : List Text) → eq_texts xs xs ≡ true
eq_texts_refl [] = refl
eq_texts_refl (x ∷ xs) = rw (eq_text_refl x) (eq_texts_refl xs)

Absent-no_member : (x : Text) (xs : List Text) → Absent x xs → is_member x xs ≡ false
unfolding is_member
Absent-no_member x [] h = refl
Absent-no_member x (y ∷ ys) h = rw h.0 (Absent-no_member x ys h.1)

node_joins :
    (s : Text → List Text) (host node services : Text) (others : List Text)
    → s host ≡ host ∷ others
    → Absent node (s host)
    → s node ≡ node ∷ []
    → are_offered services ≡ true
    → (t : Text → List Text) × (answer (add_node host node services) s ≡ some t)
      × (t host ≡ s host ++ node ∷ [])
      × ((h : Text) → Absent h (s host ++ node ∷ []) → t h ≡ s h)
unfolding is_member
node_joins s host node services others first new alone offered = (
  join s host node,
  (rw (Absent-no_member node (s host) new, alone, eq_text_refl node, offered) refl),
  (rw (first, eq_text_refl host) refl),
  (λ h absent. rw (Absent-no_member h (s host ++ node ∷ []) absent) refl),
)

members_rebalance :
    (s : Text → List Text) (host : Text) (known : List Text)
    → s host ≡ known
    → (t : Text → List Text) × (answer (rebalance host known []) s ≡ some t)
      × ((h : Text) → t h ≡ s h)
members_rebalance s host known e = (s, (rw (← e) (rw (eq_texts_refl (s host)) refl)), λ h. refl)

abbrev service : ClusterService
service = record {
  State = Text → List Text;
  members = λ s. s;
  offers = λ services. are_offered services ≡ true;
  serve = answer;
  accepts_node = node_joins;
  accepts_rebalance = members_rebalance;
  accepts_wait = λ s host. refl;
  accepts_health = λ s host. refl;
  accepts_active = λ s host. refl;
}

abbrev alone : Text → List Text
alone h = h ∷ []

abbrev answers : Answers
answers = record {
  version = λ h. codes "6.5.0";
  is_community = false;
  supports_rbac = true;
  rbac_roles = codes "fts_admin" ∷ [];
  audit_disabled = λ h. 8243 ∷ 8255 ∷ 8243 ∷ [];
  active_analytics_nodes = λ h. [];
  os = codes "CentOS";
}

abbrev others : OtherSettings
others = record {
  num_io_devices = pos 1;
  gsi_settings = [];
  audit_enabled = true;
  extra_events = codes "8255" ∷ [];
  ssl_mode = codes "auth";
  cipher_list = [];
  min_tls_version = some (codes "tlsv1.2");
  admin_user = codes "Administrator";
  admin_password = codes "password";
}

audit_run : disabled_events answers (codes "8255" ∷ []) (codes "a") ≡ codes "8243" ∷ []
unfolding disabled_events gen_disabled_audit_events is_member render
audit_run = refl

disabled_events-Exact_example :
    ((event : ℕ)
      → is_member (render 10 event) (disabled_events answers (codes "8255" ∷ []) (codes "a")) ≡ (
          not (is_empty (codes "8255" ∷ []))
          && (has_id event (answers.audit_disabled (codes "a"))
              && not (is_member (render 10 event) (codes "8255" ∷ [])))))
    × Distinct (disabled_events answers (codes "8255" ∷ []) (codes "a"))
disabled_events-Exact_example = disabled_events-Exact answers (codes "8255" ∷ []) (codes "a")

made : cluster_manager [] three_servers [] settings bucket ≡ ok manager
unfolding cluster_manager clusters host_of split split_on
made = refl

set_up-Reaches_example : Reaches manager.items (set_up answers others manager)
set_up-Reaches_example = set_up-Reaches answers others [] three_servers [] settings bucket made

buckets-Distinct_example : Distinct (buckets settings)
buckets-Distinct_example = buckets-Distinct settings
