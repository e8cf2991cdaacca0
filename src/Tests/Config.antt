-- ===== src/Tests/Config.antt =====
-- Runs and instances for perfrunner/settings.py.
use perfrunner.Prelude.{◌≡◌, refl, true, List, [], ◌∷◌, none, ok, err, value_error, Returns}
use perfrunner.Prelude.Int.{pos, negsuc, ◌-ℤ◌}
use perfrunner.Text.{Text, codes}
use perfrunner.Text.Words.{split, split_on, parse_int, lower}
use perfrunner.Config.{
  Options, Parser, servers, servers_by_role, roles, host_roles, host_of, insert, lookup,
  get_options_as_dict, override,
}
use perfrunner.Config.Hosts.{Distinct, hosts_with, servers_by_role-eq-hosts_with}
use perfrunner.Config.Overrides.{Override}
use perfrunner.Config.Options.{
  ClusterSettings, cluster_settings, get_int, ints, test_config_cluster,
}
use perfrunner.Config.Options.Overriding.{quota_row, cluster-override}
use perfrunner.Config.Scalars.{maybe_atoi, truth}

abbrev two_servers : Options
two_servers = (codes "one", codes "a:kv b:kv,n1ql") ∷ []

abbrev their_roles : Options
their_roles = (codes "a", codes "kv") ∷ (codes "b", codes "kv,n1ql") ∷ []

splits : split (codes " a  b\n") ≡ codes "a" ∷ codes "b" ∷ []
unfolding split
splits = refl

splits_on : split_on b':' (codes "a::b") ≡ codes "a" ∷ [] ∷ codes "b" ∷ []
unfolding split_on
splits_on = refl

int_underscore : parse_int (codes " -1_0 ") ≡ ok (negsuc 9)
unfolding parse_int ◌-ℤ◌
int_underscore = refl

int_refused : parse_int (codes "1__0") ≡ err value_error
unfolding parse_int
int_refused = refl

atoi_true : maybe_atoi (codes "True") ≡ truth true
unfolding maybe_atoi lower
atoi_true = refl

roles_read : roles two_servers ≡ ok their_roles
unfolding roles host_roles insert split split_on
roles_read = refl

servers-Distinct : Distinct (servers two_servers)
unfolding servers host_of split split_on
servers-Distinct = ((refl, tt), (tt, tt))

servers_by_role-eq-hosts_with_example :
    servers_by_role (codes "n1ql") two_servers
    ≡ ok (hosts_with (codes "n1ql") their_roles (servers two_servers))
servers_by_role-eq-hosts_with_example =
    servers_by_role-eq-hosts_with (codes "n1ql") two_servers servers-Distinct roles_read

abbrev small_test : Parser
small_test =
    (codes "cluster", (codes "mem_quota", codes "1024") ∷ (codes "initial_nodes", codes "2") ∷ [])
    ∷ []

abbrev overrides : List Override
overrides =
    record { section = codes "load"; option = codes "items"; value = codes "7%" }
    ∷ record { section = codes "cluster"; option = codes "mem_quota"; value = codes "9" }
    ∷ []

abbrev small_settings : ClusterSettings
small_settings = record {
  mem_quota = pos 1024;
  index_mem_quota = pos 256;
  fts_index_mem_quota = pos 0;
  analytics_mem_quota = pos 0;
  eventing_mem_quota = pos 0;
  initial_nodes = pos 2 ∷ [];
  num_buckets = pos 1;
  eventing_bucket_mem_quota = pos 0;
  eventing_metadata_bucket_mem_quota = pos 0;
  eventing_buckets = pos 0;
  num_vbuckets = none;
  online_cores = pos 0;
  ipv6 = pos 0;
  kernel_mem_limit = none;
  enable_n2n_encryption = none;
  kernel_mem_limit_services = codes "fts" ∷ codes "index" ∷ [];
}

settings_read : test_config_cluster small_test ≡ ok small_settings
unfolding test_config_cluster cluster_settings get_int ints lookup get_options_as_dict split
    parse_int
settings_read = refl

cluster-override_example :
    Returns
      (override (quota_row (negsuc 2) ∷ []) small_test)
      λ q. test_config_cluster q ≡ ok (record small_settings { mem_quota = negsuc 2 })
cluster-override_example = cluster-override (negsuc 2) small_test settings_read
