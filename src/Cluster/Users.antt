-- ===== src/Cluster/Users.antt =====
-- Audit and users, in perfrunner/helpers/cluster.py.
use perfrunner.Prelude.{Bool, true, false, not, ◌||◌, List, [], ◌∷◌, ◌++◌, map, if◌then◌else◌}
use perfrunner.Text.{Text, codes, render}
use perfrunner.Text.Words.{is_member}
use perfrunner.Config.Options.{buckets}
use perfrunner.Cluster
use perfrunner.Cluster.{
  Call, delete_rbac_user, add_rbac_user, Run, lift, return, say, ◌>>=◌, ◌>>◌, for_each, when,
  for_masters, ClusterManager, Answers, cluster_hosts, is_compatible,
}

-- The elements of a list without repetition, in the order of their last places: a set of texts.
unfoldable pub as_set : List Text → List Text
as_set [] = []
as_set (t ∷ ts) = let rest = as_set ts in if is_member t ts then rest else t ∷ rest

-- `a - b` for sets.
unfoldable pub difference : List Text → List Text → List Text
difference [] bs = []
difference (a ∷ as') bs = let rest = difference as' bs in if is_member a bs then rest else a ∷ rest

-- `ClusterManager.gen_disabled_audit_events`: the servers tell the events by their numbers, of which
-- `str` makes texts. The order of the events is that of a set, which Python leaves open.
unfoldable pub gen_disabled_audit_events : Answers → List Text → Text → List Text
unfolding as_set difference
gen_disabled_audit_events answers extra_events master =
    difference (as_set (map (render 10) (answers.audit_disabled master))) extra_events

abbrev pub is_empty : List Text → Bool
is_empty [] = true
is_empty (t ∷ ts) = false

-- The variable `disabled` of `ClusterManager.enable_audit`
unfoldable pub disabled_events : Answers → List Text → Text → List Text
unfolding gen_disabled_audit_events
disabled_events answers extra_events master =
    if is_empty extra_events then [] else gen_disabled_audit_events answers extra_events master

-- `ClusterManager.enable_audit`, with the settings of the audit
unfoldable pub enable_audit : Answers → Bool → List Text → ClusterManager → Run (Unit {0})
unfolding disabled_events
enable_audit answers enabled extra_events m =
    is_compatible answers m (codes "4.0.0") >>= λ compatible.
    if not compatible || answers.is_community || not enabled
    then return tt
    else for_masters
        (λ master. say (Cluster.enable_audit master (disabled_events answers extra_events master)))
        (cluster_hosts m)

-- `ClusterManager.generate_ce_roles`
unfoldable pub generate_ce_roles : List Text
generate_ce_roles = codes "admin" ∷ []

-- The roles that `ClusterManager.generate_ee_roles` looks for.
abbrev pub wanted_roles : List Text
wanted_roles =
    codes "bucket_admin"
    ∷ codes "data_dcp_reader"
    ∷ codes "data_monitoring"
    ∷ codes "data_reader_writer"
    ∷ codes "data_reader"
    ∷ codes "data_writer"
    ∷ codes "fts_admin"
    ∷ codes "fts_searcher"
    ∷ codes "query_delete"
    ∷ codes "query_insert"
    ∷ codes "query_select"
    ∷ codes "query_update"
    ∷ codes "views_admin"
    ∷ []

-- A role with its place for the name of a bucket: role.format(bucket=bucket) of the same name
-- without such a place is the name itself.
pub record Role : Type 0 where
  pub name : Text
  pub of_bucket : Bool

unfoldable pub format_role : Text → Role → Text
format_role bucket r = if r.of_bucket then r.name ++ b'[' ∷ (bucket ++ b']' ∷ []) else r.name

unfoldable pub present_roles : List Text → List Text → List Role
present_roles existing_roles [] = []
present_roles existing_roles (role ∷ rest) =
    let more = present_roles existing_roles rest in
    if is_member role existing_roles then record { name = role; of_bucket = true } ∷ more else more

-- `ClusterManager.generate_ee_roles`
unfoldable pub generate_ee_roles : Answers → List Role
unfolding present_roles
generate_ee_roles answers = present_roles answers.rbac_roles wanted_roles

abbrev pub whole : Text → Role
whole name = record { name = name; of_bucket = false }

-- `ClusterManager.delete_rbac_users`
unfoldable pub delete_rbac_users : Answers → ClusterManager → Run (Unit {0})
delete_rbac_users answers m = is_compatible answers m (codes "5.0") >>= λ compatible.
    when compatible (
      for_masters
        (λ master. for_each (λ bucket. say (delete_rbac_user master bucket)) (buckets m.cluster))
        (cluster_hosts m))

unfoldable pub add_bucket_users : Text → List Role → Text → List Text → Run (Unit {0})
unfolding format_role
add_bucket_users password roles master names =
    for_each
      (λ bucket. say (
        add_rbac_user master bucket password
          (map (format_role bucket) roles ++ codes "admin" ∷ [])))
      names

-- `ClusterManager.add_rbac_users`, with the two parts of `rest_credentials`
unfoldable pub add_rbac_users : Answers → Text → Text → ClusterManager → Run (Unit {0})
unfolding add_bucket_users
add_rbac_users answers admin_user admin_password m = when answers.supports_rbac (
    for_masters
      (λ master.
        say (add_rbac_user master admin_user admin_password (codes "admin" ∷ []))
        >> add_bucket_users m.bucket.password
            (if answers.is_community
              then map whole generate_ce_roles
              else generate_ee_roles answers)
            master (buckets m.cluster))
      (cluster_hosts m))
