-- ===== src/Cluster/Reach.antt =====
-- About the servers that the methods of perfrunner/helpers/cluster.py name, on every path.
mod Nodes
mod Settings
mod Buckets
pub mod Setup
use perfrunner.Prelude.{
  ◌≡◌, refl, Bool, true, false, List, [], ◌∷◌, ◌++◌, map, Result, ok, err, Result-cases, inl, inr,
  All, All-append, All-mono, Bool-cases, ◌||◌, if◌then◌else◌,
}
use perfrunner.Prelude
use perfrunner.Text.{Text, eq_text}
use perfrunner.Text.Equality.{eq_text_refl}
use perfrunner.Text.Words.{is_member, is_infix, split}
use perfrunner.Config.{
  Options, clusters, servers, first_server, host_of, host_roles, with_role, servers_by_role,
}
use perfrunner.Config.Listed.{Listed, clusters-Listed, servers-Listed, servers_by_role-Listed}
use perfrunner.Cluster
use perfrunner.Cluster.{
  Call, Run, lift, return, say, resume, ◌>>=◌, ◌>>◌, for_each, when, for_masters, hosts, in_order,
}

-- The servers that a call names. The analytics nodes whose activity is watched are those that the
-- servers themselves tell.
abbrev pub named : Call → List Text
named (Cluster.change_owner h path) = h ∷ []
named (Cluster.set_data_path h path) = h ∷ []
named (Cluster.set_index_path h path) = h ∷ []
named (Cluster.set_analytics_paths h paths) = h ∷ []
named (Cluster.rename h) = h ∷ []
named (Cluster.set_auth h) = h ∷ []
named (Cluster.set_mem_quota h quota) = h ∷ []
named (Cluster.set_index_mem_quota h quota) = h ∷ []
named (Cluster.set_fts_index_mem_quota h quota) = h ∷ []
named (Cluster.set_analytics_mem_quota h quota) = h ∷ []
named (Cluster.set_eventing_mem_quota h quota) = h ∷ []
named (Cluster.set_query_settings h settings) = h ∷ []
named (Cluster.get_query_settings h) = h ∷ []
named (Cluster.set_index_settings h settings) = h ∷ []
named (Cluster.get_index_settings h) = h ∷ []
named (Cluster.set_services h services) = h ∷ []
named (Cluster.add_node h node services) = h ∷ node ∷ []
named (Cluster.rebalance h known_nodes ejected_nodes) = h ∷ (known_nodes ++ ejected_nodes)
named (Cluster.monitor_rebalance h) = h ∷ []
named (Cluster.monitor_node_health h) = h ∷ []
named (Cluster.increase_bucket_limit h num_buckets) = h ∷ []
named (Cluster.flush_bucket h bucket) = h ∷ []
named (Cluster.delete_bucket h name) = h ∷ []
named (Cluster.create_bucket h name options) = h ∷ []
named (Cluster.configure_auto_compaction h settings) = h ∷ []
named (Cluster.get_auto_compaction_settings h) = h ∷ []
named (Cluster.set_internal_settings h parameter value) = h ∷ []
named (Cluster.set_xdcr_cluster_settings h parameter value) = h ∷ []
named (Cluster.set_num_writer_threads h n) = h ∷ []
named (Cluster.set_num_reader_threads h n) = h ∷ []
named (Cluster.run_diag_eval h cmd) = h ∷ []
named (Cluster.set_auto_failover h enabled failover_min failover_max) = h ∷ []
named (Cluster.monitor_warmup h bucket) = h ∷ []
named (Cluster.enable_n2n_encryption h level) = h ∷ []
named (Cluster.enable_audit h disabled) = h ∷ []
named (Cluster.delete_rbac_user h bucket) = h ∷ []
named (Cluster.add_rbac_user h user password roles) = h ∷ []
named (Cluster.tune_memory_settings h size) = h ∷ []
named (Cluster.reset_memory_settings h) = h ∷ []
named (Cluster.upload_cluster_certificate h) = h ∷ []
named (Cluster.reload_cluster_certificate h) = h ∷ []
named (Cluster.enable_certificate_auth h) = h ∷ []
named (Cluster.set_cipher_suite h cipher_list) = h ∷ []
named (Cluster.set_minimum_tls_version h version) = h ∷ []
named c = []

-- Every call names servers of the specification only.
abbrev pub Reaches : Options → {A : Type 0} → Run A → Type 0
Reaches items r = All (λ c. All (Listed items) (named c)) r.calls

module _ (items : Options) where
  then-Reaches :
      {A B : Type 0} (cs : List Call) (o : Result A) (f : A → Run B)
      → All (λ c. All (Listed items) (named c)) cs
      → ((a : A) → Reaches items (f a))
      → Reaches items (resume cs o f)
  then-Reaches cs (ok a) f h k =
      All-append (λ c. All (Listed items) (named c)) cs (f a).calls h (k a)
  then-Reaches cs (err e) f h k = h

  pub bind-Reaches :
      {A B : Type 0} (r : Run A) (f : A → Run B)
      → Reaches items r
      → ((a : A) → Reaches items (f a))
      → Reaches items (r >>= f)
  bind-Reaches r f h k = then-Reaches r.calls r.outcome f h k

  pub seq-Reaches :
      {A B : Type 0} (r : Run A) (s : Run B)
      → Reaches items r
      → Reaches items s
      → Reaches items (r >> s)
  seq-Reaches r s h k = bind-Reaches r (λ _. s) h (λ _. k)

  -- A value that is read: what is known of it may be used.
  pub lift-Reaches :
      {A B : Type 0} (o : Result A) (f : A → Run B)
      → ((a : A) → o ≡ ok a → Reaches items (f a))
      → Reaches items (lift o >>= f)
  lift-Reaches (ok a) f k = k a refl
  lift-Reaches (err e) f k = tt

  pub each-Reaches :
      {A : Type 0} (f : A → Run (Unit {0})) (xs : List A)
      → All (λ x. Reaches items (f x)) xs
      → Reaches items (for_each f xs)
  unfolding for_each
  each-Reaches f [] h = tt
  each-Reaches f (x ∷ xs) h = seq-Reaches (f x) (for_each f xs) h.0 (each-Reaches f xs h.1)

  pub when-Reaches : (b : Bool) (r : Run (Unit {0})) → Reaches items r → Reaches items (when b r)
  when-Reaches true r h = h
  when-Reaches false r h = tt

  masters-Reaches :
      (f : Text → Run (Unit {0})) (cs : List (List Text))
      → All (All (Listed items)) cs
      → ((h : Text) → Listed items h → Reaches items (f h))
      → Reaches items (for_masters f cs)
  unfolding for_masters
  masters-Reaches f [] known k = tt
  masters-Reaches f ([] ∷ cs) known k = tt
  masters-Reaches f ((h ∷ ss) ∷ cs) known k =
      seq-Reaches (f h) (for_masters f cs) (k h known.0.0) (masters-Reaches f cs known.1 k)

  -- The loop over the masters of the specification.
  pub for_masters-Reaches :
      (f : Text → Run (Unit {0}))
      → ((h : Text) → Listed items h → Reaches items (f h))
      → Reaches items (for_masters f (hosts (clusters items)))
  for_masters-Reaches f k = masters-Reaches f (hosts (clusters items)) (clusters-Listed items) k

  -- The loop over all servers, and over those with a role.
  pub for_servers-Reaches :
      (f : Text → Run (Unit {0}))
      → ((h : Text) → Listed items h → Reaches items (f h))
      → Reaches items (for_each f (servers items))
  for_servers-Reaches f k =
      each-Reaches f (servers items) (
        All-mono (Listed items) (λ h. Reaches items (f h)) (servers items) (servers-Listed items) k)

  pub Listed-loop-Reaches :
      (f : Text → Run (Unit {0})) (xs : List Text)
      → All (Listed items) xs
      → ((h : Text) → Listed items h → Reaches items (f h))
      → Reaches items (for_each f xs)
  Listed-loop-Reaches f xs known k =
      each-Reaches f xs (All-mono (Listed items) (λ h. Reaches items (f h)) xs known k)

  -- A loop whose body is harmless for every element.
  pub any_loop-Reaches :
      {A : Type 0} (f : A → Run (Unit {0})) (xs : List A)
      → ((x : A) → Reaches items (f x))
      → Reaches items (for_each f xs)
  unfolding for_each
  any_loop-Reaches f [] k = tt
  any_loop-Reaches f (x ∷ xs) k = seq-Reaches (f x) (for_each f xs) (k x) (any_loop-Reaches f xs k)

  pub role_loop-Reaches :
      (role : Text) (f : Text → Run (Unit {0}))
      → ((h : Text) → Listed items h → Reaches items (f h))
      → Reaches items (lift (servers_by_role role items) >>= λ nodes. for_each f nodes)
  role_loop-Reaches role f k =
      lift-Reaches (servers_by_role role items) (λ nodes. for_each f nodes)
        λ nodes read. Listed-loop-Reaches f nodes (servers_by_role-Listed role items read) k

  -- One call.
  pub say-Reaches : (c : Call) → All (Listed items) (named c) → Reaches items (say c)
  say-Reaches c h = (h, tt)

  -- Statements one after the other.
  pub in_order-Reaches :
      (rs : List (Run (Unit {0}))) → All (λ r. Reaches items r) rs → Reaches items (in_order rs)
  unfolding in_order
  in_order-Reaches [] h = tt
  in_order-Reaches (r ∷ rs) h = seq-Reaches r (in_order rs) h.0 (in_order-Reaches rs h.1)
