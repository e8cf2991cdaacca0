-- ===== src/Cluster/Formation.antt =====
-- What the service of a cluster asks of the requests of perfrunner/helpers/cluster.py that form it.
mod Groups
mod Joining
mod Health
pub mod Forming
use perfrunner.Prelude.{
  ℕ, zero, suc, ◌+◌, ◌-◌, ◌≤◌, ◌<◌, ◌≡◌, refl, sym, ap, ◌∙◌, Bool, true, false, List, [], ◌∷◌, ◌++◌,
  map, Option, none, some, Result, ok, err, arith, if◌then◌else◌, Bool-cases, Option-cases, inl,
  inr, length, take, drop, slice, All, All-append, All-take, All-drop, All-mono,
}
use mathlib.Core.List.{append_assoc, append-nil}
use perfrunner.Prelude
use perfrunner.Prelude.Int.{ℤ, pos, negsuc, to_ℕ, ltb_ℤ}
use perfrunner.Text.{Text, eq_text}
use perfrunner.Text.Equality.{eq_text-eq, eq_text_refl, eq_text_sym}
use perfrunner.Config.{Options, servers, roles, roles_of, masters, clusters, first_server, host_of}
use perfrunner.Text.Words.{split}
use perfrunner.Config.Hosts.{Absent, Distinct, roles-found}
use perfrunner.Rebalance.{py_slice}
use perfrunner.Cluster.{
  Call, add_node, rebalance, monitor_rebalance, monitor_node_health, monitor_analytics_node_active,
  Run, ◌>>=◌, ◌>>◌, return, lift, say, for_each, ClusterManager, cluster_hosts, hosts,
}
use perfrunner.Cluster.Nodes.{add_each, add_nodes_to, add_nodes, rebalance_each}
use perfrunner.Cluster.Steps.{done, flat, for_each-done, servers-flat}

-- What the documentation of the servers says of the requests that form a cluster, by the host that
-- they are sent to: a node is accepted that is alone in its own cluster, for services that the servers
-- offer, by a host that is the first member of its cluster, and becomes a member, while the clusters of other nodes stay as they are; a rebalance is
-- accepted that names exactly the members and ejects none, and changes no membership.
pub record ClusterService : Type 1 where
  pub State : Type 0
  pub members : State → Text → List Text
  pub offers : Text → Type 0
  pub serve : Call → State → Option State
  pub accepts_node :
      (s : State) (host node services : Text) (others : List Text)
      → members s host ≡ host ∷ others
      → Absent node (members s host)
      → members s node ≡ node ∷ []
      → offers services
      → (t : State) × (serve (add_node host node services) s ≡ some t)
        × (members t host ≡ members s host ++ node ∷ [])
        × ((h : Text) → Absent h (members s host ++ node ∷ []) → members t h ≡ members s h)
  pub accepts_rebalance :
      (s : State) (host : Text) (known : List Text)
      → members s host ≡ known
      → (t : State) × (serve (rebalance host known []) s ≡ some t)
        × ((h : Text) → members t h ≡ members s h)
  pub accepts_wait : (s : State) (host : Text) → serve (monitor_rebalance host) s ≡ some s
  pub accepts_health : (s : State) (host : Text) → serve (monitor_node_health host) s ≡ some s
  pub accepts_active :
      (s : State) (host : Text) → serve (monitor_analytics_node_active host) s ≡ some s

abbrev and_then {ℓ} : {A : Type ℓ} → Option A → (A → Option A) → Option A
and_then none f = none
and_then (some a) f = f a

module _ (w : ClusterService) where
  open w use {State, members, offers, serve}

  -- Each of the calls is accepted in turn.
  unfoldable pub serve_all : List Call → State → Option State
  serve_all [] s = some s
  serve_all (c ∷ cs) s = and_then (serve c s) (serve_all cs)

  pub serve_all-append :
      (xs ys : List Call) (s : State) {t : State}
      → serve_all xs s ≡ some t
      → serve_all (xs ++ ys) s ≡ serve_all ys t
  unfolding serve_all
  serve_all-append [] ys s {t} h = let e : s ≡ t = cc in rw e refl
  serve_all-append (x ∷ xs) ys s {t} h = elim (Option-cases (serve x s)) [
    | inl refused ↦ cc (rw refused at h)
    | inr (u, e) ↦ rw e (serve_all-append xs ys u (rw e at h))
  ]

  -- The members of the clusters whose masters are `h`, as the first of their servers.
  unfoldable pub Formed : State → List (List Text) → List ℤ → Type 0
  Formed s [] ns = Unit {0}
  Formed s (ss ∷ cs) [] = Unit {0}
  Formed s ([] ∷ cs) (n ∷ ns) = ⊥
  Formed s ((h ∷ ss) ∷ cs) (n ∷ ns) = (members s h ≡ take (to_ℕ n) (h ∷ ss)) × Formed s cs ns

  -- Every one of the servers is the only member of its cluster.
  unfoldable pub Alone : State → List Text → Type 0
  Alone s ms = All (λ h. members s h ≡ h ∷ []) ms

  -- The services of a server can be read, and are offered.
  unfoldable pub IsOffered : Options → Text → Type 0
  IsOffered items h = (r : Text) × (roles_of h items ≡ ok r) × offers r

  -- The run ends well, the service accepts its calls, and the state afterwards satisfies `P`.
  abbrev pub Accepted : State → Run (Unit {0}) → (State → Type 0) → Type 0
  Accepted s r P = (cs : List Call) × (t : State) × (r ≡ done cs) × (serve_all cs s ≡ some t) × P t
