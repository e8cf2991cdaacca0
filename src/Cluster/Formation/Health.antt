-- ===== src/Cluster/Formation/Health.antt =====
-- About the wait of perfrunner/helpers/cluster.py for healthy nodes behind a rebalance.
use perfrunner.Prelude.{◌≡◌, refl, List, [], ◌∷◌, ok, some, All, All-append}
use perfrunner.Text.{Text}
use perfrunner.Config.{masters}
use perfrunner.Cluster.{
  Call, monitor_node_health, monitor_analytics_node_active, for_each, say, ◌>>◌, ClusterManager,
  Answers,
}
use perfrunner.Cluster.Nodes.{wait_until_healthy}
use perfrunner.Cluster.Steps.{done, flat, for_each-done, for_masters-done, All-always}
use perfrunner.Cluster.Formation.{ClusterService, serve_all, Accepted}

module _ (w : ClusterService) where
  open w use {State, serve, accepts_health, accepts_active}

  -- Calls that change nothing.
  abbrev IsIdle : State → Call → Type 0
  IsIdle s c = serve c s ≡ some s

  serve_all-IsIdle : (s : State) (cs : List Call) → All (IsIdle s) cs → serve_all w cs s ≡ some s
  unfolding serve_all
  serve_all-IsIdle s [] idle = refl
  serve_all-IsIdle s (c ∷ cs) idle = rw (idle.0) (serve_all-IsIdle s cs idle.1)

  flat-IsIdle :
      {A : Type 0} (s : State) (f : A → List Call) (xs : List A)
      → ((x : A) → All (IsIdle s) (f x))
      → All (IsIdle s) (flat f xs)
  flat-IsIdle s f [] idle = tt
  flat-IsIdle s f (x ∷ xs) idle =
      All-append (IsIdle s) (f x) (flat f xs) (idle x) (flat-IsIdle s f xs idle)

  abbrev active : Text → List Call
  active node = monitor_analytics_node_active node ∷ []

  -- The calls for one master.
  abbrev health : Answers → Text → List Call
  health answers master =
      monitor_node_health master ∷ flat active (answers.active_analytics_nodes master)

  health-done :
      (answers : Answers) (master : Text)
      → (say (monitor_node_health master)
          >> for_each
              (λ node. say (monitor_analytics_node_active node))
              (answers.active_analytics_nodes master))
        ≡ done (health answers master)
  health-done answers master =
      let nodes = answers.active_analytics_nodes master in
      rw
        (for_each-done (λ node. say (monitor_analytics_node_active node)) active nodes
          (All-always (λ node. say (monitor_analytics_node_active node) ≡ done (active node)) nodes
            (λ node. refl)))
        refl

  health-IsIdle :
      (answers : Answers) (s : State) (master : Text) → All (IsIdle s) (health answers master)
  health-IsIdle answers s master = (
    accepts_health s master,
    flat-IsIdle s active (answers.active_analytics_nodes master)
        (λ node. (accepts_active s node, tt)),
  )

  pub wait_until_healthy-Accepted :
      (answers : Answers) (m : ClusterManager) (s : State) (P : State → Type 0) {ms : List Text}
      → masters m.items ≡ ok ms
      → P s
      → Accepted w s (wait_until_healthy answers m) P
  unfolding wait_until_healthy
  wait_until_healthy-Accepted answers m s P {ms} read holds = (
    flat (health answers) ms,
    s,
    for_masters-done _ (health answers) m.items read (health-done answers),
    serve_all-IsIdle s (flat (health answers) ms)
        (flat-IsIdle s (health answers) ms (health-IsIdle answers s)),
    holds,
  )
