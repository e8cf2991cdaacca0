-- ===== src/Rebalance/Failover/Spared.antt =====
-- About the nodes that fail in the tests of perfrunner/tests/rebalance.py.
use perfrunner.Prelude.{
  ℕ, zero, suc, ◌+◌, ◌-◌, ◌≤◌, ◌<◌, ◌≡◌, refl, sym, ◌∙◌, List, [], ◌∷◌, ◌++◌, arith, length, take,
  drop, Returns, returns_bind,
}
use perfrunner.Prelude.Int.{pos--ℤ}
use mathlib.Core.List.{append_assoc}
use perfrunner.Text.{Text}
use perfrunner.Rebalance.{
  Call, fail_over, graceful_fail_over, shutdown, set_write_permissions, failed_of, py_slice,
}
use perfrunner.Rebalance.Nodes.{take_nil}
use perfrunner.Rebalance.Failover.{
  FailoverKind, hard_failover, graceful_failover, auto_failover, failure_detection,
  disk_failure_detection, fail_one, names_master, fail_each, master_if, failover_calls,
}

-- The nodes that a call takes out of service.
hit : Call → List Text
hit (fail_over master node) = node ∷ []
hit (graceful_fail_over master node) = node ∷ []
hit (shutdown node) = node ∷ []
hit (set_write_permissions perm node path) = node ∷ []
hit _ = []

pub hits : List Call → List Text
hits [] = []
hits (c ∷ cs) = hit c ++ hits cs

-- The last `failed` of the first `initial` servers.
abbrev pub last_initial : ℕ → ℕ → List Text → List Text
last_initial failed initial servers = drop (initial - failed) (take initial servers)

pub all_failing : ℕ → List (List Text) → List ℕ → List Text
all_failing failed (servers ∷ clusters) (i ∷ initial) =
    last_initial failed i servers ++ all_failing failed clusters initial
all_failing failed [] initial = []
all_failing failed (servers ∷ clusters) [] = []

-- A cluster has its initial nodes, more of them than are to fail.
unfoldable pub Fits : ℕ → List (List Text) → List ℕ → Type 0
Fits failed (servers ∷ clusters) (i ∷ initial) =
    (failed < i) × (i ≤ length servers) × Fits failed clusters initial
Fits failed [] initial = Unit {0}
Fits failed (servers ∷ clusters) [] = Unit {0}

hits-append : (cs ds : List Call) → hits (cs ++ ds) ≡ hits cs ++ hits ds
unfolding hits
hits-append [] ds = refl
hits-append (c ∷ cs) ds = rw (hits-append cs ds) (sym (append_assoc (hit c) (hits cs) (hits ds)))

fail_one-hits :
    (kind : FailoverKind) (master node : Text) → hits (fail_one kind master node) ≡ node ∷ []
unfolding fail_one hits hit
fail_one-hits hard_failover master node = refl
fail_one-hits graceful_failover master node = refl
fail_one-hits auto_failover master node = refl
fail_one-hits failure_detection master node = refl
fail_one-hits (disk_failure_detection path) master node = refl

fail_each-hits :
    (kind : FailoverKind) (master : Text) (nodes : List Text)
    → hits (fail_each kind master nodes) ≡ nodes
unfolding hits
fail_each-hits kind master [] = refl
fail_each-hits kind master (n ∷ ns) =
    hits-append (fail_one kind master n) (fail_each kind master ns)
    ∙ (rw (fail_one-hits kind master n, fail_each-hits kind master ns) refl)

take-drop_slice : (a c : ℕ) (xs : List Text) → drop a (take (a + c) xs) ≡ take c (drop a xs)
take-drop_slice zero c xs = let e : 0 + c ≡ c = omega arith in rw e refl
take-drop_slice (suc a) c [] =
    let e : suc a + c ≡ suc (a + c) = omega arith in rw (e, take_nil c) refl
take-drop_slice (suc a) c (x ∷ xs) =
    let e : suc a + c ≡ suc (a + c) = omega arith in rw e (take-drop_slice a c xs)

failed_of-last_initial :
    (servers : List Text) (failed initial : ℕ)
    → failed ≤ initial
    → failed_of servers initial failed ≡ last_initial failed initial servers
unfolding failed_of py_slice
failed_of-last_initial servers failed initial less =
    let e : initial - failed + failed ≡ initial = omega arith in
    let back : initial - (initial - failed) ≡ failed = omega arith in
    let cut = take-drop_slice (initial - failed) failed servers in
    rw (pos--ℤ initial failed less, back) (sym (rw e at cut))

-- The first server, where there is one.
has_master :
    (kind : FailoverKind) (servers : List Text)
    → 0 < length servers
    → Returns (master_if (names_master kind) servers) (λ _. Unit)
has_master kind [] some_server = absurd (omega arith)
has_master hard_failover (s ∷ ss) some_server = tt
has_master graceful_failover (s ∷ ss) some_server = tt
has_master auto_failover (s ∷ ss) some_server = tt
has_master failure_detection (s ∷ ss) some_server = tt
has_master (disk_failure_detection path) (s ∷ ss) some_server = tt

-- Where each cluster has its initial nodes, more of them than are to fail: each kind of failover raises
-- no exception, and takes out of service exactly the last nodes of each cluster's initial ones, as
-- many as are to fail, cluster by cluster.
pub failover_calls-hits :
    (kind : FailoverKind) (failed : ℕ) (clusters : List (List Text)) (initial : List ℕ)
    → Fits failed clusters initial
    → Returns
        (failover_calls kind failed clusters initial)
        (λ calls. hits calls ≡ all_failing failed clusters initial)
unfolding failover_calls Fits all_failing hits
failover_calls-hits kind failed [] initial fits = refl
failover_calls-hits kind failed (servers ∷ clusters) [] fits = refl
failover_calls-hits kind failed (servers ∷ clusters) (i ∷ initial) fits =
    let (fewer, room, others) = fits in
    returns_bind (λ _. Unit) _ (master_if (names_master kind) servers) _
      (has_master kind servers (omega arith))
      λ master _.
        returns_bind (λ calls. hits calls ≡ all_failing failed clusters initial) _
          (failover_calls kind failed clusters initial) _
          (failover_calls-hits kind failed clusters initial others)
          λ calls rest.
            hits-append (fail_each kind master (failed_of servers i failed)) calls
            ∙ (rw
                (
                  fail_each-hits kind master (failed_of servers i failed),
                  failed_of-last_initial servers failed i (omega arith),
                  rest,
                )
                refl)
