-- ===== src/PerfTest/Endings.antt =====
-- About the end of a test whose phases raise nothing, `__exit__` of perfrunner/tests/__init__.py.
use perfrunner.Prelude.{
  ℕ, zero, suc, ◌≡◌, refl, Bool, true, false, List, [], ◌∷◌, Option, none, some, ◌↔◌, All,
  Bool-cases, inl, inr,
}
use perfrunner.Text.{Text}
use perfrunner.Config.Options.{RebalanceSettings}
use perfrunner.PerfTest.{
  Failure, TearDown, tear_down, check_core_dumps, dumps_failure, check_rebalance, check_failover,
  first_failover, has_chars, or_else, debug, exit, finished, Action, Ending, ending_of,
}

unfoldable pub HasNoDumps : Text × List Text → Type 0
HasNoDumps h = h.1 ≡ []

-- No master has counted a failover, or the test's settings for a rebalance name a kind of failover.
unfoldable pub IsExpected : Option RebalanceSettings → List ℕ → Type 0
IsExpected none counters = All (λ n. n ≡ 0) counters
IsExpected (some s) counters = has_chars s.failover ≡ true

dumps_failure-none : (hosts : List (Text × List Text)) → dumps_failure hosts ≡ none → hosts ≡ []
dumps_failure-none [] e = refl
dumps_failure-none (h ∷ hs) e = cc

check_core_dumps_lem :
    (dumps : List (Text × List Text)) → (check_core_dumps dumps ≡ none) ↔ All HasNoDumps dumps
unfolding check_core_dumps HasNoDumps
check_core_dumps_lem [] = (λ e. tt, λ all. refl)
check_core_dumps_lem ((host, []) ∷ hs) =
    let rest = check_core_dumps_lem hs in (λ e. (refl, rest.0 e), λ all. rest.1 all.1)
check_core_dumps_lem ((host, d ∷ ds) ∷ hs) = (λ e. cc, λ all. absurd (cc all.0))

check_rebalance_lem :
    (answers : List Bool) → (check_rebalance answers ≡ none) ↔ All (λ b. b ≡ false) answers
unfolding check_rebalance
check_rebalance_lem [] = (λ e. tt, λ all. refl)
check_rebalance_lem (false ∷ bs) =
    let rest = check_rebalance_lem bs in (λ e. (refl, rest.0 e), λ all. rest.1 all.1)
check_rebalance_lem (true ∷ bs) = (λ e. cc, λ all. absurd (cc all.0))

first_failover_lem :
    (counters : List ℕ) → (first_failover counters ≡ none) ↔ All (λ n. n ≡ 0) counters
first_failover_lem [] = (λ e. tt, λ all. refl)
first_failover_lem (zero ∷ ns) =
    let rest = first_failover_lem ns in (λ e. (refl, rest.0 e), λ all. rest.1 all.1)
first_failover_lem (suc n ∷ ns) = (λ e. cc, λ all. absurd (cc all.0))

or_else_lem : (f g : Option Failure) → (or_else f g ≡ none) ↔ ((f ≡ none) × (g ≡ none))
or_else_lem none g = (λ e. (refl, e), λ both. both.1)
or_else_lem (some f) g = (λ e. cc, λ both. absurd (cc both.0))

ending_lem :
    {actions : List Action} (f : Option Failure)
    → (◌≡◌ {A = List Action × Ending} (actions, ending_of f none) (actions, finished)) ↔ (f ≡ none)
ending_lem none = (λ e. refl, λ e. refl)
ending_lem (some f) = (λ e. cc, λ e. absurd (cc e))

-- What the checks find together, by what each of them finds.
none_found :
    (dumps : List (Text × List Text)) (answers : List Bool) (f : Option Failure)
    → (or_else f (or_else (check_rebalance answers) (check_core_dumps dumps)) ≡ none)
      ↔ (All HasNoDumps dumps × All (λ b. b ≡ false) answers × (f ≡ none))
none_found dumps answers f =
    let outer = or_else_lem f (or_else (check_rebalance answers) (check_core_dumps dumps)) in
    let inner = or_else_lem (check_rebalance answers) (check_core_dumps dumps) in
    let no_dumps = check_core_dumps_lem dumps in
    let balanced = check_rebalance_lem answers in
    (
      (λ e.
          let both = outer.0 e in
          let found = inner.0 both.1 in (no_dumps.0 found.1, balanced.0 found.0, both.0)),
      (λ all. outer.1 (all.2, inner.1 (balanced.1 all.1, no_dumps.1 all.0))),
    )

-- A test whose phases raise nothing is torn down and ends without a message exactly if no host has a
-- core dump, every cluster is balanced, and no master has counted a failover; but failovers do not
-- count where the test has settings for a rebalance, if these name a kind of failover, and where they
-- name none the test does not end so.
pub exit-finished :
    (s : TearDown) (dumps : List (Text × List Text)) (answers : List Bool)
    (rebalance_settings : Option RebalanceSettings) (counters : List ℕ)
    → (exit s
          (debug
            (check_core_dumps dumps)
            (check_rebalance answers)
            (check_failover rebalance_settings counters))
          none
        ≡ (tear_down s, finished))
      ↔ (All HasNoDumps dumps
          × All (λ b. b ≡ false) answers
          × IsExpected rebalance_settings counters)
unfolding exit debug check_failover IsExpected
exit-finished s dumps answers none counters =
    let ends = ending_lem (or_else (first_failover counters) _) in
    let found = none_found dumps answers (first_failover counters) in
    let counted = first_failover_lem counters in
    (
      (λ e. let all = found.0 (ends.0 e) in (all.0, all.1, counted.0 all.2)),
      (λ all. ends.1 (found.1 (all.0, all.1, counted.1 all.2))),
    )
exit-finished s dumps answers (some r) counters = elim (Bool-cases (has_chars r.failover)) [
  | inl named ↦
      let ends = ending_lem (or_else none _) in
      let found = none_found dumps answers none in
      (
        (λ e. let all = found.0 (ends.0 (rw named at e)) in (all.0, all.1, named)),
        (λ all. rw named (ends.1 (found.1 (all.0, all.1, refl)))),
      )
  | inr empty ↦ ((λ e. absurd (cc (rw empty at e))), (λ all. absurd (cc (empty, all.2))))
]
