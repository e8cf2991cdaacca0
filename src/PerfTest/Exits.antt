-- ===== src/PerfTest/Exits.antt =====
-- About the checks at the end of a test (perfrunner/tests/__init__.py) with the settings that
-- perfrunner/settings.py reads.
use perfrunner.Prelude.{
  ℕ, ◌≡◌, ◌≢◌, refl, List, [], ◌∷◌, Option, none, some, Result, ok, err, ◌>>=◌, true,
}
use mathlib.Core.Path.{subst}
use perfrunner.Prelude.Int.{pos}
use perfrunner.Text.{Text, codes}
use perfrunner.Text.Words.{split}
use perfrunner.Config.{Options, lookup}
use perfrunner.Config.Options.{or_default, get_int, RebalanceSettings, rebalance_settings}
use perfrunner.Config.Options
use perfrunner.PerfTest.{check_failover, has_chars}

-- The case of the option.
not_empty : (o : Option Text) → o ≢ some [] → has_chars (or_default (codes "hard") o) ≡ true
not_empty none named = refl
not_empty (some []) named = absurd (named refl)
not_empty (some (c ∷ t)) named = refl

-- What holds of every result behind a step holds of the results of both.
behind :
    {A B : Type 0} (P : B → Type 0) (r : Result A) (f : A → Result B)
    → ((a : A) (b : B) → f a ≡ ok b → P b)
    → (b : B) → (r >>= f) ≡ ok b
    → P b
behind P (ok a) f holds b e = holds a b e
behind P (err x) f holds b e = cc

result : {B : Type 0} (P : B → Type 0) {a b : B} → P a → ok a ≡ ok b → P b
result P {a} {b} holds e = let same : a ≡ b = cc in subst P same holds

-- The settings have the option as it is written, or the default.
rebalance_settings-failover :
    (options : Options) (s : RebalanceSettings)
    → rebalance_settings options ≡ ok s
    → s.failover ≡ or_default (codes "hard") (lookup (codes "failover") options)
unfolding rebalance_settings
rebalance_settings-failover options =
    let P : RebalanceSettings → Type 0 =
      (λ s. s.failover ≡ or_default (codes "hard") (lookup (codes "failover") options)) in
    behind P (Options.ints (split (or_default [] (lookup (codes "nodes_after") options)))) _
      λ nodes_after. behind P (get_int (codes "swap") (pos 0) options) _ λ swap.
        behind P (get_int (codes "failed_nodes") (pos 1) options) _ λ failed_nodes.
          behind P (get_int (codes "delay_before_failover") (pos 600) options) _ λ delay.
            behind P (get_int (codes "delta_recovery") (pos 0) options) _ λ delta_recovery.
              behind P (get_int (codes "start_after") (pos 1200) options) _ λ start_after.
                behind P (get_int (codes "stop_after") (pos 1200) options) _
                  λ stop_after s e. result P refl e

-- Where the options of a test with a rebalance do not name a kind of failover, or name one, the check
-- for failovers finds nothing, however many the masters have counted.
pub check_failover-misses :
    (options : Options) (counters : List ℕ) {s : RebalanceSettings}
    → lookup (codes "failover") options ≢ some []
    → rebalance_settings options ≡ ok s
    → check_failover (some s) counters ≡ ok none
unfolding check_failover
check_failover-misses options counters {s} named e =
    let failover = rebalance_settings-failover options s e in
    rw (failover, not_empty (lookup (codes "failover") options) named) refl
