-- ===== src/Monitor/Replication/Times.antt =====
-- About the times that the wait of perfrunner/helpers/monitor.py for the replication over two links
-- takes down.
use perfrunner.Prelude.{
  ap, ◌∙◌, ◌<◌, ℕ, zero, suc, ◌+◌, ◌≡◌, ◌≢◌, refl, sym, true, false, List, [], ◌∷◌, some, ok, arith,
  Bool-cases, Result-cases, ◌⊎◌, inl, inr, ltb,
}
use mathlib.Core.Path.{subst}
use perfrunner.Text.{Text, codes}
use perfrunner.Monitor.{timeout}
use perfrunner.Monitor.Replication.{
  Samples, last_sample, Completion, replication_key, check_metrics, wait_for_replication_completion,
  no_completion,
}
use perfrunner.Monitor.Replication.Notes.{
  is_over, Kept, NotedIn, Settled, check_metrics-Kept, check_metrics-Settled,
}

module _ (samples : ℕ → Samples) (now elapsed : ℕ → ℕ) (link1 link2 : Text) where
  -- The noted values are those of the first round that is over, which is one of those that were run.
  pub record IsFirst (fuel : ℕ) (queues : List Text) (c : Completion) : Type 0 where
    over : ℕ
    ran : over < fuel
    is_now : is_over link1 link2 (samples over) queues ≡ true
    not_before : (j : ℕ) → j < over → is_over link1 link2 (samples j) queues ≡ false
    time : c.link1_time ≡ now over
    items :
        last_sample (samples over (replication_key link2 (codes "docs_written"))) ≡ ok c.link2_items

  wait-Kept :
      (fuel round : ℕ) (ms : List Text) (c d : Completion)
      → c.completion_count ≢ 0
      → wait_for_replication_completion samples now elapsed link1 link2 fuel round ms c
        ≡ some (ok d)
      → Kept link1 link2 c d
  unfolding wait_for_replication_completion
  wait-Kept fuel round [] c d before e =
      let same : c ≡ d = cc in
      subst (Kept link1 link2 c) same
        (record { noted = before; same_time = refl; same_items = refl })
  wait-Kept zero round (m ∷ ms) c d before e = cc
  wait-Kept (suc fuel) round (m ∷ ms) c d before e =
      elim (Result-cases (check_metrics (samples round) (now round) link1 link2 (m ∷ ms) c)) [
        | inr (x, failed) ↦ cc (rw failed at e)
        | inl (b, checked) ↦ elim (Bool-cases (ltb timeout (elapsed round))) [
          | inl late ↦ cc (rw (checked, late) at e)
          | inr in_time ↦
              let first =
                check_metrics-Kept link1 link2 (samples round) (now round) (m ∷ ms) c b before
                  checked in
              let later =
                wait-Kept fuel (round + 1) b.metrics b d first.noted (rw (checked, in_time) at e) in
              record {
                noted = later.noted;
                same_time = later.same_time ∙ first.same_time;
                same_items = later.same_items ∙ first.same_items;
              }
        ]
      ]

  earlier_or_now : (j round : ℕ) → j < round + 1 → (j < round) ⊎ (j ≡ round)
  earlier_or_now j round below = ground arith

  wait-IsFirst :
      (fuel round : ℕ) (m : Text) (ms : List Text) (c d : Completion)
      → c.completion_count ≡ 0
      → c.metrics ≡ m ∷ ms
      → ((j : ℕ) → j < round → is_over link1 link2 (samples j) (m ∷ ms) ≡ false)
      → wait_for_replication_completion samples now elapsed link1 link2 fuel round (m ∷ ms) c
        ≡ some (ok d)
      → IsFirst (round + fuel) (m ∷ ms) d
  unfolding wait_for_replication_completion
  wait-IsFirst zero round m ms c d before all not_yet e = cc
  wait-IsFirst (suc fuel) round m ms c d before all not_yet e =
      elim (Result-cases (check_metrics (samples round) (now round) link1 link2 (m ∷ ms) c)) [
        | inr (x, failed) ↦ cc (rw failed at e)
        | inl (b, checked) ↦ elim (Bool-cases (ltb timeout (elapsed round))) [
          | inl late ↦ cc (rw (checked, late) at e)
          | inr in_time ↦
              let settled =
                check_metrics-Settled link1 link2 (samples round) (now round) (m ∷ ms) c b before
                  checked in
              let rest : wait_for_replication_completion samples now elapsed link1 link2 fuel
                    (round + 1) b.metrics b
                  ≡ some (ok d) =
                rw (checked, in_time) at e in
              elim (Bool-cases (is_over link1 link2 (samples round) (m ∷ ms))) [
                | inl over ↦
                    let noted : NotedIn link1 link2 (samples round) (now round) b =
                      unfold Settled in rw over at settled in
                    let kept = wait-Kept fuel (round + 1) b.metrics b d noted.noted rest in
                    record {
                      over = round;
                      ran = omega arith;
                      is_now = over;
                      not_before = not_yet;
                      time = kept.same_time ∙ noted.time;
                      items = noted.items ∙ ap ok (sym kept.same_items);
                    }
                | inr going ↦
                    let same : c ≡ b = unfold Settled in rw going at settled in
                    let sums : round + suc fuel ≡ round + 1 + fuel = omega arith in
                    let unchanged : wait_for_replication_completion samples now elapsed link1 link2
                          fuel (round + 1) c.metrics c
                        ≡ some (ok d) =
                      rw (← same) at rest in
                    rw sums (
                      wait-IsFirst fuel (round + 1) m ms c d before all
                        (λ j below. elim (earlier_or_now j round below) [
                          | inl earlier ↦ not_yet j earlier
                          | inr at_round ↦ rw at_round going
                        ])
                        (subst
                          (λ (q : List Text).
                            wait_for_replication_completion samples now elapsed link1 link2 fuel
                              (round + 1) q c
                            ≡ some (ok d))
                          all unchanged))
              ]
        ]
      ]

-- If there is a queue to wait for, and the wait for the replication over two links returns: the time
-- and the number of items that it returns are the clock of the first of its rounds in which a queue is
-- empty, or has items left while one of the links is complete, and what the second link has written
-- in that round.
pub wait_for_replication_completion-IsFirst :
    (samples : ℕ → Samples) (now elapsed : ℕ → ℕ) (fuel : ℕ) (link1 link2 queue : Text)
    (queues : List Text) {c : Completion}
    → wait_for_replication_completion samples now elapsed link1 link2 fuel 0
        (queue ∷ queues)
        (no_completion (queue ∷ queues))
      ≡ some (ok c)
    → IsFirst samples now elapsed link1 link2 fuel (queue ∷ queues) c
wait_for_replication_completion-IsFirst samples now elapsed fuel link1 link2 queue queues {c}
      ended =
    let all : 0 + fuel ≡ fuel = omega arith in
    rw all at (
      wait-IsFirst samples now elapsed link1 link2 fuel 0 queue queues
        (no_completion (queue ∷ queues)) c refl refl (λ j below. absurd (omega arith)) ended)
