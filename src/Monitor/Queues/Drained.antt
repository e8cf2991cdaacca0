-- ===== src/Monitor/Queues/Drained.antt =====
-- About the waits of perfrunner/helpers/monitor.py for empty queues and for a rebalance.
use perfrunner.Prelude.{
  ℕ, zero, suc, ◌+◌, ◌-◌, ◌*◌, ◌≤◌, ◌<◌, ◌≡◌, refl, ◌⊎◌, inl, inr, true, false, List, [], ◌∷◌,
  Option, none, some, ok, err, runtime_error, arith, ltb, Bool-cases,
}
use perfrunner.Text.{Text, eq_text}
use perfrunner.Text.Equality.{eq_text-eq}
use perfrunner.Monitor.{timeout, rebalance_timeout}
use perfrunner.Monitor.Queues.{
  is_drained, drain, remove, wait_for_empty_queues, Status, same_progress, completed, hung,
  monitor_rebalance,
}

-- The call has ended, in one way or another.
abbrev pub Ended {ℓ} : {A : Type ℓ} → Option A → Type ℓ
Ended {A = A} o = (a : A) × (o ≡ some a)

not_late : (t e : ℕ) → ltb t e ≡ false → e ≤ t
not_late t e h = ground arith

wait-Ended :
    (stats : ℕ → Text → Option (List ℕ)) (elapsed : ℕ → ℕ) (fuel round : ℕ) (metrics : List Text)
    → ((r : ℕ) → 2 * r ≤ elapsed r)
    → round ≤ 21601
    → 21601 < fuel + round
    → Ended (wait_for_empty_queues stats elapsed fuel round metrics)
unfolding wait_for_empty_queues
wait-Ended stats elapsed fuel round [] paced h p = (ok tt, refl)
wait-Ended stats elapsed zero round (m ∷ ms) paced h p = absurd (omega arith)
wait-Ended stats elapsed (suc fuel) round (m ∷ ms) paced h p =
    elim (Bool-cases (ltb timeout (elapsed round))) [
      | inl over ↦ (err (runtime_error "Monitoring got stuck"), (rw over refl))
      | inr within ↦
          let early : elapsed round ≤ timeout = not_late timeout (elapsed round) within in
          let metrics = drain (stats round) (m ∷ ms) (m ∷ ms) in
          rw within (
            wait-Ended stats elapsed fuel (round + 1) metrics paced (omega (arith, paced round))
              (omega arith))
    ]

-- If no round is faster than the two seconds of its pause, the wait for empty queues ends within
-- 21,602 rounds, whatever the statistics say: it returns, or it raises an exception.
pub wait_for_empty_queues-Ended :
    (stats : ℕ → Text → Option (List ℕ)) (elapsed : ℕ → ℕ) (metrics : List Text)
    → ((r : ℕ) → 2 * r ≤ elapsed r)
    → Ended (wait_for_empty_queues stats elapsed 21602 0 metrics)
wait_for_empty_queues-Ended stats elapsed metrics paced =
    wait-Ended stats elapsed 21602 0 metrics paced (omega arith) (omega arith)

abbrev pub In : Text → List Text → Type 0
In x [] = ⊥
In x (m ∷ ms) = (x ≡ m) ⊎ In x ms

In-remove : (x m : Text) (ms : List Text) → In x ms → In x (remove m ms) ⊎ (x ≡ m)
unfolding remove
In-remove x m [] h = absurd h
In-remove x m (n ∷ ns) h = elim (Bool-cases (eq_text m n)) [
  | inl same ↦
      let e : m ≡ n = eq_text-eq m n same in
      rw same (elim h [ inl here ↦ inr (cc) | inr there ↦ inl there ])
  | inr other ↦ rw other (elim h [
    | inl here ↦ inl (inl here)
    | inr there ↦ elim (In-remove x m ns there) [ inl kept ↦ inl (inr kept) | inr e ↦ inr e ]
  ])
]

-- A metric that a round takes off the list was at 0 in that round.
In-drain :
    (stats : Text → Option (List ℕ)) (x : Text) (copy metrics : List Text)
    → In x metrics
    → In x (drain stats copy metrics) ⊎ (is_drained (stats x) ≡ true)
unfolding drain
In-drain stats x [] metrics h = inl h
In-drain stats x (m ∷ copy) metrics h = elim (Bool-cases (is_drained (stats m))) [
  | inr full ↦ rw full (In-drain stats x copy metrics h)
  | inl empty ↦ elim (In-remove x m metrics h) [
    | inl kept ↦ rw empty (In-drain stats x copy (remove m metrics) kept)
    | inr e ↦ inr (rw e empty)
  ]
]

-- If the wait for empty queues returns, then each of the queues was seen at 0 in some round.
pub wait_for_empty_queues-drains :
    (stats : ℕ → Text → Option (List ℕ)) (elapsed : ℕ → ℕ) (fuel round : ℕ) (metrics : List Text)
    (x : Text)
    → wait_for_empty_queues stats elapsed fuel round metrics ≡ some (ok tt)
    → In x metrics
    → (r : ℕ) × (round ≤ r) × (is_drained (stats r x) ≡ true)
unfolding wait_for_empty_queues
wait_for_empty_queues-drains stats elapsed fuel round [] x e h = absurd h
wait_for_empty_queues-drains stats elapsed zero round (m ∷ ms) x e h = absurd (cc e)
wait_for_empty_queues-drains stats elapsed (suc fuel) round (m ∷ ms) x e h =
    let metrics = drain (stats round) (m ∷ ms) (m ∷ ms) in
    elim (Bool-cases (ltb timeout (elapsed round))) [
      | inl over ↦ absurd (cc (rw over at e))
      | inr within ↦ elim (In-drain (stats round) x (m ∷ ms) (m ∷ ms) h) [
        | inr seen ↦ (round, omega arith, seen)
        | inl kept ↦
            let (r, later, seen) =
              wait_for_empty_queues-drains stats elapsed fuel (round + 1) metrics x (rw within at e)
                kept in
            (r, omega arith, seen)
      ]
    ]

same_progress_refl : (p : Option ℕ) → same_progress p p ≡ true
unfolding same_progress
same_progress_refl none = refl
same_progress_refl (some a) = ground arith

module _ (status : ℕ → Status) (now : ℕ → ℕ) (paced : (r : ℕ) → now r + 2 ≤ now (r + 1)) where
  -- The progress is the last one from a round on, which is `waited` rounds behind its change.
  stuck-Ended :
      (fuel round waited : ℕ) (progress : Option ℕ) (last_time : ℕ)
      → ((r : ℕ) → round ≤ r → same_progress (status r).progress progress ≡ true)
      → last_time + 2 * waited ≤ now round
      → waited ≤ 10801
      → 10801 < fuel + waited
      → Ended (monitor_rebalance status now fuel round progress last_time)
  unfolding monitor_rebalance
  stuck-Ended zero round waited progress last_time stuck late h p = absurd (omega arith)
  stuck-Ended (suc fuel) round waited progress last_time stuck late h p =
      rw (stuck round (omega arith))
        (elim (Bool-cases (ltb rebalance_timeout (now round - last_time))) [
          | inl over ↦ (hung, (rw over refl))
          | inr within ↦
              let early : now round - last_time ≤ rebalance_timeout =
                not_late rebalance_timeout (now round - last_time) within in
              rw within (elim (Bool-cases (status round).is_running) [
                | inr done ↦ (completed, (rw done refl))
                | inl running ↦ rw running (
                    stuck-Ended fuel (round + 1) (waited + 1) progress last_time
                      (λ r later. stuck r (omega arith)) (omega (arith, paced round)) (omega arith)
                      (omega arith))
              ])
        ])

  -- The round from which the progress stays the same.
  stops-Ended :
      (fuel round : ℕ) (progress last_progress : Option ℕ) (last_time : ℕ)
      → ((r : ℕ) → round ≤ r → (status r).progress ≡ progress)
      → last_time ≤ now round
      → 10801 < fuel
      → Ended (monitor_rebalance status now fuel round last_progress last_time)
  unfolding monitor_rebalance
  stops-Ended zero round progress last_progress last_time stuck late p = absurd (omega arith)
  stops-Ended (suc fuel) round progress last_progress last_time stuck late p =
      let here = stuck round (omega arith) in
      elim (Bool-cases (same_progress progress last_progress)) [
        | inl same ↦
            stuck-Ended (suc fuel) round 0 last_progress last_time
              (λ r later. rw (stuck r later) same) (omega arith) (omega arith) (omega arith)
        | inr moved ↦
            rw (here, moved)
              (elim (Bool-cases (status round).is_running) [
                | inr done ↦ (completed, (rw done refl))
                | inl running ↦ rw running (
                    stuck-Ended fuel (round + 1) 1 progress (now round)
                      (λ r later. rw (stuck r (omega arith)) (same_progress_refl progress))
                      (omega (arith, paced round)) (omega arith) (omega arith))
              ])
      ]

  -- The rounds in front of it.
  rebalance-Ended :
      (more round : ℕ) (progress last_progress : Option ℕ) (last_time : ℕ)
      → ((r : ℕ) → round + more ≤ r → (status r).progress ≡ progress)
      → last_time ≤ now round
      → Ended (monitor_rebalance status now (more + 10802) round last_progress last_time)
  unfolding monitor_rebalance
  rebalance-Ended zero round progress last_progress last_time stuck late =
      stops-Ended 10802 round progress last_progress last_time (λ r later. stuck r (omega arith))
        late (omega arith)
  rebalance-Ended (suc more) round progress last_progress last_time stuck late =
      let rest = λ (last : Option ℕ) (t : ℕ) (h : t ≤ now (round + 1)).
        rebalance-Ended more (round + 1) progress last t (λ r later. stuck r (omega arith)) h in
      let same = rest last_progress last_time (omega (arith, paced round)) in
      let moved = rest (status round).progress (now round) (omega (arith, paced round)) in
      let one_more : suc more + 10802 ≡ suc (more + 10802) = omega arith in
      rw one_more (elim (Bool-cases (same_progress (status round).progress last_progress)) [
        | inl still ↦ elim (Bool-cases (ltb rebalance_timeout (now round - last_time))) [
          | inl over ↦ (hung, (rw (still, over) refl))
          | inr within ↦ elim (Bool-cases (status round).is_running) [
            | inl running ↦ rw (still, within, running) same
            | inr done ↦ (completed, (rw (still, within, done) refl))
          ]
        ]
        | inr other ↦ elim (Bool-cases (status round).is_running) [
          | inl running ↦ rw (other, running) moved
          | inr done ↦ (completed, (rw (other, done) refl))
        ]
      ])

-- If no round is faster than the two seconds of its pause: a rebalance whose progress does not change
-- any more from some round on, whatever it is and whatever it was before, is not waited for any longer
-- than 10,802 rounds from then. The wait begins as the program begins it, with the progress 0.
pub monitor_rebalance-Ended :
    (status : ℕ → Status) (now : ℕ → ℕ) (round start : ℕ) (progress : Option ℕ)
    → ((r : ℕ) → now r + 2 ≤ now (r + 1))
    → start ≤ now 0
    → ((r : ℕ) → round ≤ r → (status r).progress ≡ progress)
    → Ended (monitor_rebalance status now (round + 10802) 0 (some 0) start)
monitor_rebalance-Ended status now round start progress paced begun stuck =
    rebalance-Ended status now paced round 0 progress (some 0) start
      (λ r later. stuck r (omega arith)) begun
