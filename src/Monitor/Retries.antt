-- ===== src/Monitor/Retries.antt =====
-- When the bounded polling loops of perfrunner/helpers/monitor.py give up.
use perfrunner.Prelude.{
  ℕ, zero, suc, ◌+◌, ◌-◌, ◌<◌, ◌≡◌, refl, ◌↔◌, ◌⊎◌, ◌≢◌, lt→ltb, runtime_error, Bool, true, false,
  Bool-cases, inl, inr, ok, err, arith, ◌==◌, List,
}
use perfrunner.Text.{Text}
use perfrunner.Monitor.{
  max_retry, poll_retries, gives_up, contains, wait_for_function_status, poll_connections,
  wait_for_num_connections, exhausts, monitor_num_items,
}

-- The tests of n rounds from the round r on: none is passed, or the one after k rounds is.
AllMissed : (ℕ → Bool) → ℕ → ℕ → Type 0
AllMissed done n r = (k : ℕ) → k < n → done (r + k) ≡ false

missed_next :
    (done : ℕ → Bool) (n r : ℕ)
    → done r ≡ false
    → AllMissed done n (r + 1)
    → AllMissed done (suc n) r
unfolding AllMissed
missed_next done n r now later zero l = let e : r + 0 ≡ r = omega arith in rw e now
missed_next done n r now later (suc k) l =
    let e : r + suc k ≡ r + 1 + k = omega arith in rw e (later k (omega arith))

poll_retries-cases :
    (done : ℕ → Bool) (n r : ℕ)
    → (AllMissed done n r × (poll_retries done n r ≡ r + n))
      ⊎ ((k : ℕ) × (k < n) × (done (r + k) ≡ true) × (poll_retries done n r ≡ r + k))
unfolding poll_retries AllMissed
poll_retries-cases done zero r = inl ((λ k l. absurd (omega arith)), omega arith)
poll_retries-cases done (suc n) r = elim (Bool-cases (done r)) [
  | inl now ↦
      let e : r + 0 ≡ r = omega arith in inr (0, omega arith, (rw e now), (rw now (omega arith)))
  | inr missed ↦ elim (poll_retries-cases done n (r + 1)) [
    | inl all ↦ inl (missed_next done n r missed all.0, (rw missed (omega (arith, all.1))))
    | inr (k, l, found, last) ↦
        let e : r + suc k ≡ r + 1 + k = omega arith in
        inr (suc k, omega arith, (rw e found), (rw missed (omega (arith, last))))
  ]
]

exhausts-cases :
    (done : ℕ → Bool) (n r : ℕ)
    → (AllMissed done n r × (exhausts done n r ≡ true))
      ⊎ ((k : ℕ) × (k < n) × (done (r + k) ≡ true) × (exhausts done n r ≡ false))
unfolding exhausts AllMissed
exhausts-cases done zero r = inl ((λ k l. absurd (omega arith)), refl)
exhausts-cases done (suc n) r = elim (Bool-cases (done r)) [
  | inl now ↦ let e : r + 0 ≡ r = omega arith in inr (0, omega arith, (rw e now), (rw now refl))
  | inr missed ↦ elim (exhausts-cases done n (r + 1)) [
    | inl all ↦ inl (missed_next done n r missed all.0, (rw missed all.1))
    | inr (k, l, found, last) ↦
        let e : r + suc k ≡ r + 1 + k = omega arith in
        inr (suc k, omega arith, (rw e found), (rw missed last))
  ]
]

differ : (a b : ℕ) → (a == b) ≡ false → a ≢ b
differ a b h = ground arith

agree : (a b : ℕ) → (a == b) ≡ true → a ≡ b
agree a b h = ground arith

-- The loop gives up exactly if no test is passed.
gives_up_lem : (done : ℕ → Bool) (n : ℕ) → (gives_up done (suc n) ≡ true) ↔ AllMissed done n 1
unfolding gives_up AllMissed
gives_up_lem done n =
    let e : suc n - 1 ≡ n = omega arith in
    elim (poll_retries-cases done n 1) [
      | inl (all, last) ↦ ((λ _. all), (λ _. rw (e, last) (ground arith)))
      | inr (k, l, found, last) ↦ (
        (λ h.
            let reached : poll_retries done n 1 ≡ suc n =
              agree (poll_retries done n 1) (suc n) (rw e at h) in
            absurd (omega arith)),
        (λ all. absurd (cc (found, all k l))),
      )
    ]

-- The wait for the status of a function logs its failure exactly if none of its 17,999 polls shows
-- the function.
pub wait_for_function_status_lem :
    (function : Text) (apps : ℕ → List Text)
    → (wait_for_function_status function apps ≡ true)
      ↔ ((k : ℕ) → k < 17999 → contains function (apps (1 + k)) ≡ false)
unfolding wait_for_function_status AllMissed
wait_for_function_status_lem function apps =
    gives_up_lem (λ retry. contains function (apps retry)) 17999

-- The check of the number of items returns exactly if one of the first 150 polls has that number; it
-- raises an exception otherwise.
pub monitor_num_items_lem :
    (curr_items : ℕ → ℕ) (num_items : ℕ)
    → ((k : ℕ) × (k < 150)
        × (curr_items k ≡ num_items)
        × (monitor_num_items curr_items num_items ≡ ok tt))
      ⊎ (((k : ℕ) → k < 150 → curr_items k ≢ num_items)
          × (monitor_num_items curr_items num_items
              ≡ err (runtime_error "Mismatch in the number of items")))
unfolding monitor_num_items AllMissed
monitor_num_items_lem curr_items num_items =
    let done = λ (retry : ℕ). curr_items retry == num_items in
    elim (exhausts-cases done max_retry 0) [
      | inl (all, last) ↦ inr (
        (λ k l.
            let e : 0 + k ≡ k = omega arith in differ (curr_items k) num_items (rw e at (all k l))),
        (rw last refl),
      )
      | inr (k, l, found, last) ↦
          let e : 0 + k ≡ k = omega arith in
          inl (k, l, agree (curr_items k) num_items (rw e at found), (rw last refl))
    ]

poll_connections-low :
    (connections : ℕ → ℕ) (expected n curr r : ℕ)
    → curr < expected
    → ((k : ℕ) → suc k < n → connections (r + k) < expected)
    → poll_connections connections expected n curr r ≡ r + n
unfolding poll_connections
poll_connections-low connections expected zero curr r low h = omega arith
poll_connections-low connections expected (suc zero) curr r low h = rw (lt→ltb _ _ low) refl
poll_connections-low connections expected (suc (suc n)) curr r low h =
    let e : r + 0 ≡ r = omega arith in
    let next : connections r < expected = rw e at (h 0 (omega arith)) in
    rw (lt→ltb _ _ low) (
      omega (
        arith,
        poll_connections-low connections expected (suc n) (connections r) (r + 1) next
            λ k l. (let e : r + 1 + k ≡ r + suc k = omega arith in rw e (h (suc k) (omega arith))),
      ))

-- If the first 149 polls show too few connections, the wait for connections reports failure, even
-- if the last poll, the one behind them, shows enough.
pub wait_for_num_connections-misses :
    (connections : ℕ → ℕ) (expected : ℕ)
    → ((k : ℕ) → k < 149 → connections k < expected)
    → wait_for_num_connections connections expected ≡ false
unfolding wait_for_num_connections
wait_for_num_connections-misses connections expected h =
    rw
      (poll_connections-low connections expected (max_retry - 1) (connections 0) 1
        (h 0 (omega arith)) (λ k l. h (1 + k) (omega arith)))
      refl
