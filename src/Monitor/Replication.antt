-- ===== src/Monitor/Replication.antt =====
-- The waits of perfrunner/helpers/monitor.py for replicas and for replication between clusters.
-- Rounds are counted from 0, and the fuel bounds their number: none tells that it has run out. The
-- samples of a round, and the clock, are arguments.
pub mod Notes
pub mod Times
use perfrunner.Prelude.{
  ℕ, zero, suc, ◌+◌, ◌*◌, Bool, true, false, not, ◌&&◌, ◌||◌, List, [], ◌∷◌, ◌++◌, Option, none,
  some, Result, ok, err, type_error, index_error, runtime_error, ◌>>=◌, ltb, ◌==◌, if◌then◌else◌,
}
use perfrunner.Text.{Text, codes}
use perfrunner.Monitor.{timeout}
use perfrunner.Monitor.Queues.{last, remove}

-- What `bucket_stats['op']['samples'].get` answers.
abbrev pub Samples : Type 0
Samples = Text → Option (List ℕ)

-- The last sample: `samples.get(metric)[-1]`
abbrev pub last_sample : Option (List ℕ) → Result ℕ
last_sample none = err type_error
last_sample (some []) = err index_error
last_sample (some (n ∷ ns)) = ok (last n ns)

abbrev matched_or : Result Bool → Bool → Option (Result (Unit {0})) → Option (Result (Unit {0}))
matched_or (err e) late rest = some (err e)
matched_or (ok true) late rest = some (ok tt)
matched_or (ok false) late rest =
    if late then some (err (runtime_error "Replica items monitoring got stuck")) else rest

-- `_wait_for_replica_count_match`, of the number of replicas; `elapsed` is the time since the start
-- at the end of a round.
unfoldable pub wait_for_replica_count_match :
    (ℕ → Samples) → (ℕ → ℕ) → ℕ → ℕ → ℕ → Option (Result (Unit {0}))
unfolding last
wait_for_replica_count_match samples elapsed zero fuel round = some (ok tt)
wait_for_replica_count_match samples elapsed (suc replicas) zero round = none
wait_for_replica_count_match samples elapsed (suc replicas) (suc fuel) round =
    let rest = wait_for_replica_count_match samples elapsed (suc replicas) fuel (round + 1) in
    let late = ltb timeout (elapsed round) in
    let matched = last_sample (samples round (codes "curr_items")) >>= λ curr_items.
    last_sample (samples round (codes "vb_replica_curr_items")) >>= λ replica_curr_items.
    ok (curr_items * suc replicas == replica_curr_items) in
    matched_or matched late rest

-- The variables of `_wait_for_replication_completion`.
pub record Completion : Type 0 where
  pub metrics : List Text
  pub completion_count : ℕ
  pub link1_time : ℕ
  pub link2_items : ℕ

-- `replications/{}/bucket-1/bucket-1/…`
unfoldable pub replication_key : Text → Text → Text
replication_key link metric =
    codes "replications/" ++ (link ++ (codes "/bucket-1/bucket-1/" ++ metric))

module _ (samples : Samples) (now : ℕ) (link1 link2 : Text) where
  -- The time and the items of the second link are noted once.
  unfoldable pub note_completion : Completion → Result Completion
  unfolding replication_key
  note_completion c =
      if c.completion_count == 0
      then (last_sample (samples (replication_key link2 (codes "docs_written"))) >>= λ items.
          ok (record c {
            completion_count = c.completion_count + 1;
            link1_time = now;
            link2_items = items;
          }))
      else ok c

  -- One metric of a round, by the last of its samples.
  unfoldable pub check_metric : Text → ℕ → Completion → Result Completion
  unfolding note_completion remove
  check_metric metric zero c =
      note_completion c >>= λ d. ok (record d { metrics = remove metric d.metrics })
  check_metric metric (suc n) c =
      last_sample (samples (replication_key link1 (codes "percent_completeness"))) >>= λ done1.
      last_sample (samples (replication_key link2 (codes "percent_completeness"))) >>= λ done2.
      if done1 == 100 || done2 == 100 then note_completion c else ok c

  abbrev pub check_samples : Text → Option (List ℕ) → Completion → Result Completion
  check_samples metric none c = ok c
  check_samples metric (some []) c = ok c
  check_samples metric (some (n ∷ ns)) c = check_metric metric (last n ns) c

  -- One round over a copy of the metrics.
  unfoldable pub check_metrics : List Text → Completion → Result Completion
  unfolding check_metric
  check_metrics [] c = ok c
  check_metrics (m ∷ copy) c = check_samples m (samples m) c >>= λ d. check_metrics copy d

abbrev pub late_or : Bool → Option (Result Completion) → Option (Result Completion)
late_or true rest = some (err (runtime_error "Monitoring got stuck"))
late_or false rest = rest

abbrev pub go_on :
    Result Completion
    → Bool
    → (Completion → Option (Result Completion))
    → Option (Result Completion)
go_on (err e) late next = some (err e)
go_on (ok c) late next = late_or late (next c)

-- `_wait_for_replication_completion`, from a round on; `now` is the clock when a round notes the time,
-- and `elapsed` the time since the start at its end.
unfoldable pub wait_for_replication_completion :
    (ℕ → Samples)
    → (ℕ → ℕ)
    → (ℕ → ℕ)
    → Text
    → Text
    → ℕ
    → ℕ
    → List Text
    → Completion
    → Option (Result Completion)
unfolding check_metrics
wait_for_replication_completion samples now elapsed link1 link2 fuel round [] c = some (ok c)
wait_for_replication_completion samples now elapsed link1 link2 zero round (m ∷ ms) c = none
wait_for_replication_completion samples now elapsed link1 link2 (suc fuel) round (m ∷ ms) c =
    go_on (check_metrics (samples round) (now round) link1 link2 (m ∷ ms) c)
      (ltb timeout (elapsed round))
      λ d.
        wait_for_replication_completion samples now elapsed link1 link2 fuel (round + 1) d.metrics d

-- What the loop begins with.
abbrev pub no_completion : List Text → Completion
no_completion queues = record {
  metrics = queues;
  completion_count = 0;
  link1_time = 0;
  link2_items = 0;
}

-- `_wait_for_completeness` of one link: the first sample counts, and the loop ends with the round in
-- which it is 100, unless that round is late.
abbrev pub is_complete : Option (List ℕ) → Bool
is_complete none = false
is_complete (some []) = false
is_complete (some (n ∷ ns)) = n == 100

unfoldable pub wait_for_completeness :
    (ℕ → Samples) → (ℕ → ℕ) → Text → ℕ → ℕ → Option (Result (Unit {0}))
wait_for_completeness samples elapsed xdcr_link zero round = none
wait_for_completeness samples elapsed xdcr_link (suc fuel) round =
    let rest = wait_for_completeness samples elapsed xdcr_link fuel (round + 1) in
    if ltb timeout (elapsed round)
    then some (err (runtime_error "Monitoring got stuck"))
    else if is_complete (samples round xdcr_link)
    then some (ok tt)
    else rest
