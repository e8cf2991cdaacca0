-- ===== src/Monitor/Replication/Notes.antt =====
-- About the variables that one round of the wait of perfrunner/helpers/monitor.py for the replication
-- over two links notes.
use perfrunner.Prelude
use perfrunner.Prelude.{
  ap, ◌∙◌, ◌<◌, ℕ, zero, suc, ◌+◌, ◌≡◌, ◌≢◌, refl, sym, Bool, true, false, ◌||◌, List, [], ◌∷◌,
  Option, none, some, Result, ok, err, arith, ◌==◌, if◌then◌else◌, Bool-cases, Result-cases, ◌⊎◌,
  inl, inr, ltb, runtime_error,
}
use mathlib.Core.Path.{subst}
use perfrunner.Text.{Text, codes}
use perfrunner.Monitor.Queues.{last, remove}
use perfrunner.Monitor.Replication.{
  Samples, last_sample, Completion, replication_key, note_completion, check_metric, check_samples,
  check_metrics,
}

-- Whether a completeness is at 100.
is_full : Option (List ℕ) → Bool
is_full none = false
is_full (some []) = false
is_full (some (n ∷ ns)) = last n ns == 100

module _ (link1 link2 : Text) where
  -- Whether a queue with these samples ends the replication: it is empty, or one of the links is
  -- complete.
  settles : Samples → Option (List ℕ) → Bool
  settles samples none = false
  settles samples (some []) = false
  settles samples (some (n ∷ ns)) =
      last n ns == 0
      || (is_full (samples (replication_key link1 (codes "percent_completeness")))
          || is_full (samples (replication_key link2 (codes "percent_completeness"))))

  -- Whether one of the queues does.
  pub is_over : Samples → List Text → Bool
  is_over samples [] = false
  is_over samples (m ∷ ms) = settles samples (samples m) || is_over samples ms

  -- What was noted is kept.
  pub record Kept (c d : Completion) : Type 0 where
    pub noted : d.completion_count ≢ 0
    pub same_time : d.link1_time ≡ c.link1_time
    pub same_items : d.link2_items ≡ c.link2_items

  -- The time and the items are those of a round.
  pub record NotedIn (samples : Samples) (now : ℕ) (d : Completion) : Type 0 where
    pub noted : d.completion_count ≢ 0
    pub time : d.link1_time ≡ now
    pub items :
        last_sample (samples (replication_key link2 (codes "docs_written"))) ≡ ok d.link2_items

  module _ (samples : Samples) (now : ℕ) where
    note-Kept :
        (c d : Completion)
        → c.completion_count ≢ 0
        → note_completion samples now link1 link2 c ≡ ok d
        → c ≡ d
    unfolding note_completion
    note-Kept c d before e = elim (Bool-cases (c.completion_count == 0)) [
      | inl first ↦ absurd (before (ground (arith, first)))
      | inr later ↦ cc (rw later at e)
    ]

    note-NotedIn :
        (c d : Completion)
        → c.completion_count ≡ 0
        → note_completion samples now link1 link2 c ≡ ok d
        → NotedIn samples now d
    unfolding note_completion
    note-NotedIn c d before e =
        let first : (c.completion_count == 0) ≡ true = rw before refl in
        let (items, read, made) =
          Prelude.>>=-eq-ok (last_sample (samples (replication_key link2 (codes "docs_written")))) _
            (rw first at e) in
        let same : record c {
          completion_count = c.completion_count + 1;
          link1_time = now;
          link2_items = items;
        }
            ≡ d =
          cc in
        subst (NotedIn samples now) same
          (record { noted = λ h. absurd (omega (arith, h)); time = refl; items = read })

    -- The completeness as it is compared.
    is_full-last_sample :
        (o : Option (List ℕ)) (n : ℕ) → last_sample o ≡ ok n → is_full o ≡ (n == 100)
    unfolding is_full
    is_full-last_sample none n e = cc
    is_full-last_sample (some []) n e = cc
    is_full-last_sample (some (m ∷ ms)) n e = let same : last m ms ≡ n = cc in rw same refl

    -- One metric, when something was noted before: that stays.
    check_metric-Kept :
        (m : Text) (n : ℕ) (c d : Completion)
        → c.completion_count ≢ 0
        → check_metric samples now link1 link2 m n c ≡ ok d
        → Kept c d
    unfolding check_metric
    check_metric-Kept m zero c d before e =
        let (b, noted, removed) =
          Prelude.>>=-eq-ok (note_completion samples now link1 link2 c) _ e in
        let same : record b { metrics = remove m b.metrics } ≡ d = cc in
        let kept : c ≡ b = note-Kept c b before noted in
        subst (Kept c) same
          (rw (← kept) (record { noted = before; same_time = refl; same_items = refl }))
    check_metric-Kept m (suc n) c d before e =
        let (done1, _, rest) =
          Prelude.>>=-eq-ok
            (last_sample (samples (replication_key link1 (codes "percent_completeness")))) _ e in
        let (done2, _, end) =
          Prelude.>>=-eq-ok
            (last_sample (samples (replication_key link2 (codes "percent_completeness")))) _ rest in
        let same : c ≡ d = elim (Bool-cases (done1 == 100 || done2 == 100)) [
          | inl complete ↦ note-Kept c d before (rw complete at end)
          | inr waiting ↦ cc (rw waiting at end)
        ] in
        subst (Kept c) same (record { noted = before; same_time = refl; same_items = refl })

    -- What a queue makes of the variables when nothing was noted before.
    unfoldable pub Settled : Bool → Completion → Completion → Type 0
    Settled true c d = NotedIn samples now d
    Settled false c d = c ≡ d

    check_metric-Settled :
        (m : Text) (k : ℕ) (c d : Completion)
        → c.completion_count ≡ 0
        → check_metric samples now link1 link2 m k c ≡ ok d
        → Settled
            (k == 0
              || (is_full (samples (replication_key link1 (codes "percent_completeness")))
                  || is_full (samples (replication_key link2 (codes "percent_completeness")))))
            c
            d
    unfolding check_metric Settled
    check_metric-Settled m zero c d before e =
        let (b, noted, removed) =
          Prelude.>>=-eq-ok (note_completion samples now link1 link2 c) _ e in
        let same : record b { metrics = remove m b.metrics } ≡ d = cc in
        let at_now = note-NotedIn c b before noted in
        subst (NotedIn samples now) same
          (record { noted = at_now.noted; time = at_now.time; items = at_now.items })
    check_metric-Settled m (suc n) c d before e =
        let (done1, read1, rest) =
          Prelude.>>=-eq-ok
            (last_sample (samples (replication_key link1 (codes "percent_completeness")))) _ e in
        let (done2, read2, end) =
          Prelude.>>=-eq-ok
            (last_sample (samples (replication_key link2 (codes "percent_completeness")))) _ rest in
        let some_left : (suc n == 0) ≡ false = ground arith in
        rw (some_left, is_full-last_sample _ done1 read1, is_full-last_sample _ done2 read2)
          (elim (Bool-cases (done1 == 100 || done2 == 100)) [
            | inl complete ↦ rw complete (note-NotedIn c d before (rw complete at end))
            | inr waiting ↦ rw waiting (cc (rw waiting at end))
          ])

    check_samples-Kept :
        (m : Text) (o : Option (List ℕ)) (c d : Completion)
        → c.completion_count ≢ 0
        → check_samples samples now link1 link2 m o c ≡ ok d
        → Kept c d
    check_samples-Kept m none c d before e =
        let same : c ≡ d = cc in
        subst (Kept c) same (record { noted = before; same_time = refl; same_items = refl })
    check_samples-Kept m (some []) c d before e =
        let same : c ≡ d = cc in
        subst (Kept c) same (record { noted = before; same_time = refl; same_items = refl })
    check_samples-Kept m (some (n ∷ ns)) c d before e = check_metric-Kept m (last n ns) c d before e

    check_samples-Settled :
        (m : Text) (o : Option (List ℕ)) (c d : Completion)
        → c.completion_count ≡ 0
        → check_samples samples now link1 link2 m o c ≡ ok d
        → Settled (settles samples o) c d
    unfolding Settled settles
    check_samples-Settled m none c d before e = cc
    check_samples-Settled m (some []) c d before e = cc
    check_samples-Settled m (some (n ∷ ns)) c d before e =
        check_metric-Settled m (last n ns) c d before e

    pub check_metrics-Kept :
        (copy : List Text) (c d : Completion)
        → c.completion_count ≢ 0
        → check_metrics samples now link1 link2 copy c ≡ ok d
        → Kept c d
    unfolding check_metrics
    check_metrics-Kept [] c d before e =
        let same : c ≡ d = cc in
        subst (Kept c) same (record { noted = before; same_time = refl; same_items = refl })
    check_metrics-Kept (m ∷ copy) c d before e =
        let (b, first, rest) =
          Prelude.>>=-eq-ok (check_samples samples now link1 link2 m (samples m) c) _ e in
        let now_kept = check_samples-Kept m (samples m) c b before first in
        let later = check_metrics-Kept copy b d now_kept.noted rest in
        record {
          noted = later.noted;
          same_time = later.same_time ∙ now_kept.same_time;
          same_items = later.same_items ∙ now_kept.same_items;
        }

    pub check_metrics-Settled :
        (copy : List Text) (c d : Completion)
        → c.completion_count ≡ 0
        → check_metrics samples now link1 link2 copy c ≡ ok d
        → Settled (is_over samples copy) c d
    unfolding check_metrics Settled is_over
    check_metrics-Settled [] c d before e = cc
    check_metrics-Settled (m ∷ copy) c d before e =
        let (b, first, rest) =
          Prelude.>>=-eq-ok (check_samples samples now link1 link2 m (samples m) c) _ e in
        let now_settled = check_samples-Settled m (samples m) c b before first in
        elim (Bool-cases (settles samples (samples m))) [
          | inr going ↦
              let same : c ≡ b = rw going at now_settled in
              rw (going, same) (check_metrics-Settled copy b d (rw same at before) rest)
          | inl over ↦
              let noted : NotedIn samples now b = rw over at now_settled in
              let kept = check_metrics-Kept copy b d noted.noted rest in
              rw over (record {
                noted = kept.noted;
                time = kept.same_time ∙ noted.time;
                items = noted.items ∙ ap ok (sym kept.same_items);
              })
        ]
