-- ===== src/Tests/Waits.antt =====
-- Runs and instances for the waits of perfrunner/helpers/monitor.py and the asynchronous worker of
-- spring/wgen.py.
use perfrunner.Prelude.{
  ℕ, ◌+◌, ◌≡◌, refl, true, false, List, [], ◌∷◌, Option, none, some, ok, arith, All, replicate,
  if◌then◌else◌, ◌==◌, ◌*◌,
}
use perfrunner.Text.{Text, codes, eq_text}
use perfrunner.Monitor.Indexing.{
  IndexStatus, get_index_status, mark_ready, attempt_update, update_indexes_ready,
  wait_for_secindex_init_build,
}
use perfrunner.Monitor.Indexing.Builds.{Reported, wait_for_secindex_init_build-Reported}
use perfrunner.Monitor.Queues.{last, remove}
use perfrunner.Monitor.Replication.{
  Samples, Completion, replication_key, note_completion, check_metric, check_metrics,
  wait_for_replication_completion, no_completion,
}
use perfrunner.Monitor.Replication.Times.{IsFirst, wait_for_replication_completion-IsFirst}
use perfrunner.Worker.Async.{
  Connection, AsyncState, AsyncSettings, started, closed_from, do_batch, restart, Reach, here, next,
  opened, answer,
}
use perfrunner.Worker.Async.Answers.{IsBalanced, started-IsBalanced}

abbrev status_of : Text → IndexStatus
status_of name = record { name = some name; status = some (codes "Ready") }

-- The first index is ready at the first poll, the other one at the second; the first attempt of each
-- poll has no answer.
abbrev build_answers : ℕ → ℕ → Option (List IndexStatus)
build_answers poll attempt =
    if attempt == 0
    then none
    else some (status_of (if poll == 0 then codes "a" else codes "b") ∷ [])

abbrev two_indexes : List Text
two_indexes = codes "a" ∷ codes "b" ∷ []

build_ends :
    wait_for_secindex_init_build build_answers two_indexes 3 0 (replicate 2 false) ≡ some (ok 2)
unfolding wait_for_secindex_init_build update_indexes_ready attempt_update mark_ready
    get_index_status
build_ends = refl

wait_for_secindex_init_build-Reported_example : All (Reported build_answers) two_indexes
wait_for_secindex_init_build-Reported_example =
    wait_for_secindex_init_build-Reported build_answers two_indexes 3 build_ends

-- The queue is empty at the second round.
abbrev link_samples : ℕ → Samples
link_samples round key =
    if eq_text key (codes "replication_changes_left")
    then some ((if round == 0 then 5 else 0) ∷ [])
    else some (7 ∷ [])

abbrev link_state : Completion
link_state = record { metrics = []; completion_count = 1; link1_time = 12; link2_items = 7 }

abbrev one_queue : List Text
one_queue = codes "replication_changes_left" ∷ []

replication_ends :
    wait_for_replication_completion link_samples
      (λ k. 10 + 2 * k)
      (λ k. 2 * k)
      (codes "x")
      (codes "y")
      5
      0
      one_queue
      (no_completion one_queue)
    ≡ some (ok link_state)
unfolding wait_for_replication_completion check_metrics check_metric note_completion replication_key
    remove last
replication_ends = refl

wait_for_replication_completion-IsFirst_example :
    IsFirst link_samples
      (λ k. 10 + 2 * k)
      (λ k. 2 * k)
      (codes "x")
      (codes "y")
      5
      one_queue
      link_state
wait_for_replication_completion-IsFirst_example =
    wait_for_replication_completion-IsFirst link_samples (λ k. 10 + 2 * k) (λ k. 2 * k) 5
      (codes "x") (codes "y") (codes "replication_changes_left") [] replication_ends

abbrev two_commands : AsyncSettings
two_commands = record { spring_batch_size = 2; commands = 2; ops = some 100 }

abbrev third : Connection
third = record { counter = 2; is_open = false; outstanding = 0 }

abbrev third_busy : Connection
third_busy = record { counter = 0; is_open = true; outstanding = 0 + 2 }

abbrev one_open : AsyncState
one_open = do_batch two_commands 2 third (started 0)

one_answer : Reach two_commands (started 0) (restart two_commands false 2 third_busy one_open)
unfolding started closed_from do_batch
one_answer =
    next (next here (opened (started 0) 2 third refl refl))
      (answer one_open 2 third_busy false refl (omega arith))

started-IsBalanced_example :
    IsBalanced two_commands (restart two_commands false 2 third_busy one_open)
started-IsBalanced_example = started-IsBalanced two_commands 0 refl one_answer
