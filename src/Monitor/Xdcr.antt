-- ===== src/Monitor/Xdcr.antt =====
-- The waits of perfrunner/helpers/monitor.py for one bucket, from the loops that they run and the
-- metrics that they watch: `monitor_disk_queues` to `_get_num_items`.
use perfrunner.Prelude.{ℕ, List, [], ◌∷◌, Option, none, some, Bool, Result, ok, err, if◌then◌else◌}
use perfrunner.Text.{Text, codes}
use perfrunner.Monitor.Queues.{last, wait_for_empty_queues}
use perfrunner.Monitor.Indexing.{poll_until}
use perfrunner.Monitor.Replication.{
  Samples, Completion, wait_for_replication_completion, no_completion,
}

-- What follows a loop that has ended.
abbrev and_then {ℓ κ} : {A : Type ℓ} {B : Type κ} → Option A → (A → Option B) → Option B
and_then none next = none
and_then (some a) next = next a

abbrev pub disk_queues : List Text
disk_queues =
    codes "ep_queue_size"
    ∷ codes "ep_flusher_todo"
    ∷ codes "ep_diskqueue_items"
    ∷ codes "vb_active_queue_size"
    ∷ codes "vb_replica_queue_size"
    ∷ []

abbrev pub dcp_queues : List Text
dcp_queues = codes "ep_dcp_replica_items_remaining" ∷ codes "ep_dcp_other_items_remaining" ∷ []

abbrev pub xdcr_queues : List Text
xdcr_queues = codes "replication_changes_left" ∷ []

-- `monitor_disk_queues`; `elapsed` is as in the loop, and so are the bounds of the others.
unfoldable pub monitor_disk_queues : (ℕ → Samples) → (ℕ → ℕ) → ℕ → Option (Result (Unit {0}))
unfolding wait_for_empty_queues
monitor_disk_queues samples elapsed fuel = wait_for_empty_queues samples elapsed fuel 0 disk_queues

-- `monitor_dcp_queues`
unfoldable pub monitor_dcp_queues : (ℕ → Samples) → (ℕ → ℕ) → ℕ → Option (Result (Unit {0}))
unfolding wait_for_empty_queues
monitor_dcp_queues samples elapsed fuel = wait_for_empty_queues samples elapsed fuel 0 dcp_queues

-- `_wait_for_xdcr_to_start`: the poll that shows the task running
unfoldable pub wait_for_xdcr_to_start : (ℕ → Bool) → ℕ → Option ℕ
unfolding poll_until
wait_for_xdcr_to_start is_running fuel = poll_until is_running fuel 0

-- `xdcr_link_starttime`, with the clock of each poll
unfoldable pub xdcr_link_starttime : (ℕ → Bool) → (ℕ → ℕ) → ℕ → Option ℕ
unfolding poll_until
xdcr_link_starttime is_running clock fuel =
    and_then (poll_until is_running fuel 0) λ poll. some (clock poll)

-- `monitor_xdcr_queues`, with `fuel` for each of the two loops
unfoldable pub monitor_xdcr_queues :
    (ℕ → Bool) → (ℕ → Samples) → (ℕ → ℕ) → ℕ → Option (Result (Unit {0}))
unfolding wait_for_xdcr_to_start wait_for_empty_queues
monitor_xdcr_queues is_running samples elapsed fuel =
    and_then (wait_for_xdcr_to_start is_running fuel)
      λ _. wait_for_empty_queues samples elapsed fuel 0 xdcr_queues

abbrev times_of : ℕ → Result Completion → Result (ℕ × ℕ × ℕ)
times_of start_time (err e) = err e
times_of start_time (ok c) = ok (start_time, c.link1_time, c.link2_items)

-- `monitor_xdcr_changes_left`, where `start_time` is the clock at its second line.
unfoldable pub monitor_xdcr_changes_left :
    (ℕ → Bool)
    → (ℕ → Samples)
    → (ℕ → ℕ)
    → (ℕ → ℕ)
    → ℕ
    → Text
    → Text
    → ℕ
    → Option (Result (ℕ × ℕ × ℕ))
unfolding wait_for_xdcr_to_start wait_for_replication_completion
monitor_xdcr_changes_left is_running samples now elapsed start_time xdcrlink1 xdcrlink2 fuel =
    and_then (wait_for_xdcr_to_start is_running fuel) λ _.
      and_then
        (wait_for_replication_completion samples now elapsed xdcrlink1 xdcrlink2 fuel 0 xdcr_queues
          (no_completion xdcr_queues))
        λ r. some (times_of start_time r)

-- `_get_num_items`: the last sample, 0 where there is none.
unfoldable pub get_num_items : Samples → Bool → ℕ
unfolding last
get_num_items samples total =
    let curr_items = samples (if total then codes "curr_items_tot" else codes "curr_items") in
    elim curr_items [ none ↦ 0 | some ns ↦ elim ns [ [] ↦ 0 | n ∷ more ↦ last n more ] ]
