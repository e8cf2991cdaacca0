-- ===== src/Monitor/Indexing.antt =====
-- The waits of perfrunner/helpers/monitor.py that only their answers end: for indexes, full-text
-- search, analytics and single servers. Polls are counted from 0, and the fuel bounds their number:
-- none tells that it has run out. A missing key of an answer is none.
pub mod Builds
use perfrunner.Prelude.{
  ℕ, zero, suc, ◌+◌, ◌*◌, Bool, true, false, not, ◌&&◌, ◌||◌, List, [], ◌∷◌, ◌++◌, map, Option,
  none, some, Exn, Result, ok, err, key_error, ◌>>=◌, ltb, leb, ◌==◌, if◌then◌else◌, set, replicate,
  length,
}
use perfrunner.Text.{Text, codes, eq_text}
use perfrunner.Text.Words.{is_infix}
use perfrunner.Config.{Options, lookup}

-- `while not done: …`: the poll that ends the loop.
unfoldable pub poll_until : (ℕ → Bool) → ℕ → ℕ → Option ℕ
poll_until done zero poll = none
poll_until done (suc fuel) poll =
    let rest = poll_until done fuel (poll + 1) in if done poll then some poll else rest

-- `is_index_ready`, of the statuses of all indexes
unfoldable pub is_index_ready : List Text → Bool
is_index_ready [] = true
is_index_ready (s ∷ ss) = eq_text s (codes "Ready") && is_index_ready ss

-- `monitor_indexing`
unfoldable pub monitor_indexing : (ℕ → List Text) → ℕ → Option ℕ
unfolding poll_until is_index_ready
monitor_indexing statuses fuel = poll_until (λ poll. is_index_ready (statuses poll)) fuel 0

-- `estimate_pending_docs`
unfoldable pub estimate_pending_docs : List (Text × ℕ) → ℕ
estimate_pending_docs [] = 0
estimate_pending_docs ((metric, value) ∷ stats) =
    (if is_infix (codes "num_docs_queued") metric || is_infix (codes "num_docs_pending") metric
      then value
      else 0)
    + estimate_pending_docs stats

-- One entry of the answer to a request for the status of the indexes.
pub record IndexStatus : Type 0 where
  pub name : Option Text
  pub status : Option Text

abbrev pub or_key_error {ℓ} : {A : Type ℓ} → Option A → Result A
or_key_error (some a) = ok a
or_key_error none = err key_error

-- `get_index_status(json2i, index)`; none for None
unfoldable pub get_index_status : List IndexStatus → Text → Result (Option Text)
get_index_status [] index = ok none
get_index_status (d ∷ ds) index =
    let rest = get_index_status ds index in
    or_key_error d.name >>= λ name.
    if eq_text name index then (or_key_error d.status >>= λ s. ok (some s)) else rest

abbrev pub is_ready : Option Text → Bool
is_ready none = false
is_ready (some s) = eq_text s (codes "Ready")

-- The flags after an attempt, and the exception that ended it, if one did.
pub record Attempt : Type 0 where
  pub flags : List Bool
  pub raised : Option Exn

-- What becomes of the flag of one index; `tail` are the other flags, and `rest` is what the loop
-- makes of them.
abbrev pub mark : Result (Option Text) → Bool → List Bool → Attempt → Attempt
mark (err e) f tail rest = record { flags = f ∷ tail; raised = some e }
mark (ok s) f tail rest = record { flags = (f || is_ready s) ∷ rest.flags; raised = rest.raised }

-- The loop of `update_indexes_ready` over the indexes; the flags behind an exception stay.
unfoldable pub mark_ready : List IndexStatus → List Text → List Bool → Attempt
unfolding get_index_status
mark_ready json2i [] flags = record { flags = flags; raised = none }
mark_ready json2i (index ∷ indexes) [] = record { flags = []; raised = none }
mark_ready json2i (index ∷ indexes) (f ∷ flags) =
    mark (get_index_status json2i index) f flags (mark_ready json2i indexes flags)

-- One call of `update_indexes_ready`; none: the answer has no key "status", which is noticed only if
-- there is an index to look for.
unfoldable pub attempt_update : Option (List IndexStatus) → List Text → List Bool → Attempt
unfolding mark_ready
attempt_update none [] flags = record { flags = flags; raised = none }
attempt_update none (index ∷ indexes) flags = record { flags = flags; raised = some key_error }
attempt_update (some ds) indexes flags = mark_ready ds indexes flags

-- What follows an attempt: an exception is raised by the last one only.
abbrev pub settle : Option Exn → Bool → List Bool → Result (List Bool) → Result (List Bool)
settle none is_last flags rest = ok flags
settle (some e) is_last flags rest = if is_last then err e else rest

-- `@misc.retry(catch=(KeyError,), iterations=10, wait=30)`: the flags after the attempts from
-- `attempt` on. No other exception than KeyError arises.
unfoldable pub update_indexes_ready :
    (ℕ → Option (List IndexStatus)) → List Text → ℕ → ℕ → List Bool → Result (List Bool)
unfolding attempt_update
update_indexes_ready answers indexes zero attempt flags = ok flags
update_indexes_ready answers indexes (suc left) attempt flags =
    let a = attempt_update (answers attempt) indexes flags in
    let rest = update_indexes_ready answers indexes left (attempt + 1) a.flags in
    settle a.raised (attempt == 9) a.flags rest

abbrev pub all_set : List Bool → Bool
all_set [] = true
all_set (f ∷ fs) = f && all_set fs

-- `wait_for_secindex_init_build`, from a poll on: the poll before which all indexes are ready.
-- `answers poll attempt` is what the servers tell at an attempt of a poll.
unfoldable pub wait_for_secindex_init_build :
    (ℕ → ℕ → Option (List IndexStatus)) → List Text → ℕ → ℕ → List Bool → Option (Result ℕ)
unfolding update_indexes_ready
wait_for_secindex_init_build answers indexes zero poll flags =
    if all_set flags then some (ok poll) else none
wait_for_secindex_init_build answers indexes (suc fuel) poll flags =
    let next : Option (Result ℕ) = elim (update_indexes_ready (answers poll) indexes 10 0 flags) [
      | err e ↦ some (err e)
      | ok fs ↦ wait_for_secindex_init_build answers indexes fuel (poll + 1) fs
    ] in
    if all_set flags then some (ok poll) else next

abbrev stats_key : Text → Text → Text → Text
stats_key bucket index metric = bucket ++ (b':' ∷ (index ++ metric))

-- `get_num_docs_index_pending`
unfoldable pub num_docs_index_pending : List (Text × ℕ) → Text → List Text → Result (List ℕ)
num_docs_index_pending stats bucket [] = ok []
num_docs_index_pending stats bucket (index ∷ indexes) =
    or_key_error (lookup (stats_key bucket index (codes ":num_docs_pending")) stats) >>= λ pending.
    or_key_error (lookup (stats_key bucket index (codes ":num_docs_queued")) stats) >>= λ queued.
    num_docs_index_pending stats bucket indexes >>= λ rest. ok ((pending + queued) ∷ rest)

abbrev all_zero : List ℕ → Bool
all_zero [] = true
all_zero (n ∷ ns) = n == 0 && all_zero ns

-- `wait_for_secindex_incr_build`, up to its last request, whose answer is only logged
unfoldable pub wait_for_secindex_incr_build :
    (ℕ → List (Text × ℕ)) → Text → List Text → ℕ → ℕ → Option (Result ℕ)
unfolding num_docs_index_pending
wait_for_secindex_incr_build stats bucket indexes zero poll = none
wait_for_secindex_incr_build stats bucket indexes (suc fuel) poll =
    let rest = wait_for_secindex_incr_build stats bucket indexes fuel (poll + 1) in
    elim (num_docs_index_pending (stats poll) bucket indexes) [
      | err e ↦ some (err e)
      | ok ns ↦ if all_zero ns then some (ok poll) else rest
    ]

-- `monitor_fts_indexing_queue` and `monitor_elastic_indexing_queue`: without items no poll is made.
unfoldable pub monitor_indexing_queue : (ℕ → ℕ) → ℕ → ℕ → Option ℕ
unfolding poll_until
monitor_indexing_queue doc_count items fuel =
    if items == 0 then some 0 else poll_until (λ poll. leb items (doc_count poll)) fuel 0

-- The sums over the hosts of one round of `monitor_fts_index_persistence`.
unfoldable pub fts_pending : List (Text × ℕ) → Text → Text → Text → Result ℕ
fts_pending stats bucket index metric =
    or_key_error (lookup (bucket ++ (b':' ∷ (index ++ (b':' ∷ metric)))) stats)

unfoldable pub fts_sums : Text → Text → List (List (Text × ℕ)) → Result (ℕ × ℕ)
unfolding fts_pending
fts_sums bucket index [] = ok (0, 0)
fts_sums bucket index (stats ∷ hosts) =
    fts_pending stats bucket index (codes "num_recs_to_persist") >>= λ persist.
    fts_pending stats bucket index (codes "total_compactions") >>= λ compact.
    fts_sums bucket index hosts >>= λ rest. ok (persist + rest.0, compact + rest.1)

-- `monitor_fts_index_persistence`, with the name of the bucket; the statistics are those of the hosts.
unfoldable pub monitor_fts_index_persistence :
    (ℕ → List (List (Text × ℕ))) → Text → Text → ℕ → ℕ → Option (Result ℕ)
unfolding fts_sums
monitor_fts_index_persistence stats bucket index zero poll = none
monitor_fts_index_persistence stats bucket index (suc fuel) poll =
    let rest = monitor_fts_index_persistence stats bucket index fuel (poll + 1) in
    elim (fts_sums bucket index (stats poll)) [
      | err e ↦ some (err e)
      | ok (persist, compact) ↦ if persist == 0 && (compact == 0) then some (ok poll) else rest
    ]

-- `monitor_elastic_index_persistence` and `monitor_compression`: until a number is 0
unfoldable pub monitor_zero : (ℕ → ℕ) → ℕ → Option ℕ
unfolding poll_until
monitor_zero pending fuel = poll_until (λ poll. pending poll == 0) fuel 0

-- `monitor_task`: until no task of the type is left
unfoldable pub tasks_of_type : Text → List (Option Text) → List (Option Text)
tasks_of_type task_type [] = []
tasks_of_type task_type (none ∷ ts) = tasks_of_type task_type ts
tasks_of_type task_type (some t ∷ ts) =
    if eq_text t task_type then some t ∷ tasks_of_type task_type ts else tasks_of_type task_type ts

abbrev is_nil {ℓ} : {A : Type ℓ} → List A → Bool
is_nil [] = true
is_nil (x ∷ xs) = false

unfoldable pub monitor_task : (ℕ → List (Option Text)) → Text → ℕ → Option ℕ
unfolding poll_until tasks_of_type
monitor_task tasks task_type fuel =
    poll_until (λ poll. is_nil (tasks_of_type task_type (tasks poll))) fuel 0

-- `monitor_warmup`, without the time that it returns; none: there is no state yet.
unfoldable pub monitor_warmup : (ℕ → Option Text) → ℕ → Option ℕ
unfolding poll_until
monitor_warmup state fuel =
    poll_until (λ poll. elim (state poll) [ some s ↦ eq_text s (codes "done") | none ↦ false ]) fuel
      0

-- `get_num_analytics_items`: the counts of the nodes, where they have one
unfoldable pub num_analytics_items : List (Option ℕ) → ℕ
num_analytics_items [] = 0
num_analytics_items (none ∷ nodes) = num_analytics_items nodes
num_analytics_items (some n ∷ nodes) = n + num_analytics_items nodes

-- `monitor_data_synced`: the number of items is read once, in front of the loop.
unfoldable pub monitor_data_synced : ℕ → (ℕ → List (Option ℕ)) → ℕ → Option ℕ
unfolding poll_until num_analytics_items
monitor_data_synced num_items nodes fuel =
    poll_until (λ poll. num_analytics_items (nodes poll) == num_items) fuel 0
