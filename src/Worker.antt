-- ===== src/Worker.antt =====
-- The key-value workers of spring/wgen.py: one batch of commands, and the counters that the worker
-- processes share. The document generator is an argument, `docs`; so are numpy's `shuffle` and the
-- random draws, one set of draws for each command of a batch.
pub mod Ops
pub mod Batch
pub mod Creates
pub mod Interleaving
pub mod Progress
pub mod Query
pub mod Variants
pub mod Sources
pub mod Workload
pub mod Async
pub mod Moving
use perfrunner.Prelude.{
  ℕ, zero, suc, ◌+◌, ◌*◌, ◌/◌, ◌<◌, Bool, true, false, Option, none, some, List, [], ◌∷◌, ◌++◌,
  Result, ok, err, type_error, ◌>>=◌, ltb, ◌==◌, if◌then◌else◌, replicate, not,
}
use perfrunner.Prelude.Int.{ℤ, pos, Ratio}
use perfrunner.Text.{Text}
use perfrunner.Keys.{Key}
use perfrunner.Generators.{
  KeySettings, HotLoad, WorkingSetKey, new_ordered_key, key_for_removal, uniform_key,
  working_set_key, working_set_next, moving_next, zipf_key, power_key,
}

-- The settings that a worker reads.
pub record WorkloadSettings : Type 0 where
  pub keys : KeySettings
  pub open keys use *
  pub creates : ℕ
  pub reads : ℕ
  pub updates : ℕ
  pub deletes : ℕ
  pub reads_and_updates : ℕ
  -- none: no limit, `float('inf')`
  pub ops : Option ℕ
  pub spring_batch_size : ℕ
  -- 0 stands for none
  pub durability : ℕ
  pub persist_to : ℕ
  pub replicate_to : ℕ
  pub ttl : ℕ
  pub working_set_move_time : ℕ
  pub power_alpha : Ratio
  pub zipf_alpha : Ratio

abbrev is_zero : Ratio → Bool
is_zero q = q.num == 0

-- What the random sources give one command.
pub record Draws : Type 0 where
  pub access : ℕ
  pub position : ℕ
  pub zipf : ℕ
  pub power : Ratio

pub data ExistingKeys : Type 0 where
  moving : KeySettings → Text → ExistingKeys
  working : WorkingSetKey → ExistingKeys
  power zipf uniform : Text → Text → ExistingKeys

-- `Worker.init_keys`: which generator of existing keys is used
unfoldable pub init_keys : WorkloadSettings → Text → ExistingKeys
unfolding working_set_key
init_keys ws prefix =
    if not (ws.working_set_move_time == 0)
    then moving ws.keys prefix
    else if ltb ws.working_set.num (100 * ws.working_set.den)
    then working (working_set_key ws.keys prefix)
    else if not (is_zero ws.power_alpha)
    then power prefix ws.key_fmtr
    else if not (is_zero ws.zipf_alpha)
    then zipf prefix ws.key_fmtr
    else uniform prefix ws.key_fmtr

-- `existing_keys.next(curr_items, curr_deletes)`: the moving generator wants two more arguments
unfoldable pub existing_next : ExistingKeys → Draws → ℤ → ℤ → Result Key
unfolding working_set_next uniform_key zipf_key power_key
existing_next (moving ws prefix) d items deletes = err type_error
existing_next (working g) d items deletes = working_set_next g d.access d.position items deletes
existing_next (power prefix fmtr) d items deletes = ok (power_key prefix fmtr d.power items deletes)
existing_next (zipf prefix fmtr) d items deletes = ok (zipf_key prefix fmtr d.zipf items deletes)
existing_next (uniform prefix fmtr) d items deletes =
    uniform_key prefix fmtr d.position items deletes

-- `existing_keys.next(curr_items, curr_deletes, current_hot_load_start, timer_elapse)`
unfoldable pub existing_next_hot : ExistingKeys → Draws → ℤ → ℤ → HotLoad → Result Key × HotLoad
unfolding existing_next moving_next
existing_next_hot (moving ws prefix) d items deletes s =
    moving_next ws prefix d.position items deletes s
existing_next_hot (working g) d items deletes s = (existing_next (working g) d items deletes, s)
existing_next_hot (power p f) d items deletes s = (existing_next (power p f) d items deletes, s)
existing_next_hot (zipf p f) d items deletes s = (existing_next (zipf p f) d items deletes, s)
existing_next_hot (uniform p f) d items deletes s = (existing_next (uniform p f) d items deletes, s)

-- The kinds of operations: 'c', 'r', 'u', 'd' and 'm'.
pub data Op : Type 0 where
  create read update delete modify : Op

-- `KVWorker.random_ops`, before the shuffle
unfoldable pub all_ops : WorkloadSettings → List Op
all_ops ws =
    replicate ws.creates create
    ++ (replicate ws.reads read
        ++ (replicate ws.updates update
            ++ (replicate ws.deletes delete ++ replicate (ws.reads_and_updates / 2) modify)))

-- A call on the client, with its arguments; the first text of the program's tuple, 'set', 'get' or
-- 'delete', is `operation`.
pub data Command (Doc : Type 0) : Type 0 where
  do_update : (key : Key) (doc : Doc) (persist_to replicate_to ttl : ℕ) → Command Doc
  do_update_durable : (key : Key) (doc : Doc) (durability ttl : ℕ) → Command Doc
  do_read : (key : Key) → Command Doc
  do_delete : (key : Key) → Command Doc

module _ {Doc : Type 0} (docs : Key → Doc) (ws : WorkloadSettings) (prefix : Text) where
  set_command : Key → Command Doc
  set_command key =
      if ws.durability == 0
      then do_update key (docs key) ws.persist_to ws.replicate_to ws.ttl
      else do_update_durable key (docs key) ws.durability ws.ttl

  -- `create_args`
  unfoldable pub create_args : ℕ → List (Command Doc)
  unfolding set_command new_ordered_key
  create_args curr_items = set_command (new_ordered_key prefix ws.key_fmtr curr_items) ∷ []

  -- `read_args`
  unfoldable pub read_args : Draws → ℕ → ℕ → Result (List (Command Doc))
  read_args d curr_items deleted_items =
      existing_next (init_keys ws prefix) d (pos curr_items) (pos deleted_items) >>= λ key.
      ok (do_read key ∷ [])

  -- `update_args`
  unfoldable pub update_args : Draws → ℕ → ℕ → HotLoad → Result (List (Command Doc)) × HotLoad
  unfolding set_command
  update_args d curr_items deleted_items s =
      let (r, s') =
        existing_next_hot (init_keys ws prefix) d (pos curr_items) (pos deleted_items) s in
      ((r >>= λ key. ok (set_command key ∷ [])), s')

  -- `delete_args`
  unfoldable pub delete_args : ℕ → List (Command Doc)
  unfolding key_for_removal
  delete_args deleted_items = do_delete (key_for_removal prefix ws.key_fmtr deleted_items) ∷ []

  -- `modify_args`
  unfoldable pub modify_args : Draws → ℕ → ℕ → Result (List (Command Doc))
  modify_args d curr_items deleted_items =
      existing_next (init_keys ws prefix) d (pos curr_items) (pos deleted_items) >>= λ key.
      ok (do_read key ∷ do_update key (docs key) ws.persist_to ws.replicate_to ws.ttl ∷ [])

-- The variables of the loop over the operations.
pub record Loop : Type 0 where
  pub curr_items : ℕ
  pub deleted_items : ℕ
  pub hot : HotLoad

-- `cmds += …`, then the rest of the loop; an exception ends the loop.
abbrev pub extend {ℓ} :
    {C S : Type ℓ} → Result (List C) × S → (S → Result (List C) × S) → Result (List C) × S
extend (ok cmds, s) rest = let (r, s') = rest s in ((r >>= λ cs. ok (cmds ++ cs)), s')
extend (err e, s) rest = (err e, s)

-- The values that the worker processes share.
pub record Shared : Type 0 where
  pub curr_items : ℕ
  pub deleted_items : ℕ
  pub hot : HotLoad

-- `with self.lock`: a worker takes the numbers of its new documents.
unfoldable pub take_creates : WorkloadSettings → Shared → ℕ × Shared
take_creates ws s =
    if ws.creates == 0
    then (ws.items, s)
    else (s.curr_items, record s { curr_items = s.curr_items + ws.creates })

-- `with self.lock`: a worker takes the numbers of the documents that it deletes.
unfoldable pub take_deletes : WorkloadSettings → Shared → ℕ × Shared
take_deletes ws s = if ws.deletes == 0 then (0, s) else (
  s.deleted_items + ws.deletes * ws.workers,
  record s { deleted_items = s.deleted_items + ws.deletes },
)

module _ {Doc : Type 0} (docs : Key → Doc) (ws : WorkloadSettings) (prefix : Text) where
  -- One round of the loop over `random_ops`.
  unfoldable pub run_op : Op → Draws → Loop → Result (List (Command Doc)) × Loop
  unfolding create_args read_args update_args delete_args modify_args
  run_op create d l =
      (ok (create_args docs ws prefix l.curr_items), record l { curr_items = l.curr_items + 1 })
  run_op read d l = (read_args docs ws prefix d l.curr_items l.deleted_items, l)
  run_op update d l =
      let (r, hot) = update_args docs ws prefix d l.curr_items l.deleted_items l.hot in
      (r, record l { hot = hot })
  run_op delete d l = (
    ok (delete_args docs ws prefix l.deleted_items),
    record l { deleted_items = l.deleted_items + 1 },
  )
  run_op modify d l = (modify_args docs ws prefix d l.curr_items l.deleted_items, l)

  unfoldable pub run_ops : List Op → (ℕ → Draws) → ℕ → Loop → Result (List (Command Doc)) × Loop
  run_ops [] draws i l = (ok [], l)
  run_ops (op ∷ ops) draws i l = extend (run_op op (draws i) l) (λ l'. run_ops ops draws (i + 1) l')

  -- `KVWorker.gen_cmd_sequence`
  unfoldable pub gen_cmd_sequence :
      (List Op → List Op) → (ℕ → Draws) → Shared → Result (List (Command Doc)) × Shared
  unfolding take_creates take_deletes
  gen_cmd_sequence shuffle draws s =
      let (curr_items, s1) = take_creates ws s in
      let (deleted_items, s2) = take_deletes ws s1 in
      let (r, l) =
        run_ops (shuffle (all_ops ws)) draws 0
          (record { curr_items = curr_items; deleted_items = deleted_items; hot = s2.hot }) in
      (r, record s2 { hot = l.hot })
