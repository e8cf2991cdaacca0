-- ===== src/Tests/Worker.antt =====
-- Batches, interleavings and the run loop at concrete settings.
use perfrunner.Prelude.{
  ℕ, ◌≡◌, ◌<◌, refl, some, false, List, [], ◌∷◌, ok, arith, false, length, All, Returns, Result,
  ◌++◌,
}
use perfrunner.Prelude.Int.{ℤ, pos, Ratio, ◌+ℤ◌, ◌-ℤ◌}
use perfrunner.Prelude.Range.{stepped, count, count_nil}
use perfrunner.Worker.Query.{QuerySettings, n1ql_create, n1ql_update}
use perfrunner.Worker.Query.Laws.{
  numbers, n1ql_create-collides, n1ql_update-InShare, InShare, IsBetween,
}
use perfrunner.Text.{codes}
use perfrunner.Keys.{Key}
use perfrunner.Worker.{
  WorkloadSettings, Draws, Op, Command, do_update, do_read, do_delete, Shared, gen_cmd_sequence,
  run_ops, run_op, all_ops, take_creates, existing_next, init_keys,
}
use perfrunner.Prelude.{true}
use perfrunner.Worker.Variants.{worker_factory, seq_xattr_updates_worker}
use perfrunner.Worker.Ops.{IsShuffle}
use perfrunner.Worker.Batch.{deleted, gen_cmd_sequence-deletes}
use perfrunner.Worker.Creates.{written, gen_cmd_sequence-creates}
use perfrunner.Worker.Interleaving.{Turn, take_new, take_old, Board, turns, IsExact, turns-IsExact}
use perfrunner.Worker.Progress.{Move, idle, run, run_overshoot}

abbrev none_of : Ratio
none_of = record { num = 0; den = 1 }

abbrev settings : WorkloadSettings
settings = record {
  keys = record {
    items = 100;
    workers = 2;
    working_set = record { num = 100; den = 1 };
    working_set_access = 100;
    working_set_moving_docs = 0;
    key_fmtr = codes "decimal";
  };
  creates = 2;
  reads = 1;
  updates = 0;
  deletes = 1;
  reads_and_updates = 0;
  ops = some 1000;
  spring_batch_size = 4;
  durability = 0;
  persist_to = 0;
  replicate_to = 0;
  ttl = 0;
  working_set_move_time = 0;
  power_alpha = none_of;
  zipf_alpha = none_of;
}

abbrev docs : Key → ℕ
docs k = 0

abbrev draws : ℕ → Draws
draws i = record { access = i; position = i; zipf = 1; power = none_of }

abbrev unshuffled : List Op → List Op
unshuffled ops = ops

unshuffled-IsShuffle : IsShuffle unshuffled
unshuffled-IsShuffle o xs = refl

abbrev shared : Shared
shared = record {
  curr_items = 100;
  deleted_items = 0;
  hot = record { hot_load_start = 0; timer_elapse = 0 };
}

abbrev key : ℕ → Key
key n = record { number = pos n; prefix = []; fmtr = codes "decimal"; hit = false }

abbrev batch : List (Command ℕ)
batch =
    do_update (key 100) 0 0 0 0
    ∷ do_update (key 101) 0 0 0 0
    ∷ do_read (key 4)
    ∷ do_delete (key 2)
    ∷ []

batch_runs : (gen_cmd_sequence docs settings [] unshuffled draws shared).0 ≡ ok batch
unfolding gen_cmd_sequence run_ops run_op all_ops existing_next init_keys ◌+ℤ◌ ◌-ℤ◌
batch_runs = refl

gen_cmd_sequence-deletes_example :
    let s' = (gen_cmd_sequence docs settings [] unshuffled draws shared).1 in
    (deleted batch ≡ stepped 1 (pos 2) 1)
    × (s'.curr_items ≡ 102)
    × (s'.deleted_items ≡ 1)
    × (length batch ≡ 4)
gen_cmd_sequence-deletes_example =
    gen_cmd_sequence-deletes docs settings [] unshuffled draws shared batch unshuffled-IsShuffle
      batch_runs

gen_cmd_sequence-creates_example : written batch ≡ stepped 2 (pos 100) 1
gen_cmd_sequence-creates_example =
    gen_cmd_sequence-creates docs settings [] unshuffled draws shared batch unshuffled-IsShuffle
      refl (omega arith) batch_runs

abbrev fresh : Board
fresh = record { created = []; deleted = []; shared = shared }

fresh-IsExact : IsExact settings 100 0 fresh
fresh-IsExact = record {
  items_le = omega arith;
  deleted_le = omega arith;
  new_once = λ x. ground (arith, count_nil (pos x));
  old_once = λ x. ground (arith, count_nil (pos x));
}

abbrev schedule : List Turn
schedule = take_new 0 ∷ take_new 1 ∷ take_old 1 ∷ take_new 1 ∷ take_old 0 ∷ []

turns-IsExact_example : IsExact settings 100 0 (turns settings schedule fresh)
turns-IsExact_example = turns-IsExact settings 100 0 schedule fresh fresh-IsExact

abbrev moves : List Move
moves =
    record { worker = 0; stopping = false }
    ∷ record { worker = 1; stopping = false }
    ∷ record { worker = 0; stopping = false }
    ∷ []

run_overshoot_example : (run settings moves (idle settings 2)).curr_ops < 1008
run_overshoot_example = run_overshoot settings 1000 2 moves refl (omega arith)

abbrev queries : QuerySettings
queries = record {
  workload = settings;
  n1ql_batch_size = 2;
  n1ql_workers = 2;
  n1ql_op = codes "create";
  doc_gen = codes "basic";
}

n1ql_create-collides_example :
    let (keys, s') = n1ql_create queries [] shared in
    let next = stepped 2 (pos (take_creates settings s').0) 1 in
    (count (pos 100) (numbers keys ++ next) ≡ 0) × (count (pos 102) (numbers keys ++ next) ≡ 2)
n1ql_create-collides_example = n1ql_create-collides queries [] shared (omega arith) (omega arith)

abbrev lowest : ℕ → ℤ → ℤ → Result ℤ
lowest i lo hi = ok lo

lowest-IsBetween : (i : ℕ) → IsBetween (lowest i)
lowest-IsBetween i lo hi h = (omega arith, h)

n1ql_update-InShare_example :
    Returns
      (n1ql_update queries [] 1 lowest shared)
      (λ keys. All (InShare queries [] 1 100) keys × (length keys ≡ 2))
n1ql_update-InShare_example =
    n1ql_update-InShare queries [] 1 lowest shared lowest-IsBetween (omega arith) (omega arith)

abbrev moving_settings : WorkloadSettings
moving_settings = record settings { working_set_move_time = 60 }

factory_runs :
    worker_factory (record {
      async = false;
      seq_upserts = true;
      hot_reads = true;
      subdoc_field = [];
      xattr_field = codes "x";
      workers = 5;
    })
    ≡ (seq_xattr_updates_worker, 5)
unfolding worker_factory
factory_runs = refl
