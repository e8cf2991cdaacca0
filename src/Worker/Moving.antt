-- ===== src/Worker/Moving.antt =====
-- Batches that read while the working set moves.
use perfrunner.Prelude.{
  ℕ, ◌+◌, ◌<◌, ◌≡◌, ◌≢◌, refl, List, [], ◌∷◌, ok, err, type_error, arith, true, Bool-cases, inl,
  inr,
}
use perfrunner.Text.{Text}
use perfrunner.Keys.{Key}
use perfrunner.Worker.Ops.{is_op, count_op, extend-eq-ok, IsShuffle, count_reads}
use perfrunner.Worker.{
  WorkloadSettings, Draws, Op, create, read, update, delete, modify, Command, Loop, Shared, moving,
  run_op, run_ops, read_args, gen_cmd_sequence, all_ops, existing_next, init_keys,
}

module _ {Doc : Type 0} (docs : Key → Doc) (ws : WorkloadSettings) (prefix : Text) where
  init_keys-moving : ws.working_set_move_time ≢ 0 → init_keys ws prefix ≡ moving ws.keys prefix
  unfolding init_keys
  init_keys-moving h = ground arith

  read-fails :
      (d : Draws) (items deletes : ℕ)
      → ws.working_set_move_time ≢ 0
      → read_args docs ws prefix d items deletes ≡ err type_error
  unfolding read_args existing_next
  read-fails d items deletes h = rw (init_keys-moving h) refl

  run_op-fails :
      (op : Op) (d : Draws) (l : Loop) (cs : List (Command Doc))
      → ws.working_set_move_time ≢ 0
      → is_op read op ≡ true
      → (run_op docs ws prefix op d l).0 ≢ ok cs
  unfolding run_op
  run_op-fails read d l cs h p e = cc (read-fails d l.curr_items l.deleted_items h, e)
  run_op-fails create d l cs h p e = cc
  run_op-fails update d l cs h p e = cc
  run_op-fails delete d l cs h p e = cc
  run_op-fails modify d l cs h p e = cc

  run_ops-fails :
      (ops : List Op) (draws : ℕ → Draws) (i : ℕ) (l : Loop) (cs : List (Command Doc))
      → ws.working_set_move_time ≢ 0
      → 0 < count_op read ops
      → (run_ops docs ws prefix ops draws i l).0 ≢ ok cs
  unfolding run_ops
  run_ops-fails [] draws i l cs h p e = absurd (omega arith)
  run_ops-fails (op ∷ ops) draws i l cs h p e =
      let turn = run_op docs ws prefix op (draws i) l in
      let rest = λ (s : Loop). run_ops docs ws prefix ops draws (i + 1) s in
      let (first, last, came, went, _, _) = extend-eq-ok turn rest e in
      elim (Bool-cases (is_op read op)) [
        | inl reads ↦ run_op-fails op (draws i) l first h reads came
        | inr other ↦ run_ops-fails ops draws (i + 1) turn.1 last h (ground arith) went
      ]

  -- A batch that reads any document while the working set moves is never produced, for every
  -- shuffle that keeps the operations: the generator of keys is called without two of its
  -- arguments.
  pub gen_cmd_sequence-fails :
      (shuffle : List Op → List Op) (draws : ℕ → Draws) (s : Shared) (cs : List (Command Doc))
      → IsShuffle shuffle
      → ws.working_set_move_time ≢ 0
      → 0 < ws.reads
      → (gen_cmd_sequence docs ws prefix shuffle draws s).0 ≢ ok cs
  unfolding gen_cmd_sequence
  gen_cmd_sequence-fails shuffle draws s cs fair h p e =
      run_ops-fails (shuffle (all_ops ws)) draws 0 _ cs h
        (omega (arith, fair read (all_ops ws), count_reads ws)) e
