-- ===== src/Worker/Batch.antt =====
-- What one batch of commands does: which documents it creates and deletes.
use perfrunner.Prelude.{
  ℕ, ◌+◌, ◌*◌, ◌/◌, ◌≡◌, refl, ap, List, [], ◌∷◌, ◌++◌, ok, arith, length, length-append,
  if◌then◌else◌, >>=-eq-ok, sym, ◌∙◌,
}
use perfrunner.Prelude.Int.{ℤ, pos}
use perfrunner.Prelude.Range.{stepped, stepped_zero}
use perfrunner.Text.{Text}
use perfrunner.Keys.{Key}
use perfrunner.Worker.Ops.{
  is_op, count_op, extend-eq-ok, count_two, next_numbers, IsShuffle, length-all_ops,
  count_op-all_ops, length-shuffle, taken, first_deletes,
}
use perfrunner.Worker.{
  WorkloadSettings, Draws, Op, create, read, update, delete, modify, Command, do_update,
  do_update_durable, do_read, do_delete, Loop, Shared, take_creates, take_deletes, run_op, run_ops,
  gen_cmd_sequence, all_ops, existing_next, existing_next_hot, init_keys,
}

module _ {Doc : Type 0} where
  -- The numbers of the documents that the commands delete, in order.
  abbrev pub deleted : List (Command Doc) → List ℤ
  deleted [] = []
  deleted (do_delete k ∷ cs) = k.number ∷ deleted cs
  deleted (do_update k _ _ _ _ ∷ cs) = deleted cs
  deleted (do_update_durable k _ _ _ ∷ cs) = deleted cs
  deleted (do_read k ∷ cs) = deleted cs

  deleted-append : (cs ds : List (Command Doc)) → deleted (cs ++ ds) ≡ deleted cs ++ deleted ds
  deleted-append [] ds = refl
  deleted-append (do_delete k ∷ cs) ds = ap (λ ns. k.number ∷ ns) (deleted-append cs ds)
  deleted-append (do_update _ _ _ _ _ ∷ cs) ds = deleted-append cs ds
  deleted-append (do_update_durable _ _ _ _ ∷ cs) ds = deleted-append cs ds
  deleted-append (do_read _ ∷ cs) ds = deleted-append cs ds

module _ {Doc : Type 0} (docs : Key → Doc) (ws : WorkloadSettings) (prefix : Text) where
  -- What one round does to the counters and to the documents.
  run_op_lem :
      (op : Op) (d : Draws) (l : Loop) (cs : List (Command Doc))
      → (run_op docs ws prefix op d l).0 ≡ ok cs
      → let l' = (run_op docs ws prefix op d l).1 in
        (l'.curr_items ≡ l.curr_items + (if is_op create op then 1 else 0))
        × (l'.deleted_items ≡ l.deleted_items + (if is_op delete op then 1 else 0))
        × (deleted cs ≡ (if is_op delete op then pos l.deleted_items ∷ [] else []))
        × (length cs ≡ (if is_op modify op then 2 else 1))
  unfolding run_op
  run_op_lem create d l cs h = ground arith
  run_op_lem read d l cs h =
      let (key, _, e) =
        >>=-eq-ok (existing_next (init_keys ws prefix) d (pos l.curr_items) (pos l.deleted_items)) _
          h in
      ground arith
  run_op_lem update d l cs h =
      let (key, _, e) =
        >>=-eq-ok
          (existing_next_hot (init_keys ws prefix) d (pos l.curr_items) (pos l.deleted_items)
            l.hot).0
          _ h in
      ground arith
  run_op_lem delete d l cs h = ground arith
  run_op_lem modify d l cs h =
      let (key, _, e) =
        >>=-eq-ok (existing_next (init_keys ws prefix) d (pos l.curr_items) (pos l.deleted_items)) _
          h in
      ground arith

  -- What the loop does over all of the operations, if nothing raises.
  run_ops_lem :
      (ops : List Op) (draws : ℕ → Draws) (i : ℕ) (l : Loop) (cs : List (Command Doc))
      → (run_ops docs ws prefix ops draws i l).0 ≡ ok cs
      → let l' = (run_ops docs ws prefix ops draws i l).1 in
        (l'.curr_items ≡ l.curr_items + count_op create ops)
        × (l'.deleted_items ≡ l.deleted_items + count_op delete ops)
        × (deleted cs ≡ stepped (count_op delete ops) (pos l.deleted_items) 1)
        × (length cs ≡ length ops + count_op modify ops)
  unfolding run_ops
  run_ops_lem [] draws i l cs h =
      let e : [] ≡ cs = cc in
      rw (← e) (omega arith, omega arith, sym (stepped_zero (pos l.deleted_items) 1), omega arith)
  run_ops_lem (op ∷ ops) draws i l cs h =
      let turn = run_op docs ws prefix op (draws i) l in
      let rest = λ (s : Loop). run_ops docs ws prefix ops draws (i + 1) s in
      let (first, last, came, went, both, end) = extend-eq-ok turn rest h in
      let (c, d, ds, n) = run_op_lem op (draws i) l first came in
      let (c', d', ds', n') = run_ops_lem ops draws (i + 1) turn.1 last went in
      rw (end, both)
        (
          omega arith,
          omega arith,
          deleted-append first last
              ∙ (rw (ds, ds', d)
                  (next_numbers (is_op delete op) (count_op delete ops) l.deleted_items)),
          omega (arith, length-append first last, count_two op),
        )

module _ {Doc : Type 0} (docs : Key → Doc) (ws : WorkloadSettings) (prefix : Text) where
  -- For every shuffle that keeps the operations, a batch that is produced deletes the documents
  -- that follow those of the batches before it, each once and in order; the shared counters move by
  -- the numbers of documents created and deleted; and there is one command for each operation, two
  -- for each read-and-update.
  pub gen_cmd_sequence-deletes :
      (shuffle : List Op → List Op) (draws : ℕ → Draws) (s : Shared) (cs : List (Command Doc))
      → IsShuffle shuffle
      → (gen_cmd_sequence docs ws prefix shuffle draws s).0 ≡ ok cs
      → let s' = (gen_cmd_sequence docs ws prefix shuffle draws s).1 in
        (deleted cs ≡ stepped ws.deletes (pos (s.deleted_items + ws.deletes * ws.workers)) 1)
        × (s'.curr_items ≡ s.curr_items + ws.creates)
        × (s'.deleted_items ≡ s.deleted_items + ws.deletes)
        × (length cs
            ≡ ws.creates + ws.reads + ws.updates + ws.deletes + 2 * (ws.reads_and_updates / 2))
  unfolding gen_cmd_sequence
  gen_cmd_sequence-deletes shuffle draws s cs fair h =
      let s1 = (take_creates ws s).1 in
      let start : Loop = record {
        curr_items = (take_creates ws s).0;
        deleted_items = (take_deletes ws s1).0;
        hot = (take_deletes ws s1).1.hot;
      } in
      let ops = shuffle (all_ops ws) in
      let (_, _, ds, n) = run_ops_lem docs ws prefix ops draws 0 start cs h in
      let (creates, _, deletes, modifies) = count_op-all_ops ws in
      let (moved, kept, _, _) = taken ws s in
      let (_, _, moved', kept') = taken ws s1 in
      (
        ds
            ∙ (rw (fair delete (all_ops ws), deletes)
                (first_deletes ws s1
                  ∙ ap (λ m. stepped ws.deletes (pos (m + ws.deletes * ws.workers)) 1) kept)),
        kept' ∙ moved,
        omega arith,
        omega (
          arith,
          length-shuffle shuffle (all_ops ws) fair,
          length-all_ops ws,
          fair modify (all_ops ws),
        ),
      )
