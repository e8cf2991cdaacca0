-- ===== src/Worker/Creates.antt =====
-- Which documents a batch without updates writes.
use perfrunner.Prelude.{
  ℕ, ◌+◌, ◌<◌, ◌≡◌, refl, ap, List, [], ◌∷◌, ◌++◌, ok, arith, if◌then◌else◌, >>=-eq-ok, sym, ◌∙◌,
}
use perfrunner.Prelude.Int.{ℤ, pos}
use perfrunner.Prelude.Range.{stepped, stepped_zero}
use perfrunner.Text.{Text}
use perfrunner.Keys.{Key}
use perfrunner.Worker.Ops.{
  is_op, count_op, extend-eq-ok, next_numbers, IsShuffle, count_op-all_ops, first_creates,
}
use perfrunner.Worker.{
  WorkloadSettings, Draws, Op, create, read, update, delete, modify, Command, do_update,
  do_update_durable, do_read, do_delete, Loop, Shared, take_creates, take_deletes, run_op, run_ops,
  gen_cmd_sequence, all_ops, existing_next, init_keys,
}

module _ {Doc : Type 0} where
  -- The numbers of the documents that the commands write, in order.
  abbrev pub written : List (Command Doc) → List ℤ
  written [] = []
  written (do_delete k ∷ cs) = written cs
  written (do_update k _ _ _ _ ∷ cs) = k.number ∷ written cs
  written (do_update_durable k _ _ _ ∷ cs) = k.number ∷ written cs
  written (do_read k ∷ cs) = written cs

  written-append : (cs ds : List (Command Doc)) → written (cs ++ ds) ≡ written cs ++ written ds
  written-append [] ds = refl
  written-append (do_delete _ ∷ cs) ds = written-append cs ds
  written-append (do_update k _ _ _ _ ∷ cs) ds = ap (λ ns. k.number ∷ ns) (written-append cs ds)
  written-append (do_update_durable k _ _ _ ∷ cs) ds =
      ap (λ ns. k.number ∷ ns) (written-append cs ds)
  written-append (do_read _ ∷ cs) ds = written-append cs ds

-- The operations that write existing documents.
abbrev rewrites : List Op → ℕ
rewrites ops = count_op update ops + count_op modify ops

module _ {Doc : Type 0} (docs : Key → Doc) (ws : WorkloadSettings) (prefix : Text) where
  written_once :
      (op : Op) (d : Draws) (l : Loop) (cs : List (Command Doc))
      → (run_op docs ws prefix op d l).0 ≡ ok cs
      → rewrites (op ∷ []) ≡ 0
      → ((run_op docs ws prefix op d l).1.curr_items
          ≡ l.curr_items + (if is_op create op then 1 else 0))
        × (written cs ≡ (if is_op create op then pos l.curr_items ∷ [] else []))
  unfolding run_op
  written_once create d l cs h z = ground arith
  written_once read d l cs h z =
      let (key, _, e) =
        >>=-eq-ok (existing_next (init_keys ws prefix) d (pos l.curr_items) (pos l.deleted_items)) _
          h in
      ground arith
  written_once delete d l cs h z = ground arith
  written_once update d l cs h z = absurd (omega arith)
  written_once modify d l cs h z = absurd (omega arith)

  run_ops-written :
      (ops : List Op) (draws : ℕ → Draws) (i : ℕ) (l : Loop) (cs : List (Command Doc))
      → (run_ops docs ws prefix ops draws i l).0 ≡ ok cs
      → rewrites ops ≡ 0
      → written cs ≡ stepped (count_op create ops) (pos l.curr_items) 1
  unfolding run_ops
  run_ops-written [] draws i l cs h z =
      let e : [] ≡ cs = cc in rw (← e) (sym (stepped_zero (pos l.curr_items) 1))
  run_ops-written (op ∷ ops) draws i l cs h z =
      let turn = run_op docs ws prefix op (draws i) l in
      let rest = λ (s : Loop). run_ops docs ws prefix ops draws (i + 1) s in
      let (first, last, came, went, both, _) = extend-eq-ok turn rest h in
      let (c, w) = written_once op (draws i) l first came (omega arith) in
      let w' = run_ops-written ops draws (i + 1) turn.1 last went (omega arith) in
      rw both (
        written-append first last
        ∙ (rw (w, w', c) (next_numbers (is_op create op) (count_op create ops) l.curr_items)))

  -- A batch that is produced and holds neither updates nor read-and-updates writes exactly the
  -- numbers that it took from the shared counter, each once and in order, for every shuffle that
  -- keeps the operations.
  pub gen_cmd_sequence-creates :
      (shuffle : List Op → List Op) (draws : ℕ → Draws) (s : Shared) (cs : List (Command Doc))
      → IsShuffle shuffle
      → ws.updates ≡ 0
      → ws.reads_and_updates < 2
      → (gen_cmd_sequence docs ws prefix shuffle draws s).0 ≡ ok cs
      → written cs ≡ stepped ws.creates (pos s.curr_items) 1
  unfolding gen_cmd_sequence
  gen_cmd_sequence-creates shuffle draws s cs fair u m h =
      let s1 = (take_creates ws s).1 in
      let start : Loop = record {
        curr_items = (take_creates ws s).0;
        deleted_items = (take_deletes ws s1).0;
        hot = (take_deletes ws s1).1.hot;
      } in
      let (creates, updates, _, modifies) = count_op-all_ops ws in
      let none_rewritten : rewrites (shuffle (all_ops ws)) ≡ 0 =
        omega (arith, fair update (all_ops ws), fair modify (all_ops ws)) in
      run_ops-written (shuffle (all_ops ws)) draws 0 start cs h none_rewritten
      ∙ (rw (fair create (all_ops ws), creates) (first_creates ws s))
