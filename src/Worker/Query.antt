-- ===== src/Worker/Query.antt =====
-- The query workers of spring/wgen.py: the batches of `N1QLWorker` and of `ViewWorker`. Generating
-- the document and sending the query are left out: a batch is the list of the keys it queries.
pub mod Laws
use perfrunner.Prelude.{
  ℕ, zero, suc, ◌+◌, ◌-◌, ◌*◌, ◌/◌, ◌≤◌, ◌<◌, ◌≡◌, Bool, true, false, List, [], ◌∷◌, ◌++◌, map,
  Result, ok, err, ◌>>=◌, arith, if◌then◌else◌, ◌==◌, Returns, returns_bind, returns_mono, All,
  length,
}
use perfrunner.Prelude.Int.{ℤ, pos, ◌+ℤ◌, ◌-ℤ◌, ◌≤ℤ◌, ◌<ℤ◌, int_laws}
use perfrunner.Prelude.Range.{stepped, count, count-append, count_interval}
use perfrunner.Text.{Text, codes, eq_text}
use perfrunner.Keys.{Key}
use perfrunner.Generators.{key_for_cas_update, new_ordered_key}
use perfrunner.Generators.Space.{InSpace}
use perfrunner.Worker.{
  WorkloadSettings, Draws, ExistingKeys, Shared, init_keys, existing_next, take_creates,
}

pub record QuerySettings : Type 0 where
  pub workload : WorkloadSettings
  pub n1ql_batch_size : ℕ
  pub n1ql_workers : ℕ
  pub n1ql_op : Text
  pub doc_gen : Text

-- n calls of `existing_keys.next`, with the draws of each.
unfoldable pub next_keys : ExistingKeys → (ℕ → Draws) → ℤ → ℤ → ℕ → ℕ → Result (List Key)
next_keys g draws items deletes i zero = ok []
next_keys g draws items deletes i (suc n) = existing_next g (draws i) items deletes >>= λ key.
    next_keys g draws items deletes (i + 1) n >>= λ keys. ok (key ∷ keys)

module _ (qs : QuerySettings) (prefix : Text) where
  -- `N1QLWorker.read`
  unfoldable pub n1ql_read : (ℕ → Draws) → Shared → Result (List Key)
  unfolding next_keys
  n1ql_read draws s =
      let curr_items =
        if eq_text qs.doc_gen (codes "ext_reverse_lookup")
        then s.curr_items / 4
        else s.curr_items in
      next_keys (init_keys qs.workload prefix) draws (pos curr_items) (pos 0) 0 qs.n1ql_batch_size

  -- The loop of `N1QLWorker.create`, which steps before it uses the number.
  unfoldable pub new_keys : ℕ → ℕ → List Key
  unfolding new_ordered_key
  new_keys zero curr_items = []
  new_keys (suc n) curr_items =
      new_ordered_key prefix qs.workload.key_fmtr (curr_items + 1) ∷ new_keys n (curr_items + 1)

  -- `N1QLWorker.create`
  unfoldable pub n1ql_create : Shared → List Key × Shared
  unfolding new_keys
  n1ql_create s = (
    new_keys qs.n1ql_batch_size s.curr_items,
    record s { curr_items = s.curr_items + qs.n1ql_batch_size },
  )

  -- The loop of `N1QLWorker.update`; numpy's draws are an argument.
  unfoldable pub cas_keys : ℕ → (ℕ → ℤ → ℤ → Result ℤ) → ℕ → ℕ → Result (List Key)
  unfolding key_for_cas_update
  cas_keys sid random_integers curr_items zero = ok []
  cas_keys sid random_integers curr_items (suc n) =
      key_for_cas_update (random_integers n) qs.n1ql_workers prefix qs.workload.key_fmtr sid
        curr_items
      >>= λ key. cas_keys sid random_integers curr_items n >>= λ keys. ok (key ∷ keys)

  -- `N1QLWorker.update`
  unfoldable pub n1ql_update : ℕ → (ℕ → ℤ → ℤ → Result ℤ) → Shared → Result (List Key)
  unfolding cas_keys
  n1ql_update sid random_integers s = cas_keys sid random_integers s.curr_items qs.n1ql_batch_size

  -- `N1QLWorker.do_batch`
  unfoldable pub n1ql_batch :
      ℕ → (ℕ → Draws) → (ℕ → ℤ → ℤ → Result ℤ) → Shared → Result (List Key) × Shared
  unfolding n1ql_read n1ql_create n1ql_update
  n1ql_batch sid draws random_integers s =
      if eq_text qs.n1ql_op (codes "read")
      then (n1ql_read draws s, s)
      else if eq_text qs.n1ql_op (codes "create")
      then (ok (n1ql_create s).0, (n1ql_create s).1)
      else if eq_text qs.n1ql_op (codes "update")
      then (n1ql_update sid random_integers s, s)
      else (ok [], s)

  -- `ViewWorker.do_batch`
  unfoldable pub view_batch : (ℕ → Draws) → Shared → Result (List Key)
  unfolding next_keys
  view_batch draws s =
      let ws = qs.workload in
      next_keys (init_keys ws prefix) draws (pos s.curr_items -ℤ pos (ws.creates * ws.workers))
        (pos (s.deleted_items + ws.deletes * ws.workers)) 0 ws.spring_batch_size
