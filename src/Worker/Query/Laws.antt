-- ===== src/Worker/Query/Laws.antt =====
-- Which documents the query workers of spring/wgen.py touch.
use perfrunner.Prelude.{
  ℕ, zero, suc, ◌+◌, ◌*◌, ◌/◌, ◌<◌, ◌≡◌, refl, ap, ◌∙◌, sym, List, ◌∷◌, ◌++◌, map, Result, arith,
  Returns, returns_bind, returns_mono, All, All-mono, length, leb, ltb, ◌&&◌, if◌then◌else◌, ◌==◌,
  false,
}
use perfrunner.Prelude.Int.{ℤ, pos, ◌+ℤ◌, ◌-ℤ◌, ◌≤ℤ◌, ◌<ℤ◌, int_laws}
use perfrunner.Prelude.Range.{
  stepped, stepped-suc, stepped_zero, count, count-append, count_interval,
}
use perfrunner.Text.{Text}
use perfrunner.Keys.{Key}
use perfrunner.Generators.{key_for_cas_update, new_ordered_key}
use perfrunner.Generators.Space.{InSpace, uniform_key-InSpace}
use perfrunner.Worker.{Draws, uniform, Shared, init_keys, existing_next, take_creates}
use perfrunner.Worker.Ops.{first_creates}
use perfrunner.Worker.Query.{
  QuerySettings, next_keys, new_keys, n1ql_create, cas_keys, n1ql_update, view_batch,
}

abbrev pub numbers : List Key → List ℤ
numbers = map (λ k. k.number)

numbers-new_keys :
    (qs : QuerySettings) (prefix : Text) (n c : ℕ)
    → numbers (new_keys qs prefix n c) ≡ stepped n (pos (c + 1)) 1
unfolding new_keys new_ordered_key
numbers-new_keys qs prefix zero c = sym (stepped_zero (pos (c + 1)) 1)
numbers-new_keys qs prefix (suc n) c =
    ap (λ ns. pos (c + 1) ∷ ns) (numbers-new_keys qs prefix n (c + 1)) ∙ sym (stepped-suc n (c + 1))

-- How often a number is used by a batch of N1QL creations and the key-value batch behind it.
count-created :
    (qs : QuerySettings) (prefix : Text) (s : Shared) (x : ℕ)
    → let s' = (n1ql_create qs prefix s).1 in
      count (pos x) (
        numbers (n1ql_create qs prefix s).0
        ++ stepped qs.workload.creates (pos (take_creates qs.workload s').0) 1)
      ≡ (if leb (s.curr_items + 1) x && ltb x (s.curr_items + 1 + qs.n1ql_batch_size) then 1 else 0)
        + (if leb (s.curr_items + qs.n1ql_batch_size) x
              && ltb x (s.curr_items + qs.n1ql_batch_size + qs.workload.creates)
            then 1
            else 0)
unfolding n1ql_create
count-created qs prefix s x =
    let n = qs.n1ql_batch_size in
    let s' = (n1ql_create qs prefix s).1 in
    rw
      (
        count-append,
        numbers-new_keys qs prefix n s.curr_items,
        first_creates qs.workload s',
        count_interval n (s.curr_items + 1) x,
        count_interval qs.workload.creates (s.curr_items + n) x,
      )
      refl

-- A batch of N1QL creations reserves the numbers from the counter on, and then uses the numbers
-- behind it: the first reserved number is never written, and the number after the reserved ones is
-- written again by the key-value worker that takes its numbers next, if both create any documents.
pub n1ql_create-collides :
    (qs : QuerySettings) (prefix : Text) (s : Shared)
    → 0 < qs.n1ql_batch_size
    → 0 < qs.workload.creates
    → let (keys, s') = n1ql_create qs prefix s in
      let next = stepped qs.workload.creates (pos (take_creates qs.workload s').0) 1 in
      (count (pos s.curr_items) (numbers keys ++ next) ≡ 0)
      × (count (pos (s.curr_items + qs.n1ql_batch_size)) (numbers keys ++ next) ≡ 2)
n1ql_create-collides qs prefix s some_n1ql some_kv =
    let n = qs.n1ql_batch_size in
    (
      count-created qs prefix s s.curr_items ∙ ground arith,
      count-created qs prefix s (s.curr_items + n) ∙ ground arith,
    )

-- numpy's `random_integers(lo, hi)` gives a number between the two, both included.
abbrev pub IsBetween : (ℤ → ℤ → Result ℤ) → Type 0
IsBetween random_integers =
    (lo hi : ℤ) → lo ≤ℤ hi → Returns (random_integers lo hi) (λ n. (lo ≤ℤ n) × (n ≤ℤ hi))

module _ (qs : QuerySettings) (prefix : Text) (sid curr_items : ℕ) where
  -- The documents of one worker.
  abbrev pub InShare : Key → Type 0
  InShare k =
      let each = curr_items / qs.n1ql_workers in
      (pos (sid * each) ≤ℤ k.number) × (k.number <ℤ pos (sid * each + each))

  key-InShare :
      (draw : ℤ → ℤ → Result ℤ)
      → IsBetween draw
      → 0 < qs.n1ql_workers
      → 0 < curr_items / qs.n1ql_workers
      → Returns
          (key_for_cas_update draw qs.n1ql_workers prefix qs.workload.key_fmtr sid curr_items)
          InShare
  unfolding key_for_cas_update
  key-InShare draw h w p =
      let each = curr_items / qs.n1ql_workers in
      let no_zero : (qs.n1ql_workers == 0) ≡ false = ground arith in
      let lo = pos (sid * each) in
      let hi = pos (sid * each + each) -ℤ pos 1 in
      rw no_zero (
        returns_bind (λ n. (lo ≤ℤ n) × (n ≤ℤ hi)) InShare (draw lo hi) _ (h lo hi (omega int_laws))
          (λ n b. (b.0, omega int_laws)))

  cas_keys-InShare :
      (draws : ℕ → ℤ → ℤ → Result ℤ) (n : ℕ)
      → ((i : ℕ) → IsBetween (draws i))
      → 0 < qs.n1ql_workers
      → 0 < curr_items / qs.n1ql_workers
      → Returns
          (cas_keys qs prefix sid draws curr_items n)
          (λ keys. All InShare keys × (length keys ≡ n))
  unfolding cas_keys
  cas_keys-InShare draws zero h w p = (tt, refl)
  cas_keys-InShare draws (suc n) h w p =
      returns_bind InShare _ _ _ (key-InShare (draws n) (h n) w p) λ key good.
        returns_bind (λ keys. All InShare keys × (length keys ≡ n)) _ _ _
          (cas_keys-InShare draws n h w p) λ keys rest. ((good, rest.0), ap suc rest.1)

-- A batch of N1QL updates returns a full batch of keys, all in the worker's own share of the
-- documents, if there are workers, at least as many documents as workers, and the random numbers
-- keep to their bounds.
pub n1ql_update-InShare :
    (qs : QuerySettings) (prefix : Text) (sid : ℕ) (draws : ℕ → ℤ → ℤ → Result ℤ) (s : Shared)
    → ((i : ℕ) → IsBetween (draws i))
    → 0 < qs.n1ql_workers
    → 0 < s.curr_items / qs.n1ql_workers
    → Returns
        (n1ql_update qs prefix sid draws s)
        (λ keys. All (InShare qs prefix sid s.curr_items) keys × (length keys ≡ qs.n1ql_batch_size))
unfolding n1ql_update
n1ql_update-InShare qs prefix sid draws s h w p =
    cas_keys-InShare qs prefix sid s.curr_items draws qs.n1ql_batch_size h w p

next_keys-InSpace :
    (prefix fmtr : Text) (draws : ℕ → Draws) (items deletes : ℤ) (i n : ℕ)
    → deletes <ℤ items
    → Returns
        (next_keys (uniform prefix fmtr) draws items deletes i n)
        (λ keys. All (InSpace deletes items) keys × (length keys ≡ n))
unfolding next_keys existing_next
next_keys-InSpace prefix fmtr draws items deletes i zero h = (tt, refl)
next_keys-InSpace prefix fmtr draws items deletes i (suc n) h =
    returns_bind (InSpace deletes items) _ _ _
      (uniform_key-InSpace prefix fmtr (draws i).position items deletes h)
      λ key good.
        returns_bind (λ keys. All (InSpace deletes items) keys × (length keys ≡ n)) _ _ _
          (next_keys-InSpace prefix fmtr draws items deletes (i + 1) n h)
          λ keys rest. ((good, rest.0), ap suc rest.1)

-- A batch of the view workers on uniform keys returns a full batch, and keeps clear of both ends of
-- the key space: of the documents that one round of batches of all workers may be creating, and of
-- those that it may be deleting, if any documents are left between the two.
pub view_batch-InSpace :
    (qs : QuerySettings) (prefix fmtr : Text) (draws : ℕ → Draws) (s : Shared)
    → init_keys qs.workload prefix ≡ uniform prefix fmtr
    → s.deleted_items
        + qs.workload.deletes * qs.workload.workers
        + qs.workload.creates * qs.workload.workers
      < s.curr_items
    → Returns (view_batch qs prefix draws s) (λ keys.
      (All
        (λ k.
          (pos (s.deleted_items + qs.workload.deletes * qs.workload.workers) ≤ℤ k.number)
          × (k.number +ℤ pos (qs.workload.creates * qs.workload.workers) <ℤ pos s.curr_items))
        keys)
      × (length keys ≡ qs.workload.spring_batch_size))
unfolding view_batch
view_batch-InSpace qs prefix fmtr draws s uniform_keys room =
    let ws = qs.workload in
    let items = pos s.curr_items -ℤ pos (ws.creates * ws.workers) in
    let deletes = pos (s.deleted_items + ws.deletes * ws.workers) in
    rw uniform_keys (
      returns_mono (λ keys. All (InSpace deletes items) keys × (length keys ≡ ws.spring_batch_size))
        _ _
        (next_keys-InSpace prefix fmtr draws items deletes 0 ws.spring_batch_size (omega int_laws))
        (λ keys h. (All-mono _ _ keys h.0 (λ k b. (b.0, omega int_laws)), h.1)))
