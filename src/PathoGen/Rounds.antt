-- ===== src/PathoGen/Rounds.antt =====
-- About the end of an iteration of the ring of perfrunner/workloads/pathoGen.py.
use perfrunner.Prelude.{
  ℕ, zero, suc, ◌+◌, ◌-◌, ◌*◌, ◌%◌, ◌≤◌, ◌<◌, ◌≡◌, refl, ◌∙◌, List, [], ◌∷◌, ◌++◌, some, arith, ◌⊎◌,
  inl, inr, get_elem?, set, replicate, length, length-set, length-replicate, length-append,
}
use native.Mathlib.Nat.{mod_self, mod-eq_of_lt, mod-lt}
use perfrunner.PathoGen.Queues.{
  zero_or_more, last_or_before, length-put, queued, count, queued-put, queued-set, first_item,
  begin_queued, length_at-queued,
}
use perfrunner.PathoGen.{
  Item, Ring, begin, put, advanced, work, supervise, Step, send, worker, supervisor, Steps, here,
  HasRoom, next,
}

module _ (n : ℕ) where
  -- The turns at an item of queue `k` up to its end: a round for each size that is left, and the way
  -- to the supervisor.
  weight : ℕ → Item → ℕ
  weight k item = length item.left * n + (n - k)

  queue_weight : ℕ → List Item → ℕ
  queue_weight k [] = 0
  queue_weight k (item ∷ q) = weight k item + queue_weight k q

  queues_weight : ℕ → List (List Item) → ℕ
  queues_weight k [] = 0
  queues_weight k (q ∷ qs) = queue_weight k q + queues_weight (k + 1) qs

  -- All turns at items that are not sent, the sending included.
  pub turns_of : List Item → ℕ
  turns_of [] = 0
  turns_of (item ∷ items) = length item.left * n + n + 1 + turns_of items

  turns_left : Ring → ℕ
  turns_left r = turns_of r.unsent + queues_weight 0 r.queues

  queue_weight-append :
      (k : ℕ) (q : List Item) (item : Item)
      → queue_weight k (q ++ (item ∷ [])) ≡ queue_weight k q + weight k item
  unfolding queue_weight
  queue_weight-append k [] item = omega arith
  queue_weight-append k (i ∷ q) item = omega (arith, queue_weight-append k q item)

  queues_weight-put :
      (base : ℕ) (qs : List (List Item)) (k : ℕ) (item : Item)
      → k < length qs
      → queues_weight base (put qs k item) ≡ queues_weight base qs + weight (base + k) item
  unfolding queues_weight put queue_weight weight
  queues_weight-put base [] k item inside = absurd (omega arith)
  queues_weight-put base (q ∷ qs) zero item inside = omega (arith, queue_weight-append base q item)
  queues_weight-put base (q ∷ qs) (suc k) item inside =
      let step = queues_weight-put (base + 1) qs k item (omega arith) in
      let same : base + 1 + k ≡ base + suc k = omega arith in omega (arith, rw same at step)

  queues_weight-set :
      (base : ℕ) (qs : List (List Item)) (k : ℕ) (item : Item) (rest : List Item)
      → get_elem? qs k ≡ some (item ∷ rest)
      → queues_weight base (set qs k rest) + weight (base + k) item ≡ queues_weight base qs
  unfolding queues_weight queue_weight weight
  queues_weight-set base [] k item rest e = cc
  queues_weight-set base (q ∷ qs) zero item rest e =
      let same : q ≡ item ∷ rest = cc in rw same (omega arith)
  queues_weight-set base (q ∷ qs) (suc k) item rest e =
      let step = queues_weight-set (base + 1) qs k item rest e in
      let same : base + 1 + k ≡ base + suc k = omega arith in omega (arith, rw same at step)

  put-weight :
      (qs : List (List Item)) (k : ℕ) (item : Item)
      → k < length qs
      → queues_weight 0 (put qs k item) ≡ queues_weight 0 qs + weight k item
  put-weight qs k item inside =
      let same : 0 + k ≡ k = omega arith in rw same at (queues_weight-put 0 qs k item inside)

  taken_weight :
      (qs : List (List Item)) (k : ℕ) (item : Item) (rest : List Item)
      → get_elem? qs k ≡ some (item ∷ rest)
      → queues_weight 0 (set qs k rest) + weight k item ≡ queues_weight 0 qs
  taken_weight qs k item rest e =
      let same : 0 + k ≡ k = omega arith in rw same at (queues_weight-set 0 qs k item rest e)

  -- What a step of an iteration makes of the numbers; `turns` are those that are left.
  record Turns (r s : Ring) : Type 0 where
    fewer : turns_left s + 1 ≤ turns_left r
    same_count : count s ≡ count r
    same_queues : length s.queues ≡ length r.queues

  -- An item that is passed on with the sizes it has left behind.
  work-Turns :
      (r : Ring) (k j : ℕ) (item : Item) (rest : List Item)
      → length r.queues ≡ n
      → get_elem? r.queues k ≡ some (item ∷ rest)
      → (k + 1) % n ≡ j
      → j < n
      → weight j (advanced item.left item) + 1 ≤ weight k item
      → Turns r (work k item rest r)
  unfolding work turns_left count
  work-Turns r k j item rest all at to inside less =
      let moved : (k + 1) % length r.queues ≡ j = rw all to in
      let kept = length-set r.queues k rest in
      let new_item = advanced item.left item in
      let inside' : j < length (set r.queues k rest) = omega (arith, kept) in
      rw moved (record {
        fewer = omega (
          arith,
          less,
          taken_weight r.queues k item rest at,
          put-weight (set r.queues k rest) j new_item inside',
        );
        same_count = omega (
          arith,
          queued-set r.queues k item rest at,
          queued-put (set r.queues k rest) j new_item inside',
        );
        same_queues = omega (arith, kept, length-put (set r.queues k rest) j new_item);
      })

  supervise-Turns :
      (left : List ℕ) (r : Ring) (k : ℕ) (item : Item) (rest : List Item)
      → length r.queues ≡ n
      → k + 1 ≡ n
      → get_elem? r.queues k ≡ some (item ∷ rest)
      → item.left ≡ left
      → Turns r (supervise left k item rest r)
  unfolding supervise turns_left count weight
  supervise-Turns [] r k item rest all last at is_left = record {
    fewer = omega (arith, taken_weight r.queues k item rest at);
    same_count = omega (
      arith,
      queued-set r.queues k item rest at,
      length-append r.finished ((item.document, item.size) ∷ []),
    );
    same_queues = length-set r.queues k rest;
  }
  supervise-Turns (s ∷ ss) r k item rest all last at is_left =
      work-Turns r k 0 item rest all at (rw last (mod_self n)) (omega arith)
        (rw is_left (omega arith))

  send-Turns :
      (r : Ring) (item : Item) (items : List Item)
      → length r.queues ≡ n
      → 0 < n
      → r.unsent ≡ item ∷ items
      → Turns r (record r {
        unsent = items;
        queues = put r.queues (item.document % length r.queues) item;
      })
  unfolding turns_left count turns_of weight
  send-Turns r item items all some_worker is_unsent =
      let inside : item.document % length r.queues < length r.queues =
        mod-lt item.document (omega arith) in
      record {
        fewer =
            rw is_unsent
              (omega (arith, put-weight r.queues (item.document % length r.queues) item inside));
        same_count =
            rw is_unsent
              (omega (arith, queued-put r.queues (item.document % length r.queues) item inside));
        same_queues = length-put r.queues (item.document % length r.queues) item;
      }

  passed_on :
      (left : List ℕ) (k : ℕ) (item : Item)
      → item.left ≡ left
      → k + 1 < n
      → weight (k + 1) (advanced left item) + 1 ≤ weight k item
  unfolding weight
  passed_on [] k item is_left within = rw is_left (omega arith)
  passed_on (s ∷ ss) k item is_left within = rw is_left (omega arith)

  Step-Turns :
      {capacity : ℕ} {r s : Ring} → Step capacity r s → length r.queues ≡ n → 0 < n → Turns r s
  unfolding weight
  Step-Turns (send r item items is_unsent room) all some_worker =
      send-Turns r item items all some_worker is_unsent
  Step-Turns (supervisor r k item rest sent last at room) all some_worker =
      supervise-Turns item.left r k item rest all (omega arith) at refl
  Step-Turns (worker r k item rest inside at room) all some_worker =
      let within : k + 1 < n = omega arith in
      work-Turns r k (k + 1) item rest all at (mod-eq_of_lt within) within
        (passed_on item.left k item refl within)

  Steps-Turns :
      {capacity c : ℕ} {r s : Ring}
      → Steps capacity c r s
      → length r.queues ≡ n
      → 0 < n
      → (c + turns_left s ≤ turns_left r) × (count s ≡ count r) × (length s.queues ≡ n)
  Steps-Turns here all some_worker = (omega arith, refl, all)
  Steps-Turns (next step steps) all some_worker =
      let now = Step-Turns step all some_worker in
      let (less, same, queues) = Steps-Turns steps (now.same_queues ∙ all) some_worker in
      (omega (arith, less, now.fewer), same ∙ now.same_count, queues)

  -- Where all items fit into one queue, and a document is not finished, there is a next step.
  next_step :
      (capacity : ℕ) (items : List Item) (r : Ring)
      → r.unsent ≡ items
      → length r.queues ≡ n
      → length items + queued r.queues ≤ capacity
      → ((length items + queued r.queues) ≡ 0) ⊎ ((s : Ring) × Step capacity r s)
  unfolding HasRoom
  next_step capacity (item ∷ items) r is_unsent all fits =
      let behind = length_at-queued r.queues (item.document % length r.queues) in
      inr (_, send r item items is_unsent (omega (arith, behind)))
  next_step capacity [] r is_unsent all fits = elim (zero_or_more (queued r.queues)) [
    | inl none_left ↦ inl (omega (arith, none_left))
    | inr some_left ↦
        let (k, item, rest, at, inside) = first_item r.queues some_left in
        let behind = length_at-queued (set r.queues k rest) ((k + 1) % length r.queues) in
        let taken = queued-set r.queues k item rest at in
        elim (last_or_before k (length r.queues) inside) [
          | inl before ↦ inr (_, worker r k item rest before at (omega (arith, behind, taken)))
          | inr last ↦
              inr
                (_, supervisor r k item rest is_unsent last at (λ _. omega (arith, behind, taken)))
        ]
  ]

  begin_weight : (k m : ℕ) → queues_weight k (replicate m []) ≡ 0
  unfolding queues_weight queue_weight
  begin_weight k zero = refl
  begin_weight k (suc m) = omega (arith, begin_weight (k + 1) m)

-- With at least one worker, queues that each hold as many items as there are documents, and in whatever
-- order the processes run: the steps of an iteration are no more than the turns that its items take,
-- each one a sending, a round for each of its sizes and the way to the supervisor; and after any
-- number of steps either every document has finished, or another step is possible.
pub iteration_ends :
    (capacity num_workers : ℕ) (items : List Item) {c : ℕ} {r : Ring}
    → 0 < num_workers
    → length items ≤ capacity
    → Steps capacity c (begin num_workers items) r
    → (c ≤ turns_of num_workers items)
      × ((length r.finished ≡ length items) ⊎ ((s : Ring) × Step capacity r s))
unfolding begin turns_left count
iteration_ends capacity n items {c} {r} some_worker fits steps =
    let (less, same, all) = Steps-Turns n steps (length-replicate n []) some_worker in
    (
      omega (arith, less, begin_weight n 0 n),
      elim (next_step n capacity r.unsent r refl all (omega (arith, same, begin_queued n, fits))) [
        | inr more ↦ inr more
        | inl over ↦ inl (omega (arith, same, over, begin_queued n))
      ],
    )
