-- ===== src/PathoGen.antt =====
-- The ring of workers of perfrunner/workloads/pathoGen.py, which resize documents: each worker has a
-- queue, takes the first item, sets the document to its next size, and puts it into the queue of the
-- next worker. The last one is the supervisor, who also fills the queues and keeps what is finished.
-- The processes run in any order, which is a relation on the state; a queue holds a number of items at
-- most. The retries of a write and the shutdown behind the last iteration are left out.
pub mod Queues
pub mod Rounds
pub mod Sizes
use perfrunner.Prelude.{
  ℕ, zero, suc, ◌+◌, ◌*◌, ◌%◌, ◌<◌, ◌≡◌, ◌≢◌, List, [], ◌∷◌, ◌++◌, Option, none, some, Result, ok,
  err, value_error, index_error, ◌>>=◌, ◌==◌, if◌then◌else◌, get_elem?, set, replicate, length,
}

-- `SIZES`
abbrev pub sizes : List ℕ
sizes =
    8 ∷ 16 ∷ 32 ∷ 48 ∷ 64 ∷ 80 ∷ 96 ∷ 112 ∷ 128 ∷ 144 ∷ 160 ∷ 176 ∷ 192 ∷ 208 ∷ 224 ∷ 240 ∷ 256
    ∷ 288 ∷ 320 ∷ 352 ∷ 384 ∷ 416 ∷ 448 ∷ 480 ∷ 512 ∷ 576 ∷ 640 ∷ 704 ∷ 768 ∷ 832 ∷ 896 ∷ 960 ∷ 1024
    ∷ 1152 ∷ 1280 ∷ 1408 ∷ 1536 ∷ 1792 ∷ 2048 ∷ 2304 ∷ 2560 ∷ 2816 ∷ 3072 ∷ 3328 ∷ 4096 ∷ 4608
    ∷ 5120 ∷ 6144 ∷ 6656 ∷ 8192 ∷ 9216 ∷ 10240 ∷ 12288 ∷ 13312 ∷ 16384 ∷ 20480 ∷ 24576 ∷ 26624
    ∷ 32768 ∷ 40960 ∷ 49152 ∷ 57344 ∷ 65536 ∷ 73728 ∷ 81920 ∷ 90112 ∷ 98304 ∷ 106496 ∷ 114688
    ∷ 122880 ∷ 131072 ∷ 139264 ∷ 147456 ∷ 155648 ∷ 163840 ∷ 172032 ∷ 180224 ∷ 188416 ∷ 196608
    ∷ 204800 ∷ 212992 ∷ 221184 ∷ 229376 ∷ 237568 ∷ 245760 ∷ 253952 ∷ 262144 ∷ []

-- SIZES[:SIZES.index(max_size)]
unfoldable pub sizes_below : ℕ → List ℕ → Result (List ℕ)
sizes_below max_size [] = err value_error
sizes_below max_size (s ∷ ss) =
    let rest = sizes_below max_size ss in
    if s == max_size then ok [] else (rest >>= λ r. ok (s ∷ r))

-- `SequenceIterator`: the sizes that are left.
unfoldable pub sequence_iterator : ℕ → Result (List ℕ)
unfolding sizes_below
sequence_iterator max_size = sizes_below max_size sizes >>= λ below. ok (below ++ (max_size ∷ []))

abbrev pub chosen : Option ℕ → Result (List ℕ)
chosen none = err index_error
chosen (some size) = sequence_iterator size

-- `self.rng.choice` of the smaller sizes
abbrev pub frozen_at : ℕ → List ℕ → Result (List ℕ)
frozen_at draw [] = err index_error
frozen_at draw (s ∷ ss) = chosen (get_elem? (s ∷ ss) (draw % suc (length ss)))

-- `Freeze.build_generator`; the generator of random numbers tells whether to freeze a document, and
-- then gives the number from which the choice is made.
unfoldable pub build_generator : ℕ → Option ℕ → Result (List ℕ)
unfolding sequence_iterator
build_generator max_size none = sequence_iterator max_size
build_generator max_size (some draw) = sizes_below max_size sizes >>= frozen_at draw

-- What stands in a queue: a document, the sizes that its iterator has left, and its size.
pub record Item : Type 0 where
  pub document : ℕ
  pub left : List ℕ
  pub size : ℕ

-- The state in an iteration: what the supervisor has not yet put into a queue, the queues of the
-- workers, and the finished documents with their sizes.
pub record Ring : Type 0 where
  pub unsent : List Item
  pub queues : List (List Item)
  pub finished : List (ℕ × ℕ)

-- The items of an iteration, from the documents that have finished the last one.
unfoldable pub new_items : (ℕ → Result (List ℕ)) → List (ℕ × ℕ) → Result (List Item)
new_items generator [] = ok []
new_items generator (d ∷ ds) = generator d.0 >>= λ ss.
    new_items generator ds >>= λ rest. ok (record { document = d.0; left = ss; size = 0 } ∷ rest)

-- The beginning of an iteration of `num_workers` workers
unfoldable pub begin : ℕ → List Item → Ring
begin num_workers items = record {
  unsent = items;
  queues = replicate num_workers [];
  finished = [];
}

-- `queue.put`
unfoldable pub put : List (List Item) → ℕ → Item → List (List Item)
put [] k item = []
put (q ∷ qs) zero item = (q ++ (item ∷ [])) ∷ qs
put (q ∷ qs) (suc k) item = q ∷ put qs k item

-- An item behind a worker, by the sizes it had left: the next one has been set, if there is one.
abbrev pub advanced : List ℕ → Item → Item
advanced [] item = item
advanced (s ∷ ss) item = record item { left = ss; size = s }

-- `Worker.run`, for an item of queue `k` with `rest` behind it
unfoldable pub work : ℕ → Item → List Item → Ring → Ring
unfolding put
work k item rest r = record r {
  queues = put (set r.queues k rest) ((k + 1) % length r.queues) (advanced item.left item);
}

-- `Supervisor.run`, in the loop of an iteration, by the sizes that the item has left
unfoldable pub supervise : List ℕ → ℕ → Item → List Item → Ring → Ring
unfolding work
supervise [] k item rest r = record r {
  queues = set r.queues k rest;
  finished = r.finished ++ ((item.document, item.size) ∷ []);
}
supervise (s ∷ ss) k item rest r = work k item rest r

abbrev pub length_at : List (List Item) → ℕ → ℕ
length_at [] k = 0
length_at (q ∷ qs) zero = length q
length_at (q ∷ qs) (suc k) = length_at qs k

module _ (capacity : ℕ) where
  -- A queue that holds as many items as it can makes `put` wait.
  unfoldable pub HasRoom : List (List Item) → ℕ → Type 0
  HasRoom qs k = length_at qs k < capacity

  -- The supervisor sends an item, or one of the processes takes its next one and passes it on. Who has
  -- to wait for room keeps its item in its queue; the supervisor needs none for a finished one.
  pub data Step : Ring → Ring → Type 0 where
    send :
        (r : Ring) (item : Item) (items : List Item)
        → r.unsent ≡ item ∷ items
        → HasRoom r.queues (item.document % length r.queues)
        → Step r (record r {
          unsent = items;
          queues = put r.queues (item.document % length r.queues) item;
        })
    worker :
        (r : Ring) (k : ℕ) (item : Item) (rest : List Item)
        → k + 1 < length r.queues
        → get_elem? r.queues k ≡ some (item ∷ rest)
        → HasRoom (set r.queues k rest) ((k + 1) % length r.queues)
        → Step r (work k item rest r)
    supervisor :
        (r : Ring) (k : ℕ) (item : Item) (rest : List Item)
        → r.unsent ≡ []
        → k + 1 ≡ length r.queues
        → get_elem? r.queues k ≡ some (item ∷ rest)
        → (item.left ≢ [] → HasRoom (set r.queues k rest) ((k + 1) % length r.queues))
        → Step r (supervise item.left k item rest r)

  -- A number of steps
  pub data Steps : ℕ → Ring → Ring → Type 0 where
    here : {r : Ring} → Steps zero r r
    next : {n : ℕ} {r s t : Ring} → Step r s → Steps n s t → Steps (suc n) r t

-- The documents of the next iteration: those that have reached the largest size.
unfoldable pub not_frozen : ℕ → List (ℕ × ℕ) → List (ℕ × ℕ)
not_frozen max_size [] = []
not_frozen max_size (d ∷ ds) =
    let rest = not_frozen max_size ds in if d.1 == max_size then d ∷ rest else rest
