-- ===== src/PathoGen/Queues.antt =====
-- How many items the queues of perfrunner/workloads/pathoGen.py hold.
use perfrunner.Prelude.{
  ℕ, zero, suc, ◌+◌, ◌<◌, ◌≤◌, ◌≡◌, ◌≢◌, refl, List, [], ◌∷◌, some, arith, ◌⊎◌, inl, inr, ap,
  get_elem?, set, replicate, length, length-append,
}
use perfrunner.PathoGen.{Item, Ring, put, length_at}

pub zero_or_more : (m : ℕ) → (m ≡ 0) ⊎ (m ≢ 0)
zero_or_more zero = inl refl
zero_or_more (suc m) = inr (λ e. absurd (omega (arith, e)))

pub last_or_before : (k m : ℕ) → k < m → (k + 1 < m) ⊎ (k + 1 ≡ m)
last_or_before k m inside = ground arith

pub length-put : (qs : List (List Item)) (k : ℕ) (item : Item) → length (put qs k item) ≡ length qs
unfolding put
length-put [] k item = refl
length-put (q ∷ qs) zero item = refl
length-put (q ∷ qs) (suc k) item = ap suc (length-put qs k item)

-- The items in all places.
pub queued : List (List Item) → ℕ
queued [] = 0
queued (q ∷ qs) = length q + queued qs

unfoldable pub count : Ring → ℕ
count r = length r.unsent + queued r.queues + length r.finished

pub queued-put :
    (qs : List (List Item)) (k : ℕ) (item : Item)
    → k < length qs
    → queued (put qs k item) ≡ queued qs + 1
unfolding queued put
queued-put [] k item inside = absurd (omega arith)
queued-put (q ∷ qs) zero item inside = omega (arith, length-append q (item ∷ []))
queued-put (q ∷ qs) (suc k) item inside = omega (arith, queued-put qs k item (omega arith))

pub queued-set :
    (qs : List (List Item)) (k : ℕ) (item : Item) (rest : List Item)
    → get_elem? qs k ≡ some (item ∷ rest)
    → queued (set qs k rest) + 1 ≡ queued qs
unfolding queued
queued-set [] k item rest e = cc
queued-set (q ∷ qs) zero item rest e = let same : q ≡ item ∷ rest = cc in rw same (omega arith)
queued-set (q ∷ qs) (suc k) item rest e = omega (arith, queued-set qs k item rest e)

-- An item in some queue.
pub first_item :
    (qs : List (List Item))
    → queued qs ≢ 0
    → (k : ℕ) × (item : Item) × (rest : List Item) × (get_elem? qs k ≡ some (item ∷ rest))
      × (k < length qs)
unfolding queued
first_item [] some_item = absurd (some_item refl)
first_item ((item ∷ q) ∷ qs) some_item = (0, item, q, refl, omega arith)
first_item ([] ∷ qs) some_item =
    let (k, item, rest, at, inside) = first_item qs (λ e. some_item (omega (arith, e))) in
    (suc k, item, rest, at, omega (arith, inside))

pub begin_queued : (m : ℕ) → queued (replicate m []) ≡ 0
unfolding queued
begin_queued zero = refl
begin_queued (suc m) = omega (arith, begin_queued m)

pub length_at-queued : (qs : List (List Item)) (k : ℕ) → length_at qs k ≤ queued qs
unfolding queued
length_at-queued [] k = omega arith
length_at-queued (q ∷ qs) zero = omega arith
length_at-queued (q ∷ qs) (suc k) = omega (arith, length_at-queued qs k)
