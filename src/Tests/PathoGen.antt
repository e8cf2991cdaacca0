-- ===== src/Tests/PathoGen.antt =====
-- Runs and instances for the ring of workers (perfrunner/workloads/pathoGen.py).
use perfrunner.Prelude.{
  ℕ, ◌≤◌, ◌≡◌, refl, List, [], ◌∷◌, Option, none, some, ok, arith, ◌⊎◌, All, length, ◌==◌,
  if◌then◌else◌,
}
use perfrunner.PathoGen.{
  Item, Ring, new_items, build_generator, sequence_iterator, sizes_below, begin, put, work,
  supervise, Step, Steps, send, worker, supervisor, here, next, HasRoom, not_frozen,
}
use perfrunner.PathoGen.Rounds.{turns_of, iteration_ends}
use perfrunner.PathoGen.Sizes.{IsFrozenRight, unfrozen, finished-IsFrozenRight}

-- The first document is promoted, the second one is frozen.
abbrev freeze : ℕ → Option ℕ
freeze i = if i == 0 then none else some 0

abbrev promoted : List ℕ → ℕ → Item
promoted left size = record { document = 0; left = left; size = size }

abbrev frozen : List ℕ → ℕ → Item
frozen left size = record { document = 1; left = left; size = size }

abbrev items : List Item
items = promoted (8 ∷ 16 ∷ []) 0 ∷ frozen (8 ∷ []) 0 ∷ []

made_items : new_items (λ i. build_generator 16 (freeze i)) ((0, 0) ∷ (1, 0) ∷ []) ≡ ok items
unfolding new_items build_generator sequence_iterator sizes_below
made_items = refl

abbrev ring : List (List Item) → List (ℕ × ℕ) → Ring
ring queues finished = record { unsent = []; queues = queues; finished = finished }

abbrev frozen_only : List (ℕ × ℕ)
frozen_only = (1, 8) ∷ []

-- The frozen document has finished, and the other one is on its last round.
taken_in_order : Steps 2 7 (begin 2 items) (ring ((promoted [] 16 ∷ []) ∷ [] ∷ []) frozen_only)
unfolding begin put work supervise HasRoom
taken_in_order =
    next
      (send (begin 2 items) (promoted (8 ∷ 16 ∷ []) 0) (frozen (8 ∷ []) 0 ∷ []) refl (omega arith))
      (next (send _ (frozen (8 ∷ []) 0) [] refl (omega arith)) (
        next (supervisor _ 1 (frozen (8 ∷ []) 0) [] refl refl refl (λ _. omega arith)) (
          next
            (worker _ 0 (promoted (8 ∷ 16 ∷ []) 0) (frozen [] 8 ∷ []) (omega arith) refl
              (omega arith))
            (next (worker _ 0 (frozen [] 8) [] (omega arith) refl (omega arith)) (
              next
                (supervisor _ 1 (promoted (16 ∷ []) 8) (frozen [] 8 ∷ []) refl refl refl
                  (λ _. omega arith))
                (next (supervisor _ 1 (frozen [] 8) [] refl refl refl (λ _. omega arith)) here))))))

iteration_ends_example :
    (7 ≤ turns_of 2 items)
    × ((length frozen_only ≡ length items)
        ⊎ ((s : Ring) × Step 2 (ring ((promoted [] 16 ∷ []) ∷ [] ∷ []) frozen_only) s))
iteration_ends_example = iteration_ends 2 2 items (omega arith) (omega arith) taken_in_order

finished-IsFrozenRight_example :
    All (IsFrozenRight 16 freeze) frozen_only
    × (not_frozen 16 frozen_only ≡ unfrozen freeze frozen_only)
finished-IsFrozenRight_example =
    finished-IsFrozenRight 2 2 16 freeze ((0, 0) ∷ (1, 0) ∷ []) made_items taken_in_order
