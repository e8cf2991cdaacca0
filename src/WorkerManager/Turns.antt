-- ===== src/WorkerManager/Turns.antt =====
-- About the turns of the workers that get the tasks of a phase (perfrunner/helpers/worker.py).
use perfrunner.Prelude.{
  ℕ, zero, suc, ◌+◌, ◌*◌, ◌%◌, ◌≤◌, ◌<◌, ◌≡◌, refl, sym, ◌∙◌, true, List, [], ◌∷◌, ◌++◌, Option,
  none, some, ok, arith, ◌⊎◌, inl, inr, get_elem?, length, length-append, Returns,
}
use native.Mathlib.Nat.{mod_self, mod-eq_of_lt, mod-add-mod}
use perfrunner.Text.{Text}
use perfrunner.Config.Targets.{TargetSettings}
use perfrunner.WorkerManager.{
  Cycle, next_in_cycle, Manager, remote_manager, next_worker, reset_workers, Task, run_instances,
  run_targets, run_tasks,
}

get_elem?-some :
    {A : Type 0} (xs : List A) (i : ℕ) → i < length xs → (x : A) × (get_elem? xs i ≡ some x)
get_elem?-some [] i inside = absurd (omega arith)
get_elem?-some (x ∷ xs) zero inside = (x, refl)
get_elem?-some (x ∷ xs) (suc i) inside = get_elem?-some xs i (omega arith)

get_elem?-none : {A : Type 0} (xs : List A) → get_elem? xs (length xs) ≡ none
get_elem?-none [] = refl
get_elem?-none (x ∷ xs) = get_elem?-none xs

get_elem?-append-left :
    {A : Type 0} (xs ys : List A) (i : ℕ) → i < length xs → get_elem? (xs ++ ys) i ≡ get_elem? xs i
get_elem?-append-left [] ys i inside = absurd (omega arith)
get_elem?-append-left (x ∷ xs) ys zero inside = refl
get_elem?-append-left (x ∷ xs) ys (suc i) inside = get_elem?-append-left xs ys i (omega arith)

get_elem?-append-right :
    {A : Type 0} (xs ys : List A) (i : ℕ) → get_elem? (xs ++ ys) (length xs + i) ≡ get_elem? ys i
get_elem?-append-right [] ys i = let same : 0 + i ≡ i = omega arith in rw same refl
get_elem?-append-right (x ∷ xs) ys i =
    let same : suc (length xs) + i ≡ suc (length xs + i) = omega arith in
    rw same (get_elem?-append-right xs ys i)

last_or_before : (k m : ℕ) → k ≤ m → (k < m) ⊎ (k ≡ m)
last_or_before k m inside = ground arith

module _ (workers : List Text) (some_worker : 0 < length workers) (timer : Option ℕ) where
  abbrev at : ℕ → Manager
  at position = remote_manager (record { workers = workers; position = position })

  -- The position behind `i` turns.
  record HasTurns (i p : ℕ) : Type 0 where
    inside : p ≤ length workers
    turns : p % length workers ≡ i % length workers

  -- Worker `w` has the turn behind `i` others.
  abbrev HasTurn : ℕ → Text → Type 0
  HasTurn i w = get_elem? workers (i % length workers) ≡ some w

  one_more :
      (p i : ℕ)
      → p % length workers ≡ i % length workers
      → (p + 1) % length workers ≡ (i + 1) % length workers
  one_more p i same =
      sym (mod-add-mod p (length workers) 1) ∙ (rw same (mod-add-mod i (length workers) 1))

  next_worker-turn :
      (i p : ℕ)
      → HasTurns i p
      → (w : Text) × (q : ℕ) × (next_worker (at p) ≡ ok (w, at q))
        × HasTurn i w
        × HasTurns (i + 1) q
  unfolding next_worker next_in_cycle
  next_worker-turn i p has = elim (last_or_before p (length workers) has.inside) [
    | inl before ↦
        let (w, found) = get_elem?-some workers p before in
        let small : i % length workers ≡ p = sym has.turns ∙ mod-eq_of_lt before in
        (
          w,
          p + 1,
          (rw found refl),
          (rw small found),
          record { inside = omega arith; turns = one_more p i has.turns },
        )
    | inr last ↦
        let (w, found) = get_elem?-some workers 0 some_worker in
        let none_there : get_elem? workers p ≡ none = (rw last (get_elem?-none workers)) in
        let zero_left : i % length workers ≡ 0 =
          sym has.turns ∙ (rw last (mod_self (length workers))) in
        let again : (0 + 1) % length workers ≡ (i + 1) % length workers =
          one_more 0 i (mod-eq_of_lt some_worker ∙ sym zero_left) in
        (
          w,
          1,
          (rw (none_there, found) refl),
          (rw zero_left found),
          record { inside = omega arith; turns = again },
        )
  ]

  abbrev task_of : Text → TargetSettings → ℕ → Task
  task_of w target j = record { queue = w; target = target; timer = timer; instance_number = j }

  -- Task `place` is instance `j` of the target, for the worker that has the turn behind `i` others.
  IsTask : List Task → ℕ → TargetSettings → ℕ → ℕ → Type 0
  IsTask tasks place target j i =
      (w : Text) × HasTurn i w × (get_elem? tasks place ≡ some (task_of w target j))

  record HandedOut (i p n k : ℕ) (target : TargetSettings) : Type 0 where
    tasks : List Task
    position : ℕ
    runs : run_instances timer target n k (at p) ≡ ok (tasks, at position)
    has_turns : HasTurns (i + n) position
    number : length tasks ≡ n
    in_turn : (j : ℕ) → j < n → IsTask tasks j target (k + j) (i + j)

  in_turn-cons :
      (w : Text) (target : TargetSettings) (k i n : ℕ) (tasks : List Task)
      → HasTurn i w
      → ((j : ℕ) → j < n → IsTask tasks j target (k + 1 + j) (i + 1 + j))
      → (j : ℕ) → j < suc n
      → IsTask (task_of w target k ∷ tasks) j target (k + j) (i + j)
  unfolding IsTask
  in_turn-cons w target k i n tasks mine others zero inside =
      let same_k : k + 0 ≡ k = omega arith in
      let same_i : i + 0 ≡ i = omega arith in (w, (rw same_i mine), (rw same_k refl))
  in_turn-cons w target k i n tasks mine others (suc j) inside =
      let same_k : k + suc j ≡ k + 1 + j = omega arith in
      let same_i : i + suc j ≡ i + 1 + j = omega arith in
      rw (same_k, same_i) (others j (omega arith))

  run_instances-turns :
      (n i p k : ℕ) (target : TargetSettings) → HasTurns i p → HandedOut i p n k target
  unfolding run_instances IsTask
  run_instances-turns zero i p k target has = record {
    tasks = [];
    position = p;
    runs = refl;
    has_turns = let same : i + 0 ≡ i = omega arith in rw same has;
    number = refl;
    in_turn = λ j inside. absurd (omega arith);
  }
  run_instances-turns (suc n) i p k target has =
      let (w, q, now, mine, next_turns) = next_worker-turn i p has in
      let rest = run_instances-turns n (i + 1) q (k + 1) target next_turns in
      record {
        tasks = task_of w target k ∷ rest.tasks;
        position = rest.position;
        runs = rw (now, rest.runs) refl;
        has_turns = let same : i + suc n ≡ i + 1 + n = omega arith in rw same rest.has_turns;
        number = omega (arith, rest.number);
        in_turn = in_turn-cons w target k i n rest.tasks mine rest.in_turn;
      }

  -- The tasks of the targets `ts`, `n` for each, behind `i` turns.
  record AllHandedOut (i p n : ℕ) (ts : List TargetSettings) : Type 0 where
    tasks : List Task
    position : ℕ
    runs : run_targets timer n ts (at p) ≡ ok (tasks, at position)
    number : length tasks ≡ length ts * n
    in_turn :
        (t j : ℕ) (target : TargetSettings)
        → get_elem? ts t ≡ some target
        → j < n
        → IsTask tasks (t * n + j) target j (i + (t * n + j))

  -- The tasks of one target in front of those of the others.
  in_turn-append :
      (i n : ℕ) (target : TargetSettings) (ts : List TargetSettings) (now later : List Task)
      → length now ≡ n
      → ((j : ℕ) → j < n → IsTask now j target (0 + j) (i + j))
      → ((t j : ℕ) (other : TargetSettings)
          → get_elem? ts t ≡ some other
          → j < n
          → IsTask later (t * n + j) other j (i + n + (t * n + j)))
      → (t j : ℕ) (other : TargetSettings) → get_elem? (target ∷ ts) t ≡ some other
      → j < n
      → IsTask (now ++ later) (t * n + j) other j (i + (t * n + j))
  unfolding IsTask
  in_turn-append i n target ts now later size first others zero j other e inside =
      let (w, turn, found) = first j inside in
      let same : target ≡ other = cc in
      let same_j : 0 + j ≡ j = omega arith in
      let place : 0 * n + j ≡ j = omega arith in
      rw place (
        w,
        turn,
        get_elem?-append-left now later j (omega arith) ∙ (found ∙ (rw (same_j, same) refl)),
      )
  in_turn-append i n target ts now later size first others (suc t) j other e inside =
      let (w, turn, found) = others t j other e inside in
      let place : suc t * n + j ≡ length now + (t * n + j) = (rw size (omega arith)) in
      let same : i + (length now + (t * n + j)) ≡ i + n + (t * n + j) = (rw size (omega arith)) in
      rw (place, same) (w, turn, get_elem?-append-right now later (t * n + j) ∙ found)

  run_targets-turns : (ts : List TargetSettings) (i p n : ℕ) → HasTurns i p → AllHandedOut i p n ts
  unfolding run_targets
  run_targets-turns [] i p n has = record {
    tasks = [];
    position = p;
    runs = refl;
    number = omega arith;
    in_turn = λ t j target e. cc;
  }
  run_targets-turns (target ∷ ts) i p n has =
      let now = run_instances-turns n i p 0 target has in
      let later = run_targets-turns ts (i + n) now.position n now.has_turns in
      record {
        tasks = now.tasks ++ later.tasks;
        position = later.position;
        runs = rw (now.runs, later.runs) refl;
        number = length-append now.tasks later.tasks ∙ omega (arith, now.number, later.number);
        in_turn =
            in_turn-append i n target ts now.tasks later.tasks now.number now.in_turn later.in_turn;
      }

-- There are as many tasks as targets times instances. They come target by target, and in each target
-- by the number of the instance, and the one at place `i` is for worker `i` modulo the number of
-- workers.
pub IsInTurn : List Text → Option ℕ → ℕ → List TargetSettings → List Task → Type 0
IsInTurn workers timer n targets tasks =
    (length tasks ≡ length targets * n)
    × ((t j : ℕ) (target : TargetSettings)
        → get_elem? targets t ≡ some target
        → j < n
        → (w : Text) × (get_elem? workers ((t * n + j) % length workers) ≡ some w)
          × (get_elem? tasks (t * n + j)
              ≡ some (record { queue = w; target = target; timer = timer; instance_number = j })))

-- With remote workers, of which there is one at least, and a reset before the phase: all tasks of the
-- phase are handed out, target by target and instance by instance, and the workers get them in turns.
pub run_tasks-IsInTurn :
    (workers : List Text) (timer : Option ℕ) (n : ℕ) (targets : List TargetSettings) (c : Cycle)
    → 0 < length workers
    → Returns
        (run_tasks true workers timer n targets (remote_manager c))
        (λ r. IsInTurn workers timer n targets r.0)
unfolding run_tasks reset_workers IsTask IsInTurn
run_tasks-IsInTurn workers timer n targets c some_worker =
    let all =
      run_targets-turns workers some_worker timer targets 0 0 n
        (record { inside = omega arith; turns = refl }) in
    rw (all.runs) (
      all.number,
      λ t j target e inside.
          let same : 0 + (t * n + j) ≡ t * n + j = omega arith in
          rw same at (all.in_turn t j target e inside),
    )
