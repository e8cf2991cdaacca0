-- ===== src/Worker/Progress.antt =====
-- The run loop of the key-value workers (spring/wgen.py): the shared count of operations, checked
-- outside the lock and moved inside it. The batches themselves are left out.
use perfrunner.Prelude.{
  ℕ, zero, suc, ◌+◌, ◌*◌, ◌≤◌, ◌<◌, ◌≡◌, refl, Bool, true, false, not, ◌&&◌, List, [], ◌∷◌, arith,
  ltb, if◌then◌else◌, length, length-set, length-replicate, replicate, set, ◌∙◌, Option, none, some,
  get_elem?, Bool-cases, inl, inr,
}
use native.Mathlib.Nat.{mul-le-mul_left}
use perfrunner.Worker.{WorkloadSettings}

-- `curr_ops`, and for each worker whether it has passed `run_condition` and not yet added its batch.
pub record Pool : Type 0 where
  pub curr_ops : ℕ
  pub ready : List Bool

-- The worker that moves next, and whether the shutdown event is set.
pub record Move : Type 0 where
  pub worker : ℕ
  pub stopping : Bool

module _ (ws : WorkloadSettings) where
  -- `curr_ops.value < self.ws.ops`
  abbrev pub below_limit : ℕ → Option ℕ → Bool
  below_limit curr_ops none = true
  below_limit curr_ops (some limit) = ltb curr_ops limit

  -- `run_condition`
  unfoldable pub run_condition : ℕ → Bool → Bool
  run_condition curr_ops stopping = below_limit curr_ops ws.ops && not stopping

  -- One step of the loop in `KVWorker.run`: the test, or `curr_ops.value += spring_batch_size`.
  unfoldable pub advance : Option Bool → Move → Pool → Pool
  unfolding run_condition
  advance none m p = p
  advance (some false) m p =
      if run_condition p.curr_ops m.stopping
      then record p { ready = set p.ready m.worker true }
      else p
  advance (some true) m p = record {
    curr_ops = p.curr_ops + ws.spring_batch_size;
    ready = set p.ready m.worker false;
  }

  unfoldable pub run : List Move → Pool → Pool
  run [] p = p
  run (m ∷ ms) p = run ms (advance (get_elem? p.ready m.worker) m p)

  -- How many workers are about to add a batch.
  abbrev pub pending : List Bool → ℕ
  pending [] = 0
  pending (b ∷ bs) = (if b then 1 else 0) + pending bs

  pending-le : (bs : List Bool) → pending bs ≤ length bs
  pending-le [] = omega arith
  pending-le (true ∷ bs) = omega (arith, pending-le bs)
  pending-le (false ∷ bs) = omega (arith, pending-le bs)

  pending-set :
      (bs : List Bool) (i : ℕ) (old new : Bool)
      → get_elem? bs i ≡ some old
      → pending (set bs i new) + (if old then 1 else 0) ≡ pending bs + (if new then 1 else 0)
  pending-set [] i old new h = cc
  pending-set (b ∷ bs) zero old new h = ground arith
  pending-set (b ∷ bs) (suc i) old new h = ground (arith, pending-set bs i old new h)

  -- Of `workers` workers those that are about to add a batch are counted already.
  pub record IsBounded (limit workers : ℕ) (p : Pool) : Type 0 where
    pub crew : length p.ready ≡ workers
    pub room :
        p.curr_ops + ws.spring_batch_size * pending p.ready < limit + ws.spring_batch_size * workers

  -- A worker that passes the test adds to a count that is below the limit.
  pass_test :
      (limit workers : ℕ) (i : ℕ) (p : Pool)
      → IsBounded limit workers p
      → p.curr_ops < limit
      → IsBounded limit workers (record p { ready = set p.ready i true })
  pass_test limit workers i p h below =
      let ready = set p.ready i true in
      let crew : length ready ≡ workers = length-set p.ready i true ∙ h.crew in
      let most : ws.spring_batch_size * pending ready ≤ ws.spring_batch_size * workers =
        mul-le-mul_left ws.spring_batch_size (omega (arith, pending-le ready)) in
      record { crew = crew; room = omega arith }

  -- Its batch was counted before, so adding it changes no bound.
  add_batch :
      (limit workers : ℕ) (i : ℕ) (p : Pool)
      → IsBounded limit workers p
      → get_elem? p.ready i ≡ some true
      → IsBounded limit workers
          (record { curr_ops = p.curr_ops + ws.spring_batch_size; ready = set p.ready i false })
  add_batch limit workers i p h seen =
      let fewer : pending p.ready ≡ pending (set p.ready i false) + 1 =
        omega (arith, pending-set p.ready i true false seen) in
      let room : p.curr_ops + ws.spring_batch_size * (pending (set p.ready i false) + 1)
          < limit + ws.spring_batch_size * workers =
        rw (← fewer) h.room in
      record { crew = length-set p.ready i false ∙ h.crew; room = omega arith }

  advance-IsBounded :
      (limit workers : ℕ) (o : Option Bool) (m : Move) (p : Pool)
      → ws.ops ≡ some limit
      → get_elem? p.ready m.worker ≡ o
      → IsBounded limit workers p
      → IsBounded limit workers (advance o m p)
  unfolding advance
  advance-IsBounded limit workers none m p e seen h = h
  advance-IsBounded limit workers (some true) m p e seen h =
      add_batch limit workers m.worker p h seen
  advance-IsBounded limit workers (some false) m p e seen h =
      elim (Bool-cases (run_condition p.curr_ops m.stopping)) [
        | inr stop ↦ rw stop h
        | inl go ↦ rw go (pass_test limit workers m.worker p h (ground arith))
      ]

  run-IsBounded :
      (limit workers : ℕ) (ms : List Move) (p : Pool)
      → ws.ops ≡ some limit
      → IsBounded limit workers p
      → IsBounded limit workers (run ms p)
  unfolding run
  run-IsBounded limit workers [] p e h = h
  run-IsBounded limit workers (m ∷ ms) p e h =
      let o = get_elem? p.ready m.worker in
      run-IsBounded limit workers ms (advance o m p) e
        (advance-IsBounded limit workers o m p e refl h)

  -- The workers when they start.
  abbrev pub idle : ℕ → Pool
  idle workers = record { curr_ops = 0; ready = replicate workers false }

  pending-idle : (n : ℕ) → pending (replicate n false) ≡ 0
  pending-idle zero = refl
  pending-idle (suc n) = omega (arith, pending-idle n)

  -- The test of the limit and the addition are two steps, so the workers may overshoot a limit
  -- above 0, but in every interleaving by less than one batch for each worker.
  pub run_overshoot :
      (limit workers : ℕ) (ms : List Move)
      → ws.ops ≡ some limit
      → 0 < limit
      → (run ms (idle workers)).curr_ops < limit + ws.spring_batch_size * workers
  run_overshoot limit workers ms e p =
      let start : IsBounded limit workers (idle workers) = record {
        crew = length-replicate workers false;
        room = rw (pending-idle workers) (omega arith);
      } in
      omega (arith, (run-IsBounded limit workers ms (idle workers) e start).room)
