-- ===== src/Worker/Async/Answers.antt =====
-- About the commands and the answers of the asynchronous worker (spring/wgen.py).
use perfrunner.Prelude.{
  ℕ, zero, suc, ◌+◌, ◌-◌, ◌≤◌, ◌<◌, ◌≡◌, refl, Bool, true, false, not, ◌&&◌, ◌||◌, List, [], ◌∷◌,
  some, arith, ◌==◌, Bool-cases, ◌⊎◌, inl, inr, get_elem?, set, All, ap,
}
use mathlib.Core.Path.{subst}
use perfrunner.Worker.Async.{
  is_reached, num_connections, Connection, AsyncState, closed_from, started, AsyncSettings,
  do_batch, end_batch, restart, Step, opened, answer, other_batch, Reach, here, next,
}

-- The commands of all connections that are not answered.
pub waiting : List Connection → ℕ
waiting [] = 0
waiting (c ∷ cs) = c.outstanding + waiting cs

-- A connection has counted the answers of its batch; where none is outstanding, it may be closed or
-- done.
pub record IsCounted (ws : AsyncSettings) (c : Connection) : Type 0 where
  pub closed : c.is_open ≡ false → c.outstanding ≡ 0
  pub batch : (c.outstanding ≡ 0) ⊎ (c.counter + c.outstanding ≡ ws.spring_batch_size)

pub record IsBalanced (ws : AsyncSettings) (s : AsyncState) : Type 0 where
  pub counted : All (IsCounted ws) s.connections
  pub balance : s.answered + waiting s.connections ≡ s.issued
  pub within : s.issued ≤ s.curr_ops

module _ (P : Connection → Type 0) where
  All-get_elem? :
      (cs : List Connection) (i : ℕ) {c : Connection} → All P cs → get_elem? cs i ≡ some c → P c
  All-get_elem? [] i all e = cc
  All-get_elem? (d ∷ cs) zero {c} all e = let same : d ≡ c = cc in subst P same all.0
  All-get_elem? (d ∷ cs) (suc i) all e = All-get_elem? cs i all.1 e

  All-set : (cs : List Connection) (i : ℕ) (d : Connection) → All P cs → P d → All P (set cs i d)
  All-set [] i d all p = tt
  All-set (c ∷ cs) zero d all p = (p, all.1)
  All-set (c ∷ cs) (suc i) d all p = (all.0, All-set cs i d all.1 p)

get_elem?-set :
    (cs : List Connection) (i : ℕ) (d : Connection) {c : Connection}
    → get_elem? cs i ≡ some c
    → get_elem? (set cs i d) i ≡ some d
get_elem?-set [] i d e = cc
get_elem?-set (b ∷ cs) zero d e = refl
get_elem?-set (b ∷ cs) (suc i) d e = get_elem?-set cs i d e

waiting-set :
    (cs : List Connection) (i : ℕ) (d : Connection) {c : Connection}
    → get_elem? cs i ≡ some c
    → waiting (set cs i d) + c.outstanding ≡ waiting cs + d.outstanding
unfolding waiting
waiting-set [] i d e = cc
waiting-set (b ∷ cs) zero d {c} e =
    let same : b ≡ c = cc in
    let equal : b.outstanding ≡ c.outstanding = ap (λ (x : Connection). x.outstanding) same in
    omega arith
waiting-set (b ∷ cs) (suc i) d e = omega (arith, waiting-set cs i d e)

module _ (ws : AsyncSettings) (full : ws.commands ≡ ws.spring_batch_size) where
  -- A batch begins where nothing is outstanding.
  do_batch-IsBalanced :
      (s : AsyncState) (i : ℕ) (c : Connection)
      → get_elem? s.connections i ≡ some c
      → c.outstanding ≡ 0
      → IsBalanced ws s
      → IsBalanced ws (do_batch ws i c s)
  unfolding do_batch
  do_batch-IsBalanced s i c at none_left b =
      let d : Connection = record {
        counter = 0;
        is_open = true;
        outstanding = c.outstanding + ws.commands;
      } in
      record {
        counted =
            All-set (IsCounted ws) s.connections i d b.counted
              (record { closed = λ h. cc; batch = inr (omega arith) });
        balance = omega (arith, waiting-set s.connections i d at, b.balance);
        within = omega (arith, b.within);
      }

  restart-IsBalanced :
      (s : AsyncState) (i : ℕ) (c : Connection) (stop : Bool)
      → get_elem? s.connections i ≡ some c
      → 0 < c.outstanding
      → IsBalanced ws s
      → IsBalanced ws (restart ws stop i c s)
  unfolding restart end_batch
  restart-IsBalanced s i c stop at some_left b =
      let known = All-get_elem? (IsCounted ws) s.connections i b.counted at in
      let d : Connection = record c { counter = c.counter + 1; outstanding = c.outstanding - 1 } in
      let t : AsyncState = record s {
        connections = set s.connections i d;
        answered = s.answered + 1;
      } in
      let sum : c.counter + c.outstanding ≡ ws.spring_batch_size = elim known.batch [
        | inl zero_left ↦ absurd (omega arith)
        | inr e ↦ e
      ] in
      let balanced : IsBalanced ws t = record {
        counted = All-set (IsCounted ws) s.connections i d b.counted (record {
          closed = λ h. absurd (omega (arith, known.closed h));
          batch = inr (omega arith);
        });
        balance = omega (arith, waiting-set s.connections i d at, b.balance);
        within = b.within;
      } in
      elim (Bool-cases (c.counter + 1 == ws.spring_batch_size)) [
        | inr more ↦ rw more balanced
        | inl whole ↦
            let none_left : c.outstanding - 1 ≡ 0 = ground (arith, sum) in
            rw whole (elim (Bool-cases (not s.finished && (is_reached ws.ops s.curr_ops || stop))) [
              | inl over ↦ rw over (record {
                counted = balanced.counted;
                balance = balanced.balance;
                within = balanced.within;
              })
              | inr on ↦ rw on (
                  do_batch-IsBalanced t i d (get_elem?-set s.connections i d at) none_left balanced)
            ])
      ]

  Step-IsBalanced : {s t : AsyncState} → Step ws s t → IsBalanced ws s → IsBalanced ws t
  Step-IsBalanced (opened s i c at closed) b =
      do_batch-IsBalanced s i c at
        ((All-get_elem? (IsCounted ws) s.connections i b.counted at).closed closed) b
  Step-IsBalanced (answer s i c stop at left) b = restart-IsBalanced s i c stop at left b
  Step-IsBalanced (other_batch s n) b = record {
    counted = b.counted;
    balance = b.balance;
    within = omega (arith, b.within);
  }

  Reach-IsBalanced : {s t : AsyncState} → IsBalanced ws s → Reach ws s t → IsBalanced ws t
  Reach-IsBalanced b here = b
  Reach-IsBalanced b (next r step) = Step-IsBalanced step (Reach-IsBalanced b r)

closed_from-IsCounted : (ws : AsyncSettings) (n i : ℕ) → All (IsCounted ws) (closed_from n i)
unfolding closed_from
closed_from-IsCounted ws zero i = tt
closed_from-IsCounted ws (suc n) i =
    (record { closed = λ h. refl; batch = inl refl }, closed_from-IsCounted ws n (i + 1))

closed_from-waiting : (n i : ℕ) → waiting (closed_from n i) ≡ 0
unfolding closed_from waiting
closed_from-waiting zero i = refl
closed_from-waiting (suc n) i = omega (arith, closed_from-waiting n (i + 1))

-- If a batch has as many commands as `spring_batch_size` says, then at any time of a run: on each
-- connection with commands outstanding, these and the answers that it has counted make up one batch,
-- and a connection that is not open has none outstanding; the commands that are answered and those
-- that are outstanding are all that were issued; and the shared counter has counted at least these.
pub started-IsBalanced :
    (ws : AsyncSettings) (curr_ops : ℕ) {s : AsyncState}
    → ws.commands ≡ ws.spring_batch_size
    → Reach ws (started curr_ops) s
    → IsBalanced ws s
unfolding started
started-IsBalanced ws curr_ops full reached =
    Reach-IsBalanced ws full
      (record {
        counted = closed_from-IsCounted ws num_connections 0;
        balance = omega (arith, closed_from-waiting num_connections 0);
        within = omega arith;
      })
      reached
