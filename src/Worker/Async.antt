-- ===== src/Worker/Async.antt =====
-- The asynchronous worker of spring/wgen.py as a machine that the answers of the server drive: the
-- callbacks of one worker run one after the other. Pauses, logging and the clock are left out; the
-- other workers move the shared counter of operations.
pub mod Answers
use perfrunner.Prelude.{
  Option, none, some, ℕ, zero, suc, ◌+◌, ◌-◌, ◌<◌, ◌≡◌, Bool, true, false, not, ◌&&◌, ◌||◌, List,
  [], ◌∷◌, Option, none, some, leb, ◌==◌, if◌then◌else◌, get_elem?, set, replicate,
}

-- One of the connections: its element of `self.counter`, whether it has been opened, and how many of
-- its commands are not answered yet.
pub record Connection : Type 0 where
  pub counter : ℕ
  pub is_open : Bool
  pub outstanding : ℕ

-- The worker; `issued` and `answered` count its commands.
pub record AsyncState : Type 0 where
  pub connections : List Connection
  pub curr_ops : ℕ
  pub issued : ℕ
  pub answered : ℕ
  pub finished : Bool

abbrev pub num_connections : ℕ
num_connections = 8

-- `self.counter = list(range(self.NUM_CONNECTIONS))`, of the connections from `i` on
unfoldable pub closed_from : ℕ → ℕ → List Connection
closed_from zero i = []
closed_from (suc n) i =
    record { counter = i; is_open = false; outstanding = 0 } ∷ closed_from n (i + 1)

unfoldable pub started : ℕ → AsyncState
unfolding closed_from
started curr_ops = record {
  connections = closed_from num_connections 0;
  curr_ops = curr_ops;
  issued = 0;
  answered = 0;
  finished = false;
}

abbrev pub is_reached : Option ℕ → ℕ → Bool
is_reached none n = false
is_reached (some ops) n = leb ops n

-- The settings of the worker: `spring_batch_size`, the number of commands of a batch, and `ops`, none for a run
-- that only time limits.
pub record AsyncSettings : Type 0 where
  pub spring_batch_size : ℕ
  pub commands : ℕ
  pub ops : Option ℕ

-- `do_batch` for the connection `c`, the one numbered `i`
unfoldable pub do_batch : AsyncSettings → ℕ → Connection → AsyncState → AsyncState
do_batch ws i c s = record s {
  connections =
      set s.connections i
        (record { counter = 0; is_open = true; outstanding = c.outstanding + ws.commands });
  curr_ops = s.curr_ops + ws.spring_batch_size;
  issued = s.issued + ws.commands;
}

-- The end of a batch in `restart`: `reactor.stop()`, or the next batch. `stop` is `time_to_stop`.
unfoldable pub end_batch : AsyncSettings → Bool → ℕ → Connection → AsyncState → AsyncState
unfolding do_batch
end_batch ws stop i c s =
    if not s.finished && (is_reached ws.ops s.curr_ops || stop)
    then record s { finished = true }
    else do_batch ws i c s

-- `restart`, also by way of `log_and_restart`: one command of the connection `c` is answered.
unfoldable pub restart : AsyncSettings → Bool → ℕ → Connection → AsyncState → AsyncState
unfolding end_batch
restart ws stop i c s =
    let d = record c { counter = c.counter + 1; outstanding = c.outstanding - 1 } in
    let t = record s { connections = set s.connections i d; answered = s.answered + 1 } in
    if d.counter == ws.spring_batch_size then end_batch ws stop i d t else t

-- What may happen next: a connection is opened, a command is answered, or another worker begins a
-- batch.
pub data Step (ws : AsyncSettings) : AsyncState → AsyncState → Type 0 where
  opened :
      (s : AsyncState) (i : ℕ) (c : Connection)
      → get_elem? s.connections i ≡ some c
      → c.is_open ≡ false
      → Step ws s (do_batch ws i c s)
  answer :
      (s : AsyncState) (i : ℕ) (c : Connection) (stop : Bool)
      → get_elem? s.connections i ≡ some c
      → 0 < c.outstanding
      → Step ws s (restart ws stop i c s)
  other_batch : (s : AsyncState) (n : ℕ) → Step ws s (record s { curr_ops = s.curr_ops + n })

pub data Reach (ws : AsyncSettings) (s : AsyncState) : AsyncState → Type 0 where
  here : Reach ws s s
  next : {t u : AsyncState} → Reach ws s t → Step ws t u → Reach ws s u
