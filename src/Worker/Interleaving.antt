-- ===== src/Worker/Interleaving.antt =====
-- Worker processes take numbers from the shared counters in any order (`with self.lock`).
use perfrunner.Prelude.{
  ℕ, ◌+◌, ◌*◌, ◌≤◌, ◌≡◌, ◌∙◌, List, [], ◌∷◌, ◌++◌, arith, ltb, leb, ◌&&◌, if◌then◌else◌,
}
use perfrunner.Prelude.Int.{ℤ, pos}
use perfrunner.Prelude.Range.{stepped, count, count-append, count_interval}
use perfrunner.Worker.{WorkloadSettings, Shared, take_creates, take_deletes}
use perfrunner.Worker.Ops.{taken, first_creates, first_deletes}

-- A turn at the lock: a worker takes its new documents, or the documents that it deletes.
pub data Turn : Type 0 where
  take_new take_old : (worker : ℕ) → Turn

-- The numbers taken so far, and the counters.
pub record Board : Type 0 where
  pub created : List ℤ
  pub deleted : List ℤ
  pub shared : Shared

module _ (ws : WorkloadSettings) where
  unfoldable pub turn : Turn → Board → Board
  turn (take_new worker) b =
      let (first, s) = take_creates ws b.shared in
      record b { created = b.created ++ stepped ws.creates (pos first) 1; shared = s }
  turn (take_old worker) b =
      let (first, s) = take_deletes ws b.shared in
      record b { deleted = b.deleted ++ stepped ws.deletes (pos first) 1; shared = s }

  unfoldable pub turns : List Turn → Board → Board
  turns [] b = b
  turns (t ∷ ts) b = turns ts (turn t b)

  abbrev in_interval : ℕ → ℕ → ℕ → ℕ
  in_interval lo hi x = if leb lo x && ltb x hi then 1 else 0

  -- The numbers between where the counter began and where it is have been taken once, no others; those
  -- of the deletions are shifted.
  pub record IsExact (from_items from_deleted : ℕ) (b : Board) : Type 0 where
    pub items_le : from_items ≤ b.shared.curr_items
    pub deleted_le : from_deleted ≤ b.shared.deleted_items
    pub new_once : (x : ℕ) → count (pos x) b.created ≡ in_interval from_items b.shared.curr_items x
    pub old_once :
        (x : ℕ)
        → count (pos x) b.deleted
          ≡ in_interval
              (from_deleted + ws.deletes * ws.workers)
              (b.shared.deleted_items + ws.deletes * ws.workers)
              x

  turn-IsExact : (i d : ℕ) (t : Turn) (b : Board) → IsExact i d b → IsExact i d (turn t b)
  unfolding turn
  turn-IsExact i d (take_new w) b h =
      let s = b.shared in
      let (moved, kept, _, _) = taken ws s in
      record {
        items_le = omega (arith, h.items_le);
        deleted_le = omega (arith, h.deleted_le);
        new_once = λ x.
            count-append (pos x) b.created (stepped ws.creates (pos (take_creates ws s).0) 1)
            ∙ (rw
                (first_creates ws s, h.new_once x, count_interval ws.creates s.curr_items x, moved)
                (ground (arith, h.items_le)));
        old_once = λ x. rw kept (h.old_once x);
      }
  turn-IsExact i d (take_old w) b h =
      let s = b.shared in
      let (_, _, moved, kept) = taken ws s in
      let shift = ws.deletes * ws.workers in
      record {
        items_le = omega (arith, h.items_le);
        deleted_le = omega (arith, h.deleted_le);
        new_once = λ x. rw kept (h.new_once x);
        old_once = λ x.
            count-append (pos x) b.deleted (stepped ws.deletes (pos (take_deletes ws s).0) 1)
            ∙ (rw
                (
                  first_deletes ws s,
                  h.old_once x,
                  count_interval ws.deletes (s.deleted_items + shift) x,
                  moved,
                )
                (ground (arith, h.deleted_le)));
      }

  -- Whatever the order in which the worker processes take their numbers, no number is created or
  -- deleted twice: the new documents are exactly the numbers between the first and the last value of
  -- their counter, and the deleted ones are exactly the numbers between the first and the last value
  -- of theirs, both shifted by a batch of deletions for each worker, which leaves the documents in
  -- front of these undeleted; each once, if that held of what was taken before.
  pub turns-IsExact :
      (i d : ℕ) (ts : List Turn) (b : Board) → IsExact i d b → IsExact i d (turns ts b)
  unfolding turns
  turns-IsExact i d [] b h = h
  turns-IsExact i d (t ∷ ts) b h = turns-IsExact i d ts (turn t b) (turn-IsExact i d t b h)
