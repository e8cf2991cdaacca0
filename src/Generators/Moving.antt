-- ===== src/Generators/Moving.antt =====
-- About `MovingWorkingSetKey` of spring/docgen.py: where its hot range lies.
use perfrunner.Prelude.{ℕ, suc, ◌+◌, ◌-◌, ◌%◌, ◌^◌, ◌≤◌, ◌<◌, ◌≡◌, ap, ◌⊎◌, ◌≢◌, ok, arith, Returns}
use perfrunner.Prelude.Int.{pos, ◌+ℤ◌, ◌-ℤ◌, ◌≤ℤ◌, ◌<ℤ◌, int_laws, trunc_mul, pos--ℤ}
use native.Mathlib.Nat.{mod-eq_of_lt}
use perfrunner.Text.{Text}
use perfrunner.Generators.{KeySettings, HotLoad, moved, move_hot_load, moving_next, pick}
use perfrunner.Generators.Space.{InSpace, pick_bounds, randrange_lem}

-- A window of `hot` items that starts in the key space of `existing` items.
abbrev pub Fits : HotLoad → ℕ → ℕ → Type 0
Fits s existing hot = s.hot_load_start + hot ≤ existing

-- After the timer the window fits, wherever it was before.
move_hot_load_lem :
    (ws : KeySettings) (existing hot room : ℕ) (s : HotLoad)
    → existing ≡ hot + suc room
    → existing < 2 ^ 64
    → move_hot_load ws (pos existing) (pos hot) s
      ≡ ok ((s.hot_load_start + ws.working_set_moving_docs) % suc room)
unfolding move_hot_load
move_hot_load_lem ws existing hot room s e w =
    let d : pos existing -ℤ pos hot ≡ pos (suc room) = omega int_laws in
    rw d (ap (λ n. ok n) (omega arith))

module _ (ws : KeySettings) (prefix : Text) (items deletes hot : ℕ) (s : HotLoad)
    (ordered : deletes ≤ items)
    (share : trunc_mul (pos (items - deletes)) ws.working_set 100 ≡ pos hot) (warm : 0 < hot)
    (cold : hot < items - deletes) (word : items < 2 ^ 64) where
  existing : pos items -ℤ pos deletes ≡ pos (items - deletes)
  existing = pos--ℤ items deletes ordered

  moved-Fits :
      (s.timer_elapse ≢ 0) ⊎ Fits s (items - deletes) hot
      → let (r, s') = moved ws (pos (items - deletes)) (pos hot) s in
        (r ≡ ok s'.hot_load_start) × Fits s' (items - deletes) hot × (s'.timer_elapse ≡ 0)
  unfolding moved
  moved-Fits h =
      let room = items - deletes - hot - 1 in
      ground (arith, move_hot_load_lem ws (items - deletes) hot room s (omega arith) (omega arith))

  -- If the hot share is neither empty nor the whole of the existing documents, the key is that of
  -- an existing document, the hot range fits into them afterwards, and the timer is reset, provided
  -- that the range fitted before or the timer has elapsed.
  pub moving_next-InSpace :
      (draw : ℕ)
      → (s.timer_elapse ≢ 0) ⊎ Fits s (items - deletes) hot
      → let (r, s') = moving_next ws prefix draw (pos items) (pos deletes) s in
        Returns r (InSpace (pos deletes) (pos items))
        × Fits s' (items - deletes) hot
        × (s'.timer_elapse ≡ 0)
  unfolding moving_next
  moving_next-InSpace draw h =
      let (out, fits, reset) = moved-Fits h in
      let start = (moved ws (pos (items - deletes)) (pos hot) s).1.hot_load_start in
      let left = pos deletes +ℤ pos start in
      let room : left <ℤ left +ℤ pos hot = omega int_laws in
      let (low, high) = pick_bounds draw left (left +ℤ pos hot) room in
      rw (existing, share, out, randrange_lem draw left (left +ℤ pos hot) room)
        ((omega int_laws, omega int_laws), fits, reset)

  -- Before the timer has elapsed, a hot range that does not fit into the existing documents reaches
  -- past the last of them: the draw of its last number gives the key of a document that does not
  -- exist. The hot share is neither empty nor the whole.
  pub moving_next-leaves :
      s.timer_elapse ≡ 0
      → ¬ Fits s (items - deletes) hot
      → Returns
          (moving_next ws prefix (hot - 1) (pos items) (pos deletes) s).0
          (λ k. pos items ≤ℤ k.number)
  unfolding moving_next moved pick
  moving_next-leaves idle out =
      let left = pos deletes +ℤ pos s.hot_load_start in
      let room : left <ℤ left +ℤ pos hot = omega int_laws in
      let width : left +ℤ pos hot -ℤ left ≡ pos hot = omega int_laws in
      rw (existing, share, idle, randrange_lem (hot - 1) left (left +ℤ pos hot) room, width)
        (omega (int_laws, mod-eq_of_lt))
