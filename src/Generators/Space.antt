-- ===== src/Generators/Space.antt =====
-- About the generators of existing keys in spring/docgen.py, and the key space.
use perfrunner.Prelude.{
  ℕ, ◌-◌, ◌*◌, ◌/◌, ◌%◌, ◌≤◌, ◌<◌, ◌≡◌, refl, true, false, ok, arith, Returns, Bool-cases, inl, inr,
  lt→ltb, ◌⊎◌,
}
use perfrunner.Prelude.Int.{
  leb_ℤ, ℤ, pos, ◌+ℤ◌, ◌-ℤ◌, ◌≤ℤ◌, ◌<ℤ◌, int_laws, one_part, Ratio, trunc_mul, to_ℕ,
}
use native.Mathlib.Nat.{mul_comm, mul-le-mul_left, div-le_of_le-mul}
use perfrunner.Text.{Text}
use perfrunner.Keys.{Key}
use perfrunner.Generators.{
  pick, randrange, randint, uniform_key, WorkingSetKey, working_set_next, zipf_key, power_key,
}

-- The key is that of a document which exists: not deleted yet, and created.
abbrev pub InSpace : ℤ → ℤ → Key → Type 0
InSpace lo hi k = (lo ≤ℤ k.number) × (k.number <ℤ hi)

pub pick_bounds :
    (draw : ℕ) (lo hi : ℤ) → lo <ℤ hi → (lo ≤ℤ pick draw lo hi) × (pick draw lo hi <ℤ hi)
unfolding pick
pick_bounds draw lo hi h =
    let room : 0 < to_ℕ (hi -ℤ lo) = omega int_laws in
    let below : draw % to_ℕ (hi -ℤ lo) < to_ℕ (hi -ℤ lo) = grind arith in
    (
      omega (int_laws, one_part, one_part (hi -ℤ lo)),
      omega (int_laws, one_part, one_part (hi -ℤ lo)),
    )

pub randrange_lem : (draw : ℕ) (lo hi : ℤ) → lo <ℤ hi → randrange draw lo hi ≡ ok (pick draw lo hi)
unfolding randrange
randrange_lem draw lo hi h = rw (lt→ltb _ _ h)

-- The uniform key is that of an existing document, if there is any.
pub uniform_key-InSpace :
    (prefix fmtr : Text) (draw : ℕ) (curr_items curr_deletes : ℤ)
    → curr_deletes <ℤ curr_items
    → Returns
        (uniform_key prefix fmtr draw curr_items curr_deletes)
        (InSpace curr_deletes curr_items)
unfolding uniform_key
uniform_key-InSpace prefix fmtr draw items deletes h =
    rw (randrange_lem draw deletes items h) (pick_bounds draw deletes items h)

-- A share of at most the whole is at most the whole.
pub trunc_mul-le : (n k : ℕ) (q : Ratio) → q.num ≤ q.den * k → trunc_mul (pos n) q k ≤ℤ pos n
unfolding trunc_mul
trunc_mul-le n k q h =
    let product : n * q.num ≤ n * (q.den * k) = mul-le-mul_left n h in
    let bound : n * q.num / (q.den * k) ≤ n =
      div-le_of_le-mul (q.den * k) (rw (mul_comm (q.den * k) n) product) in
    omega arith

pub trunc_mul-nonneg : (n k : ℕ) (q : Ratio) → pos 0 ≤ℤ trunc_mul (pos n) q k
unfolding trunc_mul
trunc_mul-nonneg n k q = omega arith

-- `randint(0, 100)` never fails.
roll_lem : (draw : ℕ) → randint draw (pos 0) (pos 100) ≡ ok (pick draw (pos 0) (pos 100 +ℤ pos 1))
roll_lem draw = randrange_lem draw (pos 0) (pos 100 +ℤ pos 1) (omega int_laws)

-- Hot or cold, the key is that of an existing document, and it is counted as a hit exactly when it
-- is one of the hot items, the last ones, if there are hot items and cold ones that are not
-- deleted.
pub working_set_next-InSpace :
    (g : WorkingSetKey) (access_draw draw : ℕ) (items deletes : ℤ)
    → pos 0 <ℤ g.num_hot_items
    → deletes <ℤ items -ℤ g.num_hot_items
    → Returns (working_set_next g access_draw draw items deletes) λ k.
      InSpace deletes items k
      × ((k.hit ≡ true × (items -ℤ g.num_hot_items ≤ℤ k.number))
          ⊎ (k.hit ≡ false × (k.number <ℤ items -ℤ g.num_hot_items)))
unfolding working_set_next
working_set_next-InSpace g access_draw draw items deletes h k =
    let cold = items -ℤ g.num_hot_items in
    let hot_room : cold <ℤ items = omega int_laws in
    rw
      (
        roll_lem access_draw,
        randrange_lem draw cold items hot_room,
        randrange_lem draw deletes cold k,
      )
      (elim (Bool-cases
        (leb_ℤ (pick access_draw (pos 0) (pos 100 +ℤ pos 1)) (pos g.working_set_access))) [
          | inl cached ↦ rw cached (
              let (low, high) = pick_bounds draw cold items hot_room in
              ((omega int_laws, high), inl (refl, low)))
          | inr missed ↦ rw missed (
              let (low, high) = pick_bounds draw deletes cold k in
              ((low, omega int_laws), inr (refl, high)))
        ])

-- Whatever positive number numpy samples, the Zipf key is that of an existing document, if there is
-- any.
pub zipf_key-InSpace :
    (prefix fmtr : Text) (sample : ℕ) (items deletes : ℤ)
    → 0 < sample
    → deletes <ℤ items
    → InSpace deletes items (zipf_key prefix fmtr sample items deletes)
unfolding zipf_key
zipf_key-InSpace prefix fmtr sample items deletes p h =
    elim (Bool-cases (leb_ℤ (items -ℤ pos sample) deletes)) [
      | inl far ↦ rw far (omega int_laws, omega int_laws)
      | inr near ↦ rw near (grind int_laws, omega int_laws)
    ]

-- A sample of at most 1 gives the key of an existing document, if there is any.
pub power_key-InSpace :
    (prefix fmtr : Text) (r : Ratio) (items deletes : ℕ)
    → r.num ≤ r.den
    → deletes < items
    → InSpace (pos deletes) (pos items) (power_key prefix fmtr r (pos items) (pos deletes))
unfolding power_key
power_key-InSpace prefix fmtr r items deletes p h =
    let last : pos items -ℤ pos deletes -ℤ pos 1 ≡ pos (items - deletes - 1) = omega int_laws in
    let share = trunc_mul (pos (items - deletes - 1)) r 1 in
    let most : share ≤ℤ pos (items - deletes - 1) =
      trunc_mul-le (items - deletes - 1) 1 r (omega arith) in
    let least : pos 0 ≤ℤ share = trunc_mul-nonneg (items - deletes - 1) 1 r in
    rw last (omega int_laws, omega int_laws)
