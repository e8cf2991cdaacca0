-- ===== src/Reservoir/Laws.antt =====
-- About the contents of the reservoir of spring/reservoir.py.
use Prim.Native.Nat.{min}
use perfrunner.Prelude.{
  ℕ, zero, suc, ◌+◌, ◌∙◌, All, All-append, ◌≡◌, inl, inr, Bool, true, List, [], ◌∷◌, arith, length,
  set, length-append, length-set, ltb, Bool-cases, if◌then◌else◌,
}
use perfrunner.Reservoir.{Sample, Reservoir, Measured, update, update_all, slot}

-- Between two updates the reservoir has min(count, capacity) samples.
abbrev pub IsFull : {V : Type 0} → Reservoir V → Type 0
IsFull s = length s.values ≡ min s.count s.capacity

pub All-set {ℓ κ} :
    {A : Type ℓ} (P : A → Type κ) (xs : List A) (i : ℕ) (v : A)
    → All P xs
    → P v
    → All P (set xs i v)
All-set P [] i v h p = tt
All-set P (x ∷ xs) zero v h p = (p, h.1)
All-set P (x ∷ xs) (suc i) v h p = (h.0, All-set P xs i v h.1 p)

abbrev pub sample_of : {V : Type 0} → Measured V → Sample V
sample_of m = (m.operation, m.timestamp, m.value)

module _ {V : Type 0} (truthy : V → Bool) where
  -- How many of the measurements count: those whose value is not 0 and not None.
  abbrev pub good : List (Measured V) → ℕ
  good [] = 0
  good (m ∷ ms) = (if truthy m.value then 1 else 0) + good ms

  update-IsFull :
      (m : Measured V) (s : Reservoir V)
      → IsFull s
      → IsFull (update truthy m s)
        × ((update truthy m s).count ≡ (if truthy m.value then 1 else 0) + s.count)
        × ((update truthy m s).capacity ≡ s.capacity)
  unfolding update
  update-IsFull m s h =
      let entry = sample_of m in
      ground (
        arith,
        length-append s.values (entry ∷ []),
        length-set s.values (slot (s.count + 1) m.random) entry,
      )

  -- After any measurements a reservoir, if it held as many samples as it had counted up to its
  -- capacity, has counted the good ones too, holds as many samples as it has counted up to its
  -- capacity, and has the same capacity.
  pub update_all-IsFull :
      (ms : List (Measured V)) (s : Reservoir V)
      → IsFull s
      → let t = update_all truthy ms s in
        (t.count ≡ s.count + good ms)
        × (length t.values ≡ min (s.count + good ms) s.capacity)
        × (t.capacity ≡ s.capacity)
  unfolding update_all
  update_all-IsFull [] s h = ground arith
  update_all-IsFull (m ∷ ms) s h =
      let (full, counted, kept) = update-IsFull m s h in
      let (count', length', capacity') = update_all-IsFull ms (update truthy m s) full in
      (omega arith, omega arith, capacity' ∙ kept)

  update-All :
      (P : Sample V → Type 0) (m : Measured V) (s : Reservoir V)
      → (truthy m.value ≡ true → P (sample_of m))
      → All P s.values
      → All P (update truthy m s).values
  unfolding update
  update-All P m s p h = elim (Bool-cases (truthy m.value)) [
    | inr bad ↦ rw bad h
    | inl fine ↦ rw fine (elim (Bool-cases (ltb (length s.values) s.capacity)) [
      | inl room ↦ rw room (All-append P s.values (sample_of m ∷ []) h (p fine, tt))
      | inr full ↦ rw full (elim (Bool-cases (ltb (slot (s.count + 1) m.random) s.capacity)) [
        | inl hit ↦
            rw hit (All-set P s.values (slot (s.count + 1) m.random) (sample_of m) h (p fine))
        | inr missed ↦ rw missed h
      ])
    ])
  ]

  -- What the reservoir holds was measured, and was good: whatever holds of every good measurement
  -- holds of every sample.
  pub update_all-All :
      (P : Sample V → Type 0) (ms : List (Measured V)) (s : Reservoir V)
      → All (λ m. truthy m.value ≡ true → P (sample_of m)) ms
      → All P s.values
      → All P (update_all truthy ms s).values
  unfolding update_all
  update_all-All P [] s hs h = h
  update_all-All P (m ∷ ms) s hs h =
      update_all-All P ms (update truthy m s) hs.1 (update-All P m s hs.0 h)
