-- ===== src/Documents/Disjoint.antt =====
-- The arrays of spring/docgen.py for array indexes: which numbers two documents have in common.
use perfrunner.Prelude.{
  ℕ, zero, suc, ◌+◌, ◌*◌, ◌/◌, ◌≤◌, ◌<◌, ◌≡◌, ◌≢◌, refl, ◌∙◌, sym, ap, Bool, true, false, ◌⊎◌, ◌↔◌,
  List, ◌∷◌, ◌++◌, ok, arith, Returns, returns_mono, if◌then◌else◌, Bool-cases, inl, inr,
}
use perfrunner.Prelude.Int.{ℤ, pos, ◌+ℤ◌, ◌<ℤ◌, int_laws, to_ℕ, one_part}
use perfrunner.Prelude.Range.{stepped, stepped-suc, count, count-append, count_interval}
use native.Mathlib.Nat.{mul-div_cancel}
use perfrunner.Text.{Text, codes}
use perfrunner.Generators.{pick}
use perfrunner.Generators.Space.{randrange_lem, pick_bounds}
use perfrunner.Documents.Lookup.{is_random}
use perfrunner.Documents.Arrays.{build_achievements1, build_achievements2}

-- The array is `size` consecutive numbers between two bounds.
abbrev pub Within : ℕ → ℕ → ℕ → List ℤ → Type 0
Within size lo hi ns = (o : ℕ) × (lo ≤ o) × (o + size ≤ hi) × (ns ≡ stepped size (pos o) 1)

-- The numbers that a document reserves.
abbrev pub left : ℕ → ℕ → Bool → ℕ → ℕ
left num_docs size random i = if random then num_docs * size + i * (2 * size) + 1 else i * size

abbrev pub right : ℕ → ℕ → Bool → ℕ → ℕ
right num_docs size random i =
    if random then num_docs * size + i * (2 * size) + 2 * size else i * size + size

module _ (num_docs size : ℕ) (some_size : 0 < size) where
  static_array :
      (prefix : Text) (draw i : ℕ)
      → is_random prefix ≡ false
      → Returns
          (build_achievements1 prefix draw num_docs size (pos i))
          (Within size (left num_docs size false i) (right num_docs size false i))
  unfolding build_achievements1
  static_array prefix draw i static = rw static (i * size, omega arith, omega arith, refl)

  random_array :
      (prefix : Text) (draw i : ℕ)
      → is_random prefix ≡ true
      → Returns
          (build_achievements1 prefix draw num_docs size (pos i))
          (Within size (left num_docs size true i) (right num_docs size true i))
  unfolding build_achievements1
  random_array prefix draw i random =
      let room : pos 1 <ℤ pos size +ℤ pos 1 = omega int_laws in
      let (low, high) = pick_bounds draw (pos 1) (pos size +ℤ pos 1) room in
      let base = num_docs * size + i * (2 * size) in
      let shift = pick draw (pos 1) (pos size +ℤ pos 1) in
      let moved : pos (num_docs * size) +ℤ pos (i * (2 * size)) +ℤ shift ≡ pos (base + to_ℕ shift) =
        omega (int_laws, one_part) in
      rw (random, randrange_lem draw (pos 1) (pos size +ℤ pos 1) room, moved)
        (base + to_ℕ shift, omega (int_laws, one_part), omega (int_laws, one_part), refl)

  reserved :
      (prefix : Text) (draw i : ℕ)
      → Returns (build_achievements1 prefix draw num_docs size (pos i)) (
          Within size
            (left num_docs size (is_random prefix) i)
            (right num_docs size (is_random prefix) i))
  reserved prefix draw i = elim (Bool-cases (is_random prefix)) [
    | inl random ↦ rw random (random_array prefix draw i random)
    | inr static ↦ rw static (static_array prefix draw i static)
  ]

  next_le : (i j : ℕ) → i < j → i * size + size ≤ j * size
  next_le i j h = grind arith

  -- What two documents reserve does not overlap.
  apart :
      (r r' : Bool) (i j : ℕ)
      → 0 < i
      → i ≤ num_docs
      → 0 < j
      → j ≤ num_docs
      → (r ≢ r') ⊎ (i ≢ j)
      → (right num_docs size r i ≤ left num_docs size r' j)
        ⊎ (right num_docs size r' j ≤ left num_docs size r i)
  apart true true i j p q p' q' h = grind (arith, next_le i j, next_le j i)
  apart true false i j p q p' q' h = inr (grind (arith, next_le j num_docs, next_le 0 i))
  apart false true i j p q p' q' h = inl (grind (arith, next_le i num_docs, next_le 0 j))
  apart false false i j p q p' q' h = grind (arith, next_le i j, next_le j i)

  at_most_once :
      (x lo hi lo' hi' : ℕ) (ns ms : List ℤ)
      → Within size lo hi ns
      → Within size lo' hi' ms
      → (hi ≤ lo') ⊎ (hi' ≤ lo)
      → count (pos x) (ns ++ ms) ≤ 1
  at_most_once x lo hi lo' hi' ns ms (o, l, r, e) (o', l', r', e') h =
      rw (e, e', count-append)
        (rw (count_interval size o x, count_interval size o' x) (ground arith))

  -- Two documents with ids from 1 to the number of documents have no number of `achievements1` in
  -- common, and neither has a number twice, if their ids are different or one is static and one
  -- random; the arrays are not empty.
  pub build_achievements1-disjoint :
      (p p' : Text) (draw draw' i j x : ℕ)
      → 0 < i
      → i ≤ num_docs
      → 0 < j
      → j ≤ num_docs
      → (is_random p ≢ is_random p') ⊎ (i ≢ j)
      → Returns (build_achievements1 p draw num_docs size (pos i)) λ ns.
        Returns
          (build_achievements1 p' draw' num_docs size (pos j))
          λ ms. count (pos x) (ns ++ ms) ≤ 1
  build_achievements1-disjoint p p' draw draw' i j x lo hi lo' hi' h =
      returns_mono _ _ (build_achievements1 p draw num_docs size (pos i)) (reserved p draw i)
        λ ns w.
          returns_mono _ _ (build_achievements1 p' draw' num_docs size (pos j))
            (reserved p' draw' j)
            λ ms w'.
              at_most_once x _ _ _ _ ns ms w w'
                (apart (is_random p) (is_random p') i j lo hi lo' hi' h)

same_start : (n a b : ℕ) → stepped (suc n) (pos a) 1 ≡ stepped (suc n) (pos b) 1 → a ≡ b
same_start n a b e =
    let heads : pos a ∷ stepped n (pos (a + 1)) 1 ≡ pos b ∷ stepped n (pos (b + 1)) 1 =
      sym (stepped-suc n a) ∙ e ∙ stepped-suc n b in
    cc heads

same_multiple : (a b d : ℕ) → 0 < d → a * d ≡ b * d → a ≡ b
same_multiple a b d p e = sym (mul-div_cancel a p) ∙ ap (λ n. n / d) e ∙ mul-div_cancel b p

-- Static documents have the same `achievements2` exactly if they stand in the same hundred, if the
-- arrays are not empty.
pub build_achievements2_hundreds :
    (draw num_docs size i j : ℕ)
    → 0 < size
    → (build_achievements2 (codes "n1ql") draw num_docs size (pos i)
        ≡ build_achievements2 (codes "n1ql") draw num_docs size (pos j))
      ↔ (i / 100 ≡ j / 100)
unfolding build_achievements2
build_achievements2_hundreds draw num_docs zero i j p = absurd (omega arith)
build_achievements2_hundreds draw num_docs (suc n) i j p = (
  (λ e.
      let arrays : stepped (suc n) (pos (i / 100 * suc n)) 1
          ≡ stepped (suc n) (pos (j / 100 * suc n)) 1 =
        cc e in
      same_multiple (i / 100) (j / 100) (suc n) p
        (same_start n (i / 100 * suc n) (j / 100 * suc n) arrays)),
  (λ e. ap (λ k. ok (stepped (suc n) (pos (k * suc n)) 1)) e),
)
