-- ===== src/KeyFragger/Keys.antt =====
-- About the keys that a batch of documents leaves in the bucket (perfrunner/workloads/keyFragger.py).
use perfrunner.Prelude.{
  ℕ, ◌+◌, ◌*◌, ◌≤◌, ◌<◌, ◌≡◌, refl, ◌∙◌, Bool, true, false, ◌||◌, List, [], ◌∷◌, Option, none, some,
  ok, arith, ◌⊎◌, inl, inr, Bool-cases, ◌==◌, if◌then◌else◌, All, Returns,
}
use perfrunner.Monitor.Queues.{last}
use perfrunner.KeyFragger.{Store, do_work, work_through}
use perfrunner.KeyFragger.Padding.{IsWide}
use perfrunner.KeyFragger.Batches.{holds, after, HasPrevious, work_keys-Worked}

-- What becomes of a document on the whole way around the ring.
left_over : Option ℕ → List ℕ → ℕ → Bool → Bool
left_over pre [] w old = old
left_over pre (s ∷ ss) w old = left_over (some s) ss w (after pre s w old)

abbrev pub is_size : ℕ → List ℕ → Bool
is_size w [] = false
is_size w (s ∷ ss) = (w == s) || is_size w ss

-- Under its last length the document is held, under no other length that it had, and apart from these
-- as before.
unfoldable pub kept : ℕ → List ℕ → ℕ → Bool → Bool
unfolding last
kept s ss w old = if w == last s ss then true else if is_size w (s ∷ ss) then false else old

or_true : (b old : Bool) → false ≡ (if b || true then false else old)
or_true true old = refl
or_true false old = refl

swapped :
    (b m old : Bool)
    → (if m then false else if b then false else old) ≡ (if b || m then false else old)
swapped true true old = refl
swapped true false old = refl
swapped false m old = refl

kept-first :
    (s : ℕ) (ss : List ℕ) (w : ℕ) (old : Bool) → kept s ss w (after none s w old) ≡ kept s ss w old
unfolding kept
kept-first s ss w old = elim (Bool-cases (w == last s ss)) [
  | inl same ↦ rw same refl
  | inr other ↦ elim (Bool-cases (w == s)) [
    | inl same ↦ rw (other, same) refl
    | inr differs ↦ rw (other, differs) refl
  ]
]

left_over-kept :
    (s : ℕ) (ss : List ℕ) (w : ℕ) (old : Bool)
    → ((w == s) ≡ true → old ≡ true)
    → left_over (some s) ss w old ≡ kept s ss w old
unfolding left_over last kept
left_over-kept s [] w old held = elim (Bool-cases (w == s)) [
  | inl same ↦ rw same (held same)
  | inr other ↦ rw other refl
]
left_over-kept p (s ∷ ss) w old held =
    left_over-kept s ss w (after (some p) s w old) (λ same. rw same refl)
    ∙ elim (Bool-cases (w == last s ss)) [
      | inl same ↦ rw same refl
      | inr other ↦ elim (Bool-cases (w == s)) [
        | inl same ↦ rw (other, same) (or_true (w == p) old)
        | inr differs ↦ rw (other, differs) (swapped (w == p) (is_size w ss) old)
      ]
    ]

module _ (batch_size index : ℕ) where
  unfoldable pub IsIn : ℕ → Type 0
  IsIn k = (index * batch_size ≤ k) × (k < index * batch_size + batch_size)

  pub IsOut : ℕ → Type 0
  IsOut k = (k < index * batch_size) ⊎ (index * batch_size + batch_size ≤ k)

  -- The length fits all documents of the batch.
  unfoldable pub IsWideForAll : ℕ → Type 0
  IsWideForAll s = (k : ℕ) → IsIn k → IsWide s k

  record Passage (pre : Option ℕ) (ss : List ℕ) (store : Store) : Type 0 where
    done : Store
    runs : work_through batch_size index pre ss store ≡ ok done
    mine : (k w : ℕ) → IsIn k → IsWide w k → holds done k w ≡ left_over pre ss w (holds store k w)
    others : (k w : ℕ) → IsOut k → IsWide w k → holds done k w ≡ holds store k w

  after-new : (pre : Option ℕ) (s : ℕ) (old : Bool) → after pre s s old ≡ true
  after-new none s old = let same : (s == s) ≡ true = ground arith in rw same refl
  after-new (some p) s old = let same : (s == s) ≡ true = ground arith in rw same refl

  wide_some : (s k : ℕ) → IsWide s k → 0 < s
  unfolding IsWide
  wide_some s k wide = omega (arith, wide)

  work_through-Passage :
      (ss : List ℕ) (pre : Option ℕ) (store : Store)
      → All IsWideForAll ss
      → ((k : ℕ) → IsIn k → HasPrevious pre k store)
      → Passage pre ss store
  unfolding work_through do_work left_over IsIn IsOut HasPrevious IsWideForAll
  work_through-Passage [] pre store wide has = record {
    done = store;
    runs = refl;
    mine = λ k w i h. refl;
    others = λ k w o h. refl;
  }
  work_through-Passage (s ∷ ss) pre store wide has =
      let now =
        work_keys-Worked pre s batch_size (index * batch_size) store
          (λ k low high. (wide.0 k (low, high), has k (low, high))) in
      let rest = work_through-Passage ss (some s) now.worked wide.1 (λ k i.
        let fits = wide.0 k i in
        (
          wide_some s k fits,
          (fits, now.mine k s i.0 i.1 fits ∙ after-new pre s (holds store k s)),
        )) in
      record {
        done = rest.done;
        runs = rw (now.runs) rest.runs;
        mine = λ k w i h. rest.mine k w i h ∙ (rw (now.mine k w i.0 i.1 h) refl);
        others = λ k w o h. rest.others k w o h ∙ now.others k w o h;
      }

  -- Each document of the batch is held under its last length, under none of the lengths before, and
  -- apart from these as it was; other documents are held as they were.
  pub Keeps : ℕ → List ℕ → Store → Store → Type 0
  Keeps s ss store done =
      ((k w : ℕ) → IsIn k → IsWide w k → holds done k w ≡ kept s ss w (holds store k w))
      × ((k w : ℕ) → IsOut k → IsWide w k → holds done k w ≡ holds store k w)

  -- A fresh iterator, of which every length fits all documents of the batch, gets around the ring and
  -- removes no key that is not there. Behind it the documents of the batch are held under their last
  -- length and no other one of the iterator's, but still under every other length that they had.
  pub work_through-Keeps :
      (s : ℕ) (ss : List ℕ) (store : Store)
      → All IsWideForAll (s ∷ ss)
      → Returns (work_through batch_size index none (s ∷ ss) store) (Keeps s ss store)
  unfolding left_over HasPrevious Keeps
  work_through-Keeps s ss store wide =
      let way = work_through-Passage (s ∷ ss) none store wide (λ k i. tt) in
      rw (way.runs) (
        (λ k w i h.
            way.mine k w i h
            ∙ (left_over-kept s ss w (after none s w (holds store k w)) (λ same. rw same refl)
                ∙ kept-first s ss w (holds store k w))),
        way.others,
      )
