-- ===== src/KeyFragger/Batches.antt =====
-- About one call of `do_work` of perfrunner/workloads/keyFragger.py on a batch of documents.
use perfrunner.Prelude.{
  ℕ, zero, suc, ◌+◌, ◌≤◌, ◌<◌, ◌≡◌, ◌≢◌, refl, ◌∙◌, Bool, true, false, Option, none, some, ok,
  arith, ◌⊎◌, inl, inr, Bool-cases, ◌==◌, if◌then◌else◌,
}
use perfrunner.Text.{eq_text}
use perfrunner.Text.Equality.{eq_text_refl}
use perfrunner.KeyFragger.{Store, padded_key, set_key, del_key, del_previous, work_keys}
use perfrunner.KeyFragger.Padding.{IsWide, eq_key}

-- Whether the bucket holds document `k` under its key of a length.
abbrev pub holds : Store → ℕ → ℕ → Bool
holds store k w = store (padded_key k w)

set_key-holds : (k v : ℕ) (store : Store) → holds (set_key k v store) k v ≡ true
unfolding set_key
set_key-holds k v store = rw (eq_text_refl (padded_key k v)) refl

set_key-other :
    (k l v w : ℕ) (store : Store)
    → IsWide v k
    → IsWide w l
    → (l ≢ k) ⊎ (w ≢ v)
    → holds (set_key k v store) l w ≡ holds store l w
unfolding set_key
set_key-other k l v w store wide wide' other = rw (eq_key l k w v wide' wide other) refl

-- What becomes of document `k` under its key of length `w`, where the length before is `pre` and the
-- new one `s`.
abbrev pub after : Option ℕ → ℕ → ℕ → Bool → Bool
after none s w old = if w == s then true else old
after (some p) s w old = if w == s then true else if w == p then false else old

-- The bucket holds the key before.
unfoldable pub HasPrevious : Option ℕ → ℕ → Store → Type 0
HasPrevious none k store = Unit {0}
HasPrevious (some p) k store = (0 < p) × (IsWide p k × (holds store k p ≡ true))

-- Document `k` behind its request for a new key of length `s`.
record Renewed (pre : Option ℕ) (s k : ℕ) (store : Store) : Type 0 where
  deleted : Store
  runs : del_previous pre k store ≡ ok deleted
  mine : (w : ℕ) → IsWide w k → holds (set_key k s deleted) k w ≡ after pre s w (holds store k w)
  others : (l w : ℕ) → IsWide w l → l ≢ k → holds (set_key k s deleted) l w ≡ holds store l w

eq_or_not : (m n : ℕ) → ((m ≡ n) × ((m == n) ≡ true)) ⊎ ((m ≢ n) × ((m == n) ≡ false))
eq_or_not m n = elim (Bool-cases (m == n)) [
  | inl same ↦ inl (ground arith, same)
  | inr other ↦ inr ((λ h. ground (arith, h, other)), other)
]

set_key-after :
    (k v w : ℕ) (store : Store)
    → IsWide v k
    → IsWide w k
    → holds (set_key k v store) k w ≡ (if w == v then true else holds store k w)
set_key-after k v w store wide wide' = elim (eq_or_not w v) [
  | inl same ↦ rw (same.1) (rw (same.0) (set_key-holds k v store))
  | inr other ↦ rw (other.1) (set_key-other k k v w store wide wide' (inr other.0))
]

-- The bucket behind a removal.
abbrev without : ℕ → ℕ → Store → Store
without k v store = λ t. if eq_text t (padded_key k v) then false else store t

without-other :
    (k l v w : ℕ) (store : Store)
    → IsWide v k
    → IsWide w l
    → (l ≢ k) ⊎ (w ≢ v)
    → holds (without k v store) l w ≡ holds store l w
without-other k l v w store wide wide' other = rw (eq_key l k w v wide' wide other) refl

without-after :
    (k v w : ℕ) (store : Store)
    → IsWide v k
    → IsWide w k
    → holds (without k v store) k w ≡ (if w == v then false else holds store k w)
without-after k v w store wide wide' = elim (eq_or_not w v) [
  | inl same ↦ rw (same.1) (rw (same.0, eq_text_refl (padded_key k v)) refl)
  | inr other ↦ rw (other.1) (without-other k k v w store wide wide' (inr other.0))
]

renew :
    (pre : Option ℕ) (s k : ℕ) (store : Store)
    → IsWide s k
    → HasPrevious pre k store
    → Renewed pre s k store
unfolding HasPrevious del_key
renew none s k store wide has = record {
  deleted = store;
  runs = refl;
  mine = λ w wide'. set_key-after k s w store wide wide';
  others = λ l w wide' other. set_key-other k l s w store wide wide' (inl other);
}
renew (some zero) s k store wide has = absurd (omega (arith, has.0))
renew (some (suc p)) s k store wide has = record {
  deleted = without k (suc p) store;
  runs = rw (has.1.1) refl;
  mine = λ w wide'.
      set_key-after k s w (without k (suc p) store) wide wide'
      ∙ (rw (without-after k (suc p) w store has.1.0 wide') refl);
  others = λ l w wide' other.
      set_key-other k l s w (without k (suc p) store) wide wide' (inl other)
      ∙ without-other k l (suc p) w store has.1.0 wide' (inl other);
}

-- `n` documents from `key` on behind `work_keys`.
pub record Worked (pre : Option ℕ) (s n key : ℕ) (store : Store) : Type 0 where
  pub worked : Store
  pub runs : work_keys pre s n key store ≡ ok worked
  pub mine :
      (k w : ℕ)
      → key ≤ k
      → k < key + n
      → IsWide w k
      → holds worked k w ≡ after pre s w (holds store k w)
  pub others :
      (k w : ℕ) → (k < key) ⊎ (key + n ≤ k) → IsWide w k → holds worked k w ≡ holds store k w

HasPrevious-other :
    (pre : Option ℕ) (k : ℕ) (store other : Store)
    → ((w : ℕ) → IsWide w k → holds other k w ≡ holds store k w)
    → HasPrevious pre k store
    → HasPrevious pre k other
unfolding HasPrevious
HasPrevious-other none k store other same has = tt
HasPrevious-other (some p) k store other same has = (has.0, (has.1.0, same p has.1.0 ∙ has.1.1))

first_or_later : (k key : ℕ) → key ≤ k → (k ≡ key) ⊎ ((k ≢ key) × (key + 1 ≤ k))
first_or_later k key h = ground arith

outside : (k key n : ℕ) → (k < key) ⊎ (key + suc n ≤ k) → (k < key + 1) ⊎ (key + 1 + n ≤ k)
outside k key n out = ground arith

not_key : (k key n : ℕ) → (k < key) ⊎ (key + suc n ≤ k) → k ≢ key
not_key k key n out e = ground (arith, out, e)

pub work_keys-Worked :
    (pre : Option ℕ) (s n key : ℕ) (store : Store)
    → ((k : ℕ) → key ≤ k → k < key + n → IsWide s k × HasPrevious pre k store)
    → Worked pre s n key store
unfolding work_keys
work_keys-Worked pre s zero key store has = record {
  worked = store;
  runs = refl;
  mine = λ k w low high wide. absurd (omega arith);
  others = λ k w out wide. refl;
}
work_keys-Worked pre s (suc n) key store has =
    let first = has key (omega arith) (omega arith) in
    let now = renew pre s key store first.0 first.1 in
    let rest = work_keys-Worked pre s n (key + 1) (set_key key s now.deleted) (λ k low high.
      let old = has k (omega arith) (omega arith) in
      (
        old.0,
        HasPrevious-other pre k store (set_key key s now.deleted)
            (λ w wide. now.others k w wide (λ e. absurd (omega (arith, e)))) old.1,
      )) in
    record {
      worked = rest.worked;
      runs = rw (now.runs) rest.runs;
      mine = λ k w low high wide. elim (first_or_later k key low) [
        | inl same ↦
            rest.others k w (inl (omega arith)) wide
            ∙ (let wide' : IsWide w key = (rw same at wide) in rw same (now.mine w wide'))
        | inr later ↦
            rest.mine k w later.1 (omega arith) wide ∙ (rw (now.others k w wide later.0) refl)
      ];
      others = λ k w out wide.
          rest.others k w (outside k key n out) wide ∙ now.others k w wide (not_key k key n out);
    }
