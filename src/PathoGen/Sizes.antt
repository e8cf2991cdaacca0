-- ===== src/PathoGen/Sizes.antt =====
-- About the sizes of the documents that have finished an iteration (perfrunner/workloads/pathoGen.py).
use perfrunner.Prelude.{
  ℕ, zero, suc, ◌+◌, ◌%◌, ◌≡◌, refl, List, [], ◌∷◌, ◌++◌, Option, some, Result, ok, arith,
  get_elem?, set, replicate, length, All, All-append, Bool, true, false, ◌==◌, if◌then◌else◌, sym,
  ◌∙◌, ◌≢◌, ◌↔◌, none, Bool-cases, inl, inr,
}
use perfrunner.Prelude
use mathlib.Core.Path.{subst}
use perfrunner.PathoGen.{
  sizes_below, sizes, sequence_iterator, Item, Ring, new_items, begin, put, advanced, work,
  supervise, Step, send, worker, supervisor, Steps, here, next, build_generator, chosen, frozen_at,
  not_frozen,
}

-- The size of a document when it has finished.
abbrev pub end_of : List ℕ → ℕ → ℕ
end_of [] size = size
end_of (s ∷ ss) size = end_of ss s

module _ (P : ℕ × ℕ → Type 0) where
  EndsWell : Item → Type 0
  EndsWell item = P (item.document, end_of item.left item.size)

  record AllEnd (r : Ring) : Type 0 where
    unsent_end : All EndsWell r.unsent
    queues_end : All (All EndsWell) r.queues
    finished_end : All P r.finished

  put-AllEnd :
      (qs : List (List Item)) (k : ℕ) (item : Item)
      → All (All EndsWell) qs
      → EndsWell item
      → All (All EndsWell) (put qs k item)
  unfolding put
  put-AllEnd [] k item all p = tt
  put-AllEnd (q ∷ qs) zero item all p = (All-append EndsWell q (item ∷ []) all.0 (p, tt), all.1)
  put-AllEnd (q ∷ qs) (suc k) item all p = (all.0, put-AllEnd qs k item all.1 p)

  set-AllEnd :
      (qs : List (List Item)) (k : ℕ) (q : List Item)
      → All (All EndsWell) qs
      → All EndsWell q
      → All (All EndsWell) (set qs k q)
  set-AllEnd [] k q all p = tt
  set-AllEnd (p ∷ qs) zero q all ends = (ends, all.1)
  set-AllEnd (p ∷ qs) (suc k) q all ends = (all.0, set-AllEnd qs k q all.1 ends)

  head-AllEnd :
      (qs : List (List Item)) (k : ℕ) (q : List Item)
      → All (All EndsWell) qs
      → get_elem? qs k ≡ some q
      → All EndsWell q
  head-AllEnd [] k q all e = cc
  head-AllEnd (p ∷ qs) zero q all e = let same : p ≡ q = cc in subst (All EndsWell) same all.0
  head-AllEnd (p ∷ qs) (suc k) q all e = head-AllEnd qs k q all.1 e

  advanced-EndsWell :
      (left : List ℕ) (item : Item)
      → item.left ≡ left
      → EndsWell item
      → EndsWell (advanced left item)
  unfolding EndsWell
  advanced-EndsWell [] item is_left ends = ends
  advanced-EndsWell (s ∷ ss) item is_left ends = rw is_left at ends

  work-AllEnd :
      (r : Ring) (k : ℕ) (item : Item) (rest : List Item)
      → AllEnd r
      → get_elem? r.queues k ≡ some (item ∷ rest)
      → AllEnd (work k item rest r)
  unfolding work
  work-AllEnd r k item rest all at =
      let ends = head-AllEnd r.queues k (item ∷ rest) all.queues_end at in
      record {
        unsent_end = all.unsent_end;
        queues_end =
            put-AllEnd (set r.queues k rest) ((k + 1) % length r.queues) (advanced item.left item)
              (set-AllEnd r.queues k rest all.queues_end ends.1)
              (advanced-EndsWell item.left item refl ends.0);
        finished_end = all.finished_end;
      }

  supervise-AllEnd :
      (left : List ℕ) (r : Ring) (k : ℕ) (item : Item) (rest : List Item)
      → item.left ≡ left
      → AllEnd r
      → get_elem? r.queues k ≡ some (item ∷ rest)
      → AllEnd (supervise left k item rest r)
  unfolding supervise EndsWell
  supervise-AllEnd [] r k item rest is_left all at =
      let ends = head-AllEnd r.queues k (item ∷ rest) all.queues_end at in
      let done : P (item.document, item.size) = rw is_left at ends.0 in
      record {
        unsent_end = all.unsent_end;
        queues_end = set-AllEnd r.queues k rest all.queues_end ends.1;
        finished_end = All-append P r.finished _ all.finished_end (done, tt);
      }
  supervise-AllEnd (s ∷ ss) r k item rest is_left all at = work-AllEnd r k item rest all at

  send-AllEnd :
      (r : Ring) (item : Item) (items : List Item)
      → r.unsent ≡ item ∷ items
      → AllEnd r
      → AllEnd (record r {
        unsent = items;
        queues = put r.queues (item.document % length r.queues) item;
      })
  send-AllEnd r item items is_unsent all =
      let ends : All EndsWell (item ∷ items) = subst (All EndsWell) is_unsent all.unsent_end in
      record {
        unsent_end = ends.1;
        queues_end =
            put-AllEnd r.queues (item.document % length r.queues) item all.queues_end ends.0;
        finished_end = all.finished_end;
      }

  Step-AllEnd : {capacity : ℕ} {r s : Ring} → Step capacity r s → AllEnd r → AllEnd s
  Step-AllEnd (send r item items is_unsent room) all = send-AllEnd r item items is_unsent all
  Step-AllEnd (worker r k item rest inside at room) all = work-AllEnd r k item rest all at
  Step-AllEnd (supervisor r k item rest sent last at room) all =
      supervise-AllEnd item.left r k item rest refl all at

  Steps-AllEnd : {capacity c : ℕ} {r s : Ring} → Steps capacity c r s → AllEnd r → AllEnd s
  Steps-AllEnd here all = all
  Steps-AllEnd (next step steps) all = Steps-AllEnd steps (Step-AllEnd step all)

  begin-AllEnd : (n : ℕ) (items : List Item) → All EndsWell items → AllEnd (begin n items)
  unfolding begin
  begin-AllEnd n items ends = record {
    unsent_end = ends;
    queues_end = empty_queues n;
    finished_end = tt;
  }
    where
      empty_queues : (m : ℕ) → All (All EndsWell) (replicate m [])
      empty_queues zero = tt
      empty_queues (suc m) = (tt, empty_queues m)

end_of-append : (ss : List ℕ) (m size : ℕ) → end_of (ss ++ (m ∷ [])) size ≡ m
end_of-append [] m size = refl
end_of-append (s ∷ ss) m size = end_of-append ss m s

sequence_iterator-end :
    (max_size : ℕ) (ss : List ℕ) → sequence_iterator max_size ≡ ok ss → end_of ss 0 ≡ max_size
unfolding sequence_iterator
sequence_iterator-end max_size ss e =
    let (below, _, made) = Prelude.>>=-eq-ok (sizes_below max_size sizes) _ e in
    let same : below ++ (max_size ∷ []) ≡ ss = cc in rw (← same) (end_of-append below max_size 0)

sizes_below-Others :
    (max_size : ℕ) (ss below : List ℕ)
    → sizes_below max_size ss ≡ ok below
    → All (λ s. s ≢ max_size) below
unfolding sizes_below
sizes_below-Others max_size [] below e = cc
sizes_below-Others max_size (s ∷ ss) below e = elim (Bool-cases (s == max_size)) [
  | inl found ↦
      let same : [] ≡ below = (cc (rw found at e)) in subst (All (λ s. s ≢ max_size)) same tt
  | inr other ↦
      let (rest, made, last) = Prelude.>>=-eq-ok (sizes_below max_size ss) _ (rw other at e) in
      let same : s ∷ rest ≡ below = cc in
      let differs : s ≢ max_size = (λ h. absurd (ground (arith, h))) in
      subst (All (λ s. s ≢ max_size)) same (differs, sizes_below-Others max_size ss rest made)
]

chosen-Other :
    (max_size : ℕ) (sizes : List ℕ) (i : ℕ) (o : Option ℕ) (ss : List ℕ)
    → All (λ s. s ≢ max_size) sizes
    → get_elem? sizes i ≡ o
    → chosen o ≡ ok ss
    → end_of ss 0 ≢ max_size
chosen-Other max_size sizes i none ss others at e = cc
chosen-Other max_size [] i (some size) ss others at e = cc
chosen-Other max_size (s ∷ sizes) zero (some size) ss others at e =
    let same : s ≡ size = cc in λ h. others.0 (same ∙ (sym (sequence_iterator-end size ss e) ∙ h))
chosen-Other max_size (s ∷ sizes) (suc i) (some size) ss others at e =
    chosen-Other max_size sizes i (some size) ss others.1 at e

frozen_at-Other :
    (max_size draw : ℕ) (below ss : List ℕ)
    → All (λ s. s ≢ max_size) below
    → frozen_at draw below ≡ ok ss
    → end_of ss 0 ≢ max_size
frozen_at-Other max_size draw [] ss others e = cc
frozen_at-Other max_size draw (s ∷ below) ss others e =
    chosen-Other max_size (s ∷ below) (draw % suc (length below)) _ ss others refl e

-- The size is the largest one if, and only if, the document is not frozen.
pub IsFrozenRight : ℕ → (ℕ → Option ℕ) → ℕ × ℕ → Type 0
IsFrozenRight max_size freeze d = (d.1 ≡ max_size) ↔ (freeze d.0 ≡ none)

build_generator-end :
    (max_size : ℕ) (f : Option ℕ) (ss : List ℕ)
    → build_generator max_size f ≡ ok ss
    → (end_of ss 0 ≡ max_size) ↔ (f ≡ none)
unfolding build_generator
build_generator-end max_size none ss e = ((λ _. refl), λ _. sequence_iterator-end max_size ss e)
build_generator-end max_size (some draw) ss e =
    let (below, made, rest) = Prelude.>>=-eq-ok (sizes_below max_size sizes) _ e in
    let other =
      frozen_at-Other max_size draw below ss (sizes_below-Others max_size sizes below made) rest in
    ((λ h. absurd (other h)), λ h. cc)

new_items-EndsWell :
    (max_size : ℕ) (freeze : ℕ → Option ℕ) (ds : List (ℕ × ℕ)) (items : List Item)
    → new_items (λ i. build_generator max_size (freeze i)) ds ≡ ok items
    → All (EndsWell (IsFrozenRight max_size freeze)) items
unfolding new_items EndsWell IsFrozenRight
new_items-EndsWell max_size freeze [] items e = let same : [] ≡ items = cc in rw (← same) tt
new_items-EndsWell max_size freeze (d ∷ ds) items e =
    let (ss, generated, rest_made) =
      Prelude.>>=-eq-ok (build_generator max_size (freeze d.0)) _ e in
    let (rest, made, last) =
      Prelude.>>=-eq-ok (new_items (λ i. build_generator max_size (freeze i)) ds) _ rest_made in
    let same : record { document = d.0; left = ss; size = 0 } ∷ rest ≡ items = cc in
    subst (All (EndsWell (IsFrozenRight max_size freeze))) same (
      build_generator-end max_size (freeze d.0) ss generated,
      new_items-EndsWell max_size freeze ds rest made,
    )

abbrev pub is_free : Option ℕ → Bool
is_free none = true
is_free (some draw) = false

-- The documents that the policy has not frozen.
pub unfrozen : (ℕ → Option ℕ) → List (ℕ × ℕ) → List (ℕ × ℕ)
unfrozen freeze [] = []
unfrozen freeze (d ∷ ds) =
    let rest = unfrozen freeze ds in if is_free (freeze d.0) then d ∷ rest else rest

not_frozen-unfrozen :
    (max_size : ℕ) (freeze : ℕ → Option ℕ) (ds : List (ℕ × ℕ))
    → All (IsFrozenRight max_size freeze) ds
    → not_frozen max_size ds ≡ unfrozen freeze ds
unfolding not_frozen unfrozen IsFrozenRight
not_frozen-unfrozen max_size freeze [] right = refl
not_frozen-unfrozen max_size freeze (d ∷ ds) right =
    let rest = not_frozen-unfrozen max_size freeze ds right.1 in
    elim (Prelude.Option-cases (freeze d.0)) [
      | inl free ↦
          let largest : (d.1 == max_size) ≡ true = rw (right.0.1 free) (ground arith) in
          rw (free, largest, rest) refl
      | inr (draw, frozen) ↦ elim (Bool-cases (d.1 == max_size)) [
        | inl same ↦ absurd (cc (right.0.0 (ground (arith, same)), frozen))
        | inr other ↦ rw (frozen, other, rest) refl
      ]
    ]

-- In whatever order the processes run: of the documents that have finished an iteration, those are at
-- the largest size that the policy has not frozen; and exactly these, in the order in which they have
-- finished, are kept for the next iteration.
pub finished-IsFrozenRight :
    (capacity num_workers max_size : ℕ) (freeze : ℕ → Option ℕ) (ds : List (ℕ × ℕ))
    {items : List Item} {c : ℕ} {r : Ring}
    → new_items (λ i. build_generator max_size (freeze i)) ds ≡ ok items
    → Steps capacity c (begin num_workers items) r
    → All (IsFrozenRight max_size freeze) r.finished
      × (not_frozen max_size r.finished ≡ unfrozen freeze r.finished)
finished-IsFrozenRight capacity n max_size freeze ds {items} {c} {r} made steps =
    let ends = new_items-EndsWell max_size freeze ds items made in
    let right =
      (Steps-AllEnd (IsFrozenRight max_size freeze) steps
        (begin-AllEnd (IsFrozenRight max_size freeze) n items ends)).finished_end in
    (right, not_frozen-unfrozen max_size freeze r.finished right)
