-- ===== src/Rebalance/Nodes.antt =====
-- The nodes of a cluster before and after a rebalance.
use perfrunner.Prelude.{
  ℕ, zero, suc, ◌+◌, ◌-◌, ◌≤◌, ◌<◌, ◌≡◌, refl, sym, ap, List, [], ◌∷◌, ◌++◌, some, arith, ltb, ◌==◌,
  if◌then◌else◌, Bool-cases, inl, inr, length, length-take, length-slice, take, drop, slice,
}
use perfrunner.Prelude.Int.{pos, ◌-ℤ◌, pos--ℤ}
use mathlib.Core.Path.{subst}
use perfrunner.Text.{Text}
use perfrunner.Rebalance.{Plan, rebalance_plan, py_slice}

pub take_nil : {A : Type 0} (n : ℕ) → take {A = A} n [] ≡ []
take_nil zero = refl
take_nil (suc n) = refl

-- Two parts that follow each other.
take-drop : {A : Type 0} (a c : ℕ) (xs : List A) → take a xs ++ take c (drop a xs) ≡ take (a + c) xs
take-drop zero c xs = let e : 0 + c ≡ c = omega arith in rw e refl
take-drop (suc a) c [] = let e : suc a + c ≡ suc (a + c) = omega arith in rw (e, take_nil c) refl
take-drop (suc a) c (x ∷ xs) =
    let e : suc a + c ≡ suc (a + c) = omega arith in rw e (ap (λ ys. x ∷ ys) (take-drop a c xs))

take-slice : {A : Type 0} (a b : ℕ) (xs : List A) → a ≤ b → take a xs ++ slice a b xs ≡ take b xs
take-slice a b xs h = let e : a + (b - a) ≡ b = omega arith in rw e at (take-drop a (b - a) xs)

-- The plan tells the cluster of the nodes that it has and of the new ones; it ejects the last `gone`
-- of those that it had; and it leaves `after` nodes.
abbrev pub Splits : List Text → ℕ → ℕ → ℕ → Plan → Type 0
Splits servers initial after gone p =
    (p.known_nodes ≡ take initial servers ++ p.new_nodes)
    × (take (initial - gone) servers ++ p.ejected_nodes ≡ take initial servers)
    × (length p.known_nodes ≡ after + length p.ejected_nodes)

-- How many of the nodes leave.
abbrev pub leaving : ℕ → ℕ → ℕ → ℕ
leaving initial_nodes nodes_after swap =
    if ltb initial_nodes nodes_after
    then 0
    else if ltb nodes_after initial_nodes
    then initial_nodes - nodes_after
    else swap

append_nil : {A : Type 0} (xs : List A) → xs ++ [] ≡ xs
append_nil [] = refl
append_nil (x ∷ xs) = ap (λ ys. x ∷ ys) (append_nil xs)

module _ (servers : List Text) (initial after swap : ℕ) where
  rebalance_in :
      initial < after
      → after ≤ length servers
      → Splits servers initial after 0 (record {
        new_nodes = slice initial after servers;
        known_nodes = take after servers;
        ejected_nodes = [];
      })
  rebalance_in h room =
      let e : initial - 0 ≡ initial = omega arith in
      (
        sym (take-slice initial after servers (omega arith)),
        (rw (e, append_nil) refl),
        omega (arith, length-take after servers),
      )

  rebalance_out :
      after < initial
      → initial ≤ length servers
      → Splits servers initial after (initial - after) (record {
        new_nodes = [];
        known_nodes = take initial servers;
        ejected_nodes = slice after initial servers;
      })
  rebalance_out h room =
      let e : initial - (initial - after) ≡ after = omega arith in
      (
        sym (append_nil (take initial servers)),
        (rw e (take-slice after initial servers (omega arith))),
        omega (
          arith,
          length-take initial servers,
          length-slice after initial servers (omega arith) room,
        ),
      )

  rebalance_swap :
      after ≡ initial
      → swap ≤ initial
      → initial + swap ≤ length servers
      → Splits servers initial after swap (record {
        new_nodes = slice initial (initial + swap) servers;
        known_nodes = take (initial + swap) servers;
        ejected_nodes = py_slice (pos initial -ℤ pos swap) (pos initial) servers;
      })
  unfolding py_slice
  rebalance_swap same few room = rw (pos--ℤ initial swap few) (
    sym (take-slice initial (initial + swap) servers (omega arith)),
    take-slice (initial - swap) initial servers (omega arith),
    omega (
      arith,
      length-take (initial + swap) servers,
      length-slice (initial - swap) initial servers (omega arith) (omega arith),
    ),
  )

  -- If there are enough servers, and no more nodes are swapped than there are, a rebalance tells
  -- the cluster of the nodes that it has and of the new ones, in order; it ejects the last ones of
  -- those that the cluster had; and it leaves the wanted number of nodes.
  pub rebalance_plan-Splits :
      (p : Plan)
      → rebalance_plan servers initial after swap ≡ some p
      → swap ≤ initial
      → initial + swap ≤ length servers
      → after ≤ length servers
      → Splits servers initial after (leaving initial after swap) p
  unfolding rebalance_plan
  rebalance_plan-Splits p e few room room' = elim (Bool-cases (ltb initial after)) [
    | inl more ↦
        let same : record {
          new_nodes = slice initial after servers;
          known_nodes = take after servers;
          ejected_nodes = [];
        }
            ≡ p =
          cc (rw more at e) in
        rw more (subst (Splits servers initial after 0) same (rebalance_in (ground arith) room'))
    | inr not_more ↦ elim (Bool-cases (ltb after initial)) [
      | inl fewer ↦
          let same : record {
            new_nodes = [];
            known_nodes = take initial servers;
            ejected_nodes = slice after initial servers;
          }
              ≡ p =
            cc (rw (not_more, fewer) at e) in
          rw (not_more, fewer)
            (subst (Splits servers initial after (initial - after)) same
              (rebalance_out (ground arith) (omega arith)))
      | inr not_fewer ↦ elim (Bool-cases (swap == 0)) [
        | inl none_swapped ↦ absurd (cc (rw (not_more, not_fewer, none_swapped) at e))
        | inr some_swapped ↦
            let same : record {
              new_nodes = slice initial (initial + swap) servers;
              known_nodes = take (initial + swap) servers;
              ejected_nodes = py_slice (pos initial -ℤ pos swap) (pos initial) servers;
            }
                ≡ p =
              cc (rw (not_more, not_fewer, some_swapped) at e) in
            rw (not_more, not_fewer)
              (subst (Splits servers initial after swap) same
                (rebalance_swap (ground arith) few room))
      ]
    ]
  ]
