-- ===== src/Cluster/Formation/Joining.antt =====
-- About the loops over the clusters in `add_nodes` and `rebalance` (perfrunner/helpers/cluster.py).
use perfrunner.Prelude.{
  ℕ, zero, suc, ◌-◌, ◌<◌, ◌≡◌, refl, sym, ◌∙◌, false, List, [], ◌∷◌, ◌++◌, map, arith,
  if◌then◌else◌, take, All, All-take,
}
use mathlib.Core.List.{append_assoc, append-nil}
use perfrunner.Prelude.Int.{pos, ltb_ℤ}
use perfrunner.Text.{Text, eq_text}
use perfrunner.Config.{Options, first_server}
use perfrunner.Config.Hosts.{Absent, Distinct}
use perfrunner.Rebalance.{py_slice}
use perfrunner.Cluster.{
  add_node, rebalance, monitor_rebalance, Run, ◌>>=◌, ◌>>◌, return, lift, for_each,
}
use perfrunner.Cluster.Nodes.{add_each, add_nodes_to, rebalance_each}
use perfrunner.Cluster.Formation.{
  ClusterService, serve_all, serve_all-append, Formed, Alone, IsOffered, Accepted,
}
use perfrunner.Cluster.Formation.Groups.{
  whole, wholes, all_of, All-split, Distinct-split, Absent-swap, Absent-behind, Distinct-take,
  Absent-each, Absent-take,
}

module _ (w : ClusterService) where
  open w use {State, members, serve, accepts_node, accepts_rebalance, accepts_wait}

  pub Accepted-then :
      (P Q : State → Type 0) (s : State) (r q : Run (Unit {0}))
      → Accepted w s r P
      → ((t : State) → P t → Accepted w t q Q)
      → Accepted w s (r >> q) Q
  Accepted-then P Q s r q (cs, t, e, served, p) next =
      let (ds, u, f, served', p') = next t p in
      (cs ++ ds, u, (rw (e, f) refl), serve_all-append w cs ds s served ∙ served', p')

  Accepted-none : (P : State → Type 0) (s : State) → P s → Accepted w s (return tt) P
  unfolding serve_all
  Accepted-none P s p = ([], s, refl, refl, p)

  -- The members of `host` are those of `s` and `xs`; the clusters of other nodes are left alone.
  abbrev Grown : Text → List Text → State → State → Type 0
  Grown host xs s t =
      (members t host ≡ members s host ++ xs)
      × ((h : Text) → Absent h (members s host ++ xs) → members t h ≡ members s h)

  Alone-kept :
      (s t : State) (old xs : List Text)
      → ((h : Text) → Absent h old → members t h ≡ members s h)
      → All (λ x. Absent x old) xs
      → Alone w s xs
      → Alone w t xs
  unfolding Alone
  Alone-kept s t old [] same apart alone = tt
  Alone-kept s t old (x ∷ xs) same apart alone =
      (same x apart.0 ∙ alone.0, Alone-kept s t old xs same apart.1 alone.1)

  add_each-Accepted :
      (items : Options) (host : Text) (old xs : List Text) (s : State)
      → members s host ≡ host ∷ old
      → All (IsOffered w items) xs
      → Distinct xs
      → All (λ x. Absent x (members s host)) xs
      → Alone w s xs
      → Accepted w s (add_each items host xs) (Grown host xs s)
  unfolding add_each for_each serve_all IsOffered Alone
  add_each-Accepted items host old [] s first known distinct absent alone =
      ([], s, refl, refl, (sym (append-nil _), λ h _. refl))
  add_each-Accepted items host old (x ∷ xs) s first known distinct absent alone =
      let (services, read, offered) = known.0 in
      let (u, served, grown, others) =
        accepts_node s host x services old first absent.0 alone.0 offered in
      let behind = Absent-behind x (members s host) xs absent.1 distinct.0 in
      let (cs, t, e, served', (grown', others')) =
        add_each-Accepted items host (old ++ (x ∷ [])) xs u (rw (grown, first) refl) known.1
          distinct.1 (rw grown behind)
          (Alone-kept s u (members s host ++ (x ∷ [])) xs others behind alone.1) in
      let all = append_assoc (members s host) (x ∷ []) xs in
      (
        add_node host x services ∷ cs,
        t,
        (rw (read, e) refl),
        (rw served served'),
        (
          grown' ∙ (rw grown all),
          λ h absent_h.
              let split_up : Absent h ((members s host ++ (x ∷ [])) ++ xs) = rw all absent_h in
              let both =
                All-split (λ k. eq_text h k ≡ false) (members s host ++ (x ∷ [])) xs split_up in
              others' h (rw grown split_up) ∙ others h both.0,
        ),
      )

  -- A formed state stays one while the members are the same.
  pub Formed-same :
      (s t : State) (ps : List (Text × List Text)) (ns : List ℕ)
      → ((h : Text) → members t h ≡ members s h)
      → Formed w s (wholes ps) (map pos ns)
      → Formed w t (wholes ps) (map pos ns)
  unfolding Formed
  Formed-same s t [] ns same formed = tt
  Formed-same s t (p ∷ ps) [] same formed = tt
  Formed-same s t (p ∷ ps) (n ∷ ns) same formed =
      (same p.0 ∙ formed.0, Formed-same s t ps ns same formed.1)

  pub rebalance_each-Accepted :
      (ps : List (Text × List Text)) (ns : List ℕ) (s : State)
      → Formed w s (wholes ps) (map pos ns)
      → Accepted w s
          (rebalance_each (wholes ps) (map pos ns))
          (λ t. (h : Text) → members t h ≡ members s h)
  unfolding rebalance_each serve_all Formed
  rebalance_each-Accepted [] ns s formed = ([], s, refl, refl, λ h. refl)
  rebalance_each-Accepted (p ∷ ps) [] s formed = ([], s, refl, refl, λ h. refl)
  rebalance_each-Accepted (p ∷ ps) (n ∷ ns) s formed =
      let width : n - 0 ≡ n = omega arith in
      let (u, served, same) =
        accepts_rebalance s p.0 (take (n - 0) (whole p)) (rw width formed.0) in
      let (cs, t, e, served', same') =
        rebalance_each-Accepted ps ns u (Formed-same s u ps ns same formed.1) in
      (
        rebalance p.0 (take (n - 0) (whole p)) [] ∷ monitor_rebalance p.0 ∷ cs,
        t,
        (rw e refl),
        (rw (served, accepts_wait u p.0) served'),
        λ h. same' h ∙ same h,
      )

  -- The clusters of other nodes are those of `s`.
  abbrev pub LeavesOthers : List Text → State → State → Type 0
  LeavesOthers xs s t = (h : Text) → Absent h xs → members t h ≡ members s h

  -- One cluster: the first servers join the master.
  grow-Accepted :
      (items : Options) (h : Text) (rest : List Text) (n : ℕ) (s : State)
      → All (IsOffered w items) rest
      → Distinct (h ∷ rest)
      → Alone w s (h ∷ rest)
      → 0 < n
      → Accepted w s
          (if ltb_ℤ (pos n) (pos 2)
            then return tt
            else (lift (first_server (h ∷ rest)) >>= λ master.
                add_each items master (py_slice (pos 1) (pos n) (h ∷ rest))))
          λ t. (members t h ≡ take n (h ∷ rest)) × LeavesOthers (h ∷ rest) s t
  unfolding py_slice Alone
  grow-Accepted items h rest zero s known distinct alone p = absurd (omega arith)
  grow-Accepted items h rest (suc zero) s known distinct alone p =
      Accepted-none _ s (alone.0, λ k _. refl)
  grow-Accepted items h rest (suc (suc k)) s known distinct alone p =
      let low : ltb_ℤ (pos (suc (suc k))) (pos 2) ≡ false = ground arith in
      let width : suc (suc k) - 1 ≡ suc k = omega arith in
      let xs = take (suc k) rest in
      let (cs, t, e, served, (grown, others)) =
        add_each-Accepted items h [] xs s (alone.0)
          (All-take (IsOffered w items) (suc k) rest known) (Distinct-take (suc k) rest distinct.1)
          (rw (alone.0)
            (Absent-each h xs (All-take (λ y. eq_text h y ≡ false) (suc k) rest distinct.0)))
          (All-take (λ y. members s y ≡ y ∷ []) (suc k) rest alone.1) in
      rw (low, width)
        (
          cs,
          t,
          e,
          served,
          (
            rw (grown, alone.0) refl,
            λ j absent. others j (rw (alone.0) (absent.0, Absent-take j (suc k) rest absent.1)),
          ),
        )

  abbrev pub Joined : List (Text × List Text) → List ℕ → State → State → Type 0
  Joined ps ns s t = Formed w t (wholes ps) (map pos ns) × LeavesOthers (all_of ps) s t

  pub add_nodes_to-Accepted :
      (items : Options) (ps : List (Text × List Text)) (ns : List ℕ) (s : State)
      → All (IsOffered w items) (all_of ps)
      → Distinct (all_of ps)
      → Alone w s (all_of ps)
      → All (λ n. 0 < n) ns
      → Accepted w s (add_nodes_to items (wholes ps) (map pos ns)) (Joined ps ns s)
  unfolding add_nodes_to Formed Alone
  add_nodes_to-Accepted items [] ns s known distinct alone positive =
      Accepted-none _ s (tt, λ h _. refl)
  add_nodes_to-Accepted items (p ∷ ps) [] s known distinct alone positive =
      Accepted-none _ s (tt, λ h _. refl)
  add_nodes_to-Accepted items (p ∷ ps) (n ∷ ns) s known distinct alone positive =
      let (here, there) = All-split (IsOffered w items) (whole p) (all_of ps) known in
      let (own, later, apart) = Distinct-split (whole p) (all_of ps) distinct in
      let (alone_here, alone_there) =
        All-split (λ h. members s h ≡ h ∷ []) (whole p) (all_of ps) alone in
      Accepted-then (λ t. (members t p.0 ≡ take n (whole p)) × LeavesOthers (whole p) s t)
        (Joined (p ∷ ps) (n ∷ ns) s) s _ _
        (grow-Accepted items p.0 p.1 n s here.1 own alone_here positive.0)
        λ t (grown, others).
          let (cs, u, e, served, (formed, same)) =
            add_nodes_to-Accepted items ps ns t there later
              (Alone-kept s t (whole p) (all_of ps) others (Absent-swap (whole p) (all_of ps) apart)
                alone_there)
              positive.1 in
          (
            cs,
            u,
            e,
            served,
            (
              (same p.0 apart.0 ∙ grown, formed),
              λ h absent.
                  let both = All-split (λ k. eq_text h k ≡ false) (whole p) (all_of ps) absent in
                  same h both.1 ∙ others h both.0,
            ),
          )
