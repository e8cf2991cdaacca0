-- ===== src/Cluster/Access.antt =====
-- About the audit of perfrunner/helpers/cluster.py.
use perfrunner.Prelude.{
  ℕ, Bool, map, ◌==◌, ◌||◌, ◌∙◌, ◌≡◌, refl, true, false, not, ◌&&◌, List, [], ◌∷◌, Bool-cases, inl,
  inr, arith,
}
use perfrunner.Text.{Text, eq_text, render}
use perfrunner.Text.Decimal.{render-injective}
use perfrunner.Config.Hosts.{Absent, Distinct}
use perfrunner.Text.Equality.{eq_text-eq, eq_text_refl}
use perfrunner.Text.Words.{is_member}
use perfrunner.Cluster.{Answers}
use perfrunner.Cluster.Users.{
  as_set, difference, gen_disabled_audit_events, is_empty, disabled_events,
}

is_member-as_set : (e : Text) (ts : List Text) → is_member e (as_set ts) ≡ is_member e ts
unfolding as_set is_member
is_member-as_set e [] = refl
is_member-as_set e (t ∷ ts) = elim (Bool-cases (is_member t ts)) [
  | inr new ↦ rw (new, is_member-as_set e ts) refl
  | inl old ↦ rw old (elim (Bool-cases (eq_text e t)) [
    | inl same ↦
        let here : e ≡ t = eq_text-eq e t same in
        let there : is_member e ts ≡ true = rw here old in
        rw (is_member-as_set e ts, same, there) refl
    | inr other ↦ rw (is_member-as_set e ts, other) refl
  ])
]

is_member-difference :
    (e : Text) (ts us : List Text)
    → is_member e (difference ts us) ≡ (is_member e ts && not (is_member e us))
unfolding difference is_member
is_member-difference e [] us = refl
is_member-difference e (t ∷ ts) us = elim (Bool-cases (eq_text e t)) [
  | inl same ↦
      let here : e ≡ t = eq_text-eq e t same in
      elim (Bool-cases (is_member t us)) [
        | inl extra ↦
            let gone : is_member e us ≡ true = rw here extra in
            rw (extra, is_member-difference e ts us, gone, same) (ground arith)
        | inr kept ↦
            let stays : is_member e us ≡ false = rw here kept in rw (kept, same, stays) refl
      ]
  | inr other ↦ elim (Bool-cases (is_member t us)) [
    | inl extra ↦ rw (extra, is_member-difference e ts us, other) refl
    | inr kept ↦ rw (kept, other, is_member-difference e ts us) refl
  ]
]

-- Whether a number is in a list.
pub has_id : ℕ → List ℕ → Bool
has_id e [] = false
has_id e (d ∷ ds) = (e == d) || has_id e ds

eq_text-render : (e d : ℕ) → eq_text (render 10 e) (render 10 d) ≡ (e == d)
eq_text-render e d = elim (Bool-cases (eq_text (render 10 e) (render 10 d))) [
  | inl same ↦
      let here : e ≡ d = render-injective e d (eq_text-eq _ _ same) in
      rw same (ground (arith, here))
  | inr other ↦ elim (Bool-cases (e == d)) [
    | inr differs ↦ rw (other, differs) refl
    | inl equal ↦
        let here : e ≡ d = ground (arith, equal) in
        let clash : eq_text (render 10 d) (render 10 d) ≡ false = rw here at other in
        absurd (cc (clash, eq_text_refl (render 10 d)))
  ]
]

-- The texts of numbers are those of the same numbers.
is_member-render :
    (e : ℕ) (ds : List ℕ) → is_member (render 10 e) (map (render 10) ds) ≡ has_id e ds
unfolding is_member has_id
is_member-render e [] = refl
is_member-render e (d ∷ ds) = rw (eq_text-render e d, is_member-render e ds) refl

no_member-Absent : (t : Text) (ts : List Text) → is_member t ts ≡ false → Absent t ts
unfolding is_member
no_member-Absent t [] h = tt
no_member-Absent t (u ∷ us) h = elim (Bool-cases (eq_text t u)) [
  | inl same ↦ absurd (cc (rw same at h))
  | inr other ↦ (other, no_member-Absent t us (rw other at h))
]

Distinct-as_set : (ts : List Text) → Distinct (as_set ts)
unfolding as_set
Distinct-as_set [] = tt
Distinct-as_set (t ∷ ts) = elim (Bool-cases (is_member t ts)) [
  | inl again ↦ rw again (Distinct-as_set ts)
  | inr new ↦
      rw new (no_member-Absent t (as_set ts) (is_member-as_set t ts ∙ new), Distinct-as_set ts)
]

Absent-difference : (t : Text) (ts us : List Text) → Absent t ts → Absent t (difference ts us)
unfolding difference
Absent-difference t [] us h = tt
Absent-difference t (s ∷ ts) us h = elim (Bool-cases (is_member s us)) [
  | inl extra ↦ rw extra (Absent-difference t ts us h.1)
  | inr kept ↦ rw kept (h.0, Absent-difference t ts us h.1)
]

Distinct-difference : (ts us : List Text) → Distinct ts → Distinct (difference ts us)
unfolding difference
Distinct-difference [] us h = tt
Distinct-difference (s ∷ ts) us h = elim (Bool-cases (is_member s us)) [
  | inl extra ↦ rw extra (Distinct-difference ts us h.1)
  | inr kept ↦ rw kept (Absent-difference s ts us h.0, Distinct-difference ts us h.1)
]

-- Where the audit of a server is enabled: without extra events none stays disabled; else exactly those
-- do that are disabled on the server, by their numbers, and are not among the extra events, each
-- once.
pub disabled_events-Exact :
    (answers : Answers) (extra_events : List Text) (master : Text)
    → ((event : ℕ)
        → is_member (render 10 event) (disabled_events answers extra_events master) ≡ (
            not (is_empty extra_events)
            && (has_id event (answers.audit_disabled master)
                && not (is_member (render 10 event) extra_events))))
      × Distinct (disabled_events answers extra_events master)
unfolding disabled_events gen_disabled_audit_events is_member
disabled_events-Exact answers [] master = ((λ event. refl), tt)
disabled_events-Exact answers (x ∷ xs) master =
    let ids = answers.audit_disabled master in
    (
      (λ event.
          is_member-difference (render 10 event) (as_set (map (render 10) ids)) (x ∷ xs)
          ∙ (rw
              (is_member-as_set (render 10 event) (map (render 10) ids), is_member-render event ids)
              refl)),
      Distinct-difference (as_set (map (render 10) ids)) (x ∷ xs)
          (Distinct-as_set (map (render 10) ids)),
    )
