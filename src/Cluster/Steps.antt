-- ===== src/Cluster/Steps.antt =====
-- About runs that raise no exception: the calls of loops and of sequences.
use perfrunner.Prelude.{
  ◌≡◌, refl, sym, ap, ◌∙◌, List, [], ◌∷◌, ◌++◌, map, Result, ok, err, All, Result-cases, inl, inr,
}
use perfrunner.Prelude
use perfrunner.Text.{Text}
use perfrunner.Text.Words.{split}
use perfrunner.Config.{Options, clusters, masters, first_server, host_of, servers}
use perfrunner.Cluster.{Call, Run, ◌>>◌, for_each, for_masters, hosts}

abbrev pub done : List Call → Run (Unit {0})
done cs = record { calls = cs; outcome = ok tt }

abbrev pub flat : {A B : Type 0} → (A → List B) → List A → List B
flat f [] = []
flat f (x ∷ xs) = f x ++ flat f xs

pub done-then :
    (cs : List Call) (r : Run (Unit {0})) {ds : List Call}
    → r ≡ done ds
    → (done cs >> r) ≡ done (cs ++ ds)
done-then cs r h = rw h refl

-- A loop whose rounds all end well makes the calls of its rounds.
pub for_each-done :
    {A : Type 0} (f : A → Run (Unit {0})) (c : A → List Call) (xs : List A)
    → All (λ x. f x ≡ done (c x)) xs
    → for_each f xs ≡ done (flat c xs)
unfolding for_each
for_each-done f c [] h = refl
for_each-done f c (x ∷ xs) h = rw (h.0, for_each-done f c xs h.1) refl

pub All-always : {A : Type 0} (P : A → Type 0) (xs : List A) → ((x : A) → P x) → All P xs
All-always P [] h = tt
All-always P (x ∷ xs) h = (h x, All-always P xs h)

-- Where every cluster has a server, the loop over the masters is one over a list.
pub for_masters-eq-for_each :
    (f : Text → Run (Unit {0})) (items : Options) {ms : List Text}
    → masters items ≡ ok ms
    → for_masters f (hosts (clusters items)) ≡ for_each f ms
unfolding for_masters for_each masters clusters
for_masters-eq-for_each f [] {ms} h = let e : ms ≡ [] = cc in rw e refl
for_masters-eq-for_each f ((name, line) ∷ items) {ms} h =
    let (m, first, rest) = Prelude.>>=-eq-ok (first_server (map host_of (split line))) _ h in
    let (ns, others, last) = Prelude.>>=-eq-ok (masters items) _ rest in
    let e : ms ≡ m ∷ ns = cc in rw (first, e, for_masters-eq-for_each f items others) refl

-- The rounds of such a loop.
pub for_masters-done :
    (f : Text → Run (Unit {0})) (c : Text → List Call) (items : Options) {ms : List Text}
    → masters items ≡ ok ms
    → ((master : Text) → f master ≡ done (c master))
    → for_masters f (hosts (clusters items)) ≡ done (flat c ms)
for_masters-done f c items {ms} h k =
    for_masters-eq-for_each f items h
    ∙ for_each-done f c ms (All-always (λ x. f x ≡ done (c x)) ms k)

pub servers-flat :
    (items : Options) → servers items ≡ flat (λ (ss : List Text). ss) (hosts (clusters items))
unfolding servers clusters
servers-flat [] = refl
servers-flat ((name, line) ∷ items) = rw (servers-flat items) refl
