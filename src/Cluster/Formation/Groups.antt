-- ===== src/Cluster/Formation/Groups.antt =====
-- About lists of servers, and clusters as a master with its other servers
-- (perfrunner/helpers/cluster.py).
use perfrunner.Prelude.{
  ℕ, zero, suc, ◌≡◌, false, List, [], ◌∷◌, ◌++◌, ok, take, All, All-append, All-take,
}
use perfrunner.Text.{Text, eq_text}
use perfrunner.Text.Equality.{eq_text_sym}
use perfrunner.Config.{first_server}
use perfrunner.Config.Hosts.{Absent, Distinct}
use perfrunner.Cluster.Steps.{flat}

pub first_server-cases :
    (ss : List Text) (m : Text) → first_server ss ≡ ok m → (rest : List Text) × (ss ≡ m ∷ rest)
first_server-cases [] m h = cc
first_server-cases (s ∷ ss) m h = (ss, (cc))

-- A cluster as its master and its other servers.
abbrev pub whole : Text × List Text → List Text
whole p = p.0 ∷ p.1

abbrev pub heads : List (Text × List Text) → List Text
heads [] = []
heads (p ∷ ps) = p.0 ∷ heads ps

abbrev pub wholes : List (Text × List Text) → List (List Text)
wholes [] = []
wholes (p ∷ ps) = whole p ∷ wholes ps

abbrev pub all_of : List (Text × List Text) → List Text
all_of ps = flat (λ (ss : List Text). ss) (wholes ps)

pub All-split :
    {A : Type 0} (P : A → Type 0) (xs ys : List A) → All P (xs ++ ys) → All P xs × All P ys
All-split P [] ys h = (tt, h)
All-split P (x ∷ xs) ys h = let (a, b) = All-split P xs ys h.1 in ((h.0, a), b)

pub Distinct-split :
    (xs ys : List Text)
    → Distinct (xs ++ ys)
    → Distinct xs × Distinct ys × All (λ x. Absent x ys) xs
Distinct-split [] ys h = (tt, h, tt)
Distinct-split (x ∷ xs) ys h =
    let (a, b) = All-split (λ k. eq_text x k ≡ false) xs ys h.0 in
    let (c, d, e) = Distinct-split xs ys h.1 in ((a, c), d, (b, e))

All-cons_each :
    (x : Text) (xs ys : List Text)
    → Absent x ys
    → All (λ y. Absent y xs) ys
    → All (λ y. Absent y (x ∷ xs)) ys
All-cons_each x xs [] h k = tt
All-cons_each x xs (y ∷ ys) h k = ((eq_text_sym x y h.0, k.0), All-cons_each x xs ys h.1 k.1)

All-nothing : (ys : List Text) → All (λ y. Absent y []) ys
All-nothing [] = tt
All-nothing (y ∷ ys) = (tt, All-nothing ys)

-- What is apart from others is so from their side too.
pub Absent-swap : (xs ys : List Text) → All (λ x. Absent x ys) xs → All (λ y. Absent y xs) ys
Absent-swap [] ys h = All-nothing ys
Absent-swap (x ∷ xs) ys h = All-cons_each x xs ys h.0 (Absent-swap xs ys h.1)

-- Behind `x`, the others are absent still.
pub Absent-behind :
    (x : Text) (old xs : List Text)
    → All (λ y. Absent y old) xs
    → Absent x xs
    → All (λ y. Absent y (old ++ x ∷ [])) xs
Absent-behind x old [] h k = tt
Absent-behind x old (y ∷ ys) h k = (
  All-append (λ z. eq_text y z ≡ false) old (x ∷ []) h.0 (eq_text_sym x y k.0, tt),
  Absent-behind x old ys h.1 k.1,
)

pub Absent-take : (x : Text) (n : ℕ) (xs : List Text) → Absent x xs → Absent x (take n xs)
Absent-take x n xs h = All-take (λ k. eq_text x k ≡ false) n xs h

pub Distinct-take : (n : ℕ) (xs : List Text) → Distinct xs → Distinct (take n xs)
Distinct-take zero xs h = tt
Distinct-take (suc n) [] h = tt
Distinct-take (suc n) (x ∷ xs) h = (Absent-take x n xs h.0, Distinct-take n xs h.1)

pub Absent-each : (h : Text) (xs : List Text) → Absent h xs → All (λ x. Absent x (h ∷ [])) xs
Absent-each h [] a = tt
Absent-each h (x ∷ xs) a = ((eq_text_sym h x a.0, tt), Absent-each h xs a.1)
