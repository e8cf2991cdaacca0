-- ===== src/Config/Listed.antt =====
-- About which texts the views of the section [clusters] (perfrunner/settings.py) name.
use perfrunner.Prelude
use perfrunner.Prelude.{
  ◌≡◌, refl, Bool, true, false, List, [], ◌∷◌, ◌++◌, map, ok, inl, inr, All, All-append, All-mono,
  Bool-cases, ◌||◌, if◌then◌else◌,
}
use perfrunner.Text.{Text, eq_text}
use perfrunner.Text.Equality.{eq_text_refl}
use perfrunner.Text.Words.{is_member, is_infix, split}
use perfrunner.Config.{Options, clusters, servers, host_of, host_roles, with_role, servers_by_role}
use perfrunner.Config.Hosts.{host_of-host_roles}

-- The server stands in the specification.
abbrev pub Listed : Options → Text → Type 0
Listed items h = is_member h (servers items) ≡ true

member-left : (x : Text) (xs zs : List Text) → is_member x xs ≡ true → is_member x (xs ++ zs) ≡ true
unfolding is_member
member-left x [] zs h = cc
member-left x (y ∷ ys) zs h = elim (Bool-cases (eq_text x y)) [
  | inl same ↦ rw same refl
  | inr other ↦ rw other (member-left x ys zs (rw other at h))
]

member-right :
    (x : Text) (xs zs : List Text) → is_member x zs ≡ true → is_member x (xs ++ zs) ≡ true
unfolding is_member
member-right x [] zs h = h
member-right x (y ∷ ys) zs h = elim (Bool-cases (eq_text x y)) [
  | inl same ↦ rw same refl
  | inr other ↦ rw other (member-right x ys zs h)
]

members_self : (xs : List Text) → All (λ x. is_member x xs ≡ true) xs
unfolding is_member
members_self [] = tt
members_self (x ∷ xs) = (
  (rw (eq_text_refl x) refl),
  All-mono (λ y. is_member y xs ≡ true) (λ y. is_member y (x ∷ xs) ≡ true) xs (members_self xs)
      λ y h. member-right y (x ∷ []) xs h,
)

Listed-later :
    (name line : Text) (items : Options) (x : Text)
    → Listed items x
    → Listed ((name, line) ∷ items) x
unfolding servers
Listed-later name line items x h = member-right x (map host_of (split line)) (servers items) h

Listed-now :
    (name line : Text) (items : Options) (xs : List Text)
    → All (λ x. is_member x (map host_of (split line)) ≡ true) xs
    → All (Listed ((name, line) ∷ items)) xs
unfolding servers
Listed-now name line items xs h =
    All-mono _ (Listed ((name, line) ∷ items)) xs h
      λ x k. member-left x (map host_of (split line)) (servers items) k

-- The servers of the clusters are the servers of the specification.
pub clusters-Listed :
    (items : Options)
    → All (All (Listed items)) (map (λ (p : Text × List Text). p.1) (clusters items))
unfolding clusters
clusters-Listed [] = tt
clusters-Listed ((name, line) ∷ items) = (
  Listed-now name line items (map host_of (split line)) (members_self (map host_of (split line))),
  All-mono (All (Listed items)) (All (Listed ((name, line) ∷ items)))
      (map (λ (p : Text × List Text). p.1) (clusters items)) (clusters-Listed items)
      λ xs h.
        All-mono (Listed items) (Listed ((name, line) ∷ items)) xs h
          λ x k. Listed-later name line items x k,
)

with_role-Listed :
    (role : Text) (ws : List Text) {xs : List Text}
    → with_role role ws ≡ ok xs
    → All (λ x. is_member x (map host_of ws) ≡ true) xs
unfolding with_role is_member
with_role-Listed role [] {xs} h = let e : xs ≡ [] = cc in rw e tt
with_role-Listed role (w ∷ ws) {xs} h =
    let (hr, split_up, rest) = Prelude.>>=-eq-ok (host_roles w) _ h in
    let (later, more, last) = Prelude.>>=-eq-ok (with_role role ws) _ rest in
    let tail =
      All-mono (λ x. is_member x (map host_of ws) ≡ true)
        (λ x. is_member x (map host_of (w ∷ ws)) ≡ true) later (with_role-Listed role ws more)
        λ x k. member-right x (host_of w ∷ []) (map host_of ws) k in
    let same = host_of-host_roles w hr split_up in
    let head : is_member hr.0 (map host_of (w ∷ ws)) ≡ true = rw (same, eq_text_refl hr.0) refl in
    elim (Bool-cases (is_infix role hr.1)) [
      | inl has ↦ let e : xs ≡ hr.0 ∷ later = (cc (rw has at last)) in rw e (head, tail)
      | inr lacks ↦ let e : xs ≡ later = (cc (rw lacks at last)) in rw e tail
    ]

-- So are the servers with a role.
pub servers_by_role-Listed :
    (role : Text) (items : Options) {xs : List Text}
    → servers_by_role role items ≡ ok xs
    → All (Listed items) xs
unfolding servers_by_role
servers_by_role-Listed role [] {xs} h = let e : xs ≡ [] = cc in rw e tt
servers_by_role-Listed role ((name, line) ∷ items) {xs} h =
    let (now, first, rest) = Prelude.>>=-eq-ok (with_role role (split line)) _ h in
    let (later, more, last) = Prelude.>>=-eq-ok (servers_by_role role items) _ rest in
    let e : xs ≡ now ++ later = cc in
    rw e (
      All-append (Listed ((name, line) ∷ items)) now later
        (Listed-now name line items now (with_role-Listed role (split line) first))
        (All-mono (Listed items) (Listed ((name, line) ∷ items)) later
          (servers_by_role-Listed role items more) λ x k. Listed-later name line items x k))

pub servers-Listed : (items : Options) → All (Listed items) (servers items)
servers-Listed items = members_self (servers items)
