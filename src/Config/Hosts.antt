-- ===== src/Config/Hosts.antt =====
-- About the views of the section [clusters] (perfrunner/settings.py).
use perfrunner.Prelude.{
  ◌≡◌, refl, sym, ap, ◌∙◌, Bool, false, List, [], ◌∷◌, ◌++◌, map, Option, none, some, ok,
  if◌then◌else◌, Bool-cases, inl, inr, All, All-mono, ◌>>=◌, >>=-eq-ok, Result-cases,
}
use perfrunner.Text.{Text, eq_text}
use perfrunner.Text.Equality.{eq_text_refl}
use perfrunner.Text.Words.{split, split_on, is_infix}
use perfrunner.Config.{
  Options, lookup, insert, host_of, host_roles, servers, with_role, servers_by_role, add_roles,
  roles_from, roles, roles_of, first_piece, unpack,
}
use perfrunner.Config.Overrides.{lookup-insert}

-- No text of the list is `h`.
abbrev pub Absent : Text → List Text → Type 0
Absent h ks = All (λ k. eq_text h k ≡ false) ks

abbrev pub Distinct : List Text → Type 0
Distinct [] = Unit {0}
Distinct (h ∷ hs) = Absent h hs × Distinct hs

-- The hosts whose entry in a dictionary of roles names the role.
abbrev names_role : Text → Option Text → Bool
names_role role (some r) = is_infix role r
names_role role none = false

unfoldable pub has_role : Text → Options → Text → Bool
has_role role d h = names_role role (lookup h d)

unfoldable pub hosts_with : Text → Options → List Text → List Text
hosts_with role d [] = []
hosts_with role d (h ∷ hs) =
    if has_role role d h then h ∷ hosts_with role d hs else hosts_with role d hs

-- All servers with their roles, as one list.
abbrev all_words : Options → List Text
all_words [] = []
all_words ((name, line) ∷ items) = split line ++ all_words items

first-unpack : (ps : List Text) (hr : Text × Text) → unpack ps ≡ ok hr → first_piece ps ≡ hr.0
first-unpack (host ∷ rs ∷ []) hr h = let e : (host, rs) ≡ hr = cc in ap (λ (p : Text × Text). p.0) e
first-unpack [] hr h = cc
first-unpack (a ∷ []) hr h = cc
first-unpack (a ∷ b ∷ c ∷ r) hr h = cc

pub host_of-host_roles : (w : Text) (hr : Text × Text) → host_roles w ≡ ok hr → host_of w ≡ hr.0
unfolding host_roles host_of
host_of-host_roles w hr h = first-unpack (split_on b':' w) hr h

add_roles-append :
    (xs ys : List Text) (d : Options)
    → add_roles (xs ++ ys) d ≡ (add_roles xs d >>= λ e. add_roles ys e)
unfolding add_roles
add_roles-append [] ys d = refl
add_roles-append (x ∷ xs) ys d = elim (Result-cases (host_roles x)) [
  | inl (hr, e) ↦ rw e (add_roles-append xs ys (insert hr.0 hr.1 d))
  | inr (x', e) ↦ rw e refl
]

with_role-append :
    (role : Text) (xs ys : List Text)
    → with_role role (xs ++ ys)
      ≡ (with_role role xs >>= λ hs. with_role role ys >>= λ ks. ok (hs ++ ks))
unfolding with_role
with_role-append role [] ys = elim (Result-cases (with_role role ys)) [
  | inl (ks, e) ↦ rw e refl
  | inr (x', e) ↦ rw e refl
]
with_role-append role (x ∷ xs) ys = elim (Result-cases (host_roles x)) [
  | inr (x', e) ↦ rw e refl
  | inl (hr, e) ↦
      rw (e, with_role-append role xs ys)
        (elim (Result-cases (with_role role xs)) [
          | inr (x', f) ↦ rw f refl
          | inl (hs, f) ↦ rw f (elim (Result-cases (with_role role ys)) [
            | inr (x', g) ↦ rw g refl
            | inl (ks, g) ↦
                rw g
                  (elim (Bool-cases (is_infix role hr.1)) [ inl t ↦ rw t refl | inr t ↦ rw t refl ])
          ])
        ])
]

-- Later servers leave the roles of another host alone.
add_roles-keeps :
    (ws : List Text) (d e : Options) (h : Text)
    → Absent h (map host_of ws)
    → add_roles ws d ≡ ok e
    → lookup h e ≡ lookup h d
unfolding add_roles
add_roles-keeps [] d e h absent added = let same : d ≡ e = cc in rw same refl
add_roles-keeps (w ∷ ws) d e h absent added =
    let (hr, split_up, rest) = >>=-eq-ok (host_roles w) _ added in
    let same = host_of-host_roles w hr split_up in
    let other : eq_text h hr.0 ≡ false = rw (← same) absent.0 in
    add_roles-keeps ws (insert hr.0 hr.1 d) e h absent.1 rest
    ∙ (rw (lookup-insert h hr.0 hr.1 d, other) refl)

with_role-hosts_with :
    (role : Text) (ws : List Text) (d e : Options)
    → Distinct (map host_of ws)
    → add_roles ws d ≡ ok e
    → with_role role ws ≡ ok (hosts_with role e (map host_of ws))
unfolding add_roles with_role hosts_with has_role
with_role-hosts_with role [] d e distinct added = refl
with_role-hosts_with role (w ∷ ws) d e distinct added =
    let (hr, split_up, rest) = >>=-eq-ok (host_roles w) _ added in
    let same = host_of-host_roles w hr split_up in
    let later = with_role-hosts_with role ws (insert hr.0 hr.1 d) e distinct.1 rest in
    let found : lookup (host_of w) e ≡ some hr.1 =
      add_roles-keeps ws (insert hr.0 hr.1 d) e (host_of w) distinct.0 rest
      ∙ (rw (lookup-insert (host_of w) hr.0 hr.1 d, same, eq_text_refl hr.0) refl) in
    rw (split_up, later, found, same) refl

map-append : (f : Text → Text) (xs ys : List Text) → map f (xs ++ ys) ≡ map f xs ++ map f ys
map-append f [] ys = refl
map-append f (x ∷ xs) ys = ap (λ zs. f x ∷ zs) (map-append f xs ys)

servers-all_words : (items : Options) → servers items ≡ map host_of (all_words items)
unfolding servers
servers-all_words [] = refl
servers-all_words ((name, line) ∷ items) =
    rw (servers-all_words items) (sym (map-append host_of (split line) (all_words items)))

roles_from-all_words :
    (items : Options) (d : Options) → roles_from items d ≡ add_roles (all_words items) d
unfolding roles_from add_roles
roles_from-all_words [] d = refl
roles_from-all_words ((name, line) ∷ items) d =
    rw (add_roles-append (split line) (all_words items) d)
      (elim (Result-cases (add_roles (split line) d)) [
        | inl (e, h) ↦ rw h (roles_from-all_words items e)
        | inr (x', h) ↦ rw h refl
      ])

servers_by_role-all_words :
    (role : Text) (items : Options) → servers_by_role role items ≡ with_role role (all_words items)
unfolding servers_by_role with_role
servers_by_role-all_words role [] = refl
servers_by_role-all_words role ((name, line) ∷ items) =
    rw (with_role-append role (split line) (all_words items), servers_by_role-all_words role items)
      refl

-- If the roles of the servers can be read and no host is listed twice, the servers with a role are
-- the servers, in their order, whose entry in the dictionary of roles names it.
pub servers_by_role-eq-hosts_with :
    (role : Text) (items : Options) {d : Options}
    → Distinct (servers items)
    → roles items ≡ ok d
    → servers_by_role role items ≡ ok (hosts_with role d (servers items))
unfolding roles
servers_by_role-eq-hosts_with role items {d} distinct read =
    rw (servers_by_role-all_words role items, servers-all_words items)
      (with_role-hosts_with role (all_words items) [] d (rw (servers-all_words items) at distinct)
        (rw (roles_from-all_words items []) at read))

-- Every server has an entry in the dictionary of roles.
add_roles-found :
    (ws : List Text) (d e : Options)
    → Distinct (map host_of ws)
    → add_roles ws d ≡ ok e
    → All (λ h. (r : Text) × (lookup h e ≡ some r)) (map host_of ws)
unfolding add_roles
add_roles-found [] d e distinct added = tt
add_roles-found (w ∷ ws) d e distinct added =
    let (hr, split_up, rest) = >>=-eq-ok (host_roles w) _ added in
    let same = host_of-host_roles w hr split_up in
    let found : lookup (host_of w) e ≡ some hr.1 =
      add_roles-keeps ws (insert hr.0 hr.1 d) e (host_of w) distinct.0 rest
      ∙ (rw (lookup-insert (host_of w) hr.0 hr.1 d, same, eq_text_refl hr.0) refl) in
    ((hr.1, found), add_roles-found ws (insert hr.0 hr.1 d) e distinct.1 rest)

pub roles-found :
    (items : Options) {d : Options}
    → Distinct (servers items)
    → roles items ≡ ok d
    → All (λ h. (r : Text) × (roles_of h items ≡ ok r)) (servers items)
unfolding roles_of roles
roles-found items {d} distinct read =
    let all =
      add_roles-found (all_words items) [] d (rw (servers-all_words items) at distinct)
        (rw (roles_from-all_words items []) at read) in
    All-mono (λ h. (r : Text) × (lookup h d ≡ some r)) _ (servers items)
      (rw (servers-all_words items) all) λ h found. (found.0, (rw (read, found.1) refl))
