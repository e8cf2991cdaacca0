-- ===== src/Config/Overrides.antt =====
-- About dictionaries and the overrides of options (perfrunner/settings.py).
use perfrunner.Prelude.{
  ◌≡◌, refl, true, false, ◌&&◌, ok, ◌==◌, List, [], ◌∷◌, ◌++◌, map, Option, none, some,
  if◌then◌else◌, Bool-cases, inl, inr, All, Returns, returns_bind, returns_mono,
}
use perfrunner.Text.{Text, codes, eq_text}
use perfrunner.Text.Equality.{eq_text-eq, eq_text_refl}
use perfrunner.Config.{
  Options, Parser, lookup, insert, add_section, set_option, override_row, override,
  get_options_as_dict, interpolated,
}

-- Equal texts pass the same tests.
pub same_test : (j k i : Text) → eq_text j k ≡ true → eq_text j i ≡ eq_text k i
same_test j k i h = let e : j ≡ k = eq_text-eq j k h in rw e refl

module _ {V : Type 0} where
  pub lookup-insert :
      (j k : Text) (v : V) (d : List (Text × V))
      → lookup j (insert k v d) ≡ (if eq_text j k then some v else lookup j d)
  unfolding lookup insert
  lookup-insert j k v [] = refl
  lookup-insert j k v ((i, w) ∷ d) = elim (Bool-cases (eq_text k i)) [
    | inl same ↦
        let e : k ≡ i = eq_text-eq k i same in
        rw (same, e) (elim (Bool-cases (eq_text j i)) [ inl h ↦ rw h | inr h ↦ rw h ])
    | inr other ↦ elim (Bool-cases (eq_text j k)) [
      | inl same ↦
          let e : j ≡ k = eq_text-eq j k same in
          rw other (rw (same, same_test j k i same, other, lookup-insert j k v d, same))
      | inr h ↦ rw other (rw (lookup-insert j k v d, h))
    ]
  ]

  pub lookup-append :
      (j k : Text) (v : V) (d : List (Text × V))
      → lookup k d ≡ none
      → lookup j (d ++ (k, v) ∷ []) ≡ (if eq_text j k then some v else lookup j d)
  unfolding lookup
  lookup-append j k v [] h = refl
  lookup-append j k v ((i, w) ∷ d) h = elim (Bool-cases (eq_text k i)) [
    | inl same ↦ absurd (cc (rw same at h))
    | inr other ↦
        let rest = lookup-append j k v d (rw other at h) in
        elim (Bool-cases (eq_text j k)) [
          | inl same ↦ rw (same_test j k i same, other, rest)
          | inr differs ↦ rw (rest, differs)
        ]
  ]

-- The value of an option, where it is set.
abbrev pub value_of : Text → Text → Parser → Option Text
value_of section option p = lookup option (get_options_as_dict section p)

value_of-insert :
    (s o section option value : Text) (old : Options) (p : Parser)
    → get_options_as_dict section p ≡ old
    → value_of s o (insert section (insert option value old) p)
      ≡ (if eq_text s section && eq_text o option then some value else value_of s o p)
unfolding get_options_as_dict
value_of-insert s o section option value old p h = elim (Bool-cases (eq_text s section)) [
  | inl same ↦
      let e : s ≡ section = eq_text-eq s section same in
      rw (lookup-insert s section (insert option value old) p, same)
        (rw (lookup-insert o option value old, e, h) refl)
  | inr other ↦ rw (lookup-insert s section (insert option value old) p, other) refl
]

-- An override of one option, as the three fields of its row.
pub record Override : Type 0 where
  pub section : Text
  pub option : Text
  pub value : Text

-- A value as it is written, with each % doubled.
unfoldable pub escape : Text → Text
escape [] = []
escape (c ∷ t) = let rest = escape t in if c == b'%' then c ∷ c ∷ rest else c ∷ rest

-- The value as it is read.
interpolated-escape : (t : Text) → interpolated false (escape t) ≡ ok t
unfolding interpolated escape
interpolated-escape [] = refl
interpolated-escape (c ∷ t) =
    let rest = interpolated-escape t in
    elim (Bool-cases (c == b'%')) [
      | inl percent ↦ rw percent (rw percent (rw rest refl))
      | inr other ↦ rw other (rw (other, rest) refl)
    ]

-- Without a % there is nothing to double.
pub escape-plain : (t : Text) → All (λ c. (c == b'%') ≡ false) t → escape t ≡ t
unfolding escape
escape-plain [] plain = refl
escape-plain (c ∷ t) plain = rw (plain.0, escape-plain t plain.1) refl

abbrev pub row_of : Override → List Text
row_of r = r.section ∷ r.option ∷ escape r.value ∷ []

abbrev pub IsPlain : Override → Type 0
IsPlain r = eq_text r.section (codes "DEFAULT") ≡ false

-- The value that the last of the overrides of an option gives it, else the old one.
unfoldable pub last_value : Text → Text → List Override → Option Text → Option Text
last_value s o [] old = old
last_value s o (r ∷ rs) old =
    last_value s o rs (if eq_text s r.section && eq_text o r.option then some r.value else old)

abbrev Sets : Override → Parser → Parser → Type 0
Sets r p q =
    (s o : Text)
    → value_of s o q
      ≡ (if eq_text s r.section && eq_text o r.option then some r.value else value_of s o p)

set-Sets :
    (r : Override) (p : Parser) (found : Option Options)
    → lookup r.section p ≡ found
    → IsPlain r
    → Returns (override_row (row_of r) p) (Sets r p)
unfolding override_row set_option add_section
set-Sets r p (some old) h plain =
    rw (h, interpolated-escape r.value, h)
      λ s o.
        value_of-insert s o r.section r.option r.value old p (unfold get_options_as_dict in rw h)
set-Sets r p none h plain =
    let q : Parser = p ++ (r.section, []) ∷ [] in
    let looked = λ (s : Text). lookup-append s r.section [] p h in
    let found : lookup r.section q ≡ some [] = rw (looked r.section, eq_text_refl r.section) in
    let same : (s o : Text) → value_of s o q ≡ value_of s o p = λ s o.
      elim (Bool-cases (eq_text s r.section)) [
        | inl e ↦
            let at : s ≡ r.section = eq_text-eq s r.section e in
            unfold get_options_as_dict lookup in rw (looked s, e) (rw (at, h) refl)
        | inr n ↦ unfold get_options_as_dict in rw (looked s, n) refl
      ] in
    rw (h, plain, interpolated-escape r.value, found)
      λ s o.
        rw
          (
            value_of-insert s o r.section r.option r.value [] q
                (unfold get_options_as_dict in rw found),
            same s o,
          )
          refl

pub override-last_value :
    (rs : List Override) (p : Parser)
    → All IsPlain rs
    → Returns
        (override (map row_of rs) p)
        λ q. (s o : Text) → value_of s o q ≡ last_value s o rs (value_of s o p)
unfolding override last_value
override-last_value [] p plain = λ s o. refl
override-last_value (r ∷ rs) p plain =
    let Goal =
      λ (q : Parser). (s o : Text) → value_of s o q ≡ last_value s o (r ∷ rs) (value_of s o p) in
    returns_bind (Sets r p) Goal (override_row (row_of r) p) (override (map row_of rs))
      (set-Sets r p (lookup r.section p) refl plain.0)
      λ q sets.
        returns_mono
          (λ (t : Parser). (s o : Text) → value_of s o t ≡ last_value s o rs (value_of s o q)) Goal
          (override (map row_of rs) q) (override-last_value rs q plain.1)
          λ t h s o. rw (h s o, sets s o) refl
