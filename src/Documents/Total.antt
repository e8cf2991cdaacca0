-- ===== src/Documents/Total.antt =====
-- About the field builders and the plain documents of spring/docgen.py: whether they return.
use Prim.Native.String.{String}
use perfrunner.Prelude.{
  ℕ, zero, suc, ◌+◌, ◌-◌, ◌*◌, ◌%◌, ◌^◌, ◌≤◌, ◌<◌, ◌≡◌, refl, ap, List, [], ◌∷◌, map, Result, ok,
  ◌>>=◌, arith, Returns, returns_bind, returns_mono, All, All-take, All-drop, length, length-slice,
  slice, some, get_elem?,
}
use perfrunner.Prelude.Int.{ℤ, pos, negsuc, ◌+ℤ◌, int_laws, to_ℕ, Ratio, mod_ℤ}
use perfrunner.Text.{Text, digit_value, read_digits, int_of}
use perfrunner.Generators.Space.{randrange_lem}
use perfrunner.Documents.{
  Json, int, object, Members, no_field, field, Env, Entry, fields, dict, char_at, or_index_error,
  build_alphabet,
}
use perfrunner.Documents.Fields.{
  build_alt_email, build_coins, build_gmtime, build_year, build_category, category, found,
  find_from, build_state, build_full_state, build_name, build_email, build_city, build_realm,
  build_achievements,
}
use perfrunner.Documents.Alphabet.{IsHex, IsAlphabet, build_alphabet-IsAlphabet}
use perfrunner.Documents.Basic.{document}

abbrev pub Ends {ℓ} : {A : Type ℓ} → Result A → Type 0
Ends r = Returns r (λ _. Unit)

abbrev pub member_names : Members → List String
member_names no_field = []
member_names (field n v fs) = n ∷ member_names fs

-- The value is an object with these fields, in this order.
abbrev pub HasFields : List String → Json → Type 0
HasFields names (object fs) = member_names fs ≡ names
HasFields names _ = ⊥

abbrev pub entry_names : List Entry → List String
entry_names = map (λ e. e.name)

fields-Returns :
    (es : List Entry)
    → All (λ e. Ends e.value) es
    → Returns (fields es) (λ fs. member_names fs ≡ entry_names es)
unfolding fields
fields-Returns [] h = refl
fields-Returns (e ∷ es) h =
    returns_bind (λ _. Unit) _ e.value _ h.0
      λ v _.
        returns_bind (λ fs. member_names fs ≡ entry_names es)
          (λ fs. member_names fs ≡ entry_names (e ∷ es)) (fields es) (λ fs. ok (field e.name v fs))
          (fields-Returns es h.1) λ fs k. ap (λ ns. e.name ∷ ns) k

pub dict-HasFields :
    (es : List Entry) → All (λ e. Ends e.value) es → Returns (dict es) (HasFields (entry_names es))
unfolding dict
dict-HasFields es h =
    returns_bind (λ fs. member_names fs ≡ entry_names es) (HasFields (entry_names es)) (fields es)
      (λ fs. ok (object fs)) (fields-Returns es h) λ fs k. k

read_digits-Ends : (acc : ℕ) (t : Text) → All IsHex t → Ends (read_digits 16 acc t)
unfolding read_digits
read_digits-Ends acc [] h = tt
read_digits-Ends acc (c ∷ t) h =
    returns_bind (λ d. d < 16) _ (digit_value c) _ h.0 λ d _. read_digits-Ends (acc * 16 + d) t h.1

int_of-Ends : (t : Text) → 0 < length t → All IsHex t → Ends (int_of 16 t)
unfolding int_of
int_of-Ends [] p h = absurd (omega arith)
int_of-Ends (c ∷ t) p h = read_digits-Ends 0 (c ∷ t) h

elem-All :
    (P : ℕ → Type 0) (t : Text) (i : ℕ)
    → i < length t
    → All P t
    → (c : ℕ) × (get_elem? t i ≡ some c) × P c
elem-All P [] i p h = absurd (omega arith)
elem-All P (c ∷ t) zero p h = (c, refl, h.0)
elem-All P (c ∷ t) (suc i) p h = elem-All P t i (omega arith) h.1

elem-Ends {ℓ} :
    {A : Type ℓ} (xs : List A) (i : ℕ) → i < length xs → Ends (or_index_error (get_elem? xs i))
elem-Ends [] i p = absurd (omega arith)
elem-Ends (x ∷ xs) zero p = tt
elem-Ends (x ∷ xs) (suc i) p = elem-Ends xs i (omega arith)

-- An index modulo the length is one of the list.
index_lem : (n : ℤ) (d : ℕ) → 0 < d → Returns (mod_ℤ n (pos d)) (λ i. to_ℕ i < d)
index_lem n zero p = absurd (omega arith)
index_lem (pos n) (suc d) p = omega arith
index_lem (negsuc n) (suc d) p = omega arith

pub mod-Ends : (n : ℤ) (d : ℕ) → 0 < d → Ends (mod_ℤ n (pos d))
mod-Ends n d p = returns_mono _ _ (mod_ℤ n (pos d)) (index_lem n d p) λ i _. tt

found-Ends {ℓ} : {A : Type ℓ} (xs : List A) (c : ℕ) (a : Text) → 0 < length xs → Ends (found xs c a)
unfolding found
found-Ends xs c a p =
    returns_bind (λ i. to_ℕ i < length xs) (λ _. Unit) (mod_ℤ (find_from 0 c a) (pos (length xs))) _
      (index_lem (find_from 0 c a) (length xs) p) λ i k. elem-Ends xs (to_ℕ i) k

module _ (a : Text) (h : IsAlphabet a) where
  slice-Ends : (lo hi : ℕ) → lo < hi → hi ≤ 64 → Ends (int_of 16 (slice lo hi a))
  slice-Ends lo hi p q =
      int_of-Ends (slice lo hi a) (omega (arith, length-slice lo hi a, h.width))
        (All-take IsHex (hi - lo) _ (All-drop IsHex lo a h.digits))

  char_at-IsHex : (i : ℕ) → i < 64 → Returns (char_at a i) (λ t. (0 < length t) × All IsHex t)
  unfolding char_at
  char_at-IsHex i p =
      let (c, e, k) = elem-All IsHex a i (omega (arith, h.width)) h.digits in
      rw e (omega arith, (k, tt))

  -- A value that is computed from one hexadecimal digit.
  digit-Ends :
      (i : ℕ) (f : ℕ → Json) → i < 64 → Ends (char_at a i >>= λ c. int_of 16 c >>= λ n. ok (f n))
  digit-Ends i f p =
      returns_bind (λ t. (0 < length t) × All IsHex t) (λ _. Unit) (char_at a i) _
        (char_at-IsHex i p)
        λ c k.
          returns_bind (λ _. Unit) _ (int_of 16 c) (λ n. ok (f n)) (int_of-Ends c k.0 k.1) λ n _. tt

  pub build_coins-Ends : Ends (build_coins a)
  unfolding build_coins
  build_coins-Ends =
      returns_bind (λ _. Unit) _ (int_of 16 (slice 36 40 a)) _
        (slice-Ends 36 40 (omega arith) (omega arith)) λ n _. tt

  pub build_year-Ends : Ends (build_year a)
  unfolding build_year
  build_year-Ends = digit-Ends 62 (λ n. int (pos (1985 + n))) (omega arith)

  pub build_gmtime-Ends : (env : Env) → Ends (build_gmtime env a)
  unfolding build_gmtime
  build_gmtime-Ends env = digit-Ends 63 (λ n. env.gmtime (396 * 24 * 3600 * (n % 12))) (omega arith)

  pub build_category-Ends : Ends (build_category a)
  unfolding build_category category
  build_category-Ends =
      returns_bind (λ _. Unit) (λ _. Unit) (category a) (λ n. ok (int (pos n)))
        (returns_bind (λ t. (0 < length t) × All IsHex t) (λ _. Unit) (char_at a 41) _
          (char_at-IsHex 41 (omega arith))
          λ c k.
            returns_bind (λ _. Unit) _ (int_of 16 c) (λ n. ok (n % 3)) (int_of-Ends c k.0 k.1)
              λ n _. tt)
        λ n _. tt

  pub build_state-Ends : (env : Env) → 0 < length env.states → Ends (build_state env a)
  unfolding build_state
  build_state-Ends env p =
      returns_bind (λ _. Unit) (λ _. Unit) (found env.states b'7' a) _
        (found-Ends env.states b'7' a p) λ s _. tt

  pub build_full_state-Ends : (env : Env) → 0 < length env.states → Ends (build_full_state env a)
  unfolding build_full_state
  build_full_state-Ends env p =
      returns_bind (λ _. Unit) (λ _. Unit) (found env.states b'8' a) _
        (found-Ends env.states b'8' a p) λ s _. tt

pub build_alt_email-Ends : (d e : ℕ) (a : Text) → Ends (build_alt_email d e a)
unfolding build_alt_email
build_alt_email-Ends d e a =
    let name = randrange_lem d (pos 1) (pos 9 +ℤ pos 1) (omega int_laws) in
    let domain = randrange_lem e (pos 12) (pos 18 +ℤ pos 1) (omega int_laws) in rw (name, domain) tt

-- If the hash is one of 128 bits, `Document.next` returns a document with its nine fields for every
-- key.
pub document-HasFields :
    (env : Env) (draws : ℕ → ℕ) (key : Text) (coeff : Ratio) (avg_size : ℕ)
    → ((t : Text) → env.hash128 t < 2 ^ 128)
    → Returns (document env draws (build_alphabet env.hash128 key) coeff avg_size) (
        HasFields (
          "name" ∷ "email" ∷ "alt_email" ∷ "city" ∷ "realm" ∷ "coins" ∷ "category" ∷ "achievements"
          ∷ "body" ∷ []))
unfolding document build_name build_email build_city build_realm build_achievements
document-HasFields env draws key coeff avg_size h =
    let a = build_alphabet env.hash128 key in
    let k = build_alphabet-IsAlphabet env.hash128 key h in
    dict-HasFields _ (
      tt,
      (
        tt,
        (
          build_alt_email-Ends (draws 0) (draws 1) a,
          (tt, (tt, (build_coins-Ends a k, (build_category-Ends a k, (tt, (tt, tt)))))),
        ),
      ),
    )
