-- ===== src/Documents/References.antt =====
-- What the documents of spring/docgen.py share: references to other documents, and capped values.
use perfrunner.Prelude.{
  ℕ, zero, suc, ◌+◌, ◌-◌, ◌*◌, ◌/◌, ◌%◌, ◌<◌, ◌≡◌, refl, ◌∙◌, sym, ap, ◌⊎◌, ◌↔◌, [], ◌∷◌, ◌++◌, ok,
  err, arith, Returns, returns_bind, All, length, zero_division, inl, inr,
}
use native.Mathlib.Nat.{mod-eq_of_lt, add-mul-mod_self_right, div-add-mod', div-lt_iff_lt-mul}
use perfrunner.Prelude.Int.{ℤ, pos, negsuc, ◌+ℤ◌, mod_ℤ}
use perfrunner.Text.{Text, codes, format_int, read_digits}
use perfrunner.Text.Digits.{read_digits-zero_pad}
use perfrunner.Keys.{decimal_fmtr}
use perfrunner.Keys.Format.{decimal_fmtr-injective}
use perfrunner.Documents.{Env, dict}
use perfrunner.Documents.Lookup.{
  reference, four_references, build_owner, build_capped, capped, decimal, joined_document,
}

-- The key of one of the first `num` documents.
abbrev pub Refers : Text → ℕ → Text → Type 0
Refers prefix num t = (i : ℕ) × (i < num) × (t ≡ decimal_fmtr (pos i) prefix)

-- A number modulo a size is below it.
mod_lem : (n : ℤ) (d : ℕ) → 0 < d → Returns (mod_ℤ n (pos d)) (λ r. (i : ℕ) × (r ≡ pos i) × (i < d))
mod_lem n zero p = absurd (omega arith)
mod_lem (pos n) (suc d) p = (n % suc d, refl, omega arith)
mod_lem (negsuc n) (suc d) p = (suc d - 1 - n % suc d, refl, omega arith)

pub reference-Refers :
    (prefix : Text) (num : ℕ) (seq_id : ℤ)
    → 0 < num
    → Returns (reference prefix num seq_id) (Refers prefix num)
unfolding reference
reference-Refers prefix num seq_id p =
    returns_bind (λ r. (i : ℕ) × (r ≡ pos i) × (i < num)) (Refers prefix num)
      (mod_ℤ seq_id (pos num)) (λ n. ok (decimal_fmtr n prefix)) (mod_lem seq_id num p)
      λ r (i, e, below). (i, below, ap (λ n. decimal_fmtr n prefix) e)

-- The topics and the categories of a document are four references, each to one of the documents
-- that it may refer to, if there is any; without any the generator raises an exception.
pub four_references-Refers :
    (prefix : Text) (num : ℕ) (seq_id : ℤ)
    → (0 < num
        → Returns
            (four_references prefix num seq_id)
            (λ ts. All (Refers prefix num) ts × (length ts ≡ 4)))
      × (four_references prefix 0 seq_id ≡ err zero_division)
unfolding four_references
four_references-Refers prefix num seq_id = (
  (λ p.
      returns_bind (Refers prefix num) _ (reference prefix num (seq_id +ℤ pos 11)) _
        (reference-Refers prefix num _ p)
        λ t1 r1.
          returns_bind (Refers prefix num) _ (reference prefix num (seq_id +ℤ pos 19)) _
            (reference-Refers prefix num _ p)
            λ t2 r2.
              returns_bind (Refers prefix num) _ (reference prefix num (seq_id +ℤ pos 23)) _
                (reference-Refers prefix num _ p)
                λ t3 r3.
                  returns_bind (Refers prefix num)
                    (λ ts. All (Refers prefix num) ts × (length ts ≡ 4))
                    (reference prefix num (seq_id +ℤ pos 29)) _ (reference-Refers prefix num _ p)
                    λ t4 r4. ((r1, (r2, (r3, (r4, tt)))), refl)),
  unfold reference in refl,
)

-- The numbers with one place in the four quarters.
abbrev pub InQuarters : ℕ → ℕ → ℕ → Type 0
InQuarters q i j = (j ≡ i) ⊎ ((j ≡ i + q) ⊎ ((j ≡ i + 2 * q) ⊎ (j ≡ i + 3 * q)))

in_quarter : (q i j d : ℕ) → d < 4 → d * q + i ≡ j → InQuarters q i j
in_quarter q i j zero h e = inl (omega arith)
in_quarter q i j (suc zero) h e = inr (inl (omega arith))
in_quarter q i j (suc (suc zero)) h e = inr (inr (inl (omega arith)))
in_quarter q i j (suc (suc (suc zero))) h e = inr (inr (inr (omega arith)))
in_quarter q i j (suc (suc (suc (suc d)))) h e = absurd (omega arith)

place_in_quarter : (q i j k : ℕ) → i < q → j ≡ i + k * q → j % q ≡ i
place_in_quarter q i j k h e = rw e (add-mul-mod_self_right i k q ∙ mod-eq_of_lt h)

quarter_place : (q i j : ℕ) → i < q → InQuarters q i j → j % q ≡ i
quarter_place q i j h (inl e) = place_in_quarter q i j 0 h (omega arith)
quarter_place q i j h (inr (inl e)) = place_in_quarter q i j 1 h (omega arith)
quarter_place q i j h (inr (inr (inl e))) = place_in_quarter q i j 2 h (omega arith)
quarter_place q i j h (inr (inr (inr e))) = place_in_quarter q i j 3 h (omega arith)

quarter_lem : (q i j : ℕ) → i < q → j < 4 * q → (j % q ≡ i) ↔ InQuarters q i j
quarter_lem q i j h k =
    let few : j / q < 4 = (div-lt_iff_lt-mul {k = q} {x = j} {y = 4} (omega arith)).1 k in
    (
      (λ e. in_quarter q i j (j / q) (few) (ap (λ r. j / q * q + r) (sym e) ∙ div-add-mod' j q)),
      quarter_place q i j h,
    )

build_owner_lem :
    (prefix : Text) (q j : ℕ)
    → 0 < q
    → build_owner prefix (4 * q) (pos j) ≡ ok (decimal_fmtr (pos (j % q)) prefix)
unfolding build_owner reference
build_owner_lem prefix zero j p = absurd (omega arith)
build_owner_lem prefix (suc q) j p = let e : 4 * suc q / 4 ≡ suc q = omega arith in rw e refl

-- If the number of documents is a multiple of four, each of the first quarter of them owns exactly
-- the four documents that are a whole number of quarters away from it.
pub build_owner_quarters :
    (prefix : Text) (q i j : ℕ)
    → i < q
    → j < 4 * q
    → (build_owner prefix (4 * q) (pos j) ≡ ok (decimal_fmtr (pos i) prefix)) ↔ InQuarters q i j
build_owner_quarters prefix q i j h k =
    let owner = build_owner_lem prefix q j (omega arith) in
    let (there, back) = quarter_lem q i j h k in
    (
      (λ e.
          let same : ok (decimal_fmtr (pos (j % q)) prefix) ≡ ok (decimal_fmtr (pos i) prefix) =
            sym owner ∙ e in
          there (decimal_fmtr-injective (j % q) i prefix (cc same))),
      (λ d. owner ∙ ap (λ n. ok (decimal_fmtr (pos n) prefix)) (back d)),
    )

-- With fewer than four documents there is no quarter, and no joined document can be generated.
pub joined_document-fails :
    (env : Env) (draws : ℕ → ℕ) (prefix a : Text) (num_docs num_categories num_replies : ℕ)
    (number : ℤ)
    → num_docs < 4
    → joined_document env draws prefix a num_docs num_categories num_replies number
      ≡ err zero_division
unfolding joined_document build_owner reference dict
joined_document-fails env draws prefix a num_docs num_categories num_replies number h =
    let none : num_docs / 4 ≡ 0 = omega arith in rw none refl

append_injective : (p s t : Text) → p ++ s ≡ p ++ t → s ≡ t
append_injective [] s t e = e
append_injective (c ∷ p) s t e = append_injective p s t (cc)

decimal_injective : (m n : ℕ) → decimal (pos m) ≡ decimal (pos n) → m ≡ n
unfolding format_int
decimal_injective m n e =
    let back = λ (k : ℕ). read_digits-zero_pad 10 (omega arith) (omega arith) 0 k in
    let same : ok m ≡ ok n = cc (back m, back n, ap (read_digits 10 0) e) in cc same

capped_injective :
    (prefix : Text) (n i j : ℕ) → capped prefix n (pos i) ≡ capped prefix n (pos j) → i ≡ j
unfolding capped
capped_injective prefix n i j e =
    let number = decimal (pos n) in
    let rest = λ (k : ℕ). number ++ b'_' ∷ decimal (pos k) in
    let tails : b'_' ∷ rest i ≡ b'_' ∷ rest j =
      append_injective prefix (b'_' ∷ rest i) (b'_' ∷ rest j) e in
    let ends : b'_' ∷ decimal (pos i) ≡ b'_' ∷ decimal (pos j) =
      append_injective number (b'_' ∷ decimal (pos i)) (b'_' ∷ decimal (pos j)) (cc tails) in
    decimal_injective i j (cc ends)

-- Static documents share a capped value exactly if they stand in the same group of `num_unique`
-- consecutive documents.
pub build_capped_groups :
    (draw : ℕ) (a b : Text) (i j num_unique : ℕ)
    → (build_capped (codes "n1ql") draw a (pos i) num_unique
        ≡ build_capped (codes "n1ql") draw b (pos j) num_unique)
      ↔ (i / num_unique ≡ j / num_unique)
unfolding build_capped
build_capped_groups draw a b i j num_unique = (
  (λ e. capped_injective (codes "n1ql") num_unique (i / num_unique) (j / num_unique) (cc e)),
  (λ e. ap (λ k. ok (capped (codes "n1ql") num_unique (pos k))) e),
)
