-- ===== src/KeyFragger/Padding.antt =====
-- About the padded keys of perfrunner/workloads/keyFragger.py.
use perfrunner.Prelude.{
  ℕ, zero, suc, ◌-◌, ◌<◌, ◌≡◌, ◌≢◌, refl, sym, ap, ◌∙◌, false, ◌∷◌, ◌++◌, arith, ◌⊎◌, inl, inr,
  Bool-cases, replicate, length, length-append, length-replicate,
}
use perfrunner.Text.{Text, eq_text, render}
use perfrunner.Text.Decimal.{render-IsDecimal, digits-eq, render-injective}
use perfrunner.Text.Equality.{eq_text-eq}
use perfrunner.KeyFragger.{padded_key}

-- The key has room for the letter behind its number.
unfoldable pub IsWide : ℕ → ℕ → Type 0
IsWide keylen key = length (render 10 key) < keylen

length-padded_key : (key keylen : ℕ) → IsWide keylen key → length (padded_key key keylen) ≡ keylen
unfolding padded_key IsWide
length-padded_key key keylen wide =
    length-append (render 10 key) _
    ∙ omega (arith, length-replicate {A = ℕ} (keylen - length (render 10 key)) b'A')

replicate-cons : (n c : ℕ) → 0 < n → (u : Text) × (replicate n c ≡ c ∷ u)
replicate-cons zero c some_char = absurd (omega arith)
replicate-cons (suc n) c some_char = (replicate n c, refl)

padded_key-cons :
    (key keylen : ℕ)
    → IsWide keylen key
    → (u : Text) × (padded_key key keylen ≡ render 10 key ++ (b'A' ∷ u))
unfolding padded_key IsWide
padded_key-cons key keylen wide =
    let (u, e) = replicate-cons (keylen - length (render 10 key)) b'A' (omega arith) in
    (u, ap (λ letters. render 10 key ++ letters) e)

padded_key-injective :
    (k l v w : ℕ) → IsWide v k → IsWide w l → padded_key k v ≡ padded_key l w → (k ≡ l) × (v ≡ w)
padded_key-injective k l v w wide wide' e =
    let (s, is_s) = padded_key-cons k v wide in
    let (t, is_t) = padded_key-cons l w wide' in
    let same : render 10 k ++ (b'A' ∷ s) ≡ render 10 l ++ (b'A' ∷ t) = sym is_s ∙ (e ∙ is_t) in
    let digits =
      digits-eq b'A' (render 10 k) (render 10 l) s t (omega arith) (render-IsDecimal k)
        (render-IsDecimal l) same in
    (
      render-injective k l digits,
      sym (length-padded_key k v wide) ∙ (ap length e ∙ length-padded_key l w wide'),
    )

pub eq_key :
    (k l v w : ℕ)
    → IsWide v k
    → IsWide w l
    → (k ≢ l) ⊎ (v ≢ w)
    → eq_text (padded_key k v) (padded_key l w) ≡ false
eq_key k l v w wide wide' other = elim (Bool-cases (eq_text (padded_key k v) (padded_key l w))) [
  | inr differs ↦ differs
  | inl same ↦
      let (k=l, v=w) = padded_key-injective k l v w wide wide' (eq_text-eq _ _ same) in
      elim other [ inl h ↦ absurd (h k=l) | inr h ↦ absurd (h v=w) ]
]
