-- ===== src/Text/Decimal.antt =====
-- The digits of Python's decimal numbers, which are no other characters.
use perfrunner.Prelude.{
  ℕ, zero, suc, ◌-◌, ◌/◌, ◌%◌, ◌≤◌, ◌<◌, ◌≡◌, refl, sym, ap, ◌∙◌, [], ◌∷◌, ◌++◌, ok, arith, ◌==◌,
  Bool-cases, inl, inr, All, All-append, All-replicate, replicate, length,
}
use perfrunner.Text.{Text, digit, to_base, render, zero_pad, read_digits}
use perfrunner.Text.Digits.{read_digits-render}

unfoldable pub IsDecimal : ℕ → Type 0
IsDecimal c = (b'0' ≤ c) × (c ≤ b'9')

pub digit-IsDecimal : (d : ℕ) → d < 10 → IsDecimal (digit d)
unfolding IsDecimal
digit-IsDecimal d h = (ground arith, ground arith)

pub to_base-IsDecimal :
    (f n : ℕ) (acc : Text) → All IsDecimal acc → All IsDecimal (to_base f 10 n acc)
unfolding to_base
to_base-IsDecimal zero n acc h = h
to_base-IsDecimal (suc f) n acc h = elim (Bool-cases (n == 0)) [
  | inl done ↦ rw done h
  | inr more ↦ rw more (
      to_base-IsDecimal f (n / 10) (digit (n % 10) ∷ acc)
        (digit-IsDecimal (n % 10) (omega arith), h))
]

pub render-IsDecimal : (n : ℕ) → All IsDecimal (render 10 n)
unfolding render
render-IsDecimal n = elim (Bool-cases (n == 0)) [
  | inl done ↦ rw done (digit-IsDecimal 0 (omega arith), tt)
  | inr more ↦ rw more (to_base-IsDecimal n n [] tt)
]

pub zero_pad-IsDecimal : (w n : ℕ) → All IsDecimal (zero_pad w (render 10 n))
unfolding zero_pad
zero_pad-IsDecimal w n =
    let digits = render 10 n in
    All-append IsDecimal (replicate (w - length digits) b'0') digits
      (All-replicate IsDecimal (w - length digits) b'0' (digit-IsDecimal 0 (omega arith)))
      (render-IsDecimal n)

-- Decimal digits up to another character.
pub digits-eq :
    (c : ℕ) (s t u v : Text)
    → b'9' < c
    → All IsDecimal s
    → All IsDecimal t
    → s ++ (c ∷ u) ≡ t ++ (c ∷ v)
    → s ≡ t
unfolding IsDecimal
digits-eq c [] [] u v other ss ts e = refl
digits-eq c [] (d ∷ t) u v other ss ts e =
    let same : c ≡ d = cc in absurd (omega (arith, ts.0, same))
digits-eq c (d ∷ s) [] u v other ss ts e =
    let same : d ≡ c = cc in absurd (omega (arith, ss.0, same))
digits-eq c (d ∷ s) (b ∷ t) u v other ss ts e =
    let same : d ≡ b = cc in
    let rest : s ++ (c ∷ u) ≡ t ++ (c ∷ v) = cc in
    rw (same, digits-eq c s t u v other ss.1 ts.1 rest) refl

-- Different numbers have different digits.
pub render-injective : (m n : ℕ) → render 10 m ≡ render 10 n → m ≡ n
render-injective m n e =
    let low : 2 ≤ 10 = omega arith in
    let high : 10 ≤ 16 = omega arith in
    let read = read_digits-render 10 low high m in
    let read' = read_digits-render 10 low high n in
    let same : ok m ≡ ok n = sym read ∙ (ap (read_digits 10 0) e ∙ read') in cc
