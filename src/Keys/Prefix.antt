-- ===== src/Keys/Prefix.antt =====
-- About the prefixes of keys (spring/docgen.py). The digits of a key hold no dash.
use perfrunner.Prelude.{
  ℕ, zero, suc, ◌-◌, ◌/◌, ◌%◌, ◌≡◌, refl, sym, ◌≢◌, [], ◌∷◌, ◌++◌, arith, Bool-cases, ◌==◌, inl,
  inr, length, All, All-append, All-replicate, replicate,
}
use mathlib.Core.Path.{subst}
use perfrunner.Prelude.Int.{pos}
use perfrunner.Text.{Text, digit, to_base, render, zero_pad, format_int}
use perfrunner.Keys.{prefixed, decimal_fmtr}
use perfrunner.Keys.Format.{decimal_fmtr-injective}

abbrev NotDash : ℕ → Type 0
NotDash c = c ≢ b'-'

digit-NotDash : (d : ℕ) → NotDash (digit d)
digit-NotDash d = ground arith

to_base-NotDash : (f b n : ℕ) (acc : Text) → All NotDash acc → All NotDash (to_base f b n acc)
unfolding to_base
to_base-NotDash zero b n acc h = h
to_base-NotDash (suc f) b n acc h = elim (Bool-cases (n == 0)) [
  | inl done ↦ rw done h
  | inr more ↦
      rw more (to_base-NotDash f b (n / b) (digit (n % b) ∷ acc) (digit-NotDash (n % b), h))
]

render-NotDash : (b n : ℕ) → All NotDash (render b n)
unfolding render
render-NotDash b n = elim (Bool-cases (n == 0)) [
  | inl done ↦ rw done (omega arith, tt)
  | inr more ↦ rw more (to_base-NotDash n b n [] tt)
]

zero_pad-NotDash : (w : ℕ) (t : Text) → All NotDash t → All NotDash (zero_pad w t)
unfolding zero_pad
zero_pad-NotDash w t h =
    All-append NotDash (replicate (w - length t) b'0') t
      (All-replicate NotDash (w - length t) b'0' (omega arith)) h

dash_inside : (p t : Text) → ¬ All NotDash (p ++ b'-' ∷ t)
dash_inside [] t h = h.0 refl
dash_inside (c ∷ p) t h = dash_inside p t h.1

split_at_last_dash :
    (p q s t : Text)
    → All NotDash s
    → All NotDash t
    → p ++ b'-' ∷ s ≡ q ++ b'-' ∷ t
    → (p ≡ q) × (s ≡ t)
split_at_last_dash [] [] s t hs ht e = (refl, cc)
split_at_last_dash [] (d ∷ q) s t hs ht e =
    let tails : s ≡ q ++ b'-' ∷ t = cc in absurd (dash_inside q t (rw (← tails) hs))
split_at_last_dash (c ∷ p) [] s t hs ht e =
    let tails : t ≡ p ++ b'-' ∷ s = cc in absurd (dash_inside p s (rw (← tails) ht))
split_at_last_dash (c ∷ p) (d ∷ q) s t hs ht e =
    let heads : c ≡ d = cc in
    let (prefixes, digits) = split_at_last_dash p q s t hs ht (cc) in (cc, digits)

prefixed_injective :
    (p q s t : Text)
    → All NotDash s
    → All NotDash t
    → prefixed p s ≡ prefixed q t
    → (p ≡ q) × (s ≡ t)
unfolding prefixed
prefixed_injective [] [] s t hs ht e = (refl, e)
prefixed_injective [] (d ∷ q) s t hs ht e =
    absurd (dash_inside (d ∷ q) t (subst (All NotDash) e hs))
prefixed_injective (c ∷ p) [] s t hs ht e =
    absurd (dash_inside (c ∷ p) s (subst (All NotDash) (sym e) ht))
prefixed_injective (c ∷ p) (d ∷ q) s t hs ht e = split_at_last_dash (c ∷ p) (d ∷ q) s t hs ht e

format_int-NotDash : (b w n : ℕ) → All NotDash (format_int b w (pos n))
unfolding format_int
format_int-NotDash b w n = zero_pad-NotDash w (render b n) (render-NotDash b n)

-- Two decimal keys are equal only if both the prefix and the document number are.
pub decimal_fmtr_unique :
    (m n : ℕ) (p q : Text) → decimal_fmtr (pos m) p ≡ decimal_fmtr (pos n) q → (p ≡ q) × (m ≡ n)
decimal_fmtr_unique m n p q e =
    let same : p ≡ q =
      (prefixed_injective p q (format_int 10 12 (pos m)) (format_int 10 12 (pos n))
        (format_int-NotDash 10 12 m) (format_int-NotDash 10 12 n) (unfold decimal_fmtr in e)).0 in
    (same, decimal_fmtr-injective m n q (rw same at e))
