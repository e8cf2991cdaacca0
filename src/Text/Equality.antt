-- ===== src/Text/Equality.antt =====
-- About the equality test on texts.
use perfrunner.Prelude.{ℕ, ◌≡◌, refl, ◌↔◌, true, false, [], ◌∷◌, arith, ◌==◌, Bool-cases, inl, inr}
use perfrunner.Text.{Text, eq_text}

pub eq_text-eq : (s t : Text) → eq_text s t ≡ true → s ≡ t
eq_text-eq [] [] h = refl
eq_text-eq [] (d ∷ t) h = cc
eq_text-eq (c ∷ s) [] h = cc
eq_text-eq (c ∷ s) (d ∷ t) h = elim (Bool-cases (c == d)) [
  | inl same ↦
      let heads : c ≡ d = ground arith in
      let tails : s ≡ t = eq_text-eq s t (rw same at h) in cc (heads, tails)
  | inr other ↦ cc (rw other at h)
]

eq_char_refl : (c : ℕ) → (c == c) ≡ true
eq_char_refl c = ground arith

pub eq_text_refl : (t : Text) → eq_text t t ≡ true
eq_text_refl [] = refl
eq_text_refl (c ∷ t) = rw (eq_char_refl c) (eq_text_refl t)

pub eq_text_iff : (s t : Text) → (eq_text s t ≡ true) ↔ (s ≡ t)
eq_text_iff s t = (eq_text-eq s t, λ e. rw e (eq_text_refl t))

pub eq_text_sym : (s t : Text) → eq_text s t ≡ false → eq_text t s ≡ false
eq_text_sym s t h = elim (Bool-cases (eq_text t s)) [
  | inl same ↦ let e : t ≡ s = eq_text-eq t s same in absurd (cc (h, rw e at same))
  | inr other ↦ other
]
