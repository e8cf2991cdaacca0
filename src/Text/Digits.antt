-- ===== src/Text/Digits.antt =====
-- About printing numbers in bases 2 to 16 and reading them back.
use perfrunner.Prelude.{
  ℕ, zero, suc, ◌+◌, ◌-◌, ◌*◌, ◌/◌, ◌%◌, ◌^◌, ◌≤◌, ◌<◌, ◌≡◌, refl, ◌∙◌, ◌≢◌, [], ◌∷◌, ◌++◌, ok,
  arith, replicate, length, length-append, length-replicate, ap, Bool-cases, ◌==◌, inl, inr,
}
use native.Mathlib.Nat.{pow-suc, pow-zero}
use perfrunner.Text.{Text, digit, to_base, render, zero_pad, digit_value, read_digits}

pub digit_value-digit : (d : ℕ) → d < 16 → digit_value (digit d) ≡ ok d
unfolding digit_value
digit_value-digit d h = ground arith

module _ (b : ℕ) (low : 2 ≤ b) (high : b ≤ 16) where
  quotient_lt : (n f : ℕ) → n ≢ 0 → n ≤ suc f → n / b ≤ f
  quotient_lt n f h k = grind arith

  quotient_rem : (n : ℕ) → n / b * b + n % b ≡ n
  quotient_rem n = grind arith

  rem_lt : (n : ℕ) → n % b < 16
  rem_lt n = grind arith

  read_last :
      (n : ℕ) (acc : Text) → read_digits b (n / b) (digit (n % b) ∷ acc) ≡ read_digits b n acc
  unfolding read_digits
  read_last n acc = rw (digit_value-digit (n % b) (rem_lt n), quotient_rem n)

  read_digits-to_base :
      (f n : ℕ) (acc : Text) → n ≤ f → read_digits b 0 (to_base f b n acc) ≡ read_digits b n acc
  unfolding to_base
  read_digits-to_base zero n acc h = let e : n ≡ 0 = omega arith in rw e
  read_digits-to_base (suc f) n acc h = elim (Bool-cases (n == 0)) [
    | inl done ↦ let e : n ≡ 0 = ground arith in rw e refl
    | inr more ↦ rw more (
        read_digits-to_base f (n / b) (digit (n % b) ∷ acc) (quotient_lt n f (ground arith) h)
        ∙ read_last n acc)
  ]

  pub read_digits-render : (n : ℕ) → read_digits b 0 (render b n) ≡ ok n
  unfolding render
  read_digits-render n = elim (Bool-cases (n == 0)) [
    | inl done ↦
        let e : n ≡ 0 = ground arith in
        rw e (unfold read_digits digit_value in ap (λ m. ok m) (omega arith))
    | inr more ↦ rw more (read_digits-to_base n n [] (omega arith) ∙ (unfold read_digits in refl))
  ]

  -- Zeros on the left do not change the number that is read.
  pub read_digits-zeros :
      (k : ℕ) (t : Text) → read_digits b 0 (replicate k b'0' ++ t) ≡ read_digits b 0 t
  unfolding read_digits digit_value
  read_digits-zeros zero t = refl
  read_digits-zeros (suc k) t = let e : 0 * b + 0 ≡ 0 = omega arith in rw e (read_digits-zeros k t)

  pub read_digits-zero_pad : (w n : ℕ) → read_digits b 0 (zero_pad w (render b n)) ≡ ok n
  unfolding zero_pad
  read_digits-zero_pad w n =
      read_digits-zeros (w - length (render b n)) (render b n) ∙ read_digits-render n

  quotient_lt_pow : (n w : ℕ) → n < b ^ suc w → n / b < b ^ w
  quotient_lt_pow n w h = let k : n < b ^ w * b = rw (← pow-suc) h in grind arith

  length-to_base :
      (f n w : ℕ) (acc : Text) → n < b ^ w → length (to_base f b n acc) ≤ w + length acc
  unfolding to_base
  length-to_base zero n w acc h = omega arith
  length-to_base (suc f) n zero acc h = ground (arith, pow-zero b)
  length-to_base (suc f) n (suc w) acc h =
      ground (arith, length-to_base f (n / b) w (digit (n % b) ∷ acc) (quotient_lt_pow n w h))

  length-render : (n w : ℕ) → 0 < w → n < b ^ w → length (render b n) ≤ w
  unfolding render
  length-render n w p h = ground (arith, length-to_base n n w [] h)

  -- The width is kept exactly while the number fits.
  pub length-zero_pad : (w n : ℕ) → 0 < w → n < b ^ w → length (zero_pad w (render b n)) ≡ w
  unfolding zero_pad
  length-zero_pad w n p h =
      let t = render b n in
      omega (
        arith,
        length-render n w p h,
        length-append (replicate (w - length t) b'0') t,
        length-replicate {A = ℕ} (w - length t) b'0',
      )
