-- ===== src/Config/Options/Reading.antt =====
-- About reading integers out of options (perfrunner/settings.py).
use perfrunner.Prelude.{
  ℕ, zero, suc, ◌+◌, ◌-◌, ◌*◌, ◌/◌, ◌%◌, ◌≤◌, ◌<◌, ◌≡◌, refl, ◌∙◌, ◌≢◌, true, false, [], ◌∷◌, ok,
  arith, Bool-cases, ◌==◌, inl, inr, All, length,
}
use perfrunner.Prelude.Int.{ℤ, pos, negsuc, ◌-ℤ◌, int_laws}
use perfrunner.Text.{Text, digit, digit_value, read_digits, to_base, render, zero_pad, format_int}
use perfrunner.Text.Digits.{read_digits-render}
use perfrunner.Text.Words.{read_int, parse_int}

abbrev IsDecimal : ℕ → Type 0
IsDecimal c = (b'0' ≤ c) × (c ≤ b'9')

read_int-read_digits :
    (t : Text) (acc : ℕ) → All IsDecimal t → read_int true acc t ≡ read_digits 10 acc t
unfolding read_int read_digits digit_value
read_int-read_digits [] acc h = refl
read_int-read_digits (c ∷ t) acc h =
    ground (arith, read_int-read_digits t (acc * 10 + (c - b'0')) h.1)

abbrev IsNumber : Text → Type 0
IsNumber [] = ⊥
IsNumber (c ∷ t) = All IsDecimal (c ∷ t)

read_int-IsNumber : (t : Text) → IsNumber t → read_int false 0 t ≡ read_digits 10 0 t
unfolding read_int read_digits digit_value
read_int-IsNumber [] h = absurd h
read_int-IsNumber (c ∷ t) h = ground (arith, read_int-read_digits t (0 * 10 + (c - b'0')) h.1)

digit-IsDecimal : (d : ℕ) → d < 10 → IsDecimal (digit d)
digit-IsDecimal d h = ground arith

to_base-IsDecimal : (f n : ℕ) (acc : Text) → All IsDecimal acc → All IsDecimal (to_base f 10 n acc)
unfolding to_base
to_base-IsDecimal zero n acc h = h
to_base-IsDecimal (suc f) n acc h = elim (Bool-cases (n == 0)) [
  | inl done ↦ rw done h
  | inr more ↦ rw more (
      to_base-IsDecimal f (n / 10) (digit (n % 10) ∷ acc)
        (digit-IsDecimal (n % 10) (omega arith), h))
]

IsNumber-nonempty : (t : Text) → 0 < length t → All IsDecimal t → IsNumber t
IsNumber-nonempty [] p h = absurd (omega arith)
IsNumber-nonempty (c ∷ t) p h = h

to_base_longer : (f n : ℕ) (acc : Text) → length acc ≤ length (to_base f 10 n acc)
unfolding to_base
to_base_longer zero n acc = omega arith
to_base_longer (suc f) n acc = ground (arith, to_base_longer f (n / 10) (digit (n % 10) ∷ acc))

to_base_nonempty : (f n : ℕ) (acc : Text) → n ≢ 0 → 0 < f → 0 < length (to_base f 10 n acc)
unfolding to_base
to_base_nonempty zero n acc h p = absurd (omega arith)
to_base_nonempty (suc f) n acc h p =
    ground (arith, to_base_longer f (n / 10) (digit (n % 10) ∷ acc))

render-IsNumber : (n : ℕ) → IsNumber (render 10 n)
unfolding render
render-IsNumber n = elim (Bool-cases (n == 0)) [
  | inl done ↦ rw done ((omega arith, omega arith), tt)
  | inr more ↦
      let e : n ≢ 0 = ground arith in
      rw more (
        IsNumber-nonempty (to_base n 10 n []) (to_base_nonempty n n [] e (omega arith))
          (to_base-IsDecimal n n [] tt))
]

parse_int-IsNumber :
    (t : Text) (n : ℕ) → IsNumber t → read_digits 10 0 t ≡ ok n → parse_int t ≡ ok (pos n)
unfolding parse_int
parse_int-IsNumber [] n h e = absurd h
parse_int-IsNumber (c ∷ t) n h e =
    let read : read_int false 0 (c ∷ t) ≡ ok n = read_int-IsNumber (c ∷ t) h ∙ e in
    ground (arith, read)

parse_int-minus :
    (t : Text) (n : ℕ)
    → IsNumber t
    → read_digits 10 0 t ≡ ok (suc n)
    → parse_int (b'-' ∷ t) ≡ ok (negsuc n)
unfolding parse_int
parse_int-minus t n h e =
    let read : read_int false 0 t ≡ ok (suc n) = read_int-IsNumber t h ∙ e in
    let negative : pos 0 -ℤ pos (suc n) ≡ negsuc n = omega int_laws in rw (read, negative) refl

no_padding : (w : ℕ) (t : Text) → w ≡ 0 → zero_pad w t ≡ t
unfolding zero_pad
no_padding w t h = let e : w - length t ≡ 0 = omega arith in rw e refl

-- An integer that is printed in decimals is read back.
pub parse_int-format_int : (z : ℤ) → parse_int (format_int 10 0 z) ≡ ok z
unfolding format_int
parse_int-format_int (pos n) = rw (no_padding 0 (render 10 n) refl) (
    parse_int-IsNumber (render 10 n) n (render-IsNumber n)
      (read_digits-render 10 (omega arith) (omega arith) n))
parse_int-format_int (negsuc n) = rw (no_padding (0 - 1) (render 10 (suc n)) (omega arith)) (
    parse_int-minus (render 10 (suc n)) n (render-IsNumber (suc n))
      (read_digits-render 10 (omega arith) (omega arith) (suc n)))
