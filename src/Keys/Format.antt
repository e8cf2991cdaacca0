-- ===== src/Keys/Format.antt =====
-- About the formatters of spring/docgen.py: reading keys back, and their width.
use perfrunner.Prelude.{
  ℕ, suc, ◌+◌, ◌*◌, ◌^◌, ◌≤◌, ◌<◌, ◌≡◌, refl, ◌∙◌, sym, ap, [], ◌∷◌, ◌++◌, ok, arith, length, drop,
  length-append,
}
use perfrunner.Prelude.Int.{pos}
use native.Mathlib.Nat.{pow-suc, pow-zero}
use perfrunner.Text.{Text, format_int, read_digits}
use perfrunner.Text.Digits.{read_digits-zero_pad, length-zero_pad}
use perfrunner.Keys.{max_prime, offset, prefixed, decimal_fmtr, hex_number, hex_fmtr}

-- What stands behind the prefix and its dash.
abbrev pub suffix : Text → Text → Text
suffix [] key = key
suffix (c ∷ prefix) key = drop (suc (suc (length prefix))) key

drop-append : (p : Text) (c : ℕ) (t : Text) → drop (suc (length p)) (p ++ c ∷ t) ≡ t
drop-append [] c t = refl
drop-append (d ∷ p) c t = drop-append p c t

suffix-prefixed : (p t : Text) → suffix p (prefixed p t) ≡ t
unfolding prefixed
suffix-prefixed [] t = refl
suffix-prefixed (c ∷ p) t = drop-append p b'-' t

-- A decimal key is read back: behind the prefix stands the number of the document.
pub int-decimal_fmtr :
    (n : ℕ) (prefix : Text) → read_digits 10 0 (suffix prefix (decimal_fmtr (pos n) prefix)) ≡ ok n
unfolding decimal_fmtr format_int
int-decimal_fmtr n prefix =
    rw suffix-prefixed (read_digits-zero_pad 10 (omega arith) (omega arith) 12 n)

-- Different documents have different decimal keys.
pub decimal_fmtr-injective :
    (m n : ℕ) (prefix : Text) → decimal_fmtr (pos m) prefix ≡ decimal_fmtr (pos n) prefix → m ≡ n
decimal_fmtr-injective m n prefix e =
    let same : ok m ≡ ok n = sym (int-decimal_fmtr m prefix) ∙ (rw e (int-decimal_fmtr n prefix)) in
    cc same

hex_number-injective :
    (m n : ℕ) → m < max_prime → n < max_prime → hex_number (pos m) ≡ hex_number (pos n) → m ≡ n
unfolding hex_number
hex_number-injective m n hm hn e = omega arith

pow_two : (a : ℕ) → a ^ 2 ≡ a * a
pow_two a = pow-suc a 1 ∙ ap (λ t. t * a) (pow-suc a 0 ∙ (rw pow-zero (omega arith)))

pow_four : (a : ℕ) → a ^ 4 ≡ a * a * (a * a)
pow_four a = pow-suc a 3 ∙ ap (λ t. t * a) (pow-suc a 2 ∙ ap (λ t. t * a) (pow_two a)) ∙ omega arith

square_lt : (a b : ℕ) → a < b → a * a < b * b
square_lt a b h = grind arith

fourth_lt : (a b : ℕ) → a < b → a ^ 4 < b ^ 4
fourth_lt a b h = rw (pow_four a, pow_four b) (square_lt (a * a) (b * b) (square_lt a b h))

fourth_injective : (a b : ℕ) → a ^ 4 ≡ b ^ 4 → a ≡ b
fourth_injective a b e = grind (arith, fourth_lt a b, fourth_lt b a)

hex_number_bounds :
    (n : ℕ) → (offset ≤ hex_number (pos n)) × (hex_number (pos n) < offset + max_prime)
unfolding hex_number
hex_number_bounds n = (omega arith, omega arith)

fourth_le : (a b : ℕ) → a ≤ b → a ^ 4 ≤ b ^ 4
fourth_le a b h = grind (arith, fourth_lt a b)

-- The fourth power of a hashed number fits into 36 hexadecimal digits.
hex_number_fits : (n : ℕ) → hex_number (pos n) ^ 4 < 16 ^ 36
hex_number_fits n = omega (
  arith,
  fourth_le (hex_number (pos n)) (offset + max_prime) (omega (arith, (hex_number_bounds n).1)),
)

length-prefixed : (p t : Text) → length (prefixed p t) ≡ length (prefixed p []) + length t
unfolding prefixed
length-prefixed [] t = omega arith
length-prefixed (c ∷ p) t = omega (arith, length-append p (b'-' ∷ t), length-append p (b'-' ∷ []))

int-hex_fmtr :
    (n : ℕ) (prefix : Text)
    → read_digits 16 0 (suffix prefix (hex_fmtr (pos n) prefix)) ≡ ok (hex_number (pos n) ^ 4)
unfolding hex_fmtr format_int
int-hex_fmtr n prefix =
    rw suffix-prefixed
      (read_digits-zero_pad 16 (omega arith) (omega arith) 36 (hex_number (pos n) ^ 4))

-- Under one prefix, the first max_prime documents have different hexadecimal keys.
pub hex_fmtr-injective :
    (m n : ℕ) (prefix : Text)
    → m < max_prime
    → n < max_prime
    → hex_fmtr (pos m) prefix ≡ hex_fmtr (pos n) prefix
    → m ≡ n
unfolding hex_fmtr format_int
hex_fmtr-injective m n prefix hm hn e = hex_number-injective m n hm hn (
    fourth_injective (hex_number (pos m)) (hex_number (pos n)) (
      cc (
        int-hex_fmtr m prefix,
        int-hex_fmtr n prefix,
        ap (λ t. read_digits 16 0 (suffix prefix t)) e,
      )))

-- The hexadecimal key of every document has 36 characters behind its prefix and the dash.
pub length-hex_fmtr :
    (n : ℕ) (prefix : Text) → length (hex_fmtr (pos n) prefix) ≡ length (prefixed prefix []) + 36
unfolding hex_fmtr format_int
length-hex_fmtr n prefix = rw length-prefixed (
    omega (
      arith,
      length-zero_pad 16 (omega arith) (omega arith) 36 (hex_number (pos n) ^ 4) (omega arith)
          (hex_number_fits n),
    ))

-- The decimal key of a document below 10 ^ 12 has 12 characters behind its prefix and the dash.
pub length-decimal_fmtr :
    (n : ℕ) (prefix : Text)
    → n < 10 ^ 12
    → length (decimal_fmtr (pos n) prefix) ≡ length (prefixed prefix []) + 12
unfolding decimal_fmtr format_int
length-decimal_fmtr n prefix h =
    rw length-prefixed
      (omega (arith, length-zero_pad 10 (omega arith) (omega arith) 12 n (omega arith) h))
