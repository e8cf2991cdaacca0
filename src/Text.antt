-- ===== src/Text.antt =====
-- Texts as lists of code points, and what the program uses of Python's `%` formatting and `int()`.
pub mod Digits
pub mod Decimal
pub mod Words
pub mod Equality
use Prim.Native.Char.{code}
use Prim.Native.String.{String}
use perfrunner.Prelude.{
  ℕ, zero, suc, ◌+◌, ◌-◌, ◌*◌, ◌/◌, ◌%◌, Bool, true, false, ◌&&◌, List, [], ◌∷◌, ◌++◌, Result, ok,
  err, value_error, ◌>>=◌, ltb, leb, ◌==◌, if◌then◌else◌, length, replicate,
}
use perfrunner.Prelude.Int.{ℤ, pos, negsuc}

abbrev pub Text : Type 0
Text = List ℕ

-- The code points of a literal.
abbrev pub codes : String → Text
codes String.[] = []
codes (String.◌∷◌ c s) = code c ∷ codes s

-- Equality of texts, `==`.
abbrev pub eq_text : Text → Text → Bool
eq_text [] [] = true
eq_text [] (d ∷ t) = false
eq_text (c ∷ s) [] = false
eq_text (c ∷ s) (d ∷ t) = c == d && eq_text s t

-- A digit below 16 as `%x` prints it.
abbrev pub digit : ℕ → ℕ
digit d = if ltb d 10 then b'0' + d else b'a' + (d - 10)

-- The digits of `n` in front of `acc`; the fuel bounds their number.
unfoldable pub to_base : ℕ → ℕ → ℕ → Text → Text
to_base zero b n acc = acc
to_base (suc fuel) b n acc =
    let rest = to_base fuel b (n / b) (digit (n % b) ∷ acc) in if n == 0 then acc else rest

-- '%d' and '%x' of a number that is not negative.
unfoldable pub render : ℕ → ℕ → Text
unfolding to_base
render b n = if n == 0 then b'0' ∷ [] else to_base n b n []

-- Zeros on the left up to the width.
unfoldable pub zero_pad : ℕ → Text → Text
zero_pad width t = replicate (width - length t) b'0' ++ t

-- '%0<width>d' (base 10) and '%0<width>x' (base 16): the sign stands first and counts.
unfoldable pub format_int : ℕ → ℕ → ℤ → Text
unfolding zero_pad render
format_int b width (pos n) = zero_pad width (render b n)
format_int b width (negsuc n) = b'-' ∷ zero_pad (width - 1) (render b (suc n))

-- One hexadecimal digit, `int(c, 16)`.
unfoldable pub digit_value : ℕ → Result ℕ
digit_value c =
    if leb b'0' c && leb c b'9'
    then ok (c - b'0')
    else if leb b'a' c && leb c b'f'
    then ok (c - b'a' + 10)
    else if leb b'A' c && leb c b'F'
    then ok (c - b'A' + 10)
    else err value_error

-- The number that digits spell behind `acc`.
unfoldable pub read_digits : ℕ → ℕ → Text → Result ℕ
unfolding digit_value
read_digits b acc [] = ok acc
read_digits b acc (c ∷ t) = digit_value c >>= λ d. read_digits b (acc * b + d) t

-- `int(t, b)` of a text of bare digits; the empty text is refused.
unfoldable pub int_of : ℕ → Text → Result ℕ
unfolding read_digits
int_of b [] = err value_error
int_of b (c ∷ t) = read_digits b 0 (c ∷ t)
