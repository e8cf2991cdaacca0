-- ===== src/Documents/Alphabet.antt =====
-- About the alphabet of a key in spring/docgen.py, and the length of what is built from it.
use perfrunner.Prelude.{
  ℕ, zero, suc, ◌+◌, ◌-◌, ◌*◌, ◌/◌, ◌%◌, ◌^◌, ◌≤◌, ◌<◌, ◌≡◌, refl, ◌∙◌, ap, [], ◌∷◌, ◌++◌, ok,
  arith, ◌==◌, Bool-cases, inl, inr, Returns, returns_bind, returns_mono, All, All-append,
  All-replicate, length, length-append, length-repeat, length-slice, length-take, repeat, slice,
  replicate,
}
use native.Mathlib.Nat.{lt-div-mul-add, div-le_of_le-mul, mul-pos}
use perfrunner.Prelude.Int.{pos, ◌+ℤ◌, ◌-ℤ◌, ◌<ℤ◌, int_laws, one_part, to_ℕ, pos--ℤ}
use perfrunner.Text.{Text, digit, digit_value, to_base, render, zero_pad, format_int}
use perfrunner.Text.Digits.{length-zero_pad}
use perfrunner.Keys.{hex_digest}
use perfrunner.Generators.{pick}
use perfrunner.Generators.Space.{randrange_lem, pick_bounds}
use perfrunner.Documents.{
  build_alphabet, build_slices, build_item, rotated_item, ceil_div, reverse, build_incompressible,
}

abbrev pub IsHex : ℕ → Type 0
IsHex c = Returns (digit_value c) (λ d. d < 16)

digit-IsHex : (d : ℕ) → d < 16 → IsHex (digit d)
unfolding digit_value
digit-IsHex d h = ground arith

to_base-IsHex : (f n : ℕ) (acc : Text) → All IsHex acc → All IsHex (to_base f 16 n acc)
unfolding to_base
to_base-IsHex zero n acc h = h
to_base-IsHex (suc f) n acc h = elim (Bool-cases (n == 0)) [
  | inl done ↦ rw done h
  | inr more ↦
      rw more
        (to_base-IsHex f (n / 16) (digit (n % 16) ∷ acc) (digit-IsHex (n % 16) (omega arith), h))
]

render-IsHex : (n : ℕ) → All IsHex (render 16 n)
unfolding render
render-IsHex n = elim (Bool-cases (n == 0)) [
  | inl done ↦ rw done (digit-IsHex 0 (omega arith), tt)
  | inr more ↦ rw more (to_base-IsHex n n [] tt)
]

hex_digest-IsHex : (hash128 : Text → ℕ) (t : Text) → All IsHex (hex_digest hash128 t)
unfolding hex_digest format_int zero_pad
hex_digest-IsHex hash128 t =
    let digits = render 16 (hash128 t) in
    All-append IsHex (replicate (32 - length digits) b'0') digits
      (All-replicate IsHex (32 - length digits) b'0' (digit-IsHex 0 (omega arith)))
      (render-IsHex (hash128 t))

-- 64 hexadecimal digits.
pub record IsAlphabet (a : Text) : Type 0 where
  pub width : length a ≡ 64
  pub digits : All IsHex a

-- A 128-bit hash has 32 hexadecimal digits.
pub length-hex_digest :
    (hash128 : Text → ℕ) (t : Text) → hash128 t < 2 ^ 128 → length (hex_digest hash128 t) ≡ 32
unfolding hex_digest format_int
length-hex_digest hash128 t h =
    length-zero_pad 16 (omega arith) (omega arith) 32 (hash128 t) (omega arith) (omega arith)

-- If the hash is one of 128 bits, the alphabet of every key has 64 characters, which are hexadecimal
-- digits.
pub build_alphabet-IsAlphabet :
    (hash128 : Text → ℕ) (key : Text)
    → ((t : Text) → hash128 t < 2 ^ 128)
    → IsAlphabet (build_alphabet hash128 key)
unfolding build_alphabet
build_alphabet-IsAlphabet hash128 key h = record {
  width =
      length-append (hex_digest hash128 key) (hex_digest hash128 (reverse key))
      ∙ (rw
          (
            length-hex_digest hash128 key (h key),
            length-hex_digest hash128 (reverse key) (h (reverse key)),
          )
          refl);
  digits =
      All-append IsHex (hex_digest hash128 key) (hex_digest hash128 (reverse key))
        (hex_digest-IsHex hash128 key) (hex_digest-IsHex hash128 (reverse key));
}

enough_slices : (n d w : ℕ) → 0 < d → 0 < w → n / d ≤ ceil_div n (d * w) * w
enough_slices n d w p q =
    let slices = ceil_div n (d * w) in
    let below : n + d * w - 1 < slices * (d * w) + d * w = lt-div-mul-add (mul-pos p q) in
    let same : slices * (d * w) ≡ d * (slices * w) = grind arith in div-le_of_le-mul d (omega arith)

-- A string that is built from slices of the width has the wanted length, which is not negative,
-- rounded down.
pub length-build_slices :
    (width : ℕ) (slice : Text) (n d : ℕ)
    → length slice ≡ width
    → 0 < width
    → 0 < d
    → length (build_slices width slice (pos n) d) ≡ n / d
unfolding build_slices
length-build_slices width slice n d e p q =
    let pieces = ceil_div n (d * width) in
    let whole : length (repeat pieces slice) ≡ pieces * width =
      length-repeat pieces slice ∙ ap (λ t. pieces * t) e in
    omega (arith, length-take (n / d) (repeat pieces slice), enough_slices n d width q p)

length-rotated_item :
    (a : Text) (draw n : ℕ)
    → length a ≡ 64
    → 0 < n
    → Returns (rotated_item a draw (pos n)) (λ t. length t ≡ n)
unfolding rotated_item
length-rotated_item a draw n e p =
    let room : pos 1 <ℤ pos n +ℤ pos 1 = omega int_laws in
    let (low, high) = pick_bounds draw (pos 1) (pos n +ℤ pos 1) room in
    let cut = to_ℕ (pick draw (pos 1) (pos n +ℤ pos 1)) in
    let within : cut ≤ n = omega (int_laws, one_part) in
    let body = repeat (ceil_div n 64) a in
    let whole : length body ≡ ceil_div n 64 * 64 =
      length-repeat (ceil_div n 64) a ∙ ap (λ t. ceil_div n 64 * t) e in
    let enough : n ≤ length body = omega arith in
    rw (randrange_lem draw (pos 1) (pos n +ℤ pos 1) room) (
      omega (
        arith,
        length-append (slice cut n body) (slice 0 cut body),
        length-slice cut n body within enough,
        length-slice 0 cut body (omega arith) (omega arith),
      ))

-- How many dashes stand behind a prefix.
abbrev pub dashes : Text → ℕ
dashes [] = 0
dashes (c ∷ prefix) = 1

-- On an alphabet of 64 characters an item has the size that is asked for, and one more for the dash
-- behind a prefix, if the prefix is shorter than the size.
pub length-build_item :
    (a : Text) (draw size : ℕ) (prefix : Text)
    → length a ≡ 64
    → length prefix < size
    → Returns (build_item a draw size prefix) (λ t. length t ≡ size + dashes prefix)
unfolding build_item
length-build_item a draw size [] e p =
    returns_mono _ _ (rotated_item a draw (pos size)) (length-rotated_item a draw size e p)
      λ t h. omega arith
length-build_item a draw size (c ∷ prefix) e p =
    let rest : pos size -ℤ pos (length (c ∷ prefix)) ≡ pos (size - length (c ∷ prefix)) =
      pos--ℤ size (length (c ∷ prefix)) (omega arith) in
    rw rest (
      returns_bind (λ t. length t ≡ size - length (c ∷ prefix)) (λ t. length t ≡ size + 1)
        (rotated_item a draw (pos (size - length (c ∷ prefix))))
        (λ item. ok ((c ∷ prefix) ++ b'-' ∷ item))
        (length-rotated_item a draw (size - length (c ∷ prefix)) e (omega arith))
        λ t h. omega (arith, length-append (c ∷ prefix) (b'-' ∷ t)))

-- An incompressible string is a part of the garbage of the wanted length, if that is long enough.
pub length-build_incompressible :
    (garbage : Text) (draw len : ℕ)
    → len ≤ length garbage
    → Returns (build_incompressible garbage draw len) (λ t. length t ≡ len)
unfolding build_incompressible
length-build_incompressible garbage draw len h =
    let end = pos (length garbage) -ℤ pos len +ℤ pos 1 in
    let room : pos 0 <ℤ end = omega int_laws in
    let (low, high) = pick_bounds draw (pos 0) end room in
    let start = to_ℕ (pick draw (pos 0) end) in
    rw (randrange_lem draw (pos 0) end room) (
      omega (
        arith,
        length-slice start (start + len) garbage (omega arith) (omega (int_laws, one_part)),
      ))
