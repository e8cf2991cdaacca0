-- ===== src/Documents/Fields.antt =====
-- The fields of documents (spring/docgen.py, spring/fastdocgen.c), cut out of the alphabet of a key.
use perfrunner.Prelude.{
  ℕ, zero, suc, ◌+◌, ◌*◌, ◌%◌, List, [], ◌∷◌, ◌++◌, Result, ok, err, ◌>>=◌, index_error, Option,
  some, none, ltb, ◌==◌, if◌then◌else◌, slice, length, get_elem?,
}
use perfrunner.Prelude.Int.{ℤ, pos, negsuc, to_ℕ, mod_ℤ}
use perfrunner.Text.{Text, codes, int_of, digit_value}
use perfrunner.Generators.{randint}
use perfrunner.Documents.{Json, int, real, array, ints, Env, ok_text, char_at}

abbrev at_com : Text → Text → Text
at_com name domain = name ++ b'@' ∷ domain ++ codes ".com"

unfoldable pub build_name : Text → Result Json
build_name a = ok_text (slice 0 6 a ++ b' ' ∷ slice 6 12 a)

unfoldable pub build_email : Text → Result Json
build_email a = ok_text (at_com (slice 12 18 a) (slice 18 24 a))

-- The two draws of `random.randint` are arguments.
unfoldable pub build_alt_email : ℕ → ℕ → Text → Result Json
build_alt_email d e a = randint d (pos 1) (pos 9) >>= λ name.
    randint e (pos 12) (pos 18) >>= λ domain.
    ok_text (at_com (slice (to_ℕ name) (to_ℕ name + 6) a) (slice (to_ℕ domain) (to_ℕ domain + 6) a))

unfoldable pub build_city : Text → Result Json
build_city a = ok_text (slice 24 30 a)

unfoldable pub build_realm : Text → Result Json
build_realm a = ok_text (slice 30 36 a)

unfoldable pub build_country : Text → Result Json
build_country a = ok_text (slice 42 48 a)

unfoldable pub build_county : Text → Result Json
build_county a = ok_text (slice 48 54 a)

unfoldable pub build_street : Text → Result Json
build_street a = ok_text (slice 54 62 a)

-- max(0.1, int(alphabet[36:40], 16) / 100)
unfoldable pub build_coins : Text → Result Json
unfolding int_of
build_coins a = int_of 16 (slice 36 40 a) >>= λ n.
    ok (real (record { num = if ltb 10 n then n else 10; den = 100 }))

unfoldable pub build_gmtime : Env → Text → Result Json
unfolding char_at int_of
build_gmtime env a =
    char_at a 63 >>= λ c. int_of 16 c >>= λ n. ok (env.gmtime (396 * 24 * 3600 * (n % 12)))

unfoldable pub build_year : Text → Result Json
unfolding char_at int_of
build_year a = char_at a 62 >>= λ c. int_of 16 c >>= λ n. ok (int (pos (1985 + n)))

unfoldable pub category : Text → Result ℕ
unfolding char_at int_of
category a = char_at a 41 >>= λ c. int_of 16 c >>= λ n. ok (n % 3)

unfoldable pub build_category : Text → Result Json
unfolding category
build_category a = category a >>= λ n. ok (int (pos n))

-- `str.find` of a character, behind the first i characters
unfoldable pub find_from : ℕ → ℕ → Text → ℤ
find_from i c [] = negsuc 0
find_from i c (d ∷ t) = let rest = find_from (i + 1) c t in if c == d then pos i else rest

-- xs[alphabet.find(c) % len(xs)]
unfoldable pub found {ℓ} : {A : Type ℓ} → List A → ℕ → Text → Result A
unfolding find_from
found xs c a = mod_ℤ (find_from 0 c a) (pos (length xs)) >>= λ idx. elim (get_elem? xs (to_ℕ idx)) [
  | none ↦ err index_error
  | some x ↦ ok x
]

unfoldable pub build_state : Env → Text → Result Json
unfolding found
build_state env a = found env.states b'7' a >>= λ s. ok_text s.0

unfoldable pub build_full_state : Env → Text → Result Json
unfolding found
build_full_state env a = found env.states b'8' a >>= λ s. ok_text s.1

-- `strtol` on one character: its value as a hexadecimal digit, or 0; also 0 on the end of the text.
unfoldable pub hex_char : Option ℕ → ℕ
unfolding digit_value
hex_char none = 0
hex_char (some c) = elim (digit_value c) [ err e ↦ 0 | ok d ↦ d ]

-- The loop of `build_achievements` in spring/fastdocgen.c, from the character i on.
unfoldable pub achievements_from : ℕ → ℕ → ℕ → Text → List ℤ
unfolding hex_char
achievements_from zero i achievement a = []
achievements_from (suc n) i achievement a =
    let next = (achievement + hex_char (get_elem? a (i + 42)) * i) % 512 in
    let rest = achievements_from n (i + 1) next a in if ltb next 256 then pos next ∷ rest else rest

-- [0] stands in for no achievements
unfoldable pub or_zero : List ℤ → List ℤ
or_zero [] = pos 0 ∷ []
or_zero (n ∷ ns) = n ∷ ns

-- `Document.build_achievements`
unfoldable pub build_achievements : Text → Result Json
unfolding achievements_from or_zero
build_achievements a = ok (array (ints (or_zero (achievements_from 16 0 256 a))))
