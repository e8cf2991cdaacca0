-- ===== src/Keys.antt =====
-- Document keys (spring/docgen.py): how a number becomes a key, and the `Key` object.
pub mod Format
pub mod Prefix
use perfrunner.Prelude.{ℕ, ◌+◌, ◌^◌, Bool, List, [], ◌∷◌, ◌++◌, if◌then◌else◌, take}
use perfrunner.Prelude.Int.{ℤ, pos, times, mod_floor}
use perfrunner.Text.{Text, codes, format_int, eq_text}

abbrev pub prime : ℕ
prime = 4889388631

abbrev pub max_prime : ℕ
max_prime = 25191867719

abbrev pub offset : ℕ
offset = 25000000000

abbrev pub hash_length : ℕ
hash_length = 16

-- '%s-%s' % (prefix, key), where the prefix is not empty
unfoldable pub prefixed : Text → Text → Text
prefixed [] key = key
prefixed (c ∷ prefix) key = (c ∷ prefix) ++ b'-' ∷ key

unfoldable pub decimal_fmtr : ℤ → Text → Text
unfolding prefixed
decimal_fmtr key prefix = prefixed prefix (format_int 10 12 key)

-- OFFSET + (key * PRIME) % MAX_PRIME
unfoldable pub hex_number : ℤ → ℕ
hex_number key = offset + mod_floor (times key prime) max_prime

unfoldable pub hex_fmtr : ℤ → Text → Text
unfolding prefixed hex_number
hex_fmtr key prefix = prefixed prefix (format_int 16 36 (pos (hex_number key ^ 4)))

-- `spooky.hash128` is not part of the repository.
module _ (hash128 : Text → ℕ) where
  unfoldable pub hex_digest : Text → Text
  hex_digest key = format_int 16 32 (pos (hash128 key))

  unfoldable pub hash_fmtr : ℤ → Text → Text
  unfolding hex_digest decimal_fmtr
  hash_fmtr key prefix = take hash_length (hex_digest (decimal_fmtr key prefix))

pub record Key : Type 0 where
  pub number : ℤ
  pub prefix : Text
  pub fmtr : Text
  pub hit : Bool

-- `Key.string`
unfoldable pub key_string : (Text → ℕ) → Key → Text
key_string hash128 k =
    if eq_text k.fmtr (codes "hash")
    then hash_fmtr hash128 k.number k.prefix
    else if eq_text k.fmtr (codes "hex")
    then hex_fmtr k.number k.prefix
    else decimal_fmtr k.number k.prefix
