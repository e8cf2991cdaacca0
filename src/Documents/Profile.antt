-- ===== src/Documents/Profile.antt =====
-- The profile documents of spring/docgen.py.
use perfrunner.Prelude.{
  ℕ, ◌+◌, ◌*◌, [], ◌∷◌, ◌++◌, Result, ok, ◌>>=◌, ◌==◌, if◌then◌else◌, get_elem?, length,
}
use perfrunner.Prelude.Int.{ℤ, pos, to_ℕ, mod_floor, ◌-ℤ◌}
use perfrunner.Text.{Text}
use perfrunner.Generators.{randint}
use perfrunner.Documents.{Json, Env, ok_text, ◌~>◌, dict, build_string, or_index_error}
use perfrunner.Documents.Fields.{
  build_name, build_city, build_realm, build_county, build_street, build_coins, build_gmtime,
  build_year, category, build_state, found,
}
use perfrunner.Documents.Lookup.{is_random, lookup_size, lookup_email, build_capped, decimal}

-- `capped.replace('_', '')`
unfoldable pub without_underscores : Text → Text
without_underscores [] = []
without_underscores (c ∷ t) =
    let rest = without_underscores t in if c == b'_' then rest else c ∷ rest

-- `ProfileDocument.build_capped`
unfoldable pub profile_capped : Text → ℕ → Text → ℤ → ℕ → Result Text
unfolding without_underscores
profile_capped prefix draw a seq_id num_unique =
    build_capped prefix draw a seq_id num_unique >>= λ capped. ok (without_underscores capped)

-- `ProfileDocument.build_zip`
unfoldable pub build_zip : Text → ℕ → ℤ → Result Text
build_zip prefix draw seq_id =
    if is_random prefix
    then (randint draw (pos 70000) (pos 90000) >>= λ zip_code. ok (decimal zip_code))
    else ok (decimal (pos (70000 + mod_floor seq_id 20000)))

-- '%d %s %s %s' % (num, capped_small, capped_large, suffix)
abbrev street_line : ℤ → Text → Text → Text → Text
street_line num capped_small capped_large suffix =
    decimal num ++ b' ' ∷ (capped_small ++ b' ' ∷ (capped_large ++ b' ' ∷ suffix))

-- `ProfileDocument.build_long_street`
unfoldable pub build_long_street : Env → Text → ℕ → ℕ → Text → ℤ → Text → Text → Result Text
build_long_street env prefix d e a seq_id capped_small capped_large =
    if is_random prefix
    then (randint d (pos 0) (pos 1000) >>= λ num.
        randint e (pos 0) (pos (length env.street_suffix) -ℤ pos 1) >>= λ idx.
        or_index_error (get_elem? env.street_suffix (to_ℕ idx)) >>= λ suffix.
        ok (street_line num capped_small capped_large suffix))
    else (found env.street_suffix b'7' a >>= λ suffix.
        ok (street_line (pos (mod_floor seq_id 5000)) capped_small capped_large suffix))

-- `ProfileDocument.next`
unfoldable pub profile_document :
    (env : Env) (draws : ℕ → ℕ) (prefix a : Text) (avg_size : ℕ) (number : ℤ) → Result Json
profile_document env draws prefix a avg_size number =
    let size = lookup_size 390 avg_size in
    category a >>= λ c.
    profile_capped prefix (draws 2) a number (1000 * (c + 1)) >>= λ capped_large.
    profile_capped prefix (draws 3) a number 10 >>= λ capped_small. dict (
      "first_name" ~> build_name a
      ∷ "last_name" ~> build_street a
      ∷ "email" ~> lookup_email env draws prefix a
      ∷ "balance" ~> build_coins a
      ∷ "date" ~> dict ("gmtime" ~> build_gmtime env a ∷ "year" ~> build_year a ∷ [])
      ∷ "capped_large" ~> ok_text capped_large
      ∷ "address"
        ~> dict (
            "street" ~> (
              build_long_street env prefix (draws 4) (draws 5) a number capped_small capped_large
              >>= ok_text)
            ∷ "city" ~> build_city a
            ∷ "county" ~> build_county a
            ∷ "state" ~> build_state env a
            ∷ "zip" ~> (build_zip prefix (draws 6) number >>= ok_text)
            ∷ "realm" ~> build_realm a
            ∷ [])
      ∷ "body" ~> ok_text (build_string a size.0 size.1)
      ∷ [])
