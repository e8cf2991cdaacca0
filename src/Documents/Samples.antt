-- ===== src/Documents/Samples.antt =====
-- The documents of spring/docgen.py that are drawn from word lists. The raw value of each call of
-- `random.randint` is `draws i`, and the values of the i-th call of `random.sample` are `picks i`.
use perfrunner.Prelude.{
  ℕ, zero, suc, ◌+◌, ◌-◌, ◌*◌, ◌%◌, ◌^◌, List, [], ◌∷◌, ◌++◌, Result, ok, err, value_error, ◌>>=◌,
  length, get_elem?, take, drop,
}
use perfrunner.Prelude.Int.{ℤ, pos, ◌-ℤ◌, to_ℕ, Ratio, div_floor, mod_ℤ, times}
use perfrunner.Text.{Text, format_int, int_of}
use perfrunner.Text.Words.{split_on}
use perfrunner.Keys.{prime, hex_digest}
use perfrunner.Generators.{randint}
use perfrunner.Documents.{
  Json, int, real, array, Env, ok_text, texts, ◌~>◌, dict, or_index_error, reverse,
  build_large_string,
}
use perfrunner.Documents.Fields.{
  build_name, build_email, build_alt_email, build_city, build_realm, build_country, build_county,
  build_coins, build_gmtime, build_year, build_category, build_state, build_full_state,
  build_achievements,
}
use perfrunner.Documents.Basic.{document_size, lorem_part}
use perfrunner.Documents.Transfer.{random_times, inside}

-- The lists of spring/dictionary.py that these documents use, and what the libraries compute.
pub record Lists : Type 0 where
  pub categories : List Text
  pub counties : List Text
  pub education_statuses : List Text
  pub genders : List Text
  pub marital_statuses : List Text
  pub years : List ℤ
  pub zip_codes : List Text
  pub package_statuses : List Text
  pub words : List Text
  pub hash64 : Text → ℕ
  pub shipping_date : ℤ → Text

-- The element at an index, in front of the others.
abbrev pub pick {ℓ} : {A : Type ℓ} → A → List A → ℕ → A × List A
pick x xs zero = (x, xs)
pick x [] (suc i) = (x, [])
pick x (y ∷ xs) (suc i) = let (z, others) = pick y xs i in (z, x ∷ others)

-- `random.sample(xs, k)`, which draws without replacement
unfoldable pub sample {ℓ} : {A : Type ℓ} → (ℕ → ℕ) → ℕ → List A → Result (List A)
sample picks zero xs = ok []
sample picks (suc k) [] = err value_error
sample picks (suc k) (x ∷ xs) =
    let (y, others) = pick x xs (picks k % suc (length xs)) in
    sample picks k others >>= λ ys. ok (y ∷ ys)

-- idx = random.randint(0, len(xs) - 1); xs[idx]
unfoldable pub choice {ℓ} : {A : Type ℓ} → ℕ → List A → Result A
choice draw xs = randint draw (pos 0) (pos (length xs) -ℤ pos 1) >>= λ idx.
    or_index_error (get_elem? xs (to_ℕ idx))

abbrev choose_text : ℕ → List Text → Result Json
choose_text draw xs = choice draw xs >>= λ t. ok_text t

abbrev random_int : ℕ → ℕ → ℕ → Result Json
random_int draw low high = randint draw (pos low) (pos high) >>= λ n. ok (int n)

abbrev sampled : (ℕ → ℕ) → ℕ → List Text → Result Json
sampled picks k xs = sample picks k xs >>= λ ts. ok (array (texts ts))

-- `" ".join(ts)`
abbrev join_words : List Text → Text
join_words [] = []
join_words (t ∷ []) = t
join_words (t ∷ (u ∷ ts)) = t ++ (b' ' ∷ join_words (u ∷ ts))

module _ (env : Env) (lists : Lists) (draws : ℕ → ℕ) (picks : ℕ → ℕ → ℕ) where
  -- `TpcDsDocument.next`
  unfoldable pub tpc_ds_document : Result Json
  unfolding choice sample
  tpc_ds_document = dict (
      "categories" ~> sampled (picks 0) 2 lists.categories
      ∷ "counties" ~> sampled (picks 1) 10 lists.counties
      ∷ "day_of_year" ~> random_int (draws 0) 1 180
      ∷ "education_status" ~> choose_text (draws 1) lists.education_statuses
      ∷ "gender" ~> choose_text (draws 2) lists.genders
      ∷ "manufacturer_id" ~> random_int (draws 3) 1 1000
      ∷ "marital_status" ~> choose_text (draws 4) lists.marital_statuses
      ∷ "month" ~> random_int (draws 5) 1 7
      ∷ "sales_price" ~> random_int (draws 6) 35 40
      ∷ "state" ~> (choice (draws 7) env.states >>= λ s. ok_text s.0)
      ∷ "quarter" ~> random_int (draws 8) 1 4
      ∷ "year" ~> (choice (draws 9) lists.years >>= λ y. ok (int y))
      ∷ "zip_codes" ~> sampled (picks 2) 50 lists.zip_codes
      ∷ [])

  -- `build_account_id`
  unfoldable pub build_account_id : ℤ → ℕ → Result Json
  build_account_id key repeated =
      ok_text (format_int 16 16 (pos (lists.hash64 (format_int 10 0 (div_floor key repeated)))))

  -- `address`
  unfoldable pub address : ℤ → Text → Result Json
  unfolding int_of
  address key alphabet = mod_ℤ key (pos (length env.street_suffix)) >>= λ i.
      or_index_error (get_elem? env.street_suffix (to_ℕ i)) >>= λ suffix.
      int_of 16 (take 4 alphabet) >>= λ n.
      ok_text (format_int 10 0 (pos n) ++ (b' ' ∷ (drop 50 alphabet ++ (b' ' ∷ suffix))))

  -- `PackageDocument.next`; the rounded floats are arguments.
  unfoldable pub package_document : Ratio → Ratio → ℤ → Text → Text → Result Json
  unfolding build_account_id choice address
  package_document weight charges number key a = dict (
      "minorAccountId" ~> build_account_id number (10 ^ 6)
      ∷ "majorAccountId" ~> build_account_id number (10 ^ 7)
      ∷ "packageStatus" ~> choose_text (draws 0) lists.package_statuses
      ∷ "bcdnNumber" ~> ok_text (format_int 16 32 (pos (env.hash128 key)))
      ∷ "shippingDate" ~> ok_text (lists.shipping_date number)
      ∷ "address" ~> address number a
      ∷ "postalCode" ~> choose_text (draws 1) lists.zip_codes
      ∷ "weight" ~> ok (real weight)
      ∷ "charges" ~> ok (real charges)
      ∷ [])

  -- `get_words`
  unfoldable pub get_words : ℕ → (ℕ → ℕ) → ℕ → Result Json
  unfolding sample
  get_words draw chosen num = randint draw (pos 0) (pos 4) >>= λ factor.
      sample chosen (num - 2 + to_ℕ factor) lists.words >>= λ ts. ok_text (join_words ts)

  -- `MultiBucketDocument.next`
  unfoldable pub multi_bucket_document : Text → Result Json
  unfolding get_words
  multi_bucket_document a = dict (
      "name" ~> build_name a
      ∷ "email" ~> build_email a
      ∷ "alt_email" ~> build_alt_email (draws 0) (draws 1) a
      ∷ "fts_more_words" ~> get_words (draws 2) (picks 0) 140
      ∷ "fts_less_words" ~> get_words (draws 3) (picks 1) 3
      ∷ "category" ~> build_category a
      ∷ [])

  -- `key.string.split("-")[1]`
  unfoldable pub identifier : Text → Result Text
  unfolding split_on
  identifier key = or_index_error (get_elem? (split_on b'-' key) 1)

  abbrev large_text : Text → ℤ × ℕ → Result Json
  large_text a size = ok_text (build_large_string env.hash128 a size.0 (size.1 * 3))

  -- `AdvFilterDocument.next`; its identifier is computed in front of the fields.
  unfoldable pub adv_filter_document : Ratio → ℕ → ℤ → Text → Text → Result Json
  unfolding identifier random_times
  adv_filter_document coeff avg_size number key a =
      let size = document_size 680 coeff avg_size in
      lorem_part env draws a (times number prime) >>= λ lorem. identifier key >>= λ id. dict (
        "id" ~> ok_text a
        ∷ "revered_id" ~> ok_text (reverse a)
        ∷ "code" ~> ok_text (hex_digest env.hash128 a)
        ∷ "name" ~> build_name a
        ∷ "email" ~> build_email a
        ∷ "city" ~> build_city a
        ∷ "county" ~> build_county a
        ∷ "state" ~> build_state env a
        ∷ "full_state" ~> build_full_state env a
        ∷ "country" ~> build_country a
        ∷ "realm" ~> build_realm a
        ∷ "coins" ~> build_coins a
        ∷ "category" ~> build_category a
        ∷ "achievements" ~> build_achievements a
        ∷ "gmtime" ~> build_gmtime env a
        ∷ "year" ~> build_year a
        ∷ "padding" ~> large_text a size
        ∷ "notes" ~> large_text (reverse a) size
        ∷ "text" ~> large_text (take 16 a) size
        ∷ "lorem" ~> ok lorem
        ∷ "identifier1" ~> ok_text id
        ∷ "identifier2"
          ~> dict ("n" ~> inside "a" "m" "e" "s" (random_times (draws 0) 3 (build_name a)) ∷ [])
        ∷ [])

  -- `AdvFilterXattrBody.next`
  unfoldable pub adv_filter_xattr_body : Ratio → ℕ → Text → Text → Result Json
  unfolding identifier
  adv_filter_xattr_body coeff avg_size key a = identifier key >>= λ id. dict (
      "identifier1" ~> ok_text id
      ∷ "city" ~> build_city a
      ∷ "text" ~> large_text (take 16 a) (document_size 680 coeff avg_size)
      ∷ [])
