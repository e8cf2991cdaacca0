-- ===== src/Documents/Basic.antt =====
-- `next` of the documents of spring/docgen.py that are made of the fields alone. `draws i` is the raw
-- value of the i-th call of `random.randint`.
use perfrunner.Prelude.{
  ℕ, ◌+◌, ◌-◌, ◌*◌, [], ◌∷◌, Result, ◌>>=◌, ltb, leb, if◌then◌else◌, slice, length, take, drop,
}
use perfrunner.Prelude.Int.{ℤ, pos, Ratio, to_ℕ, mod_ℤ, times, ◌-ℤ◌}
use perfrunner.Text.{Text}
use perfrunner.Keys.{prime, hex_digest}
use perfrunner.Generators.{randint}
use perfrunner.Documents.{
  Json, Env, ok_text, ◌~>◌, dict, build_string, build_large_string, build_item, reverse,
}
use perfrunner.Documents.Fields.{
  build_name, build_email, build_alt_email, build_city, build_realm, build_country, build_county,
  build_street, build_coins, build_gmtime, build_year, build_category, build_state,
  build_full_state, build_achievements,
}

-- `Document._size`, with the class's OVERHEAD: a numerator and a denominator.
unfoldable pub document_size : ℕ → Ratio → ℕ → ℤ × ℕ
document_size overhead coeff avg_size =
    if leb avg_size overhead
    then (pos 0, 1)
    else (pos ((avg_size - overhead) * coeff.num), coeff.den)

-- What `NestedDocument._size` draws: the uniform number that tells outliers, the normal sample
-- (a numerator and a denominator), and the beta sample.
pub record NestedDraws : Type 0 where
  pub uniform : Ratio
  pub normal : ℤ × ℕ
  pub beta : Ratio

-- `NestedDocument._size`
unfoldable pub nested_size : NestedDraws → ℕ → ℤ × ℕ
nested_size d avg_size =
    if leb avg_size 450
    then (pos 0, 1)
    else if ltb (d.uniform.num * 1000) (975 * d.uniform.den)
    then (times d.normal.0 (avg_size - 450), d.normal.1)
    else (pos (2048 * d.beta.den), d.beta.num)

abbrev nest : Result Json → Result Json
nest r = dict ("f" ~> r ∷ [])

module _ (env : Env) (draws : ℕ → ℕ) (a : Text) where
  -- `Document.next`
  unfoldable pub document : Ratio → ℕ → Result Json
  unfolding document_size
  document coeff avg_size =
      let size = document_size 210 coeff avg_size in
      dict (
        "name" ~> build_name a
        ∷ "email" ~> build_email a
        ∷ "alt_email" ~> build_alt_email (draws 0) (draws 1) a
        ∷ "city" ~> build_city a
        ∷ "realm" ~> build_realm a
        ∷ "coins" ~> build_coins a
        ∷ "category" ~> build_category a
        ∷ "achievements" ~> build_achievements a
        ∷ "body" ~> ok_text (build_string a size.0 size.1)
        ∷ [])

  -- `NestedDocument.next`
  unfoldable pub nested_document : NestedDraws → ℕ → Result Json
  unfolding nested_size
  nested_document d avg_size =
      let size = nested_size d avg_size in
      dict (
        "name" ~> nest (nest (nest (build_name a)))
        ∷ "email" ~> nest (nest (build_email a))
        ∷ "alt_email" ~> nest (nest (build_alt_email (draws 0) (draws 1) a))
        ∷ "street" ~> nest (nest (build_street a))
        ∷ "city" ~> nest (nest (build_city a))
        ∷ "county" ~> nest (nest (build_county a))
        ∷ "state" ~> nest (build_state env a)
        ∷ "full_state" ~> nest (build_full_state env a)
        ∷ "country" ~> nest (build_country a)
        ∷ "realm" ~> nest (build_realm a)
        ∷ "coins" ~> nest (build_coins a)
        ∷ "category" ~> build_category a
        ∷ "achievements" ~> build_achievements a
        ∷ "gmtime" ~> build_gmtime env a
        ∷ "year" ~> build_year a
        ∷ "body" ~> ok_text (build_string a size.0 size.1)
        ∷ [])

  -- LOREM[offset:offset + TEXT_LENGTH], at an offset modulo the length of the rest
  unfoldable pub lorem_part : ℤ → Result Json
  lorem_part n = mod_ℤ n (pos (length env.lorem) -ℤ pos 128) >>= λ offset.
      ok_text (slice (to_ℕ offset) (to_ℕ offset + 128) env.lorem)

  -- `LargeDocument.next`
  unfoldable pub large_document : Ratio → ℕ → ℤ → Result Json
  unfolding document_size
  large_document coeff avg_size number =
      let size = document_size 680 coeff avg_size in
      dict (
        "id" ~> ok_text a
        ∷ "revered_id" ~> ok_text (reverse a)
        ∷ "code" ~> ok_text (hex_digest env.hash128 a)
        ∷ "name" ~> build_name a
        ∷ "email" ~> build_email a
        ∷ "city" ~> build_city a
        ∷ "county" ~> build_county a
        ∷ "state" ~> build_state env a
        ∷ "full_state" ~> build_full_state env a
        ∷ "country" ~> build_country a
        ∷ "realm" ~> build_realm a
        ∷ "coins" ~> build_coins a
        ∷ "category" ~> build_category a
        ∷ "achievements" ~> build_achievements a
        ∷ "gmtime" ~> build_gmtime env a
        ∷ "year" ~> build_year a
        ∷ "padding" ~> ok_text (build_large_string env.hash128 a size.0 (size.1 * 3))
        ∷ "notes" ~> ok_text (build_large_string env.hash128 (reverse a) size.0 (size.1 * 3))
        ∷ "text" ~> ok_text (build_large_string env.hash128 (take 16 a) size.0 (size.1 * 3))
        ∷ "lorem" ~> lorem_part (times number prime)
        ∷ [])

  -- `GSIMultiIndexDocument.next`
  unfoldable pub gsi_multi_index_document : Ratio → ℕ → Result Json
  unfolding document_size
  gsi_multi_index_document coeff avg_size =
      let size = document_size 210 coeff avg_size in
      dict (
        "name" ~> build_alt_email (draws 0) (draws 1) a
        ∷ "email" ~> build_email a
        ∷ "alt_email" ~> build_alt_email (draws 2) (draws 3) a
        ∷ "city" ~> build_alt_email (draws 4) (draws 5) a
        ∷ "realm" ~> build_realm a
        ∷ "coins" ~> build_coins a
        ∷ "category" ~> build_category a
        ∷ "achievements" ~> build_achievements a
        ∷ "body" ~> ok_text (build_string a size.0 size.1)
        ∷ [])

  -- `SmallPlasmaDocument.next`
  unfoldable pub small_plasma_document : Result Json
  small_plasma_document = dict ("alt_email" ~> build_alt_email (draws 0) (draws 1) a ∷ [])

  -- `LargeItemPlasmaDocument.next`
  unfoldable pub item_document : Ratio → ℕ → ℕ → Result Json
  unfolding document_size build_item
  item_document coeff avg_size item_size =
      let size = document_size 210 coeff avg_size in
      dict (
        "name" ~> build_name a
        ∷ "email" ~> build_email a
        ∷ "alt_email" ~> build_alt_email (draws 0) (draws 1) a
        ∷ "city" ~> (build_item a (draws 2) item_size [] >>= ok_text)
        ∷ "realm" ~> build_realm a
        ∷ "coins" ~> build_coins a
        ∷ "category" ~> build_category a
        ∷ "achievements" ~> build_achievements a
        ∷ "body" ~> ok_text (build_string a size.0 size.1)
        ∷ [])

  -- `VaryingItemSizePlasmaDocument.next`: the length of the item is drawn before the fields.
  unfoldable pub varying_item_document : Ratio → ℕ → ℕ → ℕ → Result Json
  unfolding item_document
  varying_item_document coeff avg_size size_min size_max =
      randint (draws 3) (pos size_min) (pos size_max) >>= λ len.
      item_document coeff avg_size (to_ℕ len)

  -- `EventingSmallDocument.next`
  unfoldable pub eventing_small_document : Result Json
  eventing_small_document = dict (
      "name" ~> build_name a
      ∷ "alt_email" ~> build_alt_email (draws 0) (draws 1) a
      ∷ "coins" ~> build_coins a
      ∷ [])

  -- `SequentialPlasmaDocument.next`: the prefix of the item is `key.string[-12:]`
  unfoldable pub sequential_plasma_document : Text → Result Json
  unfolding build_item
  sequential_plasma_document key =
      dict ("city" ~> (build_item a (draws 0) 17 (drop (length key - 12) key) >>= ok_text) ∷ [])
