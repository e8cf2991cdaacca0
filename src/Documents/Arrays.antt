-- ===== src/Documents/Arrays.antt =====
-- The documents of spring/docgen.py with arrays of numbers for array indexes.
use perfrunner.Prelude.{ℕ, ◌*◌, List, [], ◌∷◌, Result, ok, ◌>>=◌, if◌then◌else◌}
use perfrunner.Prelude.Int.{ℤ, pos, div_floor, times, ◌+ℤ◌}
use perfrunner.Text.{Text}
use perfrunner.Generators.{randint}
use perfrunner.Documents.{Json, array, ints, no_value, Env, ok_text, ◌~>◌, dict, build_string}
use perfrunner.Prelude.Range.{stepped}
use perfrunner.Documents.Lookup.{is_random, lookup_size, lookup_email, build_capped}
use perfrunner.Documents.Fields.{
  build_name, build_alt_email, build_city, build_realm, build_country, build_county, build_street,
  build_coins, build_gmtime, build_year, build_category, build_state, build_full_state,
}

-- [int(offset + i) for i in range(size)]
abbrev pub from_offset : ℤ → ℕ → List ℤ
from_offset offset size = stepped size offset 1

-- `ArrayIndexingDocument.build_achievements1`, and that of `ArrayIndexingUniqueDocument`
unfoldable pub build_achievements1 : Text → ℕ → ℕ → ℕ → ℤ → Result (List ℤ)
build_achievements1 prefix draw num_docs array_size seq_id =
    if is_random prefix
    then (randint draw (pos 1) (pos array_size) >>= λ shift. ok (
        from_offset (pos (num_docs * array_size) +ℤ times seq_id (2 * array_size) +ℤ shift)
          array_size))
    else ok (from_offset (times seq_id array_size) array_size)

-- `build_achievements2`: of `ArrayIndexingDocument` with the size ARRAY_SIZE, 10, and of
-- `ArrayIndexingRangeScanDocument` with the size `array_size`
unfoldable pub build_achievements2 : Text → ℕ → ℕ → ℕ → ℤ → Result (List ℤ)
build_achievements2 prefix draw num_docs size seq_id =
    if is_random prefix
    then (randint draw (pos 1) (pos size) >>= λ shift. ok (
        from_offset (pos (num_docs * size) +ℤ times (div_floor (times seq_id 2) 100) size +ℤ shift)
          size))
    else ok (from_offset (times (div_floor seq_id 100) size) size)

module _ (env : Env) (draws : ℕ → ℕ) (prefix a : Text) where
  -- `ArrayIndexingDocument.next`
  unfoldable pub array_indexing_document : ℕ → ℕ → ℕ → ℤ → Result Json
  unfolding lookup_email build_capped build_achievements1 build_achievements2
  array_indexing_document num_docs array_size avg_size number =
      let size = lookup_size 530 avg_size in
      dict (
        "name" ~> build_name a
        ∷ "email" ~> lookup_email env draws prefix a
        ∷ "alt_email" ~> build_alt_email (draws 0) (draws 1) a
        ∷ "street" ~> build_street a
        ∷ "city" ~> build_city a
        ∷ "county" ~> build_county a
        ∷ "state" ~> build_state env a
        ∷ "full_state" ~> build_full_state env a
        ∷ "country" ~> build_country a
        ∷ "realm" ~> build_realm a
        ∷ "coins" ~> build_coins a
        ∷ "category" ~> build_category a
        ∷ "achievements1" ~> (
            build_achievements1 prefix (draws 3) num_docs array_size (number +ℤ pos 1) >>= λ ns.
            ok (array (ints ns)))
        ∷ "achievements2" ~> (
            build_achievements2 prefix (draws 4) num_docs 10 (number +ℤ pos 1) >>= λ ns.
            ok (array (ints ns)))
        ∷ "gmtime" ~> build_gmtime env a
        ∷ "year" ~> build_year a
        ∷ "body" ~> ok_text (build_string a size.0 size.1)
        ∷ "capped_small" ~> (build_capped prefix (draws 2) a number 100 >>= ok_text)
        ∷ "topics" ~> ok (array no_value)
        ∷ [])

  -- `ArrayIndexingUniqueDocument.next`
  unfoldable pub array_indexing_unique_document : ℕ → ℕ → ℕ → ℤ → Result Json
  unfolding lookup_email build_capped build_achievements1
  array_indexing_unique_document num_docs array_size avg_size number =
      let size = lookup_size 420 avg_size in
      dict (
        "name" ~> build_name a
        ∷ "email" ~> lookup_email env draws prefix a
        ∷ "alt_email" ~> build_alt_email (draws 0) (draws 1) a
        ∷ "street" ~> build_street a
        ∷ "city" ~> build_city a
        ∷ "county" ~> build_county a
        ∷ "state" ~> build_state env a
        ∷ "full_state" ~> build_full_state env a
        ∷ "country" ~> build_country a
        ∷ "realm" ~> build_realm a
        ∷ "coins" ~> build_coins a
        ∷ "category" ~> build_category a
        ∷ "achievements1" ~> (
            build_achievements1 prefix (draws 3) num_docs array_size (number +ℤ pos 1) >>= λ ns.
            ok (array (ints ns)))
        ∷ "gmtime" ~> build_gmtime env a
        ∷ "year" ~> build_year a
        ∷ "body" ~> ok_text (build_string a size.0 size.1)
        ∷ "capped_small" ~> (build_capped prefix (draws 2) a number 100 >>= ok_text)
        ∷ "topics" ~> ok (array no_value)
        ∷ [])

  -- `ArrayIndexingRangeScanDocument.next`
  unfoldable pub array_indexing_range_scan_document : ℕ → ℕ → ℕ → ℤ → Result Json
  unfolding lookup_email build_capped build_achievements2
  array_indexing_range_scan_document num_docs array_size avg_size number =
      let size = lookup_size 530 avg_size in
      dict (
        "name" ~> build_name a
        ∷ "email" ~> lookup_email env draws prefix a
        ∷ "alt_email" ~> build_alt_email (draws 0) (draws 1) a
        ∷ "street" ~> build_street a
        ∷ "city" ~> build_city a
        ∷ "county" ~> build_county a
        ∷ "state" ~> build_state env a
        ∷ "full_state" ~> build_full_state env a
        ∷ "country" ~> build_country a
        ∷ "realm" ~> build_realm a
        ∷ "coins" ~> build_coins a
        ∷ "category" ~> build_category a
        ∷ "achievements2" ~> (
            build_achievements2 prefix (draws 4) num_docs array_size (number +ℤ pos 1) >>= λ ns.
            ok (array (ints ns)))
        ∷ "gmtime" ~> build_gmtime env a
        ∷ "year" ~> build_year a
        ∷ "body" ~> ok_text (build_string a size.0 size.1)
        ∷ "capped_small" ~> (build_capped prefix (draws 2) a number 100 >>= ok_text)
        ∷ "topics" ~> ok (array no_value)
        ∷ [])
