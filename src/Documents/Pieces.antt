-- ===== src/Documents/Pieces.antt =====
-- The document of spring/docgen.py for import and export whose texts are cut into arrays,
-- `ImportExportDocumentArray`; `picks i` are the values of the i-th call of `random.sample`.
use perfrunner.Prelude.{
  ℕ, zero, suc, ◌+◌, List, [], ◌∷◌, Result, ok, err, type_error, ◌>>=◌, length, slice, ltb, leb,
  if◌then◌else◌, replicate,
}
use perfrunner.Prelude.Int.{ℤ}
use perfrunner.Text.{Text}
use perfrunner.Documents.{Json, text, array, Env, ok_text, texts, ◌~>◌, dict, build_string}
use perfrunner.Documents.Fields.{
  build_name, build_alt_email, build_city, build_realm, build_country, build_county, build_street,
  build_coins, build_gmtime, build_year, build_category, build_state, build_full_state,
  build_achievements,
}
use perfrunner.Documents.Lookup.{lookup_size, lookup_email}
use perfrunner.Documents.Samples.{sample}
use perfrunner.Documents.Transfer.{random_times, capped_text}

abbrev insert : ℕ → List ℕ → List ℕ
insert n [] = n ∷ []
insert n (m ∷ ms) = if leb n m then n ∷ (m ∷ ms) else m ∷ insert n ms

-- `sorted(ns)`
abbrev pub sorted : List ℕ → List ℕ
sorted [] = []
sorted (n ∷ ns) = insert n (sorted ns)

abbrev pub range_from : ℕ → ℕ → List ℕ
range_from i zero = []
range_from i (suc n) = i ∷ range_from (i + 1) n

-- The slices that end `i` characters behind the positions of the scope, and begin at the position
-- before, the first one at 0.
unfoldable pub pieces_at : Text → ℕ → ℕ → List ℕ → List Text
pieces_at value from i [] = []
pieces_at value from i (s ∷ scope) = slice from (i + s) value ∷ pieces_at value s (i + 1) scope

-- `_random_array` of a text
unfoldable pub random_array : (ℕ → ℕ) → ℕ → Text → Result (List Text)
unfolding sample pieces_at
random_array picks num [] = ok []
random_array picks num (c ∷ value) =
    if ltb (length (c ∷ value)) num
    then ok (replicate 5 (c ∷ value))
    else (sample picks num (range_from 0 (length (c ∷ value))) >>= λ scope.
        ok (pieces_at (c ∷ value) 0 0 (sorted scope)))

-- The builders give texts only.
abbrev array_of : (ℕ → ℕ) → ℕ → Json → Result Json
array_of picks num (text t) = random_array picks num t >>= λ ts. ok (array (texts ts))
array_of picks num _ = err type_error

cut : (ℕ → ℕ) → ℕ → Result Json → Result Json
unfolding random_array
cut picks num r = r >>= λ v. array_of picks num v

module _ (env : Env) (draws : ℕ → ℕ) (picks : ℕ → ℕ → ℕ) (prefix a : Text) where
  abbrev cut_times : ℕ → Result Json → Result Json
  cut_times i r = cut (picks i) 5 (random_times (draws (20 + i)) 9 r)

  -- `ImportExportDocumentArray.next`
  unfoldable pub import_export_document_array : ℕ → ℤ → Result Json
  unfolding random_times cut lookup_email
  import_export_document_array avg_size number =
      let size = lookup_size 0 avg_size in
      dict (
        "name" ~> cut_times 0 (build_name a)
        ∷ "email" ~> random_times (draws 21) 5 (lookup_email env draws prefix a)
        ∷ "alt_email" ~> random_times (draws 22) 9 (build_alt_email (draws 0) (draws 1) a)
        ∷ "street" ~> cut_times 3 (build_street a)
        ∷ "city" ~> cut_times 4 (build_city a)
        ∷ "county" ~> cut_times 5 (build_county a)
        ∷ "state" ~> cut_times 6 (build_state env a)
        ∷ "full_state" ~> cut_times 7 (build_full_state env a)
        ∷ "country" ~> cut_times 8 (build_country a)
        ∷ "realm" ~> random_times (draws 29) 9 (build_realm a)
        ∷ "alt_street" ~> cut_times 10 (build_street a)
        ∷ "alt_city" ~> cut_times 11 (build_city a)
        ∷ "alt_county" ~> random_times (draws 32) 9 (build_county a)
        ∷ "alt_state" ~> random_times (draws 33) 9 (build_state env a)
        ∷ "alt_full_state" ~> random_times (draws 34) 9 (build_full_state env a)
        ∷ "alt_country" ~> random_times (draws 35) 9 (build_country a)
        ∷ "alt_realm" ~> random_times (draws 36) 9 (build_realm a)
        ∷ "coins" ~> random_times (draws 37) 999 (build_coins a)
        ∷ "category" ~> random_times (draws 38) 9 (build_category a)
        ∷ "achievements" ~> build_achievements a
        ∷ "gmtime" ~> random_times (draws 39) 9 (build_gmtime env a)
        ∷ "year" ~> random_times (draws 40) 5 (build_year a)
        ∷ "body" ~> cut (picks 12) 7 (ok_text (build_string a size.0 size.1))
        ∷ "capped_small"
          ~> random_times (draws 42) 5 (capped_text env draws prefix a (draws 41) number 100)
        ∷ "alt_capped_small"
          ~> random_times (draws 44) 5 (capped_text env draws prefix a (draws 43) number 100)
        ∷ [])
