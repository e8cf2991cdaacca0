-- ===== src/Documents/Transfer.antt =====
-- The documents of spring/docgen.py for import and export, whose fields are repeated at random.
use Prim.Native.String.{String}
use perfrunner.Prelude.{type_error, ℕ, zero, suc, ◌*◌, [], ◌∷◌, Result, ok, err, ◌>>=◌, repeat}
use perfrunner.Prelude.Int.{ℤ, pos, to_ℕ, times}
use perfrunner.Text.{Text}
use perfrunner.Generators.{randint}
use perfrunner.Documents.{
  Json, text, int, real, array, object, Values, no_value, value, Env, ok_text, ◌~>◌, dict,
  build_string,
}
use perfrunner.Documents.Fields.{
  build_name, build_alt_email, build_city, build_realm, build_country, build_county, build_street,
  build_coins, build_gmtime, build_year, build_category, build_state, build_full_state,
  build_achievements,
}
use perfrunner.Documents.Lookup.{lookup_size, lookup_email, build_capped}

append_values : Values → Values → Values
append_values no_value ws = ws
append_values (value v vs) ws = value v (append_values vs ws)

repeat_values : ℕ → Values → Values
repeat_values zero vs = no_value
repeat_values (suc n) vs = append_values vs (repeat_values n vs)

-- `v * n`: texts and sequences are repeated, numbers are multiplied; a dictionary cannot be.
unfoldable pub json_times : ℕ → Json → Result Json
unfolding append_values repeat_values
json_times n (text t) = ok (text (repeat n t))
json_times n (int k) = ok (int (times k n))
json_times n (real q) = ok (real (record { num = q.num * n; den = q.den }))
json_times n (array vs) = ok (array (repeat_values n vs))
json_times n (object fs) = err type_error

-- v * random.randint(0, most)
unfoldable pub random_times : ℕ → ℕ → Result Json → Result Json
unfolding json_times
random_times draw most r = r >>= λ v. randint draw (pos 0) (pos most) >>= λ n. json_times (to_ℕ n) v

-- A value inside four dictionaries of one field each.
abbrev pub inside : String → String → String → String → Result Json → Result Json
inside n1 n2 n3 n4 r = dict (n1 ~> dict (n2 ~> dict (n3 ~> dict (n4 ~> r ∷ []) ∷ []) ∷ []) ∷ [])

module _ (env : Env) (draws : ℕ → ℕ) (prefix a : Text) where
  pub capped_text : ℕ → ℤ → ℕ → Result Json
  capped_text draw number num_unique =
      build_capped prefix draw a number num_unique >>= λ capped. ok_text capped

  -- `ImportExportDocument.next`
  unfoldable pub import_export_document : ℕ → ℤ → Result Json
  unfolding random_times capped_text
  import_export_document avg_size number =
      let size = lookup_size 1022 avg_size in
      dict (
        "name" ~> random_times (draws 20) 5 (build_name a)
        ∷ "email" ~> random_times (draws 21) 5 (lookup_email env draws prefix a)
        ∷ "alt_email" ~> random_times (draws 22) 5 (build_alt_email (draws 0) (draws 1) a)
        ∷ "street" ~> random_times (draws 23) 9 (build_street a)
        ∷ "city" ~> random_times (draws 24) 9 (build_city a)
        ∷ "county" ~> random_times (draws 25) 5 (build_county a)
        ∷ "state" ~> random_times (draws 26) 5 (build_state env a)
        ∷ "full_state" ~> random_times (draws 27) 5 (build_full_state env a)
        ∷ "country" ~> random_times (draws 28) 5 (build_country a)
        ∷ "realm" ~> random_times (draws 29) 9 (build_realm a)
        ∷ "alt_street" ~> random_times (draws 30) 9 (build_street a)
        ∷ "alt_city" ~> random_times (draws 31) 9 (build_city a)
        ∷ "alt_county" ~> random_times (draws 32) 5 (build_county a)
        ∷ "alt_state" ~> random_times (draws 33) 5 (build_state env a)
        ∷ "alt_full_state" ~> random_times (draws 34) 5 (build_full_state env a)
        ∷ "alt_country" ~> random_times (draws 35) 5 (build_country a)
        ∷ "alt_realm" ~> random_times (draws 36) 9 (build_realm a)
        ∷ "coins" ~> random_times (draws 37) 999 (build_coins a)
        ∷ "category" ~> random_times (draws 38) 5 (build_category a)
        ∷ "achievements" ~> build_achievements a
        ∷ "gmtime" ~> random_times (draws 39) 9 (build_gmtime env a)
        ∷ "year" ~> random_times (draws 40) 5 (build_year a)
        ∷ "body" ~> ok_text (build_string a size.0 size.1)
        ∷ "capped_small" ~> random_times (draws 42) 5 (capped_text (draws 41) number 100)
        ∷ "alt_capped_small" ~> random_times (draws 44) 5 (capped_text (draws 43) number 100)
        ∷ [])

  -- `ImportExportDocumentNested.next`
  unfoldable pub import_export_document_nested : ℕ → ℤ → Result Json
  unfolding random_times capped_text
  import_export_document_nested avg_size number =
      let size = lookup_size 1022 avg_size in
      dict (
        "name" ~> inside "n" "a" "m" "e" (random_times (draws 20) 3 (build_name a))
        ∷ "email"
          ~> inside "e" "m" "a" "i" (random_times (draws 21) 3 (lookup_email env draws prefix a))
        ∷ "alt_email"
          ~> inside "a" "l" "t" "e"
              (random_times (draws 22) 3 (build_alt_email (draws 0) (draws 1) a))
        ∷ "street" ~> inside "s" "t" "r" "e" (random_times (draws 23) 3 (build_street a))
        ∷ "city" ~> inside "c" "i" "t" "y" (random_times (draws 24) 3 (build_city a))
        ∷ "county" ~> inside "c" "o" "u" "n" (random_times (draws 25) 3 (build_county a))
        ∷ "state" ~> inside "s" "t" "a" "t" (random_times (draws 26) 3 (build_state env a))
        ∷ "full_state"
          ~> inside "f" "u" "l" "l" (random_times (draws 27) 3 (build_full_state env a))
        ∷ "country" ~> inside "c" "o" "u" "n" (random_times (draws 28) 3 (build_country a))
        ∷ "realm" ~> inside "r" "e" "a" "l" (random_times (draws 29) 3 (build_realm a))
        ∷ "alt_street" ~> inside "a" "l" "t" "s" (random_times (draws 30) 3 (build_street a))
        ∷ "alt_city" ~> inside "a" "l" "t" "c" (random_times (draws 31) 3 (build_city a))
        ∷ "alt_county" ~> inside "e" "m" "a" "i" (random_times (draws 32) 3 (build_county a))
        ∷ "alt_state" ~> inside "e" "m" "a" "i" (random_times (draws 33) 3 (build_state env a))
        ∷ "alt_full_state"
          ~> inside "e" "m" "a" "i" (random_times (draws 34) 2 (build_full_state env a))
        ∷ "alt_country" ~> inside "e" "m" "a" "i" (random_times (draws 35) 2 (build_country a))
        ∷ "alt_realm" ~> inside "e" "m" "a" "i" (random_times (draws 36) 3 (build_realm a))
        ∷ "coins" ~> inside "e" "m" "a" "i" (random_times (draws 37) 99 (build_coins a))
        ∷ "category" ~> inside "e" "m" "a" "i" (random_times (draws 38) 3 (build_category a))
        ∷ "achievements" ~> build_achievements a
        ∷ "gmtime" ~> random_times (draws 39) 2 (build_gmtime env a)
        ∷ "year" ~> random_times (draws 40) 2 (build_year a)
        ∷ "body" ~> ok_text (build_string a size.0 size.1)
        ∷ "capped_small" ~> random_times (draws 42) 2 (capped_text (draws 41) number 10)
        ∷ "alt_capped_small" ~> random_times (draws 44) 2 (capped_text (draws 43) number 10)
        ∷ [])
