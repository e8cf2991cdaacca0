-- ===== src/Documents/Lookup.antt =====
-- `next` of the documents of spring/docgen.py that refer to other documents, or share capped values.
-- A prefix that is None, where the program has one, is the empty text.
use perfrunner.Prelude.{
  ℕ, zero, suc, ◌+◌, ◌*◌, ◌/◌, List, [], ◌∷◌, ◌++◌, Result, ok, ◌>>=◌, if◌then◌else◌, slice, Bool,
  take, not,
}
use perfrunner.Prelude.Int.{ℤ, pos, to_ℕ, mod_ℤ, div_floor, ◌+ℤ◌, ◌-ℤ◌}
use perfrunner.Text.{Text, codes, format_int, eq_text}
use perfrunner.Keys.{decimal_fmtr}
use perfrunner.Generators.{randint}
use perfrunner.Documents.{
  Json, array, texts, Values, no_value, value, Env, ok_text, ◌~>◌, dict, build_string,
}
use perfrunner.Documents.Fields.{
  build_name, build_email, build_alt_email, build_city, build_realm, build_country, build_county,
  build_street, build_coins, build_gmtime, build_year, build_category, build_state,
  build_full_state, build_achievements,
}

-- `self.is_random`: whether the prefix is not 'n1ql'
abbrev pub is_random : Text → Bool
is_random prefix = not (eq_text prefix (codes "n1ql"))

-- `ReverseLookupDocument._size`
abbrev pub lookup_size : ℕ → ℕ → ℤ × ℕ
lookup_size overhead avg_size = (pos avg_size -ℤ pos overhead, 1)

-- `str` and '%d'
abbrev pub decimal : ℤ → Text
decimal n = format_int 10 0 n

-- '%s' % alphabet[offset:offset + 6], at a random offset
unfoldable pub random_capped : ℕ → Text → Result Text
random_capped draw a =
    randint draw (pos 1) (pos 9) >>= λ offset. ok (slice (to_ℕ offset) (to_ℕ offset + 6) a)

-- '%s_%d_%d' % (prefix, num_unique, index)
unfoldable pub capped : Text → ℕ → ℤ → Text
capped prefix num_unique index = prefix ++ b'_' ∷ (decimal (pos num_unique) ++ b'_' ∷ decimal index)

-- '%s_%d_%012d' % (prefix, num_unique, index)
unfoldable pub capped_wide : Text → ℕ → ℤ → Text
capped_wide prefix num_unique index =
    prefix ++ b'_' ∷ (decimal (pos num_unique) ++ b'_' ∷ format_int 10 12 index)

-- `ReverseLookupDocument.build_capped`; the program divides by constants and by products of them,
-- which are not 0
unfoldable pub build_capped : Text → ℕ → Text → ℤ → ℕ → Result Text
unfolding random_capped capped
build_capped prefix draw a seq_id num_unique =
    if is_random prefix
    then random_capped draw a
    else ok (capped prefix num_unique (div_floor seq_id num_unique))

-- `ReverseRangeLookupDocument.build_capped`
unfoldable pub build_capped_wide : Text → ℕ → Text → ℤ → ℕ → Result Text
unfolding random_capped capped_wide
build_capped_wide prefix draw a seq_id num_unique =
    if is_random prefix
    then random_capped draw a
    else ok (capped_wide prefix num_unique (div_floor seq_id num_unique))

-- decimal_fmtr(seq_id % num_docs, prefix)
unfoldable pub reference : Text → ℕ → ℤ → Result Text
reference prefix num_docs seq_id = mod_ℤ seq_id (pos num_docs) >>= λ n. ok (decimal_fmtr n prefix)

-- `ExtReverseLookupDocument.build_topics` and `JoinedDocument.build_categories`: four references
unfoldable pub four_references : Text → ℕ → ℤ → Result (List Text)
unfolding reference
four_references prefix num seq_id = reference prefix num (seq_id +ℤ pos 11) >>= λ t1.
    reference prefix num (seq_id +ℤ pos 19) >>= λ t2.
    reference prefix num (seq_id +ℤ pos 23) >>= λ t3.
    reference prefix num (seq_id +ℤ pos 29) >>= λ t4. ok (t1 ∷ t2 ∷ t3 ∷ t4 ∷ [])

-- `JoinedDocument.build_owner`
unfoldable pub build_owner : Text → ℕ → ℤ → Result Text
unfolding reference
build_owner prefix num_docs seq_id = reference prefix (num_docs / 4) seq_id

-- `JoinedDocument.build_user`
unfoldable pub build_user : Text → ℕ → ℤ → ℕ → Result Text
unfolding reference
build_user prefix num_docs seq_id idx = reference prefix num_docs (seq_id +ℤ pos (idx + 537))

-- `JoinedDocument.build_replies`, of n replies from the number idx on
unfoldable pub build_replies : Text → ℕ → ℤ → ℕ → ℕ → Result Values
unfolding build_user
build_replies prefix num_docs seq_id idx zero = ok no_value
build_replies prefix num_docs seq_id idx (suc n) =
    dict ("user" ~> (build_user prefix num_docs seq_id idx >>= ok_text) ∷ []) >>= λ reply.
    build_replies prefix num_docs seq_id (idx + 1) n >>= λ rest. ok (value reply rest)

-- `JoinedDocument.build_sub_capped`
unfoldable pub build_sub_capped : Text → ℕ → ℕ → Text → ℤ → ℕ → Result Text
unfolding build_capped
build_sub_capped prefix num_docs draw a seq_id num_unique =
    mod_ℤ seq_id (pos (num_docs / 4)) >>= λ ref_id. build_capped prefix draw a ref_id num_unique

module _ (env : Env) (draws : ℕ → ℕ) (prefix a : Text) where
  -- `ReverseLookupDocument.build_email`
  unfoldable pub lookup_email : Result Json
  lookup_email = if is_random prefix then build_alt_email (draws 10) (draws 11) a else build_email a

  -- `ReverseLookupDocument.next`, for a name and for topics; `ExtReverseLookupDocument` has the
  -- overhead of its own that is an argument
  unfoldable pub lookup_document_with : ℕ → Result Json → Result (List Text) → ℕ → ℤ → Result Json
  unfolding lookup_email build_capped
  lookup_document_with overhead name topics avg_size number =
      let size = lookup_size overhead avg_size in
      dict (
        "name" ~> name
        ∷ "email" ~> lookup_email
        ∷ "alt_email" ~> build_alt_email (draws 0) (draws 1) a
        ∷ "street" ~> build_street a
        ∷ "city" ~> build_city a
        ∷ "county" ~> build_county a
        ∷ "state" ~> build_state env a
        ∷ "full_state" ~> build_full_state env a
        ∷ "country" ~> build_country a
        ∷ "realm" ~> build_realm a
        ∷ "coins" ~> build_coins a
        ∷ "category" ~> build_category a
        ∷ "achievements" ~> build_achievements a
        ∷ "gmtime" ~> build_gmtime env a
        ∷ "year" ~> build_year a
        ∷ "body" ~> ok_text (build_string a size.0 size.1)
        ∷ "capped_small" ~> (build_capped prefix (draws 2) a number 100 >>= ok_text)
        ∷ "topics" ~> (topics >>= λ ts. ok (array (texts ts)))
        ∷ [])

  -- `ReverseLookupDocument.next`
  unfoldable pub reverse_lookup_document : ℕ → ℤ → Result Json
  unfolding lookup_document_with
  reverse_lookup_document avg_size number =
      lookup_document_with 420 (build_name a) (ok []) avg_size number

  -- `ExtReverseLookupDocument.next`: the name is replaced by the key
  unfoldable pub ext_reverse_lookup_document : ℕ → ℕ → ℤ → Text → Result Json
  unfolding lookup_document_with four_references
  ext_reverse_lookup_document num_docs avg_size number key =
      lookup_document_with 500 (ok_text key) (four_references prefix num_docs number) avg_size
        number

  -- `ReverseRangeLookupDocument.next`; `distance` is `range_distance + 1`
  unfoldable pub reverse_range_document : ℕ → ℕ → ℤ → Result Json
  unfolding lookup_email build_capped_wide
  reverse_range_document distance avg_size number =
      let size = lookup_size 480 avg_size in
      dict (
        "name" ~> build_name a
        ∷ "email" ~> lookup_email
        ∷ "alt_email" ~> build_alt_email (draws 0) (draws 1) a
        ∷ "street" ~> build_street a
        ∷ "city" ~> build_city a
        ∷ "county" ~> build_county a
        ∷ "state" ~> build_state env a
        ∷ "full_state" ~> build_full_state env a
        ∷ "country" ~> build_country a
        ∷ "realm" ~> build_realm a
        ∷ "coins" ~> build_coins a
        ∷ "category" ~> build_category a
        ∷ "achievements" ~> build_achievements a
        ∷ "gmtime" ~> build_gmtime env a
        ∷ "year" ~> build_year a
        ∷ "body" ~> ok_text (build_string a size.0 size.1)
        ∷ "capped_small" ~> (build_capped_wide prefix (draws 2) a number 100 >>= ok_text)
        ∷ "capped_small_range"
          ~> (build_capped_wide prefix (draws 3) a (number +ℤ pos (distance * 100)) 100 >>= ok_text)
        ∷ "topics" ~> ok (array no_value)
        ∷ [])

  -- `HashJoinDocument.next`
  unfoldable pub hash_join_document : ℕ → ℕ → ℤ → Result Json
  unfolding lookup_email build_capped_wide
  hash_join_document distance avg_size number =
      let size = lookup_size 415 avg_size in
      dict (
        "name" ~> build_name a
        ∷ "email" ~> lookup_email
        ∷ "street" ~> build_street a
        ∷ "city" ~> build_city a
        ∷ "county" ~> build_county a
        ∷ "state" ~> build_state env a
        ∷ "full_state" ~> build_full_state env a
        ∷ "country" ~> build_country a
        ∷ "realm" ~> build_realm a
        ∷ "coins" ~> build_coins a
        ∷ "category" ~> build_category a
        ∷ "year" ~> build_year a
        ∷ "body" ~> ok_text (build_string a size.0 size.1)
        ∷ "capped_100" ~> (build_capped_wide prefix (draws 2) a number 100 >>= ok_text)
        ∷ "capped_100_range"
          ~> (build_capped_wide prefix (draws 3) a (number +ℤ pos (distance * 100)) 100 >>= ok_text)
        ∷ "capped_1K" ~> (build_capped_wide prefix (draws 4) a number 1000 >>= ok_text)
        ∷ "capped_10K" ~> (build_capped_wide prefix (draws 5) a number 10000 >>= ok_text)
        ∷ [])

  -- `JoinedDocument.next`
  unfoldable pub joined_document : ℕ → ℕ → ℕ → ℤ → Result Json
  unfolding build_owner build_capped build_sub_capped four_references build_replies
  joined_document num_docs num_categories num_replies number = dict (
      "owner" ~> (build_owner prefix num_docs number >>= ok_text)
      ∷ "moderator" ~> (build_owner prefix num_docs (number +ℤ pos 1) >>= ok_text)
      ∷ "title" ~> ok_text (take 32 a)
      ∷ "capped" ~> (build_capped prefix (draws 2) a number 100 >>= ok_text)
      ∷ "sub_capped" ~> (build_sub_capped prefix num_docs (draws 3) a number 100 >>= ok_text)
      ∷ "categories"
        ~> (four_references prefix num_categories number >>= λ ts. ok (array (texts ts)))
      ∷ "replies" ~> (build_replies prefix num_docs number 0 num_replies >>= λ rs. ok (array rs))
      ∷ [])

  -- `RefDocument.next`
  unfoldable pub ref_document : ℤ → Result Json
  ref_document number = dict ("name" ~> ok_text (decimal_fmtr number prefix) ∷ [])
