-- ===== src/Tests/Documents.antt =====
-- Documents at concrete keys, with a hash that counts the characters.
use perfrunner.Prelude.{ℕ, ◌^◌, ◌<◌, ◌≡◌, refl, [], ◌∷◌, ok, arith, Returns}
use perfrunner.Prelude.Int.{pos, ◌+ℤ◌, ◌-ℤ◌}
use perfrunner.Prelude.Range.{stepped}
use perfrunner.Generators.{randrange}
use perfrunner.Text.{Text, codes}
use perfrunner.Documents.{Env, int, build_alphabet}
use perfrunner.Documents.Basic.{document}
use perfrunner.Documents.Lookup.{joined_document}
use perfrunner.Documents.Arrays.{build_achievements1}
use perfrunner.Documents.Alphabet.{IsAlphabet, build_alphabet-IsAlphabet}
use perfrunner.Documents.Total.{HasFields, document-HasFields}
use perfrunner.Documents.Joined.{joined_document-HasFields}

abbrev seven : Text → ℕ
seven t = 7

seven_lt : (t : Text) → seven t < 2 ^ 128
seven_lt t = omega arith

abbrev env : Env
env = record {
  hash128 = seven;
  gmtime = λ n. int (pos n);
  states = (codes "CA", codes "California") ∷ [];
  street_suffix = codes "Alley" ∷ [];
  lorem = codes "lorem";
}

abbrev draws : ℕ → ℕ
draws i = i

abbrev key : Text
key = codes "n1ql-000000000007"

abbrev static : Text
static = codes "n1ql"

abbrev alphabet : Text
alphabet = build_alphabet seven key

alphabet-IsAlphabet : IsAlphabet alphabet
alphabet-IsAlphabet = build_alphabet-IsAlphabet seven key seven_lt

document-HasFields_example :
    Returns (document env draws alphabet (record { num = 5; den = 4 }) 1024) (
      HasFields (
        "name" ∷ "email" ∷ "alt_email" ∷ "city" ∷ "realm" ∷ "coins" ∷ "category" ∷ "achievements"
        ∷ "body" ∷ []))
document-HasFields_example =
    document-HasFields env draws key (record { num = 5; den = 4 }) 1024 seven_lt

joined_document-HasFields_example :
    Returns (joined_document env draws static alphabet 100 5 2 (pos 7)) (
      HasFields
        ("owner" ∷ "moderator" ∷ "title" ∷ "capped" ∷ "sub_capped" ∷ "categories" ∷ "replies" ∷ []))
joined_document-HasFields_example =
    joined_document-HasFields env draws static key 100 5 2 (pos 7) (omega arith) (omega arith)

-- The example in the description of the source: document 7 of 100, ten elements, and a shift of 5.
random_array_runs :
    build_achievements1 [] 4 100 10 (pos 7)
    ≡ ok (
        pos 1145
        ∷ pos 1146
        ∷ pos 1147
        ∷ pos 1148
        ∷ pos 1149
        ∷ pos 1150
        ∷ pos 1151
        ∷ pos 1152
        ∷ pos 1153
        ∷ pos 1154
        ∷ [])
unfolding build_achievements1 randrange stepped ◌+ℤ◌ ◌-ℤ◌
random_array_runs = refl
