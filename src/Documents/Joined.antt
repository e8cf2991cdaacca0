-- ===== src/Documents/Joined.antt =====
-- About `JoinedDocument` of spring/docgen.py and the references that it holds.
use perfrunner.Prelude.{
  ℕ, zero, suc, ◌+◌, ◌/◌, ◌≤◌, ◌<◌, [], ◌∷◌, Result, ◌>>=◌, arith, Returns, returns_bind,
  returns_mono, Bool-cases, inl, inr,
}
use perfrunner.Prelude.Int.{ℤ, pos, ◌+ℤ◌, int_laws, mod_ℤ}
use perfrunner.Text.{Text}
use perfrunner.Generators.Space.{randrange_lem}
use perfrunner.Documents.{Env, ok_text, build_alphabet}
use perfrunner.Documents.Total.{Ends, HasFields, dict-HasFields, mod-Ends}
use perfrunner.Documents.References.{reference-Refers, four_references-Refers}
use perfrunner.Documents.Lookup.{
  reference, four_references, build_owner, build_user, build_replies, build_capped,
  build_sub_capped, random_capped, is_random, joined_document,
}

-- A call that returns, followed by one that always does.
then-Ends {ℓ κ} :
    {A : Type ℓ} {B : Type κ} (r : Result A) (f : A → Result B)
    → Ends r
    → ((a : A) → Ends (f a))
    → Ends (r >>= f)
then-Ends r f h k = returns_bind (λ _. Unit) (λ _. Unit) r f h λ a _. k a

build_capped-Ends :
    (prefix : Text) (draw : ℕ) (a : Text) (n : ℤ) (num_unique : ℕ)
    → Ends (build_capped prefix draw a n num_unique)
unfolding build_capped random_capped
build_capped-Ends prefix draw a n num_unique = elim (Bool-cases (is_random prefix)) [
  | inl random ↦ rw (random, randrange_lem draw (pos 1) (pos 9 +ℤ pos 1) (omega int_laws)) tt
  | inr static ↦ rw static tt
]

reference-Ends : (prefix : Text) (num : ℕ) (n : ℤ) → 0 < num → Ends (reference prefix num n)
reference-Ends prefix num n p =
    returns_mono _ _ (reference prefix num n) (reference-Refers prefix num n p) λ t _. tt

build_replies-Ends :
    (prefix : Text) (num_docs : ℕ) (n : ℤ) (idx replies : ℕ)
    → 0 < num_docs
    → Ends (build_replies prefix num_docs n idx replies)
unfolding build_replies build_user
build_replies-Ends prefix num_docs n idx zero p = tt
build_replies-Ends prefix num_docs n idx (suc k) p =
    let user = reference prefix num_docs (n +ℤ pos (idx + 537)) in
    let there : Ends (user >>= ok_text) =
      then-Ends user ok_text (reference-Ends prefix num_docs (n +ℤ pos (idx + 537)) p) (λ t. tt) in
    returns_bind (HasFields ("user" ∷ [])) (λ _. Unit) _ _ (dict-HasFields _ (there, tt))
      λ reply _.
        then-Ends (build_replies prefix num_docs n (idx + 1) k) _
          (build_replies-Ends prefix num_docs n (idx + 1) k p) λ rest. tt

-- A joined document is generated with its seven fields for every number and key, if there are at
-- least four documents to refer to, and any categories.
pub joined_document-HasFields :
    (env : Env) (draws : ℕ → ℕ) (prefix key : Text) (num_docs num_categories num_replies : ℕ)
    (number : ℤ)
    → 4 ≤ num_docs
    → 0 < num_categories
    → Returns
        (joined_document env draws prefix
          (build_alphabet env.hash128 key)
          num_docs
          num_categories
          num_replies
          number)
        (HasFields (
          "owner" ∷ "moderator" ∷ "title" ∷ "capped" ∷ "sub_capped" ∷ "categories" ∷ "replies"
          ∷ []))
unfolding joined_document build_owner build_sub_capped
joined_document-HasFields env draws prefix key num_docs num_categories num_replies number h k =
    let a = build_alphabet env.hash128 key in
    let quarter : 0 < num_docs / 4 = omega arith in
    let owner = λ (n : ℤ).
      then-Ends (reference prefix (num_docs / 4) n) ok_text
        (reference-Ends prefix (num_docs / 4) n quarter) (λ t. tt) in
    dict-HasFields _ (
      owner number,
      (
        owner (number +ℤ pos 1),
        (
          tt,
          (
            then-Ends (build_capped prefix (draws 2) a number 100) ok_text
                (build_capped-Ends prefix (draws 2) a number 100) (λ t. tt),
            (
              then-Ends _ ok_text
                  (then-Ends (mod_ℤ number (pos (num_docs / 4))) _
                    (mod-Ends number (num_docs / 4) quarter)
                    λ i. build_capped-Ends prefix (draws 3) a i 100)
                  (λ t. tt),
              (
                then-Ends (four_references prefix num_categories number) _
                    (returns_mono _ _ (four_references prefix num_categories number)
                      ((four_references-Refers prefix num_categories number).0 k) λ ts _. tt)
                    (λ ts. tt),
                (
                  then-Ends (build_replies prefix num_docs number 0 num_replies) _
                      (build_replies-Ends prefix num_docs number 0 num_replies (omega arith))
                      (λ rs. tt),
                  tt,
                ),
              ),
            ),
          ),
        ),
      ),
    )
