-- ===== src/Config/Targets/Names.antt =====
-- About the names of the buckets (perfrunner/settings.py) and the pairs that the targets stand for.
use perfrunner.Prelude.{
  ℕ, zero, suc, ◌+◌, ◌<◌, ◌≡◌, refl, sym, ap, ◌∙◌, [], ◌∷◌, ◌++◌, arith, Bool-cases, inl, inr, ok,
  length,
}
use perfrunner.Prelude.Int.{to_ℕ}
use perfrunner.Text.{Text, codes, eq_text, render, read_digits}
use perfrunner.Text.Digits.{read_digits-render}
use perfrunner.Text.Equality.{eq_text-eq}
use perfrunner.Config.Hosts.{Absent, Distinct}
use perfrunner.Config.Options.{ClusterSettings, numbered, buckets, eventing_buckets}

append_cancel : (p s t : Text) → p ++ s ≡ p ++ t → s ≡ t
append_cancel [] s t h = h
append_cancel (c ∷ p) s t h = append_cancel p s t (cc)

render-injective : (n m : ℕ) → render 10 n ≡ render 10 m → n ≡ m
render-injective n m h =
    let a = read_digits-render 10 (omega arith) (omega arith) n in
    let b = read_digits-render 10 (omega arith) (omega arith) m in
    let both : ok n ≡ ok m = sym a ∙ ap (λ t. read_digits 10 0 t) h ∙ b in cc

numbered-Absent :
    (prefix : Text) (n i k : ℕ) → k < i → Absent (prefix ++ render 10 (k + 1)) (numbered prefix n i)
unfolding numbered
numbered-Absent prefix zero i k h = tt
numbered-Absent prefix (suc n) i k h = (
  (elim (Bool-cases (eq_text (prefix ++ render 10 (k + 1)) (prefix ++ render 10 (i + 1)))) [
    | inr other ↦ other
    | inl same ↦
        let e = append_cancel prefix _ _ (eq_text-eq _ _ same) in
        let numbers : k + 1 ≡ i + 1 = render-injective (k + 1) (i + 1) e in absurd (omega arith)
  ]),
  numbered-Absent prefix n (i + 1) k (omega arith),
)

numbered-Distinct : (prefix : Text) (n i : ℕ) → Distinct (numbered prefix n i)
unfolding numbered
numbered-Distinct prefix zero i = tt
numbered-Distinct prefix (suc n) i =
    (numbered-Absent prefix n (i + 1) i (omega arith), numbered-Distinct prefix n (i + 1))

length-numbered : (prefix : Text) (n i : ℕ) → length (numbered prefix n i) ≡ n
unfolding numbered
length-numbered prefix zero i = refl
length-numbered prefix (suc n) i = ap suc (length-numbered prefix n (i + 1))

-- The buckets of a test have different names.
pub buckets-Distinct : (c : ClusterSettings) → Distinct (buckets c)
unfolding buckets
buckets-Distinct c = numbered-Distinct (codes "bucket-") (to_ℕ c.num_buckets) 0

pub length-buckets : (c : ClusterSettings) → length (buckets c) ≡ to_ℕ c.num_buckets
unfolding buckets
length-buckets c = length-numbered (codes "bucket-") (to_ℕ c.num_buckets) 0

pub length-eventing_buckets :
    (c : ClusterSettings) → length (eventing_buckets c) ≡ to_ℕ c.eventing_buckets
unfolding eventing_buckets
length-eventing_buckets c = length-numbered (codes "eventing-bucket-") (to_ℕ c.eventing_buckets) 0
