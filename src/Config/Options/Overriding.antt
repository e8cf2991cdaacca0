-- ===== src/Config/Options/Overriding.antt =====
-- About overrides of the settings of the cluster (perfrunner/settings.py).
use perfrunner.Prelude.{
  ℕ, suc, ◌-◌, List, ◌==◌, false, arith, All, All-mono, ◌≡◌, refl, [], ◌∷◌, ok, err, Result, ◌>>=◌,
  Returns, returns_mono, type_error, >>=-eq-ok, Result-cases, inl, inr,
}
use perfrunner.Prelude.Int.{ℤ, pos, negsuc}
use perfrunner.Text.{Text, codes, format_int, zero_pad, render}
use perfrunner.Text.Decimal.{IsDecimal, zero_pad-IsDecimal}
use perfrunner.Text.Words.{parse_int}
use perfrunner.Config.{Options, Parser, lookup, override, get_options_as_dict}
use perfrunner.Config.Overrides.{
  value_of, Override, row_of, last_value, override-last_value, escape-plain,
}
use perfrunner.Config.Options.{
  ClusterSettings, cluster_settings, cluster_settings_with, get_int, require_with,
  test_config_cluster,
}
use perfrunner.Config.Options.Reading.{parse_int-format_int}

abbrev pub quota_set : ℤ → Override
quota_set z = record {
  section = codes "cluster";
  option = codes "mem_quota";
  value = format_int 10 0 z;
}

-- The row of the override, as it is written.
abbrev pub quota_row : ℤ → List Text
quota_row z = codes "cluster" ∷ codes "mem_quota" ∷ format_int 10 0 z ∷ []

no_percent : (t : Text) → All IsDecimal t → All (λ c. (c == b'%') ≡ false) t
unfolding IsDecimal
no_percent t digits =
    All-mono IsDecimal (λ (c : ℕ). (c == b'%') ≡ false) t digits (λ c h. ground (arith, h.0, h.1))

-- Decimals are written as they are.
quota_row-eq : (z : ℤ) → row_of (quota_set z) ≡ quota_row z
unfolding format_int
quota_row-eq (pos n) =
    let same = escape-plain _ (no_percent _ (zero_pad-IsDecimal 0 n)) in rw same refl
quota_row-eq (negsuc n) =
    let number = zero_pad (0 - 1) (render 10 (suc n)) in
    let plain : (b'-' == b'%') ≡ false = ground arith in
    let same =
      escape-plain (b'-' ∷ number)
        (plain, no_percent number (zero_pad-IsDecimal (0 - 1) (suc n))) in
    rw same refl

-- A later change of the value can be made behind the last step.
regroup :
    {S T : Type 0} (first : Result S) (next : S → Result T) (change : T → Result T)
    → (first >>= next >>= change) ≡ (first >>= λ s. next s >>= change)
regroup first next change = elim (Result-cases first) [
  | inl (s, e) ↦ rw e refl
  | inr (x, e) ↦ rw e refl
]

-- The quota is only stored.
quota_stored :
    (y z : ℤ) (d : Options)
    → (cluster_settings_with y d >>= λ c. ok (record c { mem_quota = z }))
      ≡ cluster_settings_with z d
unfolding cluster_settings_with
quota_stored y z d = simp (regroup)

-- The options are those of `d`, and the quota is `z`.
abbrev IsQuotaSet : ℤ → Options → Options → Type 0
IsQuotaSet z d e =
    (o : Text) → lookup o e ≡ last_value (codes "cluster") o (quota_set z ∷ []) (lookup o d)

same_rest :
    (y z : ℤ) (d e : Options)
    → IsQuotaSet z d e
    → cluster_settings_with y e ≡ cluster_settings_with y d
unfolding cluster_settings_with get_int last_value
same_rest y z d e h =
    rw
      (
        h (codes "index_mem_quota"),
        h (codes "fts_index_mem_quota"),
        h (codes "analytics_mem_quota"),
        h (codes "eventing_mem_quota"),
        h (codes "initial_nodes"),
        h (codes "num_buckets"),
        h (codes "eventing_bucket_mem_quota"),
        h (codes "eventing_metadata_bucket_mem_quota"),
        h (codes "eventing_buckets"),
        h (codes "num_vbuckets"),
        h (codes "online_cores"),
        h (codes "ipv6"),
        h (codes "kernel_mem_limit"),
        h (codes "enable_n2n_encryption"),
        h (codes "kernel_mem_limit_services"),
      )
      refl

settings_with :
    (z : ℤ) (d e : Options) (c : ClusterSettings)
    → IsQuotaSet z d e
    → cluster_settings d ≡ ok c
    → cluster_settings e ≡ ok (record c { mem_quota = z })
unfolding cluster_settings last_value
settings_with z d e c h read =
    let (y, _, rest) =
      >>=-eq-ok (require_with (err type_error) (lookup (codes "mem_quota") d) >>= parse_int)
        (λ mem_quota. cluster_settings_with mem_quota d) read in
    rw
      (
        h (codes "mem_quota"),
        parse_int-format_int z,
        same_rest z z d e h,
        ← quota_stored y z d,
        rest,
      )
      refl

-- If the settings of the cluster can be read, then after an override of the memory quota by a number
-- in decimals they can be read as well: the quota is that number, and all else is as before.
pub cluster-override :
    (z : ℤ) (p : Parser) {c : ClusterSettings}
    → test_config_cluster p ≡ ok c
    → Returns
        (override (quota_row z ∷ []) p)
        λ q. test_config_cluster q ≡ ok (record c { mem_quota = z })
unfolding test_config_cluster
cluster-override z p {c} read = rw (← quota_row-eq z) (
    returns_mono
      (λ (q : Parser).
        (s o : Text) → value_of s o q ≡ last_value s o (quota_set z ∷ []) (value_of s o p))
      (λ (q : Parser).
        cluster_settings (get_options_as_dict (codes "cluster") q)
        ≡ ok (record c { mem_quota = z }))
      (override (row_of (quota_set z) ∷ []) p) (override-last_value (quota_set z ∷ []) p (refl, tt))
      λ q set.
        settings_with z (get_options_as_dict (codes "cluster") p)
          (get_options_as_dict (codes "cluster") q) c (set (codes "cluster")) read)
