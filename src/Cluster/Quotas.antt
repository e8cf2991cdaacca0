-- ===== src/Cluster/Quotas.antt =====
-- About the memory that the buckets of perfrunner/helpers/cluster.py reserve on a server.
use native.Mathlib.Nat.{le_trans}
use perfrunner.Prelude.{
  ℕ, zero, suc, ◌+◌, ◌-◌, ◌*◌, ◌/◌, ◌≤◌, ◌≡◌, refl, ap, ◌∙◌, Bool, true, false, List, [], ◌∷◌, ◌++◌,
  ok, arith, if◌then◌else◌, Bool-cases, inl, inr, length,
}
use perfrunner.Prelude.Int.{ℤ, pos, ◌+ℤ◌, ◌-ℤ◌, to_ℕ, ltb_ℤ, pos-+ℤ, pos--ℤ}
use perfrunner.Text.{Text, codes, eq_text}
use perfrunner.Text.Equality.{eq_text-eq}
use perfrunner.Config.{masters}
use perfrunner.Config.Hosts.{Absent, Distinct}
use perfrunner.Config.Options.{buckets, eventing_buckets}
use perfrunner.Config.Targets.Names.{length-buckets, length-eventing_buckets}
use perfrunner.Cluster.{
  Call, BucketOptions, create_bucket, increase_bucket_limit, say, lift, when, ◌>>=◌, ◌>>◌, Run,
  ClusterManager,
}
use perfrunner.Cluster.Buckets.{
  floor_div, is_set, for_buckets, increase_bucket_limits, buckets_quota, create_buckets,
  create_eventing_buckets, create_eventing_metadata_bucket, bucket_options, eventing_options,
  metadata_options,
}
use perfrunner.Cluster.Steps.{done, flat, for_masters-done, for_each-done, All-always}

-- The memory that a call reserves on a host, in megabytes.
abbrev pub ram_call : Text → Call → ℕ
ram_call host (create_bucket h name o) = if eq_text host h then to_ℕ o.ram_quota else 0
ram_call host c = 0

unfoldable pub ram_of : Text → List Call → ℕ
ram_of host [] = 0
ram_of host (c ∷ cs) = ram_call host c + ram_of host cs

ram_of_nil : (h : Text) → ram_of h [] ≡ 0
unfolding ram_of
ram_of_nil h = refl

ram_of-append : (h : Text) (xs ys : List Call) → ram_of h (xs ++ ys) ≡ ram_of h xs + ram_of h ys
unfolding ram_of
ram_of-append h [] ys = omega arith
ram_of-append h (x ∷ xs) ys = omega (arith, ram_of-append h xs ys)

-- The calls that create buckets of the same options on one server.
abbrev creations : BucketOptions → List Text → Text → List Call
creations o names host = flat (λ name. create_bucket host name o ∷ []) names

module _ (o : BucketOptions) (h : Text) where
  ram_of-creations :
      (names : List Text) (m : Text)
      → ram_of h (creations o names m)
        ≡ (if eq_text h m then length names * to_ℕ o.ram_quota else 0)
  unfolding ram_of
  ram_of-creations [] m = ground arith
  ram_of-creations (name ∷ names) m = ground (arith, ram_of-creations names m)

  no_creations : (names ms : List Text) → Absent h ms → ram_of h (flat (creations o names) ms) ≡ 0
  unfolding ram_of
  no_creations names [] absent = refl
  no_creations names (m ∷ ms) absent =
      rw
        (
          ram_of-append h (creations o names m) (flat (creations o names) ms),
          ram_of-creations names m,
          absent.0,
          no_creations names ms absent.1,
        )
        (omega arith)

  -- Each of different servers has the buckets once.
  ram_of-flat :
      (names ms : List Text)
      → Distinct ms
      → ram_of h (flat (creations o names) ms) ≤ length names * to_ℕ o.ram_quota
  unfolding ram_of
  ram_of-flat names [] distinct = omega arith
  ram_of-flat names (m ∷ ms) distinct =
      rw
        (
          ram_of-append h (creations o names m) (flat (creations o names) ms),
          ram_of-creations names m,
        )
        (elim (Bool-cases (eq_text h m)) [
          | inl here ↦
              let e : h ≡ m = eq_text-eq h m here in
              rw (here, no_creations names ms (rw e distinct.0)) (omega arith)
          | inr elsewhere ↦ rw elsewhere (omega (arith, ram_of-flat names ms distinct.1))
        ])

for_buckets-done :
    (o : BucketOptions) (m : ClusterManager) (names : List Text) {ms : List Text}
    → masters m.items ≡ ok ms
    → for_buckets (λ master name. create_bucket master name o) m names
      ≡ done (flat (creations o names) ms)
unfolding for_buckets
for_buckets-done o m names read = for_masters-done _ (creations o names) m.items read λ master.
    for_each-done (λ name. say (create_bucket master name o))
      (λ name. create_bucket master name o ∷ []) names (All-always _ names (λ name. refl))

limits_done :
    (m : ClusterManager) (n : ℤ) {ms : List Text}
    → masters m.items ≡ ok ms
    → increase_bucket_limits m n ≡ done (flat (λ master. increase_bucket_limit master n ∷ []) ms)
unfolding increase_bucket_limits
limits_done m n read =
    for_masters-done _ (λ master. increase_bucket_limit master n ∷ []) m.items read (λ master. refl)

no_limits :
    (h : Text) (n : ℤ) (ms : List Text)
    → ram_of h (flat (λ master. increase_bucket_limit master n ∷ []) ms) ≡ 0
unfolding ram_of
no_limits h n [] = refl
no_limits h n (m ∷ ms) = omega (arith, no_limits h n ms)

-- A run that ends well, and reserves no more than `q` on the host.
abbrev Fits : Text → ℕ → Run (Unit {0}) → Type 0
Fits h q r = (cs : List Call) × (r ≡ done cs) × (ram_of h cs ≤ q)

Fits-then :
    (h : Text) (q t : ℕ) {r s : Run (Unit {0})} → Fits h q r → Fits h t s → Fits h (q + t) (r >> s)
Fits-then h q t (cs, e, a) (ds, f, b) =
    (cs ++ ds, (rw (e, f) refl), (omega (arith, ram_of-append h cs ds)))

when_set-Fits :
    (h : Text) (x : ℤ) (v : ℕ) {r : Run (Unit {0})}
    → x ≡ pos v
    → Fits h v r
    → Fits h v (when (is_set x) r)
when_set-Fits h x zero e fits = rw e ([], refl, omega (arith, ram_of_nil h))
when_set-Fits h x (suc v) e fits = rw e fits

-- What eventing leaves of a memory quota.
buckets_quota_left :
    (mem_quota metadata eventing : ℤ) (q d v : ℕ)
    → mem_quota ≡ pos q
    → metadata ≡ pos (suc d)
    → eventing ≡ pos v
    → suc d + v ≤ q
    → (if is_set metadata then mem_quota -ℤ (metadata +ℤ eventing) else mem_quota)
      ≡ pos (q - (suc d + v))
buckets_quota_left mem_quota metadata eventing q d v e f g room =
    rw (e, f, g, pos-+ℤ (suc d) v) (pos--ℤ q (suc d + v) room)

for_buckets-Fits :
    (h : Text) (o : BucketOptions) (m : ClusterManager) (names : List Text) {ms : List Text}
    → masters m.items ≡ ok ms
    → Distinct ms
    → Fits h
        (length names * to_ℕ o.ram_quota)
        (for_buckets (λ master name. create_bucket master name o) m names)
for_buckets-Fits h o m names {ms} read distinct = (
  flat (creations o names) ms,
  for_buckets-done o m names read,
  ram_of-flat o h names ms distinct,
)

share : (a n : ℕ) → suc n * (a / suc n) ≤ a
share a n = grind arith

floor_div_pos : (a n : ℕ) → floor_div (pos a) (pos (suc n)) ≡ ok (pos (a / suc n))
unfolding floor_div
floor_div_pos a n = refl

module _ (h : Text) (m : ClusterManager) {ms : List Text} (read : masters m.items ≡ ok ms)
    (distinct : Distinct ms) where
  when_limits-Fits : (b : Bool) (n : ℤ) → Fits h 0 (when b (increase_bucket_limits m n))
  unfolding ram_of
  when_limits-Fits true n = (
    flat (λ master. increase_bucket_limit master n ∷ []) ms,
    limits_done m n read,
    omega (arith, no_limits h n ms),
  )
  when_limits-Fits false n = ([], refl, omega arith)

  -- The buckets of one size, where their number is `suc n`.
  sized-Fits :
      (total number : ℤ) (a n : ℕ) (o : ℤ → BucketOptions) (names : List Text)
      → total ≡ pos a
      → number ≡ pos (suc n)
      → ((r : ℤ) → (o r).ram_quota ≡ r)
      → length names ≡ suc n
      → Fits h a (
          lift (floor_div total number) >>= λ r.
          for_buckets (λ master name. create_bucket master name (o r)) m names)
  sized-Fits total number a n o names e f kept named =
      let fits = for_buckets-Fits h (o (pos (a / suc n))) m names read distinct in
      let size : length names * to_ℕ (o (pos (a / suc n))).ram_quota ≤ a =
        rw (named, kept (pos (a / suc n))) (share a n) in
      rw (e, f, floor_div_pos a n) (fits.0, fits.1, le_trans fits.2 size)

  create_buckets-Fits :
      {n q : ℕ}
      → m.cluster.num_buckets ≡ pos (suc n)
      → buckets_quota m.cluster ≡ pos q
      → Fits h q (create_buckets m)
  unfolding create_buckets
  create_buckets-Fits {n} {q} number quota =
      let named : length (buckets m.cluster) ≡ suc n = length-buckets m.cluster ∙ ap to_ℕ number in
      let sized =
        sized-Fits (buckets_quota m.cluster) m.cluster.num_buckets q n (bucket_options m.bucket)
          (buckets m.cluster) quota number (λ r. refl) named in
      let limits =
        when_limits-Fits (ltb_ℤ (pos 7) m.cluster.num_buckets) (m.cluster.num_buckets +ℤ pos 3) in
      let both = Fits-then h 0 q limits sized in (both.0, both.1, omega (arith, both.2))

  create_eventing_buckets-Fits :
      {k v : ℕ}
      → m.cluster.eventing_buckets ≡ pos (suc k)
      → m.cluster.eventing_bucket_mem_quota ≡ pos v
      → Fits h v (create_eventing_buckets m)
  unfolding create_eventing_buckets
  create_eventing_buckets-Fits {k} {v} number quota =
      let named : length (eventing_buckets m.cluster) ≡ suc k =
        length-eventing_buckets m.cluster ∙ ap to_ℕ number in
      when_set-Fits h m.cluster.eventing_bucket_mem_quota v quota (
        sized-Fits m.cluster.eventing_bucket_mem_quota m.cluster.eventing_buckets v k
          (eventing_options m.bucket) (eventing_buckets m.cluster) quota number (λ r. refl) named)

  create_eventing_metadata_bucket-Fits :
      {d : ℕ}
      → m.cluster.eventing_metadata_bucket_mem_quota ≡ pos d
      → Fits h d (create_eventing_metadata_bucket m)
  unfolding create_eventing_metadata_bucket
  create_eventing_metadata_bucket-Fits {d} quota =
      let o = metadata_options m.bucket m.cluster.eventing_metadata_bucket_mem_quota in
      let names = codes "eventing" ∷ [] in
      let bound = ram_of-flat o h names ms distinct in
      when_set-Fits h m.cluster.eventing_metadata_bucket_mem_quota d quota (
        flat (creations o names) ms,
        for_masters-done _ (creations o names) m.items read (λ master. refl),
        omega (arith, bound, ap to_ℕ quota),
      )

-- The buckets that are made one after the other when a cluster is set up.
abbrev pub all_buckets : ClusterManager → Run (Unit {0})
all_buckets m = create_buckets m >> create_eventing_buckets m >> create_eventing_metadata_bucket m

-- If the masters are different servers, there are buckets and eventing buckets, a metadata bucket has
-- a quota, and the quotas for eventing together do not exceed the memory quota, then the calls that
-- create the buckets raise no exception, and on no server they reserve more than the memory quota.
pub all_buckets_fit :
    (h : Text) (m : ClusterManager) {ms : List Text} {n k q v d : ℕ}
    → masters m.items ≡ ok ms
    → Distinct ms
    → m.cluster.num_buckets ≡ pos (suc n)
    → m.cluster.eventing_buckets ≡ pos (suc k)
    → m.cluster.mem_quota ≡ pos q
    → m.cluster.eventing_bucket_mem_quota ≡ pos v
    → m.cluster.eventing_metadata_bucket_mem_quota ≡ pos (suc d)
    → suc d + v ≤ q
    → ((all_buckets m).outcome ≡ ok tt) × (ram_of h (all_buckets m).calls ≤ q)
all_buckets_fit h m {ms} {n} {k} {q} {v} {d} read distinct number eventing quota share_v share_d
      room =
    let left : buckets_quota m.cluster ≡ pos (q - (suc d + v)) =
      unfold buckets_quota in
      buckets_quota_left m.cluster.mem_quota m.cluster.eventing_metadata_bucket_mem_quota
        m.cluster.eventing_bucket_mem_quota q d v quota share_d share_v room in
    let (cs, e, f) =
      Fits-then h (q - (suc d + v) + v) (suc d)
        (Fits-then h (q - (suc d + v)) v (create_buckets-Fits h m read distinct number left)
          (create_eventing_buckets-Fits h m read distinct eventing share_v))
        (create_eventing_metadata_bucket-Fits h m read distinct share_d) in
    rw e (refl, omega arith)
