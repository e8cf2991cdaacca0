-- ===== src/KeyFragger.antt =====
-- The work on the keys in perfrunner/workloads/keyFragger.py: each document of a batch is stored again
-- under a longer key, and its key of the size before is removed. The ring of workers and the policy
-- that freezes documents are those of perfrunner/workloads/pathoGen.py; the retries of a request are
-- left out.
pub mod Padding
pub mod Batches
pub mod Keys
use perfrunner.Prelude.{
  ℕ, zero, suc, ◌+◌, ◌-◌, ◌*◌, Bool, true, false, List, [], ◌∷◌, ◌++◌, Option, none, some, Result,
  ok, err, stop_iteration, runtime_error, value_error, ◌>>=◌, ◌==◌, if◌then◌else◌, replicate,
  length,
}
use perfrunner.Text.{Text, eq_text, render}

abbrev pub sv_size : ℕ
sv_size = 56 + 2

-- `JE_MALLOC_SIZES`
abbrev pub je_malloc_sizes : List ℕ
je_malloc_sizes = 64 ∷ 80 ∷ 96 ∷ 112 ∷ 128 ∷ 160 ∷ 192 ∷ 224 ∷ 256 ∷ []

abbrev inner_sizes : ℕ → List ℕ → List ℕ
inner_sizes i [] = []
inner_sizes i (s ∷ ss) = (i + (s - sv_size)) ∷ inner_sizes i ss

-- `n` rounds of the outer loop, from the number `i` on
abbrev pub outer_sizes : ℕ → ℕ → List ℕ
outer_sizes zero i = []
outer_sizes (suc n) i = inner_sizes i je_malloc_sizes ++ outer_sizes n (i + 1)

-- `SIZES`, as `KeyFragger.__init__` fills the empty list
abbrev pub sizes : List ℕ
sizes = outer_sizes 6 0 ++ (250 ∷ [])

-- `SequenceIterator`
pub record Sequence : Type 0 where
  pub pre : Option ℕ
  pub left : List ℕ

abbrev up_to : ℕ → List ℕ → Result (List ℕ)
up_to max_size [] = err value_error
up_to max_size (s ∷ ss) =
    if s == max_size then ok (s ∷ []) else (up_to max_size ss >>= λ r. ok (s ∷ r))

-- SIZES[:SIZES.index(max_size) + 1], and no size before
unfoldable pub sequence_iterator : ℕ → Result Sequence
sequence_iterator max_size = up_to max_size sizes >>= λ r. ok (record { pre = none; left = r })

-- '{prefix:A<width}': the number, and the letter A up to the width
unfoldable pub padded_key : ℕ → ℕ → Text
padded_key key_prefix keylen =
    render 10 key_prefix ++ replicate (keylen - length (render 10 key_prefix)) b'A'

-- The bucket: which keys it holds. All values are the same.
abbrev pub Store : Type 0
Store = Text → Bool

-- `_set_with_retry`
unfoldable pub set_key : ℕ → ℕ → Store → Store
unfolding padded_key
set_key key_prefix keylen store =
    λ t. if eq_text t (padded_key key_prefix keylen) then true else store t

-- `_del_with_retry`: the exception for a key that is not there is not caught.
unfoldable pub del_key : ℕ → ℕ → Store → Result Store
unfolding padded_key
del_key key_prefix keylen store =
    if store (padded_key key_prefix keylen)
    then ok (λ t. if eq_text t (padded_key key_prefix keylen) then false else store t)
    else err (runtime_error "NotFoundError")

-- `if previous: …`
abbrev pub del_previous : Option ℕ → ℕ → Store → Result Store
del_previous none key store = ok store
del_previous (some zero) key store = ok store
del_previous (some (suc n)) key store = del_key key (suc n) store

-- The loop of `do_work` over `n` keys, from `key` on
unfoldable pub work_keys : Option ℕ → ℕ → ℕ → ℕ → Store → Result Store
unfolding del_key set_key
work_keys previous next_size zero key store = ok store
work_keys previous next_size (suc n) key store = del_previous previous key store >>= λ s.
    work_keys previous next_size n (key + 1) (set_key key next_size s)

-- `do_work`, for the sizes that the iterator has left
abbrev pub do_work_for : ℕ → ℕ → Option ℕ → List ℕ → Store → Result (Store × Sequence)
do_work_for batch_size index pre [] store = err stop_iteration
do_work_for batch_size index pre (s ∷ ss) store =
    work_keys pre s batch_size (index * batch_size) store >>= λ done.
    ok (done, record { pre = some s; left = ss })

-- `do_work`
unfoldable pub do_work : ℕ → ℕ → Sequence → Store → Result (Store × Sequence)
unfolding work_keys
do_work batch_size index doc store = do_work_for batch_size index doc.pre doc.left store

-- The calls of `do_work` that an iterator with these sizes left gets on its way around the ring, up to
-- the one that ends it.
unfoldable pub work_through : ℕ → ℕ → Option ℕ → List ℕ → Store → Result Store
unfolding do_work
work_through batch_size index pre [] store = ok store
work_through batch_size index pre (s ∷ ss) store =
    do_work batch_size index (record { pre = pre; left = s ∷ ss }) store >>= λ r.
    work_through batch_size index (some s) ss r.0
