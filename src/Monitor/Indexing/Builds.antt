-- ===== src/Monitor/Indexing/Builds.antt =====
-- About the wait of perfrunner/helpers/monitor.py for the first build of indexes.
use perfrunner.Prelude.{
  ℕ, zero, suc, ◌+◌, ◌≡◌, refl, Bool, true, false, List, [], ◌∷◌, Option, none, some, Result, ok,
  err, ◌==◌, Bool-cases, ◌⊎◌, Exn, Result-cases, inl, inr, All, replicate, length,
}
use perfrunner.Text.{Text}
use perfrunner.Monitor.Indexing.{
  IndexStatus, get_index_status, is_ready, Attempt, mark, mark_ready, attempt_update, settle,
  update_indexes_ready, all_set, wait_for_secindex_init_build,
}

-- Some answer of the servers says that the index is ready.
pub Reported : (ℕ → ℕ → Option (List IndexStatus)) → Text → Type 0
Reported answers index =
    (poll : ℕ) × (attempt : ℕ) × (ds : List IndexStatus) × (s : Option Text) × (answers poll attempt
      ≡ some ds)
    × (get_index_status ds index ≡ ok s)
    × (is_ready s ≡ true)

settle-cases :
    (raised : Option Exn) (is_last : Bool) (flags : List Bool) (rest : Result (List Bool))
    (gs : List Bool)
    → settle raised is_last flags rest ≡ ok gs
    → (flags ≡ gs) ⊎ (rest ≡ ok gs)
settle-cases none is_last flags rest gs e = inl (cc)
settle-cases (some x) true flags rest gs e = cc
settle-cases (some x) false flags rest gs e = inr e

module _ (answers : ℕ → ℕ → Option (List IndexStatus)) where
  -- There is a flag for each index, and one that is set has been reported.
  Known : List Text → List Bool → Type 0
  Known [] [] = Unit {0}
  Known [] (f ∷ fs) = ⊥
  Known (i ∷ is) [] = ⊥
  Known (i ∷ is) (f ∷ fs) = (f ≡ true → Reported answers i) × Known is fs

  mark-Known :
      (i : Text) (is : List Text) (f : Bool) (tail : List Bool) (rest : Attempt)
      (r : Result (Option Text))
      → (f ≡ true → Reported answers i)
      → ((s : Option Text) → r ≡ ok s → is_ready s ≡ true → Reported answers i)
      → Known is tail
      → Known is rest.flags
      → Known (i ∷ is) (mark r f tail rest).flags
  unfolding Known
  mark-Known i is f tail rest (err e) old new kept marked = (old, kept)
  mark-Known i is true tail rest (ok s) old new kept marked = ((λ h. old refl), marked)
  mark-Known i is false tail rest (ok s) old new kept marked = ((λ h. new s refl h), marked)

  mark_ready-Known :
      (poll attempt : ℕ) (ds : List IndexStatus) (is : List Text) (fs : List Bool)
      → answers poll attempt ≡ some ds
      → Known is fs
      → Known is (mark_ready ds is fs).flags
  unfolding mark_ready Known
  mark_ready-Known poll attempt ds [] fs told known = known
  mark_ready-Known poll attempt ds (i ∷ is) [] told known = known
  mark_ready-Known poll attempt ds (i ∷ is) (f ∷ fs) told known =
      mark-Known i is f fs (mark_ready ds is fs) (get_index_status ds i) known.0
        (λ s found ready. unfold Reported in (poll, attempt, ds, s, told, found, ready)) known.1
        (mark_ready-Known poll attempt ds is fs told known.1)

  attempt-Known :
      (poll attempt : ℕ) (is : List Text) (fs : List Bool) (o : Option (List IndexStatus))
      → answers poll attempt ≡ o
      → Known is fs
      → Known is (attempt_update o is fs).flags
  unfolding attempt_update
  attempt-Known poll attempt [] fs none told known = known
  attempt-Known poll attempt (i ∷ is) fs none told known = known
  attempt-Known poll attempt is fs (some ds) told known =
      mark_ready-Known poll attempt ds is fs told known

  update-Known :
      (poll : ℕ) (is : List Text) (left attempt : ℕ) (fs gs : List Bool)
      → Known is fs
      → update_indexes_ready (answers poll) is left attempt fs ≡ ok gs
      → Known is gs
  unfolding update_indexes_ready
  update-Known poll is zero attempt fs gs known e = let same : fs ≡ gs = cc in rw (← same) known
  update-Known poll is (suc left) attempt fs gs known e =
      let a = attempt_update (answers poll attempt) is fs in
      let marked = attempt-Known poll attempt is fs (answers poll attempt) refl known in
      elim (settle-cases a.raised (attempt == 9) a.flags _ gs e) [
        | inl same ↦ rw same at marked
        | inr again ↦ update-Known poll is left (attempt + 1) a.flags gs marked again
      ]

  all_set-Reported :
      (is : List Text) (fs : List Bool)
      → Known is fs
      → all_set fs ≡ true
      → All (Reported answers) is
  unfolding Known
  all_set-Reported [] fs known set = tt
  all_set-Reported (i ∷ is) [] known set = absurd known
  all_set-Reported (i ∷ is) (true ∷ fs) known set =
      (known.0 refl, all_set-Reported is fs known.1 set)
  all_set-Reported (i ∷ is) (false ∷ fs) known set = cc

  wait-Reported :
      (is : List Text) (fuel poll : ℕ) (fs : List Bool) (last : ℕ)
      → Known is fs
      → wait_for_secindex_init_build answers is fuel poll fs ≡ some (ok last)
      → All (Reported answers) is
  unfolding wait_for_secindex_init_build
  wait-Reported is zero poll fs last known ended = elim (Bool-cases (all_set fs)) [
    | inl set ↦ all_set-Reported is fs known set
    | inr unset ↦ cc (rw unset at ended)
  ]
  wait-Reported is (suc fuel) poll fs last known ended = elim (Bool-cases (all_set fs)) [
    | inl set ↦ all_set-Reported is fs known set
    | inr unset ↦ elim (Result-cases (update_indexes_ready (answers poll) is 10 0 fs)) [
      | inl (gs, e) ↦
          wait-Reported is fuel (poll + 1) gs last (update-Known poll is 10 0 fs gs known e)
            (rw (unset, e) at ended)
      | inr (x, e) ↦ cc (rw (unset, e) at ended)
    ]
  ]

  no_flags-Known : (is : List Text) → Known is (replicate (length is) false)
  unfolding Known
  no_flags-Known [] = tt
  no_flags-Known (i ∷ is) = ((λ h. cc), no_flags-Known is)

-- If the wait for the first build of indexes returns, then every one of the indexes has been ready in
-- some answer of the servers, at whichever poll and attempt.
pub wait_for_secindex_init_build-Reported :
    (answers : ℕ → ℕ → Option (List IndexStatus)) (indexes : List Text) (fuel : ℕ) {last : ℕ}
    → wait_for_secindex_init_build answers indexes fuel 0 (replicate (length indexes) false)
      ≡ some (ok last)
    → All (Reported answers) indexes
wait_for_secindex_init_build-Reported answers indexes fuel {last} ended =
    wait-Reported answers indexes fuel 0 (replicate (length indexes) false) last
      (no_flags-Known answers indexes) ended
