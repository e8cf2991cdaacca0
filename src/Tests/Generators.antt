-- ===== src/Tests/Generators.antt =====
-- The key generators at concrete settings.
use perfrunner.Prelude.{◌≡◌, refl, inl, ◌⊎◌, true, false, [], ◌∷◌, ok, arith, Returns}
use perfrunner.Prelude.Int.{pos, trunc_mul, int_laws, ◌+ℤ◌, ◌-ℤ◌, ◌≤ℤ◌, ◌<ℤ◌}
use perfrunner.Prelude.Range.{count}
use perfrunner.Text.{Text, codes}
use perfrunner.Generators.{
  KeySettings, HotLoad, WorkingSetKey, working_set_next, moving_next, sequential_numbers,
  hot_numbers,
}
use perfrunner.Generators.Space.{InSpace, working_set_next-InSpace}
use perfrunner.Generators.Moving.{Fits, moving_next-InSpace, moving_next-leaves}
use perfrunner.Generators.Load.{gather, sequential_load}

-- 10 documents, 3 workers, 20 % of them hot.
abbrev settings : KeySettings
settings = record {
  items = 10;
  workers = 3;
  working_set = record { num = 20; den = 1 };
  working_set_access = 90;
  working_set_moving_docs = 3;
  key_fmtr = codes "decimal";
}

abbrev prefix : Text
prefix = codes "p"

sequential_runs : sequential_numbers settings 1 ≡ ok (pos 1 ∷ pos 4 ∷ pos 7 ∷ [])
unfolding sequential_numbers ◌+ℤ◌ ◌-ℤ◌
sequential_runs = refl

hot_runs : gather 3 (hot_numbers settings) ≡ ok (pos 8 ∷ pos 9 ∷ [])
unfolding gather hot_numbers ◌+ℤ◌ ◌-ℤ◌
hot_runs = refl

sequential_load_example :
    Returns (gather 3 (sequential_numbers settings)) (λ xs. count (pos 7) xs ≡ 1)
sequential_load_example = sequential_load settings (omega arith) 7

two_hot : trunc_mul (pos 10) settings.working_set 100 ≡ pos 2
unfolding trunc_mul
two_hot = refl

abbrev working : WorkingSetKey
working = record { num_hot_items = pos 2; working_set_access = 90; prefix = prefix; fmtr = prefix }

working_set_next-InSpace_example : Returns (working_set_next working 95 3 (pos 10) (pos 4)) λ k.
    InSpace (pos 4) (pos 10) k
    × ((k.hit ≡ true × (pos 10 -ℤ pos 2 ≤ℤ k.number))
        ⊎ (k.hit ≡ false × (k.number <ℤ pos 10 -ℤ pos 2)))
working_set_next-InSpace_example =
    working_set_next-InSpace working 95 3 (pos 10) (pos 4) (omega arith) (omega int_laws)

abbrev elapsed : HotLoad
elapsed = record { hot_load_start = 9; timer_elapse = 1 }

moving_next-InSpace_example :
    let (r, s) = moving_next settings prefix 5 (pos 10) (pos 0) elapsed in
    Returns r (InSpace (pos 0) (pos 10)) × Fits s 10 2 × (s.timer_elapse ≡ 0)
moving_next-InSpace_example =
    moving_next-InSpace settings prefix 10 0 2 elapsed (omega arith) two_hot (omega arith)
      (omega arith) (omega arith) 5 (inl (omega arith))

-- A hot share of 60 % begins with a window that does not fit: it starts at 6, and is 6 wide.
abbrev wide : KeySettings
wide = record settings { working_set = record { num = 60; den = 1 } }

abbrev begun : HotLoad
begun = record { hot_load_start = 6; timer_elapse = 0 }

moving_next-leaves_example :
    Returns (moving_next wide prefix 5 (pos 10) (pos 0) begun).0 (λ k. pos 10 ≤ℤ k.number)
moving_next-leaves_example =
    moving_next-leaves wide prefix 10 0 6 begun (omega arith) (unfold trunc_mul in refl)
      (omega arith) (omega arith) (omega arith) refl (omega arith)
