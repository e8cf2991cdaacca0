-- ===== src/Tests/Keys.antt =====
-- Keys at concrete numbers (spring/docgen.py).
use perfrunner.Prelude.{ℕ, ◌≡◌, refl, [], ok, arith}
use perfrunner.Prelude.Int.{pos, negsuc}
use perfrunner.Text.{Text, codes, read_digits, format_int}
use perfrunner.Keys.{decimal_fmtr, hex_fmtr}
use perfrunner.Keys.Format.{suffix, int-decimal_fmtr, hex_fmtr-injective}
use perfrunner.Keys.Prefix.{decimal_fmtr_unique}

abbrev users : Text
users = codes "users"

decimal_runs : decimal_fmtr (pos 42) users ≡ codes "users-000000000042"
unfolding decimal_fmtr format_int
decimal_runs = refl

negative_runs : decimal_fmtr (negsuc 4) [] ≡ codes "-00000000005"
unfolding decimal_fmtr format_int
negative_runs = refl

hex_runs : hex_fmtr (pos 0) [] ≡ codes "047bf19673df52e37f2410011d1000000000"
unfolding hex_fmtr format_int
hex_runs = refl

decimal_fmtr_unique_example : (users ≡ users) × (◌≡◌ {A = ℕ} 7 7)
decimal_fmtr_unique_example = decimal_fmtr_unique 7 7 users users refl

int-decimal_fmtr_example : read_digits 10 0 (suffix users (decimal_fmtr (pos 42) users)) ≡ ok 42
int-decimal_fmtr_example = int-decimal_fmtr 42 users

hex_fmtr-injective_example : ◌≡◌ {A = ℕ} 1000 1000
hex_fmtr-injective_example = hex_fmtr-injective 1000 1000 users (omega arith) (omega arith) refl
