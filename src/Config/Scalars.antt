-- ===== src/Config/Scalars.antt =====
-- `maybe_atoi` of perfrunner/helpers/misc.py, for whole numbers.
use perfrunner.Prelude.{Bool, true, false, Result, ok, err, if◌then◌else◌}
use perfrunner.Prelude.Int.{ℤ}
use perfrunner.Text.{Text, codes, eq_text}
use perfrunner.Text.Words.{lower, parse_int}

pub data Scalar : Type 0 where
  truth : Bool → Scalar
  number : ℤ → Scalar
  text : Text → Scalar

abbrev number_or_text : Text → Result ℤ → Scalar
number_or_text a (ok n) = number n
number_or_text a (err e) = text a

unfoldable pub maybe_atoi : Text → Scalar
maybe_atoi a =
    if eq_text (lower a) (codes "false")
    then truth false
    else if eq_text (lower a) (codes "true")
    then truth true
    else number_or_text a (parse_int a)
