-- ===== src/Config/Targets.antt =====
-- The buckets that a test works on, as `TargetIterator` of perfrunner/settings.py lists them.
pub mod Names
use perfrunner.Prelude.{List, [], ◌∷◌, ◌++◌, Option, none, some, Result, ok, ◌>>=◌}
use perfrunner.Text.{Text, codes}
use perfrunner.Config.{Options, masters}

pub record TargetSettings : Type 0 where
  pub password : Text
  pub node : Text
  pub bucket : Text
  pub prefix : Text

unfoldable pub connection_string : TargetSettings → Text
connection_string t =
    codes "couchbase://"
    ++ (t.bucket ++ (b':' ∷ (t.password ++ (b'@' ∷ (t.node ++ (b'/' ∷ t.bucket))))))

abbrev prefix_for : (Text → Text) → Option Text → Text → Text
prefix_for target_hash (some prefix) master = prefix
prefix_for target_hash none master = target_hash master

-- The inner loop of `TargetIterator.__iter__`
unfoldable pub bucket_targets : Text → Text → Text → List Text → List TargetSettings
bucket_targets password prefix master [] = []
bucket_targets password prefix master (b ∷ bs) =
    record { password = password; node = master; bucket = b; prefix = prefix }
    ∷ bucket_targets password prefix master bs

unfoldable pub master_targets :
    (Text → Text) → Text → Option Text → List Text → List Text → List TargetSettings
unfolding bucket_targets
master_targets target_hash password prefix buckets [] = []
master_targets target_hash password prefix buckets (m ∷ ms) =
    bucket_targets password (prefix_for target_hash prefix m) m buckets
    ++ master_targets target_hash password prefix buckets ms

-- `TargetIterator.__iter__`, run to its end; `target_hash` depends on the interpreter's `hash`.
unfoldable pub target_iterator :
    (Text → Text) → Text → Option Text → List Text → Options → Result (List TargetSettings)
unfolding master_targets
target_iterator target_hash password prefix buckets items =
    masters items >>= λ ms. ok (master_targets target_hash password prefix buckets ms)
