-- ===== src/Tests/Workload.antt =====
-- Runs and instances for the processes of a workload (spring/wgen.py), the documents of
-- spring/docgen.py that are drawn from lists, and the waits for replication.
use perfrunner.Prelude.{◌≡◌, refl, true, false, [], ◌∷◌, none, some, ok}
use perfrunner.Prelude.Int.{Ratio, pos}
use perfrunner.Text.{codes}
use perfrunner.Documents.Samples.{sample}
use perfrunner.Documents.Pieces.{random_array, pieces_at}
use perfrunner.Monitor.Queues.{last}
use perfrunner.Monitor.Replication.{Samples}
use perfrunner.Monitor.Xdcr.{get_num_items}
use perfrunner.Worker.Sources.{DocSettings, init_docs, string_source}
use perfrunner.Worker.Workload.{GenSettings, run_workload}
use perfrunner.Worker.Workload.Joins.{IsOrderly, run_workload-IsOrderly}

abbrev no_ratio : Ratio
no_ratio = record { num = 0; den = 1 }

-- Two key-value workers, a view worker and a N1QL worker, with a moving working set.
abbrev moving_workload : GenSettings
moving_workload = record {
  workload = record {
    keys = record {
      items = 1000;
      workers = 2;
      working_set = record { num = 20; den = 1 };
      working_set_access = 90;
      working_set_moving_docs = 10;
      key_fmtr = codes "hex";
    };
    creates = 0;
    reads = 1;
    updates = 0;
    deletes = 0;
    reads_and_updates = 0;
    ops = none;
    spring_batch_size = 100;
    durability = 0;
    persist_to = 0;
    replicate_to = 0;
    ttl = 0;
    working_set_move_time = 60;
    power_alpha = no_ratio;
    zipf_alpha = no_ratio;
  };
  factory = record {
    async = false;
    seq_upserts = false;
    hot_reads = false;
    subdoc_field = [];
    xattr_field = [];
    workers = 2;
  };
  query_workers = 1;
  n1ql_workers = 1;
  has_timer = true;
}

run_workload-IsOrderly_example : IsOrderly [] [] (run_workload moving_workload)
run_workload-IsOrderly_example = run_workload-IsOrderly moving_workload

abbrev string_settings : DocSettings
string_settings = record {
  doc_gen = some (codes "string");
  size = pos 1024;
  range_distance = pos 0;
  items = pos 0;
  num_categories = pos 0;
  num_replies = pos 0;
  array_size = pos 0;
  item_size = pos 0;
  size_variation_min = pos 0;
  size_variation_max = pos 0;
}

string_docs : init_docs string_settings [] ≡ some (string_source (pos 1024))
unfolding init_docs
string_docs = refl

sampled_words :
    sample (λ i. i) 2 (codes "a" ∷ codes "b" ∷ codes "c" ∷ []) ≡ ok (codes "b" ∷ codes "a" ∷ [])
unfolding sample
sampled_words = refl

cut_text : random_array (λ i. 0) 2 (codes "abc") ≡ ok (codes "" ∷ codes "ab" ∷ [])
unfolding random_array pieces_at sample
cut_text = refl

abbrev item_samples : Samples
item_samples key = some (3 ∷ (5 ∷ []))

num_items : get_num_items item_samples true ≡ 5
unfolding get_num_items last
num_items = refl
