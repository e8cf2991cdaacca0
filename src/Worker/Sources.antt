-- ===== src/Worker/Sources.antt =====
-- Which documents a worker writes, and how the workers of a workload are started: `init_docs` and
-- `WorkloadGen` of spring/wgen.py.
use perfrunner.Prelude.{List, [], ◌∷◌, Option, none, some, if◌then◌else◌}
use perfrunner.Prelude.Int.{ℤ}
use perfrunner.Text.{Text, codes, eq_text}

-- The document generators, by their classes, with the arguments of their constructors.
pub data DocSource : Type 0 where
  document : (size : ℤ) → DocSource
  string_source : (size : ℤ) → DocSource
  nested_document : (size : ℤ) → DocSource
  reverse_lookup_document : (size : ℤ) (prefix : Text) → DocSource
  reverse_range_lookup_document : (size : ℤ) (prefix : Text) (range_distance : ℤ) → DocSource
  ext_reverse_lookup_document : (size : ℤ) (prefix : Text) (items : ℤ) → DocSource
  hash_join_document : (size : ℤ) (prefix : Text) (range_distance : ℤ) → DocSource
  joined_document :
      (size : ℤ) (prefix : Text) (items : ℤ) (num_categories : ℤ) (num_replies : ℤ) → DocSource
  ref_document : (size : ℤ) (prefix : Text) → DocSource
  array_indexing_document : (size : ℤ) (prefix : Text) (array_size : ℤ) (items : ℤ) → DocSource
  array_indexing_unique_document :
      (size : ℤ) (prefix : Text) (array_size : ℤ) (items : ℤ) → DocSource
  array_indexing_range_scan_document :
      (size : ℤ) (prefix : Text) (array_size : ℤ) (items : ℤ) → DocSource
  profile_document : (size : ℤ) (prefix : Text) → DocSource
  import_export_document : (size : ℤ) (prefix : Text) → DocSource
  import_export_document_array : (size : ℤ) (prefix : Text) → DocSource
  import_export_document_nested : (size : ℤ) (prefix : Text) → DocSource
  large_document : (size : ℤ) → DocSource
  gsi_multi_index_document : (size : ℤ) → DocSource
  small_plasma_document : (size : ℤ) → DocSource
  sequential_plasma_document : (size : ℤ) → DocSource
  large_item_plasma_document : (size : ℤ) (item_size : ℤ) → DocSource
  varying_item_size_plasma_document :
      (size : ℤ) (size_variation_min : ℤ) (size_variation_max : ℤ) → DocSource
  eventing_small_document : (size : ℤ) → DocSource
  tpc_ds_document : DocSource
  package_document : (size : ℤ) → DocSource
  incompressible_string : (size : ℤ) → DocSource
  big_fun_document : DocSource
  multi_bucket_document : (size : ℤ) → DocSource
  adv_filter_document : (size : ℤ) → DocSource
  adv_filter_xattr_body : (size : ℤ) → DocSource

-- The settings that `init_docs` reads; `doc_gen` is none where the settings have no such attribute.
pub record DocSettings : Type 0 where
  pub doc_gen : Option Text
  pub size : ℤ
  pub range_distance : ℤ
  pub items : ℤ
  pub num_categories : ℤ
  pub num_replies : ℤ
  pub array_size : ℤ
  pub item_size : ℤ
  pub size_variation_min : ℤ
  pub size_variation_max : ℤ

abbrev named_source : Text → DocSettings → List (Text × DocSource) → Option DocSource
named_source name ws [] = none
named_source name ws ((n, source) ∷ sources) =
    if eq_text name n then some source else named_source name ws sources

abbrev sources : DocSettings → Text → List (Text × DocSource)
sources ws ts_prefix =
    (codes "basic", document ws.size)
    ∷ (codes "string", string_source ws.size)
    ∷ (codes "nested", nested_document ws.size)
    ∷ (codes "reverse_lookup", reverse_lookup_document ws.size ts_prefix)
    ∷ (
      codes "reverse_range_lookup",
      reverse_range_lookup_document ws.size ts_prefix ws.range_distance,
    )
    ∷ (codes "ext_reverse_lookup", ext_reverse_lookup_document ws.size ts_prefix ws.items)
    ∷ (codes "hash_join", hash_join_document ws.size ts_prefix ws.range_distance)
    ∷ (codes "join", joined_document ws.size ts_prefix ws.items ws.num_categories ws.num_replies)
    ∷ (codes "ref", ref_document ws.size ts_prefix)
    ∷ (codes "array_indexing", array_indexing_document ws.size ts_prefix ws.array_size ws.items)
    ∷ (
      codes "array_indexing_unique",
      array_indexing_unique_document ws.size ts_prefix ws.array_size ws.items,
    )
    ∷ (
      codes "array_indexing_range_scan",
      array_indexing_range_scan_document ws.size ts_prefix ws.array_size ws.items,
    )
    ∷ (codes "profile", profile_document ws.size ts_prefix)
    ∷ (codes "import_export_simple", import_export_document ws.size ts_prefix)
    ∷ (codes "import_export_array", import_export_document_array ws.size ts_prefix)
    ∷ (codes "import_export_nested", import_export_document_nested ws.size ts_prefix)
    ∷ (codes "large", large_document ws.size)
    ∷ (codes "gsi_multiindex", gsi_multi_index_document ws.size)
    ∷ (codes "small_plasma", small_plasma_document ws.size)
    ∷ (codes "sequential_plasma", sequential_plasma_document ws.size)
    ∷ (codes "large_item_plasma", large_item_plasma_document ws.size ws.item_size)
    ∷ (
      codes "varying_item_plasma",
      varying_item_size_plasma_document ws.size ws.size_variation_min ws.size_variation_max,
    )
    ∷ (codes "eventing_small", eventing_small_document ws.size)
    ∷ (codes "tpc_ds", tpc_ds_document)
    ∷ (codes "package", package_document ws.size)
    ∷ (codes "incompressible", incompressible_string ws.size)
    ∷ (codes "big_fun", big_fun_document)
    ∷ (codes "multibucket", multi_bucket_document ws.size)
    ∷ (codes "advancedfilter", adv_filter_document ws.size)
    ∷ (codes "advancedfilterxattr", adv_filter_xattr_body ws.size)
    ∷ []

-- `init_docs`: the first name that fits; with an unknown name the worker has no `docs`.
unfoldable pub init_docs : DocSettings → Text → Option DocSource
init_docs ws ts_prefix = elim ws.doc_gen [
  | none ↦ some (document ws.size)
  | some name ↦ named_source name ws (sources ws ts_prefix)
]
