-- ===== src/Worker/Variants.antt =====
-- The other workers of spring/wgen.py: those that change one field or extended attribute of a
-- document, those that go once through the keys, and the choice between all of them.
use perfrunner.Prelude.{ℕ, Bool, true, false, List, [], ◌∷◌, map, Result, ok, ◌>>=◌, if◌then◌else◌}
use perfrunner.Prelude.Int.{pos}
use perfrunner.Text.{Text}
use perfrunner.Keys.{Key}
use perfrunner.Generators.{HotLoad, sequential_key, hot_key}
use perfrunner.Worker.{WorkloadSettings, Draws, init_keys, existing_next, existing_next_hot}

-- A call of these workers on the client.
pub data FieldCommand (Doc : Type 0) : Type 0 where
  read_field read_xattr : (key : Key) (field : Text) → FieldCommand Doc
  update_field update_xattr : (key : Key) (field : Text) (doc : Doc) → FieldCommand Doc
  read_doc : (key : Key) → FieldCommand Doc
  update_doc : (key : Key) (doc : Doc) → FieldCommand Doc

module _ {Doc : Type 0} (docs : Key → Doc) (ws : WorkloadSettings) (prefix field : Text) where
  -- The key of a read, and what is done with it.
  read_with : (Key → FieldCommand Doc) → Draws → ℕ → ℕ → Result (List (FieldCommand Doc))
  read_with call d curr_items deleted_items =
      existing_next (init_keys ws prefix) d (pos curr_items) (pos deleted_items) >>= λ key.
      ok (call key ∷ [])

  -- The key of an update, and what is done with it.
  update_with :
      (Key → FieldCommand Doc)
      → Draws
      → ℕ
      → ℕ
      → HotLoad
      → Result (List (FieldCommand Doc)) × HotLoad
  update_with call d curr_items deleted_items s =
      let (r, s') =
        existing_next_hot (init_keys ws prefix) d (pos curr_items) (pos deleted_items) s in
      ((r >>= λ key. ok (call key ∷ [])), s')

  -- `SubDocWorker.read_args`
  unfoldable pub sub_doc_read_args : Draws → ℕ → ℕ → Result (List (FieldCommand Doc))
  unfolding read_with
  sub_doc_read_args = read_with (λ key. read_field key field)

  -- `SubDocWorker.update_args`
  unfoldable pub sub_doc_update_args :
      Draws → ℕ → ℕ → HotLoad → Result (List (FieldCommand Doc)) × HotLoad
  unfolding update_with
  sub_doc_update_args = update_with (λ key. update_field key field (docs key))

  -- `XATTRWorker.read_args`
  unfoldable pub xattr_read_args : Draws → ℕ → ℕ → Result (List (FieldCommand Doc))
  unfolding read_with
  xattr_read_args = read_with (λ key. read_xattr key field)

  -- `XATTRWorker.update_args`
  unfoldable pub xattr_update_args :
      Draws → ℕ → ℕ → HotLoad → Result (List (FieldCommand Doc)) × HotLoad
  unfolding update_with
  xattr_update_args = update_with (λ key. update_xattr key field (docs key))

  -- `HotReadsWorker.run`
  unfoldable pub hot_reads : ℕ → Result (List (FieldCommand Doc))
  hot_reads sid = hot_key ws.keys prefix sid >>= λ keys. ok (map read_doc keys)

  -- `SeqUpsertsWorker.run`
  unfoldable pub seq_upserts : ℕ → Result (List (FieldCommand Doc))
  seq_upserts sid =
      sequential_key ws.keys prefix sid >>= λ keys. ok (map (λ key. update_doc key (docs key)) keys)

  -- `SeqXATTRUpdatesWorker.run`
  unfoldable pub seq_xattr_updates : ℕ → Result (List (FieldCommand Doc))
  seq_xattr_updates sid = sequential_key ws.keys prefix sid >>= λ keys.
      ok (map (λ key. update_xattr key field (docs key)) keys)

-- The settings by which a worker is chosen; an empty field stands for none.
pub record FactorySettings : Type 0 where
  pub async : Bool
  pub seq_upserts : Bool
  pub hot_reads : Bool
  pub subdoc_field : Text
  pub xattr_field : Text
  pub workers : ℕ

pub data WorkerKind : Type 0 where
  async_kv_worker seq_xattr_updates_worker seq_upserts_worker hot_reads_worker : WorkerKind
  sub_doc_worker xattr_worker kv_worker : WorkerKind

abbrev is_set : Text → Bool
is_set [] = false
is_set (c ∷ t) = true

-- `WorkerFactory`
unfoldable pub worker_factory : FactorySettings → WorkerKind × ℕ
worker_factory s =
    let kind =
      if s.async
      then async_kv_worker
      else if s.seq_upserts
      then (if is_set s.xattr_field then seq_xattr_updates_worker else seq_upserts_worker)
      else if s.hot_reads
      then hot_reads_worker
      else if is_set s.subdoc_field
      then sub_doc_worker
      else if is_set s.xattr_field
      then xattr_worker
      else kv_worker in
    (kind, s.workers)
