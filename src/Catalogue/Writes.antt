-- ===== src/Catalogue/Writes.antt =====
-- internal/catalog/store.go and locator.go: what is written. Each operation gives the session behind it,
-- and its error or none.
use atlas_bridge.Base.{ℕ, List, [], ◌∷◌, Option, none, some, if◌then◌else◌}
use atlas_bridge.Base.Text.{Bytes}
use atlas_bridge.Catalogue.{
  Locator, FileRecord, FileRow, Statement, upsert_file, upsert_locator, StoreError, not_encoded,
  not_executed, not_begun, not_committed, no_transaction, Database, Codec, Session, nullable,
}

abbrev pub Outcome : Type 0 → Type 0
Outcome D = Session D × Option StoreError

-- `if err != nil { return err }` behind a step
infixl 5 ◌>>◌
abbrev pub ◌>>◌ : {D : Type 0} → Outcome D → (Session D → Outcome D) → Outcome D
(s, some e) >> next = (s, some e)
(s, none) >> next = next s

abbrev pub row_of : FileRecord → FileRow
row_of f = record {
  provider_id = f.provider_id;
  external_id = f.external_id;
  file_id = f.file_id;
  md5 = nullable f.md5;
  aacid = nullable f.aacid;
  format = f.format;
  size = f.size;
}

module _ {D : Type 0} (db : Database D) (codec : Codec) where
  abbrev pub committed_as : Session D → Option D → Outcome D
  committed_as s none = (s, some not_executed)
  committed_as s (some d) = (record s { committed = d }, none)

  -- ExecContext on the connection: a statement by itself
  unfoldable pub execute_alone : Statement → Session D → Outcome D
  execute_alone st s = committed_as s (db.execute st s.committed)

  abbrev pub changed_tx : Session D → Option D → Outcome D
  changed_tx s none = (s, some not_executed)
  changed_tx s (some d) = (record s { open_tx = some d }, none)

  abbrev pub execute_on : Statement → Session D → Option D → Outcome D
  execute_on st s none = (s, some no_transaction)
  execute_on st s (some d) = changed_tx s (db.execute st d)

  -- ExecContext on the transaction
  unfoldable pub execute_tx : Statement → Session D → Outcome D
  execute_tx st s = execute_on st s s.open_tx

  -- BeginTx
  unfoldable pub begin_tx : Session D → Outcome D
  begin_tx s =
      if db.begins s.committed
      then (record s { open_tx = some s.committed }, none)
      else (s, some not_begun)

  -- Rollback
  unfoldable pub rollback : Session D → Session D
  rollback s = record s { open_tx = none }

  abbrev pub commit_of : Session D → Option D → Outcome D
  commit_of s none = (s, some no_transaction)
  commit_of s (some d) =
      if db.commits s.committed d
      then (record { committed = d; open_tx = none }, none)
      else (record s { open_tx = none }, some not_committed)

  -- Commit, which ends the transaction also when it fails
  unfoldable pub commit : Session D → Outcome D
  commit s = commit_of s s.open_tx

  abbrev pub committed_or_back : Outcome D → Outcome D
  committed_or_back (s, some e) = (rollback s, some e)
  committed_or_back (s, none) = commit s

  -- The shape of UpsertBatch and UpsertFilesBatch: begin, the loop, then Commit or Rollback.
  unfoldable pub in_transaction : (Session D → Outcome D) → Session D → Outcome D
  unfolding begin_tx rollback commit
  in_transaction body s = begin_tx s >> λ s'. committed_or_back (body s')

  abbrev pub locator_written : Locator → Option Bytes → Session D → Outcome D
  locator_written l none s = (s, some not_encoded)
  locator_written l (some bytes) s =
      execute_tx (upsert_locator l.provider_id l.external_id l.file_id bytes) s

  abbrev pub write_locator : Option Locator → Session D → Outcome D
  write_locator none s = (s, none)
  write_locator (some l) s = locator_written l (codec.marshal_locator l) s

  -- The loop of UpsertFilesBatch
  unfoldable pub write_files : List FileRecord → Session D → Outcome D
  unfolding execute_tx
  write_files [] s = (s, none)
  write_files (f ∷ fs) s =
      execute_tx (upsert_file (row_of f)) s >> write_locator f.locator >> write_files fs

  -- UpsertFilesBatch
  unfoldable pub upsert_files_batch : List FileRecord → Session D → Outcome D
  unfolding in_transaction write_files
  upsert_files_batch files s = in_transaction (write_files files) s

  -- What upsertExec runs its statements on.
  pub record Executor : Type 0 where
    pub execute : Statement → Session D → Outcome D
    pub row_id : Bytes → Bytes → Session D → Option ℕ

  abbrev pub in_connection : Executor
  in_connection = record {
    execute = execute_alone;
    row_id = λ provider external s. db.row_id provider external s.committed;
  }

  abbrev pub in_tx : Executor
  in_tx = record {
    execute = execute_tx;
    row_id = λ provider external s. elim s.open_tx [
      | none ↦ none
      | some d ↦ db.row_id provider external d
    ];
  }
