-- ===== src/Catalogue/Books.antt =====
-- internal/catalog/store.go and locator.go: the writes of books and locators, and IngestJSONL. A line's
-- decoding by encoding/json is a parameter; so are the lines of the bufio.Scanner, and its error.
use atlas_bridge.Base.{
  ℕ, ◌+◌, Bool, true, false, ◌&&◌, ◌||◌, List, [], ◌∷◌, Option, none, some, if◌then◌else◌, ltb, leb,
}
use atlas_bridge.Base.Text.{Bytes, ◌=ᵇ◌, trim_space}
use atlas_bridge.Model.{Book, BookFile}
use atlas_bridge.Catalogue.{
  Locator, FileRow, upsert_book, delete_index, insert_index, upsert_file, create_and_upsert_locator,
  rebuild_index, StoreError, not_encoded, no_row, not_decoded, Database, Codec, Session, nullable,
}
use atlas_bridge.Catalogue.Writes.{
  Outcome, ◌>>◌, Executor, in_connection, in_tx, in_transaction, execute_alone,
}

abbrev pub book_row : Book → BookFile → FileRow
book_row b f = record {
  provider_id = b.provider_id;
  external_id = b.external_id;
  file_id = f.file_id;
  md5 = nullable f.md5;
  aacid = nullable f.aacid;
  format = f.format;
  size = f.size;
}

abbrev pub is_blank_book : Book → Bool
is_blank_book b =
    trim_space b.provider_id =ᵇ [] || trim_space b.external_id =ᵇ [] || trim_space b.title =ᵇ []

abbrev pub limit_reached : ℕ → ℕ → Bool
limit_reached limit count = ltb 0 limit && leb limit count

module _ {D : Type 0} (db : Database D) (codec : Codec) where
  -- The loop of upsertExec over the book's files
  unfoldable pub write_book_files : Executor db codec → Book → List BookFile → Session D → Outcome D
  write_book_files on b [] s = (s, none)
  write_book_files on b (f ∷ fs) s =
      on.execute (upsert_file (book_row b f)) s >> write_book_files on b fs

  -- The index: the error of DELETE is dropped, that of INSERT is kept for the end.
  abbrev pub write_index : Bool → Executor db codec → ℕ → Book → Session D → Outcome D
  write_index false on row b s = (s, none)
  write_index true on row b s = on.execute (insert_index row b) (on.execute (delete_index row) s).0

  -- `return err` behind the loop: the loop's error, or the index's.
  abbrev pub or_earlier : Option StoreError → Outcome D → Outcome D
  or_earlier index_error (s, some e) = (s, some e)
  or_earlier index_error (s, none) = (s, index_error)

  abbrev pub behind_row : Bool → Executor db codec → Book → Session D → Option ℕ → Outcome D
  behind_row index on b s none = (s, some no_row)
  behind_row index on b s (some row) =
      let indexed = write_index index on row b s in
      or_earlier indexed.1 (write_book_files on b b.files indexed.0)

  abbrev pub encoded_book : Bool → Executor db codec → Book → Session D → Option Bytes → Outcome D
  encoded_book index on b s none = (s, some not_encoded)
  encoded_book index on b s (some bytes) = on.execute (upsert_book b bytes) s >> λ s'.
      behind_row index on b s' (on.row_id b.provider_id b.external_id s')

  -- upsertExec
  unfoldable pub upsert_exec : Bool → Executor db codec → Book → Session D → Outcome D
  unfolding write_book_files
  upsert_exec index on b s = encoded_book index on b s (codec.marshal_files b.files)

  -- Upsert
  unfoldable pub upsert : Book → Session D → Outcome D
  unfolding upsert_exec
  upsert b s = upsert_exec true (in_connection db codec) b s

  -- The loop of UpsertBatch
  unfoldable pub write_books : List Book → Session D → Outcome D
  unfolding upsert_exec
  write_books [] s = (s, none)
  write_books (b ∷ bs) s = upsert_exec false (in_tx db codec) b s >> write_books bs

  -- UpsertBatch
  unfoldable pub upsert_batch : List Book → Session D → Outcome D
  unfolding in_transaction write_books
  upsert_batch books s = in_transaction db codec (write_books books) s

  abbrev pub encoded_locator : Locator → Option Bytes → Session D → Outcome D
  encoded_locator l none s = (s, some not_encoded)
  encoded_locator l (some bytes) s =
      execute_alone db codec (create_and_upsert_locator l.provider_id l.external_id l.file_id bytes)
        s

  -- PutLocator
  unfoldable pub put_locator : Locator → Session D → Outcome D
  unfolding execute_alone
  put_locator l s = encoded_locator l (codec.marshal_locator l) s

  abbrev pub put_if : Option Locator → Session D → Outcome D
  put_if none s = (s, none)
  put_if (some l) s = put_locator l s

  -- ImportRecord
  unfoldable pub import_record : Book → Option Locator → Session D → Outcome D
  unfolding upsert put_locator
  import_record b l s = upsert b s >> put_if l

  -- RebuildFTS
  unfoldable pub rebuild_fts : Session D → Outcome D
  unfolding execute_alone
  rebuild_fts s = execute_alone db codec rebuild_index s

  abbrev pub counted_book :
      Outcome D
      → ℕ
      → (ℕ → Session D → Session D × ℕ × Option StoreError)
      → Session D × ℕ × Option StoreError
  counted_book (s, some e) count rest = (s, count, some e)
  counted_book (s, none) count rest = rest (count + 1) s

  abbrev pub ingested_book :
      Option Book
      → ℕ
      → Session D
      → (ℕ → Session D → Session D × ℕ × Option StoreError)
      → Session D × ℕ × Option StoreError
  ingested_book none count s rest = (s, count, some not_decoded)
  ingested_book (some b) count s rest =
      if is_blank_book b then rest count s else counted_book (upsert b s) count rest

  -- IngestJSONL over the scanner's lines
  unfoldable pub ingest_jsonl :
      (Bytes → Option Book)
      → (Bool → Option StoreError)
      → ℕ
      → List Bytes
      → ℕ
      → Session D
      → Session D × ℕ × Option StoreError
  unfolding upsert
  ingest_jsonl decode scan_error limit [] count s = (s, count, scan_error false)
  ingest_jsonl decode scan_error limit (l ∷ ls) count s =
      if limit_reached limit count
      then (s, count, scan_error true)
      else ingested_book (decode l) count s (ingest_jsonl decode scan_error limit ls)
