-- ===== src/Catalogue/Stored.antt =====
-- internal/catalog/sync.go: what SyncAnnaFilesJSONL has written, however its batches fall.
use atlas_bridge.Base.{
  Bool, ℕ, ◌≡◌, refl, List, [], ◌∷◌, ◌++◌, Option, none, some, arith, sym, ◌∙◌, ap, append_assoc,
}
use atlas_bridge.Base.Text.{Bytes}
use atlas_bridge.Catalogue.{
  FileRecord, Statement, upsert_file, StoreError, Session, Database, Codec,
}
use atlas_bridge.Catalogue.Writes.{row_of, upsert_files_batch}
use atlas_bridge.Catalogue.Transactions.{
  run_all, run_all-append, both, locator_statements, file_statements, upsert_files_batch-IsAtomic,
}
use atlas_bridge.Catalogue.Records.{AnnaFileRecord}
use atlas_bridge.Catalogue.Import.{decoded_as, to_file_record, sync_files}
use atlas_bridge.Catalogue.Batches.{survey, IsImported, StepsKeep}
use atlas_bridge.Catalogue.Looped.{import_loop-IsImported}

module _ {D : Type 0} (db : Database D) (codec : Codec) where
  -- The records' statements, one after the other, lead from `d` to `d'`.
  abbrev pub Writes : List FileRecord → D → D → Type 0
  Writes files d d' =
      (sts : List Statement) × (file_statements db codec files ≡ some sts)
      × (run_all db codec sts d ≡ some d')

  both-eq-some :
      (o o' : Option (List Statement)) {l : List Statement}
      → both db codec o o' ≡ some l
      → (a : List Statement) × (b : List Statement) × (o ≡ some a) × (o' ≡ some b) × (a ++ b ≡ l)
  both-eq-some none o' h = cc h
  both-eq-some (some a) none h = cc h
  both-eq-some (some a) (some b) h = (a, b, refl, refl, cc h)

  file_statements-append :
      (xs ys : List FileRecord) (a b : List Statement)
      → file_statements db codec xs ≡ some a
      → file_statements db codec ys ≡ some b
      → file_statements db codec (xs ++ ys) ≡ some (a ++ b)
  file_statements-append [] ys a b h h' = cc (h, h')
  file_statements-append (x ∷ xs) ys a b h h' =
      let (p, q, hp, hq, e) =
        both-eq-some
          (both db codec (some (upsert_file (row_of x) ∷ []))
            (locator_statements db codec x.locator))
          (file_statements db codec xs) h in
      let rest = file_statements-append xs ys q b hq h' in
      rw (hp, rest) (ap some (sym (append_assoc p q b) ∙ ap (λ l. l ++ b) e))

  Writes-append :
      (xs ys : List FileRecord) (d d' d'' : D)
      → Writes xs d d'
      → Writes ys d' d''
      → Writes (xs ++ ys) d d''
  Writes-append xs ys d d' d'' (a, e, r) (b, e', r') =
      (a ++ b, file_statements-append xs ys a b e e', run_all-append db codec a b d d' d'' r r')

  -- The records are written, in front of what was there, and no transaction is open.
  abbrev pub HasWritten : D → List FileRecord → Session D → Type 0
  HasWritten d files s = Writes files d s.committed × (s.open_tx ≡ none)

  keeps :
      (d : D) (convert : Bytes → Option FileRecord) (limit : ℕ)
      (scan_error : Bool → Option StoreError)
      → StepsKeep
          (HasWritten d)
          convert
          (λ f s. (s, none))
          (upsert_files_batch db codec)
          (λ s. (s, none))
          1000
          limit
          scan_error
  keeps d convert limit scan_error = record {
    before_keeps = λ xs a s h. h;
    flush_stores = λ xs batch s h fine.
        let (d', ran, e) = (upsert_files_batch-IsAtomic db codec batch s h.1).success fine in
        rw e (Writes-append xs batch d s.committed d' h.0 ran, refl);
    flush_fails = λ xs batch s h bad.
        let e = (upsert_files_batch-IsAtomic db codec batch s h.1).failure _ bad in rw e h;
    finish_keeps = λ xs s h. h;
  }

-- Whatever statements, begins and commits fail: behind SyncAnnaFilesJSONL the content is what the
-- statements of a prefix of the records lead to, one record after the other, as if there were no batches;
-- the records are those of the lines that can be used, up to the limit, and the prefix lacks at most
-- the 1000 last counted ones. If there is no error, all of them are written, and the two counts that are
-- returned are the number of records and of lines that were skipped.
pub sync_files-IsImported :
    {D : Type 0} (db : Database D) (codec : Codec) (limit : ℕ)
    (scan_error : Bool → Option StoreError) (decode : Bytes → Option AnnaFileRecord)
    (lines : List Bytes) (s : Session D)
    → s.open_tx ≡ none
    → IsImported
        (HasWritten db codec s.committed)
        1000
        (survey (λ l. decoded_as to_file_record (decode l)) limit lines 0).0
        (survey (λ l. decoded_as to_file_record (decode l)) limit lines 0).1
        (sync_files db codec limit scan_error decode lines s)
unfolding sync_files
sync_files-IsImported db codec limit scan_error decode lines s shut =
    import_loop-IsImported (HasWritten db codec s.committed) _ _ _ _ 1000 limit scan_error
      (keeps db codec s.committed (λ l. decoded_as to_file_record (decode l)) limit scan_error)
      (omega arith) lines s (([], refl, refl), shut)
