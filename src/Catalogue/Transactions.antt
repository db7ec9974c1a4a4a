-- ===== src/Catalogue/Transactions.antt =====
-- internal/catalog/store.go: a batch is written whole or not at all.
use atlas_bridge.Base.{
  ◌≡◌, refl, List, [], ◌∷◌, ◌++◌, Option, none, some, Bool-cases, Option-cases, inl, inr, ◌∙◌,
}
use atlas_bridge.Base.Text.{Bytes}
use mathlib.Core.Option
use atlas_bridge.Catalogue.{
  Locator, FileRecord, Statement, upsert_file, upsert_locator, StoreError, Database, Codec, Session,
}
use atlas_bridge.Catalogue.Writes.{
  Outcome, ◌>>◌, begin_tx, rollback, commit, commit_of, committed_or_back, in_transaction,
  execute_tx, execute_on, changed_tx, write_locator, locator_written, row_of, write_files,
  upsert_files_batch,
}

module _ {D : Type 0} (db : Database D) (codec : Codec) where
  -- The statements one after the other, if each succeeds.
  abbrev pub run_all : List Statement → D → Option D
  run_all [] d = some d
  run_all (st ∷ rest) d = elim (db.execute st d) [ none ↦ none | some d' ↦ run_all rest d' ]

  abbrev pub locator_statements : Option Locator → Option (List Statement)
  locator_statements none = some []
  locator_statements (some l) =
      Option.map (λ bytes. upsert_locator l.provider_id l.external_id l.file_id bytes ∷ [])
        (codec.marshal_locator l)

  abbrev pub both : Option (List Statement) → Option (List Statement) → Option (List Statement)
  both none o = none
  both (some a) none = none
  both (some a) (some b) = some (a ++ b)

  -- The statements that write the file records: each record, and its locator if it has one.
  abbrev pub file_statements : List FileRecord → Option (List Statement)
  file_statements [] = some []
  file_statements (f ∷ fs) =
      both (both (some (upsert_file (row_of f) ∷ [])) (locator_statements f.locator))
        (file_statements fs)

  -- The batch is written, and the transaction is over; or the store is as it was before.
  pub record IsAtomic (Run : D → D → Type 0) (s : Session D) (o : Outcome D) : Type 0 where
    pub success :
        o.1 ≡ none → (d : D) × Run s.committed d × (o.0 ≡ record { committed = d; open_tx = none })
    pub failure : (e : StoreError) → o.1 ≡ some e → o.0 ≡ s

  commit_of-IsAtomic :
      (Run : D → D → Type 0) (s s' : Session D) (d : D)
      → s.open_tx ≡ none
      → s'.committed ≡ s.committed
      → Run s.committed d
      → IsAtomic Run s (commit_of db codec s' (some d))
  commit_of-IsAtomic Run s s' d shut same ran = elim (Bool-cases (db.commits s'.committed d)) [
    | inl y ↦ record { success = λ h. (d, ran, rw y refl); failure = λ e h. cc (h, y) }
    | inr n ↦ record { success = λ h. cc (h, n); failure = λ e h. cc (n, shut, same) }
  ]

  pub in_transaction-IsAtomic :
      (Run : D → D → Type 0) (body : Session D → Outcome D) (s : Session D)
      → s.open_tx ≡ none
      → ((s' : Session D) → (body s').0.committed ≡ s'.committed)
      → ((s' : Session D) (d : D)
          → s'.open_tx ≡ some d
          → (body s').1 ≡ none
          → (d' : D) × Run d d' × ((body s').0.open_tx ≡ some d'))
      → IsAtomic Run s (in_transaction db codec body s)
  unfolding in_transaction begin_tx commit rollback
  in_transaction-IsAtomic Run body s shut keeps runs = elim (Bool-cases (db.begins s.committed)) [
    | inr n ↦ rw n (record { success = λ h. cc h; failure = λ e h. refl })
    | inl y ↦ rw y (
        by_body (body (record s { open_tx = some s.committed }))
          (keeps (record s { open_tx = some s.committed }))
          (runs (record s { open_tx = some s.committed }) s.committed refl))
  ]
    where
      by_body :
          (o : Outcome D)
          → o.0.committed ≡ s.committed
          → (o.1 ≡ none → (d' : D) × Run s.committed d' × (o.0.open_tx ≡ some d'))
          → IsAtomic Run s (committed_or_back db codec o)
      by_body (s', some e) same ran = record {
        success = λ h. cc h;
        failure = λ e' h. cc (same, shut);
      }
      by_body (s', none) same ran =
          let (d, r, opened) = ran refl in rw opened (commit_of-IsAtomic Run s s' d shut same r)

  pub run_all-append :
      (a b : List Statement) (d d' d'' : D)
      → run_all a d ≡ some d'
      → run_all b d' ≡ some d''
      → run_all (a ++ b) d ≡ some d''
  run_all-append [] b d d' d'' h h' = cc (h, h')
  run_all-append (st ∷ a) b d d' d'' h h' = elim (Option-cases (db.execute st d)) [
    | inl e ↦ cc (h, e)
    | inr (d1, e) ↦ rw e (run_all-append a b d1 d' d'' (cc (h, e)) h')
  ]

  -- The statements that `o` gives, if it gives some, lead from `d` to `d'`.
  abbrev pub Runs : Option (List Statement) → D → D → Type 0
  Runs o d d' = (sts : List Statement) × (o ≡ some sts) × (run_all sts d ≡ some d')

  Runs-both :
      (o o' : Option (List Statement)) (d d' d'' : D)
      → Runs o d d'
      → Runs o' d' d''
      → Runs (both o o') d d''
  Runs-both o o' d d' d'' (a, e, r) (b, e', r') =
      (a ++ b, rw (e, e') refl, run_all-append a b d d' d'' r r')

  pub execute_tx-Runs :
      (st : Statement) (s : Session D) (d : D)
      → s.open_tx ≡ some d
      → (execute_tx db codec st s).1 ≡ none
      → (d' : D) × Runs (some (st ∷ [])) d d' × ((execute_tx db codec st s).0.open_tx ≡ some d')
  unfolding execute_tx
  execute_tx-Runs st s d opened h = elim (Option-cases (db.execute st d)) [
    | inl e ↦ cc (h, opened, e)
    | inr (d', e) ↦ (d', (st ∷ [], refl, rw (run_all, e) refl), rw (opened, e) refl)
  ]

  -- A step on the transaction that, where it succeeds, runs the statements that `o` gives.
  abbrev pub Simulates : (Session D → Outcome D) → Option (List Statement) → Type 0
  Simulates body o =
      (s : Session D) (d : D)
      → s.open_tx ≡ some d
      → (body s).1 ≡ none
      → (d' : D) × Runs o d d' × ((body s).0.open_tx ≡ some d')

  pub then-Simulates :
      (a b : Session D → Outcome D) (o o' : Option (List Statement))
      → Simulates a o
      → Simulates b o'
      → Simulates (λ s. a s >> b) (both o o')
  then-Simulates a b o o' f g s d opened h = by_outcome (a s) (f s d opened) h
    where
      by_outcome :
          (r : Outcome D)
          → (r.1 ≡ none → (d' : D) × Runs o d d' × (r.0.open_tx ≡ some d'))
          → (r >> b).1 ≡ none
          → (d' : D) × Runs (both o o') d d' × ((r >> b).0.open_tx ≡ some d')
      by_outcome (s', some e) k h' = cc h'
      by_outcome (s', none) k h' =
          let (d1, ran, opened1) = k refl in
          let (d2, ran', opened2) = g s' d1 opened1 h' in
          (d2, Runs-both o o' d d1 d2 ran ran', opened2)

  pub execute_tx-committed :
      (st : Statement) (s : Session D) → (execute_tx db codec st s).0.committed ≡ s.committed
  unfolding execute_tx
  execute_tx-committed st s = by_tx s.open_tx
    where
      by_result : (o : Option D) → (changed_tx db codec s o).0.committed ≡ s.committed
      by_result none = refl
      by_result (some d) = refl

      by_tx : (o : Option D) → (execute_on db codec st s o).0.committed ≡ s.committed
      by_tx none = refl
      by_tx (some d) = by_result (db.execute st d)

  pub then-committed :
      (o : Outcome D) (next : Session D → Outcome D) (d : D)
      → o.0.committed ≡ d
      → ((s : Session D) → (next s).0.committed ≡ s.committed)
      → (o >> next).0.committed ≡ d
  then-committed (s, some e) next d h keeps = h
  then-committed (s, none) next d h keeps = keeps s ∙ h

  write_locator-committed :
      (o : Option Locator) (s : Session D) → (write_locator db codec o s).0.committed ≡ s.committed
  write_locator-committed none s = refl
  write_locator-committed (some l) s = by_bytes (codec.marshal_locator l)
    where
      by_bytes : (b : Option Bytes) → (locator_written db codec l b s).0.committed ≡ s.committed
      by_bytes none = refl
      by_bytes (some b) = execute_tx-committed _ s

  write_files-committed :
      (fs : List FileRecord) (s : Session D) → (write_files db codec fs s).0.committed ≡ s.committed
  unfolding write_files
  write_files-committed [] s = refl
  write_files-committed (f ∷ fs) s =
      then-committed _ (write_files db codec fs) s.committed
        (then-committed (execute_tx db codec (upsert_file (row_of f)) s)
          (write_locator db codec f.locator) s.committed
          (execute_tx-committed (upsert_file (row_of f)) s) (write_locator-committed f.locator))
        (write_files-committed fs)

  write_locator-Simulates :
      (o : Option Locator) → Simulates (write_locator db codec o) (locator_statements o)
  write_locator-Simulates none s d opened h = (d, ([], refl, refl), opened)
  write_locator-Simulates (some l) s d opened h = by_bytes (codec.marshal_locator l) h
    where
      by_bytes :
          (b : Option Bytes)
          → (locator_written db codec l b s).1 ≡ none
          → (d' : D) × Runs
              (Option.map
                (λ bytes. upsert_locator l.provider_id l.external_id l.file_id bytes ∷ [])
                b)
              d
              d'
            × ((locator_written db codec l b s).0.open_tx ≡ some d')
      by_bytes none h' = cc h'
      by_bytes (some b) h' = execute_tx-Runs _ s d opened h'

  write_files-Simulates :
      (fs : List FileRecord) → Simulates (write_files db codec fs) (file_statements fs)
  unfolding write_files
  write_files-Simulates [] s d opened h = (d, ([], refl, refl), opened)
  write_files-Simulates (f ∷ fs) s d opened h =
      then-Simulates
        (λ s'. execute_tx db codec (upsert_file (row_of f)) s' >> write_locator db codec f.locator)
        (write_files db codec fs) _ (file_statements fs)
        (then-Simulates (execute_tx db codec (upsert_file (row_of f)))
          (write_locator db codec f.locator) (some (upsert_file (row_of f) ∷ []))
          (locator_statements f.locator) (execute_tx-Runs (upsert_file (row_of f)))
          (write_locator-Simulates f.locator))
        (write_files-Simulates fs) s d opened h

-- A batch of file records is written whole or not at all: if it succeeds, the committed content is what
-- its statements lead to, each record's and its locator's, in order; if any statement, encoding, the
-- begin or the commit fails, the content is as it was. In both cases no transaction stays open.
pub upsert_files_batch-IsAtomic :
    {D : Type 0} (db : Database D) (codec : Codec) (files : List FileRecord) (s : Session D)
    → s.open_tx ≡ none
    → IsAtomic db codec
        (λ d d'.
          (sts : List Statement) × (file_statements db codec files ≡ some sts)
          × (run_all db codec sts d ≡ some d'))
        s
        (upsert_files_batch db codec files s)
unfolding upsert_files_batch
upsert_files_batch-IsAtomic db codec files s shut =
    in_transaction-IsAtomic db codec _ (write_files db codec files) s shut
      (write_files-committed db codec files) (write_files-Simulates db codec files)
