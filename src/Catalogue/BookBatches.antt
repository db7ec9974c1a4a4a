-- ===== src/Catalogue/BookBatches.antt =====
-- internal/catalog/store.go: UpsertBatch writes a batch of books whole or not at all.
use atlas_bridge.Base.{ℕ, ◌≡◌, refl, false, List, [], ◌∷◌, Option, none, some}
use atlas_bridge.Base.Text.{Bytes}
use atlas_bridge.Model.{Book, BookFile}
use atlas_bridge.Catalogue.{Statement, upsert_book, upsert_file, Database, Codec, Session}
use atlas_bridge.Catalogue.Writes.{Outcome, execute_tx, in_tx}
use atlas_bridge.Catalogue.Books.{
  book_row, write_book_files, upsert_exec, encoded_book, behind_row, or_earlier, write_books,
  upsert_batch,
}
use atlas_bridge.Catalogue.Transactions.{
  run_all, both, IsAtomic, in_transaction-IsAtomic, Runs, Simulates, execute_tx-Runs,
  then-Simulates, execute_tx-committed, then-committed,
}

module _ {D : Type 0} (db : Database D) (codec : Codec) where
  abbrev pub book_file_statements : Book → List BookFile → Option (List Statement)
  book_file_statements b [] = some []
  book_file_statements b (f ∷ fs) =
      both db codec (some (upsert_file (book_row b f) ∷ [])) (book_file_statements b fs)

  abbrev pub encoded_statement : Book → Option Bytes → Option (List Statement)
  encoded_statement b none = none
  encoded_statement b (some bytes) = some (upsert_book b bytes ∷ [])

  -- The statements that write books: each book's row, and its files.
  abbrev pub book_statements : List Book → Option (List Statement)
  book_statements [] = some []
  book_statements (b ∷ bs) =
      both db codec
        (both db codec (encoded_statement b (codec.marshal_files b.files))
          (book_file_statements b b.files))
        (book_statements bs)

  write_book_files-Simulates :
      (b : Book) (fs : List BookFile)
      → Simulates db codec
          (write_book_files db codec (in_tx db codec) b fs)
          (book_file_statements b fs)
  unfolding write_book_files
  write_book_files-Simulates b [] s d opened h = (d, ([], refl, refl), opened)
  write_book_files-Simulates b (f ∷ fs) s d opened h =
      then-Simulates db codec (execute_tx db codec (upsert_file (book_row b f)))
        (write_book_files db codec (in_tx db codec) b fs) (some (upsert_file (book_row b f) ∷ []))
        (book_file_statements b fs) (execute_tx-Runs db codec (upsert_file (book_row b f)))
        (write_book_files-Simulates b fs) s d opened h

  write_book_files-committed :
      (b : Book) (fs : List BookFile) (s : Session D)
      → (write_book_files db codec (in_tx db codec) b fs s).0.committed ≡ s.committed
  unfolding write_book_files
  write_book_files-committed b [] s = refl
  write_book_files-committed b (f ∷ fs) s =
      then-committed db codec (execute_tx db codec (upsert_file (book_row b f)) s)
        (write_book_files db codec (in_tx db codec) b fs) s.committed
        (execute_tx-committed db codec (upsert_file (book_row b f)) s)
        (write_book_files-committed b fs)

  or_earlier-none : (o : Outcome D) → or_earlier db codec none o ≡ o
  or_earlier-none (s, some e) = refl
  or_earlier-none (s, none) = refl

  -- The row's number only decides whether the files are written.
  behind_row-Simulates :
      (b : Book) (row : Session D → Option ℕ)
      → Simulates db codec
          (λ s. behind_row db codec false (in_tx db codec) b s (row s))
          (book_file_statements b b.files)
  behind_row-Simulates b row s d opened h = by_row (row s) h
    where
      by_row :
          (o : Option ℕ)
          → (behind_row db codec false (in_tx db codec) b s o).1 ≡ none
          → (d' : D) × Runs db codec (book_file_statements b b.files) d d'
            × ((behind_row db codec false (in_tx db codec) b s o).0.open_tx ≡ some d')
      by_row none h' = cc h'
      by_row (some n) h' =
          let same_end = or_earlier-none (write_book_files db codec (in_tx db codec) b b.files s) in
          rw same_end (write_book_files-Simulates b b.files s d opened (rw same_end at h'))

  behind_row-committed :
      (b : Book) (row : Option ℕ) (s : Session D)
      → (behind_row db codec false (in_tx db codec) b s row).0.committed ≡ s.committed
  behind_row-committed b none s = refl
  behind_row-committed b (some n) s =
      rw (or_earlier-none (write_book_files db codec (in_tx db codec) b b.files s))
        (write_book_files-committed b b.files s)

  upsert_exec-Simulates :
      (b : Book)
      → Simulates db codec (upsert_exec db codec false (in_tx db codec) b) (
          both db codec
            (encoded_statement b (codec.marshal_files b.files))
            (book_file_statements b b.files))
  unfolding upsert_exec
  upsert_exec-Simulates b s d opened h = by_bytes (codec.marshal_files b.files) h
    where
      by_bytes :
          (o : Option Bytes)
          → (encoded_book db codec false (in_tx db codec) b s o).1 ≡ none
          → (d' : D) × Runs db codec
              (both db codec (encoded_statement b o) (book_file_statements b b.files))
              d
              d'
            × ((encoded_book db codec false (in_tx db codec) b s o).0.open_tx ≡ some d')
      by_bytes none h' = cc h'
      by_bytes (some bytes) h' =
          then-Simulates db codec (execute_tx db codec (upsert_book b bytes)) _
            (some (upsert_book b bytes ∷ [])) (book_file_statements b b.files)
            (execute_tx-Runs db codec (upsert_book b bytes))
            (behind_row-Simulates b (λ s'. (in_tx db codec).row_id b.provider_id b.external_id s'))
            s d opened h'

  upsert_exec-committed :
      (b : Book) (s : Session D)
      → (upsert_exec db codec false (in_tx db codec) b s).0.committed ≡ s.committed
  unfolding upsert_exec
  upsert_exec-committed b s = by_bytes (codec.marshal_files b.files)
    where
      by_bytes :
          (o : Option Bytes)
          → (encoded_book db codec false (in_tx db codec) b s o).0.committed ≡ s.committed
      by_bytes none = refl
      by_bytes (some bytes) =
          then-committed db codec (execute_tx db codec (upsert_book b bytes) s) _ s.committed
            (execute_tx-committed db codec (upsert_book b bytes) s)
            (λ s'. behind_row-committed b _ s')

  write_books-Simulates :
      (bs : List Book) → Simulates db codec (write_books db codec bs) (book_statements bs)
  unfolding write_books
  write_books-Simulates [] s d opened h = (d, ([], refl, refl), opened)
  write_books-Simulates (b ∷ bs) s d opened h =
      then-Simulates db codec (upsert_exec db codec false (in_tx db codec) b)
        (write_books db codec bs) _ (book_statements bs) (upsert_exec-Simulates b)
        (write_books-Simulates bs) s d opened h

  write_books-committed :
      (bs : List Book) (s : Session D) → (write_books db codec bs s).0.committed ≡ s.committed
  unfolding write_books
  write_books-committed [] s = refl
  write_books-committed (b ∷ bs) s =
      then-committed db codec (upsert_exec db codec false (in_tx db codec) b s)
        (write_books db codec bs) s.committed (upsert_exec-committed b s) (write_books-committed bs)

  -- A batch of books is written whole or not at all: if it succeeds, the committed content is what its
  -- statements lead to, each book's and its files', in order; if anything fails, the content is as it
  -- was. In both cases no transaction stays open.
  pub upsert_batch-IsAtomic :
      (books : List Book) (s : Session D)
      → s.open_tx ≡ none
      → IsAtomic db codec
          (λ d d'.
            (sts : List Statement) × (book_statements books ≡ some sts)
            × (run_all db codec sts d ≡ some d'))
          s
          (upsert_batch db codec books s)
  unfolding upsert_batch
  upsert_batch-IsAtomic books s shut =
      in_transaction-IsAtomic db codec _ (write_books db codec books) s shut
        (write_books-committed books) (write_books-Simulates books)
