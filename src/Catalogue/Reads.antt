-- ===== src/Catalogue/Reads.antt =====
-- internal/catalog/store.go and locator.go: what is read. The queries and encoding/json are an interface.
use atlas_bridge.Base.{
  ℕ, zero, suc, ◌*◌, ◌==◌, Bool, true, false, List, [], ◌∷◌, Option, none, some, if◌then◌else◌,
  length, Result, err, ok, ◌>>=◌,
}
use atlas_bridge.Base.Text.{Bytes, ◌=ᵇ◌, trim_space}
use atlas_bridge.Base.Decimal.{ℤ, pos, negsuc}
use atlas_bridge.Model.{Book, BookFile}
use atlas_bridge.Catalogue.{Locator, StoreError, not_executed, not_decoded}
use atlas_bridge.Catalogue.Terms.{match_of}

-- The rows of a query; a row is none where Scan fails, and `ended` is false if rows.Err gives an error.
pub record Rows (A : Type 0) : Type 0 where
  pub rows : List (Option A)
  pub ended : Bool

-- What QueryRow and Scan give.
pub data OneRow (A : Type 0) : Type 0 where
  no_rows : OneRow A
  row_error : OneRow A
  one_row : A → OneRow A

-- A row of books; its `files` are those of files_json, which is text.
pub record BookRow : Type 0 where
  pub book : Book
  pub files_json : Bytes

-- A row of file_records, with NULL as none.
pub record StoredFile : Type 0 where
  pub file_id : Bytes
  pub format : Bytes
  pub size : Option ℤ
  pub md5 : Option Bytes
  pub aacid : Option Bytes

pub record Queries : Type 0 where
  -- the expression, the format or none, the limit and the offset; none if the query fails
  pub matching : Bytes → Option Bytes → ℕ → ℤ → Option (Rows BookRow)
  pub book : Bytes → Bytes → OneRow BookRow
  pub files : Bytes → Bytes → Option (Rows StoredFile)
  pub locator : Bytes → Bytes → Bytes → OneRow Bytes
  pub unmarshal_files : Bytes → Option (List BookFile)
  pub unmarshal_locator : Bytes → Option Locator

-- sql.NullString's String
abbrev pub null_string : Option Bytes → Bytes
null_string none = []
null_string (some s) = s

abbrev pub file_of : StoredFile → BookFile
file_of f = record {
  file_id = f.file_id;
  format = f.format;
  size = f.size;
  url = [];
  md5 = null_string f.md5;
  aacid = null_string f.aacid;
}

abbrev pub onto_files :
    BookFile → Result StoreError (List BookFile) → Result StoreError (List BookFile)
onto_files f (err e) = err e
onto_files f (ok fs) = ok (f ∷ fs)

abbrev pub scan_files : Bool → List (Option StoredFile) → Result StoreError (List BookFile)
scan_files true [] = ok []
scan_files false [] = err not_executed
scan_files ended (none ∷ rows) = err not_decoded
scan_files ended (some f ∷ rows) = onto_files (file_of f) (scan_files ended rows)

abbrev pub scanned_files : Option (Rows StoredFile) → Result StoreError (List BookFile)
scanned_files none = err not_executed
scanned_files (some r) = scan_files r.ended r.rows

-- `if len(merged) > 0 { b.Files = merged }`
abbrev pub merged_files : Book → List BookFile → Book
merged_files b [] = b
merged_files b (f ∷ fs) = record b { files = f ∷ fs }

abbrev pub decoded_files : Option (List BookFile) → Result StoreError (List BookFile)
decoded_files none = err not_decoded
decoded_files (some fs) = ok fs

-- (page - 1) * pageSize
abbrev pub offset_of : ℕ → ℕ → ℤ
offset_of zero zero = pos 0
offset_of zero (suc size) = negsuc size
offset_of (suc page) size = pos (page * size)

abbrev pub wanted : Bytes → Option Bytes
wanted format = if format =ᵇ [] then none else some format

module _ (q : Queries) where
  -- fileRecords
  unfoldable pub file_records : Bytes → Bytes → Result StoreError (List BookFile)
  file_records provider external = scanned_files (q.files provider external)

  -- The book of a row: its files are those of files_json, unless there are file records.
  unfoldable pub book_of : BookRow → Result StoreError Book
  unfolding file_records
  book_of r = decoded_files (q.unmarshal_files r.files_json) >>= λ files.
      file_records r.book.provider_id r.book.external_id >>= λ merged.
      ok (merged_files (record r.book { files = files }) merged)

  abbrev pub onto_books : Book → Result StoreError (List Book) → Result StoreError (List Book)
  onto_books b (err e) = err e
  onto_books b (ok bs) = ok (b ∷ bs)

  -- The loop of Search over the rows
  unfoldable pub scan_books : Bool → List (Option BookRow) → Result StoreError (List Book)
  unfolding book_of
  scan_books true [] = ok []
  scan_books false [] = err not_executed
  scan_books ended (none ∷ rows) = err not_decoded
  scan_books ended (some r ∷ rows) = book_of r >>= λ b. onto_books b (scan_books ended rows)

  abbrev pub found_books : Option (Rows BookRow) → Result StoreError (List Book)
  found_books none = err not_executed
  found_books (some r) = scan_books r.ended r.rows

  -- Search
  unfoldable pub search : Bytes → ℕ → ℕ → Bytes → Result StoreError (List Book × Bool)
  unfolding scan_books trim_space match_of
  search query page page_size format =
      if trim_space query =ᵇ []
      then ok ([], false)
      else (found_books
            (q.matching (match_of query) (wanted format) page_size (offset_of page page_size))
          >>= λ out. ok (out, length out == page_size))

  abbrev pub got_book : Bytes → Bytes → OneRow BookRow → Result StoreError (Option Book)
  got_book provider external no_rows = ok none
  got_book provider external row_error = err not_executed
  got_book provider external (one_row r) =
      decoded_files (q.unmarshal_files r.files_json) >>= λ files.
      file_records provider external >>= λ merged.
      ok (some (merged_files (record r.book { files = files }) merged))

  -- GetBook
  unfoldable pub get_book : Bytes → Bytes → Result StoreError (Option Book)
  unfolding file_records
  get_book provider external = got_book provider external (q.book provider external)

  abbrev pub decoded_locator : Option Locator → Result StoreError (Option Locator)
  decoded_locator none = err not_decoded
  decoded_locator (some l) = ok (some l)

  abbrev pub got_locator : OneRow Bytes → Result StoreError (Option Locator)
  got_locator no_rows = ok none
  got_locator row_error = err not_executed
  got_locator (one_row raw) = decoded_locator (q.unmarshal_locator raw)

  -- GetLocator
  unfoldable pub get_locator : Bytes → Bytes → Bytes → Result StoreError (Option Locator)
  get_locator provider external file_id = got_locator (q.locator provider external file_id)
