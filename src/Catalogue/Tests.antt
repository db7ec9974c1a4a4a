-- ===== src/Catalogue/Tests.antt =====
-- internal/catalog: runs at concrete inputs.
use atlas_bridge.Base.{
  ℕ, ◌≡◌, ◌≢◌, ◌≤◌, refl, true, false, List, [], ◌∷◌, ◌++◌, Option, none, some, if◌then◌else◌, ltb,
  length, All, arith,
}
use atlas_bridge.Base.Text.{
  Bytes, codes, ◌=ᵇ◌, trim_space, trim_left, trim_right, to_lower, trim_prefix, has_prefix,
  fields_from,
}
use atlas_bridge.Base.Decimal.{pos}
use atlas_bridge.Catalogue.{
  upsert_book, FileRecord, Statement, Database, Codec, Session, Locator, torrent_file, not_executed,
  nullable,
}
use atlas_bridge.Catalogue.Writes.{
  upsert_files_batch, in_transaction, write_files, begin_tx, commit, rollback, execute_tx,
}
use atlas_bridge.Catalogue.Transactions.{
  IsAtomic, run_all, file_statements, upsert_files_batch-IsAtomic,
}
use atlas_bridge.Catalogue.Books.{upsert_batch, write_books, upsert_exec, write_book_files}
use atlas_bridge.Catalogue.BookBatches.{book_statements, upsert_batch-IsAtomic}
use atlas_bridge.Model.{Book}
use atlas_bridge.Catalogue.Records.{AnnaFileRecord}
use atlas_bridge.Catalogue.Import.{decoded_as, to_file_record, sync_files, import_loop}
use atlas_bridge.Catalogue.Batches.{survey, IsImported}
use atlas_bridge.Catalogue.Stored.{HasWritten, sync_files-IsImported}
use atlas_bridge.Catalogue.Readers.{
  Source, eof, exceeded, Line, read_sizes, read_counted, limited, deliver, read_checkpoint, fill,
  resumed,
}
use atlas_bridge.Catalogue.Counting.{content, read_sizes-limit}
use atlas_bridge.Catalogue.Checkpoints.{IsAt, deliver-resumed}
use atlas_bridge.Catalogue.Terms.{
  match_of, terms_of, without_quotes, join_and, read_match, IsTerm, match_of-reads,
}

-- A database that keeps its statements, up to three of them.
abbrev db : Database (List Statement)
db = record {
  execute = λ st d. if ltb (length d) 3 then some (st ∷ d) else none;
  row_id = λ provider external d. none;
  begins = λ d. true;
  commits = λ old d. true;
}

abbrev codec : Codec
codec = record { marshal_files = λ files. some []; marshal_locator = λ l. some l.metainfo }

abbrev empty : Session (List Statement)
empty = record { committed = []; open_tx = none }

abbrev torrent : Locator
torrent = record {
  provider_id = codes "anna-local";
  external_id = codes "a";
  file_id = codes "pdf";
  kind = torrent_file;
  url = [];
  metainfo = codes "M";
  path = codes "p";
  offset = pos 0;
  size = pos 0;
}

abbrev file : Option Locator → FileRecord
file l = record {
  provider_id = codes "anna-local";
  external_id = codes "a";
  file_id = codes "pdf";
  md5 = codes "a";
  aacid = [];
  format = codes "pdf";
  size = none;
  locator = l;
}

-- The second locator's statement is one too many: nothing is left of the batch.
back_test :
    upsert_files_batch db codec (file (some torrent) ∷ file (some torrent) ∷ []) empty
    ≡ (empty, some not_executed)
unfolding upsert_files_batch in_transaction write_files begin_tx commit rollback execute_tx nullable
    trim_space trim_left trim_right
back_test = refl

upsert_files_batch-IsAtomic_example :
    IsAtomic db codec
      (λ d d'.
        (sts : List Statement) × (file_statements db codec (file (some torrent) ∷ file none ∷ [])
          ≡ some sts)
        × (run_all db codec sts d ≡ some d'))
      empty
      (upsert_files_batch db codec (file (some torrent) ∷ file none ∷ []) empty)
upsert_files_batch-IsAtomic_example =
    upsert_files_batch-IsAtomic db codec (file (some torrent) ∷ file none ∷ []) empty refl

abbrev tome : Book
tome = record {
  provider_id = codes "anna-local";
  external_id = codes "a";
  title = codes "T";
  author = [];
  description = [];
  isbn = [];
  cover_url = [];
  files = [];
}

-- Here every book has a row number; the two books are written.
upsert_batch-IsAtomic_example :
    IsAtomic
      (record db { row_id = λ provider external d. some 1 })
      codec
      (λ d d'.
        (sts : List Statement) × (book_statements
            (record db { row_id = λ provider external d. some 1 })
            codec
            (tome ∷ tome ∷ [])
          ≡ some sts)
        × (run_all (record db { row_id = λ provider external d. some 1 }) codec sts d ≡ some d'))
      empty
      (upsert_batch
        (record db { row_id = λ provider external d. some 1 })
        codec
        (tome ∷ tome ∷ [])
        empty)
upsert_batch-IsAtomic_example =
    upsert_batch-IsAtomic (record db { row_id = λ provider external d. some 1 }) codec
      (tome ∷ tome ∷ []) empty refl

books_test :
    (upsert_batch
      (record db { row_id = λ provider external d. some 1 })
      codec
      (tome ∷ tome ∷ [])
      empty).0.committed
    ≡ upsert_book tome [] ∷ upsert_book tome [] ∷ []
unfolding upsert_batch in_transaction begin_tx commit rollback write_books upsert_exec execute_tx
    write_book_files
books_test = refl

abbrev decode : Bytes → Option AnnaFileRecord
decode l =
    if l =ᵇ codes "?"
    then none
    else some (record {
      provider_id = [];
      external_id = l;
      md5 = [];
      aacid = [];
      format = codes ".PDF";
      size = none;
      torrent = codes "M";
      path = codes "p";
    })

sync_files-IsImported_example :
    IsImported
      (HasWritten db codec [])
      1000
      (survey (λ l. decoded_as to_file_record (decode l)) 0 (codes "a" ∷ codes "?" ∷ []) 0).0
      (survey (λ l. decoded_as to_file_record (decode l)) 0 (codes "a" ∷ codes "?" ∷ []) 0).1
      (sync_files db codec 0 (λ b. none) decode (codes "a" ∷ codes "?" ∷ []) empty)
sync_files-IsImported_example =
    sync_files-IsImported db codec 0 (λ b. none) decode (codes "a" ∷ codes "?" ∷ []) empty refl

-- One record and one skipped line.
counts_test :
    (sync_files db codec 0 (λ b. none) decode (codes "a" ∷ codes "?" ∷ []) empty).count ≡ 1
unfolding sync_files import_loop to_file_record trim_prefix has_prefix to_lower upsert_files_batch
    in_transaction write_files begin_tx commit execute_tx
counts_test = refl

abbrev dump : Source
dump =
    record { bytes = codes "abc"; error = none }
    ∷ record { bytes = codes "de"; error = some eof }
    ∷ []

-- A dump of exactly five bytes exceeds the limit of five bytes.
exact_test : (read_sizes (4 ∷ 4 ∷ 4 ∷ []) (limited 5 dump)).0.error ≡ some exceeded
unfolding read_sizes read_counted
exact_test = refl

read_sizes-limit_example :
    ((read_sizes (4 ∷ 4 ∷ 4 ∷ []) (limited 5 dump)).1
        ++ content (read_sizes (4 ∷ 4 ∷ 4 ∷ []) (limited 5 dump)).0.source
      ≡ content dump)
    × (length (read_sizes (4 ∷ 4 ∷ 4 ∷ []) (limited 5 dump)).1 ≤ 5)
    × ((read_sizes (4 ∷ 4 ∷ 4 ∷ []) (limited 5 dump)).0.error ≡ some exceeded
        → (length (read_sizes (4 ∷ 4 ∷ 4 ∷ []) (limited 5 dump)).1 ≡ 5)
          × (5 ≤ length (content dump)))
read_sizes-limit_example = read_sizes-limit (4 ∷ 4 ∷ 4 ∷ []) 5 dump

abbrev line : ℕ → Line
line n = record { first = n; rest = codes "\n" }

abbrev lines : List Line
lines = line 97 ∷ line 98 ∷ line 99 ∷ []

-- Behind one line: its two bytes, then one byte of the last line.
resumed_test : (deliver (9 ∷ 1 ∷ []) (resumed 1 lines)).1 ≡ codes "b\nc"
unfolding deliver read_checkpoint fill
resumed_test = refl

deliver-resumed_example :
    IsAt 1 lines
      (deliver (9 ∷ 1 ∷ []) (resumed 1 lines)).1
      (deliver (9 ∷ 1 ∷ []) (resumed 1 lines)).0
deliver-resumed_example = deliver-resumed (9 ∷ 1 ∷ []) 1 lines

match_test : match_of (codes " a\"b OR \"") ≡ codes "\"ab\"* AND \"OR\"*"
unfolding match_of terms_of without_quotes join_and fields_from trim_space trim_left trim_right
match_test = refl

abbrev quoted_query : Bytes
quoted_query = codes " a\"b OR \""

no_zero : All (λ c. c ≢ 0) (trim_space quoted_query)
unfolding trim_space trim_left trim_right
no_zero = (
  (λ e. omega (arith, e)),
  (
    (λ e. omega (arith, e)),
    (
      (λ e. omega (arith, e)),
      (
        (λ e. omega (arith, e)),
        (
          (λ e. omega (arith, e)),
          ((λ e. omega (arith, e)), ((λ e. omega (arith, e)), ((λ e. omega (arith, e)), tt))),
        ),
      ),
    ),
  ),
)

two_terms : terms_of (fields_from false (trim_space quoted_query)) ≡ codes "ab" ∷ codes "OR" ∷ []
unfolding terms_of without_quotes fields_from trim_space trim_left trim_right
two_terms = refl

match_of-reads_example :
    (read_match (match_of quoted_query)
      ≡ some (terms_of (fields_from false (trim_space quoted_query))))
    × All IsTerm (terms_of (fields_from false (trim_space quoted_query)))
match_of-reads_example = match_of-reads quoted_query no_zero (λ e. cc (two_terms, e))

-- A query of quotes makes the empty expression.
quotes_test : match_of (codes "\"\"") ≡ []
unfolding match_of terms_of without_quotes join_and fields_from trim_space trim_left trim_right
quotes_test = refl
