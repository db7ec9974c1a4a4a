-- ===== src/Providers/PageTests.antt =====
-- internal/providers: runs of the local catalogue, LibGen and the pages at concrete inputs.
use atlas_bridge.Base.{
  ◌≡◌, ◌≢◌, ◌≤◌, refl, true, [], ◌∷◌, none, some, if◌then◌else◌, ok, All, length, subst, arith,
}
use atlas_bridge.Base.Text.{
  Bytes, codes, ◌=ᵇ◌, to_lower, trim_space, trim_right, trim_left, trim_prefix, has_prefix,
  has_suffix, contains, split, single_spaced, fields_from,
}
use atlas_bridge.Base.Decimal.{pos}
use atlas_bridge.Model.{Book, BookFile, SearchOptions, SearchResponse}
use atlas_bridge.Catalogue.{StoreError}
use atlas_bridge.Catalogue.Terms.{match_of}
use atlas_bridge.Catalogue.Reads.{
  Rows, BookRow, Queries, no_rows, one_row, book_of, scan_books, search, file_records, offset_of,
  wanted,
}
use atlas_bridge.Catalogue.Agreement.{IsKeyed}
use atlas_bridge.Providers.{Response, Fetch, require_ok, read_bounded, remote, normalize_format}
use atlas_bridge.Providers.Local.{
  local_catalogue, local_search, local_name, IsDetailed, local_search-IsDetailed,
}
use atlas_bridge.Providers.Pages.{
  TableRow, BookLink, Scraper, libgen_parse_search, anna_parse_search, pick_row, pick_link, find_id,
  row_book, row_title, row_format, absolute_url, parse_size, is_unwanted, format_in, link_book,
  link_format,
}
use atlas_bridge.Providers.Formats.{IsFresh}
use atlas_bridge.Providers.Listed.{
  IsListed, IsLinked, libgen_parse_search-IsListed, anna_parse_search-IsLinked,
}
use atlas_bridge.Providers.LibGen.{
  LibGen, libgen, libgen_open_file, libgen_details, find_file, resolve_libgen_download,
  find_download, has_signature,
}
use atlas_bridge.Providers.Opened.{IsSigned, libgen_open_file-IsSigned}

abbrev stored : Book
stored = record {
  provider_id = codes "anna-local";
  external_id = codes "a1";
  title = codes "T";
  author = [];
  description = [];
  isbn = [];
  cover_url = [];
  files = [];
}

abbrev row : BookRow
row = record { book = stored; files_json = codes "[]" }

-- One book, that every search gives, with no file records.
abbrev store : Queries
store = record {
  matching = λ expression format limit offset. some (record { rows = some row ∷ []; ended = true });
  book = λ provider external. if external =ᵇ codes "a1" then one_row row else no_rows;
  files = λ provider external. some (record { rows = []; ended = true });
  locator = λ provider external file. no_rows;
  unmarshal_files = λ text. some [];
  unmarshal_locator = λ text. none;
}

abbrev options : SearchOptions
options = record { page = 1; page_size = 1; format = [] }

abbrev found : SearchResponse
found = record {
  provider_id = codes "anna-local";
  query = codes "T";
  page = 1;
  has_more = true;
  results = stored ∷ [];
}

abbrev describe : StoreError → Bytes
describe e = codes "store"

searched : (local_catalogue describe store).search (codes "T") options ≡ ok found
unfolding local_catalogue local_search search scan_books book_of file_records trim_space trim_left
    trim_right
searched = refl

row-IsKeyed :
    (r : Rows BookRow)
    → store.matching (match_of (codes "T")) (wanted []) 1 (offset_of 1 1) ≡ some r
    → All (IsKeyed store) r.rows × (length r.rows ≤ 1)
row-IsKeyed r h =
    subst (λ r'. All (IsKeyed store) r'.rows × (length r'.rows ≤ 1))
      {x = record { rows = some row ∷ []; ended = true }} {y = r} (cc h) ((refl, tt), omega arith)

local_search-IsDetailed_example :
    All (λ b. b.provider_id ≡ local_name → IsDetailed describe store b) found.results
    × (length found.results ≤ options.page_size)
    × (found.query ≡ codes "T")
    × (found.page ≡ options.page)
local_search-IsDetailed_example =
    local_search-IsDetailed describe store (codes "T") options found row-IsKeyed searched

abbrev table_row : TableRow
table_row = record {
  cells = codes "T" ∷ codes "A" ∷ [] ∷ [] ∷ [] ∷ [] ∷ [] ∷ codes "PDF" ∷ [];
  hrefs = codes "md5=AB" ∷ [];
  edition = codes "T";
  first_link = [];
  text = codes "T A 1 MB PDF";
  cover = [];
}

abbrev book_link : BookLink
book_link = record {
  href = codes "/md5/AB";
  text = codes "T";
  container_text = codes "T, pdf";
  heading = [];
  author = codes "A";
  cover = [];
}

-- Every link has the id AB, and every page the same row, link and address, which stands twice.
abbrev scraper : Scraper
scraper = record {
  parse_url = λ raw. some (record { is_abs = true; text = raw });
  resolve_reference = λ base u. u;
  size_match = λ text. none;
  scaled = λ number factor. pos 0;
  md5_match = λ href. some (codes "AB");
  anna_md5_match = λ href. some (codes "AB");
  table_rows = λ page. ok (table_row ∷ table_row ∷ []);
  book_links = λ page. ok (book_link ∷ book_link ∷ []);
  anchors = λ page. ok (record { href = codes "get.php?k"; text = [] } ∷ []);
}

abbrev listed : Book
listed = record {
  provider_id = codes "libgen";
  external_id = codes "ab";
  title = codes "T";
  author = codes "A";
  description = [];
  isbn = [];
  cover_url = [];
  files =
      record {
        file_id = codes "0-pdf";
        format = codes "pdf";
        size = none;
        url = codes "md5=AB";
        md5 = [];
        aacid = [];
      }
      ∷ [];
}

abbrev linked : Book
linked = record listed {
  provider_id = codes "anna";
  files =
      record {
        file_id = codes "0-pdf";
        format = codes "pdf";
        size = none;
        url = [];
        md5 = [];
        aacid = [];
      }
      ∷ [];
}

libgen_parsed : libgen_parse_search scraper [] (codes "m") (codes "PDF") ≡ ok (listed ∷ [])
unfolding libgen_parse_search pick_row find_id row_book row_title row_format absolute_url parse_size
    is_unwanted format_in normalize_format contains to_lower trim_space trim_left trim_right
    trim_prefix has_prefix
libgen_parsed = refl

anna_parsed : anna_parse_search scraper [] (codes "PDF") (codes "m") ≡ ok (linked ∷ [])
unfolding anna_parse_search pick_link link_book link_format absolute_url parse_size is_unwanted
    format_in contains to_lower trim_space trim_left trim_right has_prefix single_spaced fields_from
anna_parsed = refl

libgen_parse_search-IsListed_example :
    ((listed ∷ []) ≢ [])
    × IsFresh [] (listed ∷ [])
    × All (IsListed scraper (codes "PDF")) (listed ∷ [])
libgen_parse_search-IsListed_example =
    libgen_parse_search-IsListed scraper [] (codes "m") (codes "PDF") (listed ∷ []) libgen_parsed

anna_parse_search-IsLinked_example :
    IsFresh [] (linked ∷ []) × All (IsLinked scraper (codes "PDF")) (linked ∷ [])
anna_parse_search-IsLinked_example =
    anna_parse_search-IsLinked scraper [] (codes "m") (codes "PDF") (linked ∷ []) anna_parsed

abbrev pdf_answer : Response
pdf_answer = record {
  status_code = 200;
  content_type = codes "application/pdf";
  content_length = none;
  url = codes "u";
  body = codes "%PDF-1";
  body_error = none;
}

abbrev fetch : Fetch
fetch target accept = ok pdf_answer

abbrev library : LibGen
library = record {
  mirrors = codes "m" ∷ [];
  query_escape = λ q. q;
  scraper = scraper;
  cached = λ id. if id =ᵇ codes "ab" then some listed else none;
}

pdf_opened : libgen_open_file library fetch (codes "AB") (codes "0-pdf") ≡ ok (remote pdf_answer)
unfolding libgen_open_file libgen_details find_file resolve_libgen_download find_download
    has_signature read_bounded require_ok absolute_url contains to_lower trim_space trim_left
    trim_right has_prefix has_suffix split
pdf_opened = refl

libgen_open_file-IsSigned_example :
    (b : Book) × (f : BookFile) × (url : Bytes) × (resp : Response) × ((if to_lower (codes "AB")
          =ᵇ codes "ab"
        then some listed
        else none)
      ≡ some b)
    × (find_file (codes "0-pdf") b.files ≡ some f)
    × (f.url ≢ [])
    × (fetch url (codes "application/octet-stream") ≡ ok resp)
    × (require_ok libgen resp ≡ none)
    × (remote pdf_answer ≡ remote resp)
    × IsSigned f.format (remote pdf_answer).body
libgen_open_file-IsSigned_example =
    libgen_open_file-IsSigned library fetch (codes "AB") (codes "0-pdf") pdf_opened
