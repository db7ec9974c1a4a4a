-- ===== src/Providers/LibGen.antt =====
-- internal/providers/libgen.go: Search over the mirrors, Details, OpenCover and OpenFile. The cache's Get
-- of this provider's book is a parameter, with its error as a missing book, as is url.QueryEscape.
use atlas_bridge.Base.{
  ℕ, ◌*◌, Bool, true, false, not, ◌&&◌, ◌||◌, List, [], ◌∷◌, ◌++◌, Option, none, some,
  if◌then◌else◌, leb, length, take, Result, ok, err, ◌>>=◌,
}
use atlas_bridge.Base.Text.{
  Bytes, codes, ◌=ᵇ◌, trim_space, to_lower, contains, has_prefix, has_suffix, split,
}
use atlas_bridge.Base.Decimal.{format_nat}
use atlas_bridge.Model.{
  Book, BookFile, SearchOptions, SearchResponse, Failure, provider_error, Download,
}
use atlas_bridge.Providers.{Response, Fetch, require_ok, read_bounded, unavailable, remote}
use atlas_bridge.Providers.Anna.{trim_mirror}
use atlas_bridge.Providers.Pages.{Scraper, Anchor, absolute_url, libgen_parse_search}

pub record LibGen : Type 0 where
  pub mirrors : List Bytes
  pub query_escape : Bytes → Bytes
  pub scraper : Scraper
  pub cached : Bytes → Option Book

abbrev pub libgen : Bytes
libgen = codes "libgen"

abbrev pub problem : Bytes → Bytes → ℕ → Bool → Failure
problem code message status retryable = provider_error (record {
  code = code;
  message = message;
  provider = libgen;
  retryable = retryable;
  status = status;
})

-- What is read of an answer: at most `max` bytes, then the status.
abbrev pub page_read : ℕ → Response → Result Failure Bytes
page_read max resp = read_bounded resp max >>= λ page. elim (require_ok libgen resp) [
  | some e ↦ err e
  | none ↦ ok page
]

abbrev pub page_types : Bytes
page_types = codes "text/html,application/xhtml+xml"

unfoldable pub libgen_target : LibGen → Bytes → Bytes → ℕ → Bytes
unfolding format_nat
libgen_target l mirror query page =
    trim_mirror mirror
    ++ codes "/index.php?req="
    ++ l.query_escape query
    ++ codes "&open=0&res=25&view=simple&phrase=1&column=def&page="
    ++ format_nat page

-- The body of the loop of Search, for one mirror, up to the parsed books.
unfoldable pub books_of :
    LibGen → Fetch → Bytes → SearchOptions → Bytes → Result Failure (List Book)
unfolding libgen_target libgen_parse_search
books_of l fetch query o mirror = fetch (libgen_target l mirror query o.page) page_types >>= λ resp.
    page_read (10 * 1048576) resp >>= λ page. libgen_parse_search l.scraper page mirror o.format

-- Behind the loop
abbrev pub last_error : Option Failure → Failure
last_error (some (provider_error e)) = provider_error e
last_error _ =
    unavailable libgen (codes "upstream_unavailable")
      (codes "all configured LibGen mirrors were unavailable") true

abbrev pub page_of_books : Bytes → SearchOptions → List Book → SearchResponse
page_of_books query o books = record {
  provider_id = libgen;
  query = query;
  page = o.page;
  has_more = leb o.page_size (length (take o.page_size books));
  results = take o.page_size books;
}

-- The loop of Search over the mirrors, with the books that it puts in the cache.
unfoldable pub search_libgen :
    LibGen
    → Fetch
    → Bytes
    → SearchOptions
    → List Bytes
    → Option Failure
    → List Book × Result Failure SearchResponse
unfolding books_of
search_libgen l fetch query o [] last = ([], err (last_error last))
search_libgen l fetch query o (mirror ∷ mirrors) last = elim (books_of l fetch query o mirror) [
  | err e ↦ search_libgen l fetch query o mirrors (some e)
  | ok books ↦ (take o.page_size books, ok (page_of_books query o books))
]

-- Search
unfoldable pub libgen_search :
    LibGen → Fetch → Bytes → SearchOptions → List Book × Result Failure SearchResponse
unfolding search_libgen
libgen_search l fetch query o = search_libgen l fetch query o l.mirrors none

abbrev pub cached_book : Option Book → Result Failure Book
cached_book none = err (
    problem (codes "details_not_cached") (codes "book details are no longer cached; search again")
      404 false)
cached_book (some b) = ok b

-- Details
unfoldable pub libgen_details : LibGen → Bytes → Result Failure Book
unfolding to_lower
libgen_details l id = cached_book (l.cached (to_lower id))

abbrev pub fine : Response → Result Failure Response
fine resp = elim (require_ok libgen resp) [ some e ↦ err e | none ↦ ok resp ]

abbrev pub cover_of : Book → Result Failure Bytes
cover_of b =
    if b.cover_url =ᵇ []
    then err (problem (codes "cover_not_found") (codes "cover is unavailable") 404 false)
    else ok b.cover_url

-- OpenCover
unfoldable pub libgen_open_cover : LibGen → Fetch → Bytes → Result Failure Download
unfolding libgen_details
libgen_open_cover l fetch id = libgen_details l id >>= λ b. cover_of b >>= λ url.
    fetch url (codes "image/*") >>= λ resp. fine resp >>= λ resp'. ok (remote resp')

-- The file's page and format, of the first file with that id
unfoldable pub find_file : Bytes → List BookFile → Option BookFile
find_file file_id [] = none
find_file file_id (f ∷ fs) = if f.file_id =ᵇ file_id then some f else find_file file_id fs

abbrev pub found_file : Option BookFile → Result Failure BookFile
found_file none = err (problem (codes "file_not_found") (codes "unknown file") 404 false)
found_file (some f) =
    if f.url =ᵇ []
    then err (problem (codes "file_not_found") (codes "unknown file") 404 false)
    else ok f

-- strings.Split(href, "?")[0]
abbrev pub first_part : List Bytes → Bytes
first_part [] = []
first_part (p ∷ ps) = p

abbrev pub is_no_link : Bytes → Bool
is_no_link href =
    href =ᵇ [] || has_prefix (codes "#") href || has_prefix (codes "javascript:") (to_lower href)

abbrev pub is_direct : Bytes → Bytes → Bool
is_direct format href =
    let path = to_lower (first_part (split b'?' href)) in
    contains (codes "get.php") path || has_suffix (codes "." ++ format) path

abbrev pub is_labelled : Bytes → Bool
is_labelled text =
    let label = to_lower (trim_space text) in
    label =ᵇ codes "get" || contains (codes "download") label

-- The labelled download behind a link that is not the direct one
abbrev pub noted : Bytes → Bytes → Bytes → Bytes → Bytes
noted labelled href text direct =
    if labelled =ᵇ [] && not (is_no_link href) && is_labelled text then direct else labelled

-- The loop of resolveLibGenDownload, with the labelled download so far.
unfoldable pub find_download : Scraper → Bytes → Bytes → List Anchor → Bytes → Bytes
unfolding absolute_url trim_space to_lower has_prefix contains has_suffix split
find_download sc detail format [] labelled = labelled
find_download sc detail format (a ∷ rest) labelled =
    let href = trim_space a.href in
    let direct = absolute_url sc detail href in
    elim (not (is_no_link href) && is_direct format href) [
      | true ↦ if direct =ᵇ [] then labelled else direct
      | false ↦ find_download sc detail format rest (noted labelled href a.text direct)
    ]

-- resolveLibGenDownload, with OpenFile's test of its result
unfoldable pub resolve_libgen_download :
    Scraper → Bytes → Bytes → List Anchor → Result Failure Bytes
unfolding find_download
resolve_libgen_download sc detail format anchors =
    let download = find_download sc detail format anchors [] in
    if download =ᵇ []
    then err (
        unavailable libgen (codes "download_resolution_failed")
          (codes "LibGen download link was not found") false)
    else ok download

-- The test of the first five bytes; Peek fails if there are not so many.
unfoldable pub has_signature : Bytes → Bytes → Bool
unfolding has_prefix
has_signature format body =
    leb 5 (length body)
    && not (format =ᵇ codes "pdf" && not (take 5 body =ᵇ codes "%PDF-"))
    && not (format =ᵇ codes "epub" && not (has_prefix (b'P' ∷ b'K' ∷ 3 ∷ 4 ∷ []) (take 5 body)))

abbrev pub signed : Bytes → Response → Result Failure Download
signed format resp =
    if has_signature format resp.body
    then ok (remote resp)
    else err (
        problem (codes "invalid_upstream_file")
          (codes "LibGen did not return the requested book file") 502 true)

-- OpenFile
unfoldable pub libgen_open_file : LibGen → Fetch → Bytes → Bytes → Result Failure Download
unfolding libgen_details find_file resolve_libgen_download has_signature
libgen_open_file l fetch id file_id = libgen_details l id >>= λ b.
    found_file (find_file file_id b.files) >>= λ f. fetch f.url page_types >>= λ resp.
    page_read (5 * 1048576) resp >>= λ page. l.scraper.anchors page >>= λ anchors.
    resolve_libgen_download l.scraper f.url f.format anchors >>= λ url.
    fetch url (codes "application/octet-stream") >>= λ resp'.
    fine resp' >>= λ resp''. signed f.format resp''
