-- ===== src/Api/Answers.antt =====
-- internal/api/server.go: the handlers behind the check of the token.
use atlas_bridge.Base.{
  ℕ, Bool, true, false, ◌&&◌, ◌||◌, not, List, [], Option, none, some, ltb, if◌then◌else◌, length,
  Result, ok, err,
}
use atlas_bridge.Base.Text.{Bytes, codes, ◌=ᵇ◌, trim_space, to_lower}
use atlas_bridge.Base.Maps.{find}
use atlas_bridge.Model.{Book, SearchResponse, Download, Failure, provider_error, Provider}
use atlas_bridge.Acquisition.{Job, Request, State, get, cancel, file}
use atlas_bridge.Acquisition.Steps.{Event, play}
use atlas_bridge.Acquisition.Run.{World}
use atlas_bridge.Acquisition.Create.{create}
use atlas_bridge.Api.{
  HttpRequest, HttpResponse, Server, CatalogueSearch, found, book, acquisition, streamed, refusal,
  write_error, write_json, bad, bounded_int, decorate, decorate_all,
}

abbrev pub provided : Bytes → Option Provider → (Provider → HttpResponse) → HttpResponse
provided id none next = write_error (
    provider_error
      (record (refusal (codes "provider_not_found") (codes "provider was not found") 404 false) {
        provider = id;
      }))
provided id (some p) next = next p

-- `provider`, with the handler's rest
unfoldable pub with_provider : Server → HttpRequest → (Provider → HttpResponse) → HttpResponse
unfolding to_lower find
with_provider s r next =
    let id = to_lower (r.path_value (codes "provider")) in provided id (find id s.providers) next

abbrev pub answered {ℓ} : {A : Type ℓ} → Result Failure A → (A → HttpResponse) → HttpResponse
answered (err e) next = write_error e
answered (ok a) next = next a

abbrev pub decorated : Server → SearchResponse → SearchResponse
decorated s found_books = record found_books { results = decorate_all s found_books.results }

abbrev pub known_format : Bytes → Bool
known_format f = (f =ᵇ []) || (f =ᵇ codes "epub") || (f =ᵇ codes "pdf")

abbrev pub page_of : HttpRequest → ℕ
page_of r = bounded_int (r.query (codes "page")) 1 1 10000

abbrev pub page_size_of : HttpRequest → ℕ
page_size_of r = bounded_int (r.query (codes "pageSize")) 20 1 50

abbrev pub format_of : HttpRequest → Bytes
format_of r = to_lower (trim_space (r.query (codes "format")))

abbrev pub query_of : HttpRequest → Bytes
query_of r = trim_space (r.query (codes "q"))

abbrev pub searched : Server → HttpRequest → Provider → HttpResponse
searched s r p =
    if ltb (length (query_of r)) 3 || ltb 500 (length (query_of r))
    then write_error (bad (codes "invalid_query") (codes "q must contain 3 to 500 characters"))
    else if not (known_format (format_of r))
    then write_error (bad (codes "invalid_format") (codes "format must be epub or pdf"))
    else answered
        (p.search (query_of r)
          (record { page = page_of r; page_size = page_size_of r; format = format_of r }))
        (λ result. write_json 200 (found (decorated s result)))

unfoldable pub search : Server → HttpRequest → HttpResponse
unfolding with_provider
search s r = with_provider s r (searched s r)

abbrev pub catalogue_answer :
    Server → HttpRequest → Result Failure (List Book × Bool) → HttpResponse
catalogue_answer s r (err e) = write_error (
    provider_error
      (refusal (codes "catalogue_search_failed") (codes "local catalogue search failed") 503 true))
catalogue_answer s r (ok (books, more)) = write_json 200 (
    found (record {
      provider_id = [];
      query = query_of r;
      page = page_of r;
      has_more = more;
      results = decorate_all s books;
    }))

abbrev pub catalogue_searched : Server → HttpRequest → CatalogueSearch → HttpResponse
catalogue_searched s r catalogue =
    if ltb (length (query_of r)) 2 || ltb 500 (length (query_of r))
    then write_error (bad (codes "invalid_query") (codes "q must contain 2 to 500 characters"))
    else catalogue_answer s r (catalogue (query_of r) (page_of r) (page_size_of r) (format_of r))

abbrev pub catalogued : Server → HttpRequest → Option CatalogueSearch → HttpResponse
catalogued s r none = write_error (
    provider_error (
      refusal (codes "catalogue_unavailable") (codes "local catalogue is not configured") 503 true))
catalogued s r (some catalogue) = catalogue_searched s r catalogue

unfoldable pub global_search : Server → HttpRequest → HttpResponse
global_search s r = catalogued s r s.catalogue

unfoldable pub details : Server → HttpRequest → HttpResponse
unfolding with_provider
details s r = with_provider s r (λ p.
    answered (p.details (r.path_value (codes "book"))) (λ b. write_json 200 (book (decorate s b))))

unfoldable pub stream : Download → Bytes → HttpResponse
stream remote disposition = write_json 200 (
    streamed
      (if remote.content_type =ᵇ [] then codes "application/octet-stream" else remote.content_type)
      disposition remote.size remote.body)

unfoldable pub cover : Server → HttpRequest → HttpResponse
unfolding with_provider stream
cover s r = with_provider s r (λ p.
    answered (p.open_cover (r.path_value (codes "book")))
      (λ remote. stream remote (codes "inline")))

unfoldable pub book_file : Server → HttpRequest → HttpResponse
unfolding with_provider stream
book_file s r = with_provider s r (λ p.
    answered (p.open_file (r.path_value (codes "book")) (r.path_value (codes "file")))
      (λ remote. stream remote (codes "attachment")))

abbrev pub is_complete : Request → Bool
is_complete q = not (q.provider_id =ᵇ []) && not (q.external_id =ᵇ []) && not (q.file_id =ᵇ [])

abbrev pub invalid_acquisition : HttpResponse
invalid_acquisition =
    write_error
      (bad (codes "invalid_acquisition") (codes "providerId, externalId and fileId are required"))

module _ (has_providers : Bool) (w : World) (fresh : Result Failure Bytes)
    (between : List Event) where
  -- Create with the id that crypto/rand gives, or its error
  abbrev pub created : Result Failure Bytes → Request → State → State × HttpResponse
  created (err e) q m = (m, write_error e)
  created (ok id) q m =
      let made = create has_providers w id q between m in
      (made.state, write_json 202 (acquisition made.returned))

  abbrev pub create_decoded : Option Request → State → State × HttpResponse
  create_decoded none m = (m, invalid_acquisition)
  create_decoded (some q) m = if is_complete q then created fresh q m else (m, invalid_acquisition)

  unfoldable pub create_acquisition : HttpRequest → State → State × HttpResponse
  unfolding create
  create_acquisition r m = create_decoded r.decoded m

abbrev pub job_answer : Option Job → HttpResponse
job_answer none = write_error (
    provider_error
      (refusal (codes "acquisition_not_found") (codes "acquisition was not found") 404 false))
job_answer (some j) = write_json 200 (acquisition j)

unfoldable pub get_acquisition : HttpRequest → State → HttpResponse
unfolding get
get_acquisition r m = job_answer (get (r.path_value (codes "id")) m)

-- Cancel, and then Get in a critical section of its own: `between` is what other goroutines, that of the
-- job among them, do behind Cancel. A job that Cancel found is still there.
unfoldable pub cancel_acquisition : List Event → HttpRequest → State → State × HttpResponse
unfolding cancel get play
cancel_acquisition between r m =
    let id = r.path_value (codes "id") in
    let done = cancel id m in
    let later = play between done.0 in
    (later, if done.1 then job_answer (get id later) else job_answer none)

unfoldable pub acquisition_file : HttpRequest → State → HttpResponse
unfolding file
acquisition_file r m = elim (file (r.path_value (codes "id")) m) [
  | none ↦ write_error (
      provider_error
        (refusal (codes "file_not_ready") (codes "acquisition file is not ready") 409 true))
  | some content ↦ write_json 200 (streamed (codes "application/octet-stream") [] none content)
]
