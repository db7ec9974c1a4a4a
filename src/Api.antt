-- ===== src/Api.antt =====
-- internal/api/server.go: the handlers of the HTTP API, from a request to the response. Routing and
-- JSON belong to net/http and encoding/json: a request carries what they make of it, and a response
-- carries the value that is written. Log lines and the request's random id are left out.
pub mod Answers
pub mod Access
pub mod Searches
pub mod Links
pub mod Jobs
mod Tests
use atlas_bridge.Base.{
  ℕ, ◌==◌, Bool, true, false, ◌&&◌, ◌||◌, not, List, [], ◌∷◌, ◌++◌, map, Option, none, some, ltb,
  if◌then◌else◌, length, Result, ok, err,
}
use atlas_bridge.Base.Text.{Bytes, codes, ◌=ᵇ◌, trim_space, to_lower, trim_prefix, has_prefix}
use atlas_bridge.Base.Maps.{Map, find}
use atlas_bridge.Base.Decimal.{ℤ, pos, negsuc, parse_int}
use atlas_bridge.Model.{
  Book, BookFile, SearchOptions, SearchResponse, Download, ProviderError, Failure, provider_error,
  other_error, Provider,
}
use atlas_bridge.Acquisition.{Job, Request, State, get, cancel, file}

pub record HttpRequest : Type 0 where
  pub path : Bytes
  pub authorization : Bytes
  -- r.URL.Query().Get and r.PathValue
  pub query : Bytes → Bytes
  pub path_value : Bytes → Bytes
  -- The acquisition request that the body holds, if it is one of at most 16 KiB.
  pub decoded : Option Request

pub data Body : Type 0 where
  problem : ProviderError → Body
  found : SearchResponse → Body
  book : Book → Body
  acquisition : Job → Body
  streamed : Bytes → Bytes → Option ℕ → Bytes → Body

pub record HttpResponse : Type 0 where
  pub status : ℕ
  pub body : Body

-- catalog.Store.Search: query, page, page size and format to books and "more"
abbrev pub CatalogueSearch : Type 0
CatalogueSearch = Bytes → ℕ → ℕ → Bytes → Result Failure (List Book × Bool)

pub record Server : Type 0 where
  pub token : Bytes
  pub public_base : Bytes
  pub providers : Map Provider
  pub catalogue : Option CatalogueSearch
  -- url.PathEscape
  pub path_escape : Bytes → Bytes

abbrev pub refusal : Bytes → Bytes → ℕ → Bool → ProviderError
refusal code message status retryable = record {
  code = code;
  message = message;
  provider = [];
  retryable = retryable;
  status = status;
}

abbrev pub with_status : ProviderError → ProviderError
with_status e = if e.status == 0 then record e { status = 502 } else e

abbrev pub error_of : Failure → ProviderError
error_of (provider_error e) = with_status e
error_of (other_error text) =
    refusal (codes "internal_error") (codes "the request could not be completed") 500 false

unfoldable pub write_error : Failure → HttpResponse
write_error e = let pe = error_of e in record { status = pe.status; body = problem pe }

unfoldable pub bad : Bytes → Bytes → Failure
bad code message = provider_error (refusal code message 400 false)

unfoldable pub write_json : ℕ → Body → HttpResponse
write_json status body = record { status = status; body = body }

-- strconv.Atoi and the bounds, which are not negative
abbrev pub in_bounds : ℕ → ℕ → ℕ → Option ℤ → ℕ
in_bounds fallback min max none = fallback
in_bounds fallback min max (some (negsuc n)) = fallback
in_bounds fallback min max (some (pos n)) = if ltb n min || ltb max n then fallback else n

unfoldable pub bounded_int : Bytes → ℕ → ℕ → ℕ → ℕ
unfolding parse_int
bounded_int raw fallback min max =
    if raw =ᵇ [] then fallback else in_bounds fallback min max (parse_int raw)

abbrev pub book_link : Server → Book → Bytes
book_link s b =
    s.public_base
    ++ codes "/v1/providers/"
    ++ s.path_escape b.provider_id
    ++ codes "/books/"
    ++ s.path_escape b.external_id

abbrev pub linked_file : Server → Bytes → BookFile → BookFile
linked_file s base f = record f { url = base ++ (codes "/files/" ++ s.path_escape f.file_id) }

unfoldable pub decorate : Server → Book → Book
decorate s b = record b {
  cover_url = if b.cover_url =ᵇ [] then [] else book_link s b ++ codes "/cover";
  files = map (linked_file s (book_link s b)) b.files;
}

unfoldable pub decorate_all : Server → List Book → List Book
unfolding decorate
decorate_all s = map (decorate s)

unfoldable pub bearer : HttpRequest → Bytes
unfolding trim_prefix
bearer r = trim_prefix (codes "Bearer ") r.authorization

-- The handler behind the check gives `next`.
unfoldable pub authenticate : Server → HttpRequest → HttpResponse → HttpResponse
unfolding bearer write_error
authenticate s r next =
    if r.path =ᵇ codes "/healthz"
    then next
    else if not (length (bearer r) == length s.token) || not (bearer r =ᵇ s.token)
    then write_error (
        provider_error
          (refusal (codes "unauthorized") (codes "a valid bearer token is required") 401 false))
    else next
