-- ===== src/Providers/Files.antt =====
-- internal/providers/anna.go: Details, OpenCover and OpenFile. Decoding the download answer's JSON is a
-- parameter; its result holds what is there after an error too.
use atlas_bridge.Base.{
  ℕ, ◌==◌, Bool, true, false, ◌||◌, List, [], ◌∷◌, ◌++◌, Option, none, some, ltb, leb,
  if◌then◌else◌, length, any, Result, ok, err, ◌>>=◌,
}
use atlas_bridge.Base.Text.{Bytes, codes, ◌=ᵇ◌, trim_space, to_lower}
use atlas_bridge.Base.Decimal.{ℤ, pos, negsuc, format_nat, parse_int}
use atlas_bridge.Model.{Book, Failure, provider_error, Download}
use atlas_bridge.Providers.{
  Response, Fetch, require_ok, read_bounded, normalize_format, unavailable, remote,
}
use atlas_bridge.Providers.Anna.{Anna, me, trim_mirror, or_else}

-- The answer of fast_download.json.
pub record Payload : Type 0 where
  pub decoded : Bool
  pub download_url : Option Bytes
  pub error : Bytes

abbrev pub refused : Bytes → Bytes → ℕ → Bool → Failure
refused code message status retryable = provider_error (record {
  code = code;
  message = message;
  provider = me;
  retryable = retryable;
  status = status;
})

abbrev pub file_not_found : Failure
file_not_found = refused (codes "file_not_found") (codes "unknown file") 404 false

abbrev pub from_cache : Option Book → Result Failure Book
from_cache none = err (
    refused (codes "details_not_cached") (codes "book details are no longer cached; search again")
      404 false)
from_cache (some b) = ok b

-- Details
unfoldable pub details : Anna → Bytes → Result Failure Book
unfolding to_lower
details a id = from_cache (a.cached (to_lower id))

abbrev pub accepted : Option Failure → Response → Result Failure Download
accepted (some e) resp = err e
accepted none resp = ok (remote resp)

abbrev pub cover_address : Book → Result Failure Bytes
cover_address b =
    if b.cover_url =ᵇ []
    then err (refused (codes "cover_not_found") (codes "cover is unavailable") 404 false)
    else ok b.cover_url

-- OpenCover
unfoldable pub open_cover : Anna → Fetch → Bytes → Result Failure Download
unfolding details
open_cover a fetch id = details a id >>= λ b. cover_address b >>= λ url.
    fetch url (codes "image/*") >>= λ resp. accepted (require_ok me resp) resp

-- safeUpstreamError
unfoldable pub safe_upstream_error : Bytes → Bytes
unfolding trim_space
safe_upstream_error value =
    if trim_space value =ᵇ [] || ltb 200 (length value)
    then codes "upstream rejected the download request"
    else trim_space value

abbrev pub before_part : ℕ → Option (Bytes × Bytes) → Option (Bytes × Bytes)
before_part c none = none
before_part c (some (head, tail)) = some (c ∷ head, tail)

-- strings.SplitN(s, "-", 2), if it gives two parts
unfoldable pub split_once : Bytes → Option (Bytes × Bytes)
split_once [] = none
split_once (c ∷ s) =
    let rest = before_part c (split_once s) in if c == b'-' then some ([], s) else rest

abbrev pub index_of : Option ℤ → Result Failure ℕ
index_of none = err file_not_found
index_of (some (negsuc n)) = err file_not_found
index_of (some (pos n)) = ok n

-- The index before the first dash, with a known format behind it.
abbrev pub path_index : Option (Bytes × Bytes) → Result Failure ℕ
path_index none = err file_not_found
path_index (some (head, tail)) =
    if normalize_format tail =ᵇ [] then err file_not_found else index_of (parse_int head)

abbrev pub has_file : Book → Bytes → Bool
has_file b file_id = any (λ f. f.file_id =ᵇ file_id) b.files

abbrev pub known : Book → Bytes → Result Failure Book
known b file_id = if has_file b file_id then ok b else err file_not_found

abbrev pub has_key : Anna → Result Failure Bytes
has_key a =
    if a.key =ᵇ []
    then err (
        refused (codes "credential_not_configured")
          (codes "Anna member download key is not configured") 503 false)
    else ok a.key

abbrev pub resolution_failed : Payload → ℕ → Failure
resolution_failed p status =
    refused (codes "download_resolution_failed") (safe_upstream_error p.error) 502 (leb 500 status)

abbrev pub some_url : Payload → ℕ → Option Bytes → Result Failure Bytes
some_url p status none = err (resolution_failed p status)
some_url p status (some url) = if url =ᵇ [] then err (resolution_failed p status) else ok url

abbrev pub download_url : Payload → ℕ → Result Failure Bytes
download_url p status =
    if p.decoded then some_url p status p.download_url else err (resolution_failed p status)

unfoldable pub download_target : Anna → Bytes → Bytes → ℕ → Bytes
unfolding format_nat
download_target a mirror id index =
    trim_mirror mirror
    ++ codes "/dyn/api/fast_download.json?md5="
    ++ a.query_escape id
    ++ codes "&key="
    ++ a.query_escape a.key
    ++ codes "&path_index="
    ++ format_nat index

-- The body of the loop of OpenFile, for one mirror.
unfoldable pub resolve :
    Anna → (Bytes → Payload) → Fetch → Bytes → ℕ → Bytes → Result Failure Download
unfolding download_target
resolve a decode fetch id index mirror =
    fetch (download_target a mirror id index) (codes "application/json") >>= λ resp.
    read_bounded resp 1048576 >>= λ bytes. download_url (decode bytes) resp.status_code >>= λ url.
    fetch url (codes "application/octet-stream") >>= λ download.
    accepted (require_ok me download) download

unfoldable pub resolve_mirrors :
    Anna
    → (Bytes → Payload)
    → Fetch
    → Bytes
    → ℕ
    → List Bytes
    → Option Failure
    → Result Failure Download
unfolding resolve
resolve_mirrors a decode fetch id index [] last = err (
    or_else last (
      unavailable me (codes "download_resolution_failed") (codes "download could not be resolved")
        true))
resolve_mirrors a decode fetch id index (mirror ∷ mirrors) last =
    elim (resolve a decode fetch id index mirror) [
      | ok download ↦ ok download
      | err e ↦ resolve_mirrors a decode fetch id index mirrors (some e)
    ]

-- OpenFile
unfoldable pub open_file :
    Anna → (Bytes → Payload) → Fetch → Bytes → Bytes → Result Failure Download
unfolding details split_once resolve_mirrors
open_file a decode fetch id file_id = has_key a >>= λ key.
    path_index (split_once file_id) >>= λ index. details a id >>= λ b.
    known b file_id >>= λ _. resolve_mirrors a decode fetch id index a.mirrors none
