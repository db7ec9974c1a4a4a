-- ===== src/Providers.antt =====
-- internal/providers: what the providers share (common.go) and Anna's Archive (anna.go). The HTTP
-- client's answers are a parameter.
pub mod Anna
pub mod Mirrors
pub mod Files
pub mod Known
pub mod Local
pub mod Pages
pub mod Formats
pub mod Listed
pub mod LibGen
pub mod Opened
mod Tests
mod PageTests
use atlas_bridge.Base.{
  ℕ, ◌+◌, ◌-◌, ◌==◌, Bool, true, false, ◌&&◌, ◌||◌, List, [], ◌∷◌, ◌++◌, Option, none, some, ltb,
  leb, if◌then◌else◌, length, Result, ok, err,
}
use atlas_bridge.Base.Text.{Bytes, codes, ◌=ᵇ◌, trim_space, to_lower, trim_prefix}
use atlas_bridge.Base.Decimal.{format_nat}
use atlas_bridge.Model.{ProviderError, Failure, provider_error, other_error, Download}

-- http.Response: the body is what it gives before an error or its end.
pub record Response : Type 0 where
  pub status_code : ℕ
  pub content_type : Bytes
  pub content_length : Option ℕ
  pub url : Bytes
  pub body : Bytes
  pub body_error : Option Bytes

-- What `request` gives for an address and an Accept header, or its error.
abbrev pub Fetch : Type 0
Fetch = Bytes → Bytes → Result Failure Response

-- requireOK
unfoldable pub require_ok : Bytes → Response → Option Failure
unfolding format_nat
require_ok provider resp =
    if leb 200 resp.status_code && ltb resp.status_code 300
    then none
    else some (
        provider_error (record {
          code = codes "upstream_http_error";
          message = codes "upstream returned HTTP " ++ format_nat resp.status_code;
          provider = provider;
          retryable = leb 500 resp.status_code || resp.status_code == 429;
          status = 502;
        }))

-- readBounded: at most max + 1 bytes are read, so an error behind them is not seen.
unfoldable pub read_bounded : Response → ℕ → Result Failure Bytes
read_bounded resp max =
    if ltb max (length resp.body)
    then err (other_error (codes "response exceeds parsing limit"))
    else elim resp.body_error [ none ↦ ok resp.body | some e ↦ err (other_error e) ]

-- normalizeFormat
unfoldable pub normalize_format : Bytes → Bytes
unfolding to_lower trim_space trim_prefix
normalize_format value =
    let v = to_lower (trim_space (trim_prefix (codes ".") value)) in
    if v =ᵇ codes "epub" || v =ᵇ codes "pdf" then v else []

-- unavailable
unfoldable pub unavailable : Bytes → Bytes → Bytes → Bool → Failure
unavailable provider code message retryable = provider_error (record {
  code = code;
  message = message;
  provider = provider;
  retryable = retryable;
  status =
      if code =ᵇ codes "upstream_challenge" || code =ᵇ codes "upstream_unavailable"
      then 503
      else 502;
})

-- remote
unfoldable pub remote : Response → Download
remote resp = record {
  url = resp.url;
  content_type = resp.content_type;
  size = resp.content_length;
  body = resp.body;
}
