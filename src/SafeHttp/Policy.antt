-- ===== src/SafeHttp/Policy.antt =====
-- internal/safehttp/client.go: New's origins, ValidateURL, CheckRedirect, Do and the limit on a body.
-- A parsed url.URL is the record of what its accessors return. The server's redirects are the list of
-- their targets; a body is the list of the chunks that its reads return before io.EOF.
pub mod Redirects
pub mod Limits
use atlas_bridge.Base.{
  ℕ, zero, suc, ◌+◌, ◌-◌, Bool, true, false, ◌&&◌, ◌||◌, not, List, [], ◌∷◌, ◌++◌, Option, none,
  some, ltb, leb, if◌then◌else◌, any, length, take, concat, ◌==◌, Result, ok, err, ◌>>=◌,
}
use atlas_bridge.Base.Text.{Bytes, codes, ◌=ᵇ◌, to_lower}
use atlas_bridge.Base.Decimal.{int64_limit}

pub record Url : Type 0 where
  pub scheme : Bytes
  pub has_user : Bool
  pub host : Bytes
  pub hostname : Bytes

pub data PolicyError : Type 0 where
  invalid_origin not_https origin_not_allowed redirect_limit too_large : PolicyError

pub record Client : Type 0 where
  pub allowed : List Bytes
  pub max_body : ℕ

-- strings.ToLower(u.Scheme + "://" + u.Host)
unfoldable pub origin : Url → Bytes
unfolding to_lower
origin u = to_lower (u.scheme ++ (codes "://" ++ u.host))

-- An origin has the scheme https and a host name.
unfoldable pub checked_origin : Option Url → Result PolicyError Bytes
unfolding origin
checked_origin none = err invalid_origin
checked_origin (some u) =
    if not (u.scheme =ᵇ codes "https") || (u.hostname =ᵇ [])
    then err invalid_origin
    else ok (origin u)

-- New's loop over the origins; `parse` is url.Parse, with `none` for an error.
unfoldable pub allow_origins : (Bytes → Option Url) → List Bytes → Result PolicyError (List Bytes)
unfolding checked_origin
allow_origins parse [] = ok []
allow_origins parse (raw ∷ raws) =
    checked_origin (parse raw) >>= λ o. allow_origins parse raws >>= λ os. ok (o ∷ os)

-- Membership in the map `allowed`.
abbrev pub is_allowed : List Bytes → Bytes → Bool
is_allowed [] o = false
is_allowed (a ∷ rest) o = (a =ᵇ o) || is_allowed rest o

-- ValidateURL; `none` is a nil pointer.
unfoldable pub validate_url : Client → Option Url → Result PolicyError (Unit {0})
unfolding origin
validate_url c none = err not_https
validate_url c (some u) =
    if not (u.scheme =ᵇ codes "https") || u.has_user || (u.hostname =ᵇ [])
    then err not_https
    else if is_allowed c.allowed (origin u)
    then ok tt
    else err origin_not_allowed

-- CheckRedirect, `via` the number of requests made so far
unfoldable pub check_redirect : Client → ℕ → Url → Result PolicyError (Unit {0})
unfolding validate_url
check_redirect c via u = if leb 5 via then err redirect_limit else validate_url c (some u)

-- A request is sent if its check passed.
abbrev pub sent_if :
    Result PolicyError (Unit {0})
    → Url
    → List Url × Option PolicyError
    → List Url × Option PolicyError
sent_if (ok _) u (sent, e) = (u ∷ sent, e)
sent_if (err e) u rest = ([], some e)

-- http.Client.Do behind the first request: each redirect is checked, then requested. Returns the
-- URLs that were requested, and the error that ended the chain.
unfoldable pub follow : Client → ℕ → List Url → List Url × Option PolicyError
unfolding check_redirect
follow c via [] = ([], none)
follow c via (u ∷ us) = let rest = follow c (suc via) us in sent_if (check_redirect c via u) u rest

-- Do up to its response: the URLs requested, for a request and the redirects that the servers answer.
unfoldable pub requested : Client → Url → List Url → List Url × Option PolicyError
unfolding follow validate_url
requested c u redirects =
    let rest = follow c 1 redirects in sent_if (validate_url c (some u)) u rest

-- limitedReadCloser over io.LimitReader: the bytes that the inner reader may still give, and the count.
pub record Limited : Type 0 where
  pub remaining : ℕ
  pub read : ℕ

-- The wrapping at the end of Do. c.maxBody+1 is an int64: behind the greatest one it is negative, and
-- io.LimitReader of a negative number is at its end.
unfoldable pub limit_body : Client → Limited
limit_body c = record {
  remaining = if ltb (c.max_body + 1) int64_limit then c.max_body + 1 else 0;
  read = 0;
}

-- One Read of the wrapped body, where the connection has `chunk` ready: the bytes returned, whether
-- the count has passed the limit, and whether the inner reader is at its own end.
pub record ReadResult : Type 0 where
  pub bytes : Bytes
  pub over : Bool
  pub at_end : Bool

unfoldable pub read_limited : ℕ → Limited → Bytes → Limited × ReadResult
read_limited limit l chunk =
    if l.remaining == 0
    then (l, record { bytes = []; over = ltb limit l.read; at_end = true })
    else let given = take l.remaining chunk in
      (
        record { remaining = l.remaining - length given; read = l.read + length given },
        record { bytes = given; over = ltb limit (l.read + length given); at_end = false },
      )

-- io.ReadAll of a limited body: the chunks one after another, until an error or the end.
unfoldable pub read_all : ℕ → Limited → List Bytes → Result PolicyError Bytes
unfolding read_limited
read_all limit l [] = ok []
read_all limit l (chunk ∷ chunks) =
    let (l', r) = read_limited limit l chunk in
    let rest = read_all limit l' chunks in
    if r.over then err too_large else if r.at_end then ok [] else rest >>= λ bs. ok (r.bytes ++ bs)

abbrev pub over_announced : Client → Option ℕ → Bool
over_announced c none = false
over_announced c (some n) = ltb c.max_body n && ltb 0 c.max_body

-- Do, from the response on: the length that it announces, then its body.
unfoldable pub receive : Client → Option ℕ → List Bytes → Result PolicyError Bytes
unfolding read_all limit_body
receive c announced chunks =
    if over_announced c announced
    then err too_large
    else if ltb 0 c.max_body
    then read_all c.max_body (limit_body c) chunks
    else ok (concat chunks)
