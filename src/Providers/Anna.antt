-- ===== src/Providers/Anna.antt =====
-- internal/providers/anna.go: Search over the mirrors with the challenge state, Details, OpenCover and
-- OpenFile. Times are nanoseconds, with 0 for the zero time. Reading the page of results is a parameter,
-- as is url.QueryEscape; the ten seconds of a search's context belong to the client.
use atlas_bridge.Base.{
  ℕ, ◌+◌, ◌*◌, ◌==◌, Bool, true, false, ◌||◌, List, [], ◌∷◌, ◌++◌, Option, none, some, ltb, leb,
  if◌then◌else◌, length, Result, ok, err,
}
use atlas_bridge.Base.Text.{Bytes, codes, trim_right, to_lower, contains}
use atlas_bridge.Base.Decimal.{format_nat}
use atlas_bridge.Model.{Book, SearchOptions, SearchResponse, Failure}
use atlas_bridge.Providers.{Response, Fetch, require_ok, read_bounded, unavailable}

pub record Anna : Type 0 where
  pub mirrors : List Bytes
  pub key : Bytes
  pub query_escape : Bytes → Bytes
  -- parseSearch: page, wanted format and mirror
  pub parse_search : Bytes → Bytes → Bytes → Result Failure (List Book)
  -- cache.Store.Get of this provider's book, with its error as a missing book
  pub cached : Bytes → Option Book

abbrev pub me : Bytes
me = codes "anna"

abbrev pub trim_mirror : Bytes → Bytes
trim_mirror = trim_right (λ c. c == b'/')

-- isChallenge
unfoldable pub is_challenge : Bytes → Bool
unfolding to_lower contains
is_challenge page =
    let lower = to_lower page in
    contains (codes "ddos-guard") lower
    || contains (codes "checking your browser") lower
    || contains (codes "browser verification") lower

unfoldable pub search_target : Anna → Bytes → Bytes → ℕ → Bytes
unfolding format_nat
search_target a mirror query page =
    trim_mirror mirror
    ++ codes "/search?q="
    ++ a.query_escape query
    ++ codes "&page="
    ++ format_nat page

-- What one mirror's answer is to the loop of Search.
pub data Answer : Type 0 where
  hit : List Book → Answer
  challenged : Answer
  missed : Failure → Answer

abbrev pub parsed : Result Failure (List Book) → Answer
parsed (ok books) = hit books
parsed (err e) = missed e

abbrev pub checked_page : Anna → SearchOptions → Bytes → Bytes → Option Failure → Answer
checked_page a opts mirror page (some e) = missed e
checked_page a opts mirror page none = parsed (a.parse_search page opts.format mirror)

abbrev pub read_page : Anna → SearchOptions → Bytes → Response → Result Failure Bytes → Answer
read_page a opts mirror resp (err e) = missed e
read_page a opts mirror resp (ok page) =
    if is_challenge page then challenged else checked_page a opts mirror page (require_ok me resp)

abbrev pub responded : Anna → SearchOptions → Bytes → Result Failure Response → Answer
responded a opts mirror (err e) = missed e
responded a opts mirror (ok resp) = read_page a opts mirror resp (read_bounded resp (10 * 1048576))

-- The body of the loop of Search, for one mirror.
unfoldable pub ask : Anna → Fetch → Bytes → SearchOptions → Bytes → Answer
unfolding search_target
ask a fetch query opts mirror =
    responded a opts mirror
      (fetch (search_target a mirror query opts.page) (codes "text/html,application/xhtml+xml"))

-- The state of Search besides the mirrors: challengeUntil, and the books that were put in the cache.
pub record Memory : Type 0 where
  pub challenge_until : ℕ
  pub kept : List Book

abbrev pub challenge_time : ℕ
challenge_time = 15 * 60 * 1000000000

abbrev pub no_mirror : Failure
no_mirror =
    unavailable me (codes "upstream_unavailable") (codes "no Anna's Archive mirror is configured")
      true

abbrev pub all_challenged : Failure
all_challenged =
    unavailable me (codes "upstream_challenge")
      (codes "Anna's Archive requires browser verification on all reachable mirrors") true

abbrev pub still_challenged : Failure
still_challenged =
    unavailable me (codes "upstream_challenge")
      (codes "Anna's Archive browser verification is still active; retry later") true

abbrev pub or_else : Option Failure → Failure → Failure
or_else none e = e
or_else (some l) e = l

-- Behind the loop, `seen` a challenge and `last` the last error. `now` is the time of that moment.
abbrev pub give_up : ℕ → Bool → Option Failure → Memory → Memory × Result Failure SearchResponse
give_up now true last m = (record m { challenge_until = now + challenge_time }, err all_challenged)
give_up now false last m = (m, err (or_else last no_mirror))

abbrev pub response_of : Bytes → SearchOptions → List Book → SearchResponse
response_of query opts books = record {
  provider_id = me;
  query = query;
  page = opts.page;
  has_more = leb opts.page_size (length books);
  results = books;
}

-- The loop of Search over the mirrors.
unfoldable pub search_mirrors :
    Anna
    → Fetch
    → ℕ
    → Bytes
    → SearchOptions
    → List Bytes
    → Bool
    → Option Failure
    → Memory
    → Memory × Result Failure SearchResponse
unfolding ask
search_mirrors a fetch now query opts [] seen last m = give_up now seen last m
search_mirrors a fetch now query opts (mirror ∷ mirrors) seen last m =
    elim (ask a fetch query opts mirror) [
      | hit books ↦ (
        record { challenge_until = 0; kept = m.kept ++ books },
        ok (response_of query opts books),
      )
      | challenged ↦ search_mirrors a fetch now query opts mirrors true last m
      | missed e ↦ search_mirrors a fetch now query opts mirrors seen (some e) m
    ]

-- Search; `start` and `end` are the times at its begin and behind the loop.
unfoldable pub search :
    Anna → Fetch → ℕ → ℕ → Bytes → SearchOptions → Memory → Memory × Result Failure SearchResponse
unfolding search_mirrors
search a fetch start end query opts m =
    if ltb start m.challenge_until
    then (m, err still_challenged)
    else search_mirrors a fetch end query opts a.mirrors false none m
