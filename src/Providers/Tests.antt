-- ===== src/Providers/Tests.antt =====
-- internal/providers: runs at concrete inputs.
use atlas_bridge.Base.{
  ◌+◌, ◌≡◌, ◌≢◌, ◌≤◌, ◌<◌, refl, true, [], ◌∷◌, none, some, if◌then◌else◌, any, ok, err, arith,
}
use atlas_bridge.Base.Text.{
  Bytes, codes, ◌=ᵇ◌, to_lower, trim_space, trim_right, trim_left, trim_prefix, has_prefix,
  contains,
}
use atlas_bridge.Base.Decimal.{parse_int, format_nat}
use atlas_bridge.Model.{Book, SearchOptions, other_error}
use atlas_bridge.Providers.{Response, Fetch, require_ok, read_bounded, remote, normalize_format}
use atlas_bridge.Providers.Anna.{
  Anna, Memory, ask, search, is_challenge, search_target, all_challenged, still_challenged,
  challenge_time,
}
use atlas_bridge.Providers.Mirrors.{
  first_hit, answers, is_challenged, last_missed, outcome, blocked, search-outcome, search-search,
}
use atlas_bridge.Providers.Files.{
  Payload, file_not_found, open_file, resolve, resolve_mirrors, details, split_once, has_file,
  download_target,
}
use atlas_bridge.Providers.Known.{IsAnswered, open_file-IsAnswered}

abbrev page : Bytes → Response
page body = record {
  status_code = 200;
  content_type = codes "text/html";
  content_length = none;
  url = codes "u";
  body = body;
  body_error = none;
}

abbrev novel : Book
novel = record {
  provider_id = codes "anna";
  external_id = codes "a1";
  title = codes "T";
  author = [];
  description = [];
  isbn = [];
  cover_url = [];
  files =
      record {
        file_id = codes "0-pdf";
        format = codes "pdf";
        size = none;
        url = [];
        md5 = [];
        aacid = [];
      }
      ∷ [];
}

abbrev anna : Anna
anna = record {
  mirrors = codes "m1" ∷ codes "m2/" ∷ [];
  key = codes "k";
  query_escape = λ q. q;
  parse_search = λ body format mirror. ok (novel ∷ []);
  cached = λ id. if id =ᵇ codes "a1" then some novel else none;
}

abbrev options : SearchOptions
options = record { page = 1; page_size = 1; format = [] }

-- Every mirror answers with a challenge.
abbrev guarded : Fetch
guarded target accept = ok (page (codes "<p>DDoS-Guard</p>"))

-- The first mirror fails, the second has a page.
abbrev half_open : Fetch
half_open target accept =
    if has_prefix (codes "m1") target
    then err (other_error (codes "down"))
    else ok (page (codes "x"))

abbrev empty_memory : Memory
empty_memory = record { challenge_until = 0; kept = [] }

second_mirror_test : first_hit (answers anna half_open (codes "q") options) ≡ some (novel ∷ [])
unfolding ask search_target is_challenge read_bounded require_ok contains has_prefix to_lower
    trim_right trim_left format_nat
second_mirror_test = refl

no_hit : first_hit (answers anna guarded (codes "q") options) ≡ none
unfolding ask is_challenge read_bounded contains has_prefix to_lower
no_hit = refl

met : any is_challenged (answers anna guarded (codes "q") options) ≡ true
unfolding ask is_challenge read_bounded contains has_prefix to_lower
met = refl

search-outcome_example :
    search anna half_open 5 9 (codes "q") options empty_memory
    ≡ outcome 9
        (codes "q")
        options
        (first_hit (answers anna half_open (codes "q") options))
        (any is_challenged (answers anna half_open (codes "q") options))
        (last_missed none (answers anna half_open (codes "q") options))
        empty_memory
search-outcome_example =
    search-outcome anna half_open 5 9 (codes "q") options empty_memory (omega arith)

search-search_example :
    (search anna guarded 5 9 (codes "q") options empty_memory
      ≡ (blocked 9 empty_memory, err all_challenged))
    × (100 < 9 + challenge_time
        → search anna half_open 100 101 (codes "q") options (blocked 9 empty_memory)
          ≡ (blocked 9 empty_memory, err still_challenged))
    × (9 + challenge_time ≤ 100
        → search anna half_open 100 101 (codes "q") options (blocked 9 empty_memory)
          ≡ outcome 101
              (codes "q")
              options
              (first_hit (answers anna half_open (codes "q") options))
              (any is_challenged (answers anna half_open (codes "q") options))
              (last_missed none (answers anna half_open (codes "q") options))
              (blocked 9 empty_memory))
search-search_example =
    search-search anna guarded half_open 5 9 100 101 (codes "q") (codes "q") options options
      empty_memory (omega arith) no_hit met

abbrev decode : Bytes → Payload
decode bytes = record { decoded = true; download_url = some (codes "http://f"); error = [] }

opened :
    open_file anna decode half_open (codes "A1") (codes "0-pdf") ≡ ok (remote (page (codes "x")))
unfolding open_file details split_once resolve_mirrors resolve download_target read_bounded
    require_ok has_prefix to_lower trim_right trim_left trim_prefix trim_space format_nat
    normalize_format parse_int
opened = refl

unlisted_test : open_file anna decode half_open (codes "A1") (codes "1-pdf") ≡ err file_not_found
unfolding open_file details split_once to_lower trim_right trim_left trim_prefix trim_space
    normalize_format parse_int has_prefix
unlisted_test = refl

open_file-IsAnswered_example :
    (codes "k" ≢ [])
    × ((b : Book) × ((if to_lower (codes "A1") =ᵇ codes "a1" then some novel else none) ≡ some b)
        × (has_file b (codes "0-pdf") ≡ true))
    × IsAnswered half_open (remote (page (codes "x")))
open_file-IsAnswered_example =
    open_file-IsAnswered anna decode half_open (codes "A1") (codes "0-pdf") opened
