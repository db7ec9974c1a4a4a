-- ===== src/Api/Tests.antt =====
-- internal/api/server.go: runs at concrete inputs.
use atlas_bridge.Base.{
  ◌≡◌, refl, inl, true, false, List, [], ◌∷◌, ◌++◌, none, some, ok, err, arith, if◌then◌else◌, leb,
}
use atlas_bridge.Base.Text.{
  Bytes, codes, ◌=ᵇ◌, to_lower, trim_space, trim_right, trim_left, trim_prefix, has_prefix,
}
use atlas_bridge.Base.Maps.{find}
use mathlib.Core.Option
use atlas_bridge.Model.{Book, Provider, other_error}
use atlas_bridge.Acquisition.{Request, State, new_manager, new_job, get, add_job}
use atlas_bridge.Acquisition.Steps.{Event, step, cancelling, resolve, download, fail, play}
use atlas_bridge.Acquisition.Run.{World, run}
use atlas_bridge.Acquisition.Jobs.{job_steps}
use atlas_bridge.Acquisition.Cancel.{mine}
use atlas_bridge.Acquisition.Finish.{ended}
use atlas_bridge.Acquisition.Create.{goroutine}
use atlas_bridge.Api.{
  HttpRequest, HttpResponse, Server, authenticate, write_json, acquisition, book, bearer,
}
use atlas_bridge.Api.Answers.{
  search, details, global_search, create_acquisition, get_acquisition, cancel_acquisition,
  job_answer, with_provider,
}
use atlas_bridge.Api.Access.{authenticate_iff}
use atlas_bridge.Api.Searches.{Agree, search-Agree}
use atlas_bridge.Api.Links.{LocalBody, search-IsLocal}
use atlas_bridge.Api.Jobs.{
  create_acquisition-get_acquisition, cancel_acquisition-get_acquisition, cancelled_job,
}

abbrev novel : Book
novel = record {
  provider_id = codes "anna";
  external_id = codes "a1";
  title = codes "T";
  author = [];
  description = [];
  isbn = [];
  cover_url = codes "http://elsewhere/c.jpg";
  files =
      record {
        file_id = codes "0-pdf";
        format = codes "pdf";
        size = none;
        url = [];
        md5 = [];
        aacid = [];
      }
      ∷ [];
}

abbrev library : Provider
library = record {
  search = λ q o. ok (record {
    provider_id = codes "anna";
    query = q;
    page = o.page;
    has_more = false;
    results = novel ∷ [];
  });
  details = λ id. ok novel;
  open_cover = λ id. err (other_error []);
  open_file = λ id file_id. err (other_error []);
}

-- It answers page 0 in another way.
abbrev other_library : Provider
other_library = record library {
  search = λ q o. if leb 1 o.page then library.search q o else err (other_error []);
}

same_answers : Agree library other_library
same_answers q o valid = ground (arith, valid)

abbrev server : Server
server = record {
  token = codes "secret";
  public_base = codes "http://b";
  providers = (codes "anna", library) ∷ [];
  catalogue = none;
  path_escape = λ t. t;
}

abbrev asked : HttpRequest
asked = record {
  path = codes "/v1/acquisitions";
  authorization = codes "Bearer secret";
  query = λ name. if name =ᵇ codes "q" then codes "tolstoy" else [];
  path_value = λ name. if name =ᵇ codes "provider" then codes "anna" else codes "j1";
  decoded =
      some
        (record { provider_id = codes "anna"; external_id = codes "a1"; file_id = codes "0-pdf" });
}

abbrev next : HttpResponse
next = write_json 200 (book novel)

found_test : (search server asked).status ≡ 200
unfolding search with_provider find write_json to_lower trim_space trim_right trim_left
found_test = refl

bare_token_test : authenticate server (record asked { authorization = codes "secret" }) next ≡ next
unfolding authenticate bearer trim_prefix has_prefix
bare_token_test = refl

authenticate_iff_example : authenticate server asked next ≡ next
authenticate_iff_example = (authenticate_iff server asked next (λ e. cc e)).0 (inl refl)

search-Agree_example :
    search (record server { providers = (codes "anna", library) ∷ server.providers }) asked
    ≡ search (record server { providers = (codes "anna", other_library) ∷ server.providers }) asked
search-Agree_example = search-Agree server asked (codes "anna") library other_library same_answers

search-IsLocal_example :
    LocalBody server (search server asked).body
    × LocalBody server (global_search server asked).body
    × LocalBody server (details server asked).body
search-IsLocal_example = search-IsLocal server asked

abbrev wish : Request
wish = record { provider_id = codes "anna"; external_id = codes "a1"; file_id = codes "0-pdf" }

-- The goroutine of a job without a provider: it resolves, and fails.
abbrev no_provider : World
no_provider = record {
  max_bytes = 0;
  provider = none;
  locator = none;
  torrent = err [];
  torrent_dirs_error = none;
  disk = record {
    mkdir_error = none;
    open_error = none;
    write_error = λ n. none;
    sync_error = none;
    close_error = none;
    removes = true;
    signature_opened = true;
    published_opened = true;
  };
}

abbrev at_once : List Event
at_once = step (codes "j1") resolve ∷ step (codes "j0") download ∷ []

abbrev afterwards : List Event
afterwards =
    cancelling (codes "j1") ∷ step (codes "j1") (fail (codes "provider is not available")) ∷ []

abbrev asked_for : Bytes → HttpRequest
asked_for id = record asked { path_value = λ name. id }

both_steps :
    goroutine true no_provider wish ≡ mine (codes "j1") at_once ++ mine (codes "j1") afterwards
unfolding run
both_steps = refl

create_acquisition-get_acquisition_example :
    ((create_acquisition true no_provider (ok (codes "j1")) at_once asked new_manager).1
      ≡ write_json 202
          (acquisition (job_steps (mine (codes "j1") at_once) (new_job (codes "j1") wish))))
    × (get_acquisition (asked_for (codes "j1")) (
          play afterwards
            (create_acquisition true no_provider (ok (codes "j1")) at_once asked new_manager).0)
        ≡ write_json 200
            (acquisition (job_steps (goroutine true no_provider wish) (new_job (codes "j1") wish))))
    × (get_acquisition
          (asked_for (codes "j2"))
          (create_acquisition true no_provider (ok (codes "j1")) at_once asked new_manager).0
        ≡ get_acquisition (asked_for (codes "j2")) (play at_once new_manager))
create_acquisition-get_acquisition_example =
    create_acquisition-get_acquisition true no_provider (codes "j1") asked (asked_for (codes "j1"))
      (asked_for (codes "j2")) wish at_once afterwards new_manager refl refl both_steps tt
      ((λ own. ended refl), tt) refl refl

abbrev running : State
running = add_job (codes "j1") wish new_manager

cancel_acquisition-get_acquisition_example :
    ((cancel_acquisition at_once (asked_for (codes "j1")) running).1
      ≡ job_answer (
          Option.map
            (λ j. job_steps (mine (codes "j1") at_once) (cancelled_job j))
            (get (codes "j1") running)))
    × (get_acquisition
          (asked_for (codes "j1"))
          (cancel_acquisition at_once (asked_for (codes "j1")) running).0
        ≡ (cancel_acquisition at_once (asked_for (codes "j1")) running).1)
    × (get_acquisition
          (asked_for (codes "j2"))
          (cancel_acquisition at_once (asked_for (codes "j1")) running).0
        ≡ get_acquisition (asked_for (codes "j2")) (play at_once running))
cancel_acquisition-get_acquisition_example =
    cancel_acquisition-get_acquisition at_once (asked_for (codes "j1")) (asked_for (codes "j2"))
      running tt refl
