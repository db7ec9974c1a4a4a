-- ===== src/Api/Jobs.antt =====
-- internal/api/server.go: the acquisitions as a client of the API sees them, with the goroutines of the
-- jobs at work behind it.
use atlas_bridge.Base.{
  ◌≡◌, refl, Bool, true, false, List, ◌++◌, Option, none, some, if◌then◌else◌, Option-cases, inl,
  inr, ok, ◌∙◌, ap, sym,
}
use mathlib.Core.Option
use atlas_bridge.Base.Text.{Bytes, codes, ◌=ᵇ◌, =ᵇ_refl}
use atlas_bridge.Acquisition.{
  Job, Status, Request, State, get, cancel, new_job, add_job, cancelled, is_some,
}
use atlas_bridge.Acquisition.Steps.{Action, Event, play}
use atlas_bridge.Acquisition.Run.{World}
use atlas_bridge.Acquisition.Jobs.{job_steps}
use atlas_bridge.Acquisition.Cancel.{mine, InTime, get-cancel, get-play, with_status}
use atlas_bridge.Acquisition.Create.{
  goroutine, create, NoCancel, get-play-NoCancel, play_cong, get-add_job, get-add_job_self,
  job_steps-append,
}
use atlas_bridge.Api.{HttpRequest, write_json, acquisition}
use atlas_bridge.Api.Answers.{
  create_acquisition, get_acquisition, cancel_acquisition, job_answer, is_complete,
}

-- The id that a request's path names.
abbrev pub named : HttpRequest → Bytes
named r = r.path_value (codes "id")

-- A new job behind a schedule in which no Cancel names it.
created-get :
    (id : Bytes) (q : Request) (between : List Event) (m : State)
    → NoCancel id between
    → get id (play between (add_job id q m)) ≡ some (job_steps (mine id between) (new_job id q))
created-get id q between m calm =
    get-play-NoCancel id between (add_job id q m) calm
    ∙ ap (Option.map (job_steps (mine id between))) (get-add_job_self id q m)

-- A request with all three ids is accepted with a new job under the fresh id. The goroutine that is
-- started may have taken any of its steps by then, and others any of theirs, but no Cancel of that id:
-- the response is the new job behind those steps. When the goroutine has taken the rest of its steps, with
-- any schedule of the others in between, in which each Cancel of the id comes before the last status,
-- the id answers with the job that the goroutine's steps alone make of the new one. Every other id
-- answers behind the request as it would without it.
pub create_acquisition-get_acquisition :
    (has_providers : Bool) (w : World) (id : Bytes) (r r' other : HttpRequest) (q : Request)
    (between later : List Event) (m : State)
    → r.decoded ≡ some q
    → is_complete q ≡ true
    → goroutine has_providers w q ≡ mine id between ++ mine id later
    → NoCancel id between
    → InTime id later
    → named r' ≡ id
    → (id =ᵇ named other) ≡ false
    → ((create_acquisition has_providers w (ok id) between r m).1
        ≡ write_json 202 (acquisition (job_steps (mine id between) (new_job id q))))
      × (get_acquisition r' (play later (create_acquisition has_providers w (ok id) between r m).0)
          ≡ write_json 200 (acquisition (job_steps (goroutine has_providers w q) (new_job id q))))
      × (get_acquisition other (create_acquisition has_providers w (ok id) between r m).0
          ≡ get_acquisition other (play between m))
unfolding create_acquisition get_acquisition create
create_acquisition-get_acquisition has_providers w id r r' other q between later m e full program
      calm in_time at_id apart =
    (
      rw (e, full, created-get id q between m calm) refl,
      rw (e, full, at_id, program)
          (ap job_answer (
            get-play id later (play between (add_job id q m)) in_time
            ∙ (ap (Option.map (job_steps (mine id later))) (created-get id q between m calm)
                ∙ ap some
                    (sym (job_steps-append (mine id between) (mine id later) (new_job id q)))))),
      rw (e, full)
          (ap job_answer (
            play_cong (named other) between (add_job id q m) m
              (get-add_job id (named other) q m ∙ rw apart refl))),
    )

abbrev pub cancelled_job : Job → Job
cancelled_job j = record j { status = cancelled }

cancel-is_some : (id : Bytes) (m : State) → (cancel id m).1 ≡ is_some (get id m)
unfolding cancel get
cancel-is_some id m = elim (Option-cases (get id m)) [ inl e ↦ rw e refl | inr (j, e) ↦ rw e refl ]

map-if_cancelled :
    (id : Bytes) (steps : List Action) (o : Option Job)
    → Option.map
        (job_steps steps)
        (if id =ᵇ id then Option.map (with_status Status.cancelled) o else o)
      ≡ Option.map (λ j. job_steps steps (cancelled_job j)) o
map-if_cancelled id steps none = rw (=ᵇ_refl id) refl
map-if_cancelled id steps (some j) = rw (=ᵇ_refl id) refl

-- A cancelled job behind a schedule in which no other Cancel names it.
cancelled-get :
    (id : Bytes) (between : List Event) (m : State)
    → NoCancel id between
    → get id (play between (cancel id m).0)
      ≡ Option.map (λ j. job_steps (mine id between) (cancelled_job j)) (get id m)
cancelled-get id between m calm =
    get-play-NoCancel id between (cancel id m).0 calm
    ∙ (ap (Option.map (job_steps (mine id between))) (get-cancel id id m)
        ∙ map-if_cancelled id (mine id between) (get id m))

-- The response, by what Cancel found.
by_found :
    (f : Job → Job) (o later : Option Job)
    → later ≡ Option.map f o
    → (if is_some o then job_answer later else job_answer none) ≡ job_answer later
by_found f none later h = rw h refl
by_found f (some j) later h = refl

-- The response to a request to cancel is the job, given the status "cancelled" and then changed by the
-- steps that its goroutine has taken before the job is read again, or the error of an id that is not
-- known; other goroutines and other calls of Cancel for other ids may act in between. It is what the id
-- answers then, and every other id answers as it would without the request.
pub cancel_acquisition-get_acquisition :
    (between : List Event) (r other : HttpRequest) (m : State)
    → NoCancel (named r) between
    → (named r =ᵇ named other) ≡ false
    → ((cancel_acquisition between r m).1
        ≡ job_answer (
            Option.map
              (λ j. job_steps (mine (named r) between) (cancelled_job j))
              (get (named r) m)))
      × (get_acquisition r (cancel_acquisition between r m).0 ≡ (cancel_acquisition between r m).1)
      × (get_acquisition other (cancel_acquisition between r m).0
          ≡ get_acquisition other (play between m))
unfolding cancel_acquisition get_acquisition
cancel_acquisition-get_acquisition between r other m calm apart = (
  answer ∙ ap job_answer (cancelled-get (named r) between m calm),
  sym answer,
  ap job_answer (
      play_cong (named other) between (cancel (named r) m).0 m
        (get-cancel (named r) (named other) m ∙ rw apart refl)),
)
  where
    answer :
        (if (cancel (named r) m).1
          then job_answer (get (named r) (play between (cancel (named r) m).0))
          else job_answer none)
        ≡ job_answer (get (named r) (play between (cancel (named r) m).0))
    answer = rw (cancel-is_some (named r) m) (
        by_found _ (get (named r) m) (get (named r) (play between (cancel (named r) m).0))
          (cancelled-get (named r) between m calm))
