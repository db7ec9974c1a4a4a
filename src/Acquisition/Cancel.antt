-- ===== src/Acquisition/Cancel.antt =====
-- internal/acquisition/manager.go: Cancel against the goroutine of the job, in any interleaving with
-- the goroutines of other jobs.
use atlas_bridge.Base.{
  ◌≡◌, refl, Bool, true, false, List, [], ◌∷◌, Option, none, some, ◌∙◌, ap, if◌then◌else◌,
  Bool-cases, Option-cases, inl, inr, ◌⊎◌,
}
use mathlib.Core.Option
use atlas_bridge.Base.Text.{Bytes, ◌=ᵇ◌, =ᵇ→eq}
use atlas_bridge.Base.Maps.{Map, find, find-change}
use atlas_bridge.Acquisition.{
  Job, Status, Request, State, completed, failed, cancelled, update, cancel, get,
}
use atlas_bridge.Acquisition.Steps.{
  Action, resolve, download, complete, complete_published, fail, advance_job, apply, Event, step,
  cancelling, play,
}
use atlas_bridge.Acquisition.Run.{World, run}
use atlas_bridge.Acquisition.Jobs.{job_step, job_steps, get-apply}
use atlas_bridge.Acquisition.Finish.{
  Finishes, ended, ended_published, later, is_terminal, run-Finishes, job_steps-Finishes,
}

abbrev pub with_status : Status → Job → Job
with_status st j = record j { status = st }

-- The steps of the job `id` in a schedule.
abbrev pub mine : Bytes → List Event → List Action
mine id [] = []
mine id (step k a ∷ es) = if k =ᵇ id then a ∷ mine id es else mine id es
mine id (cancelling k ∷ es) = mine id es

-- Each call of Cancel for the job `id` comes before the last status of its run.
abbrev pub InTime : Bytes → List Event → Type 0
InTime id [] = Unit
InTime id (step k a ∷ es) = InTime id es
InTime id (cancelling k ∷ es) = ((k =ᵇ id) ≡ true → Finishes (mine id es)) × InTime id es

-- A step reads no status.
job_step-with_status :
    (a : Action) (st : Status) (j : Job)
    → (st' : Status) × (job_step a (with_status st j) ≡ with_status st' (job_step a j))
unfolding job_step advance_job
job_step-with_status resolve st j = ((job_step resolve j).status, refl)
job_step-with_status download st j = ((job_step download j).status, refl)
job_step-with_status (complete n) st j = (completed, refl)
job_step-with_status (complete_published n) st j = (completed, refl)
job_step-with_status (fail msg) st j = (failed, refl)
job_step-with_status _ st j = (st, refl)

terminal-with_status :
    (a : Action) (st : Status) (j : Job)
    → is_terminal a ≡ true
    → job_step a (with_status st j) ≡ job_step a j
unfolding job_step
terminal-with_status (complete n) st j e = refl
terminal-with_status (complete_published n) st j e = refl
terminal-with_status (fail msg) st j e = refl
terminal-with_status resolve st j e = cc
terminal-with_status _ st j e = cc

-- A run that comes to a last status forgets the status that it was given.
job_steps-with_status :
    (steps : List Action) (st : Status) (j : Job)
    → Finishes steps
    → job_steps steps (with_status st j) ≡ job_steps steps j
unfolding job_steps
job_steps-with_status _ st j (ended {a} e) = terminal-with_status a st j e
job_steps-with_status _ st j (ended_published {a} e) = terminal-with_status a st j e
job_steps-with_status _ st j (later {a} {rest} h) =
    let (st', e) = job_step-with_status a st j in
    ap (job_steps rest) e ∙ job_steps-with_status rest st' (job_step a j) h

missing :
    (k id : Bytes) (m : Map Job)
    → find k m ≡ none
    → find id m ≡ (if k =ᵇ id then Option.map (with_status cancelled) (find id m) else find id m)
missing k id m e = elim (Bool-cases (k =ᵇ id)) [
  | inl p ↦ rw p (rw (← =ᵇ→eq k id p) (rw e refl))
  | inr p ↦ rw p refl
]

pub get-cancel :
    (k id : Bytes) (s : State)
    → get id (cancel k s).0
      ≡ (if k =ᵇ id then Option.map (with_status cancelled) (get id s) else get id s)
unfolding cancel get update
get-cancel k id s = elim (Option-cases (find k s.jobs)) [
  | inl e ↦ rw e (missing k id s.jobs e)
  | inr (j, e) ↦ rw e (find-change k id (with_status cancelled) s.jobs)
]

map-map :
    (f g : Job → Job) (o : Option Job) → Option.map f (Option.map g o) ≡ Option.map (λ j. f (g j)) o
map-map f g none = refl
map-map f g (some j) = refl

map_cong :
    (f g : Job → Job) (o : Option Job) → ((j : Job) → f j ≡ g j) → Option.map f o ≡ Option.map g o
map_cong f g none h = refl
map_cong f g (some j) h = ap some (h j)

map_id : (f : Job → Job) (o : Option Job) → ((j : Job) → j ≡ f j) → o ≡ Option.map f o
map_id f none h = refl
map_id f (some j) h = ap some (h j)

-- One step in front of a run, by its own goroutine or by another.
map-mine :
    (own : Bool) (a : Action) (steps : List Action) (o : Option Job)
    → Option.map (job_steps steps) (if own then Option.map (job_step a) o else o)
      ≡ Option.map (job_steps (if own then a ∷ steps else steps)) o
unfolding job_steps
map-mine true a steps o = map-map (job_steps steps) (job_step a) o
map-mine false a steps o = refl

-- One cancellation in front of a run that is still to finish.
map-cancelled :
    (own : Bool) (steps : List Action) (o : Option Job)
    → (own ≡ true → Finishes steps)
    → Option.map (job_steps steps) (if own then Option.map (with_status cancelled) o else o)
      ≡ Option.map (job_steps steps) o
map-cancelled true steps o h =
    map-map (job_steps steps) (with_status cancelled) o
    ∙ map_cong _ (job_steps steps) o (λ j. job_steps-with_status steps cancelled j (h refl))
map-cancelled false steps o h = refl

-- For every schedule of steps and cancellations, of any jobs: a job whose cancellations come before
-- the last status of its run ends as its own steps alone make it.
pub get-play :
    (id : Bytes) (es : List Event) (s : State)
    → InTime id es
    → get id (play es s) ≡ Option.map (job_steps (mine id es)) (get id s)
unfolding play
get-play id [] s h = map_id _ (get id s) (unfold job_steps in λ j. refl)
get-play id (step k a ∷ es) s h =
    get-play id es (apply k a s) h
    ∙ (ap (Option.map (job_steps (mine id es))) (get-apply k id a s)
        ∙ map-mine (k =ᵇ id) a (mine id es) (get id s))
get-play id (cancelling k ∷ es) s h =
    get-play id es (cancel k s).0 h.1
    ∙ (ap (Option.map (job_steps (mine id es))) (get-cancel k id s)
        ∙ map-cancelled (k =ᵇ id) (mine id es) (get id s) h.0)

-- A job whose run is played to its end, with any calls of Cancel before the last status and any
-- events of other jobs in between, is completed or failed at the end, and never cancelled.
pub play_ends :
    (w : World) (req : Request) (id : Bytes) (es : List Event) (s : State) {j : Job}
    → get id s ≡ some j
    → mine id es ≡ run w req
    → InTime id es
    → (j' : Job) × (get id (play es s) ≡ some j')
      × (j' ≡ job_steps (run w req) j)
      × ((j'.status ≡ completed) ⊎ (j'.status ≡ failed))
play_ends w req id es s {j} found own h = (
  job_steps (run w req) j,
  get-play id es s h ∙ rw (found, own),
  refl,
  job_steps-Finishes (run w req) j (run-Finishes w req),
)
