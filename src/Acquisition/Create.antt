-- ===== src/Acquisition/Create.antt =====
-- internal/acquisition/manager.go: Create, which starts the goroutine of its job and returns a copy of the
-- job that is read without the lock; other goroutines, and this one, act in between.
use atlas_bridge.Base.{
  ◌≡◌, refl, Bool, false, List, [], ◌∷◌, ◌++◌, Option, none, some, ◌∙◌, ap, if◌then◌else◌, sym,
}
use mathlib.Core.Option
use atlas_bridge.Base.Text.{Bytes, ◌=ᵇ◌, =ᵇ_refl}
use atlas_bridge.Base.Maps.{find-store}
use atlas_bridge.Acquisition.{Job, Status, Request, State, new_job, add_job, cancel, get}
use atlas_bridge.Acquisition.Steps.{Action, apply, Event, step, cancelling, play}
use atlas_bridge.Acquisition.Run.{World, run}
use atlas_bridge.Acquisition.Jobs.{job_step, job_steps, get-apply}
use atlas_bridge.Acquisition.Cancel.{mine, InTime, get-cancel, get-play, with_status}

-- The goroutine that Create starts: run, if the manager has providers.
abbrev pub goroutine : Bool → World → Request → List Action
goroutine has_providers w req = if has_providers then run w req else []

-- What the pointer to the new job leads to. No job is ever taken out of the map.
abbrev pub copied : Job → Option Job → Job
copied j none = j
copied j (some now) = now

pub record Created : Type 0 where
  pub state : State
  pub returned : Job
  -- The steps of the goroutine that was started, from its first one.
  pub started : List Action

-- Create: `between` is what happens between its critical section and the copy of the job, steps of the
-- new goroutine among them.
unfoldable pub create : Bool → World → Bytes → Request → List Event → State → Created
unfolding add_job play get run
create has_providers w id req between s =
    let later = play between (add_job id req s) in
    record {
      state = later;
      returned = copied (new_job id req) (get id later);
      started = goroutine has_providers w req;
    }

-- No call of Cancel for the job `id`.
abbrev pub NoCancel : Bytes → List Event → Type 0
NoCancel id [] = Unit
NoCancel id (step k a ∷ es) = NoCancel id es
NoCancel id (cancelling k ∷ es) = ((k =ᵇ id) ≡ false) × NoCancel id es

NoCancel-InTime : (id : Bytes) (es : List Event) → NoCancel id es → InTime id es
NoCancel-InTime id [] h = tt
NoCancel-InTime id (step k a ∷ es) h = NoCancel-InTime id es h
NoCancel-InTime id (cancelling k ∷ es) (other, h) =
    ((λ own. cc (own, other)), NoCancel-InTime id es h)

pub get-play-NoCancel :
    (id : Bytes) (es : List Event) (s : State)
    → NoCancel id es
    → get id (play es s) ≡ Option.map (job_steps (mine id es)) (get id s)
get-play-NoCancel id es s h = get-play id es s (NoCancel-InTime id es h)

-- What happens to a job does not depend on the others.
pub play_cong :
    (k : Bytes) (es : List Event) (s s' : State)
    → get k s ≡ get k s'
    → get k (play es s) ≡ get k (play es s')
unfolding play
play_cong k [] s s' e = e
play_cong k (step id a ∷ es) s s' e = play_cong k es (apply id a s) (apply id a s') (
    get-apply id k a s
    ∙ (ap (λ o. if id =ᵇ k then Option.map (job_step a) o else o) e ∙ sym (get-apply id k a s')))
play_cong k (cancelling id ∷ es) s s' e = play_cong k es (cancel id s).0 (cancel id s').0 (
    get-cancel id k s
    ∙ (ap (λ o. if id =ᵇ k then Option.map (with_status Status.cancelled) o else o) e
        ∙ sym (get-cancel id k s')))

pub get-add_job :
    (id k : Bytes) (req : Request) (s : State)
    → get k (add_job id req s) ≡ (if id =ᵇ k then some (new_job id req) else get k s)
unfolding get add_job
get-add_job id k req s = find-store id k (new_job id req) s.jobs

pub get-add_job_self :
    (id : Bytes) (req : Request) (s : State) → get id (add_job id req s) ≡ some (new_job id req)
get-add_job_self id req s = get-add_job id id req s ∙ rw (=ᵇ_refl id) refl

pub job_steps-append :
    (xs ys : List Action) (j : Job) → job_steps (xs ++ ys) j ≡ job_steps ys (job_steps xs j)
unfolding job_steps
job_steps-append [] ys j = refl
job_steps-append (x ∷ xs) ys j = job_steps-append xs ys (job_step x j)
