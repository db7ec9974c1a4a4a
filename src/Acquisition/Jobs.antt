-- ===== src/Acquisition/Jobs.antt =====
-- internal/acquisition/manager.go: what the steps of a goroutine do to its own job and to others.
use atlas_bridge.Base.{
  ◌≡◌, refl, List, [], ◌∷◌, Option, none, some, ◌∙◌, ap, if◌then◌else◌, Bool-cases, inl, inr,
}
use mathlib.Core.Option
use atlas_bridge.Base.Text.{Bytes, ◌=ᵇ◌}
use atlas_bridge.Base.Maps.{find, find-change}
use atlas_bridge.Acquisition.{Job, State, resolving, downloading, completed, failed, get}
use atlas_bridge.Acquisition.Steps.{
  Action, resolve, download, set_total, advance, complete, complete_published, fail, create_part,
  remove_part, publish, write_part, hundredths, advance_job, publish_part, append_part, apply,
}

-- What a step does to the job of its goroutine.
unfoldable pub job_step : Action → Job → Job
job_step resolve j = record j { status = resolving; progress = hundredths 2 }
job_step download j = record j { status = downloading; progress = hundredths 5 }
job_step (set_total n) j = record j { total_bytes = some n }
job_step (advance n) j = advance_job n j
job_step (complete n) j = record j { status = completed; progress = hundredths 100; bytes = n }
job_step (complete_published n) j = record j {
  status = completed;
  progress = hundredths 100;
  bytes = n;
}
job_step (fail msg) j = record j { status = failed; error = msg }
job_step create_part j = j
job_step remove_part j = j
job_step publish j = j
job_step (write_part chunk) j = j

unfoldable pub job_steps : List Action → Job → Job
unfolding job_step
job_steps [] j = j
job_steps (a ∷ rest) j = job_steps rest (job_step a j)

publish_part-jobs :
    (o : Option Bytes) (id : Bytes) (s : State) → (publish_part o id s).jobs ≡ s.jobs
publish_part-jobs none id s = refl
publish_part-jobs (some c) id s = refl

append_part-jobs :
    (o : Option Bytes) (id chunk : Bytes) (s : State) → (append_part o id chunk s).jobs ≡ s.jobs
append_part-jobs none id chunk s = refl
append_part-jobs (some c) id chunk s = refl

map_id {ℓ} : {A : Type ℓ} (o : Option A) → o ≡ Option.map (λ a. a) o
map_id none = refl
map_id (some a) = refl

-- A change of the job `id`, as another job sees it.
abbrev changed : Bytes → Bytes → (Job → Job) → Option Job → Option Job
changed id k f o = if id =ᵇ k then Option.map f o else o

changed_none : (id k : Bytes) (o : Option Job) → o ≡ changed id k (λ j. j) o
changed_none id k o = elim (Bool-cases (id =ᵇ k)) [ inl e ↦ rw e (map_id o) | inr e ↦ rw e refl ]

-- A step changes the job of its goroutine, and no other.
pub get-apply :
    (id k : Bytes) (a : Action) (s : State)
    → get k (apply id a s) ≡ (if id =ᵇ k then Option.map (job_step a) (get k s) else get k s)
unfolding get apply job_step
get-apply id k resolve s = find-change id k _ s.jobs
get-apply id k download s = find-change id k _ s.jobs
get-apply id k (set_total n) s = find-change id k _ s.jobs
get-apply id k (advance n) s = find-change id k _ s.jobs
get-apply id k (complete n) s = find-change id k _ s.jobs
get-apply id k (complete_published n) s =
    ap (find k) (publish_part-jobs (find id s.parts) id _) ∙ find-change id k _ s.jobs
get-apply id k (fail msg) s = find-change id k _ s.jobs
get-apply id k create_part s = changed_none id k (find k s.jobs)
get-apply id k remove_part s = changed_none id k (find k s.jobs)
get-apply id k publish s =
    ap (find k) (publish_part-jobs (find id s.parts) id s) ∙ changed_none id k (find k s.jobs)
get-apply id k (write_part chunk) s =
    ap (find k) (append_part-jobs (find id s.parts) id chunk s) ∙ changed_none id k (find k s.jobs)
