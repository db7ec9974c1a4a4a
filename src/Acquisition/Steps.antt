-- ===== src/Acquisition/Steps.antt =====
-- internal/acquisition/manager.go: the steps of a job's goroutine, and of several goroutines in any
-- order. A step is one critical section of the manager's lock, or one operation on the part file.
use atlas_bridge.Base.{ℕ, zero, suc, ◌+◌, ◌*◌, List, [], ◌∷◌, ◌++◌, Option, none, some}
use atlas_bridge.Base.Text.{Bytes}
use atlas_bridge.Base.Maps.{find, store, remove}
use atlas_bridge.Acquisition.{
  Job, State, Fraction, resolving, downloading, completed, update, fail_job, cancel,
}

pub data Action : Type 0 where
  resolve download : Action
  set_total advance complete complete_published : ℕ → Action
  fail : Bytes → Action
  create_part remove_part publish : Action
  write_part : Bytes → Action

abbrev pub hundredths : ℕ → Fraction
hundredths n = record { numerator = n; denominator = 100 }

-- .05 + .9 * float64(copied) / float64(total), if the total is known and positive
unfoldable pub progress_at : ℕ → Option ℕ → Fraction → Fraction
progress_at copied none old = old
progress_at copied (some zero) old = old
progress_at copied (some (suc t)) old = record {
  numerator = 5 * suc t + 90 * copied;
  denominator = 100 * suc t;
}

unfoldable pub advance_job : ℕ → Job → Job
unfolding progress_at
advance_job copied j = record j {
  bytes = copied;
  progress = progress_at copied j.total_bytes j.progress;
}

abbrev pub publish_part : Option Bytes → Bytes → State → State
publish_part none id s = s
publish_part (some content) id s = record s { files = store id content s.files }

abbrev pub append_part : Option Bytes → Bytes → Bytes → State → State
append_part none id chunk s = s
append_part (some content) id chunk s = record s { parts = store id (content ++ chunk) s.parts }

-- What a step does, for the job `id`.
unfoldable pub apply : Bytes → Action → State → State
unfolding update fail_job find store remove advance_job
apply id resolve s = update id (λ j. record j { status = resolving; progress = hundredths 2 }) s
apply id download s = update id (λ j. record j { status = downloading; progress = hundredths 5 }) s
apply id (set_total n) s = update id (λ j. record j { total_bytes = some n }) s
apply id (advance n) s = update id (advance_job n) s
apply id (complete n) s =
    update id (λ j. record j { status = completed; progress = hundredths 100; bytes = n }) s
apply id (fail msg) s = fail_job id msg s
apply id create_part s = record s { parts = store id [] s.parts }
apply id remove_part s = record s { parts = remove id s.parts }
apply id publish s = publish_part (find id s.parts) id s
apply id (complete_published n) s =
    publish_part (find id s.parts) id
      (update id (λ j. record j { status = completed; progress = hundredths 100; bytes = n }) s)
apply id (write_part chunk) s = append_part (find id s.parts) id chunk s

unfoldable pub apply_all : Bytes → List Action → State → State
unfolding apply
apply_all id [] s = s
apply_all id (a ∷ rest) s = apply_all id rest (apply id a s)

-- What happens to the manager: a step of the goroutine of a job, or a call of Cancel.
pub data Event : Type 0 where
  step : Bytes → Action → Event
  cancelling : Bytes → Event

unfoldable pub play : List Event → State → State
unfolding apply cancel
play [] s = s
play (step id a ∷ es) s = play es (apply id a s)
play (cancelling id ∷ es) s = play es (cancel id s).0
