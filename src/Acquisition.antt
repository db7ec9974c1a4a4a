-- ===== src/Acquisition.antt =====
-- internal/acquisition/manager.go and the types of internal/model/model.go that it keeps: the jobs,
-- their lifecycle, and the operations of the HTTP API on them. A method runs under the manager's
-- lock, so it is one step on the state. The float64 `Progress` is the exact fraction that the code
-- computes, as numerator and denominator.
mod Tests
pub mod Steps
pub mod Run
pub mod Jobs
pub mod Finish
pub mod Cancel
pub mod Create
pub mod Outcome
pub mod Copy
pub mod Download
use atlas_bridge.Base.{ℕ, ◌+◌, ◌*◌, Bool, true, false, [], Option, none, some, ltb, if◌then◌else◌}
use atlas_bridge.Base.Text.{Bytes}
use atlas_bridge.Base.Maps.{Map, find, store, remove, change}

pub data Status : Type 0 where
  queued resolving downloading completed failed cancelled : Status

pub record Fraction : Type 0 where
  pub numerator : ℕ
  pub denominator : ℕ

-- model.Acquisition; its `Format` is never set.
pub record Job : Type 0 where
  pub id : Bytes
  pub provider_id : Bytes
  pub external_id : Bytes
  pub file_id : Bytes
  pub status : Status
  pub progress : Fraction
  pub bytes : ℕ
  pub total_bytes : Option ℕ
  pub error : Bytes

pub record Request : Type 0 where
  pub provider_id : Bytes
  pub external_id : Bytes
  pub file_id : Bytes

-- The manager's maps, and the part files of its staging folder by the id of their job.
pub record State : Type 0 where
  pub jobs : Map Job
  pub files : Map Bytes
  pub parts : Map Bytes

unfoldable pub new_manager : State
new_manager = record { jobs = []; files = []; parts = [] }

unfoldable pub new_job : Bytes → Request → Job
new_job id req = record {
  id = id;
  provider_id = req.provider_id;
  external_id = req.external_id;
  file_id = req.file_id;
  status = queued;
  progress = record { numerator = 0; denominator = 1 };
  bytes = 0;
  total_bytes = none;
  error = [];
}

-- The critical section of Create, with the id that crypto/rand gave.
unfoldable pub add_job : Bytes → Request → State → State
unfolding new_job store
add_job id req s = record s { jobs = store id (new_job id req) s.jobs }

unfoldable pub update : Bytes → (Job → Job) → State → State
unfolding change
update id fn s = record s { jobs = change id fn s.jobs }

-- fail
unfoldable pub fail_job : Bytes → Bytes → State → State
unfolding update
fail_job id msg s = update id (λ j. record j { status = failed; error = msg }) s

-- Get
unfoldable pub get : Bytes → State → Option Job
unfolding find
get id s = find id s.jobs

abbrev pub is_some {ℓ} : {A : Type ℓ} → Option A → Bool
is_some none = false
is_some (some _) = true

-- Cancel
unfoldable pub cancel : Bytes → State → State × Bool
unfolding update get
cancel id s =
    if is_some (get id s)
    then (update id (λ j. record j { status = cancelled }) s, true)
    else (s, false)

-- File
unfoldable pub file : Bytes → State → Option Bytes
unfolding find
file id s = find id s.files
