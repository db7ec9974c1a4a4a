-- ===== src/Acquisition/Tests.antt =====
-- manager.go on concrete downloads, and the theorems at inputs that meet their hypotheses.
use atlas_bridge.Base.{◌≡◌, refl, true, List, [], ◌∷◌, none, some, ok, err, ◌⊎◌}
use atlas_bridge.Base.Text.{Bytes, codes}
use atlas_bridge.Base.Maps.{find}
use atlas_bridge.Acquisition.{
  Job, Request, State, queued, completed, failed, new_manager, add_job, get, cancel,
}
use atlas_bridge.Acquisition.Steps.{
  resolve, download, set_total, advance, complete, fail, create_part, publish, write_part, Event,
  step, cancelling, play, apply_all,
}
use atlas_bridge.Acquisition.Run.{World, Disk, more, at_eof, RemoteFile, run}
use atlas_bridge.Acquisition.Jobs.{job_steps}
use atlas_bridge.Acquisition.Finish.{later, ended_published}
use atlas_bridge.Acquisition.Cancel.{mine, play_ends}
use atlas_bridge.Acquisition.Outcome.{Settled}
use atlas_bridge.Acquisition.Download.{run_settles}

abbrev good_disk : Disk
good_disk = record {
  mkdir_error = none;
  open_error = none;
  write_error = λ _. none;
  sync_error = none;
  close_error = none;
  removes = true;
  signature_opened = true;
  published_opened = true;
}

abbrev pdf_body : RemoteFile
pdf_body = record {
  size = some 8;
  body =
      record { chunk = codes "%PDF-"; ending = more }
      ∷ record { chunk = codes "abc"; ending = at_eof }
      ∷ [];
}

abbrev world_of : RemoteFile → World
world_of remote = record {
  max_bytes = 100;
  provider = some (ok remote);
  locator = none;
  torrent = err [];
  torrent_dirs_error = none;
  disk = good_disk;
}

abbrev request_of : Bytes → Request
request_of file_id = record { provider_id = codes "p"; external_id = codes "x"; file_id = file_id }

abbrev queued_job : Bytes → Job
queued_job file_id = record {
  id = codes "id";
  provider_id = codes "p";
  external_id = codes "x";
  file_id = file_id;
  status = queued;
  progress = record { numerator = 0; denominator = 1 };
  bytes = 0;
  total_bytes = none;
  error = [];
}

-- The manager behind `add_job` of that request.
abbrev started : Bytes → State
started file_id = record { jobs = (codes "id", queued_job file_id) ∷ []; files = []; parts = [] }

add_job-started :
    add_job (codes "id") (request_of (codes "pdf")) new_manager ≡ started (codes "pdf")
unfolding add_job new_manager
add_job-started = refl

get-started : (file_id : Bytes) → get (codes "id") (started file_id) ≡ some (queued_job file_id)
unfolding get
get-started file_id = refl

find-started : (file_id : Bytes) → find (codes "id") (started file_id).parts ≡ none
unfolding find
find-started file_id = refl

-- A whole run: the body is stored, the job is completed and the file is published.
pdf_run :
    let s =
      apply_all
        (codes "id")
        (run (world_of pdf_body) (request_of (codes "pdf")))
        (started (codes "pdf")) in
    (find (codes "id") s.files ≡ some (codes "%PDF-abc"))
    × (find (codes "id") s.parts ≡ some (codes "%PDF-abc"))
unfolding run apply_all find
pdf_run = (refl, refl)

cancel_reports : (cancel (codes "id") (started (codes "pdf"))).1 ≡ true
unfolding cancel
cancel_reports = refl

-- The run of `pdf_run`, with the cancellation of its job before the first write, and a step of another
-- job.
abbrev cancelled_midway : List Event
cancelled_midway =
    step (codes "id") resolve
    ∷ step (codes "id") download
    ∷ step (codes "id") (set_total 8)
    ∷ step (codes "id") create_part
    ∷ cancelling (codes "id")
    ∷ step (codes "other") (fail [])
    ∷ step (codes "id") (write_part (codes "%PDF-"))
    ∷ step (codes "id") (advance 5)
    ∷ step (codes "id") (write_part (codes "abc"))
    ∷ step (codes "id") (advance 8)
    ∷ step (codes "id") (complete 8)
    ∷ step (codes "id") publish
    ∷ []

mine-midway :
    mine (codes "id") cancelled_midway ≡ run (world_of pdf_body) (request_of (codes "pdf"))
unfolding run
mine-midway = refl

play_ends_example :
    (j' : Job) × (get (codes "id") (play cancelled_midway (started (codes "pdf"))) ≡ some j')
    × (j'
        ≡ job_steps (run (world_of pdf_body) (request_of (codes "pdf"))) (queued_job (codes "pdf")))
    × ((j'.status ≡ completed) ⊎ (j'.status ≡ failed))
play_ends_example =
    play_ends (world_of pdf_body) (request_of (codes "pdf")) (codes "id") cancelled_midway
      (started (codes "pdf")) (get-started (codes "pdf")) mine-midway
      (λ _. later (later (later (later (ended_published refl)))), tt)

run_settles_example :
    (j' : Job) × (get (codes "id") (
        apply_all
          (codes "id")
          (run (world_of pdf_body) (request_of (codes "pdf")))
          (started (codes "pdf")))
      ≡ some j')
    × Settled
        (world_of pdf_body)
        (codes "pdf")
        (some (codes "%PDF-abc"))
        (find
          (codes "id")
          (apply_all
            (codes "id")
            (run (world_of pdf_body) (request_of (codes "pdf")))
            (started (codes "pdf"))).parts)
        j'
run_settles_example =
    run_settles (world_of pdf_body) (request_of (codes "pdf")) (codes "id") (started (codes "pdf"))
      pdf_body refl refl (get-started (codes "pdf")) (find-started (codes "pdf"))
