-- ===== src/Acquisition/Download.antt =====
-- internal/acquisition/manager.go: a run over HTTP, from the first read to the last status.
use atlas_bridge.Base.{◌≡◌, refl, List, [], ◌∷◌, ◌++◌, Option, none, some, ◌∙◌, ap, sym, ok, subst}
use atlas_bridge.Base.Text.{Bytes, =ᵇ_refl}
use atlas_bridge.Base.Maps.{find, find-store, find-remove}
use atlas_bridge.Acquisition.{Job, Request, State, get}
use atlas_bridge.Acquisition.Steps.{
  Action, resolve, download, complete_published, create_part, remove_part, publish, write_part,
  apply, apply_all, publish_part, append_part,
}
use atlas_bridge.Acquisition.Run.{World, RemoteFile, run, by_source, with_provider}
use atlas_bridge.Acquisition.Jobs.{job_step, job_steps, get-apply}
use atlas_bridge.Acquisition.Copy.{run_http-Settles}
use atlas_bridge.Acquisition.Outcome.{part_step, part_steps, whole_body, Settled, Settles}

publish_part-parts :
    (o : Option Bytes) (id : Bytes) (s : State) → (publish_part o id s).parts ≡ s.parts
publish_part-parts none id s = refl
publish_part-parts (some c) id s = refl

append_part-parts :
    (o : Option Bytes) (id chunk : Bytes) (s : State)
    → find id s.parts ≡ o
    → find id (append_part o id chunk s).parts ≡ part_step (write_part chunk) o
unfolding part_step
append_part-parts none id chunk s e = e
append_part-parts (some c) id chunk s e =
    find-store id id (c ++ chunk) s.parts ∙ rw (=ᵇ_refl id) refl

-- A step changes the part file of its job as `part_step` says.
find-apply :
    (id : Bytes) (a : Action) (s : State)
    → find id (apply id a s).parts ≡ part_step a (find id s.parts)
unfolding apply part_step
find-apply id create_part s = find-store id id [] s.parts ∙ rw (=ᵇ_refl id) refl
find-apply id remove_part s = find-remove id id s.parts ∙ rw (=ᵇ_refl id) refl
find-apply id publish s = ap (find id) (publish_part-parts (find id s.parts) id s)
find-apply id (complete_published n) s = ap (find id) (publish_part-parts (find id s.parts) id _)
find-apply id (write_part chunk) s = append_part-parts (find id s.parts) id chunk s refl
find-apply id _ s = refl

apply_all-parts :
    (id : Bytes) (steps : List Action) (s : State)
    → find id (apply_all id steps s).parts ≡ part_steps steps (find id s.parts)
unfolding apply_all part_steps
apply_all-parts id [] s = refl
apply_all-parts id (a ∷ rest) s =
    apply_all-parts id rest (apply id a s) ∙ ap (part_steps rest) (find-apply id a s)

apply_all-jobs :
    (id : Bytes) (steps : List Action) (s : State) {j : Job}
    → get id s ≡ some j
    → get id (apply_all id steps s) ≡ some (job_steps steps j)
unfolding apply_all job_steps
apply_all-jobs id [] s e = e
apply_all-jobs id (a ∷ rest) s {j} e =
    apply_all-jobs id rest (apply id a s) (get-apply id id a s ∙ rw (=ᵇ_refl id, e) refl)

run-Settles :
    (w : World) (req : Request) (remote : RemoteFile) (j : Job)
    → w.provider ≡ some (ok remote)
    → w.locator ≡ none
    → Settles w req.file_id (whole_body remote.body) (run w req) none j
unfolding run part_steps job_steps
run-Settles w req remote j answer no_locator =
    subst (λ o. Settles w file_id body (resolve ∷ with_provider w file_id o) none j) (sym answer)
      (subst
        (λ l.
          Settles w file_id body (resolve ∷ download ∷ by_source w file_id (ok remote) l) none j)
        (sym no_locator)
        (run_http-Settles w file_id remote (job_step download (job_step resolve j))))
  where
    file_id : Bytes
    file_id = req.file_id

    body : Option Bytes
    body = whole_body remote.body

-- A run whose provider answers, and that has no torrent locator, leaves one of these states. The job is
-- completed: then the body was read to its end with no error, the part file holds the whole of it, the
-- count is its length, it is within the limit if there is one, and under a file id that is "epub" or
-- "pdf" in any case it has passed the signature test. Or the job has failed: then there is no part file,
-- unless os.Remove fails, which the code ignores. No failure of the disk or of the body leads to
-- anything else.
pub run_settles :
    (w : World) (req : Request) (id : Bytes) (s : State) (remote : RemoteFile) {j : Job}
    → w.provider ≡ some (ok remote)
    → w.locator ≡ none
    → get id s ≡ some j
    → find id s.parts ≡ none
    → (j' : Job) × (get id (apply_all id (run w req) s) ≡ some j')
      × Settled w req.file_id
          (whole_body remote.body)
          (find id (apply_all id (run w req) s).parts)
          j'
run_settles w req id s remote {j} answer no_locator found fresh = (
  job_steps (run w req) j,
  apply_all-jobs id (run w req) s found,
  rw (apply_all-parts id (run w req) s, fresh) (run-Settles w req remote j answer no_locator),
)
