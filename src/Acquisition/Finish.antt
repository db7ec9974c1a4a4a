-- ===== src/Acquisition/Finish.antt =====
-- internal/acquisition/manager.go: every run comes to a last status, completed or failed.
use atlas_bridge.Base.{
  ℕ, ◌≡◌, refl, Bool, true, false, List, [], ◌∷◌, ◌++◌, Option, none, some, if◌then◌else◌, inl, inr,
  ◌⊎◌, Result, ok, err, ltb, ◌&&◌, ◌||◌, not, ◌+◌, length,
}
use atlas_bridge.Base.Text.{Bytes}
use atlas_bridge.Acquisition.{Job, Request, completed, failed, is_some}
use atlas_bridge.Acquisition.Steps.{Action, resolve, complete, complete_published, fail, publish}
use atlas_bridge.Acquisition.Run.{
  World, Disk, Read, ReadEnd, more, at_eof, broken, RemoteFile, Locator, LocatorKind, torrent_file,
  http, torrent_range, run, run_http, run_torrent, copy_loop, finish, unless, staged, announced,
  discard, removed, completed_torrent, by_source, with_provider, stage_torrent, downloaded,
  published, by_ending, unsafe_path, checked_format, valid_signature,
}
use atlas_bridge.Acquisition.Jobs.{job_step, job_steps}

abbrev pub is_terminal : Action → Bool
is_terminal (complete _) = true
is_terminal (complete_published _) = true
is_terminal (fail _) = true
is_terminal _ = false

-- The steps end with one that writes a last status, and perhaps the publication of the file.
pub data Finishes : List Action → Type 0 where
  ended : {a : Action} → is_terminal a ≡ true → Finishes (a ∷ [])
  ended_published : {a : Action} → is_terminal a ≡ true → Finishes (a ∷ publish ∷ [])
  later : {a : Action} {rest : List Action} → Finishes rest → Finishes (a ∷ rest)

removed-Finishes : (b : Bool) {rest : List Action} → Finishes rest → Finishes (removed b rest)
removed-Finishes true h = later h
removed-Finishes false h = h

discard-Finishes : (disk : Disk) (msg : Bytes) → Finishes (discard disk msg)
discard-Finishes disk msg = removed-Finishes disk.removes (ended refl)

unless-Finishes :
    (disk : Disk) (o : Option Bytes) {rest : List Action}
    → Finishes rest
    → Finishes (unless disk o rest)
unless-Finishes disk none h = h
unless-Finishes disk (some e) h = discard-Finishes disk e

torrent-Finishes : (b : Bool) (n : ℕ) → Finishes (completed_torrent b n ∷ [])
torrent-Finishes true n = ended refl
torrent-Finishes false n = ended refl

staged-Finishes : (o : Option Bytes) {rest : List Action} → Finishes rest → Finishes (staged o rest)
staged-Finishes none h = h
staged-Finishes (some e) h = ended refl

announced-Finishes :
    (o : Option ℕ) {rest : List Action} → Finishes rest → Finishes (announced o ++ rest)
announced-Finishes none h = h
announced-Finishes (some n) h = later h

branch-Finishes :
    (b : Bool) {x y : List Action} → Finishes x → Finishes y → Finishes (if b then x else y)
branch-Finishes true hx hy = hx
branch-Finishes false hx hy = hy

published-Finishes : (b : Bool) (n : ℕ) → Finishes (complete n ∷ published b)
published-Finishes true n = ended_published refl
published-Finishes false n = ended refl

finish-Finishes :
    (disk : Disk) (file_id : Bytes) (copied : ℕ) (content : Bytes)
    → Finishes (finish disk file_id copied content)
unfolding finish
finish-Finishes disk file_id copied content = unless-Finishes disk disk.sync_error (
    unless-Finishes disk disk.close_error (
      branch-Finishes
        (checked_format file_id && not (disk.signature_opened && valid_signature content file_id))
        (discard-Finishes disk _) (published-Finishes disk.published_opened copied)))

ending-Finishes :
    (disk : Disk) (e : ReadEnd) {loop done : List Action}
    → Finishes loop
    → Finishes done
    → Finishes (by_ending disk e loop done)
ending-Finishes disk more hl hd = hl
ending-Finishes disk at_eof hl hd = hd
ending-Finishes disk (broken msg) hl hd = discard-Finishes disk msg

copy_loop-Finishes :
    (w : World) (file_id : Bytes) (copied : ℕ) (content : Bytes) (rs : List Read)
    → Finishes (copy_loop w file_id copied content rs)
unfolding copy_loop
copy_loop-Finishes w file_id copied content [] = finish-Finishes w.disk file_id copied content
copy_loop-Finishes w file_id copied content (r ∷ rs) =
    let copied' = copied + length r.chunk in
    let content' = content ++ r.chunk in
    let rest =
      ending-Finishes w.disk r.ending (copy_loop-Finishes w file_id copied' content' rs)
        (finish-Finishes w.disk file_id copied' content') in
    branch-Finishes (ltb 0 (length r.chunk))
      (branch-Finishes (ltb 0 w.max_bytes && ltb w.max_bytes copied') (discard-Finishes w.disk _)
        (unless-Finishes w.disk (w.disk.write_error copied') (later (later rest))))
      rest

run_http-Finishes :
    (w : World) (file_id : Bytes) (opened : Result Bytes RemoteFile)
    → Finishes (run_http w file_id opened)
unfolding run_http
run_http-Finishes w file_id (err e) = ended refl
run_http-Finishes w file_id (ok remote) = announced-Finishes remote.size (
    staged-Finishes w.disk.mkdir_error
      (staged-Finishes w.disk.open_error (later (copy_loop-Finishes w file_id 0 [] remote.body))))

stage_torrent-Finishes :
    (disk : Disk) (file_id content : Bytes) (size : ℕ)
    → Finishes (stage_torrent disk file_id content size)
unfolding stage_torrent
stage_torrent-Finishes disk file_id content size = staged-Finishes disk.open_error (
    later (
      branch-Finishes
        (is_some (disk.write_error (length content))
          || is_some disk.sync_error
          || is_some disk.close_error)
        (discard-Finishes disk _)
        (later (
          branch-Finishes (disk.signature_opened && valid_signature content file_id)
            (torrent-Finishes disk.published_opened size) (discard-Finishes disk _)))))

downloaded-Finishes :
    (disk : Disk) (file_id : Bytes) (r : Result Bytes (Bytes × ℕ))
    → Finishes (downloaded disk file_id r)
downloaded-Finishes disk file_id (err e) = ended refl
downloaded-Finishes disk file_id (ok (content, size)) =
    stage_torrent-Finishes disk file_id content size

run_torrent-Finishes :
    (w : World) (file_id : Bytes) (locator : Locator) → Finishes (run_torrent w file_id locator)
unfolding run_torrent
run_torrent-Finishes w file_id locator =
    branch-Finishes (unsafe_path locator.path) (ended refl)
      (staged-Finishes w.torrent_dirs_error (downloaded-Finishes w.disk file_id w.torrent))

by_source-Finishes :
    (w : World) (file_id : Bytes) (opened : Result Bytes RemoteFile) (o : Option Locator)
    → Finishes (by_source w file_id opened o)
by_source-Finishes w file_id opened none = run_http-Finishes w file_id opened
by_source-Finishes w file_id opened (some locator) = by_kind locator.kind
  where
    by_kind :
        (k : LocatorKind)
        → Finishes (elim k [
          | torrent_file ↦ run_torrent w file_id locator
          | _ ↦ run_http w file_id opened
        ])
    by_kind torrent_file = run_torrent-Finishes w file_id locator
    by_kind http = run_http-Finishes w file_id opened
    by_kind torrent_range = run_http-Finishes w file_id opened

with_provider-Finishes :
    (w : World) (file_id : Bytes) (o : Option (Result Bytes RemoteFile))
    → Finishes (with_provider w file_id o)
with_provider-Finishes w file_id none = ended refl
with_provider-Finishes w file_id (some opened) =
    later (by_source-Finishes w file_id opened w.locator)

-- Whatever the environment answers, the steps of a run come to a last status.
pub run-Finishes : (w : World) (req : Request) → Finishes (run w req)
unfolding run
run-Finishes w req = later (with_provider-Finishes w req.file_id w.provider)

terminal_status :
    (a : Action) (j : Job)
    → is_terminal a ≡ true
    → ((job_step a j).status ≡ completed) ⊎ ((job_step a j).status ≡ failed)
unfolding job_step
terminal_status (complete n) j e = inl refl
terminal_status (complete_published n) j e = inl refl
terminal_status (fail msg) j e = inr refl
terminal_status resolve j e = cc
terminal_status _ j e = cc

-- The job of a run ends completed or failed.
pub job_steps-Finishes :
    (steps : List Action) (j : Job)
    → Finishes steps
    → ((job_steps steps j).status ≡ completed) ⊎ ((job_steps steps j).status ≡ failed)
unfolding job_steps
job_steps-Finishes _ j (ended {a} e) = terminal_status a j e
job_steps-Finishes _ j (ended_published {a} e) = terminal_status a j e
job_steps-Finishes _ j (later {a} {rest} h) = job_steps-Finishes rest (job_step a j) h
