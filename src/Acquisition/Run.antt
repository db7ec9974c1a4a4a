-- ===== src/Acquisition/Run.antt =====
-- internal/acquisition/manager.go: the goroutine of a job, run, runTorrent and validSignature, as the
-- list of the steps that it takes. Each step is one critical section of the manager's lock, or one
-- operation on the job's part file; other goroutines act between them. What the environment returns
-- (the provider, the response body's reads, the disk, the torrent client) is given as data: a body is
-- the finite list of its reads, and ends by io.EOF.
use atlas_bridge.Base.{
  ℕ, ◌+◌, Bool, true, false, ◌&&◌, ◌||◌, not, List, [], ◌∷◌, ◌++◌, Option, none, some, ltb, leb,
  if◌then◌else◌, length, take, Result, ok, err,
}
use atlas_bridge.Base.Text.{Bytes, codes, ◌=ᵇ◌, equal_fold, contains, has_prefix}
use atlas_bridge.Acquisition.Steps.{
  Action, resolve, download, set_total, advance, complete, complete_published, fail, create_part,
  remove_part, publish, write_part,
}
use atlas_bridge.Acquisition.{Request, is_some}

-- What came with the bytes of a Read.
pub data ReadEnd : Type 0 where
  more at_eof : ReadEnd
  broken : Bytes → ReadEnd

pub record Read : Type 0 where
  pub chunk : Bytes
  pub ending : ReadEnd

-- model.RemoteFile, what the manager uses of it
pub record RemoteFile : Type 0 where
  pub size : Option ℕ
  pub body : List Read

pub data LocatorKind : Type 0 where
  http torrent_file torrent_range : LocatorKind

-- catalog.Locator, what the manager uses of it
pub record Locator : Type 0 where
  pub kind : LocatorKind
  pub metainfo : Bytes
  pub path : Bytes

-- The errors of the operations on the part file, whether os.Remove succeeds, and whether os.Open does
-- for the signature and for the publication. A write that fails writes nothing.
pub record Disk : Type 0 where
  pub mkdir_error : Option Bytes
  pub open_error : Option Bytes
  pub write_error : ℕ → Option Bytes
  pub sync_error : Option Bytes
  pub close_error : Option Bytes
  pub removes : Bool
  pub signature_opened : Bool
  pub published_opened : Bool

-- What the environment answers to one run. `locator` is what GetLocator found, if the manager has
-- torrent sources and the lookup succeeded; `torrent` is what DownloadFile returned.
pub record World : Type 0 where
  pub max_bytes : ℕ
  pub provider : Option (Result Bytes RemoteFile)
  pub locator : Option Locator
  pub torrent : Result Bytes (Bytes × ℕ)
  pub torrent_dirs_error : Option Bytes
  pub disk : Disk

-- validSignature on a file's content
unfoldable pub valid_signature : Bytes → Bytes → Bool
valid_signature content format =
    let b = take 8 content in
    if format =ᵇ codes "pdf"
    then leb 5 (length b) && (take 5 b =ᵇ codes "%PDF-")
    else leb 4 (length b) && (take 2 b =ᵇ codes "PK")

abbrev pub checked_format : Bytes → Bool
checked_format file_id = equal_fold file_id (codes "epub") || equal_fold file_id (codes "pdf")

-- os.Remove, whose error is dropped
abbrev pub removed : Bool → List Action → List Action
removed true rest = remove_part ∷ rest
removed false rest = rest

abbrev pub discard : Disk → Bytes → List Action
discard disk msg = removed disk.removes (fail msg ∷ [])

abbrev pub published : Bool → List Action
published true = publish ∷ []
published false = []

-- An error before the part file exists.
abbrev pub staged : Option Bytes → List Action → List Action
staged none rest = rest
staged (some e) rest = fail e ∷ []

abbrev pub announced : Option ℕ → List Action
announced none = []
announced (some n) = set_total n ∷ []

-- After the loop: the signature, and the end of the job.
unfoldable pub conclude : Disk → Bytes → ℕ → Bytes → List Action
unfolding valid_signature equal_fold
conclude disk file_id copied content =
    if checked_format file_id && not (disk.signature_opened && valid_signature content file_id)
    then discard disk (codes "downloaded file failed signature validation")
    else complete copied ∷ published disk.published_opened

abbrev pub unless : Disk → Option Bytes → List Action → List Action
unless disk none rest = rest
unless disk (some e) rest = discard disk e

-- Sync and Close, each with its error.
unfoldable pub finish : Disk → Bytes → ℕ → Bytes → List Action
unfolding conclude
finish disk file_id copied content =
    unless disk disk.sync_error
      (unless disk disk.close_error (conclude disk file_id copied content))

abbrev pub by_ending : Disk → ReadEnd → List Action → List Action → List Action
by_ending disk more loop done = loop
by_ending disk at_eof loop done = done
by_ending disk (broken e) loop done = discard disk e

-- The loop over the body's reads, with the bytes and the content copied so far.
unfoldable pub copy_loop : World → Bytes → ℕ → Bytes → List Read → List Action
unfolding finish
copy_loop w file_id copied content [] = finish w.disk file_id copied content
copy_loop w file_id copied content (r ∷ rs) =
    let copied' = copied + length r.chunk in
    let content' = content ++ r.chunk in
    let rest : List Action =
      by_ending w.disk r.ending (copy_loop w file_id copied' content' rs)
        (finish w.disk file_id copied' content') in
    if ltb 0 (length r.chunk)
    then if ltb 0 w.max_bytes && ltb w.max_bytes copied'
      then discard w.disk (codes "download exceeds configured limit")
      else unless w.disk (w.disk.write_error copied') (write_part r.chunk ∷ advance copied' ∷ rest)
    else rest

-- run, from the answer of OpenFile on
unfoldable pub run_http : World → Bytes → Result Bytes RemoteFile → List Action
unfolding copy_loop
run_http w file_id (err e) = fail e ∷ []
run_http w file_id (ok remote) =
    announced remote.size
    ++ staged w.disk.mkdir_error
        (staged w.disk.open_error (create_part ∷ copy_loop w file_id 0 [] remote.body))

-- runTorrent's guard on the locator's path
unfoldable pub unsafe_path : Bytes → Bool
unfolding has_prefix contains
unsafe_path path = has_prefix (codes "/") path || contains (codes "../") path

-- The last critical section of runTorrent: the status, and the file if os.Open succeeds
abbrev pub completed_torrent : Bool → ℕ → Action
completed_torrent true size = complete_published size
completed_torrent false size = complete size

-- runTorrent, from the content that DownloadFile returned on
unfoldable pub stage_torrent : Disk → Bytes → Bytes → ℕ → List Action
unfolding valid_signature
stage_torrent disk file_id content size = staged disk.open_error (
    create_part
    ∷ (if is_some (disk.write_error (length content))
          || is_some disk.sync_error
          || is_some disk.close_error
        then discard disk (codes "torrent staging failed")
        else write_part content
          ∷ (if disk.signature_opened && valid_signature content file_id
              then completed_torrent disk.published_opened size ∷ []
              else discard disk (codes "downloaded file failed signature validation"))))

abbrev pub downloaded : Disk → Bytes → Result Bytes (Bytes × ℕ) → List Action
downloaded disk file_id (err e) = fail e ∷ []
downloaded disk file_id (ok (content, size)) = stage_torrent disk file_id content size

-- runTorrent
unfoldable pub run_torrent : World → Bytes → Locator → List Action
unfolding unsafe_path stage_torrent
run_torrent w file_id locator =
    if unsafe_path locator.path
    then fail (codes "unsafe torrent path") ∷ []
    else staged w.torrent_dirs_error (downloaded w.disk file_id w.torrent)

abbrev pub by_source : World → Bytes → Result Bytes RemoteFile → Option Locator → List Action
by_source w file_id opened none = run_http w file_id opened
by_source w file_id opened (some locator) = elim locator.kind [
  | torrent_file ↦ run_torrent w file_id locator
  | _ ↦ run_http w file_id opened
]

abbrev pub with_provider : World → Bytes → Option (Result Bytes RemoteFile) → List Action
with_provider w file_id none = fail (codes "provider is not available") ∷ []
with_provider w file_id (some opened) = download ∷ by_source w file_id opened w.locator

-- run: every step of the job's goroutine
unfoldable pub run : World → Request → List Action
unfolding run_http run_torrent
run w req = resolve ∷ with_provider w req.file_id w.provider
