-- ===== src/Commands.antt =====
-- cmd/atlas-bridge/main.go: ingestOnce and retrieveCatalogueTorrent, over the files' contents by their
-- paths. What fails on the disk, but for Remove, and path/filepath are parameters.
pub mod Staged
pub mod Retrieved
pub mod Markers
mod Tests
use atlas_bridge.Base.{
  ℕ, ◌==◌, Bool, true, false, not, ◌||◌, List, [], ◌∷◌, ◌++◌, Option, none, some, if◌then◌else◌,
  take, Result, err, ok,
}
use atlas_bridge.Base.Text.{Bytes, codes, ◌=ᵇ◌, has_prefix}
use atlas_bridge.Base.Maps.{Map, find, store, remove}
use atlas_bridge.Config.{Config}
use atlas_bridge.Torrent.Transmission.{Net, Sent, AddRequest, RpcError}
use atlas_bridge.Torrent.Transmission.Fetch.{Disk, download_file}

abbrev pub Files : Type 0
Files = Map Bytes

pub data RetrieveError : Type 0 where
  path_not_contained no_folder no_root not_opened not_copied not_staged empty_payload not_renamed :
      RetrieveError
  not_downloaded : RpcError → RetrieveError

-- path/filepath: Clean of FromSlash, Dir and Join
pub record Paths : Type 0 where
  pub clean : Bytes → Bytes
  pub dir : Bytes → Bytes
  pub join : Bytes → Bytes → Bytes

-- Which operations on the disk fail; a failing copy has written so many bytes.
pub record Faults : Type 0 where
  pub folder : Bool
  pub root : Bool
  pub opening : Bool
  pub copy : Option ℕ
  pub sync : Bool
  pub close : Bool
  pub rename : Bool

-- `filepath.IsAbs` and the tests against leaving the folder
unfoldable pub is_uncontained : Bytes → Bool
unfolding has_prefix
is_uncontained rel =
    rel =ᵇ codes "."
    || has_prefix (codes "/") rel
    || rel =ᵇ codes ".."
    || has_prefix (codes "../") rel

abbrev pub part_path : Bytes → Bytes
part_path target = target ++ codes ".part"

abbrev pub Staging : Type 0
Staging = Files × Option RetrieveError

-- The part file is removed; it held `written`.
abbrev pub abandoned : Bytes → Bytes → Files → RetrieveError → Staging
abandoned target written files e =
    (remove (part_path target) (store (part_path target) written files), some e)

-- Rename, which fails if the flag says so
abbrev pub renamed : Bytes → Bytes → Files → Bool → Staging
renamed target content files true = abandoned target content files not_renamed
renamed target content files false = (
  store target content (remove (part_path target) (store (part_path target) content files)),
  none,
)

-- Behind the test for an empty file
abbrev pub sized_part : Faults → Bytes → Bytes → Files → Bool → Staging
sized_part faults target content files true = abandoned target content files empty_payload
sized_part faults target content files false = renamed target content files faults.rename

-- Behind Sync and Close
abbrev pub synced : Faults → Bytes → Bytes → ℕ → Files → Bool → Staging
synced faults target content size files true = abandoned target content files not_staged
synced faults target content size files false = sized_part faults target content files (size == 0)

-- Behind io.Copy
abbrev pub copied : Faults → Bytes → Bytes → ℕ → Files → Option ℕ → Staging
copied faults target content size files (some n) =
    abandoned target (take n content) files not_copied
copied faults target content size files none =
    synced faults target content size files (faults.sync || faults.close)

-- The staging, from the open part file on
unfoldable pub stage_payload : Faults → Bytes → Bytes → ℕ → Files → Staging
unfolding store remove
stage_payload faults target content size files = copied faults target content size files faults.copy

abbrev pub payload_staged : Faults → Bytes → Files → Result RpcError (Bytes × ℕ) → Staging
payload_staged faults target files (err e) = (files, some (not_downloaded e))
payload_staged faults target files (ok (content, size)) =
    if faults.opening
    then (files, some not_opened)
    else stage_payload faults target content size files

abbrev pub payload_awaited :
    Faults
    → Bytes
    → Files
    → List Sent × Option (Result RpcError (Bytes × ℕ))
    → List Sent × Option Staging
payload_awaited faults target files (log, none) = (log, none)
payload_awaited faults target files (log, some result) =
    (log, some (payload_staged faults target files result))

abbrev pub payload_request : Config → AddRequest
payload_request cfg = record {
  metainfo = cfg.catalogue_torrent;
  filename = [];
  download_dir = codes "/downloads";
  files_wanted = [];
}

-- retrieveCatalogueTorrent; `none` for a download that is still running when its fuel ends.
unfoldable pub retrieve_catalogue_torrent :
    Net
    → Disk
    → Paths
    → Faults
    → ℕ
    → Config
    → (ℕ → Bool)
    → List Sent
    → Files
    → List Sent × Option Staging
unfolding is_uncontained stage_payload download_file
retrieve_catalogue_torrent net disk paths faults fuel cfg cancelled log files =
    let rel = paths.clean cfg.catalogue_torrent_path in
    let root = paths.join (paths.dir cfg.catalogue_zstd) (codes "torrents") in
    if is_uncontained rel
    then (log, some (files, some path_not_contained))
    else if faults.folder
    then (log, some (files, some no_folder))
    else if faults.root
    then (log, some (files, some no_root))
    else (payload_awaited faults cfg.catalogue_zstd files (
        download_file net disk fuel cfg.catalogue_payload_limit (payload_request cfg)
          (paths.join root rel) cancelled log))

-- What an import gives: the state behind it, the two counts and its error.
pub record Import (S E : Type 0) : Type 0 where
  pub state : S
  pub count : ℕ
  pub skipped : ℕ
  pub error : Option E

abbrev pub marker_path : Bytes → Bytes
marker_path path = path ++ codes ".ingested"

-- The marker behind an import, whose WriteFile may fail
abbrev pub marked : {E : Type 0} → Bool → Bytes → Files → Option E → Files
marked writable path files (some e) = files
marked writable path files none =
    if writable then store (marker_path path) (codes "complete\n") files else files

abbrev pub ingest_unmarked :
    {S E : Type 0} → Bool → Bytes → Files → Option Bytes → (S → Import S E) → S → Files × Import S E
ingest_unmarked writable path files (some marker) run s =
    (files, record { state = s; count = 0; skipped = 0; error = none })
ingest_unmarked writable path files none run s = (marked writable path files (run s).error, run s)

-- ingestOnce
unfoldable pub ingest_once :
    {S E : Type 0} → Bool → Bytes → (S → Import S E) → Files → S → Files × Import S E
unfolding find store
ingest_once writable path run files s =
    ingest_unmarked writable path files (find (marker_path path) files) run s
