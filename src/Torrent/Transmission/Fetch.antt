-- ===== src/Torrent/Transmission/Fetch.antt =====
-- internal/torrent/transmission.go: DownloadFile and openTorrentFile. The names of path/filepath and
-- the files on the disk are parameters, as is when the context is done.
use atlas_bridge.Base.{
  ℕ, zero, suc, Bool, true, false, not, ◌&&◌, List, [], ◌∷◌, Option, none, some, ltb, if◌then◌else◌,
  length, Result, err, ok,
}
use atlas_bridge.Base.Text.{Bytes, codes, ◌=ᵇ◌, has_prefix}
use atlas_bridge.Base.Decimal.{ℤ, pos, negsuc}
use atlas_bridge.Torrent.Transmission.{
  Net, Sent, AddRequest, AddResponse, TorrentStatus, RpcError, too_large, torrent_error,
  context_done, not_absolute, file_missing, file_unreadable, get, add, remove, find_by_name,
}

abbrev pub exceeds : ℕ → ℤ → Bool
exceeds max (pos n) = ltb max n && ltb 0 max
exceeds max (negsuc n) = false

-- One round of the loop of DownloadFile: an end of the loop, or none.
abbrev pub round_end :
    ℕ → Bool → Result RpcError TorrentStatus → Option (Result RpcError TorrentStatus)
round_end max cancelled (err e) = some (err e)
round_end max cancelled (ok s) =
    if exceeds max s.total_size
    then some (err too_large)
    else if not (s.error =ᵇ [])
    then some (err (torrent_error s.error))
    else if s.is_done
    then some (ok s)
    else if cancelled
    then some (err context_done)
    else none

abbrev pub or_next :
    Option (Result RpcError TorrentStatus)
    → List Sent
    → List Sent × Option (Result RpcError TorrentStatus)
    → List Sent × Option (Result RpcError TorrentStatus)
or_next (some end) log rest = (log, some end)
or_next none log rest = rest

module _ (net : Net) where
  -- The loop of DownloadFile, on fuel; `cancelled n` tells whether the context is done behind the n-th
  -- round. `none` stands for a loop that is still running when the fuel ends.
  unfoldable pub poll :
      ℕ → ℕ → ℤ → (ℕ → Bool) → ℕ → List Sent → List Sent × Option (Result RpcError TorrentStatus)
  unfolding get
  poll zero max id cancelled n log = (log, none)
  poll (suc fuel) max id cancelled n log =
      let answer = get net id log in
      or_next (round_end max (cancelled n) answer.1) answer.0
        (poll fuel max id cancelled (suc n) answer.0)

-- path/filepath and the files: what os.Open gives for a path, and Stat's error.
pub record Disk : Type 0 where
  pub dir : Bytes → Bytes
  pub base : Bytes → Bytes
  pub join : Bytes → Bytes → Bytes → Bytes
  pub open_at : Bytes → Option Bytes
  pub stat_error : Bytes → Option Bytes

abbrev pub first_open : Disk → List Bytes → Option Bytes
first_open disk [] = none
first_open disk (c ∷ cs) = elim (disk.open_at c) [
  | some content ↦ some content
  | none ↦ first_open disk cs
]

abbrev pub candidates : Disk → Bytes → List Bytes
candidates disk path =
    path
    ∷ disk.join (disk.dir path) (codes "incomplete") (disk.base path)
    ∷ disk.join (disk.dir path) (codes "complete") (disk.base path)
    ∷ []

-- openTorrentFile
unfoldable pub open_torrent_file : Disk → Bytes → Option Bytes
open_torrent_file disk path = first_open disk (candidates disk path)

abbrev pub sized : Disk → ℕ → Bytes → Option Bytes → Result RpcError (Bytes × ℕ)
sized disk max path none = err file_missing
sized disk max path (some content) = elim (disk.stat_error path) [
  | some e ↦ err (file_unreadable e)
  | none ↦
      if ltb 0 max && ltb max (length content) then err too_large else ok (content, length content)
]

-- DownloadFile behind its loop
unfoldable pub open_download : Disk → ℕ → Bytes → Result RpcError (Bytes × ℕ)
unfolding open_torrent_file has_prefix
open_download disk max path =
    if not (has_prefix (codes "/") path)
    then err not_absolute
    else sized disk max path (open_torrent_file disk path)

abbrev pub opened : Disk → ℕ → Bytes → Result RpcError TorrentStatus → Result RpcError (Bytes × ℕ)
opened disk max path (err e) = err e
opened disk max path (ok s) = open_download disk max path

-- The torrent that DownloadFile waits for: one that was there, or one that it added.
pub data Torrent : Type 0 where
  existing : ℤ → Torrent
  owned : ℤ → Torrent

abbrev pub added_id : Result RpcError AddResponse → Result RpcError Torrent
added_id (err e) = err e
added_id (ok a) = ok (owned a.id)

abbrev pub torrent_id : Torrent → ℤ
torrent_id (existing id) = id
torrent_id (owned id) = id

module _ (net : Net) where
  abbrev pub found_or_added :
      AddRequest
      → Result RpcError (Option TorrentStatus)
      → List Sent
      → List Sent × Result RpcError Torrent
  found_or_added req (err e) log = (log, err e)
  found_or_added req (ok (some t)) log = (log, ok (existing t.id))
  found_or_added req (ok none) log = let answer = add net req log in (answer.0, added_id answer.1)

  -- DownloadFile up to its loop
  unfoldable pub choose_torrent :
      Disk → AddRequest → Bytes → List Sent → List Sent × Result RpcError Torrent
  choose_torrent disk req path log =
      let answer = find_by_name net (disk.base path) log in found_or_added req answer.1 answer.0

  -- The deferred Remove
  abbrev pub released : Torrent → List Sent → List Sent
  released (existing id) log = log
  released (owned id) log = remove net id true log

  -- The end of the loop and what comes behind it. A loop that is still running has not come to the
  -- deferred call.
  abbrev pub finished :
      Disk
      → ℕ
      → Bytes
      → Torrent
      → List Sent
      → Option (Result RpcError TorrentStatus)
      → List Sent × Option (Result RpcError (Bytes × ℕ))
  finished disk max path torrent log none = (log, none)
  finished disk max path torrent log (some end) =
      (released torrent log, some (opened disk max path end))

  abbrev pub waited :
      Disk
      → ℕ
      → ℕ
      → Bytes
      → (ℕ → Bool)
      → Torrent
      → List Sent
      → List Sent × Option (Result RpcError (Bytes × ℕ))
  waited disk fuel max path cancelled torrent log =
      let polled = poll net fuel max (torrent_id torrent) cancelled 0 log in
      finished disk max path torrent polled.0 polled.1

  abbrev pub fetched :
      Disk
      → ℕ
      → ℕ
      → Bytes
      → (ℕ → Bool)
      → Result RpcError Torrent
      → List Sent
      → List Sent × Option (Result RpcError (Bytes × ℕ))
  fetched disk fuel max path cancelled (err e) log = (log, some (err e))
  fetched disk fuel max path cancelled (ok torrent) log =
      waited disk fuel max path cancelled torrent log

  -- DownloadFile
  unfoldable pub download_file :
      Disk
      → ℕ
      → ℕ
      → AddRequest
      → Bytes
      → (ℕ → Bool)
      → List Sent
      → List Sent × Option (Result RpcError (Bytes × ℕ))
  unfolding choose_torrent
  download_file disk fuel max req path cancelled log =
      let chosen = choose_torrent disk req path log in
      fetched disk fuel max path cancelled chosen.1 chosen.0
