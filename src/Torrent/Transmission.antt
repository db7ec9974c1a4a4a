-- ===== src/Torrent/Transmission.antt =====
-- internal/torrent/transmission.go: the RPC client. The server is a parameter: its answer to the n-th
-- request may be any, and the requests that were sent are kept, the last one first. The names `dir`,
-- `base` and `join` of path/filepath and the files on the disk are parameters too.
pub mod Fetch
pub mod Calls
pub mod Rounds
pub mod Polling
pub mod Download
pub mod Release
mod Tests
use atlas_bridge.Base.{
  ℕ, zero, suc, ◌==◌, Bool, true, false, not, ◌&&◌, ◌||◌, List, [], ◌∷◌, ◌++◌, Option, none, some,
  ltb, leb, if◌then◌else◌, length, Result, err, ok, ◌>>=◌,
}
use atlas_bridge.Base.Text.{Bytes, codes, ◌=ᵇ◌, has_prefix}
use atlas_bridge.Base.Decimal.{ℤ, pos, negsuc}

pub record AddRequest : Type 0 where
  pub metainfo : Bytes
  pub filename : Bytes
  pub download_dir : Bytes
  pub files_wanted : List ℤ

pub record AddResponse : Type 0 where
  pub id : ℤ
  pub name : Bytes
  pub hash : Bytes

-- Status; `is_done` is the test of the float64 `PercentDone >= 1`.
pub record TorrentStatus : Type 0 where
  pub id : ℤ
  pub name : Bytes
  pub is_done : Bool
  pub total_size : ℤ
  pub error : Bytes

-- The four methods that the client calls, with their arguments.
pub data Rpc : Type 0 where
  get_all : Rpc
  get_one : ℤ → Rpc
  add_torrent : AddRequest → Rpc
  remove_torrent : ℤ → Bool → Rpc

-- What the arguments of an answer decode to; a part that is missing is zero.
pub record Reply : Type 0 where
  pub torrents : List TorrentStatus
  pub added : AddResponse
  pub duplicate : AddResponse

pub record Envelope : Type 0 where
  pub result : Bytes
  -- No bytes, or what json.Unmarshal makes of them.
  pub arguments : Option (Result Bytes Reply)

pub record RpcResponse : Type 0 where
  pub status_code : ℕ
  pub session_id : Bytes
  pub envelope : Result Bytes Envelope

pub record Sent : Type 0 where
  pub session : Option Bytes
  pub rpc : Rpc

-- The answer to a request, given the number of those before it.
abbrev pub Net : Type 0
Net = ℕ → Sent → Result Bytes RpcResponse

pub data RpcError : Type 0 where
  not_sent rpc_failed bad_answer : Bytes → RpcError
  bad_status : ℕ → RpcError
  no_response session_required no_torrent_id too_large not_absolute file_missing : RpcError
  torrent_error file_unreadable : Bytes → RpcError
  torrent_missing : ℤ → RpcError
  context_done : RpcError

abbrev pub no_added : AddResponse
no_added = record { id = pos 0; name = []; hash = [] }

abbrev pub empty_reply : Reply
empty_reply = record { torrents = []; added = no_added; duplicate = no_added }

abbrev pub decoded_reply : Option (Result Bytes Reply) → Result RpcError Reply
decoded_reply none = ok empty_reply
decoded_reply (some (err e)) = err (bad_answer e)
decoded_reply (some (ok r)) = ok r

abbrev pub opened_envelope : Bool → Result Bytes Envelope → Result RpcError Reply
opened_envelope wants (err e) = err (bad_answer e)
opened_envelope wants (ok v) =
    if not (v.result =ᵇ codes "success")
    then err (rpc_failed v.result)
    else if wants
    then decoded_reply v.arguments
    else ok empty_reply

-- `call` behind its loop.
abbrev pub concluded : Bool → Option RpcResponse → Result RpcError Reply
concluded wants none = err no_response
concluded wants (some a) =
    if a.status_code == 409
    then err session_required
    else if ltb a.status_code 200 || leb 300 a.status_code
    then err (bad_status a.status_code)
    else opened_envelope wants a.envelope

-- An attempt by its answer, with what a 409 leads to.
abbrev pub by_answer :
    Bool
    → List Sent
    → (RpcResponse → List Sent × Result RpcError Reply)
    → Result Bytes RpcResponse
    → List Sent × Result RpcError Reply
by_answer wants log again (err e) = (log, err (not_sent e))
by_answer wants log again (ok a) =
    if a.status_code == 409 then again a else (log, concluded wants (some a))

abbrev pub named : Bytes → List TorrentStatus → Option TorrentStatus
named name [] = none
named name (t ∷ ts) = if t.name =ᵇ name then some t else named name ts

abbrev pub is_zero : ℤ → Bool
is_zero (pos n) = n == 0
is_zero (negsuc n) = false

abbrev pub as_filename : AddRequest → AddRequest
as_filename req =
    if has_prefix (codes "http://") req.metainfo
      || has_prefix (codes "https://") req.metainfo
      || has_prefix (codes "magnet:") req.metainfo
    then record req { filename = req.metainfo; metainfo = [] }
    else req

abbrev pub added_torrent : Reply → Result RpcError AddResponse
added_torrent out =
    let torrent =
      if is_zero out.added.id && not (is_zero out.duplicate.id) then out.duplicate else out.added in
    if is_zero torrent.id then err no_torrent_id else ok torrent

abbrev pub first_torrent : ℤ → List TorrentStatus → Result RpcError TorrentStatus
first_torrent id [] = err (torrent_missing id)
first_torrent id (t ∷ ts) = ok t

module _ (net : Net) where
  -- The loop of `call`, with the attempts that are left, the session id to send and the last answer.
  unfoldable pub attempt :
      ℕ
      → Rpc
      → Bool
      → Option Bytes
      → Option RpcResponse
      → List Sent
      → List Sent × Result RpcError Reply
  attempt zero rpc wants session last log = (log, concluded wants last)
  attempt (suc k) rpc wants session last log =
      let request : Sent = record { session = session; rpc = rpc } in
      by_answer wants (request ∷ log)
        (λ a. attempt k rpc wants (some a.session_id) (some a) (request ∷ log))
        (net (length log) request)

  -- call; `wants` tells whether the arguments of the answer are decoded.
  unfoldable pub call : Rpc → Bool → List Sent → List Sent × Result RpcError Reply
  unfolding attempt
  call rpc wants log = attempt 2 rpc wants none none log

  -- FindByName
  unfoldable pub find_by_name :
      Bytes → List Sent → List Sent × Result RpcError (Option TorrentStatus)
  unfolding call
  find_by_name name log =
      let answer = call get_all true log in
      (answer.0, answer.1 >>= λ out. ok (named name out.torrents))

  -- Add
  unfoldable pub add : AddRequest → List Sent → List Sent × Result RpcError AddResponse
  unfolding call
  add req log =
      let answer = call (add_torrent (as_filename req)) true log in
      (answer.0, answer.1 >>= added_torrent)

  -- Get
  unfoldable pub get : ℤ → List Sent → List Sent × Result RpcError TorrentStatus
  unfolding call
  get id log =
      let answer = call (get_one id) true log in
      (answer.0, answer.1 >>= λ out. first_torrent id out.torrents)

  -- Remove, whose error the only caller ignores
  unfoldable pub remove : ℤ → Bool → List Sent → List Sent
  unfolding call
  remove id delete_files log = (call (remove_torrent id delete_files) false log).0
