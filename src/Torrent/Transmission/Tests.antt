-- ===== src/Torrent/Transmission/Tests.antt =====
-- internal/torrent/transmission.go: runs at concrete inputs.
use atlas_bridge.Base.{
  ℕ, ◌≡◌, ◌≢◌, refl, Bool, true, false, List, [], ◌∷◌, ◌++◌, none, some, err, ok, arith,
  if◌then◌else◌, leb, ◌==◌, ◌+◌, inl, inr,
}
use atlas_bridge.Base.Text.{codes, ◌=ᵇ◌, has_prefix}
use atlas_bridge.Base.Decimal.{pos}
use atlas_bridge.Torrent.Transmission.{
  Net, Sent, Rpc, get_all, get_one, add_torrent, remove_torrent, Reply, RpcResponse, AddRequest,
  TorrentStatus, empty_reply, get, add, remove, call, attempt, find_by_name,
}
use atlas_bridge.Torrent.Transmission.Fetch.{
  Disk, poll, choose_torrent, owned, open_download, open_torrent_file, download_file,
}
use atlas_bridge.Torrent.Transmission.Rounds.{answer_at, Ends}
use atlas_bridge.Torrent.Transmission.Polling.{FirstEnd, poll-FirstEnd}
use atlas_bridge.Torrent.Transmission.Download.{IsFetched, download_file-IsFetched}
use atlas_bridge.Torrent.Transmission.Release.{Leaves, download_file-Leaves}

abbrev answer : Reply → RpcResponse
answer r = record {
  status_code = 200;
  session_id = [];
  envelope = ok (record { result = codes "success"; arguments = some (ok r) });
}

abbrev conflict : RpcResponse
conflict = record { status_code = 409; session_id = codes "s1"; envelope = err [] }

abbrev report : Bool → TorrentStatus
report done = record {
  id = pos 7;
  name = codes "f";
  is_done = done;
  total_size = pos 2;
  error = [];
}

-- No torrent at first; the added one has the id 7 and is complete from the fifth request on.
abbrev replied : ℕ → Rpc → Reply
replied n get_all = empty_reply
replied n (get_one id) = record empty_reply { torrents = report (leb 5 n) ∷ [] }
replied n (add_torrent req) = record empty_reply {
  added = record { id = pos 7; name = codes "f"; hash = [] };
}
replied n (remove_torrent id delete_files) = empty_reply

-- The very first request has no session and gets a 409.
abbrev net : Net
net n s = if n == 0 then ok conflict else ok (answer (replied n s.rpc))

abbrev disk : Disk
disk = record {
  dir = λ p. codes "/d";
  base = λ p. codes "f";
  join = λ a b c. a ++ codes "/" ++ b ++ codes "/" ++ c;
  open_at = λ p. if p =ᵇ codes "/d/complete/f" then some (codes "ok") else none;
  stat_error = λ p. none;
}

abbrev request : AddRequest
request = record {
  metainfo = codes "AAAA";
  filename = [];
  download_dir = codes "/d";
  files_wanted = [];
}

abbrev never : ℕ → Bool
never n = false

fetched :
    (download_file net disk 9 100 request (codes "/d/f") never []).1 ≡ some (ok (codes "ok", 2))
unfolding download_file choose_torrent find_by_name add get call attempt poll open_download
    open_torrent_file has_prefix remove
fetched = refl

ended : (download_file net disk 9 100 request (codes "/d/f") never []).1 ≢ none
ended e = cc (fetched, e)

-- Seven requests: the first one twice, the addition, three reports and the removal.
removed_test : (download_file net disk 9 100 request (codes "/d/f") never []).0 ≡ (
    record { session = none; rpc = remove_torrent (pos 7) true }
    ∷ record { session = none; rpc = get_one (pos 7) }
    ∷ record { session = none; rpc = get_one (pos 7) }
    ∷ record { session = none; rpc = get_one (pos 7) }
    ∷ record { session = none; rpc = add_torrent request }
    ∷ record { session = some (codes "s1"); rpc = get_all }
    ∷ record { session = none; rpc = get_all }
    ∷ [])
unfolding download_file choose_torrent find_by_name add get call attempt poll open_download
    open_torrent_file has_prefix remove
removed_test = refl

chosen : (choose_torrent net disk request (codes "/d/f") []).1 ≡ ok (owned (pos 7))
unfolding choose_torrent find_by_name add call attempt has_prefix
chosen = refl

abbrev three : List Sent
three =
    record { session = none; rpc = get_all }
    ∷ record { session = none; rpc = get_all }
    ∷ record { session = none; rpc = get_all }
    ∷ []

done_at_two : Ends 100 (never (0 + 2)) (answer_at net (pos 7) 2 three) (ok (report true))
unfolding get call attempt
done_at_two = inr (inr (inl ((λ over. omega (arith, over)), refl, refl, refl)))

poll-FirstEnd_example :
    FirstEnd net 100 (pos 7) never 0 2 three (poll net 9 100 (pos 7) never 0 three)
poll-FirstEnd_example =
    poll-FirstEnd net 9 100 (pos 7) never 0 2 three (ok (report true)) (omega arith) done_at_two

download_file-IsFetched_example : IsFetched net disk 100 request (codes "/d/f") [] (codes "ok") 2
download_file-IsFetched_example =
    download_file-IsFetched net disk 100 request (codes "/d/f") [] 9 never fetched

download_file-Leaves_example :
    Leaves net request
      (find_by_name net (codes "f") []).1
      (find_by_name net (codes "f") []).0
      []
      (download_file net disk 9 100 request (codes "/d/f") never []).0
download_file-Leaves_example =
    download_file-Leaves net disk 9 100 request (codes "/d/f") never [] ended

abbrev twice_added : Reply
twice_added = record empty_reply { duplicate = record { id = pos 7; name = codes "f"; hash = [] } }

-- A server that has the torrent already, under another name.
abbrev had_before : Net
had_before n s =
    ok (answer (if n == 1 then twice_added else if n == 0 then empty_reply else replied 9 s.rpc))

duplicate_removed :
    (download_file had_before disk 9 100 request (codes "/d/f") never []).0
    ≡ record { session = none; rpc = remove_torrent (pos 7) true }
      ∷ record { session = none; rpc = get_one (pos 7) }
      ∷ record { session = none; rpc = add_torrent request }
      ∷ record { session = none; rpc = get_all }
      ∷ []
unfolding download_file choose_torrent find_by_name add get call attempt poll open_download
    open_torrent_file has_prefix remove
duplicate_removed = refl
