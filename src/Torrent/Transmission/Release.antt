-- ===== src/Torrent/Transmission/Release.antt =====
-- internal/torrent/transmission.go: which torrents DownloadFile removes.
use atlas_bridge.Base.{
  ℕ, zero, suc, ◌≡◌, ◌≢◌, refl, Bool, true, false, List, [], ◌∷◌, ◌++◌, Option, none, some, Result,
  err, ok, All, All-append, append_assoc, sym, ◌∙◌, ap, ◌⊎◌, inl, inr, Bool-cases, subst, ==_iff,
  ◌>>=◌,
}
use atlas_bridge.Base.Text.{Bytes}
use atlas_bridge.Base.Decimal.{ℤ, pos, negsuc}
use atlas_bridge.Torrent.Transmission.{
  Net, Sent, Rpc, get_all, get_one, add_torrent, remove_torrent, as_filename, AddRequest,
  TorrentStatus, RpcError, Reply, no_torrent_id, added_torrent, is_zero, call, get, add, remove,
  find_by_name,
}
use atlas_bridge.Torrent.Transmission.Calls.{IsCalled, once, twice, call-IsCalled}
use atlas_bridge.Torrent.Transmission.Fetch.{
  round_end, or_next, poll, Disk, Torrent, existing, owned, torrent_id, added_id, found_or_added,
  choose_torrent, fetched, finished, download_file,
}

abbrev pub is_removal : Rpc → Bool
is_removal (remove_torrent id delete_files) = true
is_removal _ = false

-- Requests were sent in front of `log`, and none of them removes a torrent.
abbrev pub Keeps : List Sent → List Sent → Type 0
Keeps log log' = (new : List Sent) × (log' ≡ new ++ log) × All (λ s. is_removal s.rpc ≡ false) new

-- The last request removes the torrent, with its files.
abbrev pub Removes : ℤ → List Sent → Type 0
Removes id log =
    (session : Option Bytes) × (rest : List Sent) × (log
      ≡ record { session = session; rpc = remove_torrent id true } ∷ rest)

Keeps-trans : {a b c : List Sent} → Keeps a b → Keeps b c → Keeps a c
Keeps-trans {a} (new, e, h) (new', e', h') = (
  new' ++ new,
  (e' ∙ ap (λ l. new' ++ l) e) ∙ sym (append_assoc new' new a),
  All-append (λ s. is_removal s.rpc ≡ false) new' new h' h,
)

called-Keeps :
    (net : Net) (rpc : Rpc) (log : List Sent) {log' : List Sent}
    → is_removal rpc ≡ false
    → IsCalled net rpc log log'
    → Keeps log log'
called-Keeps net rpc log h once = (record { session = none; rpc = rpc } ∷ [], refl, (h, tt))
called-Keeps net rpc log h (twice a there conflict) = (
  record { session = some a.session_id; rpc = rpc } ∷ record { session = none; rpc = rpc } ∷ [],
  refl,
  (h, (h, tt)),
)

called-Removes :
    (net : Net) (id : ℤ) (log : List Sent) {log' : List Sent}
    → IsCalled net (remove_torrent id true) log log'
    → Removes id log'
called-Removes net id log once = (none, log, refl)
called-Removes net id log (twice a there conflict) =
    (some a.session_id, record { session = none; rpc = remove_torrent id true } ∷ log, refl)

module _ (net : Net) where
  poll-Keeps :
      (fuel max : ℕ) (id : ℤ) (cancelled : ℕ → Bool) (n : ℕ) (log : List Sent)
      → Keeps log (poll net fuel max id cancelled n log).0
  unfolding poll get
  poll-Keeps zero max id cancelled n log = ([], refl, tt)
  poll-Keeps (suc fuel) max id cancelled n log =
      by_round (round_end max (cancelled n) (get net id log).1)
        (poll-Keeps fuel max id cancelled (suc n) (get net id log).0)
    where
      one : Keeps log (get net id log).0
      one = called-Keeps net (get_one id) log refl (call-IsCalled net (get_one id) true log)

      by_round :
          (o : Option (Result RpcError TorrentStatus))
          → Keeps (get net id log).0 (poll net fuel max id cancelled (suc n) (get net id log).0).0
          → Keeps log
              (or_next o
                (get net id log).0
                (poll net fuel max id cancelled (suc n) (get net id log).0)).0
      by_round (some end) ih = one
      by_round none ih = Keeps-trans one ih

  choose_torrent-Keeps :
      (disk : Disk) (req : AddRequest) (path : Bytes) (log : List Sent)
      → Keeps log (choose_torrent net disk req path log).0
  unfolding choose_torrent find_by_name add
  choose_torrent-Keeps disk req path log = by_answer (find_by_name net (disk.base path) log).1
    where
      one : Keeps log (find_by_name net (disk.base path) log).0
      one = called-Keeps net get_all log refl (call-IsCalled net get_all true log)

      by_answer :
          (r : Result RpcError (Option TorrentStatus))
          → Keeps log (found_or_added net req r (find_by_name net (disk.base path) log).0).0
      by_answer (err e) = one
      by_answer (ok (some t)) = one
      by_answer (ok none) = Keeps-trans one (
          called-Keeps net (add_torrent (as_filename req)) (find_by_name net (disk.base path) log).0
            refl
            (call-IsCalled net (add_torrent (as_filename req)) true
              (find_by_name net (disk.base path) log).0))

abbrev ByTorrent : Result RpcError Torrent → List Sent → List Sent → Type 0
ByTorrent (ok (owned id)) log log' = Removes id log'
ByTorrent (ok (existing id)) log log' = Keeps log log'
ByTorrent (err e) log log' = Keeps log log'

download_file-ByTorrent :
    (net : Net) (disk : Disk) (fuel max : ℕ) (req : AddRequest) (path : Bytes)
    (cancelled : ℕ → Bool) (log : List Sent)
    → (download_file net disk fuel max req path cancelled log).1 ≢ none
    → ByTorrent
        (choose_torrent net disk req path log).1
        log
        (download_file net disk fuel max req path cancelled log).0
unfolding download_file
download_file-ByTorrent net disk fuel max req path cancelled log ended =
    by_choice (choose_torrent net disk req path log).1 (choose_torrent net disk req path log).0
      (choose_torrent-Keeps net disk req path log) ended
  where
    by_end :
        (torrent : Torrent) (log' : List Sent) (o : Option (Result RpcError TorrentStatus))
        → (finished net disk max path torrent log' o).1 ≢ none
        → Keeps log log'
        → ByTorrent (ok torrent) log (finished net disk max path torrent log' o).0
    by_end torrent log' none ended' kept = absurd (ended' refl)
    by_end (existing id) log' (some end) ended' kept = kept
    by_end (owned id) log' (some end) ended' kept =
        unfold remove in
        called-Removes net id log' (call-IsCalled net (remove_torrent id true) false log')

    by_choice :
        (r : Result RpcError Torrent) (log' : List Sent)
        → Keeps log log'
        → (fetched net disk fuel max path cancelled r log').1 ≢ none
        → ByTorrent r log (fetched net disk fuel max path cancelled r log').0
    by_choice (err e) log' kept ended' = kept
    by_choice (ok torrent) log' kept ended' =
        by_end torrent (poll net fuel max (torrent_id torrent) cancelled 0 log').0
          (poll net fuel max (torrent_id torrent) cancelled 0 log').1 ended'
          (Keeps-trans kept (poll-Keeps net fuel max (torrent_id torrent) cancelled 0 log'))

-- What a DownloadFile that has ended leaves behind, by the reply to its torrent-add: the id under
-- "torrent-added" is removed, or that under "torrent-duplicate" where the first has none.
abbrev pub LeavesAdded : Result RpcError Reply → List Sent → List Sent → Type 0
LeavesAdded (err e) log log' = Keeps log log'
LeavesAdded (ok out) log log' =
    ((out.added.id ≢ pos 0) × Removes out.added.id log')
    ⊎ ((out.added.id ≡ pos 0) × (out.duplicate.id ≢ pos 0) × Removes out.duplicate.id log')
    ⊎ ((out.added.id ≡ pos 0) × (out.duplicate.id ≡ pos 0) × Keeps log log')

-- By the search for the torrent's name, behind which the requests `found` have been made.
abbrev pub Leaves :
    Net
    → AddRequest
    → Result RpcError (Option TorrentStatus)
    → List Sent
    → List Sent
    → List Sent
    → Type 0
Leaves net req (err e) found log log' = Keeps log log'
Leaves net req (ok (some t)) found log log' = Keeps log log'
Leaves net req (ok none) found log log' =
    LeavesAdded (call net (add_torrent (as_filename req)) true found).1 log log'

is_zero-true : (i : ℤ) → is_zero i ≡ true → i ≡ pos 0
is_zero-true (pos n) h = ap pos ((==_iff n 0).0 h)
is_zero-true (negsuc n) h = cc h

is_zero-false : (i : ℤ) → is_zero i ≡ false → i ≢ pos 0
is_zero-false i h e = cc (h, ap is_zero e)

added-Leaves :
    (r : Result RpcError Reply) (log log' : List Sent)
    → ByTorrent (added_id (r >>= added_torrent)) log log'
    → LeavesAdded r log log'
added-Leaves (err e) log log' h = h
added-Leaves (ok out) log log' h = elim (Bool-cases (is_zero out.added.id)) [
  | inr first ↦
      let chosen : added_id (added_torrent out) ≡ ok (owned out.added.id) =
        rw (first, first) refl in
      inl (is_zero-false out.added.id first, subst (λ r. ByTorrent r log log') chosen h)
  | inl no_first ↦ elim (Bool-cases (is_zero out.duplicate.id)) [
    | inr second ↦
        let chosen : added_id (added_torrent out) ≡ ok (owned out.duplicate.id) =
          rw (no_first, second, second) refl in
        inr (
          inl (
            is_zero-true out.added.id no_first,
            is_zero-false out.duplicate.id second,
            subst (λ r. ByTorrent r log log') chosen h,
          ))
    | inl no_second ↦
        let chosen : added_id (added_torrent out) ≡ err no_torrent_id =
          rw (no_first, no_second, no_first) refl in
        inr (
          inr (
            is_zero-true out.added.id no_first,
            is_zero-true out.duplicate.id no_second,
            subst (λ r. ByTorrent r log log') chosen h,
          ))
  ]
]

found-Leaves :
    (net : Net) (req : AddRequest) (r : Result RpcError (Option TorrentStatus))
    (found log log' : List Sent)
    → ByTorrent (found_or_added net req r found).1 log log'
    → Leaves net req r found log log'
unfolding add
found-Leaves net req (err e) found log log' h = h
found-Leaves net req (ok (some t)) found log log' h = h
found-Leaves net req (ok none) found log log' h =
    added-Leaves (call net (add_torrent (as_filename req)) true found).1 log log' h

-- However DownloadFile ends, with a file, an error of the server or of the disk, a torrent over the limit
-- or a context that is done: if the server lists a torrent under the name of the path, or a request to
-- list or to add fails, no request removes any torrent; else the last request removes, with its files,
-- the torrent that the reply to torrent-add calls added, or where it has none of those the one that it
-- calls a duplicate, which was there before; and if it has neither, none is removed.
pub download_file-Leaves :
    (net : Net) (disk : Disk) (fuel max : ℕ) (req : AddRequest) (path : Bytes)
    (cancelled : ℕ → Bool) (log : List Sent)
    → (download_file net disk fuel max req path cancelled log).1 ≢ none
    → Leaves net req
        (find_by_name net (disk.base path) log).1
        (find_by_name net (disk.base path) log).0
        log
        (download_file net disk fuel max req path cancelled log).0
unfolding choose_torrent
download_file-Leaves net disk fuel max req path cancelled log ended =
    found-Leaves net req (find_by_name net (disk.base path) log).1
      (find_by_name net (disk.base path) log).0 log
      (download_file net disk fuel max req path cancelled log).0
      (download_file-ByTorrent net disk fuel max req path cancelled log ended)
