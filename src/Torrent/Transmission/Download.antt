-- ===== src/Torrent/Transmission/Download.antt =====
-- internal/torrent/transmission.go: what DownloadFile returns.
use atlas_bridge.Base.{
  ℕ, ◌≡◌, ◌≤◌, ◌<◌, refl, Bool, true, ◌&&◌, List, [], ◌∷◌, Option, none, some, ltb, length, Result,
  err, ok, arith, Bool-cases, Option-cases, inl, inr, any, ◌⊎◌, subst, sym,
}
use atlas_bridge.Base.Text.{Bytes, codes, ◌=ᵇ◌, =ᵇ_refl, has_prefix}
use atlas_bridge.Base.Decimal.{ℤ}
use atlas_bridge.Torrent.Transmission.{
  Net, Sent, AddRequest, AddResponse, TorrentStatus, RpcError, find_by_name, add,
}
use atlas_bridge.Torrent.Transmission.Rounds.{answer_at, IsOver, Ends}
use atlas_bridge.Torrent.Transmission.Polling.{poll-Ends}
use atlas_bridge.Torrent.Transmission.Fetch.{
  poll, Disk, first_open, candidates, open_torrent_file, sized, open_download, opened, Torrent,
  existing, owned, added_id, torrent_id, found_or_added, choose_torrent, waited, fetched, finished,
  download_file,
}

-- The torrent that DownloadFile is to wait for, and the requests made by then: the one that the server
-- lists under the name of the path, or else the one that it says it has added.
abbrev pub IsChosen : Net → Disk → AddRequest → Bytes → List Sent → ℤ → List Sent → Type 0
IsChosen net disk req path log id chosen =
    let found = find_by_name net (disk.base path) log in
    let added = add net req found.0 in
    ((t : TorrentStatus) × (found.1 ≡ ok (some t)) × (id ≡ t.id) × (chosen ≡ found.0))
    ⊎ ((a : AddResponse) × (found.1 ≡ ok none)
        × (added.1 ≡ ok a)
        × (id ≡ a.id)
        × (chosen ≡ added.0))

pub record IsFetched (net : Net) (disk : Disk) (max : ℕ) (req : AddRequest) (path : Bytes)
    (log : List Sent) (content : Bytes) (size : ℕ) : Type 0 where
  pub id : ℤ
  pub chosen : List Sent
  pub choice : IsChosen net disk req path log id chosen
  pub status : TorrentStatus
  -- The round of the loop in which the server reports that torrent so.
  pub round : ℕ
  pub reported : answer_at net id round chosen ≡ ok status
  pub is_done : status.is_done ≡ true
  pub no_error : status.error ≡ []
  pub not_over : ¬ IsOver max status.total_size
  pub absolute : has_prefix (codes "/") path ≡ true
  pub opened_path : Bytes
  pub is_candidate : any (λ c. c =ᵇ opened_path) (candidates disk path) ≡ true
  pub there : disk.open_at opened_path ≡ some content
  pub measured : size ≡ length content
  pub within : 0 < max → size ≤ max

-- A loop that ends with a status has it from the server.
abbrev IsReported : Net → ℕ → ℤ → List Sent → TorrentStatus → Type 0
IsReported net max id chosen s =
    (round : ℕ) × (answer_at net id round chosen ≡ ok s)
    × (s.is_done ≡ true)
    × (s.error ≡ [])
    × (¬ IsOver max s.total_size)

ended-ok :
    (max : ℕ) (over : Bool) (r : Result RpcError TorrentStatus) (s : TorrentStatus)
    → Ends max over r (ok s)
    → (r ≡ ok s) × (s.is_done ≡ true) × (s.error ≡ []) × (¬ IsOver max s.total_size)
ended-ok max over (err e) s h = cc h
ended-ok max over (ok t) s (inl (big, e)) = cc e
ended-ok max over (ok t) s (inr (inl (small, wrong, e))) = cc e
ended-ok max over (ok t) s (inr (inr (inr (small, fine, waiting, y, e)))) = cc e
ended-ok max over (ok t) s (inr (inr (inl (small, fine, done, e)))) =
    let same : t ≡ s = cc e in
    (
      cc same,
      cc (same, done),
      cc (same, fine),
      λ over'. small (subst (λ u. IsOver max u.total_size) (sym same) over'),
    )

first_open-any :
    (disk : Disk) (cs : List Bytes) {content : Bytes}
    → first_open disk cs ≡ some content
    → (c : Bytes) × (any (λ d. d =ᵇ c) cs ≡ true) × (disk.open_at c ≡ some content)
first_open-any disk [] h = cc h
first_open-any disk (c ∷ cs) h = elim (Option-cases (disk.open_at c)) [
  | inr (found, e) ↦ (c, ground (arith, =ᵇ_refl c), cc (h, e))
  | inl e ↦
      let (d, listed, there) = first_open-any disk cs (cc (h, e)) in
      (d, ground (arith, listed), there)
]

sized-eq-ok :
    (disk : Disk) (max : ℕ) (path : Bytes) (o : Option Bytes) {content : Bytes} {size : ℕ}
    → sized disk max path o ≡ ok (content, size)
    → (o ≡ some content) × (size ≡ length content) × (0 < max → size ≤ max)
sized-eq-ok disk max path none h = cc h
sized-eq-ok disk max path (some found) {content} {size} h =
    elim (Option-cases (disk.stat_error path)) [
      | inr (e, bad) ↦ cc (h, bad)
      | inl fine ↦ elim (Bool-cases (ltb 0 max && ltb max (length found))) [
        | inl big ↦ cc (h, fine, big)
        | inr fits ↦
            let same : found ≡ content = cc (h, fine, fits) in
            let count : length found ≡ size = cc (h, fine, fits) in
            (cc same, cc (same, count), λ limit. ground (arith, fits, limit, count))
      ]
    ]

module _ (net : Net) (disk : Disk) (max : ℕ) (req : AddRequest) (path : Bytes)
    (log : List Sent) where
  opened-IsFetched :
      (id : ℤ) (chosen : List Sent) (end : Result RpcError TorrentStatus) {content : Bytes}
      {size : ℕ}
      → IsChosen net disk req path log id chosen
      → ((s : TorrentStatus) → end ≡ ok s → IsReported net max id chosen s)
      → opened disk max path end ≡ ok (content, size)
      → IsFetched net disk max req path log content size
  unfolding open_download open_torrent_file
  opened-IsFetched id chosen (err e) choice reported h = cc h
  opened-IsFetched id chosen (ok s) choice reported h =
      elim (Bool-cases (has_prefix (codes "/") path)) [
        | inr relative ↦ cc (h, relative)
        | inl absolute ↦
            let (found, count, within) =
              sized-eq-ok disk max path (open_torrent_file disk path) (cc (h, absolute)) in
            let (c, listed, there) = first_open-any disk (candidates disk path) found in
            let (round, answered, done, fine, small) = reported s refl in
            record {
              id = id;
              chosen = chosen;
              choice = choice;
              status = s;
              round = round;
              reported = answered;
              is_done = done;
              no_error = fine;
              not_over = small;
              absolute = absolute;
              opened_path = c;
              is_candidate = listed;
              there = there;
              measured = count;
              within = within;
            }
      ]

  waited-IsFetched :
      (fuel : ℕ) (cancelled : ℕ → Bool) (torrent : Torrent) (chosen : List Sent) {content : Bytes}
      {size : ℕ}
      → IsChosen net disk req path log (torrent_id torrent) chosen
      → (waited net disk fuel max path cancelled torrent chosen).1 ≡ some (ok (content, size))
      → IsFetched net disk max req path log content size
  waited-IsFetched fuel cancelled torrent chosen choice h =
      by_end (poll net fuel max (torrent_id torrent) cancelled 0 chosen).1 refl h
    where
      by_end :
          {content : Bytes} {size : ℕ} (o : Option (Result RpcError TorrentStatus))
          → (poll net fuel max (torrent_id torrent) cancelled 0 chosen).1 ≡ o
          → (finished net disk max path torrent
              (poll net fuel max (torrent_id torrent) cancelled 0 chosen).0
              o).1
            ≡ some (ok (content, size))
          → IsFetched net disk max req path log content size
      by_end none e h' = cc h'
      by_end (some end) e h' =
          opened-IsFetched (torrent_id torrent) chosen end choice (reported end e) (cc h')
        where
          reported :
              (end' : Result RpcError TorrentStatus)
              → (poll net fuel max (torrent_id torrent) cancelled 0 chosen).1 ≡ some end'
              → (s : TorrentStatus) → end' ≡ ok s
              → IsReported net max (torrent_id torrent) chosen s
          reported end' e' s same =
              let (over, round, ended) =
                poll-Ends net fuel max (torrent_id torrent) cancelled 0 chosen {end = ok s}
                  (cc (e', same)) in
              let inverted =
                ended-ok max over (answer_at net (torrent_id torrent) round chosen) s ended in
              (round, inverted.0, inverted.1, inverted.2, inverted.3)

  -- The file that DownloadFile returns stands at the path it was asked for, which is absolute, or in the
  -- folders "incomplete" or "complete" beside it; the size that is returned is its length and is within
  -- the limit, if there is one; and in a round of its loop the server has reported as complete, without
  -- an error and within the limit, the very torrent that it listed under the name of the path or,
  -- where it listed none, the one that it said it had added.
  pub download_file-IsFetched :
      (fuel : ℕ) (cancelled : ℕ → Bool) {content : Bytes} {size : ℕ}
      → (download_file net disk fuel max req path cancelled log).1 ≡ some (ok (content, size))
      → IsFetched net disk max req path log content size
  unfolding download_file choose_torrent
  download_file-IsFetched fuel cancelled h =
      by_found (find_by_name net (disk.base path) log).1 refl h
    where
      by_added :
          {content : Bytes} {size : ℕ} (r : Result RpcError AddResponse)
          → (find_by_name net (disk.base path) log).1 ≡ ok none
          → (add net req (find_by_name net (disk.base path) log).0).1 ≡ r
          → (fetched net disk fuel max path cancelled
              (added_id r)
              (add net req (find_by_name net (disk.base path) log).0).0).1
            ≡ some (ok (content, size))
          → IsFetched net disk max req path log content size
      by_added (err e) missing added h' = cc h'
      by_added (ok a) missing added h' =
          waited-IsFetched fuel cancelled (owned a.id)
            (add net req (find_by_name net (disk.base path) log).0).0
            (inr (a, missing, added, refl, refl)) h'

      by_found :
          {content : Bytes} {size : ℕ} (r : Result RpcError (Option TorrentStatus))
          → (find_by_name net (disk.base path) log).1 ≡ r
          → (fetched net disk fuel max path cancelled
              (found_or_added net req r (find_by_name net (disk.base path) log).0).1
              (found_or_added net req r (find_by_name net (disk.base path) log).0).0).1
            ≡ some (ok (content, size))
          → IsFetched net disk max req path log content size
      by_found (err e) found h' = cc h'
      by_found (ok (some t)) found h' =
          waited-IsFetched fuel cancelled (existing t.id) (find_by_name net (disk.base path) log).0
            (inl (t, found, refl, refl)) h'
      by_found (ok none) found h' =
          by_added (add net req (find_by_name net (disk.base path) log).0).1 found refl h'
