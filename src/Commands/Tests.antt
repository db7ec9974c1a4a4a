-- ===== src/Commands/Tests.antt =====
-- cmd/atlas-bridge/main.go: runs at concrete inputs.
use atlas_bridge.Base.{
  ℕ, ◌+◌, ◌≡◌, refl, Bool, true, false, List, [], ◌∷◌, ◌++◌, none, some, if◌then◌else◌, ok,
}
use atlas_bridge.Base.Text.{Bytes, codes, ◌=ᵇ◌, has_prefix}
use atlas_bridge.Base.Decimal.{pos}
use atlas_bridge.Base.Maps.{find, store, remove}
use atlas_bridge.Config.{Config}
use atlas_bridge.Torrent.Transmission.{
  Net, Sent, TorrentStatus, get_one, get_all, empty_reply, find_by_name, get, call, attempt,
}
use atlas_bridge.Torrent.Transmission.Fetch.{
  Disk, poll, choose_torrent, open_download, open_torrent_file, download_file,
}
use atlas_bridge.Commands.{
  Files, Paths, Faults, path_not_contained, not_renamed, payload_request, is_uncontained,
  stage_payload, retrieve_catalogue_torrent, Import, ingest_once,
}
use atlas_bridge.Commands.Retrieved.{IsRetrieved, retrieve_catalogue_torrent-IsRetrieved}

abbrev done : TorrentStatus
done = record { id = pos 7; name = codes "f"; is_done = true; total_size = pos 2; error = [] }

-- Every answer has the one torrent, which is complete.
abbrev net : Net
net n s = ok (record {
  status_code = 200;
  session_id = [];
  envelope = ok (record {
    result = codes "success";
    arguments = some (ok (record empty_reply { torrents = done ∷ [] }));
  });
})

abbrev disk : Disk
disk = record {
  dir = λ p. codes "/c";
  base = λ p. codes "f";
  join = λ a b c. a ++ codes "/" ++ b ++ codes "/" ++ c;
  open_at = λ p. if p =ᵇ codes "/c/torrents/f" then some (codes "ok") else none;
  stat_error = λ p. none;
}

abbrev paths : Paths
paths = record { clean = λ p. p; dir = λ p. codes "/c"; join = λ a b. a ++ (codes "/" ++ b) }

abbrev sound : Faults
sound = record {
  folder = false;
  root = false;
  opening = false;
  copy = none;
  sync = false;
  close = false;
  rename = false;
}

abbrev configured : Bytes → Config
configured path = record {
  listen_address = [];
  public_base_url = [];
  data_path = [];
  bridge_token = [];
  anna_key = [];
  anna_mirrors = [];
  anna_origins = [];
  libgen_mirrors = [];
  libgen_origins = [];
  metadata_limit = 1;
  download_limit = 1;
  request_timeout = 1;
  catalogue_jsonl = [];
  catalogue_zstd = codes "/c/z";
  catalogue_files_zstd = [];
  catalogue_torrent = codes "M";
  catalogue_torrent_path = path;
  catalogue_files_torrent = [];
  catalogue_files_torrent_path = [];
  catalogue_max_expanded = 0;
  catalogue_payload_limit = 100;
  transmission_rpc = [];
}

abbrev never : ℕ → Bool
never n = false

abbrev old : Files
old = (codes "/c/z", codes "old") ∷ []

abbrev asked : List Sent
asked =
    record { session = none; rpc = get_one (pos 7) } ∷ record { session = none; rpc = get_all } ∷ []

retrieved :
    retrieve_catalogue_torrent net disk paths sound 3 (configured (codes "f")) never [] old
    ≡ (asked, some ((codes "/c/z", codes "ok") ∷ [], none))
unfolding retrieve_catalogue_torrent is_uncontained stage_payload download_file choose_torrent
    find_by_name get call attempt poll open_download open_torrent_file has_prefix store remove
retrieved = refl

-- A rename that fails leaves the old file.
renaming_test :
    retrieve_catalogue_torrent net disk paths
      (record sound { rename = true })
      3
      (configured (codes "f"))
      never
      []
      old
    ≡ (asked, some (old, some not_renamed))
unfolding retrieve_catalogue_torrent is_uncontained stage_payload download_file choose_torrent
    find_by_name get call attempt poll open_download open_torrent_file has_prefix store remove
renaming_test = refl

outside_test :
    retrieve_catalogue_torrent net disk paths sound 3 (configured (codes "../f")) never [] old
    ≡ ([], some (old, some path_not_contained))
unfolding retrieve_catalogue_torrent is_uncontained has_prefix
outside_test = refl

retrieve_catalogue_torrent-IsRetrieved_example :
    IsRetrieved
      (λ content size.
        download_file net disk 3 100
          (payload_request (configured (codes "f")))
          (codes "/c/torrents/f")
          never
          []
        ≡ (asked, some (ok (content, size))))
      (codes "/c/z")
      old
      ((codes "/c/z", codes "ok") ∷ [], none)
    × (is_uncontained (codes "f") ≡ true → asked ≡ [])
retrieve_catalogue_torrent-IsRetrieved_example =
    retrieve_catalogue_torrent-IsRetrieved net disk paths sound 3 (configured (codes "f")) never []
      asked old ((codes "/c/z", codes "ok") ∷ [], none) retrieved

-- An import that counts its runs.
abbrev counting : ℕ → Import ℕ Bytes
counting n = record { state = n + 1; count = 5; skipped = 0; error = none }

once_test :
    (ingest_once true (codes "z") counting (ingest_once true (codes "z") counting [] 0).0 1).1.state
    ≡ 1
unfolding ingest_once find store
once_test = refl
