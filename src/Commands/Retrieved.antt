-- ===== src/Commands/Retrieved.antt =====
-- cmd/atlas-bridge/main.go: what retrieveCatalogueTorrent leaves on the disk.
use atlas_bridge.Base.{
  ℕ, ◌<◌, ◌≡◌, ◌≢◌, refl, Bool, true, false, List, Option, none, some, if◌then◌else◌, Result, err,
  ok, Bool-cases, inl, inr, subst,
}
use atlas_bridge.Base.Text.{Bytes, codes}
use atlas_bridge.Base.Maps.{find}
use atlas_bridge.Config.{Config}
use atlas_bridge.Torrent.Transmission.{Net, Sent, RpcError}
use atlas_bridge.Torrent.Transmission.Fetch.{Disk, download_file}
use atlas_bridge.Commands.{
  Files, Paths, Faults, Staging, is_uncontained, part_path, RetrieveError, path_not_contained,
  no_folder, no_root, not_opened, not_downloaded, payload_staged, payload_awaited, payload_request,
  retrieve_catalogue_torrent,
}
use atlas_bridge.Commands.Staged.{IsStaged, stage_payload-IsStaged}

-- What a retrieval leaves that has ended with `s`; `Downloaded` says what DownloadFile gave.
pub record IsRetrieved (Downloaded : Bytes → ℕ → Type 0) (target : Bytes) (files : Files)
    (s : Staging) : Type 0 where
  pub success :
      s.1 ≡ none
      → (content : Bytes) × (size : ℕ) × Downloaded content size
        × (0 < size)
        × (find target s.0 ≡ some content)
        × (find (part_path target) s.0 ≡ none)
  pub failure : s.1 ≢ none → (p : Bytes) → p ≢ part_path target → find p s.0 ≡ find p files
  pub others : (p : Bytes) → p ≢ part_path target → p ≢ target → find p s.0 ≡ find p files

refused-IsRetrieved :
    (Downloaded : Bytes → ℕ → Type 0) (target : Bytes) (files : Files) (e : RetrieveError)
    → IsRetrieved Downloaded target files (files, some e)
refused-IsRetrieved Downloaded target files e = record {
  success = λ h. cc h;
  failure = λ bad p h. refl;
  others = λ p h h'. refl;
}

payload_staged-IsRetrieved :
    (Downloaded : Bytes → ℕ → Type 0) (faults : Faults) (target : Bytes) (files : Files)
    (result : Result RpcError (Bytes × ℕ))
    → ((content : Bytes) (size : ℕ) → result ≡ ok (content, size) → Downloaded content size)
    → IsRetrieved Downloaded target files (payload_staged faults target files result)
payload_staged-IsRetrieved Downloaded faults target files (err e) given =
    refused-IsRetrieved Downloaded target files (not_downloaded e)
payload_staged-IsRetrieved Downloaded faults target files (ok (content, size)) given =
    by_open faults.opening _ (stage_payload-IsStaged faults target content size files)
  where
    by_open :
        (b : Bool) (s : Staging)
        → IsStaged target content size files s
        → IsRetrieved Downloaded target files (if b then (files, some not_opened) else s)
    by_open true s staged = refused-IsRetrieved Downloaded target files not_opened
    by_open false s staged = record {
      success = λ h.
          let (found, positive, gone) = staged.success h in
          (content, size, given content size refl, positive, found, gone);
      failure = staged.failure;
      others = staged.others;
    }

-- Whatever fails: a retrieval that ends without an error has put under the catalogue's path the whole
-- content that DownloadFile gave, which is not empty, and leaves no part file; one that ends with an
-- error leaves every file but the part file as it was. No other file changes in either case, and with a
-- path that is not inside the folder, nothing is asked of the torrent client.
pub retrieve_catalogue_torrent-IsRetrieved :
    (net : Net) (disk : Disk) (paths : Paths) (faults : Faults) (fuel : ℕ) (cfg : Config)
    (cancelled : ℕ → Bool) (log log' : List Sent) (files : Files) (s : Staging)
    → retrieve_catalogue_torrent net disk paths faults fuel cfg cancelled log files ≡ (log', some s)
    → IsRetrieved
        (λ content size.
          download_file net disk fuel cfg.catalogue_payload_limit
            (payload_request cfg)
            (paths.join
              (paths.join (paths.dir cfg.catalogue_zstd) (codes "torrents"))
              (paths.clean cfg.catalogue_torrent_path))
            cancelled
            log
          ≡ (log', some (ok (content, size))))
        cfg.catalogue_zstd
        files
        s
      × (is_uncontained (paths.clean cfg.catalogue_torrent_path) ≡ true → log' ≡ log)
unfolding retrieve_catalogue_torrent
retrieve_catalogue_torrent-IsRetrieved net disk paths faults fuel cfg cancelled log log' files s h =
    elim (Bool-cases (is_uncontained (paths.clean cfg.catalogue_torrent_path))) [
      | inl y ↦ (refused path_not_contained s (cc (h, y)), λ _. cc (h, y))
      | inr n ↦ (
        elim (Bool-cases faults.folder) [
          | inl y ↦ refused no_folder s (cc (h, n, y))
          | inr n1 ↦ elim (Bool-cases faults.root) [
            | inl y ↦ refused no_root s (cc (h, n, n1, y))
            | inr n2 ↦ by_download _ refl (cc (h, n, n1, n2))
          ]
        ],
        λ y. cc (n, y),
      )
    ]
  where
    Given : Bytes → ℕ → Type 0
    Given content size =
        download_file net disk fuel cfg.catalogue_payload_limit (payload_request cfg)
          (paths.join (paths.join (paths.dir cfg.catalogue_zstd) (codes "torrents"))
            (paths.clean cfg.catalogue_torrent_path))
          cancelled log
        ≡ (log', some (ok (content, size)))

    refused :
        (e : RetrieveError) (s' : Staging)
        → (files, some e) ≡ s'
        → IsRetrieved Given cfg.catalogue_zstd files s'
    refused e s' same =
        subst (λ x. IsRetrieved Given cfg.catalogue_zstd files x) same
          (refused-IsRetrieved Given cfg.catalogue_zstd files e)

    by_download :
        (d : List Sent × Option (Result RpcError (Bytes × ℕ)))
        → download_file net disk fuel cfg.catalogue_payload_limit
            (payload_request cfg)
            (paths.join
              (paths.join (paths.dir cfg.catalogue_zstd) (codes "torrents"))
              (paths.clean cfg.catalogue_torrent_path))
            cancelled
            log
          ≡ d
        → payload_awaited faults cfg.catalogue_zstd files d ≡ (log', some s)
        → IsRetrieved Given cfg.catalogue_zstd files s
    by_download (l, none) e h' = cc h'
    by_download (l, some result) e h' =
        subst (λ x. IsRetrieved Given cfg.catalogue_zstd files x)
          {x = payload_staged faults cfg.catalogue_zstd files result} {y = s} (cc h')
          (payload_staged-IsRetrieved Given faults cfg.catalogue_zstd files result
            (λ content size given. cc (e, given, h')))
