-- ===== src/Commands/Markers.antt =====
-- cmd/atlas-bridge/main.go: a dump is imported once.
use atlas_bridge.Base.{◌≡◌, refl, true, none, some}
use atlas_bridge.Base.Text.{Bytes, codes, =ᵇ_refl}
use atlas_bridge.Base.Maps.{find, find-store}
use atlas_bridge.Commands.{Files, Import, marker_path, ingest_once}

-- A second call of ingestOnce for the same dump, whatever it would run, behind a first one whose marker
-- could be written: if the first one had no error, the second changes nothing and counts nothing; if the
-- first one had an error, the second runs.
pub ingest_once-ingest_once :
    {S E : Type 0} (path : Bytes) (first second : S → Import S E) (files : Files) (s s' : S)
    → find (marker_path path) files ≡ none
    → ((first s).error ≡ none
        → ingest_once true path second (ingest_once true path first files s).0 s' ≡ (
          (ingest_once true path first files s).0,
          record { state = s'; count = 0; skipped = 0; error = none },
        ))
      × ((e : E)
          → (first s).error ≡ some e
          → (ingest_once true path second (ingest_once true path first files s).0 s').1 ≡ second s')
unfolding ingest_once
ingest_once-ingest_once path first second files s s' fresh = (
  λ fine.
      rw
        (
          fresh,
          fine,
          find-store (marker_path path) (marker_path path) (codes "complete\n") files,
          =ᵇ_refl (marker_path path),
        )
        refl,
  λ e bad. rw (fresh, bad, fresh) refl,
)
