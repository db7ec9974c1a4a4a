-- ===== src/Commands/Staged.antt =====
-- cmd/atlas-bridge/main.go: what the staging of retrieveCatalogueTorrent leaves on the disk.
use atlas_bridge.Base.{
  ℕ, ◌<◌, ◌==◌, ◌≡◌, ◌≢◌, refl, Bool, true, false, ◌||◌, Option, none, some, take, length,
  length-append, arith, ap, sym, ◌∙◌,
}
use atlas_bridge.Base.Text.{Bytes, codes, ◌=ᵇ◌, =ᵇ_iff, =ᵇ_refl}
use atlas_bridge.Base.Maps.{find, store, remove, find-store, find-remove}
use atlas_bridge.Commands.{
  Files, Faults, Staging, part_path, RetrieveError, not_copied, not_staged, empty_payload,
  not_renamed, renamed, sized_part, synced, copied, stage_payload,
}

-- What the staging of `content` leaves: the whole content under `target` and no part file; or, with an
-- error, every other file than the part file as it was.
pub record IsStaged (target content : Bytes) (size : ℕ) (files : Files) (s : Staging) : Type 0 where
  pub success :
      s.1 ≡ none
      → (find target s.0 ≡ some content) × (0 < size) × (find (part_path target) s.0 ≡ none)
  pub failure : s.1 ≢ none → (p : Bytes) → p ≢ part_path target → find p s.0 ≡ find p files
  pub others : (p : Bytes) → p ≢ part_path target → p ≢ target → find p s.0 ≡ find p files

part_path-other : (target : Bytes) → target ≢ part_path target
part_path-other target e = absurd (omega (arith, length-append target (codes ".part"), ap length e))

find-discarded :
    (part content p : Bytes) (files : Files)
    → p ≢ part
    → find p (remove part (store part content files)) ≡ find p files
find-discarded part content p files other =
    rw
      (
        find-remove part p (store part content files),
        find-store part p content files,
        different (part =ᵇ p) refl,
      )
      refl
  where
    different : (b : Bool) → (part =ᵇ p) ≡ b → b ≡ false
    different true e = absurd (other (sym ((=ᵇ_iff part p).0 e)))
    different false e = refl

untouched-IsStaged :
    (target content : Bytes) (size : ℕ) (files files' : Files) (e : RetrieveError)
    → ((p : Bytes) → p ≢ part_path target → find p files' ≡ find p files)
    → IsStaged target content size files (files', some e)
untouched-IsStaged target content size files files' e keeps = record {
  success = λ h. cc h;
  failure = λ bad. keeps;
  others = λ p h h'. keeps p h;
}

find-absent : (part : Bytes) (files : Files) → find part (remove part files) ≡ none
find-absent part files = rw (find-remove part part files, =ᵇ_refl part) refl

renamed-IsStaged :
    (target content : Bytes) (size : ℕ) (files : Files)
    → 0 < size
    → IsStaged target content size files (
      store target content (remove (part_path target) (store (part_path target) content files)),
      none,
    )
renamed-IsStaged target content size files positive = record {
  success = λ _. (
    rw (find-store target target content discarded, =ᵇ_refl target) refl,
    positive,
    elsewhere (part_path target) (λ e. part_path-other target (sym e))
        ∙ find-absent (part_path target) (store (part_path target) content files),
  );
  failure = λ bad. absurd (bad refl);
  others = λ p h h'. elsewhere p h' ∙ find-discarded (part_path target) content p files h;
}
  where
    discarded : Files
    discarded = remove (part_path target) (store (part_path target) content files)

    different : (p : Bytes) (b : Bool) → p ≢ target → (target =ᵇ p) ≡ b → b ≡ false
    different p true h e = absurd (h (sym ((=ᵇ_iff target p).0 e)))
    different p false h e = refl

    elsewhere :
        (p : Bytes) → p ≢ target → find p (store target content discarded) ≡ find p discarded
    elsewhere p h = rw (find-store target p content discarded, different p _ h refl) refl

pub stage_payload-IsStaged :
    (faults : Faults) (target content : Bytes) (size : ℕ) (files : Files)
    → IsStaged target content size files (stage_payload faults target content size files)
unfolding stage_payload
stage_payload-IsStaged faults target content size files = by_copy faults.copy
  where
    abandoned :
        (written : Bytes) (e : RetrieveError)
        → IsStaged target content size files
            (remove (part_path target) (store (part_path target) written files), some e)
    abandoned written e =
        untouched-IsStaged target content size files _ e
          (λ p h. find-discarded (part_path target) written p files h)

    by_rename :
        (b : Bool) → 0 < size → IsStaged target content size files (renamed target content files b)
    by_rename true positive = abandoned content not_renamed
    by_rename false positive = renamed-IsStaged target content size files positive

    by_size :
        (b : Bool)
        → (size == 0) ≡ b
        → IsStaged target content size files (sized_part faults target content files b)
    by_size true e = abandoned content empty_payload
    by_size false e = by_rename faults.rename (ground arith)

    by_sync :
        (b : Bool) → IsStaged target content size files (synced faults target content size files b)
    by_sync true = abandoned content not_staged
    by_sync false = by_size (size == 0) refl

    by_copy :
        (c : Option ℕ)
        → IsStaged target content size files (copied faults target content size files c)
    by_copy (some n) = abandoned (take n content) not_copied
    by_copy none = by_sync (faults.sync || faults.close)
