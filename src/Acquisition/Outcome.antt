-- ===== src/Acquisition/Outcome.antt =====
-- internal/acquisition/manager.go: what a run over HTTP leaves behind, the job and the part file.
use atlas_bridge.Base.{
  ◌≤◌, ◌<◌, ◌≡◌, refl, Bool, true, false, ◌&&◌, List, [], ◌∷◌, ◌++◌, Option, none, some, arith,
  Bool-cases, inl, inr, length,
}
use mathlib.Core.Option
use atlas_bridge.Base.Text.{Bytes}
use atlas_bridge.Acquisition.{Job, completed, failed}
use atlas_bridge.Acquisition.Steps.{Action, complete, fail, create_part, remove_part, write_part}
use atlas_bridge.Acquisition.Run.{
  World, Read, ReadEnd, more, at_eof, broken, finish, conclude, unless, staged, discard, removed,
  published, checked_format, valid_signature,
}
use atlas_bridge.Acquisition.Jobs.{job_steps}

-- What a step does to the part file of its job.
unfoldable pub part_step : Action → Option Bytes → Option Bytes
part_step create_part p = some []
part_step remove_part p = none
part_step (write_part chunk) p = Option.map (λ content. content ++ chunk) p
part_step _ p = p

unfoldable pub part_steps : List Action → Option Bytes → Option Bytes
unfolding part_step
part_steps [] p = p
part_steps (a ∷ rest) p = part_steps rest (part_step a p)

abbrev pub prefixed : Bytes → Option Bytes → Option Bytes
prefixed content rest = Option.map (λ b. content ++ b) rest

abbrev pub behind : ReadEnd → Option Bytes → Option Bytes
behind more rest = rest
behind at_eof rest = some []
behind (broken _) rest = none

-- The whole of a body: the bytes of its reads up to io.EOF, or none if a read fails before that.
abbrev pub whole_body : List Read → Option Bytes
whole_body [] = some []
whole_body (r ∷ rs) = prefixed r.chunk (behind r.ending (whole_body rs))

-- The ends of a download: the whole body is in the part file, counted, within the limit and with its
-- signature, and the job is completed; or the job has failed, and there is no part file, unless it
-- could not be removed.
pub data Settled (w : World) (file_id : Bytes) (whole : Option Bytes)
    : Option Bytes → Job → Type 0 where
  stored :
      {body : Bytes} {j : Job}
      → whole ≡ some body
      → j.status ≡ completed
      → j.bytes ≡ length body
      → (0 < w.max_bytes → length body ≤ w.max_bytes)
      → (checked_format file_id ≡ true → valid_signature body file_id ≡ true)
      → Settled w file_id whole (some body) j
  discarded : {j : Job} → j.status ≡ failed → Settled w file_id whole none j
  left_behind :
      {part : Bytes} {j : Job}
      → w.disk.removes ≡ false
      → j.status ≡ failed
      → Settled w file_id whole (some part) j

module _ (w : World) (file_id : Bytes) (whole : Option Bytes) where
  -- The steps lead to one of the ends.
  abbrev pub Settles : List Action → Option Bytes → Job → Type 0
  Settles steps p j = Settled w file_id whole (part_steps steps p) (job_steps steps j)

  pub discard-Settles :
      (msg : Bytes) (p : Option Bytes) (j : Job) → Settles (discard w.disk msg) p j
  unfolding part_steps job_steps
  discard-Settles msg p j = by_removal w.disk.removes refl p
    where
      by_removal :
          (b : Bool)
          → w.disk.removes ≡ b
          → (p' : Option Bytes) → Settles (removed b (fail msg ∷ [])) p' j
      by_removal true e p' = discarded refl
      by_removal false e none = discarded refl
      by_removal false e (some part) = left_behind e refl

  pub unless-Settles :
      (o : Option Bytes) (steps : List Action) (p : Option Bytes) (j : Job)
      → Settles steps p j
      → Settles (unless w.disk o steps) p j
  unless-Settles none steps p j h = h
  unless-Settles (some e) steps p j h = discard-Settles e p j

  pub staged-Settles :
      (o : Option Bytes) (steps : List Action) (j : Job)
      → Settles steps none j
      → Settles (staged o steps) none j
  unfolding part_steps job_steps
  staged-Settles none steps j h = h
  staged-Settles (some e) steps j h = discarded refl

  module _ (body : Bytes) (is_whole : whole ≡ some body) where
    published-Settles :
        (b : Bool) (j : Job)
        → (0 < w.max_bytes → length body ≤ w.max_bytes)
        → (checked_format file_id ≡ true → valid_signature body file_id ≡ true)
        → Settles (complete (length body) ∷ published b) (some body) j
    unfolding part_steps job_steps
    published-Settles true j within signed = stored is_whole refl refl within signed
    published-Settles false j within signed = stored is_whole refl refl within signed

    conclude-Settles :
        (j : Job)
        → (0 < w.max_bytes → length body ≤ w.max_bytes)
        → Settles (conclude w.disk file_id (length body) body) (some body) j
    unfolding conclude
    conclude-Settles j within = elim (Bool-cases (checked_format file_id)) [
      | inl c ↦ elim (Bool-cases (w.disk.signature_opened && valid_signature body file_id)) [
        | inl v ↦ rw (c, v) (published-Settles w.disk.published_opened j within (λ _. ground arith))
        | inr v ↦ rw (c, v) (discard-Settles _ (some body) j)
      ]
      | inr c ↦ rw c (published-Settles w.disk.published_opened j within (λ h. cc))
    ]

    pub finish-Settles :
        (j : Job)
        → (0 < w.max_bytes → length body ≤ w.max_bytes)
        → Settles (finish w.disk file_id (length body) body) (some body) j
    unfolding finish
    finish-Settles j within =
        unless-Settles w.disk.sync_error _ (some body) j
          (unless-Settles w.disk.close_error _ (some body) j (conclude-Settles j within))
