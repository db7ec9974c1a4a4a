-- ===== src/Acquisition/Copy.antt =====
-- internal/acquisition/manager.go: the copying loop of a run over HTTP, and what it leaves in the part
-- file.
use atlas_bridge.Base.{
  ℕ, ◌+◌, ◌≤◌, ◌<◌, ◌≡◌, refl, false, ◌&&◌, List, [], ◌∷◌, ◌++◌, Option, none, some, ◌∙◌, ap, arith,
  if◌then◌else◌, Bool-cases, inl, inr, ok, ltb, length, length-append, append_assoc, append-nil,
  subst,
}
use atlas_bridge.Base.Text.{Bytes, codes}
use atlas_bridge.Acquisition.{Job}
use atlas_bridge.Acquisition.Steps.{Action, advance, create_part, write_part, advance_job}
use atlas_bridge.Acquisition.Run.{
  World, Read, ReadEnd, more, at_eof, broken, RemoteFile, run_http, copy_loop, finish, unless,
  staged, announced, discard, by_ending,
}
use atlas_bridge.Acquisition.Jobs.{job_steps}
use atlas_bridge.Acquisition.Outcome.{
  part_steps, prefixed, behind, whole_body, Settles, discard-Settles, unless-Settles,
  staged-Settles, finish-Settles,
}

-- The limit holds of what is copied so far.
abbrev Within : World → ℕ → Type 0
Within w copied = 0 < w.max_bytes → copied ≤ w.max_bytes

finish-part :
    (w : World) (file_id body : Bytes) (copied : ℕ) (j : Job)
    → copied ≡ length body
    → Within w copied
    → Settles w file_id (some (body ++ [])) (finish w.disk file_id copied body) (some body) j
finish-part w file_id body copied j e within =
    rw (append-nil body, e) (finish-Settles w file_id (some body) body refl j (rw e at within))

ending-Settles :
    (w : World) (file_id content : Bytes) (rest : Option Bytes) (copied : ℕ) (loop : List Action)
    (e : ReadEnd) (j : Job)
    → copied ≡ length content
    → Within w copied
    → Settles w file_id (prefixed content rest) loop (some content) j
    → Settles w file_id
        (prefixed content (behind e rest))
        (by_ending w.disk e loop (finish w.disk file_id copied content))
        (some content)
        j
ending-Settles w file_id content rest copied loop more j e within h = h
ending-Settles w file_id content rest copied loop at_eof j e within h =
    finish-part w file_id content copied j e within
ending-Settles w file_id content rest copied loop (broken msg) j e within h =
    discard-Settles w file_id none msg (some content) j

prefixed-append :
    (a b : Bytes) (rest : Option Bytes) → prefixed (a ++ b) rest ≡ prefixed a (prefixed b rest)
prefixed-append a b none = refl
prefixed-append a b (some c) = ap some (append_assoc a b c)

no_bytes : (s : Bytes) → ltb 0 (length s) ≡ false → s ≡ []
no_bytes [] h = refl
no_bytes (c ∷ s) h = ground arith

-- One round of the loop: the limit, the write and the progress, before what comes after them.
round-Settles :
    (w : World) (file_id content chunk : Bytes) (full : Option Bytes) (copied : ℕ)
    (rest : List Action) (j : Job)
    → Within w copied
    → ((j' : Job)
        → Within w (copied + length chunk)
        → Settles w file_id full rest (some (content ++ chunk)) j')
    → Settles w file_id full
        (if ltb 0 (length chunk)
          then if ltb 0 w.max_bytes && ltb w.max_bytes (copied + length chunk)
            then discard w.disk (codes "download exceeds configured limit")
            else unless w.disk
                (w.disk.write_error (copied + length chunk))
                (write_part chunk ∷ advance (copied + length chunk) ∷ rest)
          else rest)
        (some content)
        j
unfolding part_steps job_steps
round-Settles w file_id content chunk full copied rest j within after =
    elim (Bool-cases (ltb 0 (length chunk))) [
      | inl some_bytes ↦
          elim (Bool-cases (ltb 0 w.max_bytes && ltb w.max_bytes (copied + length chunk))) [
            | inl too_many ↦
                rw (some_bytes, too_many) (discard-Settles w file_id full _ (some content) j)
            | inr fits ↦
                rw (some_bytes, fits)
                  (unless-Settles w file_id full (w.disk.write_error (copied + length chunk)) _
                    (some content) j
                    (after (advance_job (copied + length chunk) j) (λ limit. ground arith)))
          ]
      | inr empty ↦
          let nothing = no_bytes chunk empty in
          rw empty (
            subst (λ c. Settles w file_id full rest (some c) j)
              (ap (λ c. content ++ c) nothing ∙ append-nil content)
              (after j (λ limit. omega (arith, within limit, ap length nothing))))
    ]

-- The loop, from any content that is already in the part file.
copy_loop-Settles :
    (w : World) (file_id content : Bytes) (copied : ℕ) (rs : List Read) (j : Job)
    → copied ≡ length content
    → Within w copied
    → Settles w file_id
        (prefixed content (whole_body rs))
        (copy_loop w file_id copied content rs)
        (some content)
        j
unfolding copy_loop
copy_loop-Settles w file_id content copied [] j e within =
    finish-part w file_id content copied j e within
copy_loop-Settles w file_id content copied (r ∷ rs) j e within =
    let copied' = copied + length r.chunk in
    let content' = content ++ r.chunk in
    let e' : copied' ≡ length content' = omega (arith, length-append content r.chunk) in
    let after : (j' : Job)
        → Within w copied'
        → Settles w file_id (prefixed content' (behind r.ending (whole_body rs)))
            (by_ending w.disk r.ending (copy_loop w file_id copied' content' rs)
              (finish w.disk file_id copied' content'))
            (some content') j' =
      λ j' within'.
        ending-Settles w file_id content' (whole_body rs) copied' _ r.ending j' e' within'
          (copy_loop-Settles w file_id content' copied' rs j' e' within') in
    rw (← prefixed-append content r.chunk (behind r.ending (whole_body rs))) (
      round-Settles w file_id content r.chunk (prefixed content' (behind r.ending (whole_body rs)))
        copied _ j within after)

prefixed-nil : (rest : Option Bytes) → prefixed [] rest ≡ rest
prefixed-nil none = refl
prefixed-nil (some c) = refl

pub run_http-Settles :
    (w : World) (file_id : Bytes) (remote : RemoteFile) (j : Job)
    → Settles w file_id (whole_body remote.body) (run_http w file_id (ok remote)) none j
unfolding run_http part_steps job_steps
run_http-Settles w file_id remote j = announced_first remote.size
  where
    opened :
        (j' : Job)
        → Settles w file_id
            (whole_body remote.body)
            (staged w.disk.mkdir_error
              (staged w.disk.open_error (create_part ∷ copy_loop w file_id 0 [] remote.body)))
            none
            j'
    opened j' = staged-Settles w file_id _ w.disk.mkdir_error _ j' (
        staged-Settles w file_id _ w.disk.open_error _ j' (
          subst (λ o. Settles w file_id o (copy_loop w file_id 0 [] remote.body) (some []) j')
            (prefixed-nil (whole_body remote.body))
            (copy_loop-Settles w file_id [] 0 remote.body j' refl (λ limit. omega arith))))

    announced_first :
        (o : Option ℕ)
        → Settles w file_id
            (whole_body remote.body)
            (announced o
              ++ staged w.disk.mkdir_error
                  (staged w.disk.open_error (create_part ∷ copy_loop w file_id 0 [] remote.body)))
            none
            j
    announced_first none = opened j
    announced_first (some n) = opened (record j { total_bytes = some n })
