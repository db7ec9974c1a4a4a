-- ===== src/Catalogue/Looped.antt =====
-- internal/catalog/sync.go: the import loop, from any of its states.
use atlas_bridge.Base.{
  Bool, true, false, ℕ, suc, ◌+◌, ◌≡◌, ◌≤◌, ◌<◌, refl, List, [], ◌∷◌, ◌++◌, Option, none, some, leb,
  length, length-append, append_assoc, append-nil, arith, Bool-cases, inl, inr, subst,
}
use atlas_bridge.Base.Text.{Bytes}
use atlas_bridge.Catalogue.{StoreError}
use atlas_bridge.Catalogue.Books.{limit_reached}
use atlas_bridge.Catalogue.Import.{
  Imported, import_loop, flush_batch, after_flush, counted, after_before, converted,
}
use atlas_bridge.Catalogue.Batches.{
  survey, item_and, IsImported, StepsKeep, Flushed, flush_batch-Flushed, stopped, ended-IsImported,
}

module _ {S A : Type 0} (Inv : List A → S → Type 0) (convert : Bytes → Option A)
    (before : A → S → S × Option StoreError) (flush : List A → S → S × Option StoreError)
    (finish : S → S × Option StoreError) (size limit : ℕ)
    (scan_error : Bool → Option StoreError) where
  -- What is shown of the rest of the lines, from a state of the loop.
  abbrev Goal : List A → List A → ℕ → ℕ → List A × ℕ → Imported S → Type 0
  Goal done batch count skipped left r =
      IsImported Inv size (done ++ (batch ++ left.0)) (skipped + left.1) r

  abbrev Loop : Type 0
  Loop = List A → ℕ → ℕ → S → Imported S

  -- The rest of the loop does it, from every state that the loop can be in.
  abbrev Continues : Loop → (ℕ → List A × ℕ) → Type 0
  Continues rest left =
      (done batch : List A) (count skipped : ℕ) (s : S)
      → Inv done s
      → count ≡ length done + length batch
      → length batch < size
      → Goal done batch count skipped (left count) (rest batch count skipped s)

  after_flush-Goal :
      (rest : Loop) (left : ℕ → List A × ℕ)
      → 0 < size
      → Continues rest left
      → (done batch : List A) (count skipped : ℕ) (o : S × Option StoreError)
      → Flushed Inv convert before flush finish size limit scan_error done batch o
      → count ≡ length done + length batch
      → length batch ≤ size
      → Goal done batch count skipped
          (left count)
          (after_flush convert before flush finish size limit scan_error count skipped o rest)
  after_flush-Goal rest left pos go done batch count skipped (s, some e) h counts small =
      stopped Inv convert before flush finish size limit scan_error done (batch ++ (left count).0)
        (skipped + (left count).1) count skipped s e (h.1 e refl) (omega arith) (omega arith)
  after_flush-Goal rest left pos go done batch count skipped (s, none) h counts small =
      subst (λ all. IsImported Inv size all (skipped + (left count).1) (rest [] count skipped s))
        (append_assoc done batch (left count).0)
        (go (done ++ batch) [] count skipped s (h.0 refl)
          (omega (arith, counts, length-append done batch)) pos)

  counted-Goal :
      StepsKeep Inv convert before flush finish size limit scan_error
      → (rest : Loop) (left : ℕ → List A × ℕ) → 0 < size
      → Continues rest left
      → (done batch : List A) (count skipped : ℕ) (s : S) → Inv done s
      → count ≡ length done + length batch
      → length batch ≤ size
      → Goal done batch count skipped
          (left count)
          (counted convert before flush finish size limit scan_error batch count skipped s rest)
  counted-Goal k rest left pos go done batch count skipped s h counts small =
      elim (Bool-cases (leb size (length batch))) [
        | inl full ↦ rw full (
            after_flush-Goal rest left pos go done batch count skipped
              (flush_batch convert before flush finish size limit scan_error batch s)
              (flush_batch-Flushed Inv convert before flush finish size limit scan_error k done
                batch s h)
              counts small)
        | inr room ↦ rw room (go done batch count skipped s h counts (ground (arith, room)))
      ]

  converted-Goal :
      StepsKeep Inv convert before flush finish size limit scan_error
      → (rest : Loop) (left : ℕ → List A × ℕ) → 0 < size
      → Continues rest left
      → (o : Option A) (done batch : List A) (count skipped : ℕ) (s : S) → Inv done s
      → count ≡ length done + length batch
      → length batch < size
      → Goal done batch count skipped
          (item_and o count left)
          (converted convert before flush finish size limit scan_error o batch count skipped s rest)
  converted-Goal k rest left pos go none done batch count skipped s h counts small =
      let more = go done batch count (suc skipped) s h counts small in
      subst
        (λ n.
          IsImported Inv size (done ++ (batch ++ (left count).0)) n
            (rest batch count (suc skipped) s))
        (omega arith) more
  converted-Goal k rest left pos go (some a) done batch count skipped s h counts small =
      by_before (before a s) (k.before_keeps done a s h)
    where
      longer : length (batch ++ a ∷ []) ≡ suc (length batch)
      longer = omega (arith, length-append batch (a ∷ []))

      by_before :
          (o : S × Option StoreError)
          → Inv done o.0
          → Goal done batch count skipped (item_and (some a) count left) (
              after_before convert before flush finish size limit scan_error
                (batch ++ a ∷ [])
                count
                skipped
                o
                rest)
      by_before (s', some e) kept =
          stopped Inv convert before flush finish size limit scan_error done
            (batch ++ (a ∷ (left (suc count)).0)) (skipped + (left (suc count)).1) count skipped s'
            e kept (omega arith) (omega arith)
      by_before (s', none) kept =
          subst
            (λ all. IsImported Inv size (done ++ all) (skipped + (left (suc count)).1) (
              counted convert before flush finish size limit scan_error (batch ++ a ∷ [])
                (suc count) skipped s' rest))
            (append_assoc batch (a ∷ []) (left (suc count)).0)
            (counted-Goal k rest left pos go done (batch ++ a ∷ []) (suc count) skipped s' kept
              (omega (arith, counts, longer)) (omega (arith, small, longer)))

  none_left :
      (skipped : ℕ) (done batch : List A) {r : Imported S}
      → IsImported Inv size (done ++ batch) skipped r
      → IsImported Inv size (done ++ (batch ++ [])) (skipped + 0) r
  none_left skipped done batch {r} i =
      rw (append-nil batch) (subst (λ n. IsImported Inv size (done ++ batch) n r) (omega arith) i)

  loop-Goal :
      StepsKeep Inv convert before flush finish size limit scan_error
      → 0 < size
      → (ls : List Bytes)
      → Continues
          (import_loop convert before flush finish size limit scan_error ls)
          (survey convert limit ls)
  unfolding import_loop
  loop-Goal k pos [] done batch count skipped s h counts small = none_left skipped done batch (
      ended-IsImported Inv convert before flush finish size limit scan_error k done batch count
        skipped (scan_error false)
        (flush_batch convert before flush finish size limit scan_error batch s)
        (flush_batch-Flushed Inv convert before flush finish size limit scan_error k done batch s h)
        counts (omega arith))
  loop-Goal k pos (l ∷ ls) done batch count skipped s h counts small =
      elim (Bool-cases (limit_reached limit count)) [
        | inl stop ↦ rw stop (
            none_left skipped done batch (
              ended-IsImported Inv convert before flush finish size limit scan_error k done batch
                count skipped (scan_error true)
                (flush_batch convert before flush finish size limit scan_error batch s)
                (flush_batch-Flushed Inv convert before flush finish size limit scan_error k done
                  batch s h)
                counts (omega arith)))
        | inr go ↦ rw go (
            converted-Goal k (import_loop convert before flush finish size limit scan_error ls)
              (survey convert limit ls) pos (loop-Goal k pos ls) (convert l) done batch count
              skipped s h counts small)
      ]

  -- An import with steps that keep what is stored ends with a prefix of its items stored, and with all
  -- of them stored and counted if it has no error.
  pub import_loop-IsImported :
      StepsKeep Inv convert before flush finish size limit scan_error
      → 0 < size
      → (ls : List Bytes) (s : S) → Inv [] s
      → IsImported Inv size
          (survey convert limit ls 0).0
          (survey convert limit ls 0).1
          (import_loop convert before flush finish size limit scan_error ls [] 0 0 s)
  import_loop-IsImported k pos ls s h =
      subst
        (λ n.
          IsImported Inv size (survey convert limit ls 0).0 n
            (import_loop convert before flush finish size limit scan_error ls [] 0 0 s))
        (omega arith) (loop-Goal k pos ls [] [] 0 0 s h (omega arith) pos)
