-- ===== src/Catalogue/Batches.antt =====
-- internal/catalog/sync.go: what the import loop has stored and counted, however its batches fall.
use atlas_bridge.Base.{
  Bool, ℕ, suc, ◌+◌, ◌≡◌, ◌≤◌, refl, List, [], ◌∷◌, ◌++◌, Option, none, some, if◌then◌else◌, length,
  take, take-all, take-length_append, length-append, append-nil, arith,
}
use atlas_bridge.Base.Text.{Bytes}
use atlas_bridge.Catalogue.{StoreError}
use atlas_bridge.Catalogue.Books.{limit_reached}
use atlas_bridge.Catalogue.Import.{Imported, ended, finished, flush_batch}

-- What the lines hold that are looked at, up to the limit: the items in order, and the number of lines
-- that are none.
abbrev pub item_and : {A : Type 0} → Option A → ℕ → (ℕ → List A × ℕ) → List A × ℕ
item_and none count rest = ((rest count).0, suc (rest count).1)
item_and (some a) count rest = (a ∷ (rest (suc count)).0, (rest (suc count)).1)

abbrev pub survey : {A : Type 0} → (Bytes → Option A) → ℕ → List Bytes → ℕ → List A × ℕ
survey convert limit [] count = ([], 0)
survey convert limit (l ∷ ls) count =
    if limit_reached limit count
    then ([], 0)
    else item_and (convert l) count (survey convert limit ls)

-- The items `all` of an import: a prefix of them is stored, in the sense of `Inv`, and it falls short of
-- what was counted by at most one batch. An import with no error has stored and counted all of them.
pub record IsImported {S A : Type 0} (Inv : List A → S → Type 0) (size : ℕ) (all : List A)
    (rejected : ℕ) (r : Imported S) : Type 0 where
  pub stored : ℕ
  pub kept : Inv (take stored all) r.store
  pub at_most : stored ≤ r.count
  pub recent : r.count ≤ stored + size
  pub complete :
      r.error ≡ none → (take stored all ≡ all) × (r.count ≡ length all) × (r.skipped ≡ rejected)

module _ {S A : Type 0} (Inv : List A → S → Type 0) (convert : Bytes → Option A)
    (before : A → S → S × Option StoreError) (flush : List A → S → S × Option StoreError)
    (finish : S → S × Option StoreError) (size limit : ℕ)
    (scan_error : Bool → Option StoreError) where
  -- What the theorem asks of the steps: a batch is stored whole or not at all, and the other steps keep
  -- what is stored.
  pub record StepsKeep : Type 0 where
    pub before_keeps : (xs : List A) (a : A) (s : S) → Inv xs s → Inv xs (before a s).0
    pub flush_stores :
        (xs batch : List A) (s : S)
        → Inv xs s
        → (flush batch s).1 ≡ none
        → Inv (xs ++ batch) (flush batch s).0
    pub flush_fails :
        (xs batch : List A) (s : S) {e : StoreError}
        → Inv xs s
        → (flush batch s).1 ≡ some e
        → Inv xs (flush batch s).0
    pub finish_keeps : (xs : List A) (s : S) → Inv xs s → Inv xs (finish s).0

  abbrev pub Flushed : List A → List A → S × Option StoreError → Type 0
  Flushed done batch o =
      (o.1 ≡ none → Inv (done ++ batch) o.0) × ((e : StoreError) → o.1 ≡ some e → Inv done o.0)

  pub flush_batch-Flushed :
      StepsKeep
      → (done batch : List A) (s : S) → Inv done s
      → Flushed done batch (flush_batch convert before flush finish size limit scan_error batch s)
  flush_batch-Flushed k done [] s h = (λ _. rw (append-nil done) h, λ e bad. cc bad)
  flush_batch-Flushed k done (a ∷ batch) s h = (
    λ fine. k.flush_stores done (a ∷ batch) s h fine,
    λ e bad. k.flush_fails done (a ∷ batch) s h bad,
  )

  -- A stop with an error, behind `done`.
  pub stopped :
      (done rest : List A) (rejected count skipped : ℕ) (s : S) (e : StoreError)
      → Inv done s
      → length done ≤ count
      → count ≤ length done + size
      → IsImported Inv size
          (done ++ rest)
          rejected
          (record { store = s; count = count; skipped = skipped; error = some e })
  stopped done rest rejected count skipped s e h low high = record {
    stored = length done;
    kept = rw (take-length_append done rest) h;
    at_most = low;
    recent = high;
    complete = λ bad. cc bad;
  }

  pub ended-IsImported :
      StepsKeep
      → (done batch : List A) (count skipped : ℕ) (error : Option StoreError)
        (o : S × Option StoreError)
      → Flushed done batch o
      → count ≡ length done + length batch
      → length batch ≤ size
      → IsImported Inv size
          (done ++ batch)
          skipped
          (ended convert before flush finish size limit scan_error count skipped error o)
  ended-IsImported k done batch count skipped error (s, some e) h counts small =
      stopped done batch skipped count skipped s e (h.1 e refl) (omega arith) (omega arith)
  ended-IsImported k done batch count skipped error (s, none) h counts small =
      by_finish (finish s) (k.finish_keeps (done ++ batch) s (h.0 refl))
    where
      everything :
          (s' : S) (error' : Option StoreError)
          → Inv (done ++ batch) s'
          → IsImported Inv size
              (done ++ batch)
              skipped
              (record { store = s'; count = count; skipped = skipped; error = error' })
      everything s' error' kept =
          let total = length-append done batch in
          let whole = take-all (length (done ++ batch)) (done ++ batch) (omega arith) in
          record {
            stored = length (done ++ batch);
            kept = rw whole kept;
            at_most = omega (arith, total);
            recent = omega (arith, total);
            complete = λ _. (whole, omega (arith, total), refl);
          }

      by_finish :
          (o' : S × Option StoreError)
          → Inv (done ++ batch) o'.0
          → IsImported Inv size
              (done ++ batch)
              skipped
              (finished convert before flush finish size limit scan_error count skipped error o')
      by_finish (s', some e) kept = everything s' (some e) kept
      by_finish (s', none) kept = everything s' error kept
