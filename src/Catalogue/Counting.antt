-- ===== src/Catalogue/Counting.antt =====
-- internal/catalog/sync.go: what countingReader lets through.
use atlas_bridge.Base.{
  ℕ, ◌+◌, ◌-◌, ◌≡◌, ◌≤◌, ◌<◌, refl, List, [], ◌∷◌, ◌++◌, Option, none, some, if◌then◌else◌, ltb,
  leb, length, take, drop, arith, leb→le, Bool-cases, inl, inr, sym, ◌∙◌, ap, append_assoc,
  take-append-drop, length-take, length-append,
}
use atlas_bridge.Base.Text.{Bytes}
use atlas_bridge.Catalogue.Readers.{
  ReadError, exceeded, SourceError, eof, broken, Source, read_source, Counting, kept_error,
  read_counted, read_sizes, limited,
}

-- The bytes that a source holds.
abbrev pub content : Source → Bytes
content [] = []
content (c ∷ cs) = c.bytes ++ content cs

read_source-content :
    (k : ℕ) (s : Source)
    → ((read_source k s).0 ++ content (read_source k s).2 ≡ content s)
      × (length (read_source k s).0 ≤ k)
read_source-content k [] = (refl, omega arith)
read_source-content k (c ∷ cs) = elim (Bool-cases (leb (length c.bytes) k)) [
  | inl y ↦ rw y (refl, leb→le _ _ y)
  | inr n ↦ rw n (
    sym (append_assoc (take k c.bytes) (drop k c.bytes) (content cs))
        ∙ ap (λ b. b ++ content cs) (take-append-drop k c.bytes),
    omega (arith, length-take k c.bytes),
  )
]

-- Between the reader `r` and `r'` behind it, `out` was delivered.
pub record IsBounded (r : Counting) (r' : Counting) (out : Bytes) : Type 0 where
  pub nothing_lost : out ++ content r'.source ≡ content r.source
  pub same_max : r'.max ≡ r.max
  pub counts : r'.n ≡ r.n + length out
  pub within : r'.n ≤ r.max
  pub is_full : r'.error ≡ some exceeded → r'.n ≡ r.max

kept_error-exceeded :
    (old : Option ReadError) (e : Option SourceError)
    → kept_error old e ≡ some exceeded
    → old ≡ some exceeded
kept_error-exceeded old none h = h
kept_error-exceeded old (some eof) h = cc h
kept_error-exceeded old (some broken) h = cc h

read_counted-IsBounded :
    (k : ℕ) (r : Counting)
    → r.n ≤ r.max
    → (r.error ≡ some exceeded → r.n ≡ r.max)
    → IsBounded r (read_counted k r).0 (read_counted k r).1
unfolding read_counted
read_counted-IsBounded k r le full = elim (Bool-cases (leb r.max r.n)) [
  | inl y ↦ rw y (record {
    nothing_lost = refl;
    same_max = refl;
    counts = omega arith;
    within = le;
    is_full = λ h. omega (arith, leb→le _ _ y);
  })
  | inr n ↦
      rw n (by_size (if ltb (r.max - r.n) k then r.max - r.n else k) (ground arith) (ground arith))
]
  where
    by_size :
        (k' : ℕ)
        → r.n < r.max
        → k' ≤ r.max - r.n
        → IsBounded r
            (record r {
              source = (read_source k' r.source).2;
              n = r.n + length (read_source k' r.source).0;
              error = kept_error r.error (read_source k' r.source).1;
            })
            (read_source k' r.source).0
    by_size k' below fits =
        let (kept, short) = read_source-content k' r.source in
        record {
          nothing_lost = kept;
          same_max = refl;
          counts = refl;
          within = omega arith;
          is_full = λ h. absurd (omega (arith, full (kept_error-exceeded _ _ h)));
        }

read_sizes-IsBounded :
    (ks : List ℕ) (r : Counting)
    → r.n ≤ r.max
    → (r.error ≡ some exceeded → r.n ≡ r.max)
    → IsBounded r (read_sizes ks r).0 (read_sizes ks r).1
unfolding read_sizes
read_sizes-IsBounded [] r le full = record {
  nothing_lost = refl;
  same_max = refl;
  counts = omega arith;
  within = le;
  is_full = full;
}
read_sizes-IsBounded (k ∷ ks) r le full =
    let one = read_counted-IsBounded k r le full in
    let got = read_counted k r in
    let rest =
      read_sizes-IsBounded ks got.0 (rw one.same_max one.within)
        (λ h. one.is_full h ∙ sym one.same_max) in
    record {
      nothing_lost =
          append_assoc got.1 (read_sizes ks got.0).1 (content (read_sizes ks got.0).0.source)
          ∙ (ap (λ b. got.1 ++ b) rest.nothing_lost ∙ one.nothing_lost);
      same_max = rest.same_max ∙ one.same_max;
      counts = omega (arith, rest.counts, one.counts, length-append got.1 (read_sizes ks got.0).1);
      within = omega (arith, rest.within, one.same_max);
      is_full = λ h. rest.is_full h ∙ one.same_max;
    }

-- Whatever sizes the reads of a counting reader have: what it delivers are the first bytes of the dump,
-- at most max of them, and the rest is still to come. It reports that the limit is exceeded only behind
-- max delivered bytes, so never for a dump of fewer than max bytes.
pub read_sizes-limit :
    (ks : List ℕ) (max : ℕ) (source : Source)
    → ((read_sizes ks (limited max source)).1
          ++ content (read_sizes ks (limited max source)).0.source
        ≡ content source)
      × (length (read_sizes ks (limited max source)).1 ≤ max)
      × ((read_sizes ks (limited max source)).0.error ≡ some exceeded
          → (length (read_sizes ks (limited max source)).1 ≡ max) × (max ≤ length (content source)))
read_sizes-limit ks max source =
    let b = read_sizes-IsBounded ks (limited max source) (omega arith) (λ h. cc h) in
    (
      b.nothing_lost,
      omega (arith, b.counts, b.within),
      λ h. (
        omega (arith, b.counts, b.is_full h),
        omega (
          arith,
          b.counts,
          b.is_full h,
          ap length b.nothing_lost,
          length-append (read_sizes ks (limited max source)).1
              (content (read_sizes ks (limited max source)).0.source),
        ),
      ),
    )
