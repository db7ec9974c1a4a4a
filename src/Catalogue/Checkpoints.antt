-- ===== src/Catalogue/Checkpoints.antt =====
-- internal/catalog/sync.go: what checkpointReader delivers and writes when an import is resumed.
use atlas_bridge.Base.{
  ℕ, zero, suc, ◌+◌, ◌-◌, ◌%◌, ◌==◌, ◌≡◌, ◌≤◌, ◌<◌, refl, true, List, [], ◌∷◌, ◌++◌, Option, none,
  some, ltb, length, take, drop, arith, Bool-cases, inl, inr, sym, ◌∙◌, ap, subst, append_assoc,
  take-append-drop, append-nil,
}
use atlas_bridge.Base.Text.{Bytes}
use atlas_bridge.Catalogue.Readers.{
  Line, line_bytes, Checkpoint, checkpointed, fill, filled, copied, read_checkpoint, deliver,
  resumed,
}

-- The bytes of lines.
abbrev pub text : List Line → Bytes
text [] = []
text (l ∷ ls) = line_bytes l ++ text ls

-- Where a reader stands that was made for `lines` with the progress `start` and has delivered `out`.
pub record IsAt (start : ℕ) (lines : List Line) (out : Bytes) (r : Checkpoint) : Type 0 where
  pub delivered : out ++ (r.pending ++ text (drop r.skip r.lines)) ≡ text (drop start lines)
  pub counts : r.seen + length r.lines ≡ start + length lines
  pub written :
      (p : ℕ) → r.progress ≡ some p → (p + 500 ≤ r.seen) × (r.seen < p + 1000) × (p % 500 ≡ 0)
  pub skipping : 0 < r.skip → r.progress ≡ none

of_multiple :
    (n p : ℕ)
    → (n % 500 == 0) ≡ true
    → 0 < n
    → some (n - 500) ≡ some p
    → (p + 500 ≡ n) × (p % 500 ≡ 0)
of_multiple n p y positive h = ground (arith, y, h)

checkpointed-written :
    (seen : ℕ) (old : Option ℕ)
    → ((p : ℕ) → old ≡ some p → (p + 500 ≤ seen) × (seen < p + 1000) × (p % 500 ≡ 0))
    → (p : ℕ) → checkpointed (seen + 1) old ≡ some p
    → (p + 500 ≤ seen + 1) × (seen + 1 < p + 1000) × (p % 500 ≡ 0)
checkpointed-written seen old before p h = elim (Bool-cases ((seen + 1) % 500 == 0)) [
  | inl y ↦
      let (e, z) = of_multiple (seen + 1) p y (omega arith) (cc (h, y)) in
      (omega arith, omega arith, z)
  | inr n ↦ let facts = before p (cc (h, n)) in ground (arith, facts.0, facts.1, facts.2, n)
]

-- The line at which the skipping ends is handed out.
head-delivered :
    (out pending target : Bytes) (skip : ℕ) (xs : List Line) (l : Line) (ls : List Line)
    → pending ≡ []
    → skip ≡ 0
    → xs ≡ l ∷ ls
    → out ++ (pending ++ text (drop skip xs)) ≡ target
    → out ++ (line_bytes l ++ text (drop skip ls)) ≡ target
head-delivered out pending target skip xs l ls hp hs hx h = rw hs (
    subst (λ x. out ++ text x ≡ target) hx
      (subst (λ n. out ++ text (drop n xs) ≡ target) hs
        (subst (λ b. out ++ (b ++ text (drop skip xs)) ≡ target) hp h)))

drop-less : (k : ℕ) (l : Line) (ls : List Line) → 0 < k → drop (k - 1) ls ≡ drop k (l ∷ ls)
drop-less zero l ls h = absurd (omega arith)
drop-less (suc k) l ls h = ap (λ n. drop n ls) (omega arith)

fill-IsAt :
    (start : ℕ) (lines : List Line) (out : Bytes) (ls : List Line) (r : Checkpoint)
    → r.lines ≡ ls
    → r.pending ≡ []
    → IsAt start lines out r
    → IsAt start lines out (fill ls r)
unfolding fill
fill-IsAt start lines out [] r e empty at = record {
  delivered =
      subst (λ x. out ++ (r.pending ++ text (drop r.skip x)) ≡ text (drop start lines)) e
        at.delivered;
  counts = omega (arith, at.counts, ap length e);
  written = at.written;
  skipping = at.skipping;
}
fill-IsAt start lines out (l ∷ ls) r e empty at = elim (Bool-cases (ltb 0 r.skip)) [
  | inl y ↦ rw y (
      fill-IsAt start lines out ls _ refl empty (record {
        delivered =
            ap (λ x. out ++ (r.pending ++ text x)) (drop-less r.skip l ls (ground arith))
            ∙ subst (λ x. out ++ (r.pending ++ text (drop r.skip x)) ≡ text (drop start lines)) e
                at.delivered;
        counts = omega (arith, at.counts, ap length e);
        written = λ p h. cc (h, at.skipping (ground arith));
        skipping = λ h. at.skipping (ground arith);
      }))
  | inr n ↦ rw n (record {
    delivered =
        head-delivered out r.pending _ r.skip r.lines l ls empty (ground arith) e at.delivered;
    counts = omega (arith, at.counts, ap length e);
    written = checkpointed-written r.seen r.progress at.written;
    skipping = λ h. absurd (ground arith);
  })
]

filled-IsAt :
    (start : ℕ) (lines : List Line) (out : Bytes) (r : Checkpoint) (b : Bytes)
    → r.pending ≡ b
    → IsAt start lines out r
    → IsAt start lines out (filled b r)
filled-IsAt start lines out r [] e at = fill-IsAt start lines out r.lines r refl e at
filled-IsAt start lines out r (c ∷ s) e at = at

copied-IsAt :
    (k start : ℕ) (lines : List Line) (out : Bytes) (r : Checkpoint) (b : Bytes)
    → r.pending ≡ b
    → IsAt start lines out r
    → IsAt start lines (out ++ (copied k b r).1) (copied k b r).0
copied-IsAt k start lines out r [] e at = rw (append-nil out) at
copied-IsAt k start lines out r (c ∷ s) e at = record {
  delivered =
      moved
      ∙ subst (λ b. out ++ (b ++ text (drop r.skip r.lines)) ≡ text (drop start lines)) e
          at.delivered;
  counts = at.counts;
  written = at.written;
  skipping = at.skipping;
}
  where
    left : Bytes
    left = text (drop r.skip r.lines)

    moved : (out ++ take k (c ∷ s)) ++ (drop k (c ∷ s) ++ left) ≡ out ++ ((c ∷ s) ++ left)
    moved =
        append_assoc out (take k (c ∷ s)) (drop k (c ∷ s) ++ left)
        ∙ ap (λ b. out ++ b)
            (sym (append_assoc (take k (c ∷ s)) (drop k (c ∷ s)) left)
              ∙ ap (λ b. b ++ left) (take-append-drop k (c ∷ s)))

deliver-IsAt :
    (ks : List ℕ) (start : ℕ) (lines : List Line) (out : Bytes) (r : Checkpoint)
    → IsAt start lines out r
    → IsAt start lines (out ++ (deliver ks r).1) (deliver ks r).0
unfolding deliver
deliver-IsAt [] start lines out r at = rw (append-nil out) at
deliver-IsAt (k ∷ ks) start lines out r at =
    let got = read_checkpoint k r in
    let one =
      copied-IsAt k start lines out (filled r.pending r) _ refl
        (filled-IsAt start lines out r _ refl at) in
    subst (λ b. IsAt start lines b (deliver ks got.0).0)
      (append_assoc out got.1 (deliver ks got.0).1)
      (deliver-IsAt ks start lines (out ++ got.1) got.0 one)

-- Whatever sizes the reads of a checkpoint reader have that is resumed at `start`: what it delivers, what
-- it holds back of the current line and the lines that are left are together the lines behind the first
-- `start` ones, so no line is lost or read twice. Its counter is `start` ahead of the lines it has
-- consumed: the progress it writes is a multiple of 500, and lies 500 to 999 behind that counter.
pub deliver-resumed :
    (ks : List ℕ) (start : ℕ) (lines : List Line)
    → IsAt start lines (deliver ks (resumed start lines)).1 (deliver ks (resumed start lines)).0
deliver-resumed ks start lines =
    deliver-IsAt ks start lines [] (resumed start lines)
      (record { delivered = refl; counts = refl; written = λ p h. cc h; skipping = λ h. refl })
