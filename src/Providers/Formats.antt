-- ===== src/Providers/Formats.antt =====
-- internal/providers: the tests that parseSearch makes for every book, in anna.go and libgen.go.
use atlas_bridge.Base.{
  ℕ, ◌≤◌, ◌≡◌, ◌≢◌, ◌⊎◌, inl, inr, refl, Bool, true, false, ◌||◌, List, [], ◌∷◌, Option, none, some,
  if◌then◌else◌, ltb, Bool-cases, All, arith,
}
use atlas_bridge.Base.Text.{
  Bytes, codes, ◌=ᵇ◌, =ᵇ→eq, =ᵇ_iff, trim_space, to_lower, trim_prefix, contains,
}
use atlas_bridge.Model.{Book, BookFile}
use atlas_bridge.Providers.{normalize_format}
use atlas_bridge.Providers.Pages.{unseen_books, has_seen, format_in, is_unwanted, or_this}

-- No id stands twice, nor among `seen`.
abbrev pub IsFresh : List Bytes → List Book → Type 0
IsFresh seen [] = Unit
IsFresh seen (b ∷ bs) = (has_seen b.external_id seen ≡ false) × IsFresh (b.external_id ∷ seen) bs

abbrev pub IsFormat : Bytes → Type 0
IsFormat format = (format ≡ codes "epub") ⊎ (format ≡ codes "pdf")

-- A file of a known format, which is the wanted one if one is wanted.
abbrev pub IsWanted : Bytes → BookFile → Type 0
IsWanted wanted f = IsFormat f.format × (wanted ≢ [] → f.format ≡ to_lower wanted)

pub unseen_books-All :
    {R : Type 0} (P : Book → Type 0) (pick : List Bytes → R → Option Book)
    → ((seen : List Bytes) (r : R) (b : Book)
        → pick seen r ≡ some b
        → (has_seen b.external_id seen ≡ false) × P b)
    → (rs : List R) (seen : List Bytes)
    → IsFresh seen (unseen_books pick seen rs) × All P (unseen_books pick seen rs)
unseen_books-All P pick picked [] seen = (tt, tt)
unseen_books-All {R} P pick picked (r ∷ rs) seen =
    by_pick (pick seen r) (picked seen r) (unseen_books-All P pick picked rs)
  where
    by_pick :
        (o : Option Book)
        → ((b : Book) → o ≡ some b → (has_seen b.external_id seen ≡ false) × P b)
        → ((seen' : List Bytes)
            → IsFresh seen' (unseen_books pick seen' rs) × All P (unseen_books pick seen' rs))
        → IsFresh seen (elim o [
          | none ↦ unseen_books pick seen rs
          | some b ↦ b ∷ unseen_books pick (b.external_id ∷ seen) rs
        ])
          × All P (elim o [
            | none ↦ unseen_books pick seen rs
            | some b ↦ b ∷ unseen_books pick (b.external_id ∷ seen) rs
          ])
    by_pick none h rest = rest seen
    by_pick (some b) h rest =
        let (fresh, p) = h b refl in
        let (all_fresh, all) = rest (b.external_id ∷ seen) in ((fresh, all_fresh), (p, all))

pub or_false : (a b : Bool) → (a || b) ≡ false → (a ≡ false) × (b ≡ false)
or_false false false h = (refl, refl)
or_false true b h = cc h
or_false false true h = cc h

pub =ᵇ-false : (s : Bytes) → (s =ᵇ []) ≡ false → s ≢ []
=ᵇ-false s h e = cc (h, (=ᵇ_iff s []).1 e)

pub format_in-IsFormat : (text : Bytes) → format_in text ≢ [] → IsFormat (format_in text)
unfolding format_in
format_in-IsFormat text h = elim (Bool-cases (contains (codes "epub") (to_lower text))) [
  | inl y ↦ inl (rw y refl)
  | inr n ↦ elim (Bool-cases (contains (codes "pdf") (to_lower text))) [
    | inl y ↦ inr (rw (n, y) refl)
    | inr n' ↦ absurd (h (rw (n, n') refl))
  ]
]

supported_cases :
    (v : Bytes)
    → ((if v =ᵇ codes "epub" || v =ᵇ codes "pdf" then v else []) ≡ [])
      ⊎ IsFormat (if v =ᵇ codes "epub" || v =ᵇ codes "pdf" then v else [])
supported_cases v = elim (Bool-cases (v =ᵇ codes "epub")) [
  | inl y ↦ inr (inl (rw y (=ᵇ→eq v (codes "epub") y)))
  | inr n ↦ elim (Bool-cases (v =ᵇ codes "pdf")) [
    | inl y ↦ inr (inr (rw (n, y) (=ᵇ→eq v (codes "pdf") y)))
    | inr n' ↦ inl (rw (n, n') refl)
  ]
]

pub normalize_format-cases :
    (value : Bytes) → (normalize_format value ≡ []) ⊎ IsFormat (normalize_format value)
unfolding normalize_format
normalize_format-cases value =
    supported_cases (to_lower (trim_space (trim_prefix (codes ".") value)))

pub is_unwanted-false :
    (wanted format : Bytes)
    → is_unwanted wanted format ≡ false
    → wanted ≢ []
    → format ≡ to_lower wanted
unfolding is_unwanted
is_unwanted-false wanted format h some_wanted =
    ground (arith, =ᵇ_iff wanted [], =ᵇ_iff format (to_lower wanted))

pub or_this-IsFormat :
    (a b : Bytes)
    → (a ≡ []) ⊎ IsFormat a
    → (b ≢ [] → IsFormat b)
    → or_this a b ≢ []
    → IsFormat (or_this a b)
or_this-IsFormat a b ha hb h = elim (Bool-cases (a =ᵇ [])) [
  | inl y ↦ rw y (hb (λ e. h (rw y e)))
  | inr n ↦ rw n (or_this-kept n ha)
]
  where
    or_this-kept : (a =ᵇ []) ≡ false → (a ≡ []) ⊎ IsFormat a → IsFormat a
    or_this-kept n (inl e) = absurd (=ᵇ-false a n e)
    or_this-kept n (inr f) = f

pub at_most : (n : ℕ) → ltb 500 n ≡ false → n ≤ 500
at_most n e = ground arith
