-- ===== src/Catalogue/Terms.antt =====
-- internal/catalog/store.go: the words of a search, as Search hands them to the full-text index.
-- White space is that of ASCII.
use atlas_bridge.Base.{
  ℕ, ◌==◌, ◌≡◌, ◌≢◌, refl, Bool, true, false, List, [], ◌∷◌, ◌++◌, Option, none, some,
  if◌then◌else◌, Bool-cases, inl, inr, ==_iff, All, append_assoc,
}
use mathlib.Core.Option
use atlas_bridge.Base.Text.{Bytes, codes, ◌=ᵇ◌, is_space, trim_space, onto, fields_from}

-- strings.ReplaceAll(term, `"`, "")
unfoldable pub without_quotes : Bytes → Bytes
without_quotes [] = []
without_quotes (c ∷ s) = let rest = without_quotes s in if c == b'"' then rest else c ∷ rest

-- The words without quotes, those left out that have no other byte.
unfoldable pub terms_of : List Bytes → List Bytes
unfolding without_quotes
terms_of [] = []
terms_of (word ∷ words) =
    let rest = terms_of words in
    let term = without_quotes word in if term =ᵇ [] then rest else term ∷ rest

abbrev pub quoted : Bytes → Bytes
quoted term = b'"' ∷ (term ++ codes "\"*")

-- strings.Join(quoted, " AND ")
unfoldable pub join_and : List Bytes → Bytes
join_and [] = []
join_and (t ∷ []) = quoted t
join_and (t ∷ u ∷ ts) = quoted t ++ (codes " AND " ++ join_and (u ∷ ts))

-- The expression that Search makes of a query that is not blank.
unfoldable pub match_of : Bytes → Bytes
unfolding terms_of join_and fields_from trim_space
match_of query = join_and (terms_of (fields_from false (trim_space query)))

-- A reader of the full-text expressions that are prefix phrases joined by AND: within a phrase, or with
-- the bytes that have to come. As in FTS5, a byte zero ends the text, and there is no empty expression.
abbrev pub read_phrases : Bytes → Bytes → Option (List Bytes)
read_phrases [] [] = none
read_phrases [] (c ∷ s) =
    let closed = read_phrases (codes "* AND \"") s in
    let inside = read_phrases [] s in
    if c == 0
    then none
    else if c == b'"'
    then Option.map (λ ts. [] ∷ ts) closed
    else Option.map (onto c) inside
read_phrases (w ∷ ws) [] = if (w ∷ ws) =ᵇ codes " AND \"" then some [] else none
read_phrases (w ∷ ws) (c ∷ s) = let rest = read_phrases ws s in if c == w then rest else none

abbrev pub read_match : Bytes → Option (List Bytes)
read_match s = read_phrases (codes "\"") s

-- A byte that a word can hold: not white space, and not zero.
abbrev pub IsWordByte : ℕ → Type 0
IsWordByte c = (is_space c ≡ false) × (c ≢ 0)

-- A byte that a word can hold, and no quote.
abbrev pub IsPlain : ℕ → Type 0
IsPlain c = (c ≢ b'"') × IsWordByte c

pub record IsTerm (t : Bytes) : Type 0 where
  pub has_byte : t ≢ []
  pub plain : All IsPlain t

onto-All :
    (c : ℕ) (words : List Bytes)
    → IsWordByte c
    → All (All IsWordByte) words
    → All (All IsWordByte) (onto c words)
onto-All c [] h hs = ((h, tt), tt)
onto-All c (w ∷ ws) h (hw, hs) = ((h, hw), hs)

fields_from-All :
    (inside : Bool) (s : Bytes) → All (λ b. b ≢ 0) s → All (All IsWordByte) (fields_from inside s)
unfolding fields_from
fields_from-All true [] h = (tt, tt)
fields_from-All false [] h = tt
fields_from-All true (c ∷ s) (hc, hs) = elim (Bool-cases (is_space c)) [
  | inl y ↦ rw (y, All) (tt, fields_from-All false s hs)
  | inr n ↦ rw (n, All) (onto-All c _ (n, hc) (fields_from-All true s hs))
]
fields_from-All false (c ∷ s) (hc, hs) = elim (Bool-cases (is_space c)) [
  | inl y ↦ rw (y, All) (fields_from-All false s hs)
  | inr n ↦ rw (n, All) (onto-All c _ (n, hc) (fields_from-All true s hs))
]

without_quotes-All : (w : Bytes) → All IsWordByte w → All IsPlain (without_quotes w)
unfolding without_quotes
without_quotes-All [] h = tt
without_quotes-All (c ∷ s) (hc, hs) = elim (Bool-cases (c == b'"')) [
  | inl y ↦ rw y (without_quotes-All s hs)
  | inr n ↦ rw n ((λ e. cc (n, (==_iff c b'"').1 e), hc), without_quotes-All s hs)
]

terms_of-All : (words : List Bytes) → All (All IsWordByte) words → All IsTerm (terms_of words)
unfolding terms_of
terms_of-All [] h = tt
terms_of-All (w ∷ ws) (hw, hs) = elim (Bool-cases (without_quotes w =ᵇ [])) [
  | inl y ↦ rw y (terms_of-All ws hs)
  | inr n ↦
      rw n
        (record { has_byte = λ e. cc (n, e); plain = without_quotes-All w hw }, terms_of-All ws hs)
]

read_phrases-term :
    (t rest : Bytes) (v : List Bytes)
    → All IsPlain t
    → read_phrases (codes " AND \"") rest ≡ some v
    → read_phrases [] (t ++ (b'"' ∷ b'*' ∷ rest)) ≡ some (t ∷ v)
read_phrases-term [] rest v h e = rw e refl
read_phrases-term (c ∷ t) rest v (hc, h) e = elim (Bool-cases (c == 0)) [
  | inl z ↦ absurd (hc.1.1 ((==_iff c 0).0 z))
  | inr s ↦ elim (Bool-cases (c == b'"')) [
    | inl y ↦ absurd (hc.0 ((==_iff c b'"').0 y))
    | inr n ↦ rw (s, n, read_phrases-term t rest v h e) refl
  ]
]

read_phrases-join_and :
    (t : Bytes) (ts : List Bytes)
    → All IsTerm (t ∷ ts)
    → read_match (join_and (t ∷ ts)) ≡ some (t ∷ ts)
unfolding join_and
read_phrases-join_and t [] (h, hs) = read_phrases-term t [] [] h.plain refl
read_phrases-join_and t (u ∷ ts) (h, hs) =
    rw (append_assoc t (codes "\"*") (codes " AND " ++ join_and (u ∷ ts))) (
      read_phrases-term t (codes " AND " ++ join_and (u ∷ ts)) (u ∷ ts) h.plain
        (read_phrases-join_and u ts hs))

read_match-join_and :
    (ts : List Bytes) → ts ≢ [] → All IsTerm ts → read_match (join_and ts) ≡ some ts
read_match-join_and [] some_term h = absurd (some_term refl)
read_match-join_and (t ∷ ts) some_term h = read_phrases-join_and t ts h

-- For a query with no byte zero in which a word is left once the quotes are taken out of its words, the
-- expression that Search makes is one of prefix phrases joined by AND, and what is read in it is
-- exactly those words: none of them is empty or has a quote, white space or a byte zero, and no byte
-- of the query ends its phrase or becomes an operator.
pub match_of-reads :
    (query : Bytes)
    → All (λ c. c ≢ 0) (trim_space query)
    → terms_of (fields_from false (trim_space query)) ≢ []
    → (read_match (match_of query) ≡ some (terms_of (fields_from false (trim_space query))))
      × All IsTerm (terms_of (fields_from false (trim_space query)))
unfolding match_of
match_of-reads query no_zero some_term =
    let terms = terms_of-All _ (fields_from-All false (trim_space query) no_zero) in
    (read_match-join_and _ some_term terms, terms)
