-- ===== src/Providers/Listed.antt =====
-- internal/providers: what the books are that parseSearch reads in a page, for LibGen and for Anna.
use atlas_bridge.Base.{
  ◌≤◌, ◌≡◌, ◌≢◌, ◌⊎◌, inl, inr, refl, Bool, true, false, ◌||◌, List, [], ◌∷◌, ◌++◌, Option, none,
  some, if◌then◌else◌, ltb, length, ok, >>=-eq-ok, Bool-cases, All, subst,
}
use atlas_bridge.Base.Text.{Bytes, codes, ◌=ᵇ◌, to_lower, contains, single_spaced}
use atlas_bridge.Base.Decimal.{ℤ}
use atlas_bridge.Model.{Book, BookFile}
use atlas_bridge.Providers.{normalize_format}
use atlas_bridge.Providers.Pages.{
  TableRow, BookLink, Scraper, has_seen, format_in, is_unwanted, last_cell, row_title, row_format,
  row_book, identified, find_id, pick_row, some_books, libgen_parse_search, link_title, link_format,
  link_files, link_book, matched, pick_link, recognized, anna_parse_search,
}
use atlas_bridge.Providers.Formats.{
  IsFresh, IsFormat, IsWanted, unseen_books-All, or_false, =ᵇ-false, format_in-IsFormat,
  normalize_format-cases, is_unwanted-false, or_this-IsFormat, at_most,
}

module _ (sc : Scraper) where
  row_format-IsFormat : (r : TableRow) → row_format sc r ≢ [] → IsFormat (row_format sc r)
  unfolding row_format
  row_format-IsFormat r h =
      or_this-IsFormat (normalize_format (last_cell r.cells)) (format_in r.text)
        (normalize_format-cases (last_cell r.cells)) (format_in-IsFormat r.text) h

  -- A title, and one file of a known and wanted format, under an id that says the format.
  pub record IsListed (wanted : Bytes) (b : Book) : Type 0 where
    pub has_title : b.title ≢ []
    pub file : BookFile
    pub only_file : b.files ≡ file ∷ []
    pub named : file.file_id ≡ codes "0-" ++ file.format
    pub is_wanted : IsWanted wanted file

  identified-IsListed :
      (mirror wanted : Bytes) (seen : List Bytes) (r : TableRow) (o : Option (Bytes × Bytes))
      (b : Book)
      → identified sc mirror wanted seen r o ≡ some b
      → (has_seen b.external_id seen ≡ false) × IsListed wanted b
  unfolding row_book
  identified-IsListed mirror wanted seen r none b h = cc h
  identified-IsListed mirror wanted seen r (some (id, href)) b h = by_test _ refl h
    where
      by_test :
          (t : Bool)
          → (id =ᵇ []
              || has_seen id seen
              || is_unwanted wanted (row_format sc r)
              || row_title sc r =ᵇ []
              || row_format sc r =ᵇ [])
            ≡ t
          → (if t then none else some (row_book sc mirror r id href)) ≡ some b
          → (has_seen b.external_id seen ≡ false) × IsListed wanted b
      by_test true e h' = cc h'
      by_test false e h' =
          let (e4, no_format) = or_false _ _ e in
          let (e3, no_title) = or_false _ _ e4 in
          let (e2, fits) = or_false _ _ e3 in
          let (e1, unseen) = or_false _ _ e2 in
          subst (λ x. (has_seen x.external_id seen ≡ false) × IsListed wanted x)
            {x = row_book sc mirror r id href} {y = b} (cc h')
            (
              unseen,
              record {
                has_title = =ᵇ-false _ no_title;
                file = _;
                only_file = refl;
                named = refl;
                is_wanted =
                    (row_format-IsFormat r (=ᵇ-false _ no_format), is_unwanted-false wanted _ fits);
              },
            )

  pick_row-IsListed :
      (mirror wanted : Bytes) (seen : List Bytes) (r : TableRow) (b : Book)
      → pick_row sc mirror wanted seen r ≡ some b
      → (has_seen b.external_id seen ≡ false) × IsListed wanted b
  unfolding pick_row
  pick_row-IsListed mirror wanted seen r b h = elim (Bool-cases (ltb (length r.cells) 8)) [
    | inl y ↦ cc (h, y)
    | inr n ↦ identified-IsListed mirror wanted seen r (find_id sc r.hrefs) b (rw n at h)
  ]

  -- A title of at most 500 bytes, and at most one file, which is of a known and wanted format.
  pub record IsLinked (wanted : Bytes) (b : Book) : Type 0 where
    pub has_title : b.title ≢ []
    pub short_title : length b.title ≤ 500
    pub one_file : (b.files ≡ []) ⊎ ((f : BookFile) × (b.files ≡ f ∷ []) × IsFormat f.format)
    pub is_wanted : wanted ≢ [] → All (λ f. f.format ≡ to_lower wanted) b.files

  link_files-known :
      (text : Bytes) (size : Option ℤ)
      → (link_files sc (format_in text) size ≡ [])
        ⊎ ((f : BookFile) × (link_files sc (format_in text) size ≡ f ∷ []) × IsFormat f.format)
  link_files-known text size = elim (Bool-cases (format_in text =ᵇ [])) [
    | inl y ↦ inl (rw y refl)
    | inr n ↦ inr (rw n (_, refl, format_in-IsFormat text (=ᵇ-false _ n)))
  ]

  link_files-wanted :
      (format : Bytes) (size : Option ℤ) (wanted : Bytes)
      → format ≡ wanted
      → All (λ f. f.format ≡ wanted) (link_files sc format size)
  link_files-wanted format size wanted e = elim (Bool-cases (format =ᵇ [])) [
    | inl y ↦ rw (y, All) tt
    | inr n ↦ rw (n, All) (e, tt)
  ]

  matched-IsLinked :
      (mirror wanted : Bytes) (seen : List Bytes) (l : BookLink) (o : Option Bytes) (b : Book)
      → matched sc mirror wanted seen l o ≡ some b
      → (has_seen b.external_id seen ≡ false) × IsLinked wanted b
  unfolding link_book link_format
  matched-IsLinked mirror wanted seen l none b h = cc h
  matched-IsLinked mirror wanted seen l (some m) b h = by_test _ refl h
    where
      by_test :
          (t : Bool)
          → (has_seen (to_lower m) seen
              || link_title sc l =ᵇ []
              || ltb 500 (length (link_title sc l))
              || is_unwanted wanted (link_format sc l))
            ≡ t
          → (if t then none else some (link_book sc mirror l (to_lower m))) ≡ some b
          → (has_seen b.external_id seen ≡ false) × IsLinked wanted b
      by_test true e h' = cc h'
      by_test false e h' =
          let (e3, fits) = or_false _ _ e in
          let (e2, short) = or_false _ _ e3 in
          let (unseen, no_title) = or_false _ _ e2 in
          let b' = link_book sc mirror l (to_lower m) in
          subst (λ x. (has_seen x.external_id seen ≡ false) × IsLinked wanted x) {x = b'} {y = b}
            (cc h')
            (
              unseen,
              record {
                has_title = =ᵇ-false _ no_title;
                short_title = at_most _ short;
                one_file = link_files-known (single_spaced l.container_text) _;
                is_wanted = λ some_wanted.
                    link_files-wanted _ _ (to_lower wanted)
                      (is_unwanted-false wanted _ fits some_wanted);
              },
            )

  pick_link-IsLinked :
      (mirror wanted : Bytes) (seen : List Bytes) (l : BookLink) (b : Book)
      → pick_link sc mirror wanted seen l ≡ some b
      → (has_seen b.external_id seen ≡ false) × IsLinked wanted b
  unfolding pick_link
  pick_link-IsLinked mirror wanted seen l b h =
      matched-IsLinked mirror wanted seen l (sc.anna_md5_match l.href) b h

-- The books of a LibGen page that is read: there is one at least, and no id stands twice; each has a
-- title and one file, of the format epub or pdf, and of the wanted one if one is wanted.
pub libgen_parse_search-IsListed :
    (sc : Scraper) (page mirror wanted : Bytes) (books : List Book)
    → libgen_parse_search sc page mirror wanted ≡ ok books
    → (books ≢ []) × IsFresh [] books × All (IsListed sc wanted) books
unfolding libgen_parse_search
libgen_parse_search-IsListed sc page mirror wanted books h =
    let (rows, e, h1) = >>=-eq-ok (sc.table_rows page) _ h in
    let (some_book, parsed) = some_books-eq-ok _ h1 in
    let listed =
      unseen_books-All _ (pick_row sc mirror wanted) (pick_row-IsListed sc mirror wanted) rows [] in
    (
      some_book,
      subst (λ bs. IsFresh [] bs) parsed listed.0,
      subst (λ bs. All (IsListed sc wanted) bs) parsed listed.1,
    )
  where
    some_books-eq-ok : (bs : List Book) → some_books sc bs ≡ ok books → (books ≢ []) × (bs ≡ books)
    some_books-eq-ok [] e = cc e
    some_books-eq-ok (b ∷ bs) e = (λ none_left. cc (e, none_left), cc e)

-- The books of a page of Anna's Archive that is read: no id stands twice; each has a title of at most 500
-- bytes and at most one file, of the format epub or pdf, and of the wanted one if one is wanted.
pub anna_parse_search-IsLinked :
    (sc : Scraper) (page mirror wanted : Bytes) (books : List Book)
    → anna_parse_search sc page wanted mirror ≡ ok books
    → IsFresh [] books × All (IsLinked sc wanted) books
unfolding anna_parse_search
anna_parse_search-IsLinked sc page mirror wanted books h =
    let (links, e, h1) = >>=-eq-ok (sc.book_links page) _ h in
    subst (λ bs. IsFresh [] bs × All (IsLinked sc wanted) bs) (recognized-eq-ok _ h1)
      (unseen_books-All _ (pick_link sc mirror wanted) (pick_link-IsLinked sc mirror wanted) links
        [])
  where
    recognized-eq-ok : (bs : List Book) → recognized sc page bs ≡ ok books → bs ≡ books
    recognized-eq-ok [] e = elim (Bool-cases (contains (codes "/md5/") (to_lower page))) [
      | inl y ↦ cc (e, y)
      | inr n ↦ cc (e, n)
    ]
    recognized-eq-ok (b ∷ bs) e = cc e
