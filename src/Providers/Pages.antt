-- ===== src/Providers/Pages.antt =====
-- internal/providers: reading pages of results and of downloads (anna.go's parseSearch, parseSize and
-- absoluteURL; libgen.go's parseSearch and resolveLibGenDownload). What goquery selects in a page, regular
-- expressions, net/url and strconv.ParseFloat are parameters.
use atlas_bridge.Base.{
  ℕ, zero, suc, ◌^◌, Bool, false, not, ◌&&◌, ◌||◌, List, [], ◌∷◌, ◌++◌, Option, none, some,
  if◌then◌else◌, ltb, length, any, Result, ok, err, ◌>>=◌,
}
use atlas_bridge.Base.Text.{
  Bytes, codes, ◌=ᵇ◌, trim_space, to_lower, equal_fold, contains, single_spaced,
}
use atlas_bridge.Base.Decimal.{ℤ}
use atlas_bridge.Model.{Book, BookFile, Failure}
use atlas_bridge.Providers.{normalize_format, unavailable}
use atlas_bridge.Providers.Anna.{me}

-- A parsed url.URL: IsAbs and String
pub record Url : Type 0 where
  pub is_abs : Bool
  pub text : Bytes

-- A row of LibGen's table, as the code selects from it: the texts of its cells, its links' addresses, and
-- the texts of the edition's link in the first cell, of the first link, and of the row; the cover's
-- address.
pub record TableRow : Type 0 where
  pub cells : List Bytes
  pub hrefs : List Bytes
  pub edition : Bytes
  pub first_link : Bytes
  pub text : Bytes
  pub cover : Bytes

-- A link of Anna's page with its container.
pub record BookLink : Type 0 where
  pub href : Bytes
  pub text : Bytes
  pub container_text : Bytes
  pub heading : Bytes
  pub author : Bytes
  pub cover : Bytes

-- a[href], with its text
pub record Anchor : Type 0 where
  pub href : Bytes
  pub text : Bytes

-- The code that the pages are read with.
pub record Scraper : Type 0 where
  pub parse_url : Bytes → Option Url
  pub resolve_reference : Url → Url → Url
  -- the number and the unit that sizePattern finds
  pub size_match : Bytes → Option (Bytes × Bytes)
  -- int64 of strconv.ParseFloat times the factor
  pub scaled : Bytes → ℕ → ℤ
  pub md5_match : Bytes → Option Bytes
  pub anna_md5_match : Bytes → Option Bytes
  pub table_rows : Bytes → Result Failure (List TableRow)
  pub book_links : Bytes → Result Failure (List BookLink)
  pub anchors : Bytes → Result Failure (List Anchor)

-- A row or link becomes a book or nothing, given the ids that are seen; the seen ids grow.
abbrev pub unseen_books :
    {R : Type 0} → (List Bytes → R → Option Book) → List Bytes → List R → List Book
unseen_books pick seen [] = []
unseen_books pick seen (r ∷ rs) = elim (pick seen r) [
  | none ↦ unseen_books pick seen rs
  | some b ↦ b ∷ unseen_books pick (b.external_id ∷ seen) rs
]

abbrev pub has_seen : Bytes → List Bytes → Bool
has_seen id seen = any (λ s. s =ᵇ id) seen

-- The first of "epub" and "pdf" that a text holds
unfoldable pub format_in : Bytes → Bytes
unfolding contains to_lower
format_in text =
    if contains (codes "epub") (to_lower text)
    then codes "epub"
    else if contains (codes "pdf") (to_lower text)
    then codes "pdf"
    else []

-- `wantedFormat != "" && format != strings.ToLower(wantedFormat)`
unfoldable pub is_unwanted : Bytes → Bytes → Bool
unfolding to_lower
is_unwanted wanted format = not (wanted =ᵇ []) && not (format =ᵇ to_lower wanted)

abbrev pub cell : ℕ → List Bytes → Bytes
cell n [] = []
cell zero (c ∷ cs) = c
cell (suc n) (c ∷ cs) = cell n cs

abbrev pub last_cell : List Bytes → Bytes
last_cell [] = []
last_cell (c ∷ []) = c
last_cell (c ∷ d ∷ cs) = last_cell (d ∷ cs)

abbrev pub or_this : Bytes → Bytes → Bytes
or_this a b = if a =ᵇ [] then b else a

module _ (sc : Scraper) where
  abbrev pub resolved : Option Url → Url → Bytes
  resolved none u = []
  resolved (some b) u = (sc.resolve_reference b u).text

  abbrev pub absolute_parsed : Bytes → Option Url → Bytes
  absolute_parsed base none = []
  absolute_parsed base (some u) = if u.is_abs then u.text else resolved (sc.parse_url base) u

  -- absoluteURL
  unfoldable pub absolute_url : Bytes → Bytes → Bytes
  absolute_url base raw = if raw =ᵇ [] then [] else absolute_parsed base (sc.parse_url raw)

  -- parseSize
  unfoldable pub parse_size : Bytes → Option ℤ
  unfolding equal_fold
  parse_size text = elim (sc.size_match text) [
    | none ↦ none
    | some (number, unit) ↦ some (
        sc.scaled number (
          if equal_fold unit (codes "GB")
          then 2 ^ 30
          else if equal_fold unit (codes "MB")
          then 2 ^ 20
          else 2 ^ 10))
  ]

  -- The first link with an id: the id and the link's address
  unfoldable pub find_id : List Bytes → Option (Bytes × Bytes)
  unfolding to_lower
  find_id [] = none
  find_id (href ∷ hrefs) = elim (sc.md5_match href) [
    | none ↦ find_id hrefs
    | some id ↦ some (to_lower id, href)
  ]

  unfoldable pub row_title : TableRow → Bytes
  unfolding trim_space
  row_title r =
      or_this (trim_space r.edition)
        (or_this (trim_space (cell 2 r.cells)) (trim_space r.first_link))

  unfoldable pub row_format : TableRow → Bytes
  unfolding format_in normalize_format
  row_format r = or_this (normalize_format (last_cell r.cells)) (format_in r.text)

  unfoldable pub row_book : Bytes → TableRow → Bytes → Bytes → Book
  unfolding absolute_url parse_size row_title row_format trim_space
  row_book mirror r id href = record {
    provider_id = codes "libgen";
    external_id = id;
    title = row_title r;
    author = trim_space (cell 1 r.cells);
    description = [];
    isbn = [];
    cover_url = absolute_url mirror r.cover;
    files =
        record {
          file_id = codes "0-" ++ row_format r;
          format = row_format r;
          size = parse_size r.text;
          url = absolute_url mirror href;
          md5 = [];
          aacid = [];
        }
        ∷ [];
  }

  abbrev pub identified :
      Bytes → Bytes → List Bytes → TableRow → Option (Bytes × Bytes) → Option Book
  identified mirror wanted seen r none = none
  identified mirror wanted seen r (some (id, href)) =
      if id =ᵇ []
        || has_seen id seen
        || is_unwanted wanted (row_format r)
        || row_title r =ᵇ []
        || row_format r =ᵇ []
      then none
      else some (row_book mirror r id href)

  -- The body of parseSearch's loop over LibGen's rows
  unfoldable pub pick_row : Bytes → Bytes → List Bytes → TableRow → Option Book
  unfolding find_id row_book is_unwanted
  pick_row mirror wanted seen r =
      if ltb (length r.cells) 8 then none else identified mirror wanted seen r (find_id r.hrefs)

  abbrev pub some_books : List Book → Result Failure (List Book)
  some_books [] = err (
      unavailable (codes "libgen") (codes "parse_error")
        (codes "LibGen returned no recognizable search results") false)
  some_books (b ∷ bs) = ok (b ∷ bs)

  -- LibGen.parseSearch
  unfoldable pub libgen_parse_search : Bytes → Bytes → Bytes → Result Failure (List Book)
  unfolding pick_row
  libgen_parse_search page mirror wanted =
      sc.table_rows page >>= λ rows. some_books (unseen_books (pick_row mirror wanted) [] rows)

  abbrev pub link_title : BookLink → Bytes
  link_title l = or_this (trim_space l.text) (trim_space l.heading)

  unfoldable pub link_format : BookLink → Bytes
  unfolding format_in single_spaced
  link_format l = format_in (single_spaced l.container_text)

  abbrev pub link_files : Bytes → Option ℤ → List BookFile
  link_files format size =
      if format =ᵇ []
      then []
      else record {
        file_id = codes "0-" ++ format;
        format = format;
        size = size;
        url = [];
        md5 = [];
        aacid = [];
      }
        ∷ []

  unfoldable pub link_book : Bytes → BookLink → Bytes → Book
  unfolding absolute_url parse_size single_spaced link_format trim_space
  link_book mirror l id = record {
    provider_id = me;
    external_id = id;
    title = link_title l;
    author = trim_space l.author;
    description = [];
    isbn = [];
    cover_url = absolute_url mirror l.cover;
    files = link_files (link_format l) (parse_size (single_spaced l.container_text));
  }

  abbrev pub matched : Bytes → Bytes → List Bytes → BookLink → Option Bytes → Option Book
  matched mirror wanted seen l none = none
  matched mirror wanted seen l (some m) =
      if has_seen (to_lower m) seen
        || link_title l =ᵇ []
        || ltb 500 (length (link_title l))
        || is_unwanted wanted (link_format l)
      then none
      else some (link_book mirror l (to_lower m))

  -- The body of parseSearch's loop over Anna's links
  unfoldable pub pick_link : Bytes → Bytes → List Bytes → BookLink → Option Book
  unfolding link_book is_unwanted trim_space to_lower
  pick_link mirror wanted seen l = matched mirror wanted seen l (sc.anna_md5_match l.href)

  abbrev pub recognized : Bytes → List Book → Result Failure (List Book)
  recognized page [] =
      if contains (codes "/md5/") (to_lower page)
      then err (
          unavailable me (codes "parse_error")
            (codes "Anna's Archive result layout was not recognized") false)
      else ok []
  recognized page (b ∷ bs) = ok (b ∷ bs)

  -- Anna.parseSearch
  unfoldable pub anna_parse_search : Bytes → Bytes → Bytes → Result Failure (List Book)
  unfolding pick_link contains to_lower
  anna_parse_search page wanted mirror = sc.book_links page >>= λ links.
      recognized page (unseen_books (pick_link mirror wanted) [] links)
