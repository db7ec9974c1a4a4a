-- ===== src/Catalogue/Records.antt =====
-- internal/catalog/sync.go: decodeAnnaRecord and decodeAnnaFileRecord. The two calls of json.Unmarshal are
-- parameters: the record with the fields of its own names, and the same text as a map. An element of an
-- array that is no text is none; int64(float64) is done by the decoder.
use atlas_bridge.Base.{List, [], ◌∷◌, ◌++◌, Option, none, some, if◌then◌else◌}
use atlas_bridge.Base.Text.{Bytes, codes, ◌=ᵇ◌, trim_space}
use atlas_bridge.Base.Decimal.{ℤ, parse_int}

mutual
  -- A value of map[string]any.
  pub data Raw : Type 0 where
    text : Bytes → Raw
    number : ℤ → Raw
    array : List (Option Bytes) → Raw
    nested : RawMap → Raw
    other : Raw

  pub data RawMap : Type 0 where
    end : RawMap
    entry : Bytes → Raw → RawMap → RawMap

pub record AnnaRecord : Type 0 where
  pub provider_id : Bytes
  pub external_id : Bytes
  pub title : Bytes
  pub author : Bytes
  pub description : Bytes
  pub isbn : Bytes
  pub language : Bytes
  pub format : Bytes
  pub size : Option ℤ
  pub url : Bytes
  pub torrent : Bytes
  pub path : Bytes
  pub cover_url : Bytes
  pub md5 : Bytes
  pub aacid : Bytes
  pub file_size : Option ℤ

pub record AnnaFileRecord : Type 0 where
  pub provider_id : Bytes
  pub external_id : Bytes
  pub md5 : Bytes
  pub aacid : Bytes
  pub format : Bytes
  pub size : Option ℤ
  pub torrent : Bytes
  pub path : Bytes

-- raw[k]
unfoldable pub value_at : Bytes → RawMap → Option Raw
value_at k end = none
value_at k (entry j v m) = let rest = value_at k m in if j =ᵇ k then some v else rest

-- raw[k] = v for a key that is not there
abbrev pub add_missing : Bytes → Raw → RawMap → RawMap
add_missing k v m = elim (value_at k m) [ some old ↦ m | none ↦ entry k v m ]

-- The inner loop over a nested map
unfoldable pub add_all : RawMap → RawMap → RawMap
unfolding value_at
add_all end m = m
add_all (entry k v rest) m = add_all rest (add_missing k v m)

abbrev pub flatten_value : Option Raw → RawMap → RawMap
flatten_value (some (nested inner)) m = add_all inner m
flatten_value _ m = m

-- The loop over "metadata", "data" and "book"
unfoldable pub flatten : List Bytes → RawMap → RawMap
unfolding add_all
flatten [] m = m
flatten (k ∷ ks) m = flatten ks (flatten_value (value_at k m) m)

abbrev pub wrappers : List Bytes
wrappers = codes "metadata" ∷ codes "data" ∷ codes "book" ∷ []

abbrev pub as_text : Option Raw → Bytes
as_text (some (text t)) = trim_space t
as_text _ = []

-- `str`
unfoldable pub first_text : RawMap → List Bytes → Bytes
unfolding value_at trim_space
first_text m [] = []
first_text m (k ∷ ks) =
    let rest = first_text m ks in let t = as_text (value_at k m) in if t =ᵇ [] then rest else t

abbrev pub or_text : Bytes → Bytes → Bytes
or_text field alias = if field =ᵇ [] then alias else field

-- parseInt64
unfoldable pub parse_int64 : Option Raw → Option ℤ
unfolding parse_int trim_space
parse_int64 (some (number n)) = some n
parse_int64 (some (text t)) = parse_int (trim_space t)
parse_int64 _ = none

abbrev pub or_size : Option ℤ → Option ℤ → Option ℤ
or_size none alias = alias
or_size (some n) alias = some n

abbrev pub size_of : RawMap → Option ℤ → Option ℤ
size_of m field =
    or_size (or_size field (parse_int64 (value_at (codes "size") m)))
      (parse_int64 (value_at (codes "filesize") m))

-- strings.Join(names, ", ") of the texts of an array
abbrev pub join_names : List Bytes → Bytes
join_names [] = []
join_names (n ∷ []) = n
join_names (n ∷ m ∷ ms) = n ++ (codes ", " ++ join_names (m ∷ ms))

abbrev pub names_of : List (Option Bytes) → List Bytes
names_of [] = []
names_of (none ∷ vs) = names_of vs
names_of (some v ∷ vs) = trim_space v ∷ names_of vs

abbrev pub joined : Option Raw → Bytes
joined (some (array vs)) = join_names (names_of vs)
joined _ = []

-- The loop over "authors" and "author_names"
unfoldable pub joined_authors : RawMap → List Bytes → Bytes
unfolding value_at
joined_authors m [] = []
joined_authors m (k ∷ ks) =
    let rest = joined_authors m ks in
    let names = joined (value_at k m) in if names =ᵇ [] then rest else names

abbrev pub id_names : List Bytes
id_names = codes "externalId" ∷ codes "external_id" ∷ codes "md5" ∷ codes "aacid" ∷ []

abbrev pub torrent_names : List Bytes
torrent_names = codes "torrent" ∷ codes "torrent_url" ∷ codes "metainfo" ∷ []

abbrev pub path_names : List Bytes
path_names = codes "path" ∷ codes "torrent_path" ∷ codes "file_path" ∷ []

abbrev pub filled_file : AnnaFileRecord → RawMap → AnnaFileRecord
filled_file r m = record r {
  external_id = or_text r.external_id (first_text m id_names);
  md5 = or_text r.md5 (first_text m (codes "md5" ∷ []));
  aacid = or_text r.aacid (first_text m (codes "aacid" ∷ []));
  format = or_text r.format (
      first_text m
        (codes "format" ∷ codes "extension" ∷ codes "ext" ∷ codes "file_extension" ∷ []));
  size = size_of m r.size;
  torrent = or_text r.torrent (first_text m torrent_names);
  path = or_text r.path (first_text m path_names);
}

-- decodeAnnaFileRecord, from what the two calls of json.Unmarshal give
unfoldable pub decode_file_record : Option AnnaFileRecord → Option RawMap → Option AnnaFileRecord
unfolding flatten first_text parse_int64
decode_file_record none raw = none
decode_file_record (some r) none = none
decode_file_record (some r) (some raw) = some (filled_file r (flatten wrappers raw))

abbrev pub filled : AnnaRecord → RawMap → AnnaRecord
filled r m =
    let size = size_of m r.size in
    let author =
      or_text r.author (joined_authors m (codes "authors" ∷ codes "author_names" ∷ [])) in
    record r {
      author =
          or_text author
            (first_text m (codes "author" ∷ codes "authors" ∷ codes "author_name" ∷ []));
      title =
          or_text r.title
            (first_text m (codes "title" ∷ codes "title_sort" ∷ codes "book_title" ∷ []));
      isbn = or_text r.isbn (first_text m (codes "isbn" ∷ codes "isbn13" ∷ codes "isbn_10" ∷ []));
      external_id = or_text r.external_id (first_text m id_names);
      md5 = or_text r.md5 (first_text m (codes "md5" ∷ []));
      aacid = or_text r.aacid (first_text m (codes "aacid" ∷ []));
      format =
          or_text r.format (first_text m (codes "format" ∷ codes "extension" ∷ codes "ext" ∷ []));
      cover_url =
          or_text r.cover_url
            (first_text m (codes "coverUrl" ∷ codes "cover_url" ∷ codes "cover" ∷ []));
      torrent = or_text r.torrent (first_text m torrent_names);
      path = or_text r.path (first_text m path_names);
      size = size;
      file_size = or_size r.file_size (parse_int64 (value_at (codes "filesize") m));
    }

-- decodeAnnaRecord
unfoldable pub decode_record : Option AnnaRecord → Option RawMap → Option AnnaRecord
unfolding flatten first_text joined_authors parse_int64
decode_record none raw = none
decode_record (some r) none = none
decode_record (some r) (some raw) = some (filled r (flatten wrappers raw))
