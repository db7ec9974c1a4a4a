-- ===== src/Catalogue/Import.antt =====
-- internal/catalog/sync.go: SyncAnnaFilesJSONL and SyncAnnaJSONL, over the lines and the error of the
-- bufio.Scanner and what decoding makes of a line.
use atlas_bridge.Base.{
  Bool, true, false, ℕ, suc, ◌||◌, List, [], ◌∷◌, ◌++◌, Option, none, some, if◌then◌else◌, leb,
  length, map,
}
use atlas_bridge.Base.Text.{Bytes, codes, ◌=ᵇ◌, trim_space, to_lower, trim_prefix}
use atlas_bridge.Base.Decimal.{pos}
use atlas_bridge.Model.{Book}
use atlas_bridge.Catalogue.{
  Locator, http, torrent_file, FileRecord, StoreError, Database, Codec, Session,
}
use atlas_bridge.Catalogue.Writes.{Outcome, upsert_files_batch}
use atlas_bridge.Catalogue.Books.{upsert_batch, put_if, rebuild_fts, limit_reached}
use atlas_bridge.Catalogue.Records.{AnnaRecord, AnnaFileRecord, or_size}

pub record Imported (S : Type 0) : Type 0 where
  pub store : S
  pub count : ℕ
  pub skipped : ℕ
  pub error : Option StoreError

-- The loop that both functions have: a line is decoded to an item or skipped, the item is added to the
-- batch, `before` is done for it, and a batch of `size` items is flushed. `scan_error` is scanner.Err()
-- behind the loop: for `true`, where it stops at the limit, and for `false`, at the end of the lines.
module _ {S A : Type 0} (convert : Bytes → Option A) (before : A → S → S × Option StoreError)
    (flush : List A → S → S × Option StoreError) (finish : S → S × Option StoreError)
    (size limit : ℕ) (scan_error : Bool → Option StoreError) where
  abbrev pub finished : ℕ → ℕ → Option StoreError → S × Option StoreError → Imported S
  finished count skipped error (s, some e) = record {
    store = s;
    count = count;
    skipped = skipped;
    error = some e;
  }
  finished count skipped error (s, none) = record {
    store = s;
    count = count;
    skipped = skipped;
    error = error;
  }

  -- Behind the loop: the last flush, `finish`, and the scanner's error.
  abbrev pub ended : ℕ → ℕ → Option StoreError → S × Option StoreError → Imported S
  ended count skipped error (s, some e) = record {
    store = s;
    count = count;
    skipped = skipped;
    error = some e;
  }
  ended count skipped error (s, none) = finished count skipped error (finish s)

  -- flush: nothing for an empty batch
  abbrev pub flush_batch : List A → S → S × Option StoreError
  flush_batch [] s = (s, none)
  flush_batch (a ∷ rest) s = flush (a ∷ rest) s

  abbrev pub Loop : Type 0
  Loop = List A → ℕ → ℕ → S → Imported S

  abbrev pub after_flush : ℕ → ℕ → S × Option StoreError → Loop → Imported S
  after_flush count skipped (s, some e) rest = record {
    store = s;
    count = count;
    skipped = skipped;
    error = some e;
  }
  after_flush count skipped (s, none) rest = rest [] count skipped s

  abbrev pub counted : List A → ℕ → ℕ → S → Loop → Imported S
  counted batch count skipped s rest =
      if leb size (length batch)
      then after_flush count skipped (flush_batch batch s) rest
      else rest batch count skipped s

  -- An item whose `before` fails is in the batch but not counted.
  abbrev pub after_before : List A → ℕ → ℕ → S × Option StoreError → Loop → Imported S
  after_before batch count skipped (s, some e) rest = record {
    store = s;
    count = count;
    skipped = skipped;
    error = some e;
  }
  after_before batch count skipped (s, none) rest = counted batch (suc count) skipped s rest

  abbrev pub converted : Option A → List A → ℕ → ℕ → S → Loop → Imported S
  converted none batch count skipped s rest = rest batch count (suc skipped) s
  converted (some a) batch count skipped s rest =
      after_before (batch ++ a ∷ []) count skipped (before a s) rest

  unfoldable pub import_loop : List Bytes → List A → ℕ → ℕ → S → Imported S
  import_loop [] batch count skipped s =
      ended count skipped (scan_error false) (flush_batch batch s)
  import_loop (l ∷ ls) batch count skipped s =
      if limit_reached limit count
      then ended count skipped (scan_error true) (flush_batch batch s)
      else converted (convert l) batch count skipped s (import_loop ls)

abbrev pub local_provider : Bytes → Bytes
local_provider p = if p =ᵇ [] then codes "anna-local" else p

abbrev pub torrent_locator : Bytes → Bytes → Bytes → Bytes → Bytes → Option Locator
torrent_locator provider external_id file_id torrent path =
    if torrent =ᵇ [] || path =ᵇ []
    then none
    else some (record {
      provider_id = provider;
      external_id = external_id;
      file_id = file_id;
      kind = torrent_file;
      url = [];
      metainfo = torrent;
      path = path;
      offset = pos 0;
      size = pos 0;
    })

-- The body of the loop of SyncAnnaFilesJSONL, up to the batch
unfoldable pub to_file_record : AnnaFileRecord → Option FileRecord
unfolding to_lower trim_prefix
to_file_record r =
    let external_id = if r.external_id =ᵇ [] then r.md5 else r.external_id in
    let provider = local_provider r.provider_id in
    let file_id = to_lower (trim_prefix (codes ".") r.format) in
    if external_id =ᵇ [] || r.format =ᵇ [] || file_id =ᵇ []
    then none
    else some (record {
      provider_id = provider;
      external_id = external_id;
      file_id = file_id;
      md5 = r.md5;
      aacid = r.aacid;
      format = file_id;
      size = r.size;
      locator = torrent_locator provider external_id file_id r.torrent r.path;
    })

pub record BookItem : Type 0 where
  pub book : Book
  pub locator : Option Locator

abbrev pub http_locator : Bytes → Bytes → Bytes → Bytes → Locator
http_locator provider external_id file_id url = record {
  provider_id = provider;
  external_id = external_id;
  file_id = file_id;
  kind = http;
  url = url;
  metainfo = [];
  path = [];
  offset = pos 0;
  size = pos 0;
}

-- The body of the loop of SyncAnnaJSONL, up to the batch
unfoldable pub to_book_item : AnnaRecord → Option BookItem
unfolding to_lower trim_prefix trim_space
to_book_item r =
    let external_id =
      if r.external_id =ᵇ [] then (if r.md5 =ᵇ [] then r.aacid else r.md5) else r.external_id in
    let provider = local_provider r.provider_id in
    let named = to_lower (trim_prefix (codes ".") (trim_space r.format)) in
    let format = if named =ᵇ [] then codes "unknown" else named in
    let size = or_size r.size r.file_size in
    if trim_space r.title =ᵇ [] || trim_space external_id =ᵇ []
    then none
    else some (record {
      book = record {
        provider_id = provider;
        external_id = external_id;
        title = r.title;
        author = r.author;
        description = r.description;
        isbn = r.isbn;
        cover_url = r.cover_url;
        files =
            record {
              file_id = format;
              format = format;
              size = size;
              url = [];
              md5 = r.md5;
              aacid = r.aacid;
            }
            ∷ [];
      };
      locator =
          if r.url =ᵇ []
          then torrent_locator provider external_id format r.torrent r.path
          else some (http_locator provider external_id format r.url);
    })

abbrev pub decoded_as : {A B : Type 0} → (A → Option B) → Option A → Option B
decoded_as f none = none
decoded_as f (some r) = f r

module _ {D : Type 0} (db : Database D) (codec : Codec) (limit : ℕ)
    (scan_error : Bool → Option StoreError) where
  -- SyncAnnaFilesJSONL
  unfoldable pub sync_files :
      (Bytes → Option AnnaFileRecord) → List Bytes → Session D → Imported (Session D)
  unfolding import_loop upsert_files_batch to_file_record
  sync_files decode lines s =
      import_loop (λ l. decoded_as to_file_record (decode l)) (λ f s'. (s', none))
        (upsert_files_batch db codec) (λ s'. (s', none)) 1000 limit scan_error lines [] 0 0 s

  abbrev pub write_item_locator : BookItem → Session D → Outcome D
  write_item_locator item s = put_if db codec item.locator s

  abbrev pub write_items : List BookItem → Session D → Outcome D
  write_items items s = upsert_batch db codec (map (λ i. i.book) items) s

  -- SyncAnnaJSONL
  unfoldable pub sync_records :
      (Bytes → Option AnnaRecord) → List Bytes → Session D → Imported (Session D)
  unfolding import_loop upsert_batch to_book_item rebuild_fts
  sync_records decode lines s =
      import_loop (λ l. decoded_as to_book_item (decode l)) write_item_locator write_items
        (rebuild_fts db codec) 500 limit scan_error lines [] 0 0 s
