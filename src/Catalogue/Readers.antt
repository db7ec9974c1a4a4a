-- ===== src/Catalogue/Readers.antt =====
-- internal/catalog/sync.go: the readers between the decompressed dump and the import, and the progress
-- file. The zstd decoder and the buffered reader are what they deliver: chunks of bytes, or whole lines.
use atlas_bridge.Base.{
  ℕ, ◌+◌, ◌-◌, ◌%◌, ◌==◌, List, [], ◌∷◌, ◌++◌, Option, none, some, if◌then◌else◌, ltb, leb, length,
  take, drop,
}
use mathlib.Core.Option
use atlas_bridge.Base.Text.{Bytes, trim_space}
use atlas_bridge.Base.Decimal.{ℤ, pos, parse_int}
use atlas_bridge.Catalogue.Import.{Imported}

-- An error of the source: io.EOF or another one.
pub data SourceError : Type 0 where
  eof broken : SourceError

-- An error that a reader gives: its source's, or that of the expanded limit.
pub data ReadError : Type 0 where
  from_source : SourceError → ReadError
  exceeded : ReadError

-- What one read of the source offers, with the error that comes behind these bytes.
pub record Chunk : Type 0 where
  pub bytes : Bytes
  pub error : Option SourceError

abbrev pub Source : Type 0
Source = List Chunk

-- Read of the source with a buffer of k bytes: what does not fit is offered again.
abbrev pub read_source : ℕ → Source → Bytes × Option SourceError × Source
read_source k [] = ([], some eof, [])
read_source k (c ∷ cs) =
    if leb (length c.bytes) k
    then (c.bytes, c.error, cs)
    else (take k c.bytes, none, record c { bytes = drop k c.bytes } ∷ cs)

-- countingReader
pub record Counting : Type 0 where
  pub source : Source
  pub n : ℕ
  pub max : ℕ
  pub error : Option ReadError

abbrev pub limited : ℕ → Source → Counting
limited max source = record { source = source; n = 0; max = max; error = none }

abbrev pub kept_error : Option ReadError → Option SourceError → Option ReadError
kept_error old none = old
kept_error old (some eof) = none
kept_error old (some broken) = some (from_source broken)

-- countingReader.Read with a buffer of k bytes
unfoldable pub read_counted : ℕ → Counting → Counting × Bytes × Option ReadError
read_counted k r =
    if leb r.max r.n
    then (record r { error = some exceeded }, [], some exceeded)
    else let room = r.max - r.n in
      let got = read_source (if ltb room k then room else k) r.source in
      (
        record r { source = got.2; n = r.n + length got.0; error = kept_error r.error got.1 },
        got.0,
        Option.map from_source got.1,
      )

-- Reads with buffers of any sizes, with the bytes they deliver.
unfoldable pub read_sizes : List ℕ → Counting → Counting × Bytes
unfolding read_counted
read_sizes [] r = (r, [])
read_sizes (k ∷ ks) r =
    let got = read_counted k r in let rest = read_sizes ks got.0 in (rest.0, got.1 ++ rest.1)

-- A line that ReadBytes gives: it has at least one byte.
pub record Line : Type 0 where
  pub first : ℕ
  pub rest : Bytes

abbrev pub line_bytes : Line → Bytes
line_bytes l = l.first ∷ l.rest

-- checkpointReader; `progress` is the content of the progress file, if the writes to it succeed.
pub record Checkpoint : Type 0 where
  pub lines : List Line
  pub skip : ℕ
  pub seen : ℕ
  pub pending : Bytes
  pub progress : Option ℕ

abbrev pub checkpointed : ℕ → Option ℕ → Option ℕ
checkpointed seen old = if seen % 500 == 0 then some (seen - 500) else old

-- The loop of checkpointReader.Read for an empty `pending`, over the lines that are left.
unfoldable pub fill : List Line → Checkpoint → Checkpoint
fill [] r = record r { lines = [] }
fill (l ∷ ls) r =
    let skipped = fill ls (record r { lines = ls; seen = r.seen + 1; skip = r.skip - 1 }) in
    if ltb 0 r.skip then skipped else record r {
      lines = ls;
      seen = r.seen + 1;
      pending = line_bytes l;
      progress = checkpointed (r.seen + 1) r.progress;
    }

-- The reader with a line to hand out, if `pending` is empty and there is one.
abbrev pub filled : Bytes → Checkpoint → Checkpoint
filled [] r = fill r.lines r
filled (c ∷ s) r = r

abbrev pub copied : ℕ → Bytes → Checkpoint → Checkpoint × Bytes × Option ReadError
copied k [] r = (r, [], some (from_source eof))
copied k (c ∷ s) r = (record r { pending = drop k (c ∷ s) }, take k (c ∷ s), none)

-- checkpointReader.Read with a buffer of k bytes; the lines end with io.EOF.
unfoldable pub read_checkpoint : ℕ → Checkpoint → Checkpoint × Bytes × Option ReadError
unfolding fill
read_checkpoint k r = let r' = filled r.pending r in copied k r'.pending r'

-- Reads with buffers of any sizes, with the bytes they deliver.
unfoldable pub deliver : List ℕ → Checkpoint → Checkpoint × Bytes
unfolding read_checkpoint
deliver [] r = (r, [])
deliver (k ∷ ks) r =
    let got = read_checkpoint k r in let rest = deliver ks got.0 in (rest.0, got.1 ++ rest.1)

-- readProgress, of what os.ReadFile gives; `n, _ :=` keeps a number out of range at its bound, which no
-- file that writeProgress wrote holds.
unfoldable pub read_progress : Option Bytes → ℤ
unfolding parse_int trim_space
read_progress none = pos 0
read_progress (some text) = elim (parse_int (trim_space text)) [ some n ↦ n | none ↦ pos 0 ]

-- The reader that IngestZstdJSONL makes
abbrev pub resumed : ℕ → List Line → Checkpoint
resumed start lines = record {
  lines = lines;
  skip = start;
  seen = start;
  pending = [];
  progress = none;
}

-- The progress file behind IngestZstdJSONL, which removes it if there was no error.
abbrev pub left_progress : {S : Type 0} → Imported S → Checkpoint → Option ℕ
left_progress r reader = elim r.error [ some e ↦ reader.progress | none ↦ none ]

-- ingestZstd behind a dump that was opened: the import's error, else the counting reader's.
unfoldable pub ingest_zstd : {S : Type 0} → Imported S → Counting → Imported S × Option ReadError
ingest_zstd r reader = elim r.error [ some e ↦ (r, none) | none ↦ (r, reader.error) ]
