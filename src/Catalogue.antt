-- ===== src/Catalogue.antt =====
-- internal/catalog: the store of books, files and locators (store.go, locator.go) and its import from
-- dumps (sync.go). The SQL database is an interface of the statements that the code runs; a transaction
-- works on a copy that its commit publishes. encoding/json is a parameter.
pub mod Writes
pub mod Books
pub mod Transactions
pub mod BookBatches
pub mod Terms
pub mod Reads
pub mod Agreement
pub mod Records
pub mod Import
pub mod Batches
pub mod Looped
pub mod Stored
pub mod Readers
pub mod Checkpoints
pub mod Counting
mod Tests
use atlas_bridge.Base.{
  ℕ, Bool, true, false, List, [], ◌∷◌, Option, none, some, if◌then◌else◌, Result, err, ok,
}
use atlas_bridge.Base.Text.{Bytes, ◌=ᵇ◌, trim_space}
use atlas_bridge.Base.Decimal.{ℤ}
use atlas_bridge.Model.{Book, BookFile}

pub data LocatorKind : Type 0 where
  http torrent_file torrent_range : LocatorKind

pub record Locator : Type 0 where
  pub provider_id : Bytes
  pub external_id : Bytes
  pub file_id : Bytes
  pub kind : LocatorKind
  pub url : Bytes
  pub metainfo : Bytes
  pub path : Bytes
  pub offset : ℤ
  pub size : ℤ

pub record FileRecord : Type 0 where
  pub provider_id : Bytes
  pub external_id : Bytes
  pub file_id : Bytes
  pub md5 : Bytes
  pub aacid : Bytes
  pub format : Bytes
  pub size : Option ℤ
  pub locator : Option Locator

-- A row of file_records; a column that is NULL is none.
pub record FileRow : Type 0 where
  pub provider_id : Bytes
  pub external_id : Bytes
  pub file_id : Bytes
  pub md5 : Option Bytes
  pub aacid : Option Bytes
  pub format : Bytes
  pub size : Option ℤ

-- The statements of the code, with their arguments.
pub data Statement : Type 0 where
  upsert_book : Book → Bytes → Statement
  delete_index : ℕ → Statement
  insert_index : ℕ → Book → Statement
  upsert_file : FileRow → Statement
  upsert_locator : Bytes → Bytes → Bytes → Bytes → Statement
  -- PutLocator makes the table if it is not there.
  create_and_upsert_locator : Bytes → Bytes → Bytes → Bytes → Statement
  rebuild_index : Statement

pub data StoreError : Type 0 where
  not_encoded not_executed no_row not_begun not_committed no_transaction not_decoded : StoreError

-- A database. A statement that fails changes nothing.
pub record Database (D : Type 0) : Type 0 where
  pub execute : Statement → D → Option D
  pub row_id : Bytes → Bytes → D → Option ℕ
  pub begins : D → Bool
  pub commits : D → D → Bool

pub record Codec : Type 0 where
  pub marshal_files : List BookFile → Option Bytes
  pub marshal_locator : Locator → Option Bytes

-- What the store's connection sees: the committed content, and that of an open transaction.
pub record Session (D : Type 0) : Type 0 where
  pub committed : D
  pub open_tx : Option D

-- nullable
unfoldable pub nullable : Bytes → Option Bytes
unfolding trim_space
nullable value = if trim_space value =ᵇ [] then none else some value
