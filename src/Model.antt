-- ===== src/Model.antt =====
-- internal/model/model.go: the types that providers, the catalogue and the HTTP API exchange. The
-- acquisitions' types stand in Acquisition.antt, with the code that keeps them.
use atlas_bridge.Base.{ℕ, Bool, List, Option, Result}
use atlas_bridge.Base.Text.{Bytes}
use atlas_bridge.Base.Decimal.{ℤ}

-- File
pub record BookFile : Type 0 where
  pub file_id : Bytes
  pub format : Bytes
  pub size : Option ℤ
  pub url : Bytes
  pub md5 : Bytes
  pub aacid : Bytes

pub record Book : Type 0 where
  pub provider_id : Bytes
  pub external_id : Bytes
  pub title : Bytes
  pub author : Bytes
  pub description : Bytes
  pub isbn : Bytes
  pub cover_url : Bytes
  pub files : List BookFile

pub record SearchOptions : Type 0 where
  pub page : ℕ
  pub page_size : ℕ
  pub format : Bytes

pub record SearchResponse : Type 0 where
  pub provider_id : Bytes
  pub query : Bytes
  pub page : ℕ
  pub has_more : Bool
  pub results : List Book

-- RemoteFile, its body read to the end
pub record Download : Type 0 where
  pub url : Bytes
  pub content_type : Bytes
  pub size : Option ℕ
  pub body : Bytes

pub record ProviderError : Type 0 where
  pub code : Bytes
  pub message : Bytes
  pub provider : Bytes
  pub retryable : Bool
  pub status : ℕ

-- A Go `error`: one that errors.As takes for a ProviderError, or another.
pub data Failure : Type 0 where
  provider_error : ProviderError → Failure
  other_error : Bytes → Failure

-- Provider, as it answers during one request
pub record Provider : Type 0 where
  pub search : Bytes → SearchOptions → Result Failure SearchResponse
  pub details : Bytes → Result Failure Book
  pub open_cover : Bytes → Result Failure Download
  pub open_file : Bytes → Bytes → Result Failure Download
