-- ===== src/Cache.antt =====
-- internal/cache/cache.go: books by provider and id, each with a time to live. The bbolt database and
-- encoding/json are interfaces; times are numbers of nanoseconds.
pub mod Lifetime
pub mod Keys
mod Tests
use atlas_bridge.Base.{
  ℕ, ◌+◌, ◌≡◌, Bool, true, false, List, [], ◌∷◌, ◌++◌, Option, none, some, ltb, if◌then◌else◌,
  Result, ok, err,
}
use atlas_bridge.Base.Text.{Bytes, codes, ◌=ᵇ◌}
use atlas_bridge.Model.{Book}

-- The bucket of a database: a transaction that fails changes nothing.
pub record Bucket (D : Type 0) : Type 0 where
  pub put_value : Bytes → Bytes → D → Option D
  pub get_value : Bytes → D → Option Bytes
  pub delete_value : Bytes → D → Option D

pub record Entry : Type 0 where
  pub expires_at : ℕ
  pub stored : Book

pub record Codec : Type 0 where
  pub marshal : Entry → Option Bytes
  pub unmarshal : Bytes → Option Entry

pub data CacheError : Type 0 where
  not_encoded not_written not_decoded : CacheError

-- key
unfoldable pub key : Bytes → Bytes → Bytes
key provider id = provider ++ codes ":" ++ id

module _ {D : Type 0} (bucket : Bucket D) (codec : Codec) (ttl : ℕ) where
  abbrev pub written : Option D → Result CacheError D
  written none = err not_written
  written (some db) = ok db

  abbrev pub put_encoded : Bytes → Option Bytes → D → Result CacheError D
  put_encoded k none db = err not_encoded
  put_encoded k (some bytes) db = written (bucket.put_value k bytes db)

  -- Put, at the time `now`
  unfoldable pub put : ℕ → Book → D → Result CacheError D
  unfolding key
  put now b db =
      put_encoded (key b.provider_id b.external_id)
        (codec.marshal (record { expires_at = now + ttl; stored = b })) db

  abbrev pub without : Bytes → D → D
  without k db = elim (bucket.delete_value k db) [ none ↦ db | some after ↦ after ]

  -- What has expired is deleted in a second transaction: `between` is what others, a Put of the same
  -- book among them, have done to the database behind the first.
  abbrev pub fresh_entry :
      (D → D) → ℕ → Bytes → Option Entry → D → D × Result CacheError (Option Book)
  fresh_entry between now k none db = (between db, err not_decoded)
  fresh_entry between now k (some e) db =
      if ltb e.expires_at now
      then (without k (between db), ok none)
      else (between db, ok (some e.stored))

  abbrev pub looked_up :
      (D → D) → ℕ → Bytes → Option Bytes → D → D × Result CacheError (Option Book)
  looked_up between now k none db = (between db, ok none)
  looked_up between now k (some bytes) db = fresh_entry between now k (codec.unmarshal bytes) db

  -- Get, at the time `now`: an entry that has expired is deleted, if that succeeds.
  unfoldable pub get : (D → D) → ℕ → Bytes → Bytes → D → D × Result CacheError (Option Book)
  unfolding key
  get between now provider id db =
      looked_up between now (key provider id) (bucket.get_value (key provider id) db) db
