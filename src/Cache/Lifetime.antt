-- ===== src/Cache/Lifetime.antt =====
-- internal/cache/cache.go: what is read after a write.
use atlas_bridge.Base.{
  ℕ, ◌+◌, ◌≡◌, ◌≤◌, ◌<◌, refl, Option, none, some, ltb, if◌then◌else◌, Result, ok, err, arith,
  Option-cases, Bool-cases, inl, inr, subst, lt→ltb, ltb→lt,
}
use atlas_bridge.Base.Text.{Bytes, ◌=ᵇ◌, =ᵇ→eq}
use atlas_bridge.Model.{Book}
use atlas_bridge.Cache.{
  Bucket, Entry, Codec, CacheError, key, put, put_encoded, written, get, looked_up, fresh_entry,
  not_decoded, without,
}

-- What bbolt documents of one bucket.
pub record IsBucket {D : Type 0} (bucket : Bucket D) : Type 0 where
  pub get-put :
      (k j v : Bytes) (db db' : D)
      → bucket.put_value k v db ≡ some db'
      → bucket.get_value j db' ≡ (if k =ᵇ j then some v else bucket.get_value j db)
  pub get-delete :
      (k j : Bytes) (db db' : D)
      → bucket.delete_value k db ≡ some db'
      → bucket.get_value j db' ≡ (if k =ᵇ j then none else bucket.get_value j db)

-- What is encoded is decoded to the same value but for the strings of the book, which are `cleaned`:
-- encoding/json replaces what is not UTF-8 in them.
abbrev pub IsCodec : (Book → Book) → Codec → Type 0
IsCodec cleaned codec =
    (e : Entry) (bytes : Bytes)
    → codec.marshal e ≡ some bytes
    → codec.unmarshal bytes ≡ some (record { expires_at = e.expires_at; stored = cleaned e.stored })

module _ {D : Type 0} (bucket : Bucket D) (codec : Codec) (ttl : ℕ) where
  -- The result of a read, without the database behind it. It is that of the first transaction, whatever
  -- comes between the two.
  abbrev pub read : ℕ → Bytes → Bytes → D → Result CacheError (Option Book)
  read now provider id db = (get bucket codec ttl (λ d. d) now provider id db).1

  -- What a read makes of the value under its key.
  abbrev seen : ℕ → Option Entry → Result CacheError (Option Book)
  seen now none = err not_decoded
  seen now (some e) = if ltb e.expires_at now then ok none else ok (some e.stored)

  abbrev value_read : ℕ → Option Bytes → Result CacheError (Option Book)
  value_read now none = ok none
  value_read now (some bytes) = seen now (codec.unmarshal bytes)

  fresh_entry-seen :
      (now : ℕ) (k : Bytes) (o : Option Entry) (db : D)
      → (fresh_entry bucket codec ttl (λ d. d) now k o db).1 ≡ seen now o
  fresh_entry-seen now k none db = refl
  fresh_entry-seen now k (some e) db = elim (Bool-cases (ltb e.expires_at now)) [
    | inl h ↦ rw h refl
    | inr h ↦ rw h refl
  ]

  looked_up-value_read :
      (now : ℕ) (k : Bytes) (o : Option Bytes) (db : D)
      → (looked_up bucket codec ttl (λ d. d) now k o db).1 ≡ value_read now o
  looked_up-value_read now k none db = refl
  looked_up-value_read now k (some bytes) db = fresh_entry-seen now k (codec.unmarshal bytes) db

  read-value_read :
      (now : ℕ) (provider id : Bytes) (db : D)
      → read now provider id db ≡ value_read now (bucket.get_value (key provider id) db)
  unfolding get
  read-value_read now provider id db =
      looked_up-value_read now (key provider id) (bucket.get_value (key provider id) db) db

  put-inversion :
      (now : ℕ) (b : Book) (db : D) {db' : D}
      → put bucket codec ttl now b db ≡ ok db'
      → (bytes : Bytes) × (codec.marshal (record { expires_at = now + ttl; stored = b })
          ≡ some bytes)
        × (bucket.put_value (key b.provider_id b.external_id) bytes db ≡ some db')
  unfolding put
  put-inversion now b db h =
      encoded (codec.marshal (record { expires_at = now + ttl; stored = b })) h
    where
      done : (o : Option D) {db' : D} → written bucket codec ttl o ≡ ok db' → o ≡ some db'
      done none h' = cc
      done (some db'') h' = cc

      encoded :
          (o : Option Bytes) {db' : D}
          → put_encoded bucket codec ttl (key b.provider_id b.external_id) o db ≡ ok db'
          → (bytes : Bytes) × (o ≡ some bytes)
            × (bucket.put_value (key b.provider_id b.external_id) bytes db ≡ some db')
      encoded none h' = cc
      encoded (some bytes) h' =
          (bytes, refl, done (bucket.put_value (key b.provider_id b.external_id) bytes db) h')

  -- After a write that succeeds, the book, its strings as the codec gives them back, is read under its
  -- provider and id until its time to live is over and not after it; a read under any other key gives
  -- what it gave before.
  pub put-get :
      (cleaned : Book → Book)
      → IsBucket bucket
      → IsCodec cleaned codec
      → (now later : ℕ) (b : Book) (provider id : Bytes) (db : D) {db' : D}
      → put bucket codec ttl now b db ≡ ok db'
      → read later provider id db' ≡ (
          if key b.provider_id b.external_id =ᵇ key provider id
          then (if ltb (now + ttl) later then ok none else ok (some (cleaned b)))
          else read later provider id db)
  put-get cleaned laws decodes now later b provider id db {db'} h =
      let (bytes, encoded, stored) = put-inversion now b db h in
      let k = key b.provider_id b.external_id in
      let j = key provider id in
      let law = laws.get-put k j bytes db db' stored in
      rw (read-value_read later provider id db', read-value_read later provider id db, law)
        (elim (Bool-cases (k =ᵇ j)) [
          | inl e ↦ rw (e, decodes _ bytes encoded) refl
          | inr e ↦ rw e refl
        ])

  without-read :
      IsBucket bucket
      → (now later : ℕ) (k provider id bytes : Bytes) (e : Entry) (db : D) → now ≤ later
      → bucket.get_value k db ≡ some bytes
      → codec.unmarshal bytes ≡ some e
      → e.expires_at < now
      → read later provider id (without bucket codec ttl k db) ≡ read later provider id db
  without-read laws now later k provider id bytes e db order there decoded over =
      elim (Option-cases (bucket.delete_value k db)) [
        | inl failed ↦ rw (without, failed) refl
        | inr (after, deleted) ↦
            let j = key provider id in
            rw
              (
                without,
                deleted,
                read-value_read later provider id after,
                read-value_read later provider id db,
                laws.get-delete k j db after deleted,
              )
              (elim (Bool-cases (k =ᵇ j)) [
                | inr other ↦ rw other refl
                | inl same ↦
                    let stored : bucket.get_value j db ≡ some bytes =
                      subst (λ u. bucket.get_value u db ≡ some bytes) (=ᵇ→eq k j same) there in
                    rw (same, stored, decoded, lt→ltb e.expires_at later (omega arith)) refl
              ])
      ]

  fresh_entry-read :
      IsBucket bucket
      → (now later : ℕ) (k provider id bytes : Bytes) (o : Option Entry) (db : D) → now ≤ later
      → bucket.get_value k db ≡ some bytes
      → codec.unmarshal bytes ≡ o
      → read later provider id (fresh_entry bucket codec ttl (λ d. d) now k o db).0
        ≡ read later provider id db
  fresh_entry-read laws now later k provider id bytes none db order there decoded = refl
  fresh_entry-read laws now later k provider id bytes (some e) db order there decoded =
      elim (Bool-cases (ltb e.expires_at now)) [
        | inr h ↦ rw h refl
        | inl h ↦ rw h (
            without-read laws now later k provider id bytes e db order there decoded
              (ltb→lt e.expires_at now h))
      ]

  looked_up-read :
      IsBucket bucket
      → (now later : ℕ) (k provider id : Bytes) (o : Option Bytes) (db : D) → now ≤ later
      → bucket.get_value k db ≡ o
      → read later provider id (looked_up bucket codec ttl (λ d. d) now k o db).0
        ≡ read later provider id db
  looked_up-read laws now later k provider id none db order there = refl
  looked_up-read laws now later k provider id (some bytes) db order there =
      fresh_entry-read laws now later k provider id bytes (codec.unmarshal bytes) db order there
        refl

  -- A read may delete what has expired. If no other transaction comes between the two of a read, no read
  -- at the same time or later gives another result for that.
  pub get-read :
      IsBucket bucket
      → (now later : ℕ) (provider id provider' id' : Bytes) (db : D) → now ≤ later
      → read later provider' id' (get bucket codec ttl (λ d. d) now provider id db).0
        ≡ read later provider' id' db
  unfolding get
  get-read laws now later provider id provider' id' db order =
      looked_up-read laws now later (key provider id) provider' id'
        (bucket.get_value (key provider id) db) db order refl
