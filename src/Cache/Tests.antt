-- ===== src/Cache/Tests.antt =====
-- internal/cache/cache.go: runs at concrete inputs, with a map for the bucket.
use atlas_bridge.Base.{
  ℕ, ◌≡◌, refl, List, [], ◌∷◌, ◌++◌, Option, none, some, if◌then◌else◌, ok, arith, subst,
}
use atlas_bridge.Base.Text.{Bytes, codes, ◌=ᵇ◌}
use atlas_bridge.Base.Maps.{Map, find, store, remove, find-store, find-remove}
use atlas_bridge.Model.{Book}
use atlas_bridge.Cache.{Bucket, Entry, Codec, key, put, get}
use atlas_bridge.Cache.Lifetime.{IsBucket, IsCodec, read, put-get, get-read}

abbrev bucket : Bucket (Map Bytes)
bucket = record {
  put_value = λ k v m. some (store k v m);
  get_value = find;
  delete_value = λ k m. some (remove k m);
}

bucket-IsBucket : IsBucket bucket
bucket-IsBucket = record {
  get-put = λ k j v db db' e.
      subst (λ m. find j m ≡ (if k =ᵇ j then some v else find j db)) (some-inj e)
        (find-store k j v db);
  get-delete = λ k j db db' e.
      subst (λ m. find j m ≡ (if k =ᵇ j then none else find j db)) (some-inj e)
        (find-remove k j db);
}
  where
    some-inj : {m m' : Map Bytes} → some m ≡ some m' → m ≡ m'
    some-inj e = cc e

abbrev simple : ℕ → Bytes → Entry
simple n id = record {
  expires_at = n;
  stored = record {
    provider_id = codes "anna";
    external_id = id;
    title = [];
    author = [];
    description = [];
    isbn = [];
    cover_url = [];
    files = [];
  };
}

abbrev if_empty {ℓ} : {A : Type ℓ} → List A → Option Bytes → Option Bytes
if_empty [] o = o
if_empty (x ∷ xs) o = none

abbrev if_anna : Bytes → Option Bytes → Option Bytes
if_anna p o = if p =ᵇ codes "anna" then o else none

-- A codec that takes every entry and keeps no more of the book than its id.
abbrev codec : Codec
codec = record {
  marshal = λ e. some (e.expires_at ∷ e.stored.external_id);
  unmarshal = λ bytes. elim bytes [ [] ↦ none | n ∷ id ↦ some (simple n id) ];
}

abbrev only_id : Book → Book
only_id b = (simple 0 b.external_id).stored

codec-IsCodec : IsCodec only_id codec
codec-IsCodec e bytes h =
    let spelt : (e.expires_at ∷ e.stored.external_id) ≡ bytes = cc h in
    subst (λ u. codec.unmarshal u ≡ some (simple e.expires_at e.stored.external_id)) spelt refl

abbrev shelf : Map Bytes
shelf = (codes "anna:b2", 40 ∷ codes "b2") ∷ []

abbrev after_put : Map Bytes
after_put = shelf ++ (codes "anna:a1", 15 ∷ codes "a1") ∷ []

stored_a1 : put bucket codec 10 5 (simple 0 (codes "a1")).stored shelf ≡ ok after_put
unfolding put key store
stored_a1 = refl

put-get_example :
    read bucket codec 10 9 (codes "anna") (codes "a1") after_put
    ≡ ok (some (simple 0 (codes "a1")).stored)
unfolding key
put-get_example =
    put-get bucket codec 10 only_id bucket-IsBucket codec-IsCodec 5 9 (simple 0 (codes "a1")).stored
      (codes "anna") (codes "a1") shelf stored_a1

get-read_example :
    read bucket codec 10 60
      (codes "anna")
      (codes "b2")
      (get bucket codec 10 (λ d. d) 50 (codes "anna") (codes "b2") shelf).0
    ≡ read bucket codec 10 60 (codes "anna") (codes "b2") shelf
get-read_example =
    get-read bucket codec 10 bucket-IsBucket 50 60 (codes "anna") (codes "b2") (codes "anna")
      (codes "b2") shelf (omega arith)

-- A book written between the two transactions of a read is deleted, though it has not expired.
deleted_fresh :
    (get bucket codec 10
      (λ d. store (codes "anna:b2") (70 ∷ codes "b2") d)
      50
      (codes "anna")
      (codes "b2")
      shelf).0
    ≡ []
unfolding get store remove find
deleted_fresh = refl
