-- ===== src/Providers/Local.antt =====
-- internal/providers/local.go: the catalogue as a provider. Its constructor is a store, here its queries;
-- the texts of the store's errors are a parameter.
use atlas_bridge.Base.{
  ◌≤◌, ◌≡◌, refl, Bool, List, [], ◌∷◌, Option, none, some, Result, err, ok, ◌>>=◌, >>=-eq-ok, All,
  length, subst,
}
use atlas_bridge.Base.Text.{Bytes, codes}
use atlas_bridge.Model.{Book, SearchOptions, SearchResponse, Failure, other_error, Provider}
use atlas_bridge.Catalogue.{StoreError}
use atlas_bridge.Catalogue.Terms.{match_of}
use atlas_bridge.Catalogue.Reads.{Rows, BookRow, Queries, search, get_book, offset_of, wanted}
use atlas_bridge.Catalogue.Agreement.{IsKeyed, IsGot, search-IsGot}

abbrev pub local_name : Bytes
local_name = codes "anna-local"

module _ (describe : StoreError → Bytes) where
  abbrev pub failed : {A : Type 0} → Result StoreError A → Result Failure A
  failed (err e) = err (other_error (describe e))
  failed (ok a) = ok a

  abbrev pub page_response : Bytes → SearchOptions → List Book × Bool → SearchResponse
  page_response query o found = record {
    provider_id = local_name;
    query = query;
    page = o.page;
    has_more = found.1;
    results = found.0;
  }

  -- LocalCatalogue.Search
  unfoldable pub local_search : Queries → Bytes → SearchOptions → Result Failure SearchResponse
  unfolding search
  local_search store query o = failed (search store query o.page o.page_size o.format) >>= λ found.
      ok (page_response query o found)

  abbrev pub existing : Option Book → Result Failure Book
  existing none = err (other_error (codes "book not found"))
  existing (some b) = ok b

  -- LocalCatalogue.Details
  unfoldable pub local_details : Queries → Bytes → Result Failure Book
  unfolding get_book
  local_details store id = failed (get_book store local_name id) >>= existing

  -- LocalCatalogue as a Provider, with OpenCover and OpenFile
  unfoldable pub local_catalogue : Queries → Provider
  unfolding local_search local_details
  local_catalogue store = record {
    search = local_search store;
    details = local_details store;
    open_cover = λ id. err (other_error (codes "local catalogue has no cover proxy"));
    open_file =
        λ id file_id. err (other_error (codes "use an acquisition for local catalogue files"));
  }

  failed-eq-ok : {A : Type 0} (r : Result StoreError A) (a : A) → failed r ≡ ok a → r ≡ ok a
  failed-eq-ok (err e) a h = cc h
  failed-eq-ok (ok b) a h = cc h

  -- The provider's details of a book are this book.
  abbrev pub IsDetailed : Queries → Book → Type 0
  IsDetailed store b = (local_catalogue store).details b.external_id ≡ ok b

  local_details-IsDetailed :
      (store : Queries) (b : Book) → IsGot store b → b.provider_id ≡ local_name → IsDetailed store b
  unfolding local_catalogue local_details
  local_details-IsDetailed store b got mine =
      let h = subst (λ p. get_book store p b.external_id ≡ ok (some b)) mine got in rw h refl

  all-IsDetailed :
      (store : Queries) (books : List Book)
      → All (IsGot store) books
      → All (λ b. b.provider_id ≡ local_name → IsDetailed store b) books
  all-IsDetailed store [] got = tt
  all-IsDetailed store (b ∷ bs) (got, all) =
      (local_details-IsDetailed store b got, all-IsDetailed store bs all)

-- If the books table has one row for a key and a query gives at most as many rows as its limit: a search
-- of the local catalogue that succeeds gives at most a page of books, under the query and page that it
-- was asked for, and each of them that is of this provider is what the provider's details give for its
-- id, with the same files.
pub local_search-IsDetailed :
    (describe : StoreError → Bytes) (store : Queries) (query : Bytes) (o : SearchOptions)
    (response : SearchResponse)
    → ((r : Rows BookRow)
        → store.matching
            (match_of query)
            (wanted o.format)
            o.page_size
            (offset_of o.page o.page_size)
          ≡ some r
        → All (IsKeyed store) r.rows × (length r.rows ≤ o.page_size))
    → (local_catalogue describe store).search query o ≡ ok response
    → All (λ b. b.provider_id ≡ local_name → IsDetailed describe store b) response.results
      × (length response.results ≤ o.page_size)
      × (response.query ≡ query)
      × (response.page ≡ o.page)
unfolding local_catalogue local_search
local_search-IsDetailed describe store query o response stored h =
    let (found, searched, e) =
      >>=-eq-ok (failed describe (search store query o.page o.page_size o.format)) _ h in
    let (got, size) =
      search-IsGot store query o.page o.page_size o.format found.0 found.1 stored
        (failed-eq-ok describe _ found searched) in
    subst
      (λ r.
        All (λ b. b.provider_id ≡ local_name → IsDetailed describe store b) r.results
        × (length r.results ≤ o.page_size)
        × (r.query ≡ query)
        × (r.page ≡ o.page))
      {x = page_response describe query o found} {y = response} (cc e)
      (all-IsDetailed describe store found.0 got, size, refl, refl)
