-- ===== src/Catalogue/Agreement.antt =====
-- internal/catalog/store.go: Search and GetBook read a book alike.
use atlas_bridge.Base.{
  ℕ, suc, ◌≤◌, ◌≡◌, refl, Bool, true, false, List, [], ◌∷◌, Option, none, some, Result, err, ok,
  >>=-eq-ok, All, Bool-cases, inl, inr, ap, length, subst, arith,
}
use atlas_bridge.Base.Text.{Bytes, ◌=ᵇ◌, trim_space}
use atlas_bridge.Model.{Book, BookFile}
use atlas_bridge.Catalogue.{StoreError}
use atlas_bridge.Catalogue.Reads.{
  Rows, BookRow, Queries, one_row, merged_files, decoded_files, file_records, book_of, onto_books,
  scan_books, found_books, search, get_book, offset_of, wanted,
}
use atlas_bridge.Catalogue.Terms.{match_of}

abbrev made : Book → Result StoreError Book
made b = ok b

module _ (q : Queries) where
  -- A row that the query by its book's key gives too.
  abbrev pub IsKeyed : Option BookRow → Type 0
  IsKeyed none = Unit
  IsKeyed (some r) = q.book r.book.provider_id r.book.external_id ≡ one_row r

  -- GetBook gives this book for its key.
  abbrev pub IsGot : Book → Type 0
  IsGot b = get_book q b.provider_id b.external_id ≡ ok (some b)

  book_of-IsGot : (r : BookRow) (b : Book) → IsKeyed (some r) → book_of q r ≡ ok b → IsGot b
  unfolding book_of get_book
  book_of-IsGot r b keyed h =
      let (files, decoded, h1) = >>=-eq-ok (decoded_files (q.unmarshal_files r.files_json)) _ h in
      let (merged, found, h2) =
        >>=-eq-ok (file_records q r.book.provider_id r.book.external_id) _ h1 in
      by_merged files merged decoded found h2
    where
      moved : (x : Book) → made x ≡ ok b → IsGot x → IsGot b
      moved x e got = subst (λ y. IsGot y) {x = x} {y = b} (cc e) got

      by_merged :
          (files merged : List BookFile)
          → decoded_files (q.unmarshal_files r.files_json) ≡ ok files
          → file_records q r.book.provider_id r.book.external_id ≡ ok merged
          → made (merged_files (record r.book { files = files }) merged) ≡ ok b
          → IsGot b
      by_merged files [] decoded found h2 = moved _ h2 (rw (keyed, decoded, found) refl)
      by_merged files (f ∷ fs) decoded found h2 = moved _ h2 (rw (keyed, decoded, found) refl)

  onto_books-eq-ok :
      (b : Book) (o : Result StoreError (List Book)) (out : List Book)
      → onto_books q b o ≡ ok out
      → (bs : List Book) × (o ≡ ok bs) × (b ∷ bs ≡ out)
  onto_books-eq-ok b (err e) out h = cc h
  onto_books-eq-ok b (ok bs) out h = (bs, refl, cc h)

  scan_books-IsGot :
      (ended : Bool) (rows : List (Option BookRow)) (out : List Book)
      → All IsKeyed rows
      → scan_books q ended rows ≡ ok out
      → All IsGot out × (length out ≡ length rows)
  unfolding scan_books
  scan_books-IsGot true [] [] keyed h = (tt, refl)
  scan_books-IsGot true [] (b ∷ out) keyed h = cc h
  scan_books-IsGot false [] out keyed h = cc h
  scan_books-IsGot true (none ∷ rows) out keyed h = cc h
  scan_books-IsGot false (none ∷ rows) out keyed h = cc h
  scan_books-IsGot ended (some r ∷ rows) out (keyed, all) h =
      let (b, made, h1) = >>=-eq-ok (book_of q r) _ h in
      let (bs, rest, e) = onto_books-eq-ok b (scan_books q ended rows) out h1 in
      let (got, size) = scan_books-IsGot ended rows bs all rest in
      subst (λ o. All IsGot o × (length o ≡ suc (length rows))) e
        ((book_of-IsGot r b keyed made, got), ap suc size)

  found_books-IsGot :
      (o : Option (Rows BookRow)) (out : List Book) (limit : ℕ)
      → ((r : Rows BookRow) → o ≡ some r → All IsKeyed r.rows × (length r.rows ≤ limit))
      → found_books q o ≡ ok out
      → All IsGot out × (length out ≤ limit)
  found_books-IsGot none out limit stored h = cc h
  found_books-IsGot (some r) out limit stored h =
      let (keyed, size) = stored r refl in
      let (got, same_length) = scan_books-IsGot r.ended r.rows out keyed h in
      (got, omega (arith, size, same_length))

  -- The books table has one row for a key, and LIMIT bounds the rows that a search is given.
  pub search-IsGot :
      (query : Bytes) (page page_size : ℕ) (format : Bytes) (out : List Book) (more : Bool)
      → ((r : Rows BookRow)
          → q.matching (match_of query) (wanted format) page_size (offset_of page page_size)
            ≡ some r
          → All IsKeyed r.rows × (length r.rows ≤ page_size))
      → search q query page page_size format ≡ ok (out, more)
      → All IsGot out × (length out ≤ page_size)
  unfolding search
  search-IsGot query page page_size format out more stored h =
      elim (Bool-cases (trim_space query =ᵇ [])) [
        | inl y ↦
            subst (λ o. All IsGot o × (length o ≤ page_size)) {x = []} {y = out} (cc (h, y))
              (tt, omega arith)
        | inr n ↦
            let answer =
              q.matching (match_of query) (wanted format) page_size (offset_of page page_size) in
            let (bs, found, e) = >>=-eq-ok (found_books q answer) _ (rw n at h) in
            subst (λ o. All IsGot o × (length o ≤ page_size)) {x = bs} {y = out} (cc e)
              (found_books-IsGot answer bs page_size stored found)
      ]
