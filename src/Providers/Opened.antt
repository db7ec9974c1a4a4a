-- ===== src/Providers/Opened.antt =====
-- internal/providers/libgen.go: what a file is that OpenFile opened.
use atlas_bridge.Base.{
  ◌*◌, ◌≤◌, ◌≡◌, ◌≢◌, refl, Bool, true, false, not, ◌&&◌, [], ◌∷◌, Option, none, some, leb→le,
  length, take, ok, err, >>=-eq-ok, Bool-cases, inl, inr, and_true, arith, subst,
}
use atlas_bridge.Base.Text.{Bytes, codes, ◌=ᵇ◌, =ᵇ_iff, =ᵇ_refl, =ᵇ→eq, to_lower, has_prefix}
use atlas_bridge.Model.{Book, BookFile, Failure, Download}
use atlas_bridge.Providers.{Response, Fetch, require_ok, remote}
use atlas_bridge.Providers.LibGen.{
  LibGen, libgen, page_read, page_types, cached_book, libgen_details, fine, find_file, found_file,
  resolve_libgen_download, has_signature, signed, libgen_open_file,
}

-- The bytes that a book of this format begins with.
pub record IsSigned (format body : Bytes) : Type 0 where
  pub long_enough : 5 ≤ length body
  pub pdf : format ≡ codes "pdf" → take 5 body ≡ codes "%PDF-"
  pub epub : format ≡ codes "epub" → take 4 body ≡ b'P' ∷ b'K' ∷ 3 ∷ 4 ∷ []

fine-eq-ok :
    (resp resp' : Response)
    → fine resp ≡ ok resp'
    → (require_ok libgen resp ≡ none) × (resp ≡ resp')
fine-eq-ok resp resp' h = by_test (require_ok libgen resp) h
  where
    by_test :
        (o : Option Failure)
        → (elim o [ some e ↦ err e | none ↦ ok resp ]) ≡ ok resp'
        → (o ≡ none) × (resp ≡ resp')
    by_test (some e) h' = cc h'
    by_test none h' = (refl, cc h')

guard_holds :
    (format wanted : Bytes) (test : Bool)
    → not (format =ᵇ wanted && not test) ≡ true
    → format ≡ wanted
    → test ≡ true
guard_holds format wanted true h e = refl
guard_holds format wanted false h e = cc (h, (=ᵇ_iff format wanted).1 e)

prefix-take :
    (body : Bytes)
    → has_prefix (b'P' ∷ b'K' ∷ 3 ∷ 4 ∷ []) (take 5 body) ≡ true
    → take 4 body ≡ b'P' ∷ b'K' ∷ 3 ∷ 4 ∷ []
unfolding has_prefix
prefix-take [] h = cc h
prefix-take (a ∷ []) h = ground (arith, h)
prefix-take (a ∷ b ∷ []) h = ground (arith, h)
prefix-take (a ∷ b ∷ c ∷ []) h = ground (arith, h)
prefix-take (a ∷ b ∷ c ∷ d ∷ s) h = ground (arith, h)

has_signature-IsSigned :
    (format body : Bytes) → has_signature format body ≡ true → IsSigned format body
unfolding has_signature
has_signature-IsSigned format body h =
    let (h1, epub_test) = and_true _ _ h in
    let (long, pdf_test) = and_true _ _ h1 in
    record {
      long_enough = leb→le 5 (length body) long;
      pdf = λ e. =ᵇ→eq _ _ (guard_holds format (codes "pdf") _ pdf_test e);
      epub = λ e. prefix-take body (guard_holds format (codes "epub") _ epub_test e);
    }

-- A file that LibGen's OpenFile opens: the cache has the book, whose first file of that id has a page;
-- the content is that of a 2xx answer, is at least five bytes long, and begins as a file of the format
-- that the book lists: with "%PDF-" for pdf, with the ZIP signature for epub.
pub libgen_open_file-IsSigned :
    (l : LibGen) (fetch : Fetch) (id file_id : Bytes) {d : Download}
    → libgen_open_file l fetch id file_id ≡ ok d
    → (b : Book) × (f : BookFile) × (url : Bytes) × (resp : Response) × (l.cached (to_lower id)
        ≡ some b)
      × (find_file file_id b.files ≡ some f)
      × (f.url ≢ [])
      × (fetch url (codes "application/octet-stream") ≡ ok resp)
      × (require_ok libgen resp ≡ none)
      × (d ≡ remote resp)
      × IsSigned f.format d.body
unfolding libgen_open_file libgen_details remote
libgen_open_file-IsSigned l fetch id file_id {d} h =
    let (b, e1, h1) = >>=-eq-ok (cached_book (l.cached (to_lower id))) _ h in
    let (f, e2, h2) = >>=-eq-ok (found_file (find_file file_id b.files)) _ h1 in
    let (resp, e3, h3) = >>=-eq-ok (fetch f.url page_types) _ h2 in
    let (page, e4, h4) = >>=-eq-ok (page_read (5 * 1048576) resp) _ h3 in
    let (anchors, e5, h5) = >>=-eq-ok (l.scraper.anchors page) _ h4 in
    let (url, e6, h6) = >>=-eq-ok (resolve_libgen_download l.scraper f.url f.format anchors) _ h5 in
    let (file, e7, h7) = >>=-eq-ok (fetch url (codes "application/octet-stream")) _ h6 in
    let (file', e8, h8) = >>=-eq-ok (fine file) _ h7 in
    let (answered, same_file) = fine-eq-ok file file' e8 in
    let (is_remote, sign) = signed-eq-ok f.format file' h8 in
    let (found, has_page) = found_file-eq-ok (find_file file_id b.files) f e2 in
    (
      b,
      f,
      url,
      file,
      cached_book-eq-ok _ b e1,
      found,
      has_page,
      e7,
      answered,
      cc (is_remote, same_file),
      sign,
    )
  where
    cached_book-eq-ok : (o : Option Book) (b : Book) → cached_book o ≡ ok b → o ≡ some b
    cached_book-eq-ok none b e = cc e
    cached_book-eq-ok (some b') b e = cc e

    found_url : (f' f : BookFile) → (f'.url =ᵇ []) ≡ false → f' ≡ f → f.url ≢ []
    found_url f' f n moved empty = cc (n, moved, empty, =ᵇ_refl f'.url)

    found_file-eq-ok :
        (o : Option BookFile) (f : BookFile) → found_file o ≡ ok f → (o ≡ some f) × (f.url ≢ [])
    found_file-eq-ok none f e = cc e
    found_file-eq-ok (some f') f e = elim (Bool-cases (f'.url =ᵇ [])) [
      | inl y ↦ cc (e, y)
      | inr n ↦ (cc (e, n), found_url f' f n (cc (e, n)))
    ]

    signed-eq-ok :
        (format : Bytes) (resp : Response)
        → signed format resp ≡ ok d
        → (d ≡ remote resp) × IsSigned format d.body
    signed-eq-ok format resp e = elim (Bool-cases (has_signature format resp.body)) [
      | inr n ↦ cc (e, n)
      | inl y ↦ (
        cc (e, y),
        subst (λ x. IsSigned format x.body) {x = remote resp} {y = d} (cc (e, y))
            (has_signature-IsSigned format resp.body y),
      )
    ]
