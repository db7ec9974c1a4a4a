-- ===== src/Api/Links.antt =====
-- internal/api/server.go: which addresses leave in a response.
use atlas_bridge.Base.{
  ◌≡◌, ◌⊎◌, inl, inr, refl, Bool, ◌||◌, List, [], ◌∷◌, ◌++◌, map, Option, none, some, ltb, length,
  Bool-cases, All, Result, ok, err, append_assoc,
}
use atlas_bridge.Base.Text.{Bytes, codes, ◌=ᵇ◌, to_lower}
use atlas_bridge.Base.Maps.{find}
use atlas_bridge.Model.{Book, BookFile, Provider, Failure}
use atlas_bridge.Api.{
  HttpRequest, HttpResponse, Server, Body, problem, found, book, acquisition, streamed, write_json,
  write_error, bad, decorate, decorate_all, linked_file, book_link, CatalogueSearch,
}
use atlas_bridge.Api.Answers.{
  search, searched, global_search, catalogue_searched, catalogue_answer, catalogued, details,
  with_provider, provided, answered, decorated, query_of, format_of, known_format, page_of,
  page_size_of,
}

-- An address of this server's own API.
abbrev pub IsOwn : Server → Bytes → Type 0
IsOwn s u = (rest : Bytes) × (u ≡ s.public_base ++ codes "/v1/providers/" ++ rest)

-- No address of the book is an upstream's.
abbrev pub IsLocal : Server → Book → Type 0
IsLocal s b = ((b.cover_url ≡ []) ⊎ IsOwn s b.cover_url) × All (λ f. IsOwn s f.url) b.files

abbrev pub LocalBody : Server → Body → Type 0
LocalBody s (found result) = All (IsLocal s) result.results
LocalBody s (book b) = IsLocal s b
LocalBody s (problem e) = Unit
LocalBody s (acquisition j) = Unit
LocalBody s (streamed content_type disposition size body) = Unit

link_with : (s : Server) (b : Book) (t : Bytes) → IsOwn s (book_link s b ++ t)
link_with s b t = (
  s.path_escape b.provider_id ++ codes "/books/" ++ s.path_escape b.external_id ++ t,
  simp append_assoc,
)

linked :
    (s : Server) (b : Book) (fs : List BookFile)
    → All (λ f. IsOwn s f.url) (map (linked_file s (book_link s b)) fs)
linked s b [] = tt
linked s b (f ∷ fs) = (link_with s b (codes "/files/" ++ s.path_escape f.file_id), linked s b fs)

decorate-IsLocal : (s : Server) (b : Book) → IsLocal s (decorate s b)
unfolding decorate
decorate-IsLocal s b = (
  elim (Bool-cases (b.cover_url =ᵇ [])) [
    | inl e ↦ inl (rw e refl)
    | inr e ↦ inr (rw e (link_with s b (codes "/cover")))
  ],
  linked s b b.files,
)

decorate_all-IsLocal : (s : Server) (bs : List Book) → All (IsLocal s) (decorate_all s bs)
unfolding decorate_all
decorate_all-IsLocal s [] = tt
decorate_all-IsLocal s (b ∷ bs) = (decorate-IsLocal s b, decorate_all-IsLocal s bs)

provided-Local :
    (s : Server) (id : Bytes) (o : Option Provider) (next : Provider → HttpResponse)
    → ((p : Provider) → LocalBody s (next p).body)
    → LocalBody s (provided id o next).body
unfolding write_error
provided-Local s id none next h = tt
provided-Local s id (some p) next h = h p

answered-Local {ℓ} :
    {A : Type ℓ} (s : Server) (o : Result Failure A) (next : A → HttpResponse)
    → ((a : A) → LocalBody s (next a).body)
    → LocalBody s (answered o next).body
unfolding write_error
answered-Local s (err e) next h = tt
answered-Local s (ok a) next h = h a

searched-Local : (s : Server) (r : HttpRequest) (p : Provider) → LocalBody s (searched s r p).body
unfolding write_error bad write_json
searched-Local s r p =
    elim (Bool-cases (ltb (length (query_of r)) 3 || ltb 500 (length (query_of r)))) [
      | inl e ↦ rw e tt
      | inr e ↦ elim (Bool-cases (known_format (format_of r))) [
        | inr bad_format ↦ rw (e, bad_format) tt
        | inl known ↦
            rw (e, known)
              (answered-Local s
                (p.search (query_of r)
                  (record { page = page_of r; page_size = page_size_of r; format = format_of r }))
                (λ result. write_json 200 (found (decorated s result)))
                (λ result. decorate_all-IsLocal s result.results))
      ]
    ]

catalogue_searched-Local :
    (s : Server) (r : HttpRequest) (c : CatalogueSearch)
    → LocalBody s (catalogue_searched s r c).body
unfolding write_error bad write_json
catalogue_searched-Local s r c =
    elim (Bool-cases (ltb (length (query_of r)) 2 || ltb 500 (length (query_of r)))) [
      | inl e ↦ rw e tt
      | inr e ↦ rw e (given (c (query_of r) (page_of r) (page_size_of r) (format_of r)))
    ]
  where
    given : (o : Result Failure (List Book × Bool)) → LocalBody s (catalogue_answer s r o).body
    given (err e) = tt
    given (ok (books, more)) = decorate_all-IsLocal s books

catalogued-Local :
    (s : Server) (r : HttpRequest) (c : Option CatalogueSearch)
    → LocalBody s (catalogued s r c).body
unfolding write_error
catalogued-Local s r none = tt
catalogued-Local s r (some c) = catalogue_searched-Local s r c

-- The body of a search, of a search in the local catalogue, and of a book's details, whatever a provider
-- or the catalogue answers, has no address in it but those of the server's own API: every file's, and
-- every cover's that is not empty.
pub search-IsLocal :
    (s : Server) (r : HttpRequest)
    → LocalBody s (search s r).body
      × LocalBody s (global_search s r).body
      × LocalBody s (details s r).body
unfolding search global_search details with_provider write_error write_json
search-IsLocal s r =
    let id = to_lower (r.path_value (codes "provider")) in
    (
      provided-Local s id (find id s.providers) (searched s r) (searched-Local s r),
      catalogued-Local s r s.catalogue,
      provided-Local s id (find id s.providers) _ (λ p.
          answered-Local s (p.details (r.path_value (codes "book")))
            (λ b. write_json 200 (book (decorate s b))) (λ b. decorate-IsLocal s b)),
    )
