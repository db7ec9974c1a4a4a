-- ===== src/Api/Searches.antt =====
-- internal/api/server.go: what a provider is asked by the search handler.
use atlas_bridge.Base.{
  ◌≡◌, inl, inr, ◌≤◌, refl, true, ◌||◌, ◌∷◌, ltb, length, arith, Bool-cases, Option-cases, ap,
}
use atlas_bridge.Base.Text.{Bytes, codes, ◌=ᵇ◌, to_lower}
use atlas_bridge.Base.Maps.{find}
use atlas_bridge.Model.{Provider, SearchOptions}
use atlas_bridge.Api.{HttpRequest, Server, write_json, found, decorate, decorate_all}
use atlas_bridge.Api.Access.{bounded_int-range}
use atlas_bridge.Api.Answers.{
  search, searched, answered, decorated, known_format, page_of, page_size_of, format_of, query_of,
  with_provider,
}

-- A question that the program may put to a provider.
abbrev pub IsValidSearch : Bytes → SearchOptions → Type 0
IsValidSearch q o =
    (3 ≤ length q)
    × (length q ≤ 500)
    × (1 ≤ o.page)
    × (o.page ≤ 10000)
    × (1 ≤ o.page_size)
    × (o.page_size ≤ 50)
    × (known_format o.format ≡ true)

-- The providers give the same answers to those questions.
abbrev pub Agree : Provider → Provider → Type 0
Agree p p' = (q : Bytes) (o : SearchOptions) → IsValidSearch q o → p.search q o ≡ p'.search q o

searched-Agree :
    (s : Server) (r : HttpRequest) (p p' : Provider) → Agree p p' → searched s r p ≡ searched s r p'
searched-Agree s r p p' same =
    elim (Bool-cases (ltb (length (query_of r)) 3 || ltb 500 (length (query_of r)))) [
      | inl e ↦ rw e refl
      | inr e ↦ elim (Bool-cases (known_format (format_of r))) [
        | inr bad ↦ rw (e, bad) refl
        | inl known ↦
            let page =
              bounded_int-range (r.query (codes "page")) 1 1 10000 (omega arith) (omega arith) in
            let size =
              bounded_int-range (r.query (codes "pageSize")) 20 1 50 (omega arith) (omega arith) in
            rw (e, known)
              (ap (λ o. answered o (λ result. write_json 200 (found (decorated s result))))
                (same (query_of r)
                  (record { page = page_of r; page_size = page_size_of r; format = format_of r })
                  (ground (arith, e), ground (arith, e), page.0, page.1, size.0, size.1, known)))
      ]
    ]

-- The search handler's response depends on a provider by its answers to valid questions only: a query
-- of 3 to 500 bytes, a page of 1 to 10000, 1 to 50 results a page, and a format that is empty, epub or
-- pdf. So no other question reaches a provider.
pub search-Agree :
    (s : Server) (r : HttpRequest) (name : Bytes) (p p' : Provider)
    → Agree p p'
    → search (record s { providers = (name, p) ∷ s.providers }) r
      ≡ search (record s { providers = (name, p') ∷ s.providers }) r
unfolding search with_provider find decorate decorate_all
search-Agree s r name p p' same =
    let id = to_lower (r.path_value (codes "provider")) in
    elim (Bool-cases (name =ᵇ id)) [
      | inl e ↦ rw e (searched-Agree s r p p' same)
      | inr e ↦ elim (Option-cases (find id s.providers)) [
        | inl n ↦ rw (e, n) refl
        | inr (q, f) ↦ rw (e, f) refl
      ]
    ]
