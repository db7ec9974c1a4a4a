-- ===== src/Providers/Known.antt =====
-- internal/providers/anna.go: what a file that OpenFile opened is.
use atlas_bridge.Base.{
  ℕ, ◌≡◌, ◌≢◌, refl, true, List, [], ◌∷◌, Option, none, some, Result, ok, err, >>=-eq-ok,
  Bool-cases, inl, inr, ◌∙◌,
}
use atlas_bridge.Base.Text.{Bytes, codes, =ᵇ_iff, to_lower}
use atlas_bridge.Model.{Book, Failure, Download}
use atlas_bridge.Providers.{Response, Fetch, require_ok, read_bounded, remote}
use atlas_bridge.Providers.Anna.{Anna, me}
use atlas_bridge.Providers.Files.{
  Payload, details, from_cache, accepted, path_index, split_once, has_file, known, has_key,
  download_url, download_target, resolve, resolve_mirrors, open_file,
}

-- A download is the answer to a request that an upstream answered with a 2xx status.
abbrev pub IsAnswered : Fetch → Download → Type 0
IsAnswered fetch d =
    (url : Bytes) × (resp : Response) × (fetch url (codes "application/octet-stream") ≡ ok resp)
    × (require_ok me resp ≡ none)
    × (d ≡ remote resp)

accepted-eq-ok :
    (o : Option Failure) (resp : Response) {d : Download}
    → accepted o resp ≡ ok d
    → (o ≡ none) × (d ≡ remote resp)
accepted-eq-ok (some e) resp h = cc h
accepted-eq-ok none resp h = (refl, cc h)

resolve-IsAnswered :
    (a : Anna) (decode : Bytes → Payload) (fetch : Fetch) (id : Bytes) (index : ℕ) (mirror : Bytes)
    {d : Download}
    → resolve a decode fetch id index mirror ≡ ok d
    → IsAnswered fetch d
unfolding resolve
resolve-IsAnswered a decode fetch id index mirror h =
    let (resp, e1, h1) =
      >>=-eq-ok (fetch (download_target a mirror id index) (codes "application/json")) _ h in
    let (page, e2, h2) = >>=-eq-ok (read_bounded resp 1048576) _ h1 in
    let (url, e3, h3) = >>=-eq-ok (download_url (decode page) resp.status_code) _ h2 in
    let (download, e4, h4) = >>=-eq-ok (fetch url (codes "application/octet-stream")) _ h3 in
    let fine = accepted-eq-ok (require_ok me download) download h4 in
    (url, download, e4, fine.0, fine.1)

resolve_mirrors-IsAnswered :
    (a : Anna) (decode : Bytes → Payload) (fetch : Fetch) (id : Bytes) (index : ℕ)
    (mirrors : List Bytes) (last : Option Failure) {d : Download}
    → resolve_mirrors a decode fetch id index mirrors last ≡ ok d
    → IsAnswered fetch d
unfolding resolve_mirrors
resolve_mirrors-IsAnswered a decode fetch id index [] last h = cc h
resolve_mirrors-IsAnswered a decode fetch id index (mirror ∷ mirrors) last {d} h =
    by_result (resolve a decode fetch id index mirror) refl h
      (λ last' h'. resolve_mirrors-IsAnswered a decode fetch id index mirrors last' h')
  where
    by_result :
        {d' : Download} (r : Result Failure Download)
        → resolve a decode fetch id index mirror ≡ r
        → (elim r [
          | ok download ↦ ok download
          | err e ↦ resolve_mirrors a decode fetch id index mirrors (some e)
        ])
          ≡ ok d'
        → ((last' : Option Failure)
            → resolve_mirrors a decode fetch id index mirrors last' ≡ ok d'
            → IsAnswered fetch d')
        → IsAnswered fetch d'
    by_result (ok download) e h' rest = resolve-IsAnswered a decode fetch id index mirror (e ∙ h')
    by_result (err e') e h' rest = rest (some e') h'

-- A file that opens is of a book in the cache, which lists that file; the member key is set; and its
-- content, type and size are those of an answer with a 2xx status.
pub open_file-IsAnswered :
    (a : Anna) (decode : Bytes → Payload) (fetch : Fetch) (id file_id : Bytes) {d : Download}
    → open_file a decode fetch id file_id ≡ ok d
    → (a.key ≢ [])
      × ((b : Book) × (a.cached (to_lower id) ≡ some b) × (has_file b file_id ≡ true))
      × IsAnswered fetch d
unfolding open_file details
open_file-IsAnswered a decode fetch id file_id h =
    let (key, e1, h1) = >>=-eq-ok (has_key a) _ h in
    let (index, e2, h2) = >>=-eq-ok (path_index (split_once file_id)) _ h1 in
    let (b, e3, h3) = >>=-eq-ok (details a id) _ h2 in
    let (b', e4, h4) = >>=-eq-ok (known b file_id) _ h3 in
    (
      keyed e1,
      (b, cached (a.cached (to_lower id)) e3, listed b e4),
      resolve_mirrors-IsAnswered a decode fetch id index a.mirrors none h4,
    )
  where
    keyed : {k : Bytes} → has_key a ≡ ok k → a.key ≢ []
    keyed e empty = cc (e, (=ᵇ_iff a.key []).1 empty)

    cached : {b : Book} (o : Option Book) → from_cache o ≡ ok b → o ≡ some b
    cached none e = cc e
    cached (some b') e = cc e

    listed : (b : Book) {b' : Book} → known b file_id ≡ ok b' → has_file b file_id ≡ true
    listed b e = elim (Bool-cases (has_file b file_id)) [ inl y ↦ y | inr n ↦ cc (e, n) ]
