-- ===== src/Torrent/Inspect/Hash.antt =====
-- metainfo.go, Inspect: the infohash, over descriptors that `encode` printed.
use atlas_bridge.Base.{
  ◌≡◌, [], ◌∷◌, ◌++◌, some, ok, ◌∙◌, ap, sym, append_assoc, Bool-cases, inl, inr,
}
use atlas_bridge.Base.Text.{Bytes, codes, ◌=ᵇ◌}
use atlas_bridge.Torrent.Bencode.{
  Value, Entries, dict, end, entry, encode, encode_entries, encode_string, concat_entries,
}
use atlas_bridge.Torrent.Bencode.Values.{IsCanonical, IsAscending}
use atlas_bridge.Torrent.Bencode.Keys.{sort_by_key-IsAscending}
use atlas_bridge.Torrent.Bencode.RoundTrip.{decode-encode}
use atlas_bridge.Torrent.Inspect.{Inventory, get, inspect, hex_encode}
use atlas_bridge.Torrent.Inspect.Inversion.{inspect-Inspected}

-- `part` stands in `whole`.
abbrev pub IsPart : Bytes → Bytes → Type 0
IsPart part whole = (pre : Bytes) × (post : Bytes) × (whole ≡ pre ++ (part ++ post))

concat_entries-IsPart :
    (k : Bytes) (es : Entries) {v : Value}
    → get k es ≡ some v
    → IsPart (encode v) (concat_entries (encode_entries es))
unfolding get concat_entries encode
concat_entries-IsPart k end e = cc
concat_entries-IsPart k (entry j w es) {v} e = elim (Bool-cases (j =ᵇ k)) [
  | inl p ↦ let q = rw p at e in (encode_string j, concat_entries (encode_entries es), cc)
  | inr p ↦
      let (pre, post, q) = concat_entries-IsPart k es (rw p at e) in
      (
        encode_string j ++ (encode w ++ pre),
        post,
        ap (λ u. encode_string j ++ (encode w ++ u)) q
            ∙ sym (
                append_assoc (encode_string j) (encode w ++ pre) (encode v ++ post)
                ∙ ap (λ u. encode_string j ++ u) (append_assoc (encode w) pre (encode v ++ post))),
      )
]

-- The bytes of a value found in an ascending map stand in the bytes of the map.
encode-IsPart :
    (k : Bytes) (es : Entries) {v : Value}
    → IsAscending es
    → get k es ≡ some v
    → IsPart (encode v) (encode (dict es))
unfolding encode
encode-IsPart k es {v} h e =
    let (pre, post, q) = concat_entries-IsPart k es e in
    (
      b'd' ∷ pre,
      post ++ b'e' ∷ [],
      rw (sort_by_key-IsAscending es h, q)
          (ap (λ u. b'd' ∷ u)
            (append_assoc pre (encode v ++ post) (b'e' ∷ [])
              ∙ ap (λ u. pre ++ u) (append_assoc (encode v) post (b'e' ∷ [])))),
    )

-- For a descriptor that is the print of a canonical value, with any bytes behind it, the infohash of
-- an accepted inventory is the hash of bytes that stand in the print: those of its info dictionary.
pub inspect-info_hash :
    (sha1 : Bytes → Bytes) (root : Entries) (rest : Bytes) {inv : Inventory}
    → IsCanonical (dict root)
    → inspect sha1 (encode (dict root) ++ rest) ≡ ok inv
    → (info : Entries) × (get (codes "info") root ≡ some (dict info))
      × IsPart (encode (dict info)) (encode (dict root))
      × (inv.info_hash ≡ hex_encode (sha1 (encode (dict info))))
inspect-info_hash sha1 root rest {inv} h e =
    let seen = inspect-Inspected sha1 (encode (dict root) ++ rest) e in
    let same : root ≡ seen.root = cc (decode-encode (dict root) rest h, seen.root_decoded) in
    let found : get (codes "info") root ≡ some (dict seen.info) =
      ap (get (codes "info")) same ∙ seen.info_found in
    (seen.info, found, encode-IsPart (codes "info") root h found, seen.hash_made)
