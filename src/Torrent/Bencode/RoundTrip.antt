-- ===== src/Torrent/Bencode/RoundTrip.antt =====
-- metainfo.go: what `encode` prints of a canonical value, `decode` reads back.
use atlas_bridge.Base.{
  ℕ, zero, suc, ◌+◌, ◌*◌, ◌≤◌, ◌<◌, ◌≡◌, refl, false, [], ◌∷◌, ◌++◌, arith, append_assoc, ◌==◌,
  length, length-append, ok, ◌>>=◌, ◌∙◌,
}
use atlas_bridge.Base.Text.{Bytes}
use atlas_bridge.Base.Decimal.{format_int, format_nat}
use atlas_bridge.Torrent.Bencode.{
  Value, Items, Entries, str, int, list, dict, nil, cons, end, entry, read_byte, unread, put,
  as_key, read_value, read_items, read_entries, decode, encode_string, concat_entries, encode,
  encode_items, encode_entries,
}
use atlas_bridge.Torrent.Bencode.Values.{IsCanonical, AllCanonical, IsAscending}
use atlas_bridge.Torrent.Bencode.Keys.{
  sort_by_key-IsAscending, join, join-end, join_assoc, put-IsFresh, IsApart, join-IsApart,
  end-IsApart,
}
use atlas_bridge.Torrent.Bencode.Strings.{read_integer-format_int, read_string-encode_string}

length-append_bytes : (xs ys : Bytes) → length (xs ++ ys) ≡ length xs + length ys
length-append_bytes = length-append

ruleset lengths = (arith, length-append_bytes)

-- The input goes on with something other than the end of a list or map.
abbrev IsOpen : Bytes → Type 0
IsOpen [] = ⊥
IsOpen (b ∷ _) = (b == b'e') ≡ false

-- A string at the front of the input.
read_value-encode_string :
    (f : ℕ) (s rest : Bytes)
    → length s ≤ 64 * 1024 * 1024
    → read_value (suc f) (encode_string s ++ rest) ≡ ok (str s, rest)
unfolding read_value read_byte
read_value-encode_string f s rest h =
    let (d, t, q, p, r) = read_string-encode_string s rest h in rw p (ground (arith, r))

encode_string-IsOpen :
    (s rest : Bytes) → length s ≤ 64 * 1024 * 1024 → IsOpen (encode_string s ++ rest)
encode_string-IsOpen s rest h =
    let (d, t, q, p, r) = read_string-encode_string s rest h in rw p (ground arith)

encode-IsOpen : (v : Value) (rest : Bytes) → IsCanonical v → IsOpen (encode v ++ rest)
unfolding encode
encode-IsOpen (str s) rest h = encode_string-IsOpen s rest h
encode-IsOpen (int i) rest h = refl
encode-IsOpen (list xs) rest h = refl
encode-IsOpen (dict es) rest h = refl

-- One round of each loop, on an input that goes on.
read_items_more :
    (f : ℕ) (bs : Bytes) (v : Value) (rest : Bytes)
    → IsOpen bs
    → read_value f bs ≡ ok (v, rest)
    → read_items (suc f) bs ≡ (read_items f rest >>= λ (xs, r). ok (cons v xs, r))
unfolding read_items read_byte unread
read_items_more f [] v rest open_ e = absurd open_
read_items_more f (b ∷ bs) v rest open_ e = rw (open_, e) refl

read_entries_more :
    (f : ℕ) (out : Entries) (bs k : Bytes) (v : Value) (rest₁ rest₂ : Bytes)
    → IsOpen bs
    → read_value f bs ≡ ok (str k, rest₁)
    → read_value f rest₁ ≡ ok (v, rest₂)
    → read_entries (suc f) out bs ≡ read_entries f (put k v out) rest₂
unfolding read_entries read_byte unread as_key
read_entries_more f out [] k v rest₁ rest₂ open_ e e' = absurd open_
read_entries_more f out (b ∷ bs) k v rest₁ rest₂ open_ e e' = rw (open_, e, e') refl

length-encode_pos : (v : Value) → 0 < length (encode v)
unfolding encode encode_string
length-encode_pos (str s) = omega (arith, length-append_bytes (format_nat (length s)) (b':' ∷ s))
length-encode_pos (int i) = omega arith
length-encode_pos (list xs) = omega arith
length-encode_pos (dict es) = omega arith

-- One induction over the value: with fuel above twice the length of a print, the readers take the
-- print off the front of any input.
mutual
  unfolding read_value read_byte encode

  read_value-print :
      (v : Value) (f : ℕ) (rest : Bytes)
      → IsCanonical v
      → 2 * length (encode v) < f
      → read_value f (encode v ++ rest) ≡ ok (v, rest)
  read_value-print v zero rest h fits = absurd (omega arith)
  read_value-print (str s) (suc f) rest h fits = read_value-encode_string f s rest h
  read_value-print (int i) (suc f) rest h fits =
      rw (append_assoc (format_int i) (b'e' ∷ []) rest) (read_integer-format_int i rest h)
  read_value-print (list xs) (suc f) rest h fits =
      rw
        (
          append_assoc (encode_items xs) (b'e' ∷ []) rest,
          read_items-print xs f rest h
              (omega (lengths, length-append_bytes (encode_items xs) (b'e' ∷ []))),
        )
        refl
  read_value-print (dict es) (suc f) rest h fits =
      let body = concat_entries (encode_entries es) in
      let sorted = sort_by_key-IsAscending es h in
      let room : 2 * length (b'd' ∷ (body ++ b'e' ∷ [])) < suc f = rw sorted at fits in
      rw
        (
          sorted,
          append_assoc body (b'e' ∷ []) rest,
          read_entries-print es f end rest h (end-IsApart es)
              (omega (arith, length-append_bytes body (b'e' ∷ []))),
        )
        refl

  read_items-print :
      (xs : Items) (f : ℕ) (rest : Bytes)
      → AllCanonical xs
      → suc (2 * length (encode_items xs)) < f
      → read_items f (encode_items xs ++ b'e' ∷ rest) ≡ ok (xs, rest)
  read_items-print xs zero rest h fits = absurd (omega arith)
  read_items-print nil (suc f) rest h fits = refl
  read_items-print (cons v xs) (suc f) rest h fits =
      let more = encode_items xs ++ b'e' ∷ rest in
      let room = length-append_bytes (encode v) (encode_items xs) in
      rw (append_assoc (encode v) (encode_items xs) (b'e' ∷ rest)) (
        read_items_more f (encode v ++ more) v more (encode-IsOpen v more h.0)
          (read_value-print v f more h.0 (omega arith))
        ∙ rw (read_items-print xs f rest h.1 (omega (arith, length-encode_pos v))) refl)

  read_entries-print :
      (es : Entries) (f : ℕ) (out : Entries) (rest : Bytes)
      → IsAscending es
      → IsApart out es
      → suc (2 * length (concat_entries (encode_entries es))) < f
      → read_entries f out (concat_entries (encode_entries es) ++ b'e' ∷ rest)
        ≡ ok (join out es, rest)
  read_entries-print es zero out rest h apart fits = absurd (omega arith)
  read_entries-print end (suc f) out rest h apart fits = rw (join-end out)
  read_entries-print (entry k v es) (suc zero) out rest h apart fits =
      absurd (omega (lengths, length-encode_pos v))
  read_entries-print (entry k v es) (suc (suc f)) out rest (hk, below, hv, hs) (fresh, apart) fits =
      let body = concat_entries (encode_entries es) in
      let after = body ++ b'e' ∷ rest in
      let key_room = length-append_bytes (encode_string k) (encode v ++ body) in
      let room = length-append_bytes (encode v) body in
      rw
        (
          append_assoc (encode_string k) (encode v ++ body) (b'e' ∷ rest),
          append_assoc (encode v) body (b'e' ∷ rest),
        )
        (read_entries_more (suc f) out (encode_string k ++ (encode v ++ after)) k v
            (encode v ++ after) after (encode_string-IsOpen k (encode v ++ after) hk)
            (read_value-encode_string f k (encode v ++ after) hk)
            (read_value-print v (suc f) after hv (omega arith))
          ∙ rw (put-IsFresh k v out fresh) (
              read_entries-print es (suc f) (join out (entry k v end)) rest hs
                (join-IsApart out k v es apart below) (omega (arith, length-encode_pos v))
              ∙ rw (join_assoc out k v es)))

-- With enough fuel the reader takes the print of a canonical value off the front of any input, and
-- returns that value and the bytes behind it.
pub read_value-encode :
    (v : Value) (f : ℕ) (rest : Bytes)
    → IsCanonical v
    → 2 * length (encode v) < f
    → read_value f (encode v ++ rest) ≡ ok (v, rest)
read_value-encode v f rest h fits = read_value-print v f rest h fits

-- What `encode` prints of a canonical value, `decode` reads back, whatever bytes follow.
pub decode-encode : (v : Value) (rest : Bytes) → IsCanonical v → decode (encode v ++ rest) ≡ ok v
unfolding decode
decode-encode v rest h = rw (
    read_value-encode v (2 * length (encode v ++ rest) + 1) rest h
      (omega (arith, length-append_bytes (encode v) rest)))
