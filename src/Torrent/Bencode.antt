-- ===== src/Torrent/Bencode.antt =====
-- internal/torrent/metainfo.go, the bencode part: readByte, readUntil, readValue, unread and encode.
-- A Go `any` that the reader builds is one of four types; a map is a list of its entries, each key
-- once, in the order of their first insertion. The reader's state is the bytes that are left, so the
-- one-byte pushback of `unread` puts a byte back in front. An input ends by `io.EOF`.
pub mod Values
pub mod Ends
pub mod Fuel
pub mod Strings
pub mod Keys
pub mod RoundTrip
pub mod Order
use atlas_bridge.Base.{
  ℕ, zero, suc, ◌+◌, ◌*◌, ◌^◌, Bool, true, false, ◌&&◌, ◌||◌, List, [], ◌∷◌, ◌++◌, Option, none,
  some, ltb, leb, ◌==◌, if◌then◌else◌, length, take, drop, Result, ok, err, ◌>>=◌,
}
use atlas_bridge.Base.Text.{Bytes, ◌=ᵇ◌}
use atlas_bridge.Base.Decimal.{ℤ, pos, negsuc, format_nat, format_int, parse_int}

-- The types that stand in a decoded `any`: string, int64, []any and map[string]any.
mutual
  pub data Value : Type 0 where
    str : Bytes → Value
    int : ℤ → Value
    list : Items → Value
    dict : Entries → Value

  pub data Items : Type 0 where
    nil : Items
    cons : Value → Items → Items

  pub data Entries : Type 0 where
    end : Entries
    entry : Bytes → Value → Entries → Entries

-- `out_of_fuel` has no counterpart in the program.
pub data DecodeError : Type 0 where
  eof token_too_large invalid_integer key_not_string invalid_length out_of_fuel : DecodeError

-- Reads a value off the front of the input, and leaves the rest.
abbrev pub Reader {ℓ} : Type ℓ → Type ℓ
Reader A = Bytes → Result DecodeError (A × Bytes)

abbrev pub max_token : ℕ
max_token = 1024 * 1024

abbrev pub max_string : ℕ
max_string = 64 * 1024 * 1024

unfoldable pub read_byte : Reader ℕ
read_byte [] = err eof
read_byte (b ∷ bs) = ok (b, bs)

-- `out` holds what was read so far.
unfoldable pub read_until : ℕ → Bytes → Reader Bytes
read_until delim out [] = err eof
read_until delim out (b ∷ bs) =
    if b == delim
    then ok (out, bs)
    else if ltb max_token (length (out ++ b ∷ []))
    then err token_too_large
    else read_until delim (out ++ b ∷ []) bs

unfoldable pub unread : ℕ → Bytes → Bytes
unread b bs = b ∷ bs

-- io.ReadFull into a buffer of `n` bytes
unfoldable pub read_full : ℕ → Reader Bytes
read_full n bs = if ltb (length bs) n then err eof else ok (take n bs, drop n bs)

-- m[k] = v
unfoldable pub put : Bytes → Value → Entries → Entries
put k v end = entry k v end
put k v (entry j w es) = if j =ᵇ k then entry j v es else entry j w (put k v es)

-- The end of case 'i': strconv.ParseInt and its error.
unfoldable pub as_integer : Option ℤ → Reader Value
as_integer none rest = err invalid_integer
as_integer (some n) rest = ok (int n, rest)

-- case 'i'
unfoldable pub read_integer : Reader Value
unfolding read_until as_integer
read_integer bs = read_until b'e' [] bs >>= λ (raw, rest). as_integer (parse_int raw) rest

-- The end of the default case: the length's bounds, and as many bytes.
unfoldable pub as_string : Option ℤ → Reader Value
unfolding read_full
as_string none rest = err invalid_length
as_string (some (negsuc _)) rest = err invalid_length
as_string (some (pos n)) rest =
    if ltb max_string n
    then err invalid_length
    else read_full n rest >>= λ (body, rest'). ok (str body, rest')

-- The default case, `b` the byte that chose it.
unfoldable pub read_string : ℕ → Reader Value
unfolding read_until as_string
read_string b bs = read_until b':' [] bs >>= λ (raw, rest). as_string (parse_int (b ∷ raw)) rest

-- The key of a dictionary entry.
unfoldable pub as_key : Value → Result DecodeError Bytes
as_key (str k) = ok k
as_key (int _) = err key_not_string
as_key (list _) = err key_not_string
as_key (dict _) = err key_not_string

-- What a call leaves of the input is no structural part of it, so each call costs a unit of fuel.
unfoldable mutual
  unfolding read_byte read_integer read_string unread put as_key

  pub read_value : ℕ → Reader Value
  read_value zero bs = err out_of_fuel
  read_value (suc f) bs = read_byte bs >>= λ (b, rest).
      let items = read_items f rest >>= λ (xs, rest'). ok (list xs, rest') in
      let entries = read_entries f end rest >>= λ (es, rest'). ok (dict es, rest') in
      if b == b'i'
      then read_integer rest
      else if b == b'l'
      then items
      else if b == b'd'
      then entries
      else read_string b rest

  -- The loop of case 'l'.
  pub read_items : ℕ → Reader Items
  read_items zero bs = err out_of_fuel
  read_items (suc f) bs = read_byte bs >>= λ (b, rest).
      let more = read_value f (unread b rest) >>= λ (v, rest₁).
      read_items f rest₁ >>= λ (xs, rest₂). ok (cons v xs, rest₂) in
      if b == b'e' then ok (nil, rest) else more

  -- The loop of case 'd', `out` the map so far.
  pub read_entries : ℕ → Entries → Reader Entries
  read_entries zero out bs = err out_of_fuel
  read_entries (suc f) out bs = read_byte bs >>= λ (b, rest).
      let more = read_value f (unread b rest) >>= λ (k, rest₁). as_key k >>= λ key.
      read_value f rest₁ >>= λ (v, rest₂). read_entries f (put key v out) rest₂ in
      if b == b'e' then ok (out, rest) else more

-- `decode`, with fuel for any input of this length.
unfoldable pub decode : Bytes → Result DecodeError Value
unfolding read_value
decode bs = read_value (2 * length bs + 1) bs >>= λ (v, _). ok v

-- The order of Go strings, byte by byte.
unfoldable pub before : Bytes → Bytes → Bool
before [] [] = false
before [] (y ∷ ys) = true
before (x ∷ xs) [] = false
before (x ∷ xs) (y ∷ ys) = ltb x y || ((x == y) && before xs ys)

unfoldable pub insert_sorted : Bytes → Bytes → List (Bytes × Bytes) → List (Bytes × Bytes)
unfolding before
insert_sorted k x [] = (k, x) ∷ []
insert_sorted k x ((j, y) ∷ m) =
    if before j k then (j, y) ∷ insert_sorted k x m else (k, x) ∷ (j, y) ∷ m

-- The keys and encoded values in the order of their keys, `sort.Strings` over a map's keys.
unfoldable pub sort_by_key : List (Bytes × Bytes) → List (Bytes × Bytes)
unfolding insert_sorted
sort_by_key [] = []
sort_by_key ((k, x) ∷ m) = insert_sorted k x (sort_by_key m)

-- encode of a string
unfoldable pub encode_string : Bytes → Bytes
unfolding format_nat
encode_string s = format_nat (length s) ++ b':' ∷ s

-- The body of a dictionary: each key's encoding and its value's.
unfoldable pub concat_entries : List (Bytes × Bytes) → Bytes
unfolding encode_string
concat_entries [] = []
concat_entries ((k, x) ∷ m) = encode_string k ++ (x ++ concat_entries m)

-- `encode`; its default case is not reached, since a value has one of the four types.
unfoldable mutual
  unfolding encode_string format_int sort_by_key concat_entries

  pub encode : Value → Bytes
  encode (str s) = encode_string s
  encode (int i) = b'i' ∷ (format_int i ++ b'e' ∷ [])
  encode (list xs) = b'l' ∷ (encode_items xs ++ b'e' ∷ [])
  encode (dict es) = b'd' ∷ (concat_entries (sort_by_key (encode_entries es)) ++ b'e' ∷ [])

  pub encode_items : Items → Bytes
  encode_items nil = []
  encode_items (cons v xs) = encode v ++ encode_items xs

  pub encode_entries : Entries → List (Bytes × Bytes)
  encode_entries end = []
  encode_entries (entry k v es) = (k, encode v) ∷ encode_entries es
