-- ===== src/Torrent/Inspect.antt =====
-- internal/torrent/metainfo.go, Inspect: the inventory of a descriptor, from its decoded value. The
-- hash function of crypto/sha1 is a parameter; an int64 that passed the test `n < 0` is a number.
pub mod Inversion
pub mod Sizes
pub mod Paths
pub mod Hash
use atlas_bridge.Base.{
  ℕ, zero, suc, ◌+◌, ◌-◌, ◌/◌, ◌%◌, Bool, true, false, List, [], ◌∷◌, ◌++◌, Option, none, some, ltb,
  ◌==◌, if◌then◌else◌, Result, ok, err, ◌>>=◌,
}
use atlas_bridge.Base.Text.{Bytes, codes, ◌=ᵇ◌}
use atlas_bridge.Base.Decimal.{ℤ, pos, negsuc, max_int64}
use atlas_bridge.Torrent.Bencode.{
  Value, Items, Entries, str, int, list, dict, nil, cons, end, entry, DecodeError, decode, encode,
}

pub record FileEntry : Type 0 where
  pub path : Bytes
  pub size : ℕ

pub record Inventory : Type 0 where
  pub name : Bytes
  pub info_hash : Bytes
  pub total_size : ℕ
  pub files : List FileEntry

pub data InspectError : Type 0 where
  undecodable : DecodeError → InspectError
  root_not_dictionary no_info_dictionary invalid_file_entry invalid_file_length : InspectError
  invalid_file_path invalid_path_component no_valid_files size_overflow : InspectError

-- m[k], with `none` for a missing key
unfoldable pub get : Bytes → Entries → Option Value
get k end = none
get k (entry j v es) = if j =ᵇ k then some v else get k es

-- Type assertions on what a map returned.
abbrev pub as_dict : Option Value → Option Entries
as_dict (some (dict es)) = some es
as_dict _ = none

abbrev pub as_list : Option Value → Option Items
as_list (some (list xs)) = some xs
as_list _ = none

-- `name, _ := … .(string)`: the empty string where the assertion fails
abbrev pub as_string : Option Value → Bytes
as_string (some (str s)) = s
as_string _ = []

-- `n, ok := … .(int64)` and the test `!ok || n < 0`
abbrev pub as_size : Option Value → Option ℕ
as_size (some (int (pos n))) = some n
as_size _ = none

abbrev pub require {ℓ} : {A : Type ℓ} → InspectError → Option A → Result InspectError A
require e none = err e
require e (some a) = ok a

-- A path's component, not empty.
abbrev pub as_component : Value → Result InspectError Bytes
as_component (str []) = err invalid_path_component
as_component (str (c ∷ s)) = ok (c ∷ s)
as_component _ = err invalid_path_component

-- The loop over a file's path, at index `i`.
unfoldable pub join_path : ℕ → Bytes → Items → Result InspectError Bytes
join_path i path nil = ok path
join_path i path (cons p parts) = as_component p >>= λ s.
    join_path (suc i) ((if ltb 0 i then path ++ b'/' ∷ [] else path) ++ s) parts

unfoldable pub read_entry : Value → Result InspectError FileEntry
unfolding get join_path
read_entry item = require invalid_file_entry (as_dict (some item)) >>= λ m.
    require invalid_file_length (as_size (get (codes "length") m)) >>= λ n.
    require invalid_file_path (as_list (get (codes "path") m)) >>= λ parts.
    join_path 0 [] parts >>= λ path. ok (record { path = path; size = n })

-- The loop over info["files"].
unfoldable pub read_files : Items → Result InspectError (List FileEntry)
unfolding read_entry
read_files nil = ok []
read_files (cons item items) = read_entry item >>= λ f. read_files items >>= λ fs. ok (f ∷ fs)

-- Without a list of files the torrent is one file, of its own name.
unfoldable pub single_file : Entries → Result InspectError (List FileEntry)
unfolding get
single_file info = require no_valid_files (as_size (get (codes "length") info)) >>= λ n.
    ok (record { path = as_string (get (codes "name") info); size = n } ∷ [])

abbrev pub files_or :
    Option Items → Result InspectError (List FileEntry) → Result InspectError (List FileEntry)
files_or (some items) single = read_files items
files_or none single = single

-- The two layouts of the info dictionary.
unfoldable pub list_files : Entries → Result InspectError (List FileEntry)
unfolding read_files get single_file
list_files info = files_or (as_list (get (codes "files") info)) (single_file info)

-- The loop that adds the sizes and stops before an int64 overflows.
unfoldable pub add_sizes : ℕ → List FileEntry → Result InspectError ℕ
add_sizes total [] = ok total
add_sizes total (f ∷ fs) =
    if ltb (max_int64 - f.size) total then err size_overflow else add_sizes (total + f.size) fs

abbrev pub hex_digit : ℕ → ℕ
hex_digit n = if ltb n 10 then b'0' + n else b'a' + (n - 10)

-- hex.EncodeToString
unfoldable pub hex_encode : Bytes → Bytes
hex_encode [] = []
hex_encode (b ∷ bs) = hex_digit (b / 16) ∷ hex_digit (b % 16) ∷ hex_encode bs

abbrev pub decoded : Result DecodeError Value → Result InspectError Value
decoded (ok v) = ok v
decoded (err e) = err (undecodable e)

module _ (sha1 : Bytes → Bytes) where
  -- Inspect, after `decode`
  unfoldable pub inventory : Value → Result InspectError Inventory
  unfolding get list_files add_sizes hex_encode encode
  inventory value = require root_not_dictionary (as_dict (some value)) >>= λ root.
      require no_info_dictionary (as_dict (get (codes "info") root)) >>= λ info.
      list_files info >>= λ files. add_sizes 0 files >>= λ total. ok (record {
        name = as_string (get (codes "name") info);
        info_hash = hex_encode (sha1 (encode (dict info)));
        total_size = total;
        files = files;
      })

  unfoldable pub inspect : Bytes → Result InspectError Inventory
  unfolding inventory decode
  inspect r = decoded (decode r) >>= inventory
