-- ===== src/Torrent/Tests.antt =====
-- metainfo.go on concrete descriptors, and the theorems at inputs that meet their hypotheses.
use atlas_bridge.Base.{
  ℕ, ◌≤◌, ◌≡◌, ◌≢◌, refl, List, [], ◌∷◌, ◌++◌, some, All, ok, err, arith, ◌↔◌, some,
}
use atlas_bridge.Base.Text.{Bytes, codes}
use atlas_bridge.Base.Decimal.{parse_int, pos, negsuc, max_int64}
use atlas_bridge.Torrent.Bencode.{
  Value, Items, Entries, str, int, list, dict, nil, cons, end, entry, out_of_fuel, key_not_string,
  decode, before, encode,
}
use atlas_bridge.Torrent.Bencode.Values.{IsCanonical, IsWellFormed}
use atlas_bridge.Torrent.Bencode.Fuel.{decode-in_fuel, decode-IsWellFormed}
use atlas_bridge.Torrent.Bencode.RoundTrip.{decode-encode}
use atlas_bridge.Torrent.Bencode.Order.{dicts, swap, encode-Same}
use atlas_bridge.Torrent.Inspect.{Inventory, inspect, hex_encode, get, join_path, size_overflow}
use atlas_bridge.Torrent.Inspect.Sizes.{sum_sizes, inspect-total_size}
use atlas_bridge.Torrent.Inspect.Hash.{IsPart, inspect-info_hash}
use atlas_bridge.Torrent.Inspect.Paths.{path_items, slash_join, join_path-eq-ok_iff}

-- {"info": {"files": [{"length": 3, "path": ["a", "b"]}, {"length": 4, "path": ["c"]}], "name": "t"}}
abbrev file_of : ℕ → Items → Value
file_of n path = dict (entry (codes "length") (int (pos n)) (entry (codes "path") (list path) end))

abbrev sample_info : Entries
sample_info =
    entry (codes "files")
      (list (
        cons (file_of 3 (path_items (codes "a" ∷ codes "b" ∷ [])))
          (cons (file_of 4 (path_items (codes "c" ∷ []))) nil)))
      (entry (codes "name") (str (codes "t")) end)

abbrev sample_root : Entries
sample_root = entry (codes "info") (dict sample_info) end

abbrev sample_text : Bytes
sample_text =
    codes "d4:infod5:filesld6:lengthi3e4:pathl1:a1:beed6:lengthi4e4:pathl1:ceee4:name1:tee"

-- A stand-in for crypto/sha1: the first two bytes.
abbrev two_bytes : Bytes → Bytes
two_bytes (a ∷ b ∷ s) = a ∷ b ∷ []
two_bytes s = s

abbrev sample_inventory : Inventory
sample_inventory = record {
  name = codes "t";
  info_hash = codes "6435";
  total_size = 7;
  files = record { path = codes "a/b"; size = 3 } ∷ record { path = codes "c"; size = 4 } ∷ [];
}

encode_sample : encode (dict sample_root) ≡ sample_text
unfolding encode
encode_sample = refl

decode_sample : decode sample_text ≡ ok (dict sample_root)
unfolding decode parse_int
decode_sample = refl

inspect_sample : inspect two_bytes sample_text ≡ ok sample_inventory
unfolding inspect parse_int
inspect_sample = refl

-- The reader takes integers with leading zeros, which the writer does not print.
leading_zeros : decode (codes "i007e") ≡ ok (int (pos 7))
unfolding decode parse_int
leading_zeros = refl

integer_key : decode (codes "di1ei2ee") ≡ err key_not_string
unfolding decode parse_int
integer_key = refl

too_large :
    inspect two_bytes
      (codes "d4:infod5:filesld6:lengthi9223372036854775807e4:pathleed6:lengthi1e4:pathleeeee")
    ≡ err size_overflow
unfolding inspect parse_int
too_large = refl

sample-IsCanonical : IsCanonical (dict sample_root)
unfolding before
sample-IsCanonical = ground arith

inspect_printed : inspect two_bytes (encode (dict sample_root) ++ []) ≡ ok sample_inventory
unfolding inspect encode parse_int
inspect_printed = refl

decode-encode_example : decode (encode (dict sample_root) ++ codes "rest") ≡ ok (dict sample_root)
decode-encode_example = decode-encode (dict sample_root) (codes "rest") sample-IsCanonical

decode-in_fuel_example : decode (codes "llll") ≢ err out_of_fuel
decode-in_fuel_example = decode-in_fuel (codes "llll")

decode-IsWellFormed_example : IsWellFormed (dict sample_root)
decode-IsWellFormed_example = decode-IsWellFormed sample_text decode_sample

encode-Same_example :
    encode (dict (entry (codes "b") (int (pos 1)) (entry (codes "a") (int (negsuc 1)) end)))
    ≡ encode (dict (entry (codes "a") (int (negsuc 1)) (entry (codes "b") (int (pos 1)) end)))
encode-Same_example =
    encode-Same (dict (entry (codes "b") (int (pos 1)) (entry (codes "a") (int (negsuc 1)) end)))
      (dict (entry (codes "a") (int (negsuc 1)) (entry (codes "b") (int (pos 1)) end)))
      (dicts (swap (codes "b") (codes "a") refl))

inspect-total_size_example :
    (sample_inventory.total_size ≡ sum_sizes sample_inventory.files)
    × (sample_inventory.total_size ≤ max_int64)
inspect-total_size_example = inspect-total_size two_bytes sample_text inspect_sample

inspect-info_hash_example :
    (info : Entries) × (get (codes "info") sample_root ≡ some (dict info))
    × IsPart (encode (dict info)) (encode (dict sample_root))
    × (sample_inventory.info_hash ≡ hex_encode (two_bytes (encode (dict info))))
inspect-info_hash_example =
    inspect-info_hash two_bytes sample_root [] sample-IsCanonical inspect_printed

join_path-eq-ok_iff_example :
    (join_path 0 [] (path_items (codes "a" ∷ codes "b" ∷ [])) ≡ ok (codes "a/b")) ↔ (
      (ss : List Bytes) × (path_items (codes "a" ∷ codes "b" ∷ []) ≡ path_items ss)
      × All (λ s. s ≢ []) ss
      × (codes "a/b" ≡ slash_join ss))
join_path-eq-ok_iff_example =
    join_path-eq-ok_iff (path_items (codes "a" ∷ codes "b" ∷ [])) (codes "a/b")
