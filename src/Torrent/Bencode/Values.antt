-- ===== src/Torrent/Bencode/Values.antt =====
-- What is said of decoded values: their ranges, and the keys of maps.
use atlas_bridge.Base.{◌≤◌, ◌≡◌, false, true, length}
use atlas_bridge.Base.Text.{Bytes, ◌=ᵇ◌}
use atlas_bridge.Base.Decimal.{IsInt64}
use atlas_bridge.Torrent.Bencode.{
  Value, Items, Entries, str, int, list, dict, nil, cons, end, entry, max_string, before,
}

-- No entry has the key `k`.
abbrev pub IsFresh : Bytes → Entries → Type 0
IsFresh k end = Unit
IsFresh k (entry j v es) = ((j =ᵇ k) ≡ false) × IsFresh k es

-- The key `k` comes before every key of the entries.
abbrev pub IsBelow : Bytes → Entries → Type 0
IsBelow k end = Unit
IsBelow k (entry j v es) = (before k j ≡ true) × IsBelow k es

-- A value that Go can hold and the reader can read, at every depth: integers are int64, strings are
-- within the reader's limit, and a map has each key once.
abbrev mutual
  pub IsWellFormed : Value → Type 0
  IsWellFormed (str s) = length s ≤ max_string
  IsWellFormed (int i) = IsInt64 i
  IsWellFormed (list xs) = AllWellFormed xs
  IsWellFormed (dict es) = IsMap es

  pub AllWellFormed : Items → Type 0
  AllWellFormed nil = Unit
  AllWellFormed (cons v xs) = IsWellFormed v × AllWellFormed xs

  pub IsMap : Entries → Type 0
  IsMap end = Unit
  IsMap (entry k v es) = (length k ≤ max_string) × IsFresh k es × IsWellFormed v × IsMap es

-- A value whose maps stand in the order of their keys, at every depth.
abbrev mutual
  pub IsCanonical : Value → Type 0
  IsCanonical (str s) = length s ≤ max_string
  IsCanonical (int i) = IsInt64 i
  IsCanonical (list xs) = AllCanonical xs
  IsCanonical (dict es) = IsAscending es

  pub AllCanonical : Items → Type 0
  AllCanonical nil = Unit
  AllCanonical (cons v xs) = IsCanonical v × AllCanonical xs

  pub IsAscending : Entries → Type 0
  IsAscending end = Unit
  IsAscending (entry k v es) =
      (length k ≤ max_string) × IsBelow k es × IsCanonical v × IsAscending es
