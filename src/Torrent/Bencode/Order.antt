-- ===== src/Torrent/Bencode/Order.antt =====
-- metainfo.go: `encode` sorts the keys of a map, so the order in which Go iterates over it is not
-- seen in what it prints.
use atlas_bridge.Base.{◌≡◌, refl, true, false, not, List, [], ◌∷◌, ◌++◌, arith, ap, ◌∙◌}
use atlas_bridge.Base.Text.{Bytes, ◌=ᵇ◌}
use atlas_bridge.Torrent.Bencode.{
  Value, Items, Entries, list, dict, nil, cons, end, entry, before, insert_sorted, sort_by_key,
  concat_entries, encode, encode_items, encode_entries,
}

-- Two enumerations of one map, at every depth: neighbours with different keys change places.
mutual
  pub data Same : Value → Value → Type 0 where
    same : {v : Value} → Same v v
    lists : {xs ys : Items} → SameItems xs ys → Same (list xs) (list ys)
    dicts : {es fs : Entries} → SameEntries es fs → Same (dict es) (dict fs)

  pub data SameItems : Items → Items → Type 0 where
    nils : SameItems nil nil
    conses :
        {v w : Value} {xs ys : Items}
        → Same v w
        → SameItems xs ys
        → SameItems (cons v xs) (cons w ys)

  pub data SameEntries : Entries → Entries → Type 0 where
    ends : SameEntries end end
    entries :
        (k : Bytes) {v w : Value} {es fs : Entries}
        → Same v w
        → SameEntries es fs
        → SameEntries (entry k v es) (entry k w fs)
    swap :
        (k j : Bytes) {v w : Value} {es : Entries}
        → (k =ᵇ j) ≡ false
        → SameEntries (entry k v (entry j w es)) (entry j w (entry k v es))
    then : {es fs gs : Entries} → SameEntries es fs → SameEntries fs gs → SameEntries es gs

-- Of two different keys one comes first.
before_total : (k j : Bytes) → (k =ᵇ j) ≡ false → before j k ≡ not (before k j)
unfolding before
before_total [] [] h = cc
before_total [] (y ∷ ys) h = refl
before_total (x ∷ xs) [] h = refl
before_total (x ∷ xs) (y ∷ ys) h = ground (arith, before_total xs ys)

before_trans : (i k j : Bytes) → before i k ≡ false → before i j ≡ true → before k j ≡ true
unfolding before
before_trans [] [] j h h' = h'
before_trans [] (y ∷ ys) j h h' = cc
before_trans (x ∷ xs) k [] h h' = cc
before_trans (x ∷ xs) [] (z ∷ zs) h h' = refl
before_trans (x ∷ xs) (y ∷ ys) (z ∷ zs) h h' = ground (arith, before_trans xs ys zs)

insert_sorted_comm :
    (k j x y : Bytes) (m : List (Bytes × Bytes))
    → (k =ᵇ j) ≡ false
    → insert_sorted k x (insert_sorted j y m) ≡ insert_sorted j y (insert_sorted k x m)
unfolding insert_sorted
insert_sorted_comm k j x y [] ne = ground (arith, before_total k j ne)
insert_sorted_comm k j x y ((i, z) ∷ m) ne = ground (
  arith,
  before_total k j ne,
  before_trans i k j,
  before_trans i j k,
  insert_sorted_comm k j x y m ne,
)

-- The keys of a map sort to one list, with the same encodings.
mutual
  unfolding encode sort_by_key

  encode-Same' : (v w : Value) → Same v w → encode v ≡ encode w
  encode-Same' v w same = refl
  encode-Same' v w (lists {xs} {ys} h) =
      ap (λ u. b'l' ∷ (u ++ b'e' ∷ [])) (encode_items-SameItems xs ys h)
  encode-Same' v w (dicts {es} {fs} h) =
      ap (λ u. b'd' ∷ (concat_entries u ++ b'e' ∷ [])) (sort_by_key-SameEntries es fs h)

  encode_items-SameItems : (xs ys : Items) → SameItems xs ys → encode_items xs ≡ encode_items ys
  encode_items-SameItems xs ys nils = refl
  encode_items-SameItems xs ys (conses {v} {w} {xs = vs} {ys = ws} h hs) =
      cc (encode-Same' v w h, encode_items-SameItems vs ws hs)

  sort_by_key-SameEntries :
      (es fs : Entries)
      → SameEntries es fs
      → sort_by_key (encode_entries es) ≡ sort_by_key (encode_entries fs)
  sort_by_key-SameEntries es fs ends = refl
  sort_by_key-SameEntries es fs (entries k {v} {w} {es = es'} {fs = fs'} h hs) =
      cc (encode-Same' v w h, sort_by_key-SameEntries es' fs' hs)
  sort_by_key-SameEntries es fs (swap k j {v} {w} {es = es'} ne) =
      insert_sorted_comm k j (encode v) (encode w) (sort_by_key (encode_entries es')) ne
  sort_by_key-SameEntries es fs (then {fs = gs} h h') =
      sort_by_key-SameEntries es gs h ∙ sort_by_key-SameEntries gs fs h'

-- Two enumerations of the same maps print the same bytes.
pub encode-Same : (v w : Value) → Same v w → encode v ≡ encode w
encode-Same v w h = encode-Same' v w h
