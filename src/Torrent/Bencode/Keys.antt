-- ===== src/Torrent/Bencode/Keys.antt =====
-- metainfo.go: the keys of maps, in order and set one after another.
use atlas_bridge.Base.{◌≡◌, refl, true, false, [], ◌∷◌, arith, ap}
use atlas_bridge.Base.Text.{Bytes, ◌=ᵇ◌}
use atlas_bridge.Torrent.Bencode.{
  Value, Entries, end, entry, put, before, insert_sorted, sort_by_key, encode, encode_entries,
}
use atlas_bridge.Torrent.Bencode.Values.{IsFresh, IsBelow, IsAscending}

pub before→ne : (k j : Bytes) → before k j ≡ true → (k =ᵇ j) ≡ false
unfolding before
before→ne [] [] h = cc
before→ne [] (y ∷ ys) h = refl
before→ne (x ∷ xs) [] h = cc
before→ne (x ∷ xs) (y ∷ ys) h = ground (arith, before→ne xs ys)

pub before_asym : (k j : Bytes) → before k j ≡ true → before j k ≡ false
unfolding before
before_asym [] [] h = cc
before_asym [] (y ∷ ys) h = refl
before_asym (x ∷ xs) [] h = cc
before_asym (x ∷ xs) (y ∷ ys) h = ground (arith, before_asym xs ys)

insert_sorted-IsBelow :
    (k x : Bytes) (es : Entries)
    → IsBelow k es
    → insert_sorted k x (encode_entries es) ≡ (k, x) ∷ encode_entries es
unfolding insert_sorted encode
insert_sorted-IsBelow k x end h = refl
insert_sorted-IsBelow k x (entry j v es) h = rw (before_asym k j h.0)

-- Entries in ascending order are left as they stand.
pub sort_by_key-IsAscending :
    (es : Entries) → IsAscending es → sort_by_key (encode_entries es) ≡ encode_entries es
unfolding sort_by_key encode
sort_by_key-IsAscending end h = refl
sort_by_key-IsAscending (entry k v es) h =
    rw (sort_by_key-IsAscending es h.3) (insert_sorted-IsBelow k (encode v) es h.1)

abbrev pub join : Entries → Entries → Entries
join end es = es
join (entry k v m) es = entry k v (join m es)

pub join-end : (m : Entries) → join m end ≡ m
join-end end = refl
join-end (entry j w m) = ap (λ u. entry j w u) (join-end m)

pub join_assoc :
    (m : Entries) (k : Bytes) (v : Value) (es : Entries)
    → join (join m (entry k v end)) es ≡ join m (entry k v es)
join_assoc end k v es = refl
join_assoc (entry j w m) k v es = ap (λ u. entry j w u) (join_assoc m k v es)

pub put-IsFresh :
    (k : Bytes) (v : Value) (m : Entries) → IsFresh k m → put k v m ≡ join m (entry k v end)
unfolding put
put-IsFresh k v end h = refl
put-IsFresh k v (entry j w m) h = rw h.0 (ap (λ u. entry j w u) (put-IsFresh k v m h.1))

-- No key of the second is among the first.
abbrev pub IsApart : Entries → Entries → Type 0
IsApart m end = Unit
IsApart m (entry k v es) = IsFresh k m × IsApart m es

join-IsFresh :
    (j k : Bytes) (v : Value) (m : Entries)
    → IsFresh j m
    → (k =ᵇ j) ≡ false
    → IsFresh j (join m (entry k v end))
join-IsFresh j k v end h e = (e, tt)
join-IsFresh j k v (entry i w m) h e = (h.0, join-IsFresh j k v m h.1 e)

pub join-IsApart :
    (m : Entries) (k : Bytes) (v : Value) (es : Entries)
    → IsApart m es
    → IsBelow k es
    → IsApart (join m (entry k v end)) es
join-IsApart m k v end h b = tt
join-IsApart m k v (entry j w es) h b =
    (join-IsFresh j k v m h.0 (before→ne k j b.0), join-IsApart m k v es h.1 b.1)

pub end-IsApart : (es : Entries) → IsApart end es
end-IsApart end = tt
end-IsApart (entry k v es) = (tt, end-IsApart es)
