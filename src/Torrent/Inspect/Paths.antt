-- ===== src/Torrent/Inspect/Paths.antt =====
-- metainfo.go, Inspect: the path of a file is its components, parted by slashes.
use atlas_bridge.Base.{
  ℕ, suc, ◌≡◌, ◌≢◌, refl, true, List, [], ◌∷◌, ◌++◌, ok, >>=-eq-ok, All, ltb, append_assoc, ◌∙◌, ap,
  sym, arith, append-nil, ◌↔◌,
}
use atlas_bridge.Base.Text.{Bytes}
use atlas_bridge.Torrent.Bencode.{Value, Items, str, int, list, dict, nil, cons}
use atlas_bridge.Torrent.Inspect.{as_component, join_path}

-- The components as the descriptor holds them.
abbrev pub path_items : List Bytes → Items
path_items [] = nil
path_items (s ∷ ss) = cons (str s) (path_items ss)

-- strings.Join(ss, "/")
abbrev pub slash_join : List Bytes → Bytes
slash_join [] = []
slash_join (s ∷ []) = s
slash_join (s ∷ t ∷ ss) = s ++ (b'/' ∷ slash_join (t ∷ ss))

-- Every component behind the first one, each with its slash.
abbrev tails : List Bytes → Bytes
tails [] = []
tails (s ∷ ss) = b'/' ∷ (s ++ tails ss)

slash_join-tails : (s : Bytes) (ss : List Bytes) → slash_join (s ∷ ss) ≡ s ++ tails ss
slash_join-tails s [] = sym (append-nil s)
slash_join-tails s (t ∷ ss) = ap (λ u. s ++ b'/' ∷ u) (slash_join-tails t ss)

as_component-eq-ok : (p : Value) {s : Bytes} → as_component p ≡ ok s → (p ≡ str s) × (s ≢ [])
as_component-eq-ok (str []) e = cc
as_component-eq-ok (str (c ∷ s)) e = (cc, λ q. cc)
as_component-eq-ok (int _) e = cc
as_component-eq-ok (list _) e = cc
as_component-eq-ok (dict _) e = cc

ltb-suc : (i : ℕ) → ltb 0 (suc i) ≡ true
ltb-suc i = ground arith

join_path-tails :
    (parts : Items) (i : ℕ) (path : Bytes) {q : Bytes}
    → join_path (suc i) path parts ≡ ok q
    → (ss : List Bytes) × (parts ≡ path_items ss) × All (λ s. s ≢ []) ss × (q ≡ path ++ tails ss)
unfolding join_path
join_path-tails nil i path e = ([], refl, tt, sym (cc (append-nil path)))
join_path-tails (cons p parts) i path {q} e =
    let (s, e₁, e₂) = >>=-eq-ok (as_component p) _ e in
    let (here, full) = as_component-eq-ok p e₁ in
    let (ss, there, all_full, joined) =
      join_path-tails parts (suc i) ((path ++ b'/' ∷ []) ++ s) (rw (ltb-suc i) at e₂) in
    (
      s ∷ ss,
      cc,
      (full, all_full),
      joined
          ∙ append_assoc (path ++ b'/' ∷ []) s (tails ss)
          ∙ append_assoc path (b'/' ∷ []) (s ++ tails ss),
    )

join_path-print :
    (ss : List Bytes) (i : ℕ) (path : Bytes)
    → All (λ s. s ≢ []) ss
    → join_path (suc i) path (path_items ss) ≡ ok (path ++ tails ss)
unfolding join_path
join_path-print [] i path h = ap ok (sym (append-nil path))
join_path-print ([] ∷ ss) i path h = absurd (h.0 refl)
join_path-print ((c ∷ s) ∷ ss) i path h = rw (ltb-suc i) (
    join_path-print ss (suc i) ((path ++ b'/' ∷ []) ++ (c ∷ s)) h.1
    ∙ ap ok (
        append_assoc (path ++ b'/' ∷ []) (c ∷ s) (tails ss)
        ∙ append_assoc path (b'/' ∷ []) ((c ∷ s) ++ tails ss)))

-- The loop over a path accepts exactly a list of strings that are not empty, and returns them parted
-- by slashes.
pub join_path-eq-ok_iff :
    (parts : Items) (q : Bytes)
    → (join_path 0 [] parts ≡ ok q)
      ↔ ((ss : List Bytes) × (parts ≡ path_items ss) × All (λ s. s ≢ []) ss × (q ≡ slash_join ss))
unfolding join_path
join_path-eq-ok_iff parts q = (accepted parts, λ (ss, e, full, j). rw (e, j) (printed ss full))
  where
    accepted :
        (parts' : Items)
        → join_path 0 [] parts' ≡ ok q
        → (ss : List Bytes) × (parts' ≡ path_items ss) × All (λ s. s ≢ []) ss × (q ≡ slash_join ss)
    accepted nil e = ([], refl, tt, cc)
    accepted (cons p rest) e =
        let (s, e₁, e₂) = >>=-eq-ok (as_component p) _ e in
        let (here, full) = as_component-eq-ok p e₁ in
        let (ss, there, all_full, joined) = join_path-tails rest 0 s e₂ in
        (s ∷ ss, cc, (full, all_full), joined ∙ sym (slash_join-tails s ss))

    printed :
        (ss : List Bytes)
        → All (λ s. s ≢ []) ss
        → join_path 0 [] (path_items ss) ≡ ok (slash_join ss)
    printed [] h = refl
    printed ([] ∷ ss) h = absurd (h.0 refl)
    printed ((c ∷ s) ∷ ss) h =
        join_path-print ss 0 (c ∷ s) h.1 ∙ ap ok (sym (slash_join-tails (c ∷ s) ss))
