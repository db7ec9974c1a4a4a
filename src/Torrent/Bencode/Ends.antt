-- ===== src/Torrent/Bencode/Ends.antt =====
-- metainfo.go, the parts of the reader: each returns a well-formed value and a shorter rest, or an
-- error that the program has.
use atlas_bridge.Base.{
  ℕ, suc, ◌≤◌, ◌<◌, ◌≡◌, ◌≢◌, Bool, true, false, [], ◌∷◌, ◌++◌, arith, ltb, ◌==◌, if◌then◌else◌,
  length, length-drop, length-take, Result, ok, err, ◌>>=◌, Bool-cases, inl, inr, Option, none,
  some, Option-cases, subst,
}
use atlas_bridge.Base.Text.{Bytes, ◌=ᵇ◌, =ᵇ→eq, =ᵇ_refl}
use atlas_bridge.Base.Decimal.{ℤ, pos, negsuc, parse_int}
use atlas_bridge.Base.Decimal.RoundTrip.{parse_int-IsInt64}
use atlas_bridge.Torrent.Bencode.{
  Value, Entries, str, int, list, dict, end, entry, DecodeError, out_of_fuel, max_string,
  read_until, put, as_integer, read_integer, as_string, read_string, as_key,
}
use atlas_bridge.Torrent.Bencode.Values.{IsFresh, IsWellFormed, IsMap}

-- A run that kept within its fuel, with `P` of its value if it has one.
pub data Ends {ℓ κ} {A : Type ℓ} (P : A → Type κ) : Result DecodeError A → Type (ℓ ⊔ κ) where
  returned : {a : A} → P a → Ends P (ok a)
  refused : {e : DecodeError} → e ≢ out_of_fuel → Ends P (err e)

module _ {ℓ κ} {A : Type ℓ} {P : A → Type κ} where
  pub Ends-value : {r : Result DecodeError A} {a : A} → Ends P r → r ≡ ok a → P a
  Ends-value (returned h) e = subst P (cc) h
  Ends-value (refused h) e = cc

  pub Ends-in_fuel : {r : Result DecodeError A} → Ends P r → r ≢ err out_of_fuel
  Ends-in_fuel (returned h) = cc
  Ends-in_fuel (refused h) = λ e. h (cc)

  pub Ends-branch :
      (b : Bool) {x y : Result DecodeError A} → Ends P x → Ends P y → Ends P (if b then x else y)
  Ends-branch true hx hy = hx
  Ends-branch false hx hy = hy

  pub Ends-step {ℓ' κ'} :
      {B : Type ℓ'} {Q : B → Type κ'} {r : Result DecodeError A} {f : A → Result DecodeError B}
      → Ends P r
      → ((a : A) → P a → Ends Q (f a))
      → Ends Q (r >>= f)
  Ends-step (returned {a} h) k = k a h
  Ends-step (refused h) k = refused h

-- The value is well formed, and the rest of the input is shorter by at least one byte.
abbrev pub Shorter {ℓ} : {A : Type ℓ} → Bytes → (A → Type 0) → A × Bytes → Type 0
Shorter bs P (a, rest) = P a × (length rest < length bs)

-- Less of a shorter input is left than of a longer one.
pub Shorter-weaken {ℓ} :
    {A : Type ℓ} (P : A → Type 0) (bs cs : Bytes) (r : Result DecodeError (A × Bytes))
    → length bs ≤ length cs
    → Ends (Shorter bs P) r
    → Ends (Shorter cs P) r
Shorter-weaken P bs cs _ le (returned (w, s)) = returned (w, omega arith)
Shorter-weaken P bs cs _ le (refused e) = refused e

read_until-Ends :
    (delim : ℕ) (out bs : Bytes)
    → Ends (λ (p : Bytes × Bytes). length p.1 < length bs) (read_until delim out bs)
unfolding read_until
read_until-Ends delim out [] = refused (cc)
read_until-Ends delim out (b ∷ bs) = Ends-branch (b == delim) (returned (omega arith)) (
    Ends-branch _ (refused (cc))
      (weaken (read_until delim (out ++ b ∷ []) bs) (read_until-Ends delim (out ++ b ∷ []) bs)))
  where
    weaken :
        (r : Result DecodeError (Bytes × Bytes))
        → Ends (λ (p : Bytes × Bytes). length p.1 < length bs) r
        → Ends (λ (p : Bytes × Bytes). length p.1 < suc (length bs)) r
    weaken _ (returned h) = returned (omega arith)
    weaken _ (refused h) = refused h

as_integer-Ends :
    (raw rest bs : Bytes)
    → length rest < length bs
    → Ends (Shorter bs IsWellFormed) (as_integer (parse_int raw) rest)
unfolding as_integer
as_integer-Ends raw rest bs h = elim (Option-cases (parse_int raw)) [
  | inl e ↦ rw e (refused (cc))
  | inr (n, e) ↦ rw e (returned (parse_int-IsInt64 raw e, h))
]

pub read_integer-Ends : (bs : Bytes) → Ends (Shorter bs IsWellFormed) (read_integer bs)
unfolding read_integer
read_integer-Ends bs =
    Ends-step (read_until-Ends b'e' [] bs) λ (raw, rest) h. as_integer-Ends raw rest bs h

as_string-Ends :
    (o : Option ℤ) (rest bs : Bytes)
    → length rest < length bs
    → Ends (Shorter bs IsWellFormed) (as_string o rest)
unfolding as_string
as_string-Ends none rest bs h = refused (cc)
as_string-Ends (some (negsuc n)) rest bs h = refused (cc)
as_string-Ends (some (pos n)) rest bs h = elim (Bool-cases (ltb max_string n)) [
  | inl e ↦ rw e (refused (cc))
  | inr e ↦ rw e (elim (Bool-cases (ltb (length rest) n)) [
    | inl e' ↦ rw e' (refused (cc))
    | inr e' ↦
        rw e' (returned (ground (arith, length-take n rest), omega (arith, length-drop n rest)))
  ])
]

pub read_string-Ends : (b : ℕ) (bs : Bytes) → Ends (Shorter bs IsWellFormed) (read_string b bs)
unfolding read_string
read_string-Ends b bs =
    Ends-step (read_until-Ends b':' [] bs)
      λ (raw, rest) h. as_string-Ends (parse_int (b ∷ raw)) rest bs h

put-IsFresh :
    (k j : Bytes) (v : Value) (es : Entries)
    → (k =ᵇ j) ≡ false
    → IsFresh j es
    → IsFresh j (put k v es)
unfolding put
put-IsFresh k j v end e h = (e, tt)
put-IsFresh k j v (entry i w es) e h = elim (Bool-cases (i =ᵇ k)) [
  | inl p ↦ rw p h
  | inr p ↦ rw p (h.0, put-IsFresh k j v es e h.1)
]

-- A map stays a map: the key is replaced or is new.
pub put-IsMap :
    (k : Bytes) (v : Value) (es : Entries)
    → length k ≤ max_string
    → IsWellFormed v
    → IsMap es
    → IsMap (put k v es)
unfolding put
put-IsMap k v end hk hv h = (hk, tt, hv, tt)
put-IsMap k v (entry j w es) hk hv (hj, fresh, hw, h) = elim (Bool-cases (j =ᵇ k)) [
  | inl p ↦ rw p (hj, fresh, hv, h)
  | inr p ↦ rw p (hj, put-IsFresh k j v es (differ k j p) fresh, hw, put-IsMap k v es hk hv h)
]
  where
    differ : (s t : Bytes) → (t =ᵇ s) ≡ false → (s =ᵇ t) ≡ false
    differ s t p = elim (Bool-cases (s =ᵇ t)) [ inl q ↦ cc (p, =ᵇ→eq s t q, =ᵇ_refl s) | inr q ↦ q ]

pub as_key-Ends :
    (v : Value) → IsWellFormed v → Ends (λ (k : Bytes). length k ≤ max_string) (as_key v)
unfolding as_key
as_key-Ends (str k) h = returned h
as_key-Ends (int _) h = refused (cc)
as_key-Ends (list _) h = refused (cc)
as_key-Ends (dict _) h = refused (cc)
