-- ===== src/Base/Text.antt =====
-- Go strings as lists of bytes, and what the program uses of the package `strings` on them. Case
-- folding and white space are those of ASCII.
use Prim.Native.Char.{code}
use atlas_bridge.Base.{
  ℕ, ◌+◌, ◌≡◌, refl, ◌↔◌, Bool, true, false, ◌&&◌, ◌||◌, List, [], ◌∷◌, ◌++◌, map, String, arith,
  leb, ◌==◌, ==_iff, if◌then◌else◌, length, drop, and_true, subst,
}
use mathlib.Core.List.{reverse}

abbrev pub Bytes : Type 0
Bytes = List ℕ

-- The bytes of an ASCII literal.
abbrev pub codes : String → Bytes
codes String.[] = []
codes (String.◌∷◌ c s) = code c ∷ codes s

infix 50 ◌=ᵇ◌
abbrev pub ◌=ᵇ◌ : Bytes → Bytes → Bool
[] =ᵇ [] = true
[] =ᵇ (y ∷ ys) = false
(x ∷ xs) =ᵇ [] = false
(x ∷ xs) =ᵇ (y ∷ ys) = (x == y) && (xs =ᵇ ys)

pub =ᵇ_refl : (s : Bytes) → (s =ᵇ s) ≡ true
=ᵇ_refl [] = refl
=ᵇ_refl (x ∷ xs) = ground (arith, =ᵇ_refl xs)

pub =ᵇ→eq : (s t : Bytes) → (s =ᵇ t) ≡ true → s ≡ t
=ᵇ→eq [] [] h = refl
=ᵇ→eq [] (y ∷ ys) h = cc
=ᵇ→eq (x ∷ xs) [] h = cc
=ᵇ→eq (x ∷ xs) (y ∷ ys) h =
    let p = and_true (x == y) (xs =ᵇ ys) h in cc ((==_iff x y).0 p.0, =ᵇ→eq xs ys p.1)

pub =ᵇ_iff : (s t : Bytes) → ((s =ᵇ t) ≡ true) ↔ (s ≡ t)
=ᵇ_iff s t = (=ᵇ→eq s t, λ e. subst (λ u. (s =ᵇ u) ≡ true) e (=ᵇ_refl s))

-- strings.ToLower
abbrev pub lower : ℕ → ℕ
lower c = if leb b'A' c && leb c b'Z' then c + 32 else c

unfoldable pub to_lower : Bytes → Bytes
to_lower = map lower

-- strings.TrimSpace
abbrev pub is_space : ℕ → Bool
is_space c = (leb 9 c && leb c 13) || c == 32

unfoldable pub trim_left : (ℕ → Bool) → Bytes → Bytes
trim_left p [] = []
trim_left p (c ∷ s) = if p c then trim_left p s else c ∷ s

unfoldable pub trim_right : (ℕ → Bool) → Bytes → Bytes
unfolding trim_left
trim_right p s = reverse (trim_left p (reverse s))

unfoldable pub trim_space : Bytes → Bytes
unfolding trim_left trim_right
trim_space s = trim_right is_space (trim_left is_space s)

-- strings.HasPrefix
unfoldable pub has_prefix : Bytes → Bytes → Bool
has_prefix [] s = true
has_prefix (c ∷ p) [] = false
has_prefix (c ∷ p) (d ∷ s) = (c == d) && has_prefix p s

-- strings.TrimPrefix
unfoldable pub trim_prefix : Bytes → Bytes → Bytes
unfolding has_prefix
trim_prefix p s = if has_prefix p s then drop (length p) s else s

-- strings.Contains, the needle first
unfoldable pub contains : Bytes → Bytes → Bool
unfolding has_prefix
contains needle [] = has_prefix needle []
contains needle (c ∷ s) = has_prefix needle (c ∷ s) || contains needle s

-- strings.EqualFold
unfoldable pub equal_fold : Bytes → Bytes → Bool
unfolding to_lower
equal_fold s t = to_lower s =ᵇ to_lower t

abbrev pub onto : ℕ → List Bytes → List Bytes
onto c [] = (c ∷ []) ∷ []
onto c (part ∷ parts) = (c ∷ part) ∷ parts

-- strings.Split(s, sep) for a separator of one byte
unfoldable pub split : ℕ → Bytes → List Bytes
split sep [] = [] ∷ []
split sep (c ∷ s) = if c == sep then [] ∷ split sep s else onto c (split sep s)

-- strings.Fields; the flag says that the byte before belongs to a word.
unfoldable pub fields_from : Bool → Bytes → List Bytes
fields_from true [] = [] ∷ []
fields_from false [] = []
fields_from true (c ∷ s) = elim (is_space c) [
  | true ↦ [] ∷ fields_from false s
  | false ↦ onto c (fields_from true s)
]
fields_from false (c ∷ s) = elim (is_space c) [
  | true ↦ fields_from false s
  | false ↦ onto c (fields_from true s)
]

-- strings.Join(strings.Fields(s), " ")
unfoldable pub single_spaced : Bytes → Bytes
unfolding fields_from
single_spaced s = joined (fields_from false s)
  where
    joined : List Bytes → Bytes
    joined [] = []
    joined (w ∷ []) = w
    joined (w ∷ v ∷ ws) = w ++ (32 ∷ joined (v ∷ ws))

-- strings.HasSuffix
unfoldable pub has_suffix : Bytes → Bytes → Bool
unfolding has_prefix
has_suffix end s = has_prefix (reverse end) (reverse s)
