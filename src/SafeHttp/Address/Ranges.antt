-- ===== src/SafeHttp/Address/Ranges.antt =====
-- internal/safehttp/client.go: the IPv4 addresses that PublicIP lets through.
use atlas_bridge.Base.{
  ℕ, ◌+◌, ◌-◌, ◌*◌, ◌/◌, ◌^◌, ◌≤◌, ◌<◌, ◌≡◌, refl, true, false, List, [], ◌∷◌, ◌==◌, All, arith,
  ◌↔◌, ◌⊎◌,
}
use native.Mathlib.Nat.{div-add-mod}
use atlas_bridge.SafeHttp.Address.{v4, in_prefix, quad, public_ip}

-- The reserved blocks of IPv4, each from its first to its last address.
abbrev pub reserved_v4 : List (ℕ × ℕ)
reserved_v4 =
    (quad 0 0 0 0, quad 0 255 255 255)
    ∷ (quad 10 0 0 0, quad 10 255 255 255)
    ∷ (quad 100 64 0 0, quad 100 127 255 255)
    ∷ (quad 127 0 0 0, quad 127 255 255 255)
    ∷ (quad 169 254 0 0, quad 169 254 255 255)
    ∷ (quad 172 16 0 0, quad 172 31 255 255)
    ∷ (quad 192 0 0 0, quad 192 0 0 255)
    ∷ (quad 192 0 2 0, quad 192 0 2 255)
    ∷ (quad 192 168 0 0, quad 192 168 255 255)
    ∷ (quad 198 18 0 0, quad 198 19 255 255)
    ∷ (quad 198 51 100 0, quad 198 51 100 255)
    ∷ (quad 203 0 113 0, quad 203 0 113 255)
    ∷ (quad 224 0 0 0, quad 255 255 255 255)
    ∷ []

abbrev pub Outside : ℕ → ℕ × ℕ → Type 0
Outside x (lo, hi) = (x < lo) ⊎ (hi < x)

public_ip-v4-Outside : (x : ℕ) → x < 2 ^ 32 → public_ip (v4 x) ≡ true → All (Outside x) reserved_v4
unfolding public_ip
public_ip-v4-Outside x fits h = ground arith

-- A block of `size` addresses does not hold an address outside its range.
outside_prefix :
    (x size q lo hi : ℕ)
    → (x < lo) ⊎ (hi < x)
    → lo ≡ q * size
    → hi + 1 ≡ q * size + size
    → 0 < size
    → (x / size == q) ≡ false
outside_prefix x size q lo hi h e e' pos = grind (arith, div-add-mod)

zero_test : (x : ℕ) → (x < 0) ⊎ (quad 0 255 255 255 < x) → (x == 0) ≡ false
zero_test x h = ground arith

metadata_test :
    (x : ℕ)
    → (x < quad 169 254 0 0) ⊎ (quad 169 254 255 255 < x)
    → (x == quad 169 254 169 254) ≡ false
metadata_test x h = ground arith

-- A prefix whose block holds no address outside the reserved ones.
outside_block :
    (x p n q lo hi : ℕ)
    → (x < lo) ⊎ (hi < x)
    → lo ≤ p
    → p + 2 ^ (32 - n) ≤ hi + 1
    → p ≡ q * 2 ^ (32 - n)
    → 0 < 2 ^ (32 - n)
    → p / 2 ^ (32 - n) ≡ q
    → in_prefix 32 p n x ≡ false
outside_block x p n q lo hi h le le' e pos e' =
    rw e'
      (outside_prefix x (2 ^ (32 - n)) q p (p + 2 ^ (32 - n) - 1) (omega arith) e (omega arith) pos)

Outside-public_ip : (x : ℕ) → x < 2 ^ 32 → All (Outside x) reserved_v4 → public_ip (v4 x) ≡ true
unfolding public_ip
Outside-public_ip x fits h =
    let nonzero : (x == 0) ≡ false = zero_test x h.0 in
    let not_metadata : (x == quad 169 254 169 254) ≡ false = metadata_test x h.1.1.1.1.0 in
    rw
      (
        outside_block x (quad 127 0 0 0) 8 127 (quad 127 0 0 0) (quad 127 255 255 255) h.1.1.1.0
            (omega arith) (omega arith) refl (omega arith) refl,
        outside_block x (quad 10 0 0 0) 8 10 (quad 10 0 0 0) (quad 10 255 255 255) h.1.0
            (omega arith) (omega arith) refl (omega arith) refl,
        outside_block x (quad 172 16 0 0) 12 2753 (quad 172 16 0 0) (quad 172 31 255 255)
            h.1.1.1.1.1.0 (omega arith) (omega arith) refl (omega arith) refl,
        outside_block x (quad 192 168 0 0) 16 49320 (quad 192 168 0 0) (quad 192 168 255 255)
            h.1.1.1.1.1.1.1.1.0 (omega arith) (omega arith) refl (omega arith) refl,
        outside_block x (quad 169 254 0 0) 16 43518 (quad 169 254 0 0) (quad 169 254 255 255)
            h.1.1.1.1.0 (omega arith) (omega arith) refl (omega arith) refl,
        outside_block x (quad 224 0 0 0) 24 14680064 (quad 224 0 0 0) (quad 255 255 255 255)
            h.1.1.1.1.1.1.1.1.1.1.1.1.0 (omega arith) (omega arith) refl (omega arith) refl,
        outside_block x (quad 224 0 0 0) 4 14 (quad 224 0 0 0) (quad 255 255 255 255)
            h.1.1.1.1.1.1.1.1.1.1.1.1.0 (omega arith) (omega arith) refl (omega arith) refl,
        nonzero,
        not_metadata,
        outside_block x (quad 0 0 0 0) 8 0 (quad 0 0 0 0) (quad 0 255 255 255) h.0 (omega arith)
            (omega arith) refl (omega arith) refl,
        outside_block x (quad 100 64 0 0) 10 401 (quad 100 64 0 0) (quad 100 127 255 255) h.1.1.0
            (omega arith) (omega arith) refl (omega arith) refl,
        outside_block x (quad 192 0 0 0) 24 12582912 (quad 192 0 0 0) (quad 192 0 0 255)
            h.1.1.1.1.1.1.0 (omega arith) (omega arith) refl (omega arith) refl,
        outside_block x (quad 192 0 2 0) 24 12582914 (quad 192 0 2 0) (quad 192 0 2 255)
            h.1.1.1.1.1.1.1.0 (omega arith) (omega arith) refl (omega arith) refl,
        outside_block x (quad 198 18 0 0) 15 25353 (quad 198 18 0 0) (quad 198 19 255 255)
            h.1.1.1.1.1.1.1.1.1.0 (omega arith) (omega arith) refl (omega arith) refl,
        outside_block x (quad 198 51 100 0) 24 12989284 (quad 198 51 100 0) (quad 198 51 100 255)
            h.1.1.1.1.1.1.1.1.1.1.0 (omega arith) (omega arith) refl (omega arith) refl,
        outside_block x (quad 203 0 113 0) 24 13303921 (quad 203 0 113 0) (quad 203 0 113 255)
            h.1.1.1.1.1.1.1.1.1.1.1.0 (omega arith) (omega arith) refl (omega arith) refl,
        outside_block x (quad 240 0 0 0) 4 15 (quad 224 0 0 0) (quad 255 255 255 255)
            h.1.1.1.1.1.1.1.1.1.1.1.1.0 (omega arith) (omega arith) refl (omega arith) refl,
      )
      refl

-- An IPv4 address is public exactly when it lies outside every reserved block.
pub public_ip-v4_iff :
    (x : ℕ) → x < 2 ^ 32 → (public_ip (v4 x) ≡ true) ↔ All (Outside x) reserved_v4
public_ip-v4_iff x fits = (public_ip-v4-Outside x fits, Outside-public_ip x fits)
