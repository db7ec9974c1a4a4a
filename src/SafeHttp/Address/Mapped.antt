-- ===== src/SafeHttp/Address/Mapped.antt =====
-- internal/safehttp/client.go: IPv4-mapped IPv6 addresses, and the address that is dialled.
use atlas_bridge.Base.{
  ℕ, ◌+◌, ◌*◌, ◌^◌, ◌≤◌, ◌≡◌, refl, true, false, List, [], ◌∷◌, ◌++◌, Option, none, some, All,
  arith, inl, inr, Bool-cases,
}
use atlas_bridge.SafeHttp.Address.{Addr, v4, v6, quad, public_ip, dial_address}

-- ::ffff:a.b.c.d
abbrev pub mapped : ℕ → Addr
mapped x = v6 (65535 * 2 ^ 32 + x)

-- The carrier-grade NAT block 100.64.0.0/10 is refused as an IPv4 address, and let through, address by
-- address, in its IPv4-mapped form.
pub public_ip-mapped :
    (x : ℕ)
    → quad 100 64 0 0 ≤ x
    → x ≤ quad 100 127 255 255
    → (public_ip (v4 x) ≡ false) × (public_ip (mapped x) ≡ true)
unfolding public_ip
public_ip-mapped x lo hi = (ground arith, ground arith)

-- The first public address of the resolver's, or none.
abbrev pub DialsFirst : List Addr → Option Addr → Type 0
DialsFirst ips none = All (λ ip. public_ip ip ≡ false) ips
DialsFirst ips (some a) =
    (before : List Addr) × (after : List Addr) × (ips ≡ before ++ a ∷ after)
    × All (λ ip. public_ip ip ≡ false) before
    × (public_ip a ≡ true)

DialsFirst-later :
    (ip : Addr) (ips : List Addr) (o : Option Addr)
    → public_ip ip ≡ false
    → DialsFirst ips o
    → DialsFirst (ip ∷ ips) o
DialsFirst-later ip ips none e h = (e, h)
DialsFirst-later ip ips (some a) e (before, after, p, b, h) = (ip ∷ before, after, cc, (e, b), h)

-- The address that is dialled is one of the resolver's, is public, and the ones before it are not;
-- where none is dialled, none is public.
pub dial_address-DialsFirst : (ips : List Addr) → DialsFirst ips (dial_address ips)
unfolding dial_address
dial_address-DialsFirst [] = tt
dial_address-DialsFirst (ip ∷ ips) = elim (Bool-cases (public_ip ip)) [
  | inl e ↦ rw e ([], ips, refl, tt, e)
  | inr e ↦ rw e (DialsFirst-later ip ips (dial_address ips) e (dial_address-DialsFirst ips))
]
