-- ===== src/SafeHttp/Address.antt =====
-- internal/safehttp/client.go: PublicIP and the choice of an address in DialContext. An address of
-- net/netip is invalid, or a number of 32 or of 128 bits; its zone, which a resolver's answer does not
-- carry, is left out. The methods of netip.Addr are modelled with the ranges that their
-- documentation gives; those that look through an IPv4-mapped IPv6 address (::ffff:a.b.c.d) do so.
pub mod Ranges
pub mod Mapped
use atlas_bridge.Base.{
  ℕ, ◌+◌, ◌-◌, ◌*◌, ◌/◌, ◌%◌, ◌^◌, Bool, true, false, ◌&&◌, ◌||◌, not, List, [], ◌∷◌, Option, none,
  some, ◌==◌, if◌then◌else◌, any,
}

pub data Addr : Type 0 where
  invalid : Addr
  v4 v6 : ℕ → Addr

-- The first `n` bits of two numbers of `w` bits agree: netip.Prefix.Contains.
abbrev pub in_prefix : ℕ → ℕ → ℕ → ℕ → Bool
in_prefix w p n x = x / 2 ^ (w - n) == p / 2 ^ (w - n)

-- a.b.c.d
abbrev pub quad : ℕ → ℕ → ℕ → ℕ → ℕ
quad a b c d = ((a * 256 + b) * 256 + c) * 256 + d

-- An IPv6 address by its first 32 bits, the rest zero.
abbrev pub high32 : ℕ → ℕ
high32 n = n * 2 ^ 96

-- ::ffff:0:0/96
abbrev pub is_mapped : ℕ → Bool
is_mapped x = x / 2 ^ 32 == 65535

abbrev pub unmap : Addr → Addr
unmap invalid = invalid
unmap (v4 x) = v4 x
unmap (v6 x) = if is_mapped x then v4 (x % 2 ^ 32) else v6 x

-- IsLoopback, IsPrivate, IsLinkLocalUnicast, IsLinkLocalMulticast and IsMulticast of an unmapped
-- address.
unfoldable pub is_loopback : Addr → Bool
is_loopback invalid = false
is_loopback (v4 x) = in_prefix 32 (quad 127 0 0 0) 8 x
is_loopback (v6 x) = x == 1

unfoldable pub is_private : Addr → Bool
is_private invalid = false
is_private (v4 x) =
    in_prefix 32 (quad 10 0 0 0) 8 x
    || in_prefix 32 (quad 172 16 0 0) 12 x
    || in_prefix 32 (quad 192 168 0 0) 16 x
is_private (v6 x) = in_prefix 128 (high32 0xfc000000) 7 x

unfoldable pub is_link_local_unicast : Addr → Bool
is_link_local_unicast invalid = false
is_link_local_unicast (v4 x) = in_prefix 32 (quad 169 254 0 0) 16 x
is_link_local_unicast (v6 x) = in_prefix 128 (high32 0xfe800000) 10 x

-- ff02::/16 for every flag: the first octet is ff and the scope is 2
unfoldable pub is_link_local_multicast : Addr → Bool
is_link_local_multicast invalid = false
is_link_local_multicast (v4 x) = in_prefix 32 (quad 224 0 0 0) 24 x
is_link_local_multicast (v6 x) = (x / 2 ^ 120 == 255) && ((x / 2 ^ 112) % 16 == 2)

unfoldable pub is_multicast : Addr → Bool
is_multicast invalid = false
is_multicast (v4 x) = in_prefix 32 (quad 224 0 0 0) 4 x
is_multicast (v6 x) = in_prefix 128 (high32 0xff000000) 8 x

-- IsUnspecified looks through no mapping.
unfoldable pub is_unspecified : Addr → Bool
is_unspecified invalid = false
is_unspecified (v4 x) = x == 0
is_unspecified (v6 x) = x == 0

-- ip.String() == MetadataIP: only an IPv4 address prints so.
unfoldable pub is_metadata : Addr → Bool
is_metadata (v4 x) = x == quad 169 254 169 254
is_metadata (v6 _) = false
is_metadata invalid = false

abbrev pub blocked_v4 : List (ℕ × ℕ)
blocked_v4 =
    (quad 0 0 0 0, 8)
    ∷ (quad 100 64 0 0, 10)
    ∷ (quad 192 0 0 0, 24)
    ∷ (quad 192 0 2 0, 24)
    ∷ (quad 198 18 0 0, 15)
    ∷ (quad 198 51 100 0, 24)
    ∷ (quad 203 0 113 0, 24)
    ∷ (quad 224 0 0 0, 4)
    ∷ (quad 240 0 0 0, 4)
    ∷ []

abbrev pub blocked_v6 : List (ℕ × ℕ)
blocked_v6 =
    (0, 128)
    ∷ (high32 0x20010db8, 32)
    ∷ (high32 0x20010010, 28)
    ∷ (high32 0xfc000000, 7)
    ∷ (high32 0xfe800000, 10)
    ∷ []

-- The loop over the blocked prefixes.
abbrev pub is_blocked : ℕ → List (ℕ × ℕ) → ℕ → Bool
is_blocked w [] x = false
is_blocked w ((p, n) ∷ ps) x = in_prefix w p n x || is_blocked w ps x

abbrev pub is_special : Addr → Bool
is_special ip =
    is_loopback (unmap ip)
    || is_private (unmap ip)
    || is_link_local_unicast (unmap ip)
    || is_link_local_multicast (unmap ip)
    || is_multicast (unmap ip)
    || is_unspecified ip

unfoldable pub public_ip : Addr → Bool
unfolding is_loopback is_private is_link_local_unicast is_link_local_multicast is_multicast
    is_unspecified is_metadata
public_ip invalid = false
public_ip (v4 x) =
    if is_special (v4 x) || is_metadata (v4 x) then false else not (is_blocked 32 blocked_v4 x)
public_ip (v6 x) =
    if is_special (v6 x) || is_metadata (v6 x) then false else not (is_blocked 128 blocked_v6 x)

-- DialContext: the first public address of the resolver's answer, or the error of its end.
unfoldable pub dial_address : List Addr → Option Addr
dial_address [] = none
dial_address (ip ∷ ips) = if public_ip ip then some ip else dial_address ips
