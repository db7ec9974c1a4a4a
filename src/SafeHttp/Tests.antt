-- ===== src/SafeHttp/Tests.antt =====
-- client.go on concrete addresses, redirects and bodies, and the theorems at inputs that meet their
-- hypotheses.
use atlas_bridge.Base.{
  ◌≤◌, ◌≡◌, refl, true, false, [], ◌∷◌, none, some, ok, err, arith, length, ◌↔◌, All, ◌^◌, ◌-◌,
}
use atlas_bridge.Base.Text.{Bytes, codes}
use atlas_bridge.SafeHttp.Address.{v4, v6, quad, public_ip, dial_address}
use atlas_bridge.SafeHttp.Address.Ranges.{reserved_v4, Outside, public_ip-v4_iff}
use atlas_bridge.SafeHttp.Address.Mapped.{
  mapped, public_ip-mapped, DialsFirst, dial_address-DialsFirst,
}
use atlas_bridge.SafeHttp.Policy.{Url, Client, PolicyError, too_large, requested, receive}
use atlas_bridge.SafeHttp.Policy.Redirects.{IsPermitted, requested-All}
use atlas_bridge.SafeHttp.Policy.Limits.{receive-exact, whole_or_refused}

abbrev site : Bytes → Url
site host = record { scheme = codes "https"; has_user = false; host = host; hostname = host }

abbrev one_origin : Client
one_origin = record { allowed = codes "https://a.org" ∷ []; max_body = 4 }

-- The cases of client_test.go.
special_addresses :
    (public_ip (v4 (quad 127 0 0 1)) ≡ false)
    × (public_ip (v4 (quad 169 254 169 254)) ≡ false)
    × (public_ip (v6 1) ≡ false)
    × (public_ip (v4 (quad 8 8 8 8)) ≡ true)
unfolding public_ip
special_addresses = (refl, refl, refl, refl)

mapped_loopback : public_ip (mapped (quad 127 0 0 1)) ≡ false
unfolding public_ip
mapped_loopback = refl

other_origin :
    requested one_origin (site (codes "A.org")) (site (codes "a.org") ∷ site (codes "b.org") ∷ [])
    ≡ (site (codes "A.org") ∷ site (codes "a.org") ∷ [], some PolicyError.origin_not_allowed)
unfolding requested
other_origin = refl

body_within : receive one_origin (some 4) (codes "ab" ∷ codes "cd" ∷ []) ≡ ok (codes "abcd")
unfolding receive
body_within = refl

body_over : receive one_origin none (codes "ab" ∷ codes "cde" ∷ []) ≡ err too_large
unfolding receive
body_over = refl

public_ip-v4_iff_example :
    (public_ip (v4 (quad 8 8 8 8)) ≡ true) ↔ All (Outside (quad 8 8 8 8)) reserved_v4
public_ip-v4_iff_example = public_ip-v4_iff (quad 8 8 8 8) (omega arith)

public_ip-mapped_example :
    (public_ip (v4 (quad 100 64 0 1)) ≡ false) × (public_ip (mapped (quad 100 64 0 1)) ≡ true)
public_ip-mapped_example = public_ip-mapped (quad 100 64 0 1) (omega arith) (omega arith)

dial_address-DialsFirst_example :
    DialsFirst
      (v4 (quad 10 0 0 1) ∷ v4 (quad 8 8 8 8) ∷ [])
      (dial_address (v4 (quad 10 0 0 1) ∷ v4 (quad 8 8 8 8) ∷ []))
dial_address-DialsFirst_example =
    dial_address-DialsFirst (v4 (quad 10 0 0 1) ∷ v4 (quad 8 8 8 8) ∷ [])

requested-All_example :
    All
      (IsPermitted one_origin)
      (requested one_origin (site (codes "a.org")) (site (codes "b.org") ∷ [])).0
    × (length (requested one_origin (site (codes "a.org")) (site (codes "b.org") ∷ [])).0 ≤ 5)
requested-All_example = requested-All one_origin (site (codes "a.org")) (site (codes "b.org") ∷ [])

receive-exact_example :
    receive one_origin (some 3) (codes "ab" ∷ codes "c" ∷ [])
    ≡ whole_or_refused 4 (some 3) (codes "abc")
receive-exact_example =
    receive-exact one_origin (some 3) (codes "ab" ∷ codes "c" ∷ []) (omega arith) (omega arith)

-- A limit of the greatest int64: the body is lost.
body_lost : receive (record { allowed = []; max_body = 2 ^ 63 - 1 }) none (codes "ab" ∷ []) ≡ ok []
unfolding receive
body_lost = refl
