-- ===== src/SafeHttp/Policy/Redirects.antt =====
-- internal/safehttp/client.go: every URL that is requested is within the policy.
use atlas_bridge.Base.{
  ℕ, suc, ◌+◌, ◌≤◌, ◌<◌, ◌≡◌, ◌≢◌, refl, true, false, List, [], ◌∷◌, some, All, arith, ◌↔◌, Result,
  ok, err, length,
}
use atlas_bridge.Base.Text.{codes, =ᵇ_iff}
use atlas_bridge.SafeHttp.Policy.{
  Url, Client, PolicyError, origin, is_allowed, validate_url, check_redirect, sent_if, follow,
  requested,
}

-- A URL of the policy: https, with no credentials, with a host, of an origin on the list.
pub record IsPermitted (c : Client) (u : Url) : Type 0 where
  pub https : u.scheme ≡ codes "https"
  pub no_user : u.has_user ≡ false
  pub has_host : u.hostname ≢ []
  pub listed : is_allowed c.allowed (origin u) ≡ true

-- ValidateURL accepts exactly the URLs of the policy.
pub validate_url-eq-ok_iff :
    (c : Client) (u : Url) → (validate_url c (some u) ≡ ok tt) ↔ IsPermitted c u
unfolding validate_url
validate_url-eq-ok_iff c u = (
  λ h. record {
    https = ground (arith, =ᵇ_iff u.scheme (codes "https"));
    no_user = ground arith;
    has_host = ground (arith, =ᵇ_iff u.hostname []);
    listed = ground arith;
  },
  λ p. ground (arith, =ᵇ_iff u.scheme (codes "https"), =ᵇ_iff u.hostname []),
)

check_redirect-IsPermitted :
    (c : Client) (via : ℕ) (u : Url) → check_redirect c via u ≡ ok tt → IsPermitted c u × (via < 5)
unfolding check_redirect
check_redirect-IsPermitted c via u h = ((validate_url-eq-ok_iff c u).0 (ground arith), ground arith)

-- The requests of a chain, from `via` on.
follow-All :
    (c : Client) (via : ℕ) (us : List Url)
    → via ≤ 5
    → All (IsPermitted c) (follow c via us).0 × (length (follow c via us).0 + via ≤ 5)
unfolding follow
follow-All c via [] h = (tt, omega arith)
follow-All c via (u ∷ us) h = by_check (check_redirect c via u) refl (follow-All c (suc via) us)
  where
    by_check :
        (r : Result PolicyError (Unit {0}))
        → check_redirect c via u ≡ r
        → (suc via ≤ 5
            → All (IsPermitted c) (follow c (suc via) us).0
              × (length (follow c (suc via) us).0 + suc via ≤ 5))
        → All (IsPermitted c) (sent_if r u (follow c (suc via) us)).0
          × (length (sent_if r u (follow c (suc via) us)).0 + via ≤ 5)
    by_check (ok x) e later =
        let (p, lt) = check_redirect-IsPermitted c via u e in
        let (ps, le) = later lt in ((p, ps), omega arith)
    by_check (err x) e later = (tt, omega arith)

-- Whatever redirects the servers answer, every URL that is requested is within the policy, and at
-- most five are requested.
pub requested-All :
    (c : Client) (u : Url) (redirects : List Url)
    → All (IsPermitted c) (requested c u redirects).0 × (length (requested c u redirects).0 ≤ 5)
unfolding requested
requested-All c u redirects = by_check (validate_url c (some u)) refl
  where
    by_check :
        (r : Result PolicyError (Unit {0}))
        → validate_url c (some u) ≡ r
        → All (IsPermitted c) (sent_if r u (follow c 1 redirects)).0
          × (length (sent_if r u (follow c 1 redirects)).0 ≤ 5)
    by_check (ok x) e =
        let (ps, le) = follow-All c 1 redirects (omega arith) in
        (((validate_url-eq-ok_iff c u).0 e, ps), omega arith)
    by_check (err x) e = (tt, omega arith)
