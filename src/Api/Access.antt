-- ===== src/Api/Access.antt =====
-- internal/api/server.go: who gets past the check of the token, and the bounds on numbers of a query.
use atlas_bridge.Base.{
  ℕ, ◌==◌, ◌≡◌, ◌≢◌, ◌↔◌, ◌⊎◌, inl, inr, ◌≤◌, ◌<◌, refl, Bool, true, false, ◌&&◌, [], ◌∷◌, ◌++◌,
  Option, none, some, leb, if◌then◌else◌, length, drop, drop-length_append, arith, Bool-cases,
  subst, and_true, ==_iff,
}
use atlas_bridge.Base.Text.{Bytes, codes, ◌=ᵇ◌, =ᵇ_iff, =ᵇ_refl, has_prefix, trim_prefix}
use atlas_bridge.Base.Decimal.{ℤ, pos, negsuc, parse_int, format_nat, int64_limit}
use atlas_bridge.Base.Decimal.RoundTrip.{parse_int-format_nat, format_nat-cons}
use atlas_bridge.Model.{provider_error}
use atlas_bridge.Api.{
  HttpRequest, HttpResponse, Server, bearer, authenticate, write_error, bounded_int, in_bounds,
  refusal,
}

-- The request's header is the token behind "Bearer ", or the token by itself where the token does not
-- start with that word.
abbrev pub IsAuthorized : Server → HttpRequest → Type 0
IsAuthorized s r =
    (r.authorization ≡ codes "Bearer " ++ s.token)
    ⊎ ((r.authorization ≡ s.token) × (has_prefix (codes "Bearer ") s.token ≡ false))

has_prefix-append : (p s : Bytes) → has_prefix p (p ++ s) ≡ true
unfolding has_prefix
has_prefix-append [] s = refl
has_prefix-append (c ∷ p) s = ground (arith, has_prefix-append p s)

has_prefix-split : (p s : Bytes) → has_prefix p s ≡ true → s ≡ p ++ drop (length p) s
unfolding has_prefix
has_prefix-split [] s h = refl
has_prefix-split (c ∷ p) [] h = cc
has_prefix-split (c ∷ p) (d ∷ s) h =
    let both = and_true (c == d) (has_prefix p s) h in
    cc ((==_iff c d).0 both.0, has_prefix-split p s both.1)

trim_prefix→cases :
    (p a t : Bytes) → trim_prefix p a ≡ t → (a ≡ p ++ t) ⊎ ((a ≡ t) × (has_prefix p t ≡ false))
unfolding trim_prefix
trim_prefix→cases p a t h = elim (Bool-cases (has_prefix p a)) [
  | inl e ↦
      let cut : drop (length p) a ≡ t = ground (arith, h, e) in
      inl (subst (λ u. a ≡ p ++ u) cut (has_prefix-split p a e))
  | inr e ↦
      let same : a ≡ t = ground (arith, h, e) in
      inr (same, subst (λ u. has_prefix p u ≡ false) same e)
]

cases→trim_prefix :
    (p a t : Bytes) → (a ≡ p ++ t) ⊎ ((a ≡ t) × (has_prefix p t ≡ false)) → trim_prefix p a ≡ t
unfolding trim_prefix
cases→trim_prefix p a t (inl e) = rw (e, has_prefix-append p t) (drop-length_append p t)
cases→trim_prefix p a t (inr (e, bare)) = rw (e, bare) refl

bearer_iff : (s : Server) (r : HttpRequest) → (bearer r ≡ s.token) ↔ IsAuthorized s r
unfolding bearer
bearer_iff s r = (
  trim_prefix→cases (codes "Bearer ") r.authorization s.token,
  cases→trim_prefix (codes "Bearer ") r.authorization s.token,
)

not_true : (b : Bool) → ¬ (b ≡ true) → b ≡ false
not_true b h = ground arith

in_bounds-range :
    (fallback min max : ℕ) (o : Option ℤ)
    → min ≤ fallback
    → fallback ≤ max
    → (min ≤ in_bounds fallback min max o) × (in_bounds fallback min max o ≤ max)
in_bounds-range fallback min max none low high = (low, high)
in_bounds-range fallback min max (some (negsuc n)) low high = (low, high)
in_bounds-range fallback min max (some (pos n)) low high = ground arith

pub bounded_int-range :
    (raw : Bytes) (fallback min max : ℕ)
    → min ≤ fallback
    → fallback ≤ max
    → (min ≤ bounded_int raw fallback min max) × (bounded_int raw fallback min max ≤ max)
unfolding bounded_int
bounded_int-range [] fallback min max low high = (low, high)
bounded_int-range (c ∷ raw) fallback min max low high =
    in_bounds-range fallback min max (parse_int (c ∷ raw)) low high

bounded_int_format :
    (n fallback min max : ℕ)
    → n < int64_limit
    → bounded_int (format_nat n) fallback min max ≡ (if leb min n && leb n max then n else fallback)
unfolding bounded_int
bounded_int_format n fallback min max small =
    let (d, s, spelt, digit) = format_nat-cons n in
    rw (parse_int-format_nat n small, spelt) (ground arith)

-- Behind the check of a path other than /healthz, the handler answers exactly the requests whose header
-- carries the token; any other request gets a 401, which does not depend on the handler.
pub authenticate_iff :
    (s : Server) (r : HttpRequest) (next : HttpResponse)
    → r.path ≢ codes "/healthz"
    → (IsAuthorized s r → authenticate s r next ≡ next)
      × (¬ IsAuthorized s r
          → authenticate s r next
            ≡ write_error (
                provider_error (
                  refusal
                    (codes "unauthorized")
                    (codes "a valid bearer token is required")
                    401
                    false)))
unfolding authenticate
authenticate_iff s r next h =
    let other =
      not_true (r.path =ᵇ codes "/healthz") (λ e. h ((=ᵇ_iff r.path (codes "/healthz")).0 e)) in
    (
      λ a.
          let same = (bearer_iff s r).1 a in
          rw (other, same, =ᵇ_refl s.token, (==_iff (length s.token) (length s.token)).1 refl) refl,
      λ a.
          let differ =
            not_true (bearer r =ᵇ s.token)
              (λ e. a ((bearer_iff s r).0 ((=ᵇ_iff (bearer r) s.token).0 e))) in
          ground (arith, other, differ),
    )

-- A number of a query is within its bounds whatever the text is, and it is the number that the text
-- spells where that one is within them, else the fallback.
pub bounded_int-format_nat :
    (raw : Bytes) (n fallback min max : ℕ)
    → min ≤ fallback
    → fallback ≤ max
    → n < int64_limit
    → (min ≤ bounded_int raw fallback min max)
      × (bounded_int raw fallback min max ≤ max)
      × (bounded_int (format_nat n) fallback min max
          ≡ (if leb min n && leb n max then n else fallback))
bounded_int-format_nat raw n fallback min max low high small =
    let range = bounded_int-range raw fallback min max low high in
    (range.0, range.1, bounded_int_format n fallback min max small)
