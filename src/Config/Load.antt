-- ===== src/Config/Load.antt =====
-- internal/config/config.go: what an accepted configuration guarantees.
use atlas_bridge.Base.{
  ℕ, ◌*◌, ◌^◌, ◌≤◌, ◌<◌, ◌≡◌, ◌≢◌, true, false, [], ◌∷◌, Bool-cases, inl, inr, arith, length, ok,
  >>=-eq-ok, ltb, Option, none, some, subst,
}
use atlas_bridge.Base.Text.{Bytes, codes, ◌=ᵇ◌, =ᵇ_iff}
use atlas_bridge.Base.Decimal.{ℤ, pos, negsuc, parse_int, format_nat}
use atlas_bridge.Config.{
  Process, env, list, Config, positive_or, int_env, duration_env, secret, settings, checked,
  with_secrets, load, second,
}
use atlas_bridge.Config.Merge.{IsDistinct, merge-IsDistinct}

-- What the program relies on of its settings.
pub record IsUsable (c : Config) : Type 0 where
  pub long_token : 32 ≤ length c.bridge_token
  pub has_base_url : c.public_base_url ≢ []
  pub metadata_bounded : 0 < c.metadata_limit
  pub download_bounded : 0 < c.download_limit
  pub timeout_bounded : 0 < c.request_timeout
  pub expansion_bounded : 0 < c.catalogue_max_expanded
  pub payload_bounded : 0 < c.catalogue_payload_limit
  pub anna_distinct : IsDistinct c.anna_origins
  pub libgen_distinct : IsDistinct c.libgen_origins

positive_or-pos : (fallback : ℕ) (o : Option ℤ) → 0 < fallback → 0 < positive_or fallback o
positive_or-pos fallback (some (pos n)) h = ground arith
positive_or-pos fallback (some (negsuc n)) h = h
positive_or-pos fallback none h = h

int_env-pos :
    (p : Process) (name : Bytes) (fallback : ℕ) → 0 < fallback → 0 < int_env p name fallback
unfolding int_env
int_env-pos p name fallback h =
    positive_or-pos fallback (parse_int (env p name (format_nat fallback))) h

duration_env-pos :
    (p : Process) (name : Bytes) (fallback : ℕ) → 0 < fallback → 0 < duration_env p name fallback
unfolding duration_env
duration_env-pos p name fallback h =
    positive_or-pos fallback (p.parse_duration (env p name (p.format_duration fallback))) h

checked-eq-ok :
    (c : Config) {c' : Config}
    → checked c ≡ ok c'
    → (c ≡ c') × (32 ≤ length c.bridge_token) × (c.public_base_url ≢ [])
checked-eq-ok c h = elim (Bool-cases (ltb (length c.bridge_token) 32)) [
  | inl e ↦ cc (h, e)
  | inr e ↦ elim (Bool-cases (c.public_base_url =ᵇ [])) [
    | inl q ↦ cc (h, e, q)
    | inr q ↦ (cc (h, e, q), ground arith, λ empty. cc (q, (=ᵇ_iff c.public_base_url []).1 empty))
  ]
]

with_secrets-IsUsable :
    (p : Process) (token key : Bytes)
    → 32 ≤ length token
    → (settings p).public_base_url ≢ []
    → IsUsable (with_secrets (settings p) token key)
unfolding settings
with_secrets-IsUsable p token key long based =
    let anna_extra =
      list p (codes "ATLAS_ANNA_EXTRA_ORIGINS") (codes "https://download.booksdl.org") in
    let libgen_extra = list p (codes "ATLAS_LIBGEN_EXTRA_ORIGINS") (
      codes
        "https://library.lol,https://download.booksdl.org,https://cdn1.booksdl.lc,https://cdn2.booksdl.lc,https://cdn3.booksdl.lc") in
    record {
      long_token = long;
      has_base_url = based;
      metadata_bounded =
          int_env-pos p (codes "ATLAS_BRIDGE_METADATA_LIMIT") (10 * 2 ^ 20) (omega arith);
      download_bounded =
          int_env-pos p (codes "ATLAS_BRIDGE_DOWNLOAD_LIMIT") (512 * 2 ^ 20) (omega arith);
      timeout_bounded =
          duration_env-pos p (codes "ATLAS_BRIDGE_REQUEST_TIMEOUT") (45 * second) (omega arith);
      expansion_bounded =
          int_env-pos p (codes "ATLAS_BRIDGE_CATALOGUE_MAX_EXPANDED") (50 * 2 ^ 30) (omega arith);
      payload_bounded =
          int_env-pos p (codes "ATLAS_BRIDGE_CATALOGUE_PAYLOAD_LIMIT") (4 * 2 ^ 30) (omega arith);
      anna_distinct = (merge-IsDistinct ((settings p).anna_mirrors ∷ anna_extra ∷ [])).0;
      libgen_distinct = (merge-IsDistinct ((settings p).libgen_mirrors ∷ libgen_extra ∷ [])).0;
    }

-- A configuration that loads has a token of at least 32 bytes, a public base URL, limits and a timeout
-- that are positive, so none of them means "no limit", and no origin twice.
pub load-IsUsable : (p : Process) {c : Config} → load p ≡ ok c → IsUsable c
unfolding load
load-IsUsable p {c} h =
    let first =
      >>=-eq-ok
        (secret p (codes "ATLAS_BRIDGE_TOKEN_FILE") (codes "/run/secrets/bridge-token") true) _ h in
    let second' =
      >>=-eq-ok (secret p (codes "ATLAS_ANNA_KEY_FILE") (codes "/run/secrets/anna-key") false) _
        first.2 in
    let end = checked-eq-ok (with_secrets (settings p) first.0 second'.0) second'.2 in
    subst IsUsable end.0 (with_secrets-IsUsable p first.0 second'.0 end.1 end.2)
