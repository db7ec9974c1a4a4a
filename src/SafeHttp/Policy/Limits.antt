-- ===== src/SafeHttp/Policy/Limits.antt =====
-- internal/safehttp/client.go: a body with a limit is read whole or refused.
use atlas_bridge.Base.{
  ◌∙◌, ap, ℕ, ◌+◌, ◌-◌, ◌≤◌, ◌<◌, ◌≡◌, refl, ◌||◌, List, [], ◌∷◌, Option, none, some, Result,
  lt→ltb, if◌then◌else◌, arith, inl, inr, Bool-cases, ok, err, length, take-all, concat, ltb,
  length-append, length-take,
}
use atlas_bridge.Base.Text.{Bytes}
use atlas_bridge.Base.Decimal.{int64_limit}
use atlas_bridge.SafeHttp.Policy.{
  Client, PolicyError, too_large, Limited, limit_body, read_all, receive,
}

-- The reader and its count: what may still come and what has come make the limit and one byte more.
abbrev Counts : ℕ → Limited → Type 0
Counts limit l = l.remaining + l.read ≡ limit + 1

pub read_all-exact :
    (limit : ℕ) (l : Limited) (chunks : List Bytes)
    → Counts limit l
    → l.read ≤ limit
    → read_all limit l chunks
      ≡ (if ltb limit (l.read + length (concat chunks)) then err too_large else ok (concat chunks))
unfolding read_all
read_all-exact limit l [] c fits = ground arith
read_all-exact limit l (chunk ∷ chunks) c fits =
    elim (Bool-cases (ltb limit (l.read + length chunk))) [
      | inl over ↦
          ground (arith, length-take l.remaining chunk, length-append chunk (concat chunks))
      | inr within ↦
          let whole = take-all l.remaining chunk (ground arith) in
          ground (
            arith,
            whole,
            length-append chunk (concat chunks),
            read_all-exact limit
                (record { remaining = l.remaining - length chunk; read = l.read + length chunk })
                chunks,
          )
    ]

from_start :
    (limit : ℕ) (chunks : List Bytes)
    → read_all limit (record { remaining = limit + 1; read = 0 }) chunks
      ≡ (if ltb limit (length (concat chunks)) then err too_large else ok (concat chunks))
from_start limit chunks =
    read_all-exact limit (record { remaining = limit + 1; read = 0 }) chunks (omega arith)
      (omega arith)
    ∙ ap (λ n. if ltb limit n then err too_large else ok (concat chunks)) (omega arith)

-- What a client with the limit `max` is to return for a response of this announced length and body.
abbrev pub whole_or_refused : ℕ → Option ℕ → Bytes → Result PolicyError Bytes
whole_or_refused max none body = if ltb max (length body) then err too_large else ok body
whole_or_refused max (some n) body =
    if ltb max n || ltb max (length body) then err too_large else ok body

-- The response of a client with a limit below the greatest int64, its body read in any chunks: the
-- whole body where neither the body nor the length that it announces is over the limit, and an error
-- otherwise. A truncated body is never returned.
pub receive-exact :
    (c : Client) (announced : Option ℕ) (chunks : List Bytes)
    → 0 < c.max_body
    → c.max_body + 1 < int64_limit
    → receive c announced chunks ≡ whole_or_refused c.max_body announced (concat chunks)
unfolding receive limit_body
receive-exact c none chunks pos small =
    rw (lt→ltb (c.max_body + 1) int64_limit small, lt→ltb 0 c.max_body pos)
      (from_start c.max_body chunks)
receive-exact c (some n) chunks pos small = elim (Bool-cases (ltb c.max_body n)) [
  | inl over ↦ rw (over, lt→ltb 0 c.max_body pos) refl
  | inr within ↦
      rw (within, lt→ltb (c.max_body + 1) int64_limit small, lt→ltb 0 c.max_body pos)
        (from_start c.max_body chunks)
]
