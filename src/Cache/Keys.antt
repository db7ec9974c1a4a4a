-- ===== src/Cache/Keys.antt =====
-- internal/cache/cache.go: which books share a key.
use atlas_bridge.Base.{ℕ, ◌≡◌, ◌≢◌, [], ◌∷◌, ◌++◌, All, refl, sym, ◌∙◌, append_assoc}
use atlas_bridge.Base.Text.{Bytes, codes}
use atlas_bridge.Cache.{key}

split_at :
    (sep : ℕ) (p p' id id' : Bytes)
    → All (λ c. c ≢ sep) p
    → All (λ c. c ≢ sep) p'
    → p ++ sep ∷ id ≡ p' ++ sep ∷ id'
    → (p ≡ p') × (id ≡ id')
split_at sep [] [] id id' h h' e = (refl, cc e)
split_at sep [] (c ∷ p') id id' h h' e = absurd (h'.0 (cc e))
split_at sep (c ∷ p) [] id id' h h' e = absurd (h.0 (cc e))
split_at sep (c ∷ p) (d ∷ p') id id' h h' e =
    let rest = split_at sep p p' id id' h.1 h'.1 (cc e) in (cc (e, rest.0), rest.1)

-- Two providers whose ids have no colon never share a key: equal keys are of the same provider and id.
pub key-key :
    (p p' id id' : Bytes)
    → All (λ c. c ≢ b':') p
    → All (λ c. c ≢ b':') p'
    → key p id ≡ key p' id'
    → (p ≡ p') × (id ≡ id')
unfolding key
key-key p p' id id' h h' e =
    split_at b':' p p' id id' h h'
      (sym (append_assoc p (codes ":") id) ∙ e ∙ append_assoc p' (codes ":") id')
