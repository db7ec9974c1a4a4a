-- ===== src/Config/Merge.antt =====
-- internal/config/config.go: merge keeps each origin once.
use atlas_bridge.Base.{
  ◌≡◌, refl, true, false, ◌||◌, List, [], ◌∷◌, ◌++◌, Bool-cases, inl, inr, concat, arith, subst,
}
use atlas_bridge.Base.Text.{Bytes, ◌=ᵇ◌, =ᵇ_iff}
use atlas_bridge.Config.{is_member, merge_into, merge}

-- Each value stands once.
abbrev pub IsDistinct : List Bytes → Type 0
IsDistinct [] = Unit
IsDistinct (v ∷ vs) = (is_member v vs ≡ false) × IsDistinct vs

is_member-append :
    (v : Bytes) (xs ys : List Bytes) → is_member v (xs ++ ys) ≡ (is_member v xs || is_member v ys)
is_member-append v [] ys = refl
is_member-append v (x ∷ xs) ys = ground (arith, is_member-append v xs ys)

IsDistinct-append :
    (xs : List Bytes) (v : Bytes)
    → IsDistinct xs
    → is_member v xs ≡ false
    → IsDistinct (xs ++ v ∷ [])
IsDistinct-append [] v d fresh = (refl, tt)
IsDistinct-append (x ∷ xs) v d fresh = (
  ground (arith, is_member-append x xs (v ∷ []), =ᵇ_iff x v, =ᵇ_iff v x),
  IsDistinct-append xs v d.1 (ground arith),
)

merge_into-IsDistinct : (out vs : List Bytes) → IsDistinct out → IsDistinct (merge_into out vs)
unfolding merge_into
merge_into-IsDistinct out [] d = d
merge_into-IsDistinct out (v ∷ vs) d = elim (Bool-cases (is_member v out)) [
  | inl e ↦ rw e (merge_into-IsDistinct out vs d)
  | inr e ↦ rw e (merge_into-IsDistinct (out ++ v ∷ []) vs (IsDistinct-append out v d e))
]

is_member-merge_into :
    (w : Bytes) (out vs : List Bytes)
    → is_member w (merge_into out vs) ≡ (is_member w out || is_member w vs)
unfolding merge_into
is_member-merge_into w out [] = ground arith
is_member-merge_into w out (v ∷ vs) = elim (Bool-cases (is_member v out)) [
  | inl e ↦ rw e (ground (arith, is_member-merge_into w out vs, same v w e))
  | inr e ↦
      rw e
        (ground (arith, is_member-merge_into w (out ++ v ∷ []) vs, is_member-append w out (v ∷ [])))
]
  where
    same : (v' w' : Bytes) → is_member v' out ≡ true → (v' =ᵇ w') ≡ true → is_member w' out ≡ true
    same v' w' e q = subst (λ u. is_member u out ≡ true) ((=ᵇ_iff v' w').0 q) e

-- The merged origins hold each value of the groups, no other value, and each once.
pub merge-IsDistinct :
    (groups : List (List Bytes))
    → IsDistinct (merge groups)
      × ((w : Bytes) → is_member w (merge groups) ≡ is_member w (concat groups))
unfolding merge
merge-IsDistinct groups =
    (merge_into-IsDistinct [] (concat groups) tt, λ w. is_member-merge_into w [] (concat groups))
