-- ===== src/Base/Maps.antt =====
-- Go maps with string keys, as association lists.
use atlas_bridge.Base.{◌≡◌, refl, List, [], ◌∷◌, Option, none, some, arith, if◌then◌else◌}
use mathlib.Core.Option
use atlas_bridge.Base.Text.{Bytes, ◌=ᵇ◌, =ᵇ_iff}

abbrev pub Map {ℓ} : Type ℓ → Type ℓ
Map V = List (Bytes × V)

module _ {ℓ} {V : Type ℓ} where
  -- v, ok := m[k]
  unfoldable pub find : Bytes → Map V → Option V
  find k [] = none
  find k ((j, v) ∷ m) = if j =ᵇ k then some v else find k m

  -- m[k] = v
  unfoldable pub store : Bytes → V → Map V → Map V
  store k v [] = (k, v) ∷ []
  store k v ((j, w) ∷ m) = if j =ᵇ k then (j, v) ∷ m else (j, w) ∷ store k v m

  -- delete(m, k)
  unfoldable pub remove : Bytes → Map V → Map V
  remove k [] = []
  remove k ((j, w) ∷ m) = if j =ᵇ k then remove k m else (j, w) ∷ remove k m

  -- A change through a pointer that the map holds, if it holds one.
  unfoldable pub change : Bytes → (V → V) → Map V → Map V
  change k f [] = []
  change k f ((j, w) ∷ m) = if j =ᵇ k then (j, f w) ∷ m else (j, w) ∷ change k f m

  pub find-store :
      (k j : Bytes) (v : V) (m : Map V)
      → find j (store k v m) ≡ (if k =ᵇ j then some v else find j m)
  unfolding find store
  find-store k j v [] = refl
  find-store k j v ((i, w) ∷ m) =
      ground (arith, =ᵇ_iff k j, =ᵇ_iff i k, =ᵇ_iff i j, find-store k j v m)

  pub find-remove :
      (k j : Bytes) (m : Map V) → find j (remove k m) ≡ (if k =ᵇ j then none else find j m)
  unfolding find remove
  find-remove k j [] = ground arith
  find-remove k j ((i, w) ∷ m) =
      ground (arith, =ᵇ_iff k j, =ᵇ_iff i k, =ᵇ_iff i j, find-remove k j m)

  pub find-change :
      (k j : Bytes) (f : V → V) (m : Map V)
      → find j (change k f m) ≡ (if k =ᵇ j then Option.map f (find j m) else find j m)
  unfolding find change
  find-change k j f [] = ground arith
  find-change k j f ((i, w) ∷ m) =
      ground (arith, =ᵇ_iff k j, =ᵇ_iff i k, =ᵇ_iff i j, find-change k j f m)
