-- ===== src/Common/Maps.antt =====
-- A Go map with string keys, as an association list with one entry a key. The order in which
-- `range` visits the keys is the argument of the function that ranges.
use mathlib.Core.Path.{◌≡◌, refl}
use mathlib.Core.Logic.{◌↔◌, ◌≢◌}
use mathlib.Core.Bool.{Bool, true, false, ◌||◌}
use mathlib.Core.Option.{Option, none, some}
use mathlib.Core.List.{List, [], ◌∷◌}
use native.Mathlib.Omega.{arith}
use minedive.Common.Tests.{if◌then◌else◌}
use minedive.Common.Text.{Bytes, ◌is◌, is_iff, is_refl}

abbrev pub Dict {ℓ} : Type ℓ → Type ℓ
Dict V = List (Bytes × V)

-- `x` stands in the list.
unfoldable pub has : List Bytes → Bytes → Bool
has [] x = false
has (y ∷ ys) x = y is x || has ys x

module _ {ℓ} {V : Type ℓ} where
  unfoldable pub keys : Dict V → List Bytes
  keys [] = []
  keys ((k, v) ∷ d) = k ∷ keys d

  unfoldable pub lookup : Bytes → Dict V → Option V
  lookup k [] = none
  lookup k ((j, v) ∷ d) = if j is k then some v else lookup k d

  -- `d[k] = v`
  unfoldable pub insert : Bytes → V → Dict V → Dict V
  insert k v [] = (k, v) ∷ []
  insert k v ((j, w) ∷ d) = if j is k then (j, v) ∷ d else (j, w) ∷ insert k v d

  -- `delete(d, k)`
  unfoldable pub erase : Bytes → Dict V → Dict V
  erase k [] = []
  erase k ((j, w) ∷ d) = let rest = erase k d in if j is k then rest else (j, w) ∷ rest

  pub lookup-insert :
      (j k : Bytes) (v : V) (d : Dict V)
      → lookup j (insert k v d) ≡ (if k is j then some v else lookup j d)
  unfolding lookup insert
  lookup-insert j k v [] = refl
  lookup-insert j k v ((i, w) ∷ d) =
      ground (arith, is_iff i j, is_iff i k, is_iff k j, lookup-insert j k v d)

  pub lookup-erase :
      (j k : Bytes) (d : Dict V) → lookup j (erase k d) ≡ (if k is j then none else lookup j d)
  unfolding lookup erase
  lookup-erase j k [] = ground arith
  lookup-erase j k ((i, w) ∷ d) =
      ground (arith, is_iff i j, is_iff i k, is_iff k j, lookup-erase j k d)

  pub lookup-insert_self : (k : Bytes) (v : V) (d : Dict V) → lookup k (insert k v d) ≡ some v
  lookup-insert_self k v d = simp (lookup-insert, is_refl)

  pub has-keys : (k : Bytes) (d : Dict V) → (has (keys d) k ≡ true) ↔ (lookup k d ≢ none)
  unfolding has keys lookup
  has-keys k [] = (λ h. cc, λ h. absurd (h refl))
  has-keys k ((j, v) ∷ d) = ground (arith, has-keys k d)
