-- ===== src/Base/Dict.antt =====
-- Python dicts with numbers for keys, in insertion order.
use Prim.Native.Nat.{ℕ}
use mathlib.Core.Path.{◌≡◌, refl}
use mathlib.Core.Bool.{Bool, false, ◌||◌}
use mathlib.Core.List.{List, [], ◌∷◌}
use mathlib.Core.Option.{Option, none, some}
use native.Mathlib.Omega.{arith}
use cs.Base.Tests.{◌==◌, if◌then◌else◌}

abbrev pub Dict {ℓ} : Type ℓ → Type ℓ
Dict V = List (ℕ × V)

module _ {ℓ} {V : Type ℓ} where
  -- `d.get(key)`
  unfoldable pub lookup : ℕ → Dict V → Option V
  lookup key [] = none
  lookup key ((k, v) ∷ rest) = if k == key then some v else lookup key rest

  -- `d[key] = value`
  unfoldable pub insert : ℕ → V → Dict V → Dict V
  insert key value [] = (key, value) ∷ []
  insert key value ((k, v) ∷ rest) =
      if k == key then (k, value) ∷ rest else (k, v) ∷ insert key value rest

  pub lookup-insert :
      (j key : ℕ) (value : V) (d : Dict V)
      → lookup j (insert key value d) ≡ (if key == j then some value else lookup j d)
  unfolding lookup insert
  lookup-insert j key value [] = refl
  lookup-insert j key value ((k, v) ∷ rest) = ground (arith, lookup-insert j key value rest)

-- `x in xs`
unfoldable pub member : ℕ → List ℕ → Bool
member x [] = false
member x (y ∷ ys) = x == y || member x ys
