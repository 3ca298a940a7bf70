-- ===== src/Prelude/Maps.antt =====
-- `HashMap` as an association list without an order that is observed: `get`, `insert` and `contains_key`.
use mathlib.Core.Path.{◌≡◌}
use mathlib.Core.Logic.{◌≢◌}
use mathlib.Core.Option.{Option, none, some}
use mathlib.Core.List.{List, [], ◌∷◌}
use native.Mathlib.Omega.{arith}

module _ {ℓ κ} {K : Type ℓ} {V : Type κ} (eq : Discrete K) where
  abbrev pub lookup : K → List (K × V) → Option V
  lookup k [] = none
  lookup k ((key, v) ∷ map) = elim (eq k key) [ yes e ↦ some v | no n ↦ lookup k map ]

  abbrev pub insert : K → V → List (K × V) → List (K × V)
  insert k v map = (k, v) ∷ map

  pub lookup-insert : (k : K) (v : V) (map : List (K × V)) → lookup k (insert k v map) ≡ some v
  lookup-insert k v map = ground (arith, eq k k)

  pub lookup-insert_other :
      (k l : K) (v : V) (map : List (K × V)) → l ≢ k → lookup l (insert k v map) ≡ lookup l map
  lookup-insert_other k l v map n = ground (arith, eq l k)
