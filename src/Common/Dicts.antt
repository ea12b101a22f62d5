-- ===== src/Common/Dicts.antt =====
-- A Python dict, in insertion order: an assignment to a key that is present keeps its place.
use mathlib.Core.Path.{◌≡◌, refl}
use mathlib.Core.Logic.{◌≢◌}
use mathlib.Core.Bool.{Bool, true, false}
use mathlib.Core.Option.{Option, none, some}
use mathlib.Core.List.{List, [], ◌∷◌, map}
use native.Mathlib.Omega.{arith}
use bmstu_nirs.Common.Tests.{Key, ◌==◌, if◌then◌else◌}

abbrev pub Dict {ℓ κ} : Type ℓ → Type κ → Type (ℓ ⊔ κ)
Dict K V = List (K × V)

module _ {ℓ κ} {K : Type ℓ} {V : Type κ} where
  abbrev pub values : Dict K V → List V
  values = map (λ e. e.1)

module _ {ℓ κ} {K : Type ℓ} ⦃key : Key K⦄ {V : Type κ} where
  -- `d.get(k)`
  abbrev pub lookup : K → Dict K V → Option V
  lookup k [] = none
  lookup k ((j, v) ∷ d) = if k == j then some v else lookup k d

  -- `k in d`
  abbrev pub contains : K → Dict K V → Bool
  contains k d = elim (lookup k d) [ none ↦ false | some _ ↦ true ]

  -- `d[k] = v`
  abbrev pub insert : K → V → Dict K V → Dict K V
  insert k v [] = (k, v) ∷ []
  insert k v (e ∷ d) = if k == e.0 then (k, v) ∷ d else e ∷ insert k v d

  -- `d.pop(k, None)`; a dict has a key once at most, so no second entry is there to keep.
  abbrev pub erase : K → Dict K V → Dict K V
  erase k [] = []
  erase k (e ∷ d) = if k == e.0 then erase k d else e ∷ erase k d

  pub lookup-insert :
      (j k : K) (v : V) (d : Dict K V)
      → lookup j (insert k v d) ≡ (if j == k then some v else lookup j d)
  lookup-insert j k v [] = refl
  lookup-insert j k v (e ∷ d) = ground (arith, lookup-insert j k v d)

  pub lookup-erase :
      (j k : K) (d : Dict K V) → lookup j (erase k d) ≡ (if j == k then none else lookup j d)
  lookup-erase j k [] = ground arith
  lookup-erase j k (e ∷ d) = ground (arith, lookup-erase j k d)

  pub lookup-insert_self : (k : K) (v : V) (d : Dict K V) → lookup k (insert k v d) ≡ some v
  lookup-insert_self k v d = ground (arith, lookup-insert k k v d)

  pub lookup-insert_ne :
      (j k : K) (v : V) (d : Dict K V) → j ≢ k → lookup j (insert k v d) ≡ lookup j d
  lookup-insert_ne j k v d h = ground (arith, lookup-insert j k v d)

  -- A loop over the items that replaces each value.
  abbrev pub map_values : (K → V → V) → Dict K V → Dict K V
  map_values f [] = []
  map_values f ((k, v) ∷ d) = (k, f k v) ∷ map_values f d

  pub lookup-map_values :
      (f : K → V → V) (j : K) (d : Dict K V)
      → lookup j (map_values f d) ≡ elim (lookup j d) [ none ↦ none | some v ↦ some (f j v) ]
  lookup-map_values f j [] = refl
  lookup-map_values f j (e ∷ d) = ground (arith, lookup-map_values f j d)

  -- Each key is there once.
  abbrev pub IsUnique : Dict K V → Type (ℓ ⊔ κ)
  IsUnique [] = Unit
  IsUnique ((k, v) ∷ d) = (lookup k d ≡ none) × IsUnique d

  pub insert-IsUnique : (k : K) (v : V) (d : Dict K V) → IsUnique d → IsUnique (insert k v d)
  insert-IsUnique k v [] h = (refl, tt)
  insert-IsUnique k v (e ∷ d) h = ground (arith, insert-IsUnique k v d h.1, lookup-insert e.0 k v d)
