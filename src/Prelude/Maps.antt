-- ===== src/Prelude/Maps.antt =====
-- `Map` as a list of entries in the order of insertion, under a test of keys.
use mathlib.Core.Bool.{Bool}
use mathlib.Core.List.{List, [], ◌∷◌}
use mathlib.Core.Option.{Option, none, some}
use nodejs_template.Prelude.Tests.{if◌then◌else◌}

module _ {K V : Type 0} (same : K → K → Bool) where
  -- `map.get(key)`
  abbrev pub map_get : List (K × V) → K → Option V
  map_get [] key = none
  map_get ((k, v) ∷ rest) key = if same k key then some v else map_get rest key

  -- `map.set(key, value)` keeps the place of a key that is there.
  abbrev pub map_set : List (K × V) → K → V → List (K × V)
  map_set [] key value = (key, value) ∷ []
  map_set ((k, v) ∷ rest) key value =
      let others = map_set rest key value in
      if same k key then (k, value) ∷ rest else (k, v) ∷ others

  -- `map.delete(key)`
  abbrev pub map_delete : List (K × V) → K → List (K × V)
  map_delete [] key = []
  map_delete ((k, v) ∷ rest) key =
      let others = map_delete rest key in if same k key then rest else (k, v) ∷ others
