-- ===== src/Base/GoMap.antt =====
-- Go's `map[string]V`, kept sealed behind its laws. The iteration order of a Go map is not
-- specified; the entries stand here in the byte order of the keys, the order in which
-- `encoding/json` writes a map.
pub mod Ordered
use Prim.Native.String.{String}
use mathlib.Core.Path.{◌≡◌, refl}
use mathlib.Core.Option
use mathlib.Core.Option.{Option, none, some}
use mathlib.Core.List.{List, [], ◌∷◌, map}
use native.Mathlib.Omega.{arith}
use text.Mathlib.Text.{◌==◌}
use text.Mathlib.TextEquality.{eq_iff}
use eudi_api_registration.Base.Tests.{if◌then◌else◌}
use eudi_api_registration.Base.Sort.{before}

pub record GoMap {ℓ} (V : Type ℓ) : Type ℓ where
  pub entries : List (String × V)

module _ {ℓ} {V : Type ℓ} where
  pub find : List (String × V) → String → Option V
  find [] key = none
  find (entry ∷ rest) key = if entry.0 == key then some entry.1 else find rest key

  map_values : (V → V) → List (String × V) → List (String × V)
  map_values f [] = []
  map_values f ((j, v) ∷ m) = (j, f v) ∷ map_values f m

  unfoldable pub store : List (String × V) → String → V → List (String × V)
  store [] key value = (key, value) ∷ []
  store (entry ∷ rest) key value =
      let later = store rest key value in
      if entry.0 == key
      then (key, value) ∷ rest
      else if before key entry.0
      then (key, value) ∷ entry ∷ rest
      else entry ∷ later

  find-store :
      (entries : List (String × V)) (key other : String) (value : V)
      → find (store entries key value) other
        ≡ (if key == other then some value else find entries other)
  unfolding find store
  find-store [] key other value = refl
  find-store (entry ∷ rest) key other value = ground (
    arith,
    find-store rest key other value,
    eq_iff entry.0 key,
    eq_iff entry.0 other,
    eq_iff key other,
  )

  unfoldable pub empty : GoMap V
  empty = record { entries = [] }

  -- v, ok := m[k]
  unfoldable pub get : GoMap V → String → Option V
  unfolding find
  get m k = find m.entries k

  -- m[k] = v
  unfoldable pub put : GoMap V → String → V → GoMap V
  unfolding store
  put m k v = record { entries = store m.entries k v }

  pub get-put :
      (m : GoMap V) (k j : String) (v : V)
      → get (put m k v) j ≡ (if k == j then some v else get m j)
  unfolding get put
  get-put m k j v = find-store m.entries k j v

  find-map_values :
      (f : V → V) (k : String) (m : List (String × V))
      → find (map_values f m) k ≡ Option.map f (find m k)
  unfolding find map_values
  find-map_values f k [] = refl
  find-map_values f k ((j, v) ∷ m) = ground (arith, find-map_values f k m)

  -- for _, v := range m, where the loop assigns to fields of `*v`
  unfoldable pub update_all : (V → V) → GoMap V → GoMap V
  unfolding map_values
  update_all f m = record { entries = map_values f m.entries }

  -- for _, v := range m
  unfoldable pub values : GoMap V → List V
  values m = map (λ (_, v). v) m.entries

  pub get-update_all :
      (f : V → V) (m : GoMap V) (k : String) → get (update_all f m) k ≡ Option.map f (get m k)
  unfolding get update_all
  get-update_all f m k = find-map_values f k m.entries

pub get-empty {ℓ} : {V : Type ℓ} (k : String) → get (empty {V = V}) k ≡ none
unfolding get empty
get-empty k = refl
