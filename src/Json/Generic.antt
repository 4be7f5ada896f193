-- ===== src/Json/Generic.antt =====
-- A JSON value decoded into an `any` of Go and written again (internal/registrydb/fake.go, where a policy
-- document is a `map[string]any`).
use eudi_api_registration.Base.{String, Option, none, some}
use eudi_api_registration.Base.GoMap
use eudi_api_registration.Json.{
  Json, null, bool, number, str, arr, obj, Items, nil, cons, Members, end, member, decode_members,
  marshal_map,
}

-- What becomes of a number's literal: it is read as a float64, and this is the literal that is written
-- for that; `none` if it is out of range.
abbrev pub Float64 : Type 0
Float64 = String → Option String

abbrev pub as_object : Option Members → Option Json
as_object none = none
as_object (some ms) = some (marshal_map (decode_members GoMap.empty ms))

abbrev pub as_array : Option Items → Option Json
as_array none = none
as_array (some items) = some (arr items)

abbrev pub as_number : Option String → Option Json
as_number none = none
as_number (some literal) = some (number literal)

abbrev pub cons_item : Option Json → Option Items → Option Items
cons_item (some j) (some items) = some (cons j items)
cons_item none items = none
cons_item (some j) none = none

abbrev pub cons_member : String → Option Json → Option Members → Option Members
cons_member key (some j) (some ms) = some (member key j ms)
cons_member key none ms = none
cons_member key (some j) none = none

-- An object becomes a map, which is written in the order of its keys, the last of a key alone.
unfoldable mutual
  pub as_any : Float64 → Json → Option Json
  as_any float64 null = some null
  as_any float64 (bool b) = some (bool b)
  as_any float64 (number literal) = as_number (float64 literal)
  as_any float64 (str s) = some (str s)
  as_any float64 (arr items) = as_array (any_items float64 items)
  as_any float64 (obj ms) = as_object (any_members float64 ms)

  pub any_items : Float64 → Items → Option Items
  any_items float64 nil = some nil
  any_items float64 (cons j items) = cons_item (as_any float64 j) (any_items float64 items)

  pub any_members : Float64 → Members → Option Members
  any_members float64 end = some end
  any_members float64 (member key j ms) =
      cons_member key (as_any float64 j) (any_members float64 ms)
