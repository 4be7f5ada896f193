-- ===== src/Json.antt =====
-- JSON values as `encoding/json` reads and writes them, where the code handles JSON of its own:
-- policy documents and audit details (internal/registrydb/fake.go, routes/api.go).
pub mod Maps
pub mod Generic
use eudi_api_registration.Base.{String, Bool, List, [], ◌∷◌}
use eudi_api_registration.Base.GoMap
use eudi_api_registration.Base.GoMap.{GoMap}

mutual
  pub data Json : Type 0 where
    null : Json
    bool : Bool → Json
    number : String → Json
    str : String → Json
    arr : Items → Json
    obj : Members → Json

  pub data Items : Type 0 where
    nil : Items
    cons : Json → Items → Items

  pub data Members : Type 0 where
    end : Members
    member : String → Json → Members → Members

-- A `json.RawMessage` by what a decoder makes of its bytes: none at all, one JSON text, or bytes
-- that are not JSON. A number keeps its literal.
pub data RawMessage : Type 0 where
  empty : RawMessage
  text : Json → RawMessage
  malformed : RawMessage

abbrev pub fields : List (String × Json) → Members
fields [] = end
fields ((k, v) ∷ rest) = member k v (fields rest)

abbrev pub strings : List String → Items
strings [] = nil
strings (s ∷ rest) = cons (str s) (strings rest)

-- json.Marshal of a `map[string]string`, its keys given in byte order
abbrev pub marshal_strings : List (String × String) → Members
marshal_strings [] = end
marshal_strings ((k, v) ∷ rest) = member k (str v) (marshal_strings rest)

-- an audit detail, from a `map[string]string`
abbrev pub string_detail : List (String × String) → RawMessage
string_detail pairs = text (obj (marshal_strings pairs))

-- the members of an object, decoded into a map one after the other: the last of a key stays
unfoldable pub decode_members : GoMap Json → Members → GoMap Json
decode_members m end = m
decode_members m (member k v rest) = decode_members (GoMap.put m k v) rest

-- json.Marshal of a `map[string]any`
unfoldable pub marshal_map : GoMap Json → Json
marshal_map m = obj (fields m.entries)
