-- ===== src/Wire.antt =====
-- `encoding/json` between JSON texts and Go values, where the database bridge uses it
-- (internal/registrydb/repo.go, internal/registrydb/db.go). A slice of the program that the bridge
-- writes has been made, so it is written as an array; `null` and a missing key read as no element.
pub mod Exact
use Prim.Native.Char.{Char, code}
use eudi_api_registration.Base.{
  ℕ, String, Bool, true, ◌||◌, ◌≡◌, Option, none, some, List, [], ◌∷◌, ◌==◌, eqb, if◌then◌else◌,
  Result, ok, err, failure,
}
use eudi_api_registration.Text.{in_range, every}
use eudi_api_registration.Json.{
  Json, null, bool, number, str, arr, obj, Items, nil, cons, Members, end, member, RawMessage,
  empty, text, malformed,
}

-- What the standard library decides on texts: whether a key of an object stands for a field of that
-- name (the name itself or a case variant), the time that a text denotes, the number that a literal
-- denotes, and base64.
pub record Codec : Type 0 where
  pub names : String → String → Bool
  pub parse_time : String → Option ℕ
  pub parse_int : String → Option ℕ
  pub encode_base64 : List ℕ → String
  pub decode_base64 : String → Option (List ℕ)

-- Decoding into a variable that holds a value already; `none` is an error.
abbrev pub Decoder {ℓ} : Type ℓ → Type ℓ
Decoder A = A → Json → Option A

-- A field of a struct, by its name in the tag.
abbrev pub Field {ℓ} : Type ℓ → Type ℓ
Field A = String × Decoder A

abbrev pub decode_string : Decoder String
decode_string old (str s) = some s
decode_string old null = some old
decode_string old other = none

abbrev pub decode_bool : Decoder Bool
decode_bool old (bool b) = some b
decode_bool old null = some old
decode_bool old other = none

abbrev pub decode_int : Codec → Decoder ℕ
decode_int w old (number literal) = w.parse_int literal
decode_int w old null = some old
decode_int w old other = none

abbrev pub decode_time : Codec → Decoder ℕ
decode_time w old (str s) = w.parse_time s
decode_time w old null = some old
decode_time w old other = none

-- a `json.RawMessage`
abbrev pub decode_raw : Decoder RawMessage
decode_raw old j = some (text j)

-- an `any`
abbrev pub decode_any : Decoder Json
decode_any old j = some j

abbrev pub prepend {ℓ} : {A : Type ℓ} → Option A → Option (List A) → Option (List A)
prepend (some x) (some xs) = some (x ∷ xs)
prepend x xs = none

module _ {ℓ} {A : Type ℓ} where
  unfoldable pub decode_items : A → Decoder A → Items → Option (List A)
  decode_items zero_value decode nil = some []
  decode_items zero_value decode (cons j rest) =
      prepend (decode zero_value j) (decode_items zero_value decode rest)

  abbrev pub decode_slice : A → Decoder A → Decoder (List A)
  decode_slice zero_value decode old (arr items) = decode_items zero_value decode items
  decode_slice zero_value decode old null = some []
  decode_slice zero_value decode old other = none

  -- The field that a key stands for is decoded; a key of no field is skipped.
  abbrev pub set_field : Codec → List (Field A) → String → Decoder A
  set_field w [] key a j = some a
  set_field w ((name, decode) ∷ rest) key a j =
      let other = set_field w rest key a j in if w.names name key then decode a j else other

  abbrev pub next_member : Option A → (A → Option A) → Option A
  next_member none rest = none
  next_member (some a) rest = rest a

  unfoldable pub decode_fields : Codec → List (Field A) → Members → A → Option A
  decode_fields w fs end a = some a
  decode_fields w fs (member key j rest) a =
      next_member (set_field w fs key a j) (decode_fields w fs rest)

  abbrev pub decode_struct : Codec → List (Field A) → Decoder A
  decode_struct w fs old (obj members) = decode_fields w fs members old
  decode_struct w fs old null = some old
  decode_struct w fs old other = none

-- A field of a struct by its tag, the way to read it and the way to write it.
abbrev pub field {ℓ κ} :
    {A : Type ℓ} {B : Type κ} → String → (A → B) → (A → B → A) → Decoder B → String × Decoder A
field name get set decode =
    (name, λ a j. elim (decode (get a) j) [ none ↦ none | some b ↦ some (set a b) ])

abbrev pub decoded {ℓ} : {A : Type ℓ} → Option A → Result A
decoded none = err (failure "json")
decoded (some a) = ok a

-- json.Unmarshal(data, &v), where `v` is the zero value
unfoldable pub unmarshal {ℓ} : {A : Type ℓ} → A → Decoder A → RawMessage → Result A
unmarshal zero_value decode (text j) = decoded (decode zero_value j)
unmarshal zero_value decode empty = err (failure "json")
unmarshal zero_value decode malformed = err (failure "json")

-- json.Marshal of a `json.RawMessage`: a nil one is `null`, and bytes that are not JSON are an error.
abbrev pub marshal_raw : RawMessage → Option Json
marshal_raw empty = some null
marshal_raw (text j) = some j
marshal_raw malformed = none

-- The characters of the tags: a–z, 0–9 and the low line.
abbrev pub is_tag_char : Char → Bool
is_tag_char c = in_range 97 122 c || in_range 48 57 c || eqb (code c) 95

-- No tag is a case variant of another one.
pub record IsExact (w : Codec) : Type 0 where
  pub tags :
      (name key : String)
      → every is_tag_char name ≡ true
      → every is_tag_char key ≡ true
      → w.names name key ≡ (name == key)
