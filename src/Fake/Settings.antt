-- ===== src/Fake/Settings.antt =====
-- The setters of a client row (internal/registrydb/fake.go): registrar identity, webhook, allowed
-- origins and browser-request mode.
use Prim.Native.Char.{Char, code}
use eudi_api_registration.Base.{
  String, Bool, not, ◌||◌, none, some, List, [], ◌∷◌, ◌==◌, all, length, ltb, eqb, if◌then◌else◌,
  Result, ok, err, panicked, refuse, Exec,
}
use eudi_api_registration.Base.GoMap
use eudi_api_registration.Base.GoMap.{GoMap}
use eudi_api_registration.Json.{
  Json, null, bool, arr, obj, end, member, RawMessage, empty, text, malformed, strings,
  string_detail, decode_members, marshal_map,
}
use eudi_api_registration.Json.Generic.{Float64, any_members}
use eudi_api_registration.Text.{is_regexp_space, prefix_then}
use eudi_api_registration.Fake.{Fake, write_audited}

unfoldable pub set_client_registrar_identity :
    String → String → String → String → Exec Fake (Unit {0})
set_client_registrar_identity client_id registry_uri client_identifier actor f =
    elim (GoMap.get f.clients client_id) [
      | none ↦ (refuse "registry:not_found", f)
      | some c ↦ (
        ok tt,
        write_audited client_id
            (record c { registry_uri = registry_uri; client_identifier = client_identifier }) actor
            "client.set_registrar_identity"
            (string_detail
              (("client_identifier", client_identifier) ∷ ("registry_uri", registry_uri) ∷ []))
            f,
      )
    ]

-- webhookURLPattern, `^https://\S+$`
unfoldable pub webhook_url_pattern : String → Bool
webhook_url_pattern = prefix_then "https://" (λ c. not (is_regexp_space c))

unfoldable pub set_client_webhook : String → String → String → Exec Fake (Unit {0})
set_client_webhook client_id webhook_url actor f =
    if webhook_url == "" || not (webhook_url_pattern webhook_url)
    then (refuse "registry:invalid", f)
    else elim (GoMap.get f.clients client_id) [
      | none ↦ (refuse "registry:not_found", f)
      | some c ↦ (
        ok tt,
        write_audited client_id (record c { default_webhook = webhook_url }) actor
            "client.set_webhook" (string_detail (("webhook_url", webhook_url) ∷ [])) f,
      )
    ]

-- `[^\s/?#@]`
abbrev pub is_origin_char : Char → Bool
is_origin_char c = not (
    is_regexp_space c
    || eqb (code c) b'/'
    || eqb (code c) b'?'
    || eqb (code c) b'#'
    || eqb (code c) b'@')

-- webOriginPattern, `^https://[^\s/?#@]+$`
unfoldable pub web_origin_pattern : String → Bool
web_origin_pattern = prefix_then "https://" is_origin_char

-- A list here is a value, so the copy that the code makes of the caller's slice is the list itself.
unfoldable pub set_client_allowed_origins : String → List String → String → Exec Fake (Unit {0})
set_client_allowed_origins client_id origins actor f =
    if ltb 20 (length origins) || not (all web_origin_pattern origins)
    then (refuse "registry:invalid", f)
    else elim (GoMap.get f.clients client_id) [
      | none ↦ (refuse "registry:not_found", f)
      | some c ↦ (
        ok tt,
        write_audited client_id (record c { allowed_origins = origins }) actor
            "client.set_allowed_origins"
            (text (obj (member "allowed_origins" (arr (strings origins)) end))) f,
      )
    ]

-- The policy document as a `map[string]any`: a number out of range is an error. `null` decodes to a
-- nil map, and the assignment to its key that follows panics.
unfoldable pub decode_policy : Float64 → RawMessage → Result (GoMap Json)
decode_policy float64 empty = ok GoMap.empty
decode_policy float64 (text (obj ms)) = elim (any_members float64 ms) [
  | none ↦ refuse "registry:error"
  | some values ↦ ok (decode_members GoMap.empty values)
]
decode_policy float64 (text null) = err panicked
decode_policy float64 (text _) = refuse "registry:error"
decode_policy float64 malformed = refuse "registry:error"

abbrev pub require_signed_key : String
require_signed_key = "require_signed_dcapi"

unfoldable pub merge_mode : Float64 → String → RawMessage → Result RawMessage
unfolding decode_policy
merge_mode float64 mode policy = elim (decode_policy float64 policy) [
  | err e ↦ err e
  | ok m ↦ ok (text (marshal_map (GoMap.put m require_signed_key (bool (mode == "signed")))))
]

unfoldable pub set_client_dcapi_mode : String → String → String → Exec Fake (Unit {0})
set_client_dcapi_mode client_id mode actor f =
    if not (mode == "signed" || mode == "unsigned")
    then (refuse "registry:invalid", f)
    else elim (GoMap.get f.clients client_id) [
      | none ↦ (refuse "registry:not_found", f)
      | some c ↦ elim (merge_mode f.float64 mode c.policy) [
        | err e ↦ (err e, f)
        | ok merged ↦ (
          ok tt,
          write_audited client_id (record c { policy = merged }) actor "client.set_dcapi_mode"
              (string_detail (("mode", mode) ∷ [])) f,
        )
      ]
    ]
