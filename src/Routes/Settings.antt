-- ===== src/Routes/Settings.antt =====
-- The handlers that set one part of a client's row and read it back (routes/api.go).
use eudi_api_registration.Base.{
  String, Bool, false, not, ◌&&◌, ◌||◌, Option, none, some, List, ◌==◌, all, if◌then◌else◌, Exec,
  pure, raise, ◌>>=◌, ◌>>◌,
}
use eudi_api_registration.Json.{
  null, bool, obj, Members, end, member, RawMessage, empty, text, malformed,
}
use eudi_api_registration.Registry.Store.{Store}
use eudi_api_registration.Url.{UrlParser, is_absolute_https_url, is_web_origin}
use eudi_api_registration.Routes.{Response, json, invalid_body, with_body, reject_if}

pub record ApiWebhookRequest : Type 0 where
  pub webhook_url : String

pub record ApiClientWebhookState : Type 0 where
  pub id : String
  pub state : String
  pub webhook_url : String

-- `none` is a key that the body does not have.
pub record ApiAllowedOriginsRequest : Type 0 where
  pub allowed_origins : Option (List String)

pub record ApiClientOriginsState : Type 0 where
  pub id : String
  pub state : String
  pub allowed_origins : List String

pub record ApiDcapiModeRequest : Type 0 where
  pub mode : Option String

pub record ApiClientDcapiModeState : Type 0 where
  pub id : String
  pub state : String
  pub mode : String

pub record ApiRegistrarIdentityRequest : Type 0 where
  pub registry_uri : String
  pub client_identifier : String

-- Which keys of an object `encoding/json` takes for the field "require_signed_dcapi": the exact name
-- and its case variants.
abbrev pub FieldMatcher : Type 0
FieldMatcher = String → Bool

-- The members decoded into the one field, a pointer, one after the other: `none` is an error, and
-- `null` sets the pointer to nil.
unfoldable pub decode_flag : FieldMatcher → Option Bool → Members → Option (Option Bool)
decode_flag matches flag end = some flag
decode_flag matches flag (member key (bool b) rest) =
    decode_flag matches (if matches key then some b else flag) rest
decode_flag matches flag (member key null rest) =
    decode_flag matches (if matches key then none else flag) rest
decode_flag matches flag (member key other rest) =
    let more = decode_flag matches flag rest in if matches key then none else more

-- The decoded document: `null` leaves the zero value, and any value but an object is an error.
abbrev pub decode_document : FieldMatcher → RawMessage → Option (Option Bool)
decode_document matches empty = some none
decode_document matches malformed = none
decode_document matches (text null) = some none
decode_document matches (text (obj members)) = decode_flag matches none members
decode_document matches (text other) = none

unfoldable pub stored_dcapi_mode : FieldMatcher → RawMessage → String
unfolding decode_flag
stored_dcapi_mode matches policy = elim (decode_document matches policy) [
  | some (some false) ↦ "unsigned"
  | _ ↦ "signed"
]

module _ (S : Store) where
  unfoldable pub api_set_webhook :
      String → Option ApiWebhookRequest → Exec S.State (Response ApiClientWebhookState)
  api_set_webhook id body = with_body body (λ req. reject_if (req.webhook_url == "") (do
    S.set_client_webhook id req.webhook_url "api"
    full ← S.get_client_full id
    pure (json (record { id = id; state = full.status; webhook_url = full.default_webhook }))))

  -- The handler's body, for a request that has the key.
  unfoldable pub set_origins :
      UrlParser → String → List String → Exec S.State (Response ApiClientOriginsState)
  set_origins parse id origins = reject_if (not (all (is_web_origin parse) origins)) (do
    S.set_client_allowed_origins id origins "api"
    full ← S.get_client_full id
    pure (json (record { id = id; state = full.status; allowed_origins = full.allowed_origins })))

  unfoldable pub api_set_allowed_origins :
      UrlParser
      → String
      → Option ApiAllowedOriginsRequest
      → Exec S.State (Response ApiClientOriginsState)
  api_set_allowed_origins parse id body = with_body body (λ req. elim req.allowed_origins [
    | none ↦ raise invalid_body
    | some origins ↦ set_origins parse id origins
  ])

  unfoldable pub set_mode :
      FieldMatcher → String → String → Exec S.State (Response ApiClientDcapiModeState)
  unfolding stored_dcapi_mode
  set_mode matches id mode = reject_if (not (mode == "signed") && not (mode == "unsigned")) (do
    S.set_client_dcapi_mode id mode "api"
    full ← S.get_client_full id
    pure (
        json
          (record { id = id; state = full.status; mode = stored_dcapi_mode matches full.policy })))

  unfoldable pub api_set_dcapi_request_mode :
      FieldMatcher
      → String
      → Option ApiDcapiModeRequest
      → Exec S.State (Response ApiClientDcapiModeState)
  api_set_dcapi_request_mode matches id body =
      with_body body
        (λ req. elim req.mode [ none ↦ raise invalid_body | some mode ↦ set_mode matches id mode ])

  -- 204 No Content
  unfoldable pub api_set_registrar_identity :
      UrlParser → String → Option ApiRegistrarIdentityRequest → Exec S.State (Response (Unit {0}))
  api_set_registrar_identity parse id body = with_body body (λ req.
      reject_if (req.registry_uri == "" || req.client_identifier == "") (
        reject_if (not (is_absolute_https_url parse req.registry_uri)) (do
          S.set_client_registrar_identity id req.registry_uri req.client_identifier "api"
          pure (record { status = 204; body = tt }))))
