-- ===== src/Routes/Dispatch.antt =====
-- The table of routes under /api (routes/router.go): a request, the handler that it reaches, and a
-- run of the service over many requests.
use eudi_api_registration.Base.{ℕ, String, Option, List, [], ◌∷◌, Exec, pure, ◌>>=◌}
use eudi_api_registration.Registry.Store.{Store}
use eudi_api_registration.Ts5.{Encoders}
use eudi_api_registration.Url.{UrlParser}
use eudi_api_registration.Routes.{Response, require_api_key}
use eudi_api_registration.Routes.Clients.{
  ApiClientSummary, ApiCreateRequest, ApiClientCreated, ApiClientDetail, ApiTransitionRequest,
  ApiClientState, api_list_clients, api_create_client, api_get_client, api_transition,
}
use eudi_api_registration.Routes.Settings.{
  FieldMatcher, ApiWebhookRequest, ApiClientWebhookState, ApiAllowedOriginsRequest,
  ApiClientOriginsState, ApiDcapiModeRequest, ApiClientDcapiModeState, ApiRegistrarIdentityRequest,
  api_set_webhook, api_set_allowed_origins, api_set_dcapi_request_mode, api_set_registrar_identity,
}
use eudi_api_registration.Routes.Registration.{
  ApiRegistrationRequest, ApiRegistrationResult, api_set_registration,
}
use eudi_api_registration.Routes.Keys.{KeyCodecs, ApiKeyCreated, api_create_key}

-- A route, with the request's query, `{id}` and body; a registration also has the identifiers and
-- the date that it is given, and a key the bytes of its random source.
pub data Request : Type 0 where
  list_clients : Option String → Request
  create_client : Option ApiCreateRequest → Request
  get_client : String → Request
  set_registrar_identity : String → Option ApiRegistrarIdentityRequest → Request
  set_registration : String → Option ApiRegistrationRequest → (ℕ → String) → String → Request
  drive : String → Option ApiTransitionRequest → Request
  set_webhook : String → Option ApiWebhookRequest → Request
  set_allowed_origins : String → Option ApiAllowedOriginsRequest → Request
  set_dcapi_request_mode : String → Option ApiDcapiModeRequest → Request
  create_key : String → List ℕ → Request

pub data Reply : Type 0 where
  clients : Response (List ApiClientSummary) → Reply
  client_created : Response ApiClientCreated → Reply
  client : Response ApiClientDetail → Reply
  identity_set : Response (Unit {0}) → Reply
  registered : Response ApiRegistrationResult → Reply
  driven : Response ApiClientState → Reply
  webhook_set : Response ApiClientWebhookState → Reply
  origins_set : Response ApiClientOriginsState → Reply
  mode_set : Response ApiClientDcapiModeState → Reply
  key_created : Response ApiKeyCreated → Reply

-- The code outside the repository that the handlers call.
pub record Outside : Type 0 where
  pub parse : UrlParser
  pub encoders : Encoders
  pub matches : FieldMatcher
  pub codecs : KeyCodecs

abbrev pub reply {ℓ} : {S : Type ℓ} {A : Type 0} → (A → Reply) → Exec S A → Exec S Reply
reply wrap handler = handler >>= λ a. pure (wrap a)

module _ (S : Store) (out : Outside) where
  unfoldable pub dispatch : Request → Exec S.State Reply
  dispatch (list_clients want) = reply clients (api_list_clients S want)
  dispatch (create_client body) = reply client_created (api_create_client S body)
  dispatch (get_client id) = reply client (api_get_client S id)
  dispatch (set_registrar_identity id body) =
      reply identity_set (api_set_registrar_identity S out.parse id body)
  dispatch (set_registration id body ulid created_at) =
      reply registered (api_set_registration S out.parse out.encoders ulid created_at id body)
  dispatch (drive id body) = reply driven (api_transition S out.parse id body)
  dispatch (set_webhook id body) = reply webhook_set (api_set_webhook S id body)
  dispatch (set_allowed_origins id body) =
      reply origins_set (api_set_allowed_origins S out.parse id body)
  dispatch (set_dcapi_request_mode id body) =
      reply mode_set (api_set_dcapi_request_mode S out.matches id body)
  dispatch (create_key id source) = reply key_created (api_create_key S out.codecs source id)

  -- A request on the group: the gate, then the handler.
  unfoldable pub serve : String → String → Request → Exec S.State Reply
  unfolding dispatch
  serve want got request = require_api_key want got (dispatch request)

  -- The requests of a run one after the other, each with the key that it sends.
  unfoldable pub run : String → List (String × Request) → S.State → S.State
  unfolding serve
  run want [] s = s
  run want ((got, request) ∷ rest) s = run want rest (serve want got request s).1
