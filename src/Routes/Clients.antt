-- ===== src/Routes/Clients.antt =====
-- The handlers that list, create, show and move clients (routes/api.go), over any store.
use eudi_api_registration.Base.{
  ℕ, String, Bool, false, not, Option, none, some, List, [], ◌∷◌, ◌++◌, map, ◌==◌, if◌then◌else◌,
  Exec, pure, ◌>>=◌, ◌>>◌,
}
use eudi_api_registration.Json.{RawMessage}
use eudi_api_registration.Registry.{ClientSummary, ClientFull}
use eudi_api_registration.Registry.Store.{Store}
use eudi_api_registration.Url.{UrlParser}
use eudi_api_registration.Lifecycle.{new_service, transition}
use eudi_api_registration.Routes.{Response, json, created, with_body, reject_if}

pub record ApiClientSummary : Type 0 where
  pub id : String
  pub name : String
  pub slug : String
  pub state : String
  pub updated_at : ℕ

pub record ApiCreateRequest : Type 0 where
  pub name : String
  pub contact_email : String

pub record ApiClientCreated : Type 0 where
  pub id : String
  pub slug : String
  pub state : String

pub record ApiClientDetail : Type 0 where
  pub id : String
  pub name : String
  pub slug : String
  pub state : String
  pub webhook_url : String
  pub registry_uri : String
  pub client_identifier : String
  pub registration : RawMessage

pub record ApiTransitionRequest : Type 0 where
  pub target_state : String
  pub reason : String
  pub evidence_ref : String

pub record ApiClientState : Type 0 where
  pub id : String
  pub state : String

abbrev pub to_summary : ClientSummary → ApiClientSummary
to_summary c = record {
  id = c.id;
  name = c.name;
  slug = c.slug;
  state = c.status;
  updated_at = c.updated_at;
}

-- want != nil && state != *want
abbrev pub is_skipped : Option String → String → Bool
is_skipped none state = false
is_skipped (some want) state = not (state == want)

-- The loop over the states and their clients.
unfoldable pub flatten : Option String → List (String × List ClientSummary) → List ApiClientSummary
flatten want [] = []
flatten want ((state, cs) ∷ rest) =
    let more = flatten want rest in
    if is_skipped want state then more else map to_summary cs ++ more

abbrev pub to_detail : ClientFull → ApiClientDetail
to_detail full = record {
  id = full.id;
  name = full.name;
  slug = full.slug;
  state = full.status;
  webhook_url = full.default_webhook;
  registry_uri = full.registry_uri;
  client_identifier = full.client_identifier;
  registration = full.wrp_document;
}

module _ (S : Store) where
  unfoldable pub api_list_clients : Option String → Exec S.State (Response (List ApiClientSummary))
  unfolding flatten
  api_list_clients want = do
    by_state ← S.list_clients_by_state
    pure (json (flatten want by_state.entries))

  unfoldable pub api_create_client :
      Option ApiCreateRequest → Exec S.State (Response ApiClientCreated)
  api_create_client body = with_body body (λ req. reject_if (req.name == "") (do
    id ← S.create_draft_client req.name req.contact_email "api"
    full ← S.get_client_full id
    pure (created (record { id = full.id; slug = full.slug; state = full.status }))))

  unfoldable pub api_get_client : String → Exec S.State (Response ApiClientDetail)
  api_get_client id = do full ← S.get_client_full id; pure (json (to_detail full))

  unfoldable pub api_transition :
      UrlParser → String → Option ApiTransitionRequest → Exec S.State (Response ApiClientState)
  unfolding transition
  api_transition parse id body = with_body body (λ req. reject_if (req.target_state == "") (do
    transition S parse new_service id req.target_state "api" req.evidence_ref req.reason
    pure (json (record { id = id; state = req.target_state }))))
