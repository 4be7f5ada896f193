-- ===== src/Routes/Atomic.antt =====
-- The handlers that set one thing, by what they leave when they answer with an error (routes).
pub mod Requests
use eudi_api_registration.Base.{
  ℕ, String, not, ◌&&◌, ◌||◌, ◌≡◌, ◌≢◌, ◌⊎◌, refl, ◌∙◌, inl, inr, Option, none, some, List, ◌==◌,
  any, all, arith, eq_iff, eq_refl, Bool-cases, Option-cases, Result, ok, err, Error, unauthorized,
  Exec, pure, when_ok, ◌>>=◌, ◌>>◌,
}
use eudi_api_registration.Registry.{ClientFull, IntendedUse, lacks_id}
use eudi_api_registration.Registry.Store.{Store}
use eudi_api_registration.Registry.Contract.{Contract, Writes, Sets, refused, wrote}
use eudi_api_registration.Ts5.{WalletRelyingParty, Encoders}
use eudi_api_registration.Lifecycle.{new_service, transition}
use eudi_api_registration.Url.{UrlParser, is_absolute_https_url, is_web_origin}
use eudi_api_registration.Wizard.{Checked-cases}
use eudi_api_registration.Wizard.Assembly.{build}
use eudi_api_registration.Routes.{Response, json, created, require_api_key}
use eudi_api_registration.Routes.Clients.{
  ApiClientState, ApiCreateRequest, ApiTransitionRequest, api_list_clients, api_create_client,
  api_get_client, api_transition,
}
use eudi_api_registration.Routes.Settings.{
  FieldMatcher, ApiWebhookRequest, ApiAllowedOriginsRequest, ApiDcapiModeRequest,
  ApiRegistrarIdentityRequest, set_origins, set_mode, api_set_webhook, api_set_allowed_origins,
  api_set_dcapi_request_mode, api_set_registrar_identity,
}
use eudi_api_registration.Routes.Registration.{
  ApiRegistrationRequest, to_form_state, save_registration, save_built, api_set_registration,
}
use eudi_api_registration.Routes.Keys.{KeyCodecs, MintedKey, mint, api_create_key, ApiKeyCreated}
use eudi_api_registration.Routes.Dispatch.{
  Request, list_clients, create_client, get_client, set_registrar_identity, set_registration, drive,
  set_webhook, set_allowed_origins, set_dcapi_request_mode, create_key, Outside, clients,
  client_created, client, identity_set, registered, driven, webhook_set, origins_set, mode_set,
  key_created, dispatch, serve,
}
use eudi_api_registration.Routes.Governed.{then-same, get_full-same}

module _ (S : Store) (K : Contract S) where
  open K use {views, view, uses, Valid}

  -- A call that either leaves no trace or succeeds.
  abbrev pub Atomic : {A : Type 0} → Exec S.State A → S.State → Type 0
  Atomic {A} op s = ((op s).1 ≡ s) ⊎ ((a : A) × ((op s).0 ≡ ok a))

  pub Atomic-pure :
      {A B : Type 0} (op : Exec S.State A) (f : A → B) (s : S.State)
      → Atomic op s
      → Atomic (op >>= λ a. pure (f a)) s
  Atomic-pure op f s (inr (a, e)) = inr (f a, rw e refl)
  Atomic-pure op f s (inl e) = go (op s).0 refl
    where
      go : (r : Result _) → (op s).0 ≡ r → Atomic (op >>= λ a. pure (f a)) s
      go (ok a) h = inr (f a, rw h refl)
      go (err x) h = inl (rw h e)

  -- After a write of the client's row the read back finds it.
  Writes-read_back :
      {A : Type 0} (op : Exec S.State (Unit {0})) (id : String) (k : ClientFull → A) (s : S.State)
      (d : ClientFull)
      → Writes views op s id d
      → ((op >> (S.get_client_full id >>= λ full. pure (k full))) s).0 ≡ ok (k d)
  Writes-read_back op id k s d w =
      rw (w.succeeds, K.get_full id (op s).1, w.row id, eq_refl id) refl

  pub Sets-Atomic :
      {A : Type 0} (op : Exec S.State (Unit {0})) (id : String) (k : ClientFull → A) (s : S.State)
      (Q : ClientFull → ClientFull → Type 0)
      → Sets views op s id Q
      → Atomic (op >> (S.get_client_full id >>= λ full. pure (k full))) s
  Sets-Atomic op id k s Q (refused e h) = inl (rw h refl)
  Sets-Atomic op id k s Q (wrote c d row q w) = inr (k d, Writes-read_back op id k s d w)

  pub create-Atomic :
      (body : Option ApiCreateRequest) (s : S.State) → Valid s → Atomic (api_create_client S body) s
  unfolding api_create_client
  create-Atomic none s v = inl refl
  create-Atomic (some req) s v = elim (Bool-cases (req.name == "")) [
    | inl bad ↦ rw bad (inl refl)
    | inr good ↦
        let w = K.create_done req.name req.contact_email "api" s v in
        let op = S.create_draft_client req.name req.contact_email "api" in
        rw good
          (rw (w.succeeds, K.get_full w.id (op s).1, w.row w.id, eq_refl w.id) (inr (_, refl)))
  ]

  pub get-Atomic : (id : String) (s : S.State) → Atomic (api_get_client S id) s
  unfolding api_get_client
  get-Atomic id s = inl (
      then-same S K (λ _. none) (S.get_client_full id) _ s (λ _ _. refl)
      ∙ get_full-same S K (λ _. none) id s)

  pub list-Atomic : (want : Option String) (s : S.State) → Atomic (api_list_clients S want) s
  unfolding api_list_clients
  list-Atomic want s =
      inl (then-same S K (λ _. none) S.list_clients_by_state _ s (λ _ _. refl) ∙ K.list_same s)

  pub webhook-Atomic :
      (id : String) (body : Option ApiWebhookRequest) (s : S.State)
      → Atomic (api_set_webhook S id body) s
  unfolding api_set_webhook
  webhook-Atomic id none s = inl refl
  webhook-Atomic id (some req) s = elim (Bool-cases (req.webhook_url == "")) [
    | inl bad ↦ rw bad (inl refl)
    | inr good ↦ rw good (
        Sets-Atomic (S.set_client_webhook id req.webhook_url "api") id _ s _
          (K.webhook_lem id req.webhook_url "api" s))
  ]

  module _ (parse : UrlParser) where
    pub origins-Atomic :
        (id : String) (body : Option ApiAllowedOriginsRequest) (s : S.State)
        → Atomic (api_set_allowed_origins S parse id body) s
    unfolding api_set_allowed_origins set_origins
    origins-Atomic id none s = inl refl
    origins-Atomic id (some req) s = go req.allowed_origins
      where
        go :
            (o : Option (List String))
            → Atomic (api_set_allowed_origins S parse id (some (record { allowed_origins = o }))) s
        go none = inl refl
        go (some origins) = elim (Bool-cases (all (is_web_origin parse) origins)) [
          | inr bad ↦ rw bad (inl refl)
          | inl good ↦ rw good (
              Sets-Atomic (S.set_client_allowed_origins id origins "api") id _ s _
                (K.origins_lem id origins "api" s))
        ]

    pub identity-Atomic :
        (id : String) (body : Option ApiRegistrarIdentityRequest) (s : S.State)
        → Atomic (api_set_registrar_identity S parse id body) s
    unfolding api_set_registrar_identity
    identity-Atomic id none s = inl refl
    identity-Atomic id (some req) s =
        let op = S.set_client_registrar_identity id req.registry_uri req.client_identifier "api" in
        elim (Bool-cases (req.registry_uri == "" || req.client_identifier == "")) [
          | inl bad ↦ rw bad (inl refl)
          | inr named ↦ elim (Bool-cases (is_absolute_https_url parse req.registry_uri)) [
            | inr bad ↦ rw (named, bad) (inl refl)
            | inl https ↦
                rw (named, https)
                  (elim (Option-cases (view s id)) [
                    | inl missing ↦
                        rw
                          (K.identity_missing id req.registry_uri req.client_identifier "api" s
                            missing)
                          (inl refl)
                    | inr (c, row) ↦
                        let w =
                          K.identity_done id req.registry_uri req.client_identifier "api" s c row in
                        rw w.succeeds (inr (_, refl))
                  ])
          ]
        ]

  pub mode-Atomic :
      (matches : FieldMatcher) (id : String) (body : Option ApiDcapiModeRequest) (s : S.State)
      → Atomic (api_set_dcapi_request_mode S matches id body) s
  unfolding api_set_dcapi_request_mode set_mode
  mode-Atomic matches id none s = inl refl
  mode-Atomic matches id (some req) s = go req.mode
    where
      go :
          (o : Option String)
          → Atomic (api_set_dcapi_request_mode S matches id (some (record { mode = o }))) s
      go none = inl refl
      go (some mode) = elim (Bool-cases (not (mode == "signed") && not (mode == "unsigned"))) [
        | inl bad ↦ rw bad (inl refl)
        | inr good ↦ rw good (
            Sets-Atomic (S.set_client_dcapi_mode id mode "api") id _ s _
              (K.mode_lem id mode "api" s))
      ]
