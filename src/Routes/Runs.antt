-- ===== src/Routes/Runs.antt =====
-- The remaining handlers, the table of routes, and runs of the service (routes).
use eudi_api_registration.Base.{
  ℕ, String, not, ◌||◌, ◌≡◌, ◌≢◌, ◌⊎◌, refl, inl, inr, Option, none, some, List, [], ◌∷◌, ◌==◌,
  arith, Bool-cases, Option-cases, Result, ok, err, Exec, pure, when_ok, ◌>>=◌, ◌>>◌,
}
use eudi_api_registration.Json.{RawMessage}
use eudi_api_registration.Registry.{ClientFull, IntendedUse}
use eudi_api_registration.Registry.Store.{Store}
use eudi_api_registration.Registry.Contract.{Contract}
use eudi_api_registration.Ts5.{WalletRelyingParty, Encoders}
use eudi_api_registration.Lifecycle.{new_service, transition}
use eudi_api_registration.Url.{UrlParser}
use eudi_api_registration.Wizard.{Checked-cases, passed, FormState}
use eudi_api_registration.Wizard.Assembly.{build, build_intended_uses}
use eudi_api_registration.Wizard.Projection.{build-SameUses, SameUses-facts}
use eudi_api_registration.Routes.{created, require_api_key}
use eudi_api_registration.Routes.Clients.{
  ApiTransitionRequest, api_list_clients, api_get_client, api_transition,
}
use eudi_api_registration.Routes.Registration.{
  ApiRegistrationRequest, to_form_state, save_registration, save_built, api_set_registration,
}
use eudi_api_registration.Routes.Keys.{KeyCodecs, MintedKey, mint, api_create_key, ApiKeyCreated}
use eudi_api_registration.Routes.Steps.{
  Keeps, read_back-Governed, transition-Keeps, create-Keeps, webhook-Keeps, origins-Keeps,
  mode-Keeps, identity-Keeps,
}
use eudi_api_registration.Routes.Dispatch.{
  Request, list_clients, create_client, get_client, set_registrar_identity, set_registration, drive,
  set_webhook, set_allowed_origins, set_dcapi_request_mode, create_key, Outside, reply, Reply,
  dispatch, serve, run,
}
use eudi_api_registration.Routes.Governed.{
  Governed, then-Governed, get_full-same, Sets-Governed, Saves-Governed,
}

module _ (S : Store) (K : Contract S) (parse : UrlParser) where
  open K use {views, view, uses, Valid}

  list-Keeps : (want : Option String) → Keeps S K parse (api_list_clients S want)
  unfolding api_list_clients
  list-Keeps want s g =
      then-Governed S K parse S.list_clients_by_state _ s (λ _ _. refl) (rw (K.list_same s) g)

  get-Keeps : (id : String) → Keeps S K parse (api_get_client S id)
  unfolding api_get_client
  get-Keeps id s g =
      then-Governed S K parse (S.get_client_full id) _ s (λ _ _. refl)
        (rw (get_full-same S K parse id s) g)

  drive-Keeps :
      (id : String) (body : Option ApiTransitionRequest)
      → Keeps S K parse (api_transition S parse id body)
  unfolding api_transition
  drive-Keeps id none s g = g
  drive-Keeps id (some req) s g = elim (Bool-cases (req.target_state == "")) [
    | inl bad ↦ rw bad g
    | inr good ↦ rw good (
        then-Governed S K parse
          (transition S parse new_service id req.target_state "api" req.evidence_ref req.reason) _ s
          (λ _ _. refl)
          (transition-Keeps S K parse id req.target_state "api" req.evidence_ref req.reason s g))
  ]

  key-Keeps :
      (codecs : KeyCodecs) (source : List ℕ) (id : String)
      → Keeps S K parse (api_create_key S codecs source id)
  unfolding api_create_key
  key-Keeps codecs source id s g = elim (Option-cases (view s id)) [
    | inl missing ↦ rw (K.get_full id s, missing) g
    | inr (c, row) ↦ rw (K.get_full id s, row) (go c (mint codecs source))
  ]
    where
      go :
          (c : ClientFull) (r : Result MintedKey)
          → Governed S K parse
              ((when_ok r pure >>= λ key.
                  (S.create_api_key c.id key.prefix key.phc_hash
                    >> pure (
                        created {A = ApiKeyCreated} (record {
                          client_id = c.id;
                          prefix = key.prefix;
                          api_key = key.display_key;
                        }))))
                s).1
      go c (err e) = g
      go c (ok key) =
          let op = S.create_api_key c.id key.prefix key.phc_hash in
          then-Governed S K parse op _ s (λ _ _. refl)
            (Sets-Governed S K parse op s c.id _ (λ c d e. rw e (refl, refl))
              (K.key_lem c.id key.prefix key.phc_hash s) g)

  module _ (encoders : Encoders) (ulid : ℕ → String) (created_at : String) where
    some_use :
        (f : FormState) (out : WalletRelyingParty × List IntendedUse)
        → build parse encoders ulid created_at f ≡ passed out
        → f.intended_uses ≢ []
    unfolding build build_intended_uses
    some_use f out h = ground arith

    save-Keeps :
        (id : String) (f : FormState) (doc : WalletRelyingParty) (ius : List IntendedUse)
        → build parse encoders ulid created_at f ≡ passed (doc, ius)
        → Keeps S K parse (save_registration S parse encoders ulid created_at id doc ius)
    unfolding save_registration
    save-Keeps id f doc ius built s g = elim (Option-cases (encoders.encode_wrp doc)) [
      | inl bad ↦ rw (bad, save_registration) g
      | inr (doc_json, good) ↦
          rw (good, save_registration)
            (read_back-Governed S K parse (S.save_wrp_document id doc_json ius "api") (λ _. id) _ s
              (saved doc_json (Option-cases (view s id))))
    ]
      where
        saved :
            (doc_json : RawMessage)
            → (view s id ≡ none) ⊎ ((c : ClientFull) × (view s id ≡ some c))
            → Governed S K parse (S.save_wrp_document id doc_json ius "api" s).1
        saved doc_json (inl missing) = rw (K.save_missing id doc_json ius "api" s missing) g
        saved doc_json (inr (c, row)) =
            let facts =
              SameUses-facts ulid 0 f.intended_uses doc.intended_use ius
                (build-SameUses ulid parse encoders created_at f doc ius built) in
            Saves-Governed S K parse (S.save_wrp_document id doc_json ius "api") s id doc_json ius c
              (K.save_done id doc_json ius "api" s c row facts.0) row
              (λ e. some_use f (doc, ius) built (ground (arith, e, facts.2))) facts.1 g

    registration-Keeps :
        (id : String) (body : Option ApiRegistrationRequest)
        → Keeps S K parse (api_set_registration S parse encoders ulid created_at id body)
    unfolding api_set_registration save_built
    registration-Keeps id none s g = g
    registration-Keeps id (some req) s g =
        elim (Checked-cases (build parse encoders ulid created_at (to_form_state req))) [
          | inl ((doc, ius), e) ↦ rw e (save-Keeps id (to_form_state req) doc ius e s g)
          | inr (x, e) ↦ rw e g
        ]

module _ (S : Store) (K : Contract S) (out : Outside) where
  reply-Keeps :
      {A : Type 0} (wrap : A → Reply) (handler : Exec S.State A)
      → Keeps S K out.parse handler
      → Keeps S K out.parse (reply wrap handler)
  reply-Keeps wrap handler h s g = then-Governed S K out.parse handler _ s (λ _ _. refl) (h s g)

  dispatch-Keeps : (request : Request) → Keeps S K out.parse (dispatch S out request)
  unfolding dispatch
  dispatch-Keeps (list_clients want) = reply-Keeps _ _ (list-Keeps S K out.parse want)
  dispatch-Keeps (create_client body) = reply-Keeps _ _ (create-Keeps S K out.parse body)
  dispatch-Keeps (get_client id) = reply-Keeps _ _ (get-Keeps S K out.parse id)
  dispatch-Keeps (set_registrar_identity id body) =
      reply-Keeps _ _ (identity-Keeps S K out.parse id body)
  dispatch-Keeps (set_registration id body ulid created_at) =
      reply-Keeps _ _ (registration-Keeps S K out.parse out.encoders ulid created_at id body)
  dispatch-Keeps (drive id body) = reply-Keeps _ _ (drive-Keeps S K out.parse id body)
  dispatch-Keeps (set_webhook id body) = reply-Keeps _ _ (webhook-Keeps S K out.parse id body)
  dispatch-Keeps (set_allowed_origins id body) =
      reply-Keeps _ _ (origins-Keeps S K out.parse id body)
  dispatch-Keeps (set_dcapi_request_mode id body) =
      reply-Keeps _ _ (mode-Keeps S K out.parse out.matches id body)
  dispatch-Keeps (create_key id source) =
      reply-Keeps _ _ (key-Keeps S K out.parse out.codecs source id)

  serve-Keeps :
      (want got : String) (request : Request) → Keeps S K out.parse (serve S out want got request)
  unfolding serve require_api_key
  serve-Keeps want got request s g = elim (Bool-cases (want == "" || not (got == want))) [
    | inl bad ↦ rw bad g
    | inr good ↦ rw good (dispatch-Keeps request s g)
  ]

  -- A run of the service over any requests, with any keys and bodies, keeps a registry governed: when
  -- every client that is active or suspended has a recorded registrar identity with an absolute https
  -- URL and an intended use that is not revoked, this is still so after the last request.
  pub run-Governed :
      (want : String) (requests : List (String × Request)) (s : S.State)
      → Governed S K out.parse s
      → Governed S K out.parse (run S out want requests s)
  unfolding run
  run-Governed want [] s g = g
  run-Governed want ((got, request) ∷ rest) s g =
      run-Governed want rest (serve S out want got request s).1 (serve-Keeps want got request s g)
