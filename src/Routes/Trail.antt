-- ===== src/Routes/Trail.antt =====
-- A relation between a state and a later one that every method of a store respects is respected by
-- every request and every run (routes).
use eudi_api_registration.Base.{◌≡◌, refl, arith, raise}
use eudi_api_registration.Base.{
  ℕ, String, Bool, true, false, not, ◌&&◌, ◌||◌, Option, none, some, List, [], ◌∷◌, ◌==◌, all,
  if◌then◌else◌, Option-cases, inl, inr, Result, ok, err, Error, new_problem, unauthorized, failure,
  Exec, pure, when_ok, ◌>>=◌, ◌>>◌,
}
use eudi_api_registration.Registry.{ClientFull, IntendedUse}
use eudi_api_registration.Registry.Store.{Store}
use eudi_api_registration.Json.{RawMessage}
use eudi_api_registration.Ts5.{Encoders, WalletRelyingParty}
use eudi_api_registration.Lifecycle.{
  Service, new_service, any_non_revoked, ts5_ok, may_activate, drive_edge,
  check_activation_preconditions, with_current, transition,
}
use eudi_api_registration.Wizard.{Checked, passed, failed}
use eudi_api_registration.Wizard.Assembly.{build}
use eudi_api_registration.Url.{UrlParser, is_absolute_https_url, is_web_origin}
use eudi_api_registration.Routes.{require_api_key, with_body, reject_if}
use eudi_api_registration.Routes.Dispatch.{
  Request, list_clients, create_client, get_client, set_registrar_identity, set_registration, drive,
  set_webhook, set_allowed_origins, set_dcapi_request_mode, create_key, Outside, dispatch, serve,
  run,
}
use eudi_api_registration.Routes.Clients.{
  api_list_clients, api_create_client, api_get_client, api_transition,
}
use eudi_api_registration.Routes.Keys.{
  KeyCodecs, read_full, prefix_raw_len, secret_raw_len, salt_len, mint, api_create_key,
}
use eudi_api_registration.Routes.Registration.{
  to_form_state, save_built, save_registration, api_set_registration,
}
use eudi_api_registration.Routes.Settings.{
  FieldMatcher, ApiAllowedOriginsRequest, ApiDcapiModeRequest, set_origins, set_mode,
  api_set_webhook, api_set_allowed_origins, api_set_dcapi_request_mode, api_set_registrar_identity,
}

-- The outcome of a call from a state: the state that it leaves is related to the one before, and its
-- error, if it fails, is one of those allowed.
pub record Step {St A : Type 0} (R : St → St → Type 0) (P : Error → Type 0) (s : St)
    (x : Result A × St) : Type 0 where
  pub after : R s x.1
  pub fails : (e : Error) → x.0 ≡ err e → P e

-- What every method that the routes call does.
pub record Respected (S : Store) (R : S.State → S.State → Type 0) (P : Error → Type 0)
    : Type 0 where
  pub transition_client :
      (id to actor ref reason : String) (s : S.State)
      → Step R P s (S.transition_client id to actor ref reason s)
  pub get_client_full : (id : String) (s : S.State) → Step R P s (S.get_client_full id s)
  pub list_clients_by_state : (s : S.State) → Step R P s (S.list_clients_by_state s)
  pub create_draft_client :
      (name email actor : String) (s : S.State)
      → Step R P s (S.create_draft_client name email actor s)
  pub set_client_registrar_identity :
      (id uri identifier actor : String) (s : S.State)
      → Step R P s (S.set_client_registrar_identity id uri identifier actor s)
  pub set_client_webhook :
      (id url actor : String) (s : S.State) → Step R P s (S.set_client_webhook id url actor s)
  pub set_client_allowed_origins :
      (id : String) (origins : List String) (actor : String) (s : S.State)
      → Step R P s (S.set_client_allowed_origins id origins actor s)
  pub set_client_dcapi_mode :
      (id mode actor : String) (s : S.State) → Step R P s (S.set_client_dcapi_mode id mode actor s)
  pub create_api_key :
      (id prefix hash : String) (s : S.State) → Step R P s (S.create_api_key id prefix hash s)
  pub save_wrp_document :
      (id : String) (doc : RawMessage) (ius : List IntendedUse) (actor : String) (s : S.State)
      → Step R P s (S.save_wrp_document id doc ius actor s)
  pub list_intended_uses : (id : String) (s : S.State) → Step R P s (S.list_intended_uses id s)
  pub purge_offboarded :
      (id actor : String) (s : S.State) → Step R P s (S.purge_offboarded id actor s)

abbrev pub failing : {A : Type 0} → Error → Result A
failing e = err e

pub same_error : {A : Type 0} {x y : Error} → failing {A = A} x ≡ failing y → x ≡ y
same_error h = ground (arith, h)

-- The errors that the routes and the service raise themselves.
pub record Allows (P : Error → Type 0) : Type 0 where
  pub body : P (new_problem "err:api:invalidBody")
  pub registration : P (new_problem "err:api:registrationInvalid")
  pub identity : P (new_problem "err:client:registrarIdentityRequired")
  pub intended_use : P (new_problem "err:client:intendedUseRequired")
  pub ts5_check : P (new_problem "err:client:ts5CheckFailed")
  pub gate : P unauthorized
  pub message : (m : String) → P (failure m)

module _ (S : Store) (R : S.State → S.State → Type 0) (stay : (s : S.State) → R s s)
    (join : (s t u : S.State) → R s t → R t u → R s u) (P : Error → Type 0) (W : Allows P)
    (M : Respected S R P) where
  -- A call that respects the relation and fails as is allowed, on every state.
  record Along {A : Type 0} (op : Exec S.State A) : Type 0 where
    step : (s : S.State) → Step R P s (op s)

  still : {A : Type 0} (a : A) → Along (pure a)
  still a = record { step = λ s. record { after = stay s; fails = λ e h. absurd (cc h) } }

  raising : {A : Type 0} (e : Error) → P e → Along {A = A} (raise e)
  raising e p = record {
    step = λ s. record { after = stay s; fails = λ x h. rw (← same_error h) p };
  }

  bind :
      {A B : Type 0} {m : Exec S.State A} {f : A → Exec S.State B}
      → Along m
      → ((a : A) → Along (f a))
      → Along (m >>= f)
  bind {A = A} {B = B} {m = m} {f = f} h k = record {
    step = λ s. go s (m s).0 (m s).1 (h.step s).after (h.step s).fails;
  }
    where
      go :
          (s : S.State) (r : Result A) (t : S.State)
          → R s t
          → ((e : Error) → r ≡ err e → P e)
          → Step {A = B} R P s (when_ok r f t)
      go s (ok a) t first bad = record {
        after = join s t _ first ((k a).step t).after;
        fails = ((k a).step t).fails;
      }
      go s (err e) t first bad = record {
        after = first;
        fails = λ x h. rw (← same_error h) (bad e refl);
      }

  body :
      {Q A : Type 0} (b : Option Q) (f : Q → Exec S.State A)
      → ((q : Q) → Along (f q))
      → Along (with_body b f)
  body none f h = raising _ W.body
  body (some q) f h = h q

  rejecting :
      {A : Type 0} (bad : Bool) (rest : Exec S.State A) → Along rest → Along (reject_if bad rest)
  rejecting true rest h = raising _ W.body
  rejecting false rest h = h

  choosing :
      {A : Type 0} (b : Bool) (m n : Exec S.State A)
      → Along m
      → Along n
      → Along (if b then m else n)
  choosing true m n h k = h
  choosing false m n h k = k

  list_clients_by_state-Along : Along S.list_clients_by_state
  list_clients_by_state-Along = record { step = M.list_clients_by_state }

  transition_client-Along :
      (id to actor ref reason : String) → Along (S.transition_client id to actor ref reason)
  transition_client-Along id to actor ref reason = record {
    step = M.transition_client id to actor ref reason;
  }

  get_client_full-Along : (id : String) → Along (S.get_client_full id)
  get_client_full-Along id = record { step = M.get_client_full id }

  create_draft_client-Along :
      (name email actor : String) → Along (S.create_draft_client name email actor)
  create_draft_client-Along name email actor = record {
    step = M.create_draft_client name email actor;
  }

  set_client_registrar_identity-Along :
      (id uri identifier actor : String)
      → Along (S.set_client_registrar_identity id uri identifier actor)
  set_client_registrar_identity-Along id uri identifier actor = record {
    step = M.set_client_registrar_identity id uri identifier actor;
  }

  set_client_webhook-Along : (id url actor : String) → Along (S.set_client_webhook id url actor)
  set_client_webhook-Along id url actor = record { step = M.set_client_webhook id url actor }

  set_client_allowed_origins-Along :
      (id : String) (origins : List String) (actor : String)
      → Along (S.set_client_allowed_origins id origins actor)
  set_client_allowed_origins-Along id origins actor = record {
    step = M.set_client_allowed_origins id origins actor;
  }

  set_client_dcapi_mode-Along :
      (id mode actor : String) → Along (S.set_client_dcapi_mode id mode actor)
  set_client_dcapi_mode-Along id mode actor = record {
    step = M.set_client_dcapi_mode id mode actor;
  }

  create_api_key-Along : (id prefix hash : String) → Along (S.create_api_key id prefix hash)
  create_api_key-Along id prefix hash = record { step = M.create_api_key id prefix hash }

  save_wrp_document-Along :
      (id : String) (doc : RawMessage) (ius : List IntendedUse) (actor : String)
      → Along (S.save_wrp_document id doc ius actor)
  save_wrp_document-Along id doc ius actor = record { step = M.save_wrp_document id doc ius actor }

  list_intended_uses-Along : (id : String) → Along (S.list_intended_uses id)
  list_intended_uses-Along id = record { step = M.list_intended_uses id }

  purge_offboarded-Along : (id actor : String) → Along (S.purge_offboarded id actor)
  purge_offboarded-Along id actor = record { step = M.purge_offboarded id actor }

  edge-Along : (id to actor ref reason : String) → Along (drive_edge S id to actor ref reason)
  unfolding drive_edge
  edge-Along id to actor ref reason =
      bind (transition_client-Along id to actor ref reason)
        (λ _. choosing (to == "offboarded") _ _ (purge_offboarded-Along id actor) (still _))

  check-Along :
      (parse : UrlParser) (svc : Service) (c : ClientFull)
      → Along (check_activation_preconditions S parse svc c)
  unfolding check_activation_preconditions
  check-Along parse svc c =
      choosing (c.client_identifier == "" || not (is_absolute_https_url parse c.registry_uri)) _ _
        (raising _ W.identity)
        (bind (list_intended_uses-Along c.id) (λ ius.
          choosing (not (any_non_revoked ius)) _ _ (raising _ W.intended_use)
            (choosing (not (ts5_ok svc c.id)) _ _ (raising _ W.ts5_check) (still _))))

  current-Along :
      (parse : UrlParser) (svc : Service) (id to actor ref reason : String) (c : ClientFull)
      → Along (with_current S parse svc id to actor ref reason c)
  unfolding with_current
  current-Along parse svc id to actor ref reason c =
      bind
        (choosing (to == "active" && may_activate c.status) _ _ (check-Along parse svc c) (still _))
        (λ _.
          choosing (to == "offboarded" && c.status == "offboarded") _ _
            (purge_offboarded-Along id actor) (edge-Along id to actor ref reason))

  transition-Along :
      (parse : UrlParser) (svc : Service) (id to actor ref reason : String)
      → Along (transition S parse svc id to actor ref reason)
  unfolding transition
  transition-Along parse svc id to actor ref reason =
      choosing (to == "active" || to == "offboarded") _ _
        (bind (get_client_full-Along id) (current-Along parse svc id to actor ref reason))
        (edge-Along id to actor ref reason)

  -- A setter, its read back, and a reply.
  reading :
      {A : Type 0} (op : Exec S.State (Unit {0})) (id : String) (f : ClientFull → A)
      → Along op
      → Along (op >> (S.get_client_full id >>= λ full. pure (f full)))
  reading op id f h = bind h (λ _. bind (get_client_full-Along id) (λ full. (still _)))

  lifted : {A : Type 0} (r : Result A) → ((e : Error) → r ≡ err e → P e) → Along (when_ok r pure)
  lifted (ok a) h = still a
  lifted (err e) h = raising e (h e refl)

  mint-Along : (codecs : KeyCodecs) (source : List ℕ) → Along (when_ok (mint codecs source) pure)
  unfolding mint
  mint-Along codecs source = elim (Option-cases (read_full prefix_raw_len source)) [
    | inl short ↦ rw (short, mint) (raising _ (W.message "apikeys: mint prefix"))
    | inr ((prefix_raw, source1), first) ↦ elim (Option-cases (read_full secret_raw_len source1)) [
      | inl short ↦ rw (first, mint) (rw short (raising _ (W.message "apikeys: mint secret")))
      | inr ((secret_raw, source2), second) ↦ elim (Option-cases (read_full salt_len source2)) [
        | inl short ↦
            rw (first, mint) (rw second (rw short (raising _ (W.message "apikeys: mint salt"))))
        | inr ((salt, source3), third) ↦ rw (first, mint) (rw second (rw third (still _)))
      ]
    ]
  ]

  built-Along :
      (parse : UrlParser) (encoders : Encoders) (ulid : ℕ → String) (created_at id : String)
      (x : Checked (WalletRelyingParty × List IntendedUse))
      → Along (save_built S parse encoders ulid created_at id x)
  unfolding save_built save_registration
  built-Along parse encoders ulid created_at id (failed e) = raising _ W.registration
  built-Along parse encoders ulid created_at id (passed (doc, ius)) =
      elim (Option-cases (encoders.encode_wrp doc)) [
        | inl absent ↦ rw (absent, save_built, save_registration) (raising _ (W.message "json"))
        | inr (doc_json, e) ↦
            rw (e, save_built, save_registration)
              (reading _ id _ (save_wrp_document-Along id doc_json ius "api"))
      ]

  set_origins-Along :
      (parse : UrlParser) (id : String) (origins : List String)
      → Along (set_origins S parse id origins)
  unfolding set_origins
  set_origins-Along parse id origins =
      rejecting (not (all (is_web_origin parse) origins)) _
        (reading _ id _ (set_client_allowed_origins-Along id origins "api"))

  set_mode-Along : (matches : FieldMatcher) (id mode : String) → Along (set_mode S matches id mode)
  unfolding set_mode
  set_mode-Along matches id mode =
      rejecting (not (mode == "signed") && not (mode == "unsigned")) _
        (reading _ id _ (set_client_dcapi_mode-Along id mode "api"))

  origins-Along :
      (parse : UrlParser) (id : String) (b : Option ApiAllowedOriginsRequest)
      → Along (api_set_allowed_origins S parse id b)
  unfolding api_set_allowed_origins
  origins-Along parse id none = raising _ W.body
  origins-Along parse id (some req) = elim (Option-cases req.allowed_origins) [
    | inl absent ↦ rw (absent, api_set_allowed_origins) (raising _ W.body)
    | inr (origins, e) ↦ rw (e, api_set_allowed_origins) (set_origins-Along parse id origins)
  ]

  mode-Along :
      (matches : FieldMatcher) (id : String) (b : Option ApiDcapiModeRequest)
      → Along (api_set_dcapi_request_mode S matches id b)
  unfolding api_set_dcapi_request_mode
  mode-Along matches id none = raising _ W.body
  mode-Along matches id (some req) = elim (Option-cases req.mode) [
    | inl absent ↦ rw (absent, api_set_dcapi_request_mode) (raising _ W.body)
    | inr (mode, e) ↦ rw (e, api_set_dcapi_request_mode) (set_mode-Along matches id mode)
  ]

  dispatch-Along : (out : Outside) (request : Request) → Along (dispatch S out request)
  unfolding dispatch api_list_clients api_create_client api_get_client api_transition api_create_key
      api_set_webhook api_set_registrar_identity api_set_registration save_built save_registration
  dispatch-Along out (list_clients want) =
      bind (bind list_clients_by_state-Along (λ _. (still _))) (λ _. (still _))
  dispatch-Along out (create_client b) =
      bind
        (body b _ (λ req. rejecting (req.name == "") _ (
          bind (create_draft_client-Along req.name req.contact_email "api")
            (λ id. bind (get_client_full-Along id) (λ _. (still _))))))
        (λ _. (still _))
  dispatch-Along out (get_client id) =
      bind (bind (get_client_full-Along id) (λ _. (still _))) (λ _. (still _))
  dispatch-Along out (set_registrar_identity id b) =
      bind
        (body b _ (λ req. rejecting (req.registry_uri == "" || req.client_identifier == "") _ (
          rejecting (not (is_absolute_https_url out.parse req.registry_uri)) _ (
            bind
              (set_client_registrar_identity-Along id req.registry_uri req.client_identifier "api")
              (λ _. still _)))))
        (λ _. still _)
  dispatch-Along out (set_registration id b ulid created_at) =
      bind
        (body b _ (λ req.
          built-Along out.parse out.encoders ulid created_at id
            (build out.parse out.encoders ulid created_at (to_form_state req))))
        (λ _. still _)
  dispatch-Along out (drive id b) =
      bind
        (body b _ (λ req. rejecting (req.target_state == "") _ (
          bind
            (transition-Along out.parse new_service id req.target_state "api" req.evidence_ref
              req.reason)
            (λ _. still _))))
        (λ _. still _)
  dispatch-Along out (set_webhook id b) =
      bind
        (body b _ (λ req.
          rejecting (req.webhook_url == "") _
            (reading _ id _ (set_client_webhook-Along id req.webhook_url "api"))))
        (λ _. still _)
  dispatch-Along out (set_allowed_origins id b) = bind (origins-Along out.parse id b) (λ _. still _)
  dispatch-Along out (set_dcapi_request_mode id b) =
      bind (mode-Along out.matches id b) (λ _. still _)
  dispatch-Along out (create_key id source) =
      bind
        (bind (get_client_full-Along id) (λ full.
          bind (mint-Along out.codecs source)
            (λ key. bind (create_api_key-Along full.id key.prefix key.phc_hash) (λ _. still _))))
        (λ _. still _)

  serve-Along :
      (out : Outside) (want got : String) (request : Request) → Along (serve S out want got request)
  unfolding serve require_api_key
  serve-Along out want got request =
      choosing (want == "" || not (got == want)) _ _ (raising _ W.gate) (dispatch-Along out request)

  -- A request fails only with an error that is allowed.
  pub serve_fails :
      (out : Outside) (want got : String) (request : Request) (s : S.State) (e : Error)
      → (serve S out want got request s).0 ≡ err e
      → P e
  serve_fails out want got request s e h = ((serve-Along out want got request).step s).fails e h

  -- If every method of a store respects a relation that is reflexive and transitive, so does every run
  -- of requests, whatever their keys and bodies are.
  pub run_respects :
      (out : Outside) (want : String) (requests : List (String × Request)) (s : S.State)
      → R s (run S out want requests s)
  unfolding run
  run_respects out want [] s = stay s
  run_respects out want ((got, request) ∷ rest) s =
      join s (serve S out want got request s).1 _ ((serve-Along out want got request).step s).after
        (run_respects out want rest (serve S out want got request s).1)
