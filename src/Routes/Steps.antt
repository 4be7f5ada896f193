-- ===== src/Routes/Steps.antt =====
-- The handlers that write, one by one, on a governed registry (routes).
use mathlib.Core.Path.{subst}
use eudi_api_registration.Base.{
  String, true, false, not, ◌&&◌, ◌||◌, ◌≡◌, ◌≢◌, ◌⊎◌, refl, ◌∙◌, inl, inr, Option, none, some,
  List, ◌==◌, all, arith, eq_iff, Bool-cases, Option-cases, ok, Exec, pure, ◌>>=◌,
}
use eudi_api_registration.Registry.{ClientFull}
use eudi_api_registration.Registry.Store.{Store}
use eudi_api_registration.Registry.States.{IsEdge, IsEdge-suspended}
use eudi_api_registration.Registry.Contract.{Contract}
use eudi_api_registration.Lifecycle.{new_service, transition, any_non_revoked, has_identity}
use eudi_api_registration.Lifecycle.Outcome.{
  Outcome, refused, moved, retried, stranded, transition-Outcome,
}
use eudi_api_registration.Lifecycle.Activation.{live_iff, activate_iff}
use eudi_api_registration.Url.{UrlParser, is_absolute_https_url, is_web_origin}
use eudi_api_registration.Routes.Clients.{ApiCreateRequest, api_create_client}
use eudi_api_registration.Routes.Settings.{
  FieldMatcher, ApiWebhookRequest, ApiAllowedOriginsRequest, ApiDcapiModeRequest,
  ApiRegistrarIdentityRequest, set_origins, set_mode, api_set_webhook, api_set_allowed_origins,
  api_set_dcapi_request_mode, api_set_registrar_identity,
}
use eudi_api_registration.Routes.Governed.{
  Governed, then-same, then-Governed, get_full-same, Writes-Governed, Sets-Governed,
  Creates-Governed,
}

module _ (S : Store) (K : Contract S) (parse : UrlParser) where
  open K use {views, view, uses, Valid}

  abbrev pub Keeps {ℓ} : {A : Type ℓ} → Exec S.State A → Type 0
  Keeps op = (s : S.State) → Governed S K parse s → Governed S K parse (op s).1

  -- What is computed from a row that is read back does not move the state.
  read_back-same {ℓ κ} :
      {A : Type ℓ} {B : Type κ} (op : Exec S.State B) (id : B → String) (k : B → ClientFull → A)
      (s : S.State)
      → ((op >>= λ b. (S.get_client_full (id b) >>= λ full. pure (k b full))) s).1 ≡ (op s).1
  read_back-same op id k s = then-same S K parse op _ s (λ b t.
      then-same S K parse (S.get_client_full (id b)) (λ full. pure (k b full)) t (λ _ _. refl)
      ∙ get_full-same S K parse (id b) t)

  pub read_back-Governed {ℓ κ} :
      {A : Type ℓ} {B : Type κ} (op : Exec S.State B) (id : B → String) (k : B → ClientFull → A)
      (s : S.State)
      → Governed S K parse (op s).1
      → Governed S K parse
          ((op >>= λ b. (S.get_client_full (id b) >>= λ full. pure (k b full))) s).1
  read_back-Governed op id k s g = rw (read_back-same op id k s) g

  identity_of :
      (c : ClientFull)
      → c.client_identifier ≢ ""
      → is_absolute_https_url parse c.registry_uri ≡ true
      → has_identity parse c ≡ true
  unfolding has_identity
  identity_of c named https = ground (arith, eq_iff c.client_identifier "")

  pub transition-Keeps :
      (id to actor ref reason : String)
      → Keeps (transition S parse new_service id to actor ref reason)
  transition-Keeps id to actor ref reason s g =
      go (transition-Outcome S K parse new_service id to actor ref reason s)
    where
      op : Exec S.State (Unit {0})
      op = transition S parse new_service id to actor ref reason

      activated :
          (c : ClientFull)
          → view s id ≡ some c
          → (op s).0 ≡ ok tt
          → to ≡ "active"
          → (has_identity parse c ≡ true) × (any_non_revoked (uses s id) ≡ true)
      activated c row good e =
          let ready = (activate_iff S K parse new_service id actor ref reason s c row g.valid).0 (
            subst
              (λ (t : String). (transition S parse new_service id t actor ref reason s).0 ≡ ok tt) e
              good) in
          (identity_of c ready.identified ready.https, (live_iff (uses s id)).1 ready.live_use)

      in_service :
          (c : ClientFull)
          → view s id ≡ some c
          → K.legal c.status to ≡ true
          → (op s).0 ≡ ok tt
          → (to ≡ "active") ⊎ (to ≡ "suspended")
          → (has_identity parse (record c { status = to }) ≡ true)
            × (any_non_revoked (uses s id) ≡ true)
      in_service c row legal good (inl e) =
          let t = activated c row good e in (unfold has_identity in t.0, t.1)
      in_service c row legal good (inr e) =
          let edge = (K.legal_iff c.status to).0 legal in
          let t =
            g.backed id c row (inl (IsEdge-suspended c.status (subst (IsEdge c.status) e edge))) in
          (unfold has_identity in t.0, t.1)

      go : Outcome S K op s id to actor ref reason → Governed S K parse (op s).1
      go (refused e h) = rw h g
      go (retried c row off target how w) =
          Writes-Governed S K parse op s id c w (g.backed id c row) g
      go (moved c row legal how w) =
          Writes-Governed S K parse op s id (record c { status = to }) w
            (λ live. in_service c row legal w.succeeds live) g
      go (stranded e c row legal target how) =
          let w = K.transition_legal id to actor ref reason s c row legal in
          rw how (
            Writes-Governed S K parse (S.transition_client id to actor ref reason) s id
              (record c { status = to }) w
              (λ live. ground (
                arith,
                live,
                target,
                eq_iff "active" "offboarded",
                eq_iff "suspended" "offboarded",
              ))
              g)

  pub create-Keeps : (body : Option ApiCreateRequest) → Keeps (api_create_client S body)
  unfolding api_create_client
  create-Keeps none s g = g
  create-Keeps (some req) s g = elim (Bool-cases (req.name == "")) [
    | inl bad ↦ rw bad g
    | inr good ↦
        let op = S.create_draft_client req.name req.contact_email "api" in
        rw good (
          read_back-Governed op (λ id. id) _ s
            (Creates-Governed S K parse op s req.name
              (K.create_done req.name req.contact_email "api" s g.valid) g))
  ]

  pub webhook-Keeps :
      (id : String) (body : Option ApiWebhookRequest) → Keeps (api_set_webhook S id body)
  unfolding api_set_webhook
  webhook-Keeps id none s g = g
  webhook-Keeps id (some req) s g = elim (Bool-cases (req.webhook_url == "")) [
    | inl bad ↦ rw bad g
    | inr good ↦
        let op = S.set_client_webhook id req.webhook_url "api" in
        rw good (
          read_back-Governed op (λ _. id) _ s
            (Sets-Governed S K parse op s id _ (λ c d e. rw e (unfold has_identity in (refl, refl)))
              (K.webhook_lem id req.webhook_url "api" s) g))
  ]

  pub origins-Keeps :
      (id : String) (body : Option ApiAllowedOriginsRequest)
      → Keeps (api_set_allowed_origins S parse id body)
  unfolding api_set_allowed_origins set_origins
  origins-Keeps id none s g = g
  origins-Keeps id (some req) s g = go req.allowed_origins
    where
      go :
          (o : Option (List String))
          → Governed S K parse
              (api_set_allowed_origins S parse id (some (record { allowed_origins = o })) s).1
      go none = g
      go (some origins) = elim (Bool-cases (all (is_web_origin parse) origins)) [
        | inr bad ↦ rw bad g
        | inl good ↦
            let op = S.set_client_allowed_origins id origins "api" in
            rw good (
              read_back-Governed op (λ _. id) _ s
                (Sets-Governed S K parse op s id _
                  (λ c d e. rw e (unfold has_identity in (refl, refl)))
                  (K.origins_lem id origins "api" s) g))
      ]

  pub mode-Keeps :
      (matches : FieldMatcher) (id : String) (body : Option ApiDcapiModeRequest)
      → Keeps (api_set_dcapi_request_mode S matches id body)
  unfolding api_set_dcapi_request_mode set_mode
  mode-Keeps matches id none s g = g
  mode-Keeps matches id (some req) s g = go req.mode
    where
      go :
          (o : Option String)
          → Governed S K parse
              (api_set_dcapi_request_mode S matches id (some (record { mode = o })) s).1
      go none = g
      go (some mode) = elim (Bool-cases (not (mode == "signed") && not (mode == "unsigned"))) [
        | inl bad ↦ rw bad g
        | inr good ↦
            let op = S.set_client_dcapi_mode id mode "api" in
            rw good (
              read_back-Governed op (λ _. id) _ s
                (Sets-Governed S K parse op s id _
                  (λ c d e. rw e.1 (unfold has_identity in (refl, refl)))
                  (K.mode_lem id mode "api" s) g))
      ]

  pub identity-Keeps :
      (id : String) (body : Option ApiRegistrarIdentityRequest)
      → Keeps (api_set_registrar_identity S parse id body)
  unfolding api_set_registrar_identity
  identity-Keeps id none s g = g
  identity-Keeps id (some req) s g =
      elim (Bool-cases (req.registry_uri == "" || req.client_identifier == "")) [
        | inl bad ↦ rw bad g
        | inr named ↦ elim (Bool-cases (is_absolute_https_url parse req.registry_uri)) [
          | inr bad ↦ rw (named, bad) g
          | inl https ↦
              rw (named, https)
                (then-Governed S K parse op _ s (λ _ _. refl)
                  (written named https (Option-cases (view s id))))
        ]
      ]
    where
      op : Exec S.State (Unit {0})
      op = S.set_client_registrar_identity id req.registry_uri req.client_identifier "api"

      written :
          (req.registry_uri == "" || req.client_identifier == "") ≡ false
          → is_absolute_https_url parse req.registry_uri ≡ true
          → (view s id ≡ none) ⊎ ((c : ClientFull) × (view s id ≡ some c))
          → Governed S K parse (op s).1
      written named https (inl missing) =
          rw (K.identity_missing id req.registry_uri req.client_identifier "api" s missing) g
      written named https (inr (c, row)) =
          let d : ClientFull = record c {
            registry_uri = req.registry_uri;
            client_identifier = req.client_identifier;
          } in
          Writes-Governed S K parse op s id d
            (K.identity_done id req.registry_uri req.client_identifier "api" s c row)
            (λ live. (
              identity_of d (ground (arith, named, eq_iff req.client_identifier "")) https,
              (g.backed id c row live).1,
            ))
            g
