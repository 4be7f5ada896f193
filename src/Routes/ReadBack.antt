-- ===== src/Routes/ReadBack.antt =====
-- What the replies of the setters say of the store that they leave (routes/api.go).
use eudi_api_registration.Base.{
  String, true, ◌≡◌, refl, ap, ◌∙◌, some, List, ◌==◌, all, arith, eq_refl, if◌then◌else◌,
  Bool-cases, inl, inr, Result, ok, Exec, pure, ◌>>=◌, ◌>>◌,
}
use eudi_api_registration.Registry.{ClientFull}
use eudi_api_registration.Registry.Store.{Store}
use eudi_api_registration.Registry.Contract.{Contract, Sets, refused, wrote}
use eudi_api_registration.Url.{UrlParser, is_web_origin}
use eudi_api_registration.Routes.{Response, json}
use eudi_api_registration.Routes.Settings.{
  ApiWebhookRequest, ApiClientWebhookState, ApiClientOriginsState, set_origins, api_set_webhook,
  api_set_allowed_origins,
}

module _ (S : Store) (K : Contract S) where
  open K use {views, view, uses, Valid}

  -- One row has become another, and no other row and no intended use has changed.
  pub record Changed (s t : S.State) (id : String) (c d : ClientFull) : Type 0 where
    pub was : view s id ≡ some c
    pub row : (j : String) → view t j ≡ (if id == j then some d else view s j)
    pub same_uses : (j : String) → uses t j ≡ uses s j

  -- A setter with its read back, once it has answered.
  record Answered {A : Type 0} (op : Exec S.State A) (s : S.State) (id : String)
      (Q : ClientFull → ClientFull → Type 0) (k : ClientFull → A) (reply : A) : Type 0 where
    before : ClientFull
    after : ClientFull
    related : Q before after
    changed : Changed s (op s).1 id before after
    answer : reply ≡ k after

  Sets-Answered :
      {A : Type 0} (op : Exec S.State (Unit {0})) (id : String) (k : ClientFull → A) (s : S.State)
      (Q : ClientFull → ClientFull → Type 0) (reply : A)
      → Sets views op s id Q
      → ((op >> (S.get_client_full id >>= λ full. pure (k full))) s).0 ≡ ok reply
      → Answered (op >> (S.get_client_full id >>= λ full. pure (k full))) s id Q k reply
  Sets-Answered op id k s Q reply (refused e h) good = absurd (cc (rw h at good))
  Sets-Answered {A} op id k s Q reply (wrote c d row q w) good =
      let both : (op >> (S.get_client_full id >>= λ full. pure (k full))) s ≡ (ok (k d), (op s).1) =
        rw (w.succeeds, K.get_full id (op s).1, w.row id, eq_refl id) refl in
      let said : k d ≡ reply = ground (arith, ap (λ (r : Result A × S.State). r.0) both, good) in
      record {
        before = c;
        after = d;
        related = q;
        changed = rw both (record { was = row; row = w.row; same_uses = w.same_uses });
        answer = ground (arith, said);
      }

  -- A webhook request that is answered with success has set the client's webhook to the URL of the
  -- request and changed nothing else of any row or intended use, and the reply has that URL and the
  -- client's unchanged state.
  pub webhook_reads_back :
      (id : String) (req : ApiWebhookRequest) (s : S.State) (reply : Response ApiClientWebhookState)
      → (api_set_webhook S id (some req) s).0 ≡ ok reply
      → (c : ClientFull) × Changed s
          (api_set_webhook S id (some req) s).1
          id
          c
          (record c { default_webhook = req.webhook_url })
        × (reply ≡ json (record { id = id; state = c.status; webhook_url = req.webhook_url }))
  unfolding api_set_webhook
  webhook_reads_back id req s reply good = elim (Bool-cases (req.webhook_url == "")) [
    | inl bad ↦ absurd (cc (rw bad at good))
    | inr named ↦
        let a =
          Sets-Answered (S.set_client_webhook id req.webhook_url "api") id
            (λ full.
              json {A = ApiClientWebhookState}
                (record { id = id; state = full.status; webhook_url = full.default_webhook }))
            s _ reply (K.webhook_lem id req.webhook_url "api" s) (rw named at good) in
        rw named (a.before, rw (← a.related) a.changed, a.answer ∙ rw a.related refl)
  ]

  -- A request for allowed origins that is answered with success has only bare https origins, has set
  -- the client's origins to exactly those and changed nothing else of any row or intended use, and the
  -- reply has them and the client's unchanged state.
  pub origins_reads_back :
      (parse : UrlParser) (id : String) (origins : List String) (s : S.State)
      (reply : Response ApiClientOriginsState)
      → let op =
          api_set_allowed_origins S parse id (some (record { allowed_origins = some origins })) in
        (op s).0 ≡ ok reply
        → (all (is_web_origin parse) origins ≡ true)
          × (c : ClientFull) × Changed s (op s).1 id c (record c { allowed_origins = origins })
          × (reply ≡ json (record { id = id; state = c.status; allowed_origins = origins }))
  unfolding api_set_allowed_origins set_origins
  origins_reads_back parse id origins s reply good =
      elim (Bool-cases (all (is_web_origin parse) origins)) [
        | inr bad ↦ absurd (cc (rw bad at good))
        | inl bare ↦
            let a =
              Sets-Answered (S.set_client_allowed_origins id origins "api") id
                (λ full.
                  json {A = ApiClientOriginsState} (record {
                    id = id;
                    state = full.status;
                    allowed_origins = full.allowed_origins;
                  }))
                s _ reply (K.origins_lem id origins "api" s) (rw bare at good) in
            (bare, a.before, rw bare (rw (← a.related) a.changed), a.answer ∙ rw a.related refl)
      ]
