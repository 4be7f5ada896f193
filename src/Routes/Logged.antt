-- ===== src/Routes/Logged.antt =====
-- The setters of a webhook and of allowed origins on the in-memory store, with all that they leave
-- (routes/api.go, internal/registrydb/fake.go).
use eudi_api_registration.Base.{
  String, true, not, ◌||◌, ◌≡◌, refl, some, List, [], ◌∷◌, ◌++◌, ◌==◌, all, ltb, length, Bool-cases,
  Option-cases, inl, inr, Result, ok, err, Exec, pure, when_ok, ◌>>=◌, ◌>>◌,
}
use eudi_api_registration.Base.GoMap
use eudi_api_registration.Json.{RawMessage, text, obj, member, end, arr, strings, string_detail}
use eudi_api_registration.Registry.{ClientFull}
use eudi_api_registration.Fake.{
  Fake, AuditLogEntry, write_audited, audit, touch, store_client, empty_detail,
}
use eudi_api_registration.Fake.Clients.{get_client_full}
use eudi_api_registration.Fake.Settings.{
  set_client_webhook, set_client_allowed_origins, webhook_url_pattern, web_origin_pattern,
}
use eudi_api_registration.Fake.Store.{fake_store}
use eudi_api_registration.Fake.Contract.{fake_contract, get_full}
use eudi_api_registration.Url.{UrlParser, is_web_origin}
use eudi_api_registration.Routes.{Response, json}
use eudi_api_registration.Routes.ReadBack.{Changed, webhook_reads_back, origins_reads_back}
use eudi_api_registration.Routes.Settings.{
  ApiWebhookRequest, ApiClientWebhookState, ApiClientOriginsState, set_origins, api_set_webhook,
  api_set_allowed_origins,
}

-- One audit entry by the API is new, and beside the rows of clients and their times nothing but the
-- counters has changed.
pub record Logged (f g : Fake) (id action : String) (detail : RawMessage) : Type 0 where
  pub entry : AuditLogEntry
  pub appended : g.audit_log ≡ f.audit_log ++ entry ∷ []
  pub by_api : entry.actor ≡ "api"
  pub about : entry.client_id ≡ id
  pub named : entry.action ≡ action
  pub told : entry.detail ≡ detail
  pub intended_uses : g.intended_uses ≡ f.intended_uses
  pub intended_use_order : g.intended_use_order ≡ f.intended_use_order
  pub evidence : g.evidence ≡ f.evidence
  pub deletion_requests : g.deletion_requests ≡ f.deletion_requests
  pub api_keys : g.api_keys ≡ f.api_keys

written-Logged :
    (id : String) (c : ClientFull) (action : String) (detail : RawMessage) (f : Fake)
    → empty_detail detail ≡ detail
    → Logged f (write_audited id c "api" action detail f) id action detail
unfolding write_audited audit touch store_client
written-Logged id c action detail f given = record {
  entry = _;
  appended = refl;
  by_api = refl;
  about = refl;
  named = refl;
  told = given;
  intended_uses = refl;
  intended_use_order = refl;
  evidence = refl;
  deletion_requests = refl;
  api_keys = refl;
}

webhook-Logged :
    (id url : String) (f : Fake)
    → (set_client_webhook id url "api" f).0 ≡ ok tt
    → Logged f
        (set_client_webhook id url "api" f).1
        id
        "client.set_webhook"
        (string_detail (("webhook_url", url) ∷ []))
unfolding set_client_webhook
webhook-Logged id url f good = elim (Bool-cases (url == "" || not (webhook_url_pattern url))) [
  | inl bad ↦ absurd (cc (rw bad at good))
  | inr fine ↦ elim (Option-cases (GoMap.get f.clients id)) [
    | inl missing ↦ absurd (cc (rw (missing, set_client_webhook) at rw fine at good))
    | inr (c, row) ↦
        rw fine
          (rw (row, set_client_webhook) (written-Logged id _ _ _ f (unfold empty_detail in refl)))
  ]
]

origins-Logged :
    (id : String) (origins : List String) (f : Fake)
    → (set_client_allowed_origins id origins "api" f).0 ≡ ok tt
    → Logged f
        (set_client_allowed_origins id origins "api" f).1
        id
        "client.set_allowed_origins"
        (text (obj (member "allowed_origins" (arr (strings origins)) end)))
unfolding set_client_allowed_origins
origins-Logged id origins f good =
    elim (Bool-cases (ltb 20 (length origins) || not (all web_origin_pattern origins))) [
      | inl bad ↦ absurd (cc (rw bad at good))
      | inr fine ↦ elim (Option-cases (GoMap.get f.clients id)) [
        | inl missing ↦ absurd (cc (rw (missing, set_client_allowed_origins) at rw fine at good))
        | inr (c, row) ↦ rw fine (
            rw (row, set_client_allowed_origins)
              (written-Logged id _ _ _ f (unfold empty_detail in refl)))
      ]
    ]

-- A setter with its read back leaves what the setter leaves, and succeeds only if the setter does.
set_then :
    {A : Type 0} (op : Exec Fake (Unit {0})) (id : String) (k : ClientFull → A) (f : Fake) (a : A)
    → ((op >> (get_client_full id >>= λ full. pure (k full))) f).0 ≡ ok a
    → ((op f).0 ≡ ok tt) × (((op >> (get_client_full id >>= λ full. pure (k full))) f).1 ≡ (op f).1)
set_then op id k f a good = (first (op f).0 (op f).1 good, same (op f).0 (op f).1)
  where
    first :
        (r : Result (Unit {0})) (g : Fake)
        → (when_ok r (λ _. (get_client_full id >>= λ full. pure (k full))) g).0 ≡ ok a
        → r ≡ ok tt
    first (ok u) g h = refl
    first (err e) g h = absurd (cc h)

    read_only : (g : Fake) → ((get_client_full id >>= λ full. pure (k full)) g).1 ≡ g
    read_only g = rw (get_full id g) (elim (Option-cases (GoMap.get g.clients id)) [
      | inl missing ↦ rw missing refl
      | inr (c, row) ↦ rw row refl
    ])

    same :
        (r : Result (Unit {0})) (g : Fake)
        → (when_ok r (λ _. (get_client_full id >>= λ full. pure (k full))) g).1 ≡ g
    same (ok u) g = read_only g
    same (err e) g = refl

-- A webhook request that the in-memory store answers with success has set the client's webhook to the
-- URL of the request, and no other field of its row and no other client's row; it has appended one
-- audit entry by the API that tells the URL; uses, evidence, keys and deletion requests are as they
-- were; and the reply has the URL and the client's unchanged state.
pub webhook_done :
    (id : String) (req : ApiWebhookRequest) (f : Fake) (reply : Response ApiClientWebhookState)
    → (api_set_webhook fake_store id (some req) f).0 ≡ ok reply
    → (c : ClientFull) × Changed fake_store fake_contract f
        (api_set_webhook fake_store id (some req) f).1
        id
        c
        (record c { default_webhook = req.webhook_url })
      × Logged f
          (api_set_webhook fake_store id (some req) f).1
          id
          "client.set_webhook"
          (string_detail (("webhook_url", req.webhook_url) ∷ []))
      × (reply ≡ json (record { id = id; state = c.status; webhook_url = req.webhook_url }))
unfolding api_set_webhook
webhook_done id req f reply good =
    let base = webhook_reads_back fake_store fake_contract id req f reply good in
    (
      base.0,
      base.1,
      elim (Bool-cases (req.webhook_url == "")) [
        | inl bad ↦ absurd (cc (rw bad at good))
        | inr named ↦
            let s =
              set_then (set_client_webhook id req.webhook_url "api") id _ f reply
                (rw named at good) in
            rw named (rw s.1 (webhook-Logged id req.webhook_url f s.0))
      ],
      base.2,
    )

-- A request for allowed origins that the in-memory store answers with success has only bare https
-- origins; it has set the client's origins to exactly those, and no other field of its row and no other
-- client's row; it has appended one audit entry by the API that tells them; uses, evidence, keys and
-- deletion requests are as they were; and the reply has them and the client's unchanged state.
pub origins_done :
    (parse : UrlParser) (id : String) (origins : List String) (f : Fake)
    (reply : Response ApiClientOriginsState)
    → let op =
        api_set_allowed_origins fake_store parse id
          (some (record { allowed_origins = some origins })) in
      (op f).0 ≡ ok reply
      → (all (is_web_origin parse) origins ≡ true)
        × (c : ClientFull) × Changed fake_store fake_contract f
            (op f).1
            id
            c
            (record c { allowed_origins = origins })
        × Logged f
            (op f).1
            id
            "client.set_allowed_origins"
            (text (obj (member "allowed_origins" (arr (strings origins)) end)))
        × (reply ≡ json (record { id = id; state = c.status; allowed_origins = origins }))
unfolding api_set_allowed_origins set_origins
origins_done parse id origins f reply good =
    let base = origins_reads_back fake_store fake_contract parse id origins f reply good in
    (
      base.0,
      base.1,
      base.2,
      elim (Bool-cases (all (is_web_origin parse) origins)) [
        | inr bad ↦ absurd (cc (rw bad at good))
        | inl bare ↦
            let s =
              set_then (set_client_allowed_origins id origins "api") id _ f reply
                (rw bare at good) in
            rw bare (rw s.1 (origins-Logged id origins f s.0))
      ],
      base.3,
    )
