-- ===== src/Fake/Setters.antt =====
-- The setters of the in-memory store against the contract (internal/registrydb/fake.go).
use eudi_api_registration.Base.{
  String, true, false, not, ◌||◌, ◌≡◌, refl, some, List, [], ◌∷◌, ◌==◌, all, length, ltb, arith,
  eq_iff, if◌then◌else◌, Bool-cases, Option-cases, inl, inr, Result, ok, err, from_result_code,
  Exec,
}
use eudi_api_registration.Base.GoMap
use eudi_api_registration.Base.GoMap.{get-put}
use eudi_api_registration.Json.{RawMessage, text, obj, end, member, arr, strings, string_detail}
use eudi_api_registration.Registry.{ClientFull}
use eudi_api_registration.Registry.States.{State, name}
use eudi_api_registration.Registry.Contract.{Writes, Sets, refused, wrote}
use eudi_api_registration.Fake.{Fake, audit}
use eudi_api_registration.Fake.Clients.{
  is_legal, transition_client, transition_detail, create_api_key, with_key,
}
use eudi_api_registration.Fake.Settings.{
  set_client_registrar_identity, set_client_webhook, set_client_allowed_origins,
  set_client_dcapi_mode, webhook_url_pattern, web_origin_pattern, merge_mode,
}
use eudi_api_registration.Fake.Evidence.{purge_offboarded, purge_row}
use eudi_api_registration.Fake.Store.{fake_views, IsValid, uses_of}
use eudi_api_registration.Fake.Lawful.{is_legal-IsEdge, IsValid-same, write_audited-Writes}

-- The row of a client that has been looked up has a known status.
status_of :
    (id : String) (c : ClientFull) (f : Fake)
    → IsValid f
    → GoMap.get f.clients id ≡ some c
    → (t : State) × (c.status ≡ name t)
status_of id c f v row = (v.rows id c row).known_status

legal_status : (from to : String) → is_legal from to ≡ true → (t : State) × (to ≡ name t)
legal_status from to h = let e = is_legal-IsEdge from to h in (e.target, e.to_target)

-- A method by the state that it leaves.
pub Writes-of :
    (op : Exec Fake (Unit {0})) (f g : Fake) (id : String) (c : ClientFull)
    → op f ≡ (ok tt, g)
    → ((j : String) → GoMap.get g.clients j ≡ (if id == j then some c else GoMap.get f.clients j))
    → ((j : String) → uses_of g j ≡ uses_of f j)
    → (IsValid f → IsValid g)
    → Writes fake_views op f id c
Writes-of op f g id c e row uses valid = record {
  succeeds = rw e;
  row = λ j. rw e (row j);
  same_uses = λ j. rw e (uses j);
  valid = λ v. rw e (valid v);
}

-- A row that stays as it was.
pub row_kept :
    (f : Fake) (id : String) (c : ClientFull)
    → GoMap.get f.clients id ≡ some c
    → (j : String) → GoMap.get f.clients j ≡ (if id == j then some c else GoMap.get f.clients j)
row_kept f id c row j = ground (arith, eq_iff id j)

pub transition_legal :
    (id to actor ref reason : String) (f : Fake) (c : ClientFull)
    → GoMap.get f.clients id ≡ some c
    → is_legal c.status to ≡ true
    → Writes fake_views (transition_client id to actor ref reason) f id (record c { status = to })
unfolding transition_client
transition_legal id to actor ref reason f c row legal =
    write_audited-Writes id c (record c { status = to }) actor "client.transition"
      (transition_detail c.status to ref reason) f (transition_client id to actor ref reason)
      (rw (row, transition_client) (rw legal)) row refl (λ _. legal_status c.status to legal)

pub purge_done :
    (id actor : String) (f : Fake) (c : ClientFull)
    → GoMap.get f.clients id ≡ some c
    → (c.status == "offboarded") ≡ true
    → Writes fake_views (purge_offboarded id actor) f id c
unfolding purge_offboarded audit uses_of
purge_done id actor f c row off =
    Writes-of (purge_offboarded id actor) f
      (audit actor id "client.purge" (text (obj end))
        (record f { evidence = GoMap.update_all (purge_row id) f.evidence }))
      id c (rw (row, purge_offboarded) (rw off)) (row_kept f id c row) (λ j. refl)
      (IsValid-same f _ refl refl (omega arith))

pub identity_done :
    (id uri identifier actor : String) (f : Fake) (c : ClientFull)
    → GoMap.get f.clients id ≡ some c
    → Writes fake_views
        (set_client_registrar_identity id uri identifier actor)
        f
        id
        (record c { registry_uri = uri; client_identifier = identifier })
unfolding set_client_registrar_identity
identity_done id uri identifier actor f c row =
    write_audited-Writes id c (record c { registry_uri = uri; client_identifier = identifier })
      actor "client.set_registrar_identity"
      (string_detail (("client_identifier", identifier) ∷ ("registry_uri", uri) ∷ [])) f
      (set_client_registrar_identity id uri identifier actor)
      (rw (row, set_client_registrar_identity)) row refl (λ v. status_of id c f v row)

pub webhook_lem :
    (id url actor : String) (f : Fake)
    → Sets fake_views
        (set_client_webhook id url actor)
        f
        id
        (λ c d. d ≡ record c { default_webhook = url })
unfolding set_client_webhook
webhook_lem id url actor f = elim (Bool-cases (url == "" || not (webhook_url_pattern url))) [
  | inl bad ↦ refused (from_result_code "err:registry:invalid") (rw bad)
  | inr good ↦ elim (Option-cases (GoMap.get f.clients id)) [
    | inl missing ↦
        refused (from_result_code "err:registry:not_found")
          (rw good (rw (missing, set_client_webhook)))
    | inr (c, row) ↦
        wrote c (record c { default_webhook = url }) row refl
          (write_audited-Writes id c (record c { default_webhook = url }) actor "client.set_webhook"
            (string_detail (("webhook_url", url) ∷ [])) f (set_client_webhook id url actor)
            (rw (good) (rw (row, set_client_webhook))) row refl (λ v. status_of id c f v row))
  ]
]

pub origins_lem :
    (id : String) (origins : List String) (actor : String) (f : Fake)
    → Sets fake_views
        (set_client_allowed_origins id origins actor)
        f
        id
        (λ c d. d ≡ record c { allowed_origins = origins })
unfolding set_client_allowed_origins
origins_lem id origins actor f =
    elim (Bool-cases (ltb 20 (length origins) || not (all web_origin_pattern origins))) [
      | inl bad ↦ refused (from_result_code "err:registry:invalid") (rw bad)
      | inr good ↦ elim (Option-cases (GoMap.get f.clients id)) [
        | inl missing ↦
            refused (from_result_code "err:registry:not_found")
              (rw good (rw (missing, set_client_allowed_origins)))
        | inr (c, row) ↦
            wrote c (record c { allowed_origins = origins }) row refl
              (write_audited-Writes id c (record c { allowed_origins = origins }) actor
                "client.set_allowed_origins"
                (text (obj (member "allowed_origins" (arr (strings origins)) end))) f
                (set_client_allowed_origins id origins actor)
                (rw good (rw (row, set_client_allowed_origins))) row refl
                (λ v. status_of id c f v row))
      ]
    ]

mode_merged :
    (id mode actor : String) (f : Fake) (c : ClientFull) (merged : Result RawMessage)
    → not (mode == "signed" || mode == "unsigned") ≡ false
    → GoMap.get f.clients id ≡ some c
    → merge_mode f.float64 mode c.policy ≡ merged
    → Sets fake_views
        (set_client_dcapi_mode id mode actor)
        f
        id
        (λ c d. (p : RawMessage) × (d ≡ record c { policy = p }))
unfolding set_client_dcapi_mode
mode_merged id mode actor f c (err e) good row m =
    refused e (rw good (rw (row, set_client_dcapi_mode) (rw m)))
mode_merged id mode actor f c (ok p) good row m =
    wrote c (record c { policy = p }) row (p, refl)
      (write_audited-Writes id c (record c { policy = p }) actor "client.set_dcapi_mode"
        (string_detail (("mode", mode) ∷ [])) f (set_client_dcapi_mode id mode actor)
        (rw good (rw (row, set_client_dcapi_mode) (rw m))) row refl (λ v. status_of id c f v row))

pub mode_lem :
    (id mode actor : String) (f : Fake)
    → Sets fake_views
        (set_client_dcapi_mode id mode actor)
        f
        id
        (λ c d. (p : RawMessage) × (d ≡ record c { policy = p }))
unfolding set_client_dcapi_mode
mode_lem id mode actor f = elim (Bool-cases (not (mode == "signed" || mode == "unsigned"))) [
  | inl bad ↦ refused (from_result_code "err:registry:invalid") (rw bad)
  | inr good ↦ elim (Option-cases (GoMap.get f.clients id)) [
    | inl missing ↦
        refused (from_result_code "err:registry:not_found")
          (rw good (rw (missing, set_client_dcapi_mode)))
    | inr (c, row) ↦
        mode_merged id mode actor f c (merge_mode f.float64 mode c.policy) good row refl
  ]
]

pub key_lem :
    (id prefix hash : String) (f : Fake)
    → Sets fake_views (create_api_key id prefix hash) f id (λ c d. d ≡ c)
unfolding create_api_key uses_of
key_lem id prefix hash f = elim (Option-cases (GoMap.get f.clients id)) [
  | inl missing ↦ refused (from_result_code "err:registry:not_found") (rw (missing, create_api_key))
  | inr (c, row) ↦ wrote c c row refl (
      Writes-of (create_api_key id prefix hash) f (with_key id prefix hash f) id c
        (rw (row, create_api_key)) (row_kept f id c row) (λ j. refl)
        (IsValid-same f _ refl refl (omega arith)))
]
