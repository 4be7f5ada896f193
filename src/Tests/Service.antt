-- ===== src/Tests/Service.antt =====
-- The theorems on the service, at the onboarding run.
use mathlib.Core.List.{Memᴰ}
use eudi_api_registration.Base.{all}
use eudi_api_registration.Base.{
  String, true, ◌≡◌, ◌≢◌, ◌↔◌, refl, sym, ap, ◌∙◌, Option, none, failure, arith, eq_iff, inl, inr,
  some, [], ◌∷◌, ok, refuse,
}
use eudi_api_registration.Registry.{ClientFull, IntendedUse}
use eudi_api_registration.Url.{is_absolute_https_url, is_web_origin}
use eudi_api_registration.Lifecycle.{new_service, transition}
use eudi_api_registration.Lifecycle.Activation.{IsReady, activate_iff, activate_illegal}
use eudi_api_registration.Lifecycle.Verdict.{
  Reached, Stranded, transition_fails, transition-Reached,
}
use eudi_api_registration.Lifecycle.Offboarding.{offboard_again, offboard_resumes}
use eudi_api_registration.Base.GoMap
use eudi_api_registration.Fake.{Fake, new_fake}
use eudi_api_registration.Fake.Store.{fake_store, uses_of, IsValid}
use eudi_api_registration.Fake.Contract.{fake_contract}
use eudi_api_registration.Routes.{json, Response}
use eudi_api_registration.Routes.Settings.{
  ApiClientWebhookState, ApiClientOriginsState, api_set_webhook, api_set_allowed_origins,
}
use eudi_api_registration.Routes.ReadBack.{Changed}
use eudi_api_registration.Routes.Logged.{Logged, webhook_done, origins_done}
use eudi_api_registration.Json.{text, obj, member, end, arr, strings, string_detail}
use eudi_api_registration.Routes.Registration.{api_set_registration}
use eudi_api_registration.Routes.Registration.Outcome.{IsRegistered, registration_stores}
use eudi_api_registration.Routes.Fresh.{in_service-backed, new_fake-Governed}
use eudi_api_registration.Routes.Governed.{Governed}
use eudi_api_registration.Routes.Runs.{run-Governed}
use eudi_api_registration.Fake.Setters.{purge_done}
use eudi_api_registration.Tests.{
  parse, encoders, ulid, clock, float64, outside, registration, first_id, create, filing,
  onboarding, after,
}
use eudi_api_registration.Tests.Faulty.{faulty_store, faulty_contract}
use eudi_api_registration.Tests.Runs.{
  active_client, registered_client, onboarded, filed, filed-IsValid, activation_succeeds,
  offboarding_succeeds, registration_succeeds, webhook_succeeds, origins_succeed, purge_spoils,
  left_offboarded,
}

in_service-backed_example :
    (active_client.client_identifier ≢ "")
    × (is_absolute_https_url parse active_client.registry_uri ≡ true)
    × ((iu : IntendedUse) × Memᴰ iu (uses_of (after onboarding) first_id) × (iu.revoked_at ≡ ""))
in_service-backed_example =
    in_service-backed outside clock float64 "k" onboarding first_id active_client onboarded
      (inl refl)

activate_iff_example :
    ((transition fake_store parse new_service first_id "active" "api" "" "" (after filing)).0
      ≡ ok tt)
    ↔ IsReady parse new_service first_id registered_client (uses_of (after filing) first_id)
activate_iff_example =
    activate_iff fake_store fake_contract parse new_service first_id "api" "" "" (after filing)
      registered_client filed filed-IsValid

transition-Reached_example :
    Reached fake_store fake_contract
      (transition fake_store parse new_service first_id "active" "api" "" "")
      (after filing)
      first_id
      "active"
      "api"
      ""
      ""
transition-Reached_example =
    transition-Reached fake_store fake_contract parse new_service first_id "active" "api" "" ""
      (after filing) activation_succeeds

created-IsValid : IsValid (after (create ∷ []))
created-IsValid =
    (run-Governed fake_store fake_contract outside "k" (create ∷ []) (new_fake clock float64)
      (new_fake-Governed outside clock float64)).valid

registration_stores_example :
    IsRegistered fake_store fake_contract parse encoders ulid "2024-01-01" first_id registration
      (after (create ∷ []))
      (api_set_registration fake_store parse encoders ulid "2024-01-01" first_id
        (some registration)
        (after (create ∷ []))).1
      (json (record { id = first_id; state = "draft"; intended_uses = 1 }))
registration_stores_example =
    registration_stores fake_store fake_contract parse encoders ulid "2024-01-01" first_id
      registration (after (create ∷ []))
      (json (record { id = first_id; state = "draft"; intended_uses = 1 })) created-IsValid
      registration_succeeds

abbrev LeftOffboarded : Type 0
LeftOffboarded =
    Stranded faulty_store faulty_contract
      (transition faulty_store parse new_service first_id "offboarded" "api" "" "")
      (after onboarding) first_id "offboarded" "api" "" ""

-- The second case is the one that is met: the client has been moved.
stranded : LeftOffboarded
stranded =
    elim (transition_fails faulty_store faulty_contract parse new_service first_id "offboarded"
      "api" "" "" (after onboarding) (failure "purge failed") purge_spoils) [
        | inr left ↦ left
        | inl same ↦
            let e =
              sym onboarded
              ∙ ap (λ (f : Fake). GoMap.get f.clients first_id) (sym same)
              ∙ left_offboarded in
            absurd (ground (arith, status_same e, eq_iff "active" "offboarded"))
      ]
  where
    status_same :
        some active_client ≡ some (record active_client { status = "offboarded" })
        → ◌≡◌ {A = String} "active" "offboarded"
    status_same e = ap (λ (o : Option ClientFull). elim o [ none ↦ "" | some c ↦ c.status ]) e

offboard_resumes_example :
    transition faulty_store parse new_service first_id "offboarded" "ops" "" "retry"
      (transition faulty_store parse new_service first_id "offboarded" "api" "" ""
        (after onboarding)).1
    ≡ faulty_store.purge_offboarded first_id "ops"
        (faulty_store.transition_client first_id "offboarded" "api" "" "" (after onboarding)).1
offboard_resumes_example =
    offboard_resumes faulty_store faulty_contract parse new_service first_id "api" "" "" "ops" ""
      "retry" (after onboarding) stranded

offboard_again_example :
    let t =
      (transition fake_store parse new_service first_id "offboarded" "api" "" ""
        (after onboarding)).1 in
    let again = transition fake_store parse new_service first_id "offboarded" "ops" "" "retry" t in
    (again.0 ≡ ok tt) × ((j : String) → GoMap.get again.1.clients j ≡ GoMap.get t.clients j)
offboard_again_example =
    offboard_again fake_store fake_contract purge_done parse new_service first_id "api" "" "" "ops"
      "" "retry" (after onboarding) offboarding_succeeds

is_not_registered : ◌≢◌ {A = String} "active" "registered"
is_not_registered = ground (arith, eq_iff "active" "registered")

is_not_suspended : ◌≢◌ {A = String} "active" "suspended"
is_not_suspended = ground (arith, eq_iff "active" "suspended")

activate_illegal_example :
    transition fake_store parse new_service first_id "active" "api" "" "" (after onboarding)
    ≡ (refuse "registry:illegal_transition", after onboarding)
activate_illegal_example =
    activate_illegal fake_store fake_contract parse new_service first_id "api" "" ""
      (after onboarding) active_client onboarded is_not_registered is_not_suspended

webhook_done_example :
    (c : ClientFull) × Changed fake_store fake_contract
      (after onboarding)
      (api_set_webhook fake_store first_id
        (some (record { webhook_url = "https://rp.example/hook" }))
        (after onboarding)).1
      first_id
      c
      (record c { default_webhook = "https://rp.example/hook" })
    × Logged
        (after onboarding)
        (api_set_webhook fake_store first_id
          (some (record { webhook_url = "https://rp.example/hook" }))
          (after onboarding)).1
        first_id
        "client.set_webhook"
        (string_detail (("webhook_url", "https://rp.example/hook") ∷ []))
    × (◌≡◌ {A = Response ApiClientWebhookState}
        (json (record { id = first_id; state = "active"; webhook_url = "https://rp.example/hook" }))
        (json
          (record { id = first_id; state = c.status; webhook_url = "https://rp.example/hook" })))
webhook_done_example =
    webhook_done first_id (record { webhook_url = "https://rp.example/hook" }) (after onboarding)
      (json (record { id = first_id; state = "active"; webhook_url = "https://rp.example/hook" }))
      webhook_succeeds

origins_done_example :
    (all (is_web_origin parse) ("https://rp.example" ∷ []) ≡ true)
    × (c : ClientFull) × Changed fake_store fake_contract
        (after onboarding)
        (api_set_allowed_origins fake_store parse first_id
          (some (record { allowed_origins = some ("https://rp.example" ∷ []) }))
          (after onboarding)).1
        first_id
        c
        (record c { allowed_origins = "https://rp.example" ∷ [] })
    × Logged
        (after onboarding)
        (api_set_allowed_origins fake_store parse first_id
          (some (record { allowed_origins = some ("https://rp.example" ∷ []) }))
          (after onboarding)).1
        first_id
        "client.set_allowed_origins"
        (text (obj (member "allowed_origins" (arr (strings ("https://rp.example" ∷ []))) end)))
    × (◌≡◌ {A = Response ApiClientOriginsState}
        (json
          (record { id = first_id; state = "active"; allowed_origins = "https://rp.example" ∷ [] }))
        (json (record {
          id = first_id;
          state = c.status;
          allowed_origins = "https://rp.example" ∷ [];
        })))
origins_done_example =
    origins_done parse first_id ("https://rp.example" ∷ []) (after onboarding)
      (json
        (record { id = first_id; state = "active"; allowed_origins = "https://rp.example" ∷ [] }))
      origins_succeed

run-Governed_example : Governed fake_store fake_contract parse (after onboarding)
run-Governed_example =
    run-Governed fake_store fake_contract outside "k" onboarding (new_fake clock float64)
      (new_fake-Governed outside clock float64)
