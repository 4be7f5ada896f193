-- ===== src/Routes/Fresh.antt =====
-- The API on the in-memory store, from its first request on (routes, internal/registrydb/fake.go).
use eudi_api_registration.Base.{
  ℕ, String, true, ◌≡◌, ◌≢◌, ◌⊎◌, eq_iff, some, List, [], arith, Distinct,
}
use mathlib.Core.Option.{get_or}
use eudi_api_registration.Base.GoMap
use eudi_api_registration.Base.GoMap.{get-empty}
use eudi_api_registration.Json.Generic.{Float64}
use eudi_api_registration.Registry.{ClientFull, IntendedUse}
use eudi_api_registration.Lifecycle.{has_identity}
use eudi_api_registration.Lifecycle.Activation.{live_iff}
use eudi_api_registration.Url.{UrlParser, is_absolute_https_url}
use mathlib.Core.List.{Memᴰ}
use eudi_api_registration.Fake.{new_fake}
use eudi_api_registration.Fake.Store.{fake_store, uses_of}
use eudi_api_registration.Fake.Contract.{fake_contract}
use eudi_api_registration.Routes.Dispatch.{Request, Outside, run}
use eudi_api_registration.Routes.Governed.{Governed}
use eudi_api_registration.Routes.Runs.{run-Governed}

no_rows :
    (clock : ℕ → ℕ) (float64 : Float64) (id : String) (c : ClientFull)
    → GoMap.get (new_fake clock float64).clients id ≡ some c
    → ⊥
unfolding new_fake
no_rows clock float64 id c h = ground (arith, get-empty {V = ClientFull} id)

no_orders :
    (clock : ℕ → ℕ) (float64 : Float64) (id : String)
    → Distinct (get_or (GoMap.get (new_fake clock float64).intended_use_order id) [])
unfolding new_fake
no_orders clock float64 id = rw (get-empty {V = List String} id) tt

pub new_fake-Governed :
    (out : Outside) (clock : ℕ → ℕ) (float64 : Float64)
    → Governed fake_store fake_contract out.parse (new_fake clock float64)
new_fake-Governed out clock float64 = record {
  valid = record {
    rows = λ id c h. absurd (no_rows clock float64 id c h);
    orders = no_orders clock float64;
  };
  backed = λ id c h. absurd (no_rows clock float64 id c h);
}

identity_parts :
    (parse : UrlParser) (c : ClientFull)
    → has_identity parse c ≡ true
    → (c.client_identifier ≢ "") × (is_absolute_https_url parse c.registry_uri ≡ true)
unfolding has_identity
identity_parts parse c h = ground (arith, eq_iff c.client_identifier "")

-- After any run of the service that starts with no clients, whatever keys and bodies the requests
-- have, a client whose status is "active" or "suspended" has a registrar identity (an identifier and
-- an absolute https URL) and an intended use that is not revoked.
pub in_service-backed :
    (out : Outside) (clock : ℕ → ℕ) (float64 : Float64) (want : String)
    (requests : List (String × Request)) (id : String) (c : ClientFull)
    → let s = run fake_store out want requests (new_fake clock float64) in
      GoMap.get s.clients id ≡ some c
      → (c.status ≡ "active") ⊎ (c.status ≡ "suspended")
      → (c.client_identifier ≢ "")
        × (is_absolute_https_url out.parse c.registry_uri ≡ true)
        × ((iu : IntendedUse) × Memᴰ iu (uses_of s id) × (iu.revoked_at ≡ ""))
in_service-backed out clock float64 want requests id c here live =
    let t =
      (run-Governed fake_store fake_contract out want requests (new_fake clock float64)
          (new_fake-Governed out clock float64)).backed
        id c here live in
    let identity = identity_parts out.parse c t.0 in
    (
      identity.0,
      identity.1,
      (live_iff (uses_of (run fake_store out want requests (new_fake clock float64)) id)).0 t.1,
    )
