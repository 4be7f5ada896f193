-- ===== src/Fake.antt =====
-- The in-memory `Store` (internal/registrydb/fake.go): its rows and the helpers of its methods. The
-- methods are in the modules below, one for each kind of row.
pub mod Ids
pub mod Slug
pub mod Clients
pub mod Settings
pub mod IntendedUses
pub mod Evidence
pub mod Audit
pub mod Store
pub mod Lawful
pub mod Setters
pub mod Documents
pub mod Contract
pub mod Purge
pub mod Mode
pub mod Listings
pub mod Log
pub mod Seams
use eudi_api_registration.Base.{
  ℕ, suc, ◌+◌, String, ◌<>◌, List, [], ◌∷◌, ◌++◌, Result, ok, err, Exec,
}
use eudi_api_registration.Base.GoMap
use eudi_api_registration.Base.GoMap.{GoMap}
use eudi_api_registration.Json.{RawMessage, empty, text, malformed, obj, end}
use eudi_api_registration.Json.Generic.{Float64}
use eudi_api_registration.Registry
use eudi_api_registration.Registry.{ClientFull, IntendedUse, DeletionRequest}
use eudi_api_registration.Digits.{format_012d}

pub record FakeApiKey : Type 0 where
  pub prefix : String
  pub secret_hash : String

-- A row of evidence: its metadata, its owner and its bytes.
pub record FakeEvidence : Type 0 where
  pub evidence : Registry.Evidence
  pub client_id : String
  pub content : List ℕ

pub record AuditLogEntry : Type 0 where
  pub id : String
  pub actor : String
  pub client_id : String
  pub action : String
  pub at : ℕ
  pub detail : RawMessage

-- `clock` and `reads` stand for `time.Now`: what each reading of the clock gives, and how many
-- readings have been made;
-- `float64` for what encoding/json makes of a number. The counter `seq` is an int of Go, whose range a
-- process that counts up from 0 does not leave. The mutex makes every method one step, so it keeps no state here.
pub record Fake : Type 0 where
  pub clients : GoMap ClientFull
  pub client_updated_at : GoMap ℕ
  pub intended_uses : GoMap (GoMap IntendedUse)
  pub intended_use_order : GoMap (List String)
  pub evidence : GoMap FakeEvidence
  pub audit_log : List AuditLogEntry
  pub deletion_requests : GoMap (List DeletionRequest)
  pub api_keys : GoMap (List FakeApiKey)
  pub seq : ℕ
  pub clock : ℕ → ℕ
  pub reads : ℕ
  pub float64 : Float64

unfoldable pub new_fake : (ℕ → ℕ) → Float64 → Fake
new_fake clock float64 = record {
  clients = GoMap.empty;
  client_updated_at = GoMap.empty;
  intended_uses = GoMap.empty;
  intended_use_order = GoMap.empty;
  evidence = GoMap.empty;
  audit_log = [];
  deletion_requests = GoMap.empty;
  api_keys = GoMap.empty;
  seq = 0;
  clock = clock;
  reads = 0;
  float64 = float64;
}

-- The identifier that the n-th call of `nextID` returns.
unfoldable pub fake_id : ℕ → String
fake_id n = "01JZXREGDBFAKE" <> format_012d n

-- f.nextID()
unfoldable pub next_id : Fake → String × Fake
next_id f = (fake_id (f.seq + 1), record f { seq = f.seq + 1 })

-- time.Now().UTC()
unfoldable pub now : Fake → ℕ × Fake
now f = (f.clock f.reads, record f { reads = f.reads + 1 })

unfoldable pub empty_detail : RawMessage → RawMessage
empty_detail empty = text (obj end)
empty_detail (text j) = text j
empty_detail malformed = malformed

-- f.audit(actor, clientID, action, detail)
unfoldable pub audit : String → String → String → RawMessage → Fake → Fake
unfolding next_id now empty_detail
audit actor client_id action detail f =
    let (id, f1) = next_id f in
    let (at, f2) = now f1 in
    record f2 {
      audit_log =
          f2.audit_log
          ++ record {
            id = id;
            actor = actor;
            client_id = client_id;
            action = action;
            at = at;
            detail = empty_detail detail;
          }
            ∷ [];
    }

-- f.clientUpdatedAt[clientID] = time.Now().UTC()
unfoldable pub touch : String → Fake → Fake
unfolding now
touch client_id f =
    let (at, f1) = now f in
    record f1 { client_updated_at = GoMap.put f1.client_updated_at client_id at }

-- f.clients[clientID] = c, and the writes through the pointer that the map holds
unfoldable pub store_client : String → ClientFull → Fake → Fake
store_client client_id c f = record f { clients = GoMap.put f.clients client_id c }

-- The end of every setter: the row is written, then its time, then the audit entry.
unfoldable pub write_audited : String → ClientFull → String → String → RawMessage → Fake → Fake
unfolding store_client touch audit
write_audited client_id c actor action detail f =
    audit actor client_id action detail (touch client_id (store_client client_id c f))
