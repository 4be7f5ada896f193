-- ===== src/Fake/Store.antt =====
-- The in-memory store as an implementation of the `Store` interface, and its two views
-- (internal/registrydb/fake.go).
use mathlib.Core.Option.{get_or}
use eudi_api_registration.Base.{ℕ, String, ◌≤◌, ◌≡◌, some, List, [], Distinct}
use eudi_api_registration.Base.GoMap
use eudi_api_registration.Registry.{ClientFull, IntendedUse}
use eudi_api_registration.Registry.States.{State, name}
use eudi_api_registration.Registry.Store.{Store}
use eudi_api_registration.Registry.Contract.{Views}
use eudi_api_registration.Fake.{Fake, fake_id}
use eudi_api_registration.Fake.Clients
use eudi_api_registration.Fake.Settings
use eudi_api_registration.Fake.IntendedUses
use eudi_api_registration.Fake.IntendedUses.{in_order}
use eudi_api_registration.Fake.Evidence
use eudi_api_registration.Fake.Audit

abbrev pub fake_store : Store
fake_store = record {
  State = Fake;
  transition_client = Clients.transition_client;
  get_client_full = Clients.get_client_full;
  list_clients_by_state = Clients.list_clients_by_state;
  create_draft_client = Clients.create_draft_client;
  set_client_registrar_identity = Settings.set_client_registrar_identity;
  set_client_webhook = Settings.set_client_webhook;
  set_client_allowed_origins = Settings.set_client_allowed_origins;
  set_client_dcapi_mode = Settings.set_client_dcapi_mode;
  create_api_key = Clients.create_api_key;
  save_wrp_document = IntendedUses.save_wrp_document;
  list_intended_uses = IntendedUses.list_intended_uses;
  set_intended_uses = IntendedUses.set_intended_uses;
  add_evidence = Evidence.add_evidence;
  list_evidence = Evidence.list_evidence;
  get_evidence_content = Evidence.get_evidence_content;
  append_audit = Audit.append_audit;
  list_audit_entries = Audit.list_audit_entries;
  log_deletion_request = Audit.log_deletion_request;
  list_deletion_requests = Audit.list_deletion_requests;
  purge_offboarded = Evidence.purge_offboarded;
}

-- A client row stands under its own identifier, which `nextID` has already handed out, and its
-- status is one of the seven; no business key is recorded twice in the order of a client's uses.
pub record IsRow (f : Fake) (id : String) (c : ClientFull) : Type 0 where
  pub own_id : c.id ≡ id
  pub minted : (n : ℕ) × (n ≤ f.seq) × (id ≡ fake_id n)
  pub known_status : (t : State) × (c.status ≡ name t)

pub record IsValid (f : Fake) : Type 0 where
  pub rows : (id : String) (c : ClientFull) → GoMap.get f.clients id ≡ some c → IsRow f id c
  pub orders : (id : String) → Distinct (get_or (GoMap.get f.intended_use_order id) [])

unfoldable pub uses_of : Fake → String → List IntendedUse
uses_of f id =
    in_order (get_or (GoMap.get f.intended_uses id) GoMap.empty)
      (get_or (GoMap.get f.intended_use_order id) [])

abbrev pub fake_views : Views fake_store
fake_views = record { Valid = IsValid; view = λ f id. GoMap.get f.clients id; uses = uses_of }
