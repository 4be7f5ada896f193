-- ===== src/Registry/Store.antt =====
-- The `Store` interface (internal/registrydb/repo.go): the seam that the in-memory fake and the
-- database bridge both fill. `State` is whatever an implementation keeps.
use eudi_api_registration.Base.{ℕ, String, List, Exec}
use eudi_api_registration.Base.GoMap.{GoMap}
use eudi_api_registration.Json.{RawMessage}
use eudi_api_registration.Registry.{
  ClientFull, ClientSummary, IntendedUse, Evidence, AuditEntry, DeletionRequest,
}

-- `add_evidence` also fills in the identifier and the time of the evidence that it is given, so it
-- hands the evidence back.
pub record Store : Type 1 where
  pub State : Type 0
  -- client, target state, actor, evidence reference, reason
  pub transition_client : String → String → String → String → String → Exec State (Unit {0})
  pub get_client_full : String → Exec State ClientFull
  pub list_clients_by_state : Exec State (GoMap (List ClientSummary))
  -- name, email, actor
  pub create_draft_client : String → String → String → Exec State String
  -- client, registry URI, client identifier, actor
  pub set_client_registrar_identity : String → String → String → String → Exec State (Unit {0})
  pub set_client_webhook : String → String → String → Exec State (Unit {0})
  pub set_client_allowed_origins : String → List String → String → Exec State (Unit {0})
  pub set_client_dcapi_mode : String → String → String → Exec State (Unit {0})
  -- client, prefix, secret hash
  pub create_api_key : String → String → String → Exec State (Unit {0})
  pub save_wrp_document : String → RawMessage → List IntendedUse → String → Exec State (Unit {0})
  pub list_intended_uses : String → Exec State (List IntendedUse)
  pub set_intended_uses : String → List IntendedUse → String → Exec State (Unit {0})
  pub add_evidence : String → Evidence → List ℕ → String → Exec State (String × Evidence)
  pub list_evidence : String → Exec State (List Evidence)
  pub get_evidence_content : String → String → Exec State (List ℕ × String)
  -- actor, client, action, detail
  pub append_audit : String → String → String → RawMessage → Exec State (Unit {0})
  pub list_audit_entries : String → ℕ → Exec State (List AuditEntry)
  pub log_deletion_request : String → String → List String → Exec State String
  pub list_deletion_requests : String → ℕ → Exec State (List DeletionRequest)
  pub purge_offboarded : String → String → Exec State (Unit {0})
