-- ===== src/Registry.antt =====
-- The rows of the registry schema (internal/registrydb/repo.go). A timestamp is a number of ticks.
pub mod Store
pub mod States
pub mod Contract
use eudi_api_registration.Base.{ℕ, String, Bool, List, ◌==◌}
use eudi_api_registration.Json.{Json, RawMessage}

pub record ClientFull : Type 0 where
  pub id : String
  pub name : String
  pub status : String
  pub registry_uri : String
  pub client_identifier : String
  pub default_webhook : String
  pub allowed_origins : List String
  pub policy : RawMessage
  pub slug : String
  pub wrp_document : RawMessage
  pub contact_emails : List String

pub record ClientSummary : Type 0 where
  pub id : String
  pub name : String
  pub status : String
  pub slug : String
  pub updated_at : ℕ

pub record RegisteredCredentialJson : Type 0 where
  pub format : String
  pub doctypes_or_vcts : List String
  pub all_claims : Bool
  pub claims : List (List Json)

pub record IntendedUse : Type 0 where
  pub id : String
  pub intended_use_id : String
  pub purpose : RawMessage
  pub credentials : List RegisteredCredentialJson
  pub revoked_at : String

-- iu.IntendedUseID == ""
abbrev pub lacks_id : IntendedUse → Bool
lacks_id iu = iu.intended_use_id == ""

pub record Evidence : Type 0 where
  pub id : String
  pub filename : String
  pub mime : String
  pub sha256 : String
  pub size_bytes : ℕ
  pub created_at : ℕ

pub record AuditEntry : Type 0 where
  pub id : String
  pub at : ℕ
  pub actor : String
  pub client_id : String
  pub action : String
  pub detail : RawMessage

pub record DeletionRequest : Type 0 where
  pub id : String
  pub client_id : String
  pub session_id : String
  pub attribute_names : List String
  pub requested_at : ℕ
