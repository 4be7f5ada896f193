-- ===== src/Bridge/Rows.antt =====
-- The rows on the wire: the tags of the structs (internal/registrydb/repo.go).
use eudi_api_registration.Base.{
  String, false, Option, none, some, List, [], ◌∷◌, ◌==◌, if◌then◌else◌,
}
use eudi_api_registration.Json.{
  Json, null, bool, str, arr, obj, Items, nil, cons, Members, end, member, empty, strings,
}
use eudi_api_registration.Registry.{
  ClientFull, ClientSummary, RegisteredCredentialJson, IntendedUse, Evidence, AuditEntry,
  DeletionRequest,
}
use eudi_api_registration.Wire.{
  Codec, Decoder, Field, field, decode_string, decode_bool, decode_int, decode_time, decode_raw,
  decode_any, decode_slice, decode_struct, marshal_raw,
}

abbrev pub no_client : ClientFull
no_client = record {
  id = "";
  name = "";
  status = "";
  registry_uri = "";
  client_identifier = "";
  default_webhook = "";
  allowed_origins = [];
  policy = empty;
  slug = "";
  wrp_document = empty;
  contact_emails = [];
}

abbrev pub decode_strings : Decoder (List String)
decode_strings = decode_slice "" decode_string

abbrev pub client_fields : List (Field ClientFull)
client_fields =
    field "id" (λ c. c.id) (λ c v. record c { id = v }) decode_string
    ∷ field "name" (λ c. c.name) (λ c v. record c { name = v }) decode_string
    ∷ field "status" (λ c. c.status) (λ c v. record c { status = v }) decode_string
    ∷ field "registry_uri" (λ c. c.registry_uri) (λ c v. record c { registry_uri = v })
        decode_string
    ∷ field "client_identifier" (λ c. c.client_identifier)
        (λ c v. record c { client_identifier = v }) decode_string
    ∷ field "default_webhook_url" (λ c. c.default_webhook) (λ c v. record c { default_webhook = v })
        decode_string
    ∷ field "allowed_origins" (λ c. c.allowed_origins) (λ c v. record c { allowed_origins = v })
        decode_strings
    ∷ field "policy" (λ c. c.policy) (λ c v. record c { policy = v }) decode_raw
    ∷ field "slug" (λ c. c.slug) (λ c v. record c { slug = v }) decode_string
    ∷ field "wrp_document" (λ c. c.wrp_document) (λ c v. record c { wrp_document = v }) decode_raw
    ∷ field "contact_emails" (λ c. c.contact_emails) (λ c v. record c { contact_emails = v })
        decode_strings
    ∷ []

abbrev pub decode_client : Codec → Decoder ClientFull
decode_client w = decode_struct w client_fields

abbrev pub no_summary : ClientSummary
no_summary = record { id = ""; name = ""; status = ""; slug = ""; updated_at = 0 }

abbrev pub summary_fields : Codec → List (Field ClientSummary)
summary_fields w =
    field "id" (λ c. c.id) (λ c v. record c { id = v }) decode_string
    ∷ field "name" (λ c. c.name) (λ c v. record c { name = v }) decode_string
    ∷ field "status" (λ c. c.status) (λ c v. record c { status = v }) decode_string
    ∷ field "slug" (λ c. c.slug) (λ c v. record c { slug = v }) decode_string
    ∷ field "updated_at" (λ c. c.updated_at) (λ c v. record c { updated_at = v }) (decode_time w)
    ∷ []

abbrev pub decode_summary : Codec → Decoder ClientSummary
decode_summary w = decode_struct w (summary_fields w)

abbrev pub no_credential : RegisteredCredentialJson
no_credential = record { format = ""; doctypes_or_vcts = []; all_claims = false; claims = [] }

abbrev pub credential_fields : List (Field RegisteredCredentialJson)
credential_fields =
    field "format" (λ c. c.format) (λ c v. record c { format = v }) decode_string
    ∷ field "doctypes_or_vcts" (λ c. c.doctypes_or_vcts) (λ c v. record c { doctypes_or_vcts = v })
        decode_strings
    ∷ field "all_claims" (λ c. c.all_claims) (λ c v. record c { all_claims = v }) decode_bool
    ∷ field "claims" (λ c. c.claims) (λ c v. record c { claims = v })
        (decode_slice [] (decode_slice null decode_any))
    ∷ []

abbrev pub decode_credential : Codec → Decoder RegisteredCredentialJson
decode_credential w = decode_struct w credential_fields

abbrev pub no_use : IntendedUse
no_use = record {
  id = "";
  intended_use_id = "";
  purpose = empty;
  credentials = [];
  revoked_at = "";
}

abbrev pub use_fields : Codec → List (Field IntendedUse)
use_fields w =
    field "id" (λ u. u.id) (λ u v. record u { id = v }) decode_string
    ∷ field "intended_use_id" (λ u. u.intended_use_id) (λ u v. record u { intended_use_id = v })
        decode_string
    ∷ field "purpose" (λ u. u.purpose) (λ u v. record u { purpose = v }) decode_raw
    ∷ field "credentials" (λ u. u.credentials) (λ u v. record u { credentials = v })
        (decode_slice no_credential (decode_credential w))
    ∷ field "revoked_at" (λ u. u.revoked_at) (λ u v. record u { revoked_at = v }) decode_string
    ∷ []

abbrev pub decode_use : Codec → Decoder IntendedUse
decode_use w = decode_struct w (use_fields w)

abbrev pub no_evidence : Evidence
no_evidence = record {
  id = "";
  filename = "";
  mime = "";
  sha256 = "";
  size_bytes = 0;
  created_at = 0;
}

abbrev pub evidence_fields : Codec → List (Field Evidence)
evidence_fields w =
    field "id" (λ e. e.id) (λ e v. record e { id = v }) decode_string
    ∷ field "filename" (λ e. e.filename) (λ e v. record e { filename = v }) decode_string
    ∷ field "mime" (λ e. e.mime) (λ e v. record e { mime = v }) decode_string
    ∷ field "sha256" (λ e. e.sha256) (λ e v. record e { sha256 = v }) decode_string
    ∷ field "size_bytes" (λ e. e.size_bytes) (λ e v. record e { size_bytes = v }) (decode_int w)
    ∷ field "created_at" (λ e. e.created_at) (λ e v. record e { created_at = v }) (decode_time w)
    ∷ []

abbrev pub decode_evidence : Codec → Decoder Evidence
decode_evidence w = decode_struct w (evidence_fields w)

abbrev pub no_entry : AuditEntry
no_entry = record { id = ""; at = 0; actor = ""; client_id = ""; action = ""; detail = empty }

abbrev pub entry_fields : Codec → List (Field AuditEntry)
entry_fields w =
    field "id" (λ e. e.id) (λ e v. record e { id = v }) decode_string
    ∷ field "at" (λ e. e.at) (λ e v. record e { at = v }) (decode_time w)
    ∷ field "actor" (λ e. e.actor) (λ e v. record e { actor = v }) decode_string
    ∷ field "client_id" (λ e. e.client_id) (λ e v. record e { client_id = v }) decode_string
    ∷ field "action" (λ e. e.action) (λ e v. record e { action = v }) decode_string
    ∷ field "detail" (λ e. e.detail) (λ e v. record e { detail = v }) decode_raw
    ∷ []

abbrev pub decode_entry : Codec → Decoder AuditEntry
decode_entry w = decode_struct w (entry_fields w)

abbrev pub no_request : DeletionRequest
no_request = record {
  id = "";
  client_id = "";
  session_id = "";
  attribute_names = [];
  requested_at = 0;
}

abbrev pub request_fields : Codec → List (Field DeletionRequest)
request_fields w =
    field "id" (λ r. r.id) (λ r v. record r { id = v }) decode_string
    ∷ field "client_id" (λ r. r.client_id) (λ r v. record r { client_id = v }) decode_string
    ∷ field "session_id" (λ r. r.session_id) (λ r v. record r { session_id = v }) decode_string
    ∷ field "attribute_names" (λ r. r.attribute_names) (λ r v. record r { attribute_names = v })
        decode_strings
    ∷ field "requested_at" (λ r. r.requested_at) (λ r v. record r { requested_at = v })
        (decode_time w)
    ∷ []

abbrev pub decode_request : Codec → Decoder DeletionRequest
decode_request w = decode_struct w (request_fields w)

-- `omitempty` leaves an empty list of claims out.
abbrev pub marshal_path : List Json → Items
marshal_path [] = nil
marshal_path (segment ∷ rest) = cons segment (marshal_path rest)

abbrev pub marshal_paths : List (List Json) → Items
marshal_paths [] = nil
marshal_paths (path ∷ rest) = cons (arr (marshal_path path)) (marshal_paths rest)

abbrev pub claims_member : List (List Json) → Members
claims_member [] = end
claims_member (path ∷ rest) = member "claims" (arr (marshal_paths (path ∷ rest))) end

abbrev pub credential_members : RegisteredCredentialJson → Members
credential_members c = member "format" (str c.format) (
    member "doctypes_or_vcts" (arr (strings c.doctypes_or_vcts))
      (member "all_claims" (bool c.all_claims) (claims_member c.claims)))

abbrev pub marshal_credential : RegisteredCredentialJson → Json
marshal_credential c = obj (credential_members c)

abbrev pub marshal_credentials : List RegisteredCredentialJson → Items
marshal_credentials [] = nil
marshal_credentials (c ∷ rest) = cons (marshal_credential c) (marshal_credentials rest)

abbrev pub revoked_member : String → Members
revoked_member revoked_at =
    if revoked_at == "" then end else member "revoked_at" (str revoked_at) end

abbrev pub use_members : IntendedUse → Json → Members
use_members u purpose = member "id" (str u.id) (
    member "intended_use_id" (str u.intended_use_id) (
      member "purpose" purpose (
        member "credentials" (arr (marshal_credentials u.credentials))
          (revoked_member u.revoked_at))))

unfoldable pub marshal_use : IntendedUse → Option Json
marshal_use u = elim (marshal_raw u.purpose) [
  | none ↦ none
  | some purpose ↦ some (obj (use_members u purpose))
]

abbrev pub prepend_item : Option Json → Option Items → Option Items
prepend_item (some j) (some rest) = some (cons j rest)
prepend_item j rest = none

unfoldable pub marshal_uses : List IntendedUse → Option Items
unfolding marshal_use
marshal_uses [] = some nil
marshal_uses (u ∷ rest) = prepend_item (marshal_use u) (marshal_uses rest)
