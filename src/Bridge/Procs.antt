-- ===== src/Bridge/Procs.antt =====
-- The procedures that the bridge calls (internal/registrydb/repo.go).
use eudi_api_registration.Base.{String}

abbrev pub proc_transition_client : String
proc_transition_client = "registry.transition_client"

abbrev pub proc_get_client_full : String
proc_get_client_full = "registry.get_client_full"

abbrev pub proc_list_clients_by_state : String
proc_list_clients_by_state = "registry.list_clients_by_state"

abbrev pub proc_create_draft_client : String
proc_create_draft_client = "registry.create_draft_client"

abbrev pub proc_save_wrp_document : String
proc_save_wrp_document = "registry.save_wrp_document"

abbrev pub proc_add_evidence : String
proc_add_evidence = "registry.add_evidence"

abbrev pub proc_list_evidence : String
proc_list_evidence = "registry.list_evidence"

abbrev pub proc_get_evidence_content : String
proc_get_evidence_content = "registry.get_evidence_content"

abbrev pub proc_set_client_registrar_identity : String
proc_set_client_registrar_identity = "registry.set_client_registrar_identity"

abbrev pub proc_set_client_webhook : String
proc_set_client_webhook = "registry.set_client_webhook"

abbrev pub proc_set_client_allowed_origins : String
proc_set_client_allowed_origins = "registry.set_client_allowed_origins"

abbrev pub proc_set_client_dcapi_mode : String
proc_set_client_dcapi_mode = "registry.set_client_dcapi_mode"

abbrev pub proc_create_api_key : String
proc_create_api_key = "registry.create_api_key"

abbrev pub proc_purge_offboarded : String
proc_purge_offboarded = "registry.purge_offboarded"

abbrev pub proc_audit_append : String
proc_audit_append = "audit.append"

abbrev pub proc_audit_list_entries : String
proc_audit_list_entries = "audit.list_entries"

abbrev pub proc_audit_log_deletion_request : String
proc_audit_log_deletion_request = "audit.log_deletion_request"

abbrev pub proc_audit_list_deletion_reqs : String
proc_audit_list_deletion_reqs = "audit.list_deletion_requests"

abbrev pub proc_list_intended_uses : String
proc_list_intended_uses = "registry.list_intended_uses"

abbrev pub proc_set_intended_uses : String
proc_set_intended_uses = "registry.set_intended_uses"
