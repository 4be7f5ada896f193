-- ===== src/Fake/Audit.antt =====
-- The audit log and the log of deletion requests (internal/registrydb/fake.go).
use mathlib.Core.Option.{get_or}
use mathlib.Core.List.{reverse}
use eudi_api_registration.Base.{
  ℕ, String, ◌||◌, List, [], ◌∷◌, ◌++◌, map, ◌==◌, take, if◌then◌else◌, ok, refuse, Exec,
}
use eudi_api_registration.Base.GoMap
use eudi_api_registration.Json.{RawMessage}
use eudi_api_registration.Registry.{AuditEntry, DeletionRequest}
use eudi_api_registration.Fake.{Fake, AuditLogEntry, next_id, now, audit}

unfoldable pub append_audit : String → String → String → RawMessage → Exec Fake (Unit {0})
append_audit actor client_id action detail f =
    if actor == "" || action == ""
    then (refuse "audit:invalid", f)
    else (ok tt, audit actor client_id action detail f)

unfoldable pub entries_of : String → List AuditLogEntry → List AuditLogEntry
entries_of client_id [] = []
entries_of client_id (e ∷ es) =
    let rest = entries_of client_id es in if e.client_id == client_id then e ∷ rest else rest

abbrev pub to_entry : AuditLogEntry → AuditEntry
to_entry e = record {
  id = e.id;
  at = e.at;
  actor = e.actor;
  client_id = e.client_id;
  action = e.action;
  detail = e.detail;
}

-- The loop from the last element down, while fewer than `limit` are out.
unfoldable pub newest {ℓ} : {A : Type ℓ} → ℕ → List A → List A
newest limit xs = take limit (reverse xs)

unfoldable pub list_audit_entries : String → ℕ → Exec Fake (List AuditEntry)
list_audit_entries client_id limit f =
    (ok (map to_entry (newest limit (entries_of client_id f.audit_log))), f)

unfoldable pub log_deletion_request : String → String → List String → Exec Fake String
unfolding next_id now
log_deletion_request client_id session_id attribute_names f =
    if client_id == "" || session_id == ""
    then (refuse "audit:invalid", f)
    else let (id, f1) = next_id f in
      let (at, f2) = now f1 in
      (
        ok id,
        record f2 {
          deletion_requests = GoMap.put f2.deletion_requests client_id (
              get_or (GoMap.get f2.deletion_requests client_id) []
              ++ record {
                id = id;
                client_id = client_id;
                session_id = session_id;
                attribute_names = attribute_names;
                requested_at = at;
              }
                ∷ []);
        },
      )

unfoldable pub list_deletion_requests : String → ℕ → Exec Fake (List DeletionRequest)
list_deletion_requests client_id limit f =
    (ok (newest limit (get_or (GoMap.get f.deletion_requests client_id) [])), f)
