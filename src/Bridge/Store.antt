-- ===== src/Bridge/Store.antt =====
-- The production store, `PG` (internal/registrydb/repo.go): one procedure call per method, with the
-- arguments as a JSON object whose keys stand in byte order, as `encoding/json` writes a map.
use mathlib.Core.Option.{get_or}
use eudi_api_registration.Base.{
  ℕ, String, Option, none, some, List, [], ◌∷◌, ◌++◌, length, ◌==◌, if◌then◌else◌, Result, ok, err,
  failure, Exec, pure, ◌>>=◌, ◌>>◌,
}
use eudi_api_registration.Base.GoMap
use eudi_api_registration.Base.GoMap.{GoMap}
use eudi_api_registration.Digits.{format_decimal}
use eudi_api_registration.Json.{
  Json, number, str, arr, obj, Items, Members, end, member, RawMessage, empty, text, malformed,
  strings, marshal_strings,
}
use eudi_api_registration.Registry.{
  ClientFull, ClientSummary, IntendedUse, Evidence, AuditEntry, DeletionRequest,
}
use eudi_api_registration.Registry.Store.{Store}
use eudi_api_registration.Wire.{
  Codec, Decoder, field, decode_string, decode_time, decode_slice, decode_struct, marshal_raw,
}
use eudi_api_registration.Bridge.{Procedures, execute, query}
use eudi_api_registration.Bridge.Procs.{
  proc_transition_client, proc_get_client_full, proc_list_clients_by_state,
  proc_create_draft_client, proc_save_wrp_document, proc_add_evidence, proc_list_evidence,
  proc_get_evidence_content, proc_set_client_registrar_identity, proc_set_client_webhook,
  proc_set_client_allowed_origins, proc_set_client_dcapi_mode, proc_create_api_key,
  proc_purge_offboarded, proc_audit_append, proc_audit_list_entries,
  proc_audit_log_deletion_request, proc_audit_list_deletion_reqs, proc_list_intended_uses,
  proc_set_intended_uses,
}
use eudi_api_registration.Bridge.Rows.{
  no_client, no_summary, no_use, no_evidence, no_entry, no_request, decode_client, decode_summary,
  decode_use, decode_evidence, decode_entry, decode_request, marshal_uses,
}

-- var out struct { ... }, for one field that holds a list
abbrev pub decode_listing {ℓ} : {A : Type ℓ} → Codec → String → A → Decoder A → Decoder (List A)
decode_listing w name zero_value decode =
    decode_struct w ((name, decode_slice zero_value decode) ∷ [])

-- var out struct { ID string `json:"id"` }
abbrev pub decode_id : Codec → Decoder String
decode_id w = decode_struct w (("id", decode_string) ∷ [])

abbrev pub decode_added : Codec → Decoder (String × ℕ)
decode_added w = decode_struct w (
    field "id" (λ out. out.0) (λ (id, at) v. (v, at)) decode_string
    ∷ field "created_at" (λ out. out.1) (λ (id, at) v. (id, v)) (decode_time w)
    ∷ [])

abbrev pub decode_content : Codec → Decoder (String × String)
decode_content w = decode_struct w (
    field "content" (λ out. out.0) (λ (content, mime) v. (v, mime)) decode_string
    ∷ field "mime" (λ out. out.1) (λ (content, mime) v. (content, v)) decode_string
    ∷ [])

abbrev pub text_arguments : List (String × String) → Option Json
text_arguments pairs = some (obj (marshal_strings pairs))

-- grouped[c.Status] = append(grouped[c.Status], c), for each row in turn
unfoldable pub group_by_status :
    List ClientSummary → GoMap (List ClientSummary) → GoMap (List ClientSummary)
group_by_status [] grouped = grouped
group_by_status (c ∷ rest) grouped =
    group_by_status rest
      (GoMap.put grouped c.status (get_or (GoMap.get grouped c.status) [] ++ c ∷ []))

-- the arguments of `registry.create_draft_client`: an empty address is left out
abbrev pub draft_arguments : String → String → String → List (String × String)
draft_arguments name email actor =
    if email == ""
    then ("actor", actor) ∷ ("name", name) ∷ []
    else ("actor", actor) ∷ ("email", email) ∷ ("name", name) ∷ []

-- json.Marshal fails if it fails on a part.
abbrev pub save_object : String → Option Json → Option Items → String → Option Json
save_object client_id (some doc) (some uses) actor = some (
    obj (
      member "actor" (str actor) (
        member "client_id" (str client_id)
          (member "doc" doc (member "intended_uses" (arr uses) end)))))
save_object client_id doc uses actor = none

abbrev pub save_arguments : String → RawMessage → List IntendedUse → String → Option Json
save_arguments client_id doc ius actor =
    save_object client_id (marshal_raw doc) (marshal_uses ius) actor

abbrev pub uses_object : String → Option Items → Option Json
uses_object client_id (some uses) =
    some (obj (member "client_id" (str client_id) (member "intended_uses" (arr uses) end)))
uses_object client_id none = none

abbrev pub uses_arguments : String → List IntendedUse → Option Json
uses_arguments client_id ius = uses_object client_id (marshal_uses ius)

abbrev pub evidence_arguments : Codec → String → Evidence → List ℕ → String → Option Json
evidence_arguments w client_id e content actor = some (
    obj (
      member "actor" (str actor) (
        member "client_id" (str client_id) (
          member "content" (str (w.encode_base64 content)) (
            member "filename" (str e.filename) (
              member "mime" (str e.mime) (
                member "sha256" (str e.sha256) (
                  member "size_bytes" (number (format_decimal e.size_bytes))
                    (member "uploaded_by" (str actor) end)))))))))

-- base64.StdEncoding.DecodeString(out.Content)
abbrev pub content_of : Codec → String × String → Result (List ℕ × String)
content_of w (content, mime) = elim (w.decode_base64 content) [
  | none ↦ err (failure "registrydb: decode evidence content")
  | some raw ↦ ok (raw, mime)
]

-- an empty client identifier is left out
abbrev pub client_member : String → Members → Members
client_member client_id rest =
    if client_id == "" then rest else member "client_id" (str client_id) rest

abbrev pub given_detail : RawMessage → Option Json
given_detail empty = some (obj end)
given_detail (text j) = some j
given_detail malformed = none

abbrev pub audit_arguments : String → String → String → RawMessage → Option Json
audit_arguments actor client_id action detail = elim (given_detail detail) [
  | none ↦ none
  | some j ↦ some (
      obj (
        member "action" (str action)
          (member "actor" (str actor) (client_member client_id (member "detail" j end)))))
]

abbrev pub limit_arguments : String → ℕ → Option Json
limit_arguments client_id limit =
    some (
      obj (member "client_id" (str client_id) (member "limit" (number (format_decimal limit)) end)))

abbrev pub use_count : List IntendedUse → RawMessage
use_count ius = text (obj (member "intended_use_count" (number (format_decimal (length ius))) end))

module _ {St : Type 0} (w : Codec) (run : Procedures St) where
  unfoldable pub list_clients_by_state : Exec St (GoMap (List ClientSummary))
  unfolding query group_by_status
  list_clients_by_state =
      query w run [] (decode_listing w "clients" no_summary (decode_summary w))
        proc_list_clients_by_state (text_arguments [])
      >>= λ clients. pure (group_by_status clients GoMap.empty)

  unfoldable pub append_audit : String → String → String → RawMessage → Exec St (Unit {0})
  unfolding execute
  append_audit actor client_id action detail =
      execute w run proc_audit_append (audit_arguments actor client_id action detail)

  -- The replacement, and then a call of its own for the audit entry.
  unfoldable pub set_intended_uses : String → List IntendedUse → String → Exec St (Unit {0})
  unfolding execute append_audit
  set_intended_uses client_id ius actor =
      execute w run proc_set_intended_uses (uses_arguments client_id ius)
      >> append_audit actor client_id "client.set_intended_uses" (use_count ius)

  unfoldable pub add_evidence : String → Evidence → List ℕ → String → Exec St (String × Evidence)
  unfolding query
  add_evidence client_id e content actor =
      query w run ("", 0) (decode_added w) proc_add_evidence
        (evidence_arguments w client_id e content actor)
      >>= λ (id, at). pure (id, record e { id = id; created_at = at })

  unfoldable pub get_evidence_content : String → String → Exec St (List ℕ × String)
  unfolding query
  get_evidence_content client_id evidence_id =
      query w run ("", "") (decode_content w) proc_get_evidence_content
        (text_arguments (("client_id", client_id) ∷ ("evidence_id", evidence_id) ∷ []))
      >>= λ out s. (content_of w out, s)

  abbrev pub transition_client : String → String → String → String → String → Exec St (Unit {0})
  transition_client client_id to_state actor evidence_ref reason =
      execute w run proc_transition_client (
        text_arguments (
          ("actor", actor)
          ∷ ("client_id", client_id)
          ∷ ("evidence_ref", evidence_ref)
          ∷ ("reason", reason)
          ∷ ("to_state", to_state)
          ∷ []))

  abbrev pub get_client_full : String → Exec St ClientFull
  get_client_full client_id =
      query w run no_client (decode_client w) proc_get_client_full
        (text_arguments (("client_id", client_id) ∷ []))

  abbrev pub create_draft_client : String → String → String → Exec St String
  create_draft_client name email actor =
      query w run "" (decode_id w) proc_create_draft_client
        (text_arguments (draft_arguments name email actor))

  abbrev pub set_client_registrar_identity : String → String → String → String → Exec St (Unit {0})
  set_client_registrar_identity client_id registry_uri client_identifier actor =
      execute w run proc_set_client_registrar_identity (
        text_arguments (
          ("actor", actor)
          ∷ ("client_id", client_id)
          ∷ ("client_identifier", client_identifier)
          ∷ ("registry_uri", registry_uri)
          ∷ []))

  abbrev pub set_client_webhook : String → String → String → Exec St (Unit {0})
  set_client_webhook client_id webhook_url actor = execute w run proc_set_client_webhook (
      text_arguments
        (("actor", actor) ∷ ("client_id", client_id) ∷ ("webhook_url", webhook_url) ∷ []))

  abbrev pub set_client_allowed_origins : String → List String → String → Exec St (Unit {0})
  set_client_allowed_origins client_id origins actor =
      execute w run proc_set_client_allowed_origins (
        some (
          obj (
            member "actor" (str actor) (
              member "allowed_origins" (arr (strings origins))
                (member "client_id" (str client_id) end)))))

  abbrev pub set_client_dcapi_mode : String → String → String → Exec St (Unit {0})
  set_client_dcapi_mode client_id mode actor =
      execute w run proc_set_client_dcapi_mode
        (text_arguments (("actor", actor) ∷ ("client_id", client_id) ∷ ("mode", mode) ∷ []))

  abbrev pub create_api_key : String → String → String → Exec St (Unit {0})
  create_api_key client_id prefix secret_hash = execute w run proc_create_api_key (
      text_arguments
        (("client_id", client_id) ∷ ("prefix", prefix) ∷ ("secret_hash", secret_hash) ∷ []))

  abbrev pub save_wrp_document :
      String → RawMessage → List IntendedUse → String → Exec St (Unit {0})
  save_wrp_document client_id doc ius actor =
      execute w run proc_save_wrp_document (save_arguments client_id doc ius actor)

  abbrev pub list_intended_uses : String → Exec St (List IntendedUse)
  list_intended_uses client_id =
      query w run [] (decode_listing w "intended_uses" no_use (decode_use w))
        proc_list_intended_uses (text_arguments (("client_id", client_id) ∷ []))

  abbrev pub list_evidence : String → Exec St (List Evidence)
  list_evidence client_id =
      query w run [] (decode_listing w "evidence" no_evidence (decode_evidence w))
        proc_list_evidence (text_arguments (("client_id", client_id) ∷ []))

  abbrev pub list_audit_entries : String → ℕ → Exec St (List AuditEntry)
  list_audit_entries client_id limit =
      query w run [] (decode_listing w "entries" no_entry (decode_entry w)) proc_audit_list_entries
        (limit_arguments client_id limit)

  abbrev pub log_deletion_request : String → String → List String → Exec St String
  log_deletion_request client_id session_id attribute_names =
      query w run "" (decode_id w) proc_audit_log_deletion_request (
        some (
          obj (
            member "attribute_names" (arr (strings attribute_names))
              (member "client_id" (str client_id) (member "session_id" (str session_id) end)))))

  abbrev pub list_deletion_requests : String → ℕ → Exec St (List DeletionRequest)
  list_deletion_requests client_id limit =
      query w run [] (decode_listing w "requests" no_request (decode_request w))
        proc_audit_list_deletion_reqs (limit_arguments client_id limit)

  abbrev pub purge_offboarded : String → String → Exec St (Unit {0})
  purge_offboarded client_id actor =
      execute w run proc_purge_offboarded
        (text_arguments (("actor", actor) ∷ ("client_id", client_id) ∷ []))

  abbrev pub pg_store : Store
  pg_store = record {
    State = St;
    transition_client = transition_client;
    get_client_full = get_client_full;
    list_clients_by_state = list_clients_by_state;
    create_draft_client = create_draft_client;
    set_client_registrar_identity = set_client_registrar_identity;
    set_client_webhook = set_client_webhook;
    set_client_allowed_origins = set_client_allowed_origins;
    set_client_dcapi_mode = set_client_dcapi_mode;
    create_api_key = create_api_key;
    save_wrp_document = save_wrp_document;
    list_intended_uses = list_intended_uses;
    set_intended_uses = set_intended_uses;
    add_evidence = add_evidence;
    list_evidence = list_evidence;
    get_evidence_content = get_evidence_content;
    append_audit = append_audit;
    list_audit_entries = list_audit_entries;
    log_deletion_request = log_deletion_request;
    list_deletion_requests = list_deletion_requests;
    purge_offboarded = purge_offboarded;
  }
