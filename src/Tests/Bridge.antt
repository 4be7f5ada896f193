-- ===== src/Tests/Bridge.antt =====
-- The theorems on the database bridge, at concrete inputs: procedures that note
-- the arguments of their calls.
use eudi_api_registration.Base.{
  List, [], ◌∷◌, Option, String, ◌≡◌, ◌↔◌, refl, some, [], ◌==◌, ◌<>◌, if◌then◌else◌, ok, err,
  refuse, from_result_code, Exec,
}
use eudi_api_registration.Json.{Json, str, arr, obj, nil, cons, Items, end, member, empty, text}
use eudi_api_registration.Registry.{ClientFull}
use eudi_api_registration.Registry.Store.{Store}
use eudi_api_registration.Text.{size}
use eudi_api_registration.Wire.{Codec, IsExact, decode_items}
use eudi_api_registration.Bridge.{Answer, row, raised, Procedures, outcome}
use eudi_api_registration.Bridge.Rows.{no_use, decode_use, marshal_uses}
use eudi_api_registration.Bridge.Calls.{Succeeds, Rejects, call_ok_iff, call_code_iff}
use eudi_api_registration.Bridge.RoundTrip.{uses_round_trip}
use eudi_api_registration.Bridge.Serves.{
  Serves, argument, client_members, success_members, error_members,
}
use eudi_api_registration.Bridge.Agrees.{Agrees}
use eudi_api_registration.Tests.{registration_uses}

-- Keys as they stand, times and numbers by the length of their texts, and no bytes.
abbrev literal : Codec
literal = record {
  names = λ name key. name == key;
  parse_time = λ s. some (size s);
  parse_int = λ s. some (size s);
  encode_base64 = λ bytes. "";
  decode_base64 = λ s. some [];
}

literal-IsExact : IsExact literal
literal-IsExact = record { tags = λ name key n k. refl }

-- A store that keeps the arguments of its calls, the last first.
abbrev Calls : Type 0
Calls = List (List String)

abbrev unknown : {A : Type 0} → Exec Calls A
unknown s = (refuse "registry:not_found", s)

abbrev noted : {A : Type 0} → A → List String → Exec Calls A
noted a call s = (ok a, call ∷ s)

abbrev known : String → ClientFull
known id = record {
  id = id;
  name = "Acme";
  status = "active";
  slug = "acme-01";
  registry_uri = "https://reg.example";
  client_identifier = "acme";
  default_webhook = "";
  allowed_origins = "https://rp.example" ∷ [];
  policy = text (obj end);
  wrp_document = text (obj end);
  contact_emails = [];
}

abbrev noting_store : Store
noting_store = record {
  State = Calls;
  transition_client = λ id to actor ref reason. noted tt (id ∷ to ∷ actor ∷ ref ∷ reason ∷ []);
  get_client_full = λ id s. (ok (known id), s);
  list_clients_by_state = unknown;
  create_draft_client = λ name email actor. noted "1" (name ∷ email ∷ actor ∷ []);
  set_client_registrar_identity =
      λ id uri identifier actor. noted tt (id ∷ uri ∷ identifier ∷ actor ∷ []);
  set_client_webhook = λ id url actor. noted tt (id ∷ url ∷ actor ∷ []);
  set_client_allowed_origins = λ id origins actor. noted tt (id ∷ actor ∷ origins);
  set_client_dcapi_mode = λ id mode actor. noted tt (id ∷ mode ∷ actor ∷ []);
  create_api_key = λ id prefix hash. noted tt (id ∷ prefix ∷ hash ∷ []);
  save_wrp_document = λ id doc ius actor. unknown;
  list_intended_uses = λ id. unknown;
  set_intended_uses = λ id ius actor. unknown;
  add_evidence = λ id e content actor. unknown;
  list_evidence = λ id. unknown;
  get_evidence_content = λ id evidence_id. unknown;
  append_audit = λ actor id action detail. noted tt (actor ∷ id ∷ action ∷ []);
  list_audit_entries = λ id limit. unknown;
  log_deletion_request = λ id session names. noted "1" (id ∷ session ∷ names);
  list_deletion_requests = λ id limit. unknown;
  purge_offboarded = λ id actor. unknown;
}

abbrev spoken : Option Json → String
spoken (some (str s)) = s
spoken other = ""

abbrev said : String → Json → String
said key pi = spoken (argument key pi)

abbrev spoken_items : Items → List String
spoken_items nil = []
spoken_items (cons j items) = spoken (some j) ∷ spoken_items items

abbrev spoken_list : Option Json → List String
spoken_list (some (arr items)) = spoken_items items
spoken_list other = []

abbrev answer : Json → Answer
answer j = row (text (obj (success_members j)))

abbrev noting : Procedures Calls
noting proc pi s =
    if proc == "registry.transition_client"
    then (
      answer (obj end),
      (said "client_id" pi
            ∷ said "to_state" pi
            ∷ said "actor" pi
            ∷ said "evidence_ref" pi
            ∷ said "reason" pi
            ∷ [])
          ∷ s,
    )
    else if proc == "registry.get_client_full"
    then (answer (obj (client_members (known (said "client_id" pi)) (obj end) (obj end))), s)
    else if proc == "registry.create_draft_client"
    then (
      answer (obj (member "id" (str "1") end)),
      (said "name" pi ∷ said "email" pi ∷ said "actor" pi ∷ []) ∷ s,
    )
    else if proc == "registry.set_client_registrar_identity"
    then (
      answer (obj end),
      (said "client_id" pi
            ∷ said "registry_uri" pi
            ∷ said "client_identifier" pi
            ∷ said "actor" pi
            ∷ [])
          ∷ s,
    )
    else if proc == "registry.set_client_webhook"
    then (
      answer (obj end),
      (said "client_id" pi ∷ said "webhook_url" pi ∷ said "actor" pi ∷ []) ∷ s,
    )
    else if proc == "registry.set_client_allowed_origins"
    then (
      answer (obj end),
      (said "client_id" pi ∷ said "actor" pi ∷ spoken_list (argument "allowed_origins" pi)) ∷ s,
    )
    else if proc == "registry.set_client_dcapi_mode"
    then (answer (obj end), (said "client_id" pi ∷ said "mode" pi ∷ said "actor" pi ∷ []) ∷ s)
    else if proc == "registry.create_api_key"
    then (
      answer (obj end),
      (said "client_id" pi ∷ said "prefix" pi ∷ said "secret_hash" pi ∷ []) ∷ s,
    )
    else if proc == "audit.append"
    then (answer (obj end), (said "actor" pi ∷ said "client_id" pi ∷ said "action" pi ∷ []) ∷ s)
    else if proc == "audit.log_deletion_request"
    then (
      answer (obj (member "id" (str "1") end)),
      (said "client_id" pi ∷ said "session_id" pi ∷ spoken_list (argument "attribute_names" pi))
          ∷ s,
    )
    else (raised (text (obj (error_members "registry:not_found" "no such client"))), s)

abbrev blank_error : Answer
blank_error = row (text (obj (error_members "" "no code")))

call_ok_iff_example :
    (outcome literal "registry.get_client_full" blank_error ≡ ok empty)
    ↔ Succeeds literal blank_error empty
call_ok_iff_example = call_ok_iff literal "registry.get_client_full" blank_error empty

abbrev not_found : Answer
not_found = raised (text (obj (error_members "registry:not_found" "no such client")))

call_code_iff_example :
    (outcome literal "registry.get_client_full" not_found
      ≡ err (from_result_code "err:registry:not_found"))
    ↔ ((code : String) × Rejects literal not_found code
        × (◌≡◌ {A = String} "err:registry:not_found" ("err:" <> code)))
call_code_iff_example =
    call_code_iff literal "registry.get_client_full" not_found "err:registry:not_found"

uses_round_trip_example :
    (items : Items) × (marshal_uses registration_uses ≡ some items)
    × (decode_items no_use (decode_use literal) items ≡ some registration_uses)
uses_round_trip_example = uses_round_trip literal literal-IsExact registration_uses ((_, refl), tt)
