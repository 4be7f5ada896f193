-- ===== src/Fake/Clients.antt =====
-- The client rows: lifecycle, listing, creation and keys (internal/registrydb/fake.go).
use eudi_api_registration.Base.{
  String, Bool, ◌&&◌, none, some, List, [], ◌∷◌, ◌++◌, map, ◌==◌, any, if◌then◌else◌, ok, refuse,
  Exec,
}
use eudi_api_registration.Base.GoMap
use eudi_api_registration.Base.GoMap.{GoMap}
use eudi_api_registration.Base.Sort.{before, sort}
use eudi_api_registration.Json.{RawMessage, empty, text, obj, end, string_detail}
use eudi_api_registration.Registry.{ClientFull, ClientSummary}
use eudi_api_registration.Fake.{Fake, next_id, write_audited}
use eudi_api_registration.Fake.Slug.{slugify}
use mathlib.Core.Option.{get_or}

abbrev pub legal_transitions : List (String × String)
legal_transitions =
    ("draft", "evidence_submitted")
    ∷ ("evidence_submitted", "filed_with_registrar")
    ∷ ("filed_with_registrar", "registered")
    ∷ ("registered", "active")
    ∷ ("active", "suspended")
    ∷ ("suspended", "active")
    ∷ ("suspended", "offboarded")
    ∷ ("active", "offboarded")
    ∷ []

-- legalTransitions[[2]string{from, to}]
unfoldable pub is_legal : String → String → Bool
is_legal from to =
    any (λ (edge : String × String). edge.0 == from && edge.1 == to) legal_transitions

abbrev pub transition_detail : String → String → String → String → RawMessage
transition_detail from to evidence_ref reason =
    string_detail
      (("evidence_ref", evidence_ref) ∷ ("from", from) ∷ ("reason", reason) ∷ ("to", to) ∷ [])

unfoldable pub transition_client : String → String → String → String → String → Exec Fake (Unit {0})
transition_client client_id to_state actor evidence_ref reason f =
    elim (GoMap.get f.clients client_id) [
      | none ↦ (refuse "registry:not_found", f)
      | some c ↦
          if is_legal c.status to_state
          then (
            ok tt,
            write_audited client_id (record c { status = to_state }) actor "client.transition"
                (transition_detail c.status to_state evidence_ref reason) f,
          )
          else (refuse "registry:illegal_transition", f)
    ]

unfoldable pub get_client_full : String → Exec Fake ClientFull
get_client_full client_id f = elim (GoMap.get f.clients client_id) [
  | none ↦ (refuse "registry:not_found", f)
  | some c ↦ (ok c, f)
]

abbrev pub summary : Fake → ClientFull → ClientSummary
summary f c = record {
  id = c.id;
  name = c.name;
  status = c.status;
  slug = c.slug;
  updated_at = get_or (GoMap.get f.client_updated_at c.id) 0;
}

-- grouped[c.Status] = append(grouped[c.Status], s), for each client in turn
unfoldable pub group : GoMap (List ClientSummary) → List ClientSummary → GoMap (List ClientSummary)
group grouped [] = grouped
group grouped (s ∷ rest) =
    group (GoMap.put grouped s.status (get_or (GoMap.get grouped s.status) [] ++ s ∷ [])) rest

abbrev pub by_id : ClientSummary → ClientSummary → Bool
by_id a b = before a.id b.id

unfoldable pub list_clients_by_state : Exec Fake (GoMap (List ClientSummary))
list_clients_by_state f = (
  ok (GoMap.update_all (sort by_id) (group GoMap.empty (map (summary f) (GoMap.values f.clients)))),
  f,
)

unfoldable pub draft_client : String → String → String → ClientFull
draft_client id name email = record {
  id = id;
  name = name;
  status = "draft";
  registry_uri = "";
  client_identifier = "";
  default_webhook = "";
  allowed_origins = [];
  policy = text (obj end);
  slug = slugify name id;
  wrp_document = empty;
  contact_emails = if email == "" then [] else email ∷ [];
}

unfoldable pub create_draft_client : String → String → String → Exec Fake String
unfolding next_id
create_draft_client name email actor f =
    let (id, f1) = next_id f in
    (
      ok id,
      write_audited id (draft_client id name email) actor "client.create"
          (string_detail (("name", name) ∷ [])) f1,
    )

-- f.apiKeys[clientID] = append(f.apiKeys[clientID], k)
abbrev pub with_key : String → String → String → Fake → Fake
with_key client_id prefix secret_hash f = record f {
  api_keys = GoMap.put f.api_keys client_id (
      get_or (GoMap.get f.api_keys client_id) []
      ++ record { prefix = prefix; secret_hash = secret_hash } ∷ []);
}

unfoldable pub create_api_key : String → String → String → Exec Fake (Unit {0})
create_api_key client_id prefix secret_hash f = elim (GoMap.get f.clients client_id) [
  | none ↦ (refuse "registry:not_found", f)
  | some _ ↦ (ok tt, with_key client_id prefix secret_hash f)
]
