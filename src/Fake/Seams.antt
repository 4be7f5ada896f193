-- ===== src/Fake/Seams.antt =====
-- What the in-memory store offers to tests beside the interface (internal/registrydb/fake.go). A list
-- here is a value, so the copy that the code makes is the list itself.
use mathlib.Core.Option.{get_or}
use eudi_api_registration.Base.{
  String, ◌≡◌, refl, none, some, List, [], Bool-cases, Option-cases, inl, inr, sym, ◌∙◌, ok, err,
  from_result_code,
}
use eudi_api_registration.Base.GoMap
use eudi_api_registration.Base.GoMap.{GoMap}
use eudi_api_registration.Json.{RawMessage}
use eudi_api_registration.Registry.{ClientFull}
use eudi_api_registration.Fake.{Fake, FakeApiKey, AuditLogEntry, store_client, write_audited}
use eudi_api_registration.Fake.Clients.{is_legal, transition_client}

unfoldable pub audit_log : Fake → List AuditLogEntry
audit_log f = f.audit_log

unfoldable pub api_keys : String → Fake → List FakeApiKey
api_keys client_id f = get_or (GoMap.get f.api_keys client_id) []

-- if c, ok := f.clients[clientID]; ok { ... }
unfoldable pub change_client : String → (ClientFull → ClientFull) → Fake → Fake
unfolding store_client
change_client client_id change f = elim (GoMap.get f.clients client_id) [
  | none ↦ f
  | some c ↦ store_client client_id (change c) f
]

abbrev pub test_set_client_status : String → String → Fake → Fake
test_set_client_status client_id status =
    change_client client_id (λ c. record c { status = status })

abbrev pub test_set_client_registrar_identity : String → String → String → Fake → Fake
test_set_client_registrar_identity client_id registry_uri client_identifier =
    change_client client_id
      (λ c. record c { registry_uri = registry_uri; client_identifier = client_identifier })

abbrev pub test_set_client_webhook : String → String → Fake → Fake
test_set_client_webhook client_id webhook_url =
    change_client client_id (λ c. record c { default_webhook = webhook_url })

abbrev pub test_set_client_policy : String → RawMessage → Fake → Fake
test_set_client_policy client_id policy =
    change_client client_id (λ c. record c { policy = policy })

changed_clients :
    (id : String) (change : ClientFull → ClientFull) (c : ClientFull) (f : Fake)
    → GoMap.get f.clients id ≡ some c
    → (change_client id change f).clients ≡ GoMap.put f.clients id (change c)
unfolding change_client store_client
changed_clients id change c f row = rw (row, change_client) refl

-- A transition that succeeds leaves the rows that the force-setter of the status leaves.
pub status_seam :
    (id to actor ref reason : String) (f : Fake)
    → (transition_client id to actor ref reason f).0 ≡ ok tt
    → (transition_client id to actor ref reason f).1.clients
      ≡ (test_set_client_status id to f).clients
unfolding transition_client write_audited
status_seam id to actor ref reason f good = elim (Option-cases (GoMap.get f.clients id)) [
  | inl missing ↦ absurd (cc (rw (missing, transition_client) at good))
  | inr (c, row) ↦ elim (Bool-cases (is_legal c.status to)) [
    | inl legal ↦
        rw (row, transition_client)
          (rw (legal, changed_clients id (λ c. record c { status = to }) c f row) refl)
    | inr illegal ↦ absurd (
        cc (
          let failed : (transition_client id to actor ref reason f).0
              ≡ err (from_result_code "err:registry:illegal_transition") =
            rw (row, transition_client) (rw illegal refl) in
          sym failed ∙ good))
  ]
]
