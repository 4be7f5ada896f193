-- ===== src/Fake/Contract.antt =====
-- The contract of the in-memory store, law by law (internal/registrydb/fake.go).
use eudi_api_registration.Base.{
  String, true, false, ◌≡◌, ◌↔◌, ok, refl, none, some, List, ◌==◌, any, arith, from_result_code,
}
use eudi_api_registration.Base.GoMap
use eudi_api_registration.Json.{RawMessage}
use eudi_api_registration.Registry.{ClientFull, IntendedUse, lacks_id}
use eudi_api_registration.Registry.States.{IsEdge}
use eudi_api_registration.Registry.Contract.{Contract, Refuses, found, wrote}
use eudi_api_registration.Fake.{Fake}
use eudi_api_registration.Fake.Clients.{
  is_legal, transition_client, get_client_full, list_clients_by_state,
}
use eudi_api_registration.Fake.Settings.{set_client_registrar_identity}
use eudi_api_registration.Fake.IntendedUses.{list_intended_uses, save_wrp_document}
use eudi_api_registration.Fake.Evidence.{purge_offboarded}
use eudi_api_registration.Fake.Store.{fake_store, fake_views, uses_of}
use eudi_api_registration.Fake.Lawful.{is_legal-IsEdge, IsEdge-is_legal}
use eudi_api_registration.Fake.Setters
use eudi_api_registration.Fake.Documents

pub get_full : (id : String) (f : Fake) → get_client_full id f ≡ (found (GoMap.get f.clients id), f)
unfolding get_client_full
get_full id f = ground arith

pub transition_missing :
    (id to actor ref reason : String) (f : Fake)
    → GoMap.get f.clients id ≡ none
    → Refuses fake_views
        (transition_client id to actor ref reason)
        f
        (from_result_code "err:registry:not_found")
unfolding transition_client
transition_missing id to actor ref reason f missing = rw (missing, transition_client)

pub transition_illegal :
    (id to actor ref reason : String) (f : Fake) (c : ClientFull)
    → GoMap.get f.clients id ≡ some c
    → is_legal c.status to ≡ false
    → Refuses fake_views
        (transition_client id to actor ref reason)
        f
        (from_result_code "err:registry:illegal_transition")
unfolding transition_client
transition_illegal id to actor ref reason f c row illegal = rw (row, transition_client) (rw illegal)

pub purge_missing :
    (id actor : String) (f : Fake)
    → GoMap.get f.clients id ≡ none
    → Refuses fake_views (purge_offboarded id actor) f (from_result_code "err:registry:not_found")
unfolding purge_offboarded
purge_missing id actor f missing = rw (missing, purge_offboarded)

pub purge_early :
    (id actor : String) (f : Fake) (c : ClientFull)
    → GoMap.get f.clients id ≡ some c
    → (c.status == "offboarded") ≡ false
    → Refuses fake_views (purge_offboarded id actor) f (from_result_code "err:registry:invalid")
unfolding purge_offboarded
purge_early id actor f c row early = rw (row, purge_offboarded) (rw early)

pub identity_missing :
    (id uri identifier actor : String) (f : Fake)
    → GoMap.get f.clients id ≡ none
    → Refuses fake_views
        (set_client_registrar_identity id uri identifier actor)
        f
        (from_result_code "err:registry:not_found")
unfolding set_client_registrar_identity
identity_missing id uri identifier actor f missing = rw (missing, set_client_registrar_identity)

pub save_missing :
    (id : String) (doc : RawMessage) (ius : List IntendedUse) (actor : String) (f : Fake)
    → GoMap.get f.clients id ≡ none
    → Refuses fake_views
        (save_wrp_document id doc ius actor)
        f
        (from_result_code "err:registry:not_found")
unfolding save_wrp_document
save_missing id doc ius actor f missing = rw (missing, save_wrp_document)

pub save_invalid :
    (id : String) (doc : RawMessage) (ius : List IntendedUse) (actor : String) (f : Fake)
    (c : ClientFull)
    → GoMap.get f.clients id ≡ some c
    → any lacks_id ius ≡ true
    → Refuses fake_views
        (save_wrp_document id doc ius actor)
        f
        (from_result_code "err:registry:invalid")
unfolding save_wrp_document
save_invalid id doc ius actor f c row unnamed = rw (row, save_wrp_document) (rw unnamed)

pub list_uses : (id : String) (f : Fake) → list_intended_uses id f ≡ (ok (uses_of f id), f)
unfolding list_intended_uses uses_of
list_uses id f = refl

pub list_same : (f : Fake) → (list_clients_by_state f).1 ≡ f
unfolding list_clients_by_state
list_same f = refl

-- The table of transitions of the store allows exactly the edges of the lifecycle diagram.
pub legal_iff : (from to : String) → (is_legal from to ≡ true) ↔ IsEdge from to
legal_iff from to = (is_legal-IsEdge from to, IsEdge-is_legal from to)

pub own_id :
    (id : String) (f : Fake) (c : ClientFull)
    → fake_views.Valid f
    → GoMap.get f.clients id ≡ some c
    → c.id ≡ id
own_id id f c v row = (v.rows id c row).own_id

abbrev pub fake_contract : Contract fake_store
fake_contract = record {
  views = fake_views;
  legal = is_legal;
  legal_iff = legal_iff;
  own_id = own_id;
  get_full = get_full;
  list_uses = list_uses;
  list_same = list_same;
  transition_missing = transition_missing;
  transition_illegal = transition_illegal;
  transition_legal = Setters.transition_legal;
  purge_missing = purge_missing;
  purge_early = purge_early;
  purge_lem = λ id actor f c row off. wrote c c row refl (Setters.purge_done id actor f c row off);
  identity_missing = identity_missing;
  identity_done = Setters.identity_done;
  webhook_lem = Setters.webhook_lem;
  origins_lem = Setters.origins_lem;
  mode_lem = Setters.mode_lem;
  save_missing = save_missing;
  save_invalid = save_invalid;
  save_done = Documents.save_done;
  create_done = Documents.create_done;
  key_lem = Setters.key_lem;
}
