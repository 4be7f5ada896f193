-- ===== src/Registry/Contract.antt =====
-- What a store promises to the code above it, as laws over two views of its state: the row of a
-- client, and the intended uses of a client. The lifecycle service and the handlers are proved from
-- these laws, and `Fake.Contract` fills them for the in-memory store.
use eudi_api_registration.Base.{
  any, String, Bool, true, false, ◌≡◌, ◌↔◌, Option, none, some, List, map, ◌==◌, All, Distinct,
  if◌then◌else◌, Result, ok, err, Error, from_result_code, refuse, Exec,
}
use mathlib.Core.List.{Memᴰ}
use eudi_api_registration.Json.{RawMessage}
use eudi_api_registration.Registry.{ClientFull, IntendedUse, lacks_id}
use eudi_api_registration.Registry.States.{IsEdge}
use eudi_api_registration.Registry.Store.{Store}

abbrev pub found : Option ClientFull → Result ClientFull
found none = refuse "registry:not_found"
found (some c) = ok c

-- The two views, with what is always true of a state that the store's own methods produce.
pub record Views (S : Store) : Type 1 where
  pub Valid : S.State → Type 0
  pub view : S.State → String → Option ClientFull
  pub uses : S.State → String → List IntendedUse

module _ {S : Store} (V : Views S) where
  -- `op` fails and leaves no trace.
  abbrev pub Refuses {ℓ} : {A : Type ℓ} → Exec S.State A → S.State → Error → Type ℓ
  Refuses op s e = op s ≡ (err e, s)

  -- `op` succeeds, and the row of one client becomes `c`; no other row and no use changes.
  pub record Writes (op : Exec S.State (Unit {0})) (s : S.State) (id : String) (c : ClientFull)
      : Type 0 where
    pub succeeds : (op s).0 ≡ ok tt
    pub row : (j : String) → V.view (op s).1 j ≡ (if id == j then some c else V.view s j)
    pub same_uses : (j : String) → V.uses (op s).1 j ≡ V.uses s j
    pub valid : V.Valid s → V.Valid (op s).1

  -- A setter of one row: it fails and leaves no trace, or writes a row that `Q` relates to the old.
  pub data Sets (op : Exec S.State (Unit {0})) (s : S.State) (id : String)
      (Q : ClientFull → ClientFull → Type 0) : Type 0 where
    refused : (e : Error) → op s ≡ (err e, s) → Sets op s id Q
    wrote : (c d : ClientFull) → V.view s id ≡ some c → Q c d → Writes op s id d → Sets op s id Q

abbrev pub business_key : IntendedUse → String
business_key iu = iu.intended_use_id

-- `rows` hold the intended uses of a call: each row is one of them but for its internal
-- identifier, and the key of each of them has a row.
pub record Stored (ius rows : List IntendedUse) : Type 0 where
  pub from_call :
      All
        (λ (row : IntendedUse).
          (iu : IntendedUse) × Memᴰ iu ius × (row ≡ record iu { id = row.id }))
        rows
  pub has_row :
      All
        (λ (iu : IntendedUse).
          (row : IntendedUse) × Memᴰ row rows × (row.intended_use_id ≡ iu.intended_use_id))
        ius

-- A row that `CreateDraftClient` writes.
pub record IsDraft (id name : String) (c : ClientFull) : Type 0 where
  pub own_id : c.id ≡ id
  pub named : c.name ≡ name
  pub draft : c.status ≡ "draft"

module _ {S : Store} (V : Views S) where
  -- A successful `SaveWRPDocument`.
  pub record Saves (op : Exec S.State (Unit {0})) (s : S.State) (id : String) (doc : RawMessage)
      (ius : List IntendedUse) (c : ClientFull) : Type 0 where
    pub succeeds : (op s).0 ≡ ok tt
    pub row :
        (j : String)
        → V.view (op s).1 j
          ≡ (if id == j then some (record c { wrp_document = doc }) else V.view s j)
    pub stored : Stored ius (V.uses (op s).1 id)
    pub once : V.Valid s → Distinct (map business_key (V.uses (op s).1 id))
    pub other_uses : (j : String) → (id == j) ≡ false → V.uses (op s).1 j ≡ V.uses s j
    pub valid : V.Valid s → V.Valid (op s).1

  -- A successful `CreateDraftClient`: the identifier that it returns was not in use.
  pub record Creates (op : Exec S.State String) (s : S.State) (name : String) : Type 0 where
    pub id : String
    pub succeeds : (op s).0 ≡ ok id
    pub fresh : V.view s id ≡ none
    pub client : ClientFull
    pub drafted : IsDraft id name client
    pub row : (j : String) → V.view (op s).1 j ≡ (if id == j then some client else V.view s j)
    pub same_uses : (j : String) → V.uses (op s).1 j ≡ V.uses s j
    pub valid : V.Valid (op s).1

pub record Contract (S : Store) : Type 1 where
  pub views : Views S
  pub open views use {Valid, view, uses}
  -- the verdict of the store on an edge
  pub legal : String → String → Bool
  pub legal_iff : (from to : String) → (legal from to ≡ true) ↔ IsEdge from to
  pub own_id :
      (id : String) (s : S.State) (c : ClientFull) → Valid s → view s id ≡ some c → c.id ≡ id
  pub get_full : (id : String) (s : S.State) → S.get_client_full id s ≡ (found (view s id), s)
  pub list_uses : (id : String) (s : S.State) → S.list_intended_uses id s ≡ (ok (uses s id), s)
  pub list_same : (s : S.State) → (S.list_clients_by_state s).1 ≡ s
  pub transition_missing :
      (id to actor ref reason : String) (s : S.State)
      → view s id ≡ none
      → Refuses views
          (S.transition_client id to actor ref reason)
          s
          (from_result_code "err:registry:not_found")
  pub transition_illegal :
      (id to actor ref reason : String) (s : S.State) (c : ClientFull)
      → view s id ≡ some c
      → legal c.status to ≡ false
      → Refuses views
          (S.transition_client id to actor ref reason)
          s
          (from_result_code "err:registry:illegal_transition")
  pub transition_legal :
      (id to actor ref reason : String) (s : S.State) (c : ClientFull)
      → view s id ≡ some c
      → legal c.status to ≡ true
      → Writes views (S.transition_client id to actor ref reason) s id (record c { status = to })
  pub purge_missing :
      (id actor : String) (s : S.State)
      → view s id ≡ none
      → Refuses views (S.purge_offboarded id actor) s (from_result_code "err:registry:not_found")
  pub purge_early :
      (id actor : String) (s : S.State) (c : ClientFull)
      → view s id ≡ some c
      → (c.status == "offboarded") ≡ false
      → Refuses views (S.purge_offboarded id actor) s (from_result_code "err:registry:invalid")
  -- A purge may fail, and is then as if it had not been called.
  pub purge_lem :
      (id actor : String) (s : S.State) (c : ClientFull)
      → view s id ≡ some c
      → (c.status == "offboarded") ≡ true
      → Sets views (S.purge_offboarded id actor) s id (λ c d. d ≡ c)
  pub identity_missing :
      (id uri identifier actor : String) (s : S.State)
      → view s id ≡ none
      → Refuses views
          (S.set_client_registrar_identity id uri identifier actor)
          s
          (from_result_code "err:registry:not_found")
  pub identity_done :
      (id uri identifier actor : String) (s : S.State) (c : ClientFull)
      → view s id ≡ some c
      → Writes views
          (S.set_client_registrar_identity id uri identifier actor)
          s
          id
          (record c { registry_uri = uri; client_identifier = identifier })
  pub webhook_lem :
      (id url actor : String) (s : S.State)
      → Sets views
          (S.set_client_webhook id url actor)
          s
          id
          (λ c d. d ≡ record c { default_webhook = url })
  pub origins_lem :
      (id : String) (origins : List String) (actor : String) (s : S.State)
      → Sets views
          (S.set_client_allowed_origins id origins actor)
          s
          id
          (λ c d. d ≡ record c { allowed_origins = origins })
  pub mode_lem :
      (id mode actor : String) (s : S.State)
      → Sets views
          (S.set_client_dcapi_mode id mode actor)
          s
          id
          (λ c d. (p : RawMessage) × (d ≡ record c { policy = p }))
  pub save_missing :
      (id : String) (doc : RawMessage) (ius : List IntendedUse) (actor : String) (s : S.State)
      → view s id ≡ none
      → Refuses views
          (S.save_wrp_document id doc ius actor)
          s
          (from_result_code "err:registry:not_found")
  pub save_invalid :
      (id : String) (doc : RawMessage) (ius : List IntendedUse) (actor : String) (s : S.State)
      (c : ClientFull)
      → view s id ≡ some c
      → any lacks_id ius ≡ true
      → Refuses views
          (S.save_wrp_document id doc ius actor)
          s
          (from_result_code "err:registry:invalid")
  pub save_done :
      (id : String) (doc : RawMessage) (ius : List IntendedUse) (actor : String) (s : S.State)
      (c : ClientFull)
      → view s id ≡ some c
      → any lacks_id ius ≡ false
      → Saves views (S.save_wrp_document id doc ius actor) s id doc ius c
  pub create_done :
      (name email actor : String) (s : S.State)
      → Valid s
      → Creates views (S.create_draft_client name email actor) s name
  pub key_lem :
      (id prefix hash : String) (s : S.State)
      → Sets views (S.create_api_key id prefix hash) s id (λ c d. d ≡ c)
