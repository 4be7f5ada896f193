-- ===== src/Bridge/Agrees.antt =====
-- The production store over procedures that keep their promises (internal/registrydb/repo.go,
-- internal/registrydb/db.go).
use eudi_api_registration.Base.{String, ◌≡◌, Option, none, some, List, Exec}
use eudi_api_registration.Json.{Json, empty, text}
use eudi_api_registration.Registry.{ClientFull}
use eudi_api_registration.Registry.Store.{Store}
use eudi_api_registration.Wire.{Codec, IsExact}
use eudi_api_registration.Wire.Exact
use eudi_api_registration.Bridge.{Procedures}
use eudi_api_registration.Bridge.Store.{pg_store, append_audit}
use eudi_api_registration.Bridge.Serves.{Serves}

module _ (w : Codec) (L : IsExact w) where
  with_origins : ClientFull → Option (List String) → Option ClientFull
  with_origins a none = none
  with_origins a (some v) = some (record a { allowed_origins = v })

  with_emails : ClientFull → Option (List String) → Option ClientFull
  with_emails a none = none
  with_emails a (some v) = some (record a { contact_emails = v })

module _ (w : Codec) (S : Store) (run : Procedures S.State) where
  abbrev Same : {A : Type 0} → Exec S.State A → Exec S.State A → Type 0
  Same f g = (s : S.State) → f s ≡ g s

  -- What the two stores do alike, on every state.
  pub record Agrees : Type 0 where
    pub transition :
        (id to actor ref reason : String)
        → Same
            ((pg_store w run).transition_client id to actor ref reason)
            (S.transition_client id to actor ref reason)
    pub full : (id : String) → Same ((pg_store w run).get_client_full id) (S.get_client_full id)
    pub draft :
        (name email actor : String)
        → Same
            ((pg_store w run).create_draft_client name email actor)
            (S.create_draft_client name email actor)
    pub identity :
        (id uri identifier actor : String)
        → Same
            ((pg_store w run).set_client_registrar_identity id uri identifier actor)
            (S.set_client_registrar_identity id uri identifier actor)
    pub webhook :
        (id url actor : String)
        → Same
            ((pg_store w run).set_client_webhook id url actor)
            (S.set_client_webhook id url actor)
    pub origins :
        (id : String) (allowed : List String) (actor : String)
        → Same
            ((pg_store w run).set_client_allowed_origins id allowed actor)
            (S.set_client_allowed_origins id allowed actor)
    pub mode :
        (id mode actor : String)
        → Same
            ((pg_store w run).set_client_dcapi_mode id mode actor)
            (S.set_client_dcapi_mode id mode actor)
    pub key :
        (id prefix hash : String)
        → Same ((pg_store w run).create_api_key id prefix hash) (S.create_api_key id prefix hash)
    pub deletion :
        (id session : String) (names : List String)
        → Same
            ((pg_store w run).log_deletion_request id session names)
            (S.log_deletion_request id session names)
    pub purge :
        (id actor : String)
        → Same ((pg_store w run).purge_offboarded id actor) (S.purge_offboarded id actor)
    pub append :
        (actor id action : String) (detail : Json)
        → Same
            ((pg_store w run).append_audit actor id action (text detail))
            (S.append_audit actor id action (text detail))
    pub append_blank :
        (actor id action : String)
        → Same
            ((pg_store w run).append_audit actor id action empty)
            (S.append_audit actor id action empty)
