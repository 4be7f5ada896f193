-- ===== src/Bridge/Serves.antt =====
-- What the database procedures promise to the bridge (internal/registrydb/repo.go,
-- internal/registrydb/db.go): a procedure reads its arguments by key, does what the method of a store
-- does, and answers with an envelope.
use eudi_api_registration.Base.{
  String, ◌≡◌, ◌≢◌, Option, none, some, List, ◌==◌, ◌<>◌, if◌then◌else◌, Result, ok, err,
  from_result_code, Exec,
}
use eudi_api_registration.Json.{Json, str, arr, obj, Members, end, member, empty, text, strings}
use eudi_api_registration.Registry.{ClientFull}
use eudi_api_registration.Registry.Store.{Store}
use eudi_api_registration.Bridge.{Answer, row, raised, Procedures}

abbrev pub find_member : String → Members → Option Json
find_member key end = none
find_member key (member name j rest) =
    let other = find_member key rest in if key == name then some j else other

-- pi_data->key
abbrev pub argument : String → Json → Option Json
argument key (obj members) = find_member key members
argument key other = none

abbrev pub Says : Json → String → String → Type 0
Says pi key s = argument key pi ≡ some (str s)

-- An argument that is left out when it is empty.
abbrev pub Offers : Json → String → String → Type 0
Offers pi key s = argument key pi ≡ (if s == "" then none else some (str s))

abbrev pub success_members : Json → Members
success_members j = member "data" j (member "result" (str "success") end)

abbrev pub error_members : String → String → Members
error_members code message =
    member "code" (str code) (member "result" (str "error") (member "message" (str message) end))

-- What a procedure answers when the method answers `result`; `shows` relates the data of a success
-- to the method's value.
pub data Answers {St : Type 0} {A : Type 0} (shows : Json → A → Type 0)
    : Answer × St → Result A × St → Type 0 where
  done :
      (j : Json) (a : A) (t : St)
      → shows j a
      → Answers shows (row (text (obj (success_members j))), t) (ok a, t)
  returned :
      (code message : String) (t : St)
      → code ≢ ""
      → Answers shows
          (row (text (obj (error_members code message))), t)
          (err (from_result_code ("err:" <> code)), t)
  thrown :
      (code message : String) (t : St)
      → code ≢ ""
      → Answers shows
          (raised (text (obj (error_members code message))), t)
          (err (from_result_code ("err:" <> code)), t)

-- The data of a call that makes a row: its identifier.
abbrev pub ShowsId : Json → String → Type 0
ShowsId j id = j ≡ obj (member "id" (str id) end)

-- The columns of a client's row by their names.
abbrev pub client_members : ClientFull → Json → Json → Members
client_members c policy doc = member "id" (str c.id) (
    member "name" (str c.name) (
      member "status" (str c.status) (
        member "slug" (str c.slug) (
          member "registry_uri" (str c.registry_uri) (
            member "client_identifier" (str c.client_identifier) (
              member "default_webhook_url" (str c.default_webhook) (
                member "allowed_origins" (arr (strings c.allowed_origins)) (
                  member "contact_emails" (arr (strings c.contact_emails))
                    (member "wrp_document" doc (member "policy" policy end))))))))))

-- The data of a call that reads a client: its row, with the document and the policy as JSON.
abbrev pub ShowsClient : Json → ClientFull → Type 0
ShowsClient j c =
    (policy : Json) × (doc : Json) × (c.policy ≡ text policy)
    × (c.wrp_document ≡ text doc)
    × (j ≡ obj (client_members c policy doc))

module _ (S : Store) (run : Procedures S.State) where
  abbrev pub Answering :
      {A : Type 0} → (Json → A → Type 0) → String → Json → Exec S.State A → Type 0
  Answering shows proc pi op = (s : S.State) → Answers shows (run proc pi s) (op s)

  abbrev pub Runs : String → Json → Exec S.State (Unit {0}) → Type 0
  Runs = Answering (λ j a. Unit)

  pub record Serves : Type 0 where
    pub transition :
        (pi : Json) (id to actor ref reason : String)
        → Says pi "client_id" id
        → Says pi "to_state" to
        → Says pi "actor" actor
        → Says pi "evidence_ref" ref
        → Says pi "reason" reason
        → Runs "registry.transition_client" pi (S.transition_client id to actor ref reason)
    pub full :
        (pi : Json) (id : String)
        → Says pi "client_id" id
        → Answering ShowsClient "registry.get_client_full" pi (S.get_client_full id)
    pub draft :
        (pi : Json) (name email actor : String)
        → Says pi "name" name
        → Offers pi "email" email
        → Says pi "actor" actor
        → Answering ShowsId "registry.create_draft_client" pi
            (S.create_draft_client name email actor)
    pub identity :
        (pi : Json) (id uri identifier actor : String)
        → Says pi "client_id" id
        → Says pi "registry_uri" uri
        → Says pi "client_identifier" identifier
        → Says pi "actor" actor
        → Runs "registry.set_client_registrar_identity" pi
            (S.set_client_registrar_identity id uri identifier actor)
    pub webhook :
        (pi : Json) (id url actor : String)
        → Says pi "client_id" id
        → Says pi "webhook_url" url
        → Says pi "actor" actor
        → Runs "registry.set_client_webhook" pi (S.set_client_webhook id url actor)
    pub origins :
        (pi : Json) (id : String) (allowed : List String) (actor : String)
        → Says pi "client_id" id
        → argument "allowed_origins" pi ≡ some (arr (strings allowed))
        → Says pi "actor" actor
        → Runs "registry.set_client_allowed_origins" pi
            (S.set_client_allowed_origins id allowed actor)
    pub mode :
        (pi : Json) (id mode actor : String)
        → Says pi "client_id" id
        → Says pi "mode" mode
        → Says pi "actor" actor
        → Runs "registry.set_client_dcapi_mode" pi (S.set_client_dcapi_mode id mode actor)
    pub key :
        (pi : Json) (id prefix hash : String)
        → Says pi "client_id" id
        → Says pi "prefix" prefix
        → Says pi "secret_hash" hash
        → Runs "registry.create_api_key" pi (S.create_api_key id prefix hash)
    pub append :
        (pi : Json) (actor id action : String) (detail : Json)
        → Says pi "actor" actor
        → Offers pi "client_id" id
        → Says pi "action" action
        → argument "detail" pi ≡ some detail
        → Runs "audit.append" pi (S.append_audit actor id action (text detail))
    -- no detail is the empty object
    pub blank_detail :
        (actor id action : String) (s : S.State)
        → S.append_audit actor id action empty s ≡ S.append_audit actor id action (text (obj end)) s
    pub deletion :
        (pi : Json) (id session : String) (names : List String)
        → Says pi "client_id" id
        → Says pi "session_id" session
        → argument "attribute_names" pi ≡ some (arr (strings names))
        → Answering ShowsId "audit.log_deletion_request" pi
            (S.log_deletion_request id session names)
    pub purge :
        (pi : Json) (id actor : String)
        → Says pi "client_id" id
        → Says pi "actor" actor
        → Runs "registry.purge_offboarded" pi (S.purge_offboarded id actor)
