-- ===== src/Lifecycle.antt =====
-- internal/lifecycle/lifecycle.go: the service that drives one edge of a client's life over any
-- store.
pub mod Outcome
pub mod Activation
pub mod Offboarding
pub mod Verdict
pub mod Progress
use eudi_api_registration.Base.{
  String, Bool, true, false, not, ◌&&◌, ◌||◌, Option, none, some, List, [], ◌∷◌, ◌==◌, any,
  if◌then◌else◌, new_problem, Exec, pure, raise, ◌>>=◌, ◌>>◌,
}
use eudi_api_registration.Registry.{ClientFull, IntendedUse}
use eudi_api_registration.Registry.Store.{Store}
use eudi_api_registration.Url.{UrlParser, is_absolute_https_url}

-- The hook `TS5OK`; `none` is its zero value. The store is the section's parameter.
pub record Service : Type 0 where
  pub ts5_hook : Option (String → Bool)

abbrev pub new_service : Service
new_service = record { ts5_hook = some (λ _. true) }

unfoldable pub ts5_ok : Service → String → Bool
ts5_ok svc client_id = elim svc.ts5_hook [ some hook ↦ hook client_id | none ↦ true ]

-- RevokedAt == ""
abbrev pub is_live : IntendedUse → Bool
is_live iu = iu.revoked_at == ""

unfoldable pub any_non_revoked : List IntendedUse → Bool
any_non_revoked ius = any is_live ius

-- The predecessors of "active" for which the precondition runs.
unfoldable pub may_activate : String → Bool
may_activate status = status == "registered" || status == "suspended"

unfoldable pub has_identity : UrlParser → ClientFull → Bool
has_identity parse c =
    not (c.client_identifier == "" || not (is_absolute_https_url parse c.registry_uri))

module _ (S : Store) where
  -- The edge itself, and the purge that follows an offboarding.
  unfoldable pub drive_edge : String → String → String → String → String → Exec S.State (Unit {0})
  drive_edge client_id to_state actor evidence_ref reason = do
    S.transition_client client_id to_state actor evidence_ref reason
    if to_state == "offboarded" then S.purge_offboarded client_id actor else pure tt

module _ (S : Store) (parse : UrlParser) where
  unfoldable pub check_activation_preconditions : Service → ClientFull → Exec S.State (Unit {0})
  unfolding has_identity
  check_activation_preconditions svc c =
      if c.client_identifier == "" || not (is_absolute_https_url parse c.registry_uri)
      then raise (new_problem "err:client:registrarIdentityRequired")
      else do
        ius ← S.list_intended_uses c.id
        if not (any_non_revoked ius)
            then raise (new_problem "err:client:intendedUseRequired")
            else if not (ts5_ok svc c.id)
            then raise (new_problem "err:client:ts5CheckFailed")
            else pure tt

  -- The branch for the targets "active" and "offboarded", once the row has been read.
  unfoldable pub with_current :
      Service → String → String → String → String → String → ClientFull → Exec S.State (Unit {0})
  with_current svc client_id to_state actor evidence_ref reason current = do
    if to_state == "active" && may_activate current.status
        then check_activation_preconditions svc current
        else pure tt
    if to_state == "offboarded" && current.status == "offboarded"
        then S.purge_offboarded client_id actor
        else drive_edge S client_id to_state actor evidence_ref reason

  unfoldable pub transition :
      Service → String → String → String → String → String → Exec S.State (Unit {0})
  transition svc client_id to_state actor evidence_ref reason =
      if to_state == "active" || to_state == "offboarded"
      then (do
        current ← S.get_client_full client_id
        with_current svc client_id to_state actor evidence_ref reason current)
      else drive_edge S client_id to_state actor evidence_ref reason
