-- ===== src/Routes/Atomic/Requests.antt =====
-- The requests that move, register and give keys, the table of routes, and the gate in front of it
-- (routes).
use eudi_api_registration.Base.{String, ◌≡◌, some}
use eudi_api_registration.Registry.Store.{Store}
use eudi_api_registration.Registry.Contract.{Contract}
use eudi_api_registration.Lifecycle.{new_service, transition}
use eudi_api_registration.Lifecycle.Verdict.{Stranded}
use eudi_api_registration.Url.{UrlParser}
use eudi_api_registration.Routes.Clients.{ApiTransitionRequest}
use eudi_api_registration.Routes.Dispatch.{Request, drive}
use eudi_api_registration.Routes.Atomic.{Atomic}

module _ (S : Store) (K : Contract S) where
  open K use {views, view, uses, Valid}

  module _ (parse : UrlParser) where
    -- A request to offboard a client that the service has left with the purge undone: the client is
    -- moved to "offboarded" along an edge, and nothing else of the rows and uses has changed.
    pub record Unpurged (request : Request) (s t : S.State) : Type 0 where
      pub id : String
      pub req : ApiTransitionRequest
      pub asked : request ≡ drive id (some req)
      pub left :
          Stranded S K
            (transition S parse new_service id req.target_state "api" req.evidence_ref req.reason)
            s
            id
            req.target_state
            "api"
            req.evidence_ref
            req.reason
      pub state :
          t
          ≡ (transition S parse new_service id req.target_state "api" req.evidence_ref req.reason
              s).1
