-- ===== src/Lifecycle/Offboarding.antt =====
-- The target "offboarded" (internal/lifecycle/lifecycle.go), and a second call for it.
use eudi_api_registration.Base.{
  true, ◌==◌, String, ◌≡◌, refl, ◌∙◌, some, arith, eq_refl, eq_iff, ok,
}
use eudi_api_registration.Registry.{ClientFull}
use eudi_api_registration.Registry.Store.{Store}
use eudi_api_registration.Registry.Contract.{Contract, Writes}
use eudi_api_registration.Url.{UrlParser}
use eudi_api_registration.Lifecycle.{Service, transition}
use eudi_api_registration.Lifecycle.Outcome.{with_current_lem}
use eudi_api_registration.Lifecycle.Verdict.{transition-Reached, Stranded}

-- The purge of an offboarded client does not fail, and leaves every row as it was.
abbrev pub PurgesWork : (S : Store) → Contract S → Type 0
PurgesWork S K =
    (id actor : String) (s : S.State) (c : ClientFull)
    → K.views.view s id ≡ some c
    → (c.status == "offboarded") ≡ true
    → Writes K.views (S.purge_offboarded id actor) s id c

module _ (S : Store) (K : Contract S) (parse : UrlParser) (svc : Service)
    (id actor ref reason : String) (s : S.State) where
  open K use {view}

  -- An offboarded client is not refused: the call is the purge and nothing else.
  offboarded-eq_purge :
      (c : ClientFull)
      → view s id ≡ some c
      → c.status ≡ "offboarded"
      → transition S parse svc id "offboarded" actor ref reason s ≡ S.purge_offboarded id actor s
  unfolding transition
  offboarded-eq_purge c row off =
      rw (K.get_full id s, row)
        (with_current_lem S K parse svc id "offboarded" actor ref reason s c
          ∙ ground (arith, eq_iff c.status "offboarded"))

module _ (S : Store) (K : Contract S) (works : PurgesWork S K) (parse : UrlParser) (svc : Service)
    (id actor ref reason : String) (s : S.State) where
  open K use {view}

  offboarded_retry :
      (c : ClientFull)
      → view s id ≡ some c
      → c.status ≡ "offboarded"
      → ((transition S parse svc id "offboarded" actor ref reason s).0 ≡ ok tt)
        × ((j : String)
            → view (transition S parse svc id "offboarded" actor ref reason s).1 j ≡ view s j)
  offboarded_retry c row off =
      let w = works id actor s c row ((eq_iff c.status "offboarded").1 off) in
      rw (offboarded-eq_purge S K parse svc id actor ref reason s c row off)
        (w.succeeds, λ j. ground (arith, w.row j, eq_iff id j))

-- When the purge of an offboarded client does not fail, a call for "offboarded" that has succeeded can
-- be made again, by anybody and with any reason: it succeeds too, and leaves every client's row as the
-- first call left it.
pub offboard_again :
    (S : Store) (K : Contract S) (works : PurgesWork S K) (parse : UrlParser) (svc : Service)
    (id actor ref reason actor' ref' reason' : String) (s : S.State)
    → (transition S parse svc id "offboarded" actor ref reason s).0 ≡ ok tt
    → let t = (transition S parse svc id "offboarded" actor ref reason s).1 in
      let again = transition S parse svc id "offboarded" actor' ref' reason' t in
      (again.0 ≡ ok tt) × ((j : String) → K.views.view again.1 j ≡ K.views.view t j)
offboard_again S K works parse svc id actor ref reason actor' ref' reason' s good =
    let r = transition-Reached S K parse svc id "offboarded" actor ref reason s good in
    offboarded_retry S K works parse svc id actor' ref' reason'
      (transition S parse svc id "offboarded" actor ref reason s).1
      (record r.before { status = "offboarded" }) (r.row id ∙ simp eq_refl) refl

-- A call for "offboarded" whose purge has failed can be made again: what the second call does is
-- exactly the purge that was left, on the state that the edge has left, and so also fails exactly if
-- that purge does.
pub offboard_resumes :
    (S : Store) (K : Contract S) (parse : UrlParser) (svc : Service)
    (id actor ref reason actor' ref' reason' : String) (s : S.State)
    → Stranded S K
        (transition S parse svc id "offboarded" actor ref reason)
        s
        id
        "offboarded"
        actor
        ref
        reason
    → let t = (transition S parse svc id "offboarded" actor ref reason s).1 in
      let again = transition S parse svc id "offboarded" actor' ref' reason' t in
      again
      ≡ S.purge_offboarded id actor' (S.transition_client id "offboarded" actor ref reason s).1
offboard_resumes S K parse svc id actor ref reason actor' ref' reason' s left =
    offboarded-eq_purge S K parse svc id actor' ref' reason'
      (transition S parse svc id "offboarded" actor ref reason s).1
      (record left.before { status = "offboarded" }) (left.row id ∙ simp eq_refl) refl
    ∙ rw left.left refl
