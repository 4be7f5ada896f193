-- ===== src/Lifecycle/Activation.antt =====
-- The target "active" (internal/lifecycle/lifecycle.go).
use eudi_api_registration.Base.{
  List, [], ◌∷◌, String, true, ◌≡◌, ◌≢◌, ◌⊎◌, ◌↔◌, refl, sym, ◌∙◌, some, arith, eq_iff,
  if◌then◌else◌, Bool-cases, inl, inr, ok, refuse,
}
use mathlib.Core.List.{Memᴰ}
use eudi_api_registration.Registry.{ClientFull, IntendedUse}
use eudi_api_registration.Registry.Store.{Store}
use eudi_api_registration.Registry.States.{IsEdge-active_iff}
use eudi_api_registration.Registry.Contract.{Contract}
use eudi_api_registration.Url.{UrlParser, is_absolute_https_url}
use eudi_api_registration.Lifecycle.{
  Service, is_live, ts5_ok, any_non_revoked, may_activate, has_identity, drive_edge, with_current,
  transition,
}
use eudi_api_registration.Lifecycle.Outcome.{precondition, with_current_lem}

-- What a client needs to be activated.
pub record IsReady (parse : UrlParser) (svc : Service) (id : String) (c : ClientFull)
    (ius : List IntendedUse) : Type 0 where
  pub predecessor : (c.status ≡ "registered") ⊎ (c.status ≡ "suspended")
  pub identified : c.client_identifier ≢ ""
  pub https : is_absolute_https_url parse c.registry_uri ≡ true
  pub live_use : (iu : IntendedUse) × Memᴰ iu ius × (iu.revoked_at ≡ "")
  pub verified : ts5_ok svc id ≡ true

pub live_iff :
    (ius : List IntendedUse)
    → (any_non_revoked ius ≡ true) ↔ ((iu : IntendedUse) × Memᴰ iu ius × (iu.revoked_at ≡ ""))
unfolding any_non_revoked
live_iff ius = (some_live ius, λ (iu, m, h). live_row ius iu m h)
  where
    some_live :
        (ius : List IntendedUse)
        → any_non_revoked ius ≡ true
        → (iu : IntendedUse) × Memᴰ iu ius × (iu.revoked_at ≡ "")
    some_live [] h = absurd (cc h)
    some_live (iu ∷ ius) h = elim (Bool-cases (is_live iu)) [
      | inl live ↦ (iu, Memᴰ.head refl, (eq_iff iu.revoked_at "").0 live)
      | inr revoked ↦
          let rest = some_live ius (rw revoked at h) in (rest.0, Memᴰ.tail rest.1, rest.2)
    ]

    live_row :
        (ius : List IntendedUse) (iu : IntendedUse)
        → Memᴰ iu ius
        → iu.revoked_at ≡ ""
        → any_non_revoked ius ≡ true
    live_row [] iu m h = elim m [ ]
    live_row (x ∷ xs) iu (Memᴰ.head e) h = rw (← e, h) refl
    live_row (x ∷ xs) iu (Memᴰ.tail m) h = ground (arith, live_row xs iu m h)

may_activate_iff :
    (status : String)
    → (may_activate status ≡ true) ↔ ((status ≡ "registered") ⊎ (status ≡ "suspended"))
unfolding may_activate
may_activate_iff status = ground (arith, eq_iff status "registered", eq_iff status "suspended")

module _ (S : Store) (K : Contract S) where
  open K use {view, uses, Valid, legal}

  legal-active : (status : String) → legal status "active" ≡ may_activate status
  legal-active status = ground (
    arith,
    (K.legal_iff status "active").0,
    (K.legal_iff status "active").1,
    (IsEdge-active_iff status).0,
    (IsEdge-active_iff status).1,
    (may_activate_iff status).0,
    (may_activate_iff status).1,
  )

  module _ (parse : UrlParser) (svc : Service) (id actor ref reason : String) (s : S.State)
      (c : ClientFull) (row : view s id ≡ some c) where
    -- The edge alone: a store that knows the client moves it or says that the edge is illegal.
    edge_verdict : drive_edge S id "active" actor ref reason s ≡ (
        if may_activate c.status
        then (ok tt, (S.transition_client id "active" actor ref reason s).1)
        else (refuse "registry:illegal_transition", s))
    unfolding drive_edge
    edge_verdict = elim (Bool-cases (may_activate c.status)) [
      | inl may ↦
          let w =
            K.transition_legal id "active" actor ref reason s c row (legal-active c.status ∙ may) in
          rw may (rw w.succeeds)
      | inr cannot ↦ rw cannot (
          rw (
            K.transition_illegal id "active" actor ref reason s c row
              (legal-active c.status ∙ cannot)))
    ]

    activate-with_current :
        transition S parse svc id "active" actor ref reason s
        ≡ with_current S parse svc id "active" actor ref reason c s
    unfolding transition
    activate-with_current = rw (K.get_full id s, row)

    activate-eq_verdict : (transition S parse svc id "active" actor ref reason s).0 ≡ (
        if may_activate c.status
        then precondition S K parse svc c (uses s c.id)
        else refuse "registry:illegal_transition")
    activate-eq_verdict =
        rw (activate-with_current, with_current_lem S K parse svc id "active" actor ref reason s c)
          (ground (arith, edge_verdict))

    -- The three tests of the precondition, as facts.
    precondition_iff :
        Valid s
        → (precondition S K parse svc c (uses s c.id) ≡ ok tt) ↔ (
            (c.client_identifier ≢ "")
            × (is_absolute_https_url parse c.registry_uri ≡ true)
            × (any_non_revoked (uses s id) ≡ true)
            × (ts5_ok svc id ≡ true))
    unfolding has_identity
    precondition_iff valid =
        rw (K.own_id id s c valid row) (ground (arith, eq_iff c.client_identifier ""))

    -- On a client of a valid store, a call for "active" succeeds exactly when the client is ready:
    -- its status is "registered" or "suspended", its registrar identity is recorded with an absolute
    -- https URL, it has an intended use that is not revoked, and the verification hook agrees.
    pub activate_iff :
        Valid s
        → ((transition S parse svc id "active" actor ref reason s).0 ≡ ok tt)
          ↔ IsReady parse svc id c (uses s id)
    activate_iff valid = (ready, activated)
      where
        ready :
            (transition S parse svc id "active" actor ref reason s).0 ≡ ok tt
            → IsReady parse svc id c (uses s id)
        ready good =
            let e = sym activate-eq_verdict ∙ good in
            elim (Bool-cases (may_activate c.status)) [
              | inl may ↦
                  let t = (precondition_iff valid).0 (rw may at e) in
                  record {
                    predecessor = (may_activate_iff c.status).0 may;
                    identified = t.0;
                    https = t.1;
                    live_use = (live_iff (uses s id)).0 t.2;
                    verified = t.3;
                  }
              | inr cannot ↦ absurd (cc (rw cannot at e))
            ]

        activated :
            IsReady parse svc id c (uses s id)
            → (transition S parse svc id "active" actor ref reason s).0 ≡ ok tt
        activated r =
            activate-eq_verdict
            ∙ rw ((may_activate_iff c.status).1 r.predecessor) (
                (precondition_iff valid).1
                  (r.identified, r.https, (live_iff (uses s id)).1 r.live_use, r.verified))

    -- From any status but "registered" and "suspended", a call for "active" is an illegal transition
    -- and changes nothing, whatever the client's identity, its intended uses and the hook are.
    pub activate_illegal :
        c.status ≢ "registered"
        → c.status ≢ "suspended"
        → transition S parse svc id "active" actor ref reason s
          ≡ (refuse "registry:illegal_transition", s)
    activate_illegal a b =
        rw (activate-with_current, with_current_lem S K parse svc id "active" actor ref reason s c)
          (ground (arith, edge_verdict, (may_activate_iff c.status).0))
