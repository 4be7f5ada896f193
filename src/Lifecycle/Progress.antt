-- ===== src/Lifecycle/Progress.antt =====
-- How a client comes into service: the drives that lead to "active"
-- (internal/lifecycle/lifecycle.go).
use eudi_api_registration.Base.{
  List, [], ◌∷◌, String, true, false, ◌≡◌, ◌≢◌, ◌⊎◌, refl, sym, ap, ◌∙◌, some, arith, eq_iff,
  eq_refl, ◌==◌, if◌then◌else◌, inl, inr, Bool-cases, Exec, pure, ◌>>◌,
}
use mathlib.Core.List.{Memᴰ}
use eudi_api_registration.Registry.{ClientFull, IntendedUse}
use eudi_api_registration.Registry.Store.{Store}
use eudi_api_registration.Registry.States.{
  State, draft, evidence_submitted, filed_with_registrar, registered, active, suspended, offboarded,
  name, IsEdge, submit, file, confirm, activate, reactivate,
}
use eudi_api_registration.Registry.Contract.{Contract, Writes}
use eudi_api_registration.Url.{UrlParser, is_absolute_https_url}
use eudi_api_registration.Lifecycle.{Service, ts5_ok, drive_edge, transition}
use eudi_api_registration.Lifecycle.Activation.{IsReady, activate_iff}
use eudi_api_registration.Lifecycle.Outcome.{
  refused, moved, retried, stranded, Writes-then, Writes-same, plain_flip, transition-Outcome,
}

-- The edges by which a client comes nearer to "active".
pub data Onward : State → State → Type 0 where
  submitting : Onward draft evidence_submitted
  filing : Onward evidence_submitted filed_with_registrar
  confirming : Onward filed_with_registrar registered
  activating : Onward registered active
  resuming : Onward suspended active

pub data Way : State → List State → Type 0 where
  arrived : Way active []
  onward : (a b : State) (bs : List State) → Onward a b → Way b bs → Way a (b ∷ bs)

onward_edge : (a b : State) → Onward a b → (from : String) → from ≡ name a → IsEdge from (name b)
onward_edge a b submitting from h = record {
  source = a;
  target = b;
  from_source = h;
  to_target = refl;
  edge = submit;
}
onward_edge a b filing from h = record {
  source = a;
  target = b;
  from_source = h;
  to_target = refl;
  edge = file;
}
onward_edge a b confirming from h = record {
  source = a;
  target = b;
  from_source = h;
  to_target = refl;
  edge = confirm;
}
onward_edge a b activating from h = record {
  source = a;
  target = b;
  from_source = h;
  to_target = refl;
  edge = activate;
}
onward_edge a b resuming from h = record {
  source = a;
  target = b;
  from_source = h;
  to_target = refl;
  edge = reactivate;
}

-- What activation asks for beside the status.
pub record IsBacked (parse : UrlParser) (svc : Service) (id : String) (c : ClientFull)
    (ius : List IntendedUse) : Type 0 where
  pub identified : c.client_identifier ≢ ""
  pub https : is_absolute_https_url parse c.registry_uri ≡ true
  pub live_use : (iu : IntendedUse) × Memᴰ iu ius × (iu.revoked_at ≡ "")
  pub verified : ts5_ok svc id ≡ true

-- The drives that are left from each status.
abbrev pub to_active : State → List State
to_active draft = evidence_submitted ∷ filed_with_registrar ∷ registered ∷ active ∷ []
to_active evidence_submitted = filed_with_registrar ∷ registered ∷ active ∷ []
to_active filed_with_registrar = registered ∷ active ∷ []
to_active registered = active ∷ []
to_active active = []
to_active suspended = active ∷ []
to_active offboarded = []

module _ (S : Store) (parse : UrlParser) (svc : Service) (id actor ref reason : String) where
  -- One drive after the other, until one fails.
  pub drive_all : List State → Exec S.State (Unit {0})
  drive_all [] = pure tt
  drive_all (t ∷ ts) = transition S parse svc id (name t) actor ref reason >> drive_all ts

module _ (S : Store) (K : Contract S) (parse : UrlParser) (svc : Service)
    (id actor ref reason : String) where
  open K use {view, uses, Valid, views}

  drive : State → Exec S.State (Unit {0})
  drive t = transition S parse svc id (name t) actor ref reason

  module _ (s : S.State) (c : ClientFull) (row : view s id ≡ some c) where
    plain_step :
        (to : String)
        → (to == "active") ≡ false
        → (to == "offboarded") ≡ false
        → K.legal c.status to ≡ true
        → Writes views
            (transition S parse svc id to actor ref reason)
            s
            id
            (record c { status = to })
    unfolding transition
    plain_step to a b legal =
        Writes-same S K (drive_edge S id to actor ref reason)
          (transition S parse svc id to actor ref reason) s id (record c { status = to })
          (rw (a, b) refl) (plain_flip S K id to actor ref reason s c row legal b)

    ready :
        (c.status ≡ "registered") ⊎ (c.status ≡ "suspended")
        → IsBacked parse svc id c (uses s id)
        → IsReady parse svc id c (uses s id)
    ready before backed = record {
      predecessor = before;
      identified = backed.identified;
      https = backed.https;
      live_use = backed.live_use;
      verified = backed.verified;
    }

    active_step :
        Valid s
        → IsReady parse svc id c (uses s id)
        → Writes views
            (transition S parse svc id "active" actor ref reason)
            s
            id
            (record c { status = "active" })
    active_step valid ready =
        elim (transition-Outcome S K parse svc id "active" actor ref reason s) [
          | refused e h ↦
              absurd (
                cc (rw h at (activate_iff S K parse svc id actor ref reason s c row valid).1 ready))
          | moved d found legal how w ↦
              let same : d ≡ c = ground (arith, sym found ∙ row) in rw (← same) w
          | retried d found off target how w ↦ absurd (ground (arith, eq_iff "active" "offboarded"))
          | stranded e d found legal target how ↦
              absurd (ground (arith, eq_iff "active" "offboarded"))
        ]

    step :
        (a b : State)
        → Onward a b
        → c.status ≡ name a
        → Valid s
        → IsBacked parse svc id c (uses s id)
        → Writes views (drive b) s id (record c { status = name b })
    unfolding drive
    step a b submitting h valid backed =
        plain_step (name b) refl refl
          ((K.legal_iff c.status (name b)).1 (onward_edge a b submitting c.status h))
    step a b filing h valid backed =
        plain_step (name b) refl refl
          ((K.legal_iff c.status (name b)).1 (onward_edge a b filing c.status h))
    step a b confirming h valid backed =
        plain_step (name b) refl refl
          ((K.legal_iff c.status (name b)).1 (onward_edge a b confirming c.status h))
    step a b activating h valid backed = active_step valid (ready (inl h) backed)
    step a b resuming h valid backed = active_step valid (ready (inr h) backed)

  after_drive :
      (c : ClientFull) (status : String) (before after : List IntendedUse)
      → after ≡ before
      → IsBacked parse svc id c before
      → IsBacked parse svc id (record c { status = status }) after
  after_drive c status before after e backed = record {
    identified = backed.identified;
    https = backed.https;
    live_use = rw e backed.live_use;
    verified = backed.verified;
  }

  kept :
      (s : S.State) (c : ClientFull)
      → view s id ≡ some c
      → c.status ≡ "active"
      → (j : String)
      → view s j ≡ (if id == j then some (record c { status = "active" }) else view s j)
  kept s c row h j = elim (Bool-cases (id == j)) [
    | inl same ↦
        rw same
          (rw (← (eq_iff id j).0 same) row ∙ ap (λ status. some (record c { status = status })) h)
    | inr other ↦ rw other refl
  ]

  -- A client that is backed comes into service by the drives of any way from its status.
  way_lem :
      (a : State) (ts : List State) (s : S.State) (c : ClientFull)
      → Way a ts
      → view s id ≡ some c
      → c.status ≡ name a
      → Valid s
      → IsBacked parse svc id c (uses s id)
      → Writes views
          (drive_all S parse svc id actor ref reason ts)
          s
          id
          (record c { status = "active" })
  unfolding drive drive_all
  way_lem a _ s c arrived row h valid backed = record {
    succeeds = refl;
    row = λ j. kept s c row h j;
    same_uses = λ j. refl;
    valid = λ v. v;
  }
  way_lem a _ s c (onward _ b bs e rest) row h valid backed =
      let w = step s c row a b e h valid backed in
      let t = (drive b s).1 in
      Writes-then S K (drive b) (drive_all S parse svc id actor ref reason bs) s id
        (record c { status = name b }) (record c { status = "active" }) w
        (way_lem b bs t (record c { status = name b }) rest (w.row id ∙ rw (eq_refl id) refl) refl
          (w.valid valid) (after_drive c (name b) (uses s id) (uses t id) (w.same_uses id) backed))

  way : (a : State) → name a ≢ "offboarded" → Way a (to_active a)
  way draft h =
      onward _ _ _ submitting
        (onward _ _ _ filing (onward _ _ _ confirming (onward _ _ _ activating arrived)))
  way evidence_submitted h =
      onward _ _ _ filing (onward _ _ _ confirming (onward _ _ _ activating arrived))
  way filed_with_registrar h = onward _ _ _ confirming (onward _ _ _ activating arrived)
  way registered h = onward _ _ _ activating arrived
  way active h = arrived
  way suspended h = onward _ _ _ resuming arrived
  way offboarded h = absurd (h refl)

  -- Over any store that keeps the contract, a client of a valid store that is not offboarded and has
  -- a registrar identity with an absolute https URL and an intended use that is not revoked, and with
  -- which the verification hook agrees, comes into service by the drives that are left from its
  -- status: they all succeed, its status is then "active", and nothing else of any row or intended use
  -- has changed.
  pub reaches_active :
      (a : State) (s : S.State) (c : ClientFull)
      → view s id ≡ some c
      → c.status ≡ name a
      → name a ≢ "offboarded"
      → Valid s
      → IsBacked parse svc id c (uses s id)
      → Writes views
          (drive_all S parse svc id actor ref reason (to_active a))
          s
          id
          (record c { status = "active" })
  reaches_active a s c row h on valid backed =
      way_lem a (to_active a) s c (way a on) row h valid backed
