-- ===== src/Lifecycle/Outcome.antt =====
-- What one call of `Service.Transition` can do to the store, whatever the target
-- (internal/lifecycle/lifecycle.go).
use eudi_api_registration.Base.{
  String, true, false, not, ◌⊎◌, ◌&&◌, ◌||◌, ◌≡◌, refl, sym, ◌∙◌, some, List, ◌==◌, arith, eq_iff,
  eq_refl, if◌then◌else◌, Bool-cases, Option-cases, inl, inr, Result, ok, err, Error,
  from_result_code, new_problem, Exec, pure, when_ok, ◌>>◌,
}
use mathlib.Core.Path.{subst}
use eudi_api_registration.Registry.{ClientFull, IntendedUse}
use eudi_api_registration.Registry.Store.{Store}
use eudi_api_registration.Registry.Contract.{Contract, Writes, Sets, wrote}
use eudi_api_registration.Registry.Contract
use eudi_api_registration.Url.{UrlParser}
use eudi_api_registration.Lifecycle.{
  Service, ts5_ok, has_identity, any_non_revoked, may_activate, check_activation_preconditions,
  drive_edge, with_current, transition,
}

module _ (S : Store) (K : Contract S) where
  open K use {views, view, uses, Valid}

  -- The edge, and after an offboarding the purge, as one expression of the state.
  abbrev pub flip_and_purge :
      String → String → String → String → String → S.State → Result (Unit {0}) × S.State
  flip_and_purge id to actor ref reason s =
      if to == "offboarded"
      then S.purge_offboarded id actor (S.transition_client id to actor ref reason s).1
      else (S.transition_client id to actor ref reason s)

  -- A call on a client fails and changes nothing, moves the client along a legal edge, repeats the
  -- purge of an offboarded client, or has moved the client to "offboarded" when the purge fails.
  pub data Outcome (op : Exec S.State (Unit {0})) (s : S.State) (id to actor ref reason : String)
      : Type 0 where
    refused : (e : Error) → op s ≡ (err e, s) → Outcome op s id to actor ref reason
    moved :
        (c : ClientFull)
        → view s id ≡ some c
        → K.legal c.status to ≡ true
        → op s ≡ flip_and_purge id to actor ref reason s
        → Writes views op s id (record c { status = to })
        → Outcome op s id to actor ref reason
    retried :
        (c : ClientFull)
        → view s id ≡ some c
        → c.status ≡ "offboarded"
        → to ≡ "offboarded"
        → op s ≡ S.purge_offboarded id actor s
        → Writes views op s id c
        → Outcome op s id to actor ref reason
    stranded :
        (e : Error) (c : ClientFull)
        → view s id ≡ some c
        → K.legal c.status to ≡ true
        → to ≡ "offboarded"
        → op s ≡ (err e, (S.transition_client id to actor ref reason s).1)
        → Outcome op s id to actor ref reason

  pub Writes-then :
      (m n : Exec S.State (Unit {0})) (s : S.State) (id : String) (c d : ClientFull)
      → Writes views m s id c
      → Writes views n (m s).1 id d
      → Writes views (m >> n) s id d
  Writes-then m n s id c d w v = record {
    succeeds = rw w.succeeds v.succeeds;
    row = λ j. rw w.succeeds (ground (arith, v.row j, w.row j));
    same_uses = λ j. rw w.succeeds (v.same_uses j ∙ w.same_uses j);
    valid = λ h. rw w.succeeds (v.valid (w.valid h));
  }

  pub Writes-same :
      (m n : Exec S.State (Unit {0})) (s : S.State) (id : String) (c : ClientFull)
      → m s ≡ n s
      → Writes views m s id c
      → Writes views n s id c
  Writes-same m n s id c e w = record {
    succeeds = rw (← e) w.succeeds;
    row = λ j. rw (← e) (w.row j);
    same_uses = λ j. rw (← e) (w.same_uses j);
    valid = λ h. rw (← e) (w.valid h);
  }

  Outcome-same :
      (m n : Exec S.State (Unit {0})) (s : S.State) (id to actor ref reason : String)
      → m s ≡ n s
      → Outcome m s id to actor ref reason
      → Outcome n s id to actor ref reason
  Outcome-same m n s id to actor ref reason e (refused x h) = refused x (sym e ∙ h)
  Outcome-same m n s id to actor ref reason e (moved c h legal how w) =
      moved c h legal (sym e ∙ how) (Writes-same m n s id (record c { status = to }) e w)
  Outcome-same m n s id to actor ref reason e (retried c h off target how w) =
      retried c h off target (sym e ∙ how) (Writes-same m n s id c e w)
  Outcome-same m n s id to actor ref reason e (stranded x c h legal target how) =
      stranded x c h legal target (sym e ∙ how)

  Writes-pure :
      (m : Exec S.State (Unit {0})) (s : S.State) (id : String) (c : ClientFull)
      → Writes views m s id c
      → Writes views (m >> pure tt) s id c
  Writes-pure m s id c w = record {
    succeeds = rw w.succeeds;
    row = λ j. rw w.succeeds (w.row j);
    same_uses = λ j. rw w.succeeds (w.same_uses j);
    valid = λ h. rw w.succeeds (w.valid h);
  }

  -- The purge of an offboarded client fails without a trace, or leaves every row as it was.
  pub purge_cases :
      (id actor : String) (s : S.State) (c : ClientFull)
      → view s id ≡ some c
      → (c.status == "offboarded") ≡ true
      → ((e : Error) × (S.purge_offboarded id actor s ≡ (err e, s)))
        ⊎ Writes views (S.purge_offboarded id actor) s id c
  purge_cases id actor s c row off = go (K.purge_lem id actor s c row off)
    where
      go :
          Sets views (S.purge_offboarded id actor) s id (λ c d. d ≡ c)
          → ((e : Error) × (S.purge_offboarded id actor s ≡ (err e, s)))
            ⊎ Writes views (S.purge_offboarded id actor) s id c
      go (Contract.refused e h) = inl (e, h)
      go (wrote d d' found same w) = inr (
          subst (λ (x : ClientFull). Writes views (S.purge_offboarded id actor) s id x)
            (same ∙ ground (arith, found, row)) w)

  module _ (id to actor ref reason : String) (s : S.State) where
    -- An edge that is not an offboarding.
    pub plain_flip :
        (c : ClientFull)
        → view s id ≡ some c
        → K.legal c.status to ≡ true
        → (to == "offboarded") ≡ false
        → Writes views (drive_edge S id to actor ref reason) s id (record c { status = to })
    unfolding drive_edge
    plain_flip c row legal on = rw on (
        Writes-pure (S.transition_client id to actor ref reason) s id (record c { status = to })
          (K.transition_legal id to actor ref reason s c row legal))

    legal-eq :
        (c : ClientFull)
        → view s id ≡ some c
        → K.legal c.status to ≡ true
        → drive_edge S id to actor ref reason s ≡ flip_and_purge id to actor ref reason s
    unfolding drive_edge
    legal-eq c row legal =
        let flip = S.transition_client id to actor ref reason in
        let w = K.transition_legal id to actor ref reason s c row legal in
        elim (Bool-cases (to == "offboarded")) [
          | inl off ↦ rw (off, w.succeeds) refl
          | inr on ↦ rw on (when_pure (flip s).0 (flip s).1 w.succeeds)
        ]
      where
        when_pure :
            (r : Result (Unit {0})) (t : S.State) → r ≡ ok tt → when_ok r (λ _. pure tt) t ≡ (r, t)
        when_pure (ok u) t h = refl
        when_pure (err e) t h = refl

    after_flip :
        (c : ClientFull)
        → view s id ≡ some c
        → K.legal c.status to ≡ true
        → (to == "offboarded") ≡ true
        → Outcome (drive_edge S id to actor ref reason) s id to actor ref reason
    after_flip c row legal off =
        let flip = S.transition_client id to actor ref reason in
        let w = K.transition_legal id to actor ref reason s c row legal in
        let how = legal-eq c row legal in
        elim (purge_cases id actor (flip s).1 (record c { status = to }) (w.row id ∙ simp eq_refl)
          off) [
            | inl (e, failed) ↦
                stranded e c row legal ((eq_iff to "offboarded").0 off) (how ∙ rw off failed)
            | inr v ↦ moved c row legal how (
                Writes-same (flip >> S.purge_offboarded id actor) _ s id (record c { status = to })
                  (rw w.succeeds (sym (how ∙ rw off refl)))
                  (Writes-then flip (S.purge_offboarded id actor) s id (record c { status = to })
                    (record c { status = to }) w v))
          ]

    drive_edge-Outcome : Outcome (drive_edge S id to actor ref reason) s id to actor ref reason
    unfolding drive_edge
    drive_edge-Outcome = elim (Option-cases (view s id)) [
      | inl missing ↦
          refused (from_result_code "err:registry:not_found")
            (rw (K.transition_missing id to actor ref reason s missing))
      | inr (c, row) ↦ elim (Bool-cases (K.legal c.status to)) [
        | inl legal ↦ elim (Bool-cases (to == "offboarded")) [
          | inl off ↦ after_flip c row legal off
          | inr on ↦ moved c row legal (legal-eq c row legal) (plain_flip c row legal on)
        ]
        | inr illegal ↦
            refused (from_result_code "err:registry:illegal_transition")
              (rw (K.transition_illegal id to actor ref reason s c row illegal))
      ]
    ]

  -- The precondition leaves the store alone, and passes exactly when its three tests do.
  abbrev pub precondition : UrlParser → Service → ClientFull → List IntendedUse → Result (Unit {0})
  precondition parse svc c ius =
      if not (has_identity parse c)
      then err (new_problem "err:client:registrarIdentityRequired")
      else if not (any_non_revoked ius)
      then err (new_problem "err:client:intendedUseRequired")
      else if not (ts5_ok svc c.id)
      then err (new_problem "err:client:ts5CheckFailed")
      else ok tt

  module _ (parse : UrlParser) (svc : Service) where
    pub check_precondition :
        (c : ClientFull) (s : S.State)
        → check_activation_preconditions S parse svc c s
          ≡ (precondition parse svc c (uses s c.id), s)
    unfolding check_activation_preconditions
    check_precondition c s = ground (arith, K.list_uses c.id s)

    -- The gate that a target passes before anything is written.
    abbrev pub gate : String → ClientFull → List IntendedUse → Result (Unit {0})
    gate to c ius =
        if to == "active" && may_activate c.status then precondition parse svc c ius else ok tt

    module _ (id to actor ref reason : String) (s : S.State) where
      pub with_current_lem :
          (c : ClientFull)
          → with_current S parse svc id to actor ref reason c s
            ≡ when_ok
                (gate to c (uses s c.id))
                (λ _.
                  if to == "offboarded" && c.status == "offboarded"
                  then S.purge_offboarded id actor
                  else drive_edge S id to actor ref reason)
                s
      unfolding with_current
      with_current_lem c = elim (Bool-cases (to == "active" && may_activate c.status)) [
        | inl gated ↦ rw (gated, check_precondition c s)
        | inr free ↦ rw free
      ]

      purge-Outcome :
          (c : ClientFull)
          → view s id ≡ some c
          → (to == "offboarded" && c.status == "offboarded") ≡ true
          → Outcome (S.purge_offboarded id actor) s id to actor ref reason
      purge-Outcome c row again = elim (purge_cases id actor s c row (ground arith)) [
        | inl (e, failed) ↦ refused e failed
        | inr w ↦
            retried c row (ground (arith, eq_iff c.status "offboarded"))
              (ground (arith, eq_iff to "offboarded")) refl w
      ]

      with_current-Outcome :
          (c : ClientFull)
          → view s id ≡ some c
          → Outcome (with_current S parse svc id to actor ref reason c) s id to actor ref reason
      with_current-Outcome c row = go (gate to c (uses s c.id)) refl
        where
          go :
              (g : Result (Unit {0}))
              → gate to c (uses s c.id) ≡ g
              → Outcome (with_current S parse svc id to actor ref reason c) s id to actor ref reason
          go (err e) h = refused e (with_current_lem c ∙ rw h)
          go (ok _) h = elim (Bool-cases (to == "offboarded" && c.status == "offboarded")) [
            | inl again ↦
                Outcome-same (S.purge_offboarded id actor) _ s id to actor ref reason
                  (sym (with_current_lem c ∙ rw (h, again))) (purge-Outcome c row again)
            | inr first ↦
                Outcome-same (drive_edge S id to actor ref reason) _ s id to actor ref reason
                  (sym (with_current_lem c ∙ rw (h, first)))
                  (drive_edge-Outcome id to actor ref reason s)
          ]

      pub transition-Outcome :
          Outcome (transition S parse svc id to actor ref reason) s id to actor ref reason
      unfolding transition
      transition-Outcome = elim (Bool-cases (to == "active" || to == "offboarded")) [
        | inl special ↦ elim (Option-cases (view s id)) [
          | inl missing ↦
              refused (from_result_code "err:registry:not_found")
                (rw (special, K.get_full id s, missing))
          | inr (c, row) ↦ rw special (
              Outcome-same (with_current S parse svc id to actor ref reason c) _ s id to actor ref
                reason (rw (K.get_full id s, row)) (with_current-Outcome c row))
        ]
        | inr plain ↦ rw plain (drive_edge-Outcome id to actor ref reason s)
      ]
