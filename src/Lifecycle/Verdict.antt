-- ===== src/Lifecycle/Verdict.antt =====
-- Every call of `Service.Transition`, whatever the target: what a failure and a success mean
-- (internal/lifecycle/lifecycle.go).
use eudi_api_registration.Base.{
  String, ◌≡◌, ◌⊎◌, sym, ◌∙◌, ap, some, ◌==◌, if◌then◌else◌, inl, inr, ok, err, Error, Exec,
}
use mathlib.Core.Path.{subst}
use eudi_api_registration.Registry.{ClientFull}
use eudi_api_registration.Registry.Store.{Store}
use eudi_api_registration.Registry.States.{IsEdge}
use eudi_api_registration.Registry.Contract.{Contract, Writes}
use eudi_api_registration.Url.{UrlParser}
use eudi_api_registration.Lifecycle.{Service, transition}
use eudi_api_registration.Lifecycle.Outcome.{
  Outcome, refused, moved, retried, stranded, flip_and_purge, transition-Outcome,
}

module _ (S : Store) (K : Contract S) where
  open K use {view, uses}

  -- What a successful call has done: the client's row has the target state and is otherwise as it
  -- was, no other row and no use changed, and the call was an edge of the diagram, with a purge that
  -- succeeded if it was an offboarding, or the purge of a client that was offboarded already.
  pub record Reached (op : Exec S.State (Unit {0})) (s : S.State) (id to actor ref reason : String)
      : Type 0 where
    pub before : ClientFull
    pub was : view s id ≡ some before
    pub how :
        (IsEdge before.status to × (op s ≡ flip_and_purge S K id to actor ref reason s))
        ⊎ ((before.status ≡ "offboarded")
            × (to ≡ "offboarded")
            × (op s ≡ S.purge_offboarded id actor s))
    pub row :
        (j : String)
        → view (op s).1 j ≡ (if id == j then some (record before { status = to }) else view s j)
    pub same_uses : (j : String) → uses (op s).1 j ≡ uses s j

  Outcome-Reached :
      (op : Exec S.State (Unit {0})) (s : S.State) (id to actor ref reason : String)
      → Outcome S K op s id to actor ref reason
      → (op s).0 ≡ ok tt
      → Reached op s id to actor ref reason
  Outcome-Reached op s id to actor ref reason (refused e h) good = cc
  Outcome-Reached op s id to actor ref reason (stranded e c row legal target h) good = cc
  Outcome-Reached op s id to actor ref reason (moved c row legal how w) good = record {
    before = c;
    was = row;
    how = inl ((K.legal_iff c.status to).0 legal, how);
    row = w.row;
    same_uses = w.same_uses;
  }
  Outcome-Reached op s id to actor ref reason (retried c row off target how w) good =
      let same =
        subst (λ (t : String). Writes K.views op s id (record c { status = t })) (off ∙ sym target)
          w in
      record {
        before = c;
        was = row;
        how = inr (off, target, how);
        row = same.row;
        same_uses = same.same_uses;
      }

  -- What a call leaves whose purge has failed: the client has been moved to "offboarded" along an
  -- edge, its row is otherwise as it was, and no other row and no use has changed.
  pub record Stranded (op : Exec S.State (Unit {0})) (s : S.State) (id to actor ref reason : String)
      : Type 0 where
    pub before : ClientFull
    pub was : view s id ≡ some before
    pub along : IsEdge before.status "offboarded"
    pub target : to ≡ "offboarded"
    pub left : (op s).1 ≡ (S.transition_client id to actor ref reason s).1
    pub row :
        (j : String)
        → view (op s).1 j
          ≡ (if id == j then some (record before { status = "offboarded" }) else view s j)
    pub same_uses : (j : String) → uses (op s).1 j ≡ uses s j

  module _ (parse : UrlParser) (svc : Service) (id to actor ref reason : String) (s : S.State) where
    pub transition_fails :
        (e : Error)
        → (transition S parse svc id to actor ref reason s).0 ≡ err e
        → ((transition S parse svc id to actor ref reason s).1 ≡ s)
          ⊎ Stranded (transition S parse svc id to actor ref reason) s id to actor ref reason
    transition_fails e failed = go (transition-Outcome S K parse svc id to actor ref reason s)
      where
        op : Exec S.State (Unit {0})
        op = transition S parse svc id to actor ref reason

        go :
            Outcome S K op s id to actor ref reason
            → ((op s).1 ≡ s) ⊎ Stranded op s id to actor ref reason
        go (refused x h) = inl (ap (λ (r : _). r.1) h)
        go (moved c row legal how w) = absurd (cc w.succeeds)
        go (retried c row off target how w) = absurd (cc w.succeeds)
        go (stranded x c row legal target h) =
            let left : (op s).1 ≡ (S.transition_client id to actor ref reason s).1 =
              ap (λ (r : _). r.1) h in
            let w = K.transition_legal id to actor ref reason s c row legal in
            inr (record {
              before = c;
              was = row;
              along =
                  subst (λ (t : String). IsEdge c.status t) target
                    ((K.legal_iff c.status to).0 legal);
              target = target;
              left = left;
              row = λ j. rw (left, ← target) (w.row j);
              same_uses = λ j. rw left (w.same_uses j);
            })

    -- A transition that succeeds has moved the client to the target state along an edge of the
    -- lifecycle diagram, with a purge after it that succeeded if the target is "offboarded", or has
    -- found the client offboarded, where it is exactly a purge that succeeded; it has changed no other
    -- field of the client's row, no other client's row and no intended use.
    pub transition-Reached :
        (transition S parse svc id to actor ref reason s).0 ≡ ok tt
        → Reached (transition S parse svc id to actor ref reason) s id to actor ref reason
    transition-Reached =
        Outcome-Reached (transition S parse svc id to actor ref reason) s id to actor ref reason
          (transition-Outcome S K parse svc id to actor ref reason s)
