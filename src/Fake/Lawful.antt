-- ===== src/Fake/Lawful.antt =====
-- Lemmas for the contract of the in-memory store (internal/registrydb/fake.go).
use mathlib.Core.Option.{get_or}
use native.Mathlib.Nat.{le_trans}
use eudi_api_registration.Base.{
  Distinct, sym, ap, ◌∙◌, List, [], ◌∷◌, All, any, Bool-cases, inl, inr, String, true, ◌≤◌, ◌≡◌,
  refl, some, ◌&&◌, ◌==◌, arith, eq_iff, ok, Exec,
}
use eudi_api_registration.Base.GoMap
use eudi_api_registration.Base.GoMap.{get-put}
use eudi_api_registration.Json.{RawMessage}
use eudi_api_registration.Registry.{ClientFull}
use eudi_api_registration.Registry.States.{
  State, name, Edge, IsEdge, submit, file, confirm, activate, suspend, reactivate,
  offboard_suspended, offboard_active,
}
use eudi_api_registration.Registry.Contract.{Writes}
use eudi_api_registration.Fake.{Fake, write_audited}
use eudi_api_registration.Fake.Clients.{is_legal, legal_transitions}
use eudi_api_registration.Fake.Store.{fake_views, IsRow, IsValid, uses_of}

-- The table of `legalTransitions` is the diagram.
any-IsEdge :
    (from to : String) (edges : List (String × String))
    → All (λ (e : String × String). IsEdge e.0 e.1) edges
    → any (λ (e : String × String). e.0 == from && e.1 == to) edges ≡ true
    → IsEdge from to
any-IsEdge from to [] _ h = cc
any-IsEdge from to ((a, b) ∷ edges) (e, es) h = elim (Bool-cases (a == from && b == to)) [
  | inl hit ↦
      let p : a ≡ from = ground (arith, eq_iff a from) in
      let q : b ≡ to = ground (arith, eq_iff b to) in rw (← p, ← q) e
  | inr miss ↦ any-IsEdge from to edges es (rw miss at h)
]

abbrev along : {s t : State} → Edge s t → IsEdge (name s) (name t)
along {s} {t} e = record { source = s; target = t; from_source = refl; to_target = refl; edge = e }

legal_transitions-IsEdge : All (λ (e : String × String). IsEdge e.0 e.1) legal_transitions
legal_transitions-IsEdge = (
  along submit,
  (
    along file,
    (
      along confirm,
      (
        along activate,
        (
          along suspend,
          (along reactivate, (along offboard_suspended, (along offboard_active, tt))),
        ),
      ),
    ),
  ),
)

pub is_legal-IsEdge : (from to : String) → is_legal from to ≡ true → IsEdge from to
unfolding is_legal
is_legal-IsEdge from to h = any-IsEdge from to legal_transitions legal_transitions-IsEdge h

pub IsEdge-is_legal : (from to : String) → IsEdge from to → is_legal from to ≡ true
unfolding is_legal
IsEdge-is_legal from to e = rw (e.from_source, e.to_target) (go e.source e.target e.edge)
  where
    go : (s t : State) → Edge s t → is_legal (name s) (name t) ≡ true
    go s t submit = refl
    go s t file = refl
    go s t confirm = refl
    go s t activate = refl
    go s t suspend = refl
    go s t reactivate = refl
    go s t offboard_suspended = refl
    go s t offboard_active = refl

IsRow-grow :
    (f g : Fake) (id : String) (c : ClientFull) → f.seq ≤ g.seq → IsRow f id c → IsRow g id c
IsRow-grow f g id c le r = record {
  own_id = r.own_id;
  minted = (r.minted.0, le_trans r.minted.1 le, r.minted.2);
  known_status = r.known_status;
}

-- A method that leaves the client rows alone.
pub IsValid-same :
    (f g : Fake)
    → g.clients ≡ f.clients
    → g.intended_use_order ≡ f.intended_use_order
    → f.seq ≤ g.seq
    → IsValid f
    → IsValid g
IsValid-same f g same order le v = record {
  orders = λ j. rw order (v.orders j);
  rows = λ j x h. IsRow-grow f g j x le (v.rows j x (ap (λ m. GoMap.get m j) (sym same) ∙ h));
}

-- A method that writes one row.
pub IsValid-put :
    (f g : Fake) (id : String) (d : ClientFull)
    → g.clients ≡ GoMap.put f.clients id d
    → f.seq ≤ g.seq
    → IsRow g id d
    → ((j : String) → Distinct (get_or (GoMap.get g.intended_use_order j) []))
    → IsValid f
    → IsValid g
IsValid-put f g id d put le r orders v = record {
  orders = orders;
  rows = λ j x h.
      let e : GoMap.get (GoMap.put f.clients id d) j ≡ some x =
        ap (λ m. GoMap.get m j) (sym put) ∙ h in
      elim (Bool-cases (id == j)) [
        | inl same ↦
            let p : id ≡ j = (eq_iff id j).0 same in
            let q : d ≡ x = ground (arith, e, get-put f.clients id j d) in rw (← p, ← q) r
        | inr other ↦
            IsRow-grow f g j x le (v.rows j x (ground (arith, e, get-put f.clients id j d)))
      ];
}

-- A setter writes a row over another of the same identifier.
module _ (id : String) (c d : ClientFull) (actor action : String) (detail : RawMessage)
    (f : Fake) where
  write_audited-IsValid :
      GoMap.get f.clients id ≡ some c
      → d.id ≡ c.id
      → (IsValid f → (t : State) × (d.status ≡ name t))
      → IsValid f
      → IsValid (write_audited id d actor action detail f)
  unfolding write_audited
  write_audited-IsValid row same status v =
      let r = v.rows id c row in
      IsValid-put f _ id d refl (omega arith)
        (record {
          own_id = same ∙ r.own_id;
          minted = (r.minted.0, omega (arith, r.minted.1), r.minted.2);
          known_status = status v;
        })
        v.orders v

  pub write_audited-Writes :
      (op : Exec Fake (Unit {0}))
      → op f ≡ (ok tt, write_audited id d actor action detail f)
      → GoMap.get f.clients id ≡ some c
      → d.id ≡ c.id
      → (IsValid f → (t : State) × (d.status ≡ name t))
      → Writes fake_views op f id d
  write_audited-Writes op e row same status = record {
    succeeds = rw e;
    row = λ j. rw e (unfold write_audited in get-put f.clients id j d);
    same_uses = λ j. rw e (unfold write_audited uses_of in refl);
    valid = λ v. rw e (write_audited-IsValid row same status v);
  }

module _ (id : String) (f : Fake) where
  known : (c : ClientFull) → IsValid f → GoMap.get f.clients id ≡ some c → c.id ≡ id
  known c v row = (v.rows id c row).own_id
