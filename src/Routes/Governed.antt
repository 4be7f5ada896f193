-- ===== src/Routes/Governed.antt =====
-- The invariant of a registry that the handlers are checked against: what a client in service has
-- (routes, internal/lifecycle/lifecycle.go).
use eudi_api_registration.Base.{
  String, true, ◌≡◌, ◌≢◌, ◌⊎◌, refl, ap, ◌∙◌, inl, inr, some, List, [], ◌∷◌, ◌==◌, All, arith,
  eq_iff, Bool-cases, Result, ok, err, Exec, ◌>>=◌,
}
use mathlib.Core.List.{Memᴰ}
use eudi_api_registration.Json.{RawMessage}
use eudi_api_registration.Registry.{ClientFull, IntendedUse}
use eudi_api_registration.Registry.Store.{Store}
use eudi_api_registration.Registry.Contract.{
  Contract, Writes, Sets, refused, wrote, Stored, Saves, Creates,
}
use eudi_api_registration.Lifecycle.{any_non_revoked, has_identity}
use eudi_api_registration.Lifecycle.Activation.{live_iff}
use eudi_api_registration.Url.{UrlParser}

module _ (S : Store) (K : Contract S) (parse : UrlParser) where
  open K use {views, view, uses, Valid}

  abbrev pub IsInService : ClientFull → Type 0
  IsInService c = (c.status ≡ "active") ⊎ (c.status ≡ "suspended")

  -- What a client in service has.
  abbrev pub IsBacked : ClientFull → List IntendedUse → Type 0
  IsBacked c ius = IsInService c → (has_identity parse c ≡ true) × (any_non_revoked ius ≡ true)

  pub record Governed (s : S.State) : Type 0 where
    pub valid : Valid s
    pub backed : (id : String) (c : ClientFull) → view s id ≡ some c → IsBacked c (uses s id)

  -- What reads after a write leaves the state of the write.
  pub then-same {ℓ κ} :
      {A : Type ℓ} {B : Type κ} (op : Exec S.State A) (k : A → Exec S.State B) (s : S.State)
      → ((a : A) (t : S.State) → (k a t).1 ≡ t)
      → ((op >>= k) s).1 ≡ (op s).1
  then-same op k s quiet = go (op s).0 refl
    where
      go : (r : Result _) → (op s).0 ≡ r → ((op >>= k) s).1 ≡ (op s).1
      go (ok a) e = rw e (quiet a (op s).1)
      go (err x) e = rw e

  pub get_full-same : (id : String) (s : S.State) → (S.get_client_full id s).1 ≡ s
  get_full-same id s = rw (K.get_full id s)

  pub then-Governed {ℓ κ} :
      {A : Type ℓ} {B : Type κ} (op : Exec S.State A) (k : A → Exec S.State B) (s : S.State)
      → ((a : A) (t : S.State) → (k a t).1 ≡ t)
      → Governed (op s).1
      → Governed ((op >>= k) s).1
  then-Governed op k s quiet g = rw (then-same op k s quiet) g

  pub Writes-Governed :
      (op : Exec S.State (Unit {0})) (s : S.State) (id : String) (d : ClientFull)
      → Writes views op s id d
      → IsBacked d (uses s id)
      → Governed s
      → Governed (op s).1
  Writes-Governed op s id d w backed g = record {
    valid = w.valid g.valid;
    backed = λ j c row. rw (w.same_uses j) (elim (Bool-cases (id == j)) [
      | inl same ↦
          let p : id ≡ j = (eq_iff id j).0 same in
          let q : d ≡ c = ground (arith, w.row j, row, same) in rw (← p, ← q) backed
      | inr other ↦ g.backed j c (ground (arith, w.row j, row, other))
    ]);
  }

  IsBacked-like :
      (c d : ClientFull) (ius : List IntendedUse)
      → (d.status ≡ c.status) × (has_identity parse d ≡ has_identity parse c)
      → IsBacked c ius
      → IsBacked d ius
  IsBacked-like c d ius (status, identity) backed live =
      let t = backed (rw (← status) live) in (identity ∙ t.0, t.1)

  pub Sets-Governed :
      (op : Exec S.State (Unit {0})) (s : S.State) (id : String)
      (Q : ClientFull → ClientFull → Type 0)
      → ((c d : ClientFull)
          → Q c d
          → (d.status ≡ c.status) × (has_identity parse d ≡ has_identity parse c))
      → Sets views op s id Q
      → Governed s
      → Governed (op s).1
  Sets-Governed op s id Q keeps (refused e h) g = rw h g
  Sets-Governed op s id Q keeps (wrote c d row q w) g =
      Writes-Governed op s id d w (IsBacked-like c d (uses s id) (keeps c d q) (g.backed id c row))
        g

  All-get {ℓ κ} : {A : Type ℓ} (P : A → Type κ) (xs : List A) (x : A) → All P xs → Memᴰ x xs → P x
  All-get P [] x h m = elim m [ ]
  All-get P (y ∷ xs) x (p, h) (Memᴰ.head e) = rw e p
  All-get P (y ∷ xs) x (p, h) (Memᴰ.tail m) = All-get P xs x h m

  Stored-live :
      (ius rows : List IntendedUse)
      → Stored ius rows
      → ius ≢ []
      → All (λ (iu : IntendedUse). iu.revoked_at ≡ "") ius
      → any_non_revoked rows ≡ true
  Stored-live [] rows st some_use live = absurd (some_use refl)
  Stored-live (iu ∷ rest) rows st some_use live =
      let kept = st.has_row.0 in
      let source = All-get _ rows kept.0 st.from_call kept.1 in
      (live_iff rows).1 (
        kept.0,
        kept.1,
        ap (λ (r : IntendedUse). r.revoked_at) source.2
            ∙ All-get (λ (u : IntendedUse). u.revoked_at ≡ "") (iu ∷ rest) source.0 live source.1,
      )

  -- A document whose intended uses are live leaves some live row behind.
  pub Saves-Governed :
      (op : Exec S.State (Unit {0})) (s : S.State) (id : String) (doc : RawMessage)
      (ius : List IntendedUse) (c : ClientFull)
      → Saves views op s id doc ius c
      → view s id ≡ some c
      → ius ≢ []
      → All (λ (iu : IntendedUse). iu.revoked_at ≡ "") ius
      → Governed s
      → Governed (op s).1
  unfolding has_identity
  Saves-Governed op s id doc ius c w row some_use live g = record {
    valid = w.valid g.valid;
    backed = λ j d here. elim (Bool-cases (id == j)) [
      | inl same ↦
          let p : id ≡ j = (eq_iff id j).0 same in
          let q : record c { wrp_document = doc } ≡ d = ground (arith, w.row j, here, same) in
          rw (← p, ← q)
            (λ live_status. (
              (g.backed id c row live_status).0,
              Stored-live ius (uses (op s).1 id) w.stored some_use live,
            ))
      | inr other ↦ rw (w.other_uses j other) (g.backed j d (ground (arith, w.row j, here, other)))
    ];
  }

  pub Creates-Governed :
      (op : Exec S.State String) (s : S.State) (name : String)
      → Creates views op s name
      → Governed s
      → Governed (op s).1
  Creates-Governed op s name w g = record {
    valid = w.valid;
    backed = λ j c here. rw (w.same_uses j) (elim (Bool-cases (w.id == j)) [
      | inl same ↦
          let q : w.client ≡ c = ground (arith, w.row j, here, same) in
          λ live. ground (
            arith,
            ap (λ (r : ClientFull). r.status) q,
            w.drafted.draft,
            eq_iff "draft" "active",
            eq_iff "draft" "suspended",
            live,
          )
      | inr other ↦ g.backed j c (ground (arith, w.row j, here, other))
    ]);
  }
