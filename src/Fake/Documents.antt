-- ===== src/Fake/Documents.antt =====
-- `SaveWRPDocument` and `CreateDraftClient` of the in-memory store against the contract
-- (internal/registrydb/fake.go).
use mathlib.Core.Option.{get_or}
use eudi_api_registration.Base.{
  ℕ, String, false, ◌+◌, ◌≤◌, ◌<◌, ◌≡◌, refl, ap, none, some, List, [], ◌==◌, any, arith, eq_refl,
  Option-cases, inl, inr, ok, map, Distinct, All, Bool-cases,
}
use eudi_api_registration.Base.GoMap
use eudi_api_registration.Base.GoMap.{GoMap, get-put}
use eudi_api_registration.Json.{RawMessage}
use eudi_api_registration.Registry.{ClientFull, IntendedUse, lacks_id}
use eudi_api_registration.Registry.States.{draft}
use eudi_api_registration.Registry.Contract.{Stored, business_key, Saves, Creates}
use eudi_api_registration.Fake.{Fake, fake_id, audit, touch, store_client, write_audited}
use eudi_api_registration.Fake.Ids.{fake_id_injective}
use eudi_api_registration.Fake.Clients.{draft_client, create_draft_client}
use eudi_api_registration.Fake.IntendedUses.{
  rebuild, kept_order, append_new, count_detail, replace_intended_uses, save_wrp_document,
}
use eudi_api_registration.Fake.IntendedUses.Stored.{
  Placed, rebuild-Placed, rebuild-Stored, rebuild-seq, rebuild-frame, rebuild-once,
  new_order-Distinct,
}
use eudi_api_registration.Fake.Store.{fake_views, IsValid, uses_of}
use eudi_api_registration.Fake.Lawful.{IsValid-put}

module _ (id : String) (ius : List IntendedUse) (f : Fake) where
  existing : GoMap IntendedUse
  existing = get_or (GoMap.get f.intended_uses id) GoMap.empty

  pub replace-Stored : Stored ius (uses_of (replace_intended_uses id ius f) id)
  unfolding replace_intended_uses uses_of existing
  replace-Stored =
      let old = get_or (GoMap.get f.intended_use_order id) [] in
      simp (get-put, eq_refl) (rebuild-Stored existing ius old f)

  pub replace-Placed :
      All
        (Placed (get_or (GoMap.get f.intended_uses id) GoMap.empty) f.seq ius)
        (uses_of (replace_intended_uses id ius f) id)
  unfolding replace_intended_uses uses_of existing
  replace-Placed =
      let old = get_or (GoMap.get f.intended_use_order id) [] in
      simp (get-put, eq_refl) (rebuild-Placed existing ius old f)

  pub uses_of-replace_ne :
      (j : String) → (id == j) ≡ false → uses_of (replace_intended_uses id ius f) j ≡ uses_of f j
  unfolding replace_intended_uses uses_of existing
  uses_of-replace_ne j other = simp (get-put, other, rebuild-frame existing ius GoMap.empty f)

  module _ (orders : (j : String) → Distinct (get_or (GoMap.get f.intended_use_order j) [])) where
    pub replace-orders :
        (j : String)
        → Distinct (get_or (GoMap.get (replace_intended_uses id ius f).intended_use_order j) [])
    unfolding replace_intended_uses existing
    replace-orders j =
        let m = (rebuild existing ius GoMap.empty f).0 in
        let old = get_or (GoMap.get f.intended_use_order id) [] in
        rw (ap (λ (g : Fake). g.intended_use_order) (rebuild-frame existing ius GoMap.empty f)) (
          rw (get-put f.intended_use_order id j (append_new (kept_order m old) ius))
            (elim (Bool-cases (id == j)) [
              | inl same ↦ rw same (new_order-Distinct m old ius (orders id))
              | inr other ↦ rw other (orders j)
            ]))

    pub replace-once : Distinct (map business_key (uses_of (replace_intended_uses id ius f) id))
    unfolding replace_intended_uses uses_of existing
    replace-once =
        let old = get_or (GoMap.get f.intended_use_order id) [] in
        simp (get-put, eq_refl) (rebuild-once existing ius old f (orders id))

  pub replace-clients : (replace_intended_uses id ius f).clients ≡ f.clients
  unfolding replace_intended_uses existing
  replace-clients = ap (λ (g : Fake). g.clients) (rebuild-frame existing ius GoMap.empty f)

  pub replace-seq : f.seq ≤ (replace_intended_uses id ius f).seq
  unfolding replace_intended_uses existing
  replace-seq = rebuild-seq existing ius GoMap.empty f

-- The state between the write of the document and that of the intended uses.
abbrev documented : String → RawMessage → ClientFull → Fake → Fake
documented id doc c f = touch id (store_client id (record c { wrp_document = doc }) f)

module _ (id : String) (doc : RawMessage) (ius : List IntendedUse) (actor : String) (f : Fake)
    (c : ClientFull) (row : GoMap.get f.clients id ≡ some c) where
  saved : Fake
  saved =
      audit actor id "client.save_wrp_document" (count_detail ius)
        (replace_intended_uses id ius (documented id doc c f))

  saved-clients : saved.clients ≡ GoMap.put f.clients id (record c { wrp_document = doc })
  unfolding saved audit touch store_client
  saved-clients = replace-clients id ius (documented id doc c f)

  saved-seq : f.seq ≤ saved.seq
  unfolding saved audit touch store_client
  saved-seq = omega (arith, replace-seq id ius (documented id doc c f))

  saved-orders :
      IsValid f → (j : String) → Distinct (get_or (GoMap.get saved.intended_use_order j) [])
  unfolding saved audit touch store_client
  saved-orders v j = replace-orders id ius (documented id doc c f) (λ k. v.orders k) j

  saved-IsValid : IsValid f → IsValid saved
  saved-IsValid v =
      let r = v.rows id c row in
      IsValid-put f saved id (record c { wrp_document = doc }) saved-clients saved-seq
        (record {
          own_id = r.own_id;
          minted = (r.minted.0, omega (arith, r.minted.1, saved-seq), r.minted.2);
          known_status = r.known_status;
        })
        (saved-orders v) v

  saved-Stored : Stored ius (uses_of saved id)
  unfolding saved audit uses_of
  saved-Stored = unfold uses_of in replace-Stored id ius (documented id doc c f)

  saved-once : IsValid f → Distinct (map business_key (uses_of saved id))
  unfolding saved audit uses_of
  saved-once v =
      unfold uses_of touch store_client in
      replace-once id ius (documented id doc c f) (λ k. v.orders k)

  uses_of-saved_ne : (j : String) → (id == j) ≡ false → uses_of saved j ≡ uses_of f j
  unfolding saved audit touch store_client uses_of
  uses_of-saved_ne j other = uses_of-replace_ne id ius (documented id doc c f) j other

  save_eq : any lacks_id ius ≡ false → save_wrp_document id doc ius actor f ≡ (ok tt, saved)
  unfolding save_wrp_document saved
  save_eq named = rw (row, save_wrp_document) (rw named)

  -- The law of the contract.
  pub save_done :
      any lacks_id ius ≡ false
      → Saves fake_views (save_wrp_document id doc ius actor) f id doc ius c
  save_done named = record {
    succeeds = rw (save_eq named);
    row = λ j.
        rw (save_eq named, saved-clients)
          (get-put f.clients id j (record c { wrp_document = doc }));
    stored = rw (save_eq named) saved-Stored;
    once = λ v. rw (save_eq named) (saved-once v);
    other_uses = λ j other. rw (save_eq named) (uses_of-saved_ne j other);
    valid = λ v. rw (save_eq named) (saved-IsValid v);
  }

  saved-Placed :
      All (Placed (get_or (GoMap.get f.intended_uses id) GoMap.empty) f.seq ius) (uses_of saved id)
  unfolding saved audit uses_of
  saved-Placed = unfold uses_of touch store_client in replace-Placed id ius (documented id doc c f)

  -- What `save_stores` says of the stored uses of the client.
  pub record SavesOnce : Type 0 where
    pub saves : Saves fake_views (save_wrp_document id doc ius actor) f id doc ius c
    pub placed :
        All
          (Placed (get_or (GoMap.get f.intended_uses id) GoMap.empty) f.seq ius)
          (uses_of (save_wrp_document id doc ius actor f).1 id)
    pub once : Distinct (map business_key (uses_of (save_wrp_document id doc ius actor f).1 id))

  -- Saving a document for a known client of a valid store, with a business key on every intended use,
  -- succeeds: the document is on the client's row and no other row changes; each stored use is one of
  -- the call, and has as internal identifier its own, or else that of the use stored before under its
  -- business key, or else a newly minted one; every business key of the call has a stored use and none
  -- is listed twice; the uses of other clients stay; and the store stays valid.
  pub save_stores : any lacks_id ius ≡ false → IsValid f → SavesOnce
  save_stores named v = record {
    saves = save_done named;
    placed = rw (save_eq named) saved-Placed;
    once = rw (save_eq named) (saved-once v);
  }

-- An identifier that has not been handed out yet names no client.
pub unminted : (f : Fake) → IsValid f → (n : ℕ) → f.seq < n → GoMap.get f.clients (fake_id n) ≡ none
unminted f v n later = elim (Option-cases (GoMap.get f.clients (fake_id n))) [
  | inl missing ↦ missing
  | inr (c, row) ↦
      let r = v.rows (fake_id n) c row in
      absurd (omega (arith, fake_id_injective n r.minted.0 r.minted.2, r.minted.1))
]

-- On a valid store, creating a draft succeeds with an identifier that no client had; the new row has
-- that identifier, the name, and the status "draft"; no other row and no intended use changes, and
-- the store stays valid.
pub create_done :
    (name email actor : String) (f : Fake)
    → IsValid f
    → Creates fake_views (create_draft_client name email actor) f name
unfolding create_draft_client write_audited draft_client uses_of
create_done name email actor f v =
    let id = fake_id (f.seq + 1) in
    let c = draft_client id name email in
    record {
      id = id;
      succeeds = refl;
      fresh = unminted f v (f.seq + 1) (omega arith);
      client = c;
      drafted = record { own_id = refl; named = refl; draft = refl };
      row = λ j. get-put f.clients id j c;
      same_uses = λ j. refl;
      valid =
          IsValid-put f _ id c refl (omega arith)
            (record {
              own_id = refl;
              minted = (f.seq + 1, omega arith, refl);
              known_status = (draft, refl);
            })
            v.orders v;
    }
