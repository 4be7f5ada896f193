-- ===== src/Routes/Registration/Outcome.antt =====
-- What a registration that is answered with success has stored (routes/api_registration.go).
use eudi_api_registration.Base.{
  ℕ, String, false, ◌≡◌, refl, ap, ◌∙◌, some, List, map, Distinct, ◌==◌, length, arith, eq_refl,
  if◌then◌else◌, inl, inr, Option-cases, Result, ok,
}
use eudi_api_registration.Json.{RawMessage}
use eudi_api_registration.Registry.{ClientFull, IntendedUse}
use eudi_api_registration.Registry.Store.{Store}
use eudi_api_registration.Registry.Contract.{Contract, Stored, business_key}
use eudi_api_registration.Ts5.{WalletRelyingParty, Encoders}
use eudi_api_registration.Url.{UrlParser}
use eudi_api_registration.Wizard.{passed, Checked-cases}
use eudi_api_registration.Wizard.Assembly.{build}
use eudi_api_registration.Wizard.Projection.{build-SameUses, SameUses-facts}
use eudi_api_registration.Routes.{Response, json}
use eudi_api_registration.Routes.Registration.{
  ApiRegistrationRequest, ApiRegistrationResult, ApiIntendedUse, to_wizard_use, to_form_state,
  save_registration, save_built, api_set_registration,
}

map-length : (ius : List ApiIntendedUse) → length (map to_wizard_use ius) ≡ length ius
map-length List.[] = refl
map-length (List.◌∷◌ iu ius) = omega (arith, map-length ius)

module _ (S : Store) (K : Contract S) (parse : UrlParser) (encoders : Encoders) (ulid : ℕ → String)
    (created_at : String) where
  open K use {view, uses, Valid}

  pub record IsRegistered (id : String) (req : ApiRegistrationRequest) (s t : S.State)
      (reply : Response ApiRegistrationResult) : Type 0 where
    pub client : ClientFull
    pub doc : WalletRelyingParty
    pub doc_json : RawMessage
    pub ius : List IntendedUse
    pub was : view s id ≡ some client
    pub built : build parse encoders ulid created_at (to_form_state req) ≡ passed (doc, ius)
    pub encoded : encoders.encode_wrp doc ≡ some doc_json
    pub row :
        (j : String)
        → view t j
          ≡ (if id == j then some (record client { wrp_document = doc_json }) else view s j)
    pub stored : Stored ius (uses t id)
    pub once : Distinct (map business_key (uses t id))
    pub other_uses : (j : String) → (id == j) ≡ false → uses t j ≡ uses s j
    pub same_state : reply.body.state ≡ client.status
    pub count : reply.body.intended_uses ≡ length req.intended_uses

  saved_outcome :
      (id : String) (req : ApiRegistrationRequest) (doc : WalletRelyingParty)
      (ius : List IntendedUse) (s : S.State) (reply : Response ApiRegistrationResult)
      → build parse encoders ulid created_at (to_form_state req) ≡ passed (doc, ius)
      → Valid s
      → (save_registration S parse encoders ulid created_at id doc ius s).0 ≡ ok reply
      → IsRegistered id req s
          (save_registration S parse encoders ulid created_at id doc ius s).1
          reply
  unfolding save_registration to_form_state
  saved_outcome id req doc ius s reply built v good =
      elim (Option-cases (encoders.encode_wrp doc)) [
        | inl bad ↦ absurd (cc (rw (bad, save_registration) at good))
        | inr (doc_json, encoded) ↦ elim (Option-cases (view s id)) [
          | inl missing ↦ absurd (
              cc (
                rw (encoded, save_registration, K.save_missing id doc_json ius "api" s missing) at
                  good))
          | inr (c, row) ↦
              let facts =
                SameUses-facts ulid 0 (to_form_state req).intended_uses doc.intended_use ius (
                  build-SameUses ulid parse encoders created_at (to_form_state req) doc ius
                    built) in
              let w = K.save_done id doc_json ius "api" s c row facts.0 in
              let t = (S.save_wrp_document id doc_json ius "api" s).1 in
              let told : Response ApiRegistrationResult =
                json (record { id = id; state = c.status; intended_uses = length ius }) in
              let result : save_registration S parse encoders ulid created_at id doc ius s
                  ≡ (ok told, t) =
                rw (encoded, save_registration, w.succeeds, K.get_full id t, w.row id, eq_refl id)
                  refl in
              let said : told ≡ reply = ground (
                arith,
                ap (λ (r : Result (Response ApiRegistrationResult) × S.State). r.0) result,
                good,
              ) in
              rw (result, ← said)
                (record {
                  client = c;
                  doc = doc;
                  doc_json = doc_json;
                  ius = ius;
                  was = row;
                  built = built;
                  encoded = encoded;
                  row = w.row;
                  stored = w.stored;
                  once = w.once v;
                  other_uses = w.other_uses;
                  same_state = refl;
                  count = facts.2 ∙ map-length req.intended_uses;
                })
        ]
      ]

  -- On a valid store, a registration that is answered with success was for a known client; the form of
  -- its body was built into a document and its projections; the document is stored on the client's
  -- row and no other field of it, no other client's row and no other client's intended use has
  -- changed; each stored use of the client is one of the projections but for its internal identifier,
  -- each business key of the projections has a stored use, and none is listed twice; the reply reports
  -- the client's unchanged state and the number of intended uses of the body.
  pub registration_stores :
      (id : String) (req : ApiRegistrationRequest) (s : S.State)
      (reply : Response ApiRegistrationResult)
      → Valid s
      → (api_set_registration S parse encoders ulid created_at id (some req) s).0 ≡ ok reply
      → IsRegistered id req s
          (api_set_registration S parse encoders ulid created_at id (some req) s).1
          reply
  unfolding api_set_registration save_built
  registration_stores id req s reply v good =
      elim (Checked-cases (build parse encoders ulid created_at (to_form_state req))) [
        | inl ((doc, ius), e) ↦ rw e (saved_outcome id req doc ius s reply e v (rw e at good))
        | inr (x, e) ↦ absurd (cc (rw e at good))
      ]
