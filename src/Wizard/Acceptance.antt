-- ===== src/Wizard/Acceptance.antt =====
-- When `FormState.Build` succeeds (internal/wizard/wizard.go).
use eudi_api_registration.Base.{
  ℕ, ◌+◌, String, true, false, not, ◌&&◌, ◌≡◌, ◌≢◌, ◌⊎◌, ◌↔◌, refl, List, [], ◌∷◌, ◌++◌, ◌==◌, any,
  is_empty, is_some, All, arith, eq_iff, if◌then◌else◌, inl, inr,
}
use eudi_api_registration.Ts5.{Identifier, MultiLangString, Encoders}
use eudi_api_registration.Url.{UrlParser}
use eudi_api_registration.Wizard.{
  Checked-cases, passed, IntendedUseForm, FormState, euid_type_uri, validate_country_code,
}
use eudi_api_registration.Wizard.Assembly.{
  lacks_part, add_identifiers, identifiers, build_intended_use, build_from, build_intended_uses,
  build,
}
use eudi_api_registration.Wizard.Validity.{
  is_passed, IsValidUse, IsValidForm, apply_legal_identity_iff, authority_iff, purpose_iff,
  privacy_iff, credentials_iff,
}

parts_iff :
    (os : List Identifier)
    → (any lacks_part os ≡ false) ↔ All (λ (o : Identifier). (o.type ≢ "") × (o.identifier ≢ "")) os
parts_iff [] = (λ _. tt, λ _. refl)
parts_iff (o ∷ os) = ground (arith, parts_iff os, eq_iff o.type "", eq_iff o.identifier "")

add_identifiers-passed :
    (ids os : List Identifier) → is_passed (add_identifiers ids os) ≡ not (any lacks_part os)
unfolding add_identifiers
add_identifiers-passed ids [] = refl
add_identifiers-passed ids (o ∷ os) = ground (arith, add_identifiers-passed (ids ++ o ∷ []) os)

is_empty-append : (xs ys : List Identifier) → is_empty (xs ++ ys) ≡ (is_empty xs && is_empty ys)
is_empty-append [] ys = refl
is_empty-append (x ∷ xs) ys = refl

-- A loop that passes hands on a list that is empty only when both are.
add_identifiers-empty :
    (ids os out : List Identifier)
    → add_identifiers ids os ≡ passed out
    → is_empty out ≡ (is_empty ids && is_empty os)
unfolding add_identifiers
add_identifiers-empty ids [] out h = ground (arith)
add_identifiers-empty ids (o ∷ os) out h =
    ground (arith, add_identifiers-empty (ids ++ o ∷ []) os out, is_empty-append ids (o ∷ []))

-- What the loop starts from.
abbrev euid_identifiers : FormState → List Identifier
euid_identifiers f =
    if f.euid == "" then [] else record { type = euid_type_uri; identifier = f.euid } ∷ []

identifiers_iff :
    (f : FormState)
    → (is_passed (identifiers f) ≡ true) ↔ (
        ((f.euid ≢ "") ⊎ (f.other_ids ≢ []))
        × All (λ (o : Identifier). (o.type ≢ "") × (o.identifier ≢ "")) f.other_ids)
unfolding identifiers
identifiers_iff f =
    let first = euid_identifiers f in
    elim (Checked-cases (add_identifiers first f.other_ids)) [
      | inl (out, e) ↦ ground (
        arith,
        e,
        eq_iff f.euid "",
        parts_iff f.other_ids,
        add_identifiers-passed first f.other_ids,
        add_identifiers-empty first f.other_ids out e,
      )
      | inr (x, e) ↦
          ground (arith, e, parts_iff f.other_ids, add_identifiers-passed first f.other_ids)
    ]

module _ (parse : UrlParser) (encoders : Encoders) (ulid : ℕ → String) (created_at : String)
    (encodes : (ps : List MultiLangString) → is_some (encoders.encode_purpose ps) ≡ true) where
  use_iff :
      (i : ℕ) (iuf : IntendedUseForm)
      → (is_passed (build_intended_use parse encoders ulid created_at i iuf) ≡ true)
        ↔ IsValidUse parse iuf
  unfolding build_intended_use
  use_iff i iuf = (to, of)
    where
      to :
          is_passed (build_intended_use parse encoders ulid created_at i iuf) ≡ true
          → IsValidUse parse iuf
      to h = record {
        purpose = ground (arith, purpose_iff iuf.purpose);
        privacy = ground (arith, privacy_iff parse iuf.privacy_policy);
        credentials = ground (arith, credentials_iff i 0 iuf.credentials);
      }

      of :
          IsValidUse parse iuf
          → is_passed (build_intended_use parse encoders ulid created_at i iuf) ≡ true
      of v = ground (
        arith,
        v.purpose,
        v.privacy,
        v.credentials,
        purpose_iff iuf.purpose,
        privacy_iff parse iuf.privacy_policy,
        credentials_iff i 0 iuf.credentials,
        encodes iuf.purpose,
      )

  uses_iff :
      (i : ℕ) (iufs : List IntendedUseForm)
      → (is_passed (build_from parse encoders ulid created_at i iufs) ≡ true)
        ↔ All (IsValidUse parse) iufs
  unfolding build_from
  uses_iff i [] = (λ _. tt, λ _. refl)
  uses_iff i (iuf ∷ iufs) = ground (arith, use_iff i iuf, uses_iff (i + 1) iufs)

  -- When every purpose can be marshalled, `Build` succeeds exactly on the valid forms: exactly one
  -- kind of person with its names, an EUID or another identifier and no identifier with an empty
  -- part, two-letter countries, a contact of the supervisory authority, and at least one intended
  -- use, each with purposes that have a language and a text, https privacy policies, and credentials
  -- of a known format with types and claims of the shape that the format asks for.
  pub build_iff :
      (f : FormState)
      → (is_passed (build parse encoders ulid created_at f) ≡ true) ↔ IsValidForm parse f
  unfolding build build_intended_uses validate_country_code
  build_iff f = (to, of)
    where
      to : is_passed (build parse encoders ulid created_at f) ≡ true → IsValidForm parse f
      to h = record {
        person = ground (arith, apply_legal_identity_iff f);
        country = ground arith;
        some_identifier = ground (arith, identifiers_iff f);
        whole_identifiers = ground (arith, identifiers_iff f);
        authority = ground (arith, authority_iff f.supervisory);
        contact = ground (arith, authority_iff f.supervisory);
        some_use = ground arith;
        uses = ground (arith, uses_iff 0 f.intended_uses);
      }

      of : IsValidForm parse f → is_passed (build parse encoders ulid created_at f) ≡ true
      of v = ground (
        arith,
        v.person,
        v.country,
        v.some_identifier,
        v.whole_identifiers,
        v.authority,
        v.contact,
        v.some_use,
        v.uses,
        apply_legal_identity_iff f,
        identifiers_iff f,
        authority_iff f.supervisory,
        uses_iff 0 f.intended_uses,
      )
