-- ===== src/Wizard/Assembly.antt =====
-- `FormState.Build` and the parts that it assembles (internal/wizard/wizard.go).
use eudi_api_registration.Base.{
  ℕ, ◌+◌, String, ◌<>◌, Bool, not, ◌||◌, Option, none, some, List, [], ◌∷◌, ◌++◌, ◌==◌, is_empty,
  if◌then◌else◌,
}
use eudi_api_registration.Registry.{RegisteredCredentialJson, IntendedUse}
use eudi_api_registration.Ts5.{
  Identifier, Credential, DocumentUse, LegalPerson, NaturalPerson, WalletRelyingParty, Encoders,
}
use eudi_api_registration.Url.{UrlParser}
use eudi_api_registration.Wizard.{
  legal_identity, identifier, intended_use, credential, wrap, in_use, in_credential, not_marshalled,
  Checked, passed, failed, ◌>>=◌, ◌>>◌, located, require, euid_type_uri, pending_iu_prefix,
  CredentialForm, IntendedUseForm, FormState, non_empty, validate_country_code,
  validate_supervisory_authority, validate_purpose, validate_privacy_policy,
}
use eudi_api_registration.Wizard.Credentials.{build_credential}

abbrev pub Persons : Type 0
Persons = Option LegalPerson × Option NaturalPerson

-- The two fields that `applyLegalIdentity` sets.
unfoldable pub apply_legal_identity : FormState → Checked Persons
apply_legal_identity f =
    let names = non_empty f.legal_name in
    if f.legal_kind == "legalPerson"
    then if is_empty names
      then failed (wrap legal_identity)
      else passed (some (record { legal_name = names }), none)
    else if f.legal_kind == "naturalPerson"
    then if f.given_name == "" || f.family_name == ""
      then failed (wrap legal_identity)
      else passed (none, some (record { given_name = f.given_name; family_name = f.family_name }))
    else failed (wrap legal_identity)

abbrev pub lacks_part : Identifier → Bool
lacks_part other = other.type == "" || other.identifier == ""

-- The loop over the other identifiers.
unfoldable pub add_identifiers : List Identifier → List Identifier → Checked (List Identifier)
add_identifiers ids [] = passed ids
add_identifiers ids (other ∷ rest) =
    let more = add_identifiers (ids ++ other ∷ []) rest in
    if lacks_part other then failed (wrap identifier) else more

unfoldable pub identifiers : FormState → Checked (List Identifier)
unfolding add_identifiers
identifiers f = do
  ids ←
      add_identifiers
        (if f.euid == "" then [] else record { type = euid_type_uri; identifier = f.euid } ∷ [])
        f.other_ids
  require (not (is_empty ids)) (wrap identifier)
  passed ids

-- The inner loop: the credentials of the i-th intended use, from the j-th on.
unfoldable pub build_credentials :
    ℕ → ℕ → List CredentialForm → Checked (List Credential × List RegisteredCredentialJson)
unfolding build_credential
build_credentials i j [] = passed ([], [])
build_credentials i j (cf ∷ cfs) =
    let more = build_credentials i (j + 1) cfs in
    do
      built ← located (λ e. in_credential e i j) (build_credential cf)
      rest ← more
      passed (built.0 ∷ rest.0, built.1 ∷ rest.1)

abbrev pub pending_id : (ℕ → String) → ℕ → String
pending_id ulid i = pending_iu_prefix <> ulid i

-- `parse` is `url.Parse`; `ulid n` is the text of the n-th `ulid.Make()` of the call; `created_at` is
-- `now().UTC().Format("2006-01-02")`.
module _ (parse : UrlParser) (encoders : Encoders) (ulid : ℕ → String) (created_at : String) where
  -- The checks of one intended use, and its two forms.
  unfoldable pub build_intended_use : ℕ → IntendedUseForm → Checked (DocumentUse × IntendedUse)
  unfolding build_credentials
  build_intended_use i iuf = do
    located (λ e. in_use e i) (validate_purpose iuf.purpose)
    located (λ e. in_use e i) (validate_privacy_policy parse iuf.privacy_policy)
    require (not (is_empty iuf.credentials)) (in_use (wrap credential) i)
    creds ← build_credentials i 0 iuf.credentials
    elim (encoders.encode_purpose iuf.purpose) [
      | none ↦ failed not_marshalled
      | some purpose_json ↦ passed (
        record {
          purpose = iuf.purpose;
          privacy_policy = iuf.privacy_policy;
          intended_use_identifier = pending_id ulid i;
          created_at = created_at;
          credentials = creds.0;
        },
        record {
          id = "";
          intended_use_id = pending_id ulid i;
          purpose = purpose_json;
          credentials = creds.1;
          revoked_at = "";
        },
      )
    ]

  -- The outer loop, from the i-th intended use on.
  unfoldable pub build_from :
      ℕ → List IntendedUseForm → Checked (List DocumentUse × List IntendedUse)
  unfolding build_intended_use
  build_from i [] = passed ([], [])
  build_from i (iuf ∷ iufs) =
      let more = build_from (i + 1) iufs in
      do built ← build_intended_use i iuf; rest ← more; passed (built.0 ∷ rest.0, built.1 ∷ rest.1)

  unfoldable pub build_intended_uses : FormState → Checked (List DocumentUse × List IntendedUse)
  unfolding build_from
  build_intended_uses f =
      if is_empty f.intended_uses then failed (wrap intended_use) else build_from 0 f.intended_uses

  unfoldable pub build : FormState → Checked (WalletRelyingParty × List IntendedUse)
  unfolding apply_legal_identity identifiers build_intended_uses
  build f = do
    persons ← apply_legal_identity f
    validate_country_code f.country
    ids ← identifiers f
    validate_supervisory_authority f.supervisory
    uses ← build_intended_uses f
    passed (
      record {
        trade_name = f.trade_name;
        support_uri = non_empty f.support_uri;
        is_psb = f.is_psb;
        country = f.country;
        email = non_empty f.email;
        phone = non_empty f.phone;
        info_uri = non_empty f.info_uri;
        srv_description = if is_empty f.srv_description then [] else f.srv_description ∷ [];
        legal_person = persons.0;
        natural_person = persons.1;
        identifiers = ids;
        supervisory_authority = f.supervisory;
        intended_use = uses.0;
      },
      uses.1,
    )
