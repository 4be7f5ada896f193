-- ===== src/Wizard/Validity.antt =====
-- Which registration forms `Build` accepts: the rules of the package's documentation, stated without
-- the order in which the code checks them (internal/wizard/wizard.go).
use eudi_api_registration.Base.{
  ℕ, ◌+◌, String, Bool, true, false, ◌≡◌, ◌≢◌, ◌⊎◌, ◌↔◌, refl, List, [], ◌∷◌, ◌==◌, any, length,
  All, arith, eq_iff,
}
use eudi_api_registration.Ts5.{Identifier, MultiLangString, Policy, SupervisoryAuthority}
use eudi_api_registration.Url.{UrlParser, is_absolute_https_url}
use eudi_api_registration.Wizard.{
  Checked, passed, failed, CredentialForm, IntendedUseForm, FormState, format_mdoc, format_sd_jwt,
  non_empty, is_country_code, lacks_text, validate_supervisory_authority, validate_purpose,
  validate_policies, validate_privacy_policy,
}
use eudi_api_registration.Wizard.Credentials.{
  is_claim_path, to_claims, build_claims, build_meta, build_credential,
}
use eudi_api_registration.Wizard.Assembly.{apply_legal_identity, build_credentials}

abbrev pub is_passed {ℓ} : {A : Type ℓ} → Checked A → Bool
is_passed (passed a) = true
is_passed (failed e) = false

abbrev pub IsPath : List String → Type 0
IsPath segs = (segs ≢ []) × All (λ s. s ≢ "") segs

pub record IsValidCredential (cf : CredentialForm) : Type 0 where
  pub values : non_empty cf.doctypes_or_vcts ≢ []
  pub format :
      ((cf.format ≡ format_mdoc) × (length (non_empty cf.doctypes_or_vcts) ≡ 1))
      ⊎ (cf.format ≡ format_sd_jwt)
  pub claims : (cf.all_claims ≡ true) ⊎ ((cf.claims ≢ []) × All IsPath cf.claims)

pub record IsValidUse (parse : UrlParser) (iuf : IntendedUseForm) : Type 0 where
  pub purpose :
      (iuf.purpose ≢ [])
      × All (λ (p : MultiLangString). (p.lang ≢ "") × (p.content ≢ "")) iuf.purpose
  pub privacy :
      (iuf.privacy_policy ≢ [])
      × All (λ (p : Policy). is_absolute_https_url parse p.policy_uri ≡ true) iuf.privacy_policy
  pub credentials : (iuf.credentials ≢ []) × All IsValidCredential iuf.credentials

-- "exactly one of LegalPerson/NaturalPerson", by the kind that the form names
abbrev pub IsPerson : FormState → Type 0
IsPerson f =
    ((f.legal_kind ≡ "legalPerson") × (non_empty f.legal_name ≢ []))
    ⊎ ((f.legal_kind ≡ "naturalPerson") × (f.given_name ≢ "") × (f.family_name ≢ ""))

pub record IsValidForm (parse : UrlParser) (f : FormState) : Type 0 where
  pub person : IsPerson f
  pub country : is_country_code f.country ≡ true
  pub some_identifier : (f.euid ≢ "") ⊎ (f.other_ids ≢ [])
  pub whole_identifiers : All (λ (o : Identifier). (o.type ≢ "") × (o.identifier ≢ "")) f.other_ids
  pub authority : is_country_code f.supervisory.country ≡ true
  pub contact :
      (f.supervisory.email ≢ []) ⊎ (f.supervisory.phone ≢ []) ⊎ (f.supervisory.form_uri ≢ [])
  pub some_use : f.intended_uses ≢ []
  pub uses : All (IsValidUse parse) f.intended_uses

pub apply_legal_identity_iff :
    (f : FormState) → (is_passed (apply_legal_identity f) ≡ true) ↔ IsPerson f
unfolding apply_legal_identity
apply_legal_identity_iff f = ground (
  arith,
  eq_iff f.legal_kind "legalPerson",
  eq_iff f.legal_kind "naturalPerson",
  eq_iff f.given_name "",
  eq_iff f.family_name "",
  eq_iff "legalPerson" "naturalPerson",
)

pub authority_iff :
    (sa : SupervisoryAuthority)
    → (is_passed (validate_supervisory_authority sa) ≡ true) ↔ (
        (is_country_code sa.country ≡ true)
        × ((sa.email ≢ []) ⊎ (sa.phone ≢ []) ⊎ (sa.form_uri ≢ [])))
unfolding validate_supervisory_authority
authority_iff sa = ground arith

texts_iff :
    (ps : List MultiLangString)
    → (any lacks_text ps ≡ false)
      ↔ All (λ (p : MultiLangString). (p.lang ≢ "") × (p.content ≢ "")) ps
texts_iff [] = (λ _. tt, λ _. refl)
texts_iff (p ∷ ps) = ground (arith, texts_iff ps, eq_iff p.lang "", eq_iff p.content "")

pub purpose_iff :
    (ps : List MultiLangString)
    → (is_passed (validate_purpose ps) ≡ true)
      ↔ ((ps ≢ []) × All (λ (p : MultiLangString). (p.lang ≢ "") × (p.content ≢ "")) ps)
unfolding validate_purpose
purpose_iff ps = ground (arith, texts_iff ps)

policies_iff :
    (parse : UrlParser) (ps : List Policy)
    → (is_passed (validate_policies parse ps) ≡ true)
      ↔ All (λ (p : Policy). is_absolute_https_url parse p.policy_uri ≡ true) ps
unfolding validate_policies
policies_iff parse [] = (λ _. tt, λ _. refl)
policies_iff parse (p ∷ ps) = ground (arith, policies_iff parse ps)

pub privacy_iff :
    (parse : UrlParser) (ps : List Policy)
    → (is_passed (validate_privacy_policy parse ps) ≡ true)
      ↔ ((ps ≢ []) × All (λ (p : Policy). is_absolute_https_url parse p.policy_uri ≡ true) ps)
unfolding validate_privacy_policy
privacy_iff parse ps = ground (arith, policies_iff parse ps)

segs_iff : (ss : List String) → (any (λ s. s == "") ss ≡ false) ↔ All (λ s. s ≢ "") ss
segs_iff [] = (λ _. tt, λ _. refl)
segs_iff (s ∷ ss) = ground (arith, segs_iff ss, eq_iff s "")

is_claim_path_iff : (segs : List String) → (is_claim_path segs ≡ true) ↔ IsPath segs
unfolding is_claim_path
is_claim_path_iff segs = ground (arith, segs_iff segs)

claims_iff : (cs : List (List String)) → (is_passed (to_claims cs) ≡ true) ↔ All IsPath cs
unfolding to_claims
claims_iff [] = (λ _. tt, λ _. refl)
claims_iff (c ∷ cs) = ground (arith, claims_iff cs, is_claim_path_iff c)

meta_iff :
    (format : String) (values : List String)
    → values ≢ []
    → (is_passed (build_meta format values) ≡ true)
      ↔ (((format ≡ format_mdoc) × (length values ≡ 1)) ⊎ (format ≡ format_sd_jwt))
unfolding build_meta
meta_iff format [] h = absurd (h refl)
meta_iff format (v ∷ []) h = ground (arith, eq_iff format format_mdoc, eq_iff format format_sd_jwt)
meta_iff format (v ∷ (w ∷ vs)) h = ground (
  arith,
  eq_iff format format_mdoc,
  eq_iff format format_sd_jwt,
  eq_iff format_mdoc format_sd_jwt,
)

credential_iff :
    (cf : CredentialForm) → (is_passed (build_credential cf) ≡ true) ↔ IsValidCredential cf
unfolding build_credential build_claims
credential_iff cf = (to, of)
  where
    to : is_passed (build_credential cf) ≡ true → IsValidCredential cf
    to h = record {
      values = ground arith;
      format = ground (arith, meta_iff cf.format (non_empty cf.doctypes_or_vcts));
      claims = ground (arith, claims_iff cf.claims);
    }

    of : IsValidCredential cf → is_passed (build_credential cf) ≡ true
    of v = ground (
      arith,
      v.values,
      v.format,
      v.claims,
      eq_iff cf.format format_mdoc,
      eq_iff cf.format format_sd_jwt,
      meta_iff cf.format (non_empty cf.doctypes_or_vcts),
      claims_iff cf.claims,
    )

pub credentials_iff :
    (i j : ℕ) (cfs : List CredentialForm)
    → (is_passed (build_credentials i j cfs) ≡ true) ↔ All IsValidCredential cfs
unfolding build_credentials
credentials_iff i j [] = (λ _. tt, λ _. refl)
credentials_iff i j (cf ∷ cfs) = ground (arith, credential_iff cf, credentials_iff i (j + 1) cfs)
