-- ===== src/Wizard.antt =====
-- internal/wizard/wizard.go: a registration form is checked and assembled into the document and the
-- scope projections. `Checked` is a result with the package's own errors. This file has the forms,
-- the errors and the checks of single fields; `Credentials` and `Assembly` have the rest of `Build`.
pub mod Credentials
pub mod Assembly
pub mod Validity
pub mod Acceptance
pub mod Projection
use Prim.Native.String.{[], ◌∷◌}
use eudi_api_registration.Base.{
  ℕ, String, Bool, true, false, not, ◌&&◌, ◌||◌, List, ◌==◌, any, is_empty, if◌then◌else◌, ◌≡◌,
  refl, ap, ◌⊎◌, inl, inr,
}
use eudi_api_registration.Base
use eudi_api_registration.Text.{in_range}
use eudi_api_registration.Ts5.{Identifier, MultiLangString, Policy, SupervisoryAuthority}
use eudi_api_registration.Url.{UrlParser, is_absolute_https_url}

pub data Sentinel : Type 0 where
  legal_identity identifier country intended_use purpose privacy_policy credential : Sentinel
  credential_format claim_path supervisory_authority : Sentinel

-- The errors of `Build`, by what `%w` wraps and by the positions in their texts.
pub data BuildError : Type 0 where
  wrap : Sentinel → BuildError
  wrap_both : Sentinel → BuildError → BuildError
  in_use : BuildError → ℕ → BuildError
  in_credential : BuildError → ℕ → ℕ → BuildError
  not_marshalled : BuildError

pub data Checked {ℓ} (A : Type ℓ) : Type ℓ where
  passed : A → Checked A
  failed : BuildError → Checked A

infixl 10 ◌>>=◌ ◌>>◌
abbrev pub ◌>>=◌ {ℓ κ} : {A : Type ℓ} {B : Type κ} → Checked A → (A → Checked B) → Checked B
passed a >>= f = f a
failed e >>= f = failed e

abbrev pub ◌>>◌ {ℓ} : {B : Type ℓ} → Checked (Unit {0}) → Checked B → Checked B
m >> n = m >>= λ _. n

-- An error with a position added to it, as in `fmt.Errorf("%w (intended use %d)", err, i)`.
abbrev pub located {ℓ} : {A : Type ℓ} → (BuildError → BuildError) → Checked A → Checked A
located at (passed a) = passed a
located at (failed e) = failed (at e)

abbrev pub require : Bool → BuildError → Checked (Unit {0})
require true e = passed tt
require false e = failed e

pub Checked-cases {ℓ} :
    {A : Type ℓ} (m : Checked A) → ((a : A) × (m ≡ passed a)) ⊎ ((e : BuildError) × (m ≡ failed e))
Checked-cases (passed a) = inl (a, refl)
Checked-cases (failed e) = inr (e, refl)

pub passed-inj {ℓ} : {A : Type ℓ} (a b : A) → passed a ≡ passed b → a ≡ b
passed-inj {A} a b h = ap value h
  where
    value : Checked A → A
    value (passed x) = x
    value (failed e) = a

abbrev pub format_mdoc : String
format_mdoc = "mso_mdoc"

abbrev pub format_sd_jwt : String
format_sd_jwt = "dc+sd-jwt"

abbrev pub euid_type_uri : String
euid_type_uri = "http://data.europa.eu/eudi/id/EUID"

abbrev pub pending_iu_prefix : String
pending_iu_prefix = "pending-"

pub record CredentialForm : Type 0 where
  pub format : String
  pub doctypes_or_vcts : List String
  pub all_claims : Bool
  pub claims : List (List String)

pub record IntendedUseForm : Type 0 where
  pub purpose : List MultiLangString
  pub privacy_policy : List Policy
  pub credentials : List CredentialForm

pub record FormState : Type 0 where
  pub legal_kind : String
  pub legal_name : List String
  pub given_name : String
  pub family_name : String
  pub euid : String
  pub other_ids : List Identifier
  pub country : String
  pub email : List String
  pub phone : List String
  pub info_uri : List String
  pub support_uri : List String
  pub trade_name : String
  pub srv_description : List MultiLangString
  pub intended_uses : List IntendedUseForm
  pub supervisory : SupervisoryAuthority
  pub is_psb : Bool

-- A nil slice and an empty one are the same list.
unfoldable pub non_empty : List String → List String
non_empty Base.[] = Base.[]
non_empty (Base.◌∷◌ s ss) = let rest = non_empty ss in if s == "" then rest else Base.◌∷◌ s rest

-- Two bytes, each a capital letter of ASCII.
unfoldable pub is_country_code : String → Bool
is_country_code [] = false
is_country_code (c ∷ []) = false
is_country_code (c ∷ (d ∷ [])) = in_range b'A' b'Z' c && in_range b'A' b'Z' d
is_country_code (c ∷ (d ∷ (e ∷ s))) = false

unfoldable pub validate_country_code : String → Checked (Unit {0})
validate_country_code c = require (is_country_code c) (wrap country)

unfoldable pub validate_supervisory_authority : SupervisoryAuthority → Checked (Unit {0})
unfolding validate_country_code
validate_supervisory_authority sa = do
  located (wrap_both supervisory_authority) (validate_country_code sa.country)
  require (not (is_empty sa.email && is_empty sa.phone && is_empty sa.form_uri))
      (wrap supervisory_authority)

abbrev pub lacks_text : MultiLangString → Bool
lacks_text p = p.lang == "" || p.content == ""

unfoldable pub validate_purpose : List MultiLangString → Checked (Unit {0})
validate_purpose ps =
    if is_empty ps then failed (wrap purpose) else require (not (any lacks_text ps)) (wrap purpose)

module _ (parse : UrlParser) where
  unfoldable pub validate_https_policy_uri : String → Checked (Unit {0})
  validate_https_policy_uri raw = require (is_absolute_https_url parse raw) (wrap privacy_policy)

  -- The loop of `validatePrivacyPolicy`.
  unfoldable pub validate_policies : List Policy → Checked (Unit {0})
  unfolding validate_https_policy_uri
  validate_policies Base.[] = passed tt
  validate_policies (Base.◌∷◌ p ps) =
      let rest = validate_policies ps in validate_https_policy_uri p.policy_uri >> rest

  unfoldable pub validate_privacy_policy : List Policy → Checked (Unit {0})
  unfolding validate_policies
  validate_privacy_policy ps =
      if is_empty ps then failed (wrap privacy_policy) else validate_policies ps
