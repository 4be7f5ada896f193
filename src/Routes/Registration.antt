-- ===== src/Routes/Registration.antt =====
-- The registration endpoint (routes/api_registration.go): the body is mapped onto the wizard's form,
-- built, and saved.
pub mod Outcome
use eudi_api_registration.Base.{
  ℕ, String, Bool, Option, none, some, List, [], ◌∷◌, map, length, Exec, new_problem, failure,
  raise, pure, ◌>>=◌, ◌>>◌,
}
use eudi_api_registration.Json.{RawMessage}
use eudi_api_registration.Registry.{IntendedUse}
use eudi_api_registration.Registry.Store.{Store}
use eudi_api_registration.Ts5.{
  Identifier, MultiLangString, Policy, SupervisoryAuthority, WalletRelyingParty, Encoders,
}
use eudi_api_registration.Url.{UrlParser}
use eudi_api_registration.Wizard.{
  FormState, IntendedUseForm, CredentialForm, Checked, passed, failed,
}
use eudi_api_registration.Wizard.Assembly.{build}
use eudi_api_registration.Routes.{Response, json, with_body}

abbrev pub default_privacy_policy_type_uri : String
default_privacy_policy_type_uri = "http://data.europa.eu/eudi/policy/privacy-policy"

pub record ApiIdentifier : Type 0 where
  pub type : String
  pub identifier : String

pub record ApiMultiLangText : Type 0 where
  pub lang : String
  pub text : String

pub record ApiPrivacyPolicy : Type 0 where
  pub uri : String

pub record ApiCredential : Type 0 where
  pub format : String
  pub doctypes_or_vcts : List String
  pub all_claims : Bool
  pub claims : List (List String)

pub record ApiIntendedUse : Type 0 where
  pub purpose : List ApiMultiLangText
  pub privacy_policy : List ApiPrivacyPolicy
  pub credentials : List ApiCredential

pub record ApiSupervisory : Type 0 where
  pub name : String
  pub country : String
  pub email : List String
  pub phone : List String
  pub form_uri : List String

pub record ApiRegistrationRequest : Type 0 where
  pub legal_kind : String
  pub legal_name : List String
  pub given_name : String
  pub family_name : String
  pub euid : String
  pub other_ids : List ApiIdentifier
  pub country : String
  pub email : List String
  pub info_uri : List String
  pub support_uri : List String
  pub trade_name : String
  pub intended_uses : List ApiIntendedUse
  pub supervisory_authority : ApiSupervisory
  pub is_psb : Bool

pub record ApiRegistrationResult : Type 0 where
  pub id : String
  pub state : String
  pub intended_uses : ℕ

abbrev pub to_ts5_identifier : ApiIdentifier → Identifier
to_ts5_identifier oid = record { type = oid.type; identifier = oid.identifier }

abbrev pub to_ts5_multi_lang : List ApiMultiLangText → List MultiLangString
to_ts5_multi_lang [] = []
to_ts5_multi_lang (m ∷ ms) = record { lang = m.lang; content = m.text } ∷ to_ts5_multi_lang ms

abbrev pub to_ts5_policies : List ApiPrivacyPolicy → List Policy
to_ts5_policies [] = []
to_ts5_policies (p ∷ ps) =
    record { type = default_privacy_policy_type_uri; policy_uri = p.uri } ∷ to_ts5_policies ps

abbrev pub to_wizard_credentials : List ApiCredential → List CredentialForm
to_wizard_credentials [] = []
to_wizard_credentials (c ∷ cs) =
    record {
      format = c.format;
      doctypes_or_vcts = c.doctypes_or_vcts;
      all_claims = c.all_claims;
      claims = c.claims;
    }
    ∷ to_wizard_credentials cs

abbrev pub to_wizard_use : ApiIntendedUse → IntendedUseForm
to_wizard_use iu = record {
  purpose = to_ts5_multi_lang iu.purpose;
  privacy_policy = to_ts5_policies iu.privacy_policy;
  credentials = to_wizard_credentials iu.credentials;
}

-- The body has no phone and no service description, so these stay at their zero values.
unfoldable pub to_form_state : ApiRegistrationRequest → FormState
to_form_state req = record {
  legal_kind = req.legal_kind;
  legal_name = req.legal_name;
  given_name = req.given_name;
  family_name = req.family_name;
  euid = req.euid;
  other_ids = map to_ts5_identifier req.other_ids;
  country = req.country;
  email = req.email;
  phone = [];
  info_uri = req.info_uri;
  support_uri = req.support_uri;
  trade_name = req.trade_name;
  srv_description = [];
  intended_uses = map to_wizard_use req.intended_uses;
  supervisory = record {
    name = req.supervisory_authority.name;
    country = req.supervisory_authority.country;
    email = req.supervisory_authority.email;
    phone = req.supervisory_authority.phone;
    form_uri = req.supervisory_authority.form_uri;
  };
  is_psb = req.is_psb;
}

module _ (S : Store) (parse : UrlParser) (encoders : Encoders) (ulid : ℕ → String)
    (created_at : String) where
  -- Once the document is built: marshal it, save it, and read the state back.
  unfoldable pub save_registration :
      String → WalletRelyingParty → List IntendedUse → Exec S.State (Response ApiRegistrationResult)
  save_registration id doc ius = elim (encoders.encode_wrp doc) [
    | none ↦ raise (failure "json")
    | some doc_json ↦ do
      S.save_wrp_document id doc_json ius "api"
      full ← S.get_client_full id
      pure (json (record { id = id; state = full.status; intended_uses = length ius }))
  ]

  -- The two outcomes of `Build`.
  unfoldable pub save_built :
      String
      → Checked (WalletRelyingParty × List IntendedUse)
      → Exec S.State (Response ApiRegistrationResult)
  save_built id (failed e) = raise (new_problem "err:api:registrationInvalid")
  save_built id (passed (doc, ius)) = save_registration id doc ius

  unfoldable pub api_set_registration :
      String → Option ApiRegistrationRequest → Exec S.State (Response ApiRegistrationResult)
  api_set_registration id body =
      with_body body
        (λ req. save_built id (build parse encoders ulid created_at (to_form_state req)))
