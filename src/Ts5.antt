-- ===== src/Ts5.antt =====
-- The parts of the `ts5` document model (a package outside the repository) that the code fills in:
-- one record for each struct, with the fields that internal/wizard/wizard.go and
-- routes/api_registration.go name.
use eudi_api_registration.Base.{String, Bool, Option, List}
use eudi_api_registration.Json.{RawMessage}

pub record Identifier : Type 0 where
  pub type : String
  pub identifier : String

pub record MultiLangString : Type 0 where
  pub lang : String
  pub content : String

pub record Policy : Type 0 where
  pub type : String
  pub policy_uri : String

pub record SupervisoryAuthority : Type 0 where
  pub name : String
  pub country : String
  pub email : List String
  pub phone : List String
  pub form_uri : List String

-- A claim path of keys; the code makes no other kind.
pub record Claim : Type 0 where
  pub path : List String

pub record Credential : Type 0 where
  pub format : String
  pub meta : RawMessage
  pub claims : List Claim

pub record DocumentUse : Type 0 where
  pub purpose : List MultiLangString
  pub privacy_policy : List Policy
  pub intended_use_identifier : String
  pub created_at : String
  pub credentials : List Credential

pub record LegalPerson : Type 0 where
  pub legal_name : List String

pub record NaturalPerson : Type 0 where
  pub given_name : String
  pub family_name : String

pub record WalletRelyingParty : Type 0 where
  pub trade_name : String
  pub support_uri : List String
  pub is_psb : Bool
  pub country : String
  pub email : List String
  pub phone : List String
  pub info_uri : List String
  pub srv_description : List (List MultiLangString)
  pub legal_person : Option LegalPerson
  pub natural_person : Option NaturalPerson
  pub identifiers : List Identifier
  pub supervisory_authority : SupervisoryAuthority
  pub intended_use : List DocumentUse

-- `json.Marshal` of these structs, whose field names are the package's; `none` is an error.
pub record Encoders : Type 0 where
  pub encode_wrp : WalletRelyingParty → Option RawMessage
  pub encode_purpose : List MultiLangString → Option RawMessage
