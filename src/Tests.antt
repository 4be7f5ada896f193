-- ===== src/Tests.antt =====
-- Concrete inputs: a small URL parser, encoders, and a run of requests that brings a client into
-- service. The theorems are applied to them in the modules below.
pub mod Runs
pub mod Parts
pub mod Service
pub mod Bridge
pub mod Stores
pub mod Progress
pub mod Boot
pub mod Faulty
use eudi_api_registration.Base.{
  ℕ, String, Bool, true, false, Option, none, some, List, [], ◌∷◌, ◌++◌, map, ◌<>◌,
}
use eudi_api_registration.Text.{strip_prefix}
use eudi_api_registration.Json.{
  Json, null, bool, obj, member, end, str, arr, strings, RawMessage, text,
}
use eudi_api_registration.Json.Generic.{Float64}
use eudi_api_registration.Registry.{IntendedUse}
use eudi_api_registration.Ts5.{MultiLangString, WalletRelyingParty, Encoders}
use eudi_api_registration.Url.{Url, UrlParser}
use eudi_api_registration.Fake.{Fake, new_fake}
use eudi_api_registration.Fake.Store.{fake_store}
use eudi_api_registration.Routes.Clients.{ApiCreateRequest, ApiTransitionRequest}
use eudi_api_registration.Routes.Settings.{ApiRegistrarIdentityRequest}
use eudi_api_registration.Routes.Registration.{
  ApiRegistrationRequest, ApiIntendedUse, ApiMultiLangText, ApiPrivacyPolicy, ApiCredential,
  ApiSupervisory,
}
use eudi_api_registration.Routes.Keys.{KeyCodecs}
use eudi_api_registration.Routes.Dispatch.{
  Request, create_client, set_registrar_identity, set_registration, set_webhook, drive, Outside,
  run,
}

-- Everything after "https://" is the host.
abbrev pub parse : UrlParser
parse raw = elim (strip_prefix "https://" raw) [
  | none ↦ none
  | some host ↦ some (record {
    scheme = "https";
    has_user = false;
    host = host;
    path = "";
    raw_query = "";
    fragment = "";
  })
]

abbrev pub encoders : Encoders
encoders = record {
  encode_wrp = λ doc. some (text (str doc.trade_name));
  encode_purpose = λ ps. some (text (obj end));
}

abbrev pub codecs : KeyCodecs
codecs = record {
  crockford32 = λ bytes. "P";
  raw_url_base64 = λ bytes. "S";
  raw_std_base64 = λ bytes. "T";
  argon2_id = λ secret salt. salt;
}

abbrev pub outside : Outside
outside = record { parse = parse; encoders = encoders; matches = λ key. true; codecs = codecs }

abbrev pub ulid : ℕ → String
ulid n = "01ARZ"

abbrev pub clock : ℕ → ℕ
clock n = n

-- Every literal is that of a float64.
abbrev pub float64 : Float64
float64 literal = some literal

abbrev pub credential : ApiCredential
credential = record {
  format = "mso_mdoc";
  doctypes_or_vcts = "org.iso.18013.5.1.mDL" ∷ [];
  all_claims = false;
  claims = ("family_name" ∷ []) ∷ [];
}

abbrev pub use_of_mdl : ApiIntendedUse
use_of_mdl = record {
  purpose = record { lang = "en"; text = "age" } ∷ [];
  privacy_policy = record { uri = "https://rp.example" } ∷ [];
  credentials = credential ∷ [];
}

abbrev pub registration : ApiRegistrationRequest
registration = record {
  legal_kind = "legalPerson";
  legal_name = "Acme" ∷ [];
  given_name = "";
  family_name = "";
  euid = "LV1";
  other_ids = [];
  country = "LV";
  email = [];
  info_uri = [];
  support_uri = [];
  trade_name = "Acme";
  intended_uses = use_of_mdl ∷ [];
  supervisory_authority = record {
    name = "";
    country = "LV";
    email = "dpa@example" ∷ [];
    phone = [];
    form_uri = [];
  };
  is_psb = false;
}

-- The first identifier that the in-memory store mints.
abbrev pub first_id : String
first_id = "01JZXREGDBFAKE000000000001"

abbrev pub to_state : String → String × Request
to_state target =
    ("k", drive first_id (some (record { target_state = target; reason = ""; evidence_ref = "" })))

abbrev pub create : String × Request
create = ("k", create_client (some (record { name = "Acme"; contact_email = "" })))

abbrev pub identify : String × Request
identify = (
  "k",
  set_registrar_identity first_id
      (some (record { registry_uri = "https://reg.example"; client_identifier = "acme" })),
)

abbrev pub register : String × Request
register = ("k", set_registration first_id (some registration) ulid "2024-01-01")

-- From an empty store to a registered client, and on into service.
abbrev pub described : List (String × Request)
described = create ∷ identify ∷ register ∷ []

abbrev pub filing : List (String × Request)
filing =
    create
    ∷ identify
    ∷ register
    ∷ map to_state ("evidence_submitted" ∷ "filed_with_registrar" ∷ "registered" ∷ [])

abbrev pub onboarding : List (String × Request)
onboarding = filing ++ to_state "active" ∷ []

abbrev pub after : List (String × Request) → Fake
after requests = run fake_store outside "k" requests (new_fake clock float64)

abbrev pub offboard : List (String × Request)
offboard = onboarding ++ to_state "offboarded" ∷ []

abbrev pub bad_webhook : Request
bad_webhook = set_webhook first_id (some (record { webhook_url = "http://rp.example" }))

-- What the registration is built into.
abbrev pub registration_document : WalletRelyingParty
registration_document = record {
  trade_name = "Acme";
  support_uri = [];
  is_psb = false;
  country = "LV";
  email = [];
  phone = [];
  info_uri = [];
  srv_description = [];
  legal_person = some (record { legal_name = "Acme" ∷ [] });
  natural_person = none;
  identifiers = record { type = "http://data.europa.eu/eudi/id/EUID"; identifier = "LV1" } ∷ [];
  supervisory_authority = record {
    name = "";
    country = "LV";
    email = "dpa@example" ∷ [];
    phone = [];
    form_uri = [];
  };
  intended_use =
      record {
        purpose = record { lang = "en"; content = "age" } ∷ [];
        privacy_policy =
            record {
              type = "http://data.europa.eu/eudi/policy/privacy-policy";
              policy_uri = "https://rp.example";
            }
            ∷ [];
        intended_use_identifier = "pending-01ARZ";
        created_at = "2024-01-01";
        credentials =
            record {
              format = "mso_mdoc";
              meta = text (obj (member "doctype_value" (str "org.iso.18013.5.1.mDL") end));
              claims = record { path = "family_name" ∷ [] } ∷ [];
            }
            ∷ [];
      }
      ∷ [];
}

abbrev pub registration_uses : List IntendedUse
registration_uses =
    record {
      id = "";
      intended_use_id = "pending-01ARZ";
      purpose = text (obj end);
      credentials =
          record {
            format = "mso_mdoc";
            doctypes_or_vcts = "org.iso.18013.5.1.mDL" ∷ [];
            all_claims = false;
            claims = (str "family_name" ∷ []) ∷ [];
          }
          ∷ [];
      revoked_at = "";
    }
    ∷ []
