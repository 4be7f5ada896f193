-- ===== src/Tests/Boot.antt =====
-- A service that has its secrets from the secret store, and the theorems on its configuration there.
use eudi_api_registration.Base.{
  String, ◌≡◌, refl, arith, eq_iff, ◌||◌, Option, none, some, List, [], ◌∷◌, ◌++◌, ◌==◌,
  if◌then◌else◌, failure, err, unauthorized,
}
use eudi_api_registration.Tests.{after, onboarding, outside, bad_webhook}
use eudi_api_registration.Fake.Store.{fake_store}
use eudi_api_registration.Routes.Dispatch.{serve}
use eudi_api_registration.Config.{
  Viper, KeepsViper, first_set, Configuration, GoError, load_secret, bind, loaded, validate,
  ChecksRequired,
}
use eudi_api_registration.Config.Boot.{bind-preferred, boot_guarded}

-- What has been set and bound, key by key.
record Settings : Type 0 where
  default_of : String → Option String
  names_of : String → List String

abbrev viper : Viper
viper = record {
  State = Settings;
  set_default = λ key value v. record {
    default_of = λ j. if j == key then some value else v.default_of j;
    names_of = v.names_of;
  };
  bind_env = λ key name v. record {
    default_of = v.default_of;
    names_of = λ j. if j == key then v.names_of j ++ name ∷ [] else v.names_of j;
  };
  default_of = λ v. v.default_of;
  names_of = λ v. v.names_of;
  get = λ env v j. first_set env (v.names_of j) (v.default_of j);
}

viper-KeepsViper : KeepsViper viper
viper-KeepsViper = record {
  default_set = λ key value v j. refl;
  names_set = λ key value v j. refl;
  default_bound = λ key name v j. refl;
  names_bound = λ key name v j. refl;
  gets = λ env v j. refl;
}

abbrev fresh : Settings
fresh = record { default_of = λ key. none; names_of = λ key. [] }

-- Both secrets are in the secret store, and the plain variable of the DSN overrides its own.
abbrev secrets : String → Option String
secrets name =
    if name == "POSTGRES_DSN"
    then some "postgres://file"
    else if name == "ADMIN_API_KEY"
    then some "k"
    else none

abbrev env : String → String
env name = if name == "POSTGRES_DSN" then "postgres://env" else ""

abbrev valid_struct : Configuration → GoError
valid_struct c =
    if c.postgres_dsn == "" || c.admin_api_key == "" then some (failure "required") else none

valid_struct-ChecksRequired : ChecksRequired valid_struct
valid_struct-ChecksRequired c accepted = (
  ground (arith, eq_iff c.postgres_dsn "", eq_iff c.admin_api_key ""),
  ground (arith, eq_iff c.postgres_dsn "", eq_iff c.admin_api_key ""),
)

bind-preferred_example :
    loaded viper env (bind viper secrets (λ v. v) fresh)
    ≡ record { postgres_dsn = "postgres://env"; admin_api_key = "k" }
bind-preferred_example =
    bind-preferred viper viper-KeepsViper secrets env (λ v. v) fresh (refl, refl) (refl, refl)

accepted : validate none valid_struct (loaded viper env (bind viper secrets (λ v. v) fresh)) ≡ none
unfolding validate bind load_secret
accepted = refl

boot_guarded_example :
    serve fake_store outside
      (loaded viper env (bind viper secrets (λ v. v) fresh)).admin_api_key
      ""
      bad_webhook
      (after onboarding)
    ≡ (err unauthorized, after onboarding)
boot_guarded_example =
    boot_guarded viper viper-KeepsViper secrets fake_store outside env (λ v. v) fresh none
      valid_struct valid_struct-ChecksRequired (refl, refl) (refl, refl) accepted "" bad_webhook
      (after onboarding)
