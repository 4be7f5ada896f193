-- ===== src/Config.antt =====
-- The configuration (config.go): where its two secrets come from, and what it must pass before the
-- service starts. Viper, the secret store, the base configuration and the validator are parameters.
pub mod Boot
use eudi_api_registration.Base.{
  String, ◌≡◌, ◌≢◌, Bool, Option, none, some, List, [], ◌∷◌, ◌++◌, ◌==◌, if◌then◌else◌, Error,
}

-- Go's `error` as a result of its own: `none` is nil.
abbrev pub GoError : Type 0
GoError = Option Error

-- Viper without a flag, an override or a configuration file: what a key has as default, the variables
-- that it is bound to, and the value that it has in an environment.
pub record Viper : Type 1 where
  pub State : Type 0
  pub set_default : String → String → State → State
  pub bind_env : String → String → State → State
  pub default_of : State → String → Option String
  pub names_of : State → String → List String
  pub get : (String → String) → State → String → String

-- The first variable that is not empty, else the default; an empty variable counts as unset.
abbrev pub first_set : (String → String) → List String → Option String → String
first_set env [] none = ""
first_set env [] (some d) = d
first_set env (name ∷ names) d =
    let rest = first_set env names d in if env name == "" then rest else env name

-- What viper documents of these calls.
pub record KeepsViper (V : Viper) : Type 0 where
  pub default_set :
      (key value : String) (v : V.State) (j : String)
      → V.default_of (V.set_default key value v) j
        ≡ (if j == key then some value else V.default_of v j)
  pub names_set :
      (key value : String) (v : V.State) (j : String)
      → V.names_of (V.set_default key value v) j ≡ V.names_of v j
  pub default_bound :
      (key name : String) (v : V.State) (j : String)
      → V.default_of (V.bind_env key name v) j ≡ V.default_of v j
  pub names_bound :
      (key name : String) (v : V.State) (j : String)
      → V.names_of (V.bind_env key name v) j
        ≡ (if j == key then V.names_of v j ++ name ∷ [] else V.names_of v j)
  pub gets :
      (env : String → String) (v : V.State) (j : String)
      → V.get env v j ≡ first_set env (V.names_of v j) (V.default_of v j)

-- The fields of this service's own.
pub record Configuration : Type 0 where
  pub postgres_dsn : String
  pub admin_api_key : String

module _ (V : Viper) (secrets : String → Option String) where
  -- `secrets` is corecfg.LoadRemoteSecret, `none` for an error.
  unfoldable pub load_secret : String → String → V.State → V.State
  load_secret key name v = elim (secrets name) [
    | none ↦ v
    | some secret ↦ if secret == "" then v else V.set_default key secret v
  ]

  -- The first argument is the Bind of the embedded base configuration.
  unfoldable pub bind : (V.State → V.State) → V.State → V.State
  unfolding load_secret
  bind base_bind v0 =
      let v1 = base_bind v0 in
      let v2 = load_secret "postgres_dsn" "POSTGRES_DSN" v1 in
      let v3 = load_secret "admin_api_key" "ADMIN_API_KEY" v2 in
      let v4 = V.bind_env "postgres_dsn" "POSTGRES_DSN" v3 in
      V.bind_env "admin_api_key" "ADMIN_API_KEY" v4

-- The fields, as the framework fills them by their `mapstructure` tags.
abbrev pub loaded : (V : Viper) → (String → String) → V.State → Configuration
loaded V env v = record {
  postgres_dsn = V.get env v "postgres_dsn";
  admin_api_key = V.get env v "admin_api_key";
}

-- The result of BaseConfiguration.Validate, and valid.Struct.
unfoldable pub validate : GoError → (Configuration → GoError) → Configuration → GoError
validate (some e) valid_struct c = some e
validate none valid_struct c = valid_struct c

-- The `required` tags: a validator accepts no configuration with an empty field.
abbrev pub ChecksRequired : (Configuration → GoError) → Type 0
ChecksRequired valid_struct =
    (c : Configuration) → valid_struct c ≡ none → (c.postgres_dsn ≢ "") × (c.admin_api_key ≢ "")
