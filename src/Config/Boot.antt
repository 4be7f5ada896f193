-- ===== src/Config/Boot.antt =====
-- What a configuration that passed its checks means for the API: the key that it asks for.
use eudi_api_registration.Base.{
  String, ◌≡◌, ◌≢◌, refl, sym, ap, ◌∙◌, eq_iff, eq_refl, false, Bool-cases, Option-cases, inl, inr,
  Option, none, some, [], ◌∷◌, ◌==◌, if◌then◌else◌, err, unauthorized,
}
use eudi_api_registration.Registry.Store.{Store}
use eudi_api_registration.Routes.{require_api_key}
use eudi_api_registration.Routes.Dispatch.{Outside, Request, serve, dispatch}
use eudi_api_registration.Config.{
  Viper, KeepsViper, first_set, Configuration, GoError, load_secret, bind, loaded, validate,
  ChecksRequired,
}

-- The plain variable if it is not empty, else the secret store's, else nothing.
abbrev pub preferred : (String → String) → (String → Option String) → String → String
preferred env secrets name = if env name == "" then first_set env [] (secrets name) else env name

-- Nothing of a key has been set or bound.
abbrev pub IsFresh : (V : Viper) → V.State → String → Type 0
IsFresh V v key = (V.names_of v key ≡ []) × (V.default_of v key ≡ none)

-- What Validate accepts has passed the check of its fields.
validate-fields :
    (base : GoError) (valid_struct : Configuration → GoError) (c : Configuration)
    → validate base valid_struct c ≡ none
    → valid_struct c ≡ none
unfolding validate
validate-fields none valid_struct c accepted = accepted
validate-fields (some e) valid_struct c accepted = cc

-- The gate under a configured key that is not empty.
guarded :
    (S : Store) (out : Outside) (want got : String) (request : Request) (s : S.State)
    → want ≢ ""
    → serve S out want got request s
      ≡ (if got == want then dispatch S out request s else (err unauthorized, s))
unfolding serve require_api_key
guarded S out want got request s h = elim (Bool-cases (want == "")) [
  | inl blank ↦ absurd (h ((eq_iff want "").0 blank))
  | inr full ↦ elim (Bool-cases (got == want)) [
    | inl same ↦ rw (full, same) refl
    | inr other ↦ rw (full, other) refl
  ]
]

module _ (V : Viper) (laws : KeepsViper V) (secrets : String → Option String) where
  load_secret-names :
      (key name : String) (v : V.State) (j : String)
      → V.names_of (load_secret V secrets key name v) j ≡ V.names_of v j
  unfolding load_secret
  load_secret-names key name v j = elim (Option-cases (secrets name)) [
    | inl missing ↦ rw (load_secret, missing) refl
    | inr (secret, given) ↦
        rw (load_secret, given)
          (elim (Bool-cases (secret == "")) [
            | inl blank ↦ rw blank refl
            | inr full ↦ rw full (laws.names_set key secret v j)
          ])
  ]

  load_secret-default :
      (key name : String) (v : V.State) (j : String)
      → (j == key) ≡ false
      → V.default_of (load_secret V secrets key name v) j ≡ V.default_of v j
  unfolding load_secret
  load_secret-default key name v j other = elim (Option-cases (secrets name)) [
    | inl missing ↦ rw (load_secret, missing) refl
    | inr (secret, given) ↦
        rw (load_secret, given)
          (elim (Bool-cases (secret == "")) [
            | inl blank ↦ rw blank refl
            | inr full ↦ rw full (rw (laws.default_set key secret v j) (rw other refl))
          ])
  ]

  load_secret-value :
      (env : String → String) (key name : String) (v : V.State)
      → V.default_of v key ≡ none
      → first_set env [] (V.default_of (load_secret V secrets key name v) key)
        ≡ first_set env [] (secrets name)
  unfolding load_secret
  load_secret-value env key name v fresh = elim (Option-cases (secrets name)) [
    | inl missing ↦ rw (load_secret, missing, fresh) refl
    | inr (secret, given) ↦
        rw (load_secret, given)
          (elim (Bool-cases (secret == "")) [
            | inl blank ↦ rw (blank, fresh) (sym ((eq_iff secret "").0 blank))
            | inr full ↦ rw full (rw (laws.default_set key secret v key) (rw (eq_refl key) refl))
          ])
  ]

  -- A key that is bound to one variable, over a default from the secret store.
  one_name :
      (env : String → String) (v : V.State) (key name : String)
      → V.names_of v key ≡ name ∷ []
      → first_set env [] (V.default_of v key) ≡ first_set env [] (secrets name)
      → V.get env v key ≡ preferred env secrets name
  one_name env v key name names value = rw (laws.gets env v key) (rw names (rw value refl))

  -- The two secrets come from their plain variables, and from the secret store where these are empty,
  -- if the base configuration has neither set nor bound their keys.
  pub bind-preferred :
      (env : String → String) (base_bind : V.State → V.State) (v : V.State)
      → IsFresh V (base_bind v) "postgres_dsn"
      → IsFresh V (base_bind v) "admin_api_key"
      → loaded V env (bind V secrets base_bind v) ≡ record {
        postgres_dsn = preferred env secrets "POSTGRES_DSN";
        admin_api_key = preferred env secrets "ADMIN_API_KEY";
      }
  unfolding bind
  bind-preferred env base_bind v dsn key =
      let v1 = base_bind v in
      let v2 = load_secret V secrets "postgres_dsn" "POSTGRES_DSN" v1 in
      let v3 = load_secret V secrets "admin_api_key" "ADMIN_API_KEY" v2 in
      let v4 = V.bind_env "postgres_dsn" "POSTGRES_DSN" v3 in
      let v5 = V.bind_env "admin_api_key" "ADMIN_API_KEY" v4 in
      let dsn_names : V.names_of v5 "postgres_dsn" ≡ "POSTGRES_DSN" ∷ [] =
        rw
          (
            laws.names_bound "admin_api_key" "ADMIN_API_KEY" v4 "postgres_dsn",
            laws.names_bound "postgres_dsn" "POSTGRES_DSN" v3 "postgres_dsn",
            load_secret-names "admin_api_key" "ADMIN_API_KEY" v2 "postgres_dsn",
            load_secret-names "postgres_dsn" "POSTGRES_DSN" v1 "postgres_dsn",
            dsn.0,
          )
          refl in
      let dsn_value : first_set env [] (V.default_of v5 "postgres_dsn")
          ≡ first_set env [] (secrets "POSTGRES_DSN") =
        rw
          (
            laws.default_bound "admin_api_key" "ADMIN_API_KEY" v4 "postgres_dsn",
            laws.default_bound "postgres_dsn" "POSTGRES_DSN" v3 "postgres_dsn",
            load_secret-default "admin_api_key" "ADMIN_API_KEY" v2 "postgres_dsn" refl,
          )
          (load_secret-value env "postgres_dsn" "POSTGRES_DSN" v1 dsn.1) in
      let key_names : V.names_of v5 "admin_api_key" ≡ "ADMIN_API_KEY" ∷ [] =
        rw
          (
            laws.names_bound "admin_api_key" "ADMIN_API_KEY" v4 "admin_api_key",
            laws.names_bound "postgres_dsn" "POSTGRES_DSN" v3 "admin_api_key",
            load_secret-names "admin_api_key" "ADMIN_API_KEY" v2 "admin_api_key",
            load_secret-names "postgres_dsn" "POSTGRES_DSN" v1 "admin_api_key",
            key.0,
          )
          refl in
      let key_value : first_set env [] (V.default_of v5 "admin_api_key")
          ≡ first_set env [] (secrets "ADMIN_API_KEY") =
        rw
          (
            laws.default_bound "admin_api_key" "ADMIN_API_KEY" v4 "admin_api_key",
            laws.default_bound "postgres_dsn" "POSTGRES_DSN" v3 "admin_api_key",
          )
          (load_secret-value env "admin_api_key" "ADMIN_API_KEY" v2
            (load_secret-default "postgres_dsn" "POSTGRES_DSN" v1 "admin_api_key" refl ∙ key.1)) in
      rw
        (
          one_name env v5 "postgres_dsn" "POSTGRES_DSN" dsn_names dsn_value,
          one_name env v5 "admin_api_key" "ADMIN_API_KEY" key_names key_value,
        )
        refl

  -- When the configuration that was read passes Validate, which accepts no empty required field, and
  -- the base configuration has neither set nor bound the two keys, a request is handled exactly if it
  -- sends the value of ADMIN_API_KEY, or of the secret store where that is empty; any other request is
  -- unauthorized and changes nothing.
  pub boot_guarded :
      (S : Store) (out : Outside) (env : String → String) (base_bind : V.State → V.State)
      (v : V.State) (base : GoError) (valid_struct : Configuration → GoError)
      → ChecksRequired valid_struct
      → IsFresh V (base_bind v) "postgres_dsn"
      → IsFresh V (base_bind v) "admin_api_key"
      → validate base valid_struct (loaded V env (bind V secrets base_bind v)) ≡ none
      → (got : String) (request : Request) (s : S.State)
      → serve S out (loaded V env (bind V secrets base_bind v)).admin_api_key got request s ≡ (
          if got == preferred env secrets "ADMIN_API_KEY"
          then dispatch S out request s
          else (err unauthorized, s))
  boot_guarded S out env base_bind v base valid_struct checks dsn key accepted got request s =
      rw (← ap (λ (c : Configuration). c.admin_api_key) (bind-preferred env base_bind v dsn key)) (
        guarded S out (loaded V env (bind V secrets base_bind v)).admin_api_key got request s
          (checks (loaded V env (bind V secrets base_bind v)) (
            validate-fields base valid_struct (loaded V env (bind V secrets base_bind v))
              accepted)).1)
