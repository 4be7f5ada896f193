-- ===== src/Routes/Keys.antt =====
-- Minting of verification keys (internal/apikeys/apikeys.go) and its endpoint (routes/api_keys.go).
-- The two base64 encodings, base32 with the alphabet of the package, and argon2id are parameters.
pub mod Material
use eudi_api_registration.Base.{
  ℕ, zero, suc, String, ◌<>◌, Option, none, some, List, [], ◌∷◌, Result, ok, err, failure, Exec,
  pure, raise, when_ok, ◌>>=◌, ◌>>◌,
}
use eudi_api_registration.Registry.Store.{Store}
use eudi_api_registration.Routes.{Response, created}

-- `argon2_id` gets the secret's text and the salt; time, memory, threads and tag length are fixed.
pub record KeyCodecs : Type 0 where
  pub crockford32 : List ℕ → String
  pub raw_url_base64 : List ℕ → String
  pub raw_std_base64 : List ℕ → String
  pub argon2_id : String → List ℕ → List ℕ

pub record MintedKey : Type 0 where
  pub display_key : String
  pub prefix : String
  pub phc_hash : String

abbrev pub prefix_raw_len : ℕ
prefix_raw_len = 5

abbrev pub secret_raw_len : ℕ
secret_raw_len = 24

abbrev pub salt_len : ℕ
salt_len = 16

-- io.ReadFull over a source with these bytes left: the n bytes, and what is left after them; `none`
-- is an error.
unfoldable pub read_full : ℕ → List ℕ → Option (List ℕ × List ℕ)
read_full zero source = some ([], source)
read_full (suc n) [] = none
read_full (suc n) (b ∷ source) = elim (read_full n source) [
  | none ↦ none
  | some (bytes, rest) ↦ some (b ∷ bytes, rest)
]

-- The argon2id version 19 (0x13) and its pinned parameters.
abbrev pub phc_text : KeyCodecs → String → List ℕ → String
phc_text codecs secret salt =
    "$argon2id$v=19$m=19456,t=2,p=1$"
    <> codecs.raw_std_base64 salt
    <> "$"
    <> codecs.raw_std_base64 (codecs.argon2_id secret salt)

unfoldable pub mint : KeyCodecs → List ℕ → Result MintedKey
unfolding read_full
mint codecs source = elim (read_full prefix_raw_len source) [
  | none ↦ err (failure "apikeys: mint prefix")
  | some (prefix_raw, source1) ↦ elim (read_full secret_raw_len source1) [
    | none ↦ err (failure "apikeys: mint secret")
    | some (secret_raw, source2) ↦ elim (read_full salt_len source2) [
      | none ↦ err (failure "apikeys: mint salt")
      | some (salt, _) ↦
          let prefix = codecs.crockford32 prefix_raw in
          let secret = codecs.raw_url_base64 secret_raw in
          ok (record {
            display_key = "vk_" <> prefix <> "_" <> secret;
            prefix = prefix;
            phc_hash = phc_text codecs secret salt;
          })
    ]
  ]
]

pub record ApiKeyCreated : Type 0 where
  pub client_id : String
  pub prefix : String
  pub api_key : String

module _ (S : Store) where
  unfoldable pub api_create_key :
      KeyCodecs → List ℕ → String → Exec S.State (Response ApiKeyCreated)
  unfolding mint
  api_create_key codecs source id = do
    full ← S.get_client_full id
    key ← when_ok (mint codecs source) pure
    S.create_api_key full.id key.prefix key.phc_hash
    pure (created (record { client_id = full.id; prefix = key.prefix; api_key = key.display_key }))
