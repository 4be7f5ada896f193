-- ===== src/Bridge.antt =====
-- The calls of the database procedures through the JSONB envelope (internal/registrydb/db.go). The
-- procedures are not of this repository: `Procedures` is what a call of one answers and what it does
-- to the database. The text of an error ends where the code quotes another error or a value.
pub mod Procs
pub mod Rows
pub mod Store
pub mod Calls
pub mod RoundTrip
pub mod Serves
pub mod Answered
pub mod Agrees
use eudi_api_registration.Base.{
  String, not, Option, none, some, List, [], ◌∷◌, ◌==◌, ◌<>◌, if◌then◌else◌, Error, Result, ok, err,
  failure, from_result_code, Exec, pure, ◌>>=◌, ◌>>◌,
}
use eudi_api_registration.Json.{Json, RawMessage, empty}
use eudi_api_registration.Wire.{
  Codec, Decoder, Field, field, decode_string, decode_raw, decode_struct, unmarshal,
}

-- The answer of `QueryRow(...).Scan(&out)`: the row's bytes, an exception with the code P0001, by
-- its message, or any other failure.
pub data Answer : Type 0 where
  row : RawMessage → Answer
  raised : RawMessage → Answer
  failed : Answer

abbrev pub Procedures : Type 0 → Type 0
Procedures St = String → Json → St → Answer × St

-- `payload` is the field `Data`.
pub record Envelope : Type 0 where
  pub result : String
  pub code : String
  pub message : String
  pub payload : RawMessage

abbrev pub envelope_fields : List (Field Envelope)
envelope_fields =
    field "result" (λ e. e.result) (λ e v. record e { result = v }) decode_string
    ∷ field "code" (λ e. e.code) (λ e v. record e { code = v }) decode_string
    ∷ field "message" (λ e. e.message) (λ e v. record e { message = v }) decode_string
    ∷ field "data" (λ e. e.payload) (λ e v. record e { payload = v }) decode_raw
    ∷ []

abbrev pub decode_envelope : Codec → Decoder Envelope
decode_envelope w = decode_struct w envelope_fields

abbrev pub no_envelope : Envelope
no_envelope = record { result = ""; code = ""; message = ""; payload = empty }

-- `none` is a nil error
abbrev pub result_error : String → Option Error
result_error code = if code == "" then none else some (from_result_code ("err:" <> code))

abbrev pub by_result : Envelope → Result (RawMessage × String)
by_result e =
    if e.result == "success"
    then ok (e.payload, "")
    else if e.result == "error"
    then ok (empty, e.code)
    else err (failure "registrydb: unknown envelope result")

unfoldable pub parse_envelope : Codec → RawMessage → Result (RawMessage × String)
parse_envelope w b = elim (unmarshal no_envelope (decode_envelope w) b) [
  | err e ↦ err (failure "registrydb: malformed envelope")
  | ok e ↦ by_result e
]

-- return nil, resultError(code)
abbrev pub nothing_but : Option Error → Result RawMessage
nothing_but none = ok empty
nothing_but (some e) = err e

unfoldable pub outcome : Codec → String → Answer → Result RawMessage
unfolding parse_envelope
outcome w proc failed = err (failure ("registrydb: " <> proc))
outcome w proc (raised message) = elim (parse_envelope w message) [
  | err e ↦ err e
  | ok (payload, code) ↦ nothing_but (result_error code)
]
outcome w proc (row out) = elim (parse_envelope w out) [
  | err e ↦ err e
  | ok (payload, code) ↦ if not (code == "") then nothing_but (result_error code) else ok payload
]

module _ {St : Type 0} (w : Codec) (run : Procedures St) where
  -- `none` stands for an argument that cannot be marshalled.
  unfoldable pub call : String → Option Json → Exec St RawMessage
  unfolding outcome
  call proc none s = (err (failure "registrydb: marshal pi_data"), s)
  call proc (some pi) s = let (answer, t) = run proc pi s in (outcome w proc answer, t)

  -- _, err := call(...); return err
  unfoldable pub execute : String → Option Json → Exec St (Unit {0})
  unfolding call
  execute proc pi = call proc pi >> pure tt

  -- call(...), then json.Unmarshal(data, &out)
  unfoldable pub query {ℓ} : {A : Type ℓ} → A → Decoder A → String → Option Json → Exec St A
  unfolding call unmarshal
  query zero_value decode proc pi =
      call proc pi >>= λ payload s. (unmarshal zero_value decode payload, s)
