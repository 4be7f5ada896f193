-- ===== src/Routes.antt =====
-- The admin API (routes): the requests with their bodies, the replies, and the key gate. A body is
-- what `json.Unmarshal` makes of the request's bytes, `none` for an error, so a field that the body
-- lacks has its zero value. `ctx.Error(e)` followed by a return is the error `e`; the detail text of
-- a problem is left out.
pub mod Clients
pub mod Settings
pub mod Registration
pub mod Keys
pub mod Dispatch
pub mod Governed
pub mod Steps
pub mod Runs
pub mod Fresh
pub mod Atomic
pub mod ReadBack
pub mod Mode
pub mod Trail
pub mod AuditTrail
pub mod Health
pub mod Logged
use eudi_api_registration.Base.{
  ℕ, String, Bool, not, ◌||◌, Option, none, some, ◌==◌, if◌then◌else◌, Error, new_problem,
  unauthorized, Exec, raise,
}

pub record Response {ℓ} (A : Type ℓ) : Type ℓ where
  pub status : ℕ
  pub body : A

-- ctx.JSON(body)
abbrev pub json {ℓ} : {A : Type ℓ} → A → Response A
json body = record { status = 200; body = body }

-- ctx.StatusCode(fasthttp.StatusCreated), then ctx.JSON(body)
abbrev pub created {ℓ} : {A : Type ℓ} → A → Response A
created body = record { status = 201; body = body }

abbrev pub invalid_body : Error
invalid_body = new_problem "err:api:invalidBody"

-- if err := json.Unmarshal(ctx.Request().Body(), &req); err != nil
abbrev pub with_body {ℓ κ μ} :
    {S : Type ℓ} {R : Type κ} {A : Type μ} → Option R → (R → Exec S A) → Exec S A
with_body none handle = raise invalid_body
with_body (some req) handle = handle req

-- if bad { ctx.Error(...); return }
abbrev pub reject_if {ℓ κ} : {S : Type ℓ} {A : Type κ} → Bool → Exec S A → Exec S A
reject_if bad rest = if bad then raise invalid_body else rest

-- `want` is the configured key and `got` the header of the request; the comparison in constant time
-- is an equality of the two texts.
unfoldable pub require_api_key {ℓ κ} :
    {S : Type ℓ} {A : Type κ} → String → String → Exec S A → Exec S A
require_api_key want got next = if want == "" || not (got == want) then raise unauthorized else next
