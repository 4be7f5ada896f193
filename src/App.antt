-- ===== src/App.antt =====
-- The problem reasons that the application registers before it starts (app.go).
use eudi_api_registration.Base.{
  ℕ, String, Bool, true, false, none, some, List, [], ◌∷◌, ◌≡◌, ◌==◌, any, Error, from_result_code,
  new_problem, unauthorized, failure, panicked,
}
use eudi_api_registration.Text.{behind_colon}

pub record ReasonSpec : Type 0 where
  pub reason : String
  pub status : ℕ
  pub title : String

abbrev pub reasons : List ReasonSpec
reasons =
    record { reason = "intendedUseRequired"; status = 422; title = "Intended use required" }
    ∷ record {
      reason = "registrarIdentityRequired";
      status = 422;
      title = "Client registrar identity required";
    }
    ∷ record {
      reason = "ts5CheckFailed";
      status = 422;
      title = "ARF TS5 verification check failed";
    }
    ∷ record {
      reason = "illegalTransition";
      status = 409;
      title = "Illegal client-lifecycle transition";
    }
    ∷ record { reason = "invalidBody"; status = 400; title = "Invalid request body" }
    ∷ record {
      reason = "registrationInvalid";
      status = 422;
      title = "Registration document invalid";
    }
    ∷ record { reason = "notFound"; status = 404; title = "Not found" }
    ∷ []

-- The reason of a problem code, `err:<domain>:<reason>`, is one that the application registers.
abbrev pub is_registered : String → Bool
is_registered code = elim (behind_colon code) [
  | none ↦ false
  | some reason ↦ any (λ (spec : ReasonSpec). spec.reason == reason) reasons
]

-- An error that is a problem of this service's own has a registered reason.
abbrev pub IsRegistered : Error → Type 0
IsRegistered (new_problem code) = is_registered code ≡ true
IsRegistered (from_result_code code) = Unit
IsRegistered unauthorized = Unit
IsRegistered (failure message) = Unit
IsRegistered panicked = Unit
