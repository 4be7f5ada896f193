-- ===== src/Tests/Parts.antt =====
-- The theorems on the wizard, the in-memory store and the keys, at concrete inputs.
use eudi_api_registration.Base.{
  ℕ, zero, suc, true, ◌≡◌, ◌↔◌, ◌≤◌, refl, arith, List, [], ◌∷◌, length, if◌then◌else◌, ◌==◌,
}
use eudi_api_registration.Json.{empty}
use eudi_api_registration.Registry.States.{IsEdge}
use eudi_api_registration.Registry.Contract.{Creates}
use eudi_api_registration.Wizard.Assembly.{build}
use eudi_api_registration.Wizard.Validity.{is_passed, IsValidForm}
use eudi_api_registration.Wizard.Acceptance.{build_iff}
use eudi_api_registration.Wizard.Projection.{SameUses, build-SameUses}
use eudi_api_registration.Fake.Clients.{is_legal, create_draft_client}
use eudi_api_registration.Fake.Evidence.{purge_offboarded, get_evidence_content}
use eudi_api_registration.Fake.Purge.{erased, purge_erases}
use eudi_api_registration.Fake.Store.{fake_views}
use eudi_api_registration.Fake.Documents.{SavesOnce, save_stores, create_done}
use eudi_api_registration.Fake.Contract.{legal_iff}
use eudi_api_registration.Routes.Registration.{to_form_state}
use eudi_api_registration.Routes.Keys.Material.{IsMinted, mint_splits}
use eudi_api_registration.Tests.{
  parse, encoders, codecs, ulid, registration, registration_document, registration_uses, first_id,
  onboarding, offboard, after,
}
use eudi_api_registration.Tests.Runs.{
  active_client, onboarded, onboarded-IsValid, form_builds, purge_succeeds,
}

build_iff_example :
    (is_passed (build parse encoders ulid "2024-01-01" (to_form_state registration)) ≡ true)
    ↔ IsValidForm parse (to_form_state registration)
build_iff_example =
    build_iff parse encoders ulid "2024-01-01" (λ ps. refl) (to_form_state registration)

build-SameUses_example :
    SameUses ulid 0
      (to_form_state registration).intended_uses
      registration_document.intended_use
      registration_uses
build-SameUses_example =
    build-SameUses ulid parse encoders "2024-01-01" (to_form_state registration)
      registration_document registration_uses form_builds

save_stores_example :
    SavesOnce first_id empty registration_uses "api" (after onboarding) active_client onboarded
save_stores_example =
    save_stores first_id empty registration_uses "api" (after onboarding) active_client onboarded
      refl onboarded-IsValid

create_done_example :
    Creates fake_views (create_draft_client "Beta" "" "api") (after onboarding) "Beta"
create_done_example = create_done "Beta" "" "api" (after onboarding) onboarded-IsValid

purge_erases_example :
    (get_evidence_content first_id "e" (purge_offboarded first_id "api" (after offboard)).1).0 ≡ (
      if first_id == first_id
      then erased (get_evidence_content first_id "e" (after offboard)).0
      else (get_evidence_content first_id "e" (after offboard)).0)
purge_erases_example = purge_erases first_id "api" (after offboard) first_id "e" purge_succeeds

legal_iff_example : (is_legal "active" "suspended" ≡ true) ↔ IsEdge "active" "suspended"
legal_iff_example = legal_iff "active" "suspended"

abbrev counting : ℕ → List ℕ
counting zero = []
counting (suc n) = n ∷ counting n

enough : 45 ≤ length (counting 45)
enough = omega arith

mint_splits_example : IsMinted codecs (counting 45)
mint_splits_example = mint_splits codecs (counting 45) enough
