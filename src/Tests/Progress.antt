-- ===== src/Tests/Progress.antt =====
-- The way into service, at a concrete client that has been described and is still a draft.
use eudi_api_registration.Base.{◌≡◌, refl, some}
use eudi_api_registration.Base.GoMap
use eudi_api_registration.Registry.{ClientFull}
use eudi_api_registration.Tests.{after, first_id, outside, parse, clock, float64}
use eudi_api_registration.Fake.Store.{fake_store, IsValid}
use eudi_api_registration.Fake.Contract.{fake_contract}
use eudi_api_registration.Routes.Runs.{run-Governed}
use eudi_api_registration.Routes.Fresh.{new_fake-Governed}
use eudi_api_registration.Lifecycle.{new_service}
use eudi_api_registration.Fake.{
  new_fake, fake_id, next_id, now, empty_detail, audit, touch, store_client, write_audited,
}
use eudi_api_registration.Fake.Clients.{
  is_legal, transition_client, get_client_full, draft_client, create_draft_client,
}
use eudi_api_registration.Fake.Settings.{set_client_registrar_identity}
use eudi_api_registration.Fake.IntendedUses.{
  assign_id, rebuild, kept_order, append_new, replace_intended_uses, save_wrp_document, in_order,
  list_intended_uses,
}
use eudi_api_registration.Fake.Slug.{collapse, slug_base, slug_suffix, slugify}
use eudi_api_registration.Base.GoMap.{empty, get, put}
use eudi_api_registration.Digits.{digit, fixed, width, format_012d}
use eudi_api_registration.Url.{is_absolute_https_url}
use eudi_api_registration.Lifecycle.{
  ts5_ok, any_non_revoked, may_activate, has_identity, drive_edge, check_activation_preconditions,
  with_current, transition,
}
use eudi_api_registration.Wizard.{
  non_empty, is_country_code, validate_country_code, validate_supervisory_authority,
  validate_purpose, validate_https_policy_uri, validate_policies, validate_privacy_policy,
}
use eudi_api_registration.Wizard.Credentials.{
  is_claim_path, to_claim_path, to_claims, build_claims, build_meta, build_credential,
}
use eudi_api_registration.Wizard.Assembly.{
  apply_legal_identity, add_identifiers, identifiers, build_credentials, build_intended_use,
  build_from, build_intended_uses, build,
}
use eudi_api_registration.Routes.{require_api_key}
use eudi_api_registration.Routes.Clients.{api_create_client, api_transition}
use eudi_api_registration.Routes.Settings.{api_set_registrar_identity}
use eudi_api_registration.Routes.Registration.{
  to_form_state, save_registration, save_built, api_set_registration,
}
use eudi_api_registration.Routes.Dispatch.{dispatch, serve, run}
use eudi_api_registration.Fake.Store.{uses_of}
use eudi_api_registration.Registry.States.{draft}
use eudi_api_registration.Registry.Contract.{Writes}
use eudi_api_registration.Fake.Store.{fake_views}
use eudi_api_registration.Lifecycle.Activation.{live_iff}
use eudi_api_registration.Lifecycle.Progress.{drive_all, to_active, reaches_active}
use eudi_api_registration.Routes.AuditTrail.{Extends, audit_log_grows, problems_registered}
use eudi_api_registration.App.{is_registered}
use eudi_api_registration.Base.{none, err, new_problem}
use eudi_api_registration.Routes.Dispatch.{set_webhook}
use eudi_api_registration.Routes.Settings.{api_set_webhook}
use eudi_api_registration.Tests.{described, offboard}
use eudi_api_registration.Tests.Runs.{active_client}
use eudi_api_registration.Base.{String, true, ◌≢◌, arith, eq_iff}

abbrev draft_row : ClientFull
draft_row = record active_client { status = "draft" }

drafted : GoMap.get (after described).clients first_id ≡ some draft_row
unfolding new_fake fake_id next_id now empty_detail audit touch store_client write_audited is_legal
    transition_client get_client_full draft_client create_draft_client set_client_registrar_identity
    assign_id rebuild kept_order append_new replace_intended_uses save_wrp_document in_order
    list_intended_uses collapse slug_base slug_suffix slugify empty get put digit fixed width
    format_012d is_absolute_https_url ts5_ok any_non_revoked may_activate has_identity drive_edge
    check_activation_preconditions with_current transition non_empty is_country_code
    validate_country_code validate_supervisory_authority validate_purpose validate_https_policy_uri
    validate_policies validate_privacy_policy is_claim_path to_claim_path to_claims build_claims
    build_meta build_credential apply_legal_identity add_identifiers identifiers build_credentials
    build_intended_use build_from build_intended_uses build require_api_key api_create_client
    api_transition api_set_registrar_identity to_form_state save_registration save_built
    api_set_registration dispatch serve run uses_of
drafted = refl

live : any_non_revoked (uses_of (after described) first_id) ≡ true
unfolding new_fake fake_id next_id now empty_detail audit touch store_client write_audited is_legal
    transition_client get_client_full draft_client create_draft_client set_client_registrar_identity
    assign_id rebuild kept_order append_new replace_intended_uses save_wrp_document in_order
    list_intended_uses collapse slug_base slug_suffix slugify empty get put digit fixed width
    format_012d is_absolute_https_url ts5_ok any_non_revoked may_activate has_identity drive_edge
    check_activation_preconditions with_current transition non_empty is_country_code
    validate_country_code validate_supervisory_authority validate_purpose validate_https_policy_uri
    validate_policies validate_privacy_policy is_claim_path to_claim_path to_claims build_claims
    build_meta build_credential apply_legal_identity add_identifiers identifiers build_credentials
    build_intended_use build_from build_intended_uses build require_api_key api_create_client
    api_transition api_set_registrar_identity to_form_state save_registration save_built
    api_set_registration dispatch serve run uses_of
live = refl

https : is_absolute_https_url parse draft_row.registry_uri ≡ true
unfolding is_absolute_https_url
https = refl

verified : ts5_ok new_service first_id ≡ true
unfolding ts5_ok
verified = refl

described-IsValid : IsValid (after described)
described-IsValid =
    (run-Governed fake_store fake_contract outside "k" described (new_fake clock float64)
      (new_fake-Governed outside clock float64)).valid

named : draft_row.client_identifier ≢ ""
named h = absurd (ground (arith, eq_iff draft_row.client_identifier "", h))

on_the_way : ◌≢◌ {A = String} "draft" "offboarded"
on_the_way h = absurd (ground (arith, eq_iff "draft" "offboarded", h))

reaches_active_example :
    Writes fake_views
      (drive_all fake_store parse new_service first_id "api" "" "" (to_active draft))
      (after described)
      first_id
      (record draft_row { status = "active" })
reaches_active_example =
    reaches_active fake_store fake_contract parse new_service first_id "api" "" "" draft
      (after described) draft_row drafted refl on_the_way described-IsValid
      (record {
        identified = named;
        https = https;
        live_use = (live_iff (uses_of (after described) first_id)).0 live;
        verified = verified;
      })

audit_log_grows_example :
    Extends (after described) (run fake_store outside "k" offboard (after described))
audit_log_grows_example = audit_log_grows outside "k" offboard (after described)

bodiless :
    (serve fake_store outside "k" "k" (set_webhook first_id none) (after described)).0
    ≡ err (new_problem "err:api:invalidBody")
unfolding serve dispatch require_api_key api_set_webhook
bodiless = refl

problems_registered_example : is_registered "err:api:invalidBody" ≡ true
problems_registered_example =
    problems_registered outside "k" "k" (set_webhook first_id none) (after described)
      "err:api:invalidBody" bodiless
