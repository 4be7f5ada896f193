-- ===== src/Tests/Runs.antt =====
-- The onboarding run, evaluated.
use eudi_api_registration.Base.{◌≡◌, refl, some, [], ◌∷◌, ok, err, from_result_code, failure}
use eudi_api_registration.Base.GoMap
use eudi_api_registration.Json.{text, obj, end, str}
use eudi_api_registration.Registry.{ClientFull}
use eudi_api_registration.Tests.{
  after, filing, onboarding, create, registration, first_id, outside, parse, encoders, ulid, clock,
  float64, offboard, bad_webhook, registration_document, registration_uses,
}
use eudi_api_registration.Wizard.{passed}
use eudi_api_registration.Fake.Store.{fake_store, IsValid}
use eudi_api_registration.Fake.Contract.{fake_contract}
use eudi_api_registration.Fake.Settings.{set_client_webhook, webhook_url_pattern}
use eudi_api_registration.Fake.Evidence.{purge_offboarded}
use eudi_api_registration.Routes.{json}
use eudi_api_registration.Url.{is_web_origin}
use eudi_api_registration.Fake.Settings.{set_client_allowed_origins, web_origin_pattern}
use eudi_api_registration.Routes.Settings.{api_set_allowed_origins, set_origins}
use eudi_api_registration.Routes.Settings.{api_set_webhook}
use eudi_api_registration.Routes.Runs.{run-Governed}
use eudi_api_registration.Routes.Fresh.{new_fake-Governed}
use eudi_api_registration.Lifecycle.{new_service}
use eudi_api_registration.Fake.{
  new_fake, fake_id, next_id, now, empty_detail, audit, touch, store_client, write_audited,
}
use eudi_api_registration.Fake.Clients.{
  is_legal, transition_client, get_client_full, draft_client, create_draft_client,
}
use eudi_api_registration.Fake.Settings.{set_client_registrar_identity}
use eudi_api_registration.Fake.IntendedUses.{
  assign_id, rebuild, kept_order, append_new, replace_intended_uses, save_wrp_document, in_order,
  list_intended_uses,
}
use eudi_api_registration.Fake.Slug.{collapse, slug_base, slug_suffix, slugify}
use eudi_api_registration.Base.GoMap.{empty, get, put}
use eudi_api_registration.Digits.{digit, fixed, width, format_012d}
use eudi_api_registration.Url.{is_absolute_https_url}
use eudi_api_registration.Lifecycle.{
  ts5_ok, any_non_revoked, may_activate, has_identity, drive_edge, check_activation_preconditions,
  with_current, transition,
}
use eudi_api_registration.Wizard.{
  non_empty, is_country_code, validate_country_code, validate_supervisory_authority,
  validate_purpose, validate_https_policy_uri, validate_policies, validate_privacy_policy,
}
use eudi_api_registration.Wizard.Credentials.{
  is_claim_path, to_claim_path, to_claims, build_claims, build_meta, build_credential,
}
use eudi_api_registration.Wizard.Assembly.{
  apply_legal_identity, add_identifiers, identifiers, build_credentials, build_intended_use,
  build_from, build_intended_uses, build,
}
use eudi_api_registration.Routes.{require_api_key}
use eudi_api_registration.Routes.Clients.{api_create_client, api_transition}
use eudi_api_registration.Routes.Settings.{api_set_registrar_identity}
use eudi_api_registration.Routes.Registration.{
  to_form_state, save_registration, save_built, api_set_registration,
}
use eudi_api_registration.Routes.Dispatch.{Request, drive, dispatch, serve, run}
use eudi_api_registration.Tests.Faulty.{faulty_store}
use eudi_api_registration.Fake.Store.{uses_of}

abbrev pub active_client : ClientFull
active_client = record {
  id = first_id;
  name = "Acme";
  status = "active";
  registry_uri = "https://reg.example";
  client_identifier = "acme";
  default_webhook = "";
  allowed_origins = [];
  policy = text (obj end);
  slug = "acme-0000001";
  wrp_document = text (str "Acme");
  contact_emails = [];
}

abbrev pub registered_client : ClientFull
registered_client = record active_client { status = "registered" }

pub onboarded : GoMap.get (after onboarding).clients first_id ≡ some active_client
unfolding new_fake fake_id next_id now empty_detail audit touch store_client write_audited is_legal
    transition_client get_client_full draft_client create_draft_client set_client_registrar_identity
    assign_id rebuild kept_order append_new replace_intended_uses save_wrp_document in_order
    list_intended_uses collapse slug_base slug_suffix slugify empty get put digit fixed width
    format_012d is_absolute_https_url ts5_ok any_non_revoked may_activate has_identity drive_edge
    check_activation_preconditions with_current transition non_empty is_country_code
    validate_country_code validate_supervisory_authority validate_purpose validate_https_policy_uri
    validate_policies validate_privacy_policy is_claim_path to_claim_path to_claims build_claims
    build_meta build_credential apply_legal_identity add_identifiers identifiers build_credentials
    build_intended_use build_from build_intended_uses build require_api_key api_create_client
    api_transition api_set_registrar_identity to_form_state save_registration save_built
    api_set_registration dispatch serve run uses_of
onboarded = refl

pub filed : GoMap.get (after filing).clients first_id ≡ some registered_client
unfolding new_fake fake_id next_id now empty_detail audit touch store_client write_audited is_legal
    transition_client get_client_full draft_client create_draft_client set_client_registrar_identity
    assign_id rebuild kept_order append_new replace_intended_uses save_wrp_document in_order
    list_intended_uses collapse slug_base slug_suffix slugify empty get put digit fixed width
    format_012d is_absolute_https_url ts5_ok any_non_revoked may_activate has_identity drive_edge
    check_activation_preconditions with_current transition non_empty is_country_code
    validate_country_code validate_supervisory_authority validate_purpose validate_https_policy_uri
    validate_policies validate_privacy_policy is_claim_path to_claim_path to_claims build_claims
    build_meta build_credential apply_legal_identity add_identifiers identifiers build_credentials
    build_intended_use build_from build_intended_uses build require_api_key api_create_client
    api_transition api_set_registrar_identity to_form_state save_registration save_built
    api_set_registration dispatch serve run uses_of
filed = refl

pub onboarded-IsValid : IsValid (after onboarding)
onboarded-IsValid =
    (run-Governed fake_store fake_contract outside "k" onboarding (new_fake clock float64)
      (new_fake-Governed outside clock float64)).valid

pub filed-IsValid : IsValid (after filing)
filed-IsValid =
    (run-Governed fake_store fake_contract outside "k" filing (new_fake clock float64)
      (new_fake-Governed outside clock float64)).valid

pub bad_webhook_fails :
    (serve fake_store outside "k" "k" bad_webhook (after onboarding)).0
    ≡ err (from_result_code "err:registry:invalid")
unfolding new_fake fake_id next_id now empty_detail audit touch store_client write_audited is_legal
    transition_client get_client_full draft_client create_draft_client set_client_registrar_identity
    assign_id rebuild kept_order append_new replace_intended_uses save_wrp_document in_order
    list_intended_uses collapse slug_base slug_suffix slugify empty get put digit fixed width
    format_012d is_absolute_https_url ts5_ok any_non_revoked may_activate has_identity drive_edge
    check_activation_preconditions with_current transition non_empty is_country_code
    validate_country_code validate_supervisory_authority validate_purpose validate_https_policy_uri
    validate_policies validate_privacy_policy is_claim_path to_claim_path to_claims build_claims
    build_meta build_credential apply_legal_identity add_identifiers identifiers build_credentials
    build_intended_use build_from build_intended_uses build require_api_key api_create_client
    api_transition api_set_registrar_identity to_form_state save_registration save_built
    api_set_registration dispatch serve run uses_of api_set_webhook set_client_webhook
    webhook_url_pattern
bad_webhook_fails = refl

pub activation_succeeds :
    (transition fake_store parse new_service first_id "active" "api" "" "" (after filing)).0 ≡ ok tt
unfolding new_fake fake_id next_id now empty_detail audit touch store_client write_audited is_legal
    transition_client get_client_full draft_client create_draft_client set_client_registrar_identity
    assign_id rebuild kept_order append_new replace_intended_uses save_wrp_document in_order
    list_intended_uses collapse slug_base slug_suffix slugify empty get put digit fixed width
    format_012d is_absolute_https_url ts5_ok any_non_revoked may_activate has_identity drive_edge
    check_activation_preconditions with_current transition non_empty is_country_code
    validate_country_code validate_supervisory_authority validate_purpose validate_https_policy_uri
    validate_policies validate_privacy_policy is_claim_path to_claim_path to_claims build_claims
    build_meta build_credential apply_legal_identity add_identifiers identifiers build_credentials
    build_intended_use build_from build_intended_uses build require_api_key api_create_client
    api_transition api_set_registrar_identity to_form_state save_registration save_built
    api_set_registration dispatch serve run uses_of
activation_succeeds = refl

pub redraft_fails :
    (transition fake_store parse new_service first_id "draft" "api" "" "" (after onboarding)).0
    ≡ err (from_result_code "err:registry:illegal_transition")
unfolding new_fake fake_id next_id now empty_detail audit touch store_client write_audited is_legal
    transition_client get_client_full draft_client create_draft_client set_client_registrar_identity
    assign_id rebuild kept_order append_new replace_intended_uses save_wrp_document in_order
    list_intended_uses collapse slug_base slug_suffix slugify empty get put digit fixed width
    format_012d is_absolute_https_url ts5_ok any_non_revoked may_activate has_identity drive_edge
    check_activation_preconditions with_current transition non_empty is_country_code
    validate_country_code validate_supervisory_authority validate_purpose validate_https_policy_uri
    validate_policies validate_privacy_policy is_claim_path to_claim_path to_claims build_claims
    build_meta build_credential apply_legal_identity add_identifiers identifiers build_credentials
    build_intended_use build_from build_intended_uses build require_api_key api_create_client
    api_transition api_set_registrar_identity to_form_state save_registration save_built
    api_set_registration dispatch serve run uses_of
redraft_fails = refl

pub offboarding_succeeds :
    (transition fake_store parse new_service first_id "offboarded" "api" "" "" (after onboarding)).0
    ≡ ok tt
unfolding new_fake fake_id next_id now empty_detail audit touch store_client write_audited is_legal
    transition_client get_client_full draft_client create_draft_client set_client_registrar_identity
    assign_id rebuild kept_order append_new replace_intended_uses save_wrp_document in_order
    list_intended_uses collapse slug_base slug_suffix slugify empty get put digit fixed width
    format_012d is_absolute_https_url ts5_ok any_non_revoked may_activate has_identity drive_edge
    check_activation_preconditions with_current transition non_empty is_country_code
    validate_country_code validate_supervisory_authority validate_purpose validate_https_policy_uri
    validate_policies validate_privacy_policy is_claim_path to_claim_path to_claims build_claims
    build_meta build_credential apply_legal_identity add_identifiers identifiers build_credentials
    build_intended_use build_from build_intended_uses build require_api_key api_create_client
    api_transition api_set_registrar_identity to_form_state save_registration save_built
    api_set_registration dispatch serve run uses_of purge_offboarded
offboarding_succeeds = refl

pub purge_succeeds : (purge_offboarded first_id "api" (after offboard)).0 ≡ ok tt
unfolding new_fake fake_id next_id now empty_detail audit touch store_client write_audited is_legal
    transition_client get_client_full draft_client create_draft_client set_client_registrar_identity
    assign_id rebuild kept_order append_new replace_intended_uses save_wrp_document in_order
    list_intended_uses collapse slug_base slug_suffix slugify empty get put digit fixed width
    format_012d is_absolute_https_url ts5_ok any_non_revoked may_activate has_identity drive_edge
    check_activation_preconditions with_current transition non_empty is_country_code
    validate_country_code validate_supervisory_authority validate_purpose validate_https_policy_uri
    validate_policies validate_privacy_policy is_claim_path to_claim_path to_claims build_claims
    build_meta build_credential apply_legal_identity add_identifiers identifiers build_credentials
    build_intended_use build_from build_intended_uses build require_api_key api_create_client
    api_transition api_set_registrar_identity to_form_state save_registration save_built
    api_set_registration dispatch serve run uses_of purge_offboarded
purge_succeeds = refl

pub registration_succeeds :
    (api_set_registration fake_store parse encoders ulid "2024-01-01" first_id
      (some registration)
      (after (create ∷ []))).0
    ≡ ok (json (record { id = first_id; state = "draft"; intended_uses = 1 }))
unfolding new_fake fake_id next_id now empty_detail audit touch store_client write_audited is_legal
    transition_client get_client_full draft_client create_draft_client set_client_registrar_identity
    assign_id rebuild kept_order append_new replace_intended_uses save_wrp_document in_order
    list_intended_uses collapse slug_base slug_suffix slugify empty get put digit fixed width
    format_012d is_absolute_https_url ts5_ok any_non_revoked may_activate has_identity drive_edge
    check_activation_preconditions with_current transition non_empty is_country_code
    validate_country_code validate_supervisory_authority validate_purpose validate_https_policy_uri
    validate_policies validate_privacy_policy is_claim_path to_claim_path to_claims build_claims
    build_meta build_credential apply_legal_identity add_identifiers identifiers build_credentials
    build_intended_use build_from build_intended_uses build require_api_key api_create_client
    api_transition api_set_registrar_identity to_form_state save_registration save_built
    api_set_registration dispatch serve run uses_of
registration_succeeds = refl

pub form_builds :
    build parse encoders ulid "2024-01-01" (to_form_state registration)
    ≡ passed (registration_document, registration_uses)
unfolding new_fake fake_id next_id now empty_detail audit touch store_client write_audited is_legal
    transition_client get_client_full draft_client create_draft_client set_client_registrar_identity
    assign_id rebuild kept_order append_new replace_intended_uses save_wrp_document in_order
    list_intended_uses collapse slug_base slug_suffix slugify empty get put digit fixed width
    format_012d is_absolute_https_url ts5_ok any_non_revoked may_activate has_identity drive_edge
    check_activation_preconditions with_current transition non_empty is_country_code
    validate_country_code validate_supervisory_authority validate_purpose validate_https_policy_uri
    validate_policies validate_privacy_policy is_claim_path to_claim_path to_claims build_claims
    build_meta build_credential apply_legal_identity add_identifiers identifiers build_credentials
    build_intended_use build_from build_intended_uses build require_api_key api_create_client
    api_transition api_set_registrar_identity to_form_state save_registration save_built
    api_set_registration dispatch serve run uses_of
form_builds = refl

pub webhook_succeeds :
    (api_set_webhook fake_store first_id
      (some (record { webhook_url = "https://rp.example/hook" }))
      (after onboarding)).0
    ≡ ok
        (json (record { id = first_id; state = "active"; webhook_url = "https://rp.example/hook" }))
unfolding new_fake fake_id next_id now empty_detail audit touch store_client write_audited is_legal
    transition_client get_client_full draft_client create_draft_client set_client_registrar_identity
    assign_id rebuild kept_order append_new replace_intended_uses save_wrp_document in_order
    list_intended_uses collapse slug_base slug_suffix slugify empty get put digit fixed width
    format_012d is_absolute_https_url ts5_ok any_non_revoked may_activate has_identity drive_edge
    check_activation_preconditions with_current transition non_empty is_country_code
    validate_country_code validate_supervisory_authority validate_purpose validate_https_policy_uri
    validate_policies validate_privacy_policy is_claim_path to_claim_path to_claims build_claims
    build_meta build_credential apply_legal_identity add_identifiers identifiers build_credentials
    build_intended_use build_from build_intended_uses build require_api_key api_create_client
    api_transition api_set_registrar_identity to_form_state save_registration save_built
    api_set_registration dispatch serve run uses_of api_set_webhook set_client_webhook
    webhook_url_pattern
webhook_succeeds = refl

pub origins_succeed :
    (api_set_allowed_origins fake_store parse first_id
      (some (record { allowed_origins = some ("https://rp.example" ∷ []) }))
      (after onboarding)).0
    ≡ ok (
        json
          (record { id = first_id; state = "active"; allowed_origins = "https://rp.example" ∷ [] }))
unfolding new_fake fake_id next_id now empty_detail audit touch store_client write_audited is_legal
    transition_client get_client_full draft_client create_draft_client set_client_registrar_identity
    assign_id rebuild kept_order append_new replace_intended_uses save_wrp_document in_order
    list_intended_uses collapse slug_base slug_suffix slugify empty get put digit fixed width
    format_012d is_absolute_https_url ts5_ok any_non_revoked may_activate has_identity drive_edge
    check_activation_preconditions with_current transition non_empty is_country_code
    validate_country_code validate_supervisory_authority validate_purpose validate_https_policy_uri
    validate_policies validate_privacy_policy is_claim_path to_claim_path to_claims build_claims
    build_meta build_credential apply_legal_identity add_identifiers identifiers build_credentials
    build_intended_use build_from build_intended_uses build require_api_key api_create_client
    api_transition api_set_registrar_identity to_form_state save_registration save_built
    api_set_registration dispatch serve run uses_of api_set_allowed_origins set_origins
    set_client_allowed_origins web_origin_pattern is_web_origin
origins_succeed = refl

-- A drive of the client to "offboarded", where the purge fails.
abbrev pub offboarding : Request
offboarding =
    drive first_id (some (record { target_state = "offboarded"; reason = ""; evidence_ref = "" }))

pub purge_spoils :
    (transition faulty_store parse new_service first_id "offboarded" "api" "" ""
      (after onboarding)).0
    ≡ err (failure "purge failed")
unfolding new_fake fake_id next_id now empty_detail audit touch store_client write_audited is_legal
    transition_client get_client_full draft_client create_draft_client set_client_registrar_identity
    assign_id rebuild kept_order append_new replace_intended_uses save_wrp_document in_order
    list_intended_uses collapse slug_base slug_suffix slugify empty get put digit fixed width
    format_012d is_absolute_https_url ts5_ok any_non_revoked may_activate has_identity drive_edge
    check_activation_preconditions with_current transition non_empty is_country_code
    validate_country_code validate_supervisory_authority validate_purpose validate_https_policy_uri
    validate_policies validate_privacy_policy is_claim_path to_claim_path to_claims build_claims
    build_meta build_credential apply_legal_identity add_identifiers identifiers build_credentials
    build_intended_use build_from build_intended_uses build require_api_key api_create_client
    api_transition api_set_registrar_identity to_form_state save_registration save_built
    api_set_registration dispatch serve run uses_of api_set_webhook set_client_webhook
    webhook_url_pattern purge_offboarded
purge_spoils = refl

pub left_offboarded :
    GoMap.get
      (transition faulty_store parse new_service first_id "offboarded" "api" "" ""
        (after onboarding)).1.clients
      first_id
    ≡ some (record active_client { status = "offboarded" })
unfolding new_fake fake_id next_id now empty_detail audit touch store_client write_audited is_legal
    transition_client get_client_full draft_client create_draft_client set_client_registrar_identity
    assign_id rebuild kept_order append_new replace_intended_uses save_wrp_document in_order
    list_intended_uses collapse slug_base slug_suffix slugify empty get put digit fixed width
    format_012d is_absolute_https_url ts5_ok any_non_revoked may_activate has_identity drive_edge
    check_activation_preconditions with_current transition non_empty is_country_code
    validate_country_code validate_supervisory_authority validate_purpose validate_https_policy_uri
    validate_policies validate_privacy_policy is_claim_path to_claim_path to_claims build_claims
    build_meta build_credential apply_legal_identity add_identifiers identifiers build_credentials
    build_intended_use build_from build_intended_uses build require_api_key api_create_client
    api_transition api_set_registrar_identity to_form_state save_registration save_built
    api_set_registration dispatch serve run uses_of api_set_webhook set_client_webhook
    webhook_url_pattern purge_offboarded
left_offboarded = refl

pub offboarding_fails :
    (serve faulty_store outside "k" "k" offboarding (after onboarding)).0
    ≡ err (failure "purge failed")
unfolding new_fake fake_id next_id now empty_detail audit touch store_client write_audited is_legal
    transition_client get_client_full draft_client create_draft_client set_client_registrar_identity
    assign_id rebuild kept_order append_new replace_intended_uses save_wrp_document in_order
    list_intended_uses collapse slug_base slug_suffix slugify empty get put digit fixed width
    format_012d is_absolute_https_url ts5_ok any_non_revoked may_activate has_identity drive_edge
    check_activation_preconditions with_current transition non_empty is_country_code
    validate_country_code validate_supervisory_authority validate_purpose validate_https_policy_uri
    validate_policies validate_privacy_policy is_claim_path to_claim_path to_claims build_claims
    build_meta build_credential apply_legal_identity add_identifiers identifiers build_credentials
    build_intended_use build_from build_intended_uses build require_api_key api_create_client
    api_transition api_set_registrar_identity to_form_state save_registration save_built
    api_set_registration dispatch serve run uses_of api_set_webhook set_client_webhook
    webhook_url_pattern purge_offboarded
offboarding_fails = refl
