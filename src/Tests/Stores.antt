-- ===== src/Tests/Stores.antt =====
-- The theorems on the documents, listings and logs of the in-memory store, at concrete inputs.
use eudi_api_registration.Base.{
  ℕ, String, ◌≤◌, ◌≡◌, refl, some, List, [], ◌∷◌, ◌<>◌, map, ◌==◌, length, ok,
}
use mathlib.Core.List.{Perm}
use eudi_api_registration.Base.GoMap
use eudi_api_registration.Base.GoMap.{GoMap, empty, get, put, store}
use eudi_api_registration.Json
use eudi_api_registration.Json.{
  Json, str, obj, member, end, text, RawMessage, decode_members, marshal_map,
}
use eudi_api_registration.Json.Generic.{as_any, any_members}
use eudi_api_registration.Registry
use eudi_api_registration.Registry.{ClientFull, ClientSummary, AuditEntry, DeletionRequest}
use eudi_api_registration.Text.{map_chars, lower, size}
use eudi_api_registration.Fake.{
  Fake, FakeEvidence, new_fake, write_audited, store_client, touch, now, audit, next_id,
  empty_detail,
}
use eudi_api_registration.Fake.Audit.{append_audit, list_audit_entries, list_deletion_requests}
use eudi_api_registration.Fake.Clients.{get_client_full, is_legal, transition_client}
use eudi_api_registration.Fake.Evidence.{list_evidence}
use eudi_api_registration.Fake.Settings.{decode_policy, merge_mode, set_client_dcapi_mode}
use eudi_api_registration.Fake.Mode.{ModeSet, mode_merges}
use eudi_api_registration.Fake.Slug.{slug_base, slug_suffix, slugify}
use eudi_api_registration.Fake.Slug.Bounds.{IsBase, slug_bounds}
use eudi_api_registration.Fake.Listings.{
  with_status, listed, group_by_status_lem, list_evidence_lem, InOrder, metadata, of_client,
}
use eudi_api_registration.Fake.Log.{IsEntry, listing_bounds, append_audit_reads_back}
use eudi_api_registration.Fake.Seams.{test_set_client_status, status_seam}
use eudi_api_registration.Fake.Store.{fake_store}
use eudi_api_registration.Bridge.Store.{group_by_status}
use eudi_api_registration.Routes.{Response, json}
use eudi_api_registration.Routes.Mode.{Own, mode_reads_back}
use eudi_api_registration.Routes.Settings.{
  ApiClientDcapiModeState, decode_flag, set_mode, stored_dcapi_mode,
}
use eudi_api_registration.Tests.{first_id, onboarding, after}
use eudi_api_registration.Tests.Runs.{active_client, onboarded}

-- A client whose policy has a choice of another kind.
abbrev themed : ClientFull
themed = record active_client { policy = text (obj (member "theme" (str "dark") end)) }

abbrev themed_store : Fake
themed_store = record (new_fake (λ n. n) some) { clients = GoMap.put GoMap.empty "c" themed }

abbrev theme : GoMap Json
theme = GoMap.put GoMap.empty "theme" (str "dark")

mode_set : (set_client_dcapi_mode "c" "signed" "api" themed_store).0 ≡ ok tt
unfolding set_client_dcapi_mode new_fake empty get put store merge_mode decode_policy decode_members
    any_members as_any
mode_set = refl

themed_row : GoMap.get themed_store.clients "c" ≡ some themed
unfolding new_fake empty get put store
themed_row = refl

theme_reads : decode_policy themed_store.float64 themed.policy ≡ ok theme
unfolding decode_policy decode_members empty put new_fake any_members as_any
theme_reads = refl

themed-Own : Own (λ key. key == "require_signed_dcapi") theme.entries
unfolding empty put store
themed-Own = (λ h. refl, tt)

mode_merges_example : ModeSet themed_store "c" "signed" "api"
mode_merges_example = mode_merges "c" "signed" "api" themed_store mode_set

abbrev answered : Response ApiClientDcapiModeState
answered = json (record { id = "c"; state = "active"; mode = "signed" })

mode_answers :
    (set_mode fake_store (λ key. key == "require_signed_dcapi") "c" "signed" themed_store).0
    ≡ ok answered
unfolding set_mode set_client_dcapi_mode new_fake empty get put store merge_mode decode_policy
    decode_members any_members as_any marshal_map write_audited store_client touch now audit next_id
    empty_detail get_client_full stored_dcapi_mode decode_flag
mode_answers = refl

mode_reads_back_example :
    answered ≡ json (record { id = "c"; state = themed.status; mode = "signed" })
mode_reads_back_example =
    mode_reads_back (λ key. key == "require_signed_dcapi") "c" "signed" themed_store themed theme
      answered refl themed_row theme_reads themed-Own mode_answers

abbrev row_a : ClientSummary
row_a = record { id = "a"; name = "A"; status = "draft"; slug = "a"; updated_at = 1 }

abbrev row_b : ClientSummary
row_b = record { id = "b"; name = "B"; status = "active"; slug = "b"; updated_at = 2 }

group_by_status_lem_example :
    GoMap.get (group_by_status (row_a ∷ row_b ∷ row_a ∷ []) GoMap.empty) "draft"
    ≡ listed (with_status "draft" (row_a ∷ row_b ∷ row_a ∷ []))
group_by_status_lem_example = group_by_status_lem (row_a ∷ row_b ∷ row_a ∷ []) "draft"

slug_bounds_example :
    IsBase (slug_base "Acme RP")
    × (slugify "Acme RP" first_id
        ≡ slug_base "Acme RP" <> "-" <> map_chars lower (slug_suffix first_id))
    × (size (slugify "Acme RP" first_id) ≤ 48)
slug_bounds_example = slug_bounds "Acme RP" first_id

listing_bounds_example :
    ((rows : List AuditEntry) × (list_audit_entries first_id 3 (after onboarding)
        ≡ (ok rows, after onboarding))
      × (length rows ≤ 3))
    × ((rows : List DeletionRequest) × (list_deletion_requests first_id 3 (after onboarding)
          ≡ (ok rows, after onboarding))
        × (length rows ≤ 3))
listing_bounds_example = listing_bounds first_id 3 (after onboarding)

abbrev filed_at : String → String → ℕ → FakeEvidence
filed_at id client_id at = record {
  evidence = record {
    id = id;
    filename = "extract.pdf";
    mime = "application/pdf";
    size_bytes = 1;
    sha256 = "00";
    created_at = at;
  };
  client_id = client_id;
  content = 1 ∷ [];
}

-- Two rows of one client, the later stored first, and a row of another client between them.
abbrev shelved : Fake
shelved = record (after onboarding) {
  evidence =
      GoMap.put
        (GoMap.put (GoMap.put GoMap.empty "e1" (filed_at "e1" "c" 9)) "e2" (filed_at "e2" "d" 5))
        "e3" (filed_at "e3" "c" 3);
}

list_evidence_lem_example :
    (rows : List Registry.Evidence) × (list_evidence "c" shelved ≡ (ok rows, shelved))
    × InOrder rows
    × Perm rows (map metadata (of_client "c" (GoMap.values shelved.evidence)))
list_evidence_lem_example = list_evidence_lem shelved "c"

noted : (append_audit "operator" first_id "note" Json.empty (after onboarding)).0 ≡ ok tt
unfolding append_audit
noted = refl

append_audit_reads_back_example :
    (e : AuditEntry) × (rest : List AuditEntry) × IsEntry "operator" first_id "note" Json.empty e
    × ((list_audit_entries first_id 2 (after onboarding)).0 ≡ ok rest)
    × ((list_audit_entries first_id 3
          (append_audit "operator" first_id "note" Json.empty (after onboarding)).1).0
        ≡ ok (e ∷ rest))
append_audit_reads_back_example =
    append_audit_reads_back "operator" first_id "note" Json.empty 2 (after onboarding) noted

suspends : (transition_client first_id "suspended" "api" "" "" (after onboarding)).0 ≡ ok tt
unfolding transition_client is_legal
suspends = rw (onboarded, transition_client) refl

status_seam_example :
    (transition_client first_id "suspended" "api" "" "" (after onboarding)).1.clients
    ≡ (test_set_client_status first_id "suspended" (after onboarding)).clients
status_seam_example = status_seam first_id "suspended" "api" "" "" (after onboarding) suspends
