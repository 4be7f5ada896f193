-- ===== src/Fake/Purge.antt =====
-- What `PurgeOffboarded` erases, as `GetEvidenceContent` shows it (internal/registrydb/fake.go).
use eudi_api_registration.Base.{
  ℕ, String, not, ◌≡◌, refl, ◌∙◌, some, none, List, [], ◌==◌, arith, eq_iff, if◌then◌else◌, inl,
  inr, Bool-cases, Result, ok, err, refuse, ap, Option,
}
use mathlib.Core.Option
use eudi_api_registration.Base.GoMap
use eudi_api_registration.Base.GoMap.{GoMap, get-update_all}
use eudi_api_registration.Fake.{Fake, FakeEvidence, audit}
use eudi_api_registration.Fake.Evidence.{purge_offboarded, purge_row, get_evidence_content}

-- A read that now finds no bytes.
abbrev pub erased : Result (List ℕ × String) → Result (List ℕ × String)
erased (ok (bytes, mime)) = ok ([], mime)
erased (err e) = err e

module _ (id actor : String) (f : Fake) where
  purge-evidence :
      (purge_offboarded id actor f).0 ≡ ok tt
      → (purge_offboarded id actor f).1.evidence ≡ GoMap.update_all (purge_row id) f.evidence
  unfolding purge_offboarded audit
  purge-evidence good = ground arith

  -- What a read gives, from the row that it finds.
  abbrev content_of : String → Option FakeEvidence → Result (List ℕ × String)
  content_of client_id none = refuse "registry:not_found"
  content_of client_id (some row) =
      if not (row.client_id == client_id)
      then refuse "registry:not_found"
      else ok (row.content, row.evidence.mime)

  read_content :
      (client_id evidence_id : String) (g : Fake)
      → (get_evidence_content client_id evidence_id g).0
        ≡ content_of client_id (GoMap.get g.evidence evidence_id)
  unfolding get_evidence_content
  read_content client_id evidence_id g = ground arith

  purge_row-content :
      (client_id : String) (o : Option FakeEvidence)
      → content_of client_id (Option.map (purge_row id) o)
        ≡ (if client_id == id then erased (content_of client_id o) else content_of client_id o)
  purge_row-content client_id none = ground arith
  purge_row-content client_id (some row) = elim (Bool-cases (row.client_id == client_id)) [
    | inl own ↦
        let p : row.client_id ≡ client_id = (eq_iff row.client_id client_id).0 own in
        elim (Bool-cases (client_id == id)) [
          | inl same ↦ rw (p, same) (ground (arith, eq_iff client_id client_id))
          | inr other ↦ rw (p, other) refl
        ]
    | inr foreign ↦ ground (arith, foreign)
  ]

  -- After a purge that succeeds, a piece of evidence of the purged client still has its type but no
  -- bytes, and what any other client reads is what it read before.
  pub purge_erases :
      (client_id evidence_id : String)
      → (purge_offboarded id actor f).0 ≡ ok tt
      → let after =
          (get_evidence_content client_id evidence_id (purge_offboarded id actor f).1).0 in
        let before = (get_evidence_content client_id evidence_id f).0 in
        after ≡ (if client_id == id then erased before else before)
  purge_erases client_id evidence_id good =
      read_content client_id evidence_id (purge_offboarded id actor f).1
      ∙ ap (λ (m : GoMap FakeEvidence). content_of client_id (GoMap.get m evidence_id))
          (purge-evidence good)
      ∙ ap (content_of client_id) (get-update_all (purge_row id) f.evidence evidence_id)
      ∙ purge_row-content client_id (GoMap.get f.evidence evidence_id)
      ∙ rw (read_content client_id evidence_id f) refl
