-- ===== src/Wizard/Projection.antt =====
-- The document and the scope projections that `FormState.Build` returns, compared
-- (internal/wizard/wizard.go).
use eudi_api_registration.Base.{
  ℕ, ◌+◌, String, false, ◌≡◌, refl, ap, ◌∙◌, is_empty, if◌then◌else◌, inl, inr, List, [], ◌∷◌, map,
  Bool-cases, eq_iff, ◌==◌, All, length, any, arith,
}
use text.Mathlib.TextLemmas.{length-append}
use Prim.Native.String.{count}
use eudi_api_registration.Json.{Json}
use eudi_api_registration.Registry.{RegisteredCredentialJson, IntendedUse, lacks_id}
use eudi_api_registration.Ts5.{Claim, Credential, DocumentUse, WalletRelyingParty, Encoders}
use eudi_api_registration.Url.{UrlParser}
use eudi_api_registration.Wizard.{
  non_empty, Checked-cases, passed-inj, passed, CredentialForm, IntendedUseForm, FormState,
}
use eudi_api_registration.Wizard.Credentials.{
  path_values, to_claim_path, to_claims, build_claims, build_credential,
}
use eudi_api_registration.Wizard.Assembly.{
  pending_id, build_credentials, build_intended_use, build_from, build_intended_uses, build,
}

-- A requested credential and its projection.
pub record SameScope (cf : CredentialForm) (c : Credential) (r : RegisteredCredentialJson)
    : Type 0 where
  pub document_format : c.format ≡ cf.format
  pub format : r.format ≡ cf.format
  pub values : r.doctypes_or_vcts ≡ non_empty cf.doctypes_or_vcts
  pub document_claims :
      map (λ (claim : Claim). claim.path) c.claims ≡ (if cf.all_claims then [] else cf.claims)
  pub claims : r.claims ≡ (if cf.all_claims then [] else map path_values cf.claims)
  pub all_claims : r.all_claims ≡ cf.all_claims

-- The lists of an intended use, credential by credential.
abbrev pub SameScopes :
    List CredentialForm → List Credential → List RegisteredCredentialJson → Type 0
SameScopes [] [] [] = Unit
SameScopes (cf ∷ cfs) (c ∷ cs) (r ∷ rs) = SameScope cf c r × SameScopes cfs cs rs
SameScopes [] [] (r ∷ rs) = ⊥
SameScopes [] (c ∷ cs) rs = ⊥
SameScopes (cf ∷ cfs) [] rs = ⊥
SameScopes (cf ∷ cfs) (c ∷ cs) [] = ⊥

module _ (ulid : ℕ → String) where
  -- An intended use of the document and its projection, at a position of the form.
  pub record SameUse (i : ℕ) (iuf : IntendedUseForm) (d : DocumentUse) (p : IntendedUse)
      : Type 0 where
    pub document_id : d.intended_use_identifier ≡ pending_id ulid i
    pub id : p.intended_use_id ≡ pending_id ulid i
    pub purpose : d.purpose ≡ iuf.purpose
    pub unsaved : p.id ≡ ""
    pub live : p.revoked_at ≡ ""
    pub scopes : SameScopes iuf.credentials d.credentials p.credentials

  abbrev pub SameUses : ℕ → List IntendedUseForm → List DocumentUse → List IntendedUse → Type 0
  SameUses i [] [] [] = Unit
  SameUses i (f ∷ fs) (d ∷ ds) (p ∷ ps) = SameUse i f d p × SameUses (i + 1) fs ds ps
  SameUses i [] [] (p ∷ ps) = ⊥
  SameUses i [] (d ∷ ds) ps = ⊥
  SameUses i (f ∷ fs) [] ps = ⊥
  SameUses i (f ∷ fs) (d ∷ ds) [] = ⊥

  -- A path that passes is the path of the form.
  to_claim_path-same : (segs path : List String) → to_claim_path segs ≡ passed path → path ≡ segs
  unfolding to_claim_path
  to_claim_path-same segs path h = ground arith

  to_claims-same :
      (paths : List (List String)) (out : List Claim × List (List Json))
      → to_claims paths ≡ passed out
      → (map (λ (claim : Claim). claim.path) out.0 ≡ paths) × (out.1 ≡ map path_values paths)
  unfolding to_claims
  to_claims-same [] out h = rw (← passed-inj ([], []) out h) (refl, refl)
  to_claims-same (segs ∷ rest) out h = elim (Checked-cases (to_claim_path segs)) [
    | inl (path, e) ↦ elim (Checked-cases (to_claims rest)) [
      | inl (more, es) ↦
          let ih = to_claims-same rest more es in
          let p = to_claim_path-same segs path e in
          rw
            (← passed-inj (record { path = path } ∷ more.0, path_values path ∷ more.1) out
              (rw (e, es) at h))
            (rw (ih.0, p) refl, rw (ih.1, p) refl)
      | inr (x, es) ↦ cc (rw (e, es) at h)
    ]
    | inr (x, e) ↦ cc (rw e at h)
  ]

  build_claims-same :
      (cf : CredentialForm) (out : List Claim × List (List Json))
      → build_claims cf ≡ passed out
      → (map (λ (claim : Claim). claim.path) out.0 ≡ (if cf.all_claims then [] else cf.claims))
        × (out.1 ≡ (if cf.all_claims then [] else map path_values cf.claims))
  unfolding build_claims
  build_claims-same cf out h = elim (Bool-cases cf.all_claims) [
    | inl every ↦ rw every (rw (← passed-inj ([], []) out (rw every at h)) (refl, refl))
    | inr some_claims ↦ rw some_claims (elim (Bool-cases (is_empty cf.claims)) [
      | inl bare ↦ cc (rw (some_claims, bare) at h)
      | inr listed ↦ to_claims-same cf.claims out (rw (some_claims, listed) at h)
    ])
  ]

  credential_scope :
      (cf : CredentialForm) (out : Credential × RegisteredCredentialJson)
      → build_credential cf ≡ passed out
      → SameScope cf out.0 out.1
  unfolding build_credential
  credential_scope cf out h = elim (Checked-cases (build_claims cf)) [
    | inl (claims, e) ↦
        let same = build_claims-same cf claims e in
        let p : out.0.claims ≡ claims.0 = ground (arith, e) in
        let q : out.1.claims ≡ claims.1 = ground (arith, e) in
        record {
          document_format = ground (arith, e);
          format = ground (arith, e);
          values = ground (arith, e);
          document_claims = rw p same.0;
          claims = q ∙ same.1;
          all_claims = ground (arith, e);
        }
    | inr (x, e) ↦ ground (arith, e)
  ]

  credentials_scopes :
      (i j : ℕ) (cfs : List CredentialForm) (out : List Credential × List RegisteredCredentialJson)
      → build_credentials i j cfs ≡ passed out
      → SameScopes cfs out.0 out.1
  unfolding build_credentials
  credentials_scopes i j [] out h = rw (← passed-inj ([], []) out h) tt
  credentials_scopes i j (cf ∷ cfs) out h = elim (Checked-cases (build_credential cf)) [
    | inl (c, e) ↦ elim (Checked-cases (build_credentials i (j + 1) cfs)) [
      | inl (cs, es) ↦
          rw (← passed-inj (c.0 ∷ cs.0, c.1 ∷ cs.1) out (rw (e, es) at h))
            (credential_scope cf c e, credentials_scopes i (j + 1) cfs cs es)
      | inr (x, es) ↦ cc (rw (e, es) at h)
    ]
    | inr (x, e) ↦ cc (rw e at h)
  ]

  module _ (parse : UrlParser) (encoders : Encoders) (created_at : String) where
    use_scope :
        (i : ℕ) (iuf : IntendedUseForm) (out : DocumentUse × IntendedUse)
        → build_intended_use parse encoders ulid created_at i iuf ≡ passed out
        → SameUse i iuf out.0 out.1
    unfolding build_intended_use
    use_scope i iuf out h = elim (Checked-cases (build_credentials i 0 iuf.credentials)) [
      | inl (cs, e) ↦
          let scopes = credentials_scopes i 0 iuf.credentials cs e in
          record {
            document_id = ground (arith, e);
            id = ground (arith, e);
            purpose = ground (arith, e);
            unsaved = ground (arith, e);
            live = ground (arith, e);
            scopes =
                let p : out.0.credentials ≡ cs.0 = ground (arith, e) in
                let q : out.1.credentials ≡ cs.1 = ground (arith, e) in rw (p, q) scopes;
          }
      | inr (x, e) ↦ ground (arith, e)
    ]

    uses_scopes :
        (i : ℕ) (iufs : List IntendedUseForm) (out : List DocumentUse × List IntendedUse)
        → build_from parse encoders ulid created_at i iufs ≡ passed out
        → SameUses i iufs out.0 out.1
    unfolding build_from
    uses_scopes i [] out h = rw (← passed-inj ([], []) out h) tt
    uses_scopes i (iuf ∷ iufs) out h =
        elim (Checked-cases (build_intended_use parse encoders ulid created_at i iuf)) [
          | inl (c, e) ↦
              elim (Checked-cases (build_from parse encoders ulid created_at (i + 1) iufs)) [
                | inl (cs, es) ↦
                    rw (← passed-inj (c.0 ∷ cs.0, c.1 ∷ cs.1) out (rw (e, es) at h))
                      (use_scope i iuf c e, uses_scopes (i + 1) iufs cs es)
                | inr (x, es) ↦ cc (rw (e, es) at h)
              ]
          | inr (x, e) ↦ cc (rw e at h)
        ]

    -- When `Build` succeeds, the intended uses of the document and the projections correspond one to
    -- one to those of the form, in order: the two have the same identifier, "pending-" and the
    -- minted text; the document has the form's purposes; the projection has no
    -- internal identifier and is not revoked; and credential by credential both have the form's format,
    -- the projection has the form's doctypes or types without the empty ones, and both have the claim
    -- paths of the form, or none if the form asks for all claims.
    pub build-SameUses :
        (f : FormState) (doc : WalletRelyingParty) (ius : List IntendedUse)
        → build parse encoders ulid created_at f ≡ passed (doc, ius)
        → SameUses 0 f.intended_uses doc.intended_use ius
    unfolding build build_intended_uses
    build-SameUses f doc ius h =
        elim (Checked-cases (build_from parse encoders ulid created_at 0 f.intended_uses)) [
          | inl (out, e) ↦
              let p : out.0 ≡ doc.intended_use = ground (arith, e) in
              let q : out.1 ≡ ius = ground (arith, e) in
              rw (← p, ← q) (uses_scopes 0 f.intended_uses out e)
          | inr (x, e) ↦ ground (arith, e)
        ]

  pending_id-some : (i : ℕ) → (pending_id ulid i == "") ≡ false
  pending_id-some i = elim (Bool-cases (pending_id ulid i == "")) [
    | inl same ↦
        let e : pending_id ulid i ≡ "" = (eq_iff (pending_id ulid i) "").0 same in
        absurd (omega (arith, length-append "pending-" (ulid i), ap count e))
    | inr other ↦ other
  ]

  -- What a store and the activation rule need of the projections.
  pub SameUses-facts :
      (i : ℕ) (iufs : List IntendedUseForm) (ds : List DocumentUse) (ps : List IntendedUse)
      → SameUses i iufs ds ps
      → (any lacks_id ps ≡ false)
        × All (λ (p : IntendedUse). p.revoked_at ≡ "") ps
        × (length ps ≡ length iufs)
  SameUses-facts i [] [] [] h = (refl, tt, refl)
  SameUses-facts i (f ∷ fs) (d ∷ ds) (p ∷ ps) (h, hs) =
      let rest = SameUses-facts (i + 1) fs ds ps hs in
      (rw (h.id, pending_id-some i) rest.0, (h.live, rest.1), omega (arith, rest.2))
  SameUses-facts i [] [] (p ∷ ps) h = elim h [ ]
  SameUses-facts i [] (d ∷ ds) ps h = elim h [ ]
  SameUses-facts i (f ∷ fs) [] ps h = elim h [ ]
  SameUses-facts i (f ∷ fs) (d ∷ ds) [] h = elim h [ ]
