-- ===== src/Bridge/RoundTrip.antt =====
-- What the bridge writes for an intended use and what it reads for it
-- (internal/registrydb/repo.go).
use eudi_api_registration.Base.{
  String, Bool, true, false, ◌≡◌, refl, sym, ap, ◌∙◌, Option, none, some, List, [], ◌∷◌, ◌==◌, All,
  eq_iff, Bool-cases, inl, inr,
}
use eudi_api_registration.Json.{Json, null, obj, Items, nil, cons, RawMessage, empty, text, strings}
use eudi_api_registration.Registry.{RegisteredCredentialJson, IntendedUse}
use eudi_api_registration.Wire.{
  Codec, IsExact, decode_string, decode_any, decode_slice, decode_items,
}
use eudi_api_registration.Wire.Exact.{
  exact, exact_fields, tagged_members, Reads, done, next, Reads-fields,
}
use eudi_api_registration.Bridge.Rows.{
  no_credential, no_use, use_fields, use_members, revoked_member, decode_credential, decode_use,
  marshal_path, marshal_paths, credential_fields, credential_members, marshal_credential,
  marshal_credentials, marshal_use, marshal_uses,
}

pub decode-strings : (xs : List String) → decode_items "" decode_string (strings xs) ≡ some xs
unfolding decode_items
decode-strings [] = refl
decode-strings (x ∷ xs) = rw (decode-strings xs) refl

decode-path : (xs : List Json) → decode_items null decode_any (marshal_path xs) ≡ some xs
unfolding decode_items
decode-path [] = refl
decode-path (x ∷ xs) = rw (decode-path xs) refl

decode-paths :
    (xs : List (List Json))
    → decode_items [] (decode_slice null decode_any) (marshal_paths xs) ≡ some xs
unfolding decode_items
decode-paths [] = refl
decode-paths (x ∷ xs) = rw (decode-path x, decode-paths xs) refl

abbrev credential : String → List String → Bool → List (List Json) → RegisteredCredentialJson
credential format types all_claims claims = record {
  format = format;
  doctypes_or_vcts = types;
  all_claims = all_claims;
  claims = claims;
}

abbrev set_types : String → Option (List String) → Option RegisteredCredentialJson
set_types format none = none
set_types format (some types) = some (credential format types false [])

abbrev set_claims :
    String → List String → Bool → Option (List (List Json)) → Option RegisteredCredentialJson
set_claims format types all_claims none = none
set_claims format types all_claims (some claims) = some (credential format types all_claims claims)

abbrev intended_use :
    String → String → RawMessage → List RegisteredCredentialJson → String → IntendedUse
intended_use id use_id purpose credentials revoked_at = record {
  id = id;
  intended_use_id = use_id;
  purpose = purpose;
  credentials = credentials;
  revoked_at = revoked_at;
}

abbrev set_credentials :
    String → String → RawMessage → Option (List RegisteredCredentialJson) → Option IntendedUse
set_credentials id use_id purpose none = none
set_credentials id use_id purpose (some cs) = some (intended_use id use_id purpose cs "")

-- The purpose of a use is JSON.
abbrev pub HasPurpose : IntendedUse → Type 0
HasPurpose u = (j : Json) × (u.purpose ≡ text j)

module _ (w : Codec) (L : IsExact w) where
  credential-Reads :
      (format : String) (types : List String) (all_claims : Bool) (claims : List (List Json))
      → Reads
          (exact w)
          credential_fields
          (credential_members (credential format types all_claims claims))
          no_credential
          (credential format types all_claims claims)
  credential-Reads format types all_claims [] =
      next _ _ _ _ (credential format [] false []) _ refl (
        next _ _ _ _ (credential format types false []) _
          (ap (set_types format) (decode-strings types))
          (next _ _ _ _ (credential format types all_claims []) _ refl (done _)))
  credential-Reads format types all_claims (path ∷ rest) =
      next _ _ _ _ (credential format [] false []) _ refl (
        next _ _ _ _ (credential format types false []) _
          (ap (set_types format) (decode-strings types))
          (next _ _ _ _ (credential format types all_claims []) _ refl (
            next _ _ _ _ (credential format types all_claims (path ∷ rest)) _
              (ap (set_claims format types all_claims) (decode-paths (path ∷ rest))) (done _))))

  tagged_credential : (c : RegisteredCredentialJson) → tagged_members (credential_members c) ≡ true
  tagged_credential c = go c.claims refl
    where
      go :
          (claims : List (List Json))
          → c.claims ≡ claims
          → tagged_members (credential_members c) ≡ true
      go [] e = rw e refl
      go (path ∷ rest) e = rw e refl

  decode-credential :
      (c : RegisteredCredentialJson)
      → decode_credential w no_credential (marshal_credential c) ≡ some c
  decode-credential c =
      exact_fields w L credential_fields refl (credential_members c) no_credential
        (tagged_credential c)
      ∙ Reads-fields (exact w) credential_fields (credential_members c) no_credential c
          (credential-Reads c.format c.doctypes_or_vcts c.all_claims c.claims)

  decode-credentials :
      (cs : List RegisteredCredentialJson)
      → decode_items no_credential (decode_credential w) (marshal_credentials cs) ≡ some cs
  unfolding decode_items
  decode-credentials [] = refl
  decode-credentials (c ∷ cs) = rw (decode-credential c, decode-credentials cs) refl

  use-Reads :
      (id use_id : String) (j : Json) (cs : List RegisteredCredentialJson) (revoked_at : String)
      → Reads
          (exact w)
          (use_fields w)
          (use_members (intended_use id use_id (text j) cs revoked_at) j)
          no_use
          (intended_use id use_id (text j) cs revoked_at)
  use-Reads id use_id j cs revoked_at = next _ _ _ _ (intended_use id "" empty [] "") _ refl (
      next _ _ _ _ (intended_use id use_id empty [] "") _ refl (
        next _ _ _ _ (intended_use id use_id (text j) [] "") _ refl (
          next _ _ _ _ (intended_use id use_id (text j) cs "") _
            (ap (set_credentials id use_id (text j)) (decode-credentials cs)) ending)))
    where
      ending :
          Reads
            (exact w)
            (use_fields w)
            (revoked_member revoked_at)
            (intended_use id use_id (text j) cs "")
            (intended_use id use_id (text j) cs revoked_at)
      ending = elim (Bool-cases (revoked_at == "")) [
        | inl blank ↦ rw ((eq_iff revoked_at "").0 blank) (done _)
        | inr given ↦ rw given (next _ _ _ _ _ _ refl (done _))
      ]

  tagged_use : (u : IntendedUse) (j : Json) → tagged_members (use_members u j) ≡ true
  tagged_use u j = elim (Bool-cases (u.revoked_at == "")) [
    | inl blank ↦ rw blank refl
    | inr given ↦ rw given refl
  ]

  decode-use :
      (u : IntendedUse) (j : Json)
      → u.purpose ≡ text j
      → decode_use w no_use (obj (use_members u j)) ≡ some u
  decode-use u j e =
      exact_fields w L (use_fields w) refl (use_members u j) no_use (tagged_use u j)
      ∙ Reads-fields (exact w) (use_fields w) (use_members u j) no_use
          (record u { purpose = text j })
          (use-Reads u.id u.intended_use_id j u.credentials u.revoked_at)
      ∙ ap (λ p. some (record u { purpose = p })) (sym e)

  -- Intended uses whose purposes are JSON can be written, and what is written reads back as the very
  -- same uses, if no tag is taken for a case variant of another.
  pub uses_round_trip :
      (us : List IntendedUse)
      → All HasPurpose us
      → (items : Items) × (marshal_uses us ≡ some items)
        × (decode_items no_use (decode_use w) items ≡ some us)
  unfolding marshal_uses marshal_use decode_items
  uses_round_trip [] h = (nil, refl, refl)
  uses_round_trip (u ∷ us) ((j, e), h) =
      let (items, m, d) = uses_round_trip us h in
      (cons (obj (use_members u j)) items, rw (e, m) refl, rw (decode-use u j e, d) refl)
