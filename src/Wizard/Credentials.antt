-- ===== src/Wizard/Credentials.antt =====
-- `CredentialForm.build` and its helpers (internal/wizard/wizard.go).
use eudi_api_registration.Base.{
  String, Bool, not, ◌||◌, List, [], ◌∷◌, map, ◌==◌, any, is_empty, if◌then◌else◌,
}
use eudi_api_registration.Json.{Json, str, arr, obj, end, member, RawMessage, text, strings}
use eudi_api_registration.Registry.{RegisteredCredentialJson}
use eudi_api_registration.Ts5.{Claim, Credential}
use eudi_api_registration.Wizard.{
  CredentialForm, Checked, passed, failed, ◌>>=◌, ◌>>◌, require, wrap, credential,
  credential_format, claim_path, format_mdoc, format_sd_jwt, non_empty,
}

-- A path of at least one key, none of them empty.
unfoldable pub is_claim_path : List String → Bool
is_claim_path segs = not (is_empty segs || any (λ s. s == "") segs)

-- Every error of `toClaimPath` is wrapped as a malformed claim path.
unfoldable pub to_claim_path : List String → Checked (List String)
unfolding is_claim_path
to_claim_path segs = do require (is_claim_path segs) (wrap claim_path); passed segs

-- A path as a `[]any` of strings.
abbrev pub path_values : List String → List Json
path_values path = map str path

-- The loop over the claims, which fills the document's claims and the projection's.
unfoldable pub to_claims : List (List String) → Checked (List Claim × List (List Json))
unfolding to_claim_path
to_claims [] = passed ([], [])
to_claims (segs ∷ rest) =
    let more = to_claims rest in
    do
      path ← to_claim_path segs
      out ← more
      passed (record { path = path } ∷ out.0, path_values path ∷ out.1)

unfoldable pub build_claims : CredentialForm → Checked (List Claim × List (List Json))
unfolding to_claims
build_claims cf =
    if cf.all_claims
    then passed ([], [])
    else if is_empty cf.claims
    then failed (wrap claim_path)
    else to_claims cf.claims

unfoldable pub build_meta : String → List String → Checked RawMessage
build_meta format [] =
    if format == format_sd_jwt
    then passed (text (obj (member "vct_values" (arr (strings [])) end)))
    else failed (wrap (if format == format_mdoc then credential else credential_format))
build_meta format (value ∷ []) =
    if format == format_mdoc
    then passed (text (obj (member "doctype_value" (str value) end)))
    else if format == format_sd_jwt
    then passed (text (obj (member "vct_values" (arr (strings (value ∷ []))) end)))
    else failed (wrap credential_format)
build_meta format (value ∷ (other ∷ more)) =
    if format == format_mdoc
    then failed (wrap credential)
    else if format == format_sd_jwt
    then passed (text (obj (member "vct_values" (arr (strings (value ∷ other ∷ more))) end)))
    else failed (wrap credential_format)

unfoldable pub build_credential : CredentialForm → Checked (Credential × RegisteredCredentialJson)
unfolding build_claims build_meta
build_credential cf =
    if not (cf.format == format_mdoc || cf.format == format_sd_jwt)
    then failed (wrap credential_format)
    else let values = non_empty cf.doctypes_or_vcts in
      if is_empty values then failed (wrap credential) else do
        meta ← build_meta cf.format values
        claims ← build_claims cf
        passed (
          record { format = cf.format; meta = meta; claims = claims.0 },
          record {
            format = cf.format;
            doctypes_or_vcts = values;
            all_claims = cf.all_claims;
            claims = claims.1;
          },
        )
