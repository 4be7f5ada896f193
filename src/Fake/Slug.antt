-- ===== src/Fake/Slug.antt =====
-- `slugify` (internal/registrydb/fake.go).
pub mod Bounds
use Prim.Native.Char.{Char, code}
use Prim.Native.String.{[], ◌∷◌}
use eudi_api_registration.Base.{
  ◌-◌, String, ◌<>◌, Bool, true, false, ◌||◌, ◌≡◌, refl, ◌==◌, eqb, ltb, if◌then◌else◌,
}
use eudi_api_registration.Text.{
  in_range, is_unicode_space, size, take, drop, map_chars, trim, drop_while_end, lower,
}

-- [a-z0-9]
abbrev pub is_slug_alnum : Char → Bool
is_slug_alnum c = in_range b'a' b'z' c || in_range b'0' b'9' c

abbrev pub is_dash : Char → Bool
is_dash c = eqb (code c) b'-'

-- slugNonAlnum.ReplaceAllString(s, "-"); the flag is set inside a run of other characters.
unfoldable pub collapse : Bool → String → String
collapse in_run [] = ""
collapse in_run (c ∷ s) =
    let kept = collapse false s in
    let skipped = collapse true s in
    if is_slug_alnum c then c ∷ kept else if in_run then skipped else "-" ∷ skipped

-- The part of a slug before its suffix. After `collapse` every character is one byte.
unfoldable pub slug_base : String → String
slug_base name =
    let collapsed = collapse false (map_chars lower (trim is_unicode_space name)) in
    let trimmed = trim is_dash collapsed in
    let named = if trimmed == "" then "client" else trimmed in
    let capped = if ltb 40 (size named) then take 40 named else named in
    drop_while_end is_dash capped

unfoldable pub slug_suffix : String → String
slug_suffix id = if ltb 7 (size id) then drop (size id - 7) id else id

unfoldable pub slugify : String → String → String
unfolding slug_base slug_suffix
slugify name id = slug_base name <> "-" <> map_chars lower (slug_suffix id)

slugify_acme : slugify " Acme  RP (Test)! " "01JZXREGDBFAKE000000000042" ≡ "acme-rp-test-0000042"
unfolding slugify collapse
slugify_acme = refl

slugify_no_letter : slugify "!!!" "AB" ≡ "client-ab"
unfolding slugify collapse
slugify_no_letter = refl
