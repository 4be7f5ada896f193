-- ===== src/Fake/IntendedUses.antt =====
-- The registration document and the intended uses of a client (internal/registrydb/fake.go).
pub mod Stored
use mathlib.Core.Option.{get_or}
use eudi_api_registration.Base.{
  String, Bool, none, some, is_some, List, [], ◌∷◌, ◌++◌, ◌==◌, any, contains, length,
  if◌then◌else◌, ok, refuse, Exec,
}
use eudi_api_registration.Base.GoMap
use eudi_api_registration.Base.GoMap.{GoMap}
use eudi_api_registration.Digits.{format_decimal}
use eudi_api_registration.Json.{RawMessage, text, obj, number, member, end}
use eudi_api_registration.Registry.{IntendedUse, lacks_id}
use eudi_api_registration.Fake.{Fake, next_id, store_client, touch, audit}

-- The identifier of a row that is written: its own, that of the row it replaces, or a new one.
unfoldable pub assign_id : GoMap IntendedUse → IntendedUse → Fake → IntendedUse × Fake
unfolding next_id
assign_id existing iu f =
    if iu.id == ""
    then elim (GoMap.get existing iu.intended_use_id) [
      | some old ↦ (record iu { id = old.id }, f)
      | none ↦ let (id, f1) = next_id f in (record iu { id = id }, f1)
    ]
    else (iu, f)

-- The first loop: the rows of the call, by their business key.
unfoldable pub rebuild :
    GoMap IntendedUse → List IntendedUse → GoMap IntendedUse → Fake → GoMap IntendedUse × Fake
rebuild existing [] m f = (m, f)
rebuild existing (iu ∷ ius) m f =
    let (row, f1) = assign_id existing iu f in
    rebuild existing ius (GoMap.put m iu.intended_use_id row) f1

-- The second loop: the known identifiers that are kept, in their old order.
unfoldable pub kept_order : GoMap IntendedUse → List String → List String
kept_order m [] = []
kept_order m (id ∷ ids) =
    let rest = kept_order m ids in if is_some (GoMap.get m id) then id ∷ rest else rest

-- The last loop: the identifiers not yet seen, in the order of the call. `seen` holds exactly the
-- elements of `order`.
unfoldable pub append_new : List String → List IntendedUse → List String
append_new order [] = order
append_new order (iu ∷ ius) =
    append_new
      (if contains order iu.intended_use_id then order else order ++ iu.intended_use_id ∷ []) ius

unfoldable pub replace_intended_uses : String → List IntendedUse → Fake → Fake
replace_intended_uses client_id ius f =
    let existing = get_or (GoMap.get f.intended_uses client_id) GoMap.empty in
    let old_order = get_or (GoMap.get f.intended_use_order client_id) [] in
    let (m, f1) = rebuild existing ius GoMap.empty f in
    record f1 {
      intended_uses = GoMap.put f1.intended_uses client_id m;
      intended_use_order =
          GoMap.put f1.intended_use_order client_id (append_new (kept_order m old_order) ius);
    }

abbrev pub count_detail : List IntendedUse → RawMessage
count_detail ius =
    text (obj (member "intended_use_count" (number (format_decimal (length ius))) end))

unfoldable pub save_wrp_document :
    String → RawMessage → List IntendedUse → String → Exec Fake (Unit {0})
save_wrp_document client_id doc ius actor f = elim (GoMap.get f.clients client_id) [
  | none ↦ (refuse "registry:not_found", f)
  | some c ↦ if any lacks_id ius then (refuse "registry:invalid", f) else (
    ok tt,
    audit actor client_id "client.save_wrp_document" (count_detail ius) (
        replace_intended_uses client_id ius
          (touch client_id (store_client client_id (record c { wrp_document = doc }) f))),
  )
]

unfoldable pub set_intended_uses : String → List IntendedUse → String → Exec Fake (Unit {0})
set_intended_uses client_id ius actor f = elim (GoMap.get f.clients client_id) [
  | none ↦ (refuse "registry:not_found", f)
  | some _ ↦ if any lacks_id ius then (refuse "registry:invalid", f) else (
    ok tt,
    audit actor client_id "client.set_intended_uses" (count_detail ius)
        (replace_intended_uses client_id ius f),
  )
]

-- The rows of the map, in the recorded order.
unfoldable pub in_order : GoMap IntendedUse → List String → List IntendedUse
in_order m [] = []
in_order m (id ∷ ids) =
    let rest = in_order m ids in elim (GoMap.get m id) [ some iu ↦ iu ∷ rest | none ↦ rest ]

unfoldable pub list_intended_uses : String → Exec Fake (List IntendedUse)
list_intended_uses client_id f =
    let m = get_or (GoMap.get f.intended_uses client_id) GoMap.empty in
    (ok (in_order m (get_or (GoMap.get f.intended_use_order client_id) [])), f)
