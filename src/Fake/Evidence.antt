-- ===== src/Fake/Evidence.antt =====
-- Evidence rows, and the purge of an offboarded client (internal/registrydb/fake.go).
use Prim.Native.Nat.{compare, Ordering}
use eudi_api_registration.Base.{
  ℕ, String, Bool, true, false, not, none, some, List, [], ◌∷◌, ◌==◌, if◌then◌else◌, ok, refuse,
  Exec,
}
use eudi_api_registration.Base.GoMap
use eudi_api_registration.Base.GoMap.{GoMap}
use eudi_api_registration.Base.Sort.{before, sort}
use eudi_api_registration.Json.{text, obj, end, string_detail}
use eudi_api_registration.Registry
use eudi_api_registration.Fake.{Fake, FakeEvidence, next_id, now, audit}

unfoldable pub add_evidence :
    String → Registry.Evidence → List ℕ → String → Exec Fake (String × Registry.Evidence)
unfolding next_id now
add_evidence client_id e content actor f = elim (GoMap.get f.clients client_id) [
  | none ↦ (refuse "registry:not_found", f)
  | some _ ↦
      let (id, f1) = next_id f in
      let (at, f2) = now f1 in
      let stored : Registry.Evidence = record e { id = id; created_at = at } in
      let f3 : Fake = record f2 {
        evidence =
            GoMap.put f2.evidence id
              (record { evidence = stored; client_id = client_id; content = content });
      } in
      (
        ok (id, stored),
        audit actor client_id "evidence.add"
            (string_detail (("evidence_id", id) ∷ ("filename", e.filename) ∷ [])) f3,
      )
]

abbrev pub by_time_then_id : Registry.Evidence → Registry.Evidence → Bool
by_time_then_id a b = elim (compare a.created_at b.created_at) [
  | Ordering.lt ↦ true
  | Ordering.eq ↦ before a.id b.id
  | Ordering.gt ↦ false
]

-- The metadata of the rows of a client.
unfoldable pub owned_by : String → List FakeEvidence → List Registry.Evidence
owned_by client_id [] = []
owned_by client_id (row ∷ rows) =
    let rest = owned_by client_id rows in
    if row.client_id == client_id then row.evidence ∷ rest else rest

unfoldable pub list_evidence : String → Exec Fake (List Registry.Evidence)
list_evidence client_id f =
    (ok (sort by_time_then_id (owned_by client_id (GoMap.values f.evidence))), f)

unfoldable pub get_evidence_content : String → String → Exec Fake (List ℕ × String)
get_evidence_content client_id evidence_id f = elim (GoMap.get f.evidence evidence_id) [
  | none ↦ (refuse "registry:not_found", f)
  | some row ↦
      if not (row.client_id == client_id)
      then (refuse "registry:not_found", f)
      else (ok (row.content, row.evidence.mime), f)
]

-- if row.ClientID == clientID { row.Content = nil }
abbrev pub purge_row : String → FakeEvidence → FakeEvidence
purge_row client_id row = if row.client_id == client_id then record row { content = [] } else row

unfoldable pub purge_offboarded : String → String → Exec Fake (Unit {0})
purge_offboarded client_id actor f = elim (GoMap.get f.clients client_id) [
  | none ↦ (refuse "registry:not_found", f)
  | some c ↦ if not (c.status == "offboarded") then (refuse "registry:invalid", f) else (
    ok tt,
    audit actor client_id "client.purge" (text (obj end))
        (record f { evidence = GoMap.update_all (purge_row client_id) f.evidence }),
  )
]
