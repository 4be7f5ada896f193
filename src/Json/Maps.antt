-- ===== src/Json/Maps.antt =====
-- A map written as a JSON object and read back.
use eudi_api_registration.Base.{String, ◌≡◌, refl, ap, ◌∙◌, List, [], ◌∷◌}
use eudi_api_registration.Base.GoMap
use eudi_api_registration.Base.GoMap.{GoMap}
use eudi_api_registration.Base.GoMap.Ordered.{IsOrdered, put-IsOrdered, put_all, put_all-entries}
use eudi_api_registration.Json.{Json, Members, end, member, fields, decode_members}

decode_members-fields :
    (m : GoMap Json) (entries : List (String × Json))
    → decode_members m (fields entries) ≡ put_all m entries
unfolding decode_members put_all
decode_members-fields m [] = refl
decode_members-fields m ((key, value) ∷ rest) = decode_members-fields (GoMap.put m key value) rest

pub decode_members-IsOrdered :
    (ms : Members) (m : GoMap Json) → IsOrdered m → IsOrdered (decode_members m ms)
unfolding decode_members
decode_members-IsOrdered end m h = h
decode_members-IsOrdered (member key value rest) m h =
    decode_members-IsOrdered rest (GoMap.put m key value) (put-IsOrdered m key value h)

-- What a map holds is what its object holds.
pub get-decode_members :
    (m : GoMap Json) (key : String)
    → IsOrdered m
    → GoMap.get (decode_members GoMap.empty (fields m.entries)) key ≡ GoMap.get m key
get-decode_members m key h =
    ap (λ (x : GoMap Json). GoMap.get x key) (decode_members-fields GoMap.empty m.entries)
    ∙ put_all-entries m key h
