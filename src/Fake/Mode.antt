-- ===== src/Fake/Mode.antt =====
-- `SetClientDCAPIMode` and the policy document that it rewrites (internal/registrydb/fake.go), with
-- the handler's reading of the mode (routes/api.go).
use eudi_api_registration.Base.{
  String, false, not, ◌||◌, ◌≡◌, refl, sym, ◌∙◌, ◌⊎◌, some, ◌==◌, arith, eq_iff, if◌then◌else◌,
  Bool-cases, Option-cases, inl, inr, Result, ok, err,
}
use eudi_api_registration.Base.GoMap
use eudi_api_registration.Base.GoMap.{GoMap, get-put}
use eudi_api_registration.Base.GoMap.Ordered.{IsOrdered, empty-IsOrdered, put-IsOrdered}
use eudi_api_registration.Json.{
  Json, null, bool, number, str, arr, obj, Members, RawMessage, empty, text, malformed, fields,
  decode_members, marshal_map,
}
use eudi_api_registration.Json.Generic.{Float64, any_members}
use eudi_api_registration.Json.Maps.{decode_members-IsOrdered, get-decode_members}
use eudi_api_registration.Registry.{ClientFull}
use eudi_api_registration.Fake.{Fake, write_audited}
use eudi_api_registration.Fake.Settings.{
  decode_policy, merge_mode, require_signed_key, set_client_dcapi_mode,
}

decode_policy-IsOrdered :
    (float64 : Float64) (policy : RawMessage) (m : GoMap Json)
    → decode_policy float64 policy ≡ ok m
    → IsOrdered m
unfolding decode_policy
decode_policy-IsOrdered float64 empty m h = rw (← value h) empty-IsOrdered
  where
    value : ok GoMap.empty ≡ ok m → GoMap.empty ≡ m
    value e = ground arith
decode_policy-IsOrdered float64 (text (obj ms)) m h = elim (Option-cases (any_members float64 ms)) [
  | inl bad ↦ absurd (cc (rw (bad, decode_policy) at h))
  | inr (values, e) ↦
      rw (← value values (rw (e, decode_policy) at h))
        (decode_members-IsOrdered values GoMap.empty empty-IsOrdered)
]
  where
    value :
        (values : Members)
        → ok (decode_members GoMap.empty values) ≡ ok m
        → decode_members GoMap.empty values ≡ m
    value values e = ground arith
decode_policy-IsOrdered float64 (text null) m h = absurd (cc h)
decode_policy-IsOrdered float64 (text (bool b)) m h = absurd (cc h)
decode_policy-IsOrdered float64 (text (number n)) m h = absurd (cc h)
decode_policy-IsOrdered float64 (text (str s)) m h = absurd (cc h)
decode_policy-IsOrdered float64 (text (arr xs)) m h = absurd (cc h)
decode_policy-IsOrdered float64 malformed m h = absurd (cc h)

-- The document that is written: the flag is set, and every other key has the value that was decoded.
pub record Merged (float64 : Float64) (mode : String) (policy merged : RawMessage) : Type 0 where
  pub before : GoMap Json
  pub after : GoMap Json
  pub ordered : IsOrdered before
  pub written :
      merged
      ≡ text (obj (fields (GoMap.put before require_signed_key (bool (mode == "signed"))).entries))
  pub was : decode_policy float64 policy ≡ ok before
  pub members : Members
  pub is_object : merged ≡ text (obj members)
  pub reads : decode_members GoMap.empty members ≡ after
  pub keys :
      (key : String)
      → GoMap.get after key ≡ (
          if require_signed_key == key
          then some (bool (mode == "signed"))
          else GoMap.get before key)

merge_mode-Merged :
    (float64 : Float64) (mode : String) (policy merged : RawMessage)
    → merge_mode float64 mode policy ≡ ok merged
    → Merged float64 mode policy merged
unfolding merge_mode marshal_map
merge_mode-Merged float64 mode policy merged h = go (decode_policy float64 policy) refl
  where
    go :
        (r : Result (GoMap Json))
        → decode_policy float64 policy ≡ r
        → Merged float64 mode policy merged
    go (err e) d = absurd (cc (rw (d, merge_mode) at h))
    go (ok m) d =
        let written = GoMap.put m require_signed_key (bool (mode == "signed")) in
        let e : text (marshal_map written) ≡ merged = ground (arith, rw (d, merge_mode) at h) in
        record {
          before = m;
          after = decode_members GoMap.empty (fields written.entries);
          ordered = (decode_policy-IsOrdered float64 policy m d);
          written = sym e;
          was = d;
          members = fields written.entries;
          is_object = sym e;
          reads = refl;
          keys = λ key.
              get-decode_members written key (
                put-IsOrdered m require_signed_key (bool (mode == "signed"))
                  (decode_policy-IsOrdered float64 policy m d))
              ∙ get-put m require_signed_key key (bool (mode == "signed"));
        }

mode_named :
    (mode : String)
    → not (mode == "signed" || mode == "unsigned") ≡ false
    → (mode ≡ "signed") ⊎ (mode ≡ "unsigned")
mode_named mode h = elim (Bool-cases (mode == "signed")) [
  | inl s ↦ inl ((eq_iff mode "signed").0 s)
  | inr n ↦ inr ((eq_iff mode "unsigned").0 (ground arith))
]

-- What a successful change of the mode did.
pub record ModeSet (f : Fake) (id mode actor : String) : Type 0 where
  pub client : ClientFull
  pub merged : RawMessage
  pub row : GoMap.get f.clients id ≡ some client
  pub row_after :
      (j : String)
      → GoMap.get (set_client_dcapi_mode id mode actor f).1.clients j
        ≡ (if id == j then some (record client { policy = merged }) else GoMap.get f.clients j)
  pub named : (mode ≡ "signed") ⊎ (mode ≡ "unsigned")
  pub document : Merged f.float64 mode client.policy merged

-- When the mode of a client is set, its policy document was readable and is rewritten so that the
-- flag has the value of the mode and every other key has the value that the decoding gave it, in which
-- numbers are float64; no other field of the row changes, and no other row.
pub mode_merges :
    (id mode actor : String) (f : Fake)
    → (set_client_dcapi_mode id mode actor f).0 ≡ ok tt
    → ModeSet f id mode actor
unfolding set_client_dcapi_mode write_audited
mode_merges id mode actor f good =
    elim (Bool-cases (not (mode == "signed" || mode == "unsigned"))) [
      | inl bad ↦ absurd (cc (rw bad at good))
      | inr known ↦ elim (Option-cases (GoMap.get f.clients id)) [
        | inl missing ↦ absurd (cc (rw known at rw (missing, set_client_dcapi_mode) at good))
        | inr (c, row) ↦ go c row known (merge_mode f.float64 mode c.policy) refl
      ]
    ]
  where
    go :
        (c : ClientFull)
        → GoMap.get f.clients id ≡ some c
        → not (mode == "signed" || mode == "unsigned") ≡ false
        → (r : Result RawMessage) → merge_mode f.float64 mode c.policy ≡ r
        → ModeSet f id mode actor
    go c row known (err e) m = absurd (
        cc (
          let failed : (set_client_dcapi_mode id mode actor f).0 ≡ err e =
            rw known (rw (row, set_client_dcapi_mode) (rw m refl)) in
          sym failed ∙ good))
    go c row known (ok p) m = record {
      client = c;
      merged = p;
      row = row;
      row_after = λ j. rw known (
          rw (row, set_client_dcapi_mode)
            (rw m (get-put f.clients id j (record c { policy = p }))));
      named = mode_named mode known;
      document = merge_mode-Merged f.float64 mode c.policy p m;
    }
