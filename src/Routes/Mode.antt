-- ===== src/Routes/Mode.antt =====
-- The browser-request mode of a client, written into its policy document and read back
-- (routes/api.go, internal/registrydb/fake.go).
use eudi_api_registration.Base.{
  String, Bool, true, false, not, ◌&&◌, ◌≡◌, refl, sym, ap, ◌∙◌, ◌⊎◌, inl, inr, Option, none, some,
  List, [], ◌∷◌, ◌==◌, All, arith, eq_iff, eq_refl, Bool-cases, Result, ok, err, Exec, pure,
  when_ok, ◌>>=◌,
}
use eudi_api_registration.Base.Sort.{before}
use eudi_api_registration.Base.Order.{before_irrefl}
use eudi_api_registration.Base.GoMap
use eudi_api_registration.Base.GoMap.{GoMap, store, put}
use eudi_api_registration.Base.GoMap.Ordered.{Ascends, All-before}
use eudi_api_registration.Json.{
  Json, null, bool, number, str, arr, obj, Members, end, member, RawMessage, text, fields,
}
use eudi_api_registration.Json.Generic.{Float64}
use eudi_api_registration.Registry.{ClientFull}
use eudi_api_registration.Fake.{Fake}
use eudi_api_registration.Fake.Clients.{get_client_full}
use eudi_api_registration.Fake.Mode.{Merged, mode_merges}
use eudi_api_registration.Fake.Settings.{require_signed_key, set_client_dcapi_mode, decode_policy}
use eudi_api_registration.Fake.Store.{fake_store}
use eudi_api_registration.Routes.{Response, json}
use eudi_api_registration.Routes.Settings.{
  ApiClientDcapiModeState, FieldMatcher, decode_flag, stored_dcapi_mode, set_mode,
}

module _ (matches : FieldMatcher) where
  -- A key that is not taken for the field is skipped, whatever it holds.
  decode_flag-skip :
      (key : String) (j : Json) (rest : Members) (flag : Option Bool)
      → matches key ≡ false
      → decode_flag matches flag (member key j rest) ≡ decode_flag matches flag rest
  unfolding decode_flag
  decode_flag-skip key null rest flag h = rw h refl
  decode_flag-skip key (bool b) rest flag h = rw h refl
  decode_flag-skip key (number n) rest flag h = rw h refl
  decode_flag-skip key (str s) rest flag h = rw h refl
  decode_flag-skip key (arr xs) rest flag h = rw h refl
  decode_flag-skip key (obj ms) rest flag h = rw h refl

  -- No key but the flag's own is taken for the field.
  abbrev pub Own : List (String × Json) → Type 0
  Own = All (λ (e : String × Json). (e.0 == require_signed_key) ≡ false → matches e.0 ≡ false)

  flag-absent :
      (entries : List (String × Json)) (flag : Option Bool)
      → Own entries
      → All (λ (e : String × Json). before require_signed_key e.0 ≡ true) entries
      → decode_flag matches flag (fields entries) ≡ some flag
  unfolding decode_flag
  flag-absent [] flag own later = refl
  flag-absent ((key, j) ∷ rest) flag (mine, own) (after, later) =
      decode_flag-skip key j (fields rest) flag
        (mine (ground (arith, eq_iff key require_signed_key, before_irrefl require_signed_key)))
      ∙ flag-absent rest flag own later

  decode_flag-own :
      (b : Bool) (rest : Members) (flag : Option Bool)
      → matches require_signed_key ≡ true
      → decode_flag matches flag (member require_signed_key (bool b) rest)
        ≡ decode_flag matches (some b) rest
  unfolding decode_flag
  decode_flag-own b rest flag exact = rw exact refl

  module _ (exact : matches require_signed_key ≡ true) (b : Bool) where
    flag-stored :
        (entries : List (String × Json)) (flag : Option Bool)
        → Ascends entries
        → Own entries
        → decode_flag matches flag (fields (store entries require_signed_key (bool b)))
          ≡ some (some b)
    unfolding store decode_flag
    flag-stored [] flag h own = decode_flag-own b end flag exact
    flag-stored ((key, j) ∷ rest) flag (lower, h) (mine, own) =
        elim (Bool-cases (key == require_signed_key)) [
          | inl same ↦ rw same (
              decode_flag-own b (fields rest) flag exact
              ∙ flag-absent rest (some b) own (rw (← (eq_iff key require_signed_key).0 same) lower))
          | inr other ↦ elim (Bool-cases (before require_signed_key key)) [
            | inl first ↦
                rw (other, first)
                  (decode_flag-own b (fields ((key, j) ∷ rest)) flag exact
                    ∙ flag-absent ((key, j) ∷ rest) (some b) (mine, own)
                        (first, All-before require_signed_key key rest first lower))
            | inr later ↦
                rw (other, later)
                  (decode_flag-skip key j (fields (store rest require_signed_key (bool b))) flag
                      (mine other)
                    ∙ flag-stored rest flag h own)
          ]
        ]

mode_of_flag :
    (matches : FieldMatcher) (mode : String) (members : Members)
    → (mode ≡ "signed") ⊎ (mode ≡ "unsigned")
    → decode_flag matches none members ≡ some (some (mode == "signed"))
    → stored_dcapi_mode matches (text (obj members)) ≡ mode
unfolding stored_dcapi_mode
mode_of_flag matches mode members (inl signed) h = rw (h, stored_dcapi_mode) (rw signed refl)
mode_of_flag matches mode members (inr unsigned) h = rw (h, stored_dcapi_mode) (rw unsigned refl)

done_then :
    {B : Type 0} (r : Result (Unit {0})) (k : Exec Fake B) (f : Fake) (b : B)
    → (when_ok r (λ _. k) f).0 ≡ ok b
    → (r ≡ ok tt) × ((k f).0 ≡ ok b)
done_then (ok _) k f b h = (refl, h)
done_then (err e) k f b h = absurd (cc h)

same_reply : {x y : Response ApiClientDcapiModeState} → Result.ok x ≡ ok y → x ≡ y
same_reply h = ground (arith, h)

abbrev shown : FieldMatcher → String → ClientFull → Response ApiClientDcapiModeState
shown matches id full =
    json (record { id = id; state = full.status; mode = stored_dcapi_mode matches full.policy })

-- The end of the handler: the row is read back.
read_back : FieldMatcher → String → Exec Fake (Response ApiClientDcapiModeState)
read_back matches id = get_client_full id >>= λ full. pure (shown matches id full)

-- The mode that is read from a document that the mode was merged into.
mode-Merged :
    (float64 : Float64) (matches : FieldMatcher) (mode : String) (policy merged : RawMessage)
    (old : GoMap Json)
    → matches require_signed_key ≡ true
    → (mode ≡ "signed") ⊎ (mode ≡ "unsigned")
    → decode_policy float64 policy ≡ ok old
    → Own matches old.entries
    → Merged float64 mode policy merged
    → stored_dcapi_mode matches merged ≡ mode
unfolding put
mode-Merged float64 matches mode policy merged old exact named reads own d =
    let same : d.before ≡ old = ground (arith, sym d.was ∙ reads) in
    rw d.written (
      mode_of_flag matches mode
        (fields (put d.before require_signed_key (bool (mode == "signed"))).entries) named
        (flag-stored matches exact (mode == "signed") d.before.entries none d.ordered.ascends
          (rw same own)))

-- In a run of the handler on the in-memory store that answers with success, the mode in the reply,
-- which is read from the policy document that the run has rewritten, is the mode of the request, if
-- the flag's key is taken for the field and no other key of the old document is.
pub mode_reads_back :
    (matches : FieldMatcher) (id mode : String) (f : Fake) (c : ClientFull) (old : GoMap Json)
    (reply : Response ApiClientDcapiModeState)
    → matches require_signed_key ≡ true
    → GoMap.get f.clients id ≡ some c
    → decode_policy f.float64 c.policy ≡ ok old
    → Own matches old.entries
    → (set_mode fake_store matches id mode f).0 ≡ ok reply
    → reply ≡ json (record { id = id; state = c.status; mode = mode })
unfolding set_mode read_back get_client_full
mode_reads_back matches id mode f c old reply exact row reads own good =
    elim (Bool-cases (not (mode == "signed") && not (mode == "unsigned"))) [
      | inl bad ↦ absurd (cc (rw bad at good))
      | inr known ↦ go known
    ]
  where
    go :
        (not (mode == "signed") && not (mode == "unsigned")) ≡ false
        → reply ≡ json (record { id = id; state = c.status; mode = mode })
    go known =
        let (done, read) =
          done_then (set_client_dcapi_mode id mode "api" f).0 (read_back matches id)
            (set_client_dcapi_mode id mode "api" f).1 reply (rw known at good) in
        let d = mode_merges id mode "api" f done in
        let same : d.client ≡ c = ground (arith, sym d.row ∙ row) in
        let after : GoMap.get (set_client_dcapi_mode id mode "api" f).1.clients id
            ≡ some (record c { policy = d.merged }) =
          d.row_after id ∙ rw (eq_refl id, same) refl in
        let said : shown matches id (record c { policy = d.merged }) ≡ reply =
          same_reply (rw (after, read_back, get_client_full) at read) in
        sym said
        ∙ ap (λ m. json (record { id = id; state = c.status; mode = m }))
            (mode-Merged f.float64 matches mode c.policy d.merged old exact d.named reads own
              (rw same at d.document))
