-- ===== src/Bridge/Calls.antt =====
-- What the outcome of a procedure call says of the envelope (internal/registrydb/db.go).
use eudi_api_registration.Base.{
  String, false, ◌≡◌, ◌≢◌, ◌↔◌, ◌⊎◌, refl, sym, ◌∙◌, ◌==◌, ◌<>◌, arith, eq_iff, Bool-cases, inl,
  inr, Result, ok, err, failure, from_result_code,
}
use eudi_api_registration.Json.{RawMessage, empty}
use eudi_api_registration.Wire.{Codec, unmarshal}
use eudi_api_registration.Bridge.{
  Answer, row, raised, failed, Envelope, no_envelope, decode_envelope, parse_envelope, by_result,
  outcome,
}

module _ (w : Codec) where
  -- The bytes are an envelope.
  abbrev pub Holds : RawMessage → Envelope → Type 0
  Holds b e = unmarshal no_envelope (decode_envelope w) b ≡ ok e

  -- An envelope that `call` takes for a success, with the data that it hands on.
  pub data Succeeds : Answer → RawMessage → Type 0 where
    returned :
        (b : RawMessage) (e : Envelope)
        → Holds b e
        → e.result ≡ "success"
        → Succeeds (row b) e.payload
    returned_blank :
        (b : RawMessage) (e : Envelope)
        → Holds b e
        → e.result ≡ "error"
        → e.code ≡ ""
        → Succeeds (row b) empty
    raised_success :
        (b : RawMessage) (e : Envelope)
        → Holds b e
        → e.result ≡ "success"
        → Succeeds (raised b) empty
    raised_blank :
        (b : RawMessage) (e : Envelope)
        → Holds b e
        → e.result ≡ "error"
        → e.code ≡ ""
        → Succeeds (raised b) empty

  parse-Holds : (b : RawMessage) (e : Envelope) → Holds b e → parse_envelope w b ≡ by_result e
  unfolding parse_envelope
  parse-Holds b e h = rw (h, parse_envelope) refl

  Succeeds-ok :
      (proc : String) (a : Answer) (p : RawMessage) → Succeeds a p → outcome w proc a ≡ ok p
  unfolding outcome
  Succeeds-ok proc _ _ (returned b e h s) = rw (parse-Holds b e h, outcome, s) refl
  Succeeds-ok proc _ _ (returned_blank b e h s c) = rw (parse-Holds b e h, outcome, s, c) refl
  Succeeds-ok proc _ _ (raised_success b e h s) = rw (parse-Holds b e h, outcome, s) refl
  Succeeds-ok proc _ _ (raised_blank b e h s c) = rw (parse-Holds b e h, outcome, s, c) refl

  -- The readings of some bytes: no envelope, or an envelope with one of three kinds of result.
  data Reading (b : RawMessage) : Type 0 where
    unreadable : (e : String) → parse_envelope w b ≡ err (failure e) → Reading b
    success :
        (e : Envelope)
        → Holds b e
        → e.result ≡ "success"
        → parse_envelope w b ≡ ok (e.payload, "")
        → Reading b
    error :
        (e : Envelope)
        → Holds b e
        → e.result ≡ "error"
        → parse_envelope w b ≡ ok (empty, e.code)
        → Reading b

  readings : (b : RawMessage) → Reading b
  unfolding parse_envelope
  readings b = go (unmarshal no_envelope (decode_envelope w) b) refl
    where
      go : (r : Result Envelope) → unmarshal no_envelope (decode_envelope w) b ≡ r → Reading b
      go (err x) h = unreadable "registrydb: malformed envelope" (rw (h, parse_envelope) refl)
      go (ok e) h = elim (Bool-cases (e.result == "success")) [
        | inl s ↦ success e h ((eq_iff e.result "success").0 s) (parse-Holds b e h ∙ rw s refl)
        | inr n ↦ elim (Bool-cases (e.result == "error")) [
          | inl s ↦ error e h ((eq_iff e.result "error").0 s) (parse-Holds b e h ∙ rw (n, s) refl)
          | inr m ↦
              unreadable "registrydb: unknown envelope result" (parse-Holds b e h ∙ rw (n, m) refl)
        ]
      ]

  same_value : {x y : RawMessage} → Result.ok x ≡ ok y → x ≡ y
  same_value h = ground (arith, h)

  ok-Succeeds :
      (proc : String) (a : Answer) (p : RawMessage) → outcome w proc a ≡ ok p → Succeeds a p
  unfolding outcome
  ok-Succeeds proc failed p h = absurd (cc h)
  ok-Succeeds proc (row b) p h = elim (readings b) [
    | unreadable e r ↦ absurd (cc (rw (r, outcome) at h))
    | success e s k r ↦ rw (← same_value (rw (r, outcome) at h)) (returned b e s k)
    | error e s k r ↦ elim (Bool-cases (e.code == "")) [
      | inl blank ↦
          rw (← same_value (rw (r, outcome, blank) at h))
            (returned_blank b e s k ((eq_iff e.code "").0 blank))
      | inr coded ↦ absurd (cc (rw (r, outcome, coded) at h))
    ]
  ]
  ok-Succeeds proc (raised b) p h = elim (readings b) [
    | unreadable e r ↦ absurd (cc (rw (r, outcome) at h))
    | success e s k r ↦ rw (← same_value (rw (r, outcome) at h)) (raised_success b e s k)
    | error e s k r ↦ elim (Bool-cases (e.code == "")) [
      | inl blank ↦
          rw (← same_value (rw (r, outcome, blank) at h))
            (raised_blank b e s k ((eq_iff e.code "").0 blank))
      | inr coded ↦ absurd (cc (rw (r, outcome, coded) at h))
    ]
  ]

  -- A call succeeds exactly when the procedure returns an envelope with the result "success", whose
  -- data it hands on; or when it raises one, or returns or raises an envelope with the result "error"
  -- and an empty code, and then it hands on no data.
  pub call_ok_iff :
      (proc : String) (a : Answer) (p : RawMessage) → (outcome w proc a ≡ ok p) ↔ Succeeds a p
  call_ok_iff proc a p = (ok-Succeeds proc a p, Succeeds-ok proc a p)

  -- An envelope that refuses with a code, whether it was returned or raised.
  pub record Rejects (a : Answer) (code : String) : Type 0 where
    pub bytes : RawMessage
    pub envelope : Envelope
    pub carried : (a ≡ row bytes) ⊎ (a ≡ raised bytes)
    pub holds : Holds bytes envelope
    pub refuses : envelope.result ≡ "error"
    pub coded : envelope.code ≡ code
    pub not_blank : code ≢ ""

  reject_code :
      (proc : String) (a : Answer) (code : String)
      → Rejects a code
      → outcome w proc a ≡ err (from_result_code ("err:" <> code))
  unfolding outcome
  reject_code proc a code x =
      let stated : (x.envelope.code == "") ≡ false =
        ground (arith, eq_iff x.envelope.code "", x.coded, x.not_blank) in
      elim x.carried [
        | inl r ↦
            rw (r, parse-Holds x.bytes x.envelope x.holds, outcome, x.refuses, stated, x.coded) refl
        | inr r ↦
            rw (r, parse-Holds x.bytes x.envelope x.holds, outcome, x.refuses, stated, x.coded) refl
      ]

  refusal : String → Result RawMessage
  refusal x = err (from_result_code x)

  same_code : {x y : String} → refusal x ≡ refusal y → x ≡ y
  unfolding refusal
  same_code h = ground (arith, h)

  coded-Rejects :
      (a : Answer) (b : RawMessage) (e : Envelope)
      → (a ≡ row b) ⊎ (a ≡ raised b)
      → Holds b e
      → e.result ≡ "error"
      → (e.code == "") ≡ false
      → Rejects a e.code
  coded-Rejects a b e carried holds refuses coded = record {
    bytes = b;
    envelope = e;
    carried = carried;
    holds = holds;
    refuses = refuses;
    coded = refl;
    not_blank = λ c. absurd (ground (arith, eq_iff e.code "", coded, c));
  }

  code-Rejects :
      (proc : String) (a : Answer) (x : String)
      → outcome w proc a ≡ err (from_result_code x)
      → (code : String) × Rejects a code × (x ≡ "err:" <> code)
  unfolding outcome refusal
  code-Rejects proc failed x h = absurd (cc h)
  code-Rejects proc (row b) x h = elim (readings b) [
    | unreadable e r ↦ absurd (cc (rw (r, outcome) at h))
    | success e s k r ↦ absurd (cc (rw (r, outcome) at h))
    | error e s k r ↦ elim (Bool-cases (e.code == "")) [
      | inl blank ↦ absurd (cc (rw (r, outcome, blank) at h))
      | inr coded ↦ (
        e.code,
        coded-Rejects (row b) b e (inl refl) s k coded,
        sym (same_code (rw (r, outcome, coded) at h)),
      )
    ]
  ]
  code-Rejects proc (raised b) x h = elim (readings b) [
    | unreadable e r ↦ absurd (cc (rw (r, outcome) at h))
    | success e s k r ↦ absurd (cc (rw (r, outcome) at h))
    | error e s k r ↦ elim (Bool-cases (e.code == "")) [
      | inl blank ↦ absurd (cc (rw (r, outcome, blank) at h))
      | inr coded ↦ (
        e.code,
        coded-Rejects (raised b) b e (inr refl) s k coded,
        sym (same_code (rw (r, outcome, coded) at h)),
      )
    ]
  ]

  -- A call fails with a problem code exactly when the procedure returns or raises an envelope with
  -- the result "error" and a code that is not empty, and the problem is that code after "err:",
  -- whichever of the two ways it came.
  pub call_code_iff :
      (proc : String) (a : Answer) (x : String)
      → (outcome w proc a ≡ err (from_result_code x))
        ↔ ((code : String) × Rejects a code × (x ≡ "err:" <> code))
  call_code_iff proc a x =
      (code-Rejects proc a x, λ (code, r, same). rw same (reject_code proc a code r))
