-- ===== src/Bridge/Answered.antt =====
-- Calls of procedures that answer with envelopes (internal/registrydb/db.go).
use eudi_api_registration.Base.{
  String, true, ◌≡◌, ◌≢◌, ◌⊎◌, refl, ap, ◌∙◌, some, ◌<>◌, inl, inr, Result, ok, err, Exec, when_ok,
  ◌>>=◌,
}
use eudi_api_registration.Json.{Json, obj, Members, RawMessage, empty, text}
use eudi_api_registration.Registry.Store.{Store}
use eudi_api_registration.Wire.{Codec, IsExact, Decoder, decoded, unmarshal}
use eudi_api_registration.Wire.Exact
use eudi_api_registration.Wire.Exact.{
  exact, exact_fields, tagged_members, Reads, next, Reads-fields,
}
use eudi_api_registration.Bridge.{
  envelope_fields, Answer, row, raised, Procedures, Envelope, no_envelope, outcome, execute, query,
}
use eudi_api_registration.Bridge.Calls.{Rejects, Holds, returned, call_ok_iff, call_code_iff}
use eudi_api_registration.Bridge.Serves
use eudi_api_registration.Bridge.Serves.{Answers, Answering, Serves, success_members, error_members}

abbrev and_then : {A B : Type 0} → Result A → (A → Result B) → Result B
and_then (ok a) f = f a
and_then (err e) f = err e

module _ {St : Type 0} {A B : Type 0} where
  when_ok_assoc :
      {C : Type 0} (r : Result C) (g : C → Result A) (f : A → Result B) (s : St)
      → let first = when_ok r (λ c t. (g c, t)) s in
        when_ok first.0 (λ a t. (f a, t)) first.1 ≡ when_ok r (λ c t. (and_then (g c) f, t)) s
  when_ok_assoc (err e) g f s = refl
  when_ok_assoc (ok c) g f s = go (g c)
    where
      go : (x : Result A) → when_ok x (λ a t. (f a, t)) s ≡ (and_then x f, s)
      go (ok a) = refl
      go (err e) = refl

  pub when_ok-cong :
      (r : Result A) (f g : A → Exec St B) (s : St)
      → ((a : A) (t : St) → f a t ≡ g a t)
      → when_ok r f s ≡ when_ok r g s
  when_ok-cong (ok a) f g s h = h a s
  when_ok-cong (err e) f g s h = refl

module _ (w : Codec) (L : IsExact w) where
  holds :
      (ms : Members) (e : Envelope)
      → tagged_members ms ≡ true
      → Reads (exact w) envelope_fields ms no_envelope e
      → Holds w (text (obj ms)) e
  unfolding unmarshal
  holds ms e t r = ap decoded (
      exact_fields w L envelope_fields refl ms no_envelope t
      ∙ Reads-fields (exact w) envelope_fields ms no_envelope e r)

  success-Holds :
      (j : Json)
      → Holds w
          (text (obj (success_members j)))
          (record { result = "success"; code = ""; message = ""; payload = text j })
  success-Holds j =
      holds (success_members j) _ refl
        (next _ _ _ _ _ _ refl (next _ _ _ _ _ _ refl (Exact.done _)))

  error-Holds :
      (code message : String)
      → Holds w
          (text (obj (error_members code message)))
          (record { result = "error"; code = code; message = message; payload = empty })
  error-Holds code message =
      holds (error_members code message) _ refl
        (next _ _ _ _ _ _ refl (next _ _ _ _ _ _ refl (next _ _ _ _ _ _ refl (Exact.done _))))

  rejected :
      (a : Answer) (code message : String)
      → let b = text (obj (error_members code message)) in
        (a ≡ row b) ⊎ (a ≡ raised b) → code ≢ "" → Rejects w a code
  rejected a code message carried h = record {
    bytes = text (obj (error_members code message));
    envelope = record { result = "error"; code = code; message = message; payload = empty };
    carried = carried;
    holds = error-Holds code message;
    refuses = refl;
    coded = refl;
    not_blank = h;
  }

  module _ {St : Type 0} {A : Type 0} (shows : Json → A → Type 0) (k : RawMessage → Result A)
      (reads : (j : Json) (a : A) → shows j a → k (text j) ≡ ok a) where
    -- The answer of a procedure, after the code has read its envelope and its data.
    pub answered :
        (proc : String) (x : Answer × St) (r : Result A × St)
        → Answers shows x r
        → when_ok (outcome w proc x.0) (λ payload t. (k payload, t)) x.1 ≡ r
    answered proc _ _ (Serves.done j a t s) =
        rw
          ((call_ok_iff w proc (row (text (obj (success_members j)))) (text j)).1
            (returned (text (obj (success_members j))) _ (success-Holds j) refl))
          (rw (reads j a s) refl)
    answered proc _ _ (Serves.returned code message t h) =
        rw
          ((call_code_iff w proc (row (text (obj (error_members code message)))) ("err:" <> code)).1
            (
              code,
              rejected (row (text (obj (error_members code message)))) code message (inl refl) h,
              refl,
            ))
          refl
    answered proc _ _ (Serves.thrown code message t h) =
        rw
          ((call_code_iff w proc (raised (text (obj (error_members code message))))
              ("err:" <> code)).1
            (
              code,
              rejected (raised (text (obj (error_members code message)))) code message (inr refl) h,
              refl,
            ))
          refl

  module _ (S : Store) (run : Procedures S.State) where
    pub executed :
        (proc : String) (pi : Json) (op : Exec S.State (Unit {0})) (s : S.State)
        → Answers (λ j a. Unit) (run proc pi s) (op s)
        → execute w run proc (some pi) s ≡ op s
    unfolding execute
    executed proc pi op s h =
        answered (λ j a. Unit) (λ payload. ok tt) (λ j a k. refl) proc (run proc pi s) (op s) h

    pub queried :
        {A : Type 0} (zero_value : A) (decode : Decoder A) (proc : String) (pi : Json)
        (op : Exec S.State A) (s : S.State)
        → Answers (λ j a. decode zero_value j ≡ some a) (run proc pi s) (op s)
        → query w run zero_value decode proc (some pi) s ≡ op s
    unfolding query
    queried zero_value decode proc pi op s h =
        answered (λ j a. decode zero_value j ≡ some a) (unmarshal zero_value decode)
          (λ j a k. unfold unmarshal in ap decoded k) proc (run proc pi s) (op s) h

    -- A query whose data the code goes on to convert.
    pub converted :
        {A B : Type 0} (zero_value : B) (decode : Decoder B) (f : B → Result A)
        (shows : Json → A → Type 0)
        → ((j : Json) (a : A) → shows j a → (b : B) × (decode zero_value j ≡ some b) × (f b ≡ ok a))
        → (proc : String) (pi : Json) (op : Exec S.State A) (s : S.State)
        → Answers shows (run proc pi s) (op s)
        → (query w run zero_value decode proc (some pi) >>= λ b t. (f b, t)) s ≡ op s
    unfolding query
    converted zero_value decode f shows reads proc pi op s h =
        let x = run proc pi s in
        when_ok_assoc (outcome w proc x.0) (unmarshal zero_value decode) f x.1
        ∙ answered shows (λ payload. and_then (unmarshal zero_value decode payload) f)
            (λ j a k.
              let (b, d, e) = reads j a k in
              unfold unmarshal in ap (λ r. and_then (decoded r) f) d ∙ e)
            proc x (op s) h
