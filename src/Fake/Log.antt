-- ===== src/Fake/Log.antt =====
-- The audit log of the in-memory store (internal/registrydb/fake.go).
use mathlib.Core.List.{reverse, reverse-append}
use eudi_api_registration.Base.{
  ℕ, zero, suc, ◌+◌, ◌≤◌, String, true, ◌||◌, ◌≡◌, refl, ap, ◌∙◌, List, [], ◌∷◌, ◌++◌, map, ◌==◌,
  length, take, arith, eq_refl, Bool-cases, inl, inr, ok,
}
use eudi_api_registration.Json.{RawMessage}
use eudi_api_registration.Registry.{AuditEntry, DeletionRequest}
use eudi_api_registration.Fake.{Fake, AuditLogEntry, fake_id, audit, empty_detail}
use eudi_api_registration.Fake.Audit.{
  append_audit, entries_of, to_entry, newest, list_audit_entries, list_deletion_requests,
}

length-take {ℓ} : {A : Type ℓ} (n : ℕ) (xs : List A) → length (take n xs) ≤ n
length-take zero xs = omega arith
length-take (suc n) [] = omega arith
length-take (suc n) (x ∷ xs) = omega (arith, length-take n xs)

length-map {ℓ κ} :
    {A : Type ℓ} {B : Type κ} (f : A → B) (xs : List A) → length (map f xs) ≡ length xs
length-map f [] = refl
length-map f (x ∷ xs) = omega (arith, length-map f xs)

-- A listing of audit entries or of deletion requests has at most as many rows as its limit, and
-- changes nothing.
pub listing_bounds :
    (id : String) (limit : ℕ) (f : Fake)
    → ((rows : List AuditEntry) × (list_audit_entries id limit f ≡ (ok rows, f))
        × (length rows ≤ limit))
      × ((rows : List DeletionRequest) × (list_deletion_requests id limit f ≡ (ok rows, f))
          × (length rows ≤ limit))
unfolding list_audit_entries list_deletion_requests newest
listing_bounds id limit f = (
  (
    _,
    refl,
    omega (
      arith,
      length-map to_entry (take limit (reverse (entries_of id f.audit_log))),
      length-take limit (reverse (entries_of id f.audit_log)),
    ),
  ),
  (_, refl, length-take limit _),
)

entries_of-append :
    (id : String) (log : List AuditLogEntry) (e : AuditLogEntry)
    → (e.client_id == id) ≡ true
    → entries_of id (log ++ e ∷ []) ≡ entries_of id log ++ e ∷ []
unfolding entries_of
entries_of-append id [] e h = rw h refl
entries_of-append id (x ∷ log) e h =
    let more = entries_of-append id log e h in
    elim (Bool-cases (x.client_id == id)) [
      | inl mine ↦ rw mine (ap (λ es. x ∷ es) more)
      | inr other ↦ rw other more
    ]

-- The entry that `audit` appends.
abbrev pub logged : String → String → String → RawMessage → Fake → AuditLogEntry
logged actor id action detail f = record {
  id = fake_id (f.seq + 1);
  actor = actor;
  client_id = id;
  action = action;
  at = f.clock f.reads;
  detail = empty_detail detail;
}

listing-audit :
    (actor id action : String) (detail : RawMessage) (limit : ℕ) (f : Fake)
    → map to_entry (newest (suc limit) (entries_of id (audit actor id action detail f).audit_log))
      ≡ to_entry (logged actor id action detail f)
        ∷ map to_entry (newest limit (entries_of id f.audit_log))
unfolding audit newest
listing-audit actor id action detail limit f =
    let e = logged actor id action detail f in
    ap (λ es. map to_entry (take (suc limit) (reverse es)))
      (entries_of-append id f.audit_log e (eq_refl id))
    ∙ ap (λ es. map to_entry (take (suc limit) es))
        (reverse-append (entries_of id f.audit_log) (e ∷ []))

-- What an entry says.
pub record IsEntry (actor id action : String) (detail : RawMessage) (e : AuditEntry) : Type 0 where
  pub by : e.actor ≡ actor
  pub of : e.client_id ≡ id
  pub what : e.action ≡ action
  pub with_detail : e.detail ≡ empty_detail detail

-- An entry that has been appended under an actor and an action is the first of its client's listing,
-- and what follows it is the listing of one entry less before the call.
pub append_audit_reads_back :
    (actor id action : String) (detail : RawMessage) (limit : ℕ) (f : Fake)
    → (append_audit actor id action detail f).0 ≡ ok tt
    → (e : AuditEntry) × (rest : List AuditEntry) × IsEntry actor id action detail e
      × ((list_audit_entries id limit f).0 ≡ ok rest)
      × ((list_audit_entries id (suc limit) (append_audit actor id action detail f).1).0
          ≡ ok (e ∷ rest))
unfolding append_audit list_audit_entries
append_audit_reads_back actor id action detail limit f good =
    elim (Bool-cases (actor == "" || action == "")) [
      | inl bad ↦ absurd (cc (rw bad at good))
      | inr named ↦ rw named (
        to_entry (logged actor id action detail f),
        map to_entry (newest limit (entries_of id f.audit_log)),
        record { by = refl; of = refl; what = refl; with_detail = refl },
        refl,
        ap ok (listing-audit actor id action detail limit f),
      )
    ]
