-- ===== src/Routes/AuditTrail.antt =====
-- The audit log over runs of the API on the in-memory store, and the problems with which it answers
-- (routes, internal/registrydb/fake.go, app.go).
use mathlib.Core.List.{append-nil, append_assoc}
use eudi_api_registration.Base.{true}
use eudi_api_registration.Base.{
  String, false, not, ◌||◌, ◌≡◌, refl, sym, ap, ◌∙◌, some, List, [], ◌∷◌, ◌++◌, ◌==◌, any, all,
  length, ltb, Bool-cases, Option-cases, inl, inr, Result, ok, err, Error, new_problem,
  from_result_code,
}
use eudi_api_registration.Base.GoMap
use eudi_api_registration.Base.GoMap.{GoMap}
use mathlib.Core.Option.{get_or}
use eudi_api_registration.Json.{
  RawMessage, empty, text, malformed, null, bool, number, str, arr, obj, end, string_detail,
}
use eudi_api_registration.Json.Generic.{Float64, any_members}
use eudi_api_registration.Registry.{ClientFull, IntendedUse, lacks_id}
use eudi_api_registration.Fake.{
  Fake, AuditLogEntry, next_id, audit, store_client, touch, write_audited,
}
use eudi_api_registration.Fake.Clients.{
  is_legal, transition_client, get_client_full, list_clients_by_state, draft_client,
  create_draft_client, create_api_key,
}
use eudi_api_registration.Fake.Settings.{
  set_client_registrar_identity, set_client_webhook, set_client_allowed_origins,
  set_client_dcapi_mode, decode_policy, merge_mode, webhook_url_pattern, web_origin_pattern,
}
use eudi_api_registration.Fake.IntendedUses.{
  count_detail, replace_intended_uses, save_wrp_document, list_intended_uses,
}
use eudi_api_registration.Fake.Evidence.{purge_row, purge_offboarded}
use eudi_api_registration.Fake.Log.{logged}
use eudi_api_registration.Fake.IntendedUses.Stored.{rebuild-frame}
use eudi_api_registration.Fake.Store.{fake_store}
use eudi_api_registration.Routes.Dispatch.{Request, Outside, serve, run}
use eudi_api_registration.App.{is_registered, IsRegistered}
use eudi_api_registration.Routes.Trail.{
  Step, Respected, Allows, failing, same_error, run_respects, serve_fails,
}

-- The log of the later state is the log of the earlier one with more entries behind it.
pub record Extends (f g : Fake) : Type 0 where
  pub entries : List AuditLogEntry
  pub grown : g.audit_log ≡ f.audit_log ++ entries

kept : (f g : Fake) → g.audit_log ≡ f.audit_log → Extends f g
kept f g e = record { entries = []; grown = e ∙ sym (append-nil f.audit_log) }

joins : (f g h : Fake) → Extends f g → Extends g h → Extends f h
joins f g h p q = record {
  entries = p.entries ++ q.entries;
  grown =
      q.grown ∙ ap (λ log. log ++ q.entries) p.grown ∙ append_assoc f.audit_log p.entries q.entries;
}

audited :
    (actor id action : String) (detail : RawMessage) (f g : Fake)
    → g.audit_log ≡ f.audit_log
    → Extends f (audit actor id action detail g)
unfolding audit
audited actor id action detail f g e =
    let entry = logged actor id action detail g in
    record { entries = entry ∷ []; grown = ap (λ log. log ++ entry ∷ []) e }

written :
    (id actor action : String) (detail : RawMessage) (c : ClientFull) (f : Fake)
    → Extends f (write_audited id c actor action detail f)
unfolding write_audited
written id actor action detail c f =
    audited actor id action detail f (touch id (store_client id c f))
      (unfold touch store_client in refl)

replace-audit_log :
    (id : String) (ius : List IntendedUse) (f : Fake)
    → (replace_intended_uses id ius f).audit_log ≡ f.audit_log
unfolding replace_intended_uses
replace-audit_log id ius f =
    ap (λ (g : Fake). g.audit_log)
      (rebuild-frame (get_or (GoMap.get f.intended_uses id) GoMap.empty) ius GoMap.empty f)

raised :
    {A : Type 0} (e : Error) (f : Fake)
    → IsRegistered e
    → Step Extends IsRegistered f (failing {A = A} e, f)
raised e f p = record { after = kept f f refl; fails = λ x h. rw (← same_error h) p }

refused :
    {A : Type 0} (code : String) (f : Fake)
    → Step Extends IsRegistered f (failing {A = A} (from_result_code code), f)
refused code f = raised (from_result_code code) f tt

finished : {A : Type 0} (a : A) (f g : Fake) → Extends f g → Step Extends IsRegistered f (ok a, g)
finished a f g x = record { after = x; fails = λ e h. absurd (cc h) }

saved :
    (id : String) (doc : RawMessage) (ius : List IntendedUse) (actor : String) (f : Fake)
    → Step Extends IsRegistered f (save_wrp_document id doc ius actor f)
unfolding save_wrp_document
saved id doc ius actor f = elim (Option-cases (GoMap.get f.clients id)) [
  | inl missing ↦ rw (missing, save_wrp_document) (refused _ f)
  | inr (c, row) ↦ elim (Bool-cases (any lacks_id ius)) [
    | inl bad ↦ rw (row, save_wrp_document) (rw bad (refused _ f))
    | inr good ↦
        let f1 = touch id (store_client id (record c { wrp_document = doc }) f) in
        rw (row, save_wrp_document)
          (rw good (
            finished tt f _ (
              audited actor id "client.save_wrp_document" (count_detail ius) f
                (replace_intended_uses id ius f1)
                (replace-audit_log id ius f1 ∙ unfold touch store_client in refl))))
  ]
]

purged : (id actor : String) (f : Fake) → Step Extends IsRegistered f (purge_offboarded id actor f)
unfolding purge_offboarded
purged id actor f = elim (Option-cases (GoMap.get f.clients id)) [
  | inl missing ↦ rw (missing, purge_offboarded) (refused _ f)
  | inr (c, row) ↦ elim (Bool-cases (c.status == "offboarded")) [
    | inl off ↦
        rw (row, purge_offboarded)
          (rw off (
            finished tt f _ (
              audited actor id "client.purge" (text (obj end)) f
                (record f { evidence = GoMap.update_all (purge_row id) f.evidence }) refl)))
    | inr on ↦ rw (row, purge_offboarded) (rw on (refused _ f))
  ]
]

webhook :
    (id url actor : String) (f : Fake)
    → Step Extends IsRegistered f (set_client_webhook id url actor f)
unfolding set_client_webhook
webhook id url actor f = elim (Bool-cases (url == "" || not (webhook_url_pattern url))) [
  | inl bad ↦ rw bad (refused _ f)
  | inr good ↦ elim (Option-cases (GoMap.get f.clients id)) [
    | inl missing ↦ rw good (rw (missing, set_client_webhook) (refused _ f))
    | inr (c, row) ↦ rw good (rw (row, set_client_webhook) (finished tt f _ (written _ _ _ _ _ f)))
  ]
]

origins :
    (id : String) (allowed : List String) (actor : String) (f : Fake)
    → Step Extends IsRegistered f (set_client_allowed_origins id allowed actor f)
unfolding set_client_allowed_origins
origins id allowed actor f =
    elim (Bool-cases (ltb 20 (length allowed) || not (all web_origin_pattern allowed))) [
      | inl bad ↦ rw bad (refused _ f)
      | inr good ↦ elim (Option-cases (GoMap.get f.clients id)) [
        | inl missing ↦ rw good (rw (missing, set_client_allowed_origins) (refused _ f))
        | inr (c, row) ↦
            rw good (rw (row, set_client_allowed_origins) (finished tt f _ (written _ _ _ _ _ f)))
      ]
    ]

merge_mode-err :
    (float64 : Float64) (mode : String) (policy : RawMessage) (e : Error)
    → merge_mode float64 mode policy ≡ err e
    → IsRegistered e
unfolding merge_mode decode_policy
merge_mode-err float64 mode empty e h = absurd (cc h)
merge_mode-err float64 mode malformed e h = rw (← same_error h) tt
merge_mode-err float64 mode (text null) e h = rw (← same_error h) tt
merge_mode-err float64 mode (text (bool b)) e h = rw (← same_error h) tt
merge_mode-err float64 mode (text (number n)) e h = rw (← same_error h) tt
merge_mode-err float64 mode (text (str t)) e h = rw (← same_error h) tt
merge_mode-err float64 mode (text (arr xs)) e h = rw (← same_error h) tt
merge_mode-err float64 mode (text (obj ms)) e h = elim (Option-cases (any_members float64 ms)) [
  | inl out_of_range ↦ rw (← same_error (rw (out_of_range, merge_mode, decode_policy) at h)) tt
  | inr (values, read) ↦ absurd (cc (rw (read, merge_mode, decode_policy) at h))
]

mode_after :
    (id mode actor : String) (f : Fake) (c : ClientFull) (r : Result RawMessage)
    → not (mode == "signed" || mode == "unsigned") ≡ false
    → GoMap.get f.clients id ≡ some c
    → merge_mode f.float64 mode c.policy ≡ r
    → Step Extends IsRegistered f (set_client_dcapi_mode id mode actor f)
unfolding set_client_dcapi_mode
mode_after id mode actor f c (err e) known row m = rw known (
    rw (row, set_client_dcapi_mode)
      (rw m (raised e f (merge_mode-err f.float64 mode c.policy e m))))
mode_after id mode actor f c (ok p) known row m =
    rw known (rw (row, set_client_dcapi_mode) (rw m (finished tt f _ (written _ _ _ _ _ f))))

moded :
    (id mode actor : String) (f : Fake)
    → Step Extends IsRegistered f (set_client_dcapi_mode id mode actor f)
unfolding set_client_dcapi_mode
moded id mode actor f = elim (Bool-cases (not (mode == "signed" || mode == "unsigned"))) [
  | inl bad ↦ rw bad (refused _ f)
  | inr known ↦ elim (Option-cases (GoMap.get f.clients id)) [
    | inl missing ↦ rw known (rw (missing, set_client_dcapi_mode) (refused _ f))
    | inr (c, row) ↦
        mode_after id mode actor f c (merge_mode f.float64 mode c.policy) known row refl
  ]
]

read : (id : String) (f : Fake) → Step Extends IsRegistered f (get_client_full id f)
unfolding get_client_full
read id f = elim (Option-cases (GoMap.get f.clients id)) [
  | inl missing ↦ rw (missing, get_client_full) (refused _ f)
  | inr (c, row) ↦ rw (row, get_client_full) (finished c f f (kept f f refl))
]

drafted :
    (name email actor : String) (f : Fake)
    → Step Extends IsRegistered f (create_draft_client name email actor f)
unfolding create_draft_client next_id
drafted name email actor f =
    let (id, f1) = next_id f in
    let w =
      written id actor "client.create" (string_detail (("name", name) ∷ []))
        (draft_client id name email) f1 in
    finished id f _ (record { entries = w.entries; grown = w.grown })

fake_respects : Respected fake_store Extends IsRegistered
unfolding transition_client get_client_full list_clients_by_state create_draft_client create_api_key
    set_client_registrar_identity set_client_webhook set_client_allowed_origins
    set_client_dcapi_mode save_wrp_document list_intended_uses purge_offboarded
fake_respects = record {
  transition_client = λ id to actor ref reason f. elim (Option-cases (GoMap.get f.clients id)) [
    | inl missing ↦ rw (missing, transition_client) (refused _ f)
    | inr (c, row) ↦ elim (Bool-cases (is_legal c.status to)) [
      | inl legal ↦ rw (row, transition_client) (rw legal (finished tt f _ (written _ _ _ _ _ f)))
      | inr illegal ↦ rw (row, transition_client) (rw illegal (refused _ f))
    ]
  ];
  get_client_full = λ id f. read id f;
  list_clients_by_state = λ f. finished _ f f (kept f f refl);
  create_draft_client = λ name email actor f. drafted name email actor f;
  set_client_registrar_identity = λ id uri identifier actor f.
      elim (Option-cases (GoMap.get f.clients id)) [
        | inl missing ↦ rw (missing, set_client_registrar_identity) (refused _ f)
        | inr (c, row) ↦
            rw (row, set_client_registrar_identity) (finished tt f _ (written _ _ _ _ _ f))
      ];
  set_client_webhook = webhook;
  set_client_allowed_origins = origins;
  set_client_dcapi_mode = moded;
  create_api_key = λ id prefix hash f. elim (Option-cases (GoMap.get f.clients id)) [
    | inl missing ↦ rw (missing, create_api_key) (refused _ f)
    | inr (c, row) ↦ rw (row, create_api_key) (finished tt f _ (kept f _ refl))
  ];
  save_wrp_document = saved;
  list_intended_uses = λ id f. finished _ f f (kept f f refl);
  purge_offboarded = purged;
}

own_problems : Allows IsRegistered
own_problems = record {
  body = refl;
  registration = refl;
  identity = refl;
  intended_use = refl;
  ts5_check = refl;
  gate = tt;
  message = λ m. tt;
}

-- Whatever requests a run of the API on the in-memory store makes, with whatever keys, the audit log
-- after it is the log before it with entries added at its end: none is changed or removed.
pub audit_log_grows :
    (out : Outside) (want : String) (requests : List (String × Request)) (f : Fake)
    → Extends f (run fake_store out want requests f)
audit_log_grows =
    run_respects fake_store Extends (λ f. kept f f refl) joins IsRegistered own_problems
      fake_respects

-- A problem of the service's own, with which a request to the API on the in-memory store fails, has a
-- reason that the application has registered.
pub problems_registered :
    (out : Outside) (want got : String) (request : Request) (f : Fake) (code : String)
    → (serve fake_store out want got request f).0 ≡ err (new_problem code)
    → is_registered code ≡ true
problems_registered out want got request f code h =
    serve_fails fake_store Extends (λ f. kept f f refl) joins IsRegistered own_problems
      fake_respects out want got request f (new_problem code) h
