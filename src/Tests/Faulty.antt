-- ===== src/Tests/Faulty.antt =====
-- The in-memory store with an evidence purge that fails, as a store of the contract.
use eudi_api_registration.Base.{String, ◌≡◌, refl, ap, List, Result, ok, err, Error, failure, Exec}
use eudi_api_registration.Json.{RawMessage}
use eudi_api_registration.Registry.{ClientFull, IntendedUse}
use eudi_api_registration.Registry.Store.{Store}
use eudi_api_registration.Registry.Contract.{
  Contract, Views, Writes, Sets, refused, wrote, Saves, Creates,
}
use eudi_api_registration.Fake.{Fake}
use eudi_api_registration.Fake.Evidence.{purge_offboarded}
use eudi_api_registration.Fake.Store.{fake_store, fake_views}
use eudi_api_registration.Fake.Contract.{fake_contract, purge_missing, purge_early}

-- A purge that would succeed fails instead, without a trace.
abbrev pub spoil : Result (Unit {0}) → Result (Unit {0})
spoil (ok done) = err (failure "purge failed")
spoil (err e) = err e

abbrev pub failing_purge : String → String → Exec Fake (Unit {0})
failing_purge id actor f = (spoil (purge_offboarded id actor f).0, f)

abbrev pub faulty_store : Store
faulty_store = record fake_store { purge_offboarded = failing_purge }

abbrev pub faulty_views : Views faulty_store
faulty_views = record { Valid = fake_views.Valid; view = fake_views.view; uses = fake_views.uses }

pub writes :
    (op : Exec Fake (Unit {0})) (f : Fake) (id : String) (c : ClientFull)
    → Writes fake_views op f id c
    → Writes faulty_views op f id c
writes op f id c w = record {
  succeeds = w.succeeds;
  row = w.row;
  same_uses = w.same_uses;
  valid = w.valid;
}

pub sets :
    (op : Exec Fake (Unit {0})) (f : Fake) (id : String) (Q : ClientFull → ClientFull → Type 0)
    → Sets fake_views op f id Q
    → Sets faulty_views op f id Q
sets op f id Q (refused e h) = refused e h
sets op f id Q (wrote c d row q w) = wrote c d row q (writes op f id d w)

pub saves :
    (op : Exec Fake (Unit {0})) (f : Fake) (id : String) (doc : RawMessage) (ius : List IntendedUse)
    (c : ClientFull)
    → Saves fake_views op f id doc ius c
    → Saves faulty_views op f id doc ius c
saves op f id doc ius c w = record {
  succeeds = w.succeeds;
  row = w.row;
  stored = w.stored;
  once = w.once;
  other_uses = w.other_uses;
  valid = w.valid;
}

pub creates :
    (op : Exec Fake String) (f : Fake) (name : String)
    → Creates fake_views op f name
    → Creates faulty_views op f name
creates op f name w = record {
  id = w.id;
  succeeds = w.succeeds;
  fresh = w.fresh;
  client = w.client;
  drafted = w.drafted;
  row = w.row;
  same_uses = w.same_uses;
  valid = w.valid;
}

pub purge_fails :
    (id actor : String) (f : Fake) (e : Error)
    → (purge_offboarded id actor f).0 ≡ err e
    → failing_purge id actor f ≡ (err e, f)
purge_fails id actor f e h = rw h refl

pub purge_sets :
    (id actor : String) (f : Fake) (c : ClientFull)
    → Sets faulty_views (failing_purge id actor) f id (λ c d. d ≡ c)
purge_sets id actor f c = go (purge_offboarded id actor f).0 refl
  where
    go :
        (r : Result (Unit {0}))
        → (purge_offboarded id actor f).0 ≡ r
        → Sets faulty_views (failing_purge id actor) f id (λ c d. d ≡ c)
    go (ok done) h = refused (failure "purge failed") (rw h refl)
    go (err e) h = refused e (rw h refl)

abbrev pub faulty_contract : Contract faulty_store
faulty_contract = record {
  views = faulty_views;
  legal = fake_contract.legal;
  legal_iff = fake_contract.legal_iff;
  own_id = fake_contract.own_id;
  get_full = fake_contract.get_full;
  list_uses = fake_contract.list_uses;
  list_same = fake_contract.list_same;
  transition_missing = fake_contract.transition_missing;
  transition_illegal = fake_contract.transition_illegal;
  transition_legal = λ id to actor ref reason f c row legal.
      writes _ f id _ (fake_contract.transition_legal id to actor ref reason f c row legal);
  purge_missing = λ id actor f missing.
      purge_fails id actor f _ (ap (λ (r : _). r.0) (purge_missing id actor f missing));
  purge_early = λ id actor f c row early.
      purge_fails id actor f _ (ap (λ (r : _). r.0) (purge_early id actor f c row early));
  purge_lem = λ id actor f c row off. purge_sets id actor f c;
  identity_missing = fake_contract.identity_missing;
  identity_done = λ id uri identifier actor f c row.
      writes _ f id _ (fake_contract.identity_done id uri identifier actor f c row);
  webhook_lem = λ id url actor f. sets _ f id _ (fake_contract.webhook_lem id url actor f);
  origins_lem = λ id origins actor f. sets _ f id _ (fake_contract.origins_lem id origins actor f);
  mode_lem = λ id mode actor f. sets _ f id _ (fake_contract.mode_lem id mode actor f);
  save_missing = fake_contract.save_missing;
  save_invalid = fake_contract.save_invalid;
  save_done = λ id doc ius actor f c row named.
      saves _ f id doc ius c (fake_contract.save_done id doc ius actor f c row named);
  create_done =
      λ name email actor f v. creates _ f name (fake_contract.create_done name email actor f v);
  key_lem = λ id prefix hash f. sets _ f id _ (fake_contract.key_lem id prefix hash f);
}
