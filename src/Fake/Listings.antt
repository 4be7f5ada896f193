-- ===== src/Fake/Listings.antt =====
-- The listing of evidence of the in-memory store (internal/registrydb/fake.go), and the grouping of the
-- database bridge (internal/registrydb/repo.go).
use mathlib.Core.Option.{get_or}
use mathlib.Core.List.{append_assoc, Perm}
use eudi_api_registration.Base.{
  All, ◌<◌, ◌⊎◌, String, true, false, ◌≡◌, refl, ap, ◌∙◌, Option, none, some, List, [], ◌∷◌, ◌++◌,
  map, ◌==◌, arith, eq_iff, if◌then◌else◌, Bool-cases, inl, inr, ok,
}
use eudi_api_registration.Base.GoMap
use eudi_api_registration.Base.GoMap.{GoMap, get-put, get-empty, get-update_all}
use eudi_api_registration.Base.Sort.{before, sort}
use eudi_api_registration.Base.Sort.Sorted.{IsSorted, sort-perm, sort-IsSorted}
use eudi_api_registration.Base.Order.{before_trans, before_irrefl, before_total}
use eudi_api_registration.Registry
use eudi_api_registration.Registry.{ClientSummary}
use eudi_api_registration.Fake.{Fake, FakeEvidence}
use eudi_api_registration.Fake.Clients.{group}
use eudi_api_registration.Fake.Evidence.{by_time_then_id, owned_by, list_evidence}
use eudi_api_registration.Bridge.Store.{group_by_status}

-- The rows of one status, in the order of the list.
unfoldable pub with_status : String → List ClientSummary → List ClientSummary
with_status status [] = []
with_status status (s ∷ rest) =
    let others = with_status status rest in if s.status == status then s ∷ others else others

-- A group after more rows: no entry is made for none.
abbrev pub joined : Option (List ClientSummary) → List ClientSummary → Option (List ClientSummary)
joined old [] = old
joined old (s ∷ rest) = some (get_or old [] ++ s ∷ rest)

joined_cons :
    (old : Option (List ClientSummary)) (s : ClientSummary) (rest : List ClientSummary)
    → joined (some (get_or old [] ++ s ∷ [])) rest ≡ joined old (s ∷ rest)
joined_cons old s [] = refl
joined_cons old s (t ∷ rest) = ap some (append_assoc (get_or old []) (s ∷ []) (t ∷ rest))

get-group :
    (rows : List ClientSummary) (m : GoMap (List ClientSummary)) (status : String)
    → GoMap.get (group m rows) status ≡ joined (GoMap.get m status) (with_status status rows)
unfolding group with_status
get-group [] m status = refl
get-group (s ∷ rest) m status =
    let more = GoMap.put m s.status (get_or (GoMap.get m s.status) [] ++ s ∷ []) in
    get-group rest more status ∙ elim (Bool-cases (s.status == status)) [
      | inl same ↦
          rw (get-put m s.status status (get_or (GoMap.get m s.status) [] ++ s ∷ []), same)
            (ap
                (λ key.
                  joined (some (get_or (GoMap.get m key) [] ++ s ∷ [])) (with_status status rest))
                ((eq_iff s.status status).0 same)
              ∙ joined_cons (GoMap.get m status) s (with_status status rest))
      | inr other ↦
          rw (get-put m s.status status (get_or (GoMap.get m s.status) [] ++ s ∷ []), other) refl
    ]

group_same :
    (rows : List ClientSummary) (m : GoMap (List ClientSummary))
    → group_by_status rows m ≡ group m rows
unfolding group group_by_status
group_same [] m = refl
group_same (s ∷ rest) m =
    group_same rest (GoMap.put m s.status (get_or (GoMap.get m s.status) [] ++ s ∷ []))

-- The rows of one status, or no entry if there are none.
abbrev pub listed : List ClientSummary → Option (List ClientSummary)
listed [] = none
listed (s ∷ rest) = some (s ∷ rest)

joined-none : (rows : List ClientSummary) → joined none rows ≡ listed rows
joined-none [] = refl
joined-none (s ∷ rest) = refl

-- Whatever rows the database lists, the bridge's grouping has under each status exactly the rows with
-- that status, in the order in which they were listed, and no entry for a status that no row has.
pub group_by_status_lem :
    (rows : List ClientSummary) (status : String)
    → GoMap.get (group_by_status rows GoMap.empty) status ≡ listed (with_status status rows)
group_by_status_lem rows status = rw (group_same rows GoMap.empty) (
    get-group rows GoMap.empty status
    ∙ rw (get-empty {V = List ClientSummary} status) (joined-none (with_status status rows)))

before_asym : (a b : String) → before a b ≡ true → before b a ≡ false
before_asym a b h = ground (arith, before_trans a b a, before_irrefl a)

evidence_asym : (a b : Registry.Evidence) → by_time_then_id a b ≡ true → by_time_then_id b a ≡ false
evidence_asym a b h = ground (arith, before_asym a.id b.id)

evidence_neg_trans :
    (a b c : Registry.Evidence)
    → by_time_then_id b a ≡ false
    → by_time_then_id c b ≡ false
    → by_time_then_id c a ≡ false
evidence_neg_trans a b c h k = ground (
  arith,
  before_trans c.id a.id b.id,
  before_total a.id b.id,
  before_total c.id b.id,
  before_asym c.id a.id,
)

-- `a` may stand before `b`: it is earlier, or as early and not of a greater identifier.
abbrev pub MayPrecede : Registry.Evidence → Registry.Evidence → Type 0
MayPrecede a b =
    (a.created_at < b.created_at) ⊎ ((a.created_at ≡ b.created_at) × (before b.id a.id ≡ false))

abbrev pub InOrder : List Registry.Evidence → Type 0
InOrder [] = Unit
InOrder (a ∷ rest) = All (MayPrecede a) rest × InOrder rest

-- The rows of one client, as they are stored.
abbrev pub of_client : String → List FakeEvidence → List FakeEvidence
of_client id [] = []
of_client id (row ∷ rows) =
    let rest = of_client id rows in if row.client_id == id then row ∷ rest else rest

abbrev pub metadata : FakeEvidence → Registry.Evidence
metadata row = row.evidence

owned_by-of_client :
    (id : String) (rows : List FakeEvidence) → owned_by id rows ≡ map metadata (of_client id rows)
unfolding owned_by
owned_by-of_client id [] = refl
owned_by-of_client id (row ∷ rows) = elim (Bool-cases (row.client_id == id)) [
  | inl own ↦
      rw own (ap (λ (es : List Registry.Evidence). row.evidence ∷ es) (owned_by-of_client id rows))
  | inr other ↦ rw other (owned_by-of_client id rows)
]

IsSorted-MayPrecede :
    (a : Registry.Evidence) (rest : List Registry.Evidence)
    → All (λ b. by_time_then_id b a ≡ false) rest
    → All (MayPrecede a) rest
IsSorted-MayPrecede a [] h = tt
IsSorted-MayPrecede a (b ∷ rest) (p, h) = (ground arith, IsSorted-MayPrecede a rest h)

IsSorted-InOrder : (rows : List Registry.Evidence) → IsSorted by_time_then_id rows → InOrder rows
IsSorted-InOrder [] h = tt
IsSorted-InOrder (a ∷ rest) (p, h) = (IsSorted-MayPrecede a rest p, IsSorted-InOrder rest h)

-- The listing of a client's evidence has the metadata of exactly the rows that are stored for the
-- client, each as often as it is stored, earlier ones first and, at one time, in the byte order of
-- their identifiers; it changes nothing.
pub list_evidence_lem :
    (f : Fake) (id : String)
    → (rows : List Registry.Evidence) × (list_evidence id f ≡ (ok rows, f))
      × InOrder rows
      × Perm rows (map metadata (of_client id (GoMap.values f.evidence)))
unfolding list_evidence
list_evidence_lem f id =
    let rows = owned_by id (GoMap.values f.evidence) in
    (
      sort by_time_then_id rows,
      refl,
      IsSorted-InOrder (sort by_time_then_id rows)
          (sort-IsSorted by_time_then_id evidence_asym evidence_neg_trans rows),
      rw (← owned_by-of_client id (GoMap.values f.evidence)) (sort-perm by_time_then_id rows),
    )
