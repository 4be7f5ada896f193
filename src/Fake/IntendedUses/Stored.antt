-- ===== src/Fake/IntendedUses/Stored.antt =====
-- What `replaceIntendedUsesLocked` leaves behind (internal/registrydb/fake.go).
use mathlib.Core.List.{Memᴰ}
use native.Mathlib.Nat.{le_trans}
use eudi_api_registration.Base.{
  ℕ, ◌+◌, ◌<◌, ◌≢◌, false, map, Distinct, String, true, ◌≤◌, ◌||◌, ◌≡◌, refl, ap, ◌∙◌, inl, inr,
  Option, none, some, is_some, List, [], ◌∷◌, ◌++◌, ◌==◌, contains, All, arith, eq_iff, eq_refl,
  Bool-cases, Option-cases,
}
use eudi_api_registration.Base.GoMap
use eudi_api_registration.Base.GoMap.{GoMap, get-put, get-empty}
use eudi_api_registration.Registry.{IntendedUse}
use eudi_api_registration.Registry.Contract.{Stored, business_key}
use eudi_api_registration.Fake.{Fake, fake_id, next_id}
use eudi_api_registration.Fake.IntendedUses.{assign_id, rebuild, kept_order, append_new, in_order}

-- Where the internal identifier of a stored use comes from: it is the call's own, that of the use
-- stored before under the same business key, or a newly minted one.
pub data Identified (existing : GoMap IntendedUse) (seq : ℕ) (iu : IntendedUse) (id : String)
    : Type 0 where
  given : iu.id ≢ "" → id ≡ iu.id → Identified existing seq iu id
  inherited :
      (old : IntendedUse)
      → iu.id ≡ ""
      → GoMap.get existing iu.intended_use_id ≡ some old
      → id ≡ old.id
      → Identified existing seq iu id
  minted :
      (n : ℕ)
      → iu.id ≡ ""
      → GoMap.get existing iu.intended_use_id ≡ none
      → seq < n
      → id ≡ fake_id n
      → Identified existing seq iu id

-- A row comes from an intended use of the call, with an internal identifier by the rule.
abbrev pub Placed : GoMap IntendedUse → ℕ → List IntendedUse → IntendedUse → Type 0
Placed existing seq ius row =
    (iu : IntendedUse) × Memᴰ iu ius
    × (row ≡ record iu { id = row.id })
    × Identified existing seq iu row.id

module _ (existing : GoMap IntendedUse) where
  assign_id_lem :
      (iu : IntendedUse) (f : Fake)
      → (assign_id existing iu f).0 ≡ record iu { id = (assign_id existing iu f).0.id }
  unfolding assign_id
  assign_id_lem iu f = ground arith

  assign_id-Identified :
      (n0 : ℕ) (iu : IntendedUse) (f : Fake)
      → n0 ≤ f.seq
      → Identified existing n0 iu (assign_id existing iu f).0.id
  unfolding assign_id next_id
  assign_id-Identified n0 iu f le = elim (Bool-cases (iu.id == "")) [
    | inr own ↦ rw own (given (ground (arith, eq_iff iu.id "")) refl)
    | inl blank ↦
        let none_given = (eq_iff iu.id "").0 blank in
        rw blank (elim (Option-cases (GoMap.get existing iu.intended_use_id)) [
          | inl new ↦
              rw (assign_id, new) (minted (f.seq + 1) none_given new (omega (arith, le)) refl)
          | inr (old, known) ↦ rw (assign_id, known) (inherited old none_given known refl)
        ])
  ]

  -- A row of the map stands under its key, and comes from the call.
  abbrev IsGood : ℕ → List IntendedUse → String → IntendedUse → Type 0
  IsGood n ius k row = (row.intended_use_id ≡ k) × Placed existing n ius row

  pub assign_id-seq : (iu : IntendedUse) (f : Fake) → f.seq ≤ (assign_id existing iu f).1.seq
  unfolding assign_id
  assign_id-seq iu f = ground arith

  assign_id-frame :
      (iu : IntendedUse) (f : Fake)
      → (assign_id existing iu f).1 ≡ record f { seq = (assign_id existing iu f).1.seq }
  unfolding assign_id
  assign_id-frame iu f = ground arith

  rebuild_sound :
      (n0 : ℕ) (all ius : List IntendedUse) (m : GoMap IntendedUse) (f : Fake)
      → n0 ≤ f.seq
      → ((iu : IntendedUse) → Memᴰ iu ius → Memᴰ iu all)
      → ((k : String) (row : IntendedUse) → GoMap.get m k ≡ some row → IsGood n0 all k row)
      → (k : String) (row : IntendedUse) → GoMap.get (rebuild existing ius m f).0 k ≡ some row
      → IsGood n0 all k row
  unfolding rebuild
  rebuild_sound n0 all [] m f le sub good k row h = good k row h
  rebuild_sound n0 all (iu ∷ ius) m f le sub good k row h =
      rebuild_sound n0 all ius _ _ (le_trans le (assign_id-seq iu f))
        (λ x mem. sub x (Memᴰ.tail mem)) step k row h
    where
      step :
          (j : String) (x : IntendedUse)
          → GoMap.get (GoMap.put m iu.intended_use_id (assign_id existing iu f).0) j ≡ some x
          → IsGood n0 all j x
      step j x e = elim (Bool-cases (iu.intended_use_id == j)) [
        | inl same ↦
            let r : IntendedUse = (assign_id existing iu f).0 in
            let from_iu : r ≡ record iu { id = r.id } = assign_id_lem iu f in
            let p : r ≡ x = ground (arith, e, get-put m iu.intended_use_id j r) in
            rw (← p) (
              ap (λ (u : IntendedUse). u.intended_use_id) from_iu
                  ∙ (eq_iff iu.intended_use_id j).0 same,
              (iu, sub iu (Memᴰ.head refl), from_iu, assign_id-Identified n0 iu f le),
            )
        | inr other ↦
            good j x (ground (arith, e, get-put m iu.intended_use_id j (assign_id existing iu f).0))
      ]

  rebuild_keeps :
      (ius : List IntendedUse) (m : GoMap IntendedUse) (f : Fake) (k : String)
      → is_some (GoMap.get m k) ≡ true
      → is_some (GoMap.get (rebuild existing ius m f).0 k) ≡ true
  unfolding rebuild
  rebuild_keeps [] m f k h = h
  rebuild_keeps (iu ∷ ius) m f k h =
      rebuild_keeps ius _ _ k
        (ground (arith, get-put m iu.intended_use_id k (assign_id existing iu f).0))

  rebuild_complete :
      (ius : List IntendedUse) (m : GoMap IntendedUse) (f : Fake) (x : IntendedUse)
      → Memᴰ x ius
      → is_some (GoMap.get (rebuild existing ius m f).0 x.intended_use_id) ≡ true
  unfolding rebuild
  rebuild_complete [] m f x mem = elim mem [ ]
  rebuild_complete (iu ∷ ius) m f x (Memᴰ.head e) = rw e (
      rebuild_keeps ius _ _ iu.intended_use_id (
        ground (
          arith,
          get-put m iu.intended_use_id iu.intended_use_id (assign_id existing iu f).0,
          eq_refl iu.intended_use_id,
        )))
  rebuild_complete (iu ∷ ius) m f x (Memᴰ.tail mem) = rebuild_complete ius _ _ x mem

  pub rebuild-seq :
      (ius : List IntendedUse) (m : GoMap IntendedUse) (f : Fake)
      → f.seq ≤ (rebuild existing ius m f).1.seq
  unfolding rebuild
  rebuild-seq [] m f = omega arith
  rebuild-seq (iu ∷ ius) m f =
      le_trans (assign_id-seq iu f) (rebuild-seq ius _ (assign_id existing iu f).1)

  -- Nothing but the counter of identifiers changes.
  pub rebuild-frame :
      (ius : List IntendedUse) (m : GoMap IntendedUse) (f : Fake)
      → (rebuild existing ius m f).1 ≡ record f { seq = (rebuild existing ius m f).1.seq }
  unfolding rebuild
  rebuild-frame [] m f = refl
  rebuild-frame (iu ∷ ius) m f =
      let f1 = (assign_id existing iu f).1 in
      let m1 = GoMap.put m iu.intended_use_id (assign_id existing iu f).0 in
      rebuild-frame ius m1 f1
      ∙ ap (λ (g : Fake). record g { seq = (rebuild existing ius m1 f1).1.seq })
          (assign_id-frame iu f)

in_order-All :
    (P : IntendedUse → Type 0) (m : GoMap IntendedUse) (ids : List String)
    → ((k : String) (row : IntendedUse) → GoMap.get m k ≡ some row → P row)
    → All P (in_order m ids)
unfolding in_order
in_order-All P m [] good = tt
in_order-All P m (id ∷ ids) good = elim (Option-cases (GoMap.get m id)) [
  | inl missing ↦ rw (missing, All, in_order) (in_order-All P m ids good)
  | inr (row, e) ↦ rw (e, All, in_order) (good id row e, in_order-All P m ids good)
]

in_order-mem :
    (m : GoMap IntendedUse) (ids : List String) (k : String) (row : IntendedUse)
    → contains ids k ≡ true
    → GoMap.get m k ≡ some row
    → Memᴰ row (in_order m ids)
unfolding in_order
in_order-mem m [] k row h e = absurd (cc h)
in_order-mem m (id ∷ ids) k row h e = elim (Bool-cases (id == k)) [
  | inl same ↦
      let p : GoMap.get m id ≡ some row = rw ((eq_iff id k).0 same) e in
      rw (p, in_order) (Memᴰ.head refl)
  | inr other ↦
      let ih = in_order-mem m ids k row (rw other at h) e in
      elim (Option-cases (GoMap.get m id)) [
        | inl missing ↦ rw (missing, in_order) ih
        | inr (x, found) ↦ rw (found, in_order) (Memᴰ.tail ih)
      ]
]

contains-append :
    (xs ys : List String) (k : String) → contains (xs ++ ys) k ≡ (contains xs k || contains ys k)
contains-append [] ys k = refl
contains-append (x ∷ xs) ys k = ground (arith, contains-append xs ys k)

append_new_keeps :
    (ius : List IntendedUse) (order : List String) (k : String)
    → contains order k ≡ true
    → contains (append_new order ius) k ≡ true
unfolding append_new
append_new_keeps [] order k h = h
append_new_keeps (iu ∷ ius) order k h =
    append_new_keeps ius _ k (ground (arith, contains-append order (iu.intended_use_id ∷ []) k))

append_new-contains :
    (ius : List IntendedUse) (order : List String) (x : IntendedUse)
    → Memᴰ x ius
    → contains (append_new order ius) x.intended_use_id ≡ true
unfolding append_new
append_new-contains [] order x mem = elim mem [ ]
append_new-contains (iu ∷ ius) order x (Memᴰ.head e) = rw e (
    append_new_keeps ius _ iu.intended_use_id (
      ground (
        arith,
        contains-append order (iu.intended_use_id ∷ []) iu.intended_use_id,
        eq_refl iu.intended_use_id,
      )))
append_new-contains (iu ∷ ius) order x (Memᴰ.tail mem) = append_new-contains ius _ x mem

some_of_is_some {ℓ} : {A : Type ℓ} (o : Option A) → is_some o ≡ true → (a : A) × (o ≡ some a)
some_of_is_some none h = absurd (cc h)
some_of_is_some (some a) h = (a, refl)

All-mem {κ} : {A : Type 0} (P : A → Type κ) (xs : List A) → ((a : A) → Memᴰ a xs → P a) → All P xs
All-mem P [] h = tt
All-mem P (x ∷ xs) h = (h x (Memᴰ.head refl), All-mem P xs (λ a mem. h a (Memᴰ.tail mem)))

All-map {κ μ} :
    {A : Type 0} (P : A → Type κ) (Q : A → Type μ) (xs : List A)
    → ((a : A) → P a → Q a)
    → All P xs
    → All Q xs
All-map P Q [] h all = tt
All-map P Q (x ∷ xs) h (p, all) = (h x p, All-map P Q xs h all)

contains-in_order :
    (m : GoMap IntendedUse) (ids : List String) (k : String)
    → ((j : String) (row : IntendedUse) → GoMap.get m j ≡ some row → row.intended_use_id ≡ j)
    → contains ids k ≡ false
    → contains (map business_key (in_order m ids)) k ≡ false
unfolding in_order
contains-in_order m [] k keyed h = refl
contains-in_order m (id ∷ ids) k keyed h =
    let rest = contains-in_order m ids k keyed (ground arith) in
    elim (Option-cases (GoMap.get m id)) [
      | inl missing ↦ rw (missing, in_order) rest
      | inr (row, e) ↦ rw (e, in_order) (rw (keyed id row e, rest) (ground arith))
    ]

in_order-Distinct :
    (m : GoMap IntendedUse) (ids : List String)
    → ((j : String) (row : IntendedUse) → GoMap.get m j ≡ some row → row.intended_use_id ≡ j)
    → Distinct ids
    → Distinct (map business_key (in_order m ids))
unfolding in_order
in_order-Distinct m [] keyed h = tt
in_order-Distinct m (id ∷ ids) keyed (fresh, h) =
    let rest = in_order-Distinct m ids keyed h in
    elim (Option-cases (GoMap.get m id)) [
      | inl missing ↦ rw (missing, in_order) rest
      | inr (row, e) ↦
          rw (e, in_order) (rw (keyed id row e) (contains-in_order m ids id keyed fresh), rest)
    ]

contains-kept_order :
    (m : GoMap IntendedUse) (ids : List String) (k : String)
    → contains ids k ≡ false
    → contains (kept_order m ids) k ≡ false
unfolding kept_order
contains-kept_order m [] k h = refl
contains-kept_order m (id ∷ ids) k h = ground (arith, contains-kept_order m ids k)

kept_order-Distinct :
    (m : GoMap IntendedUse) (ids : List String) → Distinct ids → Distinct (kept_order m ids)
unfolding kept_order
kept_order-Distinct m [] h = tt
kept_order-Distinct m (id ∷ ids) (fresh, h) = elim (Bool-cases (is_some (GoMap.get m id))) [
  | inl kept ↦ rw kept (contains-kept_order m ids id fresh, kept_order-Distinct m ids h)
  | inr gone ↦ rw gone (kept_order-Distinct m ids h)
]

Distinct-append_one :
    (ids : List String) (k : String)
    → contains ids k ≡ false
    → Distinct ids
    → Distinct (ids ++ k ∷ [])
Distinct-append_one [] k fresh h = (refl, tt)
Distinct-append_one (id ∷ ids) k fresh (first, h) = (
  ground (arith, contains-append ids (k ∷ []) id, eq_iff id k, eq_iff k id),
  Distinct-append_one ids k (ground arith) h,
)

append_new-Distinct :
    (ius : List IntendedUse) (order : List String)
    → Distinct order
    → Distinct (append_new order ius)
unfolding append_new
append_new-Distinct [] order h = h
append_new-Distinct (iu ∷ ius) order h =
    append_new-Distinct ius _ (elim (Bool-cases (contains order iu.intended_use_id)) [
      | inl seen ↦ rw seen h
      | inr fresh ↦ rw fresh (Distinct-append_one order iu.intended_use_id fresh h)
    ])

pub new_order-Distinct :
    (m : GoMap IntendedUse) (old : List String) (ius : List IntendedUse)
    → Distinct old
    → Distinct (append_new (kept_order m old) ius)
new_order-Distinct m old ius h =
    append_new-Distinct ius (kept_order m old) (kept_order-Distinct m old h)

rebuild-IsGood :
    (existing : GoMap IntendedUse) (ius : List IntendedUse) (f : Fake) (k : String)
    (row : IntendedUse)
    → GoMap.get (rebuild existing ius GoMap.empty f).0 k ≡ some row
    → IsGood existing f.seq ius k row
rebuild-IsGood existing ius f =
    rebuild_sound existing f.seq ius ius GoMap.empty f (omega arith) (λ iu mem. mem)
      (λ k row h. absurd (cc (h, get-empty {V = IntendedUse} k)))

-- No business key is listed twice.
pub rebuild-once :
    (existing : GoMap IntendedUse) (ius : List IntendedUse) (old : List String) (f : Fake)
    → Distinct old
    → let m = (rebuild existing ius GoMap.empty f).0 in
      Distinct (map business_key (in_order m (append_new (kept_order m old) ius)))
rebuild-once existing ius old f h =
    let m = (rebuild existing ius GoMap.empty f).0 in
    in_order-Distinct m _ (λ k row e. (rebuild-IsGood existing ius f k row e).0)
      (new_order-Distinct m old ius h)

pub rebuild-Placed :
    (existing : GoMap IntendedUse) (ius : List IntendedUse) (old : List String) (f : Fake)
    → let m = (rebuild existing ius GoMap.empty f).0 in
      All (Placed existing f.seq ius) (in_order m (append_new (kept_order m old) ius))
rebuild-Placed existing ius old f =
    let m = (rebuild existing ius GoMap.empty f).0 in
    in_order-All (Placed existing f.seq ius) m _
      (λ k row e. (rebuild-IsGood existing ius f k row e).1)

-- The rows of a fresh rebuild, listed in an order that ends with the call's own keys.
pub rebuild-Stored :
    (existing : GoMap IntendedUse) (ius : List IntendedUse) (old : List String) (f : Fake)
    → let m = (rebuild existing ius GoMap.empty f).0 in
      Stored ius (in_order m (append_new (kept_order m old) ius))
rebuild-Stored existing ius old f =
    let m = (rebuild existing ius GoMap.empty f).0 in
    let sound = rebuild-IsGood existing ius f in
    record {
      from_call =
          All-map (Placed existing f.seq ius) _ _ (λ row placed. (placed.0, placed.1, placed.2))
            (rebuild-Placed existing ius old f);
      has_row = All-mem _ ius (λ x mem.
          let (row, at) = some_of_is_some _ (rebuild_complete existing ius GoMap.empty f x mem) in
          (
            row,
            in_order-mem m _ x.intended_use_id row
                (append_new-contains ius (kept_order m old) x mem) at,
            (sound x.intended_use_id row at).0,
          ));
    }
