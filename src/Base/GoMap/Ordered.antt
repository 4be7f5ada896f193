-- ===== src/Base/GoMap/Ordered.antt =====
-- Maps whose entries stand in the byte order of their keys, each key once: what `make` and
-- assignments build, and what `encoding/json` writes.
use Prim.Native.String.{String}
use mathlib.Core.Path.{◌≡◌, refl, ◌∙◌}
use mathlib.Core.Bool.{true}
use mathlib.Core.Logic.{inl, inr}
use mathlib.Core.Option.{Option, none, some}
use mathlib.Core.List.{List, [], ◌∷◌}
use native.Mathlib.Omega.{arith}
use text.Mathlib.Text.{◌==◌}
use text.Mathlib.TextEquality.{eq_iff}
use eudi_api_registration.Base.Tests.{Bool-cases}
use eudi_api_registration.Base.Lists.{All}
use eudi_api_registration.Base.Sort.{before}
use eudi_api_registration.Base.Order.{before_trans, before_irrefl, before_total}
use eudi_api_registration.Base.GoMap.{GoMap, find, store, empty, get, put, get-put}

module _ {ℓ} {V : Type ℓ} where
  abbrev pub Ascends : List (String × V) → Type 0
  Ascends [] = Unit
  Ascends (entry ∷ rest) = All (λ (e : String × V). before entry.0 e.0 ≡ true) rest × Ascends rest

  pub record IsOrdered (m : GoMap V) : Type 0 where
    pub ascends : Ascends m.entries

  All-store :
      (P : String → Type 0) (entries : List (String × V)) (key : String) (value : V)
      → P key
      → All (λ (e : String × V). P e.0) entries
      → All (λ (e : String × V). P e.0) (store entries key value)
  unfolding store
  All-store P [] key value p h = (p, tt)
  All-store P (entry ∷ rest) key value p (q, h) = elim (Bool-cases (entry.0 == key)) [
    | inl same ↦ rw same (p, h)
    | inr other ↦ elim (Bool-cases (before key entry.0)) [
      | inl first ↦ rw (other, first) (p, (q, h))
      | inr later ↦ rw (other, later) (q, All-store P rest key value p h)
    ]
  ]

  pub All-before :
      (a b : String) (entries : List (String × V))
      → before a b ≡ true
      → All (λ (e : String × V). before b e.0 ≡ true) entries
      → All (λ (e : String × V). before a e.0 ≡ true) entries
  All-before a b [] lt h = tt
  All-before a b (entry ∷ rest) lt (p, h) =
      (before_trans a b entry.0 lt p, All-before a b rest lt h)

  Ascends-store :
      (entries : List (String × V)) (key : String) (value : V)
      → Ascends entries
      → Ascends (store entries key value)
  unfolding store
  Ascends-store [] key value h = (tt, tt)
  Ascends-store (entry ∷ rest) key value (lower, h) = elim (Bool-cases (entry.0 == key)) [
    | inl same ↦ rw same (rw (← (eq_iff entry.0 key).0 same) lower, h)
    | inr other ↦ elim (Bool-cases (before key entry.0)) [
      | inl first ↦ rw (other, first) ((first, All-before key entry.0 rest first lower), (lower, h))
      | inr later ↦
          rw (other, later)
            (
              All-store (λ k. before entry.0 k ≡ true) rest key value
                  (ground (arith, before_total entry.0 key, eq_iff entry.0 key)) lower,
              Ascends-store rest key value h,
            )
    ]
  ]

  pub empty-IsOrdered : IsOrdered (empty {V = V})
  unfolding empty
  empty-IsOrdered = record { ascends = tt }

  pub put-IsOrdered :
      (m : GoMap V) (key : String) (value : V) → IsOrdered m → IsOrdered (put m key value)
  unfolding put
  put-IsOrdered m key value h = record { ascends = Ascends-store m.entries key value h.ascends }

  -- A key before every key of a list is not among them.
  find-before :
      (key : String) (entries : List (String × V))
      → All (λ (e : String × V). before key e.0 ≡ true) entries
      → find entries key ≡ none
  unfolding find
  find-before key [] h = refl
  find-before key (entry ∷ rest) (p, h) =
      ground (arith, find-before key rest h, eq_iff entry.0 key, before_irrefl key)

  -- m[k] = v for each entry in turn
  unfoldable pub put_all : GoMap V → List (String × V) → GoMap V
  put_all m [] = m
  put_all m (entry ∷ rest) = put_all (put m entry.0 entry.1) rest

  abbrev pub or_else : Option V → Option V → Option V
  or_else (some v) other = some v
  or_else none other = other

  get-put_all :
      (entries : List (String × V)) (m : GoMap V) (key : String)
      → Ascends entries
      → get (put_all m entries) key ≡ or_else (find entries key) (get m key)
  unfolding put_all find
  get-put_all [] m key h = refl
  get-put_all (entry ∷ rest) m key (lower, h) = elim (Bool-cases (entry.0 == key)) [
    | inl same ↦ rw same (
        get-put_all rest (put m entry.0 entry.1) key h
        ∙ ground (
          arith,
          find-before entry.0 rest lower,
          eq_iff entry.0 key,
          get-put m entry.0 key entry.1,
        ))
    | inr other ↦ rw other (
        get-put_all rest (put m entry.0 entry.1) key h
        ∙ ground (arith, get-put m entry.0 key entry.1))
  ]

  -- Writing the entries of an ordered map one by one gives the map.
  pub put_all-entries :
      (m : GoMap V) (key : String) → IsOrdered m → get (put_all empty m.entries) key ≡ get m key
  unfolding get empty find
  put_all-entries m key h = get-put_all m.entries empty key h.ascends ∙ ground arith

  pub put_all-IsOrdered :
      (entries : List (String × V)) (m : GoMap V) → IsOrdered m → IsOrdered (put_all m entries)
  unfolding put_all
  put_all-IsOrdered [] m h = h
  put_all-IsOrdered (entry ∷ rest) m h =
      put_all-IsOrdered rest (put m entry.0 entry.1) (put-IsOrdered m entry.0 entry.1 h)
