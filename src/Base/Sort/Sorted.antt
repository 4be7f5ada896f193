-- ===== src/Base/Sort/Sorted.antt =====
-- What `sort.Slice` gives by a strict weak order: the same elements, in order.
use mathlib.Core.Path.{◌≡◌}
use mathlib.Core.Logic.{inl, inr}
use mathlib.Core.Bool.{Bool, true, false}
use mathlib.Core.List.{List, [], ◌∷◌, Perm}
use mathlib.Core.List.Perm
use eudi_api_registration.Base.Tests.{Bool-cases}
use eudi_api_registration.Base.Lists.{All}
use eudi_api_registration.Base.Sort.{insert_sorted, sort}

module _ {ℓ} {A : Type ℓ} (less : A → A → Bool) where
  -- No element stands before one that is less.
  abbrev pub IsSorted : List A → Type 0
  IsSorted [] = Unit
  IsSorted (x ∷ xs) = All (λ y. less y x ≡ false) xs × IsSorted xs

  insert_sorted-perm : (a : A) (xs : List A) → Perm (insert_sorted less a xs) (a ∷ xs)
  unfolding insert_sorted
  insert_sorted-perm a [] = Perm.refl _
  insert_sorted-perm a (x ∷ xs) = elim (Bool-cases (less x a)) [
    | inl later ↦ rw later (Perm.trans (Perm.cons x (insert_sorted-perm a xs)) (Perm.swap _ _ _))
    | inr here ↦ rw here (Perm.refl _)
  ]

  pub sort-perm : (xs : List A) → Perm (sort less xs) xs
  unfolding sort
  sort-perm [] = Perm.refl _
  sort-perm (x ∷ xs) = Perm.trans (insert_sorted-perm x (sort less xs)) (Perm.cons x (sort-perm xs))

  All-insert_sorted {κ} :
      (P : A → Type κ) (a : A) (xs : List A) → P a → All P xs → All P (insert_sorted less a xs)
  unfolding insert_sorted
  All-insert_sorted P a [] p h = (p, tt)
  All-insert_sorted P a (x ∷ xs) p (q, h) = elim (Bool-cases (less x a)) [
    | inl later ↦ rw later (q, All-insert_sorted P a xs p h)
    | inr here ↦ rw here (p, (q, h))
  ]

  module _ (asym : (a b : A) → less a b ≡ true → less b a ≡ false)
      (neg_trans : (a b c : A) → less b a ≡ false → less c b ≡ false → less c a ≡ false) where
    All-lower :
        (a x : A) (xs : List A)
        → less x a ≡ false
        → All (λ y. less y x ≡ false) xs
        → All (λ y. less y a ≡ false) xs
    All-lower a x [] h t = tt
    All-lower a x (y ∷ ys) h (p, t) = (neg_trans a x y h p, All-lower a x ys h t)

    insert_sorted-IsSorted :
        (a : A) (xs : List A) → IsSorted xs → IsSorted (insert_sorted less a xs)
    unfolding insert_sorted
    insert_sorted-IsSorted a [] h = (tt, tt)
    insert_sorted-IsSorted a (x ∷ xs) (lower, h) = elim (Bool-cases (less x a)) [
      | inl later ↦ rw later (
        All-insert_sorted (λ y. less y x ≡ false) a xs (asym x a later) lower,
        insert_sorted-IsSorted a xs h,
      )
      | inr here ↦ rw here ((here, All-lower a x xs here lower), (lower, h))
    ]

    pub sort-IsSorted : (xs : List A) → IsSorted (sort less xs)
    unfolding sort
    sort-IsSorted [] = tt
    sort-IsSorted (x ∷ xs) = insert_sorted-IsSorted x (sort less xs) (sort-IsSorted xs)
