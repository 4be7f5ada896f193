-- ===== src/Base/Sort.antt =====
-- `sort.Slice` by insertion. It is called with orders that tell any two elements apart, for which
-- every sort gives one result.
pub mod Sorted
use Prim.Native.Nat.{Ordering}
use Prim.Native.String.{String, compare}
use mathlib.Core.Bool.{Bool, true, false}
use mathlib.Core.List.{List, [], ◌∷◌}
use eudi_api_registration.Base.Tests.{if◌then◌else◌}

-- `<` on strings
abbrev pub before : String → String → Bool
before j k = elim (compare j k) [ Ordering.lt ↦ true | _ ↦ false ]

module _ {ℓ} {A : Type ℓ} (less : A → A → Bool) where
  unfoldable pub insert_sorted : A → List A → List A
  insert_sorted a [] = a ∷ []
  insert_sorted a (x ∷ xs) =
      let rest = insert_sorted a xs in if less x a then x ∷ rest else a ∷ x ∷ xs

  unfoldable pub sort : List A → List A
  sort [] = []
  sort (x ∷ xs) = insert_sorted x (sort xs)
