-- ===== src/Base/Order.antt =====
-- The byte order of texts is a strict total order, as `before` tests it.
use Prim.Native.Nat.{Ordering}
use Prim.Native.String.compare as compare_laws
use Prim.Native.String.{String, [], ◌∷◌, compare}
use mathlib.Core.Path.{◌≡◌}
use mathlib.Core.Logic.{◌⊎◌}
use mathlib.Core.Bool.{true, false}
use native.Mathlib.Omega.{arith}
use text.Mathlib.TextEquality.{path_by_compare}
use text.Mathlib.TextPositions.{compare_refl}
use eudi_api_registration.Base.Sort.{before}

compare_trans :
    (a b c : String)
    → compare a b ≡ Ordering.lt
    → compare b c ≡ Ordering.lt
    → compare a c ≡ Ordering.lt
compare_trans [] [] c p q = q
compare_trans [] (x ∷ b) [] p q = ground (arith, compare_laws.cons-nil x b)
compare_trans [] (x ∷ b) (y ∷ c) p q = compare_laws.nil-cons y c
compare_trans (x ∷ a) [] c p q = ground (arith, compare_laws.cons-nil x a)
compare_trans (x ∷ a) (y ∷ b) [] p q = ground (arith, compare_laws.cons-nil y b)
compare_trans (x ∷ a) (y ∷ b) (z ∷ c) p q = ground (
  arith,
  compare_laws.cons-cons x y a b,
  compare_laws.cons-cons y z b c,
  compare_laws.cons-cons x z a c,
  compare_trans a b c,
)

compare_gt : (a b : String) → compare a b ≡ Ordering.gt → compare b a ≡ Ordering.lt
compare_gt [] [] p = ground (arith, compare_refl "")
compare_gt [] (x ∷ b) p = ground (arith, compare_laws.nil-cons x b)
compare_gt (x ∷ a) [] p = compare_laws.nil-cons x a
compare_gt (x ∷ a) (y ∷ b) p =
    ground (arith, compare_laws.cons-cons x y a b, compare_laws.cons-cons y x b a, compare_gt a b)

pub before_trans : (a b c : String) → before a b ≡ true → before b c ≡ true → before a c ≡ true
before_trans a b c p q = ground (arith, compare_trans a b c)

pub before_irrefl : (a : String) → before a a ≡ false
before_irrefl a = ground (arith, compare_refl a)

pub before_total : (a b : String) → (a ≡ b) ⊎ (before a b ≡ true) ⊎ (before b a ≡ true)
before_total a b = ground (arith, path_by_compare a b, compare_gt a b)
