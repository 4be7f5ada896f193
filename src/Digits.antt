-- ===== src/Digits.antt =====
-- `fmt.Sprintf("%012d", n)`: decimal digits, at least twelve of them (internal/registrydb/fake.go).
use Prim.Native.Char.{Char, code}
use Prim.Native.String.{[], ◌∷◌}
use eudi_api_registration.Base.{
  ℕ, zero, suc, ◌+◌, ◌-◌, ◌*◌, ◌/◌, ◌%◌, ◌^◌, ◌≤◌, ◌<◌, String, ◌≡◌, refl, sym, ◌∙◌, arith, ltb,
  if◌then◌else◌, Bool-cases, inl, inr, ap,
}
use eudi_api_registration.Text.{char_at_or}
use native.Mathlib.Nat.{pow-suc}

unfoldable pub digit : ℕ → Char
digit n = char_at_or "0123456789" n "0"

-- The last `w` digits of `n`, written before `rest`.
unfoldable pub fixed : ℕ → ℕ → String → String
fixed zero n rest = rest
fixed (suc w) n rest = fixed w (n / 10) (digit (n % 10) ∷ rest)

-- The number of digits of `n`, on fuel.
unfoldable pub width : ℕ → ℕ → ℕ
width zero n = 1
width (suc f) n = let more = width f (n / 10) in if ltb n 10 then 1 else suc more

unfoldable pub format_012d : ℕ → String
format_012d n = if ltb n (10 ^ 12) then fixed 12 n "" else fixed (width n n) n ""

-- `%d`
unfoldable pub format_decimal : ℕ → String
unfolding digit fixed width
format_decimal n = fixed (width n n) n ""

-- The number that digits stand for, after those read so far.
value : ℕ → String → ℕ
value acc [] = acc
value acc (c ∷ s) = value (acc * 10 + (code c - 48)) s

code-digit : (d : ℕ) → d < 10 → code (digit d) - 48 ≡ d
unfolding digit
code-digit zero h = refl
code-digit (suc zero) h = refl
code-digit (suc (suc zero)) h = refl
code-digit (suc (suc (suc zero))) h = refl
code-digit (suc (suc (suc (suc zero)))) h = refl
code-digit (suc (suc (suc (suc (suc zero))))) h = refl
code-digit (suc (suc (suc (suc (suc (suc zero)))))) h = refl
code-digit (suc (suc (suc (suc (suc (suc (suc zero))))))) h = refl
code-digit (suc (suc (suc (suc (suc (suc (suc (suc zero)))))))) h = refl
code-digit (suc (suc (suc (suc (suc (suc (suc (suc (suc zero))))))))) h = refl
code-digit (suc (suc (suc (suc (suc (suc (suc (suc (suc (suc d)))))))))) h = absurd (omega arith)

value-fixed : (w n : ℕ) (rest : String) → n < 10 ^ w → value 0 (fixed w n rest) ≡ value n rest
unfolding fixed value
value-fixed zero n rest h = ap (λ (m : ℕ). value m rest) (omega arith)
value-fixed (suc w) n rest h =
    value-fixed w (n / 10) (digit (n % 10) ∷ rest) (omega (arith, pow-suc 10 w))
    ∙ ap (λ (m : ℕ). value m rest) (omega (arith, code-digit (n % 10) (omega arith)))

lt-pow-width : (f n : ℕ) → n ≤ f → n < 10 ^ width f n
unfolding width
lt-pow-width zero n h = omega arith
lt-pow-width (suc f) n h = ground (arith, lt-pow-width f (n / 10), pow-suc 10 (width f (n / 10)))

value-format_012d : (n : ℕ) → value 0 (format_012d n) ≡ n
unfolding format_012d value
value-format_012d n = elim (Bool-cases (ltb n (10 ^ 12))) [
  | inl short ↦ rw short (value-fixed 12 n "" (ground arith))
  | inr long ↦ rw long (value-fixed (width n n) n "" (lt-pow-width n n (omega arith)))
]

-- Two numbers are printed alike only if they are equal.
pub format_012d_injective : (m n : ℕ) → format_012d m ≡ format_012d n → m ≡ n
format_012d_injective m n h = sym (value-format_012d m) ∙ ap (value 0) h ∙ value-format_012d n

format_012d_42 : format_012d 42 ≡ "000000000042"
unfolding format_012d fixed digit
format_012d_42 = refl
