-- ===== src/Fake/Ids.antt =====
-- The identifiers that `nextID` mints (internal/registrydb/fake.go).
use text.Mathlib.TextLemmas.{append_cancel_left}
use eudi_api_registration.Base.{ℕ, zero, suc, ◌≡◌}
use eudi_api_registration.Digits.{format_012d, format_012d_injective}
use eudi_api_registration.Fake.{Fake, fake_id, next_id}

pub fake_id_injective : (m n : ℕ) → fake_id m ≡ fake_id n → m ≡ n
unfolding fake_id
fake_id_injective m n h =
    format_012d_injective m n
      (append_cancel_left "01JZXREGDBFAKE" (format_012d m) (format_012d n) h)

-- The store after a number of calls of `nextID`.
pub after_calls : ℕ → Fake → Fake
after_calls zero f = f
after_calls (suc n) f = (next_id (after_calls n f)).1
