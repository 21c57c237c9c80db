-- ===== src/Base/Decimal.antt =====
-- `std::to_string`: the decimal digits of a number.
use Prim.Native.Nat.{ℕ, zero, suc, ◌+◌, ◌/◌, ◌%◌}
use mathlib.Core.Path.{◌≡◌, refl}
use mathlib.Core.Bool.{Bool, true, ◌&&◌}
use mathlib.Core.List.{[], ◌∷◌, ◌++◌}
use mathlib.Core.Logic.{inl, inr}
use native.Mathlib.Omega.{arith}
use hai_code.Base.Tests.{ltb, leb, Bool-cases, if◌then◌else◌}
use hai_code.Base.Text.{Bytes}
use hai_code.Base.Lists.{all, all-append}
use hai_code.Base.Int.{ℤ, pos, negsuc}

decimal : ℕ → ℕ → Bytes
decimal zero n = []
decimal (suc fuel) n =
    let rest = decimal fuel (n / 10) in
    if ltb n 10 then (48 + n) ∷ [] else rest ++ (48 + n % 10) ∷ []

-- Of a 64-bit number, which has at most 20 digits.
unfoldable pub to_string : ℕ → Bytes
unfolding decimal
to_string n = decimal 20 n

-- Of a signed number.
unfoldable pub int_to_string : ℤ → Bytes
unfolding to_string
int_to_string (pos n) = to_string n
int_to_string (negsuc n) = b'-' ∷ to_string (n + 1)

unfoldable pub is_digit : ℕ → Bool
is_digit c = leb 48 c && leb c 57

decimal-digits : (fuel n : ℕ) → all is_digit (decimal fuel n) ≡ true
unfolding decimal is_digit
decimal-digits zero n = refl
decimal-digits (suc fuel) n = ground (
  arith,
  decimal-digits fuel (n / 10),
  all-append is_digit (decimal fuel (n / 10)) ((48 + n % 10) ∷ []),
)

pub to_string-digits : (n : ℕ) → all is_digit (to_string n) ≡ true
unfolding to_string
to_string-digits n = decimal-digits 20 n

append_first : (xs : Bytes) (x : ℕ) → (c : ℕ) × (s : Bytes) × (xs ++ x ∷ [] ≡ c ∷ s)
append_first [] x = (x, [], refl)
append_first (c ∷ xs) x = (c, xs ++ x ∷ [], refl)

decimal_first : (fuel n : ℕ) → (c : ℕ) × (s : Bytes) × (decimal (suc fuel) n ≡ c ∷ s)
unfolding decimal
decimal_first fuel n = elim (Bool-cases (ltb n 10)) [
  | inl e ↦ (48 + n, [], rw e)
  | inr e ↦ rw e (append_first (decimal fuel (n / 10)) (48 + n % 10))
]

-- There is a first digit.
pub to_string_first : (n : ℕ) → (c : ℕ) × (s : Bytes) × (to_string n ≡ c ∷ s)
unfolding to_string
to_string_first n = decimal_first 19 n
