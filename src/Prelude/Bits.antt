-- ===== src/Prelude/Bits.antt =====
-- Single bits of a number, as the masks 2 and 4 pick them.
use Prim.Native.Nat.{ℕ, zero, suc, ◌+◌, ◌*◌, ◌/◌, ◌%◌, ◌≤◌, min, bit_and, digits, bit_and-bitwise}
use mathlib.Core.Path.{◌≡◌, refl}
use native.Mathlib.Omega.{arith}

-- What `bit_and` stands for: the digits in base two, on enough fuel.
abbrev masked : ℕ → ℕ → ℕ → ℕ
masked fuel x mask = digits (λ _. zero) min fuel x mask

masked_any_fuel : (f g x mask : ℕ) → x ≤ f → x ≤ g → masked f x mask ≡ masked g x mask
masked_any_fuel zero zero x mask p q = refl
masked_any_fuel zero (suc g) zero mask p q = refl
masked_any_fuel zero (suc g) (suc x) mask p q = absurd (omega arith)
masked_any_fuel (suc f) zero zero mask p q = refl
masked_any_fuel (suc f) zero (suc x) mask p q = absurd (omega arith)
masked_any_fuel (suc f) (suc g) zero mask p q = refl
masked_any_fuel (suc f) (suc g) (suc x) mask p q =
    omega (arith, masked_any_fuel f g (suc x / 2) (mask / 2) (omega arith) (omega arith))

low_digit : (x mask : ℕ) → bit_and x mask ≡ bit_and (x / 2) (mask / 2) * 2 + min (x % 2) (mask % 2)
low_digit zero mask = omega (arith, bit_and-bitwise 0 mask, bit_and-bitwise 0 (mask / 2))
low_digit (suc x) mask = omega (
  arith,
  bit_and-bitwise (suc x) mask,
  bit_and-bitwise (suc x / 2) (mask / 2),
  masked_any_fuel x (suc x / 2) (suc x / 2) (mask / 2) (omega arith) (omega arith),
)

no_mask : (bound x : ℕ) → x ≤ bound → bit_and x 0 ≡ 0
no_mask bound zero h = refl
no_mask zero (suc x) h = absurd (omega arith)
no_mask (suc bound) (suc x) h =
    omega (arith, low_digit (suc x) 0, no_mask bound (suc x / 2) (omega arith))

pub bit_and_two : (x : ℕ) → bit_and x 2 ≡ x / 2 % 2 * 2
bit_and_two x =
    omega (arith, low_digit x 2, low_digit (x / 2) 1, no_mask (x / 2 / 2) (x / 2 / 2) (omega arith))

pub bit_and_four : (x : ℕ) → bit_and x 4 ≡ x / 4 % 2 * 4
bit_and_four x = omega (
  arith,
  low_digit x 4,
  low_digit (x / 2) 2,
  low_digit (x / 2 / 2) 1,
  no_mask (x / 2 / 2 / 2) (x / 2 / 2 / 2) (omega arith),
)
