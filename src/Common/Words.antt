-- ===== src/Common/Words.antt =====
-- What the program uses of `u32`: the top bit, set by `| 0x8000_0000` and tested by
-- `& 0x8000_0000`, and the big-endian bytes.
use Prim.Native.Nat.{
  ℕ, zero, suc, ◌+◌, ◌*◌, ◌/◌, ◌%◌, ◌≤◌, ◌<◌, min, max, bit_and, bit_or, digits, bit_and-bitwise,
  bit_or-bitwise,
}
use mathlib.Core.Path.{◌≡◌, refl, ap}
use mathlib.Core.List.{[], ◌∷◌}
use mathlib.Core.Logic.{◌↔◌}
use mathlib.Core.Bool.{Bool, true, not}
use native.Mathlib.Omega.{arith}
use morpheum_signing.Common.Tests.{ltb, leb, ◌==◌, if◌then◌else◌}
use morpheum_signing.Common.Lists.{Bytes}

-- `u32::to_be_bytes`
unfoldable pub to_be_bytes : ℕ → Bytes
to_be_bytes n = n / 0x1000000 % 256 ∷ n / 0x10000 % 256 ∷ n / 0x100 % 256 ∷ n % 256 ∷ []

-- More digits than the first number has make no difference.
module _ (rest : ℕ → ℕ) (f : ℕ → ℕ → ℕ) where
  digits_enough : (n m a b : ℕ) → a ≤ n → a ≤ m → digits rest f n a b ≡ digits rest f m a b
  digits_enough zero zero a b p q = refl
  digits_enough zero (suc m) zero b p q = refl
  digits_enough zero (suc m) (suc a) b p q = absurd (omega arith)
  digits_enough (suc n) zero zero b p q = refl
  digits_enough (suc n) zero (suc a) b p q = absurd (omega arith)
  digits_enough (suc n) (suc m) zero b p q = refl
  digits_enough (suc n) (suc m) (suc a) b p q =
      omega (arith, digits_enough n m (suc a / 2) (b / 2) (omega arith) (omega arith))

-- The lowest digit of each operation, for a first number that is not 0.
or_digit : (a b : ℕ) → bit_or (suc a) b ≡ bit_or (suc a / 2) (b / 2) * 2 + max (suc a % 2) (b % 2)
or_digit a b = omega (
  arith,
  bit_or-bitwise (suc a) b,
  bit_or-bitwise (suc a / 2) (b / 2),
  digits_enough (λ x. x) max a (suc a / 2) (suc a / 2) (b / 2) (omega arith) (omega arith),
)

and_digit :
    (a b : ℕ) → bit_and (suc a) b ≡ bit_and (suc a / 2) (b / 2) * 2 + min (suc a % 2) (b % 2)
and_digit a b = omega (
  arith,
  bit_and-bitwise (suc a) b,
  bit_and-bitwise (suc a / 2) (b / 2),
  digits_enough (λ x. 0) min a (suc a / 2) (suc a / 2) (b / 2) (omega arith) (omega arith),
)

halved : (b : ℕ) → b * 2 / 2 ≡ b
halved b = omega arith

or_even : (a b : ℕ) → bit_or (suc a) (b * 2) ≡ bit_or (suc a / 2) b * 2 + suc a % 2
or_even a b = omega (arith, or_digit a (b * 2), ap (bit_or (suc a / 2)) (halved b))

and_even : (a b : ℕ) → bit_and (suc a) (b * 2) ≡ bit_and (suc a / 2) b * 2
and_even a b = omega (arith, and_digit a (b * 2), ap (bit_and (suc a / 2)) (halved b))

-- `1 << k`
power : ℕ → ℕ
power zero = 1
power (suc k) = power k * 2

power_pos : (k : ℕ) → 0 < power k
unfolding power
power_pos zero = omega arith
power_pos (suc k) = omega (arith, power_pos k)

-- A number below the bit does not have it, and one from there up to its double has.
or_bit_unset : (k n : ℕ) → n < power k → bit_or n (power k) ≡ n + power k
unfolding power
or_bit_unset k zero h = omega (arith, bit_or-bitwise 0 (power k))
or_bit_unset zero (suc n) h = absurd (omega arith)
or_bit_unset (suc k) (suc n) h =
    omega (arith, or_even n (power k), or_bit_unset k (suc n / 2) (omega arith))

or_bit_set : (k n : ℕ) → power k ≤ n → n < power k * 2 → bit_or n (power k) ≡ n
unfolding power
or_bit_set zero zero h g = absurd (omega arith)
or_bit_set (suc k) zero h g = absurd (omega (arith, power_pos k))
or_bit_set zero (suc zero) h g = refl
or_bit_set zero (suc (suc n)) h g = absurd (omega arith)
or_bit_set (suc k) (suc n) h g =
    omega (arith, or_even n (power k), or_bit_set k (suc n / 2) (omega arith) (omega arith))

and_bit_unset : (k n : ℕ) → n < power k → bit_and n (power k) ≡ 0
unfolding power
and_bit_unset k zero h = omega (arith, bit_and-bitwise 0 (power k))
and_bit_unset zero (suc n) h = absurd (omega arith)
and_bit_unset (suc k) (suc n) h =
    omega (arith, and_even n (power k), and_bit_unset k (suc n / 2) (omega arith))

and_bit_set : (k n : ℕ) → power k ≤ n → n < power k * 2 → bit_and n (power k) ≡ power k
unfolding power
and_bit_set zero zero h g = absurd (omega arith)
and_bit_set (suc k) zero h g = absurd (omega (arith, power_pos k))
and_bit_set zero (suc zero) h g = refl
and_bit_set zero (suc (suc n)) h g = absurd (omega arith)
and_bit_set (suc k) (suc n) h g =
    omega (arith, and_even n (power k), and_bit_set k (suc n / 2) (omega arith) (omega arith))

-- the top bit of a `u32`
unfoldable pub with_top_bit : ℕ → ℕ
with_top_bit n = bit_or n 0x8000_0000

unfoldable pub has_top_bit : ℕ → Bool
has_top_bit n = not (bit_and n 0x8000_0000 == 0)

-- The top bit is set by adding its value, unless it is set.
pub with_top_bit_lem :
    (n : ℕ)
    → n < 0x1_0000_0000
    → with_top_bit n ≡ (if ltb n 0x8000_0000 then n + 0x8000_0000 else n)
unfolding with_top_bit power
with_top_bit_lem n h = ground (arith, or_bit_unset 31 n, or_bit_set 31 n)

-- It is set from its value on.
pub has_top_bit_lem : (n : ℕ) → n < 0x1_0000_0000 → has_top_bit n ≡ leb 0x8000_0000 n
unfolding has_top_bit power
has_top_bit_lem n h = ground (arith, and_bit_unset 31 n, and_bit_set 31 n)

-- Two numbers agree with the top bit set exactly when their lower 31 bits agree.
pub with_top_bit_iff :
    (n m : ℕ)
    → n < 0x1_0000_0000
    → m < 0x1_0000_0000
    → (with_top_bit n ≡ with_top_bit m) ↔ (n % 0x8000_0000 ≡ m % 0x8000_0000)
with_top_bit_iff n m h g = ground (arith, with_top_bit_lem n h, with_top_bit_lem m g)

pub has_top_bit-with_top_bit : (n : ℕ) → n < 0x1_0000_0000 → has_top_bit (with_top_bit n) ≡ true
has_top_bit-with_top_bit n h =
    ground (arith, with_top_bit_lem n h, has_top_bit_lem (with_top_bit n))
