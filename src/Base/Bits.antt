-- ===== src/Base/Bits.antt =====
-- `&` and `|` at the masks and shifts of the encoders, as arithmetic.
use yangkv_v.Base.Tests.{◌==◌, ==_iff}
use Prim.Native.Nat.{
  ℕ, zero, suc, ◌+◌, ◌*◌, ◌/◌, ◌%◌, ◌^◌, ◌≤◌, ◌<◌, max, min, bit_and, bit_or, digits,
  bit_or-bitwise, bit_and-bitwise,
}
use mathlib.Core.Path.{◌≡◌, refl, ap}
use mathlib.Core.Bool.{Bool, true, ◌&&◌}
use native.Mathlib.Omega.{arith}
use native.Mathlib.Nat.{pow-suc}

-- A test that a table of bytes passes.
passes : (ℕ → Bool) → ℕ → Bool
passes test zero = true
passes test (suc n) = test n && passes test n

passes_at : (test : ℕ → Bool) (n b : ℕ) → b < n → passes test n ≡ true → test b ≡ true
unfolding passes
passes_at test zero b below h = absurd (omega arith)
passes_at test (suc n) b below h = ground (arith, passes_at test n b)

top_table : passes (λ b. bit_and b 128 == b / 128 * 128) 256 ≡ true
unfolding passes
top_table = refl

pub bit_and_top : (b : ℕ) → b < 256 → bit_and b 128 ≡ b / 128 * 128
bit_and_top b h =
    (==_iff _ (b / 128 * 128)).0 (passes_at (λ b. bit_and b 128 == b / 128 * 128) 256 b h top_table)

-- The laws for the lowest digit, from the definition that the native operations stand for.
module _ (z : ℕ → ℕ) (op : ℕ → ℕ → ℕ) where
  digits_enough : (n m a b : ℕ) → a ≤ n → a ≤ m → digits z op n a b ≡ digits z op m a b
  digits_enough zero zero a b p q = refl
  digits_enough zero (suc m) zero b p q = refl
  digits_enough zero (suc m) (suc a) b p q = absurd (omega arith)
  digits_enough (suc n) zero zero b p q = refl
  digits_enough (suc n) zero (suc a) b p q = absurd (omega arith)
  digits_enough (suc n) (suc m) zero b p q = refl
  digits_enough (suc n) (suc m) (suc a) b p q =
      omega (arith, digits_enough n m (suc a / 2) (b / 2) (omega arith) (omega arith))

pub zero-bit_or : (b : ℕ) → bit_or 0 b ≡ b
zero-bit_or b = bit_or-bitwise 0 b

zero-bit_and : (b : ℕ) → bit_and 0 b ≡ 0
zero-bit_and b = bit_and-bitwise 0 b

bit_and_step : (a b : ℕ) → bit_and a b ≡ min (a % 2) (b % 2) + 2 * bit_and (a / 2) (b / 2)
bit_and_step zero b = omega (zero-bit_and (b / 2), zero-bit_and b, arith)
bit_and_step (suc a) b = omega (
  bit_and-bitwise (suc a / 2) (b / 2),
  bit_and-bitwise (suc a) b,
  arith,
  digits_enough (λ _. 0) min a (suc a / 2) (suc a / 2) (b / 2) (omega arith) (omega arith),
)

low_zero : (n a : ℕ) → a ≤ n → bit_and a 0 ≡ 0
low_zero n zero h = zero-bit_and 0
low_zero zero (suc a) h = absurd (omega arith)
low_zero (suc n) (suc a) h =
    omega (arith, bit_and_step (suc a) 0, low_zero n (suc a / 2) (omega arith))

and_seven : (a : ℕ) → bit_and a 7 ≡ a % 8
and_seven a = omega (
  arith,
  bit_and_step a 7,
  bit_and_step (a / 2) 3,
  bit_and_step (a / 2 / 2) 1,
  low_zero (a / 2 / 2 / 2) (a / 2 / 2 / 2) (omega arith),
)

-- What `v & (B - 1)` keeps of a word of any width.
pub bit_and_low : (a : ℕ) → bit_and a 127 ≡ a % 128
bit_and_low a = omega (
  arith,
  bit_and_step a 127,
  bit_and_step (a / 2) 63,
  bit_and_step (a / 2 / 2) 31,
  bit_and_step (a / 2 / 2 / 2) 15,
  and_seven (a / 2 / 2 / 2 / 2),
)

bit_or_step : (a b : ℕ) → bit_or a b ≡ bit_or (a / 2) (b / 2) * 2 + max (a % 2) (b % 2)
bit_or_step zero b = omega (arith, zero-bit_or b, zero-bit_or (b / 2))
bit_or_step (suc a) b = omega (
  arith,
  bit_or-bitwise (suc a) b,
  bit_or-bitwise (suc a / 2) (b / 2),
  digits_enough (λ b. b) max a (suc a / 2) (suc a / 2) (b / 2) (omega arith) (omega arith),
)

bit_or_zero_fuel : (n a : ℕ) → a ≤ n → bit_or a 0 ≡ a
bit_or_zero_fuel n zero h = refl
bit_or_zero_fuel zero (suc a) h = absurd (omega arith)
bit_or_zero_fuel (suc n) (suc a) h =
    omega (arith, bit_or_step (suc a) 0, bit_or_zero_fuel n (suc a / 2) (omega arith))

bit_or_zero : (a : ℕ) → bit_or a 0 ≡ a
bit_or_zero a = bit_or_zero_fuel a a (omega arith)

or_top_1 : (a : ℕ) → bit_or a 1 ≡ a / 2 * 2 + 1
or_top_1 a = omega (arith, bit_or_step a 1, bit_or_zero (a / 2))

or_top_8 : (a : ℕ) → bit_or a 8 ≡ a / 16 * 16 + 8 + a % 8
or_top_8 a = omega (
  arith,
  bit_or_step a 8,
  bit_or_step (a / 2) 4,
  bit_or_step (a / 2 / 2) 2,
  or_top_1 (a / 2 / 2 / 2),
)

or_top : (a : ℕ) → bit_or a 128 ≡ a / 256 * 256 + 128 + a % 128
or_top a = omega (
  arith,
  bit_or_step a 128,
  bit_or_step (a / 2) 64,
  bit_or_step (a / 2 / 2) 32,
  bit_or_step (a / 2 / 2 / 2) 16,
  or_top_8 (a / 2 / 2 / 2 / 2),
)

-- What `*(ptr++) = v | B` stores in an unsigned char.
pub bit_or_top : (v : ℕ) → bit_or v 128 % 256 ≡ v % 128 + 128
bit_or_top v = omega (arith, or_top v)

-- What `info & 255` keeps.
pub bit_and_byte : (a : ℕ) → bit_and a 255 ≡ a % 256
bit_and_byte a = omega (arith, bit_and_step a 255, bit_and_low (a / 2))

-- A flag in the lowest bit of a byte that is clear.
pub bit_or_flag : (a t : ℕ) → t ≤ 1 → bit_or (a * 256) t ≡ a * 256 + t
bit_or_flag a zero h = omega (arith, bit_or_zero (a * 256))
bit_or_flag a (suc zero) h = omega (arith, or_top_1 (a * 256))
bit_or_flag a (suc (suc t)) h = absurd (omega arith)

-- `|` of a value below a power of two and a multiple of it is their sum.
pub bit_or_disjoint : (s a b : ℕ) → a < 2 ^ s → bit_or a (b * 2 ^ s) ≡ a + b * 2 ^ s
bit_or_disjoint zero a b h =
    let e : a ≡ 0 = omega arith in rw e (omega (arith, zero-bit_or (b * 1)))
bit_or_disjoint (suc s) a b h = omega (
  arith,
  rw half_double at (bit_or_step a (b * 2 ^ suc s)),
  bit_or_disjoint s (a / 2) b (omega (arith, pow-suc 2 s)),
  pow-suc 2 s,
  half_double,
  ap (λ (t : ℕ). b * t) (pow-suc 2 s),
)
  where
    half_double : b * 2 ^ suc s / 2 ≡ b * 2 ^ s
    half_double = omega (arith, ap (λ (t : ℕ). b * t) (pow-suc 2 s))
