-- ===== src/Base/Bits.antt =====
-- The bit operations of BN.js that the trees use, on tree indices: `1 << depth | index` and
-- `1 ^ index`. They are stated for every width, from the digit recursion of the native numbers.
use Prim.Native.Nat.{
  ℕ, zero, suc, ◌+◌, ◌-◌, ◌*◌, ◌/◌, ◌%◌, ◌^◌, ◌≤◌, ◌<◌, max, bit_or, bit_xor, digits,
  bit_or-bitwise, bit_xor-bitwise, differ,
}
use mathlib.Core.Path.{◌≡◌, refl}
use native.Mathlib.Omega.{arith}
use native.Mathlib.Nat.{two-pow-succ, div-div-eq-div-mul, pow-suc}

abbrev or_digits : ℕ → ℕ → ℕ → ℕ
or_digits n a b = digits (λ b. b) max n a b

or_digits_fuel : (n m a b : ℕ) → a ≤ n → a ≤ m → or_digits n a b ≡ or_digits m a b
or_digits_fuel zero zero a b p q = refl
or_digits_fuel zero (suc m) zero b p q = refl
or_digits_fuel zero (suc m) (suc a) b p q = absurd (omega arith)
or_digits_fuel (suc n) zero zero b p q = refl
or_digits_fuel (suc n) zero (suc a) b p q = absurd (omega arith)
or_digits_fuel (suc n) (suc m) zero b p q = refl
or_digits_fuel (suc n) (suc m) (suc a) b p q =
    omega (arith, or_digits_fuel n m (suc a / 2) (b / 2) (omega arith) (omega arith))

zero-bit_or : (b : ℕ) → bit_or 0 b ≡ b
zero-bit_or b = bit_or-bitwise 0 b

bit_or_step : (a b : ℕ) → 1 ≤ a → bit_or a b ≡ bit_or (a / 2) (b / 2) * 2 + max (a % 2) (b % 2)
bit_or_step zero b h = absurd (omega arith)
bit_or_step (suc a) b h = omega (
  arith,
  bit_or-bitwise (suc a) b,
  bit_or-bitwise (suc a / 2) (b / 2),
  or_digits_fuel a (suc a / 2) (suc a / 2) (b / 2) (omega arith) (omega arith),
)

bit_or_double : (a b c : ℕ) → 1 ≤ a → c ≡ a + a → bit_or c b ≡ bit_or a (b / 2) * 2 + b % 2
bit_or_double a b c h e =
    let half : c / 2 ≡ a = omega arith in rw (← half) (omega (arith, bit_or_step c b (omega arith)))

pub pow_pos : (d : ℕ) → 1 ≤ 2 ^ d
pow_pos zero = omega arith
pow_pos (suc d) = omega (arith, two-pow-succ d, pow_pos d)

pub div-pow-suc : (n d : ℕ) → n / 2 ^ suc d ≡ n / 2 ^ d / 2
div-pow-suc n d = rw (div-div-eq-div-mul n (2 ^ d) 2, pow-suc 2 d)

-- `new BN(1).shln(d).or(i)` is `2 ^ d + i` for an index of a tree of depth `d`.
pub bit_or_pow : (d i : ℕ) → i < 2 ^ d → bit_or (2 ^ d) i ≡ 2 ^ d + i
bit_or_pow zero zero h = refl
bit_or_pow zero (suc i) h = absurd (omega arith)
bit_or_pow (suc d) i h = omega (
  arith,
  two-pow-succ d,
  bit_or_double (2 ^ d) i (2 ^ suc d) (pow_pos d) (two-pow-succ d),
  bit_or_pow d (i / 2) (omega (arith, two-pow-succ d)),
)

-- A disjunction is no less than its first operand, for a power of two.
pub pow-le-bit_or : (d i : ℕ) → 2 ^ d ≤ bit_or (2 ^ d) i
pow-le-bit_or zero i = omega (arith, bit_or_step 1 i (omega arith))
pow-le-bit_or (suc d) i = omega (
  arith,
  two-pow-succ d,
  bit_or_double (2 ^ d) i (2 ^ suc d) (pow_pos d) (two-pow-succ d),
  pow-le-bit_or d (i / 2),
)

differ-one : (n : ℕ) → n < 2 → differ 1 n ≡ 1 - n
differ-one zero h = refl
differ-one (suc zero) h = refl
differ-one (suc (suc n)) h = absurd (omega arith)

-- `new BN(1).xor(b)` flips the lowest bit.
pub bit_xor-one : (b : ℕ) → bit_xor 1 b ≡ b / 2 * 2 + (1 - b % 2)
bit_xor-one b = omega (arith, bit_xor-bitwise 1 b, differ-one (b % 2) (omega arith))
