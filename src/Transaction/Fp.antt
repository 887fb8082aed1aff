-- ===== src/Transaction/Fp.antt =====
-- packages/babyjubjub/src/fp.ts, as far as the transactions use it: a field element is a number
-- below the order of the field, made by reduction. How BN.js writes a number into a buffer is a
-- parameter.
use zkopru.Base.{ℕ, ◌≤◌, arith, ◌+◌, ◌*◌, ◌%◌, ◌^◌, ◌<◌, ◌≡◌, Option, some, List, [], ◌∷◌, length}

-- `Fp.ORDER`
unfoldable pub order : ℕ
order = 21888242871839275222246405745257275088548364400416034343698204186575808495617

-- `Fp.from` of a number that is not negative
unfoldable pub from_number : ℕ → ℕ
from_number n = n % order

-- The number that base-16 digits write, two to a byte, after the digits of `n`.
unfoldable pub read_hex : ℕ → List ℕ → ℕ
read_hex n [] = n
read_hex n (b ∷ bs) = read_hex (n * 256 + b) bs

-- `Fp.fromBuffer`
unfoldable pub from_buffer : List ℕ → ℕ
from_buffer buff = from_number (read_hex 0 buff)

-- `toArrayLike(Buffer, 'be', width)` of BN.js, which throws when the number does not fit.
pub record BigNumber : Type 0 where
  pub to_array : ℕ → ℕ → Option (List ℕ)

-- What BN.js documents: a number that fits is written big-endian, in exactly `width` bytes.
pub record IsBigEndian (bn : BigNumber) : Type 0 where
  pub fits :
      (width n : ℕ)
      → n < 256 ^ width
      → (bs : List ℕ) × (bn.to_array width n ≡ some bs) × (length bs ≡ width) × (read_hex 0 bs ≡ n)

pub from_number-small : (n : ℕ) → n < order → from_number n ≡ n
unfolding from_number order
from_number-small n small = omega arith

pub order-big : 65536 ≤ order
unfolding order
order-big = omega arith

pub from_number-le : (n : ℕ) → from_number n ≤ n
unfolding from_number order
from_number-le n = omega arith
