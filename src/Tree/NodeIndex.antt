-- ===== src/Tree/NodeIndex.antt =====
-- Node indices, as light-rollup-tree.ts and nullifier-tree.ts compute them with BN.js: the node `k`
-- of the level with `n` levels above it has the index `2 ^ n + k`. Distinct nodes have distinct
-- indices, and `bitLength` reads the level off.
use Prim.Native.Nat.{bit_or, bit_xor}
use zkopru.Base.{ℕ, zero, suc, ◌+◌, ◌/◌, ◌^◌, ◌≤◌, ◌<◌, ◌≡◌, refl, ap, arith}
use zkopru.Base.Bits.{pow_pos, div-pow-suc, bit_or_pow, bit_xor-one, pow-le-bit_or}
use native.Mathlib.Nat.{two-pow-succ, div-le_self}
use zkopru.Tree.Spec.{sibling_of}

-- `new BN(1).shln(depth).or(index)`
abbrev pub node_index : ℕ → ℕ → ℕ
node_index depth index = bit_or (2 ^ depth) index

-- `bitLength` of BN.js
bit_length_fuel : ℕ → ℕ → ℕ
bit_length_fuel zero n = 0
bit_length_fuel (suc fuel) zero = 0
bit_length_fuel (suc fuel) (suc n) = suc (bit_length_fuel fuel (suc n / 2))

unfoldable pub bit_length : ℕ → ℕ
unfolding bit_length_fuel
bit_length n = bit_length_fuel n n

-- The path of a leaf: its node index, shifted by one level after the other.
pub node_index-path :
    (depth i l n : ℕ)
    → i < 2 ^ depth
    → l + n ≡ depth
    → (node_index depth i / 2 ^ l ≡ 2 ^ n + i / 2 ^ l) × (i / 2 ^ l < 2 ^ n)
node_index-path depth i zero n small e =
    let same : n ≡ depth = omega arith in
    rw (bit_or_pow depth i small, same) (omega arith, omega arith)
node_index-path depth i (suc l) n small e =
    let below = node_index-path depth i l (suc n) small (omega arith) in
    let p = div-pow-suc (node_index depth i) l in
    let q = div-pow-suc i l in let pow = two-pow-succ n in (omega arith, omega arith)

-- The index of the other child.
pub bit_xor-sibling : (n k : ℕ) → bit_xor 1 (2 ^ suc n + k) ≡ 2 ^ suc n + sibling_of k
bit_xor-sibling n k = omega (arith, bit_xor-one (2 ^ suc n + k), two-pow-succ n)

pub sibling_of-lt : (n k : ℕ) → k < 2 ^ suc n → sibling_of k < 2 ^ suc n
sibling_of-lt n k h = omega (arith, two-pow-succ n)

pub index_inj : (n m j k : ℕ) → j < 2 ^ n → k < 2 ^ m → 2 ^ n + j ≡ 2 ^ m + k → (n ≡ m) × (j ≡ k)
index_inj zero zero j k p q e = (refl, omega arith)
index_inj zero (suc m) j k p q e = absurd (omega (arith, two-pow-succ m, pow_pos m))
index_inj (suc n) zero j k p q e = absurd (omega (arith, two-pow-succ n, pow_pos n))
index_inj (suc n) (suc m) j k p q e =
    let a = two-pow-succ n in
    let b = two-pow-succ m in
    let (levels, half) = index_inj n m (j / 2) (k / 2) (omega arith) (omega arith) (omega arith) in
    let pow : 2 ^ n ≡ 2 ^ m = ap (λ l. 2 ^ l) levels in (ap suc levels, omega arith)

bit_length_fuel-zero : (fuel : ℕ) → bit_length_fuel fuel 0 ≡ 0
unfolding bit_length_fuel
bit_length_fuel-zero zero = refl
bit_length_fuel-zero (suc fuel) = refl

bit_length_fuel_lem :
    (n fuel v : ℕ) → 2 ^ n ≤ v → v < 2 ^ suc n → v ≤ fuel → bit_length_fuel fuel v ≡ suc n
unfolding bit_length_fuel
bit_length_fuel_lem n fuel zero p q r = absurd (omega (arith, pow_pos n))
bit_length_fuel_lem n zero (suc v) p q r = absurd (omega arith)
bit_length_fuel_lem zero (suc fuel) (suc v) p q r =
    let half : suc v / 2 ≡ 0 = omega arith in rw half (ap suc (bit_length_fuel-zero fuel))
bit_length_fuel_lem (suc n) (suc fuel) (suc v) p q r =
    let a = two-pow-succ n in
    let b = two-pow-succ (suc n) in
    ap suc (bit_length_fuel_lem n fuel (suc v / 2) (omega arith) (omega arith) (omega arith))

pub bit_length-index : (n k : ℕ) → k < 2 ^ n → bit_length (2 ^ n + k) ≡ suc n
unfolding bit_length
bit_length-index n k p =
    bit_length_fuel_lem n (2 ^ n + k) (2 ^ n + k) (omega arith) (omega (arith, two-pow-succ n))
      (omega arith)

bit_length_fuel-le : (n fuel v : ℕ) → v < 2 ^ n → bit_length_fuel fuel v ≤ n
unfolding bit_length_fuel
bit_length_fuel-le n zero v small = omega arith
bit_length_fuel-le n (suc fuel) zero small = omega arith
bit_length_fuel-le zero (suc fuel) (suc v) small = absurd (omega arith)
bit_length_fuel-le (suc n) (suc fuel) (suc v) small =
    let pow = two-pow-succ n in
    let half = bit_length_fuel-le n fuel (suc v / 2) (omega arith) in omega (arith, half)

lt-bit_length_fuel : (n fuel v : ℕ) → 2 ^ n ≤ v → v ≤ fuel → n < bit_length_fuel fuel v
unfolding bit_length_fuel
lt-bit_length_fuel n fuel zero large enough = absurd (omega (arith, pow_pos n))
lt-bit_length_fuel n zero (suc v) large enough = absurd (omega arith)
lt-bit_length_fuel zero (suc fuel) (suc v) large enough = omega arith
lt-bit_length_fuel (suc n) (suc fuel) (suc v) large enough =
    let pow = two-pow-succ n in
    let half = lt-bit_length_fuel n fuel (suc v / 2) (omega arith) (omega arith) in
    omega (arith, half)

-- The index of a node of a tree has no more bits than that of a leaf.
pub bit_length-le :
    (depth leaf k : ℕ) → k < 2 ^ suc depth → bit_length k ≤ bit_length (node_index depth leaf)
unfolding bit_length
bit_length-le depth leaf k small =
    let below = bit_length_fuel-le (suc depth) k k small in
    let leaf_index = node_index depth leaf in
    let above =
      lt-bit_length_fuel depth leaf_index leaf_index (pow-le-bit_or depth leaf) (omega arith) in
    omega (arith, below, above)

-- The indices of the path of a leaf, and of the siblings on it, are indices of the tree.
pub path-lt : (depth i l : ℕ) → i < 2 ^ depth → node_index depth i / 2 ^ l < 2 ^ suc depth
path-lt depth i l small =
    omega (
      arith,
      bit_or_pow depth i small,
      two-pow-succ depth,
      div-le_self (node_index depth i) (2 ^ l),
    )

pub bit_xor-one-lt : (depth k : ℕ) → k < 2 ^ suc depth → bit_xor 1 k < 2 ^ suc depth
bit_xor-one-lt depth k small = omega (arith, bit_xor-one k, two-pow-succ depth)
