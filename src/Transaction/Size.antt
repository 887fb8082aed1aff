-- ===== src/Transaction/Size.antt =====
-- `txSizeCalculator` of packages/utils/src/index.ts, which the transaction builder estimates the fee
-- with, against the size of the encoding of zk-tx.ts.
use zkopru.Base.{
  ℕ, ◌+◌, ◌*◌, ◌≡◌, refl, Bool, true, false, Option, some, none, List, [], ◌∷◌, length,
  if◌then◌else◌, arith,
}
use zkopru.Transaction.Fp.{BigNumber, IsBigEndian}
use zkopru.Transaction.ZkTx.{ZkTx, ZkOutflow, Memo, PublicData, encode}
use zkopru.Transaction.ZkTx.Encodable.{IsEncodable, outflow_size, swap_size, memo_size, data_size}
use zkopru.Transaction.ZkTx.RoundTrip.{tx_size, length-encode}
use zkopru.Transaction.ZkTx.Writes.{sum_map}

unfoldable pub tx_size_calculator : ℕ → ℕ → ℕ → Bool → Bool → ℕ
tx_size_calculator inflow_num outflow_num cross_layer_outflow_num has_swap no_memo =
    1
    + inflow_num * 32
    + inflow_num * 32
    + 1
    + outflow_num * 32
    + outflow_num * 1
    + cross_layer_outflow_num * 20
    + cross_layer_outflow_num * 32
    + cross_layer_outflow_num * 20
    + cross_layer_outflow_num * 32
    + cross_layer_outflow_num * 32
    + cross_layer_outflow_num * 32
    + 1
    + (if has_swap then 32 else 0)
    + (if no_memo then 0 else 81)
    + 256

abbrev is_some : {A : Type 0} → Option A → Bool
is_some none = false
is_some (some a) = true

abbrev is_none : {A : Type 0} → Option A → Bool
is_none none = true
is_none (some a) = false

-- The notes that leave the rollup.
abbrev cross_layer : List ZkOutflow → ℕ
cross_layer [] = 0
cross_layer (o ∷ os) = (if is_some o.data_of then 1 else 0) + cross_layer os

abbrev HasV1Memo : Option Memo → Type 0
HasV1Memo none = Unit
HasV1Memo (some m) = (m.version ≡ 1) × (length m.content ≡ 81)

inflow_sum : {A : Type 0} (xs : List A) → sum_map (λ x. 64) xs ≡ length xs * 64
inflow_sum [] = refl
inflow_sum (x ∷ xs) = omega (arith, inflow_sum xs)

data_sum : (d : Option PublicData) → data_size d ≡ (if is_some d then 1 else 0) * 168
data_sum none = refl
data_sum (some d) = refl

outflow_sum :
    (os : List ZkOutflow) → sum_map outflow_size os ≡ length os * 33 + cross_layer os * 168
outflow_sum [] = refl
outflow_sum (o ∷ os) = omega (arith, outflow_sum os, data_sum o.data_of)

swap_sum : (s : Option ℕ) → swap_size s ≡ (if is_some s then 32 else 0)
swap_sum none = refl
swap_sum (some s) = refl

memo_sum : (m : Option Memo) → HasV1Memo m → memo_size m ≡ (if is_none m then 0 else 81)
memo_sum none h = refl
memo_sum (some m) (v, l) = rw (v, l)

-- When BN.js writes numbers big-endian in the given width, a transaction whose parts fit their
-- fields, with no memo or a memo of the first version, is encoded in 32 bytes more than
-- `txSizeCalculator` says for its numbers of inflows, outflows and outflows with data: the
-- calculator leaves out the fee.
pub tx_size_calculator-length :
    (bn : BigNumber)
    → IsBigEndian bn
    → (tx : ZkTx) → IsEncodable tx
    → HasV1Memo tx.memo
    → (bs : List ℕ) → encode bn tx ≡ some bs
    → length bs
      ≡ 32
        + tx_size_calculator
            (length tx.inflow)
            (length tx.outflow)
            (cross_layer tx.outflow)
            (is_some tx.swap)
            (is_none tx.memo)
unfolding tx_size_calculator tx_size
tx_size_calculator-length bn big tx ok v1 bs made = omega (
  arith,
  length-encode bn big tx ok bs made,
  inflow_sum tx.inflow,
  outflow_sum tx.outflow,
  swap_sum tx.swap,
  memo_sum tx.memo v1,
)
