-- ===== src/Validator/Txs.antt =====
-- offchain-tx-validator.ts. A validation of a transaction that the
-- block does not have throws, which returns `none`; a validation that finds nothing carries a reason
-- that it looks for. The database is given by the rows that the queries return.
pub mod Outflows
pub mod References
pub mod Nullifiers
pub mod Swaps
mod Tests
use zkopru.Base.{
  ℕ, zero, suc, ◌+◌, Bool, true, false, not, ◌&&◌, ◌||◌, Option, none, some, Eq, nat_eq, List, [],
  ◌∷◌, ◌==◌, ltb, leb, if◌then◌else◌, ◌>>=◌, length, map, get_elem?,
}
use zkopru.Transaction.ZkTx.{ZkInflow, PublicData, ZkOutflow, ZkTx}
use zkopru.Tree.Hasher.{Hasher}
use zkopru.Tree.SmtSol.{smt_fill}
use zkopru.Validator.Migration.{Code, s1, s2, t1, t2, t3, t4, t5, t6, t7, t8, t9, t10, Validation}

-- A row of the table `TokenRegistry`.
pub record TokenInfo : Type 0 where
  pub is_erc20 : Bool
  pub is_erc721 : Bool

unfoldable pub is_empty : Option PublicData → Bool
is_empty none = true
is_empty (some d) =
    d.to == 0
    && (d.eth == 0 && (d.token_addr == 0 && (d.erc20_amount == 0 && (d.nft == 0 && d.fee == 0))))

unfoldable pub judge_token : PublicData → Option TokenInfo → Option Code
judge_token d none = some t4
judge_token d (some info) =
    if info.is_erc20
    then (if d.nft == 0 then none else some t5)
    else if info.is_erc721
    then (if d.erc20_amount == 0 then (if d.nft == 0 then some t7 else none) else some t6)
    else none

-- The branches without and with a registered token; without data the test of the NFT is `!undefined`.
-- `registry` gives the row of the address made from a field element, which throws when it is none.
unfoldable pub judge_data :
    (ℕ → Option (Option TokenInfo)) → Option PublicData → Option (Option Code)
unfolding judge_token
judge_data registry none = some (some t5)
judge_data registry (some d) =
    if d.token_addr == 0
    then some (if d.nft == 0 then (if d.erc20_amount == 0 then none else some t6) else some t5)
    else (registry d.token_addr >>= λ row. some (judge_token d row))

-- One round of the loop of `validateOutflow`.
unfoldable pub judge_outflow : (ℕ → Option (Option TokenInfo)) → ZkOutflow → Option (Option Code)
unfolding is_empty judge_data
judge_outflow registry o =
    if ltb 2 o.outflow_type
    then some (some t2)
    else if o.outflow_type == 0
    then some (if is_empty o.data_of then none else some t3)
    else judge_data registry o.data_of

-- The early return with a code.
unfoldable pub verdict : Option Code → Option Validation → Option Validation
verdict none rest = rest
verdict (some code) rest = some record { slashable = true; reason = code }

unfoldable pub judge_outflows : (ℕ → Option (Option TokenInfo)) → List ZkOutflow → Option Validation
unfolding verdict
judge_outflows registry [] = some record { slashable = false; reason = t2 }
judge_outflows registry (o ∷ os) =
    let rest = judge_outflows registry os in judge_outflow registry o >>= λ code. verdict code rest

unfoldable pub validate_outflow :
    (ℕ → Option (Option TokenInfo)) → List ZkTx → ℕ → Option Validation
unfolding judge_outflows
validate_outflow registry txs i = get_elem? txs i >>= λ tx. judge_outflows registry tx.outflow

-- `outflow[i].note.eq(expected)` for one of the outflows
unfoldable pub any_note : ℕ → List ZkOutflow → Bool
any_note expected [] = false
any_note expected (o ∷ os) = o.note == expected || any_note expected os

unfoldable pub has_swap : Option ℕ → Bool
has_swap none = false
has_swap (some s) = not (s == 0)

unfoldable pub include_swap_note : ZkTx → ℕ → Bool
unfolding any_note has_swap
include_swap_note tx expected = has_swap tx.swap && any_note expected tx.outflow

-- One round, for a transaction and its swap.
unfoldable pub is_counterpart : ZkTx → ℕ → ZkTx → Option ℕ → Bool
unfolding include_swap_note
is_counterpart a asked b none = false
is_counterpart a asked b (some s) = include_swap_note a s && include_swap_note b asked

-- The loop over the transactions with a swap.
unfoldable pub find_counterpart : ZkTx → ℕ → List ZkTx → Bool
unfolding is_counterpart
find_counterpart a asked [] = false
find_counterpart a asked (b ∷ txs) = is_counterpart a asked b b.swap || find_counterpart a asked txs

unfoldable pub validate_atomic_swap : List ZkTx → ℕ → Option Validation
unfolding find_counterpart
validate_atomic_swap txs i = get_elem? txs i >>= λ a.
    a.swap >>= λ asked. some record { slashable = not (find_counterpart a asked txs); reason = t8 }

unfoldable pub thrown : {A : Type 0} → Option A → Bool
thrown none = true
thrown (some a) = false

-- `exist` and `non_exist` are the constants of smt-sol.ts.
unfoldable pub validate_used_nullifier :
    ℕ → ℕ → Hasher ℕ → ℕ → List ZkTx → ℕ → ℕ → List ℕ → Option Validation
validate_used_nullifier exist non_exist hasher nullifier_root txs i j siblings =
    get_elem? txs i >>= λ tx. get_elem? tx.inflow j >>= λ inflow. some record {
      slashable = thrown (smt_fill exist non_exist hasher nullifier_root inflow.nullifier siblings);
      reason = t9;
    }

-- The loop over the inflows of a transaction: the count, unless it reaches two.
unfoldable pub count_inflows : ℕ → List ZkInflow → ℕ → Option ℕ
count_inflows nullifier [] seen = some seen
count_inflows nullifier (i ∷ is) seen =
    let seen' = if i.nullifier == nullifier then seen + 1 else seen in
    let rest = count_inflows nullifier is seen' in if leb 2 seen' then none else rest

unfoldable pub count_txs : ℕ → List ZkTx → ℕ → Option ℕ
unfolding count_inflows
count_txs nullifier [] seen = some seen
count_txs nullifier (tx ∷ txs) seen =
    count_inflows nullifier tx.inflow seen >>= count_txs nullifier txs

unfoldable pub validate_duplicated_nullifier : List ZkTx → ℕ → Validation
unfolding count_txs
validate_duplicated_nullifier txs nullifier = record {
  slashable = thrown (count_txs nullifier txs 0);
  reason = t10;
}

-- A row of the table `Block` with its header.
pub record PrecedentRow (H : Type 0) : Type 0 where
  pub utxo_root : ℕ
  pub parent_block : H
  pub slashed : Bool

module _ {H : Type 0} where
  -- The loop of `isValidRef` over the precedent blocks.
  unfoldable pub precedes : (H → Option (PrecedentRow H)) → ℕ → ℕ → H → Bool
  precedes rows ref zero hash = false
  precedes rows ref (suc depth) hash = elim (rows hash) [
    | none ↦ false
    | some r ↦
        let rest = precedes rows ref depth r.parent_block in
        if r.slashed then false else if ref == r.utxo_root then true else rest
  ]

  -- `finalized` tells whether a finalized proposal has a header with this root.
  unfoldable pub is_valid_ref : (H → Option (PrecedentRow H)) → (ℕ → Bool) → ℕ → H → ℕ → Bool
  unfolding precedes
  is_valid_ref rows finalized depth hash ref = finalized ref || precedes rows ref depth hash

  unfoldable pub validate_inclusion :
      (H → Option (PrecedentRow H)) → (ℕ → Bool) → ℕ → H → List ZkTx → ℕ → ℕ → Option Validation
  validate_inclusion rows finalized depth hash txs i j = get_elem? txs i >>= λ tx.
      get_elem? tx.inflow j >>= λ inflow.
      some
        record { slashable = not (is_valid_ref rows finalized depth hash inflow.root); reason = t1 }

-- `has_vk` and `verify_tx` are those of the SNARK verifier.
unfoldable pub validate_snark : (ℕ → ℕ → Bool) → (ZkTx → Bool) → List ZkTx → ℕ → Option Validation
validate_snark has_vk verify_tx txs i = get_elem? txs i >>= λ tx. some (
    if has_vk (length tx.inflow) (length tx.outflow)
    then record { slashable = not (verify_tx tx); reason = s2 }
    else record { slashable = true; reason = s1 })
