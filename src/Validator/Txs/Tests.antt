-- ===== src/Validator/Txs/Tests.antt =====
-- The validators of transactions on small blocks.
use zkopru.Base.{
  nat_eq, subst, if◌then◌else◌, ℕ, ◌≡◌, ◌≢◌, ◌↔◌, ◌⊎◌, refl, inl, ap, sym, Bool, true, false,
  Option, none, some, List, [], ◌∷◌, arith, ◌==◌, get_elem?, All,
}
use mathlib.Core.Option.{some-injective}
use zkopru.Transaction.ZkTx.{ZkTx}
use zkopru.Tree.Hasher.{hasher_of}
use zkopru.Tree.Spec.{node}
use zkopru.Tree.SmtSol.{exist_bn, non_exist_bn}
use zkopru.Coordinator.TxPool.{
  TxMemPool, pick_txs, pick_loop, pick, pending_of, pair_swaps, swap_txs, values, prune, remove,
  find_bobs, matches, has_note, singles,
}
use zkopru.Tree.Nodes.{upsert}
use zkopru.Transaction.Fp.{from_number, order}
use zkopru.Validator.Migration.{t2, t8, t9}
use zkopru.Validator.Trees.Samples.{square_pair, square_pair_inj, zeros, spend}
use zkopru.Validator.Txs.{
  TokenInfo, PrecedentRow, is_valid_ref, validate_outflow, validate_atomic_swap,
  validate_used_nullifier,
}
use zkopru.Validator.Txs.References.{Precedes, is_valid_ref_iff}
use zkopru.Validator.Txs.Nullifiers.{validate_used_nullifier_any}
use zkopru.Validator.Txs.Outflows.{IsLawful, validate_outflow_iff}
use zkopru.Validator.Txs.Swaps.{IsProper, validate_atomic_swap-pick_txs}

-- The token 17 has NFTs.
abbrev tokens : ℕ → Option (Option TokenInfo)
tokens address =
    some (if address == 17 then some record { is_erc20 = false; is_erc721 = true } else none)

validate_outflow_iff_example :
    (validate_outflow tokens (spend ∷ []) 0 ≡ some record { slashable = false; reason = t2 })
    ↔ All (IsLawful tokens) spend.outflow
validate_outflow_iff_example = validate_outflow_iff tokens (spend ∷ []) 0 spend refl

-- Block 2 has the root 5 and follows block 1, which has the root 4.
abbrev rows : ℕ → Option (PrecedentRow ℕ)
rows hash =
    if hash == 2
    then some record { utxo_root = 5; parent_block = 1; slashed = false }
    else if hash == 1
    then some record { utxo_root = 4; parent_block = 0; slashed = false }
    else none

abbrev never : ℕ → Bool
never root = false

is_valid_ref_iff_example :
    (is_valid_ref rows never 3 2 4 ≡ true) ↔ ((never 4 ≡ true) ⊎ Precedes rows 4 3 2)
is_valid_ref_iff_example = is_valid_ref_iff rows 4 never 3 2

validate_used_nullifier_any_example :
    validate_used_nullifier exist_bn non_exist_bn
      (hasher_of square_pair 0 2)
      (node square_pair 2 0 zeros)
      (spend ∷ [])
      0
      0
      (0 ∷ 1 ∷ [])
    ≡ some record { slashable = true; reason = t9 }
validate_used_nullifier_any_example =
    validate_used_nullifier_any square_pair 2 zeros (spend ∷ []) 0 0 spend
      (record { nullifier = 3; root = 12 }) (0 ∷ 1 ∷ []) square_pair_inj refl refl (omega arith)
      (inl refl)

-- Two sides of a swap, in a pool.
abbrev asking : ℕ → ℕ → ℕ → ZkTx
asking price asks note = record spend {
  outflow = record { note = note; outflow_type = 0; data_of = none } ∷ [];
  fee = price;
  swap = some asks;
}

abbrev alices : ZkTx
alices = asking 900 2 1

abbrev bobs : ZkTx
bobs = asking 800 1 2

abbrev pool : TxMemPool
pool = record { queued = []; txs = (900, alices) ∷ (800, bobs) ∷ [] }

abbrev fee_hash : ZkTx → ℕ
fee_hash tx = tx.fee

abbrev same_size : ZkTx → ℕ
same_size tx = 100

abbrev as_it_is : List ZkTx → List ZkTx
as_it_is txs = txs

picked : (let r = pick_txs fee_hash same_size as_it_is [] 250 5 pool in r.1) ≡ alices ∷ bobs ∷ []
unfolding pick_txs pick_loop pending_of pair_swaps swap_txs values prune remove upsert find_bobs
    matches has_note singles pick from_number order
picked = refl

asks_one : bobs.swap ≢ some 0
asks_one e = let one = some-injective _ _ e in omega (arith, one)

asks_two : alices.swap ≢ some 0
asks_two e = let two = some-injective _ _ e in omega (arith, two)

validate_atomic_swap-pick_txs_example :
    validate_atomic_swap (let r = pick_txs fee_hash same_size as_it_is [] 250 5 pool in r.1) 1
    ≡ some record { slashable = false; reason = t8 }
validate_atomic_swap-pick_txs_example =
    validate_atomic_swap-pick_txs fee_hash same_size 5 as_it_is [] 250 pool 1 1 bobs
      (subst (All IsProper) (sym picked) (asks_two, (asks_one, tt)))
      (ap (λ txs. get_elem? txs 1) picked) refl
