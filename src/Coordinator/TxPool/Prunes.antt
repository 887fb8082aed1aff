-- ===== src/Coordinator/TxPool/Prunes.antt =====
-- `verifiedTx` and `prunePendingTx` of tx-pool.ts: which transactions leave the pool.
use zkopru.Base.{
  ℕ, ◌≡◌, refl, Bool, true, false, ◌&&◌, none, List, [], ◌∷◌, ◌==◌, if◌then◌else◌, Bool-cases, inl,
  inr,
}
use zkopru.Transaction.ZkTx.{ZkTx}
use zkopru.Tree.Nodes.{NodeMap, find}
use zkopru.Coordinator.TxPool.{
  TxRow, BlockRow, blocks_by_hash, is_verified, verified_tx, prune, remove,
}
use zkopru.Coordinator.TxPool.Reverts.{find-remove}

-- Some row has this hash and is verified.
abbrev pub any_verified : ℕ → List TxRow → NodeMap BlockRow → Bool
any_verified k [] by_hash = false
any_verified k (tx ∷ included) by_hash =
    let rest = any_verified k included by_hash in
    if is_verified by_hash tx && (tx.hash == k) then true else rest

if-same : {A : Type 0} (b : Bool) (a : A) → (if b then a else a) ≡ a
if-same true a = refl
if-same false a = refl

prune-none :
    (hashes : List ℕ) (txs : NodeMap ZkTx) (k : ℕ)
    → find k txs ≡ none
    → find k (prune hashes txs) ≡ none
unfolding prune
prune-none [] txs k e = e
prune-none (h ∷ hashes) txs k e =
    prune-none hashes (remove h txs) k (rw (find-remove k h txs, e) (if-same (h == k) none))

-- After `prunePendingTx` of what `verifiedTx` returns, a hash is found in the pool as before,
-- unless one of the rows of included transactions has this hash, is neither challenged nor
-- slashed, and its block is there and verified; then it is not found.
pub prune-verified_tx :
    (included : List TxRow) (blocks : List BlockRow) (txs : NodeMap ZkTx) (k : ℕ)
    → find k (prune (verified_tx included blocks) txs)
      ≡ (if any_verified k included (blocks_by_hash blocks []) then none else find k txs)
unfolding prune verified_tx
prune-verified_tx [] blocks txs k = refl
prune-verified_tx (tx ∷ included) blocks txs k =
    let by_hash = blocks_by_hash blocks [] in
    elim (Bool-cases (is_verified by_hash tx)) [
      | inr failed ↦ rw (failed) (prune-verified_tx included blocks txs k)
      | inl passed ↦ elim (Bool-cases (tx.hash == k)) [
        | inl here ↦
            let gone : find k (remove tx.hash txs) ≡ none =
              rw (find-remove k tx.hash txs, here) refl in
            rw (passed, here) (prune-none (verified_tx included blocks) (remove tx.hash txs) k gone)
        | inr other ↦
            let kept : find k (remove tx.hash txs) ≡ find k txs =
              rw (find-remove k tx.hash txs, other) refl in
            rw (passed, other, ← kept) (prune-verified_tx included blocks (remove tx.hash txs) k)
      ]
    ]
