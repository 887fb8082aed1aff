-- ===== src/Coordinator/Tests.antt =====
-- Runs of the pool of tx-pool.ts on small transactions; their fee serves as their hash.
use zkopru.Base.{
  true, false, ℕ, ◌*◌, ◌≤◌, ◌≡◌, refl, Option, none, some, List, [], ◌∷◌, length, arith,
}
use zkopru.Transaction.ZkTx.{ZkTx}
use zkopru.Tree.Nodes.{NodeMap, find, upsert}
use zkopru.Transaction.Fp.{from_number, order}
use zkopru.Coordinator.TxPool.{
  TxRow, BlockRow, TxMemPool, SwapTx, pick_txs, mark_as_included, revert, pair_swaps, pick_loop,
  pending_of, swap_txs, values, prune, remove, find_bobs, matches, has_note, singles, pick,
}
use zkopru.Coordinator.TxPool.Picks.{total, pick_txs-fits}
use zkopru.Coordinator.TxPool.Swaps.{Settled, pick_txs-Settled}
use zkopru.Coordinator.TxPool.Reverts.{revert-mark_as_included, pair_swaps-enough}

abbrev paying : ℕ → Option ℕ → ℕ → ZkTx
paying price asks note = record {
  inflow = [];
  outflow = record { note = note; outflow_type = 0; data_of = none } ∷ [];
  fee = price;
  proof = none;
  swap = asks;
  memo = none;
  cached_hash = none;
  cached_size = none;
}

abbrev fee_hash : ZkTx → ℕ
fee_hash tx = tx.fee

abbrev same_size : ZkTx → ℕ
same_size tx = 100

abbrev as_it_is : List ZkTx → List ZkTx
as_it_is txs = txs

-- The first two swap their notes, the third one does not swap.
abbrev alices : ZkTx
alices = paying 900 (some 2) 1

abbrev bobs : ZkTx
bobs = paying 800 (some 1) 2

abbrev carols : ZkTx
carols = paying 700 none 3

abbrev pool : TxMemPool
pool = record { queued = []; txs = (900, alices) ∷ (800, bobs) ∷ (700, carols) ∷ [] }

pick_txs-fits_example :
    let r = pick_txs fee_hash same_size as_it_is [] 250 5 pool in
    (total same_size r.1 ≤ 250) × (5 * total same_size r.1 ≤ total (λ tx. tx.fee) r.1)
pick_txs-fits_example = pick_txs-fits fee_hash same_size 250 5 as_it_is [] pool

pick_txs-Settled_example :
    Settled (let r = pick_txs fee_hash same_size as_it_is [] 250 5 pool in r.1)
pick_txs-Settled_example = pick_txs-Settled fee_hash same_size 5 as_it_is [] 250 pool

-- Without the third transaction both sides of the swap are picked.
picked_together :
    (let r = pick_txs fee_hash same_size as_it_is (700 ∷ []) 250 5 pool in r.1) ≡ alices ∷ bobs ∷ []
unfolding pick_txs pick_loop pending_of pair_swaps swap_txs values prune remove upsert find_bobs
    matches has_note singles pick from_number order
picked_together = refl

abbrev sum : List ℕ → ℕ
sum hashes = length hashes

included : (find 900 pool.txs ≡ some alices) × (find 700 pool.txs ≡ some carols) × Unit {0}
unfolding find
included = (refl, refl, tt)

revert-mark_as_included_example :
    let reverted = revert fee_hash 2 (mark_as_included fee_hash sum (alices ∷ carols ∷ []) pool) in
    (find 900 reverted.txs ≡ find 900 pool.txs) × (find 2 reverted.queued ≡ none)
revert-mark_as_included_example =
    revert-mark_as_included fee_hash sum (alices ∷ carols ∷ []) pool 900
      (included.0, (included.1, tt))

abbrev swaps : NodeMap SwapTx
swaps = (900, record { tx = alices; asks = 2 }) ∷ (800, record { tx = bobs; asks = 1 }) ∷ []

pair_swaps-enough_example :
    ((pair_swaps fee_hash 2 swaps).1 ≡ [])
    × (pair_swaps fee_hash 2 swaps ≡ pair_swaps fee_hash 9 swaps)
pair_swaps-enough_example = pair_swaps-enough fee_hash 2 9 swaps (omega arith) (omega arith)

-- The block 8 is verified; the third transaction is in it, and the first one in a block that is not
-- known.
abbrev included_rows : List TxRow
included_rows =
    record { hash = 900; block_hash = 9; challenged = false; slashed = false }
    ∷ record { hash = 700; block_hash = 8; challenged = false; slashed = false }
    ∷ []

abbrev known_blocks : List BlockRow
known_blocks = record { hash = 8; verified = true } ∷ []
