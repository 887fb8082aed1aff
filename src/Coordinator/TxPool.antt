-- ===== src/Coordinator/TxPool.antt =====
-- packages/coordinator/src/tx-pool.ts: the memory of `TxMemPool` and its operations. The objects keyed
-- by a hash are association lists. The transactions of the pool have a proof, so `tx.hash()` and
-- `tx.size()` do not throw: `hash_of` and `size_of` stand for them, `root_of` for `root` of
-- packages/utils, and `sort` for `Array.sort` with the comparator of `getSortedTxs`.
pub mod Picks
pub mod Swaps
pub mod Reverts
pub mod Prunes
use zkopru.Base.{
  ℕ, zero, suc, ◌+◌, ◌-◌, ◌*◌, Bool, true, false, not, ◌&&◌, Option, none, some, List, [], ◌∷◌,
  ◌++◌, ◌==◌, leb, if◌then◌else◌, map, length,
}
use mathlib.Core.List.{reverse}
use zkopru.Transaction.Fp.{from_number}
use zkopru.Transaction.ZkTx.{ZkTx, ZkOutflow}
use zkopru.Tree.Nodes.{NodeMap, find, upsert}

pub record TxMemPool : Type 0 where
  pub queued : NodeMap (List ZkTx)
  pub txs : NodeMap ZkTx

-- `delete object[key]`
unfoldable pub remove : {A : Type 0} → ℕ → NodeMap A → NodeMap A
remove k [] = []
remove k ((j, v) ∷ nodes) = let rest = remove k nodes in if j == k then rest else (j, v) ∷ rest

-- `Object.values`
unfoldable pub values : {A : Type 0} → NodeMap A → List A
values [] = []
values ((k, v) ∷ nodes) = v ∷ values nodes

-- A transaction that swaps, with the note that it asks for: what `tx.swap !== undefined` leaves, and
-- what the two assertions on the swap check.
pub record SwapTx : Type 0 where
  pub tx : ZkTx
  pub asks : ℕ

-- The entries of `pending`.
pub data Pending : Type 0 where
  single : ZkTx → Pending
  pair : ZkTx → ZkTx → Pending

-- `outflow.find(o => o.note.eq(note))`
unfoldable pub has_note : ℕ → List ZkOutflow → Bool
has_note note [] = false
has_note note (o ∷ os) = if o.note == note then true else has_note note os

-- `okayForAlice && okayForBob`
unfoldable pub matches : SwapTx → SwapTx → Bool
matches alices bobs = has_note alices.asks bobs.tx.outflow && has_note bobs.asks alices.tx.outflow

unfoldable pub find_bobs : SwapTx → NodeMap SwapTx → Option SwapTx
find_bobs alices [] = none
find_bobs alices ((k, s) ∷ swaps) = if matches alices s then some s else find_bobs alices swaps

-- `filter(tx => tx.swap === undefined)`, each pushed on its own.
unfoldable pub singles : List ZkTx → List Pending
singles [] = []
singles (tx ∷ txs) = elim tx.swap [ none ↦ single tx ∷ singles txs | some s ↦ singles txs ]

-- The state of the loop that picks: `available`, `fee` and `picked`.
pub record Picking : Type 0 where
  pub available : ℕ
  pub fee : ℕ
  pub picked : List ZkTx

-- The rows of the tables `Tx` and `Block`, as far as `verifiedTx` reads them.
pub record TxRow : Type 0 where
  pub hash : ℕ
  pub block_hash : ℕ
  pub challenged : Bool
  pub slashed : Bool

pub record BlockRow : Type 0 where
  pub hash : ℕ
  pub verified : Bool

-- `blocksByHash`
unfoldable pub blocks_by_hash : List BlockRow → NodeMap BlockRow → NodeMap BlockRow
blocks_by_hash [] acc = acc
blocks_by_hash (block ∷ blocks) acc = blocks_by_hash blocks (upsert block.hash block acc)

unfoldable pub is_verified : NodeMap BlockRow → TxRow → Bool
is_verified by_hash tx =
    not tx.challenged
    && (not tx.slashed
        && (elim (find tx.block_hash by_hash) [ some block ↦ block.verified | none ↦ false ]))

-- `verifiedTx`, on the rows that its two queries return.
unfoldable pub verified_tx : List TxRow → List BlockRow → List ℕ
verified_tx [] blocks = []
verified_tx (tx ∷ included) blocks =
    let rest = verified_tx included blocks in
    if is_verified (blocks_by_hash blocks []) tx then tx.hash ∷ rest else rest

-- The deletions of `prunePendingTx`, of the hashes that `verifiedTx` returns.
unfoldable pub prune : List ℕ → NodeMap ZkTx → NodeMap ZkTx
prune [] txs = txs
prune (h ∷ hashes) txs = prune hashes (remove h txs)

module _ (hash_of : ZkTx → ℕ) where
  unfoldable pub add_to_tx_pool : ZkTx → TxMemPool → TxMemPool
  add_to_tx_pool tx pool = record pool { txs = upsert (hash_of tx) tx pool.txs }

  unfoldable pub add_all : List ZkTx → NodeMap ZkTx → NodeMap ZkTx
  add_all [] txs = txs
  add_all (tx ∷ rest) txs = add_all rest (upsert (hash_of tx) tx txs)

  unfoldable pub remove_from_tx_pool : List ZkTx → NodeMap ZkTx → NodeMap ZkTx
  remove_from_tx_pool [] txs = txs
  remove_from_tx_pool (tx ∷ rest) txs = remove_from_tx_pool rest (remove (hash_of tx) txs)

  unfoldable pub mark_as_included : (List ℕ → ℕ) → List ZkTx → TxMemPool → TxMemPool
  mark_as_included root_of txs pool = record {
    queued = upsert (root_of (map hash_of txs)) txs pool.queued;
    txs = remove_from_tx_pool txs pool.txs;
  }

  unfoldable pub drop_queued : ℕ → TxMemPool → TxMemPool
  drop_queued tx_root pool = record pool { queued = remove tx_root pool.queued }

  unfoldable pub revert : ℕ → TxMemPool → TxMemPool
  revert tx_root pool = record {
    queued = remove tx_root pool.queued;
    txs = elim (find tx_root pool.queued) [ some txs ↦ add_all txs pool.txs | none ↦ pool.txs ];
  }

  -- `swapTxs`
  unfoldable pub swap_txs : List ZkTx → NodeMap SwapTx → NodeMap SwapTx
  swap_txs [] swaps = swaps
  swap_txs (tx ∷ txs) swaps = elim tx.swap [
    | none ↦ swap_txs txs swaps
    | some s ↦ swap_txs txs (upsert (hash_of tx) (record { tx = tx; asks = s }) swaps)
  ]

  -- The loop that pairs the swaps, on fuel: each round deletes the first entry. The pairs, and the
  -- entries that are left when the loop or the fuel ends.
  unfoldable pub pair_swaps : ℕ → NodeMap SwapTx → List Pending × NodeMap SwapTx
  pair_swaps zero swaps = ([], swaps)
  pair_swaps (suc n) [] = ([], [])
  pair_swaps (suc n) ((k, alices) ∷ swaps) =
      let rest = remove k ((k, alices) ∷ swaps) in
      elim (find_bobs alices rest) [
        | none ↦ pair_swaps n rest
        | some bobs ↦
            let r = pair_swaps n (remove (hash_of bobs.tx) rest) in
            (pair alices.tx bobs.tx ∷ r.0, r.1)
      ]

  unfoldable pub pending_of : List ZkTx → List Pending
  pending_of sorted =
      let swaps = swap_txs sorted [] in
      let r = pair_swaps (length swaps) swaps in r.0 ++ singles sorted

module _ (size_of : ZkTx → ℕ) where
  -- One round of the loop that picks.
  unfoldable pub pick : ℕ → Pending → Picking → Picking
  pick min_price (single tx) s =
      if leb (size_of tx) s.available && leb (min_price * size_of tx) tx.fee
      then record {
        available = s.available - size_of tx;
        fee = from_number (s.fee + tx.fee);
        picked = s.picked ++ tx ∷ [];
      }
      else s
  pick min_price (pair a b) s =
      let size = size_of a + size_of b in
      let swap_fee = from_number (a.fee + b.fee) in
      if leb size s.available && leb (min_price * size) swap_fee
      then record {
        available = s.available - size;
        fee = from_number (s.fee + swap_fee);
        picked = s.picked ++ a ∷ b ∷ [];
      }
      else s

  -- `pending.pop()` takes from the end: the list is reversed.
  unfoldable pub pick_loop : ℕ → List Pending → Picking → Picking
  pick_loop min_price [] s = s
  pick_loop min_price (p ∷ ps) s =
      if s.available == 0 then s else pick_loop min_price ps (pick min_price p s)

module _ (hash_of size_of : ZkTx → ℕ) where
  -- `pickTxs`, with the hashes that `verifiedTx` reads from the database: the pool pruned, and the
  -- transactions picked.
  unfoldable pub pick_txs :
      (List ZkTx → List ZkTx) → List ℕ → ℕ → ℕ → TxMemPool → TxMemPool × List ZkTx
  pick_txs sort verified max_bytes min_price pool =
      let pruned = prune verified pool.txs in
      let start : Picking = record { available = max_bytes; fee = 0; picked = [] } in
      let s =
        pick_loop size_of min_price (reverse (pending_of hash_of (sort (values pruned)))) start in
      (record pool { txs = pruned }, s.picked)
