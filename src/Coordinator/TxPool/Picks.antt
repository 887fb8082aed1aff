-- ===== src/Coordinator/TxPool/Picks.antt =====
-- What `pickTxs` of tx-pool.ts picks: the space and the price of the block.
use native.Mathlib.Nat.{mul-add}
use mathlib.Core.List.{reverse}
use zkopru.Base.{
  ℕ, ◌+◌, ◌-◌, ◌*◌, ◌≤◌, ◌≡◌, List, [], ◌∷◌, ◌++◌, ◌==◌, leb, arith, Bool-cases, guarded, inl, inr,
  leb→le,
}
use zkopru.Transaction.Fp.{from_number, from_number-le}
use zkopru.Transaction.ZkTx.{ZkTx}
use zkopru.Coordinator.TxPool.{
  TxMemPool, Pending, single, pair, Picking, pick, pick_loop, pick_txs, pending_of, prune, values,
}

-- The sum of a measure over the transactions.
abbrev pub total : (ZkTx → ℕ) → List ZkTx → ℕ
total f [] = 0
total f (tx ∷ txs) = f tx + total f txs

total-append : (f : ZkTx → ℕ) (xs ys : List ZkTx) → total f (xs ++ ys) ≡ total f xs + total f ys
total-append f [] ys = omega arith
total-append f (x ∷ xs) ys = omega (arith, total-append f xs ys)

module _ (hash_of size_of : ZkTx → ℕ) (max_bytes min_price : ℕ) where
  -- The space that is left is what the picked transactions leave, and they pay for theirs.
  record IsPaid (s : Picking) : Type 0 where
    space : total size_of s.picked + s.available ≡ max_bytes
    price : min_price * total size_of s.picked ≤ total (λ tx. tx.fee) s.picked

  IsPaid-after :
      (xs : List ZkTx) (size fee fee' : ℕ) (s : Picking)
      → IsPaid s
      → total size_of xs ≡ size
      → fee ≤ total (λ tx. tx.fee) xs
      → size ≤ s.available
      → min_price * size ≤ fee
      → IsPaid (record { available = s.available - size; fee = fee'; picked = s.picked ++ xs })
  IsPaid-after xs size fee fee' s paid sizes fees room worth =
      let e = mul-add min_price (total size_of s.picked) size in
      let grown = total-append size_of s.picked xs in
      let grown_fee = total-append (λ tx. tx.fee) s.picked xs in
      record {
        space = omega (arith, paid.space);
        price = rw (grown, sizes, e, grown_fee) (omega (arith, paid.price));
      }

  pick-IsPaid : (p : Pending) (s : Picking) → IsPaid s → IsPaid (pick size_of min_price p s)
  unfolding pick
  pick-IsPaid (single tx) s paid =
      guarded IsPaid (leb (size_of tx) s.available) (leb (min_price * size_of tx) tx.fee) _ s
        (λ room worth.
          IsPaid-after (tx ∷ []) (size_of tx) tx.fee _ s paid (omega arith) (omega arith)
            (leb→le _ _ room) (leb→le _ _ worth))
        paid
  pick-IsPaid (pair a b) s paid =
      guarded IsPaid (leb (size_of a + size_of b) s.available)
        (leb (min_price * (size_of a + size_of b)) (from_number (a.fee + b.fee))) _ s
        (λ room worth.
          IsPaid-after (a ∷ b ∷ []) (size_of a + size_of b) (from_number (a.fee + b.fee)) _ s paid
            (omega arith) (omega (arith, from_number-le (a.fee + b.fee))) (leb→le _ _ room)
            (leb→le _ _ worth))
        paid

  pick_loop-IsPaid :
      (ps : List Pending) (s : Picking) → IsPaid s → IsPaid (pick_loop size_of min_price ps s)
  unfolding pick_loop
  pick_loop-IsPaid [] s paid = paid
  pick_loop-IsPaid (p ∷ ps) s paid = elim (Bool-cases (s.available == 0)) [
    | inl e ↦ rw e paid
    | inr e ↦ rw e (pick_loop-IsPaid ps (pick size_of min_price p s) (pick-IsPaid p s paid))
  ]

  -- The transactions that `pickTxs` returns take no more than `maxBytes` bytes together, and their
  -- fees together pay at least `minPricePerByte` for each of their bytes.
  pub pick_txs-fits :
      (sort : List ZkTx → List ZkTx) (verified : List ℕ) (pool : TxMemPool)
      → let r = pick_txs hash_of size_of sort verified max_bytes min_price pool in
        (total size_of r.1 ≤ max_bytes) × (min_price * total size_of r.1 ≤ total (λ tx. tx.fee) r.1)
  unfolding pick_txs
  pick_txs-fits sort verified pool =
      let pending = reverse (pending_of hash_of (sort (values (prune verified pool.txs)))) in
      let s =
        pick_loop-IsPaid pending (record { available = max_bytes; fee = 0; picked = [] })
          (record { space = omega arith; price = omega arith }) in
      (omega (arith, s.space), s.price)
