-- ===== src/Coordinator/TxPool/Reverts.antt =====
-- `markAsIncluded` and `revert` of tx-pool.ts against each other, and the loop that pairs the swaps.
use zkopru.Base.{
  ℕ, zero, suc, ◌≤◌, ◌≡◌, refl, ◌⊎◌, inl, inr, true, false, Option, none, some, List, [], ◌∷◌, ◌==◌,
  ==_iff, if◌then◌else◌, arith, Bool-cases, All, map, length, sym, ◌∙◌, ap, subst,
}
use zkopru.Transaction.ZkTx.{ZkTx}
use zkopru.Tree.Nodes.{NodeMap, find, upsert, find-upsert}
use zkopru.Coordinator.TxPool.{
  TxMemPool, SwapTx, Pending, pair, find_bobs, remove, add_all, remove_from_tx_pool,
  mark_as_included, revert, pair_swaps,
}

pub find-remove :
    {A : Type 0} (j k : ℕ) (nodes : NodeMap A)
    → find j (remove k nodes) ≡ (if k == j then none else find j nodes)
unfolding find remove
find-remove j k [] = ground arith
find-remove j k ((i, v) ∷ nodes) = ground (arith, find-remove j k nodes)

module _ (hash_of : ZkTx → ℕ) where
  -- The transaction with hash `k` is one of these.
  abbrev Among : ℕ → List ZkTx → Type 0
  Among k [] = ⊥
  Among k (tx ∷ txs) = (hash_of tx ≡ k) ⊎ Among k txs

  find-remove_from_tx_pool :
      (txs : List ZkTx) (pool : NodeMap ZkTx) (k : ℕ)
      → (find k (remove_from_tx_pool hash_of txs pool) ≡ find k pool) ⊎ Among k txs
  unfolding remove_from_tx_pool
  find-remove_from_tx_pool [] pool k = inl refl
  find-remove_from_tx_pool (tx ∷ txs) pool k =
      step (Bool-cases (hash_of tx == k))
        (find-remove_from_tx_pool txs (remove (hash_of tx) pool) k)
    where
      step :
          {o : Option ZkTx}
          → ((hash_of tx == k) ≡ true) ⊎ ((hash_of tx == k) ≡ false)
          → (o ≡ find k (remove (hash_of tx) pool)) ⊎ Among k txs
          → (o ≡ find k pool) ⊎ ((hash_of tx ≡ k) ⊎ Among k txs)
      step (inl same) h = inr (inl ((==_iff _ _).0 same))
      step (inr other) (inl e) = inl (e ∙ rw (find-remove k (hash_of tx) pool, other))
      step (inr other) (inr among) = inr (inr among)

  find-add_all :
      (txs : List ZkTx) (pool target : NodeMap ZkTx) (k : ℕ)
      → All (λ tx. find (hash_of tx) target ≡ some tx) txs
      → (find k pool ≡ find k target) ⊎ Among k txs
      → find k (add_all hash_of txs pool) ≡ find k target
  unfolding add_all
  find-add_all [] pool target k all (inl e) = e
  find-add_all [] pool target k all (inr among) = elim among [ ]
  find-add_all (tx ∷ txs) pool target k all h =
      find-add_all txs (upsert (hash_of tx) tx pool) target k all.1
        (step (Bool-cases (hash_of tx == k)) h)
    where
      step :
          ((hash_of tx == k) ≡ true) ⊎ ((hash_of tx == k) ≡ false)
          → (find k pool ≡ find k target) ⊎ ((hash_of tx ≡ k) ⊎ Among k txs)
          → (find k (upsert (hash_of tx) tx pool) ≡ find k target) ⊎ Among k txs
      step (inl same) h =
          let here = subst (λ j. find j target ≡ some tx) ((==_iff _ _).0 same) all.0 in
          inl (rw (find-upsert k (hash_of tx) tx pool, same, here))
      step (inr other) (inl e) = inl (rw (find-upsert k (hash_of tx) tx pool, other) e)
      step (inr other) (inr (inl e)) = absurd (ground (arith, e, other))
      step (inr other) (inr (inr among)) = inr among

  -- When the pool holds each of some transactions under its hash, then after `markAsIncluded` of
  -- them and `revert` with their root the pool finds the same transaction under every hash as
  -- before, and nothing is queued under the root.
  pub revert-mark_as_included :
      (root_of : List ℕ → ℕ) (txs : List ZkTx) (pool : TxMemPool) (k : ℕ)
      → All (λ tx. find (hash_of tx) pool.txs ≡ some tx) txs
      → let reverted =
          revert hash_of (root_of (map hash_of txs)) (mark_as_included hash_of root_of txs pool) in
        (find k reverted.txs ≡ find k pool.txs)
        × (find (root_of (map hash_of txs)) reverted.queued ≡ none)
  unfolding revert mark_as_included
  revert-mark_as_included root_of txs pool k all =
      let r = root_of (map hash_of txs) in
      let same : (r == r) ≡ true = (==_iff r r).1 refl in
      let removed = remove_from_tx_pool hash_of txs pool.txs in
      let found : find r (upsert r txs pool.queued) ≡ some txs =
        rw (find-upsert r r txs pool.queued, same) in
      let gone : find r (remove r (upsert r txs pool.queued)) ≡ none =
        rw (find-remove r r (upsert r txs pool.queued), same) in
      (
        subst
            (λ o.
              find k (elim o [ some txs ↦ add_all hash_of txs removed | none ↦ removed ])
              ≡ find k pool.txs)
            (sym found)
            (find-add_all txs removed pool.txs k all (find-remove_from_tx_pool txs pool.txs k)),
        gone,
      )

-- Fuel for every entry of `swapTxs` is enough for the loop that pairs them.
length-remove : {A : Type 0} (k : ℕ) (nodes : NodeMap A) → length (remove k nodes) ≤ length nodes
unfolding remove
length-remove k [] = omega arith
length-remove k ((j, v) ∷ nodes) = ground (arith, length-remove k nodes)

length-remove_head :
    {A : Type 0} (k : ℕ) (v : A) (nodes : NodeMap A)
    → length (remove k ((k, v) ∷ nodes)) ≤ length nodes
unfolding remove
length-remove_head k v nodes = ground (arith, length-remove k nodes)

-- The loop that pairs the swaps ends: when the fuel covers every entry of `swapTxs`, the loop
-- leaves no entry there, and more fuel changes neither this nor the pairs.
pub pair_swaps-enough :
    (hash_of : ZkTx → ℕ) (n m : ℕ) (swaps : NodeMap SwapTx)
    → length swaps ≤ n
    → length swaps ≤ m
    → ((pair_swaps hash_of n swaps).1 ≡ [])
      × (pair_swaps hash_of n swaps ≡ pair_swaps hash_of m swaps)
unfolding pair_swaps
pair_swaps-enough hash_of zero zero [] hn hm = (refl, refl)
pair_swaps-enough hash_of zero (suc m) [] hn hm = (refl, refl)
pair_swaps-enough hash_of (suc n) zero [] hn hm = (refl, refl)
pair_swaps-enough hash_of (suc n) (suc m) [] hn hm = (refl, refl)
pair_swaps-enough hash_of zero m (e ∷ swaps) hn hm = absurd (omega arith)
pair_swaps-enough hash_of (suc n) zero (e ∷ swaps) hn hm = absurd (omega arith)
pair_swaps-enough hash_of (suc n) (suc m) ((k, alices) ∷ swaps) hn hm =
    let rest = remove k ((k, alices) ∷ swaps) in
    let small = length-remove_head k alices swaps in
    round (find_bobs alices rest) (pair_swaps-enough hash_of n m rest (omega arith) (omega arith))
      (λ bobs.
        let l = length-remove (hash_of bobs.tx) rest in
        pair_swaps-enough hash_of n m (remove (hash_of bobs.tx) rest) (omega arith) (omega arith))
  where
    round :
        {x y : List Pending × NodeMap SwapTx} {f g : SwapTx → List Pending × NodeMap SwapTx}
        (found : Option SwapTx)
        → (x.1 ≡ []) × (x ≡ y)
        → ((bobs : SwapTx) → ((f bobs).1 ≡ []) × (f bobs ≡ g bobs))
        → let r : List Pending × NodeMap SwapTx = elim found [
          | none ↦ x
          | some bobs ↦ (pair alices.tx bobs.tx ∷ (f bobs).0, (f bobs).1)
        ] in
          (r.1 ≡ [])
          × (r ≡ elim found [
            | none ↦ y
            | some bobs ↦ (pair alices.tx bobs.tx ∷ (g bobs).0, (g bobs).1)
          ])
    round none h hs = h
    round (some bobs) h hs =
        ((hs bobs).0, ap (λ r. (pair alices.tx bobs.tx ∷ r.0, r.1)) ((hs bobs).1))
