-- ===== src/Coordinator/TxPool/Swaps.antt =====
-- The swaps that `pickTxs` of tx-pool.ts picks: always the two sides together.
use mathlib.Core.List.{reverse, reverse_aux}
use zkopru.Base.{
  ℕ, ◌+◌, ◌*◌, zero, suc, ◌≡◌, Bool, true, ◌&&◌, Option, none, some, List, [], ◌∷◌, ◌++◌, ◌==◌, leb,
  arith, Bool-cases, inl, inr, guarded, All, Option-cases,
}
use zkopru.Transaction.Fp.{from_number}
use zkopru.Transaction.ZkTx.{ZkTx}
use zkopru.Tree.Nodes.{NodeMap, upsert}
use zkopru.Coordinator.TxPool.{
  TxMemPool, SwapTx, Pending, single, pair, has_note, matches, find_bobs, remove, prune, values,
  swap_txs, pair_swaps, singles, pending_of, Picking, pick, pick_loop, pick_txs,
}

-- Two transactions that ask for a note of each other.
abbrev pub Swaps : ZkTx → ZkTx → Type 0
Swaps a b =
    (for_a for_b : ℕ) × (a.swap ≡ some for_a)
    × (b.swap ≡ some for_b)
    × (has_note for_a b.outflow ≡ true)
    × (has_note for_b a.outflow ≡ true)

-- A list made of transactions that do not swap and of swaps with their two sides in a row.
pub data Settled : List ZkTx → Type 0 where
  nothing : Settled []
  alone : (txs : List ZkTx) (tx : ZkTx) → tx.swap ≡ none → Settled txs → Settled (txs ++ tx ∷ [])
  swapped : (txs : List ZkTx) (a b : ZkTx) → Swaps a b → Settled txs → Settled (txs ++ a ∷ b ∷ [])

abbrev IsMatched : Pending → Type 0
IsMatched (single tx) = tx.swap ≡ none
IsMatched (pair a b) = Swaps a b

-- The entries of `swapTxs` carry the note that their transaction asks for.
abbrev AsksIts : SwapTx → Type 0
AsksIts s = s.tx.swap ≡ some s.asks

abbrev AllAsk : NodeMap SwapTx → Type 0
AllAsk swaps = All (λ e. AsksIts e.1) swaps

upsert-AllAsk :
    (k : ℕ) (s : SwapTx) (swaps : NodeMap SwapTx)
    → AsksIts s
    → AllAsk swaps
    → AllAsk (upsert k s swaps)
unfolding upsert
upsert-AllAsk k s [] h all = (h, tt)
upsert-AllAsk k s ((j, t) ∷ swaps) h all = elim (Bool-cases (j == k)) [
  | inl e ↦ rw e (h, all.1)
  | inr e ↦ rw e (all.0, upsert-AllAsk k s swaps h all.1)
]

remove-AllAsk : (k : ℕ) (swaps : NodeMap SwapTx) → AllAsk swaps → AllAsk (remove k swaps)
unfolding remove
remove-AllAsk k [] all = tt
remove-AllAsk k ((j, t) ∷ swaps) all = elim (Bool-cases (j == k)) [
  | inl e ↦ rw e (remove-AllAsk k swaps all.1)
  | inr e ↦ rw e (all.0, remove-AllAsk k swaps all.1)
]

abbrev Found : SwapTx → Option SwapTx → Type 0
Found alices none = Unit
Found alices (some bobs) = AsksIts bobs × (matches alices bobs ≡ true)

find_bobs-Found :
    (alices : SwapTx) (swaps : NodeMap SwapTx)
    → AllAsk swaps
    → Found alices (find_bobs alices swaps)
unfolding find_bobs
find_bobs-Found alices [] all = tt
find_bobs-Found alices ((k, s) ∷ swaps) all = elim (Bool-cases (matches alices s)) [
  | inl e ↦ rw e (all.0, e)
  | inr e ↦ rw e (find_bobs-Found alices swaps all.1)
]

and-split : (b c : Bool) → (b && c) ≡ true → (b ≡ true) × (c ≡ true)
and-split b c h = ground arith

matches-Swaps :
    (alices bobs : SwapTx)
    → AsksIts alices
    → AsksIts bobs
    → matches alices bobs ≡ true
    → Swaps alices.tx bobs.tx
unfolding matches
matches-Swaps alices bobs ha hb h =
    let (p, q) = and-split _ _ h in (alices.asks, bobs.asks, ha, hb, p, q)

swap_txs-AllAsk :
    (hash_of : ZkTx → ℕ) (txs : List ZkTx) (swaps : NodeMap SwapTx)
    → AllAsk swaps
    → AllAsk (swap_txs hash_of txs swaps)
unfolding swap_txs
swap_txs-AllAsk hash_of [] swaps all = all
swap_txs-AllAsk hash_of (tx ∷ txs) swaps all = elim (Option-cases tx.swap) [
  | inl e ↦ rw e (swap_txs-AllAsk hash_of txs swaps all)
  | inr (s, e) ↦ rw e (swap_txs-AllAsk hash_of txs _ (upsert-AllAsk (hash_of tx) _ swaps e all))
]

round-IsMatched :
    (hash_of : ZkTx → ℕ) (n : ℕ) (alices : SwapTx) (rest : NodeMap SwapTx)
    → ((swaps : NodeMap SwapTx) → AllAsk swaps → All IsMatched ((pair_swaps hash_of n swaps).0))
    → AsksIts alices
    → AllAsk rest
    → (found : Option SwapTx) → Found alices found
    → let r : List Pending × NodeMap SwapTx = elim found [
      | none ↦ pair_swaps hash_of n rest
      | some bobs ↦
          let r = pair_swaps hash_of n (remove (hash_of bobs.tx) rest) in
          (pair alices.tx bobs.tx ∷ r.0, r.1)
    ] in
      All IsMatched r.0
round-IsMatched hash_of n alices rest ih asks all none found = ih rest all
round-IsMatched hash_of n alices rest ih asks all (some bobs) found = (
  matches-Swaps alices bobs asks found.0 found.1,
  ih _ (remove-AllAsk (hash_of bobs.tx) rest all),
)

pair_swaps-IsMatched :
    (hash_of : ZkTx → ℕ) (n : ℕ) (swaps : NodeMap SwapTx)
    → AllAsk swaps
    → All IsMatched ((pair_swaps hash_of n swaps).0)
unfolding pair_swaps
pair_swaps-IsMatched hash_of zero swaps all = tt
pair_swaps-IsMatched hash_of (suc n) [] all = tt
pair_swaps-IsMatched hash_of (suc n) ((k, alices) ∷ swaps) all =
    let rest_all = remove-AllAsk k ((k, alices) ∷ swaps) all in
    round-IsMatched hash_of n alices _ (pair_swaps-IsMatched hash_of n) all.0 rest_all _
      (find_bobs-Found alices _ rest_all)

singles-IsMatched : (txs : List ZkTx) → All IsMatched (singles txs)
unfolding singles
singles-IsMatched [] = tt
singles-IsMatched (tx ∷ txs) = elim (Option-cases tx.swap) [
  | inl e ↦ rw e (e, singles-IsMatched txs)
  | inr (s, e) ↦ rw e (singles-IsMatched txs)
]

All-append : (ps qs : List Pending) → All IsMatched ps → All IsMatched qs → All IsMatched (ps ++ qs)
All-append [] qs h k = k
All-append (p ∷ ps) qs h k = (h.0, All-append ps qs h.1 k)

All-reverse_aux :
    (ps qs : List Pending) → All IsMatched ps → All IsMatched qs → All IsMatched (reverse_aux ps qs)
All-reverse_aux [] qs h k = k
All-reverse_aux (p ∷ ps) qs h k = All-reverse_aux ps (p ∷ qs) h.1 (h.0, k)

module _ (hash_of size_of : ZkTx → ℕ) (min_price : ℕ) where
  pick-Settled :
      (p : Pending) (s : Picking)
      → IsMatched p
      → Settled s.picked
      → Settled (let r = pick size_of min_price p s in r.picked)
  unfolding pick
  pick-Settled (single tx) s m settled =
      guarded (λ r. Settled r.picked) (leb (size_of tx) s.available)
        (leb (min_price * size_of tx) tx.fee) _ s (λ room worth. alone s.picked tx m settled)
        settled
  pick-Settled (pair a b) s m settled =
      guarded (λ r. Settled r.picked) (leb (size_of a + size_of b) s.available)
        (leb (min_price * (size_of a + size_of b)) (from_number (a.fee + b.fee))) _ s
        (λ room worth. swapped s.picked a b m settled) settled

  pick_loop-Settled :
      (ps : List Pending) (s : Picking)
      → All IsMatched ps
      → Settled s.picked
      → Settled (let r = pick_loop size_of min_price ps s in r.picked)
  unfolding pick_loop
  pick_loop-Settled [] s all settled = settled
  pick_loop-Settled (p ∷ ps) s all settled = elim (Bool-cases (s.available == 0)) [
    | inl e ↦ rw e settled
    | inr e ↦
        rw e
          (pick_loop-Settled ps (pick size_of min_price p s) all.1 (pick-Settled p s all.0 settled))
  ]

  -- `pickTxs` returns a list in which every transaction that swaps stands next to another one,
  -- each of the two making a note that the other asks for: no side of a swap is picked alone.
  pub pick_txs-Settled :
      (sort : List ZkTx → List ZkTx) (verified : List ℕ) (max_bytes : ℕ) (pool : TxMemPool)
      → Settled (let r = pick_txs hash_of size_of sort verified max_bytes min_price pool in r.1)
  unfolding pick_txs pending_of
  pick_txs-Settled sort verified max_bytes pool =
      let sorted = sort (values (prune verified pool.txs)) in
      pick_loop-Settled (reverse (pending_of hash_of sorted))
        (record { available = max_bytes; fee = 0; picked = [] })
        (All-reverse_aux (pending_of hash_of sorted) []
          (All-append _ _ (pair_swaps-IsMatched hash_of _ _ (swap_txs-AllAsk hash_of _ [] tt))
            (singles-IsMatched _))
          tt)
        nothing
