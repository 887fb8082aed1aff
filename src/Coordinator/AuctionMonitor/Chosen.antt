-- ===== src/Coordinator/AuctionMonitor/Chosen.antt =====
-- The rounds that auction-monitor.ts chooses to bid on.
use native.Mathlib.Nat.{mul-add}
use zkopru.Base.{
  ℕ, zero, suc, ◌+◌, ◌*◌, ◌≤◌, ◌<◌, ◌≡◌, ◌≢◌, true, false, List, [], ◌∷◌, ◌++◌, arith, ltb, length,
  length-append, All, All-map, on_if,
}
use zkopru.Coordinator.AuctionMonitor.{
  Bid, AuctionMonitor, Layer1, max_bid_rounds, bid_for, known, remember, next_amount, worth_bidding,
  rounds_to_bid, wei_cost, last_round,
}

-- A round that is worth a bid.
abbrev pub IsWorth : AuctionMonitor → ℕ × Bid → Type 0
IsWorth m c = (next_amount c.1 < m.max_bid) × (c.1.owner ≢ m.account)

worth_bidding-IsWorth :
    (m : AuctionMonitor) (r : ℕ) (b : Bid) → worth_bidding m b ≡ true → IsWorth m (r, b)
unfolding worth_bidding
worth_bidding-IsWorth m r b h = (ground (arith, h), λ e. absurd (ground (arith, h, e)))

-- A round between these that is worth a bid.
abbrev pub IsChosen : AuctionMonitor → ℕ → ℕ → ℕ × Bid → Type 0
IsChosen m low high c = (low ≤ c.0) × (c.0 < high) × IsWorth m c

pub widen :
    (m : AuctionMonitor) (low high high' : ℕ) (cs : List (ℕ × Bid))
    → high ≤ high'
    → All (IsChosen m low high) cs
    → All (IsChosen m low high') cs
widen m low high high' cs le all = All-map cs (λ c h. (h.0, omega (arith, h.1, le), h.2)) all

pub All-snoc :
    {A : Type 0} (P : A → Type 0) (xs : List A) (x : A) → All P xs → P x → All P (xs ++ x ∷ [])
All-snoc P [] x all h = (h, tt)
All-snoc P (y ∷ ys) x all h = (all.0, All-snoc P ys x all.1 h)

pub rounds_to_bid-IsChosen :
    (m : AuctionMonitor) (l : Layer1) (low count round : ℕ) (chosen bids : List (ℕ × Bid))
    → low ≤ round
    → All (IsChosen m low round) chosen
    → length chosen ≤ max_bid_rounds + 1
    → let found = rounds_to_bid m l count round chosen bids in
      All (IsChosen m low (round + count)) found.0 × (length found.0 ≤ max_bid_rounds + 1)
unfolding rounds_to_bid
rounds_to_bid-IsChosen m l low zero round chosen bids h all few =
    (widen m low round (round + 0) chosen (omega arith) all, few)
rounds_to_bid-IsChosen m l low (suc count) round chosen bids h all few =
    let b = known l round (bid_for round bids) in
    let bids' = remember round b (bid_for round bids) bids in
    let P = λ (found : List (ℕ × Bid) × List (ℕ × Bid)).
      All (IsChosen m low (round + suc count)) found.0 × (length found.0 ≤ max_bid_rounds + 1) in
    let next =
      λ (cs : List (ℕ × Bid)) (g : All (IsChosen m low (round + 1)) cs)
          (few' : length cs ≤ max_bid_rounds + 1).
        let r = rounds_to_bid-IsChosen m l low count (round + 1) cs bids' (omega arith) g few' in
        let whole : P (rounds_to_bid m l count (round + 1) cs bids') =
          (widen m low (round + 1 + count) (round + suc count) _ (omega arith) r.0, r.1) in
        whole in
    on_if P (ltb max_bid_rounds (length chosen)) (chosen, bids) _
      (λ full. (widen m low round (round + suc count) chosen (omega arith) all, few))
      (λ room.
        let wide = widen m low round (round + 1) chosen (omega arith) all in
        on_if P (worth_bidding m b) _ _
          (λ worth.
            next (chosen ++ (round, b) ∷ [])
              (All-snoc (IsChosen m low (round + 1)) chosen (round, b) wide
                (h, omega arith, worth_bidding-IsWorth m round b worth))
              (omega
                (arith, length-append chosen ((round, b) ∷ []), not_full (length chosen) room)))
          (λ other. next chosen wide few))
  where
    not_full : (n : ℕ) → ltb max_bid_rounds n ≡ false → n ≤ max_bid_rounds
    not_full n h = ground (arith, h)

pub wei_cost-le :
    (m : AuctionMonitor) (low high : ℕ) (cs : List (ℕ × Bid))
    → All (IsChosen m low high) cs
    → wei_cost cs + length cs ≤ m.max_bid * length cs
unfolding wei_cost
wei_cost-le m low high [] all = omega arith
wei_cost-le m low high ((r, b) ∷ cs) all =
    omega (arith, all.0.2, wei_cost-le m low high cs all.1, mul-add m.max_bid (length cs) 1)

pub last_round-IsChosen :
    (m : AuctionMonitor) (low high r : ℕ) (cs : List (ℕ × Bid))
    → r < high
    → All (IsChosen m low high) cs
    → last_round r cs < high
last_round-IsChosen m low high r [] h all = h
last_round-IsChosen m low high r ((k, b) ∷ cs) h all =
    last_round-IsChosen m low high k cs all.0.1 all.1
