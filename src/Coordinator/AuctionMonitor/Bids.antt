-- ===== src/Coordinator/AuctionMonitor/Bids.antt =====
-- What auction-monitor.ts bids, and what a bid can cost.
use native.Mathlib.Nat.{mul-le-mul_left}
use zkopru.Base.{
  ℕ, zero, suc, ◌+◌, ◌-◌, ◌*◌, ◌≤◌, ◌<◌, ◌≡◌, refl, true, false, Option, none, some, List, [], ◌∷◌,
  ◌++◌, arith, ltb, length, All, on_if, inl, inr, not, ◌⊎◌, sym, subst,
}
use zkopru.Coordinator.AuctionMonitor.{
  Bid, AuctionMonitor, Layer1, MultiBid, max_bid_rounds, bid_for, known, remember, worth_bidding,
  rounds_to_bid, wei_cost, bid_on, bid_if_needed, last_round, too_early,
}
use zkopru.Coordinator.AuctionMonitor.Chosen.{
  IsChosen, widen, rounds_to_bid-IsChosen, wei_cost-le, last_round-IsChosen,
}

-- What is sent lies within the biddable rounds and costs less than sixteen of the highest bids.
abbrev pub IsBounded : AuctionMonitor → Layer1 → Option MultiBid → Type 0
IsBounded m l none = Unit
IsBounded m l (some tx) =
    (tx.max_bid ≡ m.max_bid)
    × (l.earliest_biddable_round ≤ tx.first)
    × (tx.last ≤ l.latest_biddable_round)
    × (tx.value < m.max_bid * (max_bid_rounds + 1))

bid_on-IsBounded :
    (m : AuctionMonitor) (l : Layer1) (cs : List (ℕ × Bid))
    → All (IsChosen m l.earliest_biddable_round (l.latest_biddable_round + 1)) cs
    → length cs ≤ max_bid_rounds + 1
    → IsBounded m l (bid_on m cs)
unfolding bid_on
bid_on-IsBounded m l [] all few = tt
bid_on-IsBounded m l ((r, b) ∷ cs) all few =
    let cost =
      wei_cost-le m l.earliest_biddable_round (l.latest_biddable_round + 1) ((r, b) ∷ cs) all in
    let most = mul-le-mul_left m.max_bid few in
    let last =
      last_round-IsChosen m l.earliest_biddable_round (l.latest_biddable_round + 1) r cs all.0.1
        all.1 in
    on_if (IsBounded m l) (too_early r m.current_round) none _ (λ early. tt)
      (λ due. (refl, all.0.0, omega (arith, last), omega (arith, cost, most)))

nothing :
    (m : AuctionMonitor) (l : Layer1) (low : ℕ)
    → IsBounded m l (bid_on m ((rounds_to_bid m l 0 low [] m.bids_per_round).0))
unfolding rounds_to_bid bid_on
nothing m l low = tt

-- What `bidIfNeeded` sends, if anything, has the maximal bid of the monitor, starts and ends
-- within the biddable rounds, and carries less ETH than sixteen times the maximal bid.
pub bid_if_needed-IsBounded :
    (l : Layer1) (m : AuctionMonitor) → IsBounded m l ((bid_if_needed l m).1)
unfolding bid_if_needed
bid_if_needed-IsBounded l m =
    let low = l.earliest_biddable_round in
    let count = l.latest_biddable_round + 1 - low in
    let found = rounds_to_bid m l count low [] m.bids_per_round in
    let chosen =
      rounds_to_bid-IsChosen m l low count low [] m.bids_per_round (omega arith) tt (omega arith) in
    on_if (λ (r : AuctionMonitor × Option MultiBid). IsBounded m l r.1) (not l.is_staked) (m, none)
      (record m { bids_per_round = found.1 }, bid_on m found.0) (λ out. tt)
      (λ staked. elim (le_or_gt low (l.latest_biddable_round + 1)) [
        | inl h ↦
            bid_on-IsBounded m l found.0
              (widen m low (low + count) (l.latest_biddable_round + 1) found.0 (omega arith)
                chosen.0)
              chosen.1
        | inr h ↦
            let none_left : count ≡ 0 = omega arith in
            subst (λ c. IsBounded m l (bid_on m ((rounds_to_bid m l c low [] m.bids_per_round).0)))
              (sym none_left) (nothing m l low)
      ])
  where
    le_or_gt : (a b : ℕ) → (a ≤ b) ⊎ (b < a)
    le_or_gt a b = omega arith

-- The first chosen round stays the first.
head_kept :
    (m : AuctionMonitor) (l : Layer1) (count round : ℕ) (c : ℕ × Bid) (cs bids : List (ℕ × Bid))
    → (rest : List (ℕ × Bid)) × ((rounds_to_bid m l count round (c ∷ cs) bids).0 ≡ c ∷ rest)
unfolding rounds_to_bid
head_kept m l zero round c cs bids = (cs, refl)
head_kept m l (suc count) round c cs bids =
    let b = known l round (bid_for round bids) in
    let bids' = remember round b (bid_for round bids) bids in
    let P =
      λ (found : List (ℕ × Bid) × List (ℕ × Bid)). (rest : List (ℕ × Bid)) × (found.0 ≡ c ∷ rest) in
    on_if P (ltb max_bid_rounds (length (c ∷ cs))) (c ∷ cs, bids) _ (λ full. (cs, refl))
      (λ room.
        on_if P (worth_bidding m b) _ _
          (λ worth. head_kept m l count (round + 1) c (cs ++ (round, b) ∷ []) bids')
          (λ other. head_kept m l count (round + 1) c cs bids'))

bid_on-head :
    (m : AuctionMonitor) (r : ℕ) (b : Bid) (found : List (ℕ × Bid))
    → (rest : List (ℕ × Bid)) × (found ≡ (r, b) ∷ rest)
    → too_early r m.current_round ≡ false
    → (tx : MultiBid) × (bid_on m found ≡ some tx) × (tx.first ≡ r)
unfolding bid_on
bid_on-head m r b found (rest, e) due = (
  record {
    max_bid = m.max_bid;
    first = r;
    last = last_round r rest;
    value = wei_cost ((r, b) ∷ rest);
  },
  rw (e, due) refl,
  refl,
)

first_chosen :
    (m : AuctionMonitor) (l : Layer1) (count : ℕ)
    → let low = l.earliest_biddable_round in
      let b = known l low (bid_for low m.bids_per_round) in
      worth_bidding m b ≡ true
      → (rest : List (ℕ × Bid)) × ((rounds_to_bid m l (suc count) low [] m.bids_per_round).0
          ≡ (low, b) ∷ rest)
unfolding rounds_to_bid
first_chosen m l count worth =
    let low = l.earliest_biddable_round in
    let b = known l low (bid_for low m.bids_per_round) in
    rw worth (
      head_kept m l count (low + 1) (low, b) []
        (remember low b (bid_for low m.bids_per_round) m.bids_per_round))

-- When the account is staked, some round is biddable, and the earliest of these is worth a bid and
-- within the threshold, `bidIfNeeded` sends a bid, which starts at this round.
pub bid_if_needed-bids :
    (l : Layer1) (m : AuctionMonitor)
    → l.is_staked ≡ true
    → l.earliest_biddable_round ≤ l.latest_biddable_round
    → worth_bidding m
        (known l l.earliest_biddable_round (bid_for l.earliest_biddable_round m.bids_per_round))
      ≡ true
    → too_early l.earliest_biddable_round m.current_round ≡ false
    → (tx : MultiBid) × ((bid_if_needed l m).1 ≡ some tx) × (tx.first ≡ l.earliest_biddable_round)
unfolding bid_if_needed
bid_if_needed-bids l m staked open_ worth due =
    let low = l.earliest_biddable_round in
    let b = known l low (bid_for low m.bids_per_round) in
    let count = l.latest_biddable_round - low in
    let left : l.latest_biddable_round + 1 - low ≡ suc count = omega arith in
    let found = rounds_to_bid m l (l.latest_biddable_round + 1 - low) low [] m.bids_per_round in
    let head =
      subst
        (λ k.
          (rest : List (ℕ × Bid)) × ((rounds_to_bid m l k low [] m.bids_per_round).0
            ≡ (low, b) ∷ rest))
        (sym left) (first_chosen m l count worth) in
    on_if
      (λ (r : AuctionMonitor × Option MultiBid).
        (tx : MultiBid) × (r.1 ≡ some tx) × (tx.first ≡ low))
      (not l.is_staked) (m, none) (record m { bids_per_round = found.1 }, bid_on m found.0)
      (λ out. absurd (ground (arith, staked, out))) (λ in_. bid_on-head m low b found.0 head due)
