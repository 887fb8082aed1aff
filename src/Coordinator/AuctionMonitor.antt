-- ===== src/Coordinator/AuctionMonitor.antt =====
-- packages/coordinator/src/auction-monitor.ts: the rounds of the auction, the blocks that are
-- received, and the bids. What the contracts answer is a parameter. Blocks are received from the start
-- block on; `current_round` is `none` for the source's -1. Addresses are numbers, which stand for the
-- addresses in lower case. Locks and subscriptions are not modelled.
pub mod Chosen
pub mod Bids
pub mod Rounds
mod Tests
use zkopru.Base.{
  ℕ, zero, suc, ◌+◌, ◌-◌, ◌*◌, ◌/◌, Bool, true, false, not, ◌&&◌, Option, none, some, List, [], ◌∷◌,
  ◌++◌, ◌==◌, ltb, leb, if◌then◌else◌, or_else, length,
}

pub record Bid : Type 0 where
  pub owner : ℕ
  pub amount : ℕ

pub record AuctionMonitor : Type 0 where
  pub start_block : ℕ
  pub round_length : ℕ
  pub current_round : Option ℕ
  pub current_proposer : ℕ
  pub is_proposable : Bool
  pub is_proposable_last_updated : ℕ
  pub account : ℕ
  pub max_bid : ℕ
  pub bids_per_round : List (ℕ × Bid)

-- The answers of the contracts and the client of layer 1 during one call.
pub record Layer1 : Type 0 where
  pub is_staked : Bool
  pub proposable : Bool
  pub block_number : ℕ
  pub coordinator_for_round : ℕ → ℕ
  pub earliest_biddable_round : ℕ
  pub latest_biddable_round : ℕ
  pub highest_bid_for_round : ℕ → Bid

-- `multiBid(0, maxBid, earliestBidRound, latestBidRound)`, with the ETH that is sent.
pub record MultiBid : Type 0 where
  pub max_bid : ℕ
  pub first : ℕ
  pub last : ℕ
  pub value : ℕ

abbrev pub max_bid_rounds : ℕ
max_bid_rounds = 15

abbrev pub round_bid_threshold : ℕ
round_bid_threshold = 3

unfoldable pub round_for_block : AuctionMonitor → ℕ → ℕ
round_for_block m block = (block - m.start_block) / m.round_length

unfoldable pub round_start_block : AuctionMonitor → ℕ → ℕ
round_start_block m round = m.start_block + m.round_length * round

unfoldable pub round_end_block : AuctionMonitor → ℕ → ℕ
round_end_block m round = round_start_block m round + m.round_length - 1

unfoldable pub update_is_proposable : Layer1 → AuctionMonitor → AuctionMonitor
update_is_proposable l m = record m {
  is_proposable = l.proposable;
  is_proposable_last_updated = l.block_number;
}

abbrev pub bid_for : ℕ → List (ℕ × Bid) → Option Bid
bid_for round [] = none
bid_for round ((r, b) ∷ bids) = let rest = bid_for round bids in if r == round then some b else rest

abbrev pub known : Layer1 → ℕ → Option Bid → Bid
known l round none = l.highest_bid_for_round round
known l round (some b) = b

abbrev pub remember : ℕ → Bid → Option Bid → List (ℕ × Bid) → List (ℕ × Bid)
remember round b none bids = (round, b) ∷ bids
remember round b (some known_bid) bids = bids

-- The next bid: a tenth more.
abbrev pub next_amount : Bid → ℕ
next_amount b = b.amount + b.amount / 10

unfoldable pub worth_bidding : AuctionMonitor → Bid → Bool
worth_bidding m b = ltb (next_amount b) m.max_bid && not (b.owner == m.account)

-- The loop over the biddable rounds, `count` of them left from `round` on: the rounds to bid on, in
-- ascending order, with their bids.
unfoldable pub rounds_to_bid :
    AuctionMonitor
    → Layer1
    → ℕ
    → ℕ
    → List (ℕ × Bid)
    → List (ℕ × Bid)
    → List (ℕ × Bid) × List (ℕ × Bid)
rounds_to_bid m l zero round chosen bids = (chosen, bids)
rounds_to_bid m l (suc count) round chosen bids =
    let b = known l round (bid_for round bids) in
    let bids' = remember round b (bid_for round bids) bids in
    let with_it = rounds_to_bid m l count (round + 1) (chosen ++ (round, b) ∷ []) bids' in
    let without = rounds_to_bid m l count (round + 1) chosen bids' in
    if ltb max_bid_rounds (length chosen)
    then (chosen, bids)
    else (if worth_bidding m b then with_it else without)

-- `earliestBidRound - this.currentRound > this.roundBidThreshold`
unfoldable pub too_early : ℕ → Option ℕ → Bool
too_early earliest none = ltb round_bid_threshold (earliest + 1)
too_early earliest (some current) = ltb (current + round_bid_threshold) earliest

unfoldable pub wei_cost : List (ℕ × Bid) → ℕ
wei_cost [] = 0
wei_cost ((r, b) ∷ chosen) = next_amount b + wei_cost chosen

abbrev pub last_round : ℕ → List (ℕ × Bid) → ℕ
last_round round [] = round
last_round round ((r, b) ∷ chosen) = last_round r chosen

-- What is sent for the chosen rounds.
unfoldable pub bid_on : AuctionMonitor → List (ℕ × Bid) → Option MultiBid
bid_on m [] = none
bid_on m ((r, b) ∷ chosen) =
    if too_early r m.current_round
    then none
    else some record {
      max_bid = m.max_bid;
      first = r;
      last = last_round r chosen;
      value = wei_cost ((r, b) ∷ chosen);
    }

unfoldable pub bid_if_needed : Layer1 → AuctionMonitor → AuctionMonitor × Option MultiBid
bid_if_needed l m =
    let found =
      rounds_to_bid m l (l.latest_biddable_round + 1 - l.earliest_biddable_round)
        l.earliest_biddable_round [] m.bids_per_round in
    if not l.is_staked then (m, none) else (record m { bids_per_round = found.1 }, bid_on m found.0)

abbrev pub same_round : ℕ → Option ℕ → Bool
same_round round none = false
same_round round (some current) = round == current

-- `blockReceived`; half a round is compared in halves of blocks.
unfoldable pub block_received : Layer1 → AuctionMonitor → ℕ → AuctionMonitor × Option MultiBid
block_received l m block =
    let new_round = round_for_block m block in
    let mid = 2 * round_start_block m new_round + m.round_length in
    let m' =
      if leb mid (2 * block) && ltb (2 * m.is_proposable_last_updated) mid
      then update_is_proposable l m
      else m in
    if same_round new_round m'.current_round
    then (m', none)
    else bid_if_needed l (record (update_is_proposable l m') {
      current_round = some new_round;
      current_proposer = l.coordinator_for_round new_round;
    })

-- The handler of `NewHighBid`.
unfoldable pub new_high_bid : Layer1 → AuctionMonitor → ℕ → Bid → AuctionMonitor × Option MultiBid
new_high_bid l m round b =
    let m' = record m { bids_per_round = (round, b) ∷ m.bids_per_round } in
    if not (b.owner == m.account)
      && (not (ltb m.max_bid b.amount) && not (too_early round m.current_round))
    then bid_if_needed l m'
    else (m', none)

-- `setMaxBid`, with the bid that it starts.
unfoldable pub set_max_bid : Layer1 → AuctionMonitor → ℕ → AuctionMonitor × Option MultiBid
set_max_bid l m new_max_bid = bid_if_needed l (record m { max_bid = new_max_bid })
