-- ===== src/Coordinator/AuctionMonitor/Tests.antt =====
-- Runs of auction-monitor.ts in the rounds of ten blocks from block 100 on.
use zkopru.Base.{◌≡◌, refl, true, false, some, [], ◌∷◌, arith}
use zkopru.Coordinator.AuctionMonitor.{
  AuctionMonitor, Layer1, MultiBid, worth_bidding, too_early, bid_if_needed, bid_on, rounds_to_bid,
  wei_cost,
}
use zkopru.Coordinator.AuctionMonitor.Bids.{IsBounded, bid_if_needed-IsBounded, bid_if_needed-bids}

abbrev monitor : AuctionMonitor
monitor = record {
  start_block = 100;
  round_length = 10;
  current_round = some 1;
  current_proposer = 1;
  is_proposable = false;
  is_proposable_last_updated = 111;
  account = 5;
  max_bid = 1000;
  bids_per_round = (4, record { owner = 6; amount = 990 }) ∷ [];
}

-- Bids of 100 stand for the rounds that are not known yet.
abbrev chain : Layer1
chain = record {
  is_staked = true;
  proposable = true;
  block_number = 126;
  coordinator_for_round = λ r. 7;
  earliest_biddable_round = 3;
  latest_biddable_round = 40;
  highest_bid_for_round = λ r. record { owner = 6; amount = 100 };
}

-- Round 3 is the first of sixteen, and round 4 is too dear.
what_is_bid :
    (bid_if_needed chain monitor).1
    ≡ some record { max_bid = 1000; first = 3; last = 19; value = 1760 }
unfolding bid_if_needed bid_on rounds_to_bid worth_bidding too_early wei_cost
what_is_bid = refl

bid_if_needed-IsBounded_example : IsBounded monitor chain ((bid_if_needed chain monitor).1)
bid_if_needed-IsBounded_example = bid_if_needed-IsBounded chain monitor

worth : worth_bidding monitor (record { owner = 6; amount = 100 }) ≡ true
unfolding worth_bidding
worth = refl

due : too_early 3 (some 1) ≡ false
unfolding too_early
due = refl

bid_if_needed-bids_example :
    (tx : MultiBid) × ((bid_if_needed chain monitor).1 ≡ some tx) × (tx.first ≡ 3)
bid_if_needed-bids_example = bid_if_needed-bids chain monitor refl (omega arith) worth due
