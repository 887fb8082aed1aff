-- ===== src/Coordinator/AuctionMonitor/Rounds.antt =====
-- The rounds of auction-monitor.ts, and what a received block leaves.
use native.Mathlib.Nat.{div-add-mod, mod-lt}
use zkopru.Base.{
  ℕ, ◌+◌, ◌-◌, ◌*◌, ◌≤◌, ◌<◌, ◌≡◌, refl, true, some, none, arith, ltb, leb, on_if, if◌then◌else◌,
  ◌&&◌, not, Option, [],
}
use zkopru.Coordinator.AuctionMonitor.{
  AuctionMonitor, Layer1, MultiBid, round_for_block, round_start_block, round_end_block,
  update_is_proposable, bid_if_needed, block_received, same_round, rounds_to_bid, bid_on,
}

-- When rounds have a length, every block from the start block on lies between the start block and
-- the end block of its round.
round_for_block-bounds :
    (m : AuctionMonitor) (block : ℕ)
    → 0 < m.round_length
    → m.start_block ≤ block
    → (round_start_block m (round_for_block m block) ≤ block)
      × (block ≤ round_end_block m (round_for_block m block))
unfolding round_for_block round_start_block round_end_block
round_for_block-bounds m block pos from =
    let whole = div-add-mod (block - m.start_block) m.round_length in
    let small = mod-lt (block - m.start_block) pos in
    (omega (arith, whole), omega (arith, whole, small))

-- The middle of the round of a block, in halves of blocks.
abbrev pub middle : AuctionMonitor → ℕ → ℕ
middle m block = 2 * round_start_block m (round_for_block m block) + m.round_length

same_round-some : (r : ℕ) (o : Option ℕ) → same_round r o ≡ true → o ≡ some r
same_round-some r none h = absurd (ground (arith, h))
same_round-some r (some c) h = ground (arith, h)

-- A call that changes neither the round nor the time of the last check.
abbrev Keeps : AuctionMonitor → AuctionMonitor × Option MultiBid → Type 0
Keeps m r =
    (r.0.current_round ≡ m.current_round)
    × (r.0.is_proposable_last_updated ≡ m.is_proposable_last_updated)

bid_if_needed-Keeps : (l : Layer1) (m : AuctionMonitor) → Keeps m (bid_if_needed l m)
unfolding bid_if_needed
bid_if_needed-Keeps l m =
    let found =
      rounds_to_bid m l (l.latest_biddable_round + 1 - l.earliest_biddable_round)
        l.earliest_biddable_round [] m.bids_per_round in
    on_if (Keeps m) (not l.is_staked) (m, none)
      (record m { bids_per_round = found.1 }, bid_on m found.0) (λ out. (refl, refl))
      (λ staked. (refl, refl))

-- What a received block is to leave.
abbrev pub IsCurrent : AuctionMonitor → ℕ → AuctionMonitor × Option MultiBid → Type 0
IsCurrent m block r =
    (r.0.current_round ≡ some (round_for_block m block))
    × (middle m block ≤ 2 * block → middle m block ≤ 2 * r.0.is_proposable_last_updated)

-- The second half of `blockReceived`.
abbrev entered : Layer1 → ℕ → AuctionMonitor → AuctionMonitor
entered l round m = record (update_is_proposable l m) {
  current_round = some round;
  current_proposer = l.coordinator_for_round round;
}

entered-IsCurrent :
    (l : Layer1) (m m' : AuctionMonitor) (block : ℕ)
    → block ≤ l.block_number
    → (middle m block ≤ 2 * block → middle m block ≤ 2 * m'.is_proposable_last_updated)
    → IsCurrent m block (
        if same_round (round_for_block m block) m'.current_round
        then (m', none)
        else bid_if_needed l (entered l (round_for_block m block) m'))
unfolding update_is_proposable
entered-IsCurrent l m m' block seen fresh =
    let round = round_for_block m block in
    let after = bid_if_needed-Keeps l (entered l round m') in
    on_if (IsCurrent m block) (same_round round m'.current_round) (m', none)
      (bid_if_needed l (entered l round m'))
      (λ same. (same_round-some round m'.current_round same, fresh))
      (λ new. (after.0, λ h. omega (arith, seen, after.1)))

-- After `blockReceived`, when the client of layer 1 has seen the block, the current round is that
-- of the block, and if the block lies in the second half of its round, then it was checked there
-- whether the account may propose.
pub block_received-IsCurrent :
    (l : Layer1) (m : AuctionMonitor) (block : ℕ)
    → block ≤ l.block_number
    → IsCurrent m block (block_received l m block)
unfolding block_received update_is_proposable
block_received-IsCurrent l m block seen =
    let mid = middle m block in
    on_if
      (λ m'. IsCurrent m block (
        if same_round (round_for_block m block) m'.current_round
        then (m', none)
        else bid_if_needed l (entered l (round_for_block m block) m')))
      (leb mid (2 * block) && ltb (2 * m.is_proposable_last_updated) mid) (update_is_proposable l m)
      m
      (λ due.
        entered-IsCurrent l m (update_is_proposable l m) block seen (λ h. omega (arith, seen)))
      (λ early. entered-IsCurrent l m m block seen (λ h. ground (arith, early)))
