-- ===== src/Transaction/TxBuilder.antt =====
-- `build` of packages/transaction/src/tx-builder.ts, as far as it finds the ETH to spend: the fee, the
-- ETH that is required, and the loop that spends notes until there is more. An error returns `none`.
pub mod Spends
use zkopru.Base.{
  Eq, nat_eq, ℕ, ◌+◌, ◌*◌, ◌%◌, Bool, false, Option, none, some, List, [], ◌∷◌, ◌++◌, ltb, leb,
  if◌then◌else◌, length,
}
use zkopru.Transaction.Fp.{order}
use zkopru.Transaction.Size.{tx_size_calculator}
use zkopru.Transaction.NoteSum.{Asset, ether_from}

-- What is known when the loop starts: the ETH that is sent, the fees of the withdrawals and migrations,
-- the fee per byte, and the numbers that make the size.
pub record Outgoing : Type 0 where
  pub eth : ℕ
  pub l1_fee : ℕ
  pub fee_per_byte : ℕ
  pub sendings : ℕ
  pub changes : ℕ
  pub with_data : ℕ
  pub swaps : Bool

-- `getTxFee`, for a number of notes that are spent; one outflow more is for the change.
unfoldable pub get_tx_fee : Outgoing → ℕ → ℕ
get_tx_fee o spent =
    o.fee_per_byte
    * tx_size_calculator spent (o.sendings + o.changes + 1) o.with_data o.swaps false
    % order

unfoldable pub get_required_eth : Outgoing → ℕ → ℕ
unfolding get_tx_fee
get_required_eth o spent = ((o.eth + get_tx_fee o spent) % order + o.l1_fee) % order

-- The test of the loop.
unfoldable pub too_little : Outgoing → List Asset → Bool
unfolding ether_from get_required_eth
too_little o spendings = leb (ether_from 0 spendings) (get_required_eth o (length spendings))

-- The loop, over the notes in the order in which they are popped.
unfoldable pub spend_ether : Outgoing → List Asset → List Asset → Option (List Asset)
unfolding too_little
spend_ether o [] spendings = if too_little o spendings then none else some spendings
spend_ether o (u ∷ spendables) spendings =
    let rest = spend_ether o spendables (if ltb 0 u.eth then spendings ++ u ∷ [] else spendings) in
    if too_little o spendings then rest else some spendings
