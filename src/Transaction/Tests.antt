-- ===== src/Transaction/Tests.antt =====
-- Runs of the encoding of zk-tx.ts on a transaction with a note that stays and a withdrawal, with
-- BN.js writing numbers digit by digit.
use zkopru.Base.{
  ◌<◌, ◌%◌, ◌⊎◌, [], ◌∷◌, map, ℕ, ◌+◌, ◌≡◌, refl, true, false, none, some, List, length,
}
use zkopru.Transaction.Fp.{order}
use zkopru.Transaction.NoteSum.{Asset, Sum, sum_from, get_erc20, get_nfts}
use zkopru.Transaction.NoteSum.Totals.{total, amounts_at, nfts_at, sum_from-totals}
use zkopru.Transaction.TxBuilder.{Outgoing, spend_ether}
use zkopru.Transaction.TxBuilder.Spends.{IsShort, IsEnough, spent_with, spend_ether-greedy}
use zkopru.Transaction.ZkTx.{encode, decode}
use zkopru.Transaction.ZkTx.RoundTrip.{decode-encode}
use zkopru.Transaction.Samples.{writer, writer-IsBigEndian, payment, payment-IsEncodable}
use zkopru.Transaction.Size.{tx_size_calculator, tx_size_calculator-length}

decode-encode_example :
    (bs : List ℕ) × (encode writer payment ≡ some bs)
    × (decode bs ≡ record payment { cached_hash = none; cached_size = some (length bs) })
decode-encode_example = decode-encode writer writer-IsBigEndian payment payment-IsEncodable

abbrev payment_bytes : List ℕ
payment_bytes = let r = decode-encode writer writer-IsBigEndian payment payment-IsEncodable in r.0

payment_bytes_made : encode writer payment ≡ some payment_bytes
payment_bytes_made =
    let r = decode-encode writer writer-IsBigEndian payment payment-IsEncodable in r.1

tx_size_calculator-length_example : length payment_bytes ≡ 32 + tx_size_calculator 1 2 1 true false
tx_size_calculator-length_example =
    tx_size_calculator-length writer writer-IsBigEndian payment payment-IsEncodable (refl, refl)
      payment_bytes payment_bytes_made

-- Two notes with ETH, one of which has an amount of the token 7, and one with an NFT of it.
abbrev notes : List Asset
notes =
    record { eth = 9; token_addr = 7; erc20_amount = 30; nft = 0 }
    ∷ record { eth = 0; token_addr = 7; erc20_amount = 0; nft = 4 }
    ∷ record { eth = 5; token_addr = 0; erc20_amount = 0; nft = 0 }
    ∷ []

sum_from-totals_example :
    (sum : Sum) × (sum_from some notes ≡ some sum)
    × (sum.eth ≡ total (map (λ a. a.eth) notes) % order)
    × ((key : ℕ)
        → (get_erc20 sum.erc20 key ≡ total (amounts_at some (λ x. x) key notes) % order)
          × (get_nfts sum.erc721 key ≡ nfts_at some (λ x. x) key notes))
sum_from-totals_example = sum_from-totals some (λ x. x) notes (refl, (refl, (refl, tt)))

abbrev outgoing : ℕ → Outgoing
outgoing eth = record {
  eth = eth;
  l1_fee = 0;
  fee_per_byte = 0;
  sendings = 1;
  changes = 0;
  with_data = 0;
  swaps = false;
}

spend_ether-greedy_example :
    ((spend_ether (outgoing 8) notes [] ≡ none) × ((k : ℕ) → IsShort (outgoing 8) notes [] k))
    ⊎ ((k : ℕ) × (spend_ether (outgoing 8) notes [] ≡ some (spent_with [] notes k))
        × IsEnough (outgoing 8) notes [] k
        × ((j : ℕ) → j < k → IsShort (outgoing 8) notes [] j))
spend_ether-greedy_example = spend_ether-greedy (outgoing 8) notes []

-- The notes are not enough for exactly what they have.
exact_fails : spend_ether (outgoing 14) notes [] ≡ none
unfolding spend_ether order tx_size_calculator
exact_fails = refl

one_less :
    spend_ether (outgoing 13) notes []
    ≡ some (
        record { eth = 9; token_addr = 7; erc20_amount = 30; nft = 0 }
        ∷ record { eth = 5; token_addr = 0; erc20_amount = 0; nft = 0 }
        ∷ [])
unfolding spend_ether order tx_size_calculator
one_less = refl
