-- ===== src/Block/TxsRoundTrip.antt =====
-- `serializeTxs` and `deserializeTxsFrom` of packages/core/src/block/utils.ts against each other.
use zkopru.Base.{
  ℕ, ◌+◌, ◌<◌, ◌≡◌, refl, ap, ◌∙◌, subst, List, [], ◌∷◌, ◌++◌, map, length, All, length-map, arith,
}
use zkopru.Utils.Numbers.{num_to_buffer, writes-number}
use zkopru.Transaction.Fp.{BigNumber, IsBigEndian}
use zkopru.Transaction.Buffer.{done, ◌>>◌, read_many}
use zkopru.Transaction.ZkTx.{ZkTx}
use zkopru.Transaction.ZkTx.Encodable.{IsEncodable}
use zkopru.Transaction.ZkTx.Writes.{
  Writes, WritesAll, writes-cons, writes-many, writes-nil, sum_map, ++-[],
}
use zkopru.Transaction.ZkTx.RoundTrip.{tx_size, writes-tx}
use zkopru.Block.Txs.{serialize_tx, serialize_txs, deserialize_tx, deserialize_txs_from}
use zkopru.Block.Agrees.{uncached, serialize_tx-encode, deserialize_tx-read_tx}

-- Transactions that a block can carry.
pub record IsListable (txs : List ZkTx) : Type 0 where
  pub encodable : All IsEncodable txs
  pub few : length txs < 65536

abbrev IsPlain : ZkTx → Type 0
IsPlain tx = IsEncodable tx × (uncached tx ≡ tx)

IsPlain-uncached : (txs : List ZkTx) → All IsEncodable txs → All IsPlain (map uncached txs)
IsPlain-uncached [] all = tt
IsPlain-uncached (tx ∷ txs) all = (
  (
    record {
      few_inflows = all.0.few_inflows;
      few_outflows = all.0.few_outflows;
      inflows = all.0.inflows;
      outflows = all.0.outflows;
      fee_fits = all.0.fee_fits;
      proven = all.0.proven;
      swap_fits = all.0.swap_fits;
      memo_fits = all.0.memo_fits;
    },
    refl,
  ),
  IsPlain-uncached txs all.1,
)

module _ (bn : BigNumber) (big : IsBigEndian bn) where
  writes-plain :
      (tx : ZkTx) → IsPlain tx → Writes (serialize_tx bn tx) deserialize_tx tx (tx_size tx)
  writes-plain tx h =
      let w = writes-tx bn big tx 0 tx.proof h.0 h.0.proven in
      record {
        bytes = w.bytes;
        made = serialize_tx-encode bn tx h.0 ∙ w.made;
        size = w.size;
        reads = λ rest.
            rw (deserialize_tx-read_tx 0 (w.bytes ++ rest), w.reads rest) (ap (λ t. (t, rest)) h.1);
      }

  serialize_tx-uncached :
      (txs : List ZkTx) → map (serialize_tx bn) (map uncached txs) ≡ map (serialize_tx bn) txs
  unfolding serialize_tx
  serialize_tx-uncached [] = refl
  serialize_tx-uncached (tx ∷ txs) = ap (◌∷◌ (serialize_tx bn tx)) (serialize_tx-uncached txs)

  abbrev txs_size : List ZkTx → ℕ
  txs_size txs = 2 + (sum_map tx_size (map uncached txs) + 0)

  pub writes-txs :
      (txs : List ZkTx)
      → IsListable txs
      → Writes (serialize_txs bn txs) deserialize_txs_from (map uncached txs) (txs_size txs)
  unfolding serialize_txs deserialize_txs_from
  writes-txs txs ok =
      let plain = map uncached txs in
      let same : length plain ≡ length txs = length-map uncached txs in
      let items : WritesAll (map (serialize_tx bn) plain ++ [])
          (read_many (length plain) deserialize_tx >> λ ys. done ys) plain
          (sum_map tx_size plain + 0) =
        writes-many IsPlain (serialize_tx bn) deserialize_tx tx_size (λ ys. done ys) writes-plain
          plain (IsPlain-uncached txs ok.encodable) (writes-nil plain) in
      let whole : WritesAll (num_to_buffer (length txs) 2 ∷ map (serialize_tx bn) txs)
          deserialize_txs_from plain (txs_size txs) =
        writes-cons _ (writes-number (length txs) 2 (omega (arith, ok.few))) (
          subst
            (λ es.
              WritesAll es (read_many (length txs) deserialize_tx >> λ ys. done ys) plain
                (sum_map tx_size plain + 0))
            (++-[] (map (serialize_tx bn) plain) ∙ serialize_tx-uncached txs)
            (subst
              (λ k.
                WritesAll (map (serialize_tx bn) plain ++ [])
                  (read_many k deserialize_tx >> λ ys. done ys) plain (sum_map tx_size plain + 0))
              same items)) in
      whole.whole
