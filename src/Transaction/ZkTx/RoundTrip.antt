-- ===== src/Transaction/ZkTx/RoundTrip.antt =====
-- `ZkTx.encode` and `ZkTx.decode` of zk-tx.ts against each other, on whole transactions.
use zkopru.Base.{
  ℕ, ◌+◌, ◌≡◌, sym, ap, ◌∙◌, subst, Option, some, none, List, [], ◌∷◌, ◌++◌, map, length,
}
use zkopru.Transaction.Fp.{BigNumber, IsBigEndian}
use zkopru.Transaction.ZkTx.{
  Snark, ZkTx, memo_switch, swap_switch, byte, encode_inflow, encode_outflow, encode_swap,
  encode_memo, encode_proof, encode, read_tx, decode,
}
use zkopru.Transaction.ZkTx.Encodable.{
  IsInflow, IsOutflow, IsSnark, IsEncodable, outflow_size, swap_size, memo_size,
}
use zkopru.Transaction.ZkTx.Writes.{
  Writes, WritesAll, writes-cons, writes-many, writes-map, writes-byte, writes-last, writes-append,
  sum_map, ++-[],
}
use zkopru.Transaction.ZkTx.Parts.{writes-field, writes-inflow, writes-outflow, writes-snark}
use zkopru.Transaction.ZkTx.Switch.{IsSwitch-cases, IsSwitch-small, writes-swap, writes-memo}

-- The bytes that `encode` writes for a transaction.
unfoldable pub tx_size : ZkTx → ℕ
tx_size tx =
    1
    + (sum_map (λ i. 64) tx.inflow
        + (1
            + (sum_map outflow_size tx.outflow
                + (32 + (256 + (1 + (swap_size tx.swap + memo_size tx.memo)))))))

abbrev size_or : ℕ → Option (List ℕ) → ℕ
size_or d none = d
size_or d (some bs) = length bs

abbrev cached : ℕ → ZkTx → ZkTx
cached size tx = record tx { cached_hash = none; cached_size = some size }

abbrev with_proof : Option Snark → ZkTx → ZkTx
with_proof o tx = record tx { proof = o }

module _ (bn : BigNumber) (big : IsBigEndian bn) where
  -- The parts that `encode` joins.
  abbrev parts : ZkTx → Snark → List (Option (List ℕ))
  parts tx p =
      byte (length tx.inflow) ∷ map (encode_inflow bn) tx.inflow
      ++ (byte (length tx.outflow) ∷ map (encode_outflow bn) tx.outflow
          ++ (bn.to_array 32 tx.fee ∷ encode_proof bn p
              ++ (byte (swap_switch tx.swap + memo_switch tx.memo)
                  ∷ encode_swap bn tx.swap
                  ∷ encode_memo bn tx.memo
                  ∷ [])))

  writes-parts :
      (tx : ZkTx) (p : Snark) (size : ℕ)
      → IsEncodable tx
      → IsSnark (some p)
      → WritesAll (parts tx p) (read_tx size) (cached size (with_proof (some p) tx)) (tx_size tx)
  unfolding read_tx tx_size swap_switch memo_switch
  writes-parts tx p size ok snark = writes-cons _ (writes-byte (length tx.inflow) ok.few_inflows) (
      writes-many IsInflow _ _ (λ i. 64) _ (writes-inflow bn big) tx.inflow ok.inflows
        (writes-cons _ (writes-byte (length tx.outflow) ok.few_outflows) (
          writes-many IsOutflow _ _ outflow_size _ (writes-outflow bn big) tx.outflow ok.outflows (
            writes-cons _ (writes-field bn big tx.fee ok.fee_fits) (
              writes-append _ (writes-snark bn big p snark) (
                writes-cons _
                  (writes-byte (swap_switch tx.swap + memo_switch tx.memo) (
                    IsSwitch-small tx.swap (memo_switch tx.memo)
                      (IsSwitch-cases tx.memo ok.memo_fits)))
                  (writes-cons _
                    (writes-swap bn big tx.swap (memo_switch tx.memo) ok.swap_fits
                      (IsSwitch-cases tx.memo ok.memo_fits))
                    (writes-last
                      (writes-map _ (writes-memo bn big tx.swap tx.memo ok.memo_fits))))))))))

  pub writes-tx :
      (tx : ZkTx) (size : ℕ) (o : Option Snark)
      → IsEncodable tx
      → IsSnark o
      → Writes
          (encode bn (with_proof o tx))
          (read_tx size)
          (cached size (with_proof o tx))
          (tx_size tx)
  unfolding encode
  writes-tx tx size none ok snark = elim snark [ ]
  writes-tx tx size (some p) ok snark = let w = writes-parts tx p size ok snark in w.whole

  -- When BN.js writes numbers big-endian in the given width, a transaction whose parts fit their
  -- fields is encoded without an error, and the bytes decode to the same transaction, with no hash
  -- in its cache and the number of the bytes as the size in it.
  pub decode-encode :
      (tx : ZkTx)
      → IsEncodable tx
      → (bs : List ℕ) × (encode bn tx ≡ some bs)
        × (decode bs ≡ record tx { cached_hash = none; cached_size = some (length bs) })
  unfolding decode
  decode-encode tx ok =
      let w = writes-tx tx (tx_size tx) tx.proof ok ok.proven in
      let at_end = w.reads [] in
      (
        w.bytes,
        w.made,
        subst (λ k. (read_tx k w.bytes).0 ≡ cached k tx) (sym w.size)
            (ap (λ r. r.0)
              (subst (λ bs. read_tx (tx_size tx) bs ≡ (cached (tx_size tx) tx, [])) (++-[] w.bytes)
                at_end)),
      )

  pub length-encode :
      (tx : ZkTx) → IsEncodable tx → (bs : List ℕ) → encode bn tx ≡ some bs → length bs ≡ tx_size tx
  length-encode tx ok bs made =
      let w = writes-tx tx 0 tx.proof ok ok.proven in
      some_size (encode bn tx) w.bytes bs w.made made w.size
    where
      some_size :
          (o : Option (List ℕ)) (xs ys : List ℕ) {n : ℕ}
          → o ≡ some xs
          → o ≡ some ys
          → length xs ≡ n
          → length ys ≡ n
      some_size o xs ys ex ey l = ap (size_or 0) (sym ey ∙ ex) ∙ l
