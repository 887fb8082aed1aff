-- ===== src/Transaction/ZkTx/Cached.antt =====
-- `size`, `hash` and `signals` of zk-tx.ts; the first two keep their result in the cache of the
-- transaction. Keccak over the packed bytes is a parameter.
use zkopru.Base.{
  ℕ, ◌≡◌, refl, false, Option, none, some, List, [], ◌∷◌, ◌++◌, ◌==◌, if◌then◌else◌, ◌>>=◌, map,
  length, arith, replicate,
}
use mathlib.Core.Option.{get_or}
use zkopru.Transaction.Fp.{BigNumber, IsBigEndian}
use zkopru.Transaction.Buffer.{concat}
use zkopru.Transaction.ZkTx.{
  ZkOutflow, PublicData, ZkTx, encode, encode_inflow, encode_data, encode_proof, decode,
}
use zkopru.Transaction.ZkTx.Encodable.{IsEncodable}
use zkopru.Transaction.ZkTx.RoundTrip.{decode-encode, length-encode, tx_size}

module _ (bn : BigNumber) where
  -- The size by `encode`, and the transaction with the size in its cache.
  unfoldable pub measure : ZkTx → Option (ℕ × ZkTx)
  measure tx = encode bn tx >>= λ bs. some (length bs, record tx { cached_size = some (length bs) })

  -- `size()`; a cached size of 0 counts as none.
  unfoldable pub size : ZkTx → Option (ℕ × ZkTx)
  size tx = elim tx.cached_size [
    | some n ↦ if n == 0 then measure tx else some (n, tx)
    | none ↦ measure tx
  ]

  -- An outflow in the packed bytes of `hash`: a withdrawal or migration without data throws.
  unfoldable pub pack_outflow : ZkOutflow → Option (List ℕ)
  pack_outflow o = if o.outflow_type == 0 then bn.to_array 32 o.note else (elim o.data_of [
    | none ↦ none
    | some d ↦ concat (bn.to_array 32 o.note ∷ encode_data bn (some d) ∷ [])
  ])

  unfoldable pub pack : ZkTx → Option (List ℕ)
  pack tx = tx.proof >>= λ p. concat (
      map (encode_inflow bn) tx.inflow
      ++ (map pack_outflow tx.outflow
          ++ ((elim tx.swap [ some s ↦ bn.to_array 32 s | none ↦ some (replicate 32 0) ])
                ∷ encode_proof bn p
              ++ (bn.to_array 32 tx.fee ∷ []))))

  -- `hash()`: it needs the proof even when the hash is cached.
  unfoldable pub hash : (List ℕ → List ℕ) → ZkTx → Option (List ℕ × ZkTx)
  hash keccak tx = tx.proof >>= λ p. elim tx.cached_hash [
    | some h ↦ some (h, tx)
    | none ↦ pack tx >>= λ bs. some (keccak bs, record tx { cached_hash = some (keccak bs) })
  ]

-- `outflow.data ? outflow.data.x : Fp.zero`
unfoldable pub public_signal : (PublicData → ℕ) → ZkOutflow → ℕ
public_signal part o = elim o.data_of [ some d ↦ part d | none ↦ 0 ]

unfoldable pub signals : ZkTx → List ℕ
signals tx =
    map (λ i. i.root) tx.inflow
    ++ (map (λ i. i.nullifier) tx.inflow
        ++ (map (λ o. o.note) tx.outflow
            ++ (map (λ o. o.outflow_type) tx.outflow
                ++ (map (public_signal (λ d. d.to)) tx.outflow
                    ++ (map (public_signal (λ d. d.eth)) tx.outflow
                        ++ (map (public_signal (λ d. d.token_addr)) tx.outflow
                            ++ (map (public_signal (λ d. d.erc20_amount)) tx.outflow
                                ++ (map (public_signal (λ d. d.nft)) tx.outflow
                                    ++ (map (public_signal (λ d. d.fee)) tx.outflow
                                        ++ (tx.fee ∷ get_or tx.swap 0 ∷ []))))))))))

not_empty : (tx : ZkTx) → (tx_size tx == 0) ≡ false
unfolding tx_size
not_empty tx = ground arith

module _ (bn : BigNumber) (big : IsBigEndian bn) where
  -- When BN.js writes numbers big-endian in the given width, for a transaction whose parts fit
  -- their fields and that has no size in its cache, `size` gives the number of the bytes of its
  -- encoding; it gives the same number for the transaction decoded from these bytes, and again for
  -- the transaction that now has it in its cache.
  pub size-decode :
      (tx : ZkTx)
      → IsEncodable tx
      → tx.cached_size ≡ none
      → (n : ℕ) × (bs : List ℕ) × (tx' tx'' : ZkTx) × (encode bn tx ≡ some bs)
        × (size bn tx ≡ some (n, tx'))
        × (size bn (decode bs) ≡ some (n, tx''))
        × (size bn tx' ≡ some (n, tx'))
        × (length bs ≡ n)
  unfolding size measure encode
  size-decode tx ok fresh =
      let (bs, made, decoded) = decode-encode bn big tx ok in
      let long = length-encode bn big tx ok bs made in
      let full : (length bs == 0) ≡ false = rw (long) (not_empty tx) in
      (
        length bs,
        bs,
        record tx { cached_size = some (length bs) },
        record tx { cached_hash = none; cached_size = some (length bs) },
        made,
        rw (fresh, made) refl,
        rw (decoded, full) refl,
        rw full refl,
        refl,
      )
