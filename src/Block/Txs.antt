-- ===== src/Block/Txs.antt =====
-- `serializeTxs` and `deserializeTxsFrom` of packages/core/src/block/utils.ts. The parts that are
-- written and read as by the transaction's own encoding are those of Transaction/ZkTx.
use Prim.Native.Nat.{bit_or, bit_and}
use zkopru.Base.{
  ℕ, not, Option, none, some, List, [], ◌∷◌, ◌++◌, ◌==◌, if◌then◌else◌, ◌>>=◌, map, length,
}
use zkopru.Utils.Numbers.{num_to_buffer, dequeue_to_number}
use zkopru.Transaction.Fp.{BigNumber, from_number}
use zkopru.Transaction.Buffer.{concat, Reading, done, ◌>>◌, dequeue, read_many}
use zkopru.Transaction.ZkTx.{
  PublicData, ZkOutflow, Memo, ZkTx, memo_switch, swap_switch, byte, encode_inflow, encode_data,
  encode_swap, encode_proof, read_fp, read_inflow, read_data, read_proof, read_swap,
}

module _ (bn : BigNumber) where
  -- Data may be missing only with type 0.
  unfoldable pub serialize_data : ℕ → Option PublicData → Option (List ℕ)
  serialize_data t none = if not (t == 0) then none else some []
  serialize_data t (some d) = encode_data bn (some d)

  unfoldable pub serialize_outflow : ZkOutflow → Option (List ℕ)
  serialize_outflow o = concat (
      bn.to_array 32 o.note
      ∷ bn.to_array 1 o.outflow_type
      ∷ serialize_data o.outflow_type o.data_of
      ∷ [])

  unfoldable pub serialize_memo : Option Memo → Option (List ℕ)
  serialize_memo none = some []
  serialize_memo (some m) =
      if m.version == 1
      then (if not (length m.content == 81) then none else some m.content)
      else (if m.version == 2
          then concat (bn.to_array 2 (from_number (length m.content)) ∷ some m.content ∷ [])
          else none)

  unfoldable pub serialize_tx : ZkTx → Option (List ℕ)
  serialize_tx tx = tx.proof >>= λ p. concat (
      num_to_buffer (length tx.inflow) 1 ∷ map (encode_inflow bn) tx.inflow
      ++ (num_to_buffer (length tx.outflow) 1 ∷ map serialize_outflow tx.outflow
          ++ (bn.to_array 32 tx.fee ∷ encode_proof bn p
              ++ (byte (bit_or (swap_switch tx.swap) (memo_switch tx.memo))
                  ∷ encode_swap bn tx.swap
                  ∷ serialize_memo tx.memo
                  ∷ []))))

  unfoldable pub serialize_txs : List ZkTx → Option (List ℕ)
  serialize_txs txs = concat (num_to_buffer (length txs) 2 ∷ map serialize_tx txs)

unfoldable pub deserialize_outflow : Reading ZkOutflow
deserialize_outflow = read_fp 32 >> λ n. read_fp 1 >> λ t.
    if not (t == 0)
    then (read_data >> λ d. done record { note = n; outflow_type = t; data_of = some d })
    else done record { note = n; outflow_type = t; data_of = none }

-- When no byte of the length of a memo is left, the source's number is NaN and its next string is the
-- whole one; here nothing is left.
unfoldable pub deserialize_memo : ℕ → Reading (Option Memo)
deserialize_memo indicator =
    if not (bit_and indicator 2 == 0)
    then (dequeue 81 >> λ bs. done (some record { version = 1; content = bs }))
    else (if not (bit_and indicator 4 == 0)
        then (dequeue_to_number 2 >> λ len.
            dequeue len >> λ bs. done (some record { version = 2; content = bs }))
        else done none)

-- `new ZkTx({...})` starts with an empty cache.
unfoldable pub deserialize_tx : Reading ZkTx
deserialize_tx = dequeue_to_number 1 >> λ n_in. read_many n_in read_inflow >> λ inflow.
    dequeue_to_number 1 >> λ n_out. read_many n_out deserialize_outflow >> λ outflow.
    read_fp 32 >> λ fee. read_proof >> λ proof. dequeue_to_number 1 >> λ indicator.
    read_swap indicator >> λ swap. deserialize_memo indicator >> λ memo. done record {
      inflow = inflow;
      outflow = outflow;
      fee = fee;
      proof = some proof;
      swap = swap;
      memo = memo;
      cached_hash = none;
      cached_size = none;
    }

unfoldable pub deserialize_txs_from : Reading (List ZkTx)
deserialize_txs_from = dequeue_to_number 2 >> λ n. read_many n deserialize_tx >> λ txs. done txs
