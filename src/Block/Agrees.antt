-- ===== src/Block/Agrees.antt =====
-- The transactions of a block, in packages/core/src/block/utils.ts, against the encoding of a single
-- transaction in packages/transaction/src/zk-tx.ts.
use Prim.Native.Nat.{bit_or}
use zkopru.Base.{
  ℕ, ◌+◌, ◌*◌, ◌^◌, ◌<◌, ◌≡◌, refl, ap, fun_ext, inl, inr, Option, none, some, List, [], ◌∷◌, map,
  length, All, arith, lt→ltb,
}
use zkopru.Utils.Numbers.{num_to_buffer, digits, dequeue_to_number}
use zkopru.Transaction.Fp.{BigNumber, from_number, from_buffer, read_hex}
use zkopru.Transaction.Buffer.{Reading, done, ◌>>◌, dequeue, read_many}
use zkopru.Transaction.ZkTx.{
  PublicData, ZkOutflow, Memo, ZkTx, memo_switch, swap_switch, byte, encode_outflow, encode_data,
  encode_memo, encode, read_fp, read_byte, read_inflow, read_outflow, read_proof, read_swap,
  read_memo, read_tx,
}
use zkopru.Transaction.ZkTx.Encodable.{IsTyped, IsOutflow, IsMemo, IsEncodable}
use zkopru.Transaction.ZkTx.Switch.{IsSwitch, IsSwitch-cases}
use zkopru.Block.Txs.{
  serialize_data, serialize_outflow, serialize_memo, serialize_tx, deserialize_outflow,
  deserialize_memo, deserialize_tx,
}

num_to_buffer-byte : (n : ℕ) → n < 256 → num_to_buffer n 1 ≡ byte n
unfolding num_to_buffer byte digits
num_to_buffer-byte n small = rw (lt→ltb n (256 ^ 1) (omega arith))

map-All :
    {A B : Type 0} (P : A → Type 0) (f g : A → B)
    → ((a : A) → P a → f a ≡ g a)
    → (xs : List A) → All P xs
    → map f xs ≡ map g xs
map-All P f g each [] all = refl
map-All P f g each (x ∷ xs) all = rw (each x all.0, map-All P f g each xs all.1)

bit_or-switch : (s : Option ℕ) (c : ℕ) → IsSwitch c → bit_or (swap_switch s) c ≡ swap_switch s + c
unfolding swap_switch
bit_or-switch none c h = elim h [ inl e ↦ rw e | inr (inl e) ↦ rw e | inr (inr e) ↦ rw e ]
bit_or-switch (some s) c h = elim h [ inl e ↦ rw e | inr (inl e) ↦ rw e | inr (inr e) ↦ rw e ]

module _ (bn : BigNumber) where
  serialize_data-encode_data :
      (t : ℕ) (d : Option PublicData) → IsTyped t d → serialize_data bn t d ≡ encode_data bn d
  unfolding serialize_data encode_data
  serialize_data-encode_data t none h = rw h
  serialize_data-encode_data t (some d) h = refl

  serialize_outflow-encode_outflow :
      (o : ZkOutflow) → IsOutflow o → serialize_outflow bn o ≡ encode_outflow bn o
  unfolding serialize_outflow encode_outflow
  serialize_outflow-encode_outflow o h =
      rw (serialize_data-encode_data o.outflow_type o.data_of h.2)

  serialize_memo-encode_memo : (m : Option Memo) → IsMemo m → serialize_memo bn m ≡ encode_memo bn m
  unfolding serialize_memo encode_memo
  serialize_memo-encode_memo none h = refl
  serialize_memo-encode_memo (some m) (inl (v, l)) = rw (v, l)
  serialize_memo-encode_memo (some m) (inr (v, l)) = rw v

  -- A transaction whose parts fit their fields is written by `serializeTxs` as by its own
  -- `encode`.
  pub serialize_tx-encode : (tx : ZkTx) → IsEncodable tx → serialize_tx bn tx ≡ encode bn tx
  unfolding serialize_tx encode
  serialize_tx-encode tx ok = rw (
    num_to_buffer-byte (length tx.inflow) ok.few_inflows,
    num_to_buffer-byte (length tx.outflow) ok.few_outflows,
    map-All IsOutflow (serialize_outflow bn) (encode_outflow bn) serialize_outflow-encode_outflow
        tx.outflow ok.outflows,
    bit_or-switch tx.swap (memo_switch tx.memo) (IsSwitch-cases tx.memo ok.memo_fits),
    serialize_memo-encode_memo tx.memo ok.memo_fits,
  )

dequeue_to_number-read_byte : dequeue_to_number 1 ≡ read_byte
unfolding dequeue_to_number read_byte dequeue read_hex ◌>>◌
dequeue_to_number-read_byte = fun_ext at_queue
  where
    at_queue : (q : List ℕ) → dequeue_to_number 1 q ≡ read_byte q
    at_queue [] = refl
    at_queue (b ∷ bs) = let e : 0 * 256 + b ≡ b = omega arith in ap (λ n. (n, bs)) e

read_fp-read_byte :
    {A : Type 0} (g : ℕ → Reading A) → (read_fp 1 >> g) ≡ (read_byte >> λ b. g (from_number b))
unfolding read_fp read_byte dequeue from_buffer read_hex ◌>>◌
read_fp-read_byte g = fun_ext at_queue
  where
    at_queue : (q : List ℕ) → (read_fp 1 >> g) q ≡ (read_byte >> λ b. g (from_number b)) q
    at_queue [] = refl
    at_queue (b ∷ bs) = let e : 0 * 256 + b ≡ b = omega arith in ap (λ n. g (from_number n) bs) e

deserialize_outflow-read_outflow : deserialize_outflow ≡ read_outflow
unfolding deserialize_outflow read_outflow
deserialize_outflow-read_outflow = ap (λ h. read_fp 32 >> h) (fun_ext (λ n. read_fp-read_byte _))

deserialize_memo-read_memo : deserialize_memo ≡ read_memo
unfolding deserialize_memo read_memo dequeue_to_number ◌>>◌
deserialize_memo-read_memo = refl

abbrev pub uncached : ZkTx → ZkTx
uncached tx = record tx { cached_hash = none; cached_size = none }

-- The two readers, up to the parts in which they differ.
abbrev tx_reader : Reading ℕ → Reading ZkOutflow → (ℕ → Reading (Option Memo)) → Reading ZkTx
tx_reader number outflow_reader memo_reader = number >> λ n_in.
    read_many n_in read_inflow >> λ inflow. number >> λ n_out.
    read_many n_out outflow_reader >> λ outflow. read_fp 32 >> λ fee. read_proof >> λ proof.
    number >> λ indicator. read_swap indicator >> λ swap. memo_reader indicator >> λ memo.
    done record {
      inflow = inflow;
      outflow = outflow;
      fee = fee;
      proof = some proof;
      swap = swap;
      memo = memo;
      cached_hash = none;
      cached_size = none;
    }

deserialize_tx-tx_reader : deserialize_tx ≡ tx_reader read_byte read_outflow read_memo
unfolding deserialize_tx
deserialize_tx-tx_reader = λ i.
    tx_reader (dequeue_to_number-read_byte i) (deserialize_outflow-read_outflow i)
      (deserialize_memo-read_memo i)

pub deserialize_tx-read_tx :
    (size : ℕ) (q : List ℕ) → deserialize_tx q ≡ (uncached ((read_tx size q).0), (read_tx size q).1)
unfolding read_tx ◌>>◌
deserialize_tx-read_tx size q = ap (λ p. p q) deserialize_tx-tx_reader
