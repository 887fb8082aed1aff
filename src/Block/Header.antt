-- ===== src/Block/Header.antt =====
-- `serializeHeader` and `deserializeHeaderFrom` of packages/core/src/block/utils.ts.
use zkopru.Base.{ℕ, List, [], ◌∷◌}
use zkopru.Block.Parsing.{
  Parsing, parsed, ◌|>◌, parse_bytes, join, Parses, Parses-nil, Parses-then, Parses-bytes,
}
use zkopru.Block.Types.{SolTypes, IsSolTypes, Header}

module _ (s : SolTypes) where
  -- The values of the queue's `dequeueToAddress`, `dequeueToBytes32` and `dequeueToUint256`.
  unfoldable pub dequeue_to_address : Parsing s.Address
  dequeue_to_address = parse_bytes 20 s.address_from

  unfoldable pub dequeue_to_bytes32 : Parsing s.Bytes32
  dequeue_to_bytes32 = parse_bytes 32 s.bytes32_from

  unfoldable pub dequeue_to_uint256 : Parsing s.Uint256
  dequeue_to_uint256 = dequeue_to_bytes32 |> λ b. parsed (s.to_uint b)

  unfoldable pub serialize_header : Header s → List ℕ
  serialize_header h = join (
      s.address_bytes h.proposer
      ∷ s.bytes32_bytes h.parent_block
      ∷ s.uint256_bytes h.fee
      ∷ s.uint256_bytes h.utxo_root
      ∷ s.uint256_bytes h.utxo_index
      ∷ s.bytes32_bytes h.nullifier_root
      ∷ s.uint256_bytes h.withdrawal_root
      ∷ s.uint256_bytes h.withdrawal_index
      ∷ s.bytes32_bytes h.tx_root
      ∷ s.bytes32_bytes h.deposit_root
      ∷ s.bytes32_bytes h.migration_root
      ∷ [])

  -- The rest is what remains of the queue.
  unfoldable pub deserialize_header_from : Parsing (Header s)
  deserialize_header_from = dequeue_to_address |> λ a. dequeue_to_bytes32 |> λ b.
      dequeue_to_uint256 |> λ c. dequeue_to_uint256 |> λ d. dequeue_to_uint256 |> λ e.
      dequeue_to_bytes32 |> λ f. dequeue_to_uint256 |> λ g. dequeue_to_uint256 |> λ h.
      dequeue_to_bytes32 |> λ i. dequeue_to_bytes32 |> λ j. dequeue_to_bytes32 |> λ k.
      parsed record {
        proposer = a;
        parent_block = b;
        fee = c;
        utxo_root = d;
        utxo_index = e;
        nullifier_root = f;
        withdrawal_root = g;
        withdrawal_index = h;
        tx_root = i;
        deposit_root = j;
        migration_root = k;
      }

  module _ (sol : IsSolTypes s) where
    pub Parses-address : (a : s.Address) → Parses (s.address_bytes a) dequeue_to_address a
    unfolding dequeue_to_address
    Parses-address a =
        Parses-bytes 20 (s.address_bytes a) s.address_from a (sol.address_size a)
          (sol.address_again a)

    pub Parses-bytes32 : (b : s.Bytes32) → Parses (s.bytes32_bytes b) dequeue_to_bytes32 b
    unfolding dequeue_to_bytes32
    Parses-bytes32 b =
        Parses-bytes 32 (s.bytes32_bytes b) s.bytes32_from b (sol.bytes32_size b)
          (sol.bytes32_again b)

    pub Parses-uint256 : (u : s.Uint256) → Parses (s.uint256_bytes u) dequeue_to_uint256 u
    unfolding dequeue_to_uint256 dequeue_to_bytes32 ◌|>◌
    Parses-uint256 u =
        let (b, made, same) = sol.uint256_again u in
        let w = Parses-bytes 32 (s.uint256_bytes u) s.bytes32_from b (sol.uint256_size u) made in
        record { reads = λ rest. rw (w.reads rest, same) }

    pub Parses-header : (h : Header s) → Parses (serialize_header h) deserialize_header_from h
    unfolding serialize_header deserialize_header_from join
    Parses-header h = Parses-then _ (Parses-address h.proposer) (
        Parses-then _ (Parses-bytes32 h.parent_block) (
          Parses-then _ (Parses-uint256 h.fee) (
            Parses-then _ (Parses-uint256 h.utxo_root) (
              Parses-then _ (Parses-uint256 h.utxo_index) (
                Parses-then _ (Parses-bytes32 h.nullifier_root) (
                  Parses-then _ (Parses-uint256 h.withdrawal_root) (
                    Parses-then _ (Parses-uint256 h.withdrawal_index) (
                      Parses-then _ (Parses-bytes32 h.tx_root) (
                        Parses-then _ (Parses-bytes32 h.deposit_root)
                          (Parses-then _ (Parses-bytes32 h.migration_root) (Parses-nil h)))))))))))
