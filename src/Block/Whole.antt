-- ===== src/Block/Whole.antt =====
-- packages/core/src/block/block.ts: the block, `serializeBlock`, `checksum` and `Block.from`, with
-- `serializeBody`, `serializeFinalization` and `headerHash` of utils.ts. `sha3` is
-- `soliditySha3Raw` on the bytes that a string of hex digits writes.
use zkopru.Base.{ℕ, Bool, Option, none, some, List, [], ◌∷◌, ◌>>=◌}
use zkopru.Transaction.Buffer.{concat}
use zkopru.Transaction.Fp.{BigNumber}
use zkopru.Block.Parsing.{join, parse_reading}
use zkopru.Block.Types.{SolTypes, Header, Body, Finalization, MassDeposit, MassMigration}
use zkopru.Block.Header.{serialize_header, deserialize_header_from}
use zkopru.Block.Mass.{
  serialize_mass_deposits, serialize_mass_migrations, deserialize_mass_deposits,
  deserialize_mass_migrations,
}
use zkopru.Block.Txs.{serialize_txs, deserialize_txs_from}

module _ (s : SolTypes) where
  pub record BlockBootstrap : Type 0 where
    pub utxo_tree_index : s.Uint256
    pub utxo_bootstrap : List s.Uint256
    pub withdrawal_tree_index : s.Uint256
    pub withdrawal_bootstrap : List s.Bytes32

  pub record Block : Type 0 where
    pub hash : s.Bytes32
    pub header : Header s
    pub body : Body s
    pub slashed : Option Bool
    pub verified : Option Bool
    pub bootstrap : Option BlockBootstrap

  module _ (sha3 : List ℕ → List ℕ) where
    unfoldable pub header_hash : Header s → Option s.Bytes32
    header_hash h = s.bytes32_from (
        sha3 (
          join (
            s.address_bytes h.proposer
            ∷ s.bytes32_bytes h.parent_block
            ∷ s.uint256_bytes h.fee
            ∷ s.uint256_bytes h.utxo_root
            ∷ s.uint256_bytes h.utxo_index
            ∷ s.bytes32_bytes h.nullifier_root
            ∷ s.uint256_bytes h.withdrawal_root
            ∷ s.uint256_bytes h.withdrawal_index
            ∷ s.bytes32_bytes h.tx_root
            ∷ s.bytes32_bytes h.deposit_root
            ∷ s.bytes32_bytes h.migration_root
            ∷ [])))

    unfoldable pub mass_deposit_hash : MassDeposit s → Option s.Bytes32
    mass_deposit_hash d =
        s.bytes32_from (sha3 (join (s.bytes32_bytes d.merged ∷ s.uint256_bytes d.fee ∷ [])))

    unfoldable pub mass_migration_hash : MassMigration s → Option s.Bytes32
    mass_migration_hash m = s.bytes32_from (
        sha3 (
          join (
            s.address_bytes m.destination
            ∷ s.uint256_bytes (m.asset.eth)
            ∷ s.address_bytes (m.asset.token)
            ∷ s.uint256_bytes (m.asset.amount)
            ∷ s.bytes32_bytes (m.deposit_for_dest.merged)
            ∷ s.uint256_bytes (m.deposit_for_dest.fee)
            ∷ [])))

  module _ (bn : BigNumber) where
    unfoldable pub serialize_body : Body s → Option (List ℕ)
    serialize_body b = concat (
        serialize_txs bn b.txs
        ∷ serialize_mass_deposits s b.mass_deposits
        ∷ serialize_mass_migrations s b.mass_migrations
        ∷ [])

    unfoldable pub serialize_block : Block → Option (List ℕ)
    serialize_block b = concat (some (serialize_header s b.header) ∷ serialize_body b.body ∷ [])

    unfoldable pub checksum : (List ℕ → List ℕ) → Block → Option (List ℕ)
    checksum sha3 b = serialize_block b >>= λ bs. some (sha3 bs)

    unfoldable pub get_finalization : (List ℕ → List ℕ) → Block → Option (Finalization s)
    get_finalization sha3 b = checksum sha3 b >>= λ sum. s.bytes32_from sum >>= λ c.
        some
          record { proposal_checksum = c; header = b.header; mass_deposits = b.body.mass_deposits }

  unfoldable pub serialize_finalization : Finalization s → Option (List ℕ)
  serialize_finalization f = concat (
      some (s.bytes32_bytes f.proposal_checksum)
      ∷ some (serialize_header s f.header)
      ∷ serialize_mass_deposits s f.mass_deposits
      ∷ [])

  -- `Block.from`: each part is read from what the one before it left.
  unfoldable pub block_from : (List ℕ → List ℕ) → List ℕ → Option Bool → Option Block
  block_from sha3 data_bytes verified = deserialize_header_from s data_bytes >>= λ h.
      parse_reading deserialize_txs_from h.1 >>= λ t. deserialize_mass_deposits s t.1 >>= λ d.
      deserialize_mass_migrations s d.1 >>= λ m. header_hash sha3 h.0 >>= λ hash. some record {
        hash = hash;
        header = h.0;
        body = record { txs = t.0; mass_deposits = d.0; mass_migrations = m.0 };
        slashed = none;
        verified = verified;
        bootstrap = none;
      }
