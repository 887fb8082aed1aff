-- ===== src/Block/Types.antt =====
-- packages/core/src/block/types.ts, over the value types of the package soltypes, which are a
-- parameter: how they are made from bytes, which may throw, and what `toBuffer` returns.
use zkopru.Base.{ℕ, ◌≡◌, Option, some, List, length}
use zkopru.Transaction.ZkTx.{ZkTx}

pub record SolTypes : Type 1 where
  pub Address : Type 0
  pub Bytes32 : Type 0
  pub Uint256 : Type 0
  pub address_from : List ℕ → Option Address
  pub bytes32_from : List ℕ → Option Bytes32
  pub to_uint : Bytes32 → Uint256
  pub address_bytes : Address → List ℕ
  pub bytes32_bytes : Bytes32 → List ℕ
  pub uint256_bytes : Uint256 → List ℕ

-- What soltypes documents: an address takes 20 bytes and the other types 32, and the bytes of a
-- value make the value again; a value made from bytes has these bytes.
pub record IsSolTypes (s : SolTypes) : Type 0 where
  pub address_size : (a : s.Address) → length (s.address_bytes a) ≡ 20
  pub address_again : (a : s.Address) → s.address_from (s.address_bytes a) ≡ some a
  pub bytes32_size : (b : s.Bytes32) → length (s.bytes32_bytes b) ≡ 32
  pub bytes32_again : (b : s.Bytes32) → s.bytes32_from (s.bytes32_bytes b) ≡ some b
  pub bytes32_kept :
      (bs : List ℕ) (b : s.Bytes32) → s.bytes32_from bs ≡ some b → s.bytes32_bytes b ≡ bs
  pub uint256_size : (u : s.Uint256) → length (s.uint256_bytes u) ≡ 32
  pub uint256_again :
      (u : s.Uint256)
      → (b : s.Bytes32) × (s.bytes32_from (s.uint256_bytes u) ≡ some b) × (s.to_uint b ≡ u)

module _ (s : SolTypes) where
  pub record MassDeposit : Type 0 where
    pub merged : s.Bytes32
    pub fee : s.Uint256

  pub record MigrationAsset : Type 0 where
    pub eth : s.Uint256
    pub token : s.Address
    pub amount : s.Uint256

  pub record MassMigration : Type 0 where
    pub destination : s.Address
    pub asset : MigrationAsset
    pub deposit_for_dest : MassDeposit

  pub record Header : Type 0 where
    pub proposer : s.Address
    pub parent_block : s.Bytes32
    pub fee : s.Uint256
    pub utxo_root : s.Uint256
    pub utxo_index : s.Uint256
    pub nullifier_root : s.Bytes32
    pub withdrawal_root : s.Uint256
    pub withdrawal_index : s.Uint256
    pub tx_root : s.Bytes32
    pub deposit_root : s.Bytes32
    pub migration_root : s.Bytes32

  pub record Body : Type 0 where
    pub txs : List ZkTx
    pub mass_deposits : List MassDeposit
    pub mass_migrations : List MassMigration

  pub record Finalization : Type 0 where
    pub proposal_checksum : s.Bytes32
    pub header : Header
    pub mass_deposits : List MassDeposit
