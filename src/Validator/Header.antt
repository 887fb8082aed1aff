-- ===== src/Validator/Header.antt =====
-- offchain-header-validator.ts. `parent_of` and `zero_bytes` are those of `root` in
-- packages/utils/src/index.ts.
pub mod Roots
use zkopru.Base.{
  ℕ, ◌+◌, ◌≡◌, refl, sym, ap, ◌∙◌, Bool, true, false, not, Option, none, some, List, [], ◌∷◌, ◌==◌,
  ◌>>=◌, traverse, Eq, length, suc,
}
use zkopru.Transaction.ZkTx.{ZkTx}
use zkopru.Transaction.ZkTx.Writes.{sum_map}
use zkopru.Utils.Root.{root}
use zkopru.Block.Types.{SolTypes, MassDeposit, MassMigration}
use zkopru.Block.Whole.{Block, mass_deposit_hash, mass_migration_hash}
use zkopru.Block.Migrations.{SolNumbers}
use zkopru.Validator.Migration.{Code, h1, h2, h3, h4, Validation}

module _ (s : SolTypes) (n : SolNumbers s) ⦃e : Eq s.Bytes32⦄
    (parent_of : s.Bytes32 → s.Bytes32 → s.Bytes32) (zero_bytes : s.Bytes32) where
  unfoldable pub validate_deposit_root : (List ℕ → List ℕ) → Block s → Option Validation
  validate_deposit_root sha3 b =
      traverse (mass_deposit_hash s sha3) (b.body.mass_deposits) >>= λ hs. some record {
        slashable = not (e.beq (b.header.deposit_root) (root parent_of zero_bytes hs));
        reason = h1;
      }

  -- `tx_hash` is `ZkTx.hash`, as a value of soltypes.
  unfoldable pub validate_tx_root : (ZkTx → Option s.Bytes32) → Block s → Option Validation
  validate_tx_root tx_hash b = traverse tx_hash (b.body.txs) >>= λ hs. some record {
    slashable = not (e.beq (b.header.tx_root) (root parent_of zero_bytes hs));
    reason = h2;
  }

  unfoldable pub validate_migration_root : (List ℕ → List ℕ) → Block s → Option Validation
  validate_migration_root sha3 b =
      traverse (mass_migration_hash s sha3) (b.body.mass_migrations) >>= λ hs. some record {
        slashable = not (e.beq (b.header.migration_root) (root parent_of zero_bytes hs));
        reason = h3;
      }

  unfoldable pub validate_total_fee : Block s → Validation
  validate_total_fee b =
      let fee =
        sum_map (λ d. n.uint256_number d.fee) (b.body.mass_deposits)
        + sum_map (λ tx. tx.fee) (b.body.txs) in
      record { slashable = not (fee == n.uint256_number (b.header.fee)); reason = h4 }

  -- `slashed` tells whether the database has a slash of the block with this hash.
  unfoldable pub validate_parent_block : (s.Bytes32 → Bool) → Block s → Validation
  validate_parent_block slashed b = record {
    slashable = slashed (b.header.parent_block);
    reason = h4;
  }
