-- ===== src/Validator/Migration.antt =====
-- offchain-migration-validator.ts. A validation of a migration that the block does not have throws.
pub mod Judges
mod Tests
use zkopru.Base.{
  ℕ, ◌+◌, Bool, true, false, not, ◌&&◌, Option, none, some, List, [], ◌∷◌, ◌++◌, ◌==◌,
  if◌then◌else◌, ◌>>=◌, filter, map, get_elem?, Eq, ltb, replicate,
}
use zkopru.Transaction.ZkTx.{PublicData, ZkOutflow, ZkTx}
use zkopru.Transaction.ZkTx.Writes.{sum_map}
use zkopru.Block.Types.{SolTypes, Body, MassMigration}
use zkopru.Block.Migrations.{
  SolNumbers, of_data, eth_of, amount_of, fee_of, is_to, is_token, is_migration,
}

pub data Code : Type 0 where
  d1 : Code
  h1 : Code
  h2 : Code
  h3 : Code
  h4 : Code
  h5 : Code
  m1 : Code
  m2 : Code
  m3 : Code
  m4 : Code
  m5 : Code
  m6 : Code
  m7 : Code
  n1 : Code
  s1 : Code
  s2 : Code
  t1 : Code
  t2 : Code
  t3 : Code
  t4 : Code
  t5 : Code
  t6 : Code
  t7 : Code
  t8 : Code
  t9 : Code
  t10 : Code
  u1 : Code
  u2 : Code
  u3 : Code
  w1 : Code
  w2 : Code
  w3 : Code

pub record Validation : Type 0 where
  pub slashable : Bool
  pub reason : Code

-- The outflows to the address with the token, whatever their type, from transaction to transaction.
unfoldable pub matching : ℕ → ℕ → List ZkTx → List ZkOutflow
matching address token [] = []
matching address token (tx ∷ txs) =
    filter (λ o. is_to address o && is_token token o) tx.outflow ++ matching address token txs

module _ (s : SolTypes) (n : SolNumbers s) where
  unfoldable pub outflows_for : Body s → MassMigration s → List ZkOutflow
  outflows_for b m =
      matching (n.address_number m.destination) (n.address_number (m.asset.token)) b.txs

  -- `slashable: !computed.eq(claimed)`
  abbrev compare_numbers : ℕ → ℕ → Code → Option Validation
  compare_numbers computed claimed code =
      some record { slashable = not (computed == claimed); reason = code }

  unfoldable pub validate_eth_migration : Body s → ℕ → Option Validation
  validate_eth_migration b i = get_elem? b.mass_migrations i >>= λ m.
      compare_numbers (sum_map eth_of (outflows_for b m)) (n.uint256_number (m.asset.eth)) m2

  unfoldable pub validate_erc20_migration : Body s → ℕ → Option Validation
  validate_erc20_migration b i = get_elem? b.mass_migrations i >>= λ m.
      compare_numbers (sum_map amount_of (outflows_for b m)) (n.uint256_number (m.asset.amount)) m3

  unfoldable pub validate_migration_fee : Body s → ℕ → Option Validation
  validate_migration_fee b i = get_elem? b.mass_migrations i >>= λ m.
      compare_numbers (sum_map fee_of (outflows_for b m))
        (n.uint256_number (m.deposit_for_dest.fee)) m5

  unfoldable pub validate_duplicated_migrations :
      ⦃e : Eq s.Address⦄ → Body s → ℕ → ℕ → Option Validation
  validate_duplicated_migrations ⦃e⦄ b i j = get_elem? b.mass_migrations i >>= λ m.
      get_elem? b.mass_migrations j >>= λ m'. some record {
        slashable = e.beq m.destination m'.destination && e.beq (m.asset.token) (m'.asset.token);
        reason = m1;
      }

  -- The merged hash of the notes, from 32 zero bytes on; `sha3_note` hashes a string of hex digits
  -- with a number.
  unfoldable pub merged_notes : (List ℕ → ℕ → List ℕ) → List ZkOutflow → List ℕ → List ℕ
  merged_notes sha3_note [] merged = merged
  merged_notes sha3_note (o ∷ os) merged = merged_notes sha3_note os (sha3_note merged o.note)

  -- The test is not negated.
  unfoldable pub validate_merged_leaves :
      ⦃e : Eq s.Bytes32⦄ → (List ℕ → ℕ → List ℕ) → Body s → ℕ → Option Validation
  validate_merged_leaves ⦃e⦄ sha3_note b i = get_elem? b.mass_migrations i >>= λ m.
      s.bytes32_from (merged_notes sha3_note (outflows_for b m) (replicate 32 0)) >>= λ merged.
      some record { slashable = e.beq (m.deposit_for_dest.merged) merged; reason = m4 }

  -- `registered` is the row of the token registry for an address: whether it is an ERC20 token.
  unfoldable pub validate_token_registration :
      (s.Address → Option Bool) → Body s → ℕ → Option Validation
  validate_token_registration registered b i = get_elem? b.mass_migrations i >>= λ m. some record {
    slashable = slash (n.address_number (m.asset.token)) (registered (m.asset.token));
    reason = m6;
  }
    where
      slash : ℕ → Option Bool → Bool
      slash token none = not (token == 0)
      slash token (some is_erc20) = not (token == 0) && not is_erc20

  -- `massMigrations.find(...) !== undefined`
  unfoldable pub has_migration : ℕ → ℕ → List (MassMigration s) → Bool
  has_migration dest token [] = false
  has_migration dest token (m ∷ ms) =
      let rest = has_migration dest token ms in
      if dest == n.address_number m.destination && token == n.address_number (m.asset.token)
      then true
      else rest

  unfoldable pub missed : Option PublicData → List (MassMigration s) → Option Validation
  missed none ms = none
  missed (some d) ms =
      some record { slashable = not (has_migration d.to d.token_addr ms); reason = m7 }

  unfoldable pub validate_missed_mass_migration : Body s → ℕ → ℕ → Option Validation
  validate_missed_mass_migration b tx_index outflow_index = get_elem? b.txs tx_index >>= λ tx.
      get_elem? tx.outflow outflow_index >>= λ o.
      if is_migration o
      then missed o.data_of b.mass_migrations
      else some record { slashable = false; reason = m7 }
