-- ===== src/Block/Migrations.antt =====
-- `mergeDeposits` of packages/utils/src/index.ts, and `getMassMigrations` with
-- `getMassMigrationForToken` of packages/core/src/block/utils.ts. How soltypes makes values from
-- numbers and the hash of two strings of hex digits are parameters.
pub mod Sums
pub mod Single
pub mod Keys
pub mod Conserves
pub mod Missing
pub mod Samples
mod Tests
use zkopru.Base.{
  ℕ, ◌+◌, ◌%◌, Bool, false, Option, none, some, List, [], ◌∷◌, ◌++◌, ◌==◌, ◌>>=◌, map, filter,
  traverse, unique,
}
use zkopru.Utils.Numbers.{digits}
use zkopru.Transaction.Fp.{order}
use zkopru.Transaction.ZkTx.{PublicData, ZkOutflow, ZkTx}
use zkopru.Block.Types.{SolTypes, MassDeposit, MigrationAsset, MassMigration}

-- `toBN` of soltypes, `Address.from` on the hex digits of a field element, `Uint256.from` on decimal
-- digits and on the empty string, and `soliditySha3Raw` on two strings of hex digits.
pub record SolNumbers (s : SolTypes) : Type 0 where
  pub address_number : s.Address → ℕ
  pub uint256_number : s.Uint256 → ℕ
  pub address_of_hex : ℕ → Option s.Address
  pub uint256_of : ℕ → Option s.Uint256
  pub uint256_empty : Option s.Uint256
  pub sha3_two : List ℕ → List ℕ → List ℕ

-- `outflow.data?.field || otherwise`
abbrev pub of_data : {A : Type 0} → A → (PublicData → A) → ZkOutflow → A
of_data {A} otherwise field o = from_data o.data_of
  where
    from_data : Option PublicData → A
    from_data none = otherwise
    from_data (some d) = field d

abbrev pub eth_of : ZkOutflow → ℕ
eth_of = of_data 0 (λ d. d.eth)

abbrev pub amount_of : ZkOutflow → ℕ
amount_of = of_data 0 (λ d. d.erc20_amount)

abbrev pub fee_of : ZkOutflow → ℕ
fee_of = of_data 0 (λ d. d.fee)

-- `outflow.data?.to.eq(address)`, and the same for the token.
unfoldable pub is_to : ℕ → ZkOutflow → Bool
is_to address = of_data false (λ d. d.to == address)

unfoldable pub is_token : ℕ → ZkOutflow → Bool
is_token address = of_data false (λ d. d.token_addr == address)

-- `outflow.data?.to`, and the same for the token; without data `Address.from` throws.
unfoldable pub to_of : ZkOutflow → Option ℕ
to_of = of_data none (λ d. some d.to)

unfoldable pub token_of : ZkOutflow → Option ℕ
token_of = of_data none (λ d. some d.token_addr)

-- `notes.reduce((acc, note) => acc.add(field(note)), acc)`
unfoldable pub reduce_fp : (ZkOutflow → ℕ) → ℕ → List ZkOutflow → ℕ
reduce_fp field acc [] = acc
reduce_fp field acc (o ∷ os) = reduce_fp field ((acc + field o) % order) os

unfoldable pub outflows_of : List ZkTx → List ZkOutflow
outflows_of [] = []
outflows_of (tx ∷ txs) = tx.outflow ++ outflows_of txs

-- `OutflowType.MIGRATION`
unfoldable pub is_migration : ZkOutflow → Bool
is_migration o = o.outflow_type == 2

unfoldable pub migrating_notes : List ZkTx → List ZkOutflow
migrating_notes txs = filter is_migration (outflows_of txs)

module _ (s : SolTypes) (n : SolNumbers s) where
  -- `toBytes32` and `toUint256` of a field element.
  unfoldable pub to_bytes32 : ℕ → Option s.Bytes32
  to_bytes32 x = s.bytes32_from (digits 32 x)

  unfoldable pub to_uint256 : ℕ → Option s.Uint256
  to_uint256 x = to_bytes32 x >>= λ b. some (s.to_uint b)

  -- The loop of `mergeDeposits`: the merged hash, empty at the start, and the fee.
  unfoldable pub merge_loop : List (s.Bytes32 × s.Uint256) → List ℕ → ℕ → List ℕ × ℕ
  merge_loop [] merged fee = (merged, fee)
  merge_loop (d ∷ ds) merged fee =
      merge_loop ds (n.sha3_two merged (s.bytes32_bytes d.0)) (fee + n.uint256_number d.1)

  unfoldable pub merge_deposits : List (s.Bytes32 × s.Uint256) → Option (MassDeposit s)
  merge_deposits ds =
      let r = merge_loop ds [] 0 in
      s.bytes32_from r.0 >>= λ m. n.uint256_of r.1 >>= λ f. some record { merged = m; fee = f }

  -- The deposit that a note becomes.
  unfoldable pub deposit_of : ZkOutflow → Option (s.Bytes32 × s.Uint256)
  deposit_of o = to_bytes32 o.note >>= λ note.
      of_data n.uint256_empty (λ d. to_uint256 d.fee) o >>= λ fee. some (note, fee)

  unfoldable pub get_mass_migration_for_token :
      s.Address → s.Address → List ZkOutflow → Option (MassMigration s)
  get_mass_migration_for_token destination token migrating =
      let notes =
        filter (is_token (n.address_number token))
          (filter (is_to (n.address_number destination)) migrating) in
      to_uint256 (reduce_fp eth_of 0 notes) >>= λ eth.
      to_uint256 (reduce_fp amount_of 0 notes) >>= λ amount. traverse deposit_of notes >>= λ ds.
      merge_deposits ds >>= λ d. some record {
        destination = destination;
        asset = record { eth = eth; token = token; amount = amount };
        deposit_for_dest = d;
      }

  -- The loops over the destinations and the tokens.
  unfoldable pub migrations_for :
      List s.Address → List s.Address → List ZkOutflow → Option (List (MassMigration s))
  migrations_for [] tokens notes = some []
  migrations_for (dest ∷ dests) tokens notes =
      traverse (λ token. get_mass_migration_for_token dest token notes) tokens >>= λ ms.
      migrations_for dests tokens notes >>= λ rest. some (ms ++ rest)

  unfoldable pub get_mass_migrations : List ZkTx → Option (List (MassMigration s))
  get_mass_migrations txs =
      let notes = migrating_notes txs in
      traverse token_of notes >>= λ ts. traverse n.address_of_hex (unique ts) >>= λ tokens.
      traverse to_of notes >>= λ ds.
      traverse n.address_of_hex (unique ds) >>= λ dests. migrations_for dests tokens notes
