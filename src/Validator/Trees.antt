-- ===== src/Validator/Trees.antt =====
-- offchain-utxo-tree-validator.ts, offchain-withdrawal-tree-validator.ts and
-- offchain-nullifier-tree-validator.ts, and `getGrovePatch` of packages/core/src/context/layer2.ts.
-- An assertion that fails returns `none`. A validation without a reason carries the one that it
-- looks for. The transactions that a validation prepares for layer 1 are left out.
pub mod Honest
pub mod Utxo
pub mod Withdrawal
pub mod Nullifiers
pub mod Deposits
pub mod Samples
mod Tests
mod SpendTests
use zkopru.Base.{
  ℕ, ◌+◌, ◌*◌, ◌/◌, ◌%◌, ◌^◌, Bool, true, false, not, Option, none, some, Eq, nat_eq, List, [], ◌∷◌,
  ◌++◌, ◌==◌, ltb, if◌then◌else◌, ◌>>=◌, length, map, filter, traverse,
}
use zkopru.Transaction.Fp.{from_number, read_hex}
use zkopru.Transaction.ZkTx.{ZkInflow, PublicData, ZkOutflow, ZkTx}
use zkopru.Utils.Numbers.{digits, num_to_buffer}
use zkopru.Block.Types.{SolTypes, Header, Body, MassDeposit}
use zkopru.Block.Whole.{Block, header_hash}
use zkopru.Block.Migrations.{SolNumbers, outflows_of}
use zkopru.Tree.Hasher.{Hasher}
use zkopru.Tree.LightRollUp.{Leaf, TreeData}
use zkopru.Tree.Grove.{GrovePatch}
use zkopru.Tree.SubTreeSol.{num_of_sub_trees, append_as_sub_trees}
use zkopru.Tree.SmtSol.{batch_fill, exist_bn, non_exist_bn}
use zkopru.Validator.Migration.{Code, n1, u1, u2, u3, w1, w2, w3, Validation}

-- `OutflowType.UTXO` and `OutflowType.WITHDRAWAL`
unfoldable pub is_utxo : ZkOutflow → Bool
is_utxo o = o.outflow_type == 0

unfoldable pub is_withdrawal : ZkOutflow → Bool
is_withdrawal o = o.outflow_type == 1

unfoldable pub utxo_notes : List ZkTx → List ℕ
utxo_notes txs = map (λ o. o.note) (filter is_utxo (outflows_of txs))

unfoldable pub nullifiers_of : List ZkTx → List ℕ
nullifiers_of [] = []
nullifiers_of (tx ∷ txs) = map (λ i. i.nullifier) tx.inflow ++ nullifiers_of txs

module _ (sha3 : List ℕ → List ℕ) where
  -- `Withdrawal.withdrawalHash` of packages/transaction/src/withdrawal.ts, as a number. A value that
  -- does not fit an address throws.
  unfoldable pub withdrawal_hash : ℕ → PublicData → Option ℕ
  withdrawal_hash note d = num_to_buffer d.to 20 >>= λ to.
      num_to_buffer d.token_addr 20 >>= λ token_addr. some (
        read_hex 0 (
          sha3 (
            digits 32 note
            ++ (to
                ++ (digits 32 d.eth
                    ++ (token_addr
                        ++ (digits 32 d.erc20_amount ++ (digits 32 d.nft ++ digits 32 d.fee))))))))

  -- The callback that asserts the data of an outflow.
  unfoldable pub hash_of_withdrawal : ZkOutflow → Option ℕ
  hash_of_withdrawal o = o.data_of >>= withdrawal_hash o.note

  unfoldable pub withdrawal_hashes : List ZkTx → Option (List ℕ)
  withdrawal_hashes txs = traverse hash_of_withdrawal (filter is_withdrawal (outflows_of txs))

  unfoldable pub withdrawal_leaf : (ℕ → Bool) → ZkOutflow → Option (Leaf ℕ)
  withdrawal_leaf tracked o =
      hash_of_withdrawal o >>= λ h. some record { hash = h; should_track = tracked o.note }

  -- `getGrovePatch`, where `deposits` are the notes that `getDeposits` returns, and `tracked` tells
  -- whether the database has a note as one of the user's that is in no tree yet.
  unfoldable pub get_grove_patch : List ℕ → (ℕ → Bool) → ℕ → List ZkTx → Option (GrovePatch ℕ ℕ)
  get_grove_patch deposits tracked header txs =
      let out = filter is_withdrawal (outflows_of txs) in
      traverse (withdrawal_leaf tracked) out >>= λ withdrawals. some record {
        header = some header;
        utxos =
            map (λ h. record { hash = h; should_track = tracked h })
              (map from_number deposits ++ utxo_notes txs);
        withdrawals = withdrawals;
        nullifiers = nullifiers_of txs;
      }

module _ (s : SolTypes) (n : SolNumbers s) where
  -- `Fp.from(x.toString())`
  abbrev pub fp_from : s.Uint256 → ℕ
  fp_from u = from_number (n.uint256_number u)

  -- `toBN` of 32 bytes
  abbrev pub bytes_number : s.Bytes32 → ℕ
  bytes_number b = n.uint256_number (s.to_uint b)

  -- The number of leaves, in whole sub trees, behind the index of the parent.
  unfoldable pub next_index : ℕ → s.Uint256 → ℕ → ℕ
  next_index sub_tree_size index count =
      n.uint256_number index + sub_tree_size * num_of_sub_trees sub_tree_size count

module _ (s : SolTypes) (n : SolNumbers s) ⦃e : Eq s.Bytes32⦄ (sha3 : List ℕ → List ℕ) where
  -- The while loop of `checkSubmittedDeposits` for one mass deposit, which returns the deposits that
  -- are left; `merge` is the hash of the merged leaves with a note. Reading behind the deposits throws.
  unfoldable pub consume_deposits :
      (s.Bytes32 → s.Uint256 → s.Bytes32)
      → s.Bytes32
      → s.Bytes32
      → List s.Uint256
      → Option (List s.Uint256)
  consume_deposits merge target merged [] = if e.beq target merged then some [] else none
  consume_deposits merge target merged (d ∷ ds) =
      let rest = consume_deposits merge target (merge merged d) ds in
      if e.beq target merged then some (d ∷ ds) else rest

  unfoldable pub check_submitted_deposits :
      (s.Bytes32 → s.Uint256 → s.Bytes32)
      → s.Bytes32
      → List (MassDeposit s)
      → List s.Uint256
      → Option Bool
  unfolding consume_deposits
  check_submitted_deposits merge zero_bytes [] [] = some true
  check_submitted_deposits merge zero_bytes [] (d ∷ ds) = some false
  check_submitted_deposits merge zero_bytes (m ∷ ms) ds =
      consume_deposits merge m.merged zero_bytes ds >>= check_submitted_deposits merge zero_bytes ms

  -- `assert(block.header.parentBlock.eq(headerHash(parentHeader)), ...)`
  unfoldable pub follows : Block s → Header s → Option Bool
  follows b parent = header_hash s sha3 parent >>= λ hash. some (e.beq (b.header.parent_block) hash)

  -- The two assertions of the validators of the utxo tree.
  unfoldable pub deposits_and_parent :
      (s.Bytes32 → s.Uint256 → s.Bytes32)
      → s.Bytes32
      → Block s
      → Header s
      → List s.Uint256
      → Option Bool
  deposits_and_parent merge zero_bytes b parent deposits =
      check_submitted_deposits merge zero_bytes b.body.mass_deposits deposits >>= λ submitted.
      if submitted then follows b parent else none

  module _ (merge : s.Bytes32 → s.Uint256 → s.Bytes32) (zero_bytes : s.Bytes32) where
    unfoldable pub validate_utxo_index :
        ℕ → ℕ → Block s → Header s → List s.Uint256 → Option Validation
    unfolding deposits_and_parent next_index
    validate_utxo_index max_utxo sub_tree_size b parent deposits =
        deposits_and_parent merge zero_bytes b parent deposits >>= λ follow.
        if follow
        then some (
            if ltb max_utxo (n.uint256_number (b.header.utxo_index))
            then record { slashable = true; reason = u2 }
            else record {
              slashable = not (
                  n.uint256_number (b.header.utxo_index)
                  == next_index s n sub_tree_size parent.utxo_index
                      (length deposits + length (filter is_utxo (outflows_of b.body.txs))));
              reason = u1;
            })
        else none

    unfoldable pub validate_utxo_root :
        Hasher ℕ → ℕ → Block s → Header s → List s.Uint256 → List s.Uint256 → Option Validation
    unfolding deposits_and_parent
    validate_utxo_root hasher sub_tree_depth b parent deposits sub_tree_siblings =
        deposits_and_parent merge zero_bytes b parent deposits >>= λ follow.
        if follow
        then (append_as_sub_trees hasher sub_tree_depth
              (map (fp_from s n) deposits ++ utxo_notes b.body.txs)
              (record {
                root = fp_from s n parent.utxo_root;
                index = fp_from s n parent.utxo_index;
                siblings = map (fp_from s n) sub_tree_siblings;
              })
            >>= λ computed_root. some record {
              slashable = not (computed_root == n.uint256_number (b.header.utxo_root));
              reason = u3;
            })
        else none

  unfoldable pub validate_withdrawal_index : ℕ → ℕ → Block s → Header s → Option Validation
  unfolding next_index
  validate_withdrawal_index max_withdrawal sub_tree_size b parent = follows b parent >>= λ follow.
      if follow
      then some (
          if ltb max_withdrawal (n.uint256_number (b.header.withdrawal_index))
          then record { slashable = true; reason = w2 }
          else record {
            slashable = not (
                n.uint256_number (b.header.withdrawal_index)
                == next_index s n sub_tree_size parent.withdrawal_index
                    (length (filter is_withdrawal (outflows_of b.body.txs))));
            reason = w1;
          })
      else none

  unfoldable pub validate_withdrawal_root :
      Hasher ℕ → ℕ → Block s → Header s → List s.Uint256 → Option Validation
  validate_withdrawal_root hasher sub_tree_depth b parent sub_tree_siblings =
      follows b parent >>= λ follow.
      if follow
      then (withdrawal_hashes sha3 b.body.txs >>= λ new_withdrawals.
          append_as_sub_trees hasher sub_tree_depth new_withdrawals (record {
            root = n.uint256_number parent.withdrawal_root;
            index = n.uint256_number parent.withdrawal_index;
            siblings = map n.uint256_number sub_tree_siblings;
          })
          >>= λ computed_root. some record {
            slashable = not (computed_root == n.uint256_number (b.header.withdrawal_root));
            reason = w3;
          })
      else none

  -- The test is not negated.
  unfoldable pub validate_nullifier_roll_up :
      Hasher ℕ → Block s → Header s → ℕ → List (List s.Bytes32) → Option Validation
  validate_nullifier_roll_up hasher b parent num_of_nullifiers siblings =
      follows b parent >>= λ follow.
      if follow
      then (let nullifiers = nullifiers_of b.body.txs in
          if num_of_nullifiers == length nullifiers
          then (batch_fill exist_bn non_exist_bn hasher (bytes_number s n parent.nullifier_root)
                nullifiers (map (map (bytes_number s n)) siblings)
              >>= λ computed_root. some record {
                slashable = computed_root == bytes_number s n (b.header.nullifier_root);
                reason = n1;
              })
          else none)
      else none
