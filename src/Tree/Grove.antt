-- ===== src/Tree/Grove.antt =====
-- packages/tree/src/grove.ts: the grove of the tree of notes, the tree of withdrawals and the tree of
-- nullifiers. `zero_utxo` and `zero_withdrawal` are the leaves of the padding, `filled` is the value
-- of a spent nullifier. The lock is not modelled: a method runs on one state. A method that throws
-- returns `none`.
pub mod Padding
pub mod Appends
pub mod Agrees
pub mod Keeps
pub mod Flushes
pub mod Bootstrap
mod Tests
use zkopru.Base.{
  ℕ, ◌+◌, ◌-◌, ◌*◌, ◌/◌, ◌%◌, Bool, false, Option, none, some, List, [], ◌∷◌, ◌++◌, ◌==◌, leb, Eq,
  if◌then◌else◌, ◌>>=◌, length, map, replicate,
}
use zkopru.Tree.Nodes.{NodeMap}
use zkopru.Tree.LightRollUp.{
  Leaf, TreeData, LightRollUpTree, max_size, latest_leaf_index, dry_append,
}
use zkopru.Tree.LightRollUp.Append.{append}
use zkopru.Tree.LightRollUp.Append as Append
use zkopru.Tree.Nullifier.{NullifierTree, nullify, dry_run_nullify}
use zkopru.Tree.Nullifier as Nullifier

pub record GroveConfig : Type 0 where
  pub utxo_sub_tree_size : ℕ
  pub withdrawal_sub_tree_size : ℕ
  pub full_sync : Bool

-- A row of the table `Bootstrap`: the siblings of the two light trees at a block. Without a hash the
-- row is new.
pub record BootstrapRow (A B : Type 0) : Type 0 where
  pub block_hash : Option ℕ
  pub utxo_bootstrap : List A
  pub withdrawal_bootstrap : List B

pub record Grove (A B : Type 0) : Type 0 where
  pub config : GroveConfig
  pub utxo_tree : LightRollUpTree A
  pub withdrawal_tree : LightRollUpTree B
  pub nullifier_tree : Option (NullifierTree B)

pub record GrovePatch (A B : Type 0) : Type 0 where
  pub header : Option ℕ
  pub utxos : List (Leaf A)
  pub withdrawals : List (Leaf B)
  pub nullifiers : List ℕ

pub record GroveSnapshot (A B : Type 0) : Type 0 where
  pub utxo_tree_index : ℕ
  pub utxo_tree_root : A
  pub withdrawal_tree_index : ℕ
  pub withdrawal_tree_root : B
  pub nullifier_tree_root : Option B

-- What waits in the transaction: rows of tree nodes of the three trees, the bootstrap row, and the
-- hash of the row that the table `Block` is to have.
pub record Pending (A B : Type 0) : Type 0 where
  pub utxo_rows : NodeMap A
  pub withdrawal_rows : NodeMap B
  pub nullifier_rows : NodeMap B
  pub bootstrap : Option (BootstrapRow A B)
  pub block_row : Option ℕ

-- `size * Math.ceil(n / size)`, for a size that is not 0.
unfoldable pub fixed_size_len : ℕ → ℕ → ℕ
fixed_size_len size n = size * (if n % size == 0 then n / size else n / size + 1)

unfoldable pub padding : {A : Type 0} → A → ℕ → List (Leaf A)
padding zero_value n = replicate n record { hash = zero_value; should_track = false }

unfoldable pub padded : {A : Type 0} → A → ℕ → List (Leaf A) → List (Leaf A)
padded zero_value size leaves =
    leaves ++ padding zero_value (fixed_size_len size (length leaves) - length leaves)

-- `appendUTXOs` and `appendWithdrawals`, on a tree that is there.
unfoldable pub append_padded :
    {A : Type 0}
    → A
    → ℕ
    → LightRollUpTree A
    → List ℕ
    → List (Leaf A)
    → Option (LightRollUpTree A × NodeMap A)
append_padded zero_value size t tracking leaves =
    if leb (latest_leaf_index t + fixed_size_len size (length leaves)) (max_size t)
    then append t tracking (padded zero_value size leaves)
    else none

-- `leaf => ({ ...leaf, shouldTrack: false })`
unfoldable pub untracked : {A : Type 0} → Leaf A → Leaf A
untracked leaf = record leaf { should_track = false }

module _ {B : Type 0} ⦃e : Eq B⦄ (filled : B) where
  -- `markAsNullified`: only a full node has the tree.
  unfoldable pub mark_as_nullified :
      List ℕ → Option (NullifierTree B) → Option (Option (NullifierTree B) × NodeMap B)
  mark_as_nullified nullifiers none = some (none, [])
  mark_as_nullified nullifiers (some t) = nullify filled t nullifiers >>= λ r. some (some r.0, r.1)

  -- `nullifierTree?.dryRunNullify(...)`
  unfoldable pub dry_nullifier_root : List ℕ → Option (NullifierTree B) → Option (Option B)
  dry_nullifier_root nullifiers none = some none
  dry_nullifier_root nullifiers (some t) =
      dry_run_nullify filled t nullifiers >>= λ r. some (some r)

unfoldable pub commit_nullifiers :
    {B : Type 0} → NodeMap B → Option (NullifierTree B) → Option (NullifierTree B)
commit_nullifiers rows none = none
commit_nullifiers rows (some t) = some (Nullifier.commit (t, rows))

module _ {A B : Type 0} where
  unfoldable pub record_bootstrap :
      Option ℕ → LightRollUpTree A → LightRollUpTree B → BootstrapRow A B
  record_bootstrap header u w = record {
    block_hash = header;
    utxo_bootstrap = u.data_of.siblings;
    withdrawal_bootstrap = w.data_of.siblings;
  }

  module _ ⦃e : Eq B⦄ (zero_utxo : A) (zero_withdrawal : B) (filled : B) where
    -- `applyGrovePatch`, where the lists of indices are what `indexesOfTrackingLeaves` of the two
    -- light trees found.
    unfoldable pub apply_grove_patch :
        List ℕ → List ℕ → Grove A B → GrovePatch A B → Option (Grove A B × Pending A B)
    apply_grove_patch tracked_utxos tracked_withdrawals g patch =
        append_padded zero_utxo g.config.utxo_sub_tree_size g.utxo_tree tracked_utxos patch.utxos
        >>= λ u.
            append_padded zero_withdrawal g.config.withdrawal_sub_tree_size g.withdrawal_tree
              tracked_withdrawals patch.withdrawals
            >>= λ w. mark_as_nullified filled patch.nullifiers g.nullifier_tree >>= λ n. some (
              record g { utxo_tree = u.0; withdrawal_tree = w.0; nullifier_tree = n.0 },
              record {
                utxo_rows = u.1;
                withdrawal_rows = w.1;
                nullifier_rows = n.1;
                bootstrap =
                    if g.config.full_sync
                    then some (record_bootstrap patch.header u.0 w.0)
                    else none;
                block_row = if g.config.full_sync then patch.header else none;
              },
            )

    unfoldable pub dry_patch : Grove A B → GrovePatch A B → Option (GroveSnapshot A B)
    dry_patch g patch = dry_append g.utxo_tree (map untracked patch.utxos) >>= λ u.
        dry_append g.withdrawal_tree (map untracked patch.withdrawals) >>= λ w.
        dry_nullifier_root filled patch.nullifiers g.nullifier_tree >>= λ n. some record {
          utxo_tree_index =
              u.index
              + fixed_size_len g.config.utxo_sub_tree_size (length patch.utxos)
              - length patch.utxos;
          utxo_tree_root = u.root;
          withdrawal_tree_index =
              w.index
              + fixed_size_len g.config.withdrawal_sub_tree_size (length patch.withdrawals)
              - length patch.withdrawals;
          withdrawal_tree_root = w.root;
          nullifier_tree_root = n;
        }

    unfoldable pub get_snapshot : Grove A B → Option (GroveSnapshot A B)
    get_snapshot g =
        dry_patch g record { header = none; utxos = []; withdrawals = []; nullifiers = [] }

  -- The transaction is committed.
  unfoldable pub commit : Grove A B × Pending A B → Grove A B
  commit (g, p) = record g {
    utxo_tree = Append.commit (g.utxo_tree, p.utxo_rows);
    withdrawal_tree = Append.commit (g.withdrawal_tree, p.withdrawal_rows);
    nullifier_tree = commit_nullifiers p.nullifier_rows g.nullifier_tree;
  }
