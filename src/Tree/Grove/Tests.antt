-- ===== src/Tree/Grove/Tests.antt =====
-- Runs of grove.ts on a small grove: notes and withdrawals in trees of depth 2, in subtrees of two
-- leaves, over free terms as hashes.
use zkopru.Base.{ℕ, ◌+◌, ◌<◌, ◌≡◌, refl, none, some, true, false, [], ◌∷◌, arith, ◌>>=◌}
use zkopru.Base.Terms.{Term, leaf, pair, term_eq, pair_inj}
use zkopru.Tree.LightRollUp.{LightRollUpTree, latest_leaf_index, max_size, get_starting_leaf_proof}
use zkopru.Tree.LightRollUp.Climb.{left_siblings}
use zkopru.Tree.LightRollUp.Represents.{grow, grown-Represents}
use zkopru.Tree.Nullifier.Spend.{fill}
use zkopru.Tree.Hasher.{hasher_of, genesis_root}
use zkopru.Tree.Spec.{node, update}
use zkopru.Tree.Nodes.{find}
use zkopru.Tree.Nullifier.{
  dry_run_nullify, dry_run, get_root_node, get_sibling_nodes, update_leaves,
}
use zkopru.Tree.Samples.{
  zero_leaf, no_leaves, empty_tree, two_leaves, empty_data-Represents, filled, unspent,
  unspent-Stands, spends-Fresh,
}
use zkopru.Tree.Grove.{
  Grove, GrovePatch, GroveSnapshot, Pending, apply_grove_patch, dry_patch, dry_nullifier_root,
  commit, fixed_size_len,
}
use zkopru.Tree.Grove.Appends.{Holds, HasRoom}
use zkopru.Tree.Grove.Agrees.{snapshot_of, apply_grove_patch-dry_patch}
use zkopru.Tree.Grove.Keeps.{GroveHolds, FitsPatch, apply_grove_patch-GroveHolds}
use zkopru.Tree.Grove.Bootstrap.{apply_bootstrap, handed_on, apply_bootstrap-Holds}
use zkopru.Tree.Grove.Flushes.{apply_grove_patch_full}

abbrev grove : ℕ → Grove Term Term
grove size = record {
  config = record { utxo_sub_tree_size = size; withdrawal_sub_tree_size = 2; full_sync = true };
  utxo_tree = empty_tree;
  withdrawal_tree = empty_tree;
  nullifier_tree = some unspent;
}

-- One withdrawal, which is padded, two notes and two nullifiers.
abbrev patch : GrovePatch Term Term
patch = record {
  header = some 7;
  utxos = two_leaves;
  withdrawals = record { hash = leaf 9; should_track = false } ∷ [];
  nullifiers = 3 ∷ 1 ∷ [];
}

empty_tree-Holds : Holds pair zero_leaf 2 no_leaves empty_tree
empty_tree-Holds = record { hasher = refl; enough = omega arith; stands = empty_data-Represents }

utxo_room : HasRoom 2 empty_tree two_leaves
unfolding fixed_size_len latest_leaf_index
utxo_room = (omega arith, omega arith)

withdrawal_room : HasRoom 2 empty_tree patch.withdrawals
unfolding fixed_size_len latest_leaf_index
withdrawal_room = (omega arith, omega arith)

grove-GroveHolds :
    GroveHolds zero_leaf zero_leaf filled pair pair 2 2 no_leaves no_leaves no_leaves (grove 2)
grove-GroveHolds = record {
  utxo = empty_tree-Holds;
  withdrawal = empty_tree-Holds;
  nullifier = unspent-Stands;
}

patch-FitsPatch : FitsPatch filled no_leaves (grove 2) patch
patch-FitsPatch = record {
  utxo_room = utxo_room;
  withdrawal_room = withdrawal_room;
  fresh = spends-Fresh;
}

apply_grove_patch-GroveHolds_example :
    (r : Grove Term Term × Pending Term Term) × (apply_grove_patch zero_leaf zero_leaf filled [] []
        (grove 2)
        patch
      ≡ some r)
    × GroveHolds zero_leaf zero_leaf filled pair pair 2 2
        (grow no_leaves (latest_leaf_index empty_tree) (leaf 5 ∷ leaf 7 ∷ []))
        (grow no_leaves (latest_leaf_index empty_tree) (leaf 9 ∷ []))
        (fill filled no_leaves (3 ∷ 1 ∷ []))
        (commit r)
apply_grove_patch-GroveHolds_example =
    apply_grove_patch-GroveHolds zero_leaf zero_leaf filled pair pair 2 2 (grove 2) patch no_leaves
      no_leaves no_leaves [] [] pair_inj grove-GroveHolds patch-FitsPatch

apply_grove_patch-dry_patch_example :
    (apply_grove_patch zero_leaf zero_leaf filled [] [] (grove 2) patch >>= λ r.
    some (snapshot_of r.0))
    ≡ dry_patch zero_leaf zero_leaf filled (grove 2) patch
apply_grove_patch-dry_patch_example =
    apply_grove_patch-dry_patch zero_leaf zero_leaf filled pair pair 2 2 (grove 2) patch no_leaves
      no_leaves [] [] empty_tree-Holds utxo_room empty_tree-Holds withdrawal_room

nothing_spent : dry_nullifier_root filled [] (some unspent) ≡ some (some (node pair 2 0 no_leaves))
unfolding dry_nullifier_root dry_run_nullify dry_run get_root_node get_sibling_nodes update_leaves
    find node hasher_of genesis_root
nothing_spent = refl

-- Subtrees of eight leaves, in a tree of four.
apply_grove_patch_full_example :
    (apply_grove_patch zero_leaf zero_leaf filled [] [] (grove 8) (record patch { nullifiers = [] })
      ≡ none)
    × (s : GroveSnapshot Term Term) × (dry_patch zero_leaf zero_leaf filled
          (grove 8)
          (record patch { nullifiers = [] })
        ≡ some s)
    × (max_size empty_tree < s.utxo_tree_index)
unfolding fixed_size_len latest_leaf_index
apply_grove_patch_full_example =
    apply_grove_patch_full zero_leaf zero_leaf filled pair pair 2 2 (grove 8)
      (record patch { nullifiers = [] }) no_leaves no_leaves _ [] [] empty_tree-Holds
      empty_tree-Holds (omega arith) (omega arith) (omega arith) nothing_spent

-- Another node's tree, with one leaf.
abbrev one_leaf : ℕ → Term
one_leaf = update no_leaves 0 (leaf 5)

abbrev peer : LightRollUpTree Term
peer = record empty_tree {
  data_of = record {
    root = node pair 2 0 one_leaf;
    index = 0 + 1;
    siblings = left_siblings pair one_leaf 0 0 2;
  };
}

peer-Holds : Holds pair zero_leaf 2 one_leaf peer
peer-Holds = record {
  hasher = refl;
  enough = omega arith;
  stands = grown-Represents pair zero_leaf 2 2 no_leaves (leaf 5) 0 (λ j p. refl);
}

apply_bootstrap-Holds_example :
    (g' : Grove Term Term) × ((get_starting_leaf_proof peer >>= λ d.
    get_starting_leaf_proof empty_tree >>= λ d'.
    apply_bootstrap (handed_on zero_leaf d) (handed_on zero_leaf d') (grove 2))
      ≡ some g')
    × Holds pair zero_leaf 2 one_leaf g'.utxo_tree
    × Holds pair zero_leaf 2 no_leaves g'.withdrawal_tree
    × (latest_leaf_index g'.utxo_tree ≡ latest_leaf_index peer)
    × (latest_leaf_index g'.withdrawal_tree ≡ latest_leaf_index empty_tree)
    × (g'.nullifier_tree ≡ (grove 2).nullifier_tree)
unfolding latest_leaf_index
apply_bootstrap-Holds_example =
    apply_bootstrap-Holds pair pair zero_leaf zero_leaf 2 2 peer empty_tree one_leaf no_leaves
      (grove 2) peer-Holds
      (record { hasher = refl; enough = omega arith; stands = empty_data-Represents }) (omega arith)
      (omega arith) refl refl
