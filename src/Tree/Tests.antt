-- ===== src/Tree/Tests.antt =====
-- Runs of the code of packages/tree on small trees, over free terms as hashes.
use zkopru.Base.{zero, suc, ℕ, ◌+◌, ◌≡◌, ◌≢◌, refl, ap, true, none, some, [], ◌∷◌, arith, ◌>>=◌}
use zkopru.Base.Terms.{Term, leaf, pair, number, term_eq, pair_inj}
use zkopru.Tree.Hasher.{hasher_of}
use zkopru.Tree.Spec.{zero_node, update, node}
use zkopru.Tree.Nodes.{NodeMap, find}
use zkopru.Tree.MerkleProof.{MerkleProof, merkle_root, verify_proof, starting_leaf_proof}
use zkopru.Tree.LightRollUp.{TreeData, LightRollUpTree, dry_append, latest_leaf_index}
use zkopru.Tree.LightRollUp.Append.{append}
use zkopru.Tree.LightRollUp.Agrees.{new_data, append-dry_append}
use zkopru.Tree.LightRollUp.Represents.{Represents, grow, dry_append-Represents}
use zkopru.Tree.LightRollUp.Sound.{starting_leaf_proof-Represents}
use zkopru.Tree.Nullifier.{NullifierTree, nullify, commit}
use zkopru.Tree.Nullifier.Spend.{Stands, fill}
use zkopru.Tree.Nullifier.Path.{Shows}
use zkopru.Tree.Nullifier.Nullify.{nullify-Stands, nullify_filled}
use zkopru.Tree.MerkleTreeSol.{sol_append, sol_starting_leaf_proof, sol_append-dry_append}
use zkopru.Tree.Samples.{
  zero_leaf, hashes, no_leaves, empty_data, empty_tree, two_leaves, empty_data-Represents, filled,
  unspent, unspent-Stands, spends-Fresh,
}

-- A leaf in a tree with four leaves.
abbrev second_proof : MerkleProof Term
second_proof = record {
  root = pair (pair (leaf 5) (leaf 7)) (pair zero_leaf zero_leaf);
  index = 1;
  leaf = leaf 7;
  siblings = leaf 5 ∷ pair zero_leaf zero_leaf ∷ [];
}

second_proof_verifies : verify_proof hashes second_proof ≡ true
unfolding verify_proof merkle_root hasher_of
second_proof_verifies = refl

dry_append-Represents_example :
    (d : TreeData Term) × (dry_append empty_tree two_leaves ≡ some d)
    × (d.index ≡ 0 + 2)
    × Represents pair zero_leaf 2 (grow no_leaves 0 (leaf 5 ∷ leaf 7 ∷ [])) d
unfolding latest_leaf_index
dry_append-Represents_example =
    dry_append-Represents pair zero_leaf 2 empty_tree no_leaves two_leaves refl (omega arith)
      (omega arith) empty_data-Represents

append-dry_append_example :
    new_data (append empty_tree [] two_leaves) ≡ dry_append empty_tree two_leaves
unfolding latest_leaf_index
append-dry_append_example = append-dry_append empty_tree [] two_leaves (omega arith)

empty_data_verifies :
    starting_leaf_proof hashes empty_data.root empty_data.index empty_data.siblings ≡ some true
unfolding starting_leaf_proof merkle_root verify_proof hasher_of node
empty_data_verifies = refl

starting_leaf_proof-Represents_example : Represents pair zero_leaf 2 no_leaves empty_data
starting_leaf_proof-Represents_example =
    starting_leaf_proof-Represents pair zero_leaf 2 2 no_leaves empty_data pair_inj (omega arith)
      refl (omega arith) (λ j p. refl) refl empty_data_verifies

nullify-Stands_example :
    (r : NullifierTree Term × NodeMap Term) × (nullify filled unspent (3 ∷ 1 ∷ []) ≡ some r)
    × (r.0.root_node ≡ some (node pair 2 0 (fill filled no_leaves (3 ∷ 1 ∷ []))))
    × Stands pair zero_leaf (fill filled no_leaves (3 ∷ 1 ∷ [])) (commit r)
nullify-Stands_example =
    nullify-Stands pair zero_leaf pair_inj no_leaves unspent filled (3 ∷ 1 ∷ []) unspent-Stands
      spends-Fresh

nullify_filled_example : nullify filled unspent (3 ∷ 1 ∷ 3 ∷ []) ≡ none
nullify_filled_example =
    nullify_filled pair zero_leaf pair_inj no_leaves unspent filled (3 ∷ 1 ∷ []) 3 [] unspent-Stands
      spends-Fresh (omega arith) refl

-- A tree with two leaves, of which the second one is spent.
abbrev one_spent : ℕ → Term
one_spent = update no_leaves 1 filled

abbrev spent_tree : NullifierTree Term
spent_tree = record {
  hasher = hasher_of pair zero_leaf 1;
  depth = 1;
  root_node = none;
  rows = (3, filled) ∷ (1, pair zero_leaf filled) ∷ [];
}

spent_tree-Shows : Shows pair zero_leaf 1 (λ _. one_spent) (λ k. find k spent_tree.rows)
unfolding find node zero_node
spent_tree-Shows zero zero zero e small = refl
spent_tree-Shows zero zero (suc zero) e small = refl
spent_tree-Shows zero zero (suc (suc k)) e small = absurd (omega arith)
spent_tree-Shows zero (suc n) k e small = absurd (omega arith)
spent_tree-Shows (suc l) n k e small = absurd (omega arith)

spent_tree-Stands : Stands pair zero_leaf one_spent spent_tree
unfolding find node
spent_tree-Stands = record {
  hashes = refl;
  cached = λ r h. absurd (ground (arith, h));
  top = refl;
  below = spent_tree-Shows;
}

filled_ne : filled ≢ zero_leaf
filled_ne e = let n = ap number e in absurd (omega (arith, n))

-- The tree with one leaf, and the siblings of a starting leaf proof.
abbrev started : LightRollUpTree Term
started = record empty_tree {
  data_of = record {
    root = pair (pair (leaf 5) zero_leaf) (pair zero_leaf zero_leaf);
    index = 1;
    siblings = leaf 5 ∷ pair zero_leaf zero_leaf ∷ [];
  };
}

started_verifies : sol_starting_leaf_proof started.config.hasher started.data_of ≡ some true
unfolding sol_starting_leaf_proof hasher_of
started_verifies = refl

sol_append-dry_append_example :
    sol_append hashes (leaf 5 ∷ leaf 7 ∷ []) started.data_of
    ≡ (dry_append started two_leaves >>= λ d. some d.root)
unfolding latest_leaf_index hasher_of
sol_append-dry_append_example =
    sol_append-dry_append started two_leaves refl refl (omega arith) started_verifies
