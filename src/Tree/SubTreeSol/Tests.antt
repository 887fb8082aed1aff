-- ===== src/Tree/SubTreeSol/Tests.antt =====
-- The sub trees over free terms as hashes.
use zkopru.Base.{◌≡◌, refl, true, none, some, [], ◌∷◌, arith, ◌>>=◌}
use zkopru.Base.Terms.{leaf, pair, term_eq, pair_inj}
use zkopru.Tree.Hasher.{hasher_of}
use zkopru.Tree.Spec.{node}
use zkopru.Tree.LightRollUp.{latest_leaf_index}
use zkopru.Tree.Grove.{append_padded, fixed_size_len}
use zkopru.Tree.Grove.Appends.{Holds, hashes_of}
use zkopru.Tree.SubTreeSol.{sub_tree_root, empty_sub_tree_proof, append_as_sub_trees}
use zkopru.Tree.SubTreeSol.Short.{sub_tree_root_short}
use zkopru.Tree.SubTreeSol.Agrees.{submitted, append_as_sub_trees-append_padded}
use zkopru.Tree.Samples.{
  zero_leaf, hashes, no_leaves, empty_tree, two_leaves, empty_data-Represents,
}

sub_tree_root_short_example : sub_tree_root hashes 1 (leaf 5 ∷ []) ≡ none
sub_tree_root_short_example = sub_tree_root_short hashes 1 (leaf 5 ∷ []) (omega arith)

-- A full sub tree has a root.
full : sub_tree_root hashes 1 (leaf 5 ∷ leaf 7 ∷ []) ≡ some (pair (leaf 5) (leaf 7))
unfolding sub_tree_root hasher_of
full = refl

accepted :
    empty_sub_tree_proof hashes 1 (submitted empty_tree (pair zero_leaf zero_leaf ∷ [])) ≡ some true
unfolding empty_sub_tree_proof hasher_of latest_leaf_index node
accepted = refl

starts : Holds pair zero_leaf 2 no_leaves empty_tree
starts = record { hasher = refl; enough = omega arith; stands = empty_data-Represents }

append_as_sub_trees-append_padded_example :
    append_as_sub_trees hashes 1
      (hashes_of two_leaves)
      (submitted empty_tree (pair zero_leaf zero_leaf ∷ []))
    ≡ (append_padded zero_leaf 2 empty_tree [] two_leaves >>= λ r. some (r.0.data_of.root))
unfolding latest_leaf_index fixed_size_len
append_as_sub_trees-append_padded_example =
    append_as_sub_trees-append_padded pair zero_leaf 1 1 pair_inj empty_tree no_leaves
      (pair zero_leaf zero_leaf ∷ []) [] two_leaves starts refl refl refl (omega arith)
      (omega arith, omega arith) accepted
