-- ===== src/Tree/SmtSol/Tests.antt =====
-- The sparse tree of the contracts over free terms as hashes.
use zkopru.Base.{ℕ, ◌^◌, ◌≡◌, ◌<◌, refl, some, List, [], ◌∷◌, arith, All}
use zkopru.Base.Terms.{Term, pair, term_eq, pair_inj}
use zkopru.Tree.Hasher.{hasher_of}
use zkopru.Tree.Spec.{node}
use zkopru.Tree.Nullifier.Spend.{fill}
use zkopru.Tree.SmtSol.{batch_fill, smt_fill, smt_merkle_proof, calculate_root, AreOpen}
use zkopru.Tree.SmtSol.Fills.{batch_fill_sound}
use zkopru.Tree.Samples.{zero_leaf, hashes, no_leaves, filled}

abbrev spent : List ℕ
spent = 3 ∷ 1 ∷ []

rooms : All (λ i. i < 2 ^ 2) spent
rooms = (omega arith, (omega arith, tt))

abbrev paths : List (List Term)
paths = (zero_leaf ∷ pair zero_leaf zero_leaf ∷ []) ∷ (zero_leaf ∷ pair zero_leaf filled ∷ []) ∷ []

abbrev new_root : Term
new_root = pair (pair zero_leaf filled) (pair zero_leaf filled)

filled_root :
    batch_fill filled zero_leaf hashes (node pair 2 0 no_leaves) spent paths ≡ some new_root
unfolding batch_fill node hasher_of smt_fill smt_merkle_proof calculate_root
filled_root = refl

batch_fill_sound_example :
    AreOpen filled zero_leaf no_leaves spent
    × (new_root ≡ node pair 2 0 (fill filled no_leaves spent))
batch_fill_sound_example =
    batch_fill_sound pair filled zero_leaf zero_leaf 2 pair_inj no_leaves spent paths new_root rooms
      filled_root
