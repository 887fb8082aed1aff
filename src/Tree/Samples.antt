-- ===== src/Tree/Samples.antt =====
-- Small trees over free terms as hashes: an empty light tree with two leaves to come, and a nullifier
-- tree with nothing spent.
use zkopru.Base.{ℕ, ◌≢◌, refl, ap, sym, true, false, none, List, [], ◌∷◌, arith}
use zkopru.Base.Terms.{Term, leaf, pair, number, term_eq}
use zkopru.Tree.Hasher.{Hasher, hasher_of}
use zkopru.Tree.Spec.{node, node-constant}
use zkopru.Tree.Nodes.{find}
use zkopru.Tree.LightRollUp.{Leaf, TreeData, LightRollUpTree}
use zkopru.Tree.LightRollUp.Represents.{Represents}
use zkopru.Tree.Nullifier.{NullifierTree}
use zkopru.Tree.Nullifier.Spend.{Stands, Fresh}

abbrev pub zero_leaf : Term
zero_leaf = leaf 0

abbrev pub hashes : Hasher Term
hashes = hasher_of pair zero_leaf 2

abbrev pub no_leaves : ℕ → Term
no_leaves i = zero_leaf

abbrev pub empty_data : TreeData Term
empty_data = record {
  root = node pair 2 0 no_leaves;
  index = 0;
  siblings = zero_leaf ∷ pair zero_leaf zero_leaf ∷ [];
}

abbrev pub empty_tree : LightRollUpTree Term
empty_tree = record {
  config = record { hasher = hashes; force_update = false; full_sync = true };
  metadata = record { start = 0; end = 0 };
  data_of = empty_data;
  depth = 2;
  rows = [];
}

abbrev pub two_leaves : List (Leaf Term)
two_leaves =
    record { hash = leaf 5; should_track = true }
    ∷ record { hash = leaf 7; should_track = false }
    ∷ []

pub empty_data-Represents : Represents pair zero_leaf 2 no_leaves empty_data
empty_data-Represents = record {
  root = refl;
  levels = refl;
  empty = λ j p. refl;
  fits = (λ h. absurd (ground (arith, h)), (λ h. absurd (ground (arith, h)), tt));
}

-- The value of a filled leaf.
abbrev pub filled : Term
filled = leaf 1

abbrev pub unspent : NullifierTree Term
unspent = record { hasher = hashes; depth = 2; root_node = none; rows = [] }

pub unspent-Stands : Stands pair zero_leaf no_leaves unspent
unfolding find
unspent-Stands = record {
  hashes = refl;
  cached = λ r h. absurd (ground (arith, h));
  top = sym (node-constant pair zero_leaf 2 0);
  below = λ l n k e small. sym (node-constant pair zero_leaf l k);
}

pub leaf_ne : zero_leaf ≢ filled
leaf_ne e = let n = ap number e in absurd (omega (arith, n))

pub spends-Fresh : Fresh 2 filled no_leaves (3 ∷ 1 ∷ [])
spends-Fresh = (omega arith, leaf_ne, (omega arith, leaf_ne, tt))
